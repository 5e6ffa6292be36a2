-- ===== src/Manager/Commands.antt =====
-- `StationManager`: the buttons. Each sends one request and tells of its outcome in the log.
use ocpp_server.Base.{String, Bool, ◌||◌, ◌==◌, if◌then◌else◌, ◌<>◌}
use ocpp_server.Js.{Value, undefined, str, obj, end, field, truthy, Host, text_of}
use ocpp_server.Rpc.State.{Settled, resolved, rejected, nat_key, string_key}
use ocpp_server.Rpc.Monitor.{call}
use ocpp_server.Central.Selection.{parse_response}
use ocpp_server.Manager.State.{
  ManagerPage, Task, disable_station, get_station_info, get_configuration, get_variable,
  set_variable, reboot_station, clear_cache, request_start_transaction, request_stop_transaction,
  unlock_connector, trigger_status_notification, trigger_heartbeat, trigger_meter_values, task,
  ManagerWorld, on_manager,
}
use ocpp_server.Manager.View.{write_info, write_success, write_error, write_rpc_error}

-- The texts of the fields that a button reads.
pub record Form : Type 0 where
  pub component : String
  pub variable : String
  pub attribute : String
  pub evse : String

-- `if (!this.validateCurrentStation()) return;` and the same for the connector
unfoldable pub require_station : (ManagerWorld → ManagerWorld) → ManagerWorld → ManagerWorld
unfolding write_error
require_station act w =
    if truthy w.page.current_station
    then act w
    else on_manager (write_error "Сначала выберите станцию") w

unfoldable pub require_connector : (ManagerWorld → ManagerWorld) → ManagerWorld → ManagerWorld
unfolding write_error
require_connector act w =
    if truthy w.page.current_connector
    then act w
    else on_manager (write_error "Сначала выберите коннектор") w

abbrev pub station_only : ManagerWorld → Value
station_only w = obj (field "stationId" w.page.current_station end)

abbrev pub both_ids : ManagerWorld → Value
both_ids w =
    obj
      (field "stationId" w.page.current_station (field "connectorId" w.page.current_connector end))

-- `evseIdInput.value || this.currentConnector`
abbrev pub chosen_evse : Form → ManagerWorld → Value
chosen_evse form w = if form.evse == "" then w.page.current_connector else str form.evse

module _ (host : Host) (sends : Bool) where
  -- A request with no parameter but the station.
  unfoldable pub ask_station : String → Task → ManagerWorld → ManagerWorld
  unfolding require_station
  ask_station method t = require_station λ w. call sends method (station_only w) (task t) w

  unfoldable pub ask_connector : String → Task → ManagerWorld → ManagerWorld
  unfolding require_connector
  ask_connector method t = require_connector λ w. call sends method (both_ids w) (task t) w

  unfoldable pub start_disable : ManagerWorld → ManagerWorld
  unfolding require_station write_info
  start_disable = require_station λ w.
      call sends "DisableStation" (station_only w) (task disable_station)
        (on_manager (write_info ("Отключение станции " <> text_of host w.page.current_station)) w)

  unfoldable pub start_set : Form → ManagerWorld → ManagerWorld
  unfolding require_station write_error
  start_set form = require_station λ w.
      if form.component == "" || form.variable == ""
      then on_manager (write_error "Заполните обязательные поля: Component и Variable") w
      else call sends "SetVariable"
          (obj (
            field "stationId" w.page.current_station (
              field "component" (str form.component) (
                field "variable" (str form.variable) (
                  field "attribute" (if form.attribute == "" then undefined else str form.attribute)
                    end)))))
          (task set_variable) w

  unfoldable pub start_trigger_meter : Form → ManagerWorld → ManagerWorld
  unfolding require_station
  start_trigger_meter form = require_station λ w.
      call sends "TriggerMeterValues"
        (obj (field "stationId" w.page.current_station (field "evseId" (chosen_evse form w) end)))
        (task (trigger_meter_values (chosen_evse form w))) w

  -- The method that a button calls. What the last one asks for, it finds out itself.
  unfoldable pub begin_task : Task → Form → ManagerWorld → ManagerWorld
  unfolding start_disable ask_station start_set ask_connector start_trigger_meter
  begin_task disable_station form = start_disable
  begin_task get_station_info form = ask_station "GetStationInfo" get_station_info
  begin_task get_configuration form = ask_station "GetConfiguration" get_configuration
  begin_task get_variable form = ask_station "GetVariable" get_variable
  begin_task set_variable form = start_set form
  begin_task reboot_station form = ask_station "RebootStation" reboot_station
  begin_task clear_cache form = ask_station "ClearCache" clear_cache
  begin_task request_start_transaction form =
      ask_connector "RequestStartTransaction" request_start_transaction
  begin_task request_stop_transaction form =
      ask_connector "RequestStopTransaction" request_stop_transaction
  begin_task unlock_connector form = ask_connector "UnlockConnector" unlock_connector
  begin_task trigger_status_notification form =
      ask_station "TriggerStatusNotification" trigger_status_notification
  begin_task trigger_heartbeat form = ask_station "TriggerHeartbeat" trigger_heartbeat
  begin_task (trigger_meter_values evse_id) form = start_trigger_meter form

module _ (host : Host) where
  abbrev answer_text : Value → String
  answer_text response = host.stringify (parse_response host response)

  -- What the log says where the request succeeded.
  unfoldable pub task_succeeded : Task → Value → ManagerPage → ManagerPage
  unfolding write_info write_success parse_response
  task_succeeded disable_station _ = write_success "Станция успешно отключена"
  task_succeeded get_station_info response = λ p.
      write_info ("Информация о станции: " <> answer_text response)
        (write_success "Информация о станции получена" p)
  task_succeeded get_configuration response = λ p.
      write_info ("Конфигурация: " <> answer_text response)
        (write_success "Конфигурация получена" p)
  task_succeeded get_variable response = λ p.
      write_info ("Переменные: " <> answer_text response) (write_success "Переменные получены" p)
  task_succeeded set_variable _ = write_success "Переменная успешно записана"
  task_succeeded reboot_station _ = write_success "Команда перезагрузки отправлена"
  task_succeeded clear_cache _ = write_success "Кэш успешно очищен"
  task_succeeded request_start_transaction _ = write_success "Запрос на начало транзакции отправлен"
  task_succeeded request_stop_transaction _ =
      write_success "Запрос на остановку транзакции отправлен"
  task_succeeded unlock_connector _ = write_success "Команда разблокировки коннектора отправлена"
  task_succeeded trigger_status_notification _ = write_success "Status notification triggered"
  task_succeeded trigger_heartbeat _ = write_success "Heartbeat triggered"
  task_succeeded (trigger_meter_values evse_id) _ =
      write_success ("Meter values triggered for EVSE: " <> text_of host evse_id)

  abbrev pub task_error : Task → String
  task_error disable_station = "Ошибка отключения станции"
  task_error get_station_info = "Ошибка получения информации о станции"
  task_error get_configuration = "Ошибка получения конфигурации"
  task_error get_variable = "Ошибка получения переменных"
  task_error set_variable = "Ошибка записи переменной"
  task_error reboot_station = "Ошибка перезагрузки станции"
  task_error clear_cache = "Ошибка очистки кэша"
  task_error request_start_transaction = "Ошибка начала транзакции"
  task_error request_stop_transaction = "Ошибка остановки транзакции"
  task_error unlock_connector = "Ошибка разблокировки коннектора"
  task_error trigger_status_notification = "Ошибка trigger StatusNotification"
  task_error trigger_heartbeat = "Ошибка trigger Heartbeat"
  task_error (trigger_meter_values evse_id) = "Ошибка trigger MeterValues"

  -- The methods after their `await`.
  unfoldable pub task_ended : Task → Settled → ManagerPage → ManagerPage
  unfolding task_succeeded write_rpc_error
  task_ended t (resolved response) = task_succeeded t response
  task_ended t (rejected e) = write_rpc_error host (task_error t) e
