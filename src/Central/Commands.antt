-- ===== src/Central/Commands.antt =====
-- `CentralSystem`: the buttons of the station and of the connector. Each sends one request and tells
-- of its outcome in the log.
use ocpp_server.Base.{
  String, ◌≡◌, inl, inr, Bool, true, false, not, ◌||◌, if◌then◌else◌, ◌<>◌, Bool-cases,
}
use ocpp_server.Js.{
  Value, undefined, str, obj, end, field, truthy, reference_error, Exn, fault, Done, throw, modify,
  Host, text_of,
}
use ocpp_server.Rpc.State.{Settled, resolved, rejected, nat_key, string_key}
use ocpp_server.Central.State.{
  Command, disconnect_station, change_availability, get_station_info, get_configuration,
  get_variable, set_variable, reboot_station, clear_cache, request_start_transaction,
  request_stop_transaction, unlock_connector, trigger_status_notification, trigger_heartbeat,
  trigger_meter_values, command, World, Act, station_value, connector_value,
}
use ocpp_server.Central.View.{log, log_success, log_error, handle_rpc_error}
use ocpp_server.Central.Selection.{rpc_call, parse_response}

-- `validateCurrentStation`
unfoldable pub validate_current_station : World → Bool × World
validate_current_station w =
    if not (truthy (station_value w))
    then (false, log_error "Сначала выберите станцию" w)
    else (true, w)

-- `if (!this.validateCurrentStation()) return;`
unfoldable pub with_station : (World → World) → World → World
unfolding validate_current_station
with_station act w = let r = validate_current_station w in if r.0 then act r.1 else r.1

abbrev pub station_params : World → Value
station_params w = obj (field "station_id" (station_value w) end)

abbrev pub connector_params : World → Value
connector_params w =
    obj (field "station_id" (station_value w) (field "connector_id" (connector_value w) end))

-- An element of the page, as a value: `JSON.stringify` writes it as an object with no fields.
abbrev pub element : Value
element = obj end

-- Without a station the click is refused by a line in the log; with one the method goes on.
pub with_station_lem :
    (act : World → World) (w : World)
    → with_station act w
      ≡ (if truthy (station_value w) then act w else log_error "Сначала выберите станцию" w)
unfolding with_station
with_station_lem act w = elim (Bool-cases (truthy (station_value w))) [
  | inl there ↦ rw there
  | inr missing ↦ rw missing
]

-- The methods up to their `await`. `sends` says whether the socket takes the request.
module _ (host : Host) (sends : Bool) where
  unfoldable pub start_disconnect_station : World → World
  start_disconnect_station = with_station λ w.
      let w' = log ("Отключение станции " <> text_of host (station_value w)) w in
      rpc_call sends "DisconnectStation" (station_params w') (command disconnect_station) w'

  unfoldable pub start_change_availability : World → World
  start_change_availability = with_station λ w.
      let cmd = if w.page.ui.availability_on then "Available" else "Unavailable" in
      rpc_call sends "ChangeAvailability"
        (obj (field "station_id" (station_value w) (field "command" (str cmd) end)))
        (command change_availability) w

  unfoldable pub start_get_station_info : World → World
  start_get_station_info =
      with_station
        λ w. rpc_call sends "GetStationInfo" (station_params w) (command get_station_info) w

  unfoldable pub start_get_configuration : World → World
  start_get_configuration =
      with_station
        λ w. rpc_call sends "GetConfiguration" (station_params w) (command get_configuration) w

  unfoldable pub start_get_variable : World → World
  start_get_variable =
      with_station λ w. rpc_call sends "GetVariable" (station_params w) (command get_variable) w

  -- The three constants are the elements, not their texts.
  unfoldable pub start_set_variable : World → World
  start_set_variable = with_station λ w.
      let component : Value = element in
      let variable : Value = element in
      let attribute : Value = element in
      if not (truthy component) || not (truthy variable)
      then log_error "Заполните обязательные поля: Component и Variable" w
      else rpc_call sends "SetVariable"
          (obj (
            field "station_id" (station_value w) (
              field "component" component (
                field "variable" variable
                  (field "attribute" (if truthy attribute then attribute else undefined) end)))))
          (command set_variable) w

  unfoldable pub start_reboot_station : World → World
  start_reboot_station =
      with_station λ w. rpc_call sends "RebootStation" (station_params w) (command reboot_station) w

  unfoldable pub start_clear_cache : World → World
  start_clear_cache =
      with_station λ w. rpc_call sends "ClearCache" (station_params w) (command clear_cache) w

  unfoldable pub start_request_start_transaction : World → World
  start_request_start_transaction = with_station λ w.
      rpc_call sends "RequestStartTransaction" (connector_params w)
        (command request_start_transaction) w

  unfoldable pub start_request_stop_transaction : World → World
  start_request_stop_transaction = with_station λ w.
      rpc_call sends "RequestStopTransaction" (connector_params w)
        (command request_stop_transaction) w

  unfoldable pub start_unlock_connector : World → World
  start_unlock_connector =
      with_station
        λ w. rpc_call sends "UnlockConnector" (connector_params w) (command unlock_connector) w

  -- `value` is that of the element that the method looks up, which is the button itself.
  unfoldable pub start_trigger_meter_values : (value : String) → World → World
  start_trigger_meter_values value = with_station λ w.
      let evse_id = if truthy (str value) then str value else connector_value w in
      rpc_call sends "TriggerMeterValues"
        (obj (field "stastionId" (station_value w) (field "evseId" evse_id end)))
        (command (trigger_meter_values evse_id)) w

  unfoldable pub start_trigger_status_notification : World → World
  start_trigger_status_notification = with_station λ w.
      rpc_call sends "TriggerStatusNotification" (station_params w)
        (command trigger_status_notification) w

  unfoldable pub start_trigger_heartbeat : World → World
  start_trigger_heartbeat =
      with_station
        λ w. rpc_call sends "TriggerHeartbeat" (station_params w) (command trigger_heartbeat) w

-- The methods after their `await`: what the log says where the request succeeded.
module _ (host : Host) where
  abbrev shown : Value → String
  shown response = host.stringify (parse_response host response)

  unfoldable pub succeeded : Command → Value → World → World
  unfolding log log_success parse_response
  succeeded disconnect_station _ = log_success "Станция успешно отключена"
  succeeded change_availability _ = log "Доступность станции изменена"
  succeeded get_station_info response = log ("Информация о станции: " <> shown response)
  succeeded get_configuration response =
      λ w. log ("Конфигурация: " <> shown response) (log_success "Конфигурация получена" w)
  succeeded get_variable response =
      λ w. log ("Переменные: " <> shown response) (log_success "Переменные получены" w)
  succeeded set_variable _ = log_success "Переменная успешно записана"
  succeeded reboot_station _ = log_success "Команда перезагрузки отправлена"
  succeeded clear_cache _ = log_success "Кэш успешно очищен"
  succeeded request_start_transaction _ = log_success "Запрос на начало транзакции отправлен"
  succeeded request_stop_transaction _ = log_success "Запрос на остановку транзакции отправлен"
  succeeded unlock_connector _ = log_success "Команда разблокировки коннектора отправлена"
  succeeded trigger_status_notification _ = log_success "Status notification triggered"
  succeeded trigger_heartbeat _ = log_success "Heartbeat triggered"
  succeeded (trigger_meter_values evse_id) _ =
      log_success ("Meter values triggered for EVSE: " <> text_of host evse_id)

  abbrev pub user_message : Command → String
  user_message disconnect_station = "Ошибка отключения станции"
  user_message change_availability = "Ошибка изменения доступности станции"
  user_message get_station_info = "Ошибка получения информации о станции"
  user_message get_configuration = "Ошибка получения конфигурации"
  user_message get_variable = "Ошибка получения переменных"
  user_message set_variable = "Ошибка записи переменной"
  user_message reboot_station = "Ошибка перезагрузки станции"
  user_message clear_cache = "Ошибка очистки кэша"
  user_message request_start_transaction = "Ошибка начала транзакции"
  user_message request_stop_transaction = "Ошибка остановки транзакции"
  user_message unlock_connector = "Ошибка разблокировки коннектора"
  user_message trigger_status_notification = "Ошибка trigger StatusNotification"
  user_message trigger_heartbeat = "Ошибка trigger Heartbeat"
  user_message (trigger_meter_values evse_id) = "Ошибка trigger MeterValues"

  -- The `catch` of `unlockConnector` binds `errro` and reads `error`, which is not there.
  unfoldable pub failed : Command → Exn → Act Done
  unfolding handle_rpc_error
  failed unlock_connector e = throw (fault reference_error)
  failed c e = modify (handle_rpc_error host (user_message c) e)

  unfoldable pub commanded : Command → Settled → Act Done
  unfolding succeeded failed
  commanded c (resolved response) = modify (succeeded c response)
  commanded c (rejected e) = failed c e
