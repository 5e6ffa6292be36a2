-- ===== src/Central/View.antt =====
-- `CentralSystem`: the log, and the methods that show data in the elements of the page.
use ocpp_server.Base.{
  String, Bool, true, false, not, ◌&&◌, none, some, List, [], ◌∷◌, ◌++◌, map, ◌==◌, ltb,
  if◌then◌else◌, ◌<>◌, length,
}
use ocpp_server.Js.{
  Value, str, truthy, strict_eq, is_undefined, is_nullish, Exn, Outcome, returned, thrown, Done,
  lift, ◌>>=◌, ◌>>◌, modify, done, when, Host, prop, message, text_of, read, text_content,
  fixed_text, upper_text, elements, positive,
}
use ocpp_server.Rpc.State.{nat_key, string_key}
use ocpp_server.Central.State.{Choice, Kind, info, success, failure, Entry, World, Act, on_ui}

abbrev pub entry : Kind → String → Entry
entry kind text = record { kind = kind; message = text }

unfoldable pub add_log_entry : String → Kind → World → World
add_log_entry text kind = on_ui λ u. record u { log = u.log ++ entry kind text ∷ [] }

unfoldable pub log : String → World → World
unfolding add_log_entry
log text = add_log_entry text info

unfoldable pub log_success : String → World → World
unfolding add_log_entry
log_success text = add_log_entry text success

unfoldable pub log_error : String → World → World
unfolding add_log_entry
log_error text = add_log_entry text failure

abbrev or_unknown : String → String
or_unknown text = if text == "" then "Неизвестная ошибка" else text

-- The texts of `statusMap`; its keys are the whole texts given.
unfoldable pub get_status_text : String → String
get_status_text status =
    if status == "working"
    then "В работе"
    else (if status == "alarm"
        then "Авария"
        else (if status == "disabled"
            then "Отключена"
            else (if status == "" then "Не определно" else status)))

-- `updateConnectionStatus(flag)`
unfoldable pub update_connection_status : Bool → World → World
update_connection_status flag = on_ui λ u.
    if flag
    then record u {
      status_led = "status-indicator__led status-indicator__led--connected";
      status_text = "Соединение установлено";
      connect_disabled = true;
      disconnect_disabled = false;
    }
    else record u {
      status_led = "status-indicator__led status-indicator__led--disconnected";
      status_text = "Соединение отсутствует";
      connect_disabled = false;
      disconnect_disabled = true;
    }

abbrev pub blank : Choice
blank = record { value = ""; text = "" }

unfoldable pub set_first_connector_in_dropdown : World → World
set_first_connector_in_dropdown = on_ui λ u.
    if ltb 0 (length u.connector_options)
    then record u { connector_index = if ltb 1 (length u.connector_options) then some 1 else none }
    else u

module _ (host : Host) where
  unfoldable pub handle_rpc_error : String → Exn → World → World
  unfolding log_error
  handle_rpc_error user_message e = log_error (user_message <> ": " <> or_unknown (message host e))

  abbrev pub station_choice : Value → Choice
  station_choice station = record {
    value = text_of host station;
    text = if truthy station then text_of host station else "Станция #" <> text_of host station;
  }

  abbrev append_stations : List Value → World → World
  append_stations vs =
      on_ui λ u. record u { station_options = u.station_options ++ map station_choice vs }

  -- The list is emptied before `forEach` is looked up, which throws where `stations` is no array.
  unfoldable pub update_station_dropdown : Value → Act Done
  update_station_dropdown stations = do
    modify (on_ui (λ u. record u { station_options = blank ∷ [] }))
    vs ← lift (elements stations)
    modify (append_stations vs)

  abbrev connector_choice : Value → Outcome Choice
  connector_choice connector = elim (prop host connector "id") [
    | thrown e ↦ thrown e
    | returned id ↦
        returned (record { value = text_of host id; text = "Коннектор " <> text_of host id })
  ]

  unfoldable pub append_connector : Value → Act Done
  append_connector v = do
    choice ← lift (connector_choice v)
    modify (on_ui (λ u. record u { connector_options = u.connector_options ++ choice ∷ [] }))

  unfoldable pub append_connectors : List Value → Act Done
  unfolding append_connector
  append_connectors [] = done
  append_connectors (v ∷ vs) = append_connector v >> append_connectors vs

  -- `connectors && connectors.length > 0`
  abbrev pub some_connectors : Value → Bool
  some_connectors connectors = truthy connectors && positive host (read host connectors "length")

  unfoldable pub update_connectors_dropdown : Value → Act Done
  unfolding append_connectors
  update_connectors_dropdown connectors = do
    modify (on_ui (λ u. record u { connector_options = []; connector_index = none }))
    when (some_connectors connectors) (do
      modify (on_ui (λ u. record u { connector_options = blank ∷ []; connector_index = some 0 }))
      vs ← lift (elements connectors)
      append_connectors vs)

  -- The `switch` of `updateStationStatus`.
  abbrev pub status_string : Value → Outcome String
  status_string status =
      if strict_eq status (str "ok")
      then returned "В работе"
      else (if strict_eq status (str "alarm")
          then returned "Авария"
          else (if strict_eq status (str "off")
              then returned "Не работает"
              else upper_text host status))

  unfoldable pub update_station_status : Value → Act Done
  unfolding get_status_text
  update_station_status status = do
    status_str ← lift (status_string status)
    modify (
        on_ui (λ u. record u {
          station_status = record {
            text = get_status_text status_str;
            class_name = "info-item__value status--" <> text_of host status;
          };
        }))

  unfoldable pub update_connector_status : Value → World → World
  update_connector_status status = on_ui λ u. record u {
    connector_status = record {
      text = text_content host status;
      class_name = "info-item__value status-indicator status-indicator--" <> text_of host status;
    };
  }

  unfoldable pub update_meter_values : Value → Act Done
  update_meter_values meter = do
    text ← lift (fixed_text host meter)
    modify (on_ui (λ u. record u { meter = text <> " кВт*ч" }))

  unfoldable pub update_power : Value → Act Done
  update_power power = do
    text ← lift (fixed_text host power)
    modify (on_ui (λ u. record u { power = text <> " кВт" }))

  unfoldable pub update_station_info : Value → Act Done
  unfolding update_station_status
  update_station_info station_data = do
    status ← lift (prop host station_data "status")
    update_station_status status
    when (truthy (read host station_data "connectors")) (
        modify (
          on_ui (λ u. record u {
            connectors_count =
                text_content host (read host (read host station_data "connectors") "length");
          })))
    when (truthy (read host station_data "max_power")) (
        modify (
          on_ui (λ u. record u {
            max_power = text_of host (read host station_data "max_power") <> " кВт";
          })))

  unfoldable pub update_connector_info : Value → Act Done
  unfolding update_connector_status update_meter_values update_power
  update_connector_info connector_data = do
    type ← lift (prop host connector_data "type")
    modify (on_ui (λ u. record u { connector_type = text_content host type }))
    modify (update_connector_status (read host connector_data "status"))
    when (not (is_nullish (read host connector_data "meter")))
        (update_meter_values (read host connector_data "meter"))
    when (not (is_undefined (read host connector_data "power")))
        (update_power (read host connector_data "power"))
