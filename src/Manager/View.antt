-- ===== src/Manager/View.antt =====
-- `StationManager`: the log, and the methods that show data in the elements of the page.
use ocpp_server.Base.{
  String, Bool, not, ◌&&◌, none, some, List, [], ◌∷◌, ◌++◌, ◌==◌, if◌then◌else◌, ◌<>◌,
}
use ocpp_server.Base.Dict.{Key}
use ocpp_server.Base.Dict
use ocpp_server.Js.{
  Value, str, truthy, is_undefined, Exn, Outcome, returned, thrown, Eff, Done, lift, gets, ◌>>=◌,
  ◌>>◌, modify, done, when, Host, prop, message, text_of, read, text_content, elements, positive,
}
use ocpp_server.Rpc.State.{nat_key, string_key}
use ocpp_server.Central.State.{Choice, Label, Kind, info, success, failure}
use ocpp_server.Central.View.{entry}
use ocpp_server.Manager.State.{ManagerPage, with_ui}

unfoldable pub add_entry : String → Kind → ManagerPage → ManagerPage
add_entry text kind = with_ui λ u. record u { log = u.log ++ entry kind text ∷ [] }

unfoldable pub write_info : String → ManagerPage → ManagerPage
unfolding add_entry
write_info text = add_entry text info

unfoldable pub write_success : String → ManagerPage → ManagerPage
unfolding add_entry
write_success text = add_entry text success

unfoldable pub write_error : String → ManagerPage → ManagerPage
unfolding add_entry
write_error text = add_entry text failure

-- A new element replaces the one that is there, or is put into the header.
unfoldable pub show_status : (connected : Bool) → ManagerPage → ManagerPage
show_status connected = with_ui λ u. record u {
  connection_status = some (
      if connected
      then record { text = "Подключено"; class_name = "connection-status connected" }
      else record { text = "Отключено"; class_name = "connection-status disconnected" });
}

-- `texts[v] || v`. The names that every object inherits are left out.
abbrev translated : Host → List (String × String) → Value → Value
translated host texts v = elim (Dict.get (text_of host v) texts) [ none ↦ v | some text ↦ str text ]

module _ (host : Host) where
  unfoldable pub status_text : Value → Value
  status_text =
      translated host
        (("working", "В работе") ∷ ("alarm", "Авария") ∷ ("disabled", "Отключена") ∷ [])

  unfoldable pub get_connector_type_text : Value → Value
  get_connector_type_text =
      translated host
        (("GBT", "GBT") ∷ ("CCS2", "CCS2") ∷ ("TYPE2", "TYPE2") ∷ ("CHADEMO", "CHADEMO") ∷ [])

  unfoldable pub get_connector_status_text : Value → Value
  get_connector_status_text = translated host (
      ("alarm-ev", "Alarm EV")
      ∷ ("alarm-cp", "Alarm CP")
      ∷ ("ok", "OK")
      ∷ ("charge", "Charge")
      ∷ ("in", "In")
      ∷ ("unavailable", "Unavailable")
      ∷ [])

  abbrev pub status_label : Value → Label
  unfolding status_text
  status_label status = record {
    text = text_content host (status_text status);
    class_name = "info-item__value status--" <> text_of host status;
  }

  abbrev pub connector_status_label : Value → Label
  unfolding get_connector_status_text
  connector_status_label status = record {
    text = text_content host (get_connector_status_text status);
    class_name = "info-item__value status-indicator status-indicator--" <> text_of host status;
  }

  unfoldable pub write_rpc_error : String → Exn → ManagerPage → ManagerPage
  unfolding write_error
  write_rpc_error user_message e = write_error (
      user_message
      <> ": "
      <> (if message host e == "" then "Неизвестная ошибка" else message host e))

  abbrev pub station_option : Value → Outcome Choice
  station_option station = elim (prop host station "id") [
    | thrown e ↦ thrown e
    | returned id ↦ returned (record {
      value = text_of host id;
      text =
          if truthy (read host station "name")
          then text_of host (read host station "name")
          else "Станция " <> text_of host id;
    })
  ]

  unfoldable pub append_station_options : List Value → Eff ManagerPage Done
  append_station_options [] = done
  append_station_options (station ∷ rest) = do
    choice ← lift (station_option station)
    modify (with_ui (λ u. record u { station_options = u.station_options ++ choice ∷ [] }))
    append_station_options rest

  -- The list is emptied before `forEach` is looked up.
  unfoldable pub update_stations_dropdown : Value → Eff ManagerPage Done
  unfolding append_station_options
  update_stations_dropdown stations = do
    modify (with_ui (λ u. record u { station_options = [] }))
    vs ← lift (elements stations)
    append_station_options vs

  abbrev pub connector_option : Value → Outcome Choice
  connector_option connector = elim (prop host connector "id") [
    | thrown e ↦ thrown e
    | returned id ↦
        returned (record { value = text_of host id; text = "Коннектор " <> text_of host id })
  ]

  unfoldable pub append_connector_options : List Value → Eff ManagerPage Done
  append_connector_options [] = done
  append_connector_options (connector ∷ rest) = do
    choice ← lift (connector_option connector)
    modify (with_ui (λ u. record u { connector_options = u.connector_options ++ choice ∷ [] }))
    append_connector_options rest

  -- `v && v.length > 0`
  abbrev pub is_listed : Value → Bool
  is_listed v = truthy v && positive host (read host v "length")

  unfoldable pub show_connectors : Value → Eff ManagerPage Done
  unfolding append_connector_options
  show_connectors connectors = do
    modify (with_ui (λ u. record u { connector_options = [] }))
    when (is_listed connectors) (do vs ← lift (elements connectors); append_connector_options vs)

  -- The status is shown in the element that has the class status--working, if one has it.
  unfoldable pub show_station_info : Value → Eff ManagerPage Done
  show_station_info data' = do
    found ← gets (λ p. host.has_class p.ui.station_status.class_name "status--working")
    when found (do
      status ← lift (prop host data' "status")
      modify (with_ui (λ u. record u { station_status = status_label status })))
    connectors ← lift (prop host data' "connectors")
    when (truthy connectors) (
        modify (
          with_ui (λ u. record u {
            connectors_count = text_content host (read host connectors "length");
          })))
    when (truthy (read host data' "maxPower")) (
        modify (
          with_ui
            (λ u. record u { max_power = text_of host (read host data' "maxPower") <> " кВт" })))

  abbrev write_meter : Value → ManagerPage → ManagerPage
  write_meter v = with_ui λ u. record u { meter = text_of host v <> " kWh" }

  abbrev write_power : Value → ManagerPage → ManagerPage
  write_power v = with_ui λ u. record u { power = text_of host v <> " kW" }

  unfoldable pub show_connector_info : Value → Eff ManagerPage Done
  unfolding get_connector_type_text
  show_connector_info data' = do
    type ← lift (prop host data' "type")
    modify (
        with_ui
          (λ u. record u { connector_type = text_content host (get_connector_type_text type) }))
    modify (
        with_ui
          (λ u. record u { connector_status = connector_status_label (read host data' "status") }))
    when (not (is_undefined (read host data' "meter")))
        (modify (write_meter (read host data' "meter")))
    when (not (is_undefined (read host data' "power")))
        (modify (write_power (read host data' "power")))

  unfoldable pub show_station_status : Value → ManagerPage → ManagerPage
  show_station_status status = with_ui λ u. record u { station_status = status_label status }

  unfoldable pub show_connector_status : Value → ManagerPage → ManagerPage
  show_connector_status status =
      with_ui λ u. record u { connector_status = connector_status_label status }

  unfoldable pub show_meter_values : Value → Eff ManagerPage Done
  show_meter_values values = do
    meter ← lift (prop host values "meter")
    when (not (is_undefined meter)) (modify (write_meter meter))
    when (not (is_undefined (read host values "power")))
        (modify (write_power (read host values "power")))
