-- ===== src/Ocpp/View.antt =====
-- `OCPPSystem`: what the page shows of the stations, and the choice of a station and of a connector.
use ocpp_server.Base.{
  String, Bool, ◌||◌, none, some, [], ◌∷◌, ◌++◌, map, ◌==◌, if◌then◌else◌, ◌<>◌, length,
}
use ocpp_server.Base.Dict.{Key}
use ocpp_server.Base.Dict
use ocpp_server.Js.{
  nat, Value, str, strict_eq, type_error, fault, Outcome, returned, thrown, Eff, Done, lift, gets,
  ◌>>=◌, ◌>>◌, modify, Host, text_of, text_content,
}
use ocpp_server.Rpc.State.{nat_key, string_key}
use ocpp_server.Central.State.{Choice, Label}
use ocpp_server.Ocpp.State.{Connector, Station, Screen, System, on_screen, optional}

unfoldable pub add_log : String → System → System
add_log text = on_screen λ c. record c { log_content = c.log_content ++ text ∷ [] }

unfoldable pub clear_log : System → System
unfolding add_log
clear_log s = add_log "Лог очищен" (on_screen (λ c. record c { log_content = [] }) s)

unfoldable pub alert : String → System → System
alert text = on_screen λ c. record c { alerts = c.alerts ++ text ∷ [] }

unfoldable pub show_connection : Bool → System → System
unfolding add_log
show_connection connected =
    add_log ("Статус соединения: " <> (if connected then "Connected" else "Disconnected"))

-- The text and the colour of the status of a station.
unfoldable pub station_display : Value → String × String
station_display status =
    if strict_eq status (str "connected")
    then ("Connected", "#27ae60")
    else (if strict_eq status (str "disconnected")
        then ("Disconnected", "#95a5a6")
        else (if strict_eq status (str "error")
            then ("Error", "#e74c3c")
            else (if strict_eq status (str "charging")
                then ("Charging", "#3498db")
                else ("Unknown", "#95a5a6"))))

unfoldable pub update_station_display : Value → System → System
update_station_display status = on_screen λ c. record c {
  station_text = (station_display status).0;
  station_icon = (station_display status).1;
}

abbrev is_one_of : Value → String → String → Bool
is_one_of status a b = strict_eq status (str a) || strict_eq status (str b)

-- The text and the class, after `connector-status`, of the status of a connector.
unfoldable pub connector_display : Value → String × String
connector_display status =
    if strict_eq status (str "alarm-ev")
    then ("Alarm EV", "status-alarm-ev")
    else (if strict_eq status (str "alarm-cp")
        then ("Alarm CP", "status-alarm-cp")
        else (if is_one_of status "ok" "available"
            then ("OK", "status-ok")
            else (if is_one_of status "charge" "charging"
                then ("Charge", "status-charge")
                else (if is_one_of status "in" "occupied"
                    then ("In", "status-in")
                    else (if strict_eq status (str "unavailable")
                        then ("Unavailable", "status-unavailable")
                        else ("Unknown", "status-unavailable"))))))

unfoldable pub connector_label : Value → Label
connector_label status = record {
  text = (connector_display status).0;
  class_name = "connector-status " <> (connector_display status).1;
}

unfoldable pub update_connector_status_display : Value → System → System
update_connector_status_display status =
    on_screen λ c. record c { connector_status = connector_label status }

abbrev pub choice : String → String → Choice
choice value text = record { value = value; text = text }

-- `this.stations[id]`, of which a field is read next.
unfoldable pub station_at : String → Eff System Station
station_at id s = elim (Dict.get id s.stations) [
  | none ↦ (thrown (fault type_error), s)
  | some station ↦ (returned station, s)
]

unfoldable pub update_connectors_list : String → Eff System Done
update_connectors_list id = do
  station ← station_at id
  modify (
      on_screen λ c. record c {
        connector_select =
            choice "" "-- Выберите коннектор --"
            ∷ map (λ e. choice e.0 ("Коннектор " <> e.0)) station.connectors;
      })

module _ (host : Host) where
  abbrev pub station_title : String → Station → String
  station_title id station = id <> " - " <> text_of host station.name

  -- The options in the order of insertion: no name of a station is an index.
  unfoldable pub update_stations_list : System → System
  unfolding add_log
  update_stations_list s =
      add_log ("Загружено станций: " <> host.number_text (nat (length s.stations))) (
        on_screen
          (λ c. record c {
            station_select =
                choice "" "-- Выберите станцию --"
                ∷ map (λ e. choice e.0 (station_title e.0 e.1)) s.stations;
          })
          s)

  abbrev show_texts : String → Station → Screen → Screen
  show_texts id station c = record c {
    station_id = station_title id station;
    count_text = "Connector count: " <> host.number_text (nat station.connector_count);
    power_text = "Максимальная мощность: " <> host.number_text (nat station.max_power) <> " kW";
  }

  unfoldable pub handle_station_select : String → Eff System Done
  unfolding update_connectors_list station_at update_station_display add_log
  handle_station_select id =
      if id == ""
      then modify (
          on_screen λ c. record c {
            station_info = "none";
            connector_selector = "none";
            connector_info = "none";
          })
      else (do
        modify (λ s. record s { selected_station_id = some id })
        station ← station_at id
        modify (on_screen (show_texts id station))
        modify (update_station_display station.status)
        modify (on_screen λ c. record c { station_info = "flex" })
        update_connectors_list id
        modify (on_screen λ c. record c { connector_selector = "block" })
        modify (add_log ("Выбрана станция: " <> id)))

  -- `station.connectors[id]`, of which a field is read next.
  unfoldable pub connector_at : String → Station → Outcome Connector
  connector_at id station = elim (Dict.get id station.connectors) [
    | none ↦ thrown (fault type_error)
    | some connector ↦ returned connector
  ]

  abbrev pub show_connector : Connector → Screen → Screen
  show_connector connector c = record c {
    connector_type = connector.kind;
    connector_meter = text_content host connector.meter;
    connector_power = text_content host connector.power;
  }

  unfoldable pub handle_connector_select : String → Eff System Done
  unfolding station_at connector_at update_connector_status_display add_log
  handle_connector_select id =
      if id == "" then modify (on_screen λ c. record c { connector_info = "none" }) else (do
        modify (λ s. record s { selected_connector_id = some id })
        selected ← gets (λ s. text_of host (optional s.selected_station_id))
        station ← station_at selected
        connector ← lift (connector_at id station)
        modify (on_screen (show_connector connector))
        modify (update_connector_status_display connector.status)
        modify (on_screen λ c. record c { connector_info = "block" })
        modify (add_log ("Выбран коннектор " <> id <> " на станции " <> selected)))
