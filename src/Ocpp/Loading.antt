-- ===== src/Ocpp/Loading.antt =====
-- `OCPPSystem`: the start, the answers of the server and its notifications.
use ocpp_server.Base.{
  ℕ, String, Bool, true, false, ◌&&◌, none, some, List, [], ◌∷◌, map, ◌==◌, if◌then◌else◌, ◌<>◌,
}
use ocpp_server.Js.{
  nat, Value, num, str, arr, obj, end, items, truthy, type_error, Exn, fault, Outcome, returned,
  thrown, Eff, Done, lift, ◌>>=◌, ◌>>◌, modify, Host, prop, message, text_of, read,
}
use ocpp_server.Rpc.State.{Settled, resolved, rejected, nat_key, string_key}
use ocpp_server.Rpc.Emitter.{on}
use ocpp_server.Rpc.Monitor.{call, connect, default_url}
use ocpp_server.Ocpp.State.{
  Connector, Station, Screen, System, OcppWorld, Waiting, points_count, points_ids, Listener,
  on_connected, on_disconnected, on_failure, on_status_notification, on_meter_values, on_heartbeat,
  action, on_system,
}
use ocpp_server.Ocpp.View.{add_log, update_stations_list, show_connection}
use ocpp_server.Ocpp.Updates.{
  put_station, update_station, update_connector, update_connector_meter_values,
}
use ocpp_server.Ocpp.Commands.{acted}

abbrev pub connector : String → String → ℕ → ℕ → Connector
connector kind status meter power = record {
  kind = kind;
  status = str status;
  meter = num (nat meter);
  power = num (nat power);
}

-- `initDemoMode`
abbrev pub demo_stations : List (String × Station)
demo_stations =
    (
      "CS001",
      record {
        name = str "Станция 001";
        status = str "connected";
        connector_count = 4;
        max_power = 150;
        connectors =
            ("1", connector "GBT" "ok" 1250 0)
            ∷ ("2", connector "CCS2" "charge" 3200 50)
            ∷ ("3", connector "TYPE2" "unavailable" 0 0)
            ∷ ("4", connector "CHADEMO" "alarm-ev" 0 0)
            ∷ [];
      },
    )
    ∷ (
      "CS002",
      record {
        name = str "Станция 002";
        status = str "disconnected";
        connector_count = 2;
        max_power = 100;
        connectors = ("1", connector "TYPE2" "ok" 500 0) ∷ ("2", connector "CCS2" "ok" 800 0) ∷ [];
      },
    )
    ∷ (
      "CS003",
      record {
        name = str "Станция 003";
        status = str "error";
        connector_count = 3;
        max_power = 120;
        connectors =
            ("1", connector "GBT" "alarm-cp" 0 0)
            ∷ ("2", connector "TYPE2" "in" 1500 22)
            ∷ ("3", connector "CHADEMO" "charge" 2100 45)
            ∷ [];
      },
    )
    ∷ []

-- The station of `loadStationInfo`.
abbrev pub default_station : Value → Station
default_station id = record {
  name = id;
  status = str "connected";
  connector_count = 2;
  max_power = 150;
  connectors =
      ("1", connector "TYPE2" "available" 0 0) ∷ ("2", connector "CCS2" "available" 0 0) ∷ [];
}

module _ (host : Host) where
  abbrev parse_text : String → Value
  parse_text text = elim (host.parse text) [ none ↦ str text | some v ↦ v ]

  abbrev parse_result : Value → Value
  parse_result (str text) = parse_text text
  parse_result result = result

  unfoldable pub parse_response : Value → Value
  parse_response (str text) = parse_text text
  parse_response response =
      if truthy response && truthy (read host response "result")
      then parse_result (read host response "result")
      else response

  -- The values of `for (const id of v)`.
  abbrev pub iterated : Value → Outcome (List Value)
  iterated (arr vs) = returned (items vs)
  iterated (str text) = returned (map str (host.characters text))
  iterated _ = thrown (fault type_error)

  unfoldable pub load_station_info : Value → System → System
  unfolding update_stations_list
  load_station_info id s =
      update_stations_list host (put_station (text_of host id) (default_station id) s)

  unfoldable pub load_each : List Value → System → System
  unfolding load_station_info
  load_each [] s = s
  load_each (id ∷ ids) s = load_each ids (load_station_info id s)

  unfoldable pub load_failed : Exn → System → System
  unfolding update_stations_list add_log
  load_failed e s =
      update_stations_list host (add_log ("Error loading stations: " <> message host e) s)

  -- The end of `loadStations`: each `await` of `loadStationInfo` goes on at once.
  unfoldable pub ids_loaded : Settled → System → System
  unfolding load_each load_failed parse_response
  ids_loaded (rejected e) s = load_failed e s
  ids_loaded (resolved response) s = elim (iterated (parse_response response)) [
    | thrown e ↦ load_failed e s
    | returned ids ↦ load_each ids s
  ]

  module _ (sends : Bool) where
    unfoldable pub load_stations : OcppWorld → OcppWorld
    unfolding update_stations_list
    load_stations w =
        if w.page.connection_state == "connected"
        then call sends "getChargePointsCount" (obj end) points_count w
        else on_system (update_stations_list host) w

    -- What goes on when a promise is settled. The count of the stations is read and not used.
    unfoldable pub go_on : Waiting → Settled → OcppWorld → OcppWorld
    unfolding ids_loaded load_failed acted
    go_on points_count (resolved response) w = call sends "getChargePointIds" (obj end) points_ids w
    go_on points_count (rejected e) w = on_system (load_failed e) w
    go_on points_ids r w = on_system (ids_loaded r) w
    go_on (action a) r w = acted host a r w

    -- The handlers of `setupRpcHandlers`.
    unfoldable pub listen : Listener → Value → Eff OcppWorld Done
    unfolding show_connection load_stations add_log update_station update_connector
        update_connector_meter_values
    listen on_connected _ = do
      modify (on_system (λ s. record (show_connection true s) { connection_state = "connected" }))
      modify (load_stations)
    listen on_disconnected _ =
        modify
          (on_system (λ s. record (show_connection false s) { connection_state = "disconnected" }))
    listen on_failure e = do
      text ← lift (prop host e "message")
      modify (on_system (add_log ("Connection error: " <> text_of host text)))
    listen on_status_notification params = do
      id ← lift (prop host params "chargePointId")
      modify (
          on_system
            (update_connector host id (read host params "connectorId") (read host params "status")))
    listen on_meter_values params = do
      id ← lift (prop host params "chargePointId")
      (λ w.
          let r =
            update_connector_meter_values host id (read host params "connectorId")
              (read host params "meterValue") w.page in
          (r.0, record w { page = r.1 }))
    listen on_heartbeat params = do
      id ← lift (prop host params "chargePointId")
      modify (on_system (update_station host id (str "connected")))

    unfoldable pub setup_handlers : (opens : Bool) → OcppWorld → OcppWorld
    unfolding on
    setup_handlers opens w = connect opens default_url (
        on "heartbeat" on_heartbeat (
          on "meterValues" on_meter_values (
            on "statusNotification" on_status_notification (
              on "error" on_failure
                (on "disconnected" on_disconnected (on "connected" on_connected w))))))

    unfoldable pub init_demo_mode : OcppWorld → OcppWorld
    unfolding show_connection load_stations
    init_demo_mode w =
        load_stations
          (on_system (λ s. show_connection true (record s { stations = demo_stations })) w)

    -- `found` says whether the page has an `rpcClient`.
    unfoldable pub init_system : (found opens : Bool) → OcppWorld → OcppWorld
    unfolding setup_handlers init_demo_mode add_log
    init_system found opens w =
        on_system (add_log "Система OCPP 2.0.1 инициализирована")
          (if found then setup_handlers opens w else init_demo_mode w)

-- The fields that the constructor sets before `init`.
unfoldable pub new_system : Screen → System
new_system screen = record {
  stations = [];
  selected_station_id = none;
  selected_connector_id = none;
  connection_state = "disconnected";
  screen = screen;
}
