-- ===== src/Tests/Stations.antt =====
-- `OCPPSystem` on its demo data.
use ocpp_server.Base.{◌++◌, ◌≡◌, refl, ap, true, false, none, some, [], ◌∷◌}
use ocpp_server.Base.Dict.{Key}
use ocpp_server.Base.Dict
use ocpp_server.Js.{nat, undefined, null, num, str, obj, end, text_of}
use ocpp_server.Rpc.Core.{next_request}
use ocpp_server.Rpc.Invariant.{IsValid}
use ocpp_server.Rpc.State.{nat_key, string_key, new_client}
use ocpp_server.Ocpp.State.{Screen, System, OcppWorld}
use ocpp_server.Ocpp.View.{
  add_log, handle_station_select, update_stations_list, show_connection, connector_label,
}
use ocpp_server.Ocpp.Updates.{update_station, update_connector, find_connector}
use ocpp_server.Ocpp.Connectors.{
  IsConnectorShown, current_connector, update_connector-IsConnectorShown,
}
use ocpp_server.Ocpp.Events.{handle_ocpp, socket_open, socket_message, step_ocpp}
use ocpp_server.Ocpp.History.{Run, here, next, loaded, Run-IsSettled}
use ocpp_server.Rpc.Core.{drain, on_open, on_message, handle_message, route, answer, pending}
use ocpp_server.Rpc.Emitter.{on, emit, run_each}
use ocpp_server.Ocpp.Sequence.{count_answered, names_answered}
use ocpp_server.Ocpp.Shown.{
  IsStationShown, update_station-IsStationShown, handle_station_select_lem,
}
use ocpp_server.Ocpp.Loading.{
  go_on, setup_handlers, listen, default_station, init_system, init_demo_mode, load_stations,
  new_system, demo_stations, parse_response,
}
use ocpp_server.Ocpp.Table.{connectors_of}
use ocpp_server.Ocpp.Demo.{IsLocal, demo-IsLocal}
use ocpp_server.Ocpp.Commands.{handle_send_heartbit}
use ocpp_server.Rpc.Monitor.{connect, call}
use ocpp_server.Tests.Data.{browser, no_label, answer_1, names_2}

abbrev no_screen : Screen
no_screen = record {
  station_select = [];
  connector_select = [];
  station_info = "none";
  connector_selector = "none";
  connector_info = "none";
  station_id = "";
  count_text = "";
  power_text = "";
  station_text = "";
  station_icon = "";
  connector_type = "";
  connector_meter = "";
  connector_power = "";
  connector_status = no_label;
  log_content = [];
  alerts = [];
}

-- The page after its start with no client.
demo_lists :
    (init_system browser false false false (new_client (new_system no_screen))).page.stations
    ≡ demo_stations
unfolding init_system init_demo_mode load_stations update_stations_list new_client new_system
    add_log show_connection connect
demo_lists = refl

abbrev system : System
system = record {
  stations = ("A", default_station (str "A")) ∷ ("B", default_station (str "B")) ∷ [];
  selected_station_id = none;
  selected_connector_id = none;
  connection_state = "disconnected";
  screen = no_screen;
}

abbrev world : OcppWorld
world = new_client system

handle_station_select_example :
    (handle_station_select browser "B" system).1.selected_station_id ≡ some "B"
unfolding Dict.get
handle_station_select_example =
    (handle_station_select_lem browser "B" (default_station (str "B")) system refl refl).1

update_station-IsStationShown_example :
    IsStationShown
      (update_station browser (str "B") (str "error") (handle_station_select browser "B" system).1)
unfolding Dict.get
update_station-IsStationShown_example =
    update_station-IsStationShown browser "B" (str "error")
      (handle_station_select browser "B" system).1
      (handle_station_select_lem browser "B" (default_station (str "B")) system refl refl).2

demo-IsLocal_example : IsLocal browser true world (handle_send_heartbit browser true world)
unfolding new_client
demo-IsLocal_example = (demo-IsLocal browser true "" "" "" "" world refl).4

-- The second station and its first connector are chosen.
abbrev chosen : System
chosen = record system {
  selected_station_id = some "B";
  selected_connector_id = some "1";
  screen = record no_screen { connector_status = connector_label (str "available") };
}

chosen-IsConnectorShown : IsConnectorShown chosen
unfolding IsConnectorShown current_connector find_connector Dict.get
chosen-IsConnectorShown = refl

update_connector-IsConnectorShown_example :
    IsConnectorShown (update_connector browser (str "B") (num (nat 1)) (str "charging") chosen)
update_connector-IsConnectorShown_example =
    update_connector-IsConnectorShown browser "B" (num (nat 1)) (str "charging") chosen
      chosen-IsConnectorShown

-- The page with a client, when its socket has opened: the count of the stations is asked for.
abbrev counting : OcppWorld
counting = step_ocpp browser true true socket_open (loaded browser no_screen true true)

counting-Run : Run browser (loaded browser no_screen true true) counting
unfolding init_system setup_handlers connect on new_client
counting-Run = next true true socket_open here (λ e. cc)

Run-IsSettled_example : IsValid counting × (counting.reactions ≡ [])
Run-IsSettled_example = Run-IsSettled browser no_screen true true counting-Run

count_answered_example :
    (step_ocpp browser true true (socket_message "answer 1") counting).sent
    ≡ counting.sent ++ next_request 2 "getChargePointIds" (obj end) ∷ []
unfolding init_system setup_handlers new_system add_log show_connection load_stations listen connect
    on emit run_each call drain new_client step_ocpp handle_ocpp on_open Dict.has Dict.set Dict.get
    Dict.delete
count_answered_example =
    ap (λ w. w.sent)
      (count_answered browser no_screen true true true counting-Run 1 "answer 1" answer_1 undefined
        refl refl refl refl refl refl refl)

-- The names are asked for.
abbrev naming : OcppWorld
naming = step_ocpp browser true true (socket_message "answer 1") counting

naming-Run : Run browser (loaded browser no_screen true true) naming
naming-Run = next true true (socket_message "answer 1") counting-Run tt

names_answered_example :
    connectors_of browser
      (Dict.get "B" (step_ocpp browser true true (socket_message "names 2") naming).page.stations)
    ≡ some (default_station null).connectors
unfolding init_system setup_handlers new_system add_log show_connection load_stations listen connect
    on emit run_each call drain new_client step_ocpp handle_ocpp on_open Dict.has Dict.set Dict.get
    Dict.delete on_message handle_message route answer pending go_on parse_response text_of
names_answered_example =
    (names_answered browser no_screen true true true naming-Run 2 "names 2" names_2 undefined refl
        refl refl refl refl (str "A" ∷ str "B" ∷ []) refl refl).0
      "B"
