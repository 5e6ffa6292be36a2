-- ===== src/Tests/Manager.antt =====
-- The page of `StationManager`.
use ocpp_server.Base.{
  String, ◌≡◌, refl, inl, true, none, some, [], ◌∷◌, ◌++◌, ◌==◌, if◌then◌else◌, All,
}
use ocpp_server.Base.Dict.{Key}
use ocpp_server.Base.Dict
use ocpp_server.Js.{nat, Value, undefined, num, str, arr, obj, empty, cons, end, field, Host}
use ocpp_server.Tests.Data.{browser, no_label}
use ocpp_server.Tests.Data.{answer_2}
use ocpp_server.Rpc.State.{new_client, nat_key, string_key}
use ocpp_server.Rpc.Core.{
  next_request, drain, on_open, on_message, handle_message, route, answer, pending,
}
use ocpp_server.Rpc.Emitter.{on, emit, run_each}
use ocpp_server.Rpc.Monitor.{connect, call}
use ocpp_server.Central.Selection.{parse_response, set_key}
use ocpp_server.Rpc.Frames.{IsAnswer}
use ocpp_server.Manager.State.{reboot_station, ManagerUi, ManagerWorld, on_manager}
use ocpp_server.Manager.View.{
  write_info, status_label, update_stations_dropdown, append_station_options,
  append_connector_options, show_connectors, show_station_info,
}
use ocpp_server.Manager.Selection.{
  request_stations, request_station, request_connector, cache_stations, cache_station_list,
  choose_first, list_loaded, offer_connectors, station_loaded,
}
use ocpp_server.Manager.Events.{
  press, proceed, hear, register, request_initial, init_manager, new_manager, connect_client,
  socket_open, socket_message, handle_manager, step_manager,
}
use ocpp_server.Manager.Commands.{Form}
use ocpp_server.Manager.Protocol.{IsProper}
use ocpp_server.Manager.History.{Run, here, next, loaded, Run-IsProper}
use ocpp_server.Manager.Sequence.{list_answered, station_answered}
use ocpp_server.Manager.Boot.{hears, boot-Chooses}
use ocpp_server.Manager.Notices.{others_unseen, status_shown}

-- `{ id: 1, result: [{ id: "A" }, { id: "B", name: "North" }] }`
abbrev stations_1 : Value
stations_1 = obj (
    field "id" (num (nat 1)) (
      field "result"
        (arr (
          cons (obj (field "id" (str "A") end))
            (cons (obj (field "id" (str "B") (field "name" (str "North") end))) empty)))
        end))

abbrev news : Value
news = obj (field "stationId" (str "A") (field "status" (str "alarm") end))

-- `{ method: "StatusNotification", params: { stationId: "A", status: "alarm" } }`
abbrev notice : Value
notice = obj (field "method" (str "StatusNotification") (field "params" news end))

abbrev answer_3 : Value
answer_3 = obj (
    field "id" (num (nat 3))
      (field "result" (obj (field "type" (str "CCS2") (field "status" (str "charge") end))) end))

abbrev desk : Host
desk = record browser {
  parse = λ text.
      if text == "stations 1"
      then some stations_1
      else (if text == "answer 2"
          then some answer_2
          else (if text == "answer 3"
              then some answer_3
              else (if text == "notice" then some notice else none)));
}

abbrev blank_ui : ManagerUi
blank_ui = record {
  station_options = [];
  connector_options = [];
  station_status = no_label;
  connectors_count = "";
  max_power = "";
  connector_type = "";
  connector_status = no_label;
  meter = "";
  power = "";
  connection_status = none;
  log = [];
}

abbrev linked : ManagerWorld
linked = step_manager desk true true connect_client (loaded desk blank_ui)

abbrev listing : ManagerWorld
listing = step_manager desk true true socket_open linked

listing-Run : Run desk (loaded desk blank_ui) listing
unfolding init_manager register request_initial on new_client new_manager step_manager
    handle_manager connect drain
listing-Run = next true true socket_open (next true true connect_client here tt) (λ e. cc)

first-IsAnswer : IsAnswer desk 1 "stations 1" stations_1
first-IsAnswer = record {
  parsed = refl;
  whole = refl;
  numbered = refl;
  fine = (undefined, refl, refl);
}

second-IsAnswer : IsAnswer desk 2 "answer 2" answer_2
second-IsAnswer = record {
  parsed = refl;
  whole = refl;
  numbered = refl;
  fine = (undefined, refl, refl);
}

list_answered_example :
    (step_manager desk true true (socket_message "stations 1") listing).sent
    ≡ listing.sent ++ next_request 2 "GetStationStatus" (obj (field "stationId" (str "A") end)) ∷ []
unfolding init_manager register request_initial on new_client new_manager step_manager
    handle_manager connect drain on_open emit run_each hear request_stations call Dict.set Dict.get
    Dict.has Dict.delete parse_response
list_answered_example =
    (list_answered desk blank_ui true listing-Run refl 1 "stations 1" stations_1 first-IsAnswer
      (obj (field "id" (str "A") end))
      (cons (obj (field "id" (str "B") (field "name" (str "North") end))) empty) refl refl refl
      (refl, (refl, tt))).1

-- The first station is asked for.
abbrev choosing : ManagerWorld
choosing = step_manager desk true true (socket_message "stations 1") listing

choosing-Run : Run desk (loaded desk blank_ui) choosing
choosing-Run = next true true (socket_message "stations 1") listing-Run tt

abbrev first_connector : Value
first_connector =
    obj (field "id" (num (nat 1)) (field "type" (str "CCS2") (field "status" (str "charge") end)))

station_answered_example :
    (step_manager desk true true (socket_message "answer 2") choosing).page.current_station
    ≡ str "A"
unfolding init_manager register request_initial on new_client new_manager step_manager
    handle_manager connect drain on_open emit run_each hear request_stations call Dict.set Dict.get
    Dict.has Dict.delete parse_response on_message handle_message route answer pending proceed
    list_loaded update_stations_dropdown append_station_options cache_station_list cache_stations
    set_key choose_first request_station station_loaded show_station_info offer_connectors
    show_connectors append_connector_options request_connector
station_answered_example =
    (station_answered desk blank_ui true choosing-Run refl 2 "answer 2" answer_2 second-IsAnswer
      (str "A") first_connector empty refl refl refl (refl, tt)).0

-- The first station is chosen, and its first connector asked for.
abbrev chosen : ManagerWorld
chosen = step_manager desk true true (socket_message "answer 2") choosing

chosen-Run : Run desk (loaded desk blank_ui) chosen
chosen-Run = next true true (socket_message "answer 2") choosing-Run tt

status_shown_example :
    (step_manager desk true true (socket_message "notice") chosen).page.ui.station_status
    ≡ status_label desk (str "alarm")
unfolding init_manager register request_initial on new_client new_manager step_manager
    handle_manager connect drain on_open emit run_each hear request_stations call Dict.set Dict.get
    Dict.has Dict.delete parse_response on_message handle_message route answer pending proceed
    list_loaded update_stations_dropdown append_station_options cache_station_list cache_stations
    set_key choose_first request_station station_loaded show_station_info offer_connectors
    show_connectors append_connector_options request_connector
status_shown_example =
    (status_shown desk blank_ui true true chosen-Run "notice" notice undefined news refl refl refl
      refl refl refl refl refl).0

others_unseen_example :
    (line : String) × (step_manager desk true true (socket_message "notice") listing
      ≡ on_manager (write_info line) listing)
unfolding init_manager register request_initial on new_client new_manager step_manager
    handle_manager connect drain on_open emit run_each hear request_stations call Dict.set Dict.get
    Dict.has Dict.delete parse_response on_message handle_message route answer pending proceed
    list_loaded update_stations_dropdown append_station_options cache_station_list cache_stations
    set_key choose_first request_station station_loaded show_station_info offer_connectors
    show_connectors append_connector_options request_connector
others_unseen_example =
    others_unseen desk blank_ui true true listing-Run "notice" notice undefined news refl refl refl
      refl refl refl "StatusNotification" (inl refl) refl refl

third-IsAnswer : IsAnswer desk 3 "answer 3" answer_3
third-IsAnswer = record {
  parsed = refl;
  whole = refl;
  numbered = refl;
  fine = (undefined, refl, refl);
}

boot-Chooses_example :
    let v =
      hears desk true "answer 3"
        (hears desk true "answer 2" (hears desk true "stations 1" listing)) in
    v.sent
    ≡ listing.sent
      ++ next_request 2 "GetStationStatus" (obj (field "stationId" (str "A") end))
        ∷ next_request 3 "GetConnectorStatus"
            (obj (field "stationId" (str "A") (field "connectorId" (num (nat 1)) end)))
        ∷ []
unfolding init_manager register request_initial on new_client new_manager step_manager
    handle_manager connect drain on_open emit run_each hear request_stations call Dict.set Dict.get
    Dict.has Dict.delete parse_response on_message handle_message route answer pending proceed
    list_loaded update_stations_dropdown append_station_options cache_station_list cache_stations
    set_key choose_first request_station station_loaded show_station_info offer_connectors
    show_connectors append_connector_options request_connector
boot-Chooses_example =
    (boot-Chooses desk blank_ui true listing-Run 1 "stations 1" "answer 2" "answer 3" stations_1
      answer_2 answer_3 (obj (field "id" (str "A") end)) first_connector
      (cons (obj (field "id" (str "B") (field "name" (str "North") end))) empty) empty refl refl
      refl first-IsAnswer refl (refl, (refl, tt)) second-IsAnswer refl refl (refl, tt)
      third-IsAnswer).2

abbrev no_form : Form
no_form = record { component = ""; variable = ""; attribute = ""; evse = "" }

Run-IsProper_example :
    All IsProper (step_manager desk true true (press reboot_station no_form) chosen).sent
Run-IsProper_example =
    Run-IsProper desk blank_ui (next true true (press reboot_station no_form) chosen-Run tt)
