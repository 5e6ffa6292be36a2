-- ===== src/Manager/Upkeep.antt =====
-- What every event of the page of `StationManager` keeps.
use ocpp_server.Base.{
  String, ◌≡◌, refl, ◌≢◌, Bool, true, false, ◌||◌, none, [], ◌==◌, if◌then◌else◌,
}
use ocpp_server.Base.Dict.{Key}
use ocpp_server.Base.Dict
use ocpp_server.Js.{Value, obj, end, field, truthy, Eff, Done, Keeps, keeps_rules, Host}
use ocpp_server.Rpc.State.{Settled, resolved, rejected, nat_key, string_key}
use ocpp_server.Rpc.Core.{on_error}
use ocpp_server.Rpc.Monitor.{call}
use ocpp_server.Rpc.Invariant.{on_message-Inv, drain-Inv}
use ocpp_server.Rpc.Upheld.{IsSteady, emitted-Inv, on_open-Inv, on_close-Inv, on_timer-Inv}
use ocpp_server.Central.State.{
  Handler, connected_handler, disconnected_handler, status_notification_handler,
  meter_values_handler, heartbeat_handler,
}
use ocpp_server.Manager.State.{
  ManagerPage, Task, disable_station, get_station_info, get_configuration, get_variable,
  set_variable, reboot_station, clear_cache, request_start_transaction, request_stop_transaction,
  unlock_connector, trigger_status_notification, trigger_heartbeat, trigger_meter_values, Pending,
  stations_list, station_change, connector_change, task, ManagerWorld, on_manager, on_page_act,
}
use ocpp_server.Manager.View.{show_status}
use ocpp_server.Manager.Selection.{
  note_status, note_meter_values, note_heartbeat, request_stations, request_station,
  request_connector, choose_first, list_loaded, offer_connectors, station_loaded, connector_loaded,
}
use ocpp_server.Manager.Commands.{
  Form, require_station, require_connector, ask_station, ask_connector, start_disable, start_set,
  start_trigger_meter, begin_task,
}
use ocpp_server.Manager.Events.{
  proceed, hear, ManagerEvent, select_station, select_connector, press, connect_client, reconnect,
  socket_open, socket_close, socket_error, socket_message, handle_manager, step_manager,
}
use ocpp_server.Manager.Protocol.{Follows}

-- A socket opens only where one was made, and a wait ends only where one began.
abbrev pub IsPossible : ManagerEvent → ManagerWorld → Type 0
IsPossible socket_open w = w.ws ≢ none
IsPossible reconnect w = w.timers ≢ []
IsPossible _ w = Unit

-- `Inv` survives the operations of the client and the requests of the protocol.
pub record IsTended (Inv : ManagerWorld → Type 0) : Type 0 where
  pub steady : IsSteady Inv
  pub calls :
      (sends : Bool) (method : String) (params : Value) (k : Pending) (w : ManagerWorld)
      → Follows method params
      → Inv w
      → Inv (call sends method params k w)

module _ (Inv : ManagerWorld → Type 0) (tended : IsTended Inv) (host : Host) where
  either : (b : Bool) (u v : ManagerWorld) → (b ≡ true → Inv u) → Inv v → Inv (if b then u else v)
  either true u v i j = i refl
  either false u v i j = j

  on_manager-Inv : (f : ManagerPage → ManagerPage) (w : ManagerWorld) → Inv w → Inv (on_manager f w)
  on_manager-Inv f w i = tended.steady.pages (f w.page) w i

  on_page_act-Keeps : (act : Eff ManagerPage Done) → Keeps Inv (on_page_act act)
  on_page_act-Keeps act = record { at = λ w i. tended.steady.pages (act w.page).1 w i }

  module _ (sends : Bool) where
    request_stations-Inv : (w : ManagerWorld) → Inv w → Inv (request_stations host sends w)
    unfolding request_stations Dict.get
    request_stations-Inv w i =
        tended.calls sends "GetStations" _ _ _ (refl, refl) (tended.steady.pages _ w i)

    request_station-Inv :
        (id : Value) (w : ManagerWorld) → Inv w → Inv (request_station host sends id w)
    unfolding request_station Dict.get
    request_station-Inv id w i =
        tended.calls sends "GetStationStatus" _ _ _ (refl, refl) (tended.steady.pages _ w i)

    request_connector-Inv :
        (id : Value) (w : ManagerWorld) → Inv w → Inv (request_connector host sends id w)
    unfolding request_connector Dict.get
    request_connector-Inv id w i =
        tended.calls sends "GetConnectorStatus" _ _ _ (refl, refl) (tended.steady.pages _ w i)

    choose_first-Keeps : (stations : Value) → Keeps Inv (choose_first host sends stations)
    unfolding choose_first
    choose_first-Keeps stations = search (keeps_rules, request_station-Inv)

    offer_connectors-Keeps :
        (connectors : Value) → Keeps Inv (offer_connectors host sends connectors)
    unfolding offer_connectors
    offer_connectors-Keeps connectors =
        search (keeps_rules, on_page_act-Keeps, request_connector-Inv)

    proceed-Keeps : (k : Pending) (r : Settled) → Keeps Inv (proceed host sends k r)
    unfolding proceed list_loaded station_loaded connector_loaded
    proceed-Keeps stations_list (resolved v) =
        search (keeps_rules, on_page_act-Keeps, on_manager-Inv, choose_first-Keeps) depth 9
    proceed-Keeps stations_list (rejected e) = search (keeps_rules, on_manager-Inv)
    proceed-Keeps (station_change id) (resolved v) =
        search (keeps_rules, on_page_act-Keeps, on_manager-Inv, offer_connectors-Keeps) depth 9
    proceed-Keeps (station_change id) (rejected e) = search (keeps_rules, on_manager-Inv)
    proceed-Keeps (connector_change id) (resolved v) =
        search (keeps_rules, on_page_act-Keeps, on_manager-Inv) depth 9
    proceed-Keeps (connector_change id) (rejected e) = search (keeps_rules, on_manager-Inv)
    proceed-Keeps (task t) r = search (keeps_rules, on_manager-Inv)

    hear-Inv : (h : Handler) (v : Value) (w : ManagerWorld) → Inv w → Inv (hear host sends h v w).1
    unfolding hear
    hear-Inv connected_handler v w i =
        request_stations-Inv _ (on_manager-Inv (show_status true) w i)
    hear-Inv disconnected_handler v w i = tended.steady.pages _ w i
    hear-Inv status_notification_handler v w i = (on_page_act-Keeps (note_status host v)).at w i
    hear-Inv meter_values_handler v w i = (on_page_act-Keeps (note_meter_values host v)).at w i
    hear-Inv heartbeat_handler v w i = (on_page_act-Keeps (note_heartbeat host v)).at w i

  module _ (sends : Bool) where
    ask_station-Inv :
        (method : String) (t : Task)
        → ((id : Value) → truthy id ≡ true → Follows method (obj (field "stationId" id end)))
        → (w : ManagerWorld) → Inv w
        → Inv (ask_station host sends method t w)
    unfolding ask_station require_station
    ask_station-Inv method t fit w i =
        either (truthy w.page.current_station) _ _
          (λ chosen. tended.calls sends method _ _ w (fit _ chosen) i) (tended.steady.pages _ w i)

    ask_connector-Inv :
        (method : String) (t : Task)
        → ((id n : Value)
            → truthy n ≡ true
            → Follows method (obj (field "stationId" id (field "connectorId" n end))))
        → (w : ManagerWorld) → Inv w
        → Inv (ask_connector host sends method t w)
    unfolding ask_connector require_connector
    ask_connector-Inv method t fit w i =
        either (truthy w.page.current_connector) _ _
          (λ chosen. tended.calls sends method _ _ w (fit _ _ chosen) i) (tended.steady.pages _ w i)

    begin_task-Inv :
        (t : Task) (form : Form) (w : ManagerWorld) → Inv w → Inv (begin_task host sends t form w)
    unfolding begin_task require_station start_disable start_set start_trigger_meter Dict.get
    begin_task-Inv disable_station form w i =
        either (truthy w.page.current_station) _ _
          (λ c. tended.calls sends "DisableStation" _ _ _ (refl, c) (tended.steady.pages _ w i))
          (tended.steady.pages _ w i)
    begin_task-Inv get_station_info form w i =
        ask_station-Inv "GetStationInfo" _ (λ id c. (refl, c)) w i
    begin_task-Inv get_configuration form w i =
        ask_station-Inv "GetConfiguration" _ (λ id c. (refl, c)) w i
    begin_task-Inv get_variable form w i = ask_station-Inv "GetVariable" _ (λ id c. (refl, c)) w i
    begin_task-Inv set_variable form w i =
        either (truthy w.page.current_station) _ _
          (λ c.
            either (form.component == "" || form.variable == "") _ _
              (λ _. tended.steady.pages _ w i) (tended.calls sends "SetVariable" _ _ w (refl, c) i))
          (tended.steady.pages _ w i)
    begin_task-Inv reboot_station form w i =
        ask_station-Inv "RebootStation" _ (λ id c. (refl, c)) w i
    begin_task-Inv clear_cache form w i = ask_station-Inv "ClearCache" _ (λ id c. (refl, c)) w i
    begin_task-Inv request_start_transaction form w i =
        ask_connector-Inv "RequestStartTransaction" _ (λ id n c. (refl, c)) w i
    begin_task-Inv request_stop_transaction form w i =
        ask_connector-Inv "RequestStopTransaction" _ (λ id n c. (refl, c)) w i
    begin_task-Inv unlock_connector form w i =
        ask_connector-Inv "UnlockConnector" _ (λ id n c. (refl, c)) w i
    begin_task-Inv trigger_status_notification form w i =
        ask_station-Inv "TriggerStatusNotification" _ (λ id c. (refl, c)) w i
    begin_task-Inv trigger_heartbeat form w i =
        ask_station-Inv "TriggerHeartbeat" _ (λ id c. (refl, c)) w i
    begin_task-Inv (trigger_meter_values evse_id) form w i =
        either (truthy w.page.current_station) _ _
          (λ c. tended.calls sends "TriggerMeterValues" _ _ w (refl, c) i)
          (tended.steady.pages _ w i)

    module _ (opens : Bool) where
      handle_manager-Inv :
          (event : ManagerEvent) (w : ManagerWorld)
          → IsPossible event w
          → Inv w
          → Inv (handle_manager host sends opens event w)
      unfolding handle_manager on_error
      handle_manager-Inv (select_station value) w possible i = request_station-Inv sends _ w i
      handle_manager-Inv (select_connector value) w possible i = request_connector-Inv sends _ w i
      handle_manager-Inv (press t form) w possible i = begin_task-Inv t form w i
      handle_manager-Inv connect_client w possible i = tended.steady.connects opens _ w i
      handle_manager-Inv reconnect w possible i =
          on_timer-Inv Inv tended.steady (hear host sends) (hear-Inv sends) opens w i
      handle_manager-Inv socket_open w possible i =
          on_open-Inv Inv tended.steady (hear host sends) (hear-Inv sends) w possible i
      handle_manager-Inv socket_close w possible i =
          on_close-Inv Inv tended.steady (hear host sends) (hear-Inv sends) w i
      handle_manager-Inv (socket_error e) w possible i =
          emitted-Inv Inv tended.steady (hear host sends) (hear-Inv sends) "error" e w i
      handle_manager-Inv (socket_message text) w possible i =
          on_message-Inv Inv tended.steady.stable (hear host sends) (hear-Inv sends) host text w i

      pub step_manager-Inv :
          (event : ManagerEvent) (w : ManagerWorld)
          → IsPossible event w
          → Inv w
          → Inv (step_manager host sends opens event w)
      unfolding step_manager
      step_manager-Inv event w possible i =
          drain-Inv Inv tended.steady.stable (hear host sends) (hear-Inv sends) (proceed host sends)
            (proceed-Keeps sends) _ _ (handle_manager-Inv event w possible i)
