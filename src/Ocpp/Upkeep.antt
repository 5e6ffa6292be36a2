-- ===== src/Ocpp/Upkeep.antt =====
-- What every event of the page of `OCPPSystem` keeps.
use ocpp_server.Base.{String, ◌≢◌, Bool, true, false, not, ◌||◌, none, [], ◌==◌, if◌then◌else◌}
use ocpp_server.Js.{
  Value, truthy, Eff, Done, lift, Keeps, Keeps-lift, Keeps-modify, Keeps-bind, keeps_rules, Host,
  prop, read,
}
use ocpp_server.Rpc.State.{Settled, resolved, rejected, nat_key, string_key}
use ocpp_server.Rpc.Core.{on_error}
use ocpp_server.Rpc.Invariant.{on_message-Inv, drain-Inv}
use ocpp_server.Rpc.Upheld.{IsUpheld, emitted-Inv, on_open-Inv, on_close-Inv, on_timer-Inv}
use ocpp_server.Ocpp.State.{
  System, OcppWorld, Waiting, points_count, points_ids, action, Action, Listener, on_connected,
  on_disconnected, on_failure, on_status_notification, on_meter_values, on_heartbeat, on_system,
}
use ocpp_server.Ocpp.Commands.{
  selected_station, selected_connector, evse_id, acted, ask, handle_get_base_report,
  handle_send_variables, handle_send_status_notification, handle_send_meter_values,
  handle_send_heartbit,
}
use ocpp_server.Ocpp.Updates.{update_connector_meter_values}
use ocpp_server.Ocpp.Loading.{go_on, listen, load_stations}
use ocpp_server.Ocpp.Events.{
  OcppEvent, choose_station, choose_connector, press_disconnect, press_report, press_status,
  press_heartbit, press_clear, press_variables, press_meter, reconnect, socket_open, socket_close,
  socket_error, socket_message, going_on, handle_ocpp, step_ocpp,
}

-- A socket opens only where one was made, and a wait ends only where one began.
abbrev pub IsPossible : OcppEvent → OcppWorld → Type 0
IsPossible socket_open w = w.ws ≢ none
IsPossible reconnect w = w.timers ≢ []
IsPossible _ w = Unit

module _ (Inv : OcppWorld → Type 0) (upheld : IsUpheld Inv) (host : Host) where
  either : (b : Bool) (u v : OcppWorld) → Inv u → Inv v → Inv (if b then u else v)
  either true u v i j = i
  either false u v i j = j

  on_system-Inv : (f : System → System) (w : OcppWorld) → Inv w → Inv (on_system f w)
  on_system-Inv f w i = upheld.steady.pages (f w.page) w i

  updated :
      (act : Eff System Done)
      → Keeps Inv (λ w. ((act w.page).0, record w { page = (act w.page).1 }))
  updated act = record { at = λ w i. upheld.steady.pages (act w.page).1 w i }

  module _ (sends : Bool) where
    load_stations-Inv : (w : OcppWorld) → Inv w → Inv (load_stations host sends w)
    unfolding load_stations
    load_stations-Inv w i = either _ _ _ (upheld.calls sends _ _ _ w i) (upheld.steady.pages _ w i)

    go_on-Inv : (k : Waiting) (r : Settled) (w : OcppWorld) → Inv w → Inv (go_on host sends k r w)
    unfolding go_on acted
    go_on-Inv points_count (resolved response) w i = upheld.calls sends _ _ _ w i
    go_on-Inv points_count (rejected e) w i = upheld.steady.pages _ w i
    go_on-Inv points_ids r w i = upheld.steady.pages _ w i
    go_on-Inv (action a) (resolved response) w i = upheld.steady.pages _ w i
    go_on-Inv (action a) (rejected e) w i = upheld.steady.pages _ w i

    listen-Keeps : (l : Listener) (v : Value) → Keeps Inv (listen host sends l v)
    unfolding listen
    listen-Keeps on_connected v = search (keeps_rules, on_system-Inv, load_stations-Inv)
    listen-Keeps on_disconnected v = search (keeps_rules, on_system-Inv)
    listen-Keeps on_failure v = search (keeps_rules, on_system-Inv)
    listen-Keeps on_status_notification v = search (keeps_rules, on_system-Inv)
    listen-Keeps on_meter_values v =
        Keeps-bind (lift (prop host v "chargePointId")) _ (Keeps-lift _) (λ id. updated (
          update_connector_meter_values host id (read host v "connectorId")
            (read host v "meterValue")))
    listen-Keeps on_heartbeat v = search (keeps_rules, on_system-Inv)

    listen-Inv :
        (l : Listener) (v : Value) (w : OcppWorld) → Inv w → Inv (listen host sends l v w).1
    listen-Inv l v w i = (listen-Keeps l v).at w i

    ask-Inv :
        (a : Action) (method : String) (params : Value) (demo : String) (w : OcppWorld)
        → Inv w
        → Inv (ask host sends a method params demo w)
    unfolding ask
    ask-Inv a method params demo w i =
        either _ _ _ (upheld.calls sends _ _ _ w i) (upheld.steady.pages _ w i)

    asked :
        (p : System) (a : Action) (method : String) (params : Value) (demo : String) (w : OcppWorld)
        → Inv w
        → Inv (ask host sends a method params demo (record w { page = p }))
    asked p a method params demo w i = ask-Inv a method params demo _ (upheld.steady.pages p w i)

    get_base_report-Inv : (w : OcppWorld) → Inv w → Inv (handle_get_base_report host sends w)
    unfolding handle_get_base_report
    get_base_report-Inv w i =
        either (not (truthy (selected_station w.page))) _ _ (upheld.steady.pages _ w i)
          (asked _ _ _ _ _ w i)

    send_variables-Inv :
        (component variable attribute : String) (w : OcppWorld)
        → Inv w
        → Inv (handle_send_variables host sends component variable attribute w)
    unfolding handle_send_variables
    send_variables-Inv component variable attribute w i =
        either (component == "" || variable == "") _ _ (upheld.steady.pages _ w i)
          (asked _ _ _ _ _ w i)

    send_status-Inv : (w : OcppWorld) → Inv w → Inv (handle_send_status_notification host sends w)
    unfolding handle_send_status_notification
    send_status-Inv w i =
        either (not (truthy (selected_station w.page)) || not (truthy (selected_connector w.page)))
          _ _ (upheld.steady.pages _ w i) (asked _ _ _ _ _ w i)

    send_meter-Inv :
        (evse : String) (w : OcppWorld) → Inv w → Inv (handle_send_meter_values host sends evse w)
    unfolding handle_send_meter_values
    send_meter-Inv evse w i =
        either (not (truthy (evse_id host sends evse w.page))) _ _ (upheld.steady.pages _ w i) (
          either (not (truthy (selected_station w.page))) _ _ (upheld.steady.pages _ w i)
            (asked _ _ _ _ _ w i))

    send_heartbit-Inv : (w : OcppWorld) → Inv w → Inv (handle_send_heartbit host sends w)
    unfolding handle_send_heartbit
    send_heartbit-Inv w i =
        either (not (truthy (selected_station w.page))) _ _ (upheld.steady.pages _ w i)
          (asked _ _ _ _ _ w i)

    handle_ocpp-Inv :
        (opens : Bool) (event : OcppEvent) (w : OcppWorld)
        → IsPossible event w
        → Inv w
        → Inv (handle_ocpp host sends opens event w)
    unfolding handle_ocpp on_error
    handle_ocpp-Inv opens (choose_station id) w possible i = upheld.steady.pages _ w i
    handle_ocpp-Inv opens (choose_connector id) w possible i = upheld.steady.pages _ w i
    handle_ocpp-Inv opens press_disconnect w possible i = upheld.steady.pages _ w i
    handle_ocpp-Inv opens press_report w possible i = get_base_report-Inv w i
    handle_ocpp-Inv opens press_status w possible i = send_status-Inv w i
    handle_ocpp-Inv opens press_heartbit w possible i = send_heartbit-Inv w i
    handle_ocpp-Inv opens press_clear w possible i = upheld.steady.pages _ w i
    handle_ocpp-Inv opens (press_variables component variable attribute) w possible i =
        send_variables-Inv component variable attribute w i
    handle_ocpp-Inv opens (press_meter evse) w possible i = send_meter-Inv evse w i
    handle_ocpp-Inv opens reconnect w possible i =
        on_timer-Inv Inv upheld.steady (listen host sends) listen-Inv opens w i
    handle_ocpp-Inv opens socket_open w possible i =
        on_open-Inv Inv upheld.steady (listen host sends) listen-Inv w possible i
    handle_ocpp-Inv opens socket_close w possible i =
        on_close-Inv Inv upheld.steady (listen host sends) listen-Inv w i
    handle_ocpp-Inv opens (socket_error e) w possible i =
        emitted-Inv Inv upheld.steady (listen host sends) listen-Inv "error" e w i
    handle_ocpp-Inv opens (socket_message text) w possible i =
        on_message-Inv Inv upheld.steady.stable (listen host sends) listen-Inv host text w i

    pub step_ocpp-Inv :
        (opens : Bool) (event : OcppEvent) (w : OcppWorld)
        → IsPossible event w
        → Inv w
        → Inv (step_ocpp host sends opens event w)
    unfolding step_ocpp
    step_ocpp-Inv opens event w possible i =
        drain-Inv Inv upheld.steady.stable (listen host sends) listen-Inv (going_on host sends)
          (λ k r. Keeps-modify _ (go_on-Inv k r)) _ _ (handle_ocpp-Inv opens event w possible i)
