-- ===== src/Central/Closed.antt =====
-- A property of the page and its client that each operation of the client keeps, and that does not
-- read what the page shows, is kept by every event.
use ocpp_server.Base.{String, refl, ◌≢◌, Bool, true, false, none, ◌==◌, if◌then◌else◌}
use ocpp_server.Js.{Value, undefined, truthy, Host}
use ocpp_server.Rpc.State.{nat_key, string_key, set_url}
use ocpp_server.Central.State.{
  Command, disconnect_station, change_availability, get_station_info, get_configuration,
  get_variable, set_variable, reboot_station, clear_cache, request_start_transaction,
  request_stop_transaction, unlock_connector, trigger_status_notification, trigger_heartbeat,
  trigger_meter_values, Await, command, Handler, connected_handler, disconnected_handler,
  status_notification_handler, meter_values_handler, heartbeat_handler, World, station_value,
}
use ocpp_server.Central.View.{log, log_error}
use ocpp_server.Central.Selection.{
  rpc_call, load_stations_list, handle_station_change, handle_connector_change,
}
use ocpp_server.Central.Commands.{with_station, with_station_lem}
use ocpp_server.Rpc.Core.{on_open, on_error, disconnect}
use ocpp_server.Central.Events.{
  resume, run, Event, select_station, select_connector, press, press_available, press_unavailable,
  press_connect, press_disconnect, press_apply, socket_open, socket_close, socket_error,
  socket_message, IsPossible, Io, start, apply_websocket_settings, handle, step,
}
use ocpp_server.Rpc.Invariant.{IsStable, emit-Inv, on_message-Inv, drain-Inv}
use ocpp_server.Rpc.Web.{connect, call, on_close}
use ocpp_server.Central.Blind.{
  IsBlind, log-Inv, log_error-Inv, update_connection_status-Inv, handle_status_notification-Keeps,
  handle_meter_values-Keeps, handle_heartbeat-Keeps,
}
use ocpp_server.Central.Settling.{resume-Keeps}

pub record IsClosed (Inv : World → Type 0) : Type 0 where
  pub stable : IsStable Inv
  pub blind : IsBlind Inv
  pub calls :
      (sends : Bool) (method : String) (params : Value) (k : Await) (w : World)
      → Inv w
      → Inv (call sends method params k w)
  pub opened :
      (w : World)
      → w.ws ≢ none
      → Inv w
      → Inv (record w { connected = true; reconnect_attempts = 0 })
  pub closed : (w : World) → Inv w → Inv (record w { connected = false })
  pub connects : (made : Bool) (w : World) → Inv w → Inv (connect made w)
  pub disconnects : (w : World) → Inv w → Inv (disconnect w)
  pub urls : (new_url : String) (w : World) → Inv w → Inv (set_url new_url w)

with_station_cases :
    (P : World → Type 0) (act : World → World) (w : World)
    → P (log_error "Сначала выберите станцию" w)
    → P (act w)
    → P (with_station act w)
with_station_cases P act w refused taken =
    rw (with_station_lem act w) (branch (truthy (station_value w)))
  where
    branch : (b : Bool) → P (if b then act w else log_error "Сначала выберите станцию" w)
    branch true = taken
    branch false = refused

module _ (Inv : World → Type 0) (closed : IsClosed Inv) (host : Host) where
  logged : (text : String) (w : World) → Inv w → Inv (log text w)
  logged = log-Inv Inv closed.blind.tolerant

  module _ (sends : Bool) where
    load_stations_list-Inv : (w : World) → Inv w → Inv (load_stations_list host sends w)
    unfolding load_stations_list
    load_stations_list-Inv w a = closed.calls sends _ _ _ _ (logged _ w a)

    pub run-Inv : (h : Handler) (v : Value) (w : World) → Inv w → Inv (run host sends h v w).1
    unfolding run
    run-Inv connected_handler v w a =
        load_stations_list-Inv _ (update_connection_status-Inv Inv closed.blind.tolerant true w a)
    run-Inv disconnected_handler v w a =
        update_connection_status-Inv Inv closed.blind.tolerant false w a
    run-Inv status_notification_handler v w a =
        (handle_status_notification-Keeps Inv closed.blind.tolerant host v).at w a
    run-Inv meter_values_handler v w a =
        (handle_meter_values-Keeps Inv closed.blind.tolerant host v).at w a
    run-Inv heartbeat_handler v w a =
        (handle_heartbeat-Keeps Inv closed.blind.tolerant host v).at w a

    with_station-Inv :
        (act : World → World)
        → ((w : World) → Inv w → Inv (act w))
        → (w : World) → Inv w
        → Inv (with_station act w)
    with_station-Inv act keep w a =
        with_station_cases Inv act w
          (log_error-Inv Inv closed.blind.tolerant "Сначала выберите станцию" w a) (keep w a)

    asked :
        (method : String) (params : Value) (c : Command) (w : World)
        → Inv w
        → Inv (rpc_call sends method params (command c) w)
    unfolding rpc_call
    asked method params c w a = closed.calls sends method params (command c) w a

    start-Inv :
        (c : Command) (value : String) (w : World) → Inv w → Inv (start host sends c value w)
    unfolding start
    start-Inv disconnect_station value w a =
        with_station-Inv _ (λ v b. asked _ _ _ _ (logged _ v b)) w a
    start-Inv change_availability value w a = with_station-Inv _ (λ v b. asked _ _ _ v b) w a
    start-Inv get_station_info value w a = with_station-Inv _ (λ v b. asked _ _ _ v b) w a
    start-Inv get_configuration value w a = with_station-Inv _ (λ v b. asked _ _ _ v b) w a
    start-Inv get_variable value w a = with_station-Inv _ (λ v b. asked _ _ _ v b) w a
    start-Inv set_variable value w a = with_station-Inv _ (λ v b. asked _ _ _ v b) w a
    start-Inv reboot_station value w a = with_station-Inv _ (λ v b. asked _ _ _ v b) w a
    start-Inv clear_cache value w a = with_station-Inv _ (λ v b. asked _ _ _ v b) w a
    start-Inv request_start_transaction value w a = with_station-Inv _ (λ v b. asked _ _ _ v b) w a
    start-Inv request_stop_transaction value w a = with_station-Inv _ (λ v b. asked _ _ _ v b) w a
    start-Inv unlock_connector value w a = with_station-Inv _ (λ v b. asked _ _ _ v b) w a
    start-Inv trigger_status_notification value w a =
        with_station-Inv _ (λ v b. asked _ _ _ v b) w a
    start-Inv trigger_heartbeat value w a = with_station-Inv _ (λ v b. asked _ _ _ v b) w a
    start-Inv (trigger_meter_values _) value w a = with_station-Inv _ (λ v b. asked _ _ _ v b) w a

  when_chosen :
      (value : String) (taken w : World)
      → Inv w
      → Inv taken
      → Inv (if value == "" then w else taken)
  when_chosen value taken w a b = branch (value == "")
    where
      branch : (empty : Bool) → Inv (if empty then w else taken)
      branch true = a
      branch false = b

  handle-Inv :
      (io : Io) (event : Event) (w : World)
      → IsPossible event w
      → Inv w
      → Inv (handle host io event w)
  unfolding handle handle_station_change handle_connector_change apply_websocket_settings on_error
      on_open on_close
  handle-Inv io (select_station value) w possible a =
      when_chosen value _ w a (closed.calls io.sends _ _ _ _ (logged _ w a))
  handle-Inv io (select_connector value) w possible a =
      when_chosen value _ w a (closed.calls io.sends _ _ _ _ (logged _ w a))
  handle-Inv io (press c value) w possible a = start-Inv io.sends c value w a
  handle-Inv io press_available w possible a = closed.blind.tolerant.shows _ w refl a
  handle-Inv io press_unavailable w possible a = closed.blind.tolerant.shows _ w refl a
  handle-Inv io press_connect w possible a = closed.connects io.opens w a
  handle-Inv io press_disconnect w possible a = closed.disconnects w a
  handle-Inv io (press_apply address polling_frequency) w possible a =
      logged _ _ (closed.blind.pages _ _ refl (logged _ _ (closed.urls address w a)))
  handle-Inv io socket_open w possible a =
      emit-Inv Inv closed.stable (run host io.sends) (run-Inv io.sends) "connected" undefined _
        (closed.opened w possible a)
  handle-Inv io socket_close w possible a =
      emit-Inv Inv closed.stable (run host io.sends) (run-Inv io.sends) "disconnected" undefined _
        (closed.closed w a)
  handle-Inv io (socket_error e) w possible a =
      emit-Inv Inv closed.stable (run host io.sends) (run-Inv io.sends) "error" e w a
  handle-Inv io (socket_message text) w possible a =
      on_message-Inv Inv closed.stable (run host io.sends) (run-Inv io.sends) host text w a

  -- What the operations keep holds after every event, with its reactions.
  pub step-Inv :
      (io : Io) (event : Event) (w : World)
      → IsPossible event w
      → Inv w
      → Inv (step host io event w)
  unfolding step
  step-Inv io event w possible a =
      drain-Inv Inv closed.stable (run host io.sends) (run-Inv io.sends) (resume host)
        (λ k r. resume-Keeps Inv closed.blind host k r) _ _ (handle-Inv io event w possible a)

-- What can happen to the page, one event after another.
pub data Run (host : Host) (u : World) : World → Type 0 where
  here : Run host u u
  next :
      {v : World} (io : Io) (event : Event)
      → Run host u v
      → IsPossible event v
      → Run host u (step host io event v)

pub Run-Inv :
    (Inv : World → Type 0) (closed : IsClosed Inv) (host : Host) {u w : World}
    → Run host u w
    → Inv u
    → Inv w
Run-Inv Inv closed host here i = i
Run-Inv Inv closed host (next {v} io event r possible) i =
    step-Inv Inv closed host io event v possible (Run-Inv Inv closed host r i)
