-- ===== src/Monitoring/Events.antt =====
-- `MonitoringSystem`: its start, the notifications, the timers and the buttons, and one event with the
-- reactions that it brings.
use ocpp_server.Base.{
  ℕ, suc, ◌-◌, ◌<◌, String, ◌≢◌, Bool, true, false, not, ◌&&◌, none, some, [], ◌==◌, if◌then◌else◌,
  ◌<>◌, length,
}
use ocpp_server.Js.{
  nat, Value, num, str, obj, end, field, is_undefined, Eff, Done, lift, ◌>>=◌, ◌>>◌, modify, Host,
  prop, text_of, read,
}
use ocpp_server.Rpc.State.{Settled, nat_key, string_key}
use ocpp_server.Rpc.Core.{on_message, on_open, on_error, drain, next_request, send}
use ocpp_server.Rpc.Emitter.{on}
use ocpp_server.Rpc.Monitor.{call, connect, default_url, on_close, on_timer}
use ocpp_server.Monitoring.State.{
  Panel, Monitor, MonitorWorld, Pause, initial_values, metrics, debug_metrics, direct_metrics,
  test_value, command, Receiver, at_connected, at_disconnected, at_error, at_value_changed,
  at_charging_started, at_charging_stopped, at_metrics_update, on_monitor, on_panel, with_panel,
  tell, add_event, update_panel_connection,
}
use ocpp_server.Monitoring.Values.{update_value, update_system_status}
use ocpp_server.Monitoring.Metrics.{values_loaded, metrics_loaded, test_ended}
use ocpp_server.Monitoring.Commands.{send_command, command_ended}

module _ (host : Host) where
  -- What goes on when a promise is settled. `debugMetrics` and `testMetricsDirectly` write to the
  -- console alone.
  unfoldable pub resume : Pause → Settled → MonitorWorld → MonitorWorld
  unfolding values_loaded metrics_loaded command_ended test_ended
  resume initial_values r = on_monitor (values_loaded host r)
  resume metrics r = on_monitor (metrics_loaded host r)
  resume debug_metrics r = λ w. w
  resume direct_metrics r = λ w. w
  resume test_value r = on_monitor (test_ended host r)
  resume (command name) r = command_ended host name r

  abbrev pub resumed : Pause → Settled → Eff MonitorWorld Done
  resumed k r = modify (resume k r)

  abbrev pub update : String → Value → MonitorWorld → MonitorWorld
  update key v = on_monitor (update_value host (str key) v)

  -- `if (v !== undefined) this.updateValue(key, parseFloat(v))`
  unfoldable pub update_number : String → Value → MonitorWorld → MonitorWorld
  unfolding update_value
  update_number key v =
      if is_undefined v then (λ w. w) else update key (num (host.parse_float (text_of host v)))

  module _ (sends : Bool) where
    -- `startMonitoring`, `updateMetrics`, `debugMetrics` and `testRpcConnection` up to their `await`.
    unfoldable pub start_monitoring : MonitorWorld → MonitorWorld
    start_monitoring = call sends "getValues" (obj end) initial_values

    unfoldable pub update_metrics : MonitorWorld → MonitorWorld
    update_metrics = call sends "getMetrics" (obj end) metrics

    unfoldable pub start_debug_metrics : MonitorWorld → MonitorWorld
    start_debug_metrics = call sends "getMetrics" (obj end) debug_metrics

    -- `testMetricsDirectly`
    unfoldable pub test_metrics_directly : MonitorWorld → MonitorWorld
    test_metrics_directly = call sends "getMetrics" (obj end) direct_metrics

    unfoldable pub test_rpc_connection : MonitorWorld → MonitorWorld
    unfolding add_event
    test_rpc_connection w =
        call sends "getValue" (obj (field "key" (str "systemStatus") end)) test_value
          (on_panel (add_event "Testing RPC connection...") w)

    -- The handlers of `init`.
    unfoldable pub receive : Receiver → Value → Eff MonitorWorld Done
    unfolding update_panel_connection start_monitoring add_event update_value update_number
    receive at_connected _ = do
      modify (
          on_monitor λ m. record (with_panel (update_panel_connection true) m) {
            connection_state = "connected";
          })
      modify start_monitoring
      modify (on_monitor λ m. record m { timeouts = suc m.timeouts })
    receive at_disconnected _ = modify (
        on_monitor λ m. record (with_panel (update_panel_connection false) m) {
          connection_state = "disconnected";
        })
    receive at_error e = do
      text ← lift (prop host e "message")
      modify (on_panel (add_event ("Connection error: " <> text_of host text)))
    receive at_value_changed params = do
      key ← lift (prop host params "key")
      modify (on_monitor (update_value host key (read host params "value")))
    receive at_charging_started params = do
      session ← lift (prop host params "sessionId")
      modify (on_panel (add_event ("Charging started - Session: " <> text_of host session)))
      modify (update "systemStatus" (str "charging"))
      modify (update "chargingEnabled" (str "true"))
    receive at_charging_stopped params = do
      energy ← lift (prop host params "energyConsumed")
      modify (
          on_panel (
            add_event (
              "Charging stopped - Energy: "
              <> host.number_text (host.parse_float (text_of host energy))
              <> " kWh")))
      modify (update "systemStatus" (str "ready"))
      modify (update "chargingEnabled" (str "false"))
    receive at_metrics_update params = do
      power ← lift (prop host params "currentPower")
      modify (update_number "currentPower" power)
      modify (update_number "voltage" (read host params "voltage"))
      modify (update_number "temperature" (read host params "temperature"))

    unfoldable pub init_monitor : (opens : Bool) → MonitorWorld → MonitorWorld
    unfolding on
    init_monitor opens w = connect opens default_url (
        on "metricsUpdate" at_metrics_update (
          on "chargingStopped" at_charging_stopped (
            on "chargingStarted" at_charging_started (
              on "valueChanged" at_value_changed (
                on "error" at_error
                  (on "disconnected" at_disconnected (on "connected" at_connected w)))))))

    -- The click of #setMaxPower, by the text of #maxPower.
    unfoldable pub set_max_power : (ready : Bool) → String → MonitorWorld → MonitorWorld
    unfolding send_command tell
    set_max_power ready max_power w =
        let n = host.number_of_text max_power in
        if not (max_power == "") && host.at_least n (nat 1) && host.at_least (nat 100) n
        then send_command ready sends "setMaxPower"
            (obj (field "value" (num (host.parse_int max_power)) end)) w
        else on_panel (tell "Please enter a valid power value between 1 and 100 kW") w

    -- A message that goes past `call`, under a number of its own.
    unfoldable pub send_test : ℕ → MonitorWorld → MonitorWorld
    unfolding send
    send_test id w =
        (send sends (next_request id "getValue" (obj (field "key" (str "systemStatus") end))) w).1

    -- The added button, whose errors go to the console.
    unfoldable pub debug_test : MonitorWorld → MonitorWorld
    unfolding send_test
    debug_test w = elim w.ws [ none ↦ w | some socket ↦ send_test 1 w ]

    -- `window.testRpc`
    unfoldable pub test_rpc : MonitorWorld → MonitorWorld
    unfolding send_test tell
    test_rpc w = if w.connected then send_test 999 w else on_panel (tell "Please connect first") w

-- The fields that the constructor sets before `init`.
unfoldable pub new_monitor : Panel → Monitor
new_monitor panel = record {
  values = [];
  connection_state = "disconnected";
  panel = panel;
  intervals = 0;
  timeouts = 0;
}

pub data MonitorEvent : Type 0 where
  -- clicks, the last by the text of #maxPower
  press_start press_stop press_reset press_debug : MonitorEvent
  press_set_power : String → MonitorEvent
  -- an interval of the metrics and the wait of the debugging end, or the wait for a new connection
  interval timeout reconnect : MonitorEvent
  -- functions called by hand
  call_test_rpc call_test_connection call_test_metrics : MonitorEvent
  call_update_status : Value → MonitorEvent
  socket_open socket_close : MonitorEvent
  socket_error : Value → MonitorEvent
  socket_message : String → MonitorEvent

-- What the socket does with what it is asked during an event, and whether it is open.
pub record SocketState : Type 0 where
  pub opens : Bool
  pub sends : Bool
  pub ready : Bool

-- What ends must have begun.
abbrev pub CanHappen : MonitorEvent → MonitorWorld → Type 0
CanHappen interval w = 0 < w.page.intervals
CanHappen timeout w = 0 < w.page.timeouts
CanHappen reconnect w = w.timers ≢ []
CanHappen socket_open w = w.ws ≢ none
CanHappen _ w = Unit

module _ (host : Host) where
  unfoldable pub handle_event : SocketState → MonitorEvent → MonitorWorld → MonitorWorld
  unfolding send_command set_max_power debug_test update_metrics start_debug_metrics test_rpc
      test_rpc_connection test_metrics_directly update_system_status
  handle_event io press_start = send_command io.ready io.sends "startCharging" (obj end)
  handle_event io press_stop = send_command io.ready io.sends "stopCharging" (obj end)
  handle_event io press_reset = send_command io.ready io.sends "resetSystem" (obj end)
  handle_event io press_debug = debug_test host io.sends
  handle_event io (press_set_power max_power) = set_max_power host io.sends io.ready max_power
  handle_event io interval = update_metrics host io.sends
  handle_event io timeout = λ w.
      start_debug_metrics host io.sends (on_monitor (λ m. record m { timeouts = m.timeouts - 1 }) w)
  handle_event io reconnect = on_timer io.opens
  handle_event io call_test_rpc = test_rpc host io.sends
  handle_event io call_test_connection = test_rpc_connection host io.sends
  handle_event io call_test_metrics = test_metrics_directly host io.sends
  handle_event io (call_update_status status) =
      on_monitor λ m. (update_system_status host status m).1
  handle_event io socket_open = on_open (receive host io.sends)
  handle_event io socket_close = on_close (receive host io.sends)
  handle_event io (socket_error e) = on_error (receive host io.sends) e
  handle_event io (socket_message text) = on_message host (receive host io.sends) text

  -- One event: its handler, then the reactions of what it settled.
  unfoldable pub step_event : SocketState → MonitorEvent → MonitorWorld → MonitorWorld
  unfolding handle_event
  step_event io event w =
      let w' = handle_event io event w in drain (resumed host) (length w'.reactions) w'
