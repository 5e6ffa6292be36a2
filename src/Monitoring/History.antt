-- ===== src/Monitoring/History.antt =====
-- The monitoring page after any sequence of events since it was loaded.
use ocpp_server.Base.{
  ℕ, zero, suc, ◌-◌, String, ◌≡◌, refl, inl, inr, Bool, true, false, List, List-cases,
}
use ocpp_server.Base.Dict.{Key}
use ocpp_server.Base.Dict
use ocpp_server.Js.{undefined, str, returned, Host, text_of}
use ocpp_server.Rpc.State.{new_client, nat_key, string_key}
use ocpp_server.Rpc.Core.{on_error, drain}
use ocpp_server.Rpc.Emitter.{on}
use ocpp_server.Rpc.Params.{HasParams, emit-given, on_open-given, on_close-given, on_message-given}
use ocpp_server.Rpc.Monitor.{connect, on_timer, default_url, drop_first}
use ocpp_server.Monitoring.State.{Panel, MonitorWorld, add_event, on_panel, on_monitor}
use ocpp_server.Monitoring.Values.{case_of}
use ocpp_server.Monitoring.Mirror.{IsMirrored}
use ocpp_server.Monitoring.Answers.{resume-IsMirrored}
use ocpp_server.Monitoring.Events.{
  resumed, update_metrics, start_debug_metrics, test_metrics_directly, test_rpc_connection, receive,
  init_monitor, new_monitor, MonitorEvent, press_start, press_stop, press_reset, press_debug,
  press_set_power, interval, timeout, reconnect, call_test_rpc, call_test_connection,
  call_test_metrics, call_update_status, socket_open, socket_close, socket_error, socket_message,
  SocketState, CanHappen, handle_event, step_event,
}
use ocpp_server.Monitoring.Kept.{
  HasKey, Mirrored, mirrored-stable, receive-Mirrored, send_command-Mirrored, debug_test-Mirrored,
  test_rpc-Mirrored, set_max_power-Mirrored, log-Mirrored, call-Mirrored, connect-page,
}

module _ (host : Host) where
  nothing-HasKey : HasKey host undefined
  nothing-HasKey key found = cc

  text-HasKey : (text : String) → HasKey host (str text)
  unfolding case_of text_of
  text-HasKey text key found = rw (← same found) refl
    where
      same : returned undefined ≡ returned key → undefined ≡ key
      same e = cc

  -- `updateSystemStatus`, which no method calls, is left out; the parameters of a message that arrives,
  -- and an error, have no key that reads like one with a case of its own and is none.
  abbrev pub IsPlain : MonitorEvent → Type 0
  IsPlain (call_update_status status) = ⊥
  IsPlain (socket_error e) = HasKey host e
  IsPlain (socket_message text) = HasParams host (HasKey host) text
  IsPlain event = Unit

  waits-Mirrored :
      (n : ℕ) (ts : List ℕ) (w : MonitorWorld)
      → Mirrored host w
      → Mirrored host (record w { reconnect_attempts = n; timers = ts })
  waits-Mirrored n ts w i = i

  handle_event-Mirrored :
      (io : SocketState) (event : MonitorEvent) (w : MonitorWorld)
      → IsPlain event
      → Mirrored host w
      → Mirrored host (handle_event host io event w)
  unfolding handle_event update_metrics start_debug_metrics test_metrics_directly
      test_rpc_connection on_timer on_error IsMirrored
  handle_event-Mirrored io press_start w p i = send_command-Mirrored host io.sends io.ready _ _ w i
  handle_event-Mirrored io press_stop w p i = send_command-Mirrored host io.sends io.ready _ _ w i
  handle_event-Mirrored io press_reset w p i = send_command-Mirrored host io.sends io.ready _ _ w i
  handle_event-Mirrored io press_debug w p i = debug_test-Mirrored host io.sends w i
  handle_event-Mirrored io (press_set_power max_power) w p i =
      set_max_power-Mirrored host io.sends io.ready max_power w i
  handle_event-Mirrored io interval w p i = call-Mirrored host io.sends _ _ _ w i
  handle_event-Mirrored io timeout w p i =
      call-Mirrored host io.sends _ _ _ (on_monitor (λ m. record m { timeouts = m.timeouts - 1 }) w)
        i
  handle_event-Mirrored io reconnect w p i =
      rw (connect-page io.opens default_url (record w { timers = drop_first w.timers })) i
  handle_event-Mirrored io call_test_rpc w p i = test_rpc-Mirrored host io.sends w i
  handle_event-Mirrored io call_test_connection w p i =
      call-Mirrored host io.sends _ _ _ (on_panel (add_event "Testing RPC connection...") w)
        (log-Mirrored host "Testing RPC connection..." w i)
  handle_event-Mirrored io call_test_metrics w p i = call-Mirrored host io.sends _ _ _ w i
  handle_event-Mirrored io (call_update_status status) w p i = absurd p
  handle_event-Mirrored io socket_open w p i =
      on_open-given (Mirrored host) (mirrored-stable host) (HasKey host) (receive host io.sends)
        (receive-Mirrored host io.sends) nothing-HasKey w i
  handle_event-Mirrored io socket_close w p i =
      on_close-given (Mirrored host) (mirrored-stable host) (HasKey host) (receive host io.sends)
        (receive-Mirrored host io.sends) nothing-HasKey w waits-Mirrored i
  handle_event-Mirrored io (socket_error e) w p i =
      emit-given (Mirrored host) (mirrored-stable host) (HasKey host) (receive host io.sends)
        (receive-Mirrored host io.sends) "error" e w p i
  handle_event-Mirrored io (socket_message text) w p i =
      on_message-given (Mirrored host) (mirrored-stable host) (HasKey host) (receive host io.sends)
        (receive-Mirrored host io.sends) host text-HasKey text w p i

  step_event-Mirrored :
      (io : SocketState) (event : MonitorEvent) (w : MonitorWorld)
      → IsPlain event
      → Mirrored host w
      → Mirrored host (step_event host io event w)
  unfolding step_event drain
  step_event-Mirrored io event w p i = drained _ _ (handle_event-Mirrored io event w p i)
    where
      drained :
          (fuel : ℕ) (v : MonitorWorld)
          → Mirrored host v
          → Mirrored host (drain (resumed host) fuel v)
      drained zero v j = j
      drained (suc fuel) v j = elim (List-cases v.reactions) [
        | inl nothing ↦ rw (nothing, drain) j
        | inr ((k, r), rest, e) ↦
            rw (e, drain)
              (drained fuel _ (resume-IsMirrored host k r (record v { reactions = rest }) j))
      ]

  -- One event after another, each with what the socket does then.
  pub data Run (u : MonitorWorld) : MonitorWorld → Type 0 where
    here : Run u u
    next :
        {v : MonitorWorld} (io : SocketState) (event : MonitorEvent)
        → Run u v
        → CanHappen event v
        → IsPlain event
        → Run u (step_event host io event v)

  -- The page as it is when its script has run.
  abbrev pub loaded : (opens : Bool) → Panel → MonitorWorld
  loaded opens panel = init_monitor host true opens (new_client (new_monitor panel))

  loaded-Mirrored : (opens : Bool) (panel : Panel) → Mirrored host (loaded opens panel)
  unfolding init_monitor on new_client new_monitor IsMirrored connect Dict.get
  loaded-Mirrored true panel key = tt
  loaded-Mirrored false panel key = tt

  -- Whatever happened to the monitoring page since it was loaded, each element that shows a value shows
  -- the one that the table holds under its name, in the form that belongs to the name, if no message
  -- that arrived and no error had a key that is no text and reads like one of the keys with a case
  -- of their own. `updateSystemStatus`, which no method calls, is left out.
  pub Run-IsMirrored :
      (opens : Bool) (panel : Panel) {w : MonitorWorld}
      → Run (loaded opens panel) w
      → IsMirrored host w.page
  Run-IsMirrored opens panel here = loaded-Mirrored opens panel
  Run-IsMirrored opens panel (next {v} io event r possible plain) =
      step_event-Mirrored io event v plain (Run-IsMirrored opens panel r)
