-- ===== src/Monitoring/Kept.antt =====
-- The elements of the monitoring page show the values of its table under every event.
use ocpp_server.Base.{
  ℕ, String, ◌≡◌, refl, inl, inr, Bool, true, false, not, ◌&&◌, arith, ◌==◌, if◌then◌else◌,
  Bool-cases, Option-cases,
}
use ocpp_server.Base.Dict.{Key}
use ocpp_server.Base.Dict
use ocpp_server.Js.{
  nat, Value, num, str, is_undefined, returned, Keeps, Keeps-modify, keeps_rules, Host, prop,
  text_of, read,
}
use ocpp_server.Rpc.State.{Client, nat_key, string_key}
use ocpp_server.Rpc.Core.{send, enter}
use ocpp_server.Rpc.Invariant.{IsStable}
use ocpp_server.Rpc.Params.{given-Keeps}
use ocpp_server.Rpc.Monitor.{call, transmit, connect}
use ocpp_server.Monitoring.State.{
  Monitor, MonitorWorld, Pause, Receiver, at_connected, at_disconnected, at_error, at_value_changed,
  at_charging_started, at_charging_stopped, at_metrics_update, on_monitor, on_panel, with_panel,
  tell, add_event, update_panel_connection,
}
use ocpp_server.Monitoring.Values.{update_value, case_of}
use ocpp_server.Monitoring.Mirror.{IsMirrored, update_value-IsMirrored}
use ocpp_server.Monitoring.Commands.{send_command, refusal}
use ocpp_server.Monitoring.Events.{
  update, update_number, start_monitoring, receive, set_max_power, send_test, debug_test, test_rpc,
}

module _ {K H P : Type 0} where
  call-page :
      (sends : Bool) (method : String) (params : Value) (k : K) (c : Client K H P)
      → (call sends method params k c).page ≡ c.page
  unfolding call transmit enter send
  call-page sends method params k c = ground arith

  pub connect-page :
      (opens : Bool) (url : String) (c : Client K H P) → (connect opens url c).page ≡ c.page
  unfolding connect
  connect-page opens url c = ground arith

module _ (host : Host) where
  -- A key that is no text is not written as one of the keys that have a case of their own.
  abbrev pub IsNamed : Value → Type 0
  IsNamed key = case_of key ≡ case_of (str (text_of host key))

  -- What the parameter of a notification has for a key is named.
  abbrev pub HasKey : Value → Type 0
  HasKey params = (key : Value) → prop host params "key" ≡ returned key → IsNamed key

  abbrev pub Mirrored : MonitorWorld → Type 0
  Mirrored w = IsMirrored host w.page

  pub mirrored-stable : IsStable Mirrored
  mirrored-stable = record { settles = λ k r c i. i; answers = λ n c i. i; drains = λ rs c i. i }

  update_value-named :
      (key v : Value) (m : Monitor)
      → IsNamed key
      → update_value host key v m ≡ update_value host (str (text_of host key)) v m
  unfolding update_value text_of
  update_value-named key v m named =
      elim (Option-cases (Dict.get (text_of host key) m.panel.shown)) [
        | inl absent ↦ rw (absent, update_value) refl
        | inr (e, there) ↦ rw (there, update_value, named) refl
      ]

  update-Mirrored :
      (key : String) (v : Value) (w : MonitorWorld) → Mirrored w → Mirrored (update host key v w)
  update-Mirrored key v w i = update_value-IsMirrored host key v w.page i

  update_number-Mirrored :
      (key : String) (v : Value) (w : MonitorWorld)
      → Mirrored w
      → Mirrored (update_number host key v w)
  unfolding update_number
  update_number-Mirrored key v w i = elim (Bool-cases (is_undefined v)) [
    | inl missing ↦ rw missing i
    | inr there ↦ rw there (update-Mirrored key (num (host.parse_float (text_of host v))) w i)
  ]

  pub log-Mirrored :
      (text : String) (w : MonitorWorld) → Mirrored w → Mirrored (on_panel (add_event text) w)
  unfolding IsMirrored add_event
  log-Mirrored text w i = i

  tell-Mirrored :
      (text : String) (w : MonitorWorld) → Mirrored w → Mirrored (on_panel (tell text) w)
  unfolding IsMirrored tell
  tell-Mirrored text w i = i

  pub call-Mirrored :
      (sends : Bool) (method : String) (params : Value) (k : Pause) (w : MonitorWorld)
      → Mirrored w
      → Mirrored (call sends method params k w)
  call-Mirrored sends method params k w i = rw (call-page sends method params k w) i

  module _ (sends : Bool) where
    start_monitoring-Mirrored :
        (w : MonitorWorld) → Mirrored w → Mirrored (start_monitoring host sends w)
    unfolding start_monitoring
    start_monitoring-Mirrored w i = call-Mirrored sends _ _ _ w i

    changed :
        (key v : Value) (w : MonitorWorld)
        → IsNamed key
        → Mirrored w
        → Mirrored (on_monitor (update_value host key v) w)
    changed key v w named i =
        rw (update_value-named key v w.page named)
          (update_value-IsMirrored host (text_of host key) v w.page i)

    pub receive-Mirrored :
        (h : Receiver) (v : Value) → HasKey v → Keeps Mirrored (receive host sends h v)
    unfolding receive IsMirrored
    receive-Mirrored at_connected v q = record {
      at = λ w i.
          start_monitoring-Mirrored
            (on_monitor
              (λ m. record (with_panel (update_panel_connection true) m) {
                connection_state = "connected";
              })
              w)
            i;
    }
    receive-Mirrored at_disconnected v q = Keeps-modify _ (λ w i. i)
    receive-Mirrored at_error v q = search (keeps_rules, log-Mirrored)
    receive-Mirrored at_value_changed v q =
        given-Keeps (prop host v "key") _
          (λ key found. Keeps-modify _ (λ w i. changed key (read host v "value") w (q key found) i))
    receive-Mirrored at_charging_started v q = search (keeps_rules, log-Mirrored, update-Mirrored)
    receive-Mirrored at_charging_stopped v q = search (keeps_rules, log-Mirrored, update-Mirrored)
    receive-Mirrored at_metrics_update v q = search (keeps_rules, update_number-Mirrored)

    either :
        (b : Bool) (u v : MonitorWorld) → Mirrored u → Mirrored v → Mirrored (if b then u else v)
    either true u v i j = i
    either false u v i j = j

    -- The clicks.
    pub send_command-Mirrored :
        (ready : Bool) (command : String) (params : Value) (w : MonitorWorld)
        → Mirrored w
        → Mirrored (send_command ready sends command params w)
    unfolding send_command IsMirrored add_event tell
    send_command-Mirrored ready command params w i = elim (Option-cases (refusal ready w)) [
      | inl accepted ↦ rw (accepted, send_command) (call-Mirrored sends command params _ _ i)
      | inr (text, refused) ↦
          rw (refused, send_command)
            (elim (Bool-cases (w.page.connection_state == "connected")) [
              | inl there ↦ rw there i
              | inr lost ↦ rw lost i
            ])
    ]

    send_test-Mirrored :
        (id : ℕ) (w : MonitorWorld) → Mirrored w → Mirrored (send_test host sends id w)
    unfolding send_test send
    send_test-Mirrored id w i = elim (Option-cases w.ws) [
      | inl missing ↦ rw (missing, send_test) i
      | inr (socket, there) ↦
          rw (there, send_test)
            (elim (Bool-cases sends) [ inl taken ↦ rw taken i | inr refused ↦ rw refused i ])
    ]

    pub debug_test-Mirrored : (w : MonitorWorld) → Mirrored w → Mirrored (debug_test host sends w)
    unfolding debug_test
    debug_test-Mirrored w i = elim (Option-cases w.ws) [
      | inl missing ↦ rw (missing, debug_test) i
      | inr (socket, there) ↦ rw (there, debug_test) (send_test-Mirrored 1 w i)
    ]

    pub test_rpc-Mirrored : (w : MonitorWorld) → Mirrored w → Mirrored (test_rpc host sends w)
    unfolding test_rpc
    test_rpc-Mirrored w i =
        either w.connected _ _ (send_test-Mirrored 999 w i)
          (tell-Mirrored "Please connect first" w i)

    pub set_max_power-Mirrored :
        (ready : Bool) (max_power : String) (w : MonitorWorld)
        → Mirrored w
        → Mirrored (set_max_power host sends ready max_power w)
    unfolding set_max_power
    set_max_power-Mirrored ready max_power w i =
        let n = host.number_of_text max_power in
        either (not (max_power == "") && host.at_least n (nat 1) && host.at_least (nat 100) n) _ _
          (send_command-Mirrored ready _ _ w i) (tell-Mirrored _ w i)
