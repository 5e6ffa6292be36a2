-- ===== src/Monitoring/Commands.antt =====
-- `MonitoringSystem.sendCommand`.
use ocpp_server.Base.{
  false, ◌&&◌, arith, sym, ◌∙◌, Option-cases, ℕ, suc, String, ◌≡◌, refl, ap, inl, inr, Bool, true,
  not, Option, none, some, [], ◌∷◌, ◌++◌, ◌==◌, if◌then◌else◌, ◌<>◌, Bool-cases,
}
use ocpp_server.Base.Dict.{Key}
use ocpp_server.Base.Dict
use ocpp_server.Js.{Value, Exn, Host, message, text_of}
use ocpp_server.Rpc.State.{Settled, resolved, rejected, nat_key}
use ocpp_server.Rpc.Core.{next_request, enter, send}
use ocpp_server.Rpc.Monitor.{call, transmit}
use ocpp_server.Monitoring.State.{MonitorWorld, Pause, on_panel, tell, add_event}

-- The tests before the request. `ready` says whether the socket is open.
unfoldable pub refusal : (ready : Bool) → MonitorWorld → Option String
refusal ready w =
    if not (w.page.connection_state == "connected")
    then some "Not connected to server. Please check connection."
    else elim w.ws [
      | none ↦ some "WebSocket not initialized"
      | some socket ↦ if ready then none else some "WebSocket connection not open"
    ]

-- Only the first refusal is written to the log too.
abbrev log_refusal : String → MonitorWorld → MonitorWorld
log_refusal text w =
    if w.page.connection_state == "connected" then w else on_panel (add_event ("Error: " <> text)) w

-- `sendCommand` up to its `await`.
unfoldable pub send_command : (ready sends : Bool) → String → Value → MonitorWorld → MonitorWorld
unfolding refusal tell add_event
send_command ready sends command params w =
    let w' = on_panel (add_event ("Sending command: " <> command)) w in
    elim (refusal ready w) [
      | none ↦ call sends command params (Pause.command command) w'
      | some text ↦ on_panel (tell text) (log_refusal text w')
    ]

module _ (host : Host) where
  abbrev pub error_text : String → Exn → String
  error_text command e = "Error executing " <> command <> ": " <> message host e

  unfoldable pub command_ended : String → Settled → MonitorWorld → MonitorWorld
  unfolding add_event tell
  command_ended command (resolved result) =
      on_panel (add_event ("Command " <> command <> " executed: " <> text_of host result))
  command_ended command (rejected e) =
      on_panel λ p. tell (error_text command e) (add_event (error_text command e) p)

send_command-refused :
    (ready sends : Bool) (command : String) (params : Value) (w : MonitorWorld) (text : String)
    → refusal ready w ≡ some text
    → send_command ready sends command params w
      ≡ on_panel
          (tell text)
          (log_refusal text (on_panel (add_event ("Sending command: " <> command)) w))
unfolding send_command
send_command-refused ready sends command params w text refused = rw (refused, send_command) refl

send_command_refused :
    (ready sends : Bool) (command : String) (params : Value) (w : MonitorWorld) (text : String)
    → refusal ready w ≡ some text
    → let v = send_command ready sends command params w in
      (record v { page = w.page } ≡ w) × (v.page.panel.alerts ≡ w.page.panel.alerts ++ text ∷ [])
unfolding tell add_event
send_command_refused ready sends command params w text refused =
    rw (send_command-refused ready sends command params w text refused)
      (elim (Bool-cases (w.page.connection_state == "connected")) [
        | inl on ↦ rw on (refl, refl)
        | inr off ↦ rw off (refl, refl)
      ])

refusal-accepted :
    (ready : Bool) (w : MonitorWorld)
    → refusal ready w ≡ none
    → (ready ≡ true) × ((socket : ℕ) × (w.ws ≡ some socket))
unfolding refusal
refusal-accepted ready w accepted = elim (Option-cases w.ws) [
  | inl missing ↦ ground (arith, missing)
  | inr (socket, there) ↦ (ground (arith, there), (socket, there))
]

send_command-accepted :
    (sends : Bool) (command : String) (params : Value) (w : MonitorWorld)
    → refusal true w ≡ none
    → send_command true sends command params w
      ≡ call sends command params
          (Pause.command command)
          (on_panel (add_event ("Sending command: " <> command)) w)
unfolding send_command
send_command-accepted sends command params w accepted = rw (accepted, send_command) refl

call_sent :
    (command : String) (params : Value) (w : MonitorWorld) (socket : ℕ)
    → w.ws ≡ some socket
    → w.connected ≡ true
    → let v = call true command params (Pause.command command) w in
      (v.sent ≡ w.sent ++ next_request (suc w.request_id) command params ∷ [])
      × (v.pending_requests
          ≡ Dict.set (suc w.request_id) (Pause.command command) w.pending_requests)
      × (v.page ≡ w.page)
unfolding call transmit enter send
call_sent command params w socket there connected = rw (connected, there, call) (refl, refl, refl)

send_command_sent :
    (command : String) (params : Value) (w : MonitorWorld) (socket : ℕ)
    → refusal true w ≡ none
    → w.ws ≡ some socket
    → w.connected ≡ true
    → let v = send_command true true command params w in
      (v.page.panel.alerts ≡ w.page.panel.alerts)
      × (v.sent ≡ w.sent ++ next_request (suc w.request_id) command params ∷ [])
      × (v.pending_requests
          ≡ Dict.set (suc w.request_id) (Pause.command command) w.pending_requests)
unfolding add_event
send_command_sent command params w socket accepted there connected =
    let w' = on_panel (add_event ("Sending command: " <> command)) w in
    let r = call_sent command params w' socket there connected in
    rw (send_command-accepted true command params w accepted)
      (ap (λ p. p.panel.alerts) r.2, r.0, r.1)

-- Whether a command may be sent, and what the user is told where it may not.
abbrev pub has_socket : Option ℕ → Bool
has_socket none = false
has_socket (some socket) = true

abbrev pub may_send : (ready : Bool) → MonitorWorld → Bool
may_send ready w = w.page.connection_state == "connected" && has_socket w.ws && ready

abbrev pub reason : MonitorWorld → String
reason w =
    if not (w.page.connection_state == "connected")
    then "Not connected to server. Please check connection."
    else (if has_socket w.ws then "WebSocket connection not open" else "WebSocket not initialized")

refusal-may_send :
    (ready : Bool) (w : MonitorWorld)
    → refusal ready w ≡ (if may_send ready w then none else some (reason w))
unfolding refusal
refusal-may_send ready w = elim (Option-cases w.ws) [
  | inl missing ↦ ground (arith, missing)
  | inr (socket, there) ↦ ground (arith, there)
]

-- With the client connected and a socket that takes requests: where the page is connected, there is
-- a socket and it is open, a command is sent under the next number, waits for its answer, and tells
-- the user nothing; otherwise nothing is sent, nothing waits for it, and the user is told once which of
-- the three fails, the first that does.
pub send_command_lem :
    (ready : Bool) (command : String) (params : Value) (w : MonitorWorld)
    → w.connected ≡ true
    → let v = send_command ready true command params w in
      (v.page.panel.alerts
        ≡ (if may_send ready w then w.page.panel.alerts else w.page.panel.alerts ++ reason w ∷ []))
      × (v.sent ≡ (
          if may_send ready w
          then w.sent ++ next_request (suc w.request_id) command params ∷ []
          else w.sent))
      × (v.pending_requests ≡ (
          if may_send ready w
          then Dict.set (suc w.request_id) (Pause.command command) w.pending_requests
          else w.pending_requests))
send_command_lem ready command params w connected = elim (Bool-cases (may_send ready w)) [
  | inl may ↦
      let accepted : refusal ready w ≡ none = refusal-may_send ready w ∙ rw may refl in
      let (open', (socket, there)) = refusal-accepted ready w accepted in
      rw (may, open')
        (send_command_sent command params w socket (ap (λ b. refusal b w) (sym open') ∙ accepted)
          there connected)
  | inr may_not ↦
      let refused : refusal ready w ≡ some (reason w) =
        refusal-may_send ready w ∙ rw may_not refl in
      let (client, alerts) = send_command_refused ready true command params w (reason w) refused in
      rw may_not (alerts, ap (λ v. v.sent) client, ap (λ v. v.pending_requests) client)
]
