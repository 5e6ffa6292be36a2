-- ===== src/Admin/Reading.antt =====
-- What the admin page sends without being told to.
use ocpp_server.Base.{
  String, ◌≡◌, refl, inl, inr, Bool, true, false, none, some, List, [], ◌∷◌, ◌++◌, arith, ◌==◌, ltb,
  if◌then◌else◌, Bool-cases,
}
use ocpp_server.Js.{Value, undefined, Keeps, Keeps-modify, Host}
use ocpp_server.Rpc.State.{Request, Settled}
use ocpp_server.Rpc.Core.{on_open, on_error, send, enter}
use ocpp_server.Rpc.Emitter.{emit}
use ocpp_server.Rpc.Invariant.{IsStable, emit-Inv, on_message-Inv, drain-Inv}
use ocpp_server.Rpc.Monitor.{call, transmit, connect, handle_reconnect, on_close, on_timer}
use ocpp_server.Admin.State.{
  Asked, Listener, at_connected, at_disconnected, AdminWorld, on_page, update_connection_status,
}
use ocpp_server.Admin.Events.{
  resumed, load_system_info, edit_value, reboot_system, listen, AdminEvent, press_edit,
  press_reboot, press_clear, press_export, reconnect, socket_open, socket_close, socket_error,
  socket_message, handle_admin, step_admin,
}

-- The requests that do more than read the values.
abbrev pub writes : List Request → List Request
writes [] = []
writes (r ∷ rs) = if r.method == "getValues" then writes rs else r ∷ writes rs

-- An edit that the prompt's reply confirms and a reboot that is confirmed write.
abbrev pub is_confirmed : AdminEvent → Bool
is_confirmed (press_edit key current_value (some new_value)) = true
is_confirmed (press_reboot true) = true
is_confirmed _ = false

writes-read :
    (rs : List Request) (r : Request)
    → r.method == "getValues" ≡ true
    → writes (rs ++ r ∷ []) ≡ writes rs
writes-read [] r read_only = rw read_only refl
writes-read (s ∷ rs) r read_only = rw (writes-read rs r read_only) refl

module _ (base : List Request) where
  Reads : AdminWorld → Type 0
  Reads w = writes w.sent ≡ base

  stable : IsStable Reads
  unfolding Reads
  stable = record { settles = λ k r c i. i; answers = λ n c i. i; drains = λ rs c i. i }

  load_system_info-Reads :
      (sends : Bool) (w : AdminWorld) → Reads w → Reads (load_system_info sends w)
  unfolding Reads load_system_info call transmit enter send
  load_system_info-Reads sends w i = grind (arith, i, writes-read)

  listen-Reads :
      (sends : Bool) (l : Listener) (v : Value) (w : AdminWorld)
      → Reads w
      → Reads (listen sends l v w).1
  unfolding Reads listen
  listen-Reads sends at_connected v w i =
      load_system_info-Reads sends (on_page (update_connection_status true) w) i
  listen-Reads sends at_disconnected v w i = i

  module _ (host : Host) (sends opens : Bool) where
    connect-Reads : (url : String) (w : AdminWorld) → Reads w → Reads (connect opens url w)
    unfolding connect Reads
    connect-Reads url w i = ground (arith, i)

    emitted-Reads :
        (event : String) (v : Value) (w : AdminWorld)
        → Reads w
        → Reads (emit (listen sends) event v w)
    emitted-Reads = emit-Inv Reads stable (listen sends) (listen-Reads sends)

    handle_reconnect-Reads : (w : AdminWorld) → Reads w → Reads (handle_reconnect (listen sends) w)
    unfolding handle_reconnect Reads
    handle_reconnect-Reads w i =
        elim (Bool-cases (ltb w.reconnect_attempts w.max_reconnect_attempts)) [
          | inl again ↦ rw again i
          | inr spent ↦ rw spent (emitted-Reads "reconnect_failed" undefined w i)
        ]

    handle_admin-Reads :
        (event : AdminEvent) (w : AdminWorld)
        → is_confirmed event ≡ false
        → Reads w
        → Reads (handle_admin host sends opens event w)
    unfolding handle_admin edit_value reboot_system on_open on_close on_error on_timer Reads
    handle_admin-Reads (press_edit key current_value none) w h i = i
    handle_admin-Reads (press_edit key current_value (some new_value)) w h i = cc
    handle_admin-Reads (press_reboot true) w h i = cc
    handle_admin-Reads (press_reboot false) w h i = i
    handle_admin-Reads press_clear w h i = i
    handle_admin-Reads press_export w h i = i
    handle_admin-Reads reconnect w h i = connect-Reads _ _ i
    handle_admin-Reads socket_open w h i = emitted-Reads _ _ _ i
    handle_admin-Reads socket_close w h i =
        handle_reconnect-Reads
          (emit (listen sends) "disconnected" undefined (record w { connected = false }))
          (emitted-Reads "disconnected" undefined (record w { connected = false }) i)
    handle_admin-Reads (socket_error e) w h i = emitted-Reads _ _ _ i
    handle_admin-Reads (socket_message text) w h i =
        on_message-Inv Reads stable (listen sends) (listen-Reads sends) host text w i

    resumed-Reads : (k : Asked) (r : Settled) → Keeps Reads (resumed host k r)
    unfolding Reads
    resumed-Reads k r = Keeps-modify _ (λ w i. i)

    step_admin-Reads :
        (event : AdminEvent) (w : AdminWorld)
        → is_confirmed event ≡ false
        → Reads w
        → Reads (step_admin host sends opens event w)
    unfolding step_admin
    step_admin-Reads event w h i =
        drain-Inv Reads stable (listen sends) (listen-Reads sends) (resumed host) resumed-Reads _ _
          (handle_admin-Reads event w h i)

-- Unless the event is an edit or a reboot that the user has confirmed, the admin page sends no request
-- but ones for the values: a cancelled prompt, a declined question, a message, the loss of the
-- connection and a new one change nothing on the server.
pub step_admin-writes :
    (host : Host) (sends opens : Bool) (event : AdminEvent) (w : AdminWorld)
    → is_confirmed event ≡ false
    → writes (step_admin host sends opens event w).sent ≡ writes w.sent
unfolding Reads
step_admin-writes host sends opens event w h =
    step_admin-Reads (writes w.sent) host sends opens event w h refl

-- The reactions of an event send nothing.
pub drained-writes :
    (host : Host) (sends opens : Bool) (event : AdminEvent) (w : AdminWorld)
    → writes (step_admin host sends opens event w).sent
      ≡ writes (handle_admin host sends opens event w).sent
unfolding step_admin Reads
drained-writes host sends opens event w =
    let base = writes (handle_admin host sends opens event w).sent in
    drain-Inv (Reads base) (stable base) (listen sends) (listen-Reads base sends) (resumed host)
      (resumed-Reads base host sends opens) _ _ refl
