-- ===== src/Admin/History.antt =====
-- The admin page after any sequence of events since it was loaded.
use ocpp_server.Base.{
  ℕ, suc, ◌≤◌, String, ◌≡◌, refl, ◌≢◌, inl, inr, Bool, true, false, none, some, List, [], ◌∷◌, ◌++◌,
  arith, if◌then◌else◌, Bool-cases, length,
}
use ocpp_server.Js.{Value, Keeps-modify, Host}
use ocpp_server.Rpc.State.{Request, new_client, nat_key, string_key}
use ocpp_server.Rpc.Core.{on_error, send, enter}
use ocpp_server.Rpc.Emitter.{on}
use ocpp_server.Rpc.Invariant.{IsValid, on_message-Inv, drain-Inv}
use ocpp_server.Rpc.Draining.{drain-length}
use ocpp_server.Rpc.Upheld.{
  IsUpheld, IsValid-IsUpheld, emitted-Inv, on_open-Inv, on_close-Inv, on_timer-Inv,
}
use ocpp_server.Rpc.Monitor.{call, transmit, connect}
use ocpp_server.Admin.State.{AdminPage, Asked, Listener, at_connected, at_disconnected, AdminWorld}
use ocpp_server.Admin.Events.{
  resumed, load_system_info, set_value, edit_value, reboot_system, listen, init_admin, AdminEvent,
  press_edit, press_reboot, press_clear, press_export, reconnect, socket_open, socket_close,
  socket_error, socket_message, handle_admin, step_admin,
}
use ocpp_server.Admin.Reading.{writes, is_confirmed, drained-writes, step_admin-writes}

-- A socket opens only where one was made, and a wait ends only where one began.
abbrev pub IsPossible : AdminEvent → AdminWorld → Type 0
IsPossible socket_open w = w.ws ≢ none
IsPossible reconnect w = w.timers ≢ []
IsPossible _ w = Unit

module _ (Inv : AdminWorld → Type 0) (upheld : IsUpheld Inv) (host : Host)
    (sends opens : Bool) where
  load_system_info-Inv : (w : AdminWorld) → Inv w → Inv (load_system_info sends w)
  unfolding load_system_info
  load_system_info-Inv w i = upheld.calls sends _ _ _ w i

  listen-Inv : (l : Listener) (v : Value) (w : AdminWorld) → Inv w → Inv (listen sends l v w).1
  unfolding listen
  listen-Inv at_connected v w i = load_system_info-Inv _ (upheld.steady.pages _ w i)
  listen-Inv at_disconnected v w i = upheld.steady.pages _ w i

  handle_admin-Inv :
      (event : AdminEvent) (w : AdminWorld)
      → IsPossible event w
      → Inv w
      → Inv (handle_admin host sends opens event w)
  unfolding handle_admin edit_value set_value reboot_system on_error
  handle_admin-Inv (press_edit key current_value none) w possible i = upheld.steady.pages _ w i
  handle_admin-Inv (press_edit key current_value (some new_value)) w possible i =
      upheld.calls sends _ _ _ _ (upheld.steady.pages _ w i)
  handle_admin-Inv (press_reboot true) w possible i =
      upheld.calls sends _ _ _ _ (upheld.steady.pages _ w i)
  handle_admin-Inv (press_reboot false) w possible i = upheld.steady.pages _ w i
  handle_admin-Inv press_clear w possible i = upheld.steady.pages _ w i
  handle_admin-Inv press_export w possible i = upheld.steady.pages _ w i
  handle_admin-Inv reconnect w possible i =
      on_timer-Inv Inv upheld.steady (listen sends) listen-Inv opens w i
  handle_admin-Inv socket_open w possible i =
      on_open-Inv Inv upheld.steady (listen sends) listen-Inv w possible i
  handle_admin-Inv socket_close w possible i =
      on_close-Inv Inv upheld.steady (listen sends) listen-Inv w i
  handle_admin-Inv (socket_error e) w possible i =
      emitted-Inv Inv upheld.steady (listen sends) listen-Inv "error" e w i
  handle_admin-Inv (socket_message text) w possible i =
      on_message-Inv Inv upheld.steady.stable (listen sends) listen-Inv host text w i

  step_admin-Inv :
      (event : AdminEvent) (w : AdminWorld)
      → IsPossible event w
      → Inv w
      → Inv (step_admin host sends opens event w)
  unfolding step_admin
  step_admin-Inv event w possible i =
      drain-Inv Inv upheld.steady.stable (listen sends) listen-Inv (resumed host)
        (λ k r. Keeps-modify _ (λ v j. upheld.steady.pages _ v j)) _ _
        (handle_admin-Inv event w possible i)

step_admin-reactions :
    (host : Host) (sends opens : Bool) (event : AdminEvent) (w : AdminWorld)
    → (step_admin host sends opens event w).reactions ≡ []
unfolding step_admin
step_admin-reactions host sends opens event w =
    drain-length (resumed host) (handle_admin host sends opens event w) (λ k r v. refl)

-- One event after another, each with what the socket does then.
pub data Run (host : Host) (u : AdminWorld) : AdminWorld → Type 0 where
  here : Run host u u
  next :
      {v : AdminWorld} (sends opens : Bool) (event : AdminEvent)
      → Run host u v
      → IsPossible event v
      → Run host u (step_admin host sends opens event v)

module _ (host : Host) {u : AdminWorld} where
  -- How many edits and reboots were confirmed.
  abbrev pub confirmed : {w : AdminWorld} → Run host u w → ℕ
  confirmed here = 0
  confirmed (next sends opens event r possible) =
      if is_confirmed event then suc (confirmed r) else confirmed r

  Run-Inv :
      (Inv : AdminWorld → Type 0) (upheld : IsUpheld Inv) {w : AdminWorld}
      → Run host u w
      → Inv u
      → Inv w
  Run-Inv Inv upheld here i = i
  Run-Inv Inv upheld (next {v} sends opens event r possible) i =
      step_admin-Inv Inv upheld host sends opens event v possible (Run-Inv Inv upheld r i)

writes-append :
    (rs : List Request) (r : Request) → length (writes (rs ++ r ∷ [])) ≤ suc (length (writes rs))
writes-append [] r = ground arith
writes-append (s ∷ rs) r = ground (arith, writes-append rs r)

module _ (host : Host) (sends opens : Bool) where
  call-writes :
      (method : String) (params : Value) (k : Asked) (w : AdminWorld)
      → length (writes (call sends method params k w).sent) ≤ suc (length (writes w.sent))
  unfolding call transmit enter send
  call-writes method params k w = grind (arith, writes-append)

  handled-writes :
      (event : AdminEvent) (w : AdminWorld)
      → is_confirmed event ≡ true
      → length (writes (handle_admin host sends opens event w).sent) ≤ suc (length (writes w.sent))
  unfolding handle_admin edit_value set_value reboot_system
  handled-writes (press_edit key current_value (some new_value)) w h = call-writes _ _ _ _
  handled-writes (press_edit key current_value none) w h = cc
  handled-writes (press_reboot true) w h = call-writes _ _ _ _
  handled-writes _ w h = cc

  stepped-writes :
      (event : AdminEvent) (w : AdminWorld)
      → length (writes (step_admin host sends opens event w).sent)
        ≤ (if is_confirmed event then suc (length (writes w.sent)) else length (writes w.sent))
  stepped-writes event w = elim (Bool-cases (is_confirmed event)) [
    | inl agreed ↦
        rw (agreed, drained-writes host sends opens event w) (handled-writes event w agreed)
    | inr unasked ↦ rw (unasked, step_admin-writes host sends opens event w unasked) (omega arith)
  ]

module _ (host : Host) (page : AdminPage) where
  -- The page as it is when its script has run.
  abbrev pub loaded : Bool → AdminWorld
  loaded opens = init_admin opens (new_client page)

  loaded-IsValid : (opens : Bool) → IsValid (loaded opens)
  unfolding init_admin connect on new_client
  loaded-IsValid true = record { ids = omega arith; sent_ids = omega arith; socket = λ _ e. cc }
  loaded-IsValid false = record { ids = omega arith; sent_ids = omega arith; socket = λ e. cc }

  loaded-sent : (opens : Bool) → ((loaded opens).sent ≡ []) × ((loaded opens).reactions ≡ [])
  unfolding init_admin connect on new_client
  loaded-sent true = (refl, refl)
  loaded-sent false = (refl, refl)

  module _ (opens : Bool) where
    Run-reactions : {w : AdminWorld} → Run host (loaded opens) w → w.reactions ≡ []
    Run-reactions here = (loaded-sent opens).1
    Run-reactions (next {v} sends made event r possible) =
        step_admin-reactions host sends made event v

    -- A page that was loaded stays valid, with no reaction left over.
    pub Run-IsSettled :
        {w : AdminWorld} → Run host (loaded opens) w → IsValid w × (w.reactions ≡ [])
    Run-IsSettled r =
        (Run-Inv host IsValid IsValid-IsUpheld r (loaded-IsValid opens), Run-reactions r)

    -- Since the page was loaded, it has sent no more requests that do other than read the values than
    -- the user has confirmed edits and reboots.
    pub Run-writes :
        {w : AdminWorld} (r : Run host (loaded opens) w) → length (writes w.sent) ≤ confirmed host r
    Run-writes here = rw ((loaded-sent opens).0) (omega arith)
    Run-writes (next {v} sends made event r possible) =
        grind (arith, stepped-writes host sends made event v, Run-writes r)
