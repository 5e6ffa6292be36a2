-- ===== src/Central/Once.antt =====
-- A request of the central page is answered once.
use ocpp_server.Base.{
  ℕ, suc, ◌≤◌, String, ◌≡◌, refl, ◌∙◌, Bool, true, false, none, some, List, [], ◌∷◌, arith,
  nat_eq_iff, if◌then◌else◌,
}
use ocpp_server.Base.Dict.{Key}
use ocpp_server.Base.Dict
use ocpp_server.Js.{
  nat, Value, num, truthy, is_string, returned, Keeps, Keeps-try_catch, Host, prop,
}
use ocpp_server.Rpc.State.{Request, Settled, rejected, settle, nat_key, string_key, set_url}
use ocpp_server.Rpc.Core.{next_request, on_message, notify, route, disconnect, send, enter}
use ocpp_server.Rpc.Web.{connect, call, transmit}
use ocpp_server.Rpc.Invariant.{IsValid, drain-Inv}
use ocpp_server.Rpc.Pending.{get_bounds, get-delete_self}
use ocpp_server.Rpc.Answers.{handle_message_lem, route_removes, route_late}
use ocpp_server.Central.State.{Await, World}
use ocpp_server.Central.View.{add_log_entry}
use ocpp_server.Central.Events.{resume, run, socket_message, Io, handle, step}
use ocpp_server.Central.Settling.{resume-Keeps}
use ocpp_server.Central.Closed.{IsClosed, Run, Run-Inv, run-Inv}

-- The number `n` was given, and no request waits under it.
abbrev IsGone : ℕ → World → Type 0
IsGone n w = (n ≤ w.request_id) × (Dict.get n w.pending_requests ≡ none)

get-delete-none :
    (n j : ℕ) (m : List (ℕ × Await)) → Dict.get n m ≡ none → Dict.get n (Dict.delete j m) ≡ none
unfolding Dict.get Dict.delete
get-delete-none n j [] h = refl
get-delete-none n j ((i, k) ∷ m) h = ground (arith, h, get-delete-none n j m)

entered-IsGone : (n : ℕ) (k : Await) (w : World) → IsGone n w → IsGone n (enter k w)
unfolding enter
entered-IsGone n k w (le, none_there) = (
  omega (arith, le),
  Dict.get-set (suc w.request_id) n k w.pending_requests
      ∙ ground (arith, nat_eq_iff (suc w.request_id) n, none_there, le),
)

send-Keeps : (n : ℕ) (sends : Bool) (r : Request) → Keeps (IsGone n) (send sends r)
unfolding send
send-Keeps n sends r = record { at = λ w i. (ground (arith, i), ground (arith, i)) }

removed-IsGone :
    (n id : ℕ) (k : Await) (r : Settled) (w : World)
    → IsGone n w
    → IsGone n (settle k r (record w { pending_requests = Dict.delete id w.pending_requests }))
removed-IsGone n id k r w (le, none_there) =
    (le, get-delete-none n id w.pending_requests none_there)

transmit-Keeps :
    (n : ℕ) (sends : Bool) (id : ℕ) (method : String) (params : Value) (k : Await)
    → Keeps (IsGone n) (transmit sends id method params k)
unfolding transmit
transmit-Keeps n sends id method params k =
    Keeps-try_catch (send sends (next_request id method params)) _ (send-Keeps n sends _)
      (λ e. record { at = removed-IsGone n id k (rejected e) })

either : (n : ℕ) (b : Bool) (u v : World) → IsGone n u → IsGone n v → IsGone n (if b then u else v)
either n true u v i j = i
either n false u v i j = j

call-IsGone :
    (n : ℕ) (sends : Bool) (method : String) (params : Value) (k : Await) (w : World)
    → IsGone n w
    → IsGone n (call sends method params k w)
unfolding call
call-IsGone n sends method params k w i =
    either n w.connected _ _
      ((transmit-Keeps n sends (suc w.request_id) method params k).at (enter k w)
        (entered-IsGone n k w i))
      i

connect-IsGone : (n : ℕ) (made : Bool) (w : World) → IsGone n w → IsGone n (connect made w)
unfolding connect
connect-IsGone n true w i = i
connect-IsGone n false w i = i

disconnect-IsGone : (n : ℕ) (w : World) → IsGone n w → IsGone n (disconnect w)
unfolding disconnect
disconnect-IsGone n w i = (ground (arith, i), ground (arith, i))

IsGone-closed : (n : ℕ) → IsClosed (IsGone n)
unfolding add_log_entry set_url
IsGone-closed n = record {
  stable = record {
    settles = λ k r w i. i;
    answers = λ j w i. (i.0, get-delete-none n j w.pending_requests i.1);
    drains = λ rs w i. i;
  };
  blind = record {
    tolerant = record { shows = λ u w same i. i; logs = λ text kind w i. i };
    pages = λ p w same i. i;
  };
  calls = call-IsGone n;
  opened = λ w there i. i;
  closed = λ w i. i;
  connects = connect-IsGone n;
  disconnects = disconnect-IsGone n;
  urls = λ url w i. i;
}

module _ (host : Host) where
  answered-IsGone :
      (io : Io) (w : World) (n : ℕ) (k : Await) (text : String) (msg e : Value)
      → IsValid w
      → Dict.get n w.pending_requests ≡ some k
      → host.parse text ≡ some msg
      → is_string msg ≡ false
      → prop host msg "id" ≡ returned (num (nat n))
      → prop host msg "error" ≡ returned e
      → IsGone n (step host io (socket_message text) w)
  unfolding step handle on_message
  answered-IsGone io w n k text msg e valid waits parsed whole numbered has_error =
      let (table, number) =
        route_removes host (run host io.sends) msg n w numbered k e valid waits has_error in
      let (_, bound) = get_bounds 0 w.request_id n k w.pending_requests valid.ids waits in
      let gone : IsGone n (route host (run host io.sends) msg w).1 = (
        omega (arith, number, bound),
        rw table (get-delete_self 0 w.request_id n w.pending_requests valid.ids),
      ) in
      drain-Inv (IsGone n) (IsGone-closed n).stable (run host io.sends)
        (run-Inv (IsGone n) (IsGone-closed n) host io.sends) (resume host)
        (λ k r. resume-Keeps (IsGone n) (IsGone-closed n).blind host k r) _ _
        (rw (parsed, on_message, handle_message_lem host (run host io.sends) msg whole) gone)

  -- When a text has arrived on a valid client of the central page that answers a waiting request, with
  -- an error or with none, then whatever happens after that event, no request waits under its number any
  -- more; and another text with the number and with no method, as often as it comes, changes
  -- nothing at all.
  pub answer_once :
      (io : Io) (w v : World) (n : ℕ) (k : Await) (text : String) (msg e : Value)
      → IsValid w
      → Dict.get n w.pending_requests ≡ some k
      → host.parse text ≡ some msg
      → is_string msg ≡ false
      → prop host msg "id" ≡ returned (num (nat n))
      → prop host msg "error" ≡ returned e
      → Run host (step host io (socket_message text) w) v
      → (io' : Io) (later : String) (again m : Value) → host.parse later ≡ some again
      → is_string again ≡ false
      → prop host again "id" ≡ returned (num (nat n))
      → prop host again "method" ≡ returned m
      → truthy m ≡ false
      → (Dict.get n v.pending_requests ≡ none) × (handle host io' (socket_message later) v ≡ v)
  unfolding handle on_message notify
  answer_once io w v n k text msg e valid waits parsed whole numbered has_error r io' later again m
        parsed' whole' numbered' has_method nameless =
      let gone =
        Run-Inv (IsGone n) (IsGone-closed n) host r
          (answered-IsGone io w n k text msg e valid waits parsed whole numbered has_error) in
      let late = route_late host (run host io'.sends) again n v numbered' gone.1 in
      (
        gone.1,
        rw
            (
              parsed',
              on_message,
              handle_message_lem host (run host io'.sends) again whole',
              late,
              has_method,
              nameless,
            )
            refl,
      )
