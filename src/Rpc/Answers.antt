-- ===== src/Rpc/Answers.antt =====
-- `handleMessage`, the same in both clients: which request an answer settles, and what becomes of a
-- message that answers none.
use ocpp_server.Base.{
  ◌&&◌, not, ℕ, String, ◌≡◌, ap, ◌∙◌, refl, false, Option, none, some, [], ◌∷◌, ◌++◌, arith, nat_eq,
  if◌then◌else◌,
}
use ocpp_server.Base.Dict.{Key}
use ocpp_server.Base.Dict
use ocpp_server.Js.{
  nat, Value, undefined, num, str, truthy, is_string, error, returned, Eff, Done, Host, prop,
  text_of,
}
use mathlib.Core.Path.{fun_ext}
use ocpp_server.Js.Json.{has_text}
use ocpp_server.Rpc.State.{Client, Settled, resolved, rejected, nat_key, string_key}
use ocpp_server.Rpc.Pending.{get_bounds, get-delete}
use ocpp_server.Rpc.Core.{on_message, notify, route, handle_message}
use ocpp_server.Rpc.Invariant.{IsValid}

-- The requests that wait, as a function: what a caller of the client may know of the table.
abbrev pub outstanding : {K H P : Type 0} → Client K H P → ℕ → Option K
outstanding c n = Dict.get n c.pending_requests

-- The specification of an answer and of a call.
abbrev pub forget {ℓ} : {K : Type ℓ} → ℕ → (ℕ → Option K) → ℕ → Option K
forget n f j = if nat_eq n j then none else f j

abbrev pub remember {ℓ} : {K : Type ℓ} → ℕ → K → (ℕ → Option K) → ℕ → Option K
remember n k f j = if nat_eq n j then some k else f j

-- What an answer settles its promise with.
abbrev pub verdict : Host → Value → Value → Settled
verdict host msg e = if truthy e then rejected (error (text_of host e)) else resolved msg

module _ {K H P : Type 0} (host : Host) (run : H → Value → Eff (Client K H P) Done) where
  module _ (msg : Value) (n : ℕ) (c : Client K H P)
      (has_id : prop host msg "id" ≡ returned (num (nat n))) where
    -- A message that carries the number of a waiting request and is no other kind of value settles
    -- that request: its promise is rejected if the message has an error, and resolved with the whole
    -- message if not; its entry leaves the table, and nothing else changes.
    pub route_answer :
        (k : K) (e : Value)
        → IsValid c
        → Dict.get n c.pending_requests ≡ some k
        → prop host msg "error" ≡ returned e
        → (truthy e && not (has_text e)) ≡ false
        → route host run msg c ≡ (
          returned tt,
          record c {
            pending_requests = Dict.delete n c.pending_requests;
            reactions = c.reactions ++ (k, verdict host msg e) ∷ [];
          },
        )
    unfolding route
    route_answer k e v waits has_error readable =
        let (positive, _) = get_bounds 0 c.request_id n k c.pending_requests v.ids waits in
        ground (arith, positive)

    -- Whatever the error is, the entry leaves the table, and no number is given.
    pub route_removes :
        (k : K) (e : Value)
        → IsValid c
        → Dict.get n c.pending_requests ≡ some k
        → prop host msg "error" ≡ returned e
        → ((route host run msg c).1.pending_requests ≡ Dict.delete n c.pending_requests)
          × ((route host run msg c).1.request_id ≡ c.request_id)
    unfolding route
    route_removes k e v waits has_error =
        let (positive, _) = get_bounds 0 c.request_id n k c.pending_requests v.ids waits in
        (ground (arith, positive), ground (arith, positive))

    -- A message whose number no request waits under is a notification, or nothing.
    pub route_late :
        Dict.get n c.pending_requests ≡ none → route host run msg c ≡ notify host run msg c
    unfolding route
    route_late gone = ground arith

  -- In the table of outstanding requests an answer takes its own number away, and no other.
  pub outstanding_answer :
      (msg : Value) (n : ℕ) (k : K) (e : Value) (c : Client K H P)
      → prop host msg "id" ≡ returned (num (nat n))
      → IsValid c
      → Dict.get n c.pending_requests ≡ some k
      → prop host msg "error" ≡ returned e
      → outstanding (route host run msg c).1 ≡ forget n (outstanding c)
  outstanding_answer msg n k e c has_id v waits has_error =
      ap (λ m j. Dict.get j m) (route_removes msg n c has_id k e v waits has_error).0
      ∙ (fun_ext λ j. get-delete 0 c.request_id n j c.pending_requests v.ids)

  -- Only a text is parsed a second time.
  pub handle_message_lem :
      (msg : Value) → is_string msg ≡ false → handle_message host run msg ≡ route host run msg
  unfolding handle_message
  handle_message_lem (str text) h = cc
  handle_message_lem undefined h = refl
  handle_message_lem _ h = refl

  -- From the frame to the queue: when the text of an answer arrives and no reaction is left over, the
  -- promise of its request is settled and nothing else changes.
  module _ (c : Client K H P) (valid : IsValid c) (quiet : c.reactions ≡ []) (n : ℕ) (k : K)
      (text : String) (msg e : Value) (parsed : host.parse text ≡ some msg)
      (whole : is_string msg ≡ false) (numbered : prop host msg "id" ≡ returned (num (nat n)))
      (sound : prop host msg "error" ≡ returned e)
      (readable : (truthy e && not (has_text e)) ≡ false)
      (waits : Dict.get n c.pending_requests ≡ some k) where
    pub on_message-answer : on_message host run text c ≡ record c {
      pending_requests = Dict.delete n c.pending_requests;
      reactions = (k, verdict host msg e) ∷ [];
    }
    unfolding on_message
    on_message-answer =
        rw (parsed, on_message)
          (ap (λ r. r.1)
              (ap (λ f. f c) (handle_message_lem msg whole)
                ∙ route_answer msg n c numbered k e valid waits sound readable)
            ∙ ap
                (λ rs. record c {
                  pending_requests = Dict.delete n c.pending_requests;
                  reactions = rs ++ (k, verdict host msg e) ∷ [];
                })
                quiet)
