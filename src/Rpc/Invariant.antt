-- ===== src/Rpc/Invariant.antt =====
-- What holds of a client between two operations, and that the shared operations keep it. The
-- handlers of events and the reactions of promises enter by what they keep.
use ocpp_server.Base.{
  length, get_elem?, ℕ, zero, suc, String, ◌≡◌, ◌≢◌, inl, inr, true, Option, none, some, List,
  arith, Bool-cases, Option-cases, All, List-cases,
}
use ocpp_server.Base.Dict.{Key}
use ocpp_server.Base.Dict
use ocpp_server.Js.{Value, str, Eff, Done, modify, Keeps, Keeps-modify, keeps_rules, Host}
use ocpp_server.Rpc.State.{Client, Settled, settle, nat_key, string_key, new_client}
use ocpp_server.Rpc.Emitter.{emit, handlers, run_each}
use ocpp_server.Rpc.Pending.{Rising, RisingSent, WasSent, Rising-delete}
use ocpp_server.Rpc.Core.{answer, emit_value, notify, route, handle_message, on_message, drain}

-- The numbers of the waiting requests and of the sent ones rise up to the last number given, and
-- a connected client has a socket.
pub record IsValid {K H P : Type 0} (c : Client K H P) : Type 0 where
  pub ids : Rising 0 c.request_id c.pending_requests
  pub sent_ids : RisingSent 0 c.request_id c.sent
  pub socket : c.connected ≡ true → c.ws ≢ none

-- Every request that waits was handed to a socket.
abbrev pub WaitsForSent : {K H P : Type 0} → Client K H P → Type 0
WaitsForSent c = All (λ e. WasSent e.0 c.sent) c.pending_requests

-- `Inv` survives an operation that leaves the table, the sent requests and the socket alone.
pub record IsStable {K H P : Type 0} (Inv : Client K H P → Type 0) : Type 0 where
  pub settles : (k : K) (r : Settled) (c : Client K H P) → Inv c → Inv (settle k r c)
  pub answers :
      (n : ℕ) (c : Client K H P)
      → Inv c
      → Inv (record c { pending_requests = Dict.delete n c.pending_requests })
  pub drains :
      (rs : List (K × Settled)) (c : Client K H P) → Inv c → Inv (record c { reactions = rs })

module _ {K H P : Type 0} where
  pub new_client-IsValid : (p : P) → IsValid (new_client {K = K} {H = H} p)
  unfolding new_client
  new_client-IsValid p = record { ids = omega arith; sent_ids = omega arith; socket = λ e. cc }

  pub IsValid-stable : IsStable (IsValid {K = K} {H = H} {P = P})
  IsValid-stable = record {
    settles = λ k r c v. record { ids = v.ids; sent_ids = v.sent_ids; socket = v.socket };
    answers = λ n c v. record {
      ids = Rising-delete 0 c.request_id n c.pending_requests v.ids;
      sent_ids = v.sent_ids;
      socket = v.socket;
    };
    drains = λ rs c v. record { ids = v.ids; sent_ids = v.sent_ids; socket = v.socket };
  }

module _ {K H P : Type 0} (Inv : Client K H P → Type 0) (stable : IsStable Inv)
    (run : H → Value → Eff (Client K H P) Done)
    (keeps : (h : H) (v : Value) (c : Client K H P) → Inv c → Inv (run h v c).1) where
  pub run_each-Inv :
      (event : String) (v : Value) (left index : ℕ) (c : Client K H P)
      → Inv c
      → Inv (run_each run event v left index c)
  unfolding run_each
  run_each-Inv event v zero index c i = i
  run_each-Inv event v (suc left) index c i =
      elim (Option-cases (get_elem? (handlers event c) index)) [
        | inl gone ↦ rw (gone, run_each) (run_each-Inv event v left (suc index) c i)
        | inr (h, there) ↦
            rw (there, run_each)
              (run_each-Inv event v left (suc index) (run h v c).1 (keeps h v c i))
      ]

  pub emit-Inv : (event : String) (v : Value) (c : Client K H P) → Inv c → Inv (emit run event v c)
  unfolding emit
  emit-Inv event v c i = elim (Bool-cases (Dict.has event c.event_handlers)) [
    | inl some_handler ↦ rw some_handler (run_each-Inv event v (length (handlers event c)) 0 c i)
    | inr none_there ↦ rw none_there i
  ]

  emit_value-Inv : (e v : Value) (c : Client K H P) → Inv c → Inv (emit_value run e v c)
  unfolding emit_value
  emit_value-Inv (str event) v c i = emit-Inv event v c i
  emit_value-Inv _ v c i = i

  module _ (host : Host) where
    answer-Inv : (msg : Value) (n : ℕ) (k : K) → Keeps Inv (answer host msg n k)
    unfolding answer
    answer-Inv msg n k = search (keeps_rules, stable.answers, stable.settles)

    notify-Inv : (msg : Value) → Keeps Inv (notify host run msg)
    unfolding notify
    notify-Inv msg = search (keeps_rules, emit_value-Inv)

    found-Inv :
        (msg : Value) (found : Option (ℕ × K))
        → Keeps Inv (elim found [ none ↦ notify host run msg | some (n, k) ↦ answer host msg n k ])
    found-Inv msg none = notify-Inv msg
    found-Inv msg (some (n, k)) = answer-Inv msg n k

    route-Inv : (msg : Value) → Keeps Inv (route host run msg)
    unfolding route
    route-Inv msg = search (keeps_rules, found-Inv)

    parsed-Inv :
        (text : String) (parsed : Option Value)
        → Keeps Inv (elim parsed [
          | none ↦ modify (emit run "message" (str text))
          | some msg ↦ route host run msg
        ])
    parsed-Inv text none = Keeps-modify _ (emit-Inv "message" (str text))
    parsed-Inv text (some msg) = route-Inv msg

    pub handle_message-Inv : (msg : Value) → Keeps Inv (handle_message host run msg)
    unfolding handle_message
    handle_message-Inv (str text) = parsed-Inv text (host.parse text)
    handle_message-Inv msg = route-Inv msg

    pub on_message-Inv :
        (text : String) (c : Client K H P) → Inv c → Inv (on_message host run text c)
    unfolding on_message
    on_message-Inv text c i = elim (Option-cases (host.parse text)) [
      | inl bad ↦ rw (bad, on_message) i
      | inr (msg, good) ↦ rw (good, on_message) ((handle_message-Inv msg).at c i)
    ]

  pub drain-Inv :
      (resume : K → Settled → Eff (Client K H P) Done)
      (kept : (k : K) (r : Settled) → Keeps Inv (resume k r)) (fuel : ℕ) (c : Client K H P)
      → Inv c
      → Inv (drain resume fuel c)
  unfolding drain
  drain-Inv resume kept zero c i = i
  drain-Inv resume kept (suc fuel) c i = elim (List-cases c.reactions) [
    | inl nothing ↦ rw (nothing, drain) i
    | inr ((k, r), rest, e) ↦
        rw (e, drain) (drain-Inv resume kept fuel _ ((kept k r).at _ (stable.drains rest c i)))
  ]
