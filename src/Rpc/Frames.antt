-- ===== src/Rpc/Frames.antt =====
-- A frame with the answer to a waiting request, up to the end of the reaction that it brings.
use ocpp_server.Base.{refl, ℕ, suc, ◌*◌, String, ◌≡◌, ap, ◌∙◌, false, some, [], length}
use ocpp_server.Base.Dict.{Key}
use ocpp_server.Base.Dict
use ocpp_server.Js.{nat, Value, num, truthy, is_string, returned, Eff, Done, Host, prop}
use ocpp_server.Rpc.State.{Client, Settled, resolved, nat_key, string_key}
use ocpp_server.Rpc.Core.{on_message, drain}
use ocpp_server.Rpc.Invariant.{IsValid, IsValid-stable}
use ocpp_server.Rpc.Answers.{on_message-answer}
use ocpp_server.Rpc.Draining.{drain_one}

-- The client when the request `n` has been answered and nothing has gone on yet.
abbrev pub after_answer : {K H P : Type 0} → ℕ → Client K H P → Client K H P
after_answer n c = record c { pending_requests = Dict.delete n c.pending_requests; reactions = [] }

pub after_answer-IsValid :
    {K H P : Type 0} (n : ℕ) (c : Client K H P) → IsValid c → IsValid (after_answer n c)
after_answer-IsValid n c v = IsValid-stable.drains [] _ (IsValid-stable.answers n c v)

module _ {K H P : Type 0} (host : Host) (run : H → Value → Eff (Client K H P) Done)
    (resume : K → Settled → Eff (Client K H P) Done) (c : Client K H P) (valid : IsValid c)
    (quiet : c.reactions ≡ []) (n : ℕ) (text : String) (msg e : Value)
    (parsed : host.parse text ≡ some msg) (whole : is_string msg ≡ false)
    (numbered : prop host msg "id" ≡ returned (num (nat n)))
    (sound : prop host msg "error" ≡ returned e) (fine : truthy e ≡ false) where
  -- When the answer is no error and what goes on settles nothing itself, the frame does just that.
  pub frame_answers :
      (k : K) (most fuel : ℕ)
      → most * 1 ≡ suc fuel
      → Dict.get n c.pending_requests ≡ some k
      → (resume k (resolved msg) (after_answer n c)).1.reactions ≡ []
      → let d = on_message host run text c in
        drain resume (most * length d.reactions) d ≡ (resume k (resolved msg) (after_answer n c)).1
  frame_answers k most fuel enough waits after =
      ap (λ (d : Client K H P). drain resume (most * length d.reactions) d)
        (on_message-answer host run c valid quiet n k text msg e parsed whole numbered sound
          (rw fine refl) waits)
      ∙ rw (fine, enough) (drain_one resume fuel k (resolved msg) (after_answer n c) after)

-- The text is a message with the number `n` and no error.
pub record IsAnswer (host : Host) (n : ℕ) (text : String) (msg : Value) : Type 0 where
  pub parsed : host.parse text ≡ some msg
  pub whole : is_string msg ≡ false
  pub numbered : prop host msg "id" ≡ returned (num (nat n))
  pub fine : (e : Value) × (prop host msg "error" ≡ returned e) × (truthy e ≡ false)
