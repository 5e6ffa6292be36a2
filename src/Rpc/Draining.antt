-- ===== src/Rpc/Draining.antt =====
-- When `drain` has been given enough rounds. A reaction may settle promises itself: each kind of
-- wait has a weight, and what its reaction settles weighs less than it.
use ocpp_server.Base.{
  ℕ, String, Bool, zero, suc, ◌+◌, ◌*◌, ◌≤◌, ◌<◌, ◌≡◌, refl, sym, ap, ◌∙◌, inl, inr, List, [], ◌∷◌,
  ◌++◌, arith, length, List-cases,
}
use ocpp_server.Js.{error, fault, type_error, invalid_state, Value, Eff, Done}
use ocpp_server.Rpc.State.{Client, Settled, rejected}
use ocpp_server.Rpc.Core.{drain, enter, send}
use ocpp_server.Rpc.Monitor.{call, transmit}

module _ {K : Type 0} (weight : K → ℕ) where
  abbrev pub total : List (K × Settled) → ℕ
  total [] = 0
  total ((k, r) ∷ rest) = weight k + total rest

  pub total-append : (rs ss : List (K × Settled)) → total (rs ++ ss) ≡ total rs + total ss
  total-append [] ss = omega arith
  total-append ((k, r) ∷ rest) ss = omega (arith, total-append rest ss)

  -- A call settles its own promise, if it settles one at once.
  pub call-total :
      {H P : Type 0} (sends : Bool) (method : String) (params : Value) (k : K) (c : Client K H P)
      → total (call sends method params k c).reactions ≤ total c.reactions + weight k
  unfolding call transmit enter send
  call-total sends method params k c = ground (
    arith,
    total-append c.reactions ((k, rejected (error "Not connected to server")) ∷ []),
    total-append c.reactions ((k, rejected (fault type_error)) ∷ []),
    total-append c.reactions ((k, rejected (fault invalid_state)) ∷ []),
  )

  pub total-le :
      (most : ℕ) (rs : List (K × Settled))
      → ((k : K) → weight k ≤ most)
      → total rs ≤ most * length rs
  total-le most [] h = omega arith
  total-le most ((k, r) ∷ rest) h = grind (arith, h k, total-le most rest h)

  module _ {H P : Type 0} (resume : K → Settled → Eff (Client K H P) Done)
      (spends : (k : K) (r : Settled) (c : Client K H P)
        → total (resume k r c).1.reactions < total c.reactions + weight k) where
    -- As many rounds as the waiting reactions weigh are enough.
    pub drain-reactions :
        (fuel : ℕ) (c : Client K H P)
        → total c.reactions ≤ fuel
        → (drain resume fuel c).reactions ≡ []
    unfolding drain
    drain-reactions zero c h = elim (List-cases c.reactions) [
      | inl none_left ↦ none_left
      | inr ((k, r), rest, e) ↦
          absurd (omega (arith, ap total e, spends k r (record c { reactions = rest })))
    ]
    drain-reactions (suc fuel) c h = elim (List-cases c.reactions) [
      | inl none_left ↦ rw (none_left, drain) none_left
      | inr ((k, r), rest, e) ↦
          rw (e, drain)
            (drain-reactions fuel (resume k r (record c { reactions = rest })).1
              (omega (arith, ap total e, spends k r (record c { reactions = rest }))))
    ]

module _ {K H P : Type 0} (resume : K → Settled → Eff (Client K H P) Done) where
  drain-none :
      (fuel : ℕ) (c : Client K H P)
      → drain resume fuel (record c { reactions = [] }) ≡ record c { reactions = [] }
  unfolding drain
  drain-none zero c = refl
  drain-none (suc fuel) c = refl

  pub drain-quiet : (fuel : ℕ) (c : Client K H P) → c.reactions ≡ [] → drain resume fuel c ≡ c
  drain-quiet fuel c h =
      let emptied : c ≡ record c { reactions = [] } = ap (λ rs. record c { reactions = rs }) h in
      ap (drain resume fuel) emptied ∙ drain-none fuel c ∙ sym emptied

  -- One reaction that settles nothing.
  pub drain_one :
      (fuel : ℕ) (k : K) (r : Settled) (c : Client K H P)
      → (resume k r (record c { reactions = [] })).1.reactions ≡ []
      → drain resume (suc fuel) (record c { reactions = (k, r) ∷ [] })
        ≡ (resume k r (record c { reactions = [] })).1
  unfolding drain
  drain_one fuel k r c h = drain-quiet fuel (resume k r (record c { reactions = [] })).1 h

  -- Reactions that settle nothing need no more rounds than they are.
  pub drain-length :
      (c : Client K H P)
      → ((k : K) (r : Settled) (d : Client K H P) → (resume k r d).1.reactions ≡ d.reactions)
      → (drain resume (length c.reactions) c).reactions ≡ []
  drain-length c settles_none =
      drain-reactions (λ k. 1) resume
        (λ k r d. omega (arith, ap (total (λ k. 1)) (settles_none k r d))) (length c.reactions) c
        (omega (arith, total-le (λ k. 1) 1 c.reactions (λ k. omega arith)))
