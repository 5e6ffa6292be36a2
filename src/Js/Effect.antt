-- ===== src/Js/Effect.antt =====
-- Code that changes state and may throw. What was written before a throw stays written, so the
-- state comes back beside the exception too.
use ocpp_server.Base.{String, Bool, if◌then◌else◌, ◌≡◌, refl, ◌⊎◌, inl, inr}

-- What the engine throws by itself.
pub data Fault : Type 0 where
  type_error reference_error syntax_error invalid_state : Fault

-- `error message` is `new Error(message)`.
pub data Exn : Type 0 where
  fault : Fault → Exn
  error : String → Exn

pub data Outcome {ℓ} (A : Type ℓ) : Type ℓ where
  returned : A → Outcome A
  thrown : Exn → Outcome A

pub Outcome-cases :
    {A : Type 0} (r : Outcome A) → ((a : A) × (r ≡ returned a)) ⊎ ((e : Exn) × (r ≡ thrown e))
Outcome-cases (returned a) = inl (a, refl)
Outcome-cases (thrown e) = inr (e, refl)

abbrev pub Eff {ℓ} : Type ℓ → Type ℓ → Type ℓ
Eff S A = S → Outcome A × S

abbrev pub Done : Type 0
Done = Unit {0}

module _ {ℓ} {S A : Type ℓ} where
  abbrev pub pure : A → Eff S A
  pure a s = (returned a, s)

  abbrev pub throw : Exn → Eff S A
  throw e s = (thrown e, s)

  abbrev pub lift : Outcome A → Eff S A
  lift r s = (r, s)

  abbrev pub gets : (S → A) → Eff S A
  gets f s = (returned (f s), s)

  abbrev caught : Outcome A → (Exn → Eff S A) → Eff S A
  caught (returned a) h s = (returned a, s)
  caught (thrown e) h s = h e s

  -- `try { m } catch (e) { h(e) }`
  abbrev pub try_catch : Eff S A → (Exn → Eff S A) → Eff S A
  try_catch m h s = let r = m s in caught r.0 h r.1

module _ {ℓ} {S A B : Type ℓ} where
  abbrev pub continue : Outcome A → (A → Eff S B) → Eff S B
  continue (returned a) f s = f a s
  continue (thrown e) f s = (thrown e, s)

  infixl 10 ◌>>=◌
  abbrev pub ◌>>=◌ : Eff S A → (A → Eff S B) → Eff S B
  ◌>>=◌ m f s = let r = m s in continue r.0 f r.1

module _ {S B : Type 0} where
  infixl 10 ◌>>◌
  abbrev pub ◌>>◌ : Eff S Done → Eff S B → Eff S B
  m >> n = m >>= λ _. n

module _ {S : Type 0} where
  abbrev pub modify : (S → S) → Eff S Done
  modify f s = (returned tt, f s)

  abbrev pub done : Eff S Done
  done s = (returned tt, s)

  -- `if (b) { m }`
  abbrev pub when : Bool → Eff S Done → Eff S Done
  when b m = if b then m else done
