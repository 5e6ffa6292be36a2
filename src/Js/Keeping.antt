-- ===== src/Js/Keeping.antt =====
-- Invariants of effects: a rule for each way to put one together.
use ocpp_server.Base.{Bool, true, false, if◌then◌else◌}
use ocpp_server.Js.Effect.{
  Exn, Outcome, returned, thrown, Eff, lift, gets, pure, modify, done, ◌>>=◌, try_catch,
}

-- `m` keeps `Inv`, whether it returns or throws.
pub record Keeps {S A : Type 0} (Inv : S → Type 0) (m : Eff S A) : Type 0 where
  pub at : (s : S) → Inv s → Inv (m s).1

module _ {S A : Type 0} {Inv : S → Type 0} where
  pub Keeps-lift : (r : Outcome A) → Keeps Inv (lift r)
  Keeps-lift r = record { at = λ s i. i }

  pub Keeps-pure : (a : A) → Keeps Inv (pure a)
  Keeps-pure a = record { at = λ s i. i }

  pub Keeps-gets : (f : S → A) → Keeps Inv (gets f)
  Keeps-gets f = record { at = λ s i. i }

  pub Keeps-if :
      (b : Bool) (m n : Eff S A) → Keeps Inv m → Keeps Inv n → Keeps Inv (if b then m else n)
  Keeps-if true m n km kn = km
  Keeps-if false m n km kn = kn

  caught-Keeps :
      (r : Outcome A) (h : Exn → Eff S A)
      → ((e : Exn) → Keeps Inv (h e))
      → Keeps Inv (try_catch (lift r) h)
  caught-Keeps (returned a) h kh = record { at = λ s i. i }
  caught-Keeps (thrown e) h kh = record { at = (kh e).at }

  pub Keeps-try_catch :
      (m : Eff S A) (h : Exn → Eff S A)
      → Keeps Inv m
      → ((e : Exn) → Keeps Inv (h e))
      → Keeps Inv (try_catch m h)
  Keeps-try_catch m h km kh = record {
    at = λ s i. (caught-Keeps (m s).0 h kh).at (m s).1 (km.at s i);
  }

module _ {S : Type 0} {Inv : S → Type 0} where
  pub Keeps-modify : (f : S → S) → ((s : S) → Inv s → Inv (f s)) → Keeps Inv (modify f)
  Keeps-modify f k = record { at = k }

  pub Keeps-done : Keeps Inv (done {S = S})
  Keeps-done = record { at = λ s i. i }

module _ {S A B : Type 0} {Inv : S → Type 0} where
  continue-Keeps :
      (r : Outcome A) (f : A → Eff S B) → ((a : A) → Keeps Inv (f a)) → Keeps Inv (lift r >>= f)
  continue-Keeps (returned a) f kf = record { at = (kf a).at }
  continue-Keeps (thrown e) f kf = record { at = λ s i. i }

  pub Keeps-bind :
      (m : Eff S A) (f : A → Eff S B)
      → Keeps Inv m
      → ((a : A) → Keeps Inv (f a))
      → Keeps Inv (m >>= f)
  Keeps-bind m f km kf = record { at = λ s i. (continue-Keeps (m s).0 f kf).at (m s).1 (km.at s i) }

pub ruleset keeps_rules = (
  Keeps-lift, Keeps-pure, Keeps-gets, Keeps-if, Keeps-try_catch, Keeps-modify, Keeps-done,
  Keeps-bind,
)
