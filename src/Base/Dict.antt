-- ===== src/Base/Dict.antt =====
-- A JavaScript `Map`, as a list of entries in the order of insertion, over a key type whose test
-- for equality is a parameter. `set` on a key that is there replaces the value in place.
use ocpp_server.Base.Tests.{if◌then◌else◌}
use mathlib.Core.Path.{◌≡◌, refl}
use mathlib.Core.Logic.{◌↔◌, ◌≢◌}
use mathlib.Core.Bool.{Bool, true, false}
use mathlib.Core.Option.{Option, none, some}
use mathlib.Core.List.{List, [], ◌∷◌, ◌++◌, map}
use native.Mathlib.Omega.{arith}

pub record Key {ℓ} (K : Type ℓ) : Type ℓ where
  pub same : K → K → Bool
  pub same_iff : (a b : K) → (same a b ≡ true) ↔ (a ≡ b)

module _ {ℓ κ} {K : Type ℓ} {V : Type κ} ⦃key : Key K⦄ where
  unfoldable pub get : K → List (K × V) → Option V
  get k [] = none
  get k ((j, v) ∷ m) = if key.same j k then some v else get k m

  unfoldable pub has : K → List (K × V) → Bool
  has k [] = false
  has k ((j, v) ∷ m) = if key.same j k then true else has k m

  unfoldable pub set : K → V → List (K × V) → List (K × V)
  set k v [] = (k, v) ∷ []
  set k v ((j, w) ∷ m) = if key.same j k then (j, v) ∷ m else (j, w) ∷ set k v m

  unfoldable pub delete : K → List (K × V) → List (K × V)
  delete k [] = []
  delete k ((j, w) ∷ m) = if key.same j k then m else (j, w) ∷ delete k m

  abbrev pub keys : List (K × V) → List K
  keys = map λ e. e.0

  pub get-set :
      (k j : K) (v : V) (m : List (K × V))
      → get j (set k v m) ≡ (if key.same k j then some v else get j m)
  unfolding get set
  get-set k j v [] = refl
  get-set k j v ((i, w) ∷ m) =
      ground (arith, key.same_iff k j, key.same_iff i k, key.same_iff i j, get-set k j v m)

  pub has-get : (k : K) (m : List (K × V)) → has k m ≡ false → get k m ≡ none
  unfolding get has
  has-get k [] h = refl
  has-get k ((j, v) ∷ m) h = ground (arith, has-get k m)

  pub set-fresh : (k : K) (v : V) (m : List (K × V)) → get k m ≡ none → set k v m ≡ m ++ (k, v) ∷ []
  unfolding get set
  set-fresh k v [] h = refl
  set-fresh k v ((j, w) ∷ m) h = ground (arith, set-fresh k v m)

  pub delete-absent : (k : K) (m : List (K × V)) → get k m ≡ none → delete k m ≡ m
  unfolding get delete
  delete-absent k [] h = refl
  delete-absent k ((j, w) ∷ m) h = ground (arith, delete-absent k m)

  -- Entering a new key and taking it out again leaves the map as it was.
  pub delete-set : (k : K) (v : V) (m : List (K × V)) → get k m ≡ none → delete k (set k v m) ≡ m
  unfolding get set delete
  delete-set k v [] h = ground (arith, key.same_iff k k)
  delete-set k v ((j, w) ∷ m) h = ground (arith, delete-set k v m)

  pub get-delete_ne : (k j : K) (m : List (K × V)) → k ≢ j → get j (delete k m) ≡ get j m
  unfolding get delete
  get-delete_ne k j [] h = refl
  get-delete_ne k j ((i, w) ∷ m) h =
      ground (arith, key.same_iff i k, key.same_iff i j, get-delete_ne k j m h)
