-- ===== src/Rpc/Pending.antt =====
-- The table of requests that wait for an answer: their numbers rise along the table.
use ocpp_server.Base.{
  sym, ap, ◌∙◌, ℕ, ◌≤◌, ◌<◌, ◌≡◌, refl, ◌⊎◌, inl, inr, none, some, List, [], ◌∷◌, ◌++◌, arith,
  nat_eq, nat_eq_iff, if◌then◌else◌, Bool-cases, All,
}
use ocpp_server.Base.Dict.{Key}
use ocpp_server.Base.Dict
use ocpp_server.Rpc.State.{Request, nat_key, string_key}

-- The numbers rise, from above `lo` up to `hi`.
abbrev pub Rising {ℓ} : {K : Type ℓ} → ℕ → ℕ → List (ℕ × K) → Type 0
Rising lo hi [] = lo ≤ hi
Rising lo hi (e ∷ m) = (lo < e.0) × Rising e.0 hi m

-- A request with the number `n` was handed to a socket.
abbrev pub WasSent : ℕ → List Request → Type 0
WasSent n [] = ⊥
WasSent n (r ∷ rs) = (r.id ≡ n) ⊎ WasSent n rs

-- The numbers of the requests that were sent rise, from above `lo` up to `hi`.
abbrev pub RisingSent : ℕ → ℕ → List Request → Type 0
RisingSent lo hi [] = lo ≤ hi
RisingSent lo hi (r ∷ rs) = (lo < r.id) × RisingSent r.id hi rs

module _ {ℓ} {K : Type ℓ} where
  pub Rising-le : (lo hi : ℕ) (m : List (ℕ × K)) → Rising lo hi m → lo ≤ hi
  Rising-le lo hi [] h = h
  Rising-le lo hi (e ∷ m) h = omega (arith, Rising-le e.0 hi m h.1)

  pub Rising-mono : (lo hi hi' : ℕ) (m : List (ℕ × K)) → hi ≤ hi' → Rising lo hi m → Rising lo hi' m
  Rising-mono lo hi hi' [] le h = omega arith
  Rising-mono lo hi hi' (e ∷ m) le h = (h.0, Rising-mono e.0 hi hi' m le h.1)

  pub Rising-append :
      (lo hi n : ℕ) (k : K) (m : List (ℕ × K))
      → Rising lo hi m
      → hi < n
      → Rising lo n (m ++ (n, k) ∷ [])
  Rising-append lo hi n k [] h lt = omega arith
  Rising-append lo hi n k (e ∷ m) h lt = (h.0, Rising-append e.0 hi n k m h.1 lt)

  pub Rising-lower :
      (lo lo' hi : ℕ) (m : List (ℕ × K)) → lo' ≤ lo → Rising lo hi m → Rising lo' hi m
  Rising-lower lo lo' hi [] le h = omega arith
  Rising-lower lo lo' hi (e ∷ m) le h = (omega arith, h.1)

  -- A number above the bound has no entry.
  pub get_above : (lo hi n : ℕ) (m : List (ℕ × K)) → Rising lo hi m → hi < n → Dict.get n m ≡ none
  unfolding Dict.get
  get_above lo hi n [] h lt = refl
  get_above lo hi n (e ∷ m) h lt =
      ground (arith, get_above e.0 hi n m h.1 lt, Rising-le e.0 hi m h.1)

  pub get_below : (lo hi n : ℕ) (m : List (ℕ × K)) → Rising lo hi m → n ≤ lo → Dict.get n m ≡ none
  unfolding Dict.get
  get_below lo hi n [] h le = refl
  get_below lo hi n (e ∷ m) h le = ground (arith, get_below e.0 hi n m h.1 (omega arith))

  pub get_bounds :
      (lo hi n : ℕ) (k : K) (m : List (ℕ × K))
      → Rising lo hi m
      → Dict.get n m ≡ some k
      → (lo < n) × (n ≤ hi)
  unfolding Dict.get
  get_bounds lo hi n k [] h g = cc
  get_bounds lo hi n k (e ∷ m) h g =
      ground (arith, get_bounds e.0 hi n k m h.1, Rising-le e.0 hi m h.1)

  pub Rising-delete :
      (lo hi n : ℕ) (m : List (ℕ × K)) → Rising lo hi m → Rising lo hi (Dict.delete n m)
  unfolding Dict.delete
  Rising-delete lo hi n [] h = h
  Rising-delete lo hi n (e ∷ m) h =
      ground (arith, Rising-delete e.0 hi n m h.1, Rising-lower e.0 lo hi m (omega arith) h.1)

  pub get-delete_self :
      (lo hi n : ℕ) (m : List (ℕ × K)) → Rising lo hi m → Dict.get n (Dict.delete n m) ≡ none
  unfolding Dict.delete Dict.get
  get-delete_self lo hi n [] h = refl
  get-delete_self lo hi n (e ∷ m) h =
      ground (arith, get-delete_self e.0 hi n m h.1, get_below e.0 hi n m h.1)

  pub get-delete :
      (lo hi n j : ℕ) (m : List (ℕ × K))
      → Rising lo hi m
      → Dict.get j (Dict.delete n m) ≡ (if nat_eq n j then none else Dict.get j m)
  get-delete lo hi n j m h = elim (Bool-cases (nat_eq n j)) [
    | inl same ↦ rw same (rw (← (nat_eq_iff n j).0 same) (get-delete_self lo hi n m h))
    | inr other ↦ rw other (Dict.get-delete_ne n j m (ground arith))
  ]

  pub All-delete {κ} :
      (P : ℕ × K → Type κ) (n : ℕ) (m : List (ℕ × K)) → All P m → All P (Dict.delete n m)
  unfolding Dict.delete
  All-delete P n [] h = tt
  All-delete P n (e ∷ m) h = elim (Bool-cases (nat_eq e.0 n)) [
    | inl hit ↦ rw hit h.1
    | inr miss ↦ rw miss (h.0, All-delete P n m h.1)
  ]

pub WasSent-append :
    (n : ℕ) (rs : List Request) (r : Request) → WasSent n rs → WasSent n (rs ++ r ∷ [])
WasSent-append n [] r h = absurd h
WasSent-append n (q ∷ rs) r (inl e) = inl e
WasSent-append n (q ∷ rs) r (inr h) = inr (WasSent-append n rs r h)

pub WasSent-last : (rs : List Request) (r : Request) → WasSent r.id (rs ++ r ∷ [])
WasSent-last [] r = inl refl
WasSent-last (q ∷ rs) r = inr (WasSent-last rs r)

pub RisingSent-append :
    (lo hi : ℕ) (rs : List Request) (r : Request)
    → RisingSent lo hi rs
    → hi < r.id
    → RisingSent lo r.id (rs ++ r ∷ [])
RisingSent-append lo hi [] r h lt = omega arith
RisingSent-append lo hi (q ∷ rs) r h lt = (h.0, RisingSent-append q.id hi rs r h.1 lt)

pub RisingSent-mono :
    (lo hi hi' : ℕ) (rs : List Request) → hi ≤ hi' → RisingSent lo hi rs → RisingSent lo hi' rs
RisingSent-mono lo hi hi' [] le h = omega arith
RisingSent-mono lo hi hi' (r ∷ rs) le h = (h.0, RisingSent-mono r.id hi hi' rs le h.1)

-- Whatever waits was sent stays true when more is sent.
pub All-WasSent_append {ℓ} :
    {K : Type ℓ} (m : List (ℕ × K)) (rs : List Request) (r : Request)
    → All (λ e. WasSent e.0 rs) m
    → All (λ e. WasSent e.0 (rs ++ r ∷ [])) m
All-WasSent_append [] rs r h = tt
All-WasSent_append (e ∷ m) rs r h = (WasSent-append e.0 rs r h.0, All-WasSent_append m rs r h.1)

module _ {ℓ} {K : Type ℓ} (lo hi n : ℕ) (k : K) (m : List (ℕ × K)) (rising : Rising lo hi m)
    (above : hi < n) where
  -- An entry behind the others under a number that is not in use yet.
  appended : m ++ (n, k) ∷ [] ≡ Dict.set n k m
  appended = sym (Dict.set-fresh n k m (get_above lo hi n m rising above))

  pub get-append_last : Dict.get n (m ++ (n, k) ∷ []) ≡ some k
  get-append_last = ap (Dict.get n) appended ∙ Dict.get-set n n k m ∙ ground (arith, nat_eq_iff n n)

  pub delete-append_last : Dict.delete n (m ++ (n, k) ∷ []) ≡ m
  delete-append_last =
      ap (Dict.delete n) appended ∙ Dict.delete-set n k m (get_above lo hi n m rising above)
