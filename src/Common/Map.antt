-- ===== src/Common/Map.antt =====
-- `HashMap` as an association list: `get` sees the first entry of a key, `insert` replaces it where
-- it stands, and `remove` drops every entry of the key.
use mathlib.Core.Path.{◌≡◌, refl}
use mathlib.Core.Logic.{inl, inr, ◌⊎◌}
use mathlib.Core.Option.{Option, none, some}
use mathlib.Core.List.{List, [], ◌∷◌}
use native.Mathlib.Omega.{arith}
use murmel.Common.Tests.{Eq, ◌==◌, if◌then◌else◌, ==_cases, ==_self}

module _ {ℓ κ} {K : Type ℓ} {V : Type κ} ⦃e : Eq K⦄ where
  unfoldable pub get : List (K × V) → K → Option V
  get [] k = none
  get ((j, v) ∷ m) k = if j == k then some v else get m k

  unfoldable pub insert : List (K × V) → K → V → List (K × V)
  insert [] k v = (k, v) ∷ []
  insert ((j, w) ∷ m) k v = if j == k then (k, v) ∷ m else (j, w) ∷ insert m k v

  unfoldable pub remove : List (K × V) → K → List (K × V)
  remove [] k = []
  remove ((j, w) ∷ m) k = if j == k then remove m k else (j, w) ∷ remove m k

  pub get-empty : (k : K) → get [] k ≡ none
  unfolding get
  get-empty k = refl

  pub get-insert :
      (m : List (K × V)) (k : K) (v : V) (j : K)
      → get (insert m k v) j ≡ (if k == j then some v else get m j)
  unfolding get insert
  get-insert [] k v j = refl
  get-insert ((i, w) ∷ m) k v j = elim (==_cases i k) [
    | inl (h, p) ↦ rw (h, ← p) (ground (arith, e.beq_iff i j))
    | inr (h, n) ↦
        rw h (ground (arith, e.beq_iff i j, e.beq_iff k j, e.beq_iff i k, get-insert m k v j))
  ]

  pub get-insert_self : (m : List (K × V)) (k : K) (v : V) → get (insert m k v) k ≡ some v
  get-insert_self m k v = rw (get-insert m k v k, ==_self k)

  pub get-remove :
      (m : List (K × V)) (k j : K) → get (remove m k) j ≡ (if k == j then none else get m j)
  unfolding get remove
  get-remove [] k j = ground arith
  get-remove ((i, w) ∷ m) k j = elim (==_cases i k) [
    | inl (h, p) ↦ rw h (ground (arith, e.beq_iff i j, e.beq_iff k j, get-remove m k j))
    | inr (h, n) ↦
        rw h (ground (arith, e.beq_iff i j, e.beq_iff k j, e.beq_iff i k, get-remove m k j))
  ]

  -- What is found after an insertion is new, or was there.
  pub get-insert_cases :
      (m : List (K × V)) (k : K) (v : V) (j : K) {w : V}
      → get (insert m k v) j ≡ some w
      → ((k ≡ j) × (v ≡ w)) ⊎ (get m j ≡ some w)
  get-insert_cases m k v j {w} h = elim (==_cases k j) [
    | inl (b, p) ↦ inl (p, ground (arith, get-insert m k v j))
    | inr (b, n) ↦ inr (ground (arith, get-insert m k v j))
  ]

  pub get-remove-some :
      (m : List (K × V)) (k j : K) {w : V} → get (remove m k) j ≡ some w → get m j ≡ some w
  get-remove-some m k j {w} h = elim (==_cases k j) [
    | inl (b, p) ↦ absurd (ground (arith, get-remove m k j))
    | inr (b, n) ↦ ground (arith, get-remove m k j)
  ]

  pub get-remove_self : (m : List (K × V)) (k : K) → get (remove m k) k ≡ none
  get-remove_self m k = rw (get-remove m k k, ==_self k) refl
