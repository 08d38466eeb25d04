-- ===== src/Common/Lists.antt =====
-- Lists measured and indexed by native numbers, under the library's names.
use Prim.Native.Nat.{ℕ, zero, suc, ◌+◌, ◌-◌, ◌≤◌, min}
use mathlib.Core.Path.{◌≡◌, refl, ap, sym, ◌∙◌}
use mathlib.Core.List.{List, [], ◌∷◌, ◌++◌, reverse, reverse-cons}
use mathlib.Core.Option.{Option, none, some}
use native.Mathlib.Nat.{zero-add, suc-add, sub-zero}
use native.Mathlib.Decide.{dec_le}
use native.Mathlib.Omega.{arith}

min-suc : (a b : ℕ) → min (suc a) (suc b) ≡ suc (min a b)
min-suc a b = omega arith

module _ {ℓ} {A : Type ℓ} where
  abbrev pub length : List A → ℕ
  length [] = 0
  length (x ∷ xs) = suc (length xs)

  abbrev pub get_elem? : List A → ℕ → Option A
  get_elem? [] i = none
  get_elem? (x ∷ xs) zero = some x
  get_elem? (x ∷ xs) (suc i) = get_elem? xs i

  abbrev pub take : ℕ → List A → List A
  take zero xs = []
  take (suc n) [] = []
  take (suc n) (x ∷ xs) = x ∷ take n xs

  abbrev pub drop : ℕ → List A → List A
  drop zero xs = xs
  drop (suc n) [] = []
  drop (suc n) (x ∷ xs) = drop n xs

  pub length-append : (xs ys : List A) → length (xs ++ ys) ≡ length xs + length ys
  length-append [] ys = omega arith
  length-append (x ∷ xs) ys = omega (arith, length-append xs ys)

  pub length-take : (n : ℕ) (xs : List A) → length (take n xs) ≡ min n (length xs)
  length-take zero xs = omega arith
  length-take (suc n) [] = omega arith
  length-take (suc n) (x ∷ xs) = omega (arith, length-take n xs)

  pub length-drop : (n : ℕ) (xs : List A) → length (drop n xs) ≡ length xs - n
  length-drop zero xs = omega arith
  length-drop (suc n) [] = omega arith
  length-drop (suc n) (x ∷ xs) = omega (arith, length-drop n xs)

  pub length-reverse : (xs : List A) → length (reverse xs) ≡ length xs
  length-reverse [] = refl
  length-reverse (x ∷ xs) =
      omega (
        arith,
        ap length (reverse-cons x xs),
        length-append (reverse xs) (x ∷ []),
        length-reverse xs,
      )

  pub take-append-drop : (n : ℕ) (xs : List A) → take n xs ++ drop n xs ≡ xs
  take-append-drop zero xs = refl
  take-append-drop (suc n) [] = refl
  take-append-drop (suc n) (x ∷ xs) = rw (take-append-drop n xs)

  pub drop-nil : (n : ℕ) → drop n [] ≡ []
  drop-nil zero = refl
  drop-nil (suc n) = refl

  pub take-nil : (n : ℕ) → take n [] ≡ []
  take-nil zero = refl
  take-nil (suc n) = refl

  pub take-take : (m n : ℕ) (xs : List A) → take m xs ++ take n (drop m xs) ≡ take (m + n) xs
  take-take zero n xs = rw zero-add
  take-take (suc m) n [] = rw suc-add (take-nil n)
  take-take (suc m) n (x ∷ xs) = rw suc-add (ap (x ∷◌) (take-take m n xs))

  pub drop-drop : (m n : ℕ) (xs : List A) → drop n (drop m xs) ≡ drop (m + n) xs
  drop-drop zero n xs = rw zero-add
  drop-drop (suc m) n [] = rw suc-add (drop-nil n)
  drop-drop (suc m) n (x ∷ xs) = rw suc-add (drop-drop m n xs)

  pub drop-append : (m : ℕ) (xs ys : List A) → drop (length xs + m) (xs ++ ys) ≡ drop m ys
  drop-append m [] ys = rw zero-add
  drop-append m (x ∷ xs) ys = rw suc-add (drop-append m xs ys)

  pub drop-append_le :
      (m : ℕ) (xs ys : List A) → m ≤ length xs → drop m (xs ++ ys) ≡ drop m xs ++ ys
  drop-append_le zero xs ys h = refl
  drop-append_le (suc m) [] ys h = absurd (omega arith)
  drop-append_le (suc m) (x ∷ xs) ys h = drop-append_le m xs ys (omega arith)

  pub take-append_le : (m : ℕ) (xs ys : List A) → m ≤ length xs → take m (xs ++ ys) ≡ take m xs
  take-append_le zero xs ys h = refl
  take-append_le (suc m) [] ys h = absurd (omega arith)
  take-append_le (suc m) (x ∷ xs) ys h = ap (x ∷◌) (take-append_le m xs ys (omega arith))

  pub take-append_ge :
      (xs ys : List A) (m : ℕ) → length xs ≤ m → take m (xs ++ ys) ≡ xs ++ take (m - length xs) ys
  take-append_ge [] ys m h = rw sub-zero
  take-append_ge (x ∷ xs) ys zero h = absurd (omega arith)
  take-append_ge (x ∷ xs) ys (suc m) h =
      ap (x ∷◌) (take-append_ge xs ys m (omega arith) ∙ ap (λ k. xs ++ take k ys) (omega arith))

  pub take_all : (xs : List A) (m : ℕ) → length xs ≤ m → take m xs ≡ xs
  take_all [] m h = take-nil m
  take_all (x ∷ xs) zero h = absurd (omega arith)
  take_all (x ∷ xs) (suc m) h = ap (x ∷◌) (take_all xs m (omega arith))

  pub drop_all : (xs : List A) (m : ℕ) → length xs ≤ m → drop m xs ≡ []
  drop_all [] m h = drop-nil m
  drop_all (x ∷ xs) zero h = absurd (omega arith)
  drop_all (x ∷ xs) (suc m) h = drop_all xs m (omega arith)

  pub lt-length_of_get_elem? :
      (xs : List A) (i : ℕ) {x : A} → get_elem? xs i ≡ some x → suc i ≤ length xs
  lt-length_of_get_elem? [] i h = cc
  lt-length_of_get_elem? (_ ∷ xs) zero h = omega arith
  lt-length_of_get_elem? (_ ∷ xs) (suc i) h = omega (arith, lt-length_of_get_elem? xs i h)

  pub get_elem?_total :
      (xs : List A) (i : ℕ) → suc i ≤ length xs → (x : A) × (get_elem? xs i ≡ some x)
  get_elem?_total [] i h = absurd (omega arith)
  get_elem?_total (x ∷ xs) zero h = (x, refl)
  get_elem?_total (x ∷ xs) (suc i) h = get_elem?_total xs i (omega arith)

  pub take-min : (n : ℕ) (xs : List A) → take (min n (length xs)) xs ≡ take n xs
  take-min n [] = take-nil (min n 0) ∙ sym (take-nil n)
  take-min zero (x ∷ xs) = ap (λ k. take k (x ∷ xs)) {y = 0} (omega arith)
  take-min (suc n) (x ∷ xs) =
      ap (λ k. take k (x ∷ xs)) (min-suc n (length xs)) ∙ ap (x ∷◌) (take-min n xs)

  pub drop-min : (n : ℕ) (xs : List A) → drop (min n (length xs)) xs ≡ drop n xs
  drop-min n [] = drop-nil (min n 0) ∙ sym (drop-nil n)
  drop-min zero (x ∷ xs) = ap (λ k. drop k (x ∷ xs)) {y = 0} (omega arith)
  drop-min (suc n) (x ∷ xs) = ap (λ k. drop k (x ∷ xs)) (min-suc n (length xs)) ∙ drop-min n xs

  -- An index of the reversed list, counted from the front.
  pub get_elem?-append_left :
      (xs ys : List A) (i : ℕ) → suc i ≤ length xs → get_elem? (xs ++ ys) i ≡ get_elem? xs i
  get_elem?-append_left [] ys i h = absurd (omega arith)
  get_elem?-append_left (x ∷ xs) ys zero h = refl
  get_elem?-append_left (x ∷ xs) ys (suc i) h = get_elem?-append_left xs ys i (omega arith)

  pub get_elem?-append_cons :
      (xs ys : List A) (y : A) (i : ℕ) → i ≡ length xs → get_elem? (xs ++ (y ∷ ys)) i ≡ some y
  get_elem?-append_cons [] ys y zero h = refl
  get_elem?-append_cons [] ys y (suc i) h = absurd (omega arith)
  get_elem?-append_cons (x ∷ xs) ys y zero h = absurd (omega arith)
  get_elem?-append_cons (x ∷ xs) ys y (suc i) h = get_elem?-append_cons xs ys y i (omega arith)

  pub get_elem?-reverse :
      (xs : List A) (p : ℕ)
      → suc p ≤ length xs
      → get_elem? xs (length xs - p - 1) ≡ get_elem? (reverse xs) p
  get_elem?-reverse [] p h = absurd (omega arith)
  get_elem?-reverse (x ∷ xs) p h = rw (reverse-cons x xs) (elim (dec_le (suc p) (length xs)) [
    | yes l ↦
        ap (get_elem? (x ∷ xs)) {y = suc (length xs - p - 1)} (omega arith)
        ∙ get_elem?-reverse xs p l
        ∙ sym (get_elem?-append_left (reverse xs) (x ∷ []) p (omega (arith, length-reverse xs)))
    | no l ↦
        ap (get_elem? (x ∷ xs)) {y = 0} (omega arith)
        ∙ sym (get_elem?-append_cons (reverse xs) [] x p (omega (arith, length-reverse xs)))
  ])
