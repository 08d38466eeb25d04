-- ===== src/Common/Members.antt =====
-- Membership as a sum, and the laws of `take`, `++` and `reverse` for it.
use Prim.Native.Nat.{ℕ, zero, suc}
use mathlib.Core.Path.{◌≡◌, subst}
use mathlib.Core.Logic.{◌⊎◌, inl, inr}
use mathlib.Core.List.{List, [], ◌∷◌, ◌++◌, reverse, reverse-cons}
use mathlib.Core.Option.{some}
use murmel.Common.Lists.{take, get_elem?}

module _ {A : Type 0} where
  abbrev pub In : A → List A → Type 0
  In a [] = ⊥
  In a (x ∷ xs) = (x ≡ a) ⊎ In a xs

  pub In-append_left : (a : A) (xs ys : List A) → In a xs → In a (xs ++ ys)
  In-append_left a [] ys h = absurd h
  In-append_left a (x ∷ xs) ys (inl e) = inl e
  In-append_left a (x ∷ xs) ys (inr h) = inr (In-append_left a xs ys h)

  pub In-append_right : (a : A) (xs ys : List A) → In a ys → In a (xs ++ ys)
  In-append_right a [] ys h = h
  In-append_right a (x ∷ xs) ys h = inr (In-append_right a xs ys h)

  pub In-append_cases : (a : A) (xs ys : List A) → In a (xs ++ ys) → In a xs ⊎ In a ys
  In-append_cases a [] ys h = inr h
  In-append_cases a (x ∷ xs) ys (inl e) = inl (inl e)
  In-append_cases a (x ∷ xs) ys (inr h) = elim (In-append_cases a xs ys h) [
    | inl l ↦ inl (inr l)
    | inr r ↦ inr r
  ]

  pub In-reverse : (a : A) (xs : List A) → In a xs → In a (reverse xs)
  In-reverse a [] h = absurd h
  In-reverse a (x ∷ xs) (inl e) =
      rw (reverse-cons x xs) (In-append_right a (reverse xs) (x ∷ []) (inl e))
  In-reverse a (x ∷ xs) (inr h) =
      rw (reverse-cons x xs) (In-append_left a (reverse xs) (x ∷ []) (In-reverse a xs h))

  pub In-of-reverse : (a : A) (xs : List A) → In a (reverse xs) → In a xs
  In-of-reverse a [] h = absurd h
  In-of-reverse a (x ∷ xs) h =
      elim (In-append_cases a (reverse xs) (x ∷ []) (subst (In a) (reverse-cons x xs) h)) [
        | inl l ↦ inr (In-of-reverse a xs l)
        | inr (inl e) ↦ inl e
        | inr (inr z) ↦ absurd z
      ]

  pub In-take : (a : A) (n : ℕ) (xs : List A) → In a (take n xs) → In a xs
  In-take a zero xs h = absurd h
  In-take a (suc n) [] h = absurd h
  In-take a (suc n) (x ∷ xs) (inl e) = inl e
  In-take a (suc n) (x ∷ xs) (inr h) = inr (In-take a n xs h)

  pub In-get_elem? : (a : A) (xs : List A) (i : ℕ) → get_elem? xs i ≡ some a → In a xs
  In-get_elem? a [] i h = cc
  In-get_elem? a (x ∷ xs) zero h = inl (cc)
  In-get_elem? a (x ∷ xs) (suc i) h = inr (In-get_elem? a xs i h)
