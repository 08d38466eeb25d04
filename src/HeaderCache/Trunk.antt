-- ===== src/HeaderCache/Trunk.antt =====
-- Where an id stands on the trunk.
use murmel.Common.{
  ℕ, suc, ◌-◌, ◌≡◌, refl, ap, sym, ◌∙◌, inl, inr, none, some, List, [], ◌∷◌, ◌++◌, reverse, length,
  get_elem?, arith, In, In-reverse, In-of-reverse, nat_eq, nat_eq_iff, Bool-cases, Option-cases,
  get_elem?-reverse, length-reverse, lt-length_of_get_elem?, In-get_elem?, append_assoc,
}
use murmel.HeaderCache.{HeaderCache, last, position, pos_on_trunk}
use murmel.HeaderCache.Add.{rposition}

pub position-none : (xs : List ℕ) (h : ℕ) → position xs h ≡ none → ¬ In h xs
unfolding position
position-none [] h e m = absurd m
position-none (x ∷ xs) h e (inl p) = ground (arith, nat_eq_iff x h)
position-none (x ∷ xs) h e (inr m) = ground (arith, position-none xs h)

pub position-some : (xs : List ℕ) (h : ℕ) {i : ℕ} → position xs h ≡ some i → get_elem? xs i ≡ some h
unfolding position
position-some [] h e = cc
position-some (x ∷ xs) h {i} e = elim (Bool-cases (nat_eq x h)) [
  | inl t ↦ let z : i ≡ 0 = ground arith in rw (z, (nat_eq_iff x h).0 t)
  | inr f ↦ elim (Option-cases (position xs h)) [
    | inl n ↦ absurd (ground arith)
    | inr (j, q) ↦ let z : i ≡ suc j = ground arith in rw z (position-some xs h q)
  ]
]

pub pos_on_trunk-none : (c : HeaderCache) (h : ℕ) → pos_on_trunk c h ≡ none → ¬ In h c.trunk
unfolding pos_on_trunk
pos_on_trunk-none c h e m =
    position-none (reverse c.trunk) h (ground arith) (In-reverse h c.trunk m)

pub not-In-pos_on_trunk : (c : HeaderCache) (h : ℕ) → ¬ In h c.trunk → pos_on_trunk c h ≡ none
unfolding pos_on_trunk
not-In-pos_on_trunk c h n = elim (Option-cases (position (reverse c.trunk) h)) [
  | inl e ↦ rw e
  | inr (i, e) ↦
      absurd
        (n (In-of-reverse h c.trunk (In-get_elem? h (reverse c.trunk) i (position-some _ h e))))
]

pub In-of-pos_on_trunk : (c : HeaderCache) (h p : ℕ) → pos_on_trunk c h ≡ some p → In h c.trunk
unfolding pos_on_trunk
In-of-pos_on_trunk c h p e = elim (Option-cases (position (reverse c.trunk) h)) [
  | inl n ↦ absurd (ground arith)
  | inr (i, q) ↦ In-of-reverse h c.trunk (In-get_elem? h (reverse c.trunk) i (position-some _ h q))
]

-- An id of the trunk has a last position, and stands there.
pub rposition-some :
    (xs : List ℕ) (h : ℕ)
    → In h xs
    → (i : ℕ) × (rposition xs h ≡ some i) × (get_elem? xs i ≡ some h)
unfolding rposition
rposition-some xs h m = elim (Option-cases (position (reverse xs) h)) [
  | inl n ↦ absurd (position-none (reverse xs) h n (In-reverse h xs m))
  | inr (p, e) ↦
      let g : get_elem? (reverse xs) p ≡ some h = position-some (reverse xs) h e in
      (
        length xs - p - 1,
        rw e,
        get_elem?-reverse xs p
              (omega (arith, lt-length_of_get_elem? (reverse xs) p g, length-reverse xs))
            ∙ g,
      )
]

pub last-In : (xs : List ℕ) {h : ℕ} → last xs ≡ some h → In h xs
unfolding last
last-In [] e = cc
last-In (x ∷ []) e = inl (cc)
last-In (x ∷ y ∷ xs) e = inr (last-In (y ∷ xs) e)

pub last-append_cons : (xs : List ℕ) (y : ℕ) → last (xs ++ (y ∷ [])) ≡ some y
unfolding last
last-append_cons [] y = refl
last-append_cons (x ∷ []) y = refl
last-append_cons (x ∷ z ∷ xs) y = last-append_cons (z ∷ xs) y

pub last-append_append : (xs ys : List ℕ) (y : ℕ) → last (xs ++ (ys ++ (y ∷ []))) ≡ some y
last-append_append xs ys y =
    ap last (sym (append_assoc xs ys (y ∷ []))) ∙ last-append_cons (xs ++ ys) y
