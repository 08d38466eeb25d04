-- ===== src/HeaderCache/Locator.antt =====
-- `locator_hashes` of src/headercache.rs: the newest ids one by one, and then with gaps that double.
use murmel.Common.{
  ℕ, zero, suc, ◌+◌, ◌-◌, ◌*◌, ◌^◌, ◌≤◌, ◌<◌, ◌≡◌, refl, ap, ◌∙◌, inl, inr, List, [], ◌∷◌, ◌++◌,
  arith, true, false, ltb, In, In-of-reverse, take, drop, length, reverse, length-append,
  length-take, length-drop, take-append_le, take_all, length-reverse, min, if◌then◌else◌,
}
use murmel.HeaderCache.{HeaderCache, locator_loop, locator_hashes}

-- Before the gaps double, the loop takes all.
locator_loop-take :
    (j count : ℕ) (xs : List ℕ)
    → count + j ≡ 10
    → locator_loop xs 0 1 count ≡ take j xs ++ locator_loop (drop j xs) 0 1 10
unfolding locator_loop
locator_loop-take zero count xs e = let ten : count ≡ 10 = omega (arith, e) in rw ten refl
locator_loop-take (suc j) count [] e = refl
locator_loop-take (suc j) count (x ∷ xs) e =
    let few : ltb 10 (count + 1) ≡ false = ground (arith, e) in
    rw few (ap (λ a. x ∷ a) (locator_loop-take j (count + 1) xs (omega (arith, e))))

doubled : (skip m : ℕ) → skip * 2 ^ suc m ≡ skip * 2 * 2 ^ m
doubled skip m = grind arith

-- From the eleventh on, each gap is twice the last.
locator_loop-gaps :
    (xs : List ℕ) (s skip count m : ℕ)
    → 0 < skip
    → 10 ≤ count
    → length (locator_loop xs s skip count) ≡ suc m
    → s + skip * 2 ^ m < length xs + skip
unfolding locator_loop
locator_loop-gaps [] s skip count m p q e = absurd (omega (arith, e))
locator_loop-gaps (x ∷ xs) (suc s) skip count m p q e =
    omega (arith, locator_loop-gaps xs s skip count m p q e)
locator_loop-gaps (x ∷ xs) zero skip count zero p q e = grind arith
locator_loop-gaps (x ∷ xs) zero skip count (suc m) p q e =
    let many : ltb 10 (count + 1) ≡ true = ground (arith, q) in
    let e' : length (locator_loop xs (skip - 1) (skip * 2) (count + 1)) ≡ suc m =
      (let g = rw many at e in omega (arith, g)) in
    omega (
      arith,
      doubled skip m,
      locator_loop-gaps xs (skip - 1) (skip * 2) (count + 1) m (omega (arith, p)) (omega (arith, q))
          e',
    )

-- The locator is the ten newest ids and the ids of the gaps.
locator_hashes-split :
    (c : HeaderCache)
    → locator_hashes c
      ≡ take 10 (reverse c.trunk) ++ locator_loop (drop 10 (reverse c.trunk)) 0 1 10
unfolding locator_hashes
locator_hashes-split c = locator_loop-take 10 0 (reverse c.trunk) refl

locator_loop-In :
    (a : ℕ) (xs : List ℕ) (s skip count : ℕ) → In a (locator_loop xs s skip count) → In a xs
unfolding locator_loop
locator_loop-In a [] s skip count i = i
locator_loop-In a (x ∷ xs) zero skip count (inl e) = inl e
locator_loop-In a (x ∷ xs) zero skip count (inr i) = inr (locator_loop-In a xs _ _ _ i)
locator_loop-In a (x ∷ xs) (suc s) skip count i = inr (locator_loop-In a xs s skip count i)

length-locator_loop :
    (xs : List ℕ) (s skip count : ℕ) → length (locator_loop xs s skip count) ≤ length xs
unfolding locator_loop
length-locator_loop [] s skip count = omega arith
length-locator_loop (x ∷ xs) zero skip count = omega (
  arith,
  length-locator_loop xs (skip - 1) (if ltb 10 (count + 1) then skip * 2 else skip) (count + 1),
)
length-locator_loop (x ∷ xs) (suc s) skip count = omega (arith, length-locator_loop xs s skip count)

-- A locator of more than ten ids has the ten newest ids of the trunk first, the newest before all,
-- holds ids of the trunk only, and its length is logarithmic: with 11 + m ids the trunk has at least
-- 10 + 2^m ids.
pub locator_hashes-IsShort :
    (c : HeaderCache) (m : ℕ)
    → length (locator_hashes c) ≡ 11 + m
    → (take 10 (locator_hashes c) ≡ take 10 (reverse c.trunk))
      × ((a : ℕ) → In a (locator_hashes c) → In a c.trunk)
      × (10 + 2 ^ m ≤ length c.trunk)
unfolding locator_hashes
locator_hashes-IsShort c m e =
    let xs = reverse c.trunk in
    let rest = locator_loop (drop 10 xs) 0 1 10 in
    let split = locator_hashes-split c in
    let sizes : min 10 (length c.trunk) + length rest ≡ 11 + m = omega (
      arith,
      ap length split,
      e,
      length-append (take 10 xs) rest,
      length-take 10 xs,
      length-reverse c.trunk,
    ) in
    let fits : length rest ≤ length c.trunk - 10 =
      omega (
        arith,
        length-locator_loop (drop 10 xs) 0 1 10,
        length-drop 10 xs,
        length-reverse c.trunk,
      ) in
    let long : 10 < length c.trunk = omega (arith, sizes, fits) in
    let some_rest : length rest ≡ suc m = omega (arith, sizes, long) in
    let gaps = locator_loop-gaps (drop 10 xs) 0 1 10 m (omega arith) (omega arith) some_rest in
    let front : take 10 (take 10 xs ++ rest) ≡ take 10 xs =
      take-append_le 10 (take 10 xs) rest
        (omega (arith, length-take 10 xs, length-reverse c.trunk, long))
      ∙ take_all (take 10 xs) 10 (omega (arith, length-take 10 xs)) in
    (
      ap (λ ys. take 10 ys) split ∙ front,
      λ a i. In-of-reverse a c.trunk (locator_loop-In a xs 0 1 0 i),
      omega (arith, gaps, long, length-drop 10 xs, length-reverse c.trunk),
    )
