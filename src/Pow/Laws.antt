-- ===== src/Pow/Laws.antt =====
-- Targets and work of src/headercache.rs against their arithmetic meaning.
use native.Mathlib.Nat.{div-eq-sub-div, mod-eq_of_lt, div-lt_self}
use murmel.Common.{ℕ, ◌+◌, ◌-◌, ◌/◌, ◌^◌, ◌≤◌, ◌<◌, ◌≡◌, refl, sym, ap, ◌∙◌, arith}
use murmel.External.{External}
use murmel.Outcome.{ok, >>=-eq-ok}
use murmel.Pow.{CachedHeader, target, spv_validate, work}

-- A header passes only if its target is the required one, and its id is not above it.
pub spv_validate-ok :
    (x : External) (c : CachedHeader) (required : ℕ)
    → spv_validate x c required ≡ ok tt
    → (target x c ≡ ok required) × (c.id ≤ required)
unfolding spv_validate
spv_validate-ok x c required h =
    let (t, e, r) = >>=-eq-ok (target x c) _ h in
    let n : t ≡ required = ground (arith, r) in (rw (← n) e, ground (arith, r))

div-sub : (n d : ℕ) → 0 < d → d ≤ n → (n - d) / d + 1 ≡ n / d
div-sub n d h l = sym (div-eq-sub-div h l)

div-lt : (n d : ℕ) → 1 < d → 0 < n → n / d < n
div-lt n d h p = div-lt_self p h

module _ (x : External) where
  increment-eq : {n m : ℕ} → n ≡ m → m + 1 < 2 ^ 256 → x.uint.increment n ≡ m + 1
  increment-eq {n} {m} e h = rw (e, x.uint.increment_lem m) (mod-eq_of_lt h)

  quotient-eq :
      (t : ℕ)
      → t + 1 < 2 ^ 256
      → x.uint.div (x.uint.lnot t) (x.uint.increment t) ≡ (2 ^ 256 - (t + 1)) / (t + 1)
  quotient-eq t h =
      let l : x.uint.lnot t ≡ 2 ^ 256 - (t + 1) = omega (arith, x.uint.lnot_lem t (omega arith)) in
      rw (l, increment-eq refl h, x.uint.div_lem (2 ^ 256 - (t + 1)) (t + 1) (omega arith)) refl

  -- For a target t with 0 < t and t + 1 < 2^256, `work` is 2^256 divided by t + 1, rounded down.
  pub work-eq-div :
      (c : CachedHeader) {t : ℕ}
      → target x c ≡ ok t
      → 0 < t
      → t + 1 < 2 ^ 256
      → work x c ≡ ok (2 ^ 256 / (t + 1))
  unfolding work
  work-eq-div c {t} e p h =
      let d : (2 ^ 256 - (t + 1)) / (t + 1) + 1 ≡ 2 ^ 256 / (t + 1) =
        div-sub (2 ^ 256) (t + 1) (omega arith) (omega arith) in
      let l : 2 ^ 256 / (t + 1) < 2 ^ 256 = div-lt (2 ^ 256) (t + 1) (omega arith) (omega arith) in
      rw e (ap ok (increment-eq (quotient-eq t h) (omega (arith, d, l)) ∙ d))
