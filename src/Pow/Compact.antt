-- ===== src/Pow/Compact.antt =====
-- `satoshi_the_precision` of src/headercache.rs against the compact encoding that `target` reads.
use native.Mathlib.Nat.{
  div-add-mod', mod-lt, pow-le-pow_right, one-le-pow, div-lt_iff_lt-mul, mod-eq_of_lt, pow-suc,
  add-suc, add-zero, pow-zero,
}
use murmel.Common.{
  ℕ, zero, suc, ◌+◌, ◌-◌, ◌*◌, ◌/◌, ◌%◌, ◌^◌, ◌≤◌, ◌<◌, ◌≡◌, refl, sym, ap, ◌∙◌, arith, inl, inr,
  true, false, nat_eq, leb, ltb, Bool-cases,
}
use murmel.External.{External, Uint256}
use murmel.Outcome.{ok}
use murmel.Pow.{CachedHeader, target, mantissa, exponent, satoshi_the_precision}

-- `bits` and `bit` of a `Uint256` are documented to read its binary digits.
pub record ReadsBits (u : Uint256) : Type 0 where
  pub bit_lem : (x k : ℕ) → u.bit x k ≡ nat_eq (x / 2 ^ k % 2) 1
  pub bits_le : (x : ℕ) → x < 2 ^ 256 → u.bits x ≤ 256
  pub bits_upper : (x : ℕ) → x < 2 ^ 256 → x < 2 ^ u.bits x
  pub bits_lower : (x k : ℕ) → x < 2 ^ 256 → k < u.bits x → 2 ^ k ≤ x

-- A number is rounded down to at most, with an error below one part in 2^15.
pub record IsRounded (n r : ℕ) : Type 0 where
  pub below : r ≤ n
  pub close : 2 ^ 15 * (n - r) < n

rounds_low : (n p : ℕ) → 0 < p → 2 ^ 16 * p ≤ n → IsRounded n (n / p * p)
rounds_low n p h l = record {
  below = omega (arith, div-add-mod' n p);
  close = omega (arith, div-add-mod' n p, mod-lt n h, l);
}

distribute : (u v p : ℕ) → (u * 2 ^ 8 + v) * p ≡ u * (p * 2 ^ 8) + v * p
distribute u v p = grind arith

rounds_high : (n p : ℕ) → 0 < p → 2 ^ 23 ≤ n / p → IsRounded n (n / p / 2 ^ 8 * (p * 2 ^ 8))
rounds_high n p h l =
    let q = n / p in
    let s : q * p ≡ q / 2 ^ 8 * (p * 2 ^ 8) + q % 2 ^ 8 * p =
      ap (λ z. z * p) (sym (div-add-mod' q (2 ^ 8))) ∙ distribute (q / 2 ^ 8) (q % 2 ^ 8) p in
    let r : q % 2 ^ 8 ≤ 255 = omega arith in
    let v : q % 2 ^ 8 * p ≤ 255 * p = grind arith in
    let b : 2 ^ 23 * p ≤ q * p = grind arith in
    record {
      below = omega (arith, s, div-add-mod' n p);
      close = omega (arith, s, v, b, h, div-add-mod' n p, mod-lt n h);
    }

pow_add : (s k : ℕ) → 2 ^ (s + k) ≡ 2 ^ s * 2 ^ k
pow_add s zero = rw (add-zero, pow-zero) (omega arith)
pow_add s (suc k) = rw (add-suc, pow-suc (2) (s + k), pow-suc (2) k) (grind (arith, pow_add s k))

-- The size of a number in bytes, and the mantissa and exponent that its encoding has.
compact : ℕ → ℕ → ℕ
compact w m = w * 2 ^ 24 + m

compact_lem :
    (w m : ℕ)
    → 3 ≤ w
    → m < 2 ^ 24
    → (mantissa (compact w m) ≡ m) × (exponent (compact w m) ≡ 8 * (w - 3))
unfolding mantissa exponent compact
compact_lem w m h l =
    let high : (w * 2 ^ 24 + m) / 2 ^ 24 ≡ w = omega (arith, l) in
    let low : (w * 2 ^ 24 + m) % 2 ^ 24 ≡ m = omega (arith, l) in
    elim (Bool-cases (leb w 3)) [
      | inl b ↦
          let three : w ≡ 3 = ground (arith, b, h) in
          rw (high, low) (rw b (rw three (omega arith, refl)))
      | inr b ↦ rw (high, low) (rw b (refl, refl))
    ]

shift_lem :
    (b : ℕ)
    → 16 < b
    → b ≤ 256
    → 8 * (((b + 7) / 8 + 2 ^ 64 - 3) % 2 ^ 64) % 2 ^ 64 ≡ 8 * ((b + 7) / 8 - 3)
shift_lem b h l = omega (arith, h, l)

target-compact :
    (x : External) (c : CachedHeader) (w m : ℕ)
    → c.header.bits ≡ compact w m
    → 3 ≤ w
    → m < 2 ^ 23
    → target x c ≡ ok (m * 2 ^ (8 * (w - 3)) % 2 ^ 256)
unfolding target
target-compact x c w m e h l =
    let (p, q) = compact_lem w m h (omega (arith, l)) in
    let small : ltb 0x7fffff m ≡ false = ground (arith, l) in
    rw (e, p, q)
      (rw small
        (rw (x.uint.from_u64_lem m (omega (arith, l))) (ap ok (x.uint.shl_lem m (8 * (w - 3))))))

-- The code cuts off so many low bits.
abbrev shift : ℕ → ℕ
shift b = 8 * ((b + 7) / 8 - 3)

-- A header with other bits.
abbrev pub with_bits : CachedHeader → ℕ → CachedHeader
with_bits c bits = record c {
  stored = record c.stored { header = record c.stored.header { bits = bits } };
}

-- Some bits stand for the target, in every header.
abbrev pub IsEncodable : External → ℕ → Type 0
IsEncodable x t = (bits : ℕ) × ((c : CachedHeader) → target x (with_bits c bits) ≡ ok t)

module _ (x : External) (r : ReadsBits x.uint) (n : ℕ) (big : 2 ^ 16 ≤ n) (fits : n < 2 ^ 256) where
  open x use {uint}

  abbrev size : ℕ
  size = uint.bits n

  abbrev unit : ℕ
  unit = 2 ^ shift size

  unit_positive : 0 < unit
  unit_positive = one-le-pow (shift size) 2 (omega arith)

  size_bounds : (16 < size) × (size ≤ 256)
  size_bounds = elim (Bool-cases (leb size 16)) [
    | inl b ↦
        let small : size ≤ 16 = ground (arith, b) in
        let p : 2 ^ size ≤ 2 ^ 16 = pow-le-pow_right {n = 2} (omega arith) small in
        absurd (omega (arith, p, big, r.bits_upper n fits))
    | inr b ↦ (ground (arith, b), r.bits_le n fits)
  ]

  unit_bounds : (2 ^ 16 * unit ≤ n) × (n < 2 ^ 24 * unit)
  unit_bounds =
      let (more, few) = size_bounds in
      let low : 2 ^ (shift size + 16) ≤ n =
        r.bits_lower n (shift size + 16) fits (omega (arith, more)) in
      let high : 2 ^ size ≤ 2 ^ (shift size + 24) =
        pow-le-pow_right {n = 2} (omega arith) (omega (arith, more)) in
      (
        omega (arith, low, pow_add (shift size) 16),
        omega (arith, high, pow_add (shift size) 24, r.bits_upper n fits),
      )

  bit_low : (q : ℕ) → q < 2 ^ 23 → uint.bit q 23 ≡ false
  bit_low q l = let z : q / 2 ^ 23 % 2 ≡ 0 = omega (arith, l) in r.bit_lem q 23 ∙ (rw z refl)

  bit_high : (q : ℕ) → 2 ^ 23 ≤ q → q < 2 ^ 24 → uint.bit q 23 ≡ true
  bit_high q l h = let z : q / 2 ^ 23 % 2 ≡ 1 = omega (arith, l, h) in r.bit_lem q 23 ∙ (rw z refl)

  quotient_below : n / unit < 2 ^ 24
  quotient_below = (div-lt_iff_lt-mul unit_positive).1 unit_bounds.1

  satoshi_low : n / unit < 2 ^ 23 → satoshi_the_precision x n ≡ n / unit * unit
  unfolding satoshi_the_precision
  satoshi_low l =
      let (more, few) = size_bounds in
      let (u, _) = unit_bounds in
      let fit : n / unit * unit < 2 ^ 256 =
        omega (arith, (rounds_low n unit unit_positive u).below, fits) in
      rw (shift_lem size more few, uint.shr_lem n (shift size), satoshi_the_precision)
        (rw (bit_low (n / unit) l) (uint.shl_lem (n / unit) (shift size) ∙ mod-eq_of_lt fit))

  satoshi_high : 2 ^ 23 ≤ n / unit → satoshi_the_precision x n ≡ n / unit / 2 ^ 8 * (unit * 2 ^ 8)
  unfolding satoshi_the_precision
  satoshi_high l =
      let (more, few) = size_bounds in
      let q = n / unit in
      let below : q < 2 ^ 24 = quotient_below in
      let fit : q / 2 ^ 8 * (unit * 2 ^ 8) < 2 ^ 256 =
        omega (arith, (rounds_high n unit unit_positive l).below, fits) in
      let cut : uint.shl (uint.shr q 8) 8 ≡ q / 2 ^ 8 * 2 ^ 8 =
        rw (uint.shr_lem q 8, uint.shl_lem (q / 2 ^ 8) 8) (omega (arith, below)) in
      let order : q / 2 ^ 8 * 2 ^ 8 * unit ≡ q / 2 ^ 8 * (unit * 2 ^ 8) = grind arith in
      rw (shift_lem size more few, uint.shr_lem n (shift size), satoshi_the_precision)
        (rw (bit_high q l below)
          (rw cut (uint.shl_lem (q / 2 ^ 8 * 2 ^ 8) (shift size) ∙ (rw order (mod-eq_of_lt fit)))))

  satoshi_low-IsEncodable : n / unit < 2 ^ 23 → IsEncodable x (n / unit * unit)
  satoshi_low-IsEncodable l =
      let w = (size + 7) / 8 in
      let q = n / unit in
      let (u, _) = unit_bounds in
      let fit : q * unit < 2 ^ 256 =
        omega (arith, (rounds_low n unit unit_positive u).below, fits) in
      (
        compact w q,
        λ c.
            target-compact x (with_bits c (compact w q)) w q refl (omega (arith, size_bounds.0)) l
            ∙ ap ok (mod-eq_of_lt fit),
      )

  satoshi_high-IsEncodable : 2 ^ 23 ≤ n / unit → IsEncodable x (n / unit / 2 ^ 8 * (unit * 2 ^ 8))
  satoshi_high-IsEncodable l =
      let w = (size + 7) / 8 + 1 in
      let m = n / unit / 2 ^ 8 in
      let three : 3 ≤ w = omega (arith, size_bounds.0) in
      let few : m < 2 ^ 23 = omega (arith, quotient_below) in
      let fit : m * (unit * 2 ^ 8) < 2 ^ 256 =
        omega (arith, (rounds_high n unit unit_positive l).below, fits) in
      let up : 8 * (w - 3) ≡ shift size + 8 = omega (arith, size_bounds.0) in
      let power : 2 ^ (8 * (w - 3)) ≡ unit * 2 ^ 8 = ap (λ k. 2 ^ k) up ∙ pow_add (shift size) 8 in
      (
        compact w m,
        λ c.
            target-compact x (with_bits c (compact w m)) w m refl three few
            ∙ ap ok (ap (λ p. m * p % 2 ^ 256) power ∙ mod-eq_of_lt fit),
      )

  -- `satoshi_the_precision` of a number from 2^16 on and below 2^256 is a target that the bits of a
  -- header can stand for: some bits give it in every header. It is at most the number, and the part
  -- that is cut off is less than one in 2^15. The 256-bit integers read their binary digits.
  pub satoshi_the_precision-IsEncodable :
      IsEncodable x (satoshi_the_precision x n) × IsRounded n (satoshi_the_precision x n)
  satoshi_the_precision-IsEncodable = elim (Bool-cases (ltb (n / unit) (2 ^ 23))) [
    | inl b ↦
        let l : n / unit < 2 ^ 23 = ground (arith, b) in
        rw (satoshi_low l)
          (satoshi_low-IsEncodable l, rounds_low n unit unit_positive unit_bounds.0)
    | inr b ↦
        let l : 2 ^ 23 ≤ n / unit = ground (arith, b) in
        rw (satoshi_high l) (satoshi_high-IsEncodable l, rounds_high n unit unit_positive l)
  ]
