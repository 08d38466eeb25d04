-- ===== src/Pow/Tests.antt =====
-- The work of a header at a small input.
use native.Mathlib.Nat.{two-pow-succ}
use murmel.Common.{
  ℕ, zero, suc, ◌+◌, ◌*◌, ◌/◌, ◌^◌, ◌≤◌, ◌<◌, ◌≡◌, refl, arith, nat_eq, Bool-cases, inl, inr,
}
use murmel.Outcome.{ok}
use murmel.Pow.{CachedHeader, target, work, satoshi_the_precision}
use murmel.Pow.Compact.{ReadsBits, IsEncodable, IsRounded, satoshi_the_precision-IsEncodable}
use murmel.Pow.Laws.{work-eq-div}
use murmel.Fixtures.{plain, block, words, bits_loop}

abbrev genesis : CachedHeader
genesis = record { stored = record { header = block 1 0 1; height = 0; log2work = 1 }; id = 1 }

target-genesis : target plain genesis ≡ ok (0xffff * 2 ^ 208)
unfolding target
target-genesis = refl

work-eq-div_example : work plain genesis ≡ ok (2 ^ 256 / (0xffff * 2 ^ 208 + 1))
work-eq-div_example = work-eq-div plain genesis target-genesis (omega arith) (omega arith)

bits_loop-le : (fuel x : ℕ) → bits_loop fuel x ≤ fuel
unfolding bits_loop
bits_loop-le zero x = omega arith
bits_loop-le (suc fuel) x = elim (Bool-cases (nat_eq x 0)) [
  | inl z ↦ rw (z, bits_loop) (omega arith)
  | inr z ↦ rw (z, bits_loop) (omega (arith, bits_loop-le fuel (x / 2)))
]

bits_loop-upper : (fuel x : ℕ) → x < 2 ^ fuel → x < 2 ^ bits_loop fuel x
unfolding bits_loop
bits_loop-upper zero x h = h
bits_loop-upper (suc fuel) x h = elim (Bool-cases (nat_eq x 0)) [
  | inl z ↦ rw (z, bits_loop) (ground (arith, z))
  | inr z ↦
      let r = bits_loop-upper fuel (x / 2) (omega (arith, h, two-pow-succ fuel)) in
      rw (z, bits_loop) (omega (arith, r, two-pow-succ (bits_loop fuel (x / 2))))
]

bits_loop-lower : (fuel x k : ℕ) → k < bits_loop fuel x → 2 ^ k ≤ x
unfolding bits_loop
bits_loop-lower zero x k h = absurd (omega (arith, h))
bits_loop-lower (suc fuel) x zero h = elim (Bool-cases (nat_eq x 0)) [
  | inl z ↦ absurd (let g = rw (z, bits_loop) at h in omega (arith, g))
  | inr z ↦ ground (arith, z)
]
bits_loop-lower (suc fuel) x (suc k) h = elim (Bool-cases (nat_eq x 0)) [
  | inl z ↦ absurd (let g = rw (z, bits_loop) at h in omega (arith, g))
  | inr z ↦
      let g = rw (z, bits_loop) at h in
      omega (arith, bits_loop-lower fuel (x / 2) k (omega (arith, g)), two-pow-succ k)
]

words-ReadsBits : ReadsBits words
words-ReadsBits = record {
  bit_lem = λ x k. refl;
  bits_le = λ x h. bits_loop-le 256 x;
  bits_upper = λ x h. bits_loop-upper 256 x h;
  bits_lower = λ x k h l. bits_loop-lower 256 x k l;
}

satoshi_the_precision-IsEncodable_example :
    IsEncodable plain (satoshi_the_precision plain 0x12345678)
    × IsRounded 0x12345678 (satoshi_the_precision plain 0x12345678)
satoshi_the_precision-IsEncodable_example =
    satoshi_the_precision-IsEncodable plain words-ReadsBits 0x12345678 (omega arith) (omega arith)
