-- ===== src/Fixtures.antt =====
-- Concrete values for tests: 256-bit numbers, floats and headers that meet what the code relies on.
use murmel.Common.{
  ℕ, zero, suc, ◌+◌, ◌-◌, ◌*◌, ◌/◌, ◌%◌, ◌^◌, ◌<◌, ◌≡◌, refl, true, false, some, ltb, nat_eq, arith,
}
use murmel.External.{BlockHeader, Uint256, Float, IsStrict, External}

unfoldable pub bits_loop : ℕ → ℕ → ℕ
bits_loop zero x = 0
bits_loop (suc fuel) x = elim (nat_eq x 0) [ true ↦ 0 | false ↦ suc (bits_loop fuel (x / 2)) ]

abbrev pub lnot : ℕ → ℕ
lnot x = 2 ^ 256 - 1 - x

pub lnot_lem : (x : ℕ) → x < 2 ^ 256 → lnot x + x + 1 ≡ 2 ^ 256
lnot_lem x h = omega arith

-- A `Uint256` as a number below 2 ^ 256.
abbrev pub words : Uint256
words = record {
  from_u64 = λ x. some x;
  shl = λ x k. x * 2 ^ k % 2 ^ 256;
  shr = λ x k. x / 2 ^ k;
  lnot = lnot;
  increment = λ x. (x + 1) % 2 ^ 256;
  div = λ x y. x / y;
  mul_u32 = λ x k. x * k % 2 ^ 256;
  add = λ x y. (x + y) % 2 ^ 256;
  bits = bits_loop 256;
  bit = λ x k. nat_eq (x / 2 ^ k % 2) 1;
  from_u64_lem = λ x h. refl;
  shl_lem = λ x k. refl;
  shr_lem = λ x k. refl;
  lnot_lem = lnot_lem;
  increment_lem = λ x. refl;
  div_lem = λ x y h. refl;
  mul_u32_lem = λ x k h. refl;
  add_lem = λ x y. refl;
}

-- Floats that stand for whole numbers, and whose logarithm is not taken.
abbrev pub whole_floats : Float
whole_floats = record { log2 = λ x. x; exp2 = λ x. x; lt = ltb }

pub whole_floats-IsStrict : IsStrict whole_floats
whole_floats-IsStrict = record { irrefl = λ x. ground arith; trans = λ x y z h k. ground arith }

-- Headers whose id is their nonce and whose work is their version.
abbrev pub plain : External
plain = record {
  bitcoin_hash = λ h. h.nonce;
  header_work = λ h. h.version;
  uint = words;
  float = whole_floats;
}

-- A header of the id, parent and work given, with the easiest target of Bitcoin.
abbrev pub block : ℕ → ℕ → ℕ → BlockHeader
block id parent work = record {
  version = work;
  prev_blockhash = parent;
  merkle_root = 0;
  time = 0;
  bits = 0x1d00ffff;
  nonce = id;
}
