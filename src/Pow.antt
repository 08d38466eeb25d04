-- ===== src/Pow.antt =====
-- `CachedHeader` of src/headercache.rs, and the arithmetic of targets and work.
pub mod Laws
pub mod Compact
pub mod Tests
use murmel.Common.{
  ℕ, zero, suc, ◌+◌, ◌-◌, ◌*◌, ◌/◌, ◌%◌, ◌^◌, Bool, true, false, Option, none, some, ltb, leb,
  nat_eq, if◌then◌else◌,
}
use murmel.External.{BlockHeader, External, Uint256, Float, default}
use murmel.Outcome.{Outcome, ok, err, panic, spv_bad_target, spv_bad_proof_of_work, ◌>>=◌}

-- `StoredHeader` of src/chaindb.rs.
pub record StoredHeader : Type 0 where
  pub header : BlockHeader
  pub height : ℕ
  pub log2work : ℕ

pub record CachedHeader : Type 0 where
  pub stored : StoredHeader
  pub open stored use *
  pub id : ℕ

-- `unwrap()`.
abbrev pub unwrap {ℓ} : {A : Type ℓ} → Option A → Outcome A
unwrap none = panic
unwrap (some a) = ok a

-- Mantissa and exponent of the compact encoding in `bits`.
unfoldable pub mantissa : ℕ → ℕ
mantissa bits =
    if leb (bits / 2 ^ 24) 3 then bits % 2 ^ 24 / 2 ^ (8 * (3 - bits / 2 ^ 24)) else bits % 2 ^ 24

unfoldable pub exponent : ℕ → ℕ
exponent bits = if leb (bits / 2 ^ 24) 3 then 0 else 8 * (bits / 2 ^ 24 - 3)

module _ (x : External) where
  open x use {uint, float}

  unfoldable pub target : CachedHeader → Outcome ℕ
  unfolding mantissa exponent
  target c = if ltb 0x7fffff (mantissa c.header.bits) then ok default else do
    m ← unwrap (uint.from_u64 (mantissa c.header.bits))
    ok (uint.shl m (exponent c.header.bits))

  -- The id's bytes are read as a little-endian number, which is what an id is here.
  unfoldable pub spv_validate : CachedHeader → ℕ → Outcome (Unit {0})
  spv_validate c required_target = do
    t ← target c
    if nat_eq t required_target
        then (if leb c.id t then ok tt else err spv_bad_proof_of_work)
        else err spv_bad_target

  unfoldable pub work : CachedHeader → Outcome ℕ
  work c = do t ← target c; ok (uint.increment (uint.div (uint.lnot t) (uint.increment t)))

  -- `HeaderCache::log2`, with its `assert!` on the upper two words.
  unfoldable pub log2 : ℕ → Outcome ℕ
  log2 w =
      if nat_eq (w / 2 ^ 128) 0 then ok (float.log2 (w % 2 ^ 64 + w / 2 ^ 64 * 2 ^ 64)) else panic

  -- The bit pattern of `128.0`.
  abbrev pub f64_128 : ℕ
  f64_128 = 0x4060_0000_0000_0000

  -- `HeaderCache::exp2`, with its `assert!`.
  unfoldable pub exp2 : ℕ → Outcome ℕ
  exp2 n = if float.lt n f64_128 then ok (float.exp2 n % 2 ^ 128) else panic

  unfoldable pub max_target : Outcome ℕ
  max_target = do m ← unwrap (uint.from_u64 0xffff); ok (uint.shl m 208)

  -- `usize` wraps in `(n.bits() + 7) / 8 - 3`.
  unfoldable pub satoshi_the_precision : ℕ → ℕ
  satoshi_the_precision n =
      let bits = 8 * (((uint.bits n + 7) / 8 + 2 ^ 64 - 3) % 2 ^ 64) % 2 ^ 64 in
      let ret = uint.shr n bits in
      uint.shl (if uint.bit ret 23 then uint.shl (uint.shr ret 8) 8 else ret) bits
