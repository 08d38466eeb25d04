-- ===== src/External.antt =====
-- What the code takes from other crates: headers and hashes of `bitcoin`, its 256-bit integers, and
-- floating-point numbers. A hash is the number whose little-endian bytes it holds, a `Uint256` its
-- value, an `f64` its bit pattern.
use murmel.Common.{ℕ, ◌+◌, ◌*◌, ◌/◌, ◌%◌, ◌^◌, ◌<◌, ◌≡◌, Bool, true, false, Option, some}

-- `bitcoin::BlockHeader`.
pub record BlockHeader : Type 0 where
  pub version : ℕ
  pub prev_blockhash : ℕ
  pub merkle_root : ℕ
  pub time : ℕ
  pub bits : ℕ
  pub nonce : ℕ

-- `bitcoin::Network`.
pub data Network : Type 0 where
  bitcoin testnet regtest : Network

-- `Sha256dHash::default()` and `Uint256::default()`.
abbrev pub default : ℕ
default = 0

-- `bitcoin::util::uint::Uint256`, with what its operations are documented to give.
pub record Uint256 : Type 0 where
  pub from_u64 : ℕ → Option ℕ
  pub shl : ℕ → ℕ → ℕ
  pub shr : ℕ → ℕ → ℕ
  pub lnot : ℕ → ℕ
  pub increment : ℕ → ℕ
  pub div : ℕ → ℕ → ℕ
  pub mul_u32 : ℕ → ℕ → ℕ
  pub add : ℕ → ℕ → ℕ
  pub bits : ℕ → ℕ
  pub bit : ℕ → ℕ → Bool
  pub from_u64_lem : (x : ℕ) → x < 2 ^ 64 → from_u64 x ≡ some x
  pub shl_lem : (x k : ℕ) → shl x k ≡ x * 2 ^ k % 2 ^ 256
  pub shr_lem : (x k : ℕ) → shr x k ≡ x / 2 ^ k
  pub lnot_lem : (x : ℕ) → x < 2 ^ 256 → lnot x + x + 1 ≡ 2 ^ 256
  pub increment_lem : (x : ℕ) → increment x ≡ (x + 1) % 2 ^ 256
  pub div_lem : (x y : ℕ) → 0 < y → div x y ≡ x / y
  pub mul_u32_lem : (x k : ℕ) → k < 2 ^ 32 → mul_u32 x k ≡ x * k % 2 ^ 256
  pub add_lem : (x y : ℕ) → add x y ≡ (x + y) % 2 ^ 256

-- `f64`: `log2` of a `u128`, `exp2` cast to a `u128`, and the order of two floats.
pub record Float : Type 0 where
  pub log2 : ℕ → ℕ
  pub exp2 : ℕ → ℕ
  pub lt : ℕ → ℕ → Bool

-- `<` of floats is a strict order.
pub record IsStrict (f : Float) : Type 0 where
  pub irrefl : (x : ℕ) → f.lt x x ≡ false
  pub trans : (x y z : ℕ) → f.lt x y ≡ true → f.lt y z ≡ true → f.lt x z ≡ true

-- `BlockHeader::bitcoin_hash` and `BlockHeader::work`, with the two number types.
pub record External : Type 0 where
  pub bitcoin_hash : BlockHeader → ℕ
  pub header_work : BlockHeader → ℕ
  pub uint : Uint256
  pub float : Float
