-- ===== src/Outcome.antt =====
-- The errors of src/error.rs, and results of code that may fail or panic.
use Prim.Native.String.{String}
use murmel.Common.{◌≡◌, refl, ◌⊎◌, inl, inr}

-- An error of another crate: what `description()` and `Display` give of it.
pub record Foreign : Type 0 where
  pub description : String
  pub display : String

-- `enum Error`.
pub data Error : Type 0 where
  spv_bad_target spv_bad_proof_of_work unconnected_header no_tip no_peers unknown_utxo : Error
  bad_merkle_root handshake : Error
  downstream lost : String → Error
  io util serialize hammersbald : Foreign → Error

-- `Result<A, Error>` of code that may also panic. `unfinished`: a loop has used up its fuel.
pub data Outcome {ℓ} (A : Type ℓ) : Type ℓ where
  ok : A → Outcome A
  err : Error → Outcome A
  panic : Outcome A
  unfinished : Outcome A

infixl 5 ◌>>=◌
abbrev pub ◌>>=◌ {ℓ κ} : {B : Type κ} {A : Type ℓ} → Outcome A → (A → Outcome B) → Outcome B
unfinished >>= k = unfinished
panic >>= k = panic
err e >>= k = err e
ok a >>= k = k a

-- The result is `ok`, or a bind of it does not look at what follows.
pub Outcome-cases {ℓ} :
    {A : Type ℓ} (m : Outcome A)
    → ((a : A) × (m ≡ ok a)) ⊎ (((e : Error) × (m ≡ err e)) ⊎ ((m ≡ panic) ⊎ (m ≡ unfinished)))
Outcome-cases (ok a) = inl (a, refl)
Outcome-cases (err e) = inr (inl (e, refl))
Outcome-cases panic = inr (inr (inl refl))
Outcome-cases unfinished = inr (inr (inr refl))

-- Inversion of a successful bind.
pub >>=-eq-ok {ℓ κ} :
    {A : Type ℓ} {B : Type κ} (o : Outcome A) (k : A → Outcome B) {c : B}
    → (o >>= k) ≡ ok c
    → (a : A) × (o ≡ ok a) × (k a ≡ ok c)
>>=-eq-ok panic k h = cc
>>=-eq-ok unfinished k h = cc
>>=-eq-ok (err e) k h = cc
>>=-eq-ok (ok a) k h = (a, refl, h)
