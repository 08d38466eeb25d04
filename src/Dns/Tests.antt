-- ===== src/Dns/Tests.antt =====
-- A run of `dns_seed` of src/dns.rs, with one seeder that answers.
use Prim.Native.String.{String}
use murmel.Common.{ℕ, ◌≡◌, refl, Option, none, some, List, [], ◌∷◌, ◌==◌, String-Eq, if◌then◌else◌}
use murmel.External.{testnet}
use murmel.Dns.{dns_seed, push_seeds}

abbrev one_answers : String → ℕ → Option (List ℕ)
one_answers host port = if host == "seed.tbtc.petertodd.org" then some (7 ∷ port ∷ []) else none

seeds : dns_seed one_answers testnet ≡ 7 ∷ 18333 ∷ []
unfolding dns_seed push_seeds
seeds = refl
