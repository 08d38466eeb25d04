-- ===== src/Dns.antt =====
-- `dns_seed` of src/dns.rs. The lookup of a host and a port is an argument, `none` if there is no answer.
use Prim.Native.String.{String}
use murmel.Common.{
  ℕ, ◌≡◌, ◌↔◌, ◌⊎◌, refl, Option, none, some, List, [], ◌∷◌, ◌++◌, In, inl, inr, Option-cases,
  subst, sym, ◌∙◌, In-append_left, In-append_right, In-append_cases, eq_of_some,
}
use murmel.External.{Network, bitcoin, testnet, regtest}
pub mod Tests

abbrev main_seeder : List String
main_seeder =
    "seed.bitcoin.sipa.be" ∷ "dnsseed.bluematt.me" ∷ "dnsseed.bitcoin.dashjr.org"
    ∷ "seed.bitcoinstats.com" ∷ "seed.btc.petertodd.org" ∷ []

abbrev test_seeder : List String
test_seeder =
    "testnet-seed.bitcoin.jonasschnelli.ch" ∷ "seed.tbtc.petertodd.org"
    ∷ "seed.testnet.bitcoin.sprovoost.nl" ∷ "testnet-seed.bluematt.me" ∷ []

-- Nothing is in the empty list of seeds.
without : {Z X : Type 0} → Z ↔ (⊥ ⊎ X) → Z ↔ X
without (f, g) = (λ z. elim (f z) [ inl e ↦ absurd e | inr x ↦ x ], λ x. g (inr x))

module _ (lookup : String → ℕ → Option (List ℕ)) where
  -- The loop over the hosts.
  unfoldable pub push_seeds : List String → ℕ → List ℕ → List ℕ
  push_seeds [] port seeds = seeds
  push_seeds (host ∷ hosts) port seeds = elim (lookup host port) [
    | some found ↦ push_seeds hosts port (seeds ++ found)
    | none ↦ push_seeds hosts port seeds
  ]

  unfoldable pub dns_seed : Network → List ℕ
  dns_seed bitcoin = push_seeds main_seeder 8333 []
  dns_seed testnet = push_seeds test_seeder 18333 []
  dns_seed regtest = []

  -- The seeders that are asked, and on which port.
  abbrev pub asked : Network → List String × ℕ
  asked bitcoin = (main_seeder, 8333)
  asked testnet = (test_seeder, 18333)
  asked regtest = ([], 0)

  -- An address that an answer of a seeder holds.
  record Answered (hosts : List String) (port a : ℕ) : Type 0 where
    pub host : String
    pub is_asked : In host hosts
    pub found : List ℕ
    pub answer : lookup host port ≡ some found
    pub holds : In a found

  In-push_seeds :
      (hosts : List String) (port : ℕ) (seeds : List ℕ) (a : ℕ)
      → In a (push_seeds hosts port seeds) ↔ (In a seeds ⊎ Answered hosts port a)
  unfolding push_seeds
  In-push_seeds [] port seeds a =
      (λ h. inl h, λ h. elim h [ inl i ↦ i | inr n ↦ absurd (n.is_asked) ])
  In-push_seeds (host ∷ hosts) port seeds a = elim (Option-cases (lookup host port)) [
    | inl e ↦
        let (f, g) = In-push_seeds hosts port seeds a in
        rw (e, push_seeds)
          (
            λ h. elim (f h) [ inl i ↦ inl i | inr n ↦ inr (later host n) ],
            λ h. elim h [
              | inl i ↦ g (inl i)
              | inr n ↦ elim n.is_asked [
                | inl i ↦ absurd (let k : lookup host port ≡ some n.found = rw i n.answer in cc)
                | inr i ↦ g (
                    inr (record {
                      host = n.host;
                      is_asked = i;
                      found = n.found;
                      answer = n.answer;
                      holds = n.holds;
                    }))
              ]
            ],
          )
    | inr (found, e) ↦
        let (f, g) = In-push_seeds hosts port (seeds ++ found) a in
        rw (e, push_seeds)
          (
            λ h. elim (f h) [
              | inl i ↦ elim (In-append_cases a seeds found i) [
                | inl j ↦ inl j
                | inr j ↦ inr (record {
                  host = host;
                  is_asked = inl refl;
                  found = found;
                  answer = e;
                  holds = j;
                })
              ]
              | inr n ↦ inr (later host n)
            ],
            λ h. elim h [
              | inl i ↦ g (inl (In-append_left a seeds found i))
              | inr n ↦ elim n.is_asked [
                | inl i ↦
                    let k : lookup host port ≡ some n.found = rw i n.answer in
                    let same : n.found ≡ found = eq_of_some (sym k ∙ e) in
                    g (inl (In-append_right a seeds found (subst (In a) same n.holds)))
                | inr i ↦ g (
                    inr (record {
                      host = n.host;
                      is_asked = i;
                      found = n.found;
                      answer = n.answer;
                      holds = n.holds;
                    }))
              ]
            ],
          )
  ]
    where
      later :
          {hosts : List String} {port a : ℕ} (host : String)
          → Answered hosts port a
          → Answered (host ∷ hosts) port a
      later host n = record {
        host = n.host;
        is_asked = inr n.is_asked;
        found = n.found;
        answer = n.answer;
        holds = n.holds;
      }

  -- An address is among the seeds of a network exactly if one of the network's seeders, asked on the
  -- network's port, has answered with it; on the regression test network there is none.
  In-dns_seed :
      (network : Network) (a : ℕ)
      → In a (dns_seed network) ↔ Answered (asked network).0 (asked network).1 a
  unfolding dns_seed
  In-dns_seed bitcoin a = without (In-push_seeds main_seeder 8333 [] a)
  In-dns_seed testnet a = without (In-push_seeds test_seeder 18333 [] a)
  In-dns_seed regtest a = (λ h. absurd h, λ n. absurd n.is_asked)
