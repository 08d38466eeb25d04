-- ===== src/HeaderCache/Usurp.antt =====
-- `add_header` of src/headercache.rs for a header without a parent.
use murmel.Common.{ℕ, ◌≡◌, refl, ap, ◌∙◌, true, nat_eq, nat_eq_iff, none, some, [], ◌∷◌, ◌++◌, ℕ-Eq}
use murmel.Common.Map
use murmel.Common.Map.{get-insert_self}
use murmel.External.{BlockHeader, External, default}
use murmel.Outcome.{ok}
use murmel.Pow.{CachedHeader, log2}
use murmel.HeaderCache.{HeaderCache, tip}
use murmel.HeaderCache.Add.{Added, add_header, insert_genesis}
use murmel.HeaderCache.Trunk.{last-append_cons}
use murmel.HeaderCache.Store.{tip_of_last}

-- What a header without a parent is stored as.
abbrev pub orphan : External → BlockHeader → ℕ → CachedHeader
orphan x header total = record {
  stored = record { header = header; height = 0; log2work = total };
  id = x.bitcoin_hash header;
}

-- An unknown header whose `prev_blockhash` is zero becomes the tip of any cache, at height 0 and behind
-- the whole trunk: without a look at its hash, its bits, the work of the tip, or at what the cache
-- holds. Its work has a logarithm.
pub add_header-usurps :
    (x : External) (c : HeaderCache) (header : BlockHeader) {total : ℕ}
    → header.prev_blockhash ≡ default
    → Map.get c.headers (x.bitcoin_hash header) ≡ none
    → log2 x (x.header_work header) ≡ ok total
    → let r = add_header x c header in
      let a : Added = record {
        cached = orphan x header total;
        unwinds = none;
        forwards = some (x.bitcoin_hash header ∷ []);
      } in
      (r.1 ≡ ok (some a))
      × (r.0.trunk ≡ c.trunk ++ (x.bitcoin_hash header ∷ []))
      × (tip r.0 ≡ some (orphan x header total))
unfolding add_header insert_genesis
add_header-usurps x c header {total} z n w =
    let e = orphan x header total in
    let h : HeaderCache = record c {
      headers = Map.insert c.headers e.id e;
      trunk = c.trunk ++ (e.id ∷ []);
    } in
    let a : Added = record { cached = e; unwinds = none; forwards = some (e.id ∷ []) } in
    let zero : nat_eq header.prev_blockhash default ≡ true =
      (nat_eq_iff header.prev_blockhash default).1 z in
    let q : add_header x c header ≡ (h, ok (some a)) =
      rw (n, add_header) (rw zero (rw (w, insert_genesis) refl)) in
    (
      ap (λ r. r.1) q,
      ap (λ r. r.0.trunk) q,
      ap (λ r. tip r.0) q
          ∙ tip_of_last h e.id e (last-append_cons c.trunk e.id) (get-insert_self c.headers e.id e),
    )
