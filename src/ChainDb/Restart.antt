-- ===== src/ChainDb/Restart.antt =====
-- What `init_headers` of src/chaindb.rs reads back.
use murmel.Common.{
  ℕ, zero, suc, ◌≤◌, ◌≡◌, ◌≢◌, refl, ap, ◌∙◌, false, some, List, [], ◌∷◌, ◌++◌, reverse, length,
  nat_eq, arith, append_assoc,
}
use murmel.External.{BlockHeader, External, Network, default}
use murmel.Outcome.{ok}
use murmel.Pow.{StoredHeader}
use murmel.HeaderCache.{HeaderCache, add_header_unchecked, reverse_trunk}
use murmel.ChainDb.{Database, ChainDb, read_chain, read_stored, init_headers}

module _ {D : Type 0} (base : Database D) where
  -- The database holds the chain of ids that leads from a header back to one without a parent.
  pub data IsStored (d : D) : ℕ → List ℕ → Type 0 where
    first :
        {id : ℕ} (s : StoredHeader)
        → base.get_header d id ≡ ok (some s)
        → s.header.prev_blockhash ≡ default
        → IsStored d id (id ∷ [])
    next :
        {id : ℕ} {ids : List ℕ} (s : StoredHeader)
        → base.get_header d id ≡ ok (some s)
        → s.header.prev_blockhash ≢ default
        → IsStored d s.header.prev_blockhash ids
        → IsStored d id (id ∷ ids)

module _ {D : Type 0} (x : External) (base : Database D)
    (genesis_block : Network → BlockHeader) where
  read_chain-trunk :
      (fuel : ℕ) (d : D) (c : HeaderCache) {h : ℕ} {ids : List ℕ}
      → IsStored base d h ids
      → length ids ≤ fuel
      → ((read_chain x base genesis_block fuel d c h).0.trunk ≡ c.trunk ++ ids)
        × ((read_chain x base genesis_block fuel d c h).1 ≡ ok tt)
  unfolding read_chain add_header_unchecked
  read_chain-trunk zero d c (first s g z) l = absurd (omega (arith, l))
  read_chain-trunk zero d c (next s g z r) l = absurd (omega (arith, l))
  read_chain-trunk (suc fuel) d c (first s g z) l =
      rw (g, read_chain) (rw (z, read_chain) (refl, refl))
  read_chain-trunk (suc fuel) d c {h} (next {id = id} {ids = ids} s g z r) l =
      let b : nat_eq s.header.prev_blockhash default ≡ false = ground arith in
      let (t, o) = read_chain-trunk fuel d (add_header_unchecked c h s) r (omega (arith, l)) in
      rw (g, read_chain) (rw (b, read_chain) (t ∙ append_assoc c.trunk (id ∷ []) ids, o))

  -- After a restart the trunk is the stored chain, from its root to the tip that was stored, and the
  -- call succeeds. The cache has an empty trunk before, the database holds the whole chain, and the
  -- loop is allowed as many turns as the chain has headers.
  pub init_headers-trunk :
      (fuel : ℕ) (c : ChainDb D) {t : ℕ} {ids : List ℕ}
      → base.get_tip c.db ≡ ok (some t)
      → IsStored base c.db t ids
      → length ids ≤ fuel
      → c.headercache.trunk ≡ []
      → ((init_headers x base genesis_block fuel c).0.headercache.trunk ≡ reverse ids)
        × ((init_headers x base genesis_block fuel c).1 ≡ ok tt)
  unfolding init_headers read_stored reverse_trunk
  init_headers-trunk fuel c {t} {ids} e s l z =
      let (q, o) = read_chain-trunk fuel c.db c.headercache s l in
      rw (e, init_headers)
        (rw (o, read_stored) (ap (λ xs. reverse xs) (q ∙ ap (λ xs. xs ++ ids) z), refl))
