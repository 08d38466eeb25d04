-- ===== src/ChainDb/Comeback.antt =====
-- A restart of `ChainDB` of src/chaindb.rs on a database that has kept up with the header cache.
use murmel.Common.{
  ℕ, zero, suc, ◌≤◌, ◌<◌, ◌≡◌, ap, sym, ◌∙◌, inl, inr, some, List, [], ◌∷◌, reverse, reverse-cons,
  length, arith, ℕ-Eq, eq_of_some,
}
use murmel.Common.Map
use murmel.External.{BlockHeader, External, Network, default}
use murmel.Outcome.{ok}
use murmel.Pow.{CachedHeader}
use murmel.HeaderCache.{HeaderCache, last, tip}
use murmel.HeaderCache.Trunk.{last-append_cons}
use murmel.HeaderCache.Tree.{IsTree}
use murmel.HeaderCache.Store.{tip_known, tip_of_last}
use murmel.ChainDb.{Database, ChainDb, init_headers}
use murmel.ChainDb.Restart.{IsStored, first, next, init_headers-trunk}
use murmel.ChainDb.Durable.{IsDurable}
use murmel.ChainDb.Sound.{IsSound}
use murmel.HeaderCache.Genesis.{HasGenesis}

last-IsStored :
    {D : Type 0} {base : Database D} {d : D} {id : ℕ} {ids : List ℕ}
    → IsStored base d id ids
    → last (reverse ids) ≡ some id
unfolding last
last-IsStored (first {id = id} s g z) = ap last (reverse-cons id []) ∙ last-append_cons [] id
last-IsStored (next {id = id} {ids = ids} s g z r) =
    ap last (reverse-cons id ids) ∙ last-append_cons (reverse ids) id

-- The way from a header back to the root, as the database holds it.
pub record Kept {D : Type 0} (base : Database D) (d : D) (id height : ℕ) : Type 0 where
  pub ids : List ℕ
  pub chain : IsStored base d id ids
  pub short : length ids ≤ suc height

module _ {D : Type 0} (base : Database D) {root : ℕ} (d : D) (h : HeaderCache) (t : IsTree root h)
    (g : HasGenesis root h) (i : IsDurable base d h) where
  chain-Kept :
      (n k : ℕ) (e : CachedHeader)
      → Map.get h.headers k ≡ some e
      → e.height < n
      → Kept base d k e.height
  chain-Kept zero k e m b = absurd (omega (arith, b))
  chain-Kept (suc n) k e m b = elim (t.parent k e m) [
    | inl r ↦ record {
      ids = k ∷ [];
      chain = first e.stored (i.headers k e m) (g.genesis e (rw r at m));
      short = omega arith;
    }
    | inr (p, pm, ph) ↦
        let up = chain-Kept n e.header.prev_blockhash p pm (omega (arith, ph, b)) in
        record {
          ids = k ∷ up.ids;
          chain =
              next e.stored (i.headers k e m)
                (λ z.
                  let pm' : Map.get h.headers default ≡ some p = rw z at pm in
                  absurd (ground (arith, g.no_default, pm')))
                up.chain;
          short = omega (arith, up.short, ph);
        }
  ]

module _ {D : Type 0} (x : External) (base : Database D) (genesis_block : Network → BlockHeader)
    {root : ℕ} where
  -- A restart comes back to the tip: it succeeds, its trunk is the chain that the database holds from
  -- the root to the tip, and it ends in the same id as the trunk of the store that was closed. That
  -- store is sound, the new cache is empty, and the loop has more turns than the height of the tip.
  pub init_headers-tip :
      (fuel : ℕ) (c closed : ChainDb D) {e : CachedHeader}
      → IsSound base root c
      → closed.db ≡ c.db
      → closed.headercache.trunk ≡ []
      → tip c.headercache ≡ some e
      → e.height < fuel
      → let (r, o) = init_headers x base genesis_block fuel closed in
        (id : ℕ) × (ids : List ℕ) × (o ≡ ok tt)
        × IsStored base c.db id ids
        × (r.headercache.trunk ≡ reverse ids)
        × (last r.headercache.trunk ≡ some id)
        × (last c.headercache.trunk ≡ some id)
  init_headers-tip fuel c closed i s z w b =
      let (id, e, l, m) = tip_known c.headercache i.tree in
      let same = eq_of_some (sym (tip_of_last c.headercache id e l m) ∙ w) in
      let k =
        chain-Kept base c.db c.headercache i.tree i.genesis i.durable (suc e.height) id e m
          (omega arith) in
      let (q, o) =
        init_headers-trunk x base genesis_block fuel closed {t = id} {ids = k.ids}
          (rw s (i.durable.tip ∙ ap (λ a. ok a) l)) (rw s k.chain)
          (omega (arith, k.short, b, ap (λ (a : CachedHeader). a.height) same)) z in
      (id, k.ids, o, k.chain, q, ap last q ∙ last-IsStored k.chain, l)
