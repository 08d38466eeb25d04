-- ===== src/HeaderCache/Genesis.antt =====
-- The root of the tree of src/headercache.rs is a genesis header.
use murmel.Common.{
  ℕ, ◌≡◌, ◌≢◌, ◌∙◌, ap, sym, inl, inr, arith, none, some, In-get_elem?, ℕ-Eq, ==_cases,
}
use murmel.Common.Map
use murmel.Common.Map.{get-insert, get-insert_cases}
use murmel.External.{BlockHeader, External, default}
use murmel.Pow.{CachedHeader}
use murmel.HeaderCache.{HeaderCache}
use murmel.HeaderCache.Add.{add_header}
use murmel.HeaderCache.Tree.{IsTree}
use murmel.HeaderCache.Cases.{add_header-cases}
use murmel.HeaderCache.Bounds.{Stores-headers}
use murmel.HeaderCache.Chain.{IsLow}

-- The root is a genesis header, and no header has the id that stands for no header.
pub record HasGenesis (root : ℕ) (h : HeaderCache) : Type 0 where
  pub genesis :
      (e : CachedHeader) → Map.get h.headers root ≡ some e → e.header.prev_blockhash ≡ default
  pub no_default : Map.get h.headers default ≡ none

module _ (x : External) {root : ℕ} where
  pub add_header-HasGenesis :
      (h : HeaderCache) (header : BlockHeader)
      → IsTree root h
      → IsLow h
      → header.prev_blockhash ≢ default
      → x.bitcoin_hash header ≢ default
      → HasGenesis root h
      → HasGenesis root (add_header x h header).0
  add_header-HasGenesis h header t low nz ne g = elim (add_header-cases x h header nz) [
    | inl k ↦ rw k.same g
    | inr s ↦
        let q = Stores-headers x h header t low s in
        record {
          genesis = λ e m. elim (get-insert_cases h.headers s.cached.id s.cached root (rw q at m)) [
            | inl (z, w) ↦
                let (f, fm) = t.known root (In-get_elem? root h.trunk 0 t.rooted) in
                absurd (ground (arith, fm, s.fresh, z))
            | inr m' ↦ g.genesis e m'
          ];
          no_default = elim (==_cases s.cached.id default) [
            | inl (b, z) ↦ absurd (ne (sym s.valid.is_id ∙ z))
            | inr (b, z) ↦
                ap (λ m. Map.get m default) q
                ∙ get-insert h.headers s.cached.id s.cached default
                ∙ (rw b g.no_default)
          ];
        }
  ]
