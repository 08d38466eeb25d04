-- ===== src/HeaderDownload/Stored.antt =====
-- What the loops of `headers` in src/headerdownload.rs do to the store and to what is told of it.
use murmel.Common.{ℕ, suc, ◌^◌, ◌<◌, ◌≡◌, ◌≢◌, some, List, In, ℕ-Eq}
use murmel.External.{BlockHeader, External, Network, IsStrict}
use murmel.Outcome.{ok}
use murmel.HeaderCache.{HeaderCache}
use murmel.HeaderCache.Add.{Added}
use murmel.HeaderCache.Add
use murmel.HeaderCache.Tree.{IsTree}
use murmel.HeaderCache.Work.{HasMostWork}
use murmel.HeaderCache.Chain.{IsLow, add_header-IsTree, add_header-HasMostWork}
use murmel.HeaderCache.Bounds.{
  IsBelow, IsBelow-IsLow, Grows, IsKnown, add_header-IsBelow, add_header-Grows, add_header-IsKnown,
}
use murmel.ChainDb.{Database, ChainDb}
use murmel.ChainDb
use murmel.ChainDb.Sound.{add_header-headercache, add_header-result}

-- The cache is a tree with heights below the bound, and its tip has the most work.
pub record IsGood (x : External) (root n : ℕ) (h : HeaderCache) : Type 0 where
  pub tree : IsTree root h
  pub most : HasMostWork x h
  pub below : IsBelow n h

-- No header of the list claims to be a genesis.
abbrev pub HaveParents : List BlockHeader → Type 0
HaveParents hs = (h : BlockHeader) → In h hs → h.prev_blockhash ≢ 0

pub IsKnown-Grows :
    (x : External) (c d : HeaderCache) (h : BlockHeader) (m : ℕ)
    → Grows c d
    → IsKnown x c h m
    → IsKnown x d h m
IsKnown-Grows x c d h m g (e, k, p, q) = (e, g (x.bitcoin_hash h) e k, p, q)

module _ {D : Type 0} (x : External) (base : Database D) (genesis_block : Network → BlockHeader)
    (root n : ℕ) (c : ChainDb D) (h : BlockHeader) (nz : h.prev_blockhash ≢ 0) (l : n < 2 ^ 32)
    (g : IsGood x root n c.headercache) where
  low : IsLow c.headercache
  low = IsBelow-IsLow c.headercache l g.below

  pub stored-IsGood :
      IsStrict x.float
      → IsGood x root (suc n) (ChainDb.add_header x base genesis_block c h).0.headercache
  stored-IsGood f = rw (add_header-headercache x base genesis_block c h) (record {
    tree = add_header-IsTree x c.headercache h g.tree low nz;
    most = add_header-HasMostWork x c.headercache h f g.tree low nz g.most;
    below = add_header-IsBelow x c.headercache h g.tree low nz g.below;
  })

  pub stored-keeps :
      (k : BlockHeader) (m : ℕ)
      → IsKnown x c.headercache k m
      → IsKnown x (ChainDb.add_header x base genesis_block c h).0.headercache k m
  stored-keeps k m i = rw (add_header-headercache x base genesis_block c h) (
      IsKnown-Grows x c.headercache (Add.add_header x c.headercache h).0 k m
        (add_header-Grows x c.headercache h g.tree low nz) i)

  pub stored-IsKnown :
      {a : Added}
      → (ChainDb.add_header x base genesis_block c h).1 ≡ ok (some a)
      → IsKnown x
          (ChainDb.add_header x base genesis_block c h).0.headercache
          a.cached.header
          a.cached.height
  stored-IsKnown {a} o = rw (add_header-headercache x base genesis_block c h) (
      add_header-IsKnown x c.headercache h g.tree low nz
        (add_header-result x base genesis_block c h o))
