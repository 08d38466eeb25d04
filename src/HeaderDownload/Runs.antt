-- ===== src/HeaderDownload/Runs.antt =====
-- Runs of `HeaderDownload` of src/headerdownload.rs over any messages and pauses.
use murmel.Common.{ℕ, ◌+◌, ◌^◌, ◌<◌, List, length, arith}
use murmel.External.{BlockHeader, External, Network, IsStrict}
use murmel.ChainDb.{Database}
use murmel.HeaderDownload.{HeaderDownload, Event, run}
use murmel.HeaderDownload.Stored.{HaveParents}
use murmel.HeaderDownload.Preserves.{all_claimed, run-Holds}
use murmel.HeaderDownload.Steady.{IsSteady, IsSteadyAt, HasParent, KnownIn, IsSteadyAt-IsKept}

module _ {D : Type 0} (x : External) (base : Database D) (genesis_block : Network → BlockHeader)
    (f : IsStrict x.float) (root : ℕ) where
  -- From a steady store, after any messages and pauses, and whatever errors, bans and failures of the
  -- database they meet: the cache is a tree with the same root, the tip has the most work of all known
  -- headers, and each header that `Downstream` was told of as connected is known, at the height that
  -- was told. No received header claims to be a genesis, `<` on floats is a strict order, and the
  -- bound of the heights and the number of received headers together stay below 2^32.
  pub run-IsSteady :
      (n : ℕ) (s : HeaderDownload D) (es : List Event)
      → HaveParents (all_claimed es)
      → n + length (all_claimed es) < 2 ^ 32
      → IsSteady x root n s
      → IsSteady x root (n + length (all_claimed es)) (run x base genesis_block s es)
  run-IsSteady n s es p l i =
      let r =
        run-Holds x base genesis_block HasParent (KnownIn x) (IsSteadyAt x root)
          (IsSteadyAt-IsKept x base genesis_block f root) n (n + length (all_claimed es)) s es p
          (omega arith) l (record { good = i.good; told = i.told }) in
      record { good = r.good; told = r.told }
