-- ===== src/HeaderDownload/SyncTests.antt =====
-- A serving peer sends two headers that follow the genesis header.
use murmel.Common.{ℕ, ◌≡◌, ap, refl, inl, inr, none, some, List, [], ◌∷◌, map, arith, ℕ-Eq}
use murmel.Common.Map
use murmel.External.{BlockHeader}
use murmel.Outcome.{ok}
use murmel.Pow.{CachedHeader, target, max_target, spv_validate, log2, exp2}
use murmel.HeaderCache.{last, tip, pos_on_trunk}
use murmel.HeaderCache.Add.{
  Added, add_header_to_tree, insert_genesis, validated, store_cached, follow_path, path_loop,
  switch_trunk, rposition,
}
use murmel.HeaderCache.Add
use murmel.HeaderCache.Difficulty.{
  required_work, interval_start, scan_back, is_some_of, clamped_timespan, retarget, testnet_scan,
  is_testnet,
}
use murmel.ChainDb.{ChainDb, then_db, store_forwards}
use murmel.ChainDb
use murmel.ChainDb.Runs.{memory, genesis, started, extends, extended, extended-tip}
use murmel.P2p.Tests.{pid}
use murmel.HeaderDownload.{headers, connections}
use murmel.HeaderDownload.Passes.{Follows, arrived, after}
use murmel.HeaderDownload.Sync.{headers-takes}
use murmel.HeaderDownload.Tests.{synced, synced-IsSteady}
use murmel.Fixtures.{plain, block, whole_floats-IsStrict}

abbrev third : CachedHeader
third = record { stored = record { header = block 3 2 1; height = 2; log2work = 3 }; id = 3 }

extends_again :
    (ChainDb.add_header plain memory (λ n. block 1 0 1) extended (block 3 2 1)).1
    ≡ ok (some (record { cached = third; unwinds = none; forwards = some (3 ∷ []) }))
unfolding Map.get Map.insert ChainDb.add_header then_db store_forwards last Add.add_header
    add_header_to_tree insert_genesis validated store_cached follow_path path_loop switch_trunk
    rposition pos_on_trunk tip required_work interval_start scan_back is_some_of clamped_timespan
    retarget testnet_scan is_testnet target max_target spv_validate log2 exp2
extends_again = refl

abbrev two : List BlockHeader
two = block 2 1 1 ∷ block 3 2 1 ∷ []

started-tip : tip started.headercache ≡ some genesis
unfolding Map.get tip
started-tip = refl

two-Follows : Follows plain memory (λ n. block 1 0 1) started two
unfolding last
two-Follows =
    after (ap (λ r. r.1) extends) refl started-tip refl
      (rw (ap (λ r. r.0) extends) (after extends_again refl extended-tip refl arrived))

headers-takes_example :
    let r = headers plain memory (λ n. block 1 0 1) synced 5 two pid in
    (r.1 ≡ ok tt)
    × (r.0.chaindb.headercache.trunk ≡ 1 ∷ 2 ∷ 3 ∷ [])
    × ((told : List (BlockHeader × ℕ)) × (map (λ p. p.0) told ≡ two)
        × (r.0.downstream ≡ connections plain memory (λ n. block 1 0 1) told))
headers-takes_example =
    headers-takes plain memory (λ n. block 1 0 1) (λ d. refl) whole_floats-IsStrict 1 1 synced 5
      (block 2 1 1) (block 3 2 1 ∷ []) pid
      (λ h i. elim i [
        | inl e ↦ rw (← e) (omega arith)
        | inr (inl e) ↦ rw (← e) (omega arith)
        | inr (inr z) ↦ absurd z
      ])
      (omega arith) synced-IsSteady.good two-Follows
