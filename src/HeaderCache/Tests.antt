-- ===== src/HeaderCache/Tests.antt =====
-- Runs of the header cache at small inputs.
use murmel.Common.{ℕ, ◌≤◌, ◌≡◌, refl, none, some, List, [], ◌∷◌, arith, inl, ℕ-Eq}
use murmel.Common.Map
use murmel.External.{BlockHeader, bitcoin}
use murmel.Outcome.{ok, err, unconnected_header}
use murmel.Pow.{target, max_target, spv_validate, log2, exp2}
use murmel.HeaderCache.{HeaderCache, new, pos_on_trunk, tip}
use murmel.HeaderCache.Add.{
  add_header, add_header_to_tree, insert_genesis, validated, store_cached, follow_path, path_loop,
  switch_trunk, rposition,
}
use murmel.HeaderCache.Difficulty.{
  required_work, interval_start, scan_back, is_some_of, clamped_timespan, retarget, testnet_scan,
  is_testnet,
}
use murmel.Pow.{CachedHeader}
use murmel.HeaderCache.Tree.{IsTree}
use murmel.HeaderCache.Work.{HasMostWork}
use murmel.HeaderCache.Chain.{
  IsLow, add_header-IsTree, add_header-HasMostWork, add_header-err, add_header-proof_of_work,
}
use murmel.HeaderCache.Difficulty.{required_work}
use murmel.Fixtures.{plain, block, whole_floats-IsStrict}

-- Headers added one after the other.
fed : HeaderCache → List BlockHeader → HeaderCache
unfolding Map.get Map.insert add_header add_header_to_tree insert_genesis validated store_cached
    follow_path path_loop switch_trunk rposition pos_on_trunk tip required_work interval_start
    scan_back is_some_of clamped_timespan retarget testnet_scan is_testnet target max_target
    spv_validate log2 exp2
fed c [] = c
fed c (h ∷ hs) = fed (add_header plain c h).0 hs

-- 1 is genesis, 2 and 3 follow it, and 12, 13, 14 branch off at 1.
abbrev branch : List BlockHeader
branch = block 1 0 1 ∷ block 2 1 1 ∷ block 3 2 1 ∷ block 12 1 1 ∷ block 13 12 1 ∷ block 14 13 1 ∷ []

trunk_after_branch : (fed (new bitcoin) branch).trunk ≡ 1 ∷ 1 ∷ 12 ∷ 14 ∷ []
unfolding fed new
trunk_after_branch = refl

-- One heavier block next to the tip.
abbrev heavy : List BlockHeader
heavy = block 1 0 1 ∷ block 2 1 1 ∷ block 3 2 1 ∷ block 12 1 9 ∷ []

trunk_after_heavy : (fed (new bitcoin) heavy).trunk ≡ 1 ∷ 2 ∷ 3 ∷ 12 ∷ []
unfolding fed new
trunk_after_heavy = refl

-- A cache with a genesis header only, and the header that follows it.
abbrev pub genesis : CachedHeader
genesis = record { stored = record { header = block 1 0 1; height = 0; log2work = 1 }; id = 1 }

abbrev pub one_header : HeaderCache
one_header = record { network = bitcoin; headers = (1, genesis) ∷ []; trunk = 1 ∷ [] }

abbrev pub second : CachedHeader
second = record { stored = record { header = block 2 1 1; height = 1; log2work = 2 }; id = 2 }

get-one_header :
    (k : ℕ) (e : CachedHeader) → Map.get one_header.headers k ≡ some e → (k ≡ 1) × (genesis ≡ e)
unfolding Map.get
get-one_header k e h = (ground (arith, h), ground (arith, h))

pub one_header-IsTree : IsTree 1 one_header
unfolding Map.get
one_header-IsTree = record {
  rooted = refl;
  known = λ h i. (genesis, ground (arith, i));
  parent = λ k e h. inl (get-one_header k e h).0;
}

pub one_header-IsLow : IsLow one_header
one_header-IsLow k e h = rw (← (get-one_header k e h).1) (omega arith)

one_header-HasMostWork : HasMostWork plain one_header
unfolding Map.get tip
one_header-HasMostWork = record {
  best = genesis;
  is_tip = refl;
  most = λ k e h. rw (← (get-one_header k e h).1) (refl);
}

second_added :
    (add_header plain one_header (block 2 1 1)).1
    ≡ ok (some (record { cached = second; unwinds = none; forwards = some (2 ∷ []) }))
unfolding Map.get Map.insert add_header add_header_to_tree insert_genesis validated store_cached
    follow_path path_loop switch_trunk rposition pos_on_trunk tip required_work interval_start
    scan_back is_some_of clamped_timespan retarget testnet_scan is_testnet target max_target
    spv_validate log2 exp2
second_added = refl

orphan_refused : (add_header plain one_header (block 2 9 1)).1 ≡ err unconnected_header
unfolding Map.get add_header
orphan_refused = refl

add_header-IsTree_example : IsTree 1 (add_header plain one_header (block 2 1 1)).0
add_header-IsTree_example =
    add_header-IsTree plain one_header (block 2 1 1) one_header-IsTree one_header-IsLow
      (omega arith)

add_header-HasMostWork_example : HasMostWork plain (add_header plain one_header (block 2 1 1)).0
add_header-HasMostWork_example =
    add_header-HasMostWork plain one_header (block 2 1 1) whole_floats-IsStrict one_header-IsTree
      one_header-IsLow (omega arith) one_header-HasMostWork

add_header-err_example : (add_header plain one_header (block 2 9 1)).0 ≡ one_header
add_header-err_example =
    add_header-err plain one_header (block 2 9 1) one_header-IsTree one_header-IsLow (omega arith)
      orphan_refused

add_header-proof_of_work_example :
    (prev : CachedHeader) × (required : ℕ) × (Map.get one_header.headers 1 ≡ some prev)
    × (required_work plain one_header prev (block 2 1 1) ≡ ok required)
    × (target plain second ≡ ok required)
    × (second.id ≡ 2)
    × (2 ≤ required)
add_header-proof_of_work_example =
    add_header-proof_of_work plain one_header (block 2 1 1) one_header-IsTree one_header-IsLow
      (omega arith) second_added
