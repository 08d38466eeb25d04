-- ===== src/HeaderCache/ForkTests.antt =====
-- A small fork: 2 and 12 follow the genesis header 1, and 13 follows 12.
use murmel.Common.{
  none, ◌++◌, ◌≢◌, ℕ, ◌+◌, ◌^◌, ◌≤◌, length, take, reverse, ◌≡◌, refl, subst, inl, inr, some, [],
  ◌∷◌, arith, ℕ-Eq, In,
}
use murmel.Common.Map
use murmel.External.{bitcoin}
use murmel.Outcome.{ok, unfinished}
use murmel.Pow.{CachedHeader, target, max_target, spv_validate, log2, exp2}
use murmel.HeaderCache.{HeaderCache, pos_on_trunk, position, tip, locator_loop, locator_hashes}
use murmel.HeaderCache.Genesis.{HasGenesis}
use murmel.HeaderCache.Finish.{add_header-finishes}
use murmel.HeaderCache.Extend.{add_header-appends}
use murmel.HeaderCache.Usurp.{orphan, add_header-usurps}
use murmel.HeaderCache.Locator.{locator_hashes-IsShort}
use murmel.HeaderCache.Add.{
  Added, add_header, add_header_to_tree, insert_genesis, validated, store_cached, follow_path,
  path_loop, switch_trunk, rposition,
}
use murmel.HeaderCache.Difficulty.{
  required_work, interval_start, scan_back, is_some_of, clamped_timespan, retarget, testnet_scan,
  is_testnet,
}
use murmel.HeaderCache.Tree.{IsTree}
use murmel.HeaderCache.Chain.{IsLow, add_header-IsTree}
use murmel.HeaderCache.Bounds.{IsBelow, IsBelow-IsLow, add_header-IsBelow}
use murmel.HeaderCache.Reorganise.{IsReorganised, add_header-reorganises}
use murmel.HeaderCache.Tests.{genesis, second, one_header, one_header-IsTree, one_header-IsLow}
use murmel.Fixtures.{plain, block}

abbrev entry : ℕ → ℕ → ℕ → CachedHeader
entry id parent height = record {
  stored = record { header = block id parent 1; height = height; log2work = height + 1 };
  id = id;
}

abbrev two_headers : HeaderCache
two_headers = record {
  network = bitcoin;
  headers = (1, genesis) ∷ (2, second) ∷ [];
  trunk = 1 ∷ 2 ∷ [];
}

abbrev forked : HeaderCache
forked = record {
  network = bitcoin;
  headers = (1, genesis) ∷ (2, second) ∷ (12, entry 12 1 1) ∷ [];
  trunk = 1 ∷ 2 ∷ [];
}

adds :
    ((add_header plain one_header (block 2 1 1)).0 ≡ two_headers)
    × ((add_header plain two_headers (block 12 1 1)).0 ≡ forked)
    × ((add_header plain forked (block 13 12 1)).1
        ≡ ok (
            some (record {
              cached = entry 13 12 2;
              unwinds = some (2 ∷ []);
              forwards = some (1 ∷ 13 ∷ []);
            })))
    × ((add_header plain forked (block 13 12 1)).0.trunk ≡ 1 ∷ 1 ∷ 13 ∷ [])
unfolding Map.get Map.insert add_header add_header_to_tree insert_genesis validated store_cached
    follow_path path_loop switch_trunk rposition position pos_on_trunk tip required_work
    interval_start scan_back is_some_of clamped_timespan retarget testnet_scan is_testnet target
    max_target spv_validate log2 exp2
adds = (refl, refl, refl, refl)

one_header-IsBelow : IsBelow 1 one_header
unfolding Map.get
one_header-IsBelow k e g = let q : genesis ≡ e = ground (arith, g) in rw (← q) (omega arith)

two_headers-IsBelow : IsBelow 2 two_headers
two_headers-IsBelow = subst (IsBelow 2) adds.0 (
    add_header-IsBelow plain one_header (block 2 1 1) one_header-IsTree one_header-IsLow
      (omega arith) one_header-IsBelow)

two_headers-IsTree : IsTree 1 two_headers
two_headers-IsTree = subst (IsTree 1) adds.0 (
    add_header-IsTree plain one_header (block 2 1 1) one_header-IsTree one_header-IsLow
      (omega arith))

two_headers-IsLow : IsLow two_headers
two_headers-IsLow = IsBelow-IsLow two_headers (omega arith) two_headers-IsBelow

forked-IsTree : IsTree 1 forked
forked-IsTree = subst (IsTree 1) adds.1 (
    add_header-IsTree plain two_headers (block 12 1 1) two_headers-IsTree two_headers-IsLow
      (omega arith))

forked-IsLow : IsLow forked
forked-IsLow = IsBelow-IsLow forked (omega arith) (
    subst (IsBelow 3) adds.1 (
      add_header-IsBelow plain two_headers (block 12 1 1) two_headers-IsTree two_headers-IsLow
        (omega arith) two_headers-IsBelow))

not_on_trunk : ¬ In 12 forked.trunk
not_on_trunk i = elim i [
  | inl e ↦ omega (arith, e)
  | inr (inl e) ↦ omega (arith, e)
  | inr (inr z) ↦ z
]

add_header-reorganises_example :
    let a : Added = record {
      cached = entry 13 12 2;
      unwinds = some (2 ∷ []);
      forwards = some (1 ∷ 13 ∷ []);
    } in
    IsReorganised forked 13 12 (add_header plain forked (block 13 12 1)).0 a
add_header-reorganises_example =
    add_header-reorganises plain forked (block 13 12 1) forked-IsTree forked-IsLow (omega arith)
      adds.2 (λ e. cc) not_on_trunk

abbrev twelve : HeaderCache
twelve = record {
  network = bitcoin;
  headers = [];
  trunk = 1 ∷ 2 ∷ 3 ∷ 4 ∷ 5 ∷ 6 ∷ 7 ∷ 8 ∷ 9 ∷ 10 ∷ 11 ∷ 12 ∷ [];
}

twelve-length : length (locator_hashes twelve) ≡ 12
unfolding locator_hashes locator_loop
twelve-length = refl

locator_hashes-IsShort_example :
    (take 10 (locator_hashes twelve) ≡ take 10 (reverse twelve.trunk))
    × ((a : ℕ) → In a (locator_hashes twelve) → In a twelve.trunk)
    × (10 + 2 ^ 1 ≤ length twelve.trunk)
locator_hashes-IsShort_example = locator_hashes-IsShort twelve 1 twelve-length

forked-HasGenesis : HasGenesis 1 forked
unfolding Map.get
forked-HasGenesis = record {
  genesis = λ e g. let q : genesis ≡ e = ground (arith, g) in rw (← q) refl;
  no_default = refl;
}

add_header-finishes_example : (add_header plain forked (block 13 12 1)).1 ≢ unfinished
add_header-finishes_example =
    add_header-finishes plain forked forked-IsTree forked-HasGenesis (block 13 12 1) forked-IsLow
      (omega arith)

abbrev heavy : CachedHeader
heavy = record { stored = record { header = block 13 1 9; height = 1; log2work = 10 }; id = 13 }

-- 13 follows 1 with much work, although 2 is the tip.
beside :
    (add_header plain two_headers (block 13 1 9)).1
    ≡ ok (some (record { cached = heavy; unwinds = none; forwards = some (13 ∷ []) }))
unfolding Map.get Map.insert add_header add_header_to_tree insert_genesis validated store_cached
    follow_path path_loop switch_trunk rposition position pos_on_trunk tip required_work
    interval_start scan_back is_some_of clamped_timespan retarget testnet_scan is_testnet target
    max_target spv_validate log2 exp2
beside = refl

two_headers-tip : tip two_headers ≡ some second
unfolding Map.get tip
two_headers-tip = refl

add_header-appends_example :
    let h = (add_header plain two_headers (block 13 1 9)).0 in
    let a : Added = record { cached = heavy; unwinds = none; forwards = some (13 ∷ []) } in
    (h.trunk ≡ two_headers.trunk ++ (13 ∷ []))
    × (a.unwinds ≡ none)
    × (a.forwards ≡ some (13 ∷ []))
    × (tip h ≡ some a.cached)
add_header-appends_example =
    add_header-appends plain two_headers (block 13 1 9) two_headers-IsTree two_headers-IsLow
      (omega arith) beside (inl refl) two_headers-tip refl

-- A second genesis with no work to speak of.
unknown_orphan : Map.get two_headers.headers 77 ≡ none
unfolding Map.get
unknown_orphan = refl

orphan-log2 : log2 plain 1 ≡ ok 1
unfolding log2
orphan-log2 = refl

add_header-usurps_example :
    let r = add_header plain two_headers (block 77 0 1) in
    let a : Added = record {
      cached = orphan plain (block 77 0 1) 1;
      unwinds = none;
      forwards = some (77 ∷ []);
    } in
    (r.1 ≡ ok (some a))
    × (r.0.trunk ≡ two_headers.trunk ++ (77 ∷ []))
    × (tip r.0 ≡ some (orphan plain (block 77 0 1) 1))
add_header-usurps_example =
    add_header-usurps plain two_headers (block 77 0 1) refl unknown_orphan orphan-log2
