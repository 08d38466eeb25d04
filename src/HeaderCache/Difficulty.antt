-- ===== src/HeaderCache/Difficulty.antt =====
-- The target that `add_header_to_tree` of src/headercache.rs requires of the next header.
use murmel.Common.{
  ℕ, zero, suc, ◌+◌, ◌-◌, ◌*◌, ◌/◌, ◌%◌, ◌^◌, Bool, true, false, not, ◌&&◌, Option, none, some,
  length, get_elem?, ltb, nat_eq, if◌then◌else◌, ℕ-Eq,
}
use murmel.Common.Map
use murmel.External.{BlockHeader, External, Network, testnet, default, bitcoin, regtest}
use murmel.Outcome.{Outcome, ok, err, panic, unfinished, unconnected_header, ◌>>=◌}
use murmel.Pow.{CachedHeader, unwrap, target, max_target, satoshi_the_precision}
use murmel.HeaderCache.{HeaderCache, tip_hash}

abbrev pub diffchange_interval : ℕ
diffchange_interval = 2016

abbrev pub diffchange_timespan : ℕ
diffchange_timespan = 14 * 24 * 3600

abbrev pub target_block_spacing : ℕ
target_block_spacing = 600

unfoldable pub is_testnet : Network → Bool
is_testnet testnet = true
is_testnet bitcoin = false
is_testnet regtest = false

-- `for _ in 0 .. n`: `n` parents back.
unfoldable pub scan_back : HeaderCache → ℕ → CachedHeader → Outcome CachedHeader
scan_back c zero scan = ok scan
scan_back c (suc n) scan = elim (Map.get c.headers scan.header.prev_blockhash) [
  | none ↦ err unconnected_header
  | some header ↦ scan_back c n header
]

unfoldable pub is_some_of : Option ℕ → ℕ → Bool
is_some_of none h = false
is_some_of (some k) h = nat_eq k h

-- The first header of the interval that `prev` ends. `len - 2016 - 2` underflows on a short trunk.
unfoldable pub interval_start : HeaderCache → CachedHeader → Outcome CachedHeader
interval_start c prev =
    if is_some_of (tip_hash c) prev.header.prev_blockhash
    then (if ltb (length c.trunk) (diffchange_interval + 2) then panic else (do
      id ← unwrap (get_elem? c.trunk (length c.trunk - diffchange_interval - 2))
      unwrap (Map.get c.headers id)))
    else scan_back c (diffchange_interval - 1) prev

-- `u32` subtraction wraps in the release build.
unfoldable pub clamped_timespan : ℕ → ℕ → ℕ
clamped_timespan last first =
    let n = (last + 2 ^ 32 - first) % 2 ^ 32 in
    if ltb n (diffchange_timespan / 4)
    then diffchange_timespan / 4
    else (if ltb (diffchange_timespan * 4) n then diffchange_timespan * 4 else n)

module _ (x : External) where
  open x use {uint}

  unfoldable pub retarget : CachedHeader → ℕ → Outcome ℕ
  retarget prev timespan = do
    t ← target x prev
    span ← unwrap (uint.from_u64 diffchange_timespan)
    max ← max_target x
    let scaled = uint.div (uint.mul_u32 t timespan) span
    ok (satoshi_the_precision x (if ltb max scaled then max else scaled))

  -- The backward scan on Testnet, past headers that the twenty-minute rule allowed.
  unfoldable pub testnet_scan : ℕ → HeaderCache → ℕ → CachedHeader → ℕ → Outcome CachedHeader
  testnet_scan zero c max scan height = unfinished
  testnet_scan (suc fuel) c max scan height = target x scan >>= λ t.
      elim (not (nat_eq (height % diffchange_interval) 0)
        && not (nat_eq scan.header.prev_blockhash default)
        && nat_eq t max) [
          | false ↦ ok scan
          | true ↦ elim (Map.get c.headers scan.header.prev_blockhash) [
            | none ↦ err unconnected_header
            | some header ↦ testnet_scan fuel c max header header.height
          ]
        ]

  -- `required_work`. One interval of rounds is enough for the scan.
  unfoldable pub required_work : HeaderCache → CachedHeader → BlockHeader → Outcome ℕ
  required_work c prev next =
      if nat_eq ((prev.height + 1) % 2 ^ 32 % diffchange_interval) 0
      then (do
        scan ← interval_start c prev
        retarget prev (clamped_timespan prev.header.time scan.header.time))
      else (if is_testnet c.network
          then (if ltb ((prev.header.time + 2 * target_block_spacing) % 2 ^ 32) next.time
              then max_target x
              else (do
                max ← max_target x
                scan ← testnet_scan diffchange_interval c max prev prev.height
                target x scan))
          else target x prev)
