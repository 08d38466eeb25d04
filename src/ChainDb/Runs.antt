-- ===== src/ChainDb/Runs.antt =====
-- A database in memory, and a store on it that is started, extended and started again.
use murmel.Common.{
  ℕ, ◌≡◌, refl, ap, subst, ◌∙◌, inl, inr, Option, none, some, List, [], ◌∷◌, arith, nat_eq, ℕ-Eq,
  if◌then◌else◌, ==_cases, reverse,
}
use murmel.Common.Map
use murmel.Common.Map.{get-insert}
use murmel.External.{bitcoin}
use murmel.Outcome.{ok}
use murmel.Pow.{CachedHeader, StoredHeader, log2, exp2, target, max_target, spv_validate}
use murmel.HeaderCache.{HeaderCache, last, tip, pos_on_trunk}
use murmel.HeaderCache
use murmel.HeaderCache.Add.{
  Added, add_header_to_tree, insert_genesis, validated, store_cached, follow_path, path_loop,
  switch_trunk, rposition,
}
use murmel.HeaderCache.Add
use murmel.HeaderCache.Difficulty.{
  required_work, interval_start, scan_back, is_some_of, clamped_timespan, retarget, testnet_scan,
  is_testnet,
}
use murmel.HeaderCache.Chain.{IsLow}
use murmel.ChainDb.{
  Database, ChainDb, mem, then_db, store_forwards, start_chain, init_headers, add_header,
}
use murmel.ChainDb.Durable.{Lawful}
use murmel.ChainDb.Restart.{IsStored}
use murmel.ChainDb.Sound.{IsSound, add_header-IsSound}
use murmel.ChainDb.Comeback.{init_headers-tip}
use murmel.ChainDb.First.{init_headers-IsSound}
use murmel.Fixtures.{plain, block}

abbrev pub Disk : Type 0
Disk = List (ℕ × StoredHeader) × Option ℕ

abbrev pub memory : Database Disk
memory = record {
  put_header = λ d id s. ((Map.insert d.0 id s, d.1), ok tt);
  get_header = λ d id. ok (Map.get d.0 id);
  put_tip = λ d id. ((d.0, some id), ok tt);
  get_tip = λ d. ok d.1;
  batch = λ d. (d, ok tt);
}

memory-get_put :
    (d : Disk) (id : ℕ) (s : StoredHeader) (k : ℕ)
    → memory.get_header (memory.put_header d id s).0 k
      ≡ (if nat_eq id k then ok (some s) else memory.get_header d k)
memory-get_put d id s k = elim (==_cases id k) [
  | inl (b, p) ↦ ap (λ a. ok a) (get-insert d.0 id s k) ∙ (rw b refl)
  | inr (b, p) ↦ ap (λ a. ok a) (get-insert d.0 id s k) ∙ (rw b refl)
]

pub memory-Lawful : Lawful memory
memory-Lawful = record {
  get_put = λ d id s h k. memory-get_put d id s k;
  tip_put = λ d id s h. refl;
  get_tip_put = λ d id h. refl;
  get_header_put = λ d id h k. refl;
  get_header_batch = λ d h k. refl;
  get_tip_batch = λ d h. refl;
}

abbrev blank : ChainDb Disk
blank = record { db = ([], none); headercache = HeaderCache.new bitcoin; network = bitcoin }

abbrev pub genesis : CachedHeader
genesis = record { stored = record { header = block 1 0 1; height = 0; log2work = 1 }; id = 1 }

-- The store once it has started.
abbrev pub started : ChainDb Disk
started = record {
  db = ((1, genesis.stored) ∷ [], some 1);
  headercache = record { network = bitcoin; headers = (1, genesis) ∷ []; trunk = 1 ∷ [] };
  network = bitcoin;
}

starts : init_headers plain memory (λ n. block 1 0 1) 0 blank ≡ (started, ok tt)
unfolding HeaderCache.new Map.get Map.insert init_headers start_chain then_db Add.add_header
    insert_genesis log2
starts = refl

blank-opened : mem {D = Disk} (ok ([], none)) bitcoin ≡ ok blank
unfolding mem
blank-opened = refl

init_headers-IsSound_example :
    IsSound memory 1 (init_headers plain memory (λ n. block 1 0 1) 0 blank).0
init_headers-IsSound_example =
    init_headers-IsSound plain memory (λ n. block 1 0 1) memory-Lawful {P = ℕ} 0 (ok ([], none))
      (λ p. ok ([], none)) none bitcoin blank (inl blank-opened) refl refl (omega arith)
      (ap (λ r. r.1) starts)

pub started-IsSound : IsSound memory 1 started
started-IsSound =
    subst (λ c. IsSound memory 1 c) (ap (λ r. r.0) starts)
      (init_headers-IsSound plain memory (λ n. block 1 0 1) memory-Lawful {P = ℕ} 0 (ok ([], none))
        (λ p. ok ([], none)) none bitcoin blank (inl blank-opened) refl refl (omega arith)
        (ap (λ r. r.1) starts))

started-IsLow : IsLow started.headercache
unfolding Map.get
started-IsLow k e g = let q : genesis ≡ e = ground (arith, g) in rw (← q) (omega arith)

abbrev pub second : CachedHeader
second = record { stored = record { header = block 2 1 1; height = 1; log2work = 2 }; id = 2 }

-- The store with one more header.
abbrev pub extended : ChainDb Disk
extended = record {
  db = ((1, genesis.stored) ∷ (2, second.stored) ∷ [], some 2);
  headercache = record {
    network = bitcoin;
    headers = (1, genesis) ∷ (2, second) ∷ [];
    trunk = 1 ∷ 2 ∷ [];
  };
  network = bitcoin;
}

pub extends :
    add_header plain memory (λ n. block 1 0 1) started (block 2 1 1)
    ≡ (extended, ok (some (record { cached = second; unwinds = none; forwards = some (2 ∷ []) })))
unfolding Map.get Map.insert add_header then_db store_forwards last Add.add_header
    add_header_to_tree insert_genesis validated store_cached follow_path path_loop switch_trunk
    rposition pos_on_trunk tip required_work interval_start scan_back is_some_of clamped_timespan
    retarget testnet_scan is_testnet target max_target spv_validate log2 exp2
extends = refl

add_header-IsSound_example :
    IsSound memory 1 (add_header plain memory (λ n. block 1 0 1) started (block 2 1 1)).0
add_header-IsSound_example =
    add_header-IsSound plain memory (λ n. block 1 0 1) memory-Lawful started (block 2 1 1)
      started-IsLow (omega arith) (omega arith) (ap (λ r. r.1) extends) started-IsSound

extended-IsSound : IsSound memory 1 extended
extended-IsSound =
    subst (λ c. IsSound memory 1 c) (ap (λ r. r.0) extends)
      (add_header-IsSound plain memory (λ n. block 1 0 1) memory-Lawful started (block 2 1 1)
        started-IsLow (omega arith) (omega arith) (ap (λ r. r.1) extends) started-IsSound)

pub extended-tip : tip extended.headercache ≡ some second
unfolding Map.get tip
extended-tip = refl

-- The store that is opened again on the disk that the first has left.
abbrev reopened : ChainDb Disk
reopened = record { db = extended.db; headercache = HeaderCache.new bitcoin; network = bitcoin }

reopened-empty : reopened.headercache.trunk ≡ []
unfolding HeaderCache.new
reopened-empty = refl

init_headers-tip_example :
    let (r, o) = init_headers plain memory (λ n. block 1 0 1) 2 reopened in
    (id : ℕ) × (ids : List ℕ) × (o ≡ ok tt)
    × IsStored memory extended.db id ids
    × (r.headercache.trunk ≡ reverse ids)
    × (last r.headercache.trunk ≡ some id)
    × (last extended.headercache.trunk ≡ some id)
init_headers-tip_example =
    init_headers-tip plain memory (λ n. block 1 0 1) 2 extended reopened extended-IsSound refl
      reopened-empty extended-tip (omega arith)
