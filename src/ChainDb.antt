-- ===== src/ChainDb.antt =====
-- `ChainDB` of src/chaindb.rs: the header cache with its copy on disk.
-- The database is the interface `Database`: what src/chaindb.rs calls of `hammersbald`. A failed call
-- may have changed it. The genesis block is an argument.
pub mod Restart
pub mod Durable
pub mod Sound
pub mod Reliable
pub mod Saving
pub mod Comeback
pub mod First
pub mod Runs
use murmel.Common.{
  ℕ, zero, suc, Bool, true, false, not, Option, none, some, List, [], ◌∷◌, ltb, nat_eq, length,
  if◌then◌else◌,
}
use murmel.External.{BlockHeader, External, Network, default}
use murmel.Outcome.{Outcome, Error, ok, err, panic, unfinished, no_tip, ◌>>=◌}
use murmel.Pow.{StoredHeader, CachedHeader}
use murmel.HeaderCache.{HeaderCache, add_header_unchecked, reverse_trunk, last}
use murmel.HeaderCache
use murmel.HeaderCache.Add.{Added}
use murmel.HeaderCache.Add

-- `put_hash_keyed`, `get_hash_keyed` of headers, and the same for the id under `HEADER_TIP_KEY`.
pub record Database (D : Type 0) : Type 0 where
  pub put_header : D → ℕ → StoredHeader → D × Outcome (Unit {0})
  pub get_header : D → ℕ → Outcome (Option StoredHeader)
  pub put_tip : D → ℕ → D × Outcome (Unit {0})
  pub get_tip : D → Outcome (Option ℕ)
  pub batch : D → D × Outcome (Unit {0})

pub record ChainDb (D : Type 0) : Type 0 where
  pub db : D
  pub headercache : HeaderCache
  pub network : Network

-- The stores that `mem` and `new` return once the database is open; a path is none if its name is no
-- UTF-8.
unfoldable pub mem : {D : Type 0} → Outcome D → Network → Outcome (ChainDb D)
mem transient network = do
  db ← transient
  ok (record { db = db; headercache = HeaderCache.new network; network = network })

unfoldable pub new :
    {P : Type 0} → {D : Type 0} → (P → Outcome D) → Option P → Network → Outcome (ChainDb D)
new persistent none network = panic
new persistent (some basename) network = do
  db ← persistent basename
  ok (record { db = db; headercache = HeaderCache.new network; network = network })

module _ {D : Type 0} (x : External) (base : Database D)
    (genesis_block : Network → BlockHeader) where
  -- Call the database, and go on if that succeeds.
  unfoldable pub then_db :
      {A : Type 0}
      → ChainDb D
      → D × Outcome (Unit {0})
      → (ChainDb D → ChainDb D × Outcome A)
      → ChainDb D × Outcome A
  then_db c (d, ok _) k = k (record c { db = d })
  then_db c (d, err e) k = (record c { db = d }, err e)
  then_db c (d, panic) k = (record c { db = d }, panic)
  then_db c (d, unfinished) k = (record c { db = d }, unfinished)

  -- `while let Some(stored) = self.fetch_header(&h)?`.
  unfoldable pub read_chain : ℕ → D → HeaderCache → ℕ → HeaderCache × Outcome (Unit {0})
  read_chain zero d c h = (c, unfinished)
  read_chain (suc fuel) d c h = elim (base.get_header d h) [
    | ok none ↦ (c, ok tt)
    | ok (some stored) ↦
        let c' = add_header_unchecked c h stored in
        elim (nat_eq stored.header.prev_blockhash default) [
          | true ↦ (c', ok tt)
          | false ↦ read_chain fuel d c' stored.header.prev_blockhash
        ]
    | err e ↦ (c, err e)
    | panic ↦ (c, panic)
    | unfinished ↦ (c, unfinished)
  ]

  unfoldable pub read_stored : ℕ → ChainDb D → ℕ → ChainDb D × Outcome (Unit {0})
  read_stored fuel c t =
      let (h, o) = read_chain fuel c.db c.headercache t in
      elim o [
        | ok _ ↦ (record c { headercache = reverse_trunk h }, ok tt)
        | err e ↦ (record c { headercache = h }, err e)
        | panic ↦ (record c { headercache = h }, panic)
        | unfinished ↦ (record c { headercache = h }, unfinished)
      ]

  unfoldable pub start_chain : ChainDb D → ChainDb D × Outcome (Unit {0})
  start_chain c =
      let (h, o) = Add.add_header x c.headercache (genesis_block c.network) in
      let c' = record c { headercache = h } in
      elim o [
        | ok none ↦ (c', err no_tip)
        | ok (some a) ↦
            then_db c' (base.put_header c'.db (x.bitcoin_hash a.cached.header) a.cached.stored)
              (λ c1. then_db c1 (base.batch c1.db) (λ c2.
                then_db c2 (base.put_tip c2.db (x.bitcoin_hash a.cached.header))
                  (λ c3. then_db c3 (base.batch c3.db) (λ c4. (c4, ok tt)))))
        | err e ↦ (c', err e)
        | panic ↦ (c', panic)
        | unfinished ↦ (c', unfinished)
      ]

  -- `init` and `init_headers`.
  unfoldable pub init_headers : ℕ → ChainDb D → ChainDb D × Outcome (Unit {0})
  init_headers fuel c = elim (base.get_tip c.db) [
    | ok (some t) ↦ read_stored fuel c t
    | ok none ↦ start_chain c
    | err e ↦ (c, err e)
    | panic ↦ (c, panic)
    | unfinished ↦ (c, unfinished)
  ]

  -- The tip is stored if there are forwards; its id is the last of them.
  unfoldable pub store_forwards :
      {A : Type 0}
      → ChainDb D
      → Option (List ℕ)
      → (ChainDb D → ChainDb D × Outcome A)
      → ChainDb D × Outcome A
  store_forwards c none k = k c
  store_forwards c (some ids) k = elim (last ids) [
    | none ↦ k c
    | some id ↦ then_db c (base.put_tip c.db id) k
  ]

  unfoldable pub add_header : ChainDb D → BlockHeader → ChainDb D × Outcome (Option Added)
  add_header c header =
      let (h, o) = Add.add_header x c.headercache header in
      let c' = record c { headercache = h } in
      elim o [
        | ok none ↦ (c', ok none)
        | ok (some a) ↦
            then_db c' (base.put_header c'.db (x.bitcoin_hash a.cached.header) a.cached.stored)
              (λ c1. store_forwards c1 a.forwards (λ c2. (c2, ok (some a))))
        | err e ↦ (c', err e)
        | panic ↦ (c', panic)
        | unfinished ↦ (c', unfinished)
      ]

  unfoldable pub batch : ChainDb D → ChainDb D × Outcome (Unit {0})
  batch c = then_db c (base.batch c.db) (λ d. (d, ok tt))

  -- The reads and the write of the database.
  unfoldable pub store_header_tip : ChainDb D → ℕ → ChainDb D × Outcome (Unit {0})
  store_header_tip c id = then_db c (base.put_tip c.db id) (λ d. (d, ok tt))

  unfoldable pub fetch_header_tip : ChainDb D → Outcome (Option ℕ)
  fetch_header_tip c = base.get_tip c.db

  unfoldable pub fetch_header : ChainDb D → ℕ → Outcome (Option StoredHeader)
  fetch_header c id = base.get_header c.db id

module _ {D : Type 0} where
  -- The reads of the cache.
  unfoldable pub pos_on_trunk : ChainDb D → ℕ → Option ℕ
  pos_on_trunk c hash = HeaderCache.pos_on_trunk c.headercache hash

  unfoldable pub iter_trunk : ChainDb D → ℕ → Outcome (List CachedHeader)
  iter_trunk c from = HeaderCache.iter_trunk c.headercache from

  unfoldable pub iter_trunk_rev : ChainDb D → Option ℕ → Outcome (List CachedHeader)
  iter_trunk_rev c from = HeaderCache.iter_trunk_rev c.headercache from

  unfoldable pub header_tip : ChainDb D → Option CachedHeader
  header_tip c = HeaderCache.tip c.headercache

  unfoldable pub get_header : ChainDb D → ℕ → Option CachedHeader
  get_header c id = HeaderCache.get_header c.headercache id

  unfoldable pub get_header_for_height : ChainDb D → ℕ → Outcome (Option CachedHeader)
  get_header_for_height c height = HeaderCache.get_header_for_height c.headercache height

  unfoldable pub header_locators : ChainDb D → List ℕ
  header_locators c = HeaderCache.locator_hashes c.headercache
