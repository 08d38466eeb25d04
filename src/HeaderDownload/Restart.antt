-- ===== src/HeaderDownload/Restart.antt =====
-- A restart of the program on what the database has made permanent when `HeaderDownload` of
-- src/headerdownload.rs is stopped.
use murmel.Common.{
  ℕ, suc, ◌+◌, ◌^◌, ◌≤◌, ◌<◌, ◌≡◌, ◌≢◌, refl, sym, ◌∙◌, List, [], length, arith, In, some, reverse,
  ℕ-Eq,
}
use murmel.External.{BlockHeader, External, Network, default}
use murmel.Outcome.{ok}
use murmel.Pow.{StoredHeader}
use murmel.HeaderCache.{last}
use murmel.HeaderCache.Add
use murmel.HeaderCache.Bounds.{
  IsBelow, IsBelow-IsLow, IsBelow-weaken, IsKnown, add_header-IsBelow, add_header-Grows,
  add_header-IsKnown,
}
use murmel.HeaderCache.Store.{tip_known, tip_of_last}
use murmel.ChainDb.{Database, ChainDb, init_headers, then_db, store_forwards}
use murmel.ChainDb
use murmel.ChainDb.Durable.{Lawful}
use murmel.ChainDb.Restart.{IsStored}
use murmel.ChainDb.Sound.{IsSound, add_header-headercache, add_header-result}
use murmel.ChainDb.Reliable.{IsReliable, add_header-settles, batch-IsSound}
use murmel.ChainDb.Comeback.{init_headers-tip}
use murmel.ChainDb.Saving.{IsSaving, add_header-pends}
use murmel.HeaderDownload.{HeaderDownload, Notice, Event, header_connected, run}
use murmel.HeaderDownload.Stored.{IsKnown-Grows}
use murmel.HeaderDownload.Steady.{batch-headercache, told_or_new}
use murmel.HeaderDownload.Preserves.{IsKept, all_claimed, run-Holds}

module _ {D : Type 0} (x : External) (base : Database D) (genesis_block : Network → BlockHeader)
    (l : Lawful base) (u : IsReliable base) (saved : D → D) (w : IsSaving base saved)
    (root : ℕ) where
  -- The store is sound, with heights below the bound.
  abbrev pub IsReady : ℕ → ChainDb D → Type 0
  IsReady n c = IsSound base root c × IsBelow n c.headercache

  -- A header that does not claim to be a genesis, and whose id is not zero.
  abbrev pub Fits : BlockHeader → Type 0
  Fits h = (h.prev_blockhash ≢ default) × (x.bitcoin_hash h ≢ default)

  -- The header can be read at its height from what is permanent.
  abbrev pub IsPermanent : D → BlockHeader → ℕ → Type 0
  IsPermanent d h m =
      (e : StoredHeader) × (base.get_header (saved d) (x.bitcoin_hash h) ≡ ok (some e))
      × (e.header ≡ h)
      × (e.height ≡ m)

  abbrev Known : ChainDb D → BlockHeader → ℕ → Type 0
  Known c h m = IsKnown x c.headercache h m

  -- The store is sound; what is permanent is the database of a sound store; and each header that was
  -- told as connected is known and permanent.
  pub record IsSafe (n : ℕ) (c : ChainDb D) (log : List Notice) : Type 0 where
    pub ready : IsReady n c
    pub at : ChainDb D
    pub is_saved : at.db ≡ saved c.db
    pub at_ready : IsReady n at
    pub told : (h : BlockHeader) (m : ℕ) → In (header_connected h m) log → Known c h m
    pub permanent : (h : BlockHeader) (m : ℕ) → In (header_connected h m) log → IsPermanent c.db h m

  remembers-Known :
      (n : ℕ) (c : ChainDb D) (h g : BlockHeader) (m : ℕ)
      → Fits h
      → n < 2 ^ 32
      → IsReady n c
      → Known c g m
      → Known (ChainDb.add_header x base genesis_block c h).0 g m
  remembers-Known n c h g m f b i k = rw (add_header-headercache x base genesis_block c h) (
      IsKnown-Grows x c.headercache (Add.add_header x c.headercache h).0 g m
        (add_header-Grows x c.headercache h i.0.tree (IsBelow-IsLow c.headercache b i.1) f.0) k)

  adds-IsReady :
      (n : ℕ) (c : ChainDb D) (h : BlockHeader)
      → Fits h
      → n < 2 ^ 32
      → IsReady n c
      → IsReady (suc n) (ChainDb.add_header x base genesis_block c h).0
  adds-IsReady n c h f b i =
      let low = IsBelow-IsLow c.headercache b i.1 in
      (
        add_header-settles x base genesis_block u l c h low f.0 f.1 i.0,
        rw (add_header-headercache x base genesis_block c h)
            (add_header-IsBelow x c.headercache h i.0.tree low f.0 i.1),
      )

  module _ (n : ℕ) (c : ChainDb D) (i : IsReady n c) where
    batch_ok : (ChainDb.batch x base genesis_block c).1 ≡ ok tt
    unfolding ChainDb.batch then_db
    batch_ok = rw (u.batch_ok c.db, then_db) refl

    batched_db : (ChainDb.batch x base genesis_block c).0.db ≡ (base.batch c.db).0
    unfolding ChainDb.batch then_db
    batched_db = rw (u.batch_ok c.db, then_db) refl

    -- The store as a batch has made it permanent.
    abbrev at_batch : ChainDb D
    at_batch = record c { db = saved (ChainDb.batch x base genesis_block c).0.db }

    at_batch-IsReady : IsReady n at_batch
    at_batch-IsReady = rw batched_db (
      record {
        tree = i.0.tree;
        genesis = i.0.genesis;
        durable = record {
          headers =
              λ k e m. w.batch_saves_headers c.db (u.batch_ok c.db) k ∙ i.0.durable.headers k e m;
          tip = w.batch_saves_tip c.db (u.batch_ok c.db) ∙ i.0.durable.tip;
        };
      },
      i.1,
    )

    Known-IsPermanent :
        (h : BlockHeader) (m : ℕ)
        → Known c h m
        → IsPermanent (ChainDb.batch x base genesis_block c).0.db h m
    Known-IsPermanent h m (e, g, p, q) =
        (e.stored, at_batch-IsReady.0.durable.headers (x.bitcoin_hash h) e g, p, q)

    batch-IsReady : IsReady n (ChainDb.batch x base genesis_block c).0
    batch-IsReady = (
      batch-IsSound x base genesis_block u l c i.0,
      rw (batch-headercache x base genesis_block c) i.1,
    )

    -- All that is known is permanent after a batch, and it may be told.
    batch-IsSafe :
        (log : List Notice)
        → ((h : BlockHeader) → (m : ℕ) → In (header_connected h m) log → Known c h m)
        → IsSafe n (ChainDb.batch x base genesis_block c).0 log
    batch-IsSafe log k = record {
      ready = batch-IsReady;
      at = at_batch;
      is_saved = refl;
      at_ready = at_batch-IsReady;
      told = λ h m j. rw (batch-headercache x base genesis_block c) (k h m j);
      permanent = λ h m j. Known-IsPermanent h m (k h m j);
    }

  IsSafe-IsKept : IsKept x base genesis_block Fits Known IsSafe
  IsSafe-IsKept = record {
    weaken = λ n m c log o i. record {
      ready = (i.ready.0, IsBelow-weaken c.headercache o i.ready.1);
      at = i.at;
      is_saved = i.is_saved;
      at_ready = (i.at_ready.0, IsBelow-weaken i.at.headercache o i.at_ready.1);
      told = i.told;
      permanent = i.permanent;
    };
    adds = λ n c log h f b i.
        let same = add_header-pends x base genesis_block saved w c h in
        record {
          ready = adds-IsReady n c h f b i.ready;
          at = i.at;
          is_saved = i.is_saved ∙ sym same;
          at_ready = (i.at_ready.0, IsBelow-weaken i.at.headercache (omega arith) i.at_ready.1);
          told = λ g m j. remembers-Known n c h g m f b i.ready (i.told g m j);
          permanent = λ g m j. rw same (i.permanent g m j);
        };
    knows = λ n c log h a f b i o. rw (add_header-headercache x base genesis_block c h) (
        add_header-IsKnown x c.headercache h i.ready.0.tree
          (IsBelow-IsLow c.headercache b i.ready.1) f.0
          (add_header-result x base genesis_block c h o));
    remembers = λ n c log h g m f b i t. remembers-Known n c h g m f b i.ready t;
    batches = λ n c log i. batch-IsSafe n c i.ready log i.told;
    tells = λ n c log gone told i t o.
        batch-IsSafe n c i.ready _
          (told_or_new x base genesis_block Known c log gone told i.told t);
  }

  -- After any messages and pauses each header that `Downstream` was told of as connected can be read, at
  -- the height that was told, from what the database has made permanent, although each put is lost that
  -- no batch has followed. A restart on what is permanent succeeds: its trunk is the stored chain from the
  -- root to the stored tip, the database of a sound store. This holds if it did before, with heights
  -- below n; if no received header claims to be a genesis or has the id zero; if n and the number of
  -- received headers together are below 2^32 and not above the turns of the loop that reads the chain;
  -- and if the database keeps what is put into it, makes it permanent with a batch, and does not fail.
  pub run-restarts :
      (n fuel : ℕ) (s : HeaderDownload D) (es : List Event) (closed : ChainDb D)
      → ((h : BlockHeader) → In h (all_claimed es) → Fits h)
      → n + length (all_claimed es) < 2 ^ 32
      → n + length (all_claimed es) ≤ fuel
      → IsSafe n s.chaindb s.downstream
      → let r = run x base genesis_block s es in
        closed.db ≡ saved r.chaindb.db
        → closed.headercache.trunk ≡ []
        → let (c, o) = init_headers x base genesis_block fuel closed in
          ((h : BlockHeader)
            → (m : ℕ) → In (header_connected h m) r.downstream
            → IsPermanent r.chaindb.db h m)
          × IsSound base root r.chaindb
          × ((at : ChainDb D) × (id : ℕ) × (ids : List ℕ) × (o ≡ ok tt)
              × (at.db ≡ closed.db)
              × IsSound base root at
              × IsStored base at.db id ids
              × (c.headercache.trunk ≡ reverse ids)
              × (last c.headercache.trunk ≡ some id)
              × (last at.headercache.trunk ≡ some id))
  run-restarts n fuel s es closed p b v i d z =
      let r = run x base genesis_block s es in
      let safe =
        run-Holds x base genesis_block Fits Known IsSafe IsSafe-IsKept n
          (n + length (all_claimed es)) s es p (omega arith) b i in
      let at = safe.at in
      let (k, e, t, m) = tip_known at.headercache safe.at_ready.0.tree in
      let same : closed.db ≡ at.db = d ∙ sym safe.is_saved in
      let (id, ids, o, stored, trunk, new_tip, old_tip) =
        init_headers-tip x base genesis_block fuel at closed safe.at_ready.0 same z
          (tip_of_last at.headercache k e t m) (omega (arith, safe.at_ready.1 k e m, v)) in
      (
        safe.permanent,
        safe.ready.0,
        (at, id, ids, o, sym same, safe.at_ready.0, stored, trunk, new_tip, old_tip),
      )
