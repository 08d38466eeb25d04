-- ===== src/HeaderDownload/RestartTests.antt =====
-- A restart after a peer has sent a header that follows the genesis header, on a database whose puts are
-- permanent after a batch.
use murmel.Common.{ℕ, ◌≡◌, refl, some, List, [], inl, inr, In, arith, reverse}
use murmel.External.{BlockHeader, bitcoin}
use murmel.Outcome.{ok}
use murmel.HeaderCache.{last}
use murmel.HeaderCache
use murmel.ChainDb.{Database, ChainDb, init_headers}
use murmel.ChainDb.Runs.{Disk, memory, memory-Lawful, started, started-IsSound}
use murmel.ChainDb.Durable.{Lawful}
use murmel.ChainDb.Restart.{IsStored}
use murmel.ChainDb.Sound.{IsSound}
use murmel.ChainDb.Reliable.{IsReliable}
use murmel.ChainDb.Saving.{IsSaving}
use murmel.HeaderDownload.{HeaderDownload, header_connected, run}
use murmel.HeaderDownload.Restart.{IsSafe, IsPermanent, run-restarts}
use murmel.HeaderDownload.Tests.{synced, synced-IsSteady, events}
use murmel.Fixtures.{plain, block}

-- What is written, and what is permanent.
abbrev Journal : Type 0
Journal = Disk × Disk

abbrev journal : Database Journal
journal = record {
  put_header = λ d id s. (((memory.put_header d.0 id s).0, d.1), ok tt);
  get_header = λ d id. memory.get_header d.0 id;
  put_tip = λ d id. (((memory.put_tip d.0 id).0, d.1), ok tt);
  get_tip = λ d. memory.get_tip d.0;
  batch = λ d. ((d.0, d.0), ok tt);
}

abbrev kept : Journal → Journal
kept d = (d.1, d.1)

journal-Lawful : Lawful journal
journal-Lawful = record {
  get_put = λ d id s h k. memory-Lawful.get_put d.0 id s refl k;
  tip_put = λ d id s h. refl;
  get_tip_put = λ d id h. refl;
  get_header_put = λ d id h k. refl;
  get_header_batch = λ d h k. refl;
  get_tip_batch = λ d h. refl;
}

journal-IsReliable : IsReliable journal
journal-IsReliable = record {
  put_header_ok = λ d id s. refl;
  put_tip_ok = λ d id. refl;
  batch_ok = λ d. refl;
}

journal-IsSaving : IsSaving journal kept
journal-IsSaving = record {
  put_header_pends = λ d id s. refl;
  put_tip_pends = λ d id. refl;
  batch_saves_headers = λ d h k. refl;
  batch_saves_tip = λ d h. refl;
}

abbrev opened : ChainDb Journal
opened = record {
  db = (started.db, started.db);
  headercache = started.headercache;
  network = bitcoin;
}

opened-IsSound : IsSound journal 1 opened
opened-IsSound = record {
  tree = started-IsSound.tree;
  genesis = started-IsSound.genesis;
  durable = record {
    headers = λ k e m. started-IsSound.durable.headers k e m;
    tip = started-IsSound.durable.tip;
  };
}

abbrev journaled : HeaderDownload Journal
journaled = record {
  chaindb = opened;
  timeout = synced.timeout;
  versions = synced.versions;
  controls = [];
  downstream = [];
}

journaled-IsSafe :
    IsSafe plain journal
      (λ n. block 1 0 1)
      journal-Lawful
      journal-IsReliable
      kept
      journal-IsSaving
      1
      1
      opened
      []
journaled-IsSafe = record {
  ready = (opened-IsSound, synced-IsSteady.good.below);
  at = opened;
  is_saved = refl;
  at_ready = (opened-IsSound, synced-IsSteady.good.below);
  told = λ h m i. absurd i;
  permanent = λ h m i. absurd i;
}

abbrev stopped : HeaderDownload Journal
stopped = run plain journal (λ n. block 1 0 1) journaled events

abbrev restarted : ChainDb Journal
restarted = record {
  db = kept stopped.chaindb.db;
  headercache = HeaderCache.new bitcoin;
  network = bitcoin;
}

restarted-empty : restarted.headercache.trunk ≡ []
unfolding HeaderCache.new
restarted-empty = refl

run-restarts_example :
    let (c, o) = init_headers plain journal (λ n. block 1 0 1) 2 restarted in
    ((h : BlockHeader)
      → (m : ℕ) → In (header_connected h m) stopped.downstream
      → IsPermanent plain journal
          (λ n. block 1 0 1)
          journal-Lawful
          journal-IsReliable
          kept
          journal-IsSaving
          1
          stopped.chaindb.db
          h
          m)
    × IsSound journal 1 stopped.chaindb
    × ((at : ChainDb Journal) × (id : ℕ) × (ids : List ℕ) × (o ≡ ok tt)
        × (at.db ≡ restarted.db)
        × IsSound journal 1 at
        × IsStored journal at.db id ids
        × (c.headercache.trunk ≡ reverse ids)
        × (last c.headercache.trunk ≡ some id)
        × (last at.headercache.trunk ≡ some id))
run-restarts_example =
    run-restarts plain journal (λ n. block 1 0 1) journal-Lawful journal-IsReliable kept
      journal-IsSaving 1 1 2 journaled events restarted
      (λ h i. elim i [ inl e ↦ rw (← e) (omega arith, omega arith) | inr z ↦ absurd z ])
      (omega arith) (omega arith) journaled-IsSafe refl restarted-empty
