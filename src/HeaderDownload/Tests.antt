-- ===== src/HeaderDownload/Tests.antt =====
-- Runs of the header download at small inputs.
use murmel.Common.{ℕ, ◌≡◌, refl, inl, inr, some, List, true, ◌≢◌, ℕ-Eq, [], ◌∷◌, arith}
use murmel.Outcome.{unfinished}
use murmel.Network.{PeerId}
use murmel.ChainDb.Runs.{Disk, memory, genesis, started, started-IsSound}
use murmel.Common.Map
use murmel.Network
use murmel.Network.{VersionCarrier}
use murmel.Messages
use murmel.Pow.{CachedHeader}
use murmel.HeaderCache.{tip}
use murmel.HeaderCache.Work.{HasMostWork}
use murmel.HeaderDownload.Steady.{IsSteady}
use murmel.HeaderDownload.Runs.{run-IsSteady}
use murmel.HeaderDownload.{HeaderDownload, Event, message, pause, headers, run}
use murmel.HeaderDownload.Headers.{Answers, headers-finishes}
use murmel.Fixtures.{plain, block, whole_floats-IsStrict}

abbrev pid : PeerId
pid = record { network = "bitcoin"; token = 3 }

-- A peer that serves blocks sends a header that follows the genesis header, and is then silent.
abbrev pub serving : VersionCarrier
serving = record {
  version = 70001;
  services = 1;
  timestamp = 0;
  receiver = 0;
  sender = 0;
  nonce = 7;
  start_height = 1;
  user_agent = "";
  relay = true;
}

abbrev pub synced : HeaderDownload Disk
synced = record {
  chaindb = started;
  timeout = record { timeouts = []; expected = [] };
  versions = (pid, serving) ∷ [];
  controls = [];
  downstream = [];
}

abbrev pub events : List Event
events = message 5 (Network.incoming pid (Messages.headers (block 2 1 1 ∷ []))) ∷ pause 6 ∷ []

get-started :
    (k : ℕ) (e : CachedHeader) → Map.get synced.chaindb.headercache.headers k ≡ some e → genesis ≡ e
unfolding Map.get
get-started k e g = ground (arith, g)

synced-HasMostWork : HasMostWork plain synced.chaindb.headercache
unfolding Map.get tip
synced-HasMostWork = record {
  best = genesis;
  is_tip = refl;
  most = λ k e g. rw (← get-started k e g) refl;
}

pub synced-IsSteady : IsSteady plain 1 1 synced
synced-IsSteady = record {
  good = record {
    tree = started-IsSound.tree;
    most = synced-HasMostWork;
    below = λ k e g. rw (← get-started k e g) (omega arith);
  };
  told = λ h m i. absurd i;
}

run-IsSteady_example : IsSteady plain 1 2 (run plain memory (λ n. block 1 0 1) synced events)
run-IsSteady_example =
    run-IsSteady plain memory (λ n. block 1 0 1) whole_floats-IsStrict 1 1 synced events
      (λ h i. elim i [ inl e ↦ rw (← e) (omega arith) | inr z ↦ absurd z ]) (omega arith)
      synced-IsSteady

memory-Answers : Answers memory
memory-Answers = record {
  put_header_ends = λ d id s h. cc;
  put_tip_ends = λ d id h. cc;
  batch_ends = λ d h. cc;
}

headers-finishes_example :
    (headers plain memory (λ n. block 1 0 1) synced 5 (block 2 1 1 ∷ block 3 2 1 ∷ []) pid).1
    ≢ unfinished
headers-finishes_example =
    headers-finishes plain memory (λ n. block 1 0 1) memory-Answers 1 1 synced 5
      (block 2 1 1 ∷ block 3 2 1 ∷ []) pid
      (λ h i. elim i [
        | inl e ↦ rw (← e) (omega arith, omega arith)
        | inr (inl e) ↦ rw (← e) (omega arith, omega arith)
        | inr (inr z) ↦ absurd z
      ])
      (omega arith) (started-IsSound.tree, started-IsSound.genesis, synced-IsSteady.good.below)
