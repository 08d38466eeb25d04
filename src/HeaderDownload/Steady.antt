-- ===== src/HeaderDownload/Steady.antt =====
-- What holds of `HeaderDownload` of src/headerdownload.rs after every message and pause.
use murmel.Common.{◌≢◌, ◌++◌, ℕ, ◌≤◌, ◌≡◌, refl, List, [], ◌∷◌, inl, inr, In, In-append_cases, ℕ-Eq}
use murmel.External.{BlockHeader, External, Network, IsStrict}
use murmel.HeaderCache.{HeaderCache}
use murmel.HeaderCache.Bounds.{IsBelow-weaken, IsKnown}
use murmel.ChainDb.{Database, ChainDb, then_db}
use murmel.ChainDb
use murmel.ChainDb.Sound.{then_db-headercache}
use murmel.HeaderDownload.{Notice, HeaderDownload, header_connected, disconnections, connections}
use murmel.HeaderDownload.Stored.{IsGood, stored-IsGood, stored-keeps, stored-IsKnown}
use murmel.HeaderDownload.Preserves.{IsKept}

IsGood-weaken :
    (x : External) (root : ℕ) {n m : ℕ} (c : HeaderCache)
    → n ≤ m
    → IsGood x root n c
    → IsGood x root m c
IsGood-weaken x root c l g = record {
  tree = g.tree;
  most = g.most;
  below = IsBelow-weaken c l g.below;
}

-- A header that does not claim to be a genesis.
abbrev pub HasParent : BlockHeader → Type 0
HasParent h = h.prev_blockhash ≢ 0

abbrev pub KnownIn : {D : Type 0} → External → ChainDb D → BlockHeader → ℕ → Type 0
KnownIn x c h m = IsKnown x c.headercache h m

module _ {D : Type 0} (x : External) (root : ℕ) where
  -- The store is good, and each header that was told as connected is known at its height.
  pub record IsSteady (n : ℕ) (s : HeaderDownload D) : Type 0 where
    pub good : IsGood x root n s.chaindb.headercache
    pub told :
        (h : BlockHeader) (m : ℕ)
        → In (header_connected h m) s.downstream
        → IsKnown x s.chaindb.headercache h m

  -- The same of a store and a log.
  pub record IsSteadyAt (n : ℕ) (c : ChainDb D) (log : List Notice) : Type 0 where
    pub good : IsGood x root n c.headercache
    pub told :
        (h : BlockHeader) (m : ℕ) → In (header_connected h m) log → IsKnown x c.headercache h m

module _ {D : Type 0} (x : External) (base : Database D)
    (genesis_block : Network → BlockHeader) where
  pub batch-headercache :
      (c : ChainDb D) → (ChainDb.batch x base genesis_block c).0.headercache ≡ c.headercache
  unfolding ChainDb.batch
  batch-headercache c = then_db-headercache x base genesis_block c (base.batch c.db) _ (λ d. refl)

  In-disconnections :
      (h : BlockHeader) (m : ℕ) (gone : List BlockHeader)
      → ¬ In (header_connected h m) (disconnections x base genesis_block gone)
  unfolding disconnections
  In-disconnections h m [] i = i
  In-disconnections h m (g ∷ gs) (inl e) = cc
  In-disconnections h m (g ∷ gs) (inr i) = In-disconnections h m gs i

  In-connections :
      (h : BlockHeader) (m : ℕ) (told : List (BlockHeader × ℕ))
      → In (header_connected h m) (connections x base genesis_block told)
      → In (h, m) told
  unfolding connections
  In-connections h m [] i = i
  In-connections h m ((g, k) ∷ ts) (inl e) = inl (cc)
  In-connections h m ((g, k) ∷ ts) (inr i) = inr (In-connections h m ts i)

  -- What is told after a batch was told before, or is new.
  pub told_or_new :
      (Known : ChainDb D → BlockHeader → ℕ → Type 0) (c : ChainDb D) (log : List Notice)
      (gone : List BlockHeader) (told : List (BlockHeader × ℕ))
      → ((h : BlockHeader) → (m : ℕ) → In (header_connected h m) log → Known c h m)
      → ((h : BlockHeader) → (m : ℕ) → In (h, m) told → Known c h m)
      → (h : BlockHeader) → (m : ℕ)
      → In (header_connected h m) (
          log
          ++ (disconnections x base genesis_block gone ++ connections x base genesis_block told))
      → Known c h m
  told_or_new Known c log gone told old new h m j =
      elim (In-append_cases (header_connected h m) log _ j) [
        | inl o ↦ old h m o
        | inr o ↦
            elim (In-append_cases (header_connected h m) (disconnections x base genesis_block gone)
              _ o) [
                | inl z ↦ absurd (In-disconnections h m gone z)
                | inr y ↦ new h m (In-connections h m told y)
              ]
      ]

  module _ (f : IsStrict x.float) (root : ℕ) where
    pub IsSteadyAt-IsKept : IsKept x base genesis_block HasParent (KnownIn x) (IsSteadyAt x root)
    IsSteadyAt-IsKept = record {
      weaken = λ n m c log l i. record {
        good = IsGood-weaken x root c.headercache l i.good;
        told = i.told;
      };
      adds = λ n c log h nz l i. record {
        good = stored-IsGood x base genesis_block root n c h nz l i.good f;
        told = λ k m j. stored-keeps x base genesis_block root n c h nz l i.good k m (i.told k m j);
      };
      knows = λ n c log h a nz l i o. stored-IsKnown x base genesis_block root n c h nz l i.good o;
      remembers =
          λ n c log h k m nz l i t. stored-keeps x base genesis_block root n c h nz l i.good k m t;
      batches = λ n c log i. record {
        good = rw (batch-headercache c) i.good;
        told = λ h m j. rw (batch-headercache c) (i.told h m j);
      };
      tells = λ n c log gone told i t o. record {
        good = rw (batch-headercache c) i.good;
        told = λ h m j.
            rw (batch-headercache c) (told_or_new (KnownIn x) c log gone told i.told t h m j);
      };
    }
