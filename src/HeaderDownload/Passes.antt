-- ===== src/HeaderDownload/Passes.antt =====
-- The inner loop of `headers` in src/headerdownload.rs on headers that follow the tip.
use murmel.Common.{
  ℕ, suc, ◌+◌, ◌^◌, ◌<◌, ◌≡◌, refl, ap, sym, ◌∙◌, true, false, none, some, List, [], ◌∷◌, ◌++◌, map,
  append_assoc, append-nil, length, arith, inl, inr,
}
use murmel.External.{BlockHeader, External, Network, IsStrict}
use murmel.Outcome.{ok}
use murmel.Pow.{CachedHeader}
use murmel.HeaderCache.{last, tip}
use murmel.HeaderCache.Add.{Added}
use murmel.HeaderCache.Bounds.{IsBelow-IsLow, header-add_header}
use murmel.HeaderCache.Extend.{add_header-extends}
use murmel.ChainDb.{Database, ChainDb}
use murmel.ChainDb
use murmel.ChainDb.Sound.{add_header-headercache, add_header-result}
use murmel.HeaderDownload.{Batch, drain, noted}
use murmel.HeaderDownload.Stored.{IsGood, HaveParents, stored-IsGood}

module _ {D : Type 0} (x : External) (base : Database D)
    (genesis_block : Network → BlockHeader) where
  -- The batch that `headers` starts with.
  abbrev pub first_batch : ChainDb D → CachedHeader → List BlockHeader → Batch D
  first_batch c t q = record {
    chaindb = c;
    queue = q;
    connected = [];
    disconnected = [];
    some_new = false;
    moved_tip = none;
    height = t.height;
  }

  -- The store after it was given headers.
  abbrev pub fed : ChainDb D → List BlockHeader → ChainDb D
  fed c [] = c
  fed c (h ∷ hs) = fed (ChainDb.add_header x base genesis_block c h).0 hs

  -- Each header is added by the store, follows the tip, and has more work.
  pub data Follows : ChainDb D → List BlockHeader → Type 0 where
    arrived : {c : ChainDb D} → Follows c []
    after :
        {c : ChainDb D} {h : BlockHeader} {hs : List BlockHeader} {a : Added}
        {before : CachedHeader}
        → (ChainDb.add_header x base genesis_block c h).1 ≡ ok (some a)
        → last c.headercache.trunk ≡ some h.prev_blockhash
        → tip c.headercache ≡ some before
        → x.float.lt before.log2work a.cached.log2work ≡ true
        → Follows (ChainDb.add_header x base genesis_block c h).0 hs
        → Follows c (h ∷ hs)

  -- All headers went to the end of the trunk, and were noted in order.
  pub record Passed (b : Batch D) (hs : List BlockHeader) (r : Batch D) : Type 0 where
    pub chain : r.chaindb ≡ fed b.chaindb hs
    pub trunk : r.chaindb.headercache.trunk ≡ b.chaindb.headercache.trunk ++ map x.bitcoin_hash hs
    pub told : List (BlockHeader × ℕ)
    pub connected : r.connected ≡ b.connected ++ told
    pub in_order : map (λ p. p.0) told ≡ hs
    pub disconnected : r.disconnected ≡ b.disconnected

  noted_as :
      (b : Batch D) (h : BlockHeader) (a : Added)
      → a.cached.header ≡ h
      → a.forwards ≡ some (x.bitcoin_hash h ∷ [])
      → (b2 : Batch D) × (noted x base genesis_block b a ≡ some b2)
        × (b2.chaindb ≡ b.chaindb)
        × (b2.disconnected ≡ b.disconnected)
        × (b2.connected ≡ b.connected ++ ((h, a.cached.height) ∷ []))
  unfolding noted last
  noted_as b h a e f = (
    record b {
      connected = b.connected ++ ((a.cached.header, a.cached.height) ∷ []);
      some_new = true;
      height = a.cached.height;
      moved_tip = some (x.bitcoin_hash h);
    },
    rw (f, noted) refl,
    refl,
    refl,
    rw e refl,
  )

  -- The loop goes on after a header that is added without unwinds.
  drain_on :
      (b : Batch D) (h : BlockHeader) (q : List BlockHeader) (a : Added) (b2 : Batch D)
      → (ChainDb.add_header x base genesis_block b.chaindb h).1 ≡ ok (some a)
      → noted x base genesis_block
          (record b {
            chaindb = (ChainDb.add_header x base genesis_block b.chaindb h).0;
            queue = q;
          })
          a
        ≡ some b2
      → a.unwinds ≡ none
      → drain x base genesis_block b (h ∷ q) ≡ drain x base genesis_block b2 q
  unfolding drain
  drain_on b h q a b2 o m u = rw (o, drain) (rw (m, drain) (rw (u, drain) refl))

  module _ (f : IsStrict x.float) (root : ℕ) where
    -- The loop passes them, and goes on with what stands behind.
    pub drain-Passed :
        (n : ℕ) (b : Batch D) (hs q : List BlockHeader)
        → HaveParents hs
        → n + length hs < 2 ^ 32
        → IsGood x root n b.chaindb.headercache
        → Follows b.chaindb hs
        → (r : Batch D) × (drain x base genesis_block b (hs ++ q) ≡ drain x base genesis_block r q)
          × Passed b hs r
    drain-Passed n b [] q p l g arrived = (
      b,
      refl,
      record {
        chain = refl;
        trunk = sym (append-nil b.chaindb.headercache.trunk);
        told = [];
        connected = sym (append-nil b.connected);
        in_order = refl;
        disconnected = refl;
      },
    )
    drain-Passed n b (h ∷ hs) q p l g (after {a = a} o t e w rest) =
        let c = b.chaindb.headercache in
        let n_low : n < 2 ^ 32 = omega (arith, l) in
        let nz = p h (inl refl) in
        let low = IsBelow-IsLow c n_low g.below in
        let o' = add_header-result x base genesis_block b.chaindb h o in
        let (longer, no_unwinds, one_forward, _) =
          add_header-extends x c h g.tree low nz o' t e w in
        let b1 : Batch D = record b {
          chaindb = (ChainDb.add_header x base genesis_block b.chaindb h).0;
          queue = hs ++ q;
        } in
        let (b2, m, chain, gone, told) =
          noted_as b1 h a (header-add_header x c h g.tree low nz o') one_forward in
        let (b3, goes, r) =
          drain-Passed (suc n) b2 hs q (λ i j. p i (inr j)) (omega (arith, l))
            (rw chain (stored-IsGood x base genesis_block root n b.chaindb h nz n_low g f))
            (rw chain rest) in
        let trunk : b2.chaindb.headercache.trunk ≡ c.trunk ++ (x.bitcoin_hash h ∷ []) =
          ap (λ k. k.headercache.trunk) chain
          ∙ ap (λ k. k.trunk) (add_header-headercache x base genesis_block b.chaindb h)
          ∙ longer in
        (
          b3,
          drain_on b h (hs ++ q) a b2 o m no_unwinds ∙ goes,
          record {
            chain = r.chain ∙ ap (λ k. fed k hs) chain;
            trunk = r.trunk ∙ ap (λ k. k ++ map x.bitcoin_hash hs) trunk ∙ append_assoc c.trunk _ _;
            told = (h, a.cached.height) ∷ r.told;
            connected = r.connected ∙ ap (λ k. k ++ r.told) told ∙ append_assoc b.connected _ _;
            in_order = ap (λ k. h ∷ k) r.in_order;
            disconnected = r.disconnected ∙ gone;
          },
        )
