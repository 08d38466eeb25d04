-- ===== src/HeaderDownload/Sync.antt =====
-- The header download of src/headerdownload.rs on headers that follow the tip, one after the other.
use murmel.Common.{
  ℕ, suc, ◌+◌, ◌^◌, ◌<◌, ◌≡◌, refl, ap, ap₂, sym, ◌∙◌, true, List, [], ◌∷◌, ◌++◌, map, append-nil,
  length,
}
use murmel.External.{BlockHeader, External, Network, IsStrict}
use murmel.Outcome.{ok}
use murmel.Network.{PeerId}
use murmel.ChainDb.{Database, ChainDb}
use murmel.ChainDb
use murmel.HeaderDownload.{
  HeaderDownload, Batch, Ending, drained, drain, headers_loop, notify, connections, disconnections,
  headers, finish,
}
use murmel.HeaderDownload.Passes.{first_batch, Follows, drain-Passed}
use murmel.HeaderDownload.Agrees.{finish-Agrees}
use murmel.HeaderDownload.Steady.{batch-headercache}
use murmel.Timeout
use murmel.Timeout.{ExpectedReply-Eq}
use murmel.HeaderDownload.Stored.{IsGood, HaveParents}

module _ {D : Type 0} (x : External) (base : Database D)
    (genesis_block : Network → BlockHeader) where
  -- The loop has taken all headers to the end of the trunk, and noted them in order.
  record Takes (b : Batch D) (hs : List BlockHeader) (r : Batch D × Ending) : Type 0 where
    pub ending : r.1 ≡ drained
    pub queue : r.0.queue ≡ []
    pub trunk : r.0.chaindb.headercache.trunk ≡ b.chaindb.headercache.trunk ++ map x.bitcoin_hash hs
    pub told : List (BlockHeader × ℕ)
    pub connected : r.0.connected ≡ b.connected ++ told
    pub in_order : map (λ p. p.0) told ≡ hs
    pub disconnected : r.0.disconnected ≡ b.disconnected

  module _ (f : IsStrict x.float) (root : ℕ) where
    drain-Takes :
        (n : ℕ) (b : Batch D) (hs : List BlockHeader)
        → HaveParents hs
        → n + length hs < 2 ^ 32
        → IsGood x root n b.chaindb.headercache
        → Follows x base genesis_block b.chaindb hs
        → Takes b hs (drain x base genesis_block b hs)
    unfolding drain
    drain-Takes n b hs p l g follows =
        let (r, goes, t) = drain-Passed x base genesis_block f root n b hs [] p l g follows in
        let e : drain x base genesis_block b hs ≡ drain x base genesis_block r [] =
          ap (drain x base genesis_block b) (sym (append-nil hs)) ∙ goes in
        rw e (record {
          ending = refl;
          queue = refl;
          trunk = t.trunk;
          told = t.told;
          connected = t.connected;
          in_order = t.in_order;
          disconnected = t.disconnected;
        })

  -- The outer loop ends at an empty queue.
  headers_loop-empty :
      (fuel : ℕ) (s : HeaderDownload D) (b : Batch D) (peer : PeerId)
      → b.queue ≡ []
      → headers_loop x base genesis_block (suc fuel) s b peer ≡ (s, b, ok true)
  unfolding headers_loop
  headers_loop-empty fuel s b peer q =
      rw (q, headers_loop) (ap (λ k. (s, record b { queue = k }, ok true)) q)

  -- Headers that the store adds, and that follow the tip one after the other, each with more work,
  -- are all taken in one message: `headers` ends well, the new trunk is the old one with their ids
  -- at the end, and `Downstream` is told that each of them is connected, in their order, and of
  -- nothing else. The store is a tree whose tip has the most work, no header claims to be a
  -- genesis, the bound of the heights and the number of headers together stay below 2^32, `<` on
  -- floats is a strict order, and a batch of the database succeeds.
  pub headers-takes :
      ((d : D) → (base.batch d).1 ≡ ok tt)
      → IsStrict x.float
      → (root n : ℕ) (s : HeaderDownload D) (now : ℕ) (h : BlockHeader) (hs : List BlockHeader)
        (peer : PeerId)
      → HaveParents (h ∷ hs)
      → n + length (h ∷ hs) < 2 ^ 32
      → IsGood x root n s.chaindb.headercache
      → Follows x base genesis_block s.chaindb (h ∷ hs)
      → let r = headers x base genesis_block s now (h ∷ hs) peer in
        (r.1 ≡ ok tt)
        × (r.0.chaindb.headercache.trunk
            ≡ s.chaindb.headercache.trunk ++ map x.bitcoin_hash (h ∷ hs))
        × ((told : List (BlockHeader × ℕ)) × (map (λ p. p.0) told ≡ h ∷ hs)
            × (r.0.downstream ≡ s.downstream ++ connections x base genesis_block told))
  unfolding headers headers_loop notify disconnections ChainDb.batch ChainDb.then_db
  headers-takes ends f root n s now h hs peer p l g follows =
      let s1 : HeaderDownload D = record s {
        timeout = Timeout.received s.timeout now peer 1 Timeout.headers;
      } in
      let b = first_batch x base genesis_block s.chaindb g.most.best (h ∷ hs) in
      let t = drain-Takes f root n b (h ∷ hs) p l g follows in
      let r = drain x base genesis_block b (h ∷ hs) in
      let c2 = (ChainDb.batch x base genesis_block r.0.chaindb).0 in
      let good : (ChainDb.batch x base genesis_block r.0.chaindb).1 ≡ ok tt =
        rw (ends r.0.chaindb.db) refl in
      let s2 = notify x base genesis_block (record s1 { chaindb = c2 }) r.0 in
      let b2 : Batch D = record r.0 { chaindb = c2 } in
      let loop : headers_loop x base genesis_block (suc (length (h ∷ hs))) s1 b peer
          ≡ (s2, b2, ok true) =
        rw (t.ending, headers_loop)
          (rw (good, headers_loop) (headers_loop-empty (length hs) s2 b2 peer t.queue)) in
      let q : headers x base genesis_block s now (h ∷ hs) peer
          ≡ (finish x base genesis_block s2 b2 now peer, ok tt) =
        rw (g.most.is_tip, headers)
          (rw (ap (λ k. k.2) loop, headers)
            (ap (λ k. (finish x base genesis_block k.0 k.1 now peer, ok tt)) loop)) in
      let notices : s2.downstream ≡ s.downstream ++ connections x base genesis_block t.told =
        ap₂
          (λ gone told.
            s.downstream
            ++ (disconnections x base genesis_block gone ++ connections x base genesis_block told))
          t.disconnected t.connected in
      let (same_chain, same_log) = finish-Agrees x base genesis_block s2 b2 now peer in
      (
        ap (λ r. r.1) q,
        ap (λ r. r.0.chaindb.headercache.trunk) q
            ∙ ap (λ k. k.headercache.trunk) same_chain
            ∙ ap (λ k. k.trunk) (batch-headercache x base genesis_block r.0.chaindb)
            ∙ t.trunk,
        (t.told, t.in_order, ap (λ r. r.0.downstream) q ∙ same_log ∙ notices),
      )
