-- ===== src/HeaderDownload/Preserves.antt =====
-- What `HeaderDownload` of src/headerdownload.rs does to the store: over any messages and pauses it only
-- adds received headers and ends batches.
use murmel.Common.{
  ℕ, zero, suc, some, subst, In-append_cases, ◌++◌, ◌+◌, ◌^◌, ◌≤◌, ◌<◌, ◌≡◌, refl, ap, none, List,
  [], ◌∷◌, inl, inr, In, In-append_left, In-append_right, length, length-append, arith, List-cases,
  Option-cases, Bool-cases, true, false,
}
use murmel.External.{BlockHeader, External, Network}
use murmel.Outcome.{ok, Outcome-cases}
use murmel.HeaderCache.Add.{Added}
use murmel.Network.{PeerId, PeerId-Eq}
use murmel.Network
use murmel.Messages.{NetworkMessage}
use murmel.Messages
use murmel.Timeout
use murmel.Timeout.{ExpectedReply-Eq}
use murmel.HeaderCache.{tip}
use murmel.ChainDb.{Database, ChainDb}
use murmel.ChainDb
use murmel.HeaderDownload.{
  finish, get_headers, inv, Notice, connections, disconnections, HeaderDownload, Batch, Ending,
  Event, message, pause, drain, headers_loop, headers, is_serving_blocks, notify, send, on_message,
  on_pause, run,
}
use murmel.HeaderDownload.Turns.{Ending-cases, stored, Took, drain-Turns}
use murmel.HeaderDownload.Agrees.{Agrees, get_headers-Agrees, inv-Agrees, finish-Agrees}

-- The headers that a message or pause brings.
abbrev pub claimed : Event → List BlockHeader
claimed (message now (Network.incoming pid (Messages.headers hs))) = hs
claimed _ = []

abbrev pub all_claimed : List Event → List BlockHeader
all_claimed [] = []
all_claimed (e ∷ es) = claimed e ++ all_claimed es

module _ {D : Type 0} (x : External) (base : Database D)
    (genesis_block : Network → BlockHeader) where
  -- A property of the store and of what `Downstream` was told, with a bound that grows by one with each
  -- header that is added. `Known` is what holds of a header that was added.
  pub record IsKept (Fits : BlockHeader → Type 0) (Known : ChainDb D → BlockHeader → ℕ → Type 0)
      (Holds : ℕ → ChainDb D → List Notice → Type 0) : Type 0 where
    pub weaken :
        (n m : ℕ) (c : ChainDb D) (log : List Notice) → n ≤ m → Holds n c log → Holds m c log
    pub adds :
        (n : ℕ) (c : ChainDb D) (log : List Notice) (h : BlockHeader)
        → Fits h
        → n < 2 ^ 32
        → Holds n c log
        → Holds (suc n) (ChainDb.add_header x base genesis_block c h).0 log
    pub knows :
        (n : ℕ) (c : ChainDb D) (log : List Notice) (h : BlockHeader) (a : Added)
        → Fits h
        → n < 2 ^ 32
        → Holds n c log
        → (ChainDb.add_header x base genesis_block c h).1 ≡ ok (some a)
        → Known (ChainDb.add_header x base genesis_block c h).0 a.cached.header a.cached.height
    pub remembers :
        (n : ℕ) (c : ChainDb D) (log : List Notice) (h g : BlockHeader) (m : ℕ)
        → Fits h
        → n < 2 ^ 32
        → Holds n c log
        → Known c g m
        → Known (ChainDb.add_header x base genesis_block c h).0 g m
    pub batches :
        (n : ℕ) (c : ChainDb D) (log : List Notice)
        → Holds n c log
        → Holds n (ChainDb.batch x base genesis_block c).0 log
    pub tells :
        (n : ℕ) (c : ChainDb D) (log : List Notice) (gone : List BlockHeader)
        (told : List (BlockHeader × ℕ))
        → Holds n c log
        → ((h : BlockHeader) → (m : ℕ) → In (h, m) told → Known c h m)
        → (ChainDb.batch x base genesis_block c).1 ≡ ok tt
        → Holds n (ChainDb.batch x base genesis_block c).0 (
            log
            ++ (disconnections x base genesis_block gone ++ connections x base genesis_block told))

  module _ (Fits : BlockHeader → Type 0) (Known : ChainDb D → BlockHeader → ℕ → Type 0)
      (Holds : ℕ → ChainDb D → List Notice → Type 0) (k : IsKept Fits Known Holds) where
    abbrev pub All : List BlockHeader → Type 0
    All hs = (h : BlockHeader) → In h hs → Fits h

    abbrev AllKnown : ChainDb D → List (BlockHeader × ℕ) → Type 0
    AllKnown c told = (h : BlockHeader) → (m : ℕ) → In (h, m) told → Known c h m

    -- What a run of the inner loop on a queue does to the store.
    pub record Drained (n : ℕ) (log : List Notice) (q : List BlockHeader) (r : Batch D × Ending)
        : Type 0 where
      pub bound : ℕ
      pub within : bound + length r.0.queue ≤ n + length q
      pub holds : Holds bound r.0.chaindb log
      pub rest : All r.0.queue
      pub told : AllKnown r.0.chaindb r.0.connected

    Took-AllKnown :
        (n : ℕ) (b : Batch D) (log : List Notice) (h : BlockHeader) {hs : List BlockHeader}
        {b2 : Batch D}
        → Fits h
        → n < 2 ^ 32
        → Holds n b.chaindb log
        → AllKnown b.chaindb b.connected
        → Took x base genesis_block b h hs b2
        → AllKnown b2.chaindb b2.connected
    Took-AllKnown n b log h f l i known t =
        let c2 = (stored x base genesis_block b h).0 in
        let old : AllKnown c2 b.connected =
          λ g m j. k.remembers n b.chaindb log h g m f l i (known g m j) in
        rw t.chain (elim t.noted_as [
          | inl e ↦ rw e old
          | inr (a, o, e) ↦ rw e (λ g m j. elim (In-append_cases (g, m) b.connected _ j) [
            | inl z ↦ old g m z
            | inr (inl p) ↦ subst (λ z. Known c2 z.0 z.1) p (k.knows n b.chaindb log h a f l i o)
            | inr (inr z) ↦ absurd z
          ])
        ])

    pub drain-Drained :
        (n : ℕ) (b : Batch D) (log : List Notice) (q : List BlockHeader)
        → All q
        → n + length q < 2 ^ 32
        → Holds n b.chaindb log
        → AllKnown b.chaindb b.connected
        → Drained n log q (drain x base genesis_block b q)
    unfolding drain
    drain-Drained n b log [] p l i known = record {
      bound = n;
      within = omega arith;
      holds = i;
      rest = p;
      told = known;
    }
    drain-Drained n b log (h ∷ hs) p l i known =
        let (b2, t, go) = drain-Turns x base genesis_block b h hs in
        let fit = p h (inl refl) in
        let low : n < 2 ^ 32 = omega (arith, l) in
        let next : Holds (suc n) b2.chaindb log = rw t.chain (k.adds n b.chaindb log h fit low i) in
        let known2 = Took-AllKnown n b log h fit low i known t in
        elim go [
          | inl e ↦
              let r =
                drain-Drained (suc n) b2 log hs (λ g m. p g (inr m)) (omega (arith, l)) next
                  known2 in
              rw e (record {
                bound = r.bound;
                within = omega (arith, r.within);
                holds = r.holds;
                rest = r.rest;
                told = r.told;
              })
          | inr (e, q, _) ↦ rw q (record {
            bound = suc n;
            within = omega (arith, ap (λ xs. length xs) t.rest);
            holds = next;
            rest = λ g m. p g (inr (rw t.rest at m));
            told = known2;
          })
        ]

    -- The property holds of the store and the log of a state.
    abbrev HoldsOf : ℕ → HeaderDownload D → Type 0
    HoldsOf n s = Holds n s.chaindb s.downstream

    Agrees-Holds : (n : ℕ) (s r : HeaderDownload D) → Agrees s r → HoldsOf n s → HoldsOf n r
    Agrees-Holds n s r (c, d) i = rw (c, d) i

    headers_loop-Holds :
        (fuel n m : ℕ) (s : HeaderDownload D) (b : Batch D) (peer : PeerId)
        → s.chaindb ≡ b.chaindb
        → All b.queue
        → n + length b.queue ≤ m
        → m < 2 ^ 32
        → HoldsOf n s
        → HoldsOf m (headers_loop x base genesis_block fuel s b peer).0
    unfolding headers_loop notify send
    headers_loop-Holds zero n m s b peer z p u l i = k.weaken n m _ _ (omega (arith, u)) i
    headers_loop-Holds (suc fuel) n m s b peer z p u l i = elim (List-cases b.queue) [
      | inl q ↦ rw (q, headers_loop) (k.weaken n m _ _ (omega (arith, u)) i)
      | inr (h, hs, q) ↦
          let b0 : Batch D = record b { connected = []; disconnected = [] } in
          let d =
            drain-Drained n b0 s.downstream b.queue p (omega (arith, u, l)) (rw (← z) i)
              (λ g j w. absurd w) in
          let r = drain x base genesis_block b0 b.queue in
          let c2 = (ChainDb.batch x base genesis_block r.0.chaindb).0 in
          let s2 : HeaderDownload D = record s { chaindb = c2 } in
          let up : d.bound ≤ m = omega (arith, d.within, u) in
          let given : Holds m r.0.chaindb s.downstream = k.weaken d.bound m _ _ up d.holds in
          let ended : Holds d.bound c2 s.downstream =
            k.batches d.bound r.0.chaindb s.downstream d.holds in
          let done : Holds m c2 s.downstream = k.weaken d.bound m _ _ up ended in
          elim (Ending-cases r.1) [
            | inl e ↦ elim (Outcome-cases (ChainDb.batch x base genesis_block r.0.chaindb).1) [
              | inl (tt, o) ↦
                  rw (q, headers_loop)
                    (rw (e, headers_loop)
                      (rw (o, headers_loop)
                        (headers_loop-Holds fuel d.bound m (notify x base genesis_block s2 r.0)
                          (record r.0 { chaindb = c2 }) peer refl d.rest
                          (omega (arith, d.within, u)) l
                          (k.tells d.bound r.0.chaindb s.downstream r.0.disconnected r.0.connected
                            d.holds d.told o))))
              | inr (inl (a, o)) ↦
                  rw (q, headers_loop) (rw (e, headers_loop) (rw (o, headers_loop) done))
              | inr (inr (inl o)) ↦
                  rw (q, headers_loop) (rw (e, headers_loop) (rw (o, headers_loop) done))
              | inr (inr (inr o)) ↦
                  rw (q, headers_loop) (rw (e, headers_loop) (rw (o, headers_loop) done))
            ]
            | inr (inl e) ↦ rw (q, headers_loop) (rw (e, headers_loop) given)
            | inr (inr (inl e)) ↦ rw (q, headers_loop) (rw (e, headers_loop) given)
            | inr (inr (inr (inl e))) ↦ rw (q, headers_loop) (rw (e, headers_loop) given)
            | inr (inr (inr (inr e))) ↦ rw (q, headers_loop) (rw (e, headers_loop) given)
          ]
    ]

    headers-Holds :
        (n m : ℕ) (s : HeaderDownload D) (now : ℕ) (hs : List BlockHeader) (peer : PeerId)
        → All hs
        → n + length hs ≤ m
        → m < 2 ^ 32
        → HoldsOf n s
        → HoldsOf m (headers x base genesis_block s now hs peer).0
    unfolding headers
    headers-Holds n m s now [] peer p u l i = k.weaken n m _ _ (omega (arith, u)) i
    headers-Holds n m s now (h ∷ hs) peer p u l i =
        let s1 : HeaderDownload D = record s {
          timeout = Timeout.received s.timeout now peer 1 Timeout.headers;
        } in
        elim (Option-cases (tip s1.chaindb.headercache)) [
          | inl e ↦ rw (e, headers) (k.weaken n m _ _ (omega (arith, u)) i)
          | inr (t, e) ↦
              let b : Batch D = record {
                chaindb = s1.chaindb;
                queue = h ∷ hs;
                connected = [];
                disconnected = [];
                some_new = false;
                moved_tip = none;
                height = t.height;
              } in
              let r = headers_loop x base genesis_block (suc (length (h ∷ hs))) s1 b peer in
              let done = headers_loop-Holds (suc (length (h ∷ hs))) n m s1 b peer refl p u l i in
              elim (Outcome-cases r.2) [
                | inl (true, o) ↦
                    rw (e, headers)
                      (rw (o, headers)
                        (Agrees-Holds m r.0 (finish x base genesis_block r.0 r.1 now peer)
                          (finish-Agrees x base genesis_block r.0 r.1 now peer) done))
                | inl (false, o) ↦ rw (e, headers) (rw (o, headers) done)
                | inr (inl (a, o)) ↦ rw (e, headers) (rw (o, headers) done)
                | inr (inr (inl o)) ↦ rw (e, headers) (rw (o, headers) done)
                | inr (inr (inr o)) ↦ rw (e, headers) (rw (o, headers) done)
              ]
        ]

    on_message-Holds :
        (n m : ℕ) (s : HeaderDownload D) (now : ℕ) (p : Network.PeerMessage NetworkMessage)
        → All (claimed (message now p))
        → n + length (claimed (message now p)) ≤ m
        → m < 2 ^ 32
        → HoldsOf n s
        → HoldsOf m (on_message x base genesis_block s now p).0
    unfolding on_message
    on_message-Holds n m s now (Network.incoming pid (Messages.headers hs)) p u l i =
        elim (Bool-cases (is_serving_blocks x base genesis_block s pid)) [
          | inl b ↦ rw b (headers-Holds n m s now hs pid p u l i)
          | inr b ↦ rw b (k.weaken n m _ _ (omega (arith, u)) i)
        ]
    on_message-Holds n m s now (Network.outgoing o) p u l i = k.weaken n m _ _ (omega (arith, u)) i
    on_message-Holds n m s now (Network.disconnected pid banned) p u l i =
        k.weaken n m _ _ (omega (arith, u)) i
    on_message-Holds n m s now (Network.incoming pid (Messages.version v)) p u l i =
        k.weaken n m _ _ (omega (arith, u)) i
    on_message-Holds n m s now (Network.incoming pid Messages.verack) p u l i =
        k.weaken n m _ _ (omega (arith, u)) i
    on_message-Holds n m s now (Network.incoming pid (Messages.ping c)) p u l i =
        k.weaken n m _ _ (omega (arith, u)) i
    on_message-Holds n m s now (Network.incoming pid (Messages.pong c)) p u l i =
        k.weaken n m _ _ (omega (arith, u)) i
    on_message-Holds n m s now (Network.incoming pid (Messages.get_headers cs c)) p u l i =
        k.weaken n m _ _ (omega (arith, u)) i
    on_message-Holds n m s now (Network.incoming pid (Messages.other c)) p u l i =
        k.weaken n m _ _ (omega (arith, u)) i
    on_message-Holds n m s now (Network.connected pid addr) p u l i =
        elim (Bool-cases (is_serving_blocks x base genesis_block s pid)) [
          | inl b ↦ rw b (
              Agrees-Holds m s (get_headers x base genesis_block s now pid)
                (get_headers-Agrees x base genesis_block s now pid)
                (k.weaken n m _ _ (omega (arith, u)) i))
          | inr b ↦ rw b (k.weaken n m _ _ (omega (arith, u)) i)
        ]
    on_message-Holds n m s now (Network.incoming pid (Messages.inv is)) p u l i =
        elim (Bool-cases (is_serving_blocks x base genesis_block s pid)) [
          | inl b ↦ rw b (
              Agrees-Holds m s (inv x base genesis_block s now is pid)
                (inv-Agrees x base genesis_block s now is pid)
                (k.weaken n m _ _ (omega (arith, u)) i))
          | inr b ↦ rw b (k.weaken n m _ _ (omega (arith, u)) i)
        ]

    pub run-Holds :
        (n m : ℕ) (s : HeaderDownload D) (es : List Event)
        → All (all_claimed es)
        → n + length (all_claimed es) ≤ m
        → m < 2 ^ 32
        → HoldsOf n s
        → HoldsOf m (run x base genesis_block s es)
    unfolding run on_pause
    run-Holds n m s [] p u l i = k.weaken n m _ _ (omega (arith, u)) i
    run-Holds n m s (message now e ∷ es) p u l i =
        let hs = claimed (message now e) in
        let u2 : n + length hs + length (all_claimed es) ≤ m =
          omega (arith, u, length-append hs (all_claimed es)) in
        run-Holds (n + length hs) m (on_message x base genesis_block s now e).0 es
          (λ h j. p h (In-append_right h hs (all_claimed es) j)) u2 l
          (on_message-Holds n (n + length hs) s now e
            (λ h j. p h (In-append_left h hs (all_claimed es) j)) (omega arith)
            (omega (arith, u2, l)) i)
    run-Holds n m s (pause now ∷ es) p u l i =
        run-Holds n m (on_pause x base genesis_block s now) es p u l i
