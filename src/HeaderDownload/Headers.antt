-- ===== src/HeaderDownload/Headers.antt =====
-- The loops of `headers` in src/headerdownload.rs end.
use murmel.Common.{
  ℕ, zero, suc, ◌+◌, ◌-◌, ◌^◌, ◌≤◌, ◌<◌, ◌≢◌, refl, ap, none, some, Option, Option-cases, List, [],
  ◌∷◌, length, arith, inl, inr, List-cases, In, true, false,
}
use murmel.External.{BlockHeader, External, Network, default}
use murmel.Outcome.{Outcome, unfinished, Outcome-cases}
use murmel.Pow.{StoredHeader}
use murmel.Network.{PeerId}
use murmel.Timeout
use murmel.Timeout.{ExpectedReply-Eq}
use murmel.HeaderCache.{last, tip}
use murmel.HeaderCache.Add
use murmel.HeaderCache.Tree.{IsTree}
use murmel.HeaderCache.Chain.{add_header-IsTree}
use murmel.HeaderCache.Genesis.{HasGenesis, add_header-HasGenesis}
use murmel.HeaderCache.Bounds.{IsBelow, IsBelow-IsLow, IsBelow-weaken, add_header-IsBelow}
use murmel.HeaderCache.Finish.{add_header-finishes}
use murmel.ChainDb.{Database, ChainDb, then_db, store_forwards}
use murmel.ChainDb
use murmel.ChainDb.Sound.{add_header-headercache}
use murmel.HeaderDownload.{
  Notice, HeaderDownload, Batch, unending, drain, headers_loop, headers, notify,
}
use murmel.HeaderDownload.Turns.{Ending-cases, drain-Turns}
use murmel.HeaderDownload.Steady.{batch-headercache}
use murmel.HeaderDownload.Preserves.{IsKept, drain-Drained}

-- The database answers each write.
pub record Answers {D : Type 0} (base : Database D) : Type 0 where
  pub put_header_ends :
      (d : D) (id : ℕ) (s : StoredHeader) → (base.put_header d id s).1 ≢ unfinished
  pub put_tip_ends : (d : D) (id : ℕ) → (base.put_tip d id).1 ≢ unfinished
  pub batch_ends : (d : D) → (base.batch d).1 ≢ unfinished

module _ {D : Type 0} (x : External) (base : Database D) (genesis_block : Network → BlockHeader)
    (a : Answers base) (root : ℕ) where
  then_db-finishes :
      {A : Type 0} (c : ChainDb D) (r : D × Outcome (Unit {0}))
      (k : ChainDb D → ChainDb D × Outcome A)
      → r.1 ≢ unfinished
      → ((c2 : ChainDb D) → (k c2).1 ≢ unfinished)
      → (then_db x base genesis_block c r k).1 ≢ unfinished
  unfolding then_db
  then_db-finishes c r k n f = elim (Outcome-cases r.1) [
    | inl (t, o) ↦ rw (o, then_db) (f _)
    | inr (inl (e, o)) ↦ rw (o, then_db) (λ z. cc)
    | inr (inr (inl o)) ↦ rw (o, then_db) (λ z. cc)
    | inr (inr (inr o)) ↦ absurd (n o)
  ]

  store_forwards-finishes :
      {A : Type 0} (c : ChainDb D) (f : Option (List ℕ)) (k : ChainDb D → ChainDb D × Outcome A)
      → ((c2 : ChainDb D) → (k c2).1 ≢ unfinished)
      → (store_forwards x base genesis_block c f k).1 ≢ unfinished
  unfolding store_forwards
  store_forwards-finishes c none k h = h c
  store_forwards-finishes c (some ids) k h = elim (Option-cases (last ids)) [
    | inl e ↦ rw (e, store_forwards) (h c)
    | inr (id, e) ↦ rw (e, store_forwards) (then_db-finishes c _ k (a.put_tip_ends c.db id) h)
  ]

  -- The cache is a tree with a genesis, with heights below the bound.
  abbrev pub IsRooted : ℕ → ChainDb D → Type 0
  IsRooted n c = IsTree root c.headercache × HasGenesis root c.headercache × IsBelow n c.headercache

  -- A header that does not claim to be a genesis, and whose id is not zero.
  abbrev pub IsLater : BlockHeader → Type 0
  IsLater h = (h.prev_blockhash ≢ default) × (x.bitcoin_hash h ≢ default)

  store-finishes :
      (n : ℕ) (c : ChainDb D) (h : BlockHeader)
      → IsLater h
      → n < 2 ^ 32
      → IsRooted n c
      → (ChainDb.add_header x base genesis_block c h).1 ≢ unfinished
  unfolding ChainDb.add_header
  store-finishes n c h f l (t, g, b) = elim (Outcome-cases (Add.add_header x c.headercache h).1) [
    | inl (none, o) ↦ rw (o, ChainDb.add_header) (λ z. cc)
    | inl (some v, o) ↦
        rw (o, ChainDb.add_header)
          (then_db-finishes _ _ _ (a.put_header_ends _ _ _)
            (λ c1. store_forwards-finishes c1 v.forwards _ (λ c2 z. cc)))
    | inr (inl (e, o)) ↦ rw (o, ChainDb.add_header) (λ z. cc)
    | inr (inr (inl o)) ↦ rw (o, ChainDb.add_header) (λ z. cc)
    | inr (inr (inr o)) ↦
        absurd (add_header-finishes x c.headercache t g h (IsBelow-IsLow c.headercache l b) f.0 o)
  ]

  -- Nothing is asked of the headers that were added.
  abbrev Anything : ChainDb D → BlockHeader → ℕ → Type 0
  Anything c h m = Unit {0}

  abbrev RootedOf : ℕ → ChainDb D → List Notice → Type 0
  RootedOf n c log = IsRooted n c

  IsRooted-IsKept : IsKept x base genesis_block IsLater Anything RootedOf
  IsRooted-IsKept = record {
    weaken = λ n m c log w i. (i.0, i.1, IsBelow-weaken c.headercache w i.2);
    adds = λ n c log h f b i.
        let low = IsBelow-IsLow c.headercache b i.2 in
        rw (add_header-headercache x base genesis_block c h) (
          add_header-IsTree x c.headercache h i.0 low f.0,
          add_header-HasGenesis x c.headercache h i.0 low f.0 f.1 i.1,
          add_header-IsBelow x c.headercache h i.0 low f.0 i.2,
        );
    knows = λ n c log h v f b i o. tt;
    remembers = λ n c log h g m f b i t. tt;
    batches = λ n c log i. rw (batch-headercache x base genesis_block c) i;
    tells = λ n c log gone told i t o. rw (batch-headercache x base genesis_block c) i;
  }

  abbrev AreLater : List BlockHeader → Type 0
  AreLater hs = (h : BlockHeader) → In h hs → IsLater h

  drain-shorter :
      (b : Batch D) (q : List BlockHeader)
      → length (drain x base genesis_block b q).0.queue ≤ length q - 1
  unfolding drain
  drain-shorter b [] = omega arith
  drain-shorter b (h ∷ hs) =
      let (b2, t, go) = drain-Turns x base genesis_block b h hs in
      elim go [
        | inl e ↦ rw e (omega (arith, drain-shorter b2 hs))
        | inr (e, q, _) ↦ rw q (omega (arith, ap (λ xs. length xs) t.rest))
      ]

  drain-finishes :
      (n : ℕ) (b : Batch D) (q : List BlockHeader)
      → AreLater q
      → n + length q < 2 ^ 32
      → IsRooted n b.chaindb
      → (drain x base genesis_block b q).1 ≢ unending
  unfolding drain
  drain-finishes n b [] p l i = λ z. cc
  drain-finishes n b (h ∷ hs) p l i =
      let (b2, t, go) = drain-Turns x base genesis_block b h hs in
      let fit = p h (inl refl) in
      let low : n < 2 ^ 32 = omega (arith, l) in
      let next : IsRooted (suc n) b2.chaindb =
        rw t.chain (IsRooted-IsKept.adds n b.chaindb [] h fit low i) in
      elim go [
        | inl e ↦ rw e (drain-finishes (suc n) b2 hs (λ g m. p g (inr m)) (omega (arith, l)) next)
        | inr (e, q, w) ↦ rw q (λ z. store-finishes n b.chaindb h fit low i (w z))
      ]

  batch-finishes : (c : ChainDb D) → (ChainDb.batch x base genesis_block c).1 ≢ unfinished
  unfolding ChainDb.batch
  batch-finishes c = then_db-finishes c _ _ (a.batch_ends c.db) (λ c2 z. cc)

  headers_loop-finishes :
      (fuel n : ℕ) (s : HeaderDownload D) (b : Batch D) (peer : PeerId)
      → AreLater b.queue
      → n + length b.queue < 2 ^ 32
      → IsRooted n b.chaindb
      → length b.queue < fuel
      → (headers_loop x base genesis_block fuel s b peer).2 ≢ unfinished
  unfolding headers_loop notify
  headers_loop-finishes zero n s b peer p u i l = absurd (omega (arith, l))
  headers_loop-finishes (suc fuel) n s b peer p u i l = elim (List-cases b.queue) [
    | inl q ↦ rw (q, headers_loop) (λ e. cc)
    | inr (h, hs, q) ↦
        let b0 : Batch D = record b { connected = []; disconnected = [] } in
        let r = drain x base genesis_block b0 b.queue in
        let d =
          drain-Drained x base genesis_block IsLater Anything RootedOf IsRooted-IsKept n b0 []
            b.queue p u i (λ g m w. tt) in
        let shorter : length r.0.queue < fuel =
          omega (arith, drain-shorter b0 b.queue, l, ap (λ xs. length xs) q) in
        elim (Ending-cases r.1) [
          | inl e ↦ elim (Outcome-cases (ChainDb.batch x base genesis_block r.0.chaindb).1) [
            | inl (t, o) ↦
                rw (q, headers_loop)
                  (rw (e, headers_loop)
                    (rw (o, headers_loop)
                      (headers_loop-finishes fuel d.bound _
                        (record r.0 {
                          chaindb = (ChainDb.batch x base genesis_block r.0.chaindb).0;
                        })
                        peer d.rest (omega (arith, d.within, u))
                        (IsRooted-IsKept.batches d.bound r.0.chaindb [] d.holds) shorter)))
            | inr (inl (f, o)) ↦
                rw (q, headers_loop) (rw (e, headers_loop) (rw (o, headers_loop) (λ e. cc)))
            | inr (inr (inl o)) ↦
                rw (q, headers_loop) (rw (e, headers_loop) (rw (o, headers_loop) (λ e. cc)))
            | inr (inr (inr o)) ↦ absurd (batch-finishes r.0.chaindb o)
          ]
          | inr (inl e) ↦ rw (q, headers_loop) (rw (e, headers_loop) (λ e. cc))
          | inr (inr (inl e)) ↦ rw (q, headers_loop) (rw (e, headers_loop) (λ e. cc))
          | inr (inr (inr (inl e))) ↦ rw (q, headers_loop) (rw (e, headers_loop) (λ e. cc))
          | inr (inr (inr (inr e))) ↦ absurd (drain-finishes n b0 b.queue p u i e)
        ]
  ]

  -- `headers` ends: neither its loops nor those of `add_header` run out of turns. The cache is a tree
  -- with a genesis and heights below n, no header of the message claims to be a genesis or has the id
  -- zero, n and the number of headers together stay below 2^32, and the database answers each write.
  pub headers-finishes :
      (n : ℕ) (s : HeaderDownload D) (now : ℕ) (hs : List BlockHeader) (peer : PeerId)
      → ((h : BlockHeader) → In h hs → IsLater h)
      → n + length hs < 2 ^ 32
      → IsRooted n s.chaindb
      → (headers x base genesis_block s now hs peer).1 ≢ unfinished
  unfolding headers
  headers-finishes n s now [] peer p u i = λ e. cc
  headers-finishes n s now (h ∷ hs) peer p u i = elim (Option-cases (tip s.chaindb.headercache)) [
    | inl e ↦ rw (e, headers) (λ z. cc)
    | inr (t, e) ↦
        let s1 : HeaderDownload D = record s {
          timeout = Timeout.received s.timeout now peer 1 Timeout.headers;
        } in
        let b : Batch D = record {
          chaindb = s1.chaindb;
          queue = h ∷ hs;
          connected = [];
          disconnected = [];
          some_new = false;
          moved_tip = none;
          height = t.height;
        } in
        let r = headers_loop x base genesis_block (suc (length (h ∷ hs))) s1 b peer in
        elim (Outcome-cases r.2) [
          | inl (true, o) ↦ rw (e, headers) (rw (o, headers) (λ z. cc))
          | inl (false, o) ↦ rw (e, headers) (rw (o, headers) (λ z. cc))
          | inr (inl (f, o)) ↦ rw (e, headers) (rw (o, headers) (λ z. cc))
          | inr (inr (inl o)) ↦ rw (e, headers) (rw (o, headers) (λ z. cc))
          | inr (inr (inr o)) ↦
              absurd
                (headers_loop-finishes (suc (length (h ∷ hs))) n s1 b peer p u i (omega arith) o)
        ]
  ]
