-- ===== src/HeaderDownload.antt =====
-- `HeaderDownload` of src/headerdownload.rs: asks peers for headers and feeds them to the database.
-- Its state is what it shares with others: the database, the timeouts, the versions of the peers, and
-- the logs of what it sends to the network layer and to `Downstream`. The time is an argument.
pub mod Headers
pub mod Turns
pub mod Stored
pub mod Agrees
pub mod Preserves
pub mod Steady
pub mod Runs
pub mod Sync
pub mod SyncTests
pub mod Restart
pub mod RestartTests
pub mod Passes
pub mod Penalty
pub mod PenaltyTests
pub mod Tests
use Prim.Native.Nat.{bit_and}
use murmel.Common.{
  ℕ, zero, suc, Bool, true, false, not, Option, none, some, List, [], ◌∷◌, ◌++◌, ltb, nat_eq,
  length, if◌then◌else◌, is_some,
}
use murmel.Common.Map
use murmel.External.{BlockHeader, External, Network, default}
use murmel.Outcome.{Outcome, Error, ok, err, panic, unfinished, no_tip, spv_bad_proof_of_work}
use murmel.Pow.{StoredHeader, CachedHeader}
use murmel.Network.{PeerId, PeerId-Eq, P2PControl, VersionCarrier, service_blocks}
use murmel.Network
use murmel.Messages.{NetworkMessage, Inventory, InvType, block, other_type}
use murmel.Messages
use murmel.Timeout.{Timeout, ExpectedReply, ExpectedReply-Eq}
use murmel.Timeout
use murmel.HeaderCache.{tip, get_header, locator_hashes, last}
use murmel.HeaderCache.Add.{Added}
use murmel.ChainDb.{Database, ChainDb}
use murmel.ChainDb

-- Calls of `Downstream`.
pub data Notice : Type 0 where
  header_connected : BlockHeader → ℕ → Notice
  block_disconnected : BlockHeader → Notice

pub record HeaderDownload (D : Type 0) : Type 0 where
  pub chaindb : ChainDb D
  pub timeout : Timeout ExpectedReply
  pub versions : List (PeerId × VersionCarrier)
  pub controls : List (P2PControl NetworkMessage)
  pub downstream : List Notice

-- What the loops of `headers` keep: the queue, and what has been found out.
pub record Batch (D : Type 0) : Type 0 where
  pub chaindb : ChainDb D
  pub queue : List BlockHeader
  pub connected : List (BlockHeader × ℕ)
  pub disconnected : List BlockHeader
  pub some_new : Bool
  pub moved_tip : Option ℕ
  pub height : ℕ

-- How the inner loop ends: with the queue drained or a reorganisation, a bad proof of work, another
-- error, or a panic; or `add_header` does not end.
pub data Ending : Type 0 where
  drained bad_work failed : Ending
  panics unending : Ending

-- What the loop of `run` meets, with its time.
pub data Event : Type 0 where
  message : ℕ → Network.PeerMessage NetworkMessage → Event
  pause : ℕ → Event

-- How an error ends the inner loop.
unfoldable pub ending_of : Error → Ending
ending_of e = elim e [ spv_bad_proof_of_work ↦ bad_work | _ ↦ failed ]

module _ {D : Type 0} (x : External) (base : Database D)
    (genesis_block : Network → BlockHeader) where
  unfoldable pub send : HeaderDownload D → P2PControl NetworkMessage → HeaderDownload D
  send s m = record s { controls = s.controls ++ (m ∷ []) }

  unfoldable pub is_serving_blocks : HeaderDownload D → PeerId → Bool
  is_serving_blocks s peer = elim (Map.get s.versions peer) [
    | none ↦ false
    | some v ↦ not (nat_eq (bit_and v.services service_blocks) 0)
  ]

  unfoldable pub get_headers : HeaderDownload D → ℕ → PeerId → HeaderDownload D
  get_headers s now peer =
      if Timeout.is_busy_with s.timeout peer Timeout.headers
      then s
      else elim (locator_hashes s.chaindb.headercache) [
        | [] ↦ s
        | first ∷ rest ↦
            send (record s { timeout = Timeout.expect s.timeout now peer 1 Timeout.headers })
              (Network.send peer (Messages.get_headers (first ∷ rest) first))
      ]

  -- Does an inventory announce an unknown block?
  unfoldable pub announces : HeaderDownload D → List Inventory → Bool
  announces s [] = false
  announces s (i ∷ is) = elim i.inv_type [
    | block ↦ if is_some (get_header s.chaindb.headercache i.hash) then announces s is else true
    | other_type ↦ announces s is
  ]

  unfoldable pub inv : HeaderDownload D → ℕ → List Inventory → PeerId → HeaderDownload D
  inv s now is peer = if announces s is then get_headers s now peer else s

  -- `unwinds.iter().map(|h| chaindb.get_header(h).unwrap().stored.header)`.
  unfoldable pub headers_of : ChainDb D → List ℕ → Option (List BlockHeader)
  headers_of c [] = some []
  headers_of c (id ∷ ids) = elim (get_header c.headercache id) [
    | none ↦ none
    | some h ↦ elim (headers_of c ids) [ none ↦ none | some hs ↦ some (h.header ∷ hs) ]
  ]

  -- A header that was stored; `forwards.last().unwrap()` panics on an empty list.
  unfoldable pub noted : Batch D → Added → Option (Batch D)
  noted b a =
      let b' = record b {
        connected = b.connected ++ ((a.cached.header, a.cached.height) ∷ []);
        some_new = true;
        height = a.cached.height;
      } in
      elim a.forwards [
        | none ↦ some b'
        | some ids ↦ elim (last ids) [
          | none ↦ none
          | some id ↦ some (record b' { moved_tip = some id })
        ]
      ]

  -- The inner loop, on the queue. After unwinds it leaves the rest of the queue.
  unfoldable pub drain : Batch D → List BlockHeader → Batch D × Ending
  drain b [] = (record b { queue = [] }, drained)
  drain b (h ∷ hs) =
      let (c, o) = ChainDb.add_header x base genesis_block b.chaindb h in
      let b1 = record b { chaindb = c; queue = hs } in
      elim o [
        | ok none ↦ drain b1 hs
        | ok (some a) ↦ elim (noted b1 a) [
          | none ↦ (b1, panics)
          | some b2 ↦ elim a.unwinds [
            | none ↦ drain b2 hs
            | some ids ↦ elim (headers_of c ids) [
              | none ↦ (b2, panics)
              | some gone ↦ (record b2 { disconnected = b2.disconnected ++ gone }, drained)
            ]
          ]
        ]
        | err e ↦ (b1, ending_of e)
        | panic ↦ (b1, panics)
        | unfinished ↦ (b1, unending)
      ]

  unfoldable pub disconnections : List BlockHeader → List Notice
  disconnections [] = []
  disconnections (h ∷ hs) = block_disconnected h ∷ disconnections hs

  unfoldable pub connections : List (BlockHeader × ℕ) → List Notice
  connections [] = []
  connections ((h, n) ∷ hs) = header_connected h n ∷ connections hs

  unfoldable pub notify : HeaderDownload D → Batch D → HeaderDownload D
  unfolding disconnections connections
  notify s b = record s {
    downstream = s.downstream ++ (disconnections b.disconnected ++ connections b.connected);
  }

  -- The outer loop. `ok false`: the call returns early.
  unfoldable pub headers_loop :
      ℕ → HeaderDownload D → Batch D → PeerId → HeaderDownload D × Batch D × Outcome Bool
  headers_loop zero s b peer = (s, b, unfinished)
  headers_loop (suc fuel) s b peer =
      let (b1, ending) = drain (record b { connected = []; disconnected = [] }) b.queue in
      let s1 = record s { chaindb = b1.chaindb } in
      let (c2, o) = ChainDb.batch x base genesis_block b1.chaindb in
      let s2 = record s { chaindb = c2 } in
      elim b.queue [
        | [] ↦ (s, b, ok true)
        | _ ∷ _ ↦ elim ending [
          | drained ↦ elim o [
            | ok _ ↦ headers_loop fuel (notify s2 b1) (record b1 { chaindb = c2 }) peer
            | err e ↦ (s2, b1, err e)
            | panic ↦ (s2, b1, panic)
            | unfinished ↦ (s2, b1, unfinished)
          ]
          | bad_work ↦ (send s1 (Network.ban peer 100), b1, ok false)
          | failed ↦ (s1, b1, ok false)
          | panics ↦ (s1, b1, panic)
          | unending ↦ (s1, b1, unfinished)
        ]
      ]

  -- After the loop.
  unfoldable pub finish : HeaderDownload D → Batch D → ℕ → PeerId → HeaderDownload D
  finish s b now peer =
      let s1 = if b.some_new then get_headers s now peer else s in
      elim b.moved_tip [ none ↦ s1 | some _ ↦ send s1 (Network.height b.height) ]

  unfoldable pub headers :
      HeaderDownload D → ℕ → List BlockHeader → PeerId → HeaderDownload D × Outcome (Unit {0})
  headers s now hs peer =
      let s1 = record s { timeout = Timeout.received s.timeout now peer 1 Timeout.headers } in
      elim hs [
        | [] ↦ (s1, ok tt)
        | first ∷ rest ↦ elim (tip s1.chaindb.headercache) [
          | none ↦ (s1, err no_tip)
          | some t ↦
              let b : Batch D = record {
                chaindb = s1.chaindb;
                queue = first ∷ rest;
                connected = [];
                disconnected = [];
                some_new = false;
                moved_tip = none;
                height = t.height;
              } in
              let (s2, b2, o) = headers_loop (suc (length (first ∷ rest))) s1 b peer in
              elim o [
                | ok true ↦ (finish s2 b2 now peer, ok tt)
                | ok false ↦ (s2, ok tt)
                | err e ↦ (s2, err e)
                | panic ↦ (s2, panic)
                | unfinished ↦ (s2, unfinished)
              ]
        ]
      ]

  -- A message of `run`; an error is only logged.
  unfoldable pub on_message :
      HeaderDownload D
      → ℕ
      → Network.PeerMessage NetworkMessage
      → HeaderDownload D × Outcome (Unit {0})
  on_message s now (Network.connected pid addr) =
      (if is_serving_blocks s pid then get_headers s now pid else s, ok tt)
  on_message s now (Network.disconnected pid banned) = (s, ok tt)
  on_message s now (Network.incoming pid m) = elim m [
    | Messages.headers hs ↦ if is_serving_blocks s pid then headers s now hs pid else (s, ok tt)
    | Messages.inv is ↦ (if is_serving_blocks s pid then inv s now is pid else s, ok tt)
    | _ ↦ (s, ok tt)
  ]
  on_message s now (Network.outgoing m) = (s, ok tt)

  -- No message for a second.
  unfoldable pub on_pause : HeaderDownload D → ℕ → HeaderDownload D
  on_pause s now =
      let (t, bans) = Timeout.check s.timeout now (Timeout.headers ∷ []) in
      record s { timeout = t; controls = s.controls ++ bans }

  -- `run`, on what it receives and the pauses of a second in between.
  unfoldable pub run : HeaderDownload D → List Event → HeaderDownload D
  run s [] = s
  run s (message now m ∷ es) = run (on_message s now m).0 es
  run s (pause now ∷ es) = run (on_pause s now) es
