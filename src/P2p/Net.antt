-- ===== src/P2p/Net.antt =====
-- The network layer of src/p2p.rs as a state: its map of peers, the wakers of waiting futures, and the
-- log of what it sends to the dispatcher; disconnect, ban, the control loop and the events of a peer.
use murmel.Common.{
  ℕ, ◌+◌, ◌%◌, ◌^◌, Bool, true, false, Option, none, some, List, [], ◌∷◌, ◌++◌, leb, if◌then◌else◌,
}
use murmel.Common.Map
use murmel.Outcome.{Outcome, ok, err, panic, unfinished}
use murmel.Network.{PeerId, PeerId-Eq, PeerMessage, P2PControl}
use murmel.Network
use murmel.P2p.{Peer, P2PConfig, System, Reading, ban_limit, send, read_bytes}

-- `woken` logs the futures that were woken, `dispatched` what the dispatcher was sent.
pub record Net (Message : Type 0) : Type 0 where
  pub peers : List (PeerId × Peer Message)
  pub height : ℕ
  pub wakers : List (PeerId × Unit {0})
  pub woken : List PeerId
  pub dispatched : List (PeerMessage Message)

module _ {Message : Type 0} where
  unfoldable pub dispatch : Net Message → PeerMessage Message → Net Message
  dispatch net m = record net { dispatched = net.dispatched ++ (m ∷ []) }

  unfoldable pub wake : Net Message → PeerId → Net Message
  wake net pid = elim (Map.get net.wakers pid) [
    | none ↦ net
    | some _ ↦ record net { wakers = Map.remove net.wakers pid; woken = net.woken ++ (pid ∷ []) }
  ]

  unfoldable pub drop_peer : Net Message → PeerId → Net Message
  drop_peer net pid = record net { peers = Map.remove net.peers pid }

  unfoldable pub put_peer : Net Message → PeerId → Peer Message → Net Message
  put_peer net pid p = record net { peers = Map.insert net.peers pid p }

  unfoldable pub disconnect : Net Message → PeerId → Bool → Net Message
  disconnect net pid banned =
      wake (drop_peer (dispatch net (Network.disconnected pid banned)) pid) pid

  -- The score is a `u32`, which wraps (the release build).
  unfoldable pub ban : Net Message → PeerId → ℕ → Net Message
  ban net pid increment = elim (Map.get net.peers pid) [
    | none ↦ net
    | some p ↦
        let score = (p.ban + increment) % 2 ^ 32 in
        let scored = put_peer net pid (record p { ban = score }) in
        if leb ban_limit score then disconnect scored pid true else scored
  ]

module _ {Message Envelope : Type 0} (cfg : P2PConfig Message Envelope) (sys : System)
    (pid : PeerId) where
  -- Messages to process, in order.
  unfoldable pub deliver : Net Message → List Envelope → Net Message
  deliver net [] = net
  deliver net (e ∷ es) = elim (cfg.unwrap e) [
    | some m ↦ deliver (dispatch net (Network.incoming pid m)) es
    | none ↦ deliver (disconnect net pid true) es
  ]

  unfoldable pub after_reading : Net Message → Reading Message Envelope → Net Message
  after_reading net r =
      if r.disconnect
      then disconnect net pid r.ban
      else if r.handshake
      then deliver (wake (dispatch net (Network.connected pid r.address)) pid) r.incoming
      else deliver net r.incoming

  -- The event of a readable peer. `read` is what the stream gives, `none` an error; `rounds` bounds
  -- the turns of the loop.
  unfoldable pub readable : Net Message → ℕ → ℕ → Option (List ℕ) → Net Message × Outcome (Unit {0})
  readable net needed_services rounds read = elim (Map.get net.peers pid) [
    | none ↦ (net, ok tt)
    | some p ↦ elim read [
      | none ↦ (disconnect net pid false, ok tt)
      | some bytes ↦
          let (r, o) = read_bytes cfg sys pid needed_services net.height rounds p bytes in
          let read_net = put_peer net pid r.peer in
          elim o [
            | ok _ ↦ (after_reading read_net r, ok tt)
            | err e ↦ (read_net, err e)
            | panic ↦ (read_net, panic)
            | unfinished ↦ (read_net, unfinished)
          ]
    ]
  ]

-- A message to every peer; `expect` panics on an error.
unfoldable pub broadcast :
    {Message : Type 0}
    → System
    → Message
    → List (PeerId × Peer Message)
    → Outcome (List (PeerId × Peer Message))
broadcast sys m [] = ok []
broadcast sys m ((pid, p) ∷ ps) =
    let (q, o) = send sys pid p m in
    let rest = broadcast sys m ps in
    elim o [
      | ok _ ↦ elim rest [
        | ok qs ↦ ok ((pid, q) ∷ qs)
        | err e ↦ err e
        | panic ↦ panic
        | unfinished ↦ unfinished
      ]
      | _ ↦ panic
    ]

-- A turn of `control_loop`; binding a listener is left to the system.
unfoldable pub control :
    {Message : Type 0} → System → Net Message → P2PControl Message → Outcome (Net Message)
control sys net (Network.ban pid score) = ok (ban net pid score)
control sys net (Network.height h) = ok (record net { height = h })
control sys net (Network.bind addr) = ok net
control sys net (Network.broadcast m) = elim (broadcast sys m net.peers) [
  | ok ps ↦ ok (record net { peers = ps })
  | err e ↦ err e
  | panic ↦ panic
  | unfinished ↦ unfinished
]
control sys net (Network.send pid m) = elim (Map.get net.peers pid) [
  | none ↦ ok net
  | some p ↦ let (q, o) = send sys pid p m in elim o [ ok _ ↦ ok (put_peer net pid q) | _ ↦ panic ]
]
