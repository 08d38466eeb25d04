-- ===== src/P2p/Connect.antt =====
-- `add_peer`, `connecting` and `connect` of src/p2p.rs: the future of a connection, from the first
-- poll to the disconnection.
use murmel.Common.{
  ℕ, Bool, true, false, Option, none, some, List, [], ◌∷◌, nat_eq, ◌||◌, if◌then◌else◌,
}
use murmel.Common.Map
use murmel.Buffer
use murmel.Outcome.{Foreign, Error, Outcome, ok, err, panic, unfinished, io, handshake}
use murmel.Network.{PeerId, PeerId-Eq}
use murmel.P2p.{Peer, System, send}
use murmel.P2p.Net.{Net, drop_peer, put_peer}

pub data PeerSource : Type 0 where
  outgoing : ℕ → PeerSource
  incoming : PeerSource

pub data Accepted : Type 0 where
  refused : Foreign → Accepted
  accepted : ℕ → Accepted

-- The answers of the system to a new connection: an error of opening a stream, what a listener
-- accepts, what the stream's `peer_addr` gives, and an error of registering it.
pub record Dial : Type 0 where
  pub opening : Option Foreign
  pub accepting : Accepted
  pub peer_addr : Option ℕ
  pub registering : Option Foreign

-- `Peer::new`.
unfoldable pub new_peer : {Message : Type 0} → Option ℕ → Bool → Peer Message
new_peer address out = record {
  read_buffer = Buffer.new;
  write_buffer = Buffer.new;
  got_verack = false;
  version = none;
  queue = [];
  writeable = false;
  connected = false;
  ban = 0;
  outgoing = out;
  address = address;
}

-- Where the future of a connection stands; `starting` has this node's version message.
pub data Phase (Message : Type 0) : Type 0 where
  starting : Message → PeerSource → Phase Message
  handshaking : ℕ → Phase Message
  keeping : ℕ → Phase Message
  finished : Outcome ℕ → Phase Message

module _ {Message : Type 0} (sys : System) where
  unfoldable pub already_connected : List (PeerId × Peer Message) → ℕ → Bool
  already_connected [] a = false
  already_connected ((_, p) ∷ ps) a =
      elim p.address [ none ↦ false | some b ↦ nat_eq (sys.ip a) (sys.ip b) ]
      || already_connected ps a

  module _ (pid : PeerId) where
    -- The end of `connect`: the peer goes into the map, and is registered.
    unfoldable pub enter : Net Message → Message → Dial → ℕ → Bool → Net Message × Outcome ℕ
    enter net version dial addr out =
        let p = new_peer dial.peer_addr out in
        elim dial.registering [
          | some e ↦ (put_peer net pid p, err (io e))
          | none ↦
              if out
              then (let (q, o) = send sys pid (record p { writeable = true }) version in
                  (
                    put_peer net pid q,
                    elim o [
                      | ok _ ↦ ok addr
                      | err e ↦ err e
                      | panic ↦ panic
                      | unfinished ↦ unfinished
                    ],
                  ))
              else (put_peer net pid p, ok addr)
        ]

    -- A second connection with an IP is rejected.
    unfoldable pub connect : Net Message → Message → PeerSource → Dial → Net Message × Outcome ℕ
    connect net version (PeerSource.outgoing a) dial =
        if already_connected net.peers a
        then (net, err handshake)
        else elim dial.opening [ some e ↦ (net, err (io e)) | none ↦ enter net version dial a true ]
    connect net version PeerSource.incoming dial = elim dial.accepting [
      | refused e ↦ (net, err (io e))
      | accepted a ↦
          if already_connected net.peers a
          then (net, err handshake)
          else enter net version dial a false
    ]

    -- The future waits, and will be woken.
    unfoldable pub waits : Net Message → Net Message
    waits net = record net { wakers = Map.insert net.wakers pid tt }

    -- `map_err` of `add_peer`.
    unfoldable pub fails : Net Message → Error → Net Message × Phase Message
    fails net e = (drop_peer net pid, finished (err e))

    -- A connected peer: the future ends when the peer is no longer in the map.
    unfoldable pub keep : Net Message → ℕ → Net Message × Phase Message
    keep net addr = elim (Map.get net.peers pid) [
      | some _ ↦ (waits net, keeping addr)
      | none ↦ (net, finished (ok addr))
    ]

    -- Before the handshake is complete; `timed_out` is the error of the timer, once it has fired.
    unfoldable pub shake : Net Message → ℕ → Option Foreign → Net Message × Phase Message
    shake net addr timed_out = elim (Map.get net.peers pid) [
      | none ↦ fails net handshake
      | some p ↦ if p.connected then keep net addr else elim timed_out [
        | none ↦ (waits net, handshaking addr)
        | some e ↦ fails (waits net) (io e)
      ]
    ]

    -- A poll of the future.
    unfoldable pub poll :
        Net Message → Phase Message → Dial → Option Foreign → Net Message × Phase Message
    poll net (starting version source) dial timed_out =
        let (entered, o) = connect net version source dial in
        elim o [
          | ok addr ↦ shake entered addr timed_out
          | err e ↦ fails entered e
          | panic ↦ (entered, finished panic)
          | unfinished ↦ (entered, finished unfinished)
        ]
    poll net (handshaking addr) dial timed_out = shake net addr timed_out
    poll net (keeping addr) dial timed_out = keep net addr
    poll net (finished o) dial timed_out = (net, finished o)
