-- ===== src/P2p.antt =====
-- The network layer of src/p2p.rs: a peer, the messages of its handshake, and what the layer does
-- with a readable peer, a disconnect and a ban.
-- Messages and envelopes are parameters, as in the source; `P2PConfig` is the trait of that name. What
-- the system answers (poll registration, bytes of a read) is an argument. The message queue of a
-- peer is a list; the dispatcher's channel is the list of what was sent to it.
use murmel.Common.{
  ℕ, zero, suc, ◌+◌, ◌*◌, ◌/◌, ◌%◌, ◌^◌, min, Bool, true, false, not, ◌&&◌, ◌||◌, Option, none,
  some, List, [], ◌∷◌, ◌++◌, length, ltb, nat_eq, is_some, if◌then◌else◌,
}
pub mod Net
pub mod Handshake
pub mod Progress
pub mod Decoding
pub mod DecodingTests
pub mod Peers
pub mod Ban
pub mod Bitcoin
pub mod Decode
pub mod Write
pub mod Flow
pub mod Blocked
pub mod Sends
pub mod Stall
pub mod StallTests
pub mod Event
pub mod Stable
pub mod Connect
pub mod Node
pub mod Every
pub mod Broadcast
pub mod Sender
pub mod Stored
pub mod Futures
pub mod Wakes
pub mod Good
pub mod Reachable
pub mod Tests
pub mod FlowTests
pub mod NodeTests
use Prim.Native.Nat.{bit_and}
use murmel.Buffer.{Buffer, sum_len}
use murmel.Buffer
use murmel.Outcome.{Foreign, Error, Outcome, ok, err, panic, unfinished, io}
use murmel.Network.{PeerId, PeerId-Eq, PeerMessage, VersionCarrier}

-- A peer; `queue` is what its channel holds, `address` what its stream's `peer_addr` gives.
pub record Peer (Message : Type 0) : Type 0 where
  pub read_buffer : Buffer
  pub write_buffer : Buffer
  pub got_verack : Bool
  pub version : Option VersionCarrier
  pub queue : List Message
  pub writeable : Bool
  pub connected : Bool
  pub ban : ℕ
  pub outgoing : Bool
  pub address : Option ℕ

-- The traits `P2PConfig` and `Version`. The height that `version` announces is its first argument.
-- `unwrap` gives `none` for an error.
pub record P2PConfig (Message Envelope : Type 0) : Type 0 where
  pub version : ℕ → ℕ → ℕ → Message
  pub nonce : ℕ
  pub max_protocol_version : ℕ
  pub min_protocol_version : ℕ
  pub verack : Message
  pub wrap : Message → Envelope
  pub unwrap : Envelope → Option Message
  pub encode : Envelope → Buffer → Buffer × Outcome (Unit {0})
  pub decode : Buffer → Buffer × Outcome (Option Envelope)
  pub is_version : Message → Option VersionCarrier
  pub is_verack : Message → Bool

-- The answers of the system: of registering a peer with the poll again, the error of a stream that has
-- lost its address, and the IP of an address.
pub record System : Type 0 where
  pub reregister : PeerId → Option Foreign
  pub no_address : Foreign
  pub ip : ℕ → ℕ

-- `BAN`.
abbrev pub ban_limit : ℕ
ban_limit = 100

-- What `event_processor` collects while it reads.
pub record Reading (Message Envelope : Type 0) : Type 0 where
  pub peer : Peer Message
  pub incoming : List Envelope
  pub disconnect : Bool
  pub ban : Bool
  pub handshake : Bool
  pub address : Option ℕ

module _ {Message : Type 0} (sys : System) (pid : PeerId) where
  -- `swap(true)`, and the registration if the flag was down.
  unfoldable pub reregister_write : Peer Message → Peer Message × Outcome (Unit {0})
  reregister_write p = elim p.writeable [
    | true ↦ (p, ok tt)
    | false ↦ (
      record p { writeable = true },
      elim (sys.reregister pid) [ none ↦ ok tt | some e ↦ err (io e) ],
    )
  ]

  -- `swap(false)`, and the registration if the flag was up.
  unfoldable pub reregister_read : Peer Message → Peer Message × Outcome (Unit {0})
  reregister_read p = elim p.writeable [
    | false ↦ (p, ok tt)
    | true ↦ (
      record p { writeable = false },
      elim (sys.reregister pid) [ none ↦ ok tt | some e ↦ err (io e) ],
    )
  ]

  unfoldable pub send : Peer Message → Message → Peer Message × Outcome (Unit {0})
  send p m = reregister_write (record p { queue = p.queue ++ (m ∷ []) })

module _ {Message Envelope : Type 0} (cfg : P2PConfig Message Envelope) (sys : System)
    (pid : PeerId) (needed_services height : ℕ) where
  -- A turn of the loop gives whether the loop goes on (`false`: a `break`).
  abbrev pub Turn : Type 0
  Turn = Reading Message Envelope × Outcome Bool

  abbrev pub with_peer : Reading Message Envelope → Peer Message → Reading Message Envelope
  with_peer r p = record r { peer = p }

  -- The statement `disconnect = true; ban = b; break;`.
  abbrev pub breaks : Reading Message Envelope → Bool → Turn
  breaks r b = (record r { disconnect = true; ban = r.ban || b }, ok false)

  -- `send(..)?`, and what follows it.
  unfoldable pub sending :
      Reading Message Envelope → Message → (Reading Message Envelope → Turn) → Turn
  sending r m k =
      let (p, o) = send sys pid r.peer m in
      elim o [
        | ok _ ↦ k (with_peer r p)
        | err e ↦ (with_peer r p, err e)
        | panic ↦ (with_peer r p, panic)
        | unfinished ↦ (with_peer r p, unfinished)
      ]

  unfoldable pub remember : VersionCarrier → Reading Message Envelope → Turn
  remember v r = (
    with_peer r (record r.peer {
      version = some (record v { version = min v.version cfg.max_protocol_version });
    }),
    ok true,
  )

  -- An incoming peer gets this node's version, of no higher number than the peer's, and a verack.
  unfoldable pub answer_version : Reading Message Envelope → VersionCarrier → Turn
  answer_version r v = elim r.peer.address [
    | none ↦ (r, err (io sys.no_address))
    | some addr ↦
        sending r (cfg.version height addr v.version) (λ s. sending s cfg.verack (remember v))
  ]

  -- A version message before the handshake is complete.
  unfoldable pub on_version : Reading Message Envelope → VersionCarrier → Turn
  on_version r v =
      if is_some r.peer.version
      then breaks r true
      else if nat_eq v.nonce cfg.nonce
      then breaks r true
      else if ltb v.version cfg.min_protocol_version
          || not (nat_eq (bit_and needed_services v.services) needed_services)
      then breaks r false
      else if not r.peer.outgoing
      then answer_version r v
      else if ltb v.start_height height
      then breaks r false
      else sending r cfg.verack (remember v)

  -- Both messages are there: the handshake is complete.
  unfoldable pub settle : Reading Message Envelope → Reading Message Envelope
  settle r =
      if is_some r.peer.version && r.peer.got_verack
      then record r {
        peer = record r.peer { connected = true };
        handshake = true;
        address = r.peer.address;
      }
      else r

  unfoldable pub settled : Turn → Turn
  settled (r, ok true) = (settle r, ok true)
  settled (r, ok false) = (r, ok false)
  settled (r, err e) = (r, err e)
  settled (r, panic) = (r, panic)
  settled (r, unfinished) = (r, unfinished)

  unfoldable pub on_verack : Reading Message Envelope → Turn
  on_verack r =
      if r.peer.got_verack
      then breaks r true
      else (with_peer r (record r.peer { got_verack = true }), ok true)

  unfoldable pub on_handshake : Reading Message Envelope → Message → Turn
  on_handshake r m = elim (cfg.is_version m) [
    | some v ↦ settled (on_version r v)
    | none ↦ if cfg.is_verack m then settled (on_verack r) else breaks r true
  ]

  -- One decoded message.
  unfoldable pub on_message : Reading Message Envelope → Envelope → Turn
  on_message r e =
      if r.peer.connected
      then (record r { incoming = r.incoming ++ (e ∷ []) }, ok true)
      else if is_some r.peer.version && r.peer.got_verack
      then (r, ok true)
      else elim (cfg.unwrap e) [ none ↦ breaks r true | some m ↦ on_handshake r m ]

  -- `while let Some(msg) = decode(..)?`.
  unfoldable pub read_messages :
      ℕ → Reading Message Envelope → Reading Message Envelope × Outcome (Unit {0})
  read_messages zero r = (r, unfinished)
  read_messages (suc fuel) r =
      let (b, decoded) = cfg.decode r.peer.read_buffer in
      let q = with_peer r (record r.peer { read_buffer = b }) in
      elim decoded [
        | ok none ↦ (q, ok tt)
        | ok (some e) ↦
            let (s, turn) = on_message q e in
            elim turn [
              | ok true ↦ read_messages fuel s
              | ok false ↦ (s, ok tt)
              | err f ↦ (s, err f)
              | panic ↦ (s, panic)
              | unfinished ↦ (s, unfinished)
            ]
        | err f ↦ (q, err f)
        | panic ↦ (q, panic)
        | unfinished ↦ (q, unfinished)
      ]

  -- The bytes of a successful read. `rounds` turns of the loop are allowed.
  unfoldable pub read_bytes :
      ℕ → Peer Message → List ℕ → Reading Message Envelope × Outcome (Unit {0})
  read_bytes rounds p bytes = read_messages rounds (record {
    peer = record p { read_buffer = (Buffer.write p.read_buffer bytes).1 };
    incoming = [];
    disconnect = nat_eq (length bytes) 0;
    ban = false;
    handshake = false;
    address = none;
  })
