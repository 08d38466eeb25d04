-- ===== src/P2p/Tests.antt =====
-- Runs of the network layer at small inputs, with messages that are numbers: a chunk of the buffer is
-- a message, 1 is a verack, and 2 a version.
use murmel.Common.{
  ℕ, ◌≡◌, refl, true, false, Option, none, some, List, [], ◌∷◌, nat_eq, if◌then◌else◌, arith, inr,
}
use murmel.Common.Map
use murmel.Buffer.{Buffer, read_advance, write}
use murmel.Buffer.Tape.{bytes, reads, step, run}
use murmel.Buffer.Refine.{IsValid, view}
use murmel.Outcome.{ok}
use murmel.Network.{PeerId, PeerId-Eq, VersionCarrier}
use murmel.Network
use murmel.P2p.{
  Peer, P2PConfig, System, reregister_write, send, sending, remember, on_version, settle, settled,
  on_verack, on_handshake, on_message, read_messages, read_bytes,
}
use murmel.P2p.Handshake.{IsShaken}
use murmel.P2p.Net.{Net, dispatch, wake, put_peer, deliver, after_reading, readable}
use murmel.P2p.Peers.{Each, readable-IsShaken}
use murmel.P2p.Ban.{IsBelow, readable-silent}
use murmel.P2p.Bitcoin.{Decoded, unexpected_eof, decode}
use murmel.P2p.Decode.{decode-incomplete}

abbrev pub empty : Buffer
empty = record { chunks = []; pos = (0, 0); checkpoint = (0, 0) }

abbrev their_version : VersionCarrier
their_version = record {
  version = 70002;
  services = 1;
  timestamp = 0;
  receiver = 0;
  sender = 0;
  nonce = 5;
  user_agent = "peer";
  start_height = 7;
  relay = true;
}

abbrev first_message : List (List ℕ) → Option ℕ
first_message [] = none
first_message ([] ∷ cs) = none
first_message ((b ∷ bs) ∷ cs) = some b

abbrev pub numbers : P2PConfig ℕ ℕ
numbers = record {
  version = λ height addr max. 2;
  nonce = 9;
  max_protocol_version = 70001;
  min_protocol_version = 70001;
  verack = 1;
  wrap = λ m. m;
  unwrap = λ m. some m;
  encode = λ e b. ((write b (e ∷ [])).1, ok tt);
  decode = λ b. (empty, ok (first_message b.chunks));
  is_version = λ m. if nat_eq m 2 then some their_version else none;
  is_verack = λ m. nat_eq m 1;
}

abbrev pub quiet_system : System
quiet_system = record {
  reregister = λ pid. none;
  no_address = record { description = ""; display = "" };
  ip = λ a. a;
}

abbrev pub pid : PeerId
pid = record { network = "bitcoin"; token = 3 }

abbrev pub new_peer : Peer ℕ
new_peer = record {
  read_buffer = empty;
  write_buffer = empty;
  got_verack = false;
  version = none;
  queue = [];
  writeable = false;
  connected = false;
  ban = 90;
  outgoing = true;
  address = some 4;
}

abbrev pub net : Net ℕ
net = record { peers = (pid, new_peer) ∷ []; height = 6; wakers = []; woken = []; dispatched = [] }

abbrev pub acked : Peer ℕ
acked = record new_peer { got_verack = true }

-- After a verack the peer waits for a version.
got_verack :
    Map.get (readable numbers quiet_system pid net 1 9 (some (1 ∷ []))).0.peers pid ≡ some acked
unfolding Map.get Map.insert write readable read_bytes read_messages on_message on_handshake
    on_verack settled settle after_reading deliver put_peer
got_verack = refl

-- After both the peer is connected.
shaken :
    (readable numbers quiet_system pid
      (record net { peers = (pid, acked) ∷ [] })
      1
      9
      (some (2 ∷ []))).0.dispatched
    ≡ Network.connected pid (some 4) ∷ []
unfolding Map.get Map.insert write readable read_bytes read_messages on_message on_handshake
    on_version sending send reregister_write remember on_verack settled settle after_reading deliver
    put_peer dispatch wake
shaken = refl

get-net : (q : PeerId) (p : Peer ℕ) → Map.get net.peers q ≡ some p → new_peer ≡ p
unfolding Map.get
get-net q p h = ground (arith, h)

net-IsShaken : Each (IsShaken numbers 1) net
net-IsShaken q p h =
    rw (← get-net q p h) (record { fits = λ v e. absurd (cc); complete = λ e. absurd (cc) })

net-IsBelow : Each IsBelow net
net-IsBelow q p h = rw (← get-net q p h) (omega arith)

readable-IsShaken_example :
    Each (IsShaken numbers 1) (readable numbers quiet_system pid net 1 9 (some (1 ∷ []))).0
readable-IsShaken_example =
    readable-IsShaken numbers quiet_system pid 1 net 9 (some (1 ∷ [])) net-IsShaken

readable-silent_example :
    (readable numbers quiet_system pid net 1 9 (some (1 ∷ []))).0.dispatched ≡ []
readable-silent_example =
    readable-silent numbers quiet_system pid 1 net 9 (some (1 ∷ [])) acked net-IsShaken got_verack
      refl

known : Map.get net.peers pid ≡ some new_peer
unfolding Map.get
known = refl

-- A decoder that reads two bytes of three and finds no message.
abbrev pub three_bytes : Buffer
three_bytes = record { chunks = (1 ∷ 2 ∷ 3 ∷ []) ∷ []; pos = (0, 0); checkpoint = (0, 0) }

abbrev two_read : Buffer
two_read = record three_bytes { pos = (0, 2) }

pub three_bytes-IsValid : IsValid three_bytes
three_bytes-IsValid = record {
  pos_in = inr (1 ∷ 2 ∷ 3 ∷ [], refl, omega arith);
  checkpoint_in = inr (1 ∷ 2 ∷ 3 ∷ [], refl, omega arith);
  ordered = omega arith;
}

decoder : Buffer → Buffer × Decoded
decoder b = (two_read, unexpected_eof)

two_bytes_read : run three_bytes (reads 2 ∷ []) ≡ some (bytes (1 ∷ 2 ∷ []) ∷ [], two_read)
unfolding run step read_advance
two_bytes_read = refl

decode-incomplete_example :
    ((decode decoder three_bytes).1 ≡ ok none)
    × IsValid (decode decoder three_bytes).0
    × (view (decode decoder three_bytes).0 ≡ record { taken = []; rest = 1 ∷ 2 ∷ 3 ∷ [] })
unfolding decoder
decode-incomplete_example =
    decode-incomplete decoder three_bytes two_read (2 ∷ []) (bytes (1 ∷ 2 ∷ []) ∷ [])
      three_bytes-IsValid two_bytes_read refl
