-- ===== src/Network.antt =====
-- Names of src/p2p.rs that its clients share: peers' ids, messages to and from the network layer, and
-- the version message. An address is a number that identifies it.
use Prim.Native.String.{String}
use murmel.Common.{ℕ, ◌≡◌, ◌^◌, Bool, true, ◌&&◌, ◌↔◌, Option, Eq, ◌==◌, arith, nat_eq, String-Eq}

pub record PeerId : Type 0 where
  pub network : String
  pub token : ℕ

abbrev pub pid_eq : PeerId → PeerId → Bool
pid_eq p q = (p.network == q.network) && nat_eq p.token q.token

pub pid_eq_iff : (p q : PeerId) → (pid_eq p q ≡ true) ↔ (p ≡ q)
pid_eq_iff p q = ground (arith, (String-Eq).beq_iff p.network q.network)

instance abbrev pub PeerId-Eq : Eq PeerId
PeerId-Eq = record { beq = pid_eq; beq_iff = pid_eq_iff }

-- A message from network to downstream.
pub data PeerMessage (Message : Type 0) : Type 0 where
  outgoing : Message → PeerMessage Message
  incoming : PeerId → Message → PeerMessage Message
  connected : PeerId → Option ℕ → PeerMessage Message
  disconnected : PeerId → Bool → PeerMessage Message

pub data P2PControl (Message : Type 0) : Type 0 where
  send : PeerId → Message → P2PControl Message
  broadcast : Message → P2PControl Message
  ban : PeerId → ℕ → P2PControl Message
  height : ℕ → P2PControl Message
  bind : ℕ → P2PControl Message

pub record VersionCarrier : Type 0 where
  pub version : ℕ
  pub services : ℕ
  pub timestamp : ℕ
  pub receiver : ℕ
  pub sender : ℕ
  pub nonce : ℕ
  pub user_agent : String
  pub start_height : ℕ
  pub relay : Bool

-- `SERVICE_BLOCKS`, `SERVICE_WITNESS` and `SERVICE_FILTERS`.
abbrev pub service_blocks : ℕ
service_blocks = 1

abbrev pub service_witness : ℕ
service_witness = 2 ^ 3

abbrev pub service_filters : ℕ
service_filters = 2 ^ 6
