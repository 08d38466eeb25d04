-- ===== src/Constructor.antt =====
-- `Constructor` and `KeepConnected` of src/constructor.rs: how the stack is put together, and how it
-- keeps connections. Opening a database, random numbers and the magic number of a network are arguments.
use murmel.Common.{
  ℕ, ◌%◌, Bool, true, false, not, Option, none, some, List, [], ◌∷◌, map, ltb, nat_eq, length,
  get_elem?, if◌then◌else◌,
}
use murmel.External.{BlockHeader, External, Network}
use murmel.Outcome.{Outcome, ok, err, panic, unfinished}
use murmel.Network.{P2PControl}
use murmel.Network
use murmel.ChainDb.{Database, ChainDb, init_headers}
use murmel.HeaderCache
use murmel.P2p.{Peer, P2PConfig, System}
use murmel.P2p.Net.{Net}
use murmel.P2p.Bitcoin.{BitcoinP2PConfig}
use murmel.P2p.Connect.{outgoing}
use murmel.P2p.Node.{Node, add_peer}
pub mod Keeping
pub mod Tests

abbrev pub max_protocol_version : ℕ
max_protocol_version = 70001

-- `open_db`, on what opening has given.
unfoldable pub open_db :
    {D : Type 0}
    → External
    → Database D
    → (Network → BlockHeader)
    → ℕ
    → Outcome D
    → Network
    → Outcome (ChainDb D)
open_db x base genesis fuel opened network = elim opened [
  | ok d ↦
      let (c, o) =
        init_headers x base genesis fuel
          (record { db = d; headercache = HeaderCache.new network; network = network }) in
      elim o [ ok _ ↦ ok c | err e ↦ err e | panic ↦ panic | unfinished ↦ unfinished ]
  | err e ↦ err e
  | panic ↦ panic
  | unfinished ↦ unfinished
]

abbrev pub is_empty : List ℕ → Bool
is_empty [] = true
is_empty (a ∷ rest) = false

-- `Constructor::new`: the configuration of the network layer, and the commands that it is sent.
unfoldable pub p2p_config : (Network → ℕ) → Network → ℕ → List ℕ → BitcoinP2PConfig
p2p_config magic network nonce listen = record {
  magic = magic network;
  nonce = nonce;
  user_agent = "murmel: 0.1.0";
  max_protocol_version = max_protocol_version;
  server = not (is_empty listen);
}

unfoldable pub bind_commands : {Message : Type 0} → List ℕ → List (P2PControl Message)
bind_commands listen = map Network.bind listen

-- `n_connected_peers` and `connected_peers` of src/p2p.rs.
unfoldable pub n_connected_peers : {Message : Type 0} → Net Message → ℕ
n_connected_peers net = length net.peers

unfoldable pub addresses_of : {K Message : Type 0} → List (K × Peer Message) → List ℕ
addresses_of [] = []
addresses_of ((_, p) ∷ ps) =
    let rest = addresses_of ps in elim p.address [ none ↦ rest | some a ↦ a ∷ rest ]

unfoldable pub connected_peers : {Message : Type 0} → Net Message → List ℕ
connected_peers net = addresses_of net.peers

pub record KeepConnected : Type 0 where
  pub dns : List ℕ
  pub earlier : List ℕ
  pub min_connections : ℕ

unfoldable pub contains : List ℕ → ℕ → Bool
contains [] a = false
contains (b ∷ bs) a = if nat_eq b a then true else contains bs a

unfoldable pub eligible : List ℕ → List ℕ → List ℕ
eligible earlier [] = []
eligible earlier (a ∷ dns) =
    let rest = eligible earlier dns in if contains earlier a then rest else a ∷ rest

-- `poll`: the address to connect to, if there is one. `random` is `next_u32`.
unfoldable pub poll : KeepConnected → ℕ → ℕ → KeepConnected × Option ℕ
poll k connected random =
    if ltb connected k.min_connections
    then (let addresses = eligible k.earlier k.dns in
        elim (get_elem? addresses (random % length addresses)) [
          | none ↦ (k, none)
          | some choice ↦ (record k { earlier = choice ∷ k.earlier }, some choice)
        ])
    else (k, none)

-- The interval polls a clone each time; the numbers are the connections and the random number.
unfoldable pub interval : KeepConnected → List (ℕ × ℕ) → List (Option ℕ)
interval k [] = []
interval k ((connected, random) ∷ ticks) = (poll k connected random).1 ∷ interval k ticks

module _ {Message Envelope : Type 0} (cfg : P2PConfig Message Envelope) (sys : System)
    (localhost : ℕ) where
  -- `run`: the services needed are none; the given peers are connected to first.
  abbrev pub needed_services : ℕ
  needed_services = 0

  unfoldable pub connect_peers : Node Message → List ℕ → Node Message
  connect_peers node [] = node
  connect_peers node (a ∷ peers) =
      connect_peers (add_peer cfg sys needed_services localhost node "bitcoin" (outgoing a)) peers

  -- A tick of the interval.
  unfoldable pub tick : Node Message → KeepConnected → ℕ → Node Message
  tick node k random = elim (poll k (n_connected_peers node.net) random).1 [
    | none ↦ node
    | some a ↦ add_peer cfg sys needed_services localhost node "bitcoin" (outgoing a)
  ]
