-- ===== src/P2p/Node.antt =====
-- The whole network layer of src/p2p.rs as a machine: the map of peers, the listeners, and the
-- futures of the connections. Its steps are the turns of the control loop, the events of the poll,
-- new connections, and polls of the futures, in any order.
-- The counter of tokens is taken not to exceed `usize`.
use Prim.Native.String.{String}
use murmel.Common.{
  ℕ, ◌+◌, ◌≡◌, Bool, false, Option, none, some, List, [], ◌∷◌, nat_eq, ◌||◌, if◌then◌else◌,
}
use murmel.Common.Map
use murmel.Outcome.{Foreign, Outcome, ok, err, panic, unfinished}
use murmel.Network.{PeerId, PeerId-Eq, P2PControl}
use murmel.Network
use murmel.P2p.{P2PConfig, System}
use murmel.P2p.Net.{Net, control}
use murmel.P2p.Event.{Readiness, Answers, on_event}
use murmel.P2p.Connect.{PeerSource, incoming, Dial, Phase, starting, poll}

pub record Node (Message : Type 0) : Type 0 where
  pub net : Net Message
  pub next_peer_id : ℕ
  pub listener : List ℕ
  pub tasks : List (PeerId × Phase Message)

-- `P2P::new`, at a height of the chain.
unfoldable pub new_node : {Message : Type 0} → ℕ → Node Message
new_node height = record {
  net = record { peers = []; height = height; wakers = []; woken = []; dispatched = [] };
  next_peer_id = 0;
  listener = [];
  tasks = [];
}

unfoldable pub is_listener : List ℕ → ℕ → Bool
is_listener [] token = false
is_listener (l ∷ ls) token = nat_eq l token || is_listener ls token

-- `add_listener`, with the errors of binding and of registering.
unfoldable pub add_listener :
    {Message : Type 0} → Node Message → Option Foreign → Option Foreign → Node Message
add_listener node (some _) registering = node
add_listener node none (some _) = record node { next_peer_id = node.next_peer_id + 1 }
add_listener node none none = record node {
  next_peer_id = node.next_peer_id + 1;
  listener = node.next_peer_id ∷ node.listener;
}

-- The command `Bind`.
unfoldable pub binds :
    {Message : Type 0}
    → P2PControl Message
    → Option Foreign
    → Option Foreign
    → Node Message
    → Node Message
binds (Network.bind _) binding registering node = add_listener node binding registering
binds (Network.send _ _) binding registering node = node
binds (Network.broadcast _) binding registering node = node
binds (Network.ban _ _) binding registering node = node
binds (Network.height _) binding registering node = node

module _ {Message Envelope : Type 0} (cfg : P2PConfig Message Envelope) (sys : System)
    (needed_services localhost : ℕ) where
  -- `add_peer`: a new token, and a future that has not been polled.
  unfoldable pub add_peer : Node Message → String → PeerSource → Node Message
  add_peer node network source =
      let pid : PeerId = record { network = network; token = node.next_peer_id } in
      record node {
        next_peer_id = node.next_peer_id + 1;
        tasks =
            Map.insert node.tasks pid
              (starting (cfg.version node.net.height localhost cfg.max_protocol_version) source);
      }

  -- An event of `poll_events`.
  unfoldable pub poll_event :
      Node Message → String → ℕ → ℕ → Readiness → Answers → Outcome (Node Message)
  poll_event node network token rounds ready answers =
      if is_listener node.listener token
      then ok (add_peer node network incoming)
      else elim (on_event cfg sys (record { network = network; token = token }) needed_services
          rounds node.net ready answers) [
            | ok net ↦ ok (record node { net = net })
            | err e ↦ err e
            | panic ↦ panic
            | unfinished ↦ unfinished
          ]

  -- A turn of `control_loop`.
  unfoldable pub control_node :
      Node Message → P2PControl Message → Option Foreign → Option Foreign → Outcome (Node Message)
  control_node node c binding registering = elim (control sys node.net c) [
    | ok net ↦ ok (binds c binding registering (record node { net = net }))
    | err e ↦ err e
    | panic ↦ panic
    | unfinished ↦ unfinished
  ]

  -- A poll of the future of a connection.
  unfoldable pub poll_task : Node Message → PeerId → Dial → Option Foreign → Node Message
  poll_task node pid dial timed_out = elim (Map.get node.tasks pid) [
    | none ↦ node
    | some phase ↦
        let (net, next) = poll sys pid node.net phase dial timed_out in
        record node { net = net; tasks = Map.insert node.tasks pid next }
  ]

  -- The steps of the threads and futures.
  pub data Step : Node Message → Node Message → Type 0 where
    adds :
        (n : Node Message) (network : String) (a : ℕ)
        → Step n (add_peer n network (PeerSource.outgoing a))
    gets :
        (n : Node Message) (network : String) (token rounds : ℕ) (ready : Readiness)
        (answers : Answers) (m : Node Message)
        → poll_event n network token rounds ready answers ≡ ok m
        → Step n m
    obeys :
        (n : Node Message) (c : P2PControl Message) (binding registering : Option Foreign)
        (m : Node Message)
        → control_node n c binding registering ≡ ok m
        → Step n m
    polls :
        (n : Node Message) (pid : PeerId) (dial : Dial) (timed_out : Option Foreign)
        → Step n (poll_task n pid dial timed_out)

  -- The states that the layer can get into, from `P2P::new`.
  pub data Reach (height : ℕ) : Node Message → Type 0 where
    opens : Reach height (new_node height)
    goes : {n m : Node Message} → Reach height n → Step n m → Reach height m
