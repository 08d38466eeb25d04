-- ===== src/P2p/Reachable.antt =====
-- What holds in every state that the network layer of src/p2p.rs can get into.
use Prim.Native.String.{String}
use murmel.Common.{
  ℕ, ◌+◌, ◌≤◌, ◌<◌, ◌≡◌, sym, ap, subst, ◌∙◌, Option, none, some, List, inl, inr, arith,
  Option-cases, Bool-cases, eq_of_some,
}
use murmel.Common.Map
use murmel.Common.Map.{get-insert_cases, get-insert_self}
use murmel.Outcome.{Foreign, ok, Outcome-cases}
use murmel.Network.{PeerId, PeerId-Eq, P2PControl}
use murmel.Network
use murmel.P2p.{P2PConfig, System}
use murmel.P2p.Net.{Net, control}
use murmel.P2p.Peers.{EachAt}
use murmel.P2p.Flow.{Appends}
use murmel.P2p.Every.{on_event-EachAt, control-EachAt}
use murmel.P2p.Event.{Readiness, Answers, on_event}
use murmel.P2p.Futures.{poll-EachAt, IsBegun, poll-IsBegun}
use murmel.P2p.Connect.{PeerSource, outgoing, incoming, Dial, Phase, starting, poll}
use murmel.P2p.Good.{Good, Good-Queues, Good-Closed, new_peer-Good}
use murmel.P2p.Node.{
  Node, new_node, is_listener, add_listener, add_peer, poll_event, control_node, poll_task, Step,
  adds, gets, obeys, polls, Reach, opens, goes, binds,
}

module _ {Message Envelope : Type 0} (cfg : P2PConfig Message Envelope) (sys : System)
    (needed : ℕ) where
  -- The peer's token was given out, and its connection was started.
  pub record Opened (n : ℕ) (tasks : List (PeerId × Phase Message)) (q : PeerId) : Type 0 where
    pub known : q.token < n
    pub begun : (phase : Phase Message) → Map.get tasks q ≡ some phase → IsBegun phase

  -- The peers of a node are good and their connections were started, and the futures have tokens that
  -- were given out.
  pub record Holds (node : Node Message) : Type 0 where
    pub peers : EachAt (Good cfg sys needed (Opened node.next_peer_id node.tasks)) node.net
    pub tasks :
        (q : PeerId) (phase : Phase Message)
        → Map.get node.tasks q ≡ some phase
        → q.token < node.next_peer_id

  later :
      (R S : PeerId → Type 0) (net : Net Message)
      → ((q : PeerId) → R q → S q)
      → EachAt (Good cfg sys needed R) net
      → EachAt (Good cfg sys needed S) net
  later R S net f a q p e =
      let g = a q p e in
      record { shaken = g.shaken; below = g.below; valid = g.valid; allowed = f q g.allowed }

  counted :
      (n m : ℕ) (tasks : List (PeerId × Phase Message)) (net : Net Message)
      → n ≤ m
      → EachAt (Good cfg sys needed (Opened n tasks)) net
      → EachAt (Good cfg sys needed (Opened m tasks)) net
  counted n m tasks net l =
      later (Opened n tasks) (Opened m tasks) net
        (λ q h. record { known = omega (arith, h.known); begun = h.begun })

  add_peer-Holds :
      (localhost : ℕ) (node : Node Message) (network : String) (source : PeerSource)
      → Holds node
      → Holds (add_peer cfg sys needed localhost node network source)
  unfolding add_peer
  add_peer-Holds localhost node network source h = record {
    peers =
        later (Opened node.next_peer_id node.tasks) _ node.net
          (λ q o. record {
            known = omega (arith, o.known);
            begun = λ phase e. elim (get-insert_cases node.tasks _ _ q e) [
              | inl (i, s) ↦ absurd (omega (arith, o.known, ap (λ (j : PeerId). j.token) i))
              | inr g ↦ o.begun phase g
            ];
          })
          h.peers;
    tasks = λ q phase e. elim (get-insert_cases node.tasks _ _ q e) [
      | inl (i, s) ↦ subst (λ (j : PeerId). j.token < node.next_peer_id + 1) i (omega arith)
      | inr g ↦ omega (arith, h.tasks q phase g)
    ];
  }

  add_listener-Holds :
      (node : Node Message) (binding registering : Option Foreign)
      → Holds node
      → Holds (add_listener node binding registering)
  unfolding add_listener
  add_listener-Holds node (some e) registering h = h
  add_listener-Holds node none (some e) h = record {
    peers =
        counted node.next_peer_id (node.next_peer_id + 1) node.tasks node.net (omega arith) h.peers;
    tasks = λ q phase g. omega (arith, h.tasks q phase g);
  }
  add_listener-Holds node none none h = record {
    peers =
        counted node.next_peer_id (node.next_peer_id + 1) node.tasks node.net (omega arith) h.peers;
    tasks = λ q phase g. omega (arith, h.tasks q phase g);
  }

  binds-Holds :
      (node : Node Message) (c : P2PControl Message) (binding registering : Option Foreign)
      → Holds node
      → Holds (binds c binding registering node)
  unfolding binds
  binds-Holds node (Network.bind b) binding registering h =
      add_listener-Holds node binding registering h
  binds-Holds node (Network.send q m) binding registering h = h
  binds-Holds node (Network.broadcast m) binding registering h = h
  binds-Holds node (Network.ban q k) binding registering h = h
  binds-Holds node (Network.height k) binding registering h = h

  module _ (localhost : ℕ) (serialize : Envelope → List ℕ)
      (a : (q : PeerId) → Appends cfg sys q serialize) where
    poll_event-Holds :
        (node m : Node Message) (network : String) (token rounds : ℕ) (ready : Readiness)
        (answers : Answers)
        → Holds node
        → poll_event cfg sys needed localhost node network token rounds ready answers ≡ ok m
        → Holds m
    unfolding poll_event
    poll_event-Holds node m network token rounds ready answers h e =
        let pid : PeerId = record { network = network; token = token } in
        let o = on_event cfg sys pid needed rounds node.net ready answers in
        elim (Bool-cases (is_listener node.listener token)) [
          | inl l ↦
              let s : add_peer cfg sys needed localhost node network incoming ≡ m =
                let f = rw (l, poll_event) at e in cc in
              subst Holds s (add_peer-Holds localhost node network incoming h)
          | inr l ↦
              let f = rw (l, poll_event) at e in
              elim (Outcome-cases o) [
                | inl (net, g) ↦
                    let s : record node { net = net } ≡ m = let k = rw g at f in cc in
                    subst Holds s (record {
                      peers =
                          on_event-EachAt cfg sys needed
                            (Good cfg sys needed (Opened node.next_peer_id node.tasks))
                            (Good-Closed cfg sys needed (Opened node.next_peer_id node.tasks)
                              serialize a)
                            pid rounds node.net ready answers net h.peers g;
                      tasks = h.tasks;
                    })
                | inr (inl (x, g)) ↦ absurd (let k = rw g at f in cc)
                | inr (inr (inl g)) ↦ absurd (let k = rw g at f in cc)
                | inr (inr (inr g)) ↦ absurd (let k = rw g at f in cc)
              ]
        ]

    control_node-Holds :
        (node m : Node Message) (c : P2PControl Message) (binding registering : Option Foreign)
        → Holds node
        → control_node cfg sys needed localhost node c binding registering ≡ ok m
        → Holds m
    unfolding control_node
    control_node-Holds node m c binding registering h e =
        elim (Outcome-cases (control sys node.net c)) [
          | inl (net, g) ↦
              let after : Node Message = record node { net = net } in
              let held : Holds after = record {
                peers =
                    control-EachAt cfg sys needed
                      (Good cfg sys needed (Opened node.next_peer_id node.tasks))
                      (Good-Closed cfg sys needed (Opened node.next_peer_id node.tasks) serialize a)
                      node.net net c h.peers g;
                tasks = h.tasks;
              } in
              let k = rw (g, control_node) at e in
              subst Holds (let e : binds c binding registering after ≡ m = cc in e)
                (binds-Holds after c binding registering held)
          | inr (inl (x, g)) ↦ absurd (let k = rw (g, control_node) at e in cc)
          | inr (inr (inl g)) ↦ absurd (let k = rw (g, control_node) at e in cc)
          | inr (inr (inr g)) ↦ absurd (let k = rw (g, control_node) at e in cc)
        ]

    poll_task-Holds :
        (node : Node Message) (pid : PeerId) (dial : Dial) (timed_out : Option Foreign)
        → Holds node
        → Holds (poll_task cfg sys needed localhost node pid dial timed_out)
    unfolding poll_task
    poll_task-Holds node pid dial timed_out h = elim (Option-cases (Map.get node.tasks pid)) [
      | inl e ↦ rw (e, poll_task) h
      | inr (phase, e) ↦
          rw (e, poll_task)
            (record {
              peers =
                  let next = (poll sys pid node.net phase dial timed_out).1 in
                  let R = Opened node.next_peer_id (Map.insert node.tasks pid next) in
                  let moved : IsBegun next = poll-IsBegun sys pid node.net phase dial timed_out in
                  poll-EachAt sys pid (Good cfg sys needed R) (Good-Queues cfg sys needed R pid)
                    (new_peer-Good cfg sys needed R pid (record {
                      known = h.tasks pid phase e;
                      begun = λ f g.
                          subst IsBegun (eq_of_some (sym (get-insert_self node.tasks pid next) ∙ g))
                            moved;
                    }))
                    node.net phase dial timed_out
                    (later (Opened node.next_peer_id node.tasks) R node.net
                      (λ q o. record {
                        known = o.known;
                        begun = λ f g. elim (get-insert_cases node.tasks pid next q g) [
                          | inl (i, s) ↦ subst IsBegun s moved
                          | inr k ↦ o.begun f k
                        ];
                      })
                      h.peers);
              tasks = λ q next g. elim (get-insert_cases node.tasks pid _ q g) [
                | inl (i, s) ↦
                    subst (λ (j : PeerId). j.token < node.next_peer_id) i (h.tasks pid phase e)
                | inr k ↦ h.tasks q next k
              ];
            })
    ]

    new_node-Holds : (height : ℕ) → Holds (new_node height)
    unfolding new_node Map.get
    new_node-Holds height = record { peers = λ q p e. absurd (cc); tasks = λ q p e. absurd (cc) }

    Step-Holds : (n m : Node Message) → Step cfg sys needed localhost n m → Holds n → Holds m
    Step-Holds _ _ (adds n network b) h = add_peer-Holds localhost n network (outgoing b) h
    Step-Holds _ _ (gets n network token rounds ready answers m e) h =
        poll_event-Holds n m network token rounds ready answers h e
    Step-Holds _ _ (obeys n c binding registering m e) h =
        control_node-Holds n m c binding registering h e
    Step-Holds _ _ (polls n pid dial timed_out) h = poll_task-Holds n pid dial timed_out h

    -- In every state that the network layer gets into from its start, by events, commands, new
    -- connections and polls of their futures in any order, each peer in the map has a token that was
    -- given out, a score below 100 and a valid write buffer, and counts as connected only after it has
    -- sent a verack and a version that fits. If encoding appends bytes.
    pub Reach-Holds :
        (height : ℕ) (n : Node Message) → Reach cfg sys needed localhost height n → Holds n
    Reach-Holds height n opens = new_node-Holds height
    Reach-Holds height n (goes {n = m} r s) = Step-Holds m n s (Reach-Holds height m r)

    -- A connection never takes the place of another peer: if the future of a connection has not been
    -- polled, then no peer with its id is in the map, in every state that the layer gets into. If
    -- encoding appends bytes.
    pub Reach-unique :
        (height : ℕ) (n : Node Message) (q : PeerId) (version : Message) (source : PeerSource)
        → Reach cfg sys needed localhost height n
        → Map.get n.tasks q ≡ some (starting version source)
        → Map.get n.net.peers q ≡ none
    Reach-unique height n q version source r e = elim (Option-cases (Map.get n.net.peers q)) [
      | inl g ↦ g
      | inr (p, g) ↦
          absurd (((Reach-Holds height n r).peers q p g).allowed.begun (starting version source) e)
    ]
