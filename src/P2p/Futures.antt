-- ===== src/P2p/Futures.antt =====
-- The future of a connection in src/p2p.rs: what it leaves in the map of peers, and who wakes it.
use murmel.Common.{ℕ, ◌≡◌, refl, ◌⊎◌, Bool, true, false, Option, inl, inr, Option-cases, if_both}
use murmel.Common.Map
use murmel.Common.Map.{get-insert_self, get-remove_self, get-remove-some}
use murmel.Outcome.{Foreign, Error, Outcome, Outcome-cases}
use murmel.Network.{PeerId, PeerId-Eq}
use murmel.P2p.{Peer, System}
use murmel.P2p.Net.{Net, drop_peer}
use murmel.P2p.Peers.{EachAt, EachAt-put, Within}
use murmel.P2p.Stable.{Queues, send-Queues}
use murmel.P2p.Connect.{
  PeerSource, outgoing, incoming, Dial, Accepted, refused, accepted, new_peer, Phase, starting,
  handshaking, keeping, finished, already_connected, enter, connect, waits, fails, keep, shake,
  poll,
}

pub Accepted-cases :
    (x : Accepted) → ((e : Foreign) × (x ≡ refused e)) ⊎ ((a : ℕ) × (x ≡ accepted a))
Accepted-cases (refused e) = inl (e, refl)
Accepted-cases (accepted a) = inr (a, refl)

module _ {Message : Type 0} (sys : System) (pid : PeerId) where
  module _ (P : PeerId → Peer Message → Type 0) (s : Queues (P pid))
      (fresh : (a : Option ℕ) (out : Bool) → P pid (new_peer a out)) where
    enter-EachAt :
        (net : Net Message) (version : Message) (dial : Dial) (addr : ℕ) (out : Bool)
        → EachAt P net
        → EachAt P (enter sys pid net version dial addr out).0
    unfolding enter
    enter-EachAt net version dial addr out a =
        let p = new_peer dial.peer_addr out in
        elim (Option-cases dial.registering) [
          | inr (e, f) ↦ rw (f, enter) (EachAt-put P net pid p (fresh dial.peer_addr out) a)
          | inl f ↦
              rw (f, enter)
                (if_both (λ (r : Net Message × Outcome ℕ). EachAt P r.0) out
                  (EachAt-put P net pid _
                    (send-Queues sys pid (P pid) s (record p { writeable = true }) version
                      (s.registered p true (fresh dial.peer_addr out)))
                    a)
                  (EachAt-put P net pid p (fresh dial.peer_addr out) a))
        ]

    connect-EachAt :
        (net : Net Message) (version : Message) (source : PeerSource) (dial : Dial)
        → EachAt P net
        → EachAt P (connect sys pid net version source dial).0
    unfolding connect
    connect-EachAt net version (outgoing b) dial a =
        if_both (λ (r : Net Message × Outcome ℕ). EachAt P r.0) (already_connected sys net.peers b)
          a
          (elim (Option-cases dial.opening) [
            | inl e ↦ rw (e, connect) (enter-EachAt net version dial b true a)
            | inr (e, f) ↦ rw (f, connect) a
          ])
    connect-EachAt net version incoming dial a = elim (Accepted-cases dial.accepting) [
      | inl (e, f) ↦ rw (f, connect) a
      | inr (b, f) ↦
          rw (f, connect)
            (if_both (λ (r : Net Message × Outcome ℕ). EachAt P r.0)
              (already_connected sys net.peers b) a (enter-EachAt net version dial b false a))
    ]

  waits-Within : (net : Net Message) → Within (waits sys pid net) net
  unfolding waits
  waits-Within net q p h = h

  fails-Within : (net : Net Message) (e : Error) → Within (fails sys pid net e).0 net
  unfolding fails drop_peer
  fails-Within net e q p h = get-remove-some net.peers pid q h

  keep-Within : (net : Net Message) (addr : ℕ) → Within (keep sys pid net addr).0 net
  unfolding keep waits
  keep-Within net addr = elim (Option-cases (Map.get net.peers pid)) [
    | inl e ↦ rw (e, keep) (λ q p h. h)
    | inr (p, e) ↦ rw (e, keep) (λ q p h. h)
  ]

  shake-Within :
      (net : Net Message) (addr : ℕ) (timed_out : Option Foreign)
      → Within (shake sys pid net addr timed_out).0 net
  unfolding shake waits
  shake-Within net addr timed_out = elim (Option-cases (Map.get net.peers pid)) [
    | inl e ↦ rw (e, shake) (fails-Within net _)
    | inr (p, e) ↦
        rw (e, shake)
          (if_both (λ (r : Net Message × Phase Message). Within r.0 net) p.connected
            (keep-Within net addr)
            (elim (Option-cases timed_out) [
              | inl f ↦ rw (f, shake) (λ q p h. h)
              | inr (x, f) ↦ rw (f, shake) (fails-Within (waits sys pid net) _)
            ]))
  ]

  pub poll-EachAt :
      (P : PeerId → Peer Message → Type 0)
      → Queues (P pid)
      → ((a : Option ℕ) (out : Bool) → P pid (new_peer a out))
      → (net : Net Message) (phase : Phase Message) (dial : Dial) (timed_out : Option Foreign)
      → EachAt P net
      → EachAt P (poll sys pid net phase dial timed_out).0
  unfolding poll
  poll-EachAt P s fresh net (starting version source) dial timed_out a =
      let c = connect sys pid net version source dial in
      let b = connect-EachAt P s fresh net version source dial a in
      elim (Outcome-cases c.1) [
        | inl (addr, o) ↦ rw (o, poll) (λ q p g. b q p (shake-Within c.0 addr timed_out q p g))
        | inr (inl (e, o)) ↦ rw (o, poll) (λ q p g. b q p (fails-Within c.0 e q p g))
        | inr (inr (inl o)) ↦ rw (o, poll) b
        | inr (inr (inr o)) ↦ rw (o, poll) b
      ]
  poll-EachAt P s fresh net (handshaking addr) dial timed_out a =
      λ q p g. a q p (shake-Within net addr timed_out q p g)
  poll-EachAt P s fresh net (keeping addr) dial timed_out a =
      λ q p g. a q p (keep-Within net addr q p g)
  poll-EachAt P s fresh net (finished o) dial timed_out a = a

-- The future was polled.
abbrev pub IsBegun : {Message : Type 0} → Phase Message → Type 0
IsBegun (starting version source) = ⊥
IsBegun (handshaking addr) = Unit
IsBegun (keeping addr) = Unit
IsBegun (finished o) = Unit

module _ {Message : Type 0} (sys : System) (pid : PeerId) where
  keep-IsBegun : (net : Net Message) (addr : ℕ) → IsBegun (keep sys pid net addr).1
  unfolding keep
  keep-IsBegun net addr = elim (Option-cases (Map.get net.peers pid)) [
    | inl e ↦ rw (e, keep) tt
    | inr (p, e) ↦ rw (e, keep) tt
  ]

  shake-IsBegun :
      (net : Net Message) (addr : ℕ) (timed_out : Option Foreign)
      → IsBegun (shake sys pid net addr timed_out).1
  unfolding shake fails
  shake-IsBegun net addr timed_out = elim (Option-cases (Map.get net.peers pid)) [
    | inl e ↦ rw (e, shake) tt
    | inr (p, e) ↦
        rw (e, shake)
          (if_both (λ (r : Net Message × Phase Message). IsBegun r.1) p.connected
            (keep-IsBegun net addr)
            (elim (Option-cases timed_out) [
              | inl f ↦ rw (f, shake) tt
              | inr (x, f) ↦ rw (f, shake) tt
            ]))
  ]

  pub poll-IsBegun :
      (net : Net Message) (phase : Phase Message) (dial : Dial) (timed_out : Option Foreign)
      → IsBegun (poll sys pid net phase dial timed_out).1
  unfolding poll fails
  poll-IsBegun net (starting version source) dial timed_out =
      let c = connect sys pid net version source dial in
      elim (Outcome-cases c.1) [
        | inl (addr, o) ↦ rw (o, poll) (shake-IsBegun c.0 addr timed_out)
        | inr (inl (e, o)) ↦ rw (o, poll) tt
        | inr (inr (inl o)) ↦ rw (o, poll) tt
        | inr (inr (inr o)) ↦ rw (o, poll) tt
      ]
  poll-IsBegun net (handshaking addr) dial timed_out = shake-IsBegun net addr timed_out
  poll-IsBegun net (keeping addr) dial timed_out = keep-IsBegun net addr
  poll-IsBegun net (finished o) dial timed_out = tt
