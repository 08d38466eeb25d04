-- ===== src/P2p/Wakes.antt =====
-- How the future of a connection in src/p2p.rs ends, and that it is woken.
use murmel.Common.{
  ℕ, ◌≡◌, ◌≢◌, refl, ap, ◌⊎◌, Bool, true, false, Option, none, some, [], ◌∷◌, ◌++◌, inl, inr,
  Option-cases, if_both, is_some,
}
use murmel.Common.Map
use murmel.Common.Map.{get-insert_self, get-remove_self}
use murmel.Outcome.{Foreign, Error, Outcome, ok, err, panic, unfinished, Outcome-cases, handshake}
use murmel.Network.{PeerId, PeerId-Eq}
use murmel.P2p.{System, send, reregister_write}
use murmel.P2p.Net.{Net, drop_peer, disconnect, wake, dispatch}
use murmel.P2p.Peers.{get-disconnect}
use murmel.P2p.Connect.{
  PeerSource, outgoing, incoming, Dial, Phase, starting, handshaking, keeping, finished,
  already_connected, enter, connect, waits, fails, keep, shake, poll,
}
use murmel.P2p.Futures.{Accepted-cases}

module _ {Message : Type 0} (sys : System) (pid : PeerId) where
  -- A future that waits has a waker, and its peer is in the map; a future that has ended has no peer.
  pub data Polled (n : Net Message) : Phase Message → Type 0 where
    waiting :
        {phase : Phase Message}
        → (addr : ℕ) → (phase ≡ handshaking addr) ⊎ (phase ≡ keeping addr)
        → Map.get n.wakers pid ≡ some tt
        → is_some (Map.get n.peers pid) ≡ true
        → Polled n phase
    ended :
        {phase : Phase Message} (o : Outcome ℕ)
        → phase ≡ finished o
        → (o ≢ panic) × (o ≢ unfinished)
        → Map.get n.peers pid ≡ none
        → Polled n phase

  abbrev Good : Net Message × Phase Message → Type 0
  Good r = Polled r.0 r.1

  fails-Polled : (net : Net Message) (e : Error) → Good (fails sys pid net e)
  unfolding fails drop_peer
  fails-Polled net e = ended (err e) refl ((λ h. cc), (λ h. cc)) (get-remove_self net.peers pid)

  keep-Polled : (net : Net Message) (addr : ℕ) → Good (keep sys pid net addr)
  unfolding keep waits
  keep-Polled net addr = elim (Option-cases (Map.get net.peers pid)) [
    | inl e ↦ rw (e, keep) (ended (ok addr) refl ((λ h. cc), (λ h. cc)) e)
    | inr (p, e) ↦
        rw (e, keep) (waiting addr (inr refl) (get-insert_self net.wakers pid tt) (ap is_some e))
  ]

  shake-Polled :
      (net : Net Message) (addr : ℕ) (timed_out : Option Foreign)
      → Good (shake sys pid net addr timed_out)
  unfolding shake waits
  shake-Polled net addr timed_out = elim (Option-cases (Map.get net.peers pid)) [
    | inl e ↦ rw (e, shake) (fails-Polled net _)
    | inr (p, e) ↦
        rw (e, shake)
          (if_both Good p.connected (keep-Polled net addr) (elim (Option-cases timed_out) [
            | inl f ↦
                rw (f, shake)
                  (waiting addr (inl refl) (get-insert_self net.wakers pid tt) (ap is_some e))
            | inr (x, f) ↦ rw (f, shake) (fails-Polled (waits sys pid net) _)
          ]))
  ]

  -- Connecting does not panic.
  abbrev IsResult : Net Message × Outcome ℕ → Type 0
  IsResult r = (r.1 ≢ panic) × (r.1 ≢ unfinished)

  enter-IsResult :
      (net : Net Message) (version : Message) (dial : Dial) (addr : ℕ) (out : Bool)
      → IsResult (enter sys pid net version dial addr out)
  unfolding enter send reregister_write
  enter-IsResult net version dial addr out = elim (Option-cases dial.registering) [
    | inl e ↦ rw (e, enter) (if_both IsResult out ((λ h. cc), (λ h. cc)) ((λ h. cc), (λ h. cc)))
    | inr (x, e) ↦ rw (e, enter) ((λ h. cc), (λ h. cc))
  ]

  connect-IsResult :
      (net : Net Message) (version : Message) (source : PeerSource) (dial : Dial)
      → IsResult (connect sys pid net version source dial)
  unfolding connect
  connect-IsResult net version (outgoing b) dial =
      if_both IsResult (already_connected sys net.peers b) ((λ h. cc), (λ h. cc))
        (elim (Option-cases dial.opening) [
          | inl e ↦ rw (e, connect) (enter-IsResult net version dial b true)
          | inr (x, e) ↦ rw (e, connect) ((λ h. cc), (λ h. cc))
        ])
  connect-IsResult net version incoming dial = elim (Accepted-cases dial.accepting) [
    | inl (x, e) ↦ rw (e, connect) ((λ h. cc), (λ h. cc))
    | inr (b, e) ↦
        rw (e, connect)
          (if_both IsResult (already_connected sys net.peers b) ((λ h. cc), (λ h. cc))
            (enter-IsResult net version dial b false))
  ]

  -- A poll of a future that has not ended leaves it in one of two ways: it waits, and then its waker is
  -- registered and its peer is in the map; or it ends, without a panic, and then no peer with its id is
  -- in the map, also if the connection has failed half way.
  pub poll-Polled :
      (net : Net Message) (phase : Phase Message) (dial : Dial) (timed_out : Option Foreign)
      → ((o : Outcome ℕ) → phase ≢ finished o)
      → Polled (poll sys pid net phase dial timed_out).0 (poll sys pid net phase dial timed_out).1
  unfolding poll
  poll-Polled net (starting version source) dial timed_out h =
      let c = connect sys pid net version source dial in
      let (n, u) = connect-IsResult net version source dial in
      elim (Outcome-cases c.1) [
        | inl (addr, o) ↦ rw (o, poll) (shake-Polled c.0 addr timed_out)
        | inr (inl (e, o)) ↦ rw (o, poll) (fails-Polled c.0 e)
        | inr (inr (inl o)) ↦ absurd (n o)
        | inr (inr (inr o)) ↦ absurd (u o)
      ]
  poll-Polled net (handshaking addr) dial timed_out h = shake-Polled net addr timed_out
  poll-Polled net (keeping addr) dial timed_out h = keep-Polled net addr
  poll-Polled net (finished o) dial timed_out h = absurd (h o refl)

  woken-disconnect :
      (net : Net Message) (banned : Bool)
      → Map.get net.wakers pid ≡ some tt
      → (disconnect net pid banned).woken ≡ net.woken ++ (pid ∷ [])
  unfolding disconnect wake drop_peer dispatch
  woken-disconnect net banned e = rw (e, wake) refl

  -- No connection waits for a peer that is gone: if a future waits after a poll, then a disconnect of
  -- its peer, banned or not, wakes it, and the poll that follows ends it, with the peer's address if
  -- the handshake was complete, with a handshake error if it was not.
  pub disconnect-ends :
      (net : Net Message) (phase : Phase Message) (banned : Bool) (dial : Dial)
      (timed_out : Option Foreign)
      → Polled net phase
      → ((o : Outcome ℕ) → phase ≢ finished o)
      → let gone = disconnect net pid banned in
        (gone.woken ≡ net.woken ++ (pid ∷ []))
        × ((addr : ℕ) × (((phase ≡ handshaking addr)
                × ((poll sys pid gone phase dial timed_out).1 ≡ finished (err handshake)))
              ⊎ ((phase ≡ keeping addr)
                  × ((poll sys pid gone phase dial timed_out).1 ≡ finished (ok addr)))))
  unfolding poll shake keep fails
  disconnect-ends net phase banned dial timed_out (ended o e r g) h = absurd (h o e)
  disconnect-ends net phase banned dial timed_out (waiting addr w g m) h =
      let gone = get-disconnect net pid banned in
      (
        woken-disconnect net banned g,
        elim w [
          | inl e ↦ (addr, inl (e, rw e (rw (gone, shake) refl)))
          | inr e ↦ (addr, inr (e, rw e (rw (gone, keep) refl)))
        ],
      )
