-- ===== src/P2p/Stable.antt =====
-- What reading and writing leave alone in a peer of src/p2p.rs: a predicate that no update of the
-- handshake can break holds after every event.
use Prim.Native.Nat.{bit_and}
use murmel.Common.{
  ℕ, zero, suc, Bool, true, false, not, ◌||◌, ◌&&◌, Option, none, some, List, inl, inr, ltb, nat_eq,
  is_some, Option-cases, Bool-cases, if_both,
}
use murmel.Buffer.{Buffer}
use murmel.Outcome.{ok, err, panic, unfinished, Outcome-cases}
use murmel.Network.{PeerId, VersionCarrier}
use murmel.P2p.{
  Peer, P2PConfig, System, Reading, reregister_write, send, sending, remember, answer_version,
  on_version, settle, settled, on_verack, on_handshake, on_message, read_messages, read_bytes, Turn,
}

-- A predicate that looks neither at the queue nor at the registration.
pub record Queues {Message : Type 0} (P : Peer Message → Type 0) : Type 0 where
  pub queued : (p : Peer Message) (ms : List Message) → P p → P (record p { queue = ms })
  pub registered : (p : Peer Message) (b : Bool) → P p → P (record p { writeable = b })

-- A predicate that looks at the write buffer, the score, the direction and the address only.
pub record Stable {Message : Type 0} (P : Peer Message → Type 0) : Type 0 where
  pub queues : Queues P
  pub filled : (p : Peer Message) (b : Buffer) → P p → P (record p { read_buffer = b })
  pub versioned :
      (p : Peer Message) (v : Option VersionCarrier) → P p → P (record p { version = v })
  pub acked : (p : Peer Message) (b : Bool) → P p → P (record p { got_verack = b })
  pub joined : (p : Peer Message) (b : Bool) → P p → P (record p { connected = b })

pub send-Queues :
    {Message : Type 0} (sys : System) (pid : PeerId) (P : Peer Message → Type 0)
    → Queues P
    → (p : Peer Message) (m : Message) → P p
    → P (send sys pid p m).0
unfolding send reregister_write
send-Queues sys pid P s p m h = elim (Bool-cases p.writeable) [
  | inl e ↦ rw (e, reregister_write) (s.queued p _ h)
  | inr e ↦ rw (e, reregister_write) (s.registered _ true (s.queued p _ h))
]

module _ {Message Envelope : Type 0} (cfg : P2PConfig Message Envelope) (sys : System)
    (pid : PeerId) (P : Peer Message → Type 0) (s : Stable P) where
  module _ (needed height : ℕ) where
    abbrev T : Type 0
    T = Turn cfg sys pid needed height

    abbrev Holds : T → Type 0
    Holds t = P t.0.peer

    sending-Holds :
        (r : Reading Message Envelope) (m : Message) (k : Reading Message Envelope → T)
        → ((q : Reading Message Envelope) → P q.peer → Holds (k q))
        → P r.peer
        → Holds (sending cfg sys pid needed height r m k)
    unfolding sending
    sending-Holds r m k f h =
        let g = send-Queues sys pid P s.queues r.peer m h in
        elim (Outcome-cases (send sys pid r.peer m).1) [
          | inl (a, e) ↦ rw (e, sending) (f _ g)
          | inr (inl (a, e)) ↦ rw (e, sending) g
          | inr (inr (inl e)) ↦ rw (e, sending) g
          | inr (inr (inr e)) ↦ rw (e, sending) g
        ]

    remember-Holds :
        (v : VersionCarrier) (r : Reading Message Envelope)
        → P r.peer
        → Holds (remember cfg sys pid needed height v r)
    unfolding remember
    remember-Holds v r h = s.versioned r.peer _ h

    answer_version-Holds :
        (r : Reading Message Envelope) (v : VersionCarrier)
        → P r.peer
        → Holds (answer_version cfg sys pid needed height r v)
    unfolding answer_version
    answer_version-Holds r v h = elim (Option-cases r.peer.address) [
      | inl e ↦ rw (e, answer_version) h
      | inr (a, e) ↦
          rw (e, answer_version)
            (sending-Holds r (cfg.version height a v.version) _
              (λ q. sending-Holds q cfg.verack _ (remember-Holds v)) h)
    ]

    on_version-Holds :
        (r : Reading Message Envelope) (v : VersionCarrier)
        → P r.peer
        → Holds (on_version cfg sys pid needed height r v)
    unfolding on_version
    on_version-Holds r v h = if_both Holds (is_some r.peer.version) h (
        if_both Holds (nat_eq v.nonce cfg.nonce) h (
          if_both Holds
            (ltb v.version cfg.min_protocol_version
              || not (nat_eq (bit_and needed v.services) needed))
            h
            (if_both Holds (not r.peer.outgoing) (answer_version-Holds r v h) (
              if_both Holds (ltb v.start_height height) h
                (sending-Holds r cfg.verack _ (remember-Holds v) h)))))

    settled-Holds : (t : T) → Holds t → Holds (settled cfg sys pid needed height t)
    unfolding settled settle
    settled-Holds (r, ok true) h =
        if_both (λ (q : Reading Message Envelope). P q.peer)
          (is_some r.peer.version && r.peer.got_verack) (s.joined r.peer true h) h
    settled-Holds (r, ok false) h = h
    settled-Holds (r, err e) h = h
    settled-Holds (r, panic) h = h
    settled-Holds (r, unfinished) h = h

    on_handshake-Holds :
        (r : Reading Message Envelope) (m : Message)
        → P r.peer
        → Holds (on_handshake cfg sys pid needed height r m)
    unfolding on_handshake on_verack
    on_handshake-Holds r m h = elim (Option-cases (cfg.is_version m)) [
      | inl e ↦
          rw (e, on_handshake)
            (if_both Holds (cfg.is_verack m)
              (settled-Holds (on_verack cfg sys pid needed height r)
                (if_both Holds r.peer.got_verack h (s.acked r.peer true h)))
              h)
      | inr (v, e) ↦
          rw (e, on_handshake)
            (settled-Holds (on_version cfg sys pid needed height r v) (on_version-Holds r v h))
    ]

    on_message-Holds :
        (r : Reading Message Envelope) (e : Envelope)
        → P r.peer
        → Holds (on_message cfg sys pid needed height r e)
    unfolding on_message
    on_message-Holds r e h = if_both Holds r.peer.connected h (
        if_both Holds (is_some r.peer.version && r.peer.got_verack) h
          (elim (Option-cases (cfg.unwrap e)) [
            | inl u ↦ rw (u, on_message) h
            | inr (m, u) ↦ rw (u, on_message) (on_handshake-Holds r m h)
          ]))

    read_messages-Holds :
        (fuel : ℕ) (r : Reading Message Envelope)
        → P r.peer
        → P (read_messages cfg sys pid needed height fuel r).0.peer
    unfolding read_messages
    read_messages-Holds zero r h = h
    read_messages-Holds (suc fuel) r h =
        let d = cfg.decode r.peer.read_buffer in
        let g = s.filled r.peer d.0 h in
        elim (Outcome-cases d.1) [
          | inl (none, o) ↦ rw (o, read_messages) g
          | inl (some e, o) ↦
              let q = record r { peer = record r.peer { read_buffer = d.0 } } in
              let k = on_message-Holds q e g in
              let t = on_message cfg sys pid needed height q e in
              elim (Outcome-cases t.1) [
                | inl (true, u) ↦
                    rw (o, read_messages) (rw (u, read_messages) (read_messages-Holds fuel t.0 k))
                | inl (false, u) ↦ rw (o, read_messages) (rw (u, read_messages) k)
                | inr (inl (f, u)) ↦ rw (o, read_messages) (rw (u, read_messages) k)
                | inr (inr (inl u)) ↦ rw (o, read_messages) (rw (u, read_messages) k)
                | inr (inr (inr u)) ↦ rw (o, read_messages) (rw (u, read_messages) k)
              ]
          | inr (inl (f, o)) ↦ rw (o, read_messages) g
          | inr (inr (inl o)) ↦ rw (o, read_messages) g
          | inr (inr (inr o)) ↦ rw (o, read_messages) g
        ]

    pub read_bytes-Stable :
        (rounds : ℕ) (p : Peer Message) (bytes : List ℕ)
        → P p
        → P (read_bytes cfg sys pid needed height rounds p bytes).0.peer
    unfolding read_bytes
    read_bytes-Stable rounds p bytes h = read_messages-Holds rounds _ (s.filled p _ h)
