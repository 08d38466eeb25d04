-- ===== src/P2p/Progress.antt =====
-- The loop of `event_processor` in src/p2p.rs over the messages of a read ends.
use Prim.Native.Nat.{bit_and}
use murmel.Common.{
  ℕ, zero, suc, ◌<◌, ◌≡◌, ◌≢◌, refl, sym, subst, ◌∙◌, Bool, true, false, not, ◌&&◌, ◌||◌, none,
  some, inl, inr, ltb, nat_eq, is_some, if_cases, Bool-cases, Option-cases, arith,
}
use murmel.Buffer.{Buffer}
use murmel.Outcome.{ok, err, panic, unfinished, Outcome-cases}
use murmel.Network.{PeerId, VersionCarrier}
use murmel.P2p.{
  Peer, P2PConfig, System, Reading, reregister_write, send, sending, remember, answer_version,
  on_version, settle, settled, on_verack, on_handshake, on_message, read_messages, with_peer,
  breaks, Turn,
}

module _ {Message Envelope : Type 0} (cfg : P2PConfig Message Envelope) (sys : System)
    (pid : PeerId) (needed height : ℕ) (b : Buffer) where
  -- A turn ends, and leaves the bytes that were still to decode.
  abbrev Ends : Turn cfg sys pid needed height → Type 0
  Ends t = (t.0.peer.read_buffer ≡ b) × (t.1 ≢ unfinished)

  send-Ends :
      (p : Peer Message) (m : Message)
      → p.read_buffer ≡ b
      → ((send sys pid p m).0.read_buffer ≡ b) × ((send sys pid p m).1 ≢ unfinished)
  unfolding send reregister_write
  send-Ends p m h = elim (Bool-cases p.writeable) [
    | inl e ↦ rw (e, reregister_write) (h, λ e. cc)
    | inr e ↦ elim (Option-cases (sys.reregister pid)) [
      | inl s ↦ rw (e, reregister_write) (rw (s, reregister_write) (h, λ e. cc))
      | inr (f, s) ↦ rw (e, reregister_write) (rw (s, reregister_write) (h, λ e. cc))
    ]
  ]

  sending-Ends :
      (r : Reading Message Envelope) (m : Message)
      (k : Reading Message Envelope → Turn cfg sys pid needed height)
      → ((s : Reading Message Envelope) → s.peer.read_buffer ≡ b → Ends (k s))
      → r.peer.read_buffer ≡ b
      → Ends (sending cfg sys pid needed height r m k)
  unfolding sending
  sending-Ends r m k f h =
      let (q, n) = send-Ends r.peer m h in
      elim (Outcome-cases (send sys pid r.peer m).1) [
        | inl (a, e) ↦
            rw (e, sending) (f (with_peer cfg sys pid needed height r (send sys pid r.peer m).0) q)
        | inr (inl (a, e)) ↦ rw (e, sending) (q, λ e. cc)
        | inr (inr (inl e)) ↦ rw (e, sending) (q, λ e. cc)
        | inr (inr (inr e)) ↦ absurd (n e)
      ]

  remember-Ends :
      (v : VersionCarrier) (r : Reading Message Envelope)
      → r.peer.read_buffer ≡ b
      → Ends (remember cfg sys pid needed height v r)
  unfolding remember
  remember-Ends v r h = (h, λ e. cc)

  answer_version-Ends :
      (r : Reading Message Envelope) (v : VersionCarrier)
      → r.peer.read_buffer ≡ b
      → Ends (answer_version cfg sys pid needed height r v)
  unfolding answer_version
  answer_version-Ends r v h = elim (Option-cases r.peer.address) [
    | inl e ↦ rw (e, answer_version) (h, λ e. cc)
    | inr (a, e) ↦
        rw (e, answer_version)
          (sending-Ends r (cfg.version height a v.version) _
            (λ s.
              sending-Ends s cfg.verack (remember cfg sys pid needed height v) (remember-Ends v))
            h)
  ]

  breaks-Ends :
      (r : Reading Message Envelope) (c : Bool)
      → r.peer.read_buffer ≡ b
      → Ends (breaks cfg sys pid needed height r c)
  breaks-Ends r c h = (h, λ e. cc)

  on_version-Ends :
      (r : Reading Message Envelope) (v : VersionCarrier)
      → r.peer.read_buffer ≡ b
      → Ends (on_version cfg sys pid needed height r v)
  unfolding on_version
  on_version-Ends r v h =
      if_cases Ends (is_some r.peer.version) (λ _. breaks-Ends r true h)
        (λ _.
          if_cases Ends (nat_eq v.nonce cfg.nonce) (λ _. breaks-Ends r true h)
            (λ _.
              if_cases Ends
                (ltb v.version cfg.min_protocol_version
                  || not (nat_eq (bit_and needed v.services) needed))
                (λ _. breaks-Ends r false h)
                (λ _.
                  if_cases Ends (not r.peer.outgoing) (λ _. answer_version-Ends r v h)
                    (λ _.
                      if_cases Ends (ltb v.start_height height) (λ _. breaks-Ends r false h)
                        (λ _.
                          sending-Ends r cfg.verack (remember cfg sys pid needed height v)
                            (remember-Ends v) h)))))

  settle-buffer :
      (r : Reading Message Envelope)
      → (settle cfg sys pid needed height r).peer.read_buffer ≡ r.peer.read_buffer
  unfolding settle
  settle-buffer r =
      if_cases (λ (s : Reading Message Envelope). s.peer.read_buffer ≡ r.peer.read_buffer)
        (is_some r.peer.version && r.peer.got_verack) (λ _. refl) (λ _. refl)

  settled-Ends :
      (t : Turn cfg sys pid needed height) → Ends t → Ends (settled cfg sys pid needed height t)
  unfolding settled
  settled-Ends (r, ok true) (h, n) = (settle-buffer r ∙ h, λ e. cc)
  settled-Ends (r, ok false) k = k
  settled-Ends (r, err e) k = k
  settled-Ends (r, panic) k = k
  settled-Ends (r, unfinished) k = k

  on_verack-Ends :
      (r : Reading Message Envelope)
      → r.peer.read_buffer ≡ b
      → Ends (on_verack cfg sys pid needed height r)
  unfolding on_verack
  on_verack-Ends r h =
      if_cases Ends r.peer.got_verack (λ _. breaks-Ends r true h) (λ _. (h, λ e. cc))

  on_handshake-Ends :
      (r : Reading Message Envelope) (m : Message)
      → r.peer.read_buffer ≡ b
      → Ends (on_handshake cfg sys pid needed height r m)
  unfolding on_handshake
  on_handshake-Ends r m h = elim (Option-cases (cfg.is_version m)) [
    | inl e ↦
        rw (e, on_handshake)
          (if_cases Ends (cfg.is_verack m)
            (λ _. settled-Ends (on_verack cfg sys pid needed height r) (on_verack-Ends r h))
            (λ _. breaks-Ends r true h))
    | inr (v, e) ↦
        rw (e, on_handshake)
          (settled-Ends (on_version cfg sys pid needed height r v) (on_version-Ends r v h))
  ]

  pub on_message-Ends :
      (r : Reading Message Envelope) (e : Envelope)
      → r.peer.read_buffer ≡ b
      → Ends (on_message cfg sys pid needed height r e)
  unfolding on_message
  on_message-Ends r e h =
      if_cases Ends r.peer.connected (λ _. (h, λ e. cc))
        (λ _.
          if_cases Ends (is_some r.peer.version && r.peer.got_verack) (λ _. (h, λ e. cc))
            (λ _. elim (Option-cases (cfg.unwrap e)) [
              | inl u ↦ rw (u, on_message) (breaks-Ends r true h)
              | inr (m, u) ↦ rw (u, on_message) (on_handshake-Ends r m h)
            ]))

module _ {Message Envelope : Type 0} (cfg : P2PConfig Message Envelope) (sys : System)
    (pid : PeerId) (needed height : ℕ) (size : Buffer → ℕ) (Fine : Buffer → Type 0)
    (shrinks : (b : Buffer) (e : Envelope)
      → Fine b
      → (cfg.decode b).1 ≡ ok (some e)
      → (size (cfg.decode b).0 < size b) × Fine (cfg.decode b).0)
    (decode_ends : (b : Buffer) → Fine b → (cfg.decode b).1 ≢ unfinished) where
  -- One turn more than the measure of the buffer is enough, if decoding a message makes it smaller.
  pub loop-finishes :
      (fuel : ℕ) (r : Reading Message Envelope)
      → Fine r.peer.read_buffer
      → size r.peer.read_buffer < fuel
      → (read_messages cfg sys pid needed height fuel r).1 ≢ unfinished
  unfolding read_messages
  loop-finishes zero r v l = absurd (omega (arith, l))
  loop-finishes (suc fuel) r v l =
      let d = cfg.decode r.peer.read_buffer in
      let q = with_peer cfg sys pid needed height r (record r.peer { read_buffer = d.0 }) in
      elim (Outcome-cases d.1) [
        | inl (none, o) ↦ rw (o, read_messages) (λ e. cc)
        | inl (some m, o) ↦
            let (k, n) = on_message-Ends cfg sys pid needed height d.0 q m refl in
            let s = (on_message cfg sys pid needed height q m).0 in
            let (less, fine) = shrinks r.peer.read_buffer m v o in
            let smaller : size s.peer.read_buffer < fuel =
              subst (λ c. size c < fuel) (sym k) (omega (arith, less, l)) in
            elim (Outcome-cases (on_message cfg sys pid needed height q m).1) [
              | inl (true, t) ↦
                  rw (o, read_messages)
                    (rw (t, read_messages) (loop-finishes fuel s (subst Fine (sym k) fine) smaller))
              | inl (false, t) ↦ rw (o, read_messages) (rw (t, read_messages) (λ e. cc))
              | inr (inl (f, t)) ↦ rw (o, read_messages) (rw (t, read_messages) (λ e. cc))
              | inr (inr (inl t)) ↦ rw (o, read_messages) (rw (t, read_messages) (λ e. cc))
              | inr (inr (inr t)) ↦ absurd (n t)
            ]
        | inr (inl (f, o)) ↦ rw (o, read_messages) (λ e. cc)
        | inr (inr (inl o)) ↦ rw (o, read_messages) (λ e. cc)
        | inr (inr (inr o)) ↦ absurd (decode_ends r.peer.read_buffer v o)
      ]
