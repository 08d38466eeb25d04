-- ===== src/P2p/Handshake.antt =====
-- The handshake of src/p2p.rs: what a peer has shown when it counts as connected.
use Prim.Native.Nat.{bit_and}
use murmel.Common.{
  ℕ, zero, suc, ◌≤◌, ◌≡◌, ◌≢◌, refl, Bool, true, false, not, ◌||◌, ◌&&◌, none, some, [], ◌⊎◌, inl,
  inr, min, ltb, nat_eq, is_some, arith, Option-cases, Bool-cases, if_cases,
}
use murmel.Buffer.{Buffer}
use murmel.Outcome.{ok, err, panic, unfinished, Outcome-cases}
use murmel.Network.{PeerId, VersionCarrier}
use murmel.P2p.{
  Peer, P2PConfig, System, Reading, reregister_write, send, sending, remember, answer_version,
  on_version, settle, settled, on_verack, on_handshake, on_message, read_messages, with_peer,
  breaks, Turn,
}

module _ {Message Envelope : Type 0} (cfg : P2PConfig Message Envelope) (needed_services : ℕ) where
  -- What is asked of a remembered version message.
  pub record Fits (v : VersionCarrier) : Type 0 where
    pub foreign : v.nonce ≢ cfg.nonce
    pub old_enough :
        cfg.min_protocol_version ≤ cfg.max_protocol_version → cfg.min_protocol_version ≤ v.version
    pub capped : v.version ≤ cfg.max_protocol_version
    pub serves : bit_and needed_services v.services ≡ needed_services

  -- A connected peer has sent a version that fits and a verack.
  pub record IsShaken (p : Peer Message) : Type 0 where
    pub fits : (v : VersionCarrier) → p.version ≡ some v → Fits v
    pub complete : p.connected ≡ true → (is_some p.version ≡ true) × (p.got_verack ≡ true)

  -- Messages are set aside, and a handshake is noted, only for a connected peer.
  abbrev pub IsQuiet : Reading Message Envelope → Type 0
  IsQuiet r = (r.peer.connected ≡ true) ⊎ ((r.incoming ≡ []) × (r.handshake ≡ false))

  pub record Keeps (r : Reading Message Envelope) : Type 0 where
    pub shaken : IsShaken r.peer
    pub quiet : IsQuiet r

module _ {Message Envelope : Type 0} (cfg : P2PConfig Message Envelope) (sys : System)
    (pid : PeerId) (needed height : ℕ) where
  send-Keeps :
      (r : Reading Message Envelope) (m : Message)
      → Keeps cfg needed r
      → Keeps cfg needed (with_peer cfg sys pid needed height r (send sys pid r.peer m).0)
  unfolding send reregister_write
  send-Keeps r m k = elim (Bool-cases r.peer.writeable) [
    | inl e ↦ rw e (record {
      shaken = record { fits = k.shaken.fits; complete = k.shaken.complete };
      quiet = k.quiet;
    })
    | inr e ↦ rw e (record {
      shaken = record { fits = k.shaken.fits; complete = k.shaken.complete };
      quiet = k.quiet;
    })
  ]

  abbrev K : Reading Message Envelope → Type 0
  K r = Keeps cfg needed r

  sending-Keeps :
      (r : Reading Message Envelope) (m : Message)
      (k : Reading Message Envelope → Turn cfg sys pid needed height)
      → ((s : Reading Message Envelope) → K s → K (k s).0)
      → K r
      → K (sending cfg sys pid needed height r m k).0
  unfolding sending
  sending-Keeps r m k f h = elim (Outcome-cases (send sys pid r.peer m).1) [
    | inl (a, e) ↦
        rw (e, sending)
          (f (with_peer cfg sys pid needed height r (send sys pid r.peer m).0) (send-Keeps r m h))
    | inr (inl (a, e)) ↦ rw (e, sending) (send-Keeps r m h)
    | inr (inr (inl e)) ↦ rw (e, sending) (send-Keeps r m h)
    | inr (inr (inr e)) ↦ rw (e, sending) (send-Keeps r m h)
  ]

  remember-Keeps :
      (v : VersionCarrier)
      → v.nonce ≢ cfg.nonce
      → cfg.min_protocol_version ≤ v.version
      → bit_and needed v.services ≡ needed
      → (r : Reading Message Envelope) → K r
      → K (remember cfg sys pid needed height v r).0
  unfolding remember
  remember-Keeps v n o s r k = record {
    shaken = record {
      fits = λ w e.
          let p : w ≡ record v { version = min v.version cfg.max_protocol_version } = cc in
          rw p (record {
            foreign = n;
            old_enough = λ h. ground (arith);
            capped = ground (arith);
            serves = s;
          });
      complete = λ h. (refl, (k.shaken.complete h).1);
    };
    quiet = k.quiet;
  }

  breaks-Keeps :
      (r : Reading Message Envelope) (b : Bool) → K r → K (breaks cfg sys pid needed height r b).0
  breaks-Keeps r b k = record { shaken = k.shaken; quiet = k.quiet }

  abbrev KeepsTurn : Turn cfg sys pid needed height → Type 0
  KeepsTurn t = K t.0

  -- The answer to the version of an incoming connection.
  incoming-Keeps :
      (r : Reading Message Envelope) (v : VersionCarrier)
      → ((s : Reading Message Envelope) → K s → KeepsTurn (remember cfg sys pid needed height v s))
      → K r
      → KeepsTurn (answer_version cfg sys pid needed height r v)
  unfolding answer_version
  incoming-Keeps r v m k = elim (Option-cases r.peer.address) [
    | inl e ↦ rw (e, answer_version) k
    | inr (a, e) ↦
        rw (e, answer_version)
          (sending-Keeps r (cfg.version height a v.version) _
            (λ s. sending-Keeps s cfg.verack (remember cfg sys pid needed height v) m) k)
  ]

  on_version-Keeps :
      (r : Reading Message Envelope) (v : VersionCarrier)
      → K r
      → KeepsTurn (on_version cfg sys pid needed height r v)
  unfolding on_version
  on_version-Keeps r v k =
      if_cases KeepsTurn (is_some r.peer.version) (λ _. breaks-Keeps r true k)
        (λ _.
          if_cases KeepsTurn (nat_eq v.nonce cfg.nonce) (λ _. breaks-Keeps r true k)
            (λ n.
              if_cases KeepsTurn
                (ltb v.version cfg.min_protocol_version
                  || not (nat_eq (bit_and needed v.services) needed))
                (λ _. breaks-Keeps r false k)
                (λ o.
                  let m = remember-Keeps v (ground arith) (ground arith) (ground arith) in
                  if_cases KeepsTurn (not r.peer.outgoing) (λ _. incoming-Keeps r v m k)
                    (λ _.
                      if_cases KeepsTurn (ltb v.start_height height) (λ _. breaks-Keeps r false k)
                        (λ _.
                          sending-Keeps r cfg.verack (remember cfg sys pid needed height v) m k)))))

  settle-Keeps : (r : Reading Message Envelope) → K r → K (settle cfg sys pid needed height r)
  unfolding settle
  settle-Keeps r k =
      if_cases K (is_some r.peer.version && r.peer.got_verack)
        (λ h. record {
          shaken = record { fits = k.shaken.fits; complete = λ _. (ground arith, ground arith) };
          quiet = inl refl;
        })
        (λ _. k)

  settled-Keeps :
      (t : Turn cfg sys pid needed height)
      → KeepsTurn t
      → KeepsTurn (settled cfg sys pid needed height t)
  unfolding settled
  settled-Keeps (r, ok true) k = settle-Keeps r k
  settled-Keeps (r, ok false) k = k
  settled-Keeps (r, err e) k = k
  settled-Keeps (r, panic) k = k
  settled-Keeps (r, unfinished) k = k

  on_verack-Keeps :
      (r : Reading Message Envelope) → K r → KeepsTurn (on_verack cfg sys pid needed height r)
  unfolding on_verack
  on_verack-Keeps r k =
      if_cases KeepsTurn r.peer.got_verack (λ _. breaks-Keeps r true k)
        (λ _. record {
          shaken = record { fits = k.shaken.fits; complete = λ h. ((k.shaken.complete h).0, refl) };
          quiet = k.quiet;
        })

  on_handshake-Keeps :
      (r : Reading Message Envelope) (m : Message)
      → K r
      → KeepsTurn (on_handshake cfg sys pid needed height r m)
  unfolding on_handshake
  on_handshake-Keeps r m k = elim (Option-cases (cfg.is_version m)) [
    | inl e ↦
        rw (e, on_handshake)
          (if_cases KeepsTurn (cfg.is_verack m)
            (λ _. settled-Keeps (on_verack cfg sys pid needed height r) (on_verack-Keeps r k))
            (λ _. breaks-Keeps r true k))
    | inr (v, e) ↦
        rw (e, on_handshake)
          (settled-Keeps (on_version cfg sys pid needed height r v) (on_version-Keeps r v k))
  ]

  on_message-Keeps :
      (r : Reading Message Envelope) (e : Envelope)
      → K r
      → KeepsTurn (on_message cfg sys pid needed height r e)
  unfolding on_message
  on_message-Keeps r e k =
      if_cases KeepsTurn r.peer.connected (λ h. record { shaken = k.shaken; quiet = inl h })
        (λ _.
          if_cases KeepsTurn (is_some r.peer.version && r.peer.got_verack) (λ _. k)
            (λ _. elim (Option-cases (cfg.unwrap e)) [
              | inl u ↦ rw (u, on_message) (breaks-Keeps r true k)
              | inr (m, u) ↦ rw (u, on_message) (on_handshake-Keeps r m k)
            ]))

  abbrev with_buffer : Reading Message Envelope → Buffer → Reading Message Envelope
  with_buffer r b = record r { peer = record r.peer { read_buffer = b } }

  with_buffer-Keeps : (r : Reading Message Envelope) (b : Buffer) → K r → K (with_buffer r b)
  with_buffer-Keeps r b k = record {
    shaken = record { fits = k.shaken.fits; complete = k.shaken.complete };
    quiet = k.quiet;
  }

  pub read_messages-Keeps :
      (fuel : ℕ) (r : Reading Message Envelope)
      → K r
      → K (read_messages cfg sys pid needed height fuel r).0
  unfolding read_messages
  read_messages-Keeps zero r k = k
  read_messages-Keeps (suc fuel) r k =
      let q = with_buffer r (cfg.decode r.peer.read_buffer).0 in
      let kq = with_buffer-Keeps r (cfg.decode r.peer.read_buffer).0 k in
      elim (Outcome-cases (cfg.decode r.peer.read_buffer).1) [
        | inl (none, d) ↦ rw (d, read_messages) kq
        | inl (some e, d) ↦
            let ks = on_message-Keeps q e kq in
            elim (Outcome-cases (on_message cfg sys pid needed height q e).1) [
              | inl (true, t) ↦
                  rw (d, read_messages)
                    (rw (t, read_messages)
                      (read_messages-Keeps fuel (on_message cfg sys pid needed height q e).0 ks))
              | inl (false, t) ↦ rw (d, read_messages) (rw (t, read_messages) ks)
              | inr (inl (f, t)) ↦ rw (d, read_messages) (rw (t, read_messages) ks)
              | inr (inr (inl t)) ↦ rw (d, read_messages) (rw (t, read_messages) ks)
              | inr (inr (inr t)) ↦ rw (d, read_messages) (rw (t, read_messages) ks)
            ]
        | inr (inl (f, d)) ↦ rw (d, read_messages) kq
        | inr (inr (inl d)) ↦ rw (d, read_messages) kq
        | inr (inr (inr d)) ↦ rw (d, read_messages) kq
      ]
