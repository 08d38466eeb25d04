-- ===== src/P2p/Ban.antt =====
-- Ban scores and silence before the handshake, in the network layer of src/p2p.rs.
use murmel.Common.{
  ℕ, ◌+◌, ◌%◌, ◌^◌, ◌≤◌, ◌<◌, ◌≡◌, refl, sym, ◌∙◌, true, false, Option, none, some, List, [], ◌∷◌,
  ◌++◌, ◌⊎◌, inl, inr, arith, leb, Option-cases, if_cases, eq_of_some,
}
use native.Mathlib.Nat.{mod-eq_of_lt}
use murmel.Common.Map
use murmel.Common.Map.{get-insert_self, get-insert_cases}
use murmel.Outcome.{Outcome-cases}
use murmel.Network.{PeerId, PeerId-Eq, PeerMessage}
use murmel.Network
use murmel.P2p.{Peer, P2PConfig, System, Reading, ban_limit, read_bytes}
use murmel.P2p.Handshake.{IsShaken, Keeps}
use murmel.P2p.Net.{Net, put_peer, disconnect, ban, deliver, after_reading, readable}
use murmel.P2p.Peers.{
  Each, EachAt, EachAt-put, disconnect-Within, get-disconnect, dispatched-disconnect,
  after_reading-Within, read_bytes-Keeps,
}

abbrev pub IsBelow : {Message : Type 0} → Peer Message → Type 0
IsBelow p = p.ban < ban_limit

-- What `ban` does to a peer in the map.
pub data Banned {Message : Type 0} (net : Net Message) (pid : PeerId) (p : Peer Message) (score : ℕ)
    (r : Net Message) : Type 0 where
  scored :
      score < ban_limit
      → Map.get r.peers pid ≡ some (record p { ban = score })
      → r.dispatched ≡ net.dispatched
      → Banned net pid p score r
  expelled :
      ban_limit ≤ score
      → Map.get r.peers pid ≡ none
      → r.dispatched ≡ net.dispatched ++ (Network.disconnected pid true ∷ [])
      → Banned net pid p score r

module _ {Message : Type 0} (net : Net Message) (pid : PeerId) (increment : ℕ) where
  -- An increment is added to the score; below the limit of 100 the peer stays with the new score and
  -- nothing is dispatched, and from the limit on it is out of the map and its disconnection, as
  -- banned, is dispatched. The peer is in the map and the sum fits into 32 bits.
  pub ban-Banned :
      (p : Peer Message)
      → Map.get net.peers pid ≡ some p
      → p.ban + increment < 2 ^ 32
      → Banned net pid p (p.ban + increment) (ban net pid increment)
  unfolding ban put_peer
  ban-Banned p e h =
      let s : (p.ban + increment) % 2 ^ 32 ≡ p.ban + increment = mod-eq_of_lt h in
      let scored_net = put_peer net pid (record p { ban = p.ban + increment }) in
      rw (e, ban)
        (rw s (
          if_cases (Banned net pid p (p.ban + increment)) (leb ban_limit (p.ban + increment))
            (λ l.
              expelled (ground arith) (get-disconnect scored_net pid true)
                (dispatched-disconnect scored_net pid true))
            (λ l.
              scored (ground arith)
                (get-insert_self net.peers pid (record p { ban = p.ban + increment })) refl)))

  -- What holds of every peer holds after a ban, if a score below the limit keeps it.
  pub ban-EachAt :
      (P : PeerId → Peer Message → Type 0)
      → ((p : Peer Message) (score : ℕ)
          → score < ban_limit
          → P pid p
          → P pid (record p { ban = score }))
      → EachAt P net
      → EachAt P (ban net pid increment)
  unfolding ban put_peer
  ban-EachAt P k a = elim (Option-cases (Map.get net.peers pid)) [
    | inl e ↦ rw (e, ban) a
    | inr (p, e) ↦
        let score = (p.ban + increment) % 2 ^ 32 in
        let scored_net = put_peer net pid (record p { ban = score }) in
        rw (e, ban)
          (if_cases (EachAt P) (leb ban_limit score)
            (λ l q r g.
              elim (get-insert_cases net.peers pid (record p { ban = score }) q
                (disconnect-Within scored_net pid true q r g)) [
                  | inl (i, _) ↦
                      let n : Map.get (disconnect scored_net pid true).peers q ≡ none =
                        rw (← i) (get-disconnect scored_net pid true) in
                      absurd (cc)
                  | inr m ↦ a q r m
                ])
            (λ l.
              EachAt-put P net pid (record p { ban = score }) (k p score (ground arith) (a pid p e))
                a))
  ]

  -- If the scores of all peers in the map are below 100, then they still are after a ban of any peer,
  -- known or not.
  pub ban-IsBelow : Each IsBelow net → Each IsBelow (ban net pid increment)
  ban-IsBelow = ban-EachAt (λ _. IsBelow) (λ p score l h. l)

get-put_peer :
    {Message : Type 0} (net : Net Message) (pid : PeerId) (p : Peer Message)
    → Map.get (put_peer net pid p).peers pid ≡ some p
unfolding put_peer
get-put_peer net pid p = get-insert_self net.peers pid p

module _ {Message Envelope : Type 0} (cfg : P2PConfig Message Envelope) (sys : System)
    (pid : PeerId) (needed : ℕ) where
  -- A state after an event: the peer is gone, or connected, or nothing was dispatched.
  Shown : Net Message → Net Message → Type 0
  Shown net n =
      (Map.get n.peers pid ≡ none)
      ⊎ (((p : Peer Message) × (Map.get n.peers pid ≡ some p) × (p.connected ≡ true))
          ⊎ (n.dispatched ≡ net.dispatched))

  after_reading-Shown :
      (net : Net Message) (r : Reading Message Envelope)
      → Map.get net.peers pid ≡ some r.peer
      → Keeps cfg needed r
      → Shown net (after_reading cfg sys pid net r)
  unfolding after_reading deliver Shown
  after_reading-Shown net r e k = elim k.quiet [
    | inl c ↦ elim (Option-cases (Map.get (after_reading cfg sys pid net r).peers pid)) [
      | inl g ↦ inl g
      | inr (p, g) ↦
          let q : p ≡ r.peer =
            eq_of_some (sym (after_reading-Within cfg sys pid net r pid p g) ∙ e) in
          inr (inl (p, g, rw q c))
    ]
    | inr (i, s) ↦
        if_cases (Shown net) r.disconnect (λ _. inl (get-disconnect net pid r.ban))
          (λ _. rw (s, i) (inr (inr refl)))
  ]

  readable-Shown :
      (net : Net Message) (rounds : ℕ) (read : Option (List ℕ))
      → Each (IsShaken cfg needed) net
      → Shown net (readable cfg sys pid net needed rounds read).0
  unfolding readable Shown put_peer
  readable-Shown net rounds none a = elim (Option-cases (Map.get net.peers pid)) [
    | inl e ↦ rw (e, readable) (inl e)
    | inr (p, e) ↦ rw (e, readable) (inl (get-disconnect net pid false))
  ]
  readable-Shown net rounds (some bytes) a = elim (Option-cases (Map.get net.peers pid)) [
    | inl e ↦ rw (e, readable) (inl e)
    | inr (p, e) ↦
        let r = read_bytes cfg sys pid needed net.height rounds p bytes in
        let k = read_bytes-Keeps cfg sys pid needed net.height rounds p bytes (a pid p e) in
        let n = put_peer net pid r.0.peer in
        elim (Outcome-cases r.1) [
          | inl (u, o) ↦
              rw (e, readable)
                (rw (o, readable) (after_reading-Shown n r.0 (get-put_peer net pid r.0.peer) k))
          | inr (inl (f, o)) ↦ rw (e, readable) (rw (o, readable) (inr (inr refl)))
          | inr (inr (inl o)) ↦ rw (e, readable) (rw (o, readable) (inr (inr refl)))
          | inr (inr (inr o)) ↦ rw (e, readable) (rw (o, readable) (inr (inr refl)))
        ]
  ]

  -- The handshake comes first: if a peer is in the map after a read event and does not count as
  -- connected, then the event has dispatched nothing, so neither a message of the peer nor its
  -- connection. Every peer that counts as connected before has sent a verack and a version that fits.
  pub readable-silent :
      (net : Net Message) (rounds : ℕ) (read : Option (List ℕ)) (p : Peer Message)
      → Each (IsShaken cfg needed) net
      → Map.get (readable cfg sys pid net needed rounds read).0.peers pid ≡ some p
      → p.connected ≡ false
      → (readable cfg sys pid net needed rounds read).0.dispatched ≡ net.dispatched
  unfolding Shown
  readable-silent net rounds read p a h n = elim (readable-Shown net rounds read a) [
    | inl g ↦ absurd (cc)
    | inr (inl (q, g, c)) ↦ absurd (cc)
    | inr (inr d) ↦ d
  ]
