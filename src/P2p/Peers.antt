-- ===== src/P2p/Peers.antt =====
-- All peers of the network layer of src/p2p.rs: what holds of them after each event, ban and disconnect.
use murmel.Common.{
  ℕ, ◌≡◌, refl, sym, ap, subst, ◌∙◌, Bool, true, false, Option, none, some, List, [], ◌∷◌, ◌++◌,
  inl, inr, Option-cases, if_cases,
}
use murmel.Common.Map
use murmel.Common.Map.{get-insert_cases, get-remove-some, get-insert_self, get-remove_self}
use murmel.Outcome.{Outcome-cases}
use murmel.Network.{PeerId, PeerId-Eq, PeerMessage}
use murmel.Network
use murmel.P2p.{Peer, P2PConfig, System, Reading, read_bytes}
use murmel.P2p.Handshake.{IsShaken, Keeps, read_messages-Keeps}
use murmel.P2p.Net.{
  Net, dispatch, wake, drop_peer, put_peer, disconnect, deliver, after_reading, readable,
}

-- A property of every peer in the map, and its id.
abbrev pub EachAt : {Message : Type 0} → (PeerId → Peer Message → Type 0) → Net Message → Type 0
EachAt {Message} P net =
    (pid : PeerId) (p : Peer Message) → Map.get net.peers pid ≡ some p → P pid p

-- A property of every peer in the map.
abbrev pub Each : {Message : Type 0} → (Peer Message → Type 0) → Net Message → Type 0
Each P = EachAt (λ _. P)

-- Whoever is in the first map is in the second, unchanged.
abbrev pub Within : {Message : Type 0} → Net Message → Net Message → Type 0
Within {Message} n m =
    (q : PeerId) (p : Peer Message) → Map.get n.peers q ≡ some p → Map.get m.peers q ≡ some p

module _ {Message : Type 0} (net : Net Message) (pid : PeerId) where
  pub peers-wake : (wake net pid).peers ≡ net.peers
  unfolding wake
  peers-wake = elim (Option-cases (Map.get net.wakers pid)) [
    | inl e ↦ rw (e, wake) refl
    | inr (w, e) ↦ rw (e, wake) refl
  ]

  pub dispatched-wake : (wake net pid).dispatched ≡ net.dispatched
  unfolding wake
  dispatched-wake = elim (Option-cases (Map.get net.wakers pid)) [
    | inl e ↦ rw (e, wake) refl
    | inr (w, e) ↦ rw (e, wake) refl
  ]

module _ {Message : Type 0} (net : Net Message) (pid : PeerId) (banned : Bool) where
  pub peers-disconnect : (disconnect net pid banned).peers ≡ Map.remove net.peers pid
  unfolding disconnect drop_peer dispatch
  peers-disconnect = peers-wake (drop_peer (dispatch net (Network.disconnected pid banned)) pid) pid

  pub dispatched-disconnect :
      (disconnect net pid banned).dispatched
      ≡ net.dispatched ++ (Network.disconnected pid banned ∷ [])
  unfolding disconnect drop_peer dispatch
  dispatched-disconnect =
      dispatched-wake (drop_peer (dispatch net (Network.disconnected pid banned)) pid) pid

  pub get-disconnect : Map.get (disconnect net pid banned).peers pid ≡ none
  get-disconnect = rw peers-disconnect (get-remove_self net.peers pid)

  pub disconnect-Within : Within (disconnect net pid banned) net
  disconnect-Within q p h =
      get-remove-some net.peers pid q
        (ap (λ m. Map.get m q) {y = (disconnect net pid banned).peers} (sym peers-disconnect) ∙ h)

module _ {Message : Type 0} (P : PeerId → Peer Message → Type 0) (net : Net Message)
    (pid : PeerId) where
  pub EachAt-put : (p : Peer Message) → P pid p → EachAt P net → EachAt P (put_peer net pid p)
  unfolding put_peer
  EachAt-put p h a q r e = elim (get-insert_cases net.peers pid p q e) [
    | inl (i, s) ↦ subst (λ j. P j r) i (subst (P pid) s h)
    | inr g ↦ a q r g
  ]

  pub EachAt-Within : (n : Net Message) → Within n net → EachAt P net → EachAt P n
  EachAt-Within n w a q p e = a q p (w q p e)

module _ {Message : Type 0} (P : Peer Message → Type 0) (net : Net Message) (pid : PeerId) where
  pub Each-put : (p : Peer Message) → P p → Each P net → Each P (put_peer net pid p)
  Each-put = EachAt-put (λ _. P) net pid

module _ {Message Envelope : Type 0} (cfg : P2PConfig Message Envelope) (sys : System)
    (pid : PeerId) where
  -- What the loop over the queued messages does with one of them.
  deliver_one : Net Message → Envelope → Net Message
  deliver_one net e = elim (cfg.unwrap e) [
    | some m ↦ dispatch net (Network.incoming pid m)
    | none ↦ disconnect net pid true
  ]

  deliver-cons :
      (net : Net Message) (e : Envelope) (es : List Envelope)
      → deliver cfg sys pid net (e ∷ es) ≡ deliver cfg sys pid (deliver_one net e) es
  unfolding deliver deliver_one
  deliver-cons net e es = elim (Option-cases (cfg.unwrap e)) [
    | inl u ↦ rw (u, deliver, deliver_one) refl
    | inr (m, u) ↦ rw (u, deliver, deliver_one) refl
  ]

  deliver_one-Within : (net : Net Message) (e : Envelope) → Within (deliver_one net e) net
  unfolding deliver_one dispatch
  deliver_one-Within net e = elim (Option-cases (cfg.unwrap e)) [
    | inl u ↦ rw (u, deliver_one) (disconnect-Within net pid true)
    | inr (m, u) ↦ rw (u, deliver_one) (λ q p h. h)
  ]

  -- Processing queued messages adds no peer and changes none.
  pub deliver-Within :
      (net : Net Message) (es : List Envelope) → Within (deliver cfg sys pid net es) net
  unfolding deliver
  deliver-Within net [] q p h = h
  deliver-Within net (e ∷ es) q p h = deliver_one-Within net e q p (
      deliver-Within (deliver_one net e) es q p
        (subst (λ (n : Net Message). Map.get n.peers q ≡ some p) (deliver-cons net e es) h))

  greeted-Within :
      (net : Net Message) (m : PeerMessage Message) → Within (wake (dispatch net m) pid) net
  unfolding dispatch
  greeted-Within net m q p h =
      ap (λ l. Map.get l q) {x = net.peers} (sym (peers-wake (dispatch net m) pid)) ∙ h

  -- After reading, whoever is in the map was there when the peer was put back.
  pub after_reading-Within :
      (net : Net Message) (r : Reading Message Envelope)
      → Within (after_reading cfg sys pid net r) net
  unfolding after_reading
  after_reading-Within net r =
      let greeted = wake (dispatch net (Network.connected pid r.address)) pid in
      if_cases (λ n. Within n net) r.disconnect (λ _. disconnect-Within net pid r.ban)
        (λ _.
          if_cases (λ n. Within n net) r.handshake
            (λ _ q p h.
              greeted-Within net (Network.connected pid r.address) q p
                (deliver-Within greeted r.incoming q p h))
            (λ _. deliver-Within net r.incoming))

module _ {Message Envelope : Type 0} (cfg : P2PConfig Message Envelope) (sys : System)
    (pid : PeerId) (needed : ℕ) where
  -- The peer after a read keeps what the loop keeps.
  pub read_bytes-Keeps :
      (height rounds : ℕ) (p : Peer Message) (bytes : List ℕ)
      → IsShaken cfg needed p
      → Keeps cfg needed (read_bytes cfg sys pid needed height rounds p bytes).0
  unfolding read_bytes
  read_bytes-Keeps height rounds p bytes s =
      read_messages-Keeps cfg sys pid needed height rounds _ (record {
        shaken = record { fits = s.fits; complete = s.complete };
        quiet = inr (refl, refl);
      })

  -- What a read of the peer keeps, the event of a readable peer keeps.
  pub readable-EachAt :
      (P : PeerId → Peer Message → Type 0)
      → ((height rounds : ℕ) (p : Peer Message) (bytes : List ℕ)
          → P pid p
          → P pid (read_bytes cfg sys pid needed height rounds p bytes).0.peer)
      → (net : Net Message) (rounds : ℕ) (read : Option (List ℕ)) → EachAt P net
      → EachAt P (readable cfg sys pid net needed rounds read).0
  unfolding readable
  readable-EachAt P k net rounds none a = elim (Option-cases (Map.get net.peers pid)) [
    | inl e ↦ rw (e, readable) a
    | inr (p, e) ↦
        rw (e, readable)
          (EachAt-Within P net pid (disconnect net pid false) (disconnect-Within net pid false) a)
  ]
  readable-EachAt P k net rounds (some bytes) a = elim (Option-cases (Map.get net.peers pid)) [
    | inl e ↦ rw (e, readable) a
    | inr (p, e) ↦
        let r = read_bytes cfg sys pid needed net.height rounds p bytes in
        let b = EachAt-put P net pid r.0.peer (k net.height rounds p bytes (a pid p e)) a in
        elim (Outcome-cases r.1) [
          | inl (u, o) ↦
              rw (e, readable)
                (rw (o, readable)
                  (EachAt-Within P (put_peer net pid r.0.peer) pid
                    (after_reading cfg sys pid (put_peer net pid r.0.peer) r.0)
                    (after_reading-Within cfg sys pid (put_peer net pid r.0.peer) r.0) b))
          | inr (inl (f, o)) ↦ rw (e, readable) (rw (o, readable) b)
          | inr (inr (inl o)) ↦ rw (e, readable) (rw (o, readable) b)
          | inr (inr (inr o)) ↦ rw (e, readable) (rw (o, readable) b)
        ]
  ]

  -- If every peer in the map that counts as connected has sent a verack and a version that fits (its
  -- nonce not ours, its services those needed, its number between the bounds), then the same holds
  -- after any read event of any peer, whatever bytes it brought and however it ended.
  pub readable-IsShaken :
      (net : Net Message) (rounds : ℕ) (read : Option (List ℕ))
      → Each (IsShaken cfg needed) net
      → Each (IsShaken cfg needed) (readable cfg sys pid net needed rounds read).0
  readable-IsShaken =
      readable-EachAt (λ _. IsShaken cfg needed)
        (λ height rounds p bytes h. (read_bytes-Keeps height rounds p bytes h).shaken)
