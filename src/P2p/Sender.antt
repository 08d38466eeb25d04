-- ===== src/P2p/Sender.antt =====
-- `P2PControlSender` of src/p2p.rs: what clients send to the control loop, and what they ask of the
-- map of peers. The channel is the list of what was sent; a random number is an argument. The order of
-- the keys of a `HashMap` is that of the list.
use native.Mathlib.Nat.{mod-lt}
use murmel.Common.{
  ℕ, zero, ◌%◌, ◌<◌, ◌≡◌, ◌⊎◌, refl, inl, inr, true, Option, none, some, List, [], ◌∷◌, ◌++◌,
  length, get_elem?, get_elem?_total, arith, List-cases, is_some, ◌==◌, Bool-cases, In,
  In-get_elem?, ==_self,
}
use murmel.Common.Map
use murmel.Network.{PeerId, PeerId-Eq, P2PControl, VersionCarrier}
use murmel.Network
use murmel.P2p.{Peer}
use murmel.P2p.Net.{Net}

module _ {Message : Type 0} where
  unfoldable pub send : List (P2PControl Message) → P2PControl Message → List (P2PControl Message)
  send sent c = sent ++ (c ∷ [])

  unfoldable pub send_network :
      List (P2PControl Message) → PeerId → Message → List (P2PControl Message)
  send_network sent pid m = send sent (Network.send pid m)

  unfoldable pub broadcast : List (P2PControl Message) → Message → List (P2PControl Message)
  broadcast sent m = send sent (Network.broadcast m)

  unfoldable pub ban : List (P2PControl Message) → PeerId → ℕ → List (P2PControl Message)
  ban sent pid increment = send sent (Network.ban pid increment)

  unfoldable pub keys : List (PeerId × Peer Message) → List PeerId
  keys [] = []
  keys ((pid, _) ∷ ps) = pid ∷ keys ps

  unfoldable pub peers : Net Message → List PeerId
  peers net = keys net.peers

  unfoldable pub peer_version : Net Message → PeerId → Option VersionCarrier
  peer_version net pid = elim (Map.get net.peers pid) [ none ↦ none | some p ↦ p.version ]

  unfoldable pub send_random_network :
      Net Message
      → List (P2PControl Message)
      → Message
      → ℕ
      → List (P2PControl Message) × Option PeerId
  send_random_network net sent m random =
      elim (get_elem? (peers net) (random % length (peers net))) [
        | none ↦ (sent, none)
        | some pid ↦ (send sent (Network.send pid m), some pid)
      ]

  In-keys :
      (ps : List (PeerId × Peer Message)) (q : PeerId)
      → In q (keys ps)
      → is_some (Map.get ps q) ≡ true
  unfolding keys Map.get
  In-keys [] q h = absurd h
  In-keys ((pid, p) ∷ ps) q (inl e) = rw e (rw (==_self q) refl)
  In-keys ((pid, p) ∷ ps) q (inr h) = elim (Bool-cases (pid == q)) [
    | inl e ↦ rw e refl
    | inr e ↦ rw e (In-keys ps q h)
  ]

  -- A message to a random peer goes to nobody if the map of peers is empty; otherwise it is sent once,
  -- to a peer in the map, which is the result, whatever the random number is.
  pub send_random_network_lem :
      (net : Net Message) (sent : List (P2PControl Message)) (m : Message) (random : ℕ)
      → let r = send_random_network net sent m random in
        ((net.peers ≡ []) × (r ≡ (sent, none)))
        ⊎ ((pid : PeerId) × (is_some (Map.get net.peers pid) ≡ true)
            × (r ≡ (sent ++ (Network.send pid m ∷ []), some pid)))
  unfolding send_random_network send peers keys
  send_random_network_lem net sent m random = elim (List-cases net.peers) [
    | inl e ↦ rw e (inl (refl, refl))
    | inr ((q, p), ps, e) ↦
        let l : zero < length (keys net.peers) = rw e (omega arith) in
        let (pid, f) =
          get_elem?_total (keys net.peers) (random % length (keys net.peers)) (mod-lt random l) in
        rw (f, send_random_network)
          (inr (pid, In-keys net.peers pid (In-get_elem? pid (keys net.peers) _ f), refl))
  ]
