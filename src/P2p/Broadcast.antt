-- ===== src/P2p/Broadcast.antt =====
-- The commands `Broadcast` and `Send` of src/p2p.rs.
use mathlib.Core.Option
use murmel.Common.{◌≡◌, refl, ap, true, none, List, [], ◌∷◌, ◌++◌, inl, inr, Bool-cases, ◌==◌}
use murmel.Common.Map
use murmel.Outcome.{ok}
use murmel.Network.{PeerId, PeerId-Eq}
use murmel.Network
use murmel.P2p.{Peer, System, reregister_write, send}
use murmel.P2p.Net.{Net, broadcast, control}

module _ {Message : Type 0} (sys : System) (m : Message) where
  -- A peer with one message more, registered for writing.
  abbrev pub queued : Peer Message → Peer Message
  queued p = record p { queue = p.queue ++ (m ∷ []); writeable = true }

  send-queued :
      (pid : PeerId) (p : Peer Message)
      → sys.reregister pid ≡ none
      → send sys pid p m ≡ (queued p, ok tt)
  unfolding send reregister_write
  send-queued pid p r = elim (Bool-cases p.writeable) [
    | inl e ↦
        rw (e, reregister_write)
          (ap (λ b. (record p { queue = p.queue ++ (m ∷ []); writeable = b }, ok tt)) e)
    | inr e ↦ rw (e, reregister_write) (rw (r, reregister_write) refl)
  ]

  abbrev all_queued : List (PeerId × Peer Message) → List (PeerId × Peer Message)
  all_queued [] = []
  all_queued ((pid, p) ∷ ps) = (pid, queued p) ∷ all_queued ps

  broadcast-all_queued :
      (ps : List (PeerId × Peer Message))
      → ((pid : PeerId) → sys.reregister pid ≡ none)
      → broadcast sys m ps ≡ ok (all_queued ps)
  unfolding broadcast
  broadcast-all_queued [] r = refl
  broadcast-all_queued ((pid, p) ∷ ps) r =
      let s = send-queued pid p (r pid) in
      rw (ap (λ o. o.1) s, broadcast)
        (rw (broadcast-all_queued ps r, broadcast) (ap (λ o. ok ((pid, o.0) ∷ all_queued ps)) s))

  get-all_queued :
      (ps : List (PeerId × Peer Message)) (q : PeerId)
      → Map.get (all_queued ps) q ≡ Option.map queued (Map.get ps q)
  unfolding Map.get
  get-all_queued [] q = refl
  get-all_queued ((pid, p) ∷ ps) q = elim (Bool-cases (pid == q)) [
    | inl e ↦ rw e refl
    | inr e ↦ rw e (get-all_queued ps q)
  ]

  -- A broadcast reaches every peer in the map and nobody else: if the poll takes the registrations, then
  -- the command ends well, each peer has the message at the end of its queue and is registered for
  -- writing, and nothing else of any peer changes.
  pub broadcast-queued :
      (net : Net Message) (q : PeerId)
      → ((pid : PeerId) → sys.reregister pid ≡ none)
      → (n : Net Message) × (control sys net (Network.broadcast m) ≡ ok n)
        × (Map.get n.peers q ≡ Option.map queued (Map.get net.peers q))
  unfolding control
  broadcast-queued net q r = (
    record net { peers = all_queued net.peers },
    rw (broadcast-all_queued net.peers r, control) refl,
    get-all_queued net.peers q,
  )
