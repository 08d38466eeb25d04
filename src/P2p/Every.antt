-- ===== src/P2p/Every.antt =====
-- What holds of every peer in the map of src/p2p.rs after events, commands and connections.
use murmel.Common.{
  ℕ, ◌<◌, ◌≡◌, refl, sym, ap, subst, ◌∙◌, false, ◌||◌, Option, some, List, [], ◌∷◌, inl, inr,
  Option-cases, if_both, ==_cases, eq_of_some,
}
use murmel.Common.Map
use murmel.Outcome.{Outcome, ok, Outcome-cases}
use murmel.Network.{PeerId, PeerId-Eq, P2PControl}
use murmel.Network
use murmel.P2p.{Peer, P2PConfig, System, ban_limit, send, read_bytes}
use murmel.P2p.Net.{Net, put_peer, disconnect, ban, broadcast, control}
use murmel.P2p.Peers.{EachAt, EachAt-put, EachAt-Within, disconnect-Within, readable-EachAt}
use murmel.P2p.Ban.{ban-EachAt}
use murmel.P2p.Stable.{Queues, send-Queues}
use murmel.P2p.Write.{starts, write_loop, write_rounds, writable}
use murmel.P2p.Event.{Readiness, Answers, write_part, read_part, event_processor, on_event}

broadcast-cons :
    {Message : Type 0} (sys : System) (m : Message) (pid : PeerId) (o : Peer Message)
    (ps qs : List (PeerId × Peer Message))
    → broadcast sys m ((pid, o) ∷ ps) ≡ ok qs
    → (rest : List (PeerId × Peer Message)) × (broadcast sys m ps ≡ ok rest)
      × (qs ≡ (pid, (send sys pid o m).0) ∷ rest)
unfolding broadcast
broadcast-cons sys m pid o ps qs h = elim (Outcome-cases (send sys pid o m).1) [
  | inl (u, e) ↦
      let g = rw (e, broadcast) at h in
      elim (Outcome-cases (broadcast sys m ps)) [
        | inl (rest, f) ↦ let i = rw (f, broadcast) at g in (rest, f, cc)
        | inr (inl (x, f)) ↦ absurd (let i = rw (f, broadcast) at g in cc)
        | inr (inr (inl f)) ↦ absurd (let i = rw (f, broadcast) at g in cc)
        | inr (inr (inr f)) ↦ absurd (let i = rw (f, broadcast) at g in cc)
      ]
  | inr (inl (x, e)) ↦ absurd (let g = rw (e, broadcast) at h in cc)
  | inr (inr (inl e)) ↦ absurd (let g = rw (e, broadcast) at h in cc)
  | inr (inr (inr e)) ↦ absurd (let g = rw (e, broadcast) at h in cc)
]

-- Who is in the map after a broadcast was in it, and was sent the message.
get-broadcast :
    {Message : Type 0} (sys : System) (m : Message) (ps qs : List (PeerId × Peer Message))
    → broadcast sys m ps ≡ ok qs
    → (q : PeerId) (p : Peer Message) → Map.get qs q ≡ some p
    → (o : Peer Message) × (Map.get ps q ≡ some o) × ((send sys q o m).0 ≡ p)
unfolding broadcast Map.get
get-broadcast sys m [] qs h q p e =
    let i : [] ≡ qs = cc in
    absurd (let f : Map.get [] q ≡ some p = ap (λ l. Map.get l q) i ∙ e in cc)
get-broadcast sys m ((pid, o) ∷ ps) qs h q p e =
    let (rest, f, g) = broadcast-cons sys m pid o ps qs h in
    let found : Map.get ((pid, (send sys pid o m).0) ∷ rest) q ≡ some p =
      ap (λ l. Map.get l q) (sym g) ∙ e in
    elim (==_cases pid q) [
      | inl (b, i) ↦
          let s : (send sys pid o m).0 ≡ p = eq_of_some (let k = rw b at found in k) in
          (o, rw b refl, subst (λ j. (send sys j o m).0 ≡ p) i s)
      | inr (b, n) ↦
          let (before, k, s) = get-broadcast sys m ps rest f q p (let k = rw b at found in k) in
          (before, rw b k, s)
    ]

module _ {Message Envelope : Type 0} (cfg : P2PConfig Message Envelope) (sys : System)
    (needed : ℕ) where
  -- What every operation on a peer keeps.
  pub record Closed (P : PeerId → Peer Message → Type 0) : Type 0 where
    pub queues : (q : PeerId) → Queues (P q)
    pub scored :
        (q : PeerId) (p : Peer Message) (k : ℕ) → k < ban_limit → P q p → P q (record p { ban = k })
    pub reads :
        (q : PeerId) (height rounds : ℕ) (p : Peer Message) (bytes : List ℕ)
        → P q p
        → P q (read_bytes cfg sys q needed height rounds p bytes).0.peer
    pub writes :
        (q : PeerId) (p : Peer Message) (answers : List (Option ℕ))
        → P q p
        → let w = starts cfg sys q p answers in
          P q (write_loop cfg sys q (write_rounds cfg sys q w) w).0.peer

  module _ (P : PeerId → Peer Message → Type 0) (c : Closed P) where
    writable-EachAt :
        (pid : PeerId) (net : Net Message) (answers : List (Option ℕ))
        → EachAt P net
        → EachAt P (writable cfg sys pid net answers).0
    unfolding writable
    writable-EachAt pid net answers a = elim (Option-cases (Map.get net.peers pid)) [
      | inl e ↦ rw (e, writable) a
      | inr (p, e) ↦
          rw (e, writable) (EachAt-put P net pid _ (c.writes pid p answers (a pid p e)) a)
    ]

    event_processor-EachAt :
        (pid : PeerId) (rounds : ℕ) (net : Net Message) (ready : Readiness) (answers : Answers)
        → EachAt P net
        → EachAt P (event_processor cfg sys pid needed rounds net ready answers).0
    unfolding event_processor write_part read_part
    event_processor-EachAt pid rounds net ready answers a =
        if_both (λ (r : Net Message × Outcome (Unit {0})). EachAt P r.0) (ready.hup || ready.error)
          (EachAt-Within P net pid (disconnect net pid false) (disconnect-Within net pid false) a)
          (let wrote = write_part cfg sys pid needed rounds net ready answers in
            let b : EachAt P wrote.0 =
              if_both (λ (r : Net Message × Outcome (Unit {0})). EachAt P r.0) ready.writable
                (writable-EachAt pid net answers.writes a) a in
            elim (Outcome-cases wrote.1) [
              | inl (u, o) ↦
                  rw (o, event_processor)
                    (if_both (λ (r : Net Message × Outcome (Unit {0})). EachAt P r.0) ready.readable
                      (readable-EachAt cfg sys pid needed P (c.reads pid) wrote.0 rounds
                        answers.read b)
                      b)
              | inr (inl (f, o)) ↦ rw (o, event_processor) b
              | inr (inr (inl o)) ↦ rw (o, event_processor) b
              | inr (inr (inr o)) ↦ rw (o, event_processor) b
            ])

    pub on_event-EachAt :
        (pid : PeerId) (rounds : ℕ) (net : Net Message) (ready : Readiness) (answers : Answers)
        (n : Net Message)
        → EachAt P net
        → on_event cfg sys pid needed rounds net ready answers ≡ ok n
        → EachAt P n
    unfolding on_event
    on_event-EachAt pid rounds net ready answers n a h =
        let r = event_processor cfg sys pid needed rounds net ready answers in
        let b = event_processor-EachAt pid rounds net ready answers a in
        elim (Outcome-cases r.1) [
          | inl (u, o) ↦
              let e : r.0 ≡ n = let g = rw (o, on_event) at h in cc in subst (EachAt P) e b
          | inr (inl (f, o)) ↦
              let e : ban r.0 pid 10 ≡ n = let g = rw (o, on_event) at h in cc in
              subst (EachAt P) e (ban-EachAt r.0 pid 10 P (c.scored pid) b)
          | inr (inr (inl o)) ↦ absurd (let g = rw (o, on_event) at h in cc)
          | inr (inr (inr o)) ↦ absurd (let g = rw (o, on_event) at h in cc)
        ]

    pub control-EachAt :
        (net n : Net Message) (k : P2PControl Message)
        → EachAt P net
        → control sys net k ≡ ok n
        → EachAt P n
    unfolding control
    control-EachAt net n (Network.ban pid score) a h =
        let e : ban net pid score ≡ n = cc in
        subst (EachAt P) e (ban-EachAt net pid score P (c.scored pid) a)
    control-EachAt net n (Network.height k) a h =
        let e : net.peers ≡ n.peers =
          let f : record net { height = k } ≡ n = cc in ap (λ (z : Net Message). z.peers) f in
        λ q p g. a q p (ap (λ l. Map.get l q) e ∙ g)
    control-EachAt net n (Network.bind addr) a h = let e : net ≡ n = cc in subst (EachAt P) e a
    control-EachAt net n (Network.broadcast m) a h =
        elim (Outcome-cases (broadcast sys m net.peers)) [
          | inl (ps, o) ↦
              let e : record net { peers = ps } ≡ n = let g = rw (o, control) at h in cc in
              λ q p g.
                let (before, i, s) =
                  get-broadcast sys m net.peers ps o q p
                    (ap (λ (z : Net Message). Map.get z.peers q) e ∙ g) in
                subst (P q) s (send-Queues sys q (P q) (c.queues q) before m (a q before i))
          | inr (inl (f, o)) ↦ absurd (let g = rw (o, control) at h in cc)
          | inr (inr (inl o)) ↦ absurd (let g = rw (o, control) at h in cc)
          | inr (inr (inr o)) ↦ absurd (let g = rw (o, control) at h in cc)
        ]
    control-EachAt net n (Network.send pid m) a h = elim (Option-cases (Map.get net.peers pid)) [
      | inl e ↦ let f : net ≡ n = let g = rw (e, control) at h in cc in subst (EachAt P) f a
      | inr (p, e) ↦ elim (Outcome-cases (send sys pid p m).1) [
        | inl (u, o) ↦
            let f : put_peer net pid (send sys pid p m).0 ≡ n =
              let g = rw (e, control) at h in let g' = rw (o, control) at g in cc in
            subst (EachAt P) f (
              EachAt-put P net pid _ (send-Queues sys pid (P pid) (c.queues pid) p m (a pid p e)) a)
        | inr (inl (f, o)) ↦
            absurd (let g = rw (e, control) at h in let g' = rw (o, control) at g in cc)
        | inr (inr (inl o)) ↦
            absurd (let g = rw (e, control) at h in let g' = rw (o, control) at g in cc)
        | inr (inr (inr o)) ↦
            absurd (let g = rw (e, control) at h in let g' = rw (o, control) at g in cc)
      ]
    ]
