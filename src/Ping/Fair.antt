-- ===== src/Ping/Fair.antt =====
-- Runs of src/ping.rs: whom it pings, and whom it bans.
use murmel.Common.{
  ℕ, ◌+◌, ◌<◌, ◌≤◌, ◌≡◌, ◌≢◌, refl, false, some, List, [], ◌∷◌, ◌++◌, ltb, In, In-append_cases,
  In-append_left, In-append_right, inl, inr, arith, Bool-cases, Option-cases, if_cases, ==_cases,
  ◌==◌, if◌then◌else◌, nat_eq,
}
use murmel.Common.Map
use murmel.Common.Map.{get-insert, get-remove}
use murmel.Network.{PeerId, PeerId-Eq, PeerMessage, P2PControl}
use murmel.Network
use murmel.Messages.{NetworkMessage}
use murmel.Messages
use murmel.Timeout.{
  Timeout, ExpectedReply, ExpectedReply-Eq, pong, expect, owed, received, is_busy, check,
}
use murmel.Timeout
use murmel.Timeout.Laws.{owed-expect}
use murmel.Timeout.Check.{
  OnClock, expect-OnClock, received-OnClock, forget-OnClock, check-OnClock, received_less,
  forget_less, check_less,
}
use murmel.Timeout.Bans.{
  Call, expects, receives, forgets, checks, call, call-OnClock, check-bans, check-score,
}
use murmel.Ping.{
  Ping, Event, message, pause, shared, new, on_pong, on_message, ask, ask_all, on_pause, run,
}

-- The peer was sent a ping.
abbrev pub WasPinged : List (P2PControl NetworkMessage) → PeerId → Type 0
WasPinged cs q = (n : ℕ) × In (Network.send q (Messages.ping n)) cs

-- No peer owes more than one pong, and only after a ping; whoever owes a reply has a time limit; the
-- nonces asked were sent; and whoever was banned had been pinged.
pub record IsFair (s : Ping) : Type 0 where
  pub once : (q : PeerId) → owed s.timeout q pong ≤ 1
  pub owes : (q : PeerId) → 0 < owed s.timeout q pong → WasPinged s.controls q
  pub clock : OnClock s.timeout
  pub sent :
      (q : PeerId) (n : ℕ)
      → Map.get s.asked q ≡ some n
      → In (Network.send q (Messages.ping n)) s.controls
  pub banned :
      (q : PeerId) (m : ℕ) → In (Network.ban q m) s.controls → (m ≡ 100) × WasPinged s.controls q

-- Others call the timeouts, and do not expect pongs.
abbrev pub IsForeign : Event → Type 0
IsForeign (shared (expects now p n w)) = w ≢ pong
IsForeign _ = Unit {0}

owed_idle :
    (t : Timeout ExpectedReply) (q : PeerId) → OnClock t → is_busy t q ≡ false → owed t q pong ≡ 0
owed_idle t q c b = elim (Bool-cases (ltb 0 (owed t q pong))) [
  | inl h ↦ let busy = c q pong (ground (arith, h)) in absurd (ground (arith, busy, b))
  | inr h ↦ ground (arith, h)
]

WasPinged-more :
    (cs ds : List (P2PControl NetworkMessage)) (q : PeerId)
    → WasPinged cs q
    → WasPinged (cs ++ ds) q
WasPinged-more cs ds q (n, i) = (n, In-append_left (Network.send q (Messages.ping n)) cs ds i)

-- One more pong is owed, by one peer.
owed-asked :
    (t : Timeout ExpectedReply) (now : ℕ) (p q : PeerId)
    → owed (expect t now p 1 pong) q pong ≡ (if p == q then owed t q pong + 1 else owed t q pong)
owed-asked t now p q = owed-expect t now p 1 pong q pong

module _ (s : Ping) (f : IsFair s) where
  -- Less is owed, and no more is asked.
  quiet-IsFair :
      (t : Timeout ExpectedReply) (asked : List (PeerId × ℕ))
      → ((q : PeerId) → owed t q pong ≤ owed s.timeout q pong)
      → OnClock t
      → ((q : PeerId) (n : ℕ) → Map.get asked q ≡ some n → Map.get s.asked q ≡ some n)
      → IsFair (record s { timeout = t; asked = asked })
  quiet-IsFair t asked less c a = record {
    once = λ q. omega (arith, less q, f.once q);
    owes = λ q h. f.owes q (omega (arith, less q, h));
    clock = c;
    sent = λ q n g. f.sent q n (a q n g);
    banned = f.banned;
  }

  remove-asked :
      (p q : PeerId) (n : ℕ)
      → Map.get (Map.remove s.asked p) q ≡ some n
      → Map.get s.asked q ≡ some n
  remove-asked p q n g = elim (Bool-cases (p == q)) [
    | inl e ↦ absurd (ground (arith, g, get-remove s.asked p q, e))
    | inr e ↦ ground (arith, g, get-remove s.asked p q, e)
  ]

  on_pong-IsFair : (now : ℕ) (p : PeerId) (n : ℕ) → IsFair (on_pong s now p n)
  unfolding on_pong
  on_pong-IsFair now p n =
      let removed : IsFair (record s { asked = Map.remove s.asked p }) =
        quiet-IsFair s.timeout (Map.remove s.asked p) (λ q. omega arith) f.clock (remove-asked p) in
      elim (Option-cases (Map.get s.asked p)) [
        | inl e ↦ rw (e, on_pong) removed
        | inr (m, e) ↦
            rw (e, on_pong)
              (if_cases IsFair (nat_eq m n)
                (λ _.
                  quiet-IsFair (received s.timeout now p 1 pong) (Map.remove s.asked p)
                    (λ q. received_less s.timeout now p 1 pong q pong)
                    (received-OnClock s.timeout now p 1 pong f.clock) (remove-asked p))
                (λ _. removed))
      ]

  ask-IsFair : (now : ℕ) (p : PeerId) (n : ℕ) → IsFair (ask s now p n)
  unfolding ask
  ask-IsFair now p n =
      if_cases IsFair (is_busy s.timeout p) (λ _. f)
        (λ b.
          let command : P2PControl NetworkMessage = Network.send p (Messages.ping n) in
          let here : In command (s.controls ++ (command ∷ [])) =
            In-append_right command s.controls (command ∷ []) (inl refl) in
          let idle = owed_idle s.timeout p f.clock b in
          record {
            once = λ q. elim (==_cases p q) [
              | inl (e, o) ↦ rw (owed-asked s.timeout now p q, e) (rw (← o) (omega (arith, idle)))
              | inr (e, o) ↦ rw (owed-asked s.timeout now p q, e) (f.once q)
            ];
            owes = λ q h. elim (==_cases p q) [
              | inl (e, o) ↦ rw (← o) (n, here)
              | inr (e, o) ↦
                  WasPinged-more s.controls (command ∷ []) q
                    (f.owes q (rw (owed-asked s.timeout now p q, e) at h))
            ];
            clock = expect-OnClock s.timeout now p 1 pong f.clock;
            sent = λ q m g. elim (==_cases p q) [
              | inl (e, o) ↦
                  let same : n ≡ m = ground (arith, get-insert s.asked p n q, e, g) in
                  rw (← o, ← same) here
              | inr (e, o) ↦
                  In-append_left (Network.send q (Messages.ping m)) s.controls (command ∷ [])
                    (f.sent q m (ground (arith, get-insert s.asked p n q, e, g)))
            ];
            banned = λ q m i. elim (In-append_cases (Network.ban q m) s.controls (command ∷ []) i) [
              | inl j ↦
                  let (w, z) = f.banned q m j in (w, WasPinged-more s.controls (command ∷ []) q z)
              | inr (inl e) ↦ absurd (cc)
              | inr (inr z) ↦ absurd z
            ];
          })

  check-IsFair :
      (now : ℕ)
      → let (t, bans) = check s.timeout now (pong ∷ []) in
        IsFair (record s { timeout = t; controls = s.controls ++ bans })
  check-IsFair now =
      let (t, bans) = check {Message = NetworkMessage} s.timeout now (pong ∷ []) in
      record {
        once = λ q.
            omega (arith, check_less NetworkMessage s.timeout now (pong ∷ []) q pong, f.once q);
        owes = λ q h. WasPinged-more s.controls bans q (
            f.owes q
              (omega (arith, check_less NetworkMessage s.timeout now (pong ∷ []) q pong, h)));
        clock = check-OnClock NetworkMessage s.timeout now (pong ∷ []) f.clock;
        sent = λ q n g.
            In-append_left (Network.send q (Messages.ping n)) s.controls bans (f.sent q n g);
        banned = λ q m i. elim (In-append_cases (Network.ban q m) s.controls bans i) [
          | inl j ↦ let (w, z) = f.banned q m j in (w, WasPinged-more s.controls bans q z)
          | inr j ↦
              let ((limit, _, _, late), _) =
                check-bans NetworkMessage s.timeout now (pong ∷ []) q m j in
              (
                check-score NetworkMessage s.timeout now (pong ∷ []) q m j,
                WasPinged-more s.controls bans q (f.owes q (ground (arith, late))),
              )
        ];
      }

ask_all-IsFair :
    (s : Ping) (now : ℕ) (ps : List (PeerId × ℕ)) → IsFair s → IsFair (ask_all s now ps)
unfolding ask_all
ask_all-IsFair s now [] f = f
ask_all-IsFair s now ((p, n) ∷ ps) f =
    ask_all-IsFair (ask s now p n) now ps (ask-IsFair s f now p n)

on_pause-IsFair :
    (s : Ping) (now : ℕ) (ps : List (PeerId × ℕ)) → IsFair s → IsFair (on_pause s now ps)
unfolding on_pause
on_pause-IsFair s now ps f = ask_all-IsFair _ now ps (check-IsFair s f now)

on_message-IsFair :
    (s : Ping) (now : ℕ) (m : PeerMessage NetworkMessage) → IsFair s → IsFair (on_message s now m)
unfolding on_message
on_message-IsFair s now (Network.disconnected p b) f =
    quiet-IsFair s f (Timeout.forget s.timeout p) (Map.remove s.asked p)
      (λ q. forget_less s.timeout p q pong) (forget-OnClock s.timeout p f.clock)
      (remove-asked s f p)
on_message-IsFair s now (Network.connected p a) f = f
on_message-IsFair s now (Network.outgoing m) f = f
on_message-IsFair s now (Network.incoming p (Messages.pong n)) f = on_pong-IsFair s f now p n
on_message-IsFair s now (Network.incoming p (Messages.ping n)) f = f
on_message-IsFair s now (Network.incoming p (Messages.version v)) f = f
on_message-IsFair s now (Network.incoming p Messages.verack) f = f
on_message-IsFair s now (Network.incoming p (Messages.headers hs)) f = f
on_message-IsFair s now (Network.incoming p (Messages.inv is)) f = f
on_message-IsFair s now (Network.incoming p (Messages.get_headers ks k)) f = f
on_message-IsFair s now (Network.incoming p (Messages.other k)) f = f

foreign_less :
    (t : Timeout ExpectedReply) (c : Call ExpectedReply) (q : PeerId)
    → IsForeign (shared c)
    → owed (call t c) q pong ≤ owed t q pong
unfolding call
foreign_less t (expects now p n w) q h = elim (==_cases w pong) [
  | inl (e, o) ↦ absurd (h o)
  | inr (e, o) ↦
      rw (owed-expect t now p n w q pong, e)
        (if_cases (λ o. o ≤ owed t q pong) (p == q) (λ _. omega arith) (λ _. omega arith))
]
foreign_less t (receives now p n w) q h = received_less t now p n w q pong
foreign_less t (forgets p) q h = forget_less t p q pong
foreign_less t (checks now ws) q h = check_less Unit t now ws q pong

run-IsFair_of :
    (s : Ping) (es : List Event)
    → ((e : Event) → In e es → IsForeign e)
    → IsFair s
    → IsFair (run s es)
unfolding run
run-IsFair_of s [] h f = f
run-IsFair_of s (message now m ∷ es) h f =
    run-IsFair_of (on_message s now m) es (λ e i. h e (inr i)) (on_message-IsFair s now m f)
run-IsFair_of s (pause now ps ∷ es) h f =
    run-IsFair_of (on_pause s now ps) es (λ e i. h e (inr i)) (on_pause-IsFair s now ps f)
run-IsFair_of s (shared c ∷ es) h f =
    run-IsFair_of _ es (λ e i. h e (inr i))
      (quiet-IsFair s f (call s.timeout c) s.asked
        (λ q. foreign_less s.timeout c q (h (shared c) (inl refl)))
        (call-OnClock s.timeout c f.clock) (λ q n g. g))

-- After any messages, pauses and calls with which others change the shared timeouts: no peer owes
-- more than one pong, and none without having been sent a ping; whoever owes a reply has a time limit;
-- each nonce that is kept as asked was sent to its peer; and each ban costs 100 points and is of a
-- peer that was sent a ping. The others expect no pongs, and at the start no peer owes one and whoever
-- owes a reply has a time limit.
pub run-IsFair :
    (t : Timeout ExpectedReply) (es : List Event)
    → OnClock t
    → ((q : PeerId) → owed t q pong ≡ 0)
    → ((e : Event) → In e es → IsForeign e)
    → IsFair (run (new t) es)
unfolding new Map.get
run-IsFair t es c z h = run-IsFair_of (new t) es h (record {
  once = λ q. omega (arith, z q);
  owes = λ q l. absurd (omega (arith, z q, l));
  clock = c;
  sent = λ q n g. absurd (ground (arith, g));
  banned = λ q m i. absurd i;
})
