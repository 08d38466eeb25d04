-- ===== src/Ping/Busy.antt =====
-- After a pause of src/ping.rs no peer is left unasked.
use murmel.Common.{
  ℕ, ◌+◌, ◌≡◌, refl, true, List, [], ◌∷◌, ◌++◌, In, inl, inr, ==_cases, if_cases, subst,
}
use murmel.Common.Map.{get-insert_self}
use murmel.Network.{PeerId, PeerId-Eq}
use murmel.Timeout.{
  Timeout, ExpectedReply, ExpectedReply-Eq, timeout_seconds, pong, expect, is_busy, check,
}
use murmel.Timeout.Laws.{get-insert_other}
use murmel.Messages.{NetworkMessage}
use murmel.Ping.{Ping, ask, ask_all, on_pause}

module _ (t : Timeout ExpectedReply) (now : ℕ) (peer : PeerId) where
  expect-busy : is_busy (expect t now peer 1 pong) peer ≡ true
  unfolding expect is_busy
  expect-busy = rw (get-insert_self t.timeouts peer (now + timeout_seconds)) refl

  expect-keeps_busy :
      (q : PeerId) → is_busy t q ≡ true → is_busy (expect t now peer 1 pong) q ≡ true
  unfolding is_busy expect
  expect-keeps_busy q h = elim (==_cases peer q) [
    | inl (e, p) ↦ subst (λ z. is_busy (expect t now peer 1 pong) z ≡ true) p expect-busy
    | inr (e, p) ↦ rw (get-insert_other t.timeouts peer q (now + timeout_seconds) e) h
  ]

module _ (s : Ping) (now : ℕ) (peer : PeerId) (nonce : ℕ) where
  ask-busy : is_busy (ask s now peer nonce).timeout peer ≡ true
  unfolding ask
  ask-busy =
      if_cases (λ (r : Ping). is_busy r.timeout peer ≡ true) (is_busy s.timeout peer) (λ h. h)
        (λ _. expect-busy s.timeout now peer)

  ask-keeps_busy :
      (q : PeerId) → is_busy s.timeout q ≡ true → is_busy (ask s now peer nonce).timeout q ≡ true
  unfolding ask
  ask-keeps_busy q h =
      if_cases (λ (r : Ping). is_busy r.timeout q ≡ true) (is_busy s.timeout peer) (λ _. h)
        (λ _. expect-keeps_busy s.timeout now peer q h)

ask_all-keeps_busy :
    (s : Ping) (now : ℕ) (ps : List (PeerId × ℕ)) (q : PeerId)
    → is_busy s.timeout q ≡ true
    → is_busy (ask_all s now ps).timeout q ≡ true
unfolding ask_all
ask_all-keeps_busy s now [] q h = h
ask_all-keeps_busy s now ((p, n) ∷ ps) q h =
    ask_all-keeps_busy (ask s now p n) now ps q (ask-keeps_busy s now p n q h)

ask_all-busy :
    (s : Ping) (now : ℕ) (ps : List (PeerId × ℕ)) (q : PeerId) (m : ℕ)
    → In (q, m) ps
    → is_busy (ask_all s now ps).timeout q ≡ true
unfolding ask_all
ask_all-busy s now [] q m h = absurd h
ask_all-busy s now ((p, n) ∷ ps) q m (inl e) =
    ask_all-keeps_busy (ask s now p n) now ps q (
      subst (λ (z : PeerId × ℕ). is_busy (ask s now p n).timeout z.0 ≡ true) e (ask-busy s now p n))
ask_all-busy s now ((p, n) ∷ ps) q m (inr h) = ask_all-busy (ask s now p n) now ps q m h

-- After a pause every peer of the list of peers has a time limit for a reply.
on_pause-busy :
    (s : Ping) (now : ℕ) (peers : List (PeerId × ℕ)) (q : PeerId) (nonce : ℕ)
    → In (q, nonce) peers
    → is_busy (on_pause s now peers).timeout q ≡ true
unfolding on_pause
on_pause-busy s now peers q nonce h =
    let c = check {Message = NetworkMessage} s.timeout now (pong ∷ []) in
    ask_all-busy (record s { timeout = c.0; controls = s.controls ++ c.1 }) now peers q nonce h
