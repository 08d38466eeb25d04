-- ===== src/Timeout/Check.antt =====
-- Peers on the clock, and what `check` of src/timeout.rs does to them.
use murmel.Common.{
  ℕ, ◌+◌, ◌<◌, ◌≤◌, ◌≡◌, refl, ap, subst, ◌∙◌, true, false, List, [], ◌∷◌, ltb, is_some,
  if◌then◌else◌, Eq, ◌==◌, arith, inl, inr, ==_cases, Bool-cases, if_cases,
}
use murmel.Common.Map
use murmel.Common.Map.{get-insert, get-insert_self, get-remove, get-remove_self}
use murmel.Network.{PeerId, PeerId-Eq}
use murmel.Timeout.{
  Timeout, timeout_seconds, or_insert, forget, expect, owed, all_zero, extend, settle_entry,
  received, is_busy, late, forget_all, check,
}
use murmel.Timeout.Laws.{owed-expect, owed-received, owed_at, get-insert_other, get-remove_other}

module _ {Reply : Type 0} ⦃r : Eq Reply⦄ where
  -- Whoever owes a reply has a time limit.
  abbrev pub OnClock : Timeout Reply → Type 0
  OnClock t = (q : PeerId) (w : Reply) → 0 < owed t q w → is_busy t q ≡ true

  -- After `expect` whoever owes a reply has a time limit, if that was so before.
  pub expect-OnClock :
      (t : Timeout Reply) (now : ℕ) (peer : PeerId) (n : ℕ) (what : Reply)
      → OnClock t
      → OnClock (expect t now peer n what)
  unfolding expect is_busy
  expect-OnClock t now peer n what a q w h = elim (==_cases peer q) [
    | inl (e, p) ↦ rw (← p) (rw (get-insert_self t.timeouts peer (now + timeout_seconds)) refl)
    | inr (e, p) ↦ rw (get-insert_other t.timeouts peer q (now + timeout_seconds) e) (
        a q w (
          subst (λ o. 0 < o)
            (owed-expect t now peer n what q w
              ∙ ap
                  (λ b.
                    if b then (if what == w then owed t q w + n else owed t q w) else owed t q w)
                  e)
            h))
  ]

  all_zero-get :
      (m : List (Reply × ℕ)) (w : Reply) → all_zero m ≡ true → or_insert (Map.get m w) 0 ≡ 0
  unfolding Map.get
  all_zero-get [] w h = refl
  all_zero-get ((k, n) ∷ m) w h = elim (Bool-cases (k == w)) [
    | inl e ↦ rw (e) (ground (arith, h))
    | inr e ↦ rw (e) (all_zero-get m w (ground (arith, h)))
  ]

  extend_other :
      (t : Timeout Reply) (now : ℕ) (peer : PeerId) (what : Reply) (q : PeerId)
      → (peer == q) ≡ false
      → Map.get (extend t now peer what).timeouts q ≡ Map.get t.timeouts q
  unfolding extend
  extend_other t now peer what q e =
      if_cases (λ (s : Timeout Reply). Map.get s.timeouts q ≡ Map.get t.timeouts q)
        (ltb 0 (owed t peer what))
        (λ _. get-insert_other t.timeouts peer q (now + timeout_seconds) e) (λ _. refl)

  -- A reply of another peer changes nothing for a peer's clock.
  received_other :
      (t : Timeout Reply) (now : ℕ) (peer : PeerId) (n : ℕ) (what : Reply) (q : PeerId)
      → (peer == q) ≡ false
      → Map.get (received t now peer n what).timeouts q ≡ Map.get t.timeouts q
  unfolding received
  received_other t now peer n what q e =
      let x = extend_other t now peer what q e in
      if_cases (λ (ts : List (PeerId × ℕ)). Map.get ts q ≡ Map.get t.timeouts q)
        (all_zero (settle_entry t peer n what))
        (λ _. get-remove_other (extend t now peer what).timeouts peer q e ∙ x) (λ _. x)

  extend_busy :
      (t : Timeout Reply) (now : ℕ) (peer : PeerId) (what : Reply)
      → is_busy t peer ≡ true
      → is_some (Map.get (extend t now peer what).timeouts peer) ≡ true
  unfolding extend is_busy
  extend_busy t now peer what b =
      if_cases (λ (s : Timeout Reply). is_some (Map.get s.timeouts peer) ≡ true)
        (ltb 0 (owed t peer what))
        (λ _. rw (get-insert_self t.timeouts peer (now + timeout_seconds)) refl) (λ _. b)

  received_busy :
      (t : Timeout Reply) (now : ℕ) (peer : PeerId) (n : ℕ) (what w : Reply)
      → 0 < owed (received t now peer n what) peer w
      → is_busy t peer ≡ true
      → is_busy (received t now peer n what) peer ≡ true
  unfolding received is_busy
  received_busy t now peer n what w h b =
      let entry = settle_entry t peer n what in
      let o : owed (received t now peer n what) peer w ≡ or_insert (Map.get entry w) 0 =
        owed_at (received t now peer n what).timeouts (extend t now peer what).expected peer entry
          w in
      if_cases (λ (ts : List (PeerId × ℕ)). is_some (Map.get ts peer) ≡ true) (all_zero entry)
        (λ z.
          let y : or_insert (Map.get entry w) 0 ≡ 0 = all_zero-get entry w z in
          absurd (omega (arith, o, y, h)))
        (λ _. extend_busy t now peer what b)

  pub received_less :
      (t : Timeout Reply) (now : ℕ) (peer : PeerId) (n : ℕ) (what : Reply) (q : PeerId) (w : Reply)
      → owed (received t now peer n what) q w ≤ owed t q w
  received_less t now peer n what q w = rw (owed-received t now peer n what q w) (
      if_cases (λ o. o ≤ owed t q w) (peer == q)
        (λ _. if_cases (λ o. o ≤ owed t q w) (what == w) (λ _. omega arith) (λ _. omega arith))
        (λ _. omega arith))

  -- After `received` whoever owes a reply has a time limit, if that was so before.
  pub received-OnClock :
      (t : Timeout Reply) (now : ℕ) (peer : PeerId) (n : ℕ) (what : Reply)
      → OnClock t
      → OnClock (received t now peer n what)
  unfolding is_busy
  received-OnClock t now peer n what a q w h =
      let b = a q w (omega (arith, h, received_less t now peer n what q w)) in
      elim (==_cases peer q) [
        | inl (e, p) ↦
            subst
              (λ z.
                0 < owed (received t now peer n what) z w
                → is_busy t z ≡ true
                → is_busy (received t now peer n what) z ≡ true)
              p (received_busy t now peer n what w) h b
        | inr (e, p) ↦ rw (received_other t now peer n what q e) b
      ]

  owed_forgotten :
      (t : Timeout Reply) (peer : PeerId) (q : PeerId) (w : Reply)
      → owed (forget t peer) q w ≡ (if peer == q then 0 else owed t q w)
  unfolding forget owed Map.get
  owed_forgotten t peer q w =
      rw (get-remove t.expected peer q)
        (elim (Bool-cases (peer == q)) [ inl e ↦ rw e refl | inr e ↦ rw e refl ])

  pub forget_less :
      (t : Timeout Reply) (peer q : PeerId) (w : Reply) → owed (forget t peer) q w ≤ owed t q w
  forget_less t peer q w =
      rw (owed_forgotten t peer q w)
        (if_cases (λ o. o ≤ owed t q w) (peer == q) (λ _. omega arith) (λ _. omega arith))

  forget_all_less :
      (t : Timeout Reply) (ps : List PeerId) (q : PeerId) (w : Reply)
      → owed (forget_all t ps) q w ≤ owed t q w
  unfolding forget_all
  forget_all_less t [] q w = omega arith
  forget_all_less t (p ∷ ps) q w =
      omega (arith, forget_less t p q w, forget_all_less (forget t p) ps q w)

  -- No peer owes more after `check`.
  pub check_less :
      (Message : Type 0) (t : Timeout Reply) (now : ℕ) (ws : List Reply) (q : PeerId) (w : Reply)
      → owed (check {Message = Message} t now ws).0 q w ≤ owed t q w
  unfolding check
  check_less Message t now ws q w = forget_all_less t (late t now ws t.timeouts) q w

  -- After `forget`, and so after `check`, whoever owes a reply has a time limit, if that was so before.
  pub forget-OnClock : (t : Timeout Reply) (peer : PeerId) → OnClock t → OnClock (forget t peer)
  unfolding forget is_busy
  forget-OnClock t peer a q w h = elim (==_cases peer q) [
    | inl (e, p) ↦ absurd (ground (arith, owed_forgotten t peer q w, e))
    | inr (e, p) ↦
        rw (get-remove_other t.timeouts peer q e)
          (a q w (ground (arith, owed_forgotten t peer q w, e)))
  ]

  forget_all-OnClock :
      (t : Timeout Reply) (ps : List PeerId) → OnClock t → OnClock (forget_all t ps)
  unfolding forget_all
  forget_all-OnClock t [] a = a
  forget_all-OnClock t (p ∷ ps) a = forget_all-OnClock (forget t p) ps (forget-OnClock t p a)

  pub check-OnClock :
      (Message : Type 0) (t : Timeout Reply) (now : ℕ) (ws : List Reply)
      → OnClock t
      → OnClock (check {Message = Message} t now ws).0
  unfolding check
  check-OnClock Message t now ws a = forget_all-OnClock t (late t now ws t.timeouts) a
