-- ===== src/Timeout/Bans.antt =====
-- Sequences of calls of src/timeout.rs, and whom `check` bans.
use murmel.Common.{
  ℕ, ◌<◌, ◌≡◌, refl, sym, ap, ◌∙◌, true, none, List, [], ◌∷◌, ltb, Eq, ◌==◌, arith, inl, inr,
  Bool-cases, if_cases, In,
}
use murmel.Common.Map
use murmel.Common.Map.{get-remove, get-remove_self}
use murmel.Network.{PeerId, PeerId-Eq, P2PControl}
use murmel.Network
use murmel.Timeout.{
  Timeout, new, forget, expect, owed, received, late, forget_all, check, bans, owes_any,
}
use murmel.Timeout.Check.{OnClock, expect-OnClock, received-OnClock, forget-OnClock, check-OnClock}

-- A call, with the time at which it is made.
pub data Call (Reply : Type 0) : Type 0 where
  expects receives : ℕ → PeerId → ℕ → Reply → Call Reply
  forgets : PeerId → Call Reply
  checks : ℕ → List Reply → Call Reply

In-bans :
    (Message : Type 0) (ps : List PeerId) (p : PeerId) (n : ℕ)
    → In (Network.ban p n) (bans {Message = Message} ps)
    → In p ps
unfolding bans
In-bans Message [] p n h = absurd h
In-bans Message (q ∷ ps) p n (inl e) = inl (cc)
In-bans Message (q ∷ ps) p n (inr h) = inr (In-bans Message ps p n h)

bans-score :
    (Message : Type 0) (ps : List PeerId) (p : PeerId) (n : ℕ)
    → In (Network.ban p n) (bans {Message = Message} ps)
    → n ≡ 100
unfolding bans
bans-score Message [] p n h = absurd h
bans-score Message (q ∷ ps) p n (inl e) = cc
bans-score Message (q ∷ ps) p n (inr h) = bans-score Message ps p n h

module _ {Reply : Type 0} ⦃r : Eq Reply⦄ where
  unfoldable pub call : Timeout Reply → Call Reply → Timeout Reply
  call t (expects now peer n what) = expect t now peer n what
  call t (receives now peer n what) = received t now peer n what
  call t (forgets peer) = forget t peer
  call t (checks now ws) = (check {Message = Unit} t now ws).0

  unfoldable pub calls : Timeout Reply → List (Call Reply) → Timeout Reply
  calls t [] = t
  calls t (c ∷ cs) = calls (call t c) cs

  pub call-OnClock : (t : Timeout Reply) (c : Call Reply) → OnClock t → OnClock (call t c)
  unfolding call
  call-OnClock t (expects now peer n what) a = expect-OnClock t now peer n what a
  call-OnClock t (receives now peer n what) a = received-OnClock t now peer n what a
  call-OnClock t (forgets peer) a = forget-OnClock t peer a
  call-OnClock t (checks now ws) a = check-OnClock Unit t now ws a

  calls-OnClock_of : (t : Timeout Reply) (cs : List (Call Reply)) → OnClock t → OnClock (calls t cs)
  unfolding calls
  calls-OnClock_of t [] a = a
  calls-OnClock_of t (c ∷ cs) a = calls-OnClock_of (call t c) cs (call-OnClock t c a)

  owed-new : (q : PeerId) (w : Reply) → owed new q w ≡ 0
  unfolding new owed Map.get
  owed-new q w = refl

  -- After any sequence of calls of `expect`, `received`, `forget` and `check` on a new `Timeout`, at
  -- any times, every peer that owes a reply has a time limit.
  pub calls-OnClock : (cs : List (Call Reply)) → OnClock (calls new cs)
  calls-OnClock cs = calls-OnClock_of new cs (λ q w h. absurd (omega (arith, h, owed-new q w)))

  late-In :
      (t : Timeout Reply) (now : ℕ) (ws : List Reply) (ps : List (PeerId × ℕ)) (p : PeerId)
      → In p (late t now ws ps)
      → (limit : ℕ) × In (p, limit) ps × (limit < now) × (owes_any t p ws ≡ true)
  unfolding late
  late-In t now ws [] p h = absurd h
  late-In t now ws ((q, limit) ∷ ps) p h0 =
      let rest : In p (late t now ws ps)
          → (l : ℕ) × In (p, l) ((q, limit) ∷ ps) × (l < now) × (owes_any t p ws ≡ true) =
        λ h. let (l, i, e, o) = late-In t now ws ps p h in (l, inr i, e, o) in
      if_cases
        (λ xs.
          In p xs → (l : ℕ) × In (p, l) ((q, limit) ∷ ps) × (l < now) × (owes_any t p ws ≡ true))
        (ltb limit now)
        (λ e.
          if_cases
            (λ xs.
              In p xs
              → (l : ℕ) × In (p, l) ((q, limit) ∷ ps) × (l < now) × (owes_any t p ws ≡ true))
            (owes_any t q ws)
            (λ o c. elim c [
              | inl i ↦ (
                limit,
                inl (ap (λ z. (z, limit)) i),
                ground arith,
                ap (λ z. owes_any t z ws) (sym i) ∙ o,
              )
              | inr h ↦ rest h
            ])
            (λ _. rest))
        (λ _. rest) h0

  -- A peer is unknown: it has no limit and owes nothing.
  abbrev pub IsForgotten : Timeout Reply → PeerId → Type 0
  IsForgotten t p = (Map.get t.timeouts p ≡ none) × (Map.get t.expected p ≡ none)

  forget-IsForgotten :
      (t : Timeout Reply) (q p : PeerId) → IsForgotten t p → IsForgotten (forget t q) p
  unfolding forget
  forget-IsForgotten t q p (a, b) = elim (Bool-cases (q == p)) [
    | inl e ↦ (rw (get-remove t.timeouts q p, e) refl, rw (get-remove t.expected q p, e) refl)
    | inr e ↦ (rw (get-remove t.timeouts q p, e) a, rw (get-remove t.expected q p, e) b)
  ]

  forget_all-keeps :
      (t : Timeout Reply) (ps : List PeerId) (p : PeerId)
      → IsForgotten t p
      → IsForgotten (forget_all t ps) p
  unfolding forget_all
  forget_all-keeps t [] p f = f
  forget_all-keeps t (q ∷ ps) p f = forget_all-keeps (forget t q) ps p (forget-IsForgotten t q p f)

  forget_all-IsForgotten :
      (t : Timeout Reply) (ps : List PeerId) (p : PeerId)
      → In p ps
      → IsForgotten (forget_all t ps) p
  unfolding forget_all forget
  forget_all-IsForgotten t [] p h = absurd h
  forget_all-IsForgotten t (q ∷ ps) p (inl e) =
      forget_all-keeps (forget t q) ps p
        (rw e (get-remove_self t.timeouts p, get-remove_self t.expected p))
  forget_all-IsForgotten t (q ∷ ps) p (inr h) = forget_all-IsForgotten (forget t q) ps p h

  -- A peer that `check` bans had a time limit that has passed and owed one of the replies asked about;
  -- after the call it has no limit and owes nothing.
  pub check-bans :
      (Message : Type 0) (t : Timeout Reply) (now : ℕ) (ws : List Reply) (p : PeerId) (n : ℕ)
      → In (Network.ban p n) (check {Message = Message} t now ws).1
      → ((limit : ℕ) × In (p, limit) t.timeouts × (limit < now) × (owes_any t p ws ≡ true))
        × IsForgotten (check {Message = Message} t now ws).0 p
  unfolding check
  check-bans Message t now ws p n h =
      let i = In-bans Message (late t now ws t.timeouts) p n h in
      (late-In t now ws t.timeouts p i, forget_all-IsForgotten t (late t now ws t.timeouts) p i)

  -- A ban of `check` costs 100 points.
  pub check-score :
      (Message : Type 0) (t : Timeout Reply) (now : ℕ) (ws : List Reply) (p : PeerId) (n : ℕ)
      → In (Network.ban p n) (check {Message = Message} t now ws).1
      → n ≡ 100
  unfolding check
  check-score Message t now ws p n h = bans-score Message (late t now ws t.timeouts) p n h
