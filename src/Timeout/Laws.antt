-- ===== src/Timeout/Laws.antt =====
-- What `expect`, `received` and `forget` of src/timeout.rs do to the replies that peers owe.
use murmel.Common.{
  ℕ, ◌+◌, ◌-◌, ◌≡◌, refl, ◌∙◌, min, false, Option, none, some, List, [], ltb, if◌then◌else◌, Eq,
  ◌==◌, arith, inl, inr, ==_cases, Bool-cases,
}
use murmel.Common.Map
use murmel.Common.Map.{get-insert, get-insert_self, get-remove, get-remove_self}
use murmel.Network.{PeerId, PeerId-Eq}
use murmel.Timeout.{
  Timeout, timeout_seconds, or_insert, expect, owed, extend, settle_entry, received,
}

-- `get` after `insert` at the same key and at another.
module _ {K V : Type 0} ⦃e : Eq K⦄ (m : List (K × V)) (k j : K) where
  pub get-insert_other : (v : V) → (k == j) ≡ false → Map.get (Map.insert m k v) j ≡ Map.get m j
  get-insert_other v h = rw (get-insert m k v j, h) refl

  pub get-remove_other : (k == j) ≡ false → Map.get (Map.remove m k) j ≡ Map.get m j
  get-remove_other h = rw (get-remove m k j, h) refl

or_insert-minus : (o : Option ℕ) (n : ℕ) → or_insert o n - min n (or_insert o n) ≡ or_insert o 0 - n
or_insert-minus none n = ground arith
or_insert-minus (some m) n = ground arith

module _ {Reply : Type 0} ⦃r : Eq Reply⦄ where
  -- The replies of the peer whose entry was put in, and of another.
  pub owed_at :
      (ts : List (PeerId × ℕ)) (ex : List (PeerId × List (Reply × ℕ))) (peer : PeerId)
      (entry : List (Reply × ℕ)) (w : Reply)
      → owed (record { timeouts = ts; expected = Map.insert ex peer entry }) peer w
        ≡ or_insert (Map.get entry w) 0
  unfolding owed
  owed_at ts ex peer entry w = rw (get-insert_self ex peer entry) refl

  owed_other :
      (ts us : List (PeerId × ℕ)) (ex : List (PeerId × List (Reply × ℕ))) (peer q : PeerId)
      (entry : List (Reply × ℕ)) (w : Reply)
      → (peer == q) ≡ false
      → owed (record { timeouts = ts; expected = Map.insert ex peer entry }) q w
        ≡ owed (record { timeouts = us; expected = ex }) q w
  unfolding owed
  owed_other ts us ex peer q entry w h = rw (get-insert_other ex peer q entry h) refl

  or_insert-insert :
      (m : List (Reply × ℕ)) (k : Reply) (v : ℕ) (w : Reply)
      → or_insert (Map.get (Map.insert m k v) w) 0
        ≡ (if k == w then v else or_insert (Map.get m w) 0)
  or_insert-insert m k v w =
      rw (get-insert m k v w) (elim (Bool-cases (k == w)) [ inl e ↦ rw e refl | inr e ↦ rw e refl ])

  added :
      (t : Timeout Reply) (peer : PeerId) (n : ℕ) (what w : Reply)
      → (if what == w
          then or_insert (Map.get (or_insert (Map.get t.expected peer) []) what) 0 + n
          else or_insert (Map.get (or_insert (Map.get t.expected peer) []) w) 0)
        ≡ (if what == w then owed t peer w + n else owed t peer w)
  unfolding owed
  added t peer n what w = elim (==_cases what w) [
    | inl (h, p) ↦ rw (h, p) refl
    | inr (h, p) ↦ rw h refl
  ]

  taken :
      (t : Timeout Reply) (peer : PeerId) (n : ℕ) (what w : Reply)
      → (let m = or_insert (Map.get (or_insert (Map.get t.expected peer) []) what) n in
          if what == w
          then m - min n m
          else or_insert (Map.get (or_insert (Map.get t.expected peer) []) w) 0)
        ≡ (if what == w then owed t peer w - n else owed t peer w)
  unfolding owed
  taken t peer n what w = elim (==_cases what w) [
    | inl (h, p) ↦
        rw (h, p) (or_insert-minus (Map.get (or_insert (Map.get t.expected peer) []) w) n)
    | inr (h, p) ↦ rw h refl
  ]

  -- `expect` adds n to what the peer owes of that kind, and changes nothing else that is owed.
  pub owed-expect :
      (t : Timeout Reply) (now : ℕ) (peer : PeerId) (n : ℕ) (what : Reply) (q : PeerId) (w : Reply)
      → owed (expect t now peer n what) q w
        ≡ (if peer == q then (if what == w then owed t q w + n else owed t q w) else owed t q w)
  unfolding expect owed
  owed-expect t now peer n what q w = elim (==_cases peer q) [
    | inl (h, p) ↦
        rw (h, ← p)
          (owed_at (Map.insert t.timeouts peer (now + timeout_seconds)) t.expected peer _ w
            ∙ (or_insert-insert (or_insert (Map.get t.expected peer) []) what _ w
                ∙ added t peer n what w))
    | inr (h, p) ↦ rw h (
        owed_other (Map.insert t.timeouts peer (now + timeout_seconds)) t.timeouts t.expected peer q
          _ w h)
  ]

  expected-extend :
      (t : Timeout Reply) (now : ℕ) (peer : PeerId) (what : Reply)
      → (extend t now peer what).expected ≡ t.expected
  unfolding extend
  expected-extend t now peer what = elim (Bool-cases (ltb 0 (owed t peer what))) [
    | inl e ↦ rw e refl
    | inr e ↦ rw e refl
  ]

  -- `received` takes n from what the peer owes of that kind, down to 0, and changes nothing else that
  -- is owed.
  pub owed-received :
      (t : Timeout Reply) (now : ℕ) (peer : PeerId) (n : ℕ) (what : Reply) (q : PeerId) (w : Reply)
      → owed (received t now peer n what) q w
        ≡ (if peer == q then (if what == w then owed t q w - n else owed t q w) else owed t q w)
  unfolding received owed settle_entry
  owed-received t now peer n what q w = elim (==_cases peer q) [
    | inl (h, p) ↦
        rw (h, ← p)
          (owed_at (received t now peer n what).timeouts (extend t now peer what).expected peer _ w
            ∙ (or_insert-insert (or_insert (Map.get t.expected peer) []) what _ w
                ∙ taken t peer n what w))
    | inr (h, p) ↦
        rw (h, expected-extend t now peer what)
          (owed_other (received t now peer n what).timeouts t.timeouts t.expected peer q _ w h)
  ]
