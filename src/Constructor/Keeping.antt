-- ===== src/Constructor/Keeping.antt =====
-- What `KeepConnected` of src/constructor.rs chooses.
use native.Mathlib.Nat.{mod-lt}
use murmel.Common.{
  ℕ, zero, ◌%◌, ◌≤◌, ◌<◌, ◌≡◌, refl, sym, subst, inl, inr, true, false, Option, none, some, List,
  [], ◌∷◌, length, get_elem?, ltb, arith, In, In-get_elem?, get_elem?_total, Option-cases,
  Bool-cases, if_cases,
}
use murmel.Constructor.{KeepConnected, contains, eligible, poll, interval}

contains-In : (l : List ℕ) (a : ℕ) → In a l → contains l a ≡ true
unfolding contains
contains-In [] a h = absurd h
contains-In (b ∷ l) a (inl e) = ground (arith, e)
contains-In (b ∷ l) a (inr h) = ground (arith, contains-In l a h)

In-eligible :
    (earlier dns : List ℕ) (a : ℕ) → In a (eligible earlier dns) → In a dns × (¬ In a earlier)
unfolding eligible
In-eligible earlier [] a h = absurd h
In-eligible earlier (b ∷ dns) a h = elim (Bool-cases (contains earlier b)) [
  | inl e ↦ let (i, n) = In-eligible earlier dns a (rw e at h) in (inr i, n)
  | inr e ↦ elim (let k : In a (b ∷ eligible earlier dns) = rw e at h in k) [
    | inl s ↦ (
      inl s,
      λ g. absurd (
          let k = contains-In earlier a g in
          let l : contains earlier a ≡ false = subst (λ z. contains earlier z ≡ false) s e in cc),
    )
    | inr i ↦ let (j, n) = In-eligible earlier dns a i in (inr j, n)
  ]
]

eligible-In :
    (earlier dns : List ℕ) (a : ℕ)
    → In a dns
    → contains earlier a ≡ false
    → In a (eligible earlier dns)
unfolding eligible
eligible-In earlier [] a h n = absurd h
eligible-In earlier (b ∷ dns) a (inl s) n =
    let e : contains earlier b ≡ false = subst (λ z. contains earlier z ≡ false) (sym s) n in
    rw e (inl s)
eligible-In earlier (b ∷ dns) a (inr h) n = elim (Bool-cases (contains earlier b)) [
  | inl e ↦ rw e (eligible-In earlier dns a h n)
  | inr e ↦ rw e (inr (eligible-In earlier dns a h n))
]

In-length : (a : ℕ) (l : List ℕ) → In a l → zero < length l
In-length a [] h = absurd h
In-length a (b ∷ l) h = omega arith

-- What a poll of `KeepConnected` gives.
pub data Chosen (k : KeepConnected) (connected : ℕ) (r : KeepConnected × Option ℕ) : Type 0 where
  enough : k.min_connections ≤ connected → r ≡ (k, none) → Chosen k connected r
  exhausted :
      connected < k.min_connections
      → ((a : ℕ) → In a k.dns → contains k.earlier a ≡ true)
      → r ≡ (k, none)
      → Chosen k connected r
  chooses :
      (a : ℕ)
      → connected < k.min_connections
      → In a k.dns
      → ¬ In a k.earlier
      → r ≡ (record k { earlier = a ∷ k.earlier }, some a)
      → Chosen k connected r

-- A poll of the connection keeper chooses nothing if there are enough connections, or if every seed was
-- tried; otherwise it chooses a seed that was not tried before, whatever the random number is, and
-- remembers it.
pub poll-Chosen :
    (k : KeepConnected) (connected random : ℕ) → Chosen k connected (poll k connected random)
unfolding poll
poll-Chosen k connected random =
    let addresses = eligible k.earlier k.dns in
    if_cases (Chosen k connected) (ltb connected k.min_connections)
      (λ l. elim (Option-cases (get_elem? addresses (random % length addresses))) [
        | inl e ↦
            rw (e, poll)
              (exhausted (ground arith)
                (λ a i. elim (Bool-cases (contains k.earlier a)) [
                  | inl c ↦ c
                  | inr c ↦
                      let some_left : zero < length addresses =
                        In-length a addresses (eligible-In k.earlier k.dns a i c) in
                      let (b, f) =
                        get_elem?_total addresses (random % length addresses)
                          (mod-lt random some_left) in
                      absurd (cc)
                ])
                refl)
        | inr (a, e) ↦
            let (i, n) =
              In-eligible k.earlier k.dns a
                (In-get_elem? a addresses (random % length addresses) e) in
            rw (e, poll) (chooses a (ground arith) i n refl)
      ])
      (λ l. enough (ground arith) refl)

-- Since the interval polls clones, a choice is not remembered: with too few connections twice and the
-- same random number, the same address is chosen twice.
pub interval-again :
    (k : KeepConnected) (n m random : ℕ)
    → n < k.min_connections
    → m < k.min_connections
    → interval k ((n, random) ∷ (m, random) ∷ []) ≡ (poll k n random).1 ∷ (poll k n random).1 ∷ []
unfolding interval poll
interval-again k n m random h l = ground arith
