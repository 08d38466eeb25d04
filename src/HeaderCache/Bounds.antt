-- ===== src/HeaderCache/Bounds.antt =====
-- What every `add_header` of src/headercache.rs does to the known headers: they stay, one may be new,
-- and heights grow by one at most.
use murmel.Common.{
  ℕ, suc, ◌^◌, ◌<◌, ◌≤◌, ◌≡◌, ◌≢◌, ap, sym, refl, ◌∙◌, inl, inr, Option, some, arith, ℕ-Eq,
}
use murmel.Common.Map
use murmel.Common.Map.{get-insert_cases, get-insert_self}
use murmel.External.{BlockHeader, External}
use murmel.Outcome.{Outcome, ok}
use murmel.Pow.{CachedHeader}
use murmel.HeaderCache.{HeaderCache}
use murmel.HeaderCache.Add.{Added, some_added, add_header}
use murmel.HeaderCache.Tree.{IsTree}
use murmel.HeaderCache.Store.{get-with_header}
use murmel.HeaderCache.Grow.{store_cached-cases}
use murmel.HeaderCache.Cases.{Stores, add_header-cases}
use murmel.HeaderCache.Chain.{IsLow, Stores-higher, Stores-cached}

-- All heights are below a bound.
abbrev pub IsBelow : ℕ → HeaderCache → Type 0
IsBelow n c = (k : ℕ) (e : CachedHeader) → Map.get c.headers k ≡ some e → e.height < n

pub IsBelow-IsLow : {n : ℕ} (c : HeaderCache) → n < 2 ^ 32 → IsBelow n c → IsLow c
IsBelow-IsLow c l b k e g = omega (arith, b k e g, l)

pub IsBelow-weaken : {n m : ℕ} (c : HeaderCache) → n ≤ m → IsBelow n c → IsBelow m c
IsBelow-weaken c l b k e g = omega (arith, b k e g, l)

-- Known headers stay known.
abbrev pub Grows : HeaderCache → HeaderCache → Type 0
Grows c d = (k : ℕ) (e : CachedHeader) → Map.get c.headers k ≡ some e → Map.get d.headers k ≡ some e

-- A header is known under its hash, at a height.
abbrev pub IsKnown : External → HeaderCache → BlockHeader → ℕ → Type 0
IsKnown x c header height =
    (e : CachedHeader) × (Map.get c.headers (x.bitcoin_hash header) ≡ some e)
    × (e.header ≡ header)
    × (e.height ≡ height)

module _ (x : External) {root : ℕ} (c : HeaderCache) (next : BlockHeader) (t : IsTree root c)
    (low : IsLow c) where
  pub Stores-headers :
      {r : HeaderCache × Outcome (Option Added)} (s : Stores x c next r)
      → r.0.headers ≡ Map.insert c.headers s.cached.id s.cached
  Stores-headers s =
      elim (store_cached-cases x c t s.cached s.prev s.fresh s.found
        (Stores-higher x c next low s)) [
          | inl a ↦ ap (λ r. r.0.headers) (s.result ∙ ap some_added a.result)
          | inr m ↦ ap (λ r. r.0.headers) (s.result ∙ ap some_added m.switched.result)
        ]

  pub add_header-IsBelow :
      next.prev_blockhash ≢ 0 → {n : ℕ} → IsBelow n c → IsBelow (suc n) (add_header x c next).0
  add_header-IsBelow nz b k e g = elim (add_header-cases x c next nz) [
    | inl h ↦ omega (arith, b k e (rw h.same at g))
    | inr s ↦
        elim (get-insert_cases c.headers s.cached.id s.cached k (rw (Stores-headers s) at g)) [
          | inl (z, w) ↦
              let up = Stores-higher x c next low s in
              omega (arith, ap (λ (a : CachedHeader). a.height) w, up, b _ s.prev s.found)
          | inr g' ↦ omega (arith, b k e g')
        ]
  ]

  pub add_header-Grows : next.prev_blockhash ≢ 0 → Grows c (add_header x c next).0
  add_header-Grows nz k e g = elim (add_header-cases x c next nz) [
    | inl h ↦ rw h.same g
    | inr s ↦
        rw (Stores-headers s)
          (get-with_header c t s.cached s.prev s.fresh s.found (Stores-higher x c next low s) k e g)
  ]

  -- A header that is added is known, and is the one that the result tells of.
  pub add_header-IsKnown :
      next.prev_blockhash ≢ 0
      → {a : Added} → (add_header x c next).1 ≡ ok (some a)
      → IsKnown x (add_header x c next).0 a.cached.header a.cached.height
  add_header-IsKnown nz {a} o = elim (add_header-cases x c next nz) [
    | inl h ↦ absurd (h.none_added a o)
    | inr s ↦
        let e : a.cached ≡ s.cached = Stores-cached x c next t low s o in
        let z : x.bitcoin_hash s.cached.header ≡ s.cached.id =
          rw s.valid.is_header (sym s.valid.is_id) in
        let g : Map.get (add_header x c next).0.headers s.cached.id ≡ some s.cached =
          rw (Stores-headers s) (get-insert_self c.headers s.cached.id s.cached) in
        (a.cached, rw e (rw z g), refl, refl)
  ]

  -- The header that is added is the one that was given.
  pub header-add_header :
      next.prev_blockhash ≢ 0
      → {a : Added} → (add_header x c next).1 ≡ ok (some a)
      → a.cached.header ≡ next
  header-add_header nz {a} o = elim (add_header-cases x c next nz) [
    | inl h ↦ absurd (h.none_added a o)
    | inr s ↦ rw (Stores-cached x c next t low s o) s.valid.is_header
  ]
