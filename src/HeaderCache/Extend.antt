-- ===== src/HeaderCache/Extend.antt =====
-- `add_header` of src/headercache.rs for a header whose parent is on the trunk.
use murmel.Common.{
  ℕ, suc, ◌+◌, ◌≡◌, ◌≢◌, refl, ap, sym, ◌∙◌, inl, inr, none, some, [], ◌∷◌, ◌++◌, arith, true,
  ==_self, ℕ-Eq, Option-cases, In,
}
use murmel.Common.Map
use murmel.Common.Map.{get-insert_self}
use murmel.External.{BlockHeader, External}
use murmel.Outcome.{Outcome, ok}
use murmel.Pow.{CachedHeader}
use murmel.HeaderCache.{HeaderCache, last, tip, pos_on_trunk}
use murmel.HeaderCache.Add.{
  Added, path_loop, switch_trunk, follow_path, store_cached, some_added, add_header,
}
use murmel.HeaderCache.Trunk.{pos_on_trunk-none, last-In, last-append_cons}
use murmel.HeaderCache.Tree.{IsTree}
use murmel.HeaderCache.Store.{tip_known, tip_of_last, get-with_header}
use murmel.HeaderCache.Grow.{grown}
use murmel.HeaderCache.Cases.{add_header-cases}
use murmel.HeaderCache.Chain.{IsLow, Stores-higher, Stores-cached}

path_loop_at :
    (n : ℕ) (c : HeaderCache) (k : ℕ) → In k c.trunk → path_loop (suc n) c k [] ≡ ok (k, [])
unfolding path_loop
path_loop_at n c k i = elim (Option-cases (pos_on_trunk c k)) [
  | inl e ↦ absurd (pos_on_trunk-none c k e i)
  | inr (p, e) ↦ rw (e, path_loop) refl
]

abbrev extended : HeaderCache → CachedHeader → HeaderCache × Outcome Added
extended c cached = (
  record c { trunk = c.trunk ++ (cached.id ∷ []) },
  ok (record { cached = cached; unwinds = none; forwards = some (cached.id ∷ []) }),
)

follow_path-extended :
    (c : HeaderCache) (cached : CachedHeader) (n : ℕ)
    → In cached.header.prev_blockhash c.trunk
    → follow_path c cached n ≡ extended c cached
unfolding follow_path switch_trunk
follow_path-extended c cached n i =
    let two : n + 2 ≡ suc (suc n) = omega arith in
    let q : path_loop (n + 2) c cached.header.prev_blockhash []
        ≡ ok (cached.header.prev_blockhash, []) =
      ap (λ m. path_loop m c cached.header.prev_blockhash []) two
      ∙ path_loop_at (suc n) c cached.header.prev_blockhash i in
    rw (q, follow_path) (rw (==_self cached.header.prev_blockhash, switch_trunk) refl)

module _ (x : External) {root : ℕ} (c : HeaderCache) (next : BlockHeader) where
  open x use {float}

  -- The tip is what it was as long as the trunk stays.
  tip-grown :
      (t : IsTree root c) (cached prev : CachedHeader)
      → (fresh : Map.get c.headers cached.id ≡ none)
      → (found : Map.get c.headers cached.header.prev_blockhash ≡ some prev)
      → (higher : cached.height ≡ suc prev.height) → {before : CachedHeader} → tip c ≡ some before
      → tip (grown x c t cached prev fresh found higher) ≡ some before
  tip-grown t cached prev fresh found higher e =
      let (k, b, l, m) = tip_known c t in
      let same = sym (tip_of_last c k b l m) ∙ e in
      tip_of_last (grown x c t cached prev fresh found higher) k b l
        (get-with_header c t cached prev fresh found higher k b m)
      ∙ same

  store_cached-extended :
      (t : IsTree root c) (cached prev : CachedHeader)
      → (fresh : Map.get c.headers cached.id ≡ none)
      → (found : Map.get c.headers cached.header.prev_blockhash ≡ some prev)
      → (higher : cached.height ≡ suc prev.height) → {before : CachedHeader} → tip c ≡ some before
      → In cached.header.prev_blockhash c.trunk
      → float.lt before.log2work cached.log2work ≡ true
      → store_cached x c prev cached ≡ extended (grown x c t cached prev fresh found higher) cached
  unfolding store_cached
  store_cached-extended t cached prev fresh found higher e i w =
      let c' = grown x c t cached prev fresh found higher in
      rw (tip-grown t cached prev fresh found higher e, store_cached)
        (rw w (follow_path-extended c' cached prev.height i))

  -- A header with more work than the tip whose parent is on the trunk, the tip or any header below it,
  -- goes to the end of the trunk: if `add_header` adds it, the new trunk is the old one with its id at
  -- the end, nothing is unwound, its id is the only forward, and it is the new tip. The header is no
  -- genesis, and the cache is a tree with heights below 2^32 - 1.
  pub add_header-appends :
      IsTree root c
      → IsLow c
      → next.prev_blockhash ≢ 0
      → {before : CachedHeader} → {a : Added} → (add_header x c next).1 ≡ ok (some a)
      → In next.prev_blockhash c.trunk
      → tip c ≡ some before
      → float.lt before.log2work a.cached.log2work ≡ true
      → let h = (add_header x c next).0 in
        (h.trunk ≡ c.trunk ++ (x.bitcoin_hash next ∷ []))
        × (a.unwinds ≡ none)
        × (a.forwards ≡ some (x.bitcoin_hash next ∷ []))
        × (tip h ≡ some a.cached)
  add_header-appends t low nz {before} {a} o i e w = elim (add_header-cases x c next nz) [
    | inl k ↦ absurd (k.none_added a o)
    | inr s ↦
        let i' : In s.cached.header.prev_blockhash c.trunk = rw s.valid.is_header i in
        let is_cached : a.cached ≡ s.cached = Stores-cached x c next t low s o in
        let up = Stores-higher x c next low s in
        let q : add_header x c next
            ≡ some_added (extended (grown x c t s.cached s.prev s.fresh s.found up) s.cached) =
          s.result
          ∙ ap some_added (
              store_cached-extended t s.cached s.prev s.fresh s.found up e i'
                (rw is_cached at w)) in
        let b : Added = record {
          cached = s.cached;
          unwinds = none;
          forwards = some (s.cached.id ∷ []);
        } in
        let is_added : ok (some a) ≡ ok (some b) = sym o ∙ ap (λ r. r.1) q in
        let no_unwinds : a.unwinds ≡ none = cc in
        let one_forward : a.forwards ≡ some (s.cached.id ∷ []) = cc in
        (
          rw (← s.valid.is_id) (ap (λ r. r.0.trunk) q),
          no_unwinds,
          rw (← s.valid.is_id) one_forward,
          rw (q, is_cached)
              (tip_of_last _ s.cached.id s.cached (last-append_cons c.trunk s.cached.id)
                (get-insert_self c.headers s.cached.id s.cached)),
        )
  ]

  -- The same for a header that follows the tip.
  pub add_header-extends :
      IsTree root c
      → IsLow c
      → next.prev_blockhash ≢ 0
      → {before : CachedHeader} → {a : Added} → (add_header x c next).1 ≡ ok (some a)
      → last c.trunk ≡ some next.prev_blockhash
      → tip c ≡ some before
      → float.lt before.log2work a.cached.log2work ≡ true
      → let h = (add_header x c next).0 in
        (h.trunk ≡ c.trunk ++ (x.bitcoin_hash next ∷ []))
        × (a.unwinds ≡ none)
        × (a.forwards ≡ some (x.bitcoin_hash next ∷ []))
        × (tip h ≡ some a.cached)
  add_header-extends t low nz o l e w = add_header-appends t low nz o (last-In c.trunk l) e w
