-- ===== src/HeaderCache/Work.antt =====
-- The cache stays a tree, its tip has the most work, and an error changes nothing.
use murmel.Common.{
  ℕ, suc, ◌≡◌, sym, ◌∙◌, inl, inr, none, some, List, [], ◌∷◌, ◌++◌, In, true, false, Bool-cases,
  reverse, take, ℕ-Eq, In-append_cases, In-of-reverse, eq_of_some,
}
use murmel.Common.Map
use murmel.Common.Map.{get-insert_self}
use murmel.External.{External, IsStrict}
use murmel.Outcome.{Outcome}
use murmel.Pow.{CachedHeader}
use murmel.HeaderCache.{HeaderCache, tip}
use murmel.HeaderCache.Add.{Added, store_cached}
use murmel.HeaderCache.Trunk.{last-append_append}
use murmel.HeaderCache.Tree.{IsTree, Branch, Branch-lower}
use murmel.HeaderCache.Store.{
  with_header, with_header-IsTree, get-with_header, get-with_header_cases, switched-IsTree,
  tip_known, tip_of_last,
}
use murmel.HeaderCache.Grow.{Aside, Moved, store_cached-cases}

-- The tip is known, and no known header has more work.
pub record HasMostWork (x : External) (c : HeaderCache) : Type 0 where
  pub best : CachedHeader
  pub is_tip : tip c ≡ some best
  pub most :
      (k : ℕ) (e : CachedHeader)
      → Map.get c.headers k ≡ some e
      → x.float.lt best.log2work e.log2work ≡ false

module _ (x : External) {root : ℕ} (c : HeaderCache) (t : IsTree root c)
    (cached prev : CachedHeader) (fresh : Map.get c.headers cached.id ≡ none)
    (found : Map.get c.headers cached.header.prev_blockhash ≡ some prev)
    (higher : cached.height ≡ suc prev.height) where
  abbrev new_cache : HeaderCache
  new_cache = with_header c t cached prev fresh found higher

  own : Map.get new_cache.headers cached.id ≡ some cached
  own = get-insert_self c.headers cached.id cached

  Moved-known :
      {f : ℕ} (path : List ℕ)
      → Branch new_cache cached.header.prev_blockhash f path
      → (h : ℕ) → In h (reverse path ++ (cached.id ∷ []))
      → (e : CachedHeader) × (Map.get new_cache.headers h ≡ some e)
  Moved-known path b h m = elim (In-append_cases h (reverse path) (cached.id ∷ []) m) [
    | inl l ↦
        let (e, g, _) =
          Branch-lower new_cache (with_header-IsTree c t cached prev fresh found higher) b prev
            (get-with_header c t cached prev fresh found higher cached.header.prev_blockhash prev
              found)
            h (In-of-reverse h path l) in
        (e, g)
    | inr (inl z) ↦ (cached, rw (← z) own)
    | inr (inr z) ↦ absurd z
  ]

  pub store_cached-IsTree : IsTree root (store_cached x c prev cached).0
  store_cached-IsTree = elim (store_cached-cases x c t cached prev fresh found higher) [
    | inl a ↦ rw a.result (with_header-IsTree c t cached prev fresh found higher)
    | inr m ↦ rw m.switched.result (
        switched-IsTree c t cached prev fresh found higher m.switched.kept _ m.switched.positive
          (Moved-known m.back_path m.branch))
  ]

  tip-new_cache : (e : CachedHeader) → tip c ≡ some e → tip new_cache ≡ some e
  tip-new_cache e h =
      let (k, e', l, g) = tip_known c t in
      let same : e' ≡ e = eq_of_some (sym (tip_of_last c k e' l g) ∙ h) in
      rw (← same)
        (tip_of_last new_cache k e' l (get-with_header c t cached prev fresh found higher k e' g))

  Aside-HasMostWork :
      HasMostWork x c
      → {r : HeaderCache × Outcome Added} → Aside x c t cached prev fresh found higher r
      → HasMostWork x new_cache
  Aside-HasMostWork w a = record {
    best = w.best;
    is_tip = tip-new_cache w.best w.is_tip;
    most = λ k e g. elim (get-with_header_cases c t cached prev fresh found higher k e g) [
      | inl (_, q) ↦
          let same : a.tip_before ≡ w.best =
            eq_of_some (sym a.is_tip ∙ tip-new_cache w.best w.is_tip) in
          rw (q, ← same) a.no_more
      | inr g' ↦ w.most k e g'
    ];
  }

  -- The new tip has more work than the old one, and so as much as any header.
  most_new :
      IsStrict x.float
      → HasMostWork x c
      → {r : HeaderCache × Outcome Added} → Moved x c t cached prev fresh found higher r
      → (k : ℕ) (e : CachedHeader) → Map.get new_cache.headers k ≡ some e
      → x.float.lt cached.log2work e.log2work ≡ false
  most_new s w m k e g = elim (get-with_header_cases c t cached prev fresh found higher k e g) [
    | inl (_, q) ↦ rw q (s.irrefl cached.log2work)
    | inr g' ↦ elim (Bool-cases (x.float.lt cached.log2work e.log2work)) [
      | inr l ↦ l
      | inl l ↦
          let same : m.tip_before ≡ w.best =
            eq_of_some (sym m.is_tip ∙ tip-new_cache w.best w.is_tip) in
          let up : x.float.lt w.best.log2work cached.log2work ≡ true = rw (← same) m.more in
          let over : x.float.lt w.best.log2work e.log2work ≡ true =
            s.trans w.best.log2work cached.log2work e.log2work up l in
          let under : x.float.lt w.best.log2work e.log2work ≡ false = w.most k e g' in absurd (cc)
    ]
  ]

  Moved-HasMostWork :
      IsStrict x.float
      → HasMostWork x c
      → {r : HeaderCache × Outcome Added} → Moved x c t cached prev fresh found higher r
      → HasMostWork x r.0
  Moved-HasMostWork s w {r} m = rw m.switched.result (record {
    best = cached;
    is_tip =
        tip_of_last _ cached.id cached
          (last-append_append (take m.switched.kept c.trunk) (reverse m.back_path) cached.id) own;
    most = most_new s w m;
  })

  pub store_cached-HasMostWork :
      IsStrict x.float → HasMostWork x c → HasMostWork x (store_cached x c prev cached).0
  store_cached-HasMostWork s w = elim (store_cached-cases x c t cached prev fresh found higher) [
    | inl a ↦ rw a.result (Aside-HasMostWork w a)
    | inr m ↦ Moved-HasMostWork s w m
  ]
