-- ===== src/HeaderCache/Cases.antt =====
-- The ways in which `add_header` can go for a header that is no genesis.
use murmel.Common.{
  ℕ, ◌+◌, ◌%◌, ◌^◌, ◌≡◌, ◌≢◌, refl, ◌⊎◌, inl, inr, Option, none, some, nat_eq, nat_eq_iff,
  Bool-cases, Option-cases, arith, ℕ-Eq,
}
use murmel.Common.Map
use murmel.External.{BlockHeader, External}
use murmel.Outcome.{Outcome, ok, err, panic, unfinished, >>=-eq-ok}
use murmel.Pow.{CachedHeader, spv_validate}
use murmel.HeaderCache.{HeaderCache}
use murmel.HeaderCache.Add.{
  Added, validated, store_cached, add_header_to_tree, add_header, some_added,
}
use murmel.HeaderCache.Difficulty.{required_work}

module _ (x : External) where
  open x use {bitcoin_hash}

  -- What a validated header is, and which check it has passed.
  pub record Validated (c : HeaderCache) (prev : CachedHeader) (next : BlockHeader)
      (cached : CachedHeader) : Type 0 where
    pub required : ℕ
    pub is_required : required_work x c prev next ≡ ok required
    pub passed : spv_validate x cached required ≡ ok tt
    pub is_header : cached.header ≡ next
    pub is_id : cached.id ≡ bitcoin_hash next
    pub is_height : cached.height ≡ (prev.height + 1) % 2 ^ 32

  pub validated-ok :
      (c : HeaderCache) (prev : CachedHeader) (next : BlockHeader) {cached : CachedHeader}
      → validated x c prev next ≡ ok cached
      → Validated c prev next cached
  unfolding validated
  validated-ok c prev next {cached} h =
      let (r, e, h') = >>=-eq-ok (required_work x c prev next) _ h in
      record {
        required = r;
        is_required = e;
        passed = ground arith;
        is_header = ground arith;
        is_id = ground arith;
        is_height = ground arith;
      }

  -- A header is stored under its own id, below a known parent.
  pub record Stores (c : HeaderCache) (next : BlockHeader)
      (r : HeaderCache × Outcome (Option Added)) : Type 0 where
    pub prev : CachedHeader
    pub cached : CachedHeader
    pub valid : Validated c prev next cached
    pub fresh : Map.get c.headers cached.id ≡ none
    pub found : Map.get c.headers cached.header.prev_blockhash ≡ some prev
    pub result : r ≡ some_added (store_cached x c prev cached)

  -- Nothing is stored: the header is known, or refused.
  pub record Keeps (c : HeaderCache) (r : HeaderCache × Outcome (Option Added)) : Type 0 where
    pub same : r.0 ≡ c
    pub none_added : (a : Added) → r.1 ≢ ok (some a)

  tree_cases :
      (c : HeaderCache) (prev : CachedHeader) (next : BlockHeader)
      → Map.get c.headers (bitcoin_hash next) ≡ none
      → Map.get c.headers next.prev_blockhash ≡ some prev
      → (o : Outcome CachedHeader) → validated x c prev next ≡ o
      → Keeps c (some_added (add_header_to_tree x c prev next))
        ⊎ Stores c next (some_added (add_header_to_tree x c prev next))
  unfolding add_header_to_tree
  tree_cases c prev next g f (ok cached) h =
      let v = validated-ok c prev next h in
      inr (record {
        prev = prev;
        cached = cached;
        valid = v;
        fresh = rw v.is_id g;
        found = rw v.is_header f;
        result = rw (h, add_header_to_tree);
      })
  tree_cases c prev next g f (err e) h = inl (record {
    same = rw (h, add_header_to_tree);
    none_added = rw (h, add_header_to_tree) (λ a p. cc);
  })
  tree_cases c prev next g f panic h = inl (record {
    same = rw (h, add_header_to_tree);
    none_added = rw (h, add_header_to_tree) (λ a p. cc);
  })
  tree_cases c prev next g f unfinished h = inl (record {
    same = rw (h, add_header_to_tree);
    none_added = rw (h, add_header_to_tree) (λ a p. cc);
  })

  pub add_header-cases :
      (c : HeaderCache) (next : BlockHeader)
      → next.prev_blockhash ≢ 0
      → Keeps c (add_header x c next) ⊎ Stores c next (add_header x c next)
  unfolding add_header
  add_header-cases c next nz = elim (Option-cases (Map.get c.headers (bitcoin_hash next))) [
    | inr (e, g) ↦ inl (rw (g, add_header) (record { same = refl; none_added = λ a p. cc }))
    | inl g ↦ elim (Bool-cases (nat_eq next.prev_blockhash 0)) [
      | inl z ↦ absurd (nz ((nat_eq_iff next.prev_blockhash 0).0 z))
      | inr z ↦ elim (Option-cases (Map.get c.headers next.prev_blockhash)) [
        | inl f ↦
            inl (rw (g, add_header) (rw (z, f) (record { same = refl; none_added = λ a p. cc })))
        | inr (prev, f) ↦
            rw (g, add_header)
              (rw (z, f) (tree_cases c prev next g f (validated x c prev next) refl))
      ]
    ]
  ]
