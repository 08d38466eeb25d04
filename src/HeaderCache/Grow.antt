-- ===== src/HeaderCache/Grow.antt =====
-- What becomes of a tree when `store_cached` adds a header: the two ways in which it can go.
use murmel.Common.{
  ℕ, suc, ◌+◌, ◌≡◌, refl, ◌⊎◌, inl, inr, none, some, List, [], ◌∷◌, ◌++◌, arith, true, false,
  Bool-cases, reverse, ℕ-Eq,
}
use murmel.Common.Map
use murmel.Common.Map.{get-insert_self}
use murmel.External.{External}
use murmel.Outcome.{Outcome, ok}
use murmel.Pow.{CachedHeader}
use murmel.HeaderCache.{HeaderCache, tip}
use murmel.HeaderCache.Add.{Added, follow_path, store_cached, switch_trunk}
use murmel.HeaderCache.Tree.{IsTree, Branch, Branch-fork, path_loop-Found}
use murmel.HeaderCache.Store.{
  Switched, switch_trunk-Switched, with_header, with_header-IsTree, get-with_header, tip_total,
  0-lt-length,
}

module _ (x : External) {root : ℕ} (c : HeaderCache) (t : IsTree root c)
    (cached prev : CachedHeader) (fresh : Map.get c.headers cached.id ≡ none)
    (found : Map.get c.headers cached.header.prev_blockhash ≡ some prev)
    (higher : cached.height ≡ suc prev.height) where
  open x use {float}

  abbrev pub grown : HeaderCache
  grown = with_header c t cached prev fresh found higher

  pub grown-IsTree : IsTree root grown
  grown-IsTree = with_header-IsTree c t cached prev fresh found higher

  -- The new header has no more work than the tip, and the trunk stays.
  pub record Aside (r : HeaderCache × Outcome Added) : Type 0 where
    pub tip_before : CachedHeader
    pub is_tip : tip grown ≡ some tip_before
    pub no_more : float.lt tip_before.log2work cached.log2work ≡ false
    pub result : r ≡ (grown, ok (record { cached = cached; unwinds = none; forwards = none }))

  -- The new header has more work than the tip, and the trunk leads to it.
  pub record Moved (r : HeaderCache × Outcome Added) : Type 0 where
    pub tip_before : CachedHeader
    pub is_tip : tip grown ≡ some tip_before
    pub more : float.lt tip_before.log2work cached.log2work ≡ true
    pub fork_at : ℕ
    pub back_path : List ℕ
    pub branch : Branch grown cached.header.prev_blockhash fork_at back_path
    pub switch : r ≡ switch_trunk grown cached fork_at (reverse back_path ++ (cached.id ∷ []))
    pub switched : Switched grown cached (reverse back_path ++ (cached.id ∷ [])) r

  follow_path-Moved :
      (b : CachedHeader)
      → tip grown ≡ some b
      → float.lt b.log2work cached.log2work ≡ true
      → Moved (follow_path grown cached prev.height)
  unfolding follow_path
  follow_path-Moved b e l =
      let r =
        path_loop-Found grown grown-IsTree (prev.height + 2) cached.header.prev_blockhash [] prev
          (get-with_header c t cached prev fresh found higher cached.header.prev_blockhash prev
            found)
          (omega arith) in
      record {
        tip_before = b;
        is_tip = e;
        more = l;
        fork_at = r.at;
        back_path = r.path;
        branch = r.branch;
        switch = rw (r.result, follow_path) refl;
        switched =
            rw (r.result, follow_path)
              (switch_trunk-Switched grown cached r.at (reverse r.path ++ (cached.id ∷ []))
                (Branch-fork r.branch) (0-lt-length c.trunk t.rooted));
      }

  pub store_cached-cases :
      Aside (store_cached x c prev cached) ⊎ Moved (store_cached x c prev cached)
  unfolding store_cached
  store_cached-cases =
      let (b, e) = tip_total grown grown-IsTree in
      elim (Bool-cases (float.lt b.log2work cached.log2work)) [
        | inl l ↦ inr (rw (e, store_cached) (rw l (follow_path-Moved b e l)))
        | inr l ↦ inl (record {
          tip_before = b;
          is_tip = e;
          no_more = l;
          result = rw (e, store_cached) (rw l);
        })
      ]
