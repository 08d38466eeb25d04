-- ===== src/HeaderCache/Finish.antt =====
-- `add_header` of src/headercache.rs ends: its loops have enough turns.
use murmel.Common.{
  ℕ, ◌+◌, ◌%◌, ◌/◌, ◌^◌, ◌≡◌, ◌≢◌, refl, inl, inr, none, some, ℕ-Eq, Option-cases, Bool-cases,
  if_both, leb, nat_eq, nat_eq_iff,
}
use murmel.Common.Map
use murmel.External.{BlockHeader, External, default}
use murmel.Outcome.{Outcome, ok, err, panic, unfinished, spv_bad_proof_of_work, Outcome-cases}
use murmel.Pow.{CachedHeader, StoredHeader, f64_128, target, exp2, log2, spv_validate}
use murmel.HeaderCache.{HeaderCache}
use murmel.HeaderCache.Add.{store_cached, validated, add_header, some_added, add_header_to_tree}
use murmel.HeaderCache.Tree.{IsTree}
use murmel.HeaderCache.Grow.{store_cached-cases}
use murmel.HeaderCache.Cases.{Stores, validated-ok}
use murmel.HeaderCache.Chain.{IsLow, Stores-higher}
use murmel.HeaderCache.Genesis.{HasGenesis}
use murmel.HeaderCache.Scan.{>>=-finishes, ok-finishes, target-finishes, required_work-finishes}

module _ (x : External) where
  exp2-finishes : (n : ℕ) → exp2 x n ≢ unfinished
  unfolding exp2
  exp2-finishes n =
      if_both (λ o. o ≢ unfinished) (x.float.lt n (f64_128 x)) (ok-finishes _) (λ h. cc)

  log2-finishes : (n : ℕ) → log2 x n ≢ unfinished
  unfolding log2
  log2-finishes n = if_both (λ o. o ≢ unfinished) (nat_eq (n / 2 ^ 128) 0) (ok-finishes _) (λ h. cc)

  spv_validate-finishes : (e : CachedHeader) (required : ℕ) → spv_validate x e required ≢ unfinished
  unfolding spv_validate
  spv_validate-finishes e required = >>=-finishes (target x e) _ (target-finishes x e) (λ t.
      if_both (λ o. o ≢ unfinished) (nat_eq t required)
        (if_both (λ o. o ≢ unfinished) (leb e.id t) (ok-finishes tt) (λ h. cc)) (λ h. cc))

  -- The last step of `validated`.
  validates :
      (next : BlockHeader) (required : ℕ) (stored : StoredHeader)
      → let cached : CachedHeader = record { stored = stored; id = x.bitcoin_hash next } in
        (elim (spv_validate x cached required) as (λ o. Outcome CachedHeader) [
          | ok _ ↦ ok cached
          | err _ ↦ err spv_bad_proof_of_work
          | panic ↦ panic
          | unfinished ↦ unfinished
        ])
        ≢ unfinished
  validates next required stored =
      let cached : CachedHeader = record { stored = stored; id = x.bitcoin_hash next } in
      elim (Outcome-cases (spv_validate x cached required)) [
        | inl (a, o) ↦ rw o (λ h. cc)
        | inr (inl (a, o)) ↦ rw o (λ h. cc)
        | inr (inr (inl o)) ↦ rw o (λ h. cc)
        | inr (inr (inr o)) ↦ absurd (spv_validate-finishes cached required o)
      ]

  module _ {root : ℕ} (c : HeaderCache) (t : IsTree root c) (g : HasGenesis root c) where
    validated-finishes :
        (k : ℕ) (prev : CachedHeader) (next : BlockHeader)
        → Map.get c.headers k ≡ some prev
        → validated x c prev next ≢ unfinished
    unfolding validated
    validated-finishes k prev next m =
        >>=-finishes _ _ (required_work-finishes x c t g k prev next m) (λ required.
          >>=-finishes _ _ (exp2-finishes prev.log2work) (λ before.
            >>=-finishes (log2 x (x.uint.add (x.header_work next) before)) _ (log2-finishes _)
              (λ total.
                validates next required (record {
                  header = next;
                  height = (prev.height + 1) % 2 ^ 32;
                  log2work = total;
                }))))

    store_cached-finishes :
        (next : BlockHeader) (prev cached : CachedHeader)
        → IsLow c
        → Map.get c.headers (x.bitcoin_hash next) ≡ none
        → Map.get c.headers next.prev_blockhash ≡ some prev
        → validated x c prev next ≡ ok cached
        → (store_cached x c prev cached).1 ≢ unfinished
    store_cached-finishes next prev cached low fresh found v =
        let d = validated-ok x c prev next v in
        let s : Stores x c next (some_added (store_cached x c prev cached)) = record {
          prev = prev;
          cached = cached;
          valid = d;
          fresh = rw d.is_id fresh;
          found = rw d.is_header found;
          result = refl;
        } in
        elim (store_cached-cases x c t cached prev s.fresh s.found (Stores-higher x c next low s)) [
          | inl a ↦ rw a.result (ok-finishes _)
          | inr m ↦ rw m.switched.result (ok-finishes _)
        ]

    -- Whether a header that is no genesis is known, refused or added, the call ends: it returns a
    -- result, an error or a panic, and no loop runs out of turns. The cache is a tree with a genesis,
    -- with heights below 2^32 - 1.
    pub add_header-finishes :
        (next : BlockHeader)
        → IsLow c
        → next.prev_blockhash ≢ 0
        → (add_header x c next).1 ≢ unfinished
    unfolding add_header add_header_to_tree
    add_header-finishes next low nz =
        elim (Option-cases (Map.get c.headers (x.bitcoin_hash next))) [
          | inr (e, k) ↦ rw (k, add_header) (ok-finishes none)
          | inl k ↦ elim (Bool-cases (nat_eq next.prev_blockhash default)) [
            | inl z ↦ absurd (nz ((nat_eq_iff next.prev_blockhash default).0 z))
            | inr z ↦ elim (Option-cases (Map.get c.headers next.prev_blockhash)) [
              | inl f ↦ rw (k, add_header) (rw (z, f) (λ h. cc))
              | inr (prev, f) ↦ elim (Outcome-cases (validated x c prev next)) [
                | inl (cached, v) ↦
                    rw (k, add_header)
                      (rw (z, f)
                        (rw (v, add_header_to_tree)
                          (>>=-finishes _ _ (store_cached-finishes next prev cached low k f v)
                            (λ a. ok-finishes (some a)))))
                | inr (inl (e, v)) ↦
                    rw (k, add_header) (rw (z, f) (rw (v, add_header_to_tree) (λ h. cc)))
                | inr (inr (inl v)) ↦
                    rw (k, add_header) (rw (z, f) (rw (v, add_header_to_tree) (λ h. cc)))
                | inr (inr (inr v)) ↦ absurd (validated-finishes next.prev_blockhash prev next f v)
              ]
            ]
          ]
        ]
