-- ===== src/HeaderCache/Chain.antt =====
-- `add_header` on a tree of headers: what holds after every call, whatever its result.
use murmel.Common.{ℕ, suc, ◌^◌, ◌<◌, ◌≡◌, ◌≢◌, Option, ◌≤◌, inl, inr, some, arith, ℕ-Eq}
use murmel.Common.Map
use murmel.External.{BlockHeader, External, IsStrict}
use murmel.Outcome.{Error, Outcome, ok, err}
use murmel.Pow.{CachedHeader, target}
use murmel.Pow.Laws.{spv_validate-ok}
use murmel.HeaderCache.{HeaderCache}
use murmel.HeaderCache.Add.{Added, add_header}
use murmel.HeaderCache.Difficulty.{required_work}
use murmel.HeaderCache.Tree.{IsTree}
use murmel.HeaderCache.Grow.{store_cached-cases}
use murmel.HeaderCache.Cases.{Stores, add_header-cases}
use murmel.HeaderCache.Work.{HasMostWork, store_cached-IsTree, store_cached-HasMostWork}

-- Heights stay within `u32`.
abbrev pub IsLow : HeaderCache → Type 0
IsLow c = (k : ℕ) (e : CachedHeader) → Map.get c.headers k ≡ some e → suc e.height < 2 ^ 32

module _ (x : External) (c : HeaderCache) (next : BlockHeader) where
  pub Stores-higher :
      IsLow c
      → {r : HeaderCache × Outcome (Option Added)} → (s : Stores x c next r)
      → s.cached.height ≡ suc s.prev.height
  Stores-higher low s =
      omega (arith, s.valid.is_height, low s.cached.header.prev_blockhash s.prev s.found)

module _ (x : External) {root : ℕ} (c : HeaderCache) (next : BlockHeader) where
  -- After `add_header` of a header that is no genesis, whether it is stored or not, the cache is still
  -- a tree with the same root: each trunk id is known, and each known header but the root has a known
  -- parent, one lower. The cache is a tree before, with heights below 2^32 - 1.
  pub add_header-IsTree :
      IsTree root c → IsLow c → next.prev_blockhash ≢ 0 → IsTree root (add_header x c next).0
  add_header-IsTree t low nz = elim (add_header-cases x c next nz) [
    | inl k ↦ rw k.same t
    | inr s ↦
        rw s.result
          (store_cached-IsTree x c t s.cached s.prev s.fresh s.found (Stores-higher x c next low s))
  ]

  -- If no known header has more work than the tip, then the same holds after `add_header` of a header
  -- that is no genesis, whatever its result: on side branches, extensions and reorganisations. The
  -- cache is a tree with heights below 2^32 - 1, and `<` on floats is a strict order.
  pub add_header-HasMostWork :
      IsStrict x.float
      → IsTree root c
      → IsLow c
      → next.prev_blockhash ≢ 0
      → HasMostWork x c
      → HasMostWork x (add_header x c next).0
  add_header-HasMostWork f t low nz w = elim (add_header-cases x c next nz) [
    | inl k ↦ rw k.same w
    | inr s ↦ rw s.result (
        store_cached-HasMostWork x c t s.cached s.prev s.fresh s.found
          (Stores-higher x c next low s) f w)
  ]

  -- On a tree with heights below 2^32 - 1, an `add_header` of a header that is no genesis which returns
  -- an error leaves the cache as it was.
  pub add_header-err :
      IsTree root c
      → IsLow c
      → next.prev_blockhash ≢ 0
      → {e : Error} → (add_header x c next).1 ≡ err e
      → (add_header x c next).0 ≡ c
  add_header-err t low nz {e} h = elim (add_header-cases x c next nz) [
    | inl k ↦ k.same
    | inr s ↦
        elim (store_cached-cases x c t s.cached s.prev s.fresh s.found
          (Stores-higher x c next low s)) [
            | inl a ↦ absurd (ground (arith, s.result, a.result))
            | inr m ↦ absurd (ground (arith, s.result, m.switched.result))
          ]
  ]

  pub Stores-cached :
      IsTree root c
      → IsLow c
      → (s : Stores x c next (add_header x c next)) → {a : Added}
      → (add_header x c next).1 ≡ ok (some a)
      → a.cached ≡ s.cached
  Stores-cached t low s {a} h =
      elim (store_cached-cases x c t s.cached s.prev s.fresh s.found
        (Stores-higher x c next low s)) [
          | inl b ↦ ground (arith, s.result, b.result)
          | inr m ↦ ground (arith, s.result, m.switched.result)
        ]

  -- On a tree with heights below 2^32 - 1, a header that is no genesis is added only if its parent is
  -- known, its target is exactly the one that `required_work` gives for that parent, and its id, the
  -- header's hash, is not above that target.
  pub add_header-proof_of_work :
      IsTree root c
      → IsLow c
      → next.prev_blockhash ≢ 0
      → {a : Added} → (add_header x c next).1 ≡ ok (some a)
      → (prev : CachedHeader) × (required : ℕ) × (Map.get c.headers next.prev_blockhash ≡ some prev)
        × (required_work x c prev next ≡ ok required)
        × (target x a.cached ≡ ok required)
        × (a.cached.id ≡ x.bitcoin_hash next)
        × (x.bitcoin_hash next ≤ required)
  add_header-proof_of_work t low nz {a} h = elim (add_header-cases x c next nz) [
    | inl k ↦ absurd (k.none_added a h)
    | inr s ↦
        let e : a.cached ≡ s.cached = Stores-cached t low s h in
        let p = spv_validate-ok x s.cached s.valid.required s.valid.passed in
        (
          s.prev,
          s.valid.required,
          rw (← s.valid.is_header) s.found,
          s.valid.is_required,
          rw e p.0,
          rw e s.valid.is_id,
          rw (← s.valid.is_id) p.1,
        )
  ]
