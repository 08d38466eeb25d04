-- ===== src/ChainDb/Sound.antt =====
-- What holds of a `ChainDB` of src/chaindb.rs that has kept up with its database.
use murmel.Common.{ℕ, ◌≡◌, ◌≢◌, ◌∙◌, refl, List, inl, inr, Option, none, some, ℕ-Eq, Option-cases}
use murmel.External.{BlockHeader, External, Network, default}
use murmel.Outcome.{Outcome, ok, err, panic, unfinished, Outcome-cases}
use murmel.HeaderCache.{last}
use murmel.HeaderCache.Add.{Added, some_added}
use murmel.HeaderCache.Add
use murmel.HeaderCache.Tree.{IsTree}
use murmel.HeaderCache.Genesis.{HasGenesis, add_header-HasGenesis}
use murmel.HeaderCache.Chain.{IsLow, add_header-IsTree}
use murmel.ChainDb.{Database, ChainDb, then_db, store_forwards, add_header}
use murmel.ChainDb.Durable.{Lawful, IsDurable, add_header-IsDurable}

-- The cache is a tree with a genesis, and the database has kept up with it.
pub record IsSound {D : Type 0} (base : Database D) (root : ℕ) (c : ChainDb D) : Type 0 where
  pub tree : IsTree root c.headercache
  pub genesis : HasGenesis root c.headercache
  pub durable : IsDurable base c.db c.headercache

module _ {D : Type 0} (x : External) (base : Database D)
    (genesis_block : Network → BlockHeader) where
  pub then_db-headercache :
      {A : Type 0} (c : ChainDb D) (r : D × Outcome (Unit {0}))
      (k : ChainDb D → ChainDb D × Outcome A)
      → ((c2 : ChainDb D) → (k c2).0.headercache ≡ c2.headercache)
      → (then_db x base genesis_block c r k).0.headercache ≡ c.headercache
  unfolding then_db
  then_db-headercache c (d, ok tt) k h = h (record c { db = d })
  then_db-headercache c (d, err e) k h = refl
  then_db-headercache c (d, panic) k h = refl
  then_db-headercache c (d, unfinished) k h = refl

  store_forwards-headercache :
      {A : Type 0} (c : ChainDb D) (f : Option (List ℕ)) (k : ChainDb D → ChainDb D × Outcome A)
      → ((c2 : ChainDb D) → (k c2).0.headercache ≡ c2.headercache)
      → (store_forwards x base genesis_block c f k).0.headercache ≡ c.headercache
  unfolding store_forwards
  store_forwards-headercache c none k h = h c
  store_forwards-headercache c (some ids) k h = elim (Option-cases (last ids)) [
    | inl e ↦ rw (e, store_forwards) (h c)
    | inr (id, e) ↦ rw (e, store_forwards) (then_db-headercache c (base.put_tip c.db id) k h)
  ]

  -- Whatever the database answers, the cache is the one that the header cache returns.
  pub add_header-headercache :
      (c : ChainDb D) (header : BlockHeader)
      → (add_header x base genesis_block c header).0.headercache
        ≡ (Add.add_header x c.headercache header).0
  unfolding add_header
  add_header-headercache c header =
      let r = Add.add_header x c.headercache header in
      elim (Outcome-cases r.1) [
        | inl (none, o) ↦ rw (o, add_header) refl
        | inl (some a, o) ↦
            rw (o, add_header)
              (then_db-headercache (record c { headercache = r.0 }) _ _
                (λ c1. store_forwards-headercache c1 a.forwards _ (λ c2. refl)))
        | inr (inl (e, o)) ↦ rw (o, add_header) refl
        | inr (inr (inl o)) ↦ rw (o, add_header) refl
        | inr (inr (inr o)) ↦ rw (o, add_header) refl
      ]

  then_db-result :
      {A : Type 0} (c : ChainDb D) (r : D × Outcome (Unit {0}))
      (k : ChainDb D → ChainDb D × Outcome A) {a : A}
      → (then_db x base genesis_block c r k).1 ≡ ok a
      → (c2 : ChainDb D) × ((k c2).1 ≡ ok a)
  unfolding then_db
  then_db-result c (d, ok tt) k h = (record c { db = d }, h)
  then_db-result c (d, err e) k h = absurd (cc)
  then_db-result c (d, panic) k h = absurd (cc)
  then_db-result c (d, unfinished) k h = absurd (cc)

  store_forwards-result :
      {A : Type 0} (c : ChainDb D) (f : Option (List ℕ)) (k : ChainDb D → ChainDb D × Outcome A)
      {a : A}
      → (store_forwards x base genesis_block c f k).1 ≡ ok a
      → (c2 : ChainDb D) × ((k c2).1 ≡ ok a)
  unfolding store_forwards
  store_forwards-result c none k h = (c, h)
  store_forwards-result c (some ids) k h = elim (Option-cases (last ids)) [
    | inl e ↦ (c, rw (e, store_forwards) at h)
    | inr (id, e) ↦ then_db-result c (base.put_tip c.db id) k (rw (e, store_forwards) at h)
  ]

  -- What the store has added, the cache has added.
  pub add_header-result :
      (c : ChainDb D) (header : BlockHeader) {a : Added}
      → (add_header x base genesis_block c header).1 ≡ ok (some a)
      → (Add.add_header x c.headercache header).1 ≡ ok (some a)
  unfolding add_header
  add_header-result c header {a} h =
      elim (Outcome-cases (Add.add_header x c.headercache header).1) [
        | inl (none, o) ↦ absurd (let i = rw (o, add_header) at h in cc)
        | inl (some b, o) ↦
            let (c1, i) = then_db-result _ _ _ (rw (o, add_header) at h) in
            let (c2, j) = store_forwards-result c1 b.forwards (λ c2. (c2, ok (some b))) i in o ∙ j
        | inr (inl (e, o)) ↦ absurd (let i = rw (o, add_header) at h in cc)
        | inr (inr (inl o)) ↦ absurd (let i = rw (o, add_header) at h in cc)
        | inr (inr (inr o)) ↦ absurd (let i = rw (o, add_header) at h in cc)
      ]

module _ {D : Type 0} (x : External) (base : Database D) (genesis_block : Network → BlockHeader)
    (l : Lawful base) {root : ℕ} where
  -- An `add_header` of the store that succeeds leaves it sound: the cache is a tree with the same
  -- genesis, and the database holds every header of the cache and, as the stored tip, the last id of
  -- the trunk, whether the header is known, put aside, extends the trunk or reorganises it. The store
  -- is sound before with heights below 2^32 - 1, the header is no genesis, its id is not zero, and the
  -- database keeps what is put into it.
  pub add_header-IsSound :
      (c : ChainDb D) (header : BlockHeader) {v : Option Added}
      → IsLow c.headercache
      → header.prev_blockhash ≢ default
      → x.bitcoin_hash header ≢ default
      → (add_header x base genesis_block c header).1 ≡ ok v
      → IsSound base root c
      → IsSound base root (add_header x base genesis_block c header).0
  add_header-IsSound c header low nz ne o i =
      let q = add_header-headercache x base genesis_block c header in
      record {
        tree = rw q (add_header-IsTree x c.headercache header i.tree low nz);
        genesis = rw q (add_header-HasGenesis x c.headercache header i.tree low nz ne i.genesis);
        durable = add_header-IsDurable x base genesis_block l c header i.tree low nz o i.durable;
      }
