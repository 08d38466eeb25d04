-- ===== src/ChainDb/Reliable.antt =====
-- A `ChainDB` of src/chaindb.rs whose database does not fail: a header that is refused leaves it sound.
use murmel.Common.{ℕ, List, ◌≡◌, ◌≢◌, refl, ap, ◌∙◌, inl, inr, some, Option, Option-cases, none}
use murmel.External.{BlockHeader, External, Network, default}
use murmel.Outcome.{Outcome, ok}
use murmel.Pow.{StoredHeader}
use murmel.HeaderCache.{last}
use murmel.HeaderCache.Add.{Added, store_cached, some_added}
use murmel.HeaderCache.Add
use murmel.HeaderCache.Grow.{store_cached-cases}
use murmel.HeaderCache.Genesis.{add_header-HasGenesis}
use murmel.HeaderCache.Cases.{Stores, add_header-cases}
use murmel.HeaderCache.Chain.{IsLow, Stores-higher, add_header-IsTree}
use murmel.ChainDb.{Database, ChainDb, then_db, store_forwards, add_header, batch}
use murmel.ChainDb.Durable.{Lawful, Keeps-IsDurable}
use murmel.ChainDb.Sound.{IsSound, add_header-headercache, add_header-IsSound}

-- Writes succeed.
pub record IsReliable {D : Type 0} (base : Database D) : Type 0 where
  pub put_header_ok : (d : D) (id : ℕ) (s : StoredHeader) → (base.put_header d id s).1 ≡ ok tt
  pub put_tip_ok : (d : D) (id : ℕ) → (base.put_tip d id).1 ≡ ok tt
  pub batch_ok : (d : D) → (base.batch d).1 ≡ ok tt

module _ {D : Type 0} (x : External) (base : Database D) (genesis_block : Network → BlockHeader)
    (u : IsReliable base) where
  store_forwards-ok :
      {A : Type 0} (c : ChainDb D) (f : Option (List ℕ)) (k : ChainDb D → ChainDb D × Outcome A)
      (a : A)
      → ((c2 : ChainDb D) → (k c2).1 ≡ ok a)
      → (store_forwards x base genesis_block c f k).1 ≡ ok a
  unfolding store_forwards then_db
  store_forwards-ok c none k a h = h c
  store_forwards-ok c (some ids) k a h = elim (Option-cases (last ids)) [
    | inl e ↦ rw (e, store_forwards) (h c)
    | inr (id, e) ↦ rw (e, store_forwards) (rw (u.put_tip_ok c.db id, then_db) (h _))
  ]

  -- What the cache adds, the store adds.
  add_header-ok :
      (c : ChainDb D) (header : BlockHeader) {a : Added}
      → (Add.add_header x c.headercache header).1 ≡ ok (some a)
      → (add_header x base genesis_block c header).1 ≡ ok (some a)
  unfolding add_header then_db
  add_header-ok c header {a} o =
      let d = record c { headercache = (Add.add_header x c.headercache header).0 } in
      rw (o, add_header)
        (rw (u.put_header_ok c.db (x.bitcoin_hash a.cached.header) a.cached.stored, then_db)
          (store_forwards-ok _ a.forwards _ (some a) (λ c2. refl)))

  module _ (l : Lawful base) {root : ℕ} where
    Stores-ok :
        (c : ChainDb D) (header : BlockHeader)
        → IsLow c.headercache
        → Stores x c.headercache header (Add.add_header x c.headercache header)
        → IsSound base root c
        → (a : Added) × ((Add.add_header x c.headercache header).1 ≡ ok (some a))
    Stores-ok c header low s i =
        elim (store_cached-cases x c.headercache i.tree s.cached s.prev s.fresh s.found
          (Stores-higher x c.headercache header low s)) [
            | inl a ↦ (_, ap (λ r. r.1) (s.result ∙ ap some_added a.result))
            | inr m ↦ (_, ap (λ r. r.1) (s.result ∙ ap some_added m.switched.result))
          ]

    -- Whatever `add_header` of the store answers, it leaves the store sound.
    pub add_header-settles :
        (c : ChainDb D) (header : BlockHeader)
        → IsLow c.headercache
        → header.prev_blockhash ≢ default
        → x.bitcoin_hash header ≢ default
        → IsSound base root c
        → IsSound base root (add_header x base genesis_block c header).0
    add_header-settles c header low nz ne i = elim (add_header-cases x c.headercache header nz) [
      | inl k ↦
          let q = add_header-headercache x base genesis_block c header in
          record {
            tree = rw q (add_header-IsTree x c.headercache header i.tree low nz);
            genesis =
                rw q (add_header-HasGenesis x c.headercache header i.tree low nz ne i.genesis);
            durable = Keeps-IsDurable x base genesis_block l c header k i.durable;
          }
      | inr s ↦
          let (a, o) = Stores-ok c header low s i in
          add_header-IsSound x base genesis_block l c header low nz ne (add_header-ok c header o) i
    ]

    -- A batch leaves the store sound.
    pub batch-IsSound :
        (c : ChainDb D) → IsSound base root c → IsSound base root (batch x base genesis_block c).0
    unfolding batch then_db
    batch-IsSound c i =
        rw (u.batch_ok c.db, then_db)
          (record {
            tree = i.tree;
            genesis = i.genesis;
            durable = record {
              headers =
                  λ k e m. l.get_header_batch c.db (u.batch_ok c.db) k ∙ i.durable.headers k e m;
              tip = l.get_tip_batch c.db (u.batch_ok c.db) ∙ i.durable.tip;
            };
          })
