-- ===== src/ChainDb/Saving.antt =====
-- What the database of src/chaindb.rs makes permanent, and that `add_header` makes nothing permanent.
use murmel.Common.{ℕ, ◌≡◌, refl, ◌∙◌, List, inl, inr, Option, none, some, Option-cases}
use murmel.External.{BlockHeader, External, Network}
use murmel.Outcome.{Outcome, ok, Outcome-cases}
use murmel.Pow.{StoredHeader}
use murmel.HeaderCache.{last}
use murmel.HeaderCache.Add
use murmel.ChainDb.{Database, ChainDb, then_db, store_forwards}
use murmel.ChainDb

-- What is permanent: `saved d` is what is found if the program stops at `d` and opens the database again.
-- Puts are not permanent before a batch, and all are after it.
pub record IsSaving {D : Type 0} (base : Database D) (saved : D → D) : Type 0 where
  pub put_header_pends :
      (d : D) (id : ℕ) (s : StoredHeader) → saved (base.put_header d id s).0 ≡ saved d
  pub put_tip_pends : (d : D) (id : ℕ) → saved (base.put_tip d id).0 ≡ saved d
  pub batch_saves_headers :
      (d : D)
      → (base.batch d).1 ≡ ok tt
      → (k : ℕ) → base.get_header (saved (base.batch d).0) k ≡ base.get_header d k
  pub batch_saves_tip :
      (d : D) → (base.batch d).1 ≡ ok tt → base.get_tip (saved (base.batch d).0) ≡ base.get_tip d

module _ {D : Type 0} (x : External) (base : Database D) (genesis_block : Network → BlockHeader)
    (saved : D → D) (w : IsSaving base saved) where
  then_db-pends :
      {A : Type 0} (c : ChainDb D) (r : D × Outcome (Unit {0}))
      (k : ChainDb D → ChainDb D × Outcome A)
      → saved r.0 ≡ saved c.db
      → ((c2 : ChainDb D) → saved (k c2).0.db ≡ saved c2.db)
      → saved (then_db x base genesis_block c r k).0.db ≡ saved c.db
  unfolding then_db
  then_db-pends c r k e f = elim (Outcome-cases r.1) [
    | inl (t, o) ↦ rw (o, then_db) (f _ ∙ e)
    | inr (inl (z, o)) ↦ rw (o, then_db) e
    | inr (inr (inl o)) ↦ rw (o, then_db) e
    | inr (inr (inr o)) ↦ rw (o, then_db) e
  ]

  store_forwards-pends :
      {A : Type 0} (c : ChainDb D) (f : Option (List ℕ)) (k : ChainDb D → ChainDb D × Outcome A)
      → ((c2 : ChainDb D) → saved (k c2).0.db ≡ saved c2.db)
      → saved (store_forwards x base genesis_block c f k).0.db ≡ saved c.db
  unfolding store_forwards
  store_forwards-pends c none k h = h c
  store_forwards-pends c (some ids) k h = elim (Option-cases (last ids)) [
    | inl e ↦ rw (e, store_forwards) (h c)
    | inr (id, e) ↦
        rw (e, store_forwards)
          (then_db-pends c (base.put_tip c.db id) k (w.put_tip_pends c.db id) h)
  ]

  pub add_header-pends :
      (c : ChainDb D) (h : BlockHeader)
      → saved (ChainDb.add_header x base genesis_block c h).0.db ≡ saved c.db
  unfolding ChainDb.add_header
  add_header-pends c h =
      let r = Add.add_header x c.headercache h in
      elim (Outcome-cases r.1) [
        | inl (none, o) ↦ rw (o, ChainDb.add_header) refl
        | inl (some a, o) ↦
            rw (o, ChainDb.add_header)
              (then_db-pends (record c { headercache = r.0 }) _ _ (w.put_header_pends _ _ _)
                (λ c1. store_forwards-pends c1 a.forwards _ (λ c2. refl)))
        | inr (inl (e, o)) ↦ rw (o, ChainDb.add_header) refl
        | inr (inr (inl o)) ↦ rw (o, ChainDb.add_header) refl
        | inr (inr (inr o)) ↦ rw (o, ChainDb.add_header) refl
      ]
