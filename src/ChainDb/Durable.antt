-- ===== src/ChainDb/Durable.antt =====
-- The database of src/chaindb.rs keeps up with the header cache, so a restart comes back to the tip.
use murmel.Common.{
  ℕ, ◌≡◌, ◌≢◌, ◌⊎◌, refl, ap, sym, ◌∙◌, inl, inr, Option, none, some, List, reverse, nat_eq, ℕ-Eq,
  if◌then◌else◌, eq_of_some, ==_cases,
}
use murmel.Common.Map
use murmel.Common.Map.{get-insert}
use murmel.External.{BlockHeader, External, Network}
use murmel.Outcome.{Outcome, ok, err, panic, unfinished, Outcome-cases}
use murmel.Pow.{CachedHeader, StoredHeader}
use murmel.HeaderCache.{HeaderCache, last}
use murmel.HeaderCache.Add.{Added, store_cached, some_added}
use murmel.HeaderCache.Add
use murmel.HeaderCache.Trunk.{last-append_cons, last-append_append}
use murmel.HeaderCache.Tree.{IsTree}
use murmel.HeaderCache.Grow.{store_cached-cases}
use murmel.HeaderCache.Cases.{Keeps, add_header-cases}
use murmel.HeaderCache.Chain.{IsLow, Stores-higher}
use murmel.ChainDb.{Database, ChainDb, then_db, store_forwards, add_header}

-- A database keeps what is put into it, if the call succeeds.
pub record Lawful {D : Type 0} (base : Database D) : Type 0 where
  pub get_put :
      (d : D) (id : ℕ) (s : StoredHeader)
      → (base.put_header d id s).1 ≡ ok tt
      → (k : ℕ)
      → base.get_header (base.put_header d id s).0 k
        ≡ (if nat_eq id k then ok (some s) else base.get_header d k)
  pub tip_put :
      (d : D) (id : ℕ) (s : StoredHeader)
      → (base.put_header d id s).1 ≡ ok tt
      → base.get_tip (base.put_header d id s).0 ≡ base.get_tip d
  pub get_tip_put :
      (d : D) (id : ℕ)
      → (base.put_tip d id).1 ≡ ok tt
      → base.get_tip (base.put_tip d id).0 ≡ ok (some id)
  pub get_header_put :
      (d : D) (id : ℕ)
      → (base.put_tip d id).1 ≡ ok tt
      → (k : ℕ) → base.get_header (base.put_tip d id).0 k ≡ base.get_header d k
  pub get_header_batch :
      (d : D)
      → (base.batch d).1 ≡ ok tt
      → (k : ℕ) → base.get_header (base.batch d).0 k ≡ base.get_header d k
  pub get_tip_batch :
      (d : D) → (base.batch d).1 ≡ ok tt → base.get_tip (base.batch d).0 ≡ base.get_tip d

module _ {D : Type 0} (base : Database D) where
  -- Every header of the cache is in the database, and the tip of the trunk is the stored tip.
  pub record IsDurable (d : D) (h : HeaderCache) : Type 0 where
    pub headers :
        (k : ℕ) (e : CachedHeader)
        → Map.get h.headers k ≡ some e
        → base.get_header d k ≡ ok (some e.stored)
    pub tip : base.get_tip d ≡ ok (last h.trunk)

module _ {D : Type 0} (x : External) (base : Database D) (genesis_block : Network → BlockHeader)
    (l : Lawful base) where
  -- A header is put into the database and into the cache.
  put-headers :
      (d : D) (h : HeaderCache) (cached : CachedHeader)
      → (base.put_header d cached.id cached.stored).1 ≡ ok tt
      → IsDurable base d h
      → (k : ℕ) (e : CachedHeader) → Map.get (Map.insert h.headers cached.id cached) k ≡ some e
      → base.get_header (base.put_header d cached.id cached.stored).0 k ≡ ok (some e.stored)
  put-headers d h cached o i k e g = elim (==_cases cached.id k) [
    | inl (b, p) ↦
        let same : cached ≡ e = eq_of_some (rw (get-insert h.headers cached.id cached k, b) at g) in
        l.get_put d cached.id cached.stored o k
        ∙ (rw b (ap (λ (z : CachedHeader). ok (some z.stored)) same))
    | inr (b, p) ↦
        l.get_put d cached.id cached.stored o k
        ∙ (rw b (i.headers k e (rw (get-insert h.headers cached.id cached k, b) at g)))
  ]

  pub then_db-ok :
      {A : Type 0} (c : ChainDb D) (r : D × Outcome (Unit {0}))
      (k : ChainDb D → ChainDb D × Outcome A) {a : A}
      → (then_db x base genesis_block c r k).1 ≡ ok a
      → (r.1 ≡ ok tt) × (then_db x base genesis_block c r k ≡ k (record c { db = r.0 }))
  unfolding then_db
  then_db-ok c (d, ok tt) k h = (refl, refl)
  then_db-ok c (d, err e) k h = absurd (cc)
  then_db-ok c (d, panic) k h = absurd (cc)
  then_db-ok c (d, unfinished) k h = absurd (cc)

  abbrev added_with : ChainDb D → HeaderCache → Added → D → ChainDb D
  added_with c h a d = record c { db = d; headercache = h }

  -- A header that the cache has added is put into the database.
  add_header-put :
      (c : ChainDb D) (header : BlockHeader) (h : HeaderCache) (a : Added) {v : Option Added}
      → Add.add_header x c.headercache header ≡ (h, ok (some a))
      → (add_header x base genesis_block c header).1 ≡ ok v
      → let p = base.put_header c.db (x.bitcoin_hash a.cached.header) a.cached.stored in
        (p.1 ≡ ok tt)
        × (add_header x base genesis_block c header
            ≡ store_forwards x base genesis_block
                (added_with c h a p.0)
                a.forwards
                (λ c2. (c2, ok (some a))))
  unfolding add_header
  add_header-put c header h a e o =
      let d = record c { headercache = h } in
      let p = base.put_header c.db (x.bitcoin_hash a.cached.header) a.cached.stored in
      let k = λ (c1 : ChainDb D).
        store_forwards x base genesis_block c1 a.forwards (λ c2. (c2, ok (some a))) in
      let q : add_header x base genesis_block c header ≡ then_db x base genesis_block d p k =
        rw (ap (λ r. r.1) e, ap (λ r. r.0) e, add_header) refl in
      let (s, t) = then_db-ok d p k (sym (ap (λ r. r.1) q) ∙ o) in (s, q ∙ t)

  pub Keeps-IsDurable :
      (c : ChainDb D) (header : BlockHeader)
      → Keeps x c.headercache (Add.add_header x c.headercache header)
      → IsDurable base c.db c.headercache
      → let r = (add_header x base genesis_block c header).0 in IsDurable base r.db r.headercache
  unfolding add_header
  Keeps-IsDurable c header k i =
      let r = Add.add_header x c.headercache header in
      elim (Outcome-cases r.1) [
        | inl (none, o) ↦ rw (o, add_header) (rw k.same i)
        | inl (some a, o) ↦ absurd (k.none_added a o)
        | inr (inl (e, o)) ↦ rw (o, add_header) (rw k.same i)
        | inr (inr (inl o)) ↦ rw (o, add_header) (rw k.same i)
        | inr (inr (inr o)) ↦ rw (o, add_header) (rw k.same i)
      ]

  -- What the cache tells of the tip: it stays, or is the last of the forwards.
  TellsTip : HeaderCache → HeaderCache → Added → Type 0
  TellsTip before after a =
      ((a.forwards ≡ none) × (last after.trunk ≡ last before.trunk))
      ⊎ ((ids : List ℕ) × (id : ℕ) × (a.forwards ≡ some ids)
          × (last ids ≡ some id)
          × (last after.trunk ≡ some id))

  store_forwards-IsDurable :
      (c : ChainDb D) (before : HeaderCache) (a : Added) {v : Option Added}
      → TellsTip before c.headercache a
      → let r = store_forwards x base genesis_block c a.forwards (λ c2. (c2, ok (some a))) in
        r.1 ≡ ok v
        → ((k : ℕ) (e : CachedHeader)
            → Map.get c.headercache.headers k ≡ some e
            → base.get_header c.db k ≡ ok (some e.stored))
        → base.get_tip c.db ≡ ok (last before.trunk)
        → IsDurable base r.0.db r.0.headercache
  unfolding store_forwards TellsTip
  store_forwards-IsDurable c before a (inl (f, t)) o hs g =
      rw (f, store_forwards) (record { headers = hs; tip = g ∙ ap (λ z. ok z) (sym t) })
  store_forwards-IsDurable c before a (inr (ids, id, f, w, t)) o hs g =
      let p = base.put_tip c.db id in
      let q : store_forwards x base genesis_block c a.forwards (λ c2. (c2, ok (some a)))
          ≡ then_db x base genesis_block c p (λ c2. (c2, ok (some a))) =
        rw (f, store_forwards) (rw w refl) in
      let (s, r) = then_db-ok c p (λ c2. (c2, ok (some a))) (sym (ap (λ r. r.1) q) ∙ o) in
      rw (q ∙ r) (record {
        headers = λ k e m. l.get_header_put c.db id s k ∙ hs k e m;
        tip = l.get_tip_put c.db id s ∙ ap (λ z. ok z) (sym t);
      })

  added-IsDurable :
      (c : ChainDb D) (header : BlockHeader) (h : HeaderCache) (a : Added) {v : Option Added}
      → Add.add_header x c.headercache header ≡ (h, ok (some a))
      → x.bitcoin_hash a.cached.header ≡ a.cached.id
      → h.headers ≡ Map.insert c.headercache.headers a.cached.id a.cached
      → TellsTip c.headercache h a
      → (add_header x base genesis_block c header).1 ≡ ok v
      → IsDurable base c.db c.headercache
      → let r = (add_header x base genesis_block c header).0 in IsDurable base r.db r.headercache
  added-IsDurable c header h a e z hs t o i =
      let (q, r) = add_header-put c header h a e o in
      let p = base.put_header c.db (x.bitcoin_hash a.cached.header) a.cached.stored in
      let q' : (base.put_header c.db a.cached.id a.cached.stored).1 ≡ ok tt = rw z at q in
      rw r (
        store_forwards-IsDurable (added_with c h a p.0) c.headercache a t
          (sym (ap (λ r. r.1) r) ∙ o)
          (λ k e g. rw z (put-headers c.db c.headercache a.cached q' i k e (rw hs at g)))
          (rw z (l.tip_put c.db a.cached.id a.cached.stored q' ∙ i.tip)))

  module _ {root : ℕ} where
    -- After every `add_header` of the store that succeeds, for a header that is no genesis, the database
    -- holds every header of the cache and, as the stored tip, the last id of the trunk, if it did
    -- before: for a header that is known, put aside, extends the trunk or reorganises it. The cache is
    -- a tree with heights below 2^32 - 1, and the database keeps what is put into it.
    pub add_header-IsDurable :
        (c : ChainDb D) (header : BlockHeader) {v : Option Added}
        → IsTree root c.headercache
        → IsLow c.headercache
        → header.prev_blockhash ≢ 0
        → (add_header x base genesis_block c header).1 ≡ ok v
        → IsDurable base c.db c.headercache
        → let r = (add_header x base genesis_block c header).0 in IsDurable base r.db r.headercache
    unfolding TellsTip
    add_header-IsDurable c header t low nz o i = elim (add_header-cases x c.headercache header nz) [
      | inl k ↦ Keeps-IsDurable c header k i
      | inr s ↦
          let z : x.bitcoin_hash s.cached.header ≡ s.cached.id =
            rw s.valid.is_header (sym s.valid.is_id) in
          elim (store_cached-cases x c.headercache t s.cached s.prev s.fresh s.found
            (Stores-higher x c.headercache header low s)) [
              | inl a ↦
                  added-IsDurable c header _ _ (s.result ∙ ap some_added a.result) z refl
                    (inl (refl, refl)) o i
              | inr m ↦
                  added-IsDurable c header _ _ (s.result ∙ ap some_added m.switched.result) z refl
                    (inr (
                      _,
                      s.cached.id,
                      refl,
                      last-append_cons (reverse m.back_path) s.cached.id,
                      last-append_append _ (reverse m.back_path) s.cached.id,
                    ))
                    o i
            ]
    ]
