-- ===== src/ChainDb/First.antt =====
-- The first start of `ChainDB` of src/chaindb.rs, on a database without a tip.
use murmel.Common.{
  ℕ, ◌⊎◌, Option-cases, ◌≡◌, ◌≢◌, refl, ap, sym, ◌∙◌, inl, inr, Option, none, some, [], ◌∷◌, arith,
  ℕ-Eq, ==_cases, ==_self, eq_of_some,
}
use murmel.Common.Map
use murmel.Common.Map.{get-insert}
use murmel.External.{BlockHeader, External, Network, default}
use murmel.Outcome.{Outcome, ok, err, panic, unfinished, Outcome-cases, >>=-eq-ok}
use murmel.Pow.{CachedHeader, log2}
use murmel.HeaderCache.{HeaderCache, last}
use murmel.HeaderCache
use murmel.HeaderCache.Add.{Added, insert_genesis}
use murmel.HeaderCache.Add
use murmel.HeaderCache.Tree.{IsTree}
use murmel.ChainDb
use murmel.ChainDb.{Database, ChainDb, mem, then_db, start_chain, init_headers}
use murmel.ChainDb.Durable.{Lawful, IsDurable, then_db-ok}
use murmel.ChainDb.Sound.{IsSound}
use murmel.HeaderCache.Genesis.{HasGenesis}

abbrev genesis_entry : ℕ → BlockHeader → ℕ → CachedHeader
genesis_entry id header total = record {
  stored = record { header = header; height = 0; log2work = total };
  id = id;
}

abbrev one_entry : Network → CachedHeader → HeaderCache
one_entry n e = record { network = n; headers = (e.id, e) ∷ []; trunk = e.id ∷ [] }

get-one_entry :
    (n : Network) (e : CachedHeader) (k : ℕ) (f : CachedHeader)
    → Map.get (one_entry n e).headers k ≡ some f
    → (k ≡ e.id) × (f ≡ e)
unfolding Map.get
get-one_entry n e k f g = elim (==_cases e.id k) [
  | inl (b, p) ↦ (sym p, sym (eq_of_some (rw b at g)))
  | inr (b, p) ↦ absurd (ground (arith, g, b))
]

one_entry-IsTree : (n : Network) (e : CachedHeader) → IsTree e.id (one_entry n e)
unfolding Map.get
one_entry-IsTree n e = record {
  rooted = refl;
  known = λ h i. (e, elim i [ inl p ↦ rw (← p, ==_self e.id) refl | inr z ↦ absurd z ]);
  parent = λ k f g. inl (get-one_entry n e k f g).0;
}

module _ (x : External) where
  open x use {bitcoin_hash, header_work}

  abbrev first_entry : BlockHeader → ℕ → CachedHeader
  first_entry header total = genesis_entry (bitcoin_hash header) header total

  abbrev first_added : BlockHeader → ℕ → Added
  first_added header total =
      let e = first_entry header total in
      record { cached = e; unwinds = none; forwards = some (e.id ∷ []) }

  add_header-insert_genesis :
      (n : Network) (header : BlockHeader)
      → header.prev_blockhash ≡ default
      → Add.add_header x (HeaderCache.new n) header ≡ insert_genesis x (HeaderCache.new n) header
  unfolding Add.add_header HeaderCache.new Map.get
  add_header-insert_genesis n header z = rw z refl

  insert_genesis-ok :
      (n : Network) (header : BlockHeader) (total : ℕ)
      → log2 x (header_work header) ≡ ok total
      → insert_genesis x (HeaderCache.new n) header
        ≡ (one_entry n (first_entry header total), ok (some (first_added header total)))
  unfolding insert_genesis HeaderCache.new Map.insert
  insert_genesis-ok n header total h = rw (h, insert_genesis) refl

module _ {D : Type 0} (x : External) (base : Database D) (genesis_block : Network → BlockHeader)
    (l : Lawful base) where
  open x use {bitcoin_hash, header_work}

  first_IsDurable :
      (d : D) (n : Network) (e : CachedHeader)
      → (base.put_header d e.id e.stored).1 ≡ ok tt
      → let d1 = (base.put_header d e.id e.stored).0 in
        (base.batch d1).1 ≡ ok tt
        → let d2 = (base.batch d1).0 in
          (base.put_tip d2 e.id).1 ≡ ok tt
          → let d3 = (base.put_tip d2 e.id).0 in
            (base.batch d3).1 ≡ ok tt → IsDurable base (base.batch d3).0 (one_entry n e)
  unfolding last
  first_IsDurable d n e o1 o2 o3 o4 =
      let d1 = (base.put_header d e.id e.stored).0 in
      let d2 = (base.batch d1).0 in
      let d3 = (base.put_tip d2 e.id).0 in
      record {
        headers = λ k f g.
            let (p, q) = get-one_entry n e k f g in
            rw (p, q)
              (l.get_header_batch d3 o4 e.id
                ∙ l.get_header_put d2 e.id o3 e.id
                ∙ l.get_header_batch d1 o2 e.id
                ∙ l.get_put d e.id e.stored o1 e.id
                ∙ rw (==_self e.id) refl);
        tip = l.get_tip_batch d3 o4 ∙ l.get_tip_put d2 e.id o3;
      }

  abbrev empty_store : D → Network → ChainDb D
  empty_store d n = record { db = d; headercache = HeaderCache.new n; network = n }

  start_chain-cache :
      (d : D) (n : Network) {o : Unit {0}}
      → (genesis_block n).prev_blockhash ≡ default
      → (start_chain x base genesis_block (empty_store d n)).1 ≡ ok o
      → (total : ℕ) × (log2 x (header_work (genesis_block n)) ≡ ok total)
  unfolding start_chain insert_genesis
  start_chain-cache d n z o =
      let q = add_header-insert_genesis x n (genesis_block n) z in
      elim (Outcome-cases (log2 x (header_work (genesis_block n)))) [
        | inl r ↦ r
        | inr (inl (e, r)) ↦
            let a : (Add.add_header x (HeaderCache.new n) (genesis_block n)).1 ≡ err e =
              rw q (rw (r, insert_genesis) refl) in
            absurd (cc (rw (a, start_chain) at o))
        | inr (inr (inl r)) ↦
            let a : (Add.add_header x (HeaderCache.new n) (genesis_block n)).1 ≡ panic =
              rw q (rw (r, insert_genesis) refl) in
            absurd (cc (rw (a, start_chain) at o))
        | inr (inr (inr r)) ↦
            let a : (Add.add_header x (HeaderCache.new n) (genesis_block n)).1 ≡ unfinished =
              rw q (rw (r, insert_genesis) refl) in
            absurd (cc (rw (a, start_chain) at o))
      ]

  start_chain-IsDurable :
      (d : D) (n : Network) {o : Unit {0}} (total : ℕ)
      → (genesis_block n).prev_blockhash ≡ default
      → log2 x (header_work (genesis_block n)) ≡ ok total
      → (start_chain x base genesis_block (empty_store d n)).1 ≡ ok o
      → let r = (start_chain x base genesis_block (empty_store d n)).0 in
        (r.headercache ≡ one_entry n (first_entry x (genesis_block n) total))
        × IsDurable base r.db (one_entry n (first_entry x (genesis_block n) total))
  unfolding start_chain
  start_chain-IsDurable d n total z h o =
      let e = first_entry x (genesis_block n) total in
      let c0 : ChainDb D = record { db = d; headercache = one_entry n e; network = n } in
      let k3 = λ (c3 : ChainDb D).
        then_db x base genesis_block c3 (base.batch c3.db) (λ c4. (c4, ok (tt {0}))) in
      let k2 = λ (c2 : ChainDb D). then_db x base genesis_block c2 (base.put_tip c2.db e.id) k3 in
      let k1 = λ (c1 : ChainDb D). then_db x base genesis_block c1 (base.batch c1.db) k2 in
      let a =
        add_header-insert_genesis x n (genesis_block n) z
        ∙ insert_genesis-ok x n (genesis_block n) total h in
      let q : start_chain x base genesis_block (empty_store d n)
          ≡ then_db x base genesis_block c0 (base.put_header d e.id e.stored) k1 =
        rw (ap (λ r. r.1) a, ap (λ r. r.0) a, start_chain) refl in
      let (o1, q1) =
        then_db-ok x base genesis_block l c0 (base.put_header d e.id e.stored) k1
          (sym (ap (λ r. r.1) q) ∙ o) in
      let d1 = (base.put_header d e.id e.stored).0 in
      let (o2, q2) =
        then_db-ok x base genesis_block l (record c0 { db = d1 }) (base.batch d1) k2
          (sym (ap (λ r. r.1) (q ∙ q1)) ∙ o) in
      let d2 = (base.batch d1).0 in
      let (o3, q3) =
        then_db-ok x base genesis_block l (record c0 { db = d2 }) (base.put_tip d2 e.id) k3
          (sym (ap (λ r. r.1) (q ∙ q1 ∙ q2)) ∙ o) in
      let d3 = (base.put_tip d2 e.id).0 in
      let (o4, q4) =
        then_db-ok x base genesis_block l (record c0 { db = d3 }) (base.batch d3)
          (λ c4. (c4, ok (tt {0}))) (sym (ap (λ r. r.1) (q ∙ q1 ∙ q2 ∙ q3)) ∙ o) in
      rw (q ∙ q1 ∙ q2 ∙ q3 ∙ q4) (refl, first_IsDurable d n e o1 o2 o3 o4)

  first_HasGenesis :
      (n : Network) (e : CachedHeader)
      → e.header.prev_blockhash ≡ default
      → e.id ≢ default
      → HasGenesis e.id (one_entry n e)
  first_HasGenesis n e z nz = record {
    genesis = λ f g. rw ((get-one_entry n e e.id f g).1) z;
    no_default = elim (Option-cases (Map.get (one_entry n e).headers default)) [
      | inl g ↦ g
      | inr (f, g) ↦ absurd (nz (sym (get-one_entry n e default f g).0))
    ];
  }

  opened :
      {P : Type 0} (transient : Outcome D) (persistent : P → Outcome D) (path : Option P)
      (n : Network) (c : ChainDb D)
      → (mem transient n ≡ ok c) ⊎ (ChainDb.new persistent path n ≡ ok c)
      → (d : D) × (c ≡ empty_store d n)
  unfolding mem ChainDb.new
  opened transient persistent path n c (inl m) = let (d, e, q) = >>=-eq-ok transient _ m in (d, cc)
  opened transient persistent none n c (inr m) = absurd (cc)
  opened transient persistent (some p) n c (inr m) =
      let (d, e, q) = >>=-eq-ok (persistent p) _ m in (d, cc)

  start_chain-IsSound :
      (d : D) (n : Network) {o : Unit {0}}
      → (genesis_block n).prev_blockhash ≡ default
      → bitcoin_hash (genesis_block n) ≢ default
      → (start_chain x base genesis_block (empty_store d n)).1 ≡ ok o
      → IsSound base
          (bitcoin_hash (genesis_block n))
          (start_chain x base genesis_block (empty_store d n)).0
  start_chain-IsSound d n z nz o =
      let (total, h) = start_chain-cache d n z o in
      let e = first_entry x (genesis_block n) total in
      let (q, i) = start_chain-IsDurable d n total z h o in
      record {
        tree = rw q (one_entry-IsTree n e);
        genesis = rw q (first_HasGenesis n e z nz);
        durable = rw q i;
      }

  -- A first start that succeeds leaves the store sound: for a database without a tip, opened by `mem`
  -- or by `new`, the cache is a tree whose root is the genesis header, and the database holds that
  -- header and its id as the tip. The genesis block has no parent and an id that is not zero, and the
  -- database keeps what is put into it.
  pub init_headers-IsSound :
      {P : Type 0} (fuel : ℕ) (transient : Outcome D) (persistent : P → Outcome D) (path : Option P)
      (n : Network) (c : ChainDb D) {o : Unit {0}}
      → (mem transient n ≡ ok c) ⊎ (ChainDb.new persistent path n ≡ ok c)
      → base.get_tip c.db ≡ ok none
      → (genesis_block n).prev_blockhash ≡ default
      → bitcoin_hash (genesis_block n) ≢ default
      → (init_headers x base genesis_block fuel c).1 ≡ ok o
      → IsSound base (bitcoin_hash (genesis_block n)) (init_headers x base genesis_block fuel c).0
  unfolding init_headers
  init_headers-IsSound fuel transient persistent path n c m t z nz o =
      let (d, e) = opened transient persistent path n c m in
      let q : init_headers x base genesis_block fuel c ≡ start_chain x base genesis_block c =
        rw (t, init_headers) refl in
      rw (q, e) (start_chain-IsSound d n z nz (rw (q, e) at o))
