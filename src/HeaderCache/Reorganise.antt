-- ===== src/HeaderCache/Reorganise.antt =====
-- What a reorganisation in `add_header` of src/headercache.rs makes of the trunk.
use murmel.Common.{
  ℕ, zero, suc, ◌+◌, ◌-◌, ◌≤◌, ◌≡◌, ◌≢◌, refl, ap, sym, ◌∙◌, ◌⊎◌, inl, inr, none, some, List, [],
  ◌∷◌, ◌++◌, arith, false, ltb, nat_eq, ℕ-Eq, eq_of_some, In, In-append_cases, In-append_left,
  In-of-reverse, get_elem?, take, drop, length, reverse, reverse-append, append_assoc, Bool-cases,
  ==_cases, take_all, drop_all,
}
use murmel.Common.Map
use murmel.External.{BlockHeader, External}
use murmel.Outcome.{Outcome, ok, ◌>>=◌}
use murmel.Pow.{CachedHeader}
use murmel.HeaderCache.{HeaderCache}
use murmel.HeaderCache.Add.{Added, switch_trunk, add_header}
use murmel.HeaderCache.Trunk.{rposition-some}
use murmel.HeaderCache.Tree.{IsTree, Branch, fork, back, Branch-fork, Branch-lower}
use murmel.HeaderCache.Store.{get-with_header}
use murmel.HeaderCache.Grow.{grown, grown-IsTree, Moved, store_cached-cases}
use murmel.HeaderCache.Cases.{add_header-cases}
use murmel.HeaderCache.Chain.{IsLow, Stores-higher}

-- A list around one of its elements.
record Around (xs : List ℕ) (i f : ℕ) : Type 0 where
  pub before : List ℕ
  pub after : List ℕ
  pub whole : xs ≡ before ++ (f ∷ after)
  pub kept : take (suc i) xs ≡ before ++ (f ∷ [])
  pub dropped : drop (suc i) xs ≡ after

around : (xs : List ℕ) (i f : ℕ) → get_elem? xs i ≡ some f → Around xs i f
around [] i f e = cc
around (x ∷ xs) zero f e =
    let z : x ≡ f = eq_of_some e in
    record {
      before = [];
      after = xs;
      whole = ap (λ a. a ∷ xs) z;
      kept = ap (λ a. a ∷ []) z;
      dropped = refl;
    }
around (x ∷ xs) (suc i) f e =
    let r = around xs i f e in
    record {
      before = x ∷ r.before;
      after = r.after;
      whole = ap (λ a. x ∷ a) r.whole;
      kept = ap (λ a. x ∷ a) r.kept;
      dropped = r.dropped;
    }

-- The trunk is cut behind the fork, and the path is put behind it.
record Cut (c : HeaderCache) (cached : CachedHeader) (f : ℕ) (path : List ℕ)
    (r : HeaderCache × Outcome Added) : Type 0 where
  pub before : List ℕ
  pub after : List ℕ
  pub trunk : c.trunk ≡ before ++ (f ∷ after)
  pub result : r ≡ (
    record c { trunk = (before ++ (f ∷ [])) ++ path },
    ok (record { cached = cached; unwinds = some (reverse after); forwards = some path }),
  )

switch_trunk-Cut :
    (c : HeaderCache) (cached : CachedHeader) (f : ℕ) (path : List ℕ)
    → In f c.trunk
    → nat_eq f cached.header.prev_blockhash ≡ false
    → Cut c cached f path (switch_trunk c cached f path)
unfolding switch_trunk
switch_trunk-Cut c cached f path m e =
    let (i, q, g) = rposition-some c.trunk f m in
    let s = around c.trunk i f g in
    let one : i + 1 ≡ suc i = omega arith in
    elim (Bool-cases (ltb i (length c.trunk - 1))) [
      | inl l ↦ record {
        before = s.before;
        after = s.after;
        trunk = s.whole;
        result = rw (e, switch_trunk) (rw (q, l) (rw (one, s.kept, s.dropped) refl));
      }
      | inr l ↦
          let short : length c.trunk ≤ suc i = ground (arith, l) in
          let all : take (suc i) c.trunk ≡ c.trunk = take_all c.trunk (suc i) short in
          let nothing : drop (suc i) c.trunk ≡ [] = drop_all c.trunk (suc i) short in
          record {
            before = s.before;
            after = s.after;
            trunk = s.whole;
            result =
                rw (e, switch_trunk)
                  (rw (q, l) (rw (← s.kept) (rw (all, ← s.dropped, nothing) refl)));
          }
    ]

-- The way back ends in the fork.
Branch-ends :
    {c : HeaderCache} {k f : ℕ} {path : List ℕ}
    → Branch c k f path
    → ((k ≡ f) × (path ≡ [])) ⊎ ((xs : List ℕ) × (path ≡ xs ++ (f ∷ [])))
Branch-ends (fork h) = inl (refl, refl)
Branch-ends (back {p = p} {f = f} e n g q b) = elim (Branch-ends b) [
  | inl (z, w) ↦ inr ([], rw (z, w) refl)
  | inr (xs, w) ↦ inr (p ∷ xs, ap (λ a. p ∷ a) w)
]

-- What the new trunk is made of: up to the fork the old trunk, and then the fork once more, the ids of
-- headers between the fork and the parent of the new tip, and the new tip.
pub record IsReorganised (c : HeaderCache) (id parent : ℕ) (h : HeaderCache) (a : Added)
    : Type 0 where
  pub fork_at : ℕ
  pub before : List ℕ
  pub after : List ℕ
  pub between : List ℕ
  pub trunk : c.trunk ≡ before ++ (fork_at ∷ after)
  pub new_trunk : h.trunk ≡ before ++ (fork_at ∷ fork_at ∷ (between ++ (id ∷ [])))
  pub unwinds : a.unwinds ≡ some (reverse after)
  pub no_parent : ¬ In parent h.trunk

module _ (x : External) {root : ℕ} (c : HeaderCache) (t : IsTree root c)
    (cached prev : CachedHeader) (fresh : Map.get c.headers cached.id ≡ none)
    (found : Map.get c.headers cached.header.prev_blockhash ≡ some prev)
    (higher : cached.height ≡ suc prev.height)
    (out : ¬ In cached.header.prev_blockhash c.trunk) where
  abbrev parent : ℕ
  parent = cached.header.prev_blockhash

  -- The parent is none of its own ancestors.
  own_ancestor :
      {f : ℕ} {path : List ℕ}
      → Branch (grown x c t cached prev fresh found higher) parent f path
      → ¬ In parent path
  own_ancestor b m =
      let g = get-with_header c t cached prev fresh found higher parent prev found in
      let (e, ge, l) =
        Branch-lower (grown x c t cached prev fresh found higher)
          (grown-IsTree x c t cached prev fresh found higher) b prev g parent m in
      let same : e ≡ prev = eq_of_some (sym ge ∙ g) in
      absurd (omega (arith, l, ap (λ (a : CachedHeader). a.height) same))

  parent_is_not_id : cached.id ≢ parent
  parent_is_not_id z = let f : Map.get c.headers cached.id ≡ some prev = rw z found in absurd (cc)

  out_of_new_trunk :
      (before after xs : List ℕ) (f : ℕ)
      → c.trunk ≡ before ++ (f ∷ after)
      → f ≢ parent
      → ¬ In parent xs
      → ¬ In parent (before ++ (f ∷ f ∷ (reverse xs ++ (cached.id ∷ []))))
  out_of_new_trunk before after xs f e n m i = elim (In-append_cases parent before _ i) [
    | inl j ↦ out (rw e (In-append_left parent before (f ∷ after) j))
    | inr (inl z) ↦ n z
    | inr (inr (inl z)) ↦ n z
    | inr (inr (inr j)) ↦ elim (In-append_cases parent (reverse xs) (cached.id ∷ []) j) [
      | inl k ↦ m (In-of-reverse parent xs k)
      | inr (inl z) ↦ parent_is_not_id z
      | inr (inr z) ↦ absurd z
    ]
  ]

  Moved-IsReorganised :
      {r : HeaderCache × Outcome Added}
      → Moved x c t cached prev fresh found higher r
      → (a : Added) × (r.1 ≡ ok a) × IsReorganised c cached.id parent r.0 a
  Moved-IsReorganised m = elim (Branch-ends m.branch) [
    | inl (z, _) ↦ absurd (out (rw z (Branch-fork m.branch)))
    | inr (xs, w) ↦ elim (==_cases m.fork_at parent) [
      | inl (b, z) ↦ absurd (out (rw (← z) (Branch-fork m.branch)))
      | inr (b, n) ↦
          let path = reverse m.back_path ++ (cached.id ∷ []) in
          let cut =
            switch_trunk-Cut (grown x c t cached prev fresh found higher) cached m.fork_at path
              (Branch-fork m.branch) b in
          let turned : path ≡ m.fork_at ∷ (reverse xs ++ (cached.id ∷ [])) =
            ap (λ p. p ++ (cached.id ∷ [])) (ap reverse w ∙ reverse-append xs (m.fork_at ∷ [])) in
          let all : (cut.before ++ (m.fork_at ∷ [])) ++ path
              ≡ cut.before ++ (m.fork_at ∷ m.fork_at ∷ (reverse xs ++ (cached.id ∷ []))) =
            append_assoc cut.before (m.fork_at ∷ []) path
            ∙ ap (λ p. cut.before ++ (m.fork_at ∷ p)) turned in
          let cut_all = m.switch ∙ cut.result in
          (
            record { cached = cached; unwinds = some (reverse cut.after); forwards = some path },
            ap (λ r. r.1) cut_all,
            record {
              fork_at = m.fork_at;
              before = cut.before;
              after = cut.after;
              between = reverse xs;
              trunk = cut.trunk;
              new_trunk = ap (λ r. r.0.trunk) cut_all ∙ all;
              unwinds = refl;
              no_parent = rw (ap (λ r. r.0.trunk) cut_all ∙ all) (
                  out_of_new_trunk cut.before cut.after xs m.fork_at cut.trunk n (λ i.
                    own_ancestor m.branch (rw w (In-append_left parent xs (m.fork_at ∷ []) i))));
            },
          )
    ]
  ]

module _ (x : External) {root : ℕ} (c : HeaderCache) (next : BlockHeader) where
  -- A reorganisation to a branch whose headers are not on the trunk leaves a trunk that is no chain: the
  -- id of the fork stands in it twice, and the parent of the new tip not at all. This holds of every
  -- header that `add_header` adds and makes the tip, on a tree with heights below 2^32 - 1, if its
  -- parent is not on the trunk and it is no genesis; what stood behind the fork is unwound, the last
  -- first.
  pub add_header-reorganises :
      IsTree root c
      → IsLow c
      → next.prev_blockhash ≢ 0
      → {a : Added} → (add_header x c next).1 ≡ ok (some a)
      → a.forwards ≢ none
      → ¬ In next.prev_blockhash c.trunk
      → IsReorganised c (x.bitcoin_hash next) next.prev_blockhash (add_header x c next).0 a
  add_header-reorganises t low nz {a} o w out = elim (add_header-cases x c next nz) [
    | inl k ↦ absurd (k.none_added a o)
    | inr s ↦
        let up = Stores-higher x c next low s in
        elim (store_cached-cases x c t s.cached s.prev s.fresh s.found up) [
          | inl b ↦
              let p : a.forwards ≡ none = ground (arith, o, s.result, b.result) in absurd (w p)
          | inr m ↦
              let out' : ¬ In s.cached.header.prev_blockhash c.trunk = rw s.valid.is_header out in
              let (b, e, i) = Moved-IsReorganised x c t s.cached s.prev s.fresh s.found up out' m in
              let q : (add_header x c next).1 ≡ ok (some b) =
                ap (λ r. r.1) s.result ∙ ap (λ r. r >>= λ z. ok (some z)) e in
              let ok_same : ok (some b) ≡ ok (some a) = sym q ∙ o in
              let same : b ≡ a = cc in rw (s.result, ← s.valid.is_id, ← s.valid.is_header, ← same) i
        ]
  ]
