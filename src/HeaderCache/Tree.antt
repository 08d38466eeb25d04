-- ===== src/HeaderCache/Tree.antt =====
-- The cache as a tree of headers, and the way back from a header to the trunk.
use murmel.Common.{
  ℕ, zero, suc, ◌<◌, ◌≡◌, refl, ap, sym, ◌∙◌, ◌⊎◌, inl, inr, none, some, List, [], ◌∷◌, ◌++◌, arith,
  In, In-get_elem?, get_elem?, Option-cases, ℕ-Eq, append-nil, append_assoc, eq_of_some,
}
use murmel.Common.Map
use murmel.Outcome.{Outcome, ok}
use murmel.Pow.{CachedHeader}
use murmel.HeaderCache.{HeaderCache, pos_on_trunk}
use murmel.HeaderCache.Add.{path_loop}
use murmel.HeaderCache.Trunk.{pos_on_trunk-none, In-of-pos_on_trunk}

-- The trunk starts at `root` and holds known ids, and every other known header has a known parent,
-- one lower.
pub record IsTree (root : ℕ) (c : HeaderCache) : Type 0 where
  pub rooted : get_elem? c.trunk 0 ≡ some root
  pub known : (h : ℕ) → In h c.trunk → (e : CachedHeader) × (Map.get c.headers h ≡ some e)
  pub parent :
      (k : ℕ) (e : CachedHeader)
      → Map.get c.headers k ≡ some e
      → (k ≡ root)
        ⊎ ((p : CachedHeader) × (Map.get c.headers e.header.prev_blockhash ≡ some p)
            × (e.height ≡ suc p.height))

-- The way back from `k` to the trunk: where it meets the trunk, and the strict ancestors on it.
pub data Branch (c : HeaderCache) : ℕ → ℕ → List ℕ → Type 0 where
  fork : {f : ℕ} → In f c.trunk → Branch c f f []
  back :
      {k p f : ℕ} {path : List ℕ} (e : CachedHeader)
      → ¬ In k c.trunk
      → Map.get c.headers k ≡ some e
      → e.header.prev_blockhash ≡ p
      → Branch c p f path
      → Branch c k f (p ∷ path)

pub Branch-fork : {c : HeaderCache} {k f : ℕ} {path : List ℕ} → Branch c k f path → In f c.trunk
Branch-fork (fork h) = h
Branch-fork (back e n g q b) = Branch-fork b

-- What the loop of `add_header_to_tree` finds.
pub record Found (c : HeaderCache) (k : ℕ) (acc : List ℕ) (r : Outcome (ℕ × List ℕ)) : Type 0 where
  pub at : ℕ
  pub path : List ℕ
  pub result : r ≡ ok (at, acc ++ path)
  pub branch : Branch c k at path

path_loop_on :
    (fuel : ℕ) (c : HeaderCache) (k : ℕ) (acc : List ℕ) {i : ℕ}
    → pos_on_trunk c k ≡ some i
    → path_loop (suc fuel) c k acc ≡ ok (k, acc)
unfolding path_loop
path_loop_on fuel c k acc q = ground arith

path_loop_off :
    (fuel : ℕ) (c : HeaderCache) (k : ℕ) (acc : List ℕ) {e : CachedHeader}
    → pos_on_trunk c k ≡ none
    → Map.get c.headers k ≡ some e
    → path_loop (suc fuel) c k acc
      ≡ path_loop fuel c e.header.prev_blockhash (acc ++ (e.header.prev_blockhash ∷ []))
unfolding path_loop
path_loop_off fuel c k acc n g = ground arith

-- From a known header, as many rounds as its height and one more bring the loop to the trunk.
pub path_loop-Found :
    {root : ℕ} (c : HeaderCache)
    → IsTree root c
    → (fuel k : ℕ) (acc : List ℕ) (e : CachedHeader) → Map.get c.headers k ≡ some e
    → e.height < fuel
    → Found c k acc (path_loop fuel c k acc)
path_loop-Found c t zero k acc e g h = absurd (omega arith)
path_loop-Found c t (suc fuel) k acc e g h = elim (Option-cases (pos_on_trunk c k)) [
  | inr (i, q) ↦ record {
    at = k;
    path = [];
    result = path_loop_on fuel c k acc q ∙ ap (λ l. ok (k, l)) (sym (append-nil acc));
    branch = fork (In-of-pos_on_trunk c k i q);
  }
  | inl n ↦ elim (t.parent k e g) [
    | inl z ↦ absurd (pos_on_trunk-none c k n (rw z (In-get_elem? _ c.trunk 0 t.rooted)))
    | inr (p, pg, ph) ↦
        let r =
          path_loop-Found c t fuel e.header.prev_blockhash (acc ++ (e.header.prev_blockhash ∷ [])) p
            pg (omega arith) in
        record {
          at = r.at;
          path = e.header.prev_blockhash ∷ r.path;
          result =
              path_loop_off fuel c k acc n g
              ∙ r.result
              ∙ ap (λ l. ok (r.at, l)) (append_assoc acc (e.header.prev_blockhash ∷ []) r.path);
          branch = back e (pos_on_trunk-none c k n) g refl r.branch;
        }
  ]
]

one_below : {m n : ℕ} → m ≡ suc n → n < m
one_below e = omega arith

below : {m n k : ℕ} → m ≡ suc n → k < n → k < m
below e h = omega arith

-- The ids on the way back are known, and lower than the header that it starts at.
pub Branch-lower :
    {root : ℕ} (c : HeaderCache)
    → IsTree root c
    → {k f : ℕ} {path : List ℕ} → Branch c k f path
    → (e : CachedHeader) → Map.get c.headers k ≡ some e
    → (a : ℕ) → In a path
    → (ea : CachedHeader) × (Map.get c.headers a ≡ some ea) × (ea.height < e.height)
Branch-lower c t (fork h) e g a m = absurd m
Branch-lower {root} c t (back {k = k} {p = p} e' n g' q b) e g a m = elim (t.parent k e g) [
  | inl z ↦ absurd (n (rw z (In-get_elem? root c.trunk 0 t.rooted)))
  | inr (u, ug, uh) ↦
      let same : e' ≡ e = eq_of_some (sym g' ∙ g) in
      let pg : Map.get c.headers p ≡ some u = rw (← q, same) ug in
      elim m [
        | inl z ↦ (u, rw (← z) pg, one_below uh)
        | inr m' ↦ let (ea, ga, ha) = Branch-lower c t b u pg a m' in (ea, ga, below uh ha)
      ]
]
