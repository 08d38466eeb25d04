-- ===== src/HeaderCache/Store.antt =====
-- What `store_cached` does to a tree: the new header is stored, and the trunk either stays or is cut
-- at the fork and extended by the path that the loop has found.
use murmel.Common.{
  ℕ, zero, suc, ◌+◌, ◌-◌, ◌<◌, ◌≡◌, refl, sym, ◌⊎◌, inl, inr, Option, none, some, List, [], ◌∷◌,
  ◌++◌, arith, In, get_elem?, Bool-cases, ℕ-Eq, eq_of_some, take, drop, length, reverse, ltb,
  nat_eq, take_all, lt-length_of_get_elem?, In-take, In-append_cases, ==_cases,
}
use murmel.Common.Map
use murmel.Common.Map.{get-insert, get-insert_self}
use murmel.Outcome.{Outcome, ok}
use murmel.Pow.{CachedHeader}
use murmel.HeaderCache.{HeaderCache, last, tip}
use murmel.HeaderCache.Add.{Added, switch_trunk}
use murmel.HeaderCache.Trunk.{rposition-some, last-In}
use murmel.HeaderCache.Tree.{IsTree}

-- The trunk keeps its first `kept` ids, and goes on with the path.
pub record Switched (c : HeaderCache) (cached : CachedHeader) (path : List ℕ)
    (r : HeaderCache × Outcome Added) : Type 0 where
  pub kept : ℕ
  pub positive : 0 < kept
  pub unwinds : Option (List ℕ)
  pub result : r ≡ (
    record c { trunk = take kept c.trunk ++ path },
    ok (record { cached = cached; unwinds = unwinds; forwards = some path }),
  )

pub 0-lt-length : (xs : List ℕ) {a : ℕ} → get_elem? xs 0 ≡ some a → 0 < length xs
0-lt-length xs e = lt-length_of_get_elem? xs 0 e

pub switch_trunk-Switched :
    (c : HeaderCache) (cached : CachedHeader) (f : ℕ) (path : List ℕ)
    → In f c.trunk
    → 0 < length c.trunk
    → Switched c cached path (switch_trunk c cached f path)
unfolding switch_trunk
switch_trunk-Switched c cached f path m h =
    elim (Bool-cases (nat_eq f cached.header.prev_blockhash)) [
      | inl e ↦ record {
        kept = length c.trunk;
        positive = h;
        unwinds = none;
        result = rw (e, take_all c.trunk (length c.trunk) (omega arith));
      }
      | inr e ↦
          let (i, q, g) = rposition-some c.trunk f m in
          elim (Bool-cases (ltb i (length c.trunk - 1))) [
            | inl l ↦ record {
              kept = i + 1;
              positive = omega arith;
              unwinds = some (reverse (drop (i + 1) c.trunk));
              result = rw (e, switch_trunk) (rw (q, l));
            }
            | inr l ↦ record {
              kept = length c.trunk;
              positive = h;
              unwinds = some [];
              result =
                  rw (e, switch_trunk) (rw (q, l, take_all c.trunk (length c.trunk) (omega arith)));
            }
          ]
    ]

rooted_take :
    (n : ℕ) (xs ys : List ℕ) {r : ℕ}
    → 0 < n
    → get_elem? xs 0 ≡ some r
    → get_elem? (take n xs ++ ys) 0 ≡ some r
rooted_take zero xs ys h e = absurd (omega arith)
rooted_take (suc n) [] ys h e = cc
rooted_take (suc n) (x ∷ xs) ys h e = e

-- A tree with one more header, whose parent is known.
module _ {root : ℕ} (c : HeaderCache) (t : IsTree root c) (cached prev : CachedHeader)
    (fresh : Map.get c.headers cached.id ≡ none)
    (found : Map.get c.headers cached.header.prev_blockhash ≡ some prev)
    (higher : cached.height ≡ suc prev.height) where
  abbrev pub with_header : HeaderCache
  with_header = record c { headers = Map.insert c.headers cached.id cached }

  pub get-with_header :
      (k : ℕ)
      → (e : CachedHeader) → Map.get c.headers k ≡ some e
      → Map.get with_header.headers k ≡ some e
  get-with_header k e g = elim (==_cases cached.id k) [
    | inl (b, p) ↦ let g' : Map.get c.headers cached.id ≡ some e = rw p g in absurd (cc)
    | inr (b, p) ↦ rw (get-insert c.headers cached.id cached k, b) g
  ]

  pub get-with_header_cases :
      (k : ℕ) (e : CachedHeader)
      → Map.get with_header.headers k ≡ some e
      → ((k ≡ cached.id) × (e ≡ cached)) ⊎ (Map.get c.headers k ≡ some e)
  get-with_header_cases k e g = elim (==_cases cached.id k) [
    | inl (b, p) ↦
        inl (sym p, sym (eq_of_some (rw (get-insert c.headers cached.id cached k, b) at g)))
    | inr (b, p) ↦ inr (rw (get-insert c.headers cached.id cached k, b) at g)
  ]

  pub with_header-IsTree : IsTree root with_header
  with_header-IsTree = record {
    rooted = t.rooted;
    known = λ h m. let (e, g) = t.known h m in (e, get-with_header h e g);
    parent = λ k e g. elim (get-with_header_cases k e g) [
      | inl (z, w) ↦
          inr (prev, rw w (get-with_header cached.header.prev_blockhash prev found), rw w higher)
      | inr g' ↦ elim (t.parent k e g') [
        | inl z ↦ inl z
        | inr (p, pg, ph) ↦ inr (p, get-with_header e.header.prev_blockhash p pg, ph)
      ]
    ];
  }

  -- A trunk of known ids that keeps the root is a tree again.
  pub switched-IsTree :
      (n : ℕ) (path : List ℕ)
      → 0 < n
      → ((h : ℕ) → In h path → (e : CachedHeader) × (Map.get with_header.headers h ≡ some e))
      → IsTree root (record with_header { trunk = take n c.trunk ++ path })
  switched-IsTree n path h k = record {
    rooted = rooted_take n c.trunk path h t.rooted;
    known = λ a m. elim (In-append_cases a (take n c.trunk) path m) [
      | inl l ↦ with_header-IsTree.known a (In-take a n c.trunk l)
      | inr r ↦ k a r
    ];
    parent = with_header-IsTree.parent;
  }

last_total : (xs : List ℕ) {r : ℕ} → get_elem? xs 0 ≡ some r → (h : ℕ) × (last xs ≡ some h)
unfolding last
last_total [] e = cc
last_total (x ∷ []) e = (x, refl)
last_total (x ∷ y ∷ xs) e = last_total (y ∷ xs) {r = y} refl

pub tip_of_last :
    (c : HeaderCache) (h : ℕ) (e : CachedHeader)
    → last c.trunk ≡ some h
    → Map.get c.headers h ≡ some e
    → tip c ≡ some e
unfolding tip
tip_of_last c h e l g = rw (l, tip) g

-- A trunk of known ids has a known last id, and so a tip.
pub tip_known :
    {root : ℕ} (c : HeaderCache)
    → IsTree root c
    → (h : ℕ) × (e : CachedHeader) × (last c.trunk ≡ some h) × (Map.get c.headers h ≡ some e)
tip_known c t =
    let (h, l) = last_total c.trunk t.rooted in
    let (e, g) = t.known h (last-In c.trunk l) in (h, e, l, g)

pub tip_total : {root : ℕ} (c : HeaderCache) → IsTree root c → (e : CachedHeader) × (tip c ≡ some e)
tip_total c t = let (h, e, l, g) = tip_known c t in (e, tip_of_last c h e l g)
