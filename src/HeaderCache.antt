-- ===== src/HeaderCache.antt =====
-- `HeaderCache` of src/headercache.rs: all known headers, and the trunk, the ids of the chain with
-- most work from genesis to tip. Here: its state and what reads it.
pub mod Difficulty
pub mod Timespan
pub mod Add
pub mod Trunk
pub mod Tree
pub mod Store
pub mod Grow
pub mod Cases
pub mod Work
pub mod Chain
pub mod Bounds
pub mod Genesis
pub mod Scan
pub mod Finish
pub mod Extend
pub mod Usurp
pub mod Reorganise
pub mod Locator
pub mod Tests
pub mod ForkTests
use murmel.Common.{
  ℕ, zero, suc, ◌+◌, ◌-◌, ◌*◌, ◌%◌, ◌^◌, Bool, true, false, Option, none, some, List, [], ◌∷◌, ◌++◌,
  reverse, map, length, get_elem?, drop, ltb, leb, nat_eq, if◌then◌else◌, ℕ-Eq, ◌≡◌, refl,
}
use mathlib.Core.Option
use murmel.Common.Map
use murmel.External.{Network}
use murmel.Outcome.{Outcome, ok, err, panic, ◌>>=◌}
use murmel.Pow.{CachedHeader, StoredHeader, unwrap}

pub record HeaderCache : Type 0 where
  pub network : Network
  pub headers : List (ℕ × CachedHeader)
  pub trunk : List ℕ

unfoldable pub new : Network → HeaderCache
new network = record { network = network; headers = []; trunk = [] }

unfoldable pub add_header_unchecked : HeaderCache → ℕ → StoredHeader → HeaderCache
add_header_unchecked c id stored = record c {
  headers = Map.insert c.headers id (record { stored = stored; id = id });
  trunk = c.trunk ++ (id ∷ []);
}

unfoldable pub reverse_trunk : HeaderCache → HeaderCache
reverse_trunk c = record c { trunk = reverse c.trunk }

pub len : HeaderCache → ℕ
len c = length c.trunk

-- `Vec::last`.
unfoldable pub last {ℓ} : {A : Type ℓ} → List A → Option A
last [] = none
last (x ∷ []) = some x
last (x ∷ y ∷ xs) = last (y ∷ xs)

unfoldable pub tip_hash : HeaderCache → Option ℕ
unfolding last
tip_hash c = last c.trunk

unfoldable pub get_header : HeaderCache → ℕ → Option CachedHeader
get_header c id = Map.get c.headers id

unfoldable pub tip : HeaderCache → Option CachedHeader
unfolding tip_hash get_header
tip c = elim (tip_hash c) [ none ↦ none | some id ↦ get_header c id ]

-- `Iterator::position` of an id.
unfoldable pub position : List ℕ → ℕ → Option ℕ
position [] h = none
position (x ∷ xs) h = if nat_eq x h then some 0 else Option.map suc (position xs h)

-- `iter().rev().position(..)`, turned into an index from the front, cast to `u32`.
unfoldable pub pos_on_trunk : HeaderCache → ℕ → Option ℕ
unfolding position
pos_on_trunk c h =
    Option.map (λ p. (length c.trunk - p - 1) % 2 ^ 32) (position (reverse c.trunk) h)

-- The length is cast to `u32`.
unfoldable pub get_header_for_height : HeaderCache → ℕ → Outcome (Option CachedHeader)
get_header_for_height c height =
    if ltb height (length c.trunk % 2 ^ 32)
    then (do id ← unwrap (get_elem? c.trunk height); ok (Map.get c.headers id))
    else ok none

-- The headers of some ids, each `unwrap`ped.
unfoldable pub headers_of : HeaderCache → List ℕ → Outcome (List CachedHeader)
headers_of c [] = ok []
headers_of c (id ∷ ids) = do h ← unwrap (Map.get c.headers id); hs ← headers_of c ids; ok (h ∷ hs)

-- The iterators, run to their end.
unfoldable pub iter_trunk : HeaderCache → ℕ → Outcome (List CachedHeader)
unfolding headers_of
iter_trunk c from = headers_of c (drop from c.trunk)

-- `len - from` wraps (the release build), and then everything is skipped.
unfoldable pub iter_trunk_rev : HeaderCache → Option ℕ → Outcome (List CachedHeader)
unfolding headers_of
iter_trunk_rev c none = headers_of c (reverse c.trunk)
iter_trunk_rev c (some from) =
    if ltb (length c.trunk) from
    then ok []
    else headers_of c (drop (length c.trunk - from) (reverse c.trunk))

-- The loop of `locator_hashes` over the reversed trunk: `s` counts down to the next id to push.
unfoldable pub locator_loop : List ℕ → ℕ → ℕ → ℕ → List ℕ
locator_loop [] s skip count = []
locator_loop (h ∷ hs) zero skip count =
    let skip' = if ltb 10 (count + 1) then skip * 2 else skip in
    h ∷ locator_loop hs (skip - 1) skip' (count + 1)
locator_loop (h ∷ hs) (suc s) skip count = locator_loop hs s skip count

unfoldable pub locator_hashes : HeaderCache → List ℕ
unfolding locator_loop
locator_hashes c = locator_loop (reverse c.trunk) 0 1 0
