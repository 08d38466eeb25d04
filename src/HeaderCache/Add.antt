-- ===== src/HeaderCache/Add.antt =====
-- `add_header` and `add_header_to_tree` of src/headercache.rs. An operation returns the new cache
-- beside its result, since a header that is stored stays stored when a later step fails.
use mathlib.Core.Option
use murmel.Common.{
  ℕ, zero, suc, ◌+◌, ◌-◌, ◌%◌, ◌^◌, not, Option, none, some, List, [], ◌∷◌, ◌++◌, reverse, length,
  take, drop, ltb, nat_eq, if◌then◌else◌, ℕ-Eq,
}
use murmel.Common.Map
use murmel.External.{BlockHeader, External, default}
use murmel.Outcome.{
  Outcome, ok, err, panic, unfinished, unconnected_header, no_tip, spv_bad_proof_of_work, ◌>>=◌,
}
use murmel.Pow.{CachedHeader, StoredHeader, spv_validate, log2, exp2}
use murmel.HeaderCache.{HeaderCache, tip, position, pos_on_trunk}
use murmel.HeaderCache.Difficulty.{required_work}

-- What a new header gives: itself, the ids that leave the trunk, and the ids that join it.
pub record Added : Type 0 where
  pub cached : CachedHeader
  pub unwinds : Option (List ℕ)
  pub forwards : Option (List ℕ)

-- `rposition`: the last index of an id.
unfoldable pub rposition : List ℕ → ℕ → Option ℕ
unfolding position
rposition xs h = Option.map (λ p. length xs - p - 1) (position (reverse xs) h)

-- The loop that looks for the fork: where it ends, and `path_to_new_tip`.
unfoldable pub path_loop : ℕ → HeaderCache → ℕ → List ℕ → Outcome (ℕ × List ℕ)
path_loop zero c forks_at path = unfinished
path_loop (suc fuel) c forks_at path = elim (pos_on_trunk c forks_at) [
  | some _ ↦ ok (forks_at, path)
  | none ↦ elim (Map.get c.headers forks_at) [
    | none ↦ err unconnected_header
    | some h ↦ path_loop fuel c h.header.prev_blockhash (path ++ (h.header.prev_blockhash ∷ []))
  ]
]

-- The trunk is cut behind the fork and extended by the path.
unfoldable pub switch_trunk : HeaderCache → CachedHeader → ℕ → List ℕ → HeaderCache × Outcome Added
switch_trunk c cached forks_at path =
    if not (nat_eq forks_at cached.header.prev_blockhash)
    then elim (rposition c.trunk forks_at) [
      | none ↦ (c, err unconnected_header)
      | some pos ↦
          if ltb pos (length c.trunk - 1)
          then (
            record c { trunk = take (pos + 1) c.trunk ++ path },
            ok (record {
              cached = cached;
              unwinds = some (reverse (drop (pos + 1) c.trunk));
              forwards = some path;
            }),
          )
          else (
            record c { trunk = c.trunk ++ path },
            ok (record { cached = cached; unwinds = some []; forwards = some path }),
          )
    ]
    else (
      record c { trunk = c.trunk ++ path },
      ok (record { cached = cached; unwinds = none; forwards = some path }),
    )

-- The rest of `add_header_to_tree`, once `tip` has less work than the stored header. A path is no
-- longer than the height of the header before.
unfoldable pub follow_path : HeaderCache → CachedHeader → ℕ → HeaderCache × Outcome Added
follow_path c cached height = elim (path_loop (height + 2) c cached.header.prev_blockhash []) [
  | ok (forks_at, path) ↦ switch_trunk c cached forks_at (reverse path ++ (cached.id ∷ []))
  | err e ↦ (c, err e)
  | panic ↦ (c, panic)
  | unfinished ↦ (c, unfinished)
]

abbrev pub some_added : HeaderCache × Outcome Added → HeaderCache × Outcome (Option Added)
some_added (c, r) = (c, (r >>= λ a. ok (some a)))

module _ (x : External) where
  open x use {bitcoin_hash, header_work, uint, float}

  -- The header with its height and work, if its target is as required and its id is below it.
  unfoldable pub validated : HeaderCache → CachedHeader → BlockHeader → Outcome CachedHeader
  validated c prev next = do
    required ← required_work x c prev next
    before ← exp2 x prev.log2work
    total ← log2 x (uint.add (header_work next) before)
    let stored : StoredHeader = record {
      header = next;
      height = (prev.height + 1) % 2 ^ 32;
      log2work = total;
    }
    let cached : CachedHeader = record { stored = stored; id = bitcoin_hash next }
    elim (spv_validate x cached required) [
      | ok _ ↦ ok cached
      | err _ ↦ err spv_bad_proof_of_work
      | panic ↦ panic
      | unfinished ↦ unfinished
    ]

  -- What follows once the header is validated: it is stored, and may become the tip.
  unfoldable pub store_cached :
      HeaderCache → CachedHeader → CachedHeader → HeaderCache × Outcome Added
  store_cached c prev cached =
      let c' = record c { headers = Map.insert c.headers cached.id cached } in
      elim (tip c') [
        | none ↦ (c', err no_tip)
        | some t ↦
            if float.lt t.log2work cached.log2work
            then follow_path c' cached prev.height
            else (c', ok (record { cached = cached; unwinds = none; forwards = none }))
      ]

  unfoldable pub add_header_to_tree :
      HeaderCache → CachedHeader → BlockHeader → HeaderCache × Outcome Added
  add_header_to_tree c prev next = elim (validated c prev next) [
    | ok cached ↦ store_cached c prev cached
    | err e ↦ (c, err e)
    | panic ↦ (c, panic)
    | unfinished ↦ (c, unfinished)
  ]

  -- `Ok(None)` is `ok none`.
  unfoldable pub insert_genesis : HeaderCache → BlockHeader → HeaderCache × Outcome (Option Added)
  insert_genesis c header = elim (log2 x (header_work header)) [
    | ok total ↦
        let new_tip = bitcoin_hash header in
        let stored : CachedHeader = record {
          stored = record { header = header; height = 0; log2work = total };
          id = new_tip;
        } in
        (
          record c {
            headers = Map.insert c.headers new_tip stored;
            trunk = c.trunk ++ (new_tip ∷ []);
          },
          ok (some (record { cached = stored; unwinds = none; forwards = some (new_tip ∷ []) })),
        )
    | err e ↦ (c, err e)
    | panic ↦ (c, panic)
    | unfinished ↦ (c, unfinished)
  ]

  unfoldable pub add_header : HeaderCache → BlockHeader → HeaderCache × Outcome (Option Added)
  add_header c header = elim (Map.get c.headers (bitcoin_hash header)) [
    | some _ ↦ (c, ok none)
    | none ↦
        if not (nat_eq header.prev_blockhash default)
        then elim (Map.get c.headers header.prev_blockhash) [
          | none ↦ (c, err unconnected_header)
          | some previous ↦ some_added (add_header_to_tree c previous header)
        ]
        else insert_genesis c header
  ]
