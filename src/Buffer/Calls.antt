-- ===== src/Buffer/Calls.antt =====
-- What the network layer uses of `Buffer`: its calls outside of a run, one by one.
use murmel.Common.{ℕ, ◌≤◌, ◌≡◌, ap, some, List, length, take, drop, ◌++◌, inl, inr, Option-cases}
use murmel.Buffer.{Buffer, read_advance, advance, commit, read_ahead, write}
use murmel.Buffer.Tape.{Tape, step, step_tape}
use murmel.Buffer.Refine.{IsValid, view}
use murmel.Buffer.Steps.{reads_refine, skips_refine, commits_refine, peeks_refine, writes_refine}

-- The bytes still to read of a buffer that a call has given.
pub record Leaves (b : Buffer) (rest : List ℕ) : Type 0 where
  pub valid : IsValid b
  pub shows : (view b).rest ≡ rest

module _ (b : Buffer) (v : IsValid b) where
  pub advance_lem :
      (n : ℕ)
      → n ≤ length (view b).rest
      → (r : ℕ × Buffer) × (advance b n ≡ some r) × Leaves r.1 (drop n (view b).rest)
  unfolding step step_tape
  advance_lem n h =
      let s = skips_refine b n v h in
      elim (Option-cases (advance b n)) [
        | inl e ↦ absurd (let f = s.result in cc)
        | inr (r, e) ↦
            let same : s.next ≡ r.1 = let f = s.result in cc in
            (
              r,
              e,
              rw (← same) (record { valid = s.valid; shows = ap (λ (t : Tape). t.rest) s.refines }),
            )
      ]

  pub read_lem :
      (n : ℕ)
      → (r : List ℕ × Buffer) × (read_advance b n ≡ some r)
        × (r.0 ≡ take n (view b).rest)
        × Leaves r.1 (drop n (view b).rest)
  unfolding step step_tape
  read_lem n =
      let s = reads_refine b n v in
      elim (Option-cases (read_advance b n)) [
        | inl e ↦ absurd (let f = s.result in cc)
        | inr (r, e) ↦
            let same : s.next ≡ r.1 = let f = s.result in cc in
            let read : r.0 ≡ take n (view b).rest = let f = s.result in cc in
            (
              r,
              e,
              read,
              rw (← same) (record { valid = s.valid; shows = ap (λ (t : Tape). t.rest) s.refines }),
            )
      ]

  pub commit_lem : (c : Buffer) × (commit b ≡ some c) × Leaves c (view b).rest
  unfolding step step_tape
  commit_lem =
      let s = commits_refine b v in
      elim (Option-cases (commit b)) [
        | inl e ↦ absurd (let f = s.result in cc)
        | inr (r, e) ↦
            let same : s.next ≡ r = let f = s.result in cc in
            (
              r,
              e,
              rw (← same) (record { valid = s.valid; shows = ap (λ (t : Tape). t.rest) s.refines }),
            )
      ]

  pub read_ahead_lem : (n : ℕ) → read_ahead b n ≡ some (take n (view b).rest)
  unfolding step step_tape
  read_ahead_lem n =
      let s = peeks_refine b n v in
      elim (Option-cases (read_ahead b n)) [
        | inl e ↦ absurd (let f = s.result in cc)
        | inr (r, e) ↦ let f = s.result in cc
      ]

  pub write_lem : (xs : List ℕ) → Leaves (write b xs).1 ((view b).rest ++ xs)
  unfolding step step_tape
  write_lem xs =
      let s = writes_refine b xs v in
      let same : s.next ≡ (write b xs).1 = let f = s.result in cc in
      rw (← same) (record { valid = s.valid; shows = ap (λ (t : Tape). t.rest) s.refines })
