-- ===== src/Buffer/Steps.antt =====
-- Each method of `Buffer` against the tape.
use mathlib.Core.Option
use native.Mathlib.Nat.{sub-zero}
use murmel.Common.{
  ℕ, ◌+◌, ◌-◌, ◌≤◌, ◌≡◌, refl, ap, ap₂, sym, ◌∙◌, some, List, [], ◌∷◌, ◌++◌, length, min, take,
  drop, arith, inl, inr, length-take, length-drop, drop-append_le, take-append_le, append-nil,
  take-nil, lt-length_of_get_elem?,
}
use murmel.Buffer.{
  Buffer, read_loop, read_ahead, read_advance, advance, commit, rollback, write, append_last,
  rounds,
}
use murmel.Buffer.Position.{
  whole, InChunk, offset-le, from-drop, InChunk-drop, whole-append_last, InChunk-append_last,
  offset-append_last,
}
use murmel.Buffer.Content.{Took, read_loop-Took, advance_loop-eq}
use murmel.Buffer.Tape.{Tape, Op, step_tape, step}
use murmel.Buffer.Refine.{
  IsPos, IsValid, view, Refines, at, rest_from, moved-IsValid, view-moved, taken-append-rest,
  IsPos-drop,
}

-- `n` bytes, or as many as there are, are read in a buffer with a chunk.
pub loop-Took :
    (b : Buffer) (n : ℕ)
    → InChunk b.chunks b.pos.0 b.pos.1
    → Took b.chunks b.pos.0 b.pos.1 n [] (read_loop (rounds b) b.chunks b.pos.0 b.pos.1 n [])
loop-Took b n v = read_loop-Took (rounds b) b.chunks b.pos.0 b.pos.1 n [] v (omega arith)

module _ (b : Buffer) (n : ℕ) where
  read_advance_lem :
      InChunk b.chunks b.pos.0 b.pos.1
      → read_advance b n
        ≡ Option.map
            (λ r. (r.0, record b { pos = (r.1, r.2) }))
            (read_loop (rounds b) b.chunks b.pos.0 b.pos.1 n [])
  unfolding read_advance
  read_advance_lem (c, h, l) = ground arith

  read_ahead_lem :
      InChunk b.chunks b.pos.0 b.pos.1
      → read_ahead b n ≡ Option.map (λ r. r.0) (read_loop (rounds b) b.chunks b.pos.0 b.pos.1 n [])
  unfolding read_ahead
  read_ahead_lem (c, h, l) = ground arith

  advance_lem :
      advance b n
      ≡ Option.map
          (λ r. (length r.0, record b { pos = (r.1, r.2) }))
          (read_loop (rounds b) b.chunks b.pos.0 b.pos.1 n [])
  unfolding advance
  advance_lem = ground (arith, advance_loop-eq (rounds b) b.chunks b.pos.0 b.pos.1 n 0 [])

abbrev tape : List ℕ → List ℕ → Tape
tape xs ys = record { taken = xs; rest = ys }

-- The three methods that read come to the same position, and see the same bytes.
record Reads (b : Buffer) (n : ℕ) : Type 0 where
  q : ℕ × ℕ
  valid : IsPos b.chunks q
  moved : at b.chunks q ≡ at b.chunks b.pos + min n (length (view b).rest)
  ahead : read_ahead b n ≡ some (take n (view b).rest)
  advances : read_advance b n ≡ some (take n (view b).rest, record b { pos = q })
  skips :
      n ≤ length (view b).rest
      → advance b n ≡ some (min n (length (view b).rest), record b { pos = q })

Reads-empty : (b : Buffer) (n : ℕ) → b.chunks ≡ [] → IsPos b.chunks b.pos → Reads b n
unfolding read_ahead read_advance advance
Reads-empty b n e v =
    let empty : (view b).rest ≡ [] = rw e in
    record {
      q = b.pos;
      valid = v;
      moved = omega (arith, ap length empty);
      ahead = ground (arith, take-nil {A = ℕ} n);
      advances = ground (arith, take-nil {A = ℕ} n);
      skips = λ h. ground (arith, ap length empty);
    }

Reads-chunk : (b : Buffer) (n : ℕ) → InChunk b.chunks b.pos.0 b.pos.1 → Reads b n
Reads-chunk b n v =
    let t = loop-Took b n v in
    let e : n - 0 ≡ n = sub-zero n in
    let r : read_loop (rounds b) b.chunks b.pos.0 b.pos.1 n []
        ≡ some (take n (view b).rest, t.q0, t.q1) =
      rw e at t.result in
    record {
      q = (t.q0, t.q1);
      valid = inr t.valid;
      moved = rw e at t.moved;
      ahead = read_ahead_lem b n v ∙ ap (Option.map (λ r. r.0)) r;
      advances =
          read_advance_lem b n v ∙ ap (Option.map (λ r. (r.0, record b { pos = (r.1, r.2) }))) r;
      skips = λ h.
          advance_lem b n
          ∙ ap (Option.map (λ r. (length r.0, record b { pos = (r.1, r.2) }))) r
          ∙ ap (λ k. some (k, record b { pos = (t.q0, t.q1) })) (length-take n (view b).rest);
    }

reads_lem : (b : Buffer) (n : ℕ) → IsPos b.chunks b.pos → Reads b n
reads_lem b n (inl v) = Reads-empty b n v.0 (inl v)
reads_lem b n (inr v) = Reads-chunk b n v

pub reads_refine : (b : Buffer) (n : ℕ) → IsValid b → Refines b (Op.reads n)
unfolding step step_tape
reads_refine b n v =
    let r = reads_lem b n v.pos_in in
    record {
      next = record b { pos = r.q };
      result = rw r.advances;
      valid = moved-IsValid b v r.q r.valid n r.moved;
      refines = view-moved b v r.q r.valid n r.moved;
    }

pub peeks_refine : (b : Buffer) (n : ℕ) → IsValid b → Refines b (Op.peeks n)
unfolding step step_tape
peeks_refine b n v =
    let r = reads_lem b n v.pos_in in
    record { next = b; result = rw r.ahead; valid = v; refines = refl }

-- `advance` is called with no more bytes than are there.
pub skips_refine :
    (b : Buffer) (n : ℕ) → IsValid b → n ≤ length (view b).rest → Refines b (Op.skips n)
unfolding step step_tape
skips_refine b n v h =
    let r = reads_lem b n v.pos_in in
    record {
      next = record b { pos = r.q };
      result = rw (r.skips h);
      valid = moved-IsValid b v r.q r.valid n r.moved;
      refines = view-moved b v r.q r.valid n r.moved;
    }

pub rolls_back_refine : (b : Buffer) → IsValid b → Refines b Op.rolls_back
unfolding step step_tape rollback
rolls_back_refine b v = record {
  next = rollback b;
  result = refl;
  valid = record {
    pos_in = v.checkpoint_in;
    checkpoint_in = v.checkpoint_in;
    ordered = omega arith;
  };
  refines =
      ap₂ tape (ap (λ k. take k (rest_from b.chunks b.checkpoint)) {y = 0} (omega arith))
        (sym (taken-append-rest b v));
}

-- What `rollback` leaves.
pub rollback_lem :
    (b : Buffer)
    → IsValid b
    → IsValid (rollback b)
      × (view (rollback b) ≡ record { taken = []; rest = (view b).taken ++ (view b).rest })
unfolding rolls_back_refine step_tape rollback
rollback_lem b v = ((rolls_back_refine b v).valid, (rolls_back_refine b v).refines)

-- What a position shows after a commit.
IsPos-commit :
    (chunks : List (List ℕ)) (p : ℕ × ℕ) → IsPos chunks p → IsPos (drop p.0 chunks) (0, p.1)
IsPos-commit chunks p (inl (e, z, w)) = rw (e, z, w) (inl (refl, refl, refl))
IsPos-commit chunks p (inr v) = inr (InChunk-drop chunks p.0 p.1 v)

at-committed : (chunks : List (List ℕ)) (k : ℕ) → at chunks (0, k) ≡ k
at-committed [] k = refl
at-committed (c ∷ chunks) k = refl

pos-le-chunks : (b : Buffer) → IsPos b.chunks b.pos → b.pos.0 ≤ length b.chunks
pos-le-chunks b (inl (e, z, w)) = omega arith
pos-le-chunks b (inr (c, h, l)) = omega (arith, lt-length_of_get_elem? b.chunks b.pos.0 h)

abbrev committed : Buffer → Buffer
committed b = record {
  chunks = drop b.pos.0 b.chunks;
  pos = (0, b.pos.1);
  checkpoint = (0, b.pos.1);
}

commit_lem : (b : Buffer) → IsPos b.chunks b.pos → commit b ≡ some (committed b)
unfolding commit
commit_lem b v = ground (arith, pos-le-chunks b v)

pub commits_refine : (b : Buffer) → IsValid b → Refines b Op.commits
unfolding step step_tape
commits_refine b v = record {
  next = committed b;
  result = rw (commit_lem b v.pos_in);
  valid = record {
    pos_in = IsPos-commit b.chunks b.pos v.pos_in;
    checkpoint_in = IsPos-commit b.chunks b.pos v.pos_in;
    ordered = omega arith;
  };
  refines =
      ap₂ tape
        (ap (λ k. take k (rest_from (drop b.pos.0 b.chunks) (0, b.pos.1))) {y = 0} (omega arith))
        (from-drop b.chunks b.pos.0 b.pos.1);
}

at-le : (chunks : List (List ℕ)) (p : ℕ × ℕ) → IsPos chunks p → at chunks p ≤ length (whole chunks)
at-le chunks p (inl (e, z, w)) = rw (e, w) (omega arith)
at-le chunks p (inr v) = offset-le chunks p.0 p.1 v

-- What a position shows after a write: the old bytes, and then the new ones.
module _ (chunks : List (List ℕ)) (bytes : List ℕ) (p : ℕ × ℕ) where
  IsPos-write : IsPos chunks p → IsPos (append_last chunks bytes) p
  unfolding append_last
  IsPos-write (inl (e, z, w)) = rw (e, z, w) (inr (bytes, refl, omega arith))
  IsPos-write (inr v) = inr (InChunk-append_last chunks bytes p.0 p.1 v)

  at-write : IsPos chunks p → at (append_last chunks bytes) p ≡ at chunks p
  unfolding append_last
  at-write (inl (e, z, w)) = rw (e, z, w)
  at-write (inr v) = offset-append_last chunks bytes p.0 p.1 v

  rest_from-write :
      IsPos chunks p → rest_from (append_last chunks bytes) p ≡ rest_from chunks p ++ bytes
  rest_from-write v =
      IsPos-drop (append_last chunks bytes) p (IsPos-write v)
      ∙ ap₂ drop (at-write v) (whole-append_last chunks bytes)
      ∙ drop-append_le (at chunks p) (whole chunks) bytes (at-le chunks p v)
      ∙ ap (◌++ bytes) (sym (IsPos-drop chunks p v))

pub writes_refine : (b : Buffer) (xs : List ℕ) → IsValid b → Refines b (Op.writes xs)
unfolding step step_tape write
writes_refine b [] v = record {
  next = b;
  result = refl;
  valid = v;
  refines = ap₂ tape refl (sym (append-nil (view b).rest));
}
writes_refine b (x ∷ xs) v = record {
  next = record b { chunks = append_last b.chunks (x ∷ xs) };
  result = refl;
  valid = record {
    pos_in = IsPos-write b.chunks (x ∷ xs) b.pos v.pos_in;
    checkpoint_in = IsPos-write b.chunks (x ∷ xs) b.checkpoint v.checkpoint_in;
    ordered = omega (arith, v.ordered, at_pos, at_checkpoint);
  };
  refines = ap₂ tape taken (rest_from-write b.chunks (x ∷ xs) b.pos v.pos_in);
}
  where
    at_pos : at (append_last b.chunks (x ∷ xs)) b.pos ≡ at b.chunks b.pos
    at_pos = at-write b.chunks (x ∷ xs) b.pos v.pos_in

    at_checkpoint : at (append_last b.chunks (x ∷ xs)) b.checkpoint ≡ at b.chunks b.checkpoint
    at_checkpoint = at-write b.chunks (x ∷ xs) b.checkpoint v.checkpoint_in

    taken :
        take
          (at (append_last b.chunks (x ∷ xs)) b.pos
            - at (append_last b.chunks (x ∷ xs)) b.checkpoint)
          (rest_from (append_last b.chunks (x ∷ xs)) b.checkpoint)
        ≡ (view b).taken
    taken =
        ap₂ take (omega (arith, at_pos, at_checkpoint))
          (rest_from-write b.chunks (x ∷ xs) b.checkpoint v.checkpoint_in)
        ∙ take-append_le (at b.chunks b.pos - at b.chunks b.checkpoint)
            (rest_from b.chunks b.checkpoint) (x ∷ xs)
            (omega (
              arith,
              at-le b.chunks b.pos v.pos_in,
              ap length (IsPos-drop b.chunks b.checkpoint v.checkpoint_in),
              length-drop (at b.chunks b.checkpoint) (whole b.chunks),
            ))
