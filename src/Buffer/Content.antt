-- ===== src/Buffer/Content.antt =====
-- What the loops of `Buffer` read, and where they leave the position.
use murmel.Common.{
  ℕ, zero, suc, ◌+◌, ◌-◌, ◌≤◌, ◌<◌, ◌≡◌, refl, ap, sym, ◌∙◌, Option, some, List, ◌++◌, length, min,
  get_elem?, take, drop, arith, append-nil, length-append, take-append_le, take-append_ge, take_all,
  length-take, length-drop, append_assoc, Option-cases, inl, inr, lt-length_of_get_elem?,
  get_elem?_total,
}
use mathlib.Core.Option
use native.Mathlib.Decide.{dec_le}
use murmel.Buffer.{read_loop, advance_loop}
use murmel.Buffer.Position.{
  whole, from, offset, InChunk, from_in_chunk, from_next, from_last, offset_next, offset_add,
}

-- The three ways in which a round of the loop goes, once `current` is found.
module _ (fuel : ℕ) (chunks : List (List ℕ)) (p0 p1 n : ℕ) (acc : List ℕ) where
  read_loop_done : n ≤ length acc → read_loop (suc fuel) chunks p0 p1 n acc ≡ some (acc, p0, p1)
  unfolding read_loop
  read_loop_done h = ground arith

  module _ {c : List ℕ} (at : get_elem? chunks p0 ≡ some c) (le : p1 ≤ length c)
      (more : length acc < n) where
    read_loop_within :
        n - length acc < length c - p1
        → read_loop (suc fuel) chunks p0 p1 n acc
          ≡ read_loop fuel chunks p0
              (p1 + (n - length acc))
              n
              (acc ++ take (n - length acc) (drop p1 c))
    unfolding read_loop
    read_loop_within h = ground arith

    read_loop_next :
        length c - p1 ≤ n - length acc
        → suc p0 < length chunks
        → read_loop (suc fuel) chunks p0 p1 n acc
          ≡ read_loop fuel chunks (suc p0) 0 n (acc ++ drop p1 c)
    unfolding read_loop
    read_loop_next h l = ground (arith, length-drop p1 c, take_all (drop p1 c) (length c - p1))

    read_loop_last :
        length c - p1 ≤ n - length acc
        → length chunks ≤ suc p0
        → read_loop (suc fuel) chunks p0 p1 n acc ≡ some (acc ++ drop p1 c, p0, length c)
    unfolding read_loop
    read_loop_last h l = ground (arith, length-drop p1 c, take_all (drop p1 c) (length c - p1))

-- What the loop has done that started at `p0`, `p1` with `acc`: it took the next bytes, up to `n`.
pub record Took (chunks : List (List ℕ)) (p0 p1 n : ℕ) (acc : List ℕ) (r : Option (List ℕ × ℕ × ℕ))
    : Type 0 where
  pub q0 : ℕ
  pub q1 : ℕ
  pub result : r ≡ some (acc ++ take (n - length acc) (from chunks p0 p1), q0, q1)
  pub valid : InChunk chunks q0 q1
  pub moved :
      offset chunks q0 q1 ≡ offset chunks p0 p1 + min (n - length acc) (length (from chunks p0 p1))

Took-done :
    (fuel : ℕ) (chunks : List (List ℕ)) (p0 p1 n : ℕ) (acc : List ℕ)
    → InChunk chunks p0 p1
    → n ≤ length acc
    → Took chunks p0 p1 n acc (read_loop (suc fuel) chunks p0 p1 n acc)
Took-done fuel chunks p0 p1 n acc v h = record {
  q0 = p0;
  q1 = p1;
  result =
      read_loop_done fuel chunks p0 p1 n acc h
      ∙ ap (λ l. some (l, p0, p1))
          (rw (let e : n - length acc ≡ 0 = omega arith in e) (sym (append-nil acc)));
  valid = v;
  moved = omega arith;
}

module _ (fuel : ℕ) (chunks : List (List ℕ)) (p0 p1 n : ℕ) (acc : List ℕ) {c : List ℕ}
    (at : get_elem? chunks p0 ≡ some c) (le : p1 ≤ length c) (more : length acc < n) where
  -- The rest of the chunk holds what is still wanted.
  Took-within :
      n - length acc < length c - p1
      → Took chunks p0 p1 n acc (read_loop (suc (suc fuel)) chunks p0 p1 n acc)
  Took-within h = record {
    q0 = p0;
    q1 = p1 + (n - length acc);
    result =
        read_loop_within (suc fuel) chunks p0 p1 n acc at le more h
        ∙ read_loop_done fuel chunks p0 (p1 + (n - length acc)) n _ (
            omega (
              arith,
              length-append acc (take (n - length acc) (drop p1 c)),
              length-take (n - length acc) (drop p1 c),
              length-drop p1 c,
            ))
        ∙ ap (λ l. some (acc ++ l, p0, p1 + (n - length acc)))
            (rw (from_in_chunk chunks p0 p1 at) (
              sym
                (take-append_le (n - length acc) (drop p1 c) _ (omega (arith, length-drop p1 c)))));
    valid = (c, at, omega arith);
    moved = omega (
      arith,
      offset_add chunks p0 p1 (n - length acc),
      ap length (from_in_chunk chunks p0 p1 at),
      length-append (drop p1 c) (whole (drop (suc p0) chunks)),
      length-drop p1 c,
    );
  }

  -- The rest of the last chunk is read, and there is no more.
  Took-last :
      length c - p1 ≤ n - length acc
      → length chunks ≤ suc p0
      → Took chunks p0 p1 n acc (read_loop (suc fuel) chunks p0 p1 n acc)
  Took-last h l = record {
    q0 = p0;
    q1 = length c;
    result =
        read_loop_last fuel chunks p0 p1 n acc at le more h l
        ∙ ap (λ l. some (acc ++ l, p0, length c))
            (rw (from_last chunks p0 p1 at l)
              (sym (take_all (drop p1 c) (n - length acc) (omega (arith, length-drop p1 c)))));
    valid = (c, at, omega arith);
    moved = omega (
      arith,
      offset_add chunks p0 p1 (length c - p1),
      ap (offset chunks p0) (let e : p1 + (length c - p1) ≡ length c = omega arith in e),
      ap length (from_last chunks p0 p1 at l),
      length-drop p1 c,
    );
  }

  -- The rest of a chunk is read, and the loop goes on with the next.
  Took-next :
      length c - p1 ≤ n - length acc
      → suc p0 < length chunks
      → Took chunks
          (suc p0)
          0
          n
          (acc ++ drop p1 c)
          (read_loop fuel chunks (suc p0) 0 n (acc ++ drop p1 c))
      → Took chunks p0 p1 n acc (read_loop (suc fuel) chunks p0 p1 n acc)
  Took-next h l r = record {
    q0 = r.q0;
    q1 = r.q1;
    result =
        read_loop_next fuel chunks p0 p1 n acc at le more h l
        ∙ r.result
        ∙ ap (λ l. some (l, r.q0, r.q1))
            (rw
              (
                from_next chunks p0 p1 at l,
                take-append_ge (drop p1 c) (from chunks (suc p0) 0) (n - length acc)
                    (omega (arith, length-drop p1 c)),
                append_assoc,
              )
              (ap (λ k. acc ++ (drop p1 c ++ take k (from chunks (suc p0) 0)))
                (omega (arith, length-append acc (drop p1 c)))));
    valid = r.valid;
    moved = omega (
      arith,
      r.moved,
      offset_next chunks p0 at l,
      offset_add chunks p0 p1 (length c - p1),
      ap (offset chunks p0) (let e : p1 + (length c - p1) ≡ length c = omega arith in e),
      ap length (from_next chunks p0 p1 at l),
      length-append (drop p1 c) (from chunks (suc p0) 0),
      length-append acc (drop p1 c),
      length-drop p1 c,
    );
  }

-- With enough rounds the loop neither panics nor stops short.
pub read_loop-Took :
    (fuel : ℕ) (chunks : List (List ℕ)) (p0 p1 n : ℕ) (acc : List ℕ)
    → InChunk chunks p0 p1
    → length chunks < fuel + p0
    → Took chunks p0 p1 n acc (read_loop fuel chunks p0 p1 n acc)
read_loop-Took zero chunks p0 p1 n acc (c, at, le) f =
    absurd (omega (arith, lt-length_of_get_elem? chunks p0 at))
read_loop-Took (suc zero) chunks p0 p1 n acc (c, at, le) f =
    absurd (omega (arith, lt-length_of_get_elem? chunks p0 at))
read_loop-Took (suc (suc fuel)) chunks p0 p1 n acc (c, at, le) f = elim (dec_le n (length acc)) [
  | yes h ↦ Took-done (suc fuel) chunks p0 p1 n acc (c, at, le) h
  | no more ↦ elim (dec_le (length c - p1) (n - length acc)) [
    | no h ↦ Took-within fuel chunks p0 p1 n acc at le (omega arith) (omega arith)
    | yes h ↦ elim (dec_le (length chunks) (suc p0)) [
      | yes l ↦ Took-last (suc fuel) chunks p0 p1 n acc at le (omega arith) h l
      | no l ↦
          let (d, at') = get_elem?_total chunks (suc p0) (omega arith) in
          Took-next (suc fuel) chunks p0 p1 n acc at le (omega arith) h (omega arith) (
            read_loop-Took (suc fuel) chunks (suc p0) 0 n (acc ++ drop p1 c) (d, at', omega arith)
              (omega arith))
    ]
  ]
]

-- `advance` goes where a read of as many bytes goes.
pub advance_loop-eq :
    (fuel : ℕ) (chunks : List (List ℕ)) (p0 p1 n have : ℕ) (acc : List ℕ)
    → have ≡ length acc
    → advance_loop fuel chunks p0 p1 n have
      ≡ Option.map (λ r. (length r.0, r.1, r.2)) (read_loop fuel chunks p0 p1 n acc)
unfolding advance_loop read_loop
advance_loop-eq zero chunks p0 p1 n have acc e = refl
advance_loop-eq (suc fuel) chunks p0 p1 n have acc e = elim (Option-cases (get_elem? chunks p0)) [
  | inl h ↦ ground arith
  | inr (c, h) ↦
      let k = min (n - have) (length c - p1) in
      let acc' = acc ++ take k (drop p1 c) in
      ground (
        arith,
        advance_loop-eq fuel chunks p0 (p1 + k) n (have + k) acc',
        advance_loop-eq fuel chunks (p0 + 1) 0 n (have + k) acc',
        length-append acc (take k (drop p1 c)),
        length-take k (drop p1 c),
        length-drop p1 c,
      )
]
