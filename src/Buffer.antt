-- ===== src/Buffer.antt =====
-- `Buffer` of src/p2p.rs: a deque of chunks with a read position and a checkpoint.
-- A method returns the new buffer beside its result; `none` is a panic (a chunk index out of range,
-- or an underflow of `usize`). Sums of lengths are taken not to exceed `usize`.
pub mod Position
pub mod Content
pub mod Tape
pub mod Refine
pub mod Steps
pub mod Run
pub mod Calls
pub mod Tests
use murmel.Common.{
  ℕ, zero, suc, ◌+◌, ◌-◌, ◌*◌, Option, none, some, List, [], ◌∷◌, ◌++◌, min, max, length, get_elem?,
  take, drop, ltb, nat_eq, if◌then◌else◌, Bool, true, false, ◌||◌,
}

pub record Buffer : Type 0 where
  pub chunks : List (List ℕ)
  pub pos : ℕ × ℕ
  pub checkpoint : ℕ × ℕ

abbrev pub io_buffer_size : ℕ
io_buffer_size = 1024 * 1024

pub new : Buffer
new = record { chunks = []; pos = (0, 0); checkpoint = (0, 0) }

abbrev pub sum_len : List (List ℕ) → ℕ
sum_len [] = 0
sum_len (c ∷ cs) = length c + sum_len cs

pub len : Buffer → Option ℕ
len b =
    let total = sum_len (drop b.pos.0 b.chunks) in
    if ltb total b.pos.1 then none else some (total - b.pos.1)

pub rollback : Buffer → Buffer
rollback b = record b { pos = b.checkpoint }

-- `drain(0 .. pos.0)` panics past the end.
pub commit : Buffer → Option Buffer
commit b =
    if ltb (length b.chunks) b.pos.0
    then none
    else some
        (record { chunks = drop b.pos.0 b.chunks; pos = (0, b.pos.1); checkpoint = (0, b.pos.1) })

-- The loop of `read_ahead` and of `read_advance`, which have the same body: `n` is `buf.len()`, and
-- `acc` is `buf[0 .. have]`. It returns the bytes and the position.
unfoldable pub read_loop : ℕ → List (List ℕ) → ℕ → ℕ → ℕ → List ℕ → Option (List ℕ × ℕ × ℕ)
read_loop zero chunks p0 p1 n acc = none
read_loop (suc fuel) chunks p0 p1 n acc = elim (ltb (length acc) n) [
  | false ↦ some (acc, p0, p1)
  | true ↦ elim (get_elem? chunks p0) [
    | none ↦ none
    | some current ↦
        let available = min (n - length acc) (length current - p1) in
        let acc' = acc ++ take available (drop p1 current) in
        elim (ltb (length current) p1) [
          | true ↦ none
          | false ↦ elim (nat_eq (p1 + available) (length current)) [
            | false ↦ read_loop fuel chunks p0 (p1 + available) n acc'
            | true ↦ elim (ltb p0 (length chunks - 1)) [
              | true ↦ read_loop fuel chunks (p0 + 1) 0 n acc'
              | false ↦ some (acc', p0, p1 + available)
            ]
          ]
        ]
  ]
]

-- Each round ends a chunk or the loop.
abbrev pub rounds : Buffer → ℕ
rounds b = suc (length b.chunks)

-- The bytes that `read_ahead` puts into `buf[0 .. n]`; `self.pos` stays.
pub read_ahead : Buffer → ℕ → Option (List ℕ)
unfolding read_loop
read_ahead b n = elim b.chunks [
  | [] ↦ some []
  | _ ↦ elim (read_loop (rounds b) b.chunks b.pos.0 b.pos.1 n []) [
    | none ↦ none
    | some (bytes, p0, p1) ↦ some bytes
  ]
]

unfoldable pub read_advance : Buffer → ℕ → Option (List ℕ × Buffer)
unfolding read_loop
read_advance b n = elim b.chunks [
  | [] ↦ some ([], b)
  | _ ↦ elim (read_loop (rounds b) b.chunks b.pos.0 b.pos.1 n []) [
    | none ↦ none
    | some (bytes, p0, p1) ↦ some (bytes, record b { pos = (p0, p1) })
  ]
]

-- The loop of `advance`, which moves the position and copies nothing.
pub advance_loop : ℕ → List (List ℕ) → ℕ → ℕ → ℕ → ℕ → Option (ℕ × ℕ × ℕ)
advance_loop zero chunks p0 p1 n have = none
advance_loop (suc fuel) chunks p0 p1 n have = elim (ltb have n) [
  | false ↦ some (have, p0, p1)
  | true ↦ elim (get_elem? chunks p0) [
    | none ↦ none
    | some current ↦
        let available = min (n - have) (length current - p1) in
        elim (ltb (length current) p1) [
          | true ↦ none
          | false ↦ elim (nat_eq (p1 + available) (length current)) [
            | false ↦ advance_loop fuel chunks p0 (p1 + available) n (have + available)
            | true ↦ elim (ltb p0 (length chunks - 1)) [
              | true ↦ advance_loop fuel chunks (p0 + 1) 0 n (have + available)
              | false ↦ some (have + available, p0, p1 + available)
            ]
          ]
        ]
  ]
]

pub advance : Buffer → ℕ → Option (ℕ × Buffer)
unfolding advance_loop
advance b n = elim (advance_loop (rounds b) b.chunks b.pos.0 b.pos.1 n 0) [
  | none ↦ none
  | some (have, p0, p1) ↦ some (have, record b { pos = (p0, p1) })
]

-- The last chunk takes what still fits; otherwise a new chunk does. (Capacities are not modelled.)
pub append_last : List (List ℕ) → List ℕ → List (List ℕ)
append_last [] bytes = bytes ∷ []
append_last (c ∷ []) bytes =
    if ltb io_buffer_size (length bytes + length c) then c ∷ bytes ∷ [] else (c ++ bytes) ∷ []
append_last (c ∷ d ∷ cs) bytes = c ∷ append_last (d ∷ cs) bytes

-- `Write::write`, with the length that it returns.
unfoldable pub write : Buffer → List ℕ → ℕ × Buffer
unfolding append_last
write b [] = (0, b)
write b (x ∷ bytes) = (length (x ∷ bytes), record b { chunks = append_last b.chunks (x ∷ bytes) })
