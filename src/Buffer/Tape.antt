-- ===== src/Buffer/Tape.antt =====
-- The abstract buffer: the bytes read since the last commit, and the bytes still to read.
use mathlib.Core.Option
use murmel.Common.{ℕ, List, [], ◌∷◌, ◌++◌, length, take, drop, min, Option, none, some}
use murmel.Buffer.{Buffer, read_ahead, read_advance, advance, commit, rollback, write}

pub record Tape : Type 0 where
  pub taken : List ℕ
  pub rest : List ℕ

-- A client's calls, and what each returns.
pub data Op : Type 0 where
  reads peeks skips : ℕ → Op
  commits rolls_back : Op
  writes : List ℕ → Op

pub data Reply : Type 0 where
  bytes : List ℕ → Reply
  count : ℕ → Reply
  done : Reply

abbrev pub advance_tape : Tape → ℕ → Tape
advance_tape t n = record { taken = t.taken ++ take n t.rest; rest = drop n t.rest }

unfoldable pub step_tape : Tape → Op → Reply × Tape
step_tape t (reads n) = (bytes (take n t.rest), advance_tape t n)
step_tape t (peeks n) = (bytes (take n t.rest), t)
step_tape t (skips n) = (count (min n (length t.rest)), advance_tape t n)
step_tape t commits = (done, record t { taken = [] })
step_tape t rolls_back = (done, record { taken = []; rest = t.taken ++ t.rest })
step_tape t (writes xs) = (count (length xs), record t { rest = t.rest ++ xs })

-- The same calls of the code; `none` is a panic.
unfoldable pub step : Buffer → Op → Option (Reply × Buffer)
step b (reads n) = Option.map (λ r. (bytes r.0, r.1)) (read_advance b n)
step b (peeks n) = Option.map (λ r. (bytes r, b)) (read_ahead b n)
step b (skips n) = Option.map (λ r. (count r.0, r.1)) (advance b n)
step b commits = Option.map (λ b'. (done, b')) (commit b)
step b rolls_back = some (done, rollback b)
step b (writes xs) = let (n, b') = write b xs in some (count n, b')

unfoldable pub run_tape : Tape → List Op → List Reply × Tape
run_tape t [] = ([], t)
run_tape t (op ∷ ops) =
    let (r, t') = step_tape t op in let (rs, t'') = run_tape t' ops in (r ∷ rs, t'')

unfoldable pub run : Buffer → List Op → Option (List Reply × Buffer)
run b [] = some ([], b)
run b (op ∷ ops) = elim (step b op) [
  | none ↦ none
  | some (r, b') ↦ Option.map (λ rest. (r ∷ rest.0, rest.1)) (run b' ops)
]
