-- ===== src/Buffer/Tests.antt =====
-- Runs of the buffer at small inputs.
use murmel.Common.{List, inr, arith, ◌≡◌, refl, some, [], ◌∷◌}
use murmel.Buffer.{Buffer, len, read_ahead, read_advance, advance}
use murmel.Buffer.Tape.{Op, step_tape, reads, skips, commits, rolls_back, writes}
use murmel.Buffer.Refine.{IsValid, view}
use murmel.Buffer.Run.{AreLegal, RunsAs, run_refines}

-- Two chunks, two bytes read since the checkpoint.
abbrev two_chunks : Buffer
two_chunks = record {
  chunks = (1 ∷ 2 ∷ 3 ∷ []) ∷ (4 ∷ 5 ∷ []) ∷ [];
  pos = (0, 2);
  checkpoint = (0, 0);
}

read_ahead-two_chunks : read_ahead two_chunks 2 ≡ some (3 ∷ 4 ∷ [])
unfolding read_ahead
read_ahead-two_chunks = refl

read_advance-two_chunks :
    read_advance two_chunks 9 ≡ some (3 ∷ 4 ∷ 5 ∷ [], record two_chunks { pos = (1, 2) })
unfolding read_advance
read_advance-two_chunks = refl

advance-two_chunks : advance two_chunks 1 ≡ some (1, record two_chunks { pos = (1, 0) })
unfolding advance
advance-two_chunks = refl

len-two_chunks : len two_chunks ≡ some 3
unfolding len
len-two_chunks = refl

two_chunks-IsValid : IsValid two_chunks
two_chunks-IsValid = record {
  pos_in = inr (1 ∷ 2 ∷ 3 ∷ [], refl, omega arith);
  checkpoint_in = inr (1 ∷ 2 ∷ 3 ∷ [], refl, omega arith);
  ordered = omega arith;
}

abbrev some_calls : List Op
some_calls = reads 2 ∷ commits ∷ reads 1 ∷ rolls_back ∷ skips 1 ∷ writes (6 ∷ []) ∷ []

some_calls-AreLegal : AreLegal (view two_chunks) some_calls
unfolding step_tape
some_calls-AreLegal = (tt, (tt, (tt, (tt, (omega arith, (tt, tt))))))

run_refines_example : RunsAs two_chunks some_calls
run_refines_example = run_refines two_chunks some_calls two_chunks-IsValid some_calls-AreLegal
