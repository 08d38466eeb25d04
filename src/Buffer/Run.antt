-- ===== src/Buffer/Run.antt =====
-- Any sequence of calls: the buffer answers as the tape does.
use murmel.Common.{◌≤◌, ◌≡◌, refl, ap, ◌∙◌, some, List, [], ◌∷◌, length, inl, inr, arith}
use murmel.Buffer.{Buffer, new, len}
use murmel.Buffer.Position.{length-from}
use murmel.Buffer.Tape.{
  Tape, Op, reads, peeks, skips, commits, rolls_back, writes, step_tape, run_tape, run,
}
use murmel.Buffer.Refine.{IsValid, view, Refines}
use murmel.Buffer.Steps.{
  reads_refine, peeks_refine, skips_refine, commits_refine, rolls_back_refine, writes_refine,
}

-- `advance` is called only with the count of bytes that `read_ahead` has shown.
abbrev pub IsLegal : Tape → Op → Type 0
IsLegal t (skips n) = n ≤ length t.rest
IsLegal t (reads n) = Unit
IsLegal t (peeks n) = Unit
IsLegal t commits = Unit
IsLegal t rolls_back = Unit
IsLegal t (writes xs) = Unit

abbrev pub AreLegal : Tape → List Op → Type 0
AreLegal t [] = Unit
AreLegal t (op ∷ ops) = IsLegal t op × AreLegal (step_tape t op).1 ops

-- Every legal call of a valid buffer succeeds, answers as the tape does, and leaves a valid buffer
-- that shows the tape's new state.
pub step_refines : (b : Buffer) (op : Op) → IsValid b → IsLegal (view b) op → Refines b op
step_refines b (reads n) v h = reads_refine b n v
step_refines b (peeks n) v h = peeks_refine b n v
step_refines b (skips n) v h = skips_refine b n v h
step_refines b commits v h = commits_refine b v
step_refines b rolls_back v h = rolls_back_refine b v
step_refines b (writes xs) v h = writes_refine b xs v

-- A buffer after a run, which is valid and shows the tape's state after the same run.
pub record RunsAs (b : Buffer) (ops : List Op) : Type 0 where
  pub last : Buffer
  pub result : run b ops ≡ some ((run_tape (view b) ops).0, last)
  pub valid : IsValid last
  pub refines : view last ≡ (run_tape (view b) ops).1

-- From a valid buffer every legal sequence of calls succeeds, returns exactly what the tape returns,
-- and ends in a valid buffer that shows the tape's final state.
pub run_refines : (b : Buffer) (ops : List Op) → IsValid b → AreLegal (view b) ops → RunsAs b ops
unfolding run run_tape
run_refines b [] v h = record { last = b; result = refl; valid = v; refines = refl }
run_refines b (op ∷ ops) v (h, hs) =
    let s = step_refines b op v h in
    let r = run_refines s.next ops s.valid (rw s.refines hs) in
    record {
      last = r.last;
      result = rw (s.result, run) (rw (r.result, s.refines));
      valid = r.valid;
      refines = r.refines ∙ ap (λ t. (run_tape t ops).1) s.refines;
    }

-- The buffer that `new` makes is valid, and its tape is empty.
pub new-IsValid : IsValid new × (view new ≡ record { taken = []; rest = [] })
unfolding new
new-IsValid = (
  record {
    pos_in = inl (refl, refl, refl);
    checkpoint_in = inl (refl, refl, refl);
    ordered = omega arith;
  },
  refl,
)

-- `len` of a valid buffer is the number of bytes still to read, and does not underflow.
pub len_lem : (b : Buffer) → IsValid b → len b ≡ some (length (view b).rest)
unfolding len
len_lem b v = elim v.pos_in [
  | inl (e, z, w) ↦ rw (e, z, w)
  | inr w ↦ ground (arith, length-from b.chunks b.pos.0 b.pos.1 w)
]
