-- ===== src/P2p/Decode.antt =====
-- `decode` of src/p2p.rs loses no byte of a message that has not arrived in full.
use murmel.Common.{
  ℕ, ◌≡◌, refl, ap, sym, ◌∙◌, none, some, List, [], ◌∷◌, ◌++◌, take, drop, append_assoc,
  take-append-drop,
}
use murmel.Buffer.{Buffer}
use murmel.Buffer.Tape.{Tape, Op, reads, Reply, step_tape, run_tape, run, advance_tape}
use murmel.Buffer.Refine.{IsValid, view}
use murmel.Buffer.Steps.{rollback_lem}
use murmel.Buffer.Run.{AreLegal, run_refines}
use murmel.Outcome.{ok}
use murmel.P2p.Bitcoin.{Decoded, unexpected_eof, decode}

-- Calls of `read`.
abbrev pub reading : List ℕ → List Op
reading [] = []
reading (n ∷ ns) = reads n ∷ reading ns

pub reading-AreLegal : (t : Tape) (ns : List ℕ) → AreLegal t (reading ns)
reading-AreLegal t [] = tt
reading-AreLegal t (n ∷ ns) = (tt, reading-AreLegal (step_tape t (reads n)).1 ns)

-- Reading moves bytes, and keeps them in order.
reading-keeps :
    (t : Tape) (ns : List ℕ)
    → (run_tape t (reading ns)).1.taken ++ (run_tape t (reading ns)).1.rest ≡ t.taken ++ t.rest
unfolding run_tape step_tape
reading-keeps t [] = refl
reading-keeps t (n ∷ ns) =
    reading-keeps (advance_tape t n) ns
    ∙ (append_assoc t.taken (take n t.rest) (drop n t.rest)
        ∙ ap (t.taken ++◌) (take-append-drop n t.rest))

-- If the decoder only reads and comes to the end of the bytes, then `decode` gives no message and no
-- error, and leaves a valid buffer that shows, still to be read, all bytes since the last commit. The
-- buffer is valid before.
pub decode-incomplete :
    (consensus_decode : Buffer → Buffer × Decoded) (src b : Buffer) (ns : List ℕ)
    (replies : List Reply)
    → IsValid src
    → run src (reading ns) ≡ some (replies, b)
    → consensus_decode src ≡ (b, unexpected_eof)
    → ((decode consensus_decode src).1 ≡ ok none)
      × IsValid (decode consensus_decode src).0
      × (view (decode consensus_decode src).0
          ≡ record { taken = []; rest = (view src).taken ++ (view src).rest })
unfolding decode step_tape
decode-incomplete consensus_decode src b ns replies v r d =
    let w = run_refines src (reading ns) v (reading-AreLegal (view src) ns) in
    let e : w.last ≡ b = cc in
    let d0 : (consensus_decode src).0 ≡ w.last = ap (λ (p : Buffer × Decoded). p.0) d ∙ sym e in
    let d1 : (consensus_decode src).1 ≡ unexpected_eof = ap (λ (p : Buffer × Decoded). p.1) d in
    let back = rollback_lem w.last w.valid in
    rw (d1, decode)
      (rw d0 (
        refl,
        back.0,
        (back.1
            ∙ ap (λ (xs : List ℕ). record { taken = []; rest = xs })
                (ap (λ (t : Tape). t.taken ++ t.rest) w.refines ∙ reading-keeps (view src) ns)),
      ))
