-- ===== src/P2p/FlowTests.antt =====
-- Runs of the writing half of `event_processor` of src/p2p.rs at small inputs.
use murmel.Common.{
  ℕ, ◌+◌, ◌≤◌, ◌≡◌, refl, ap, length, true, Option, none, some, List, [], ◌∷◌, ◌++◌, arith,
}
use murmel.Buffer.{io_buffer_size}
use murmel.Buffer
use murmel.Buffer.Refine.{view}
use murmel.Buffer.Tape.{Tape}
use murmel.Buffer.Run.{new-IsValid}
use murmel.P2p.{Peer}
use murmel.P2p.Tests.{numbers, quiet_system, pid, new_peer}
use murmel.P2p.Write.{Writing, write_loop, starts}
use murmel.P2p.Flow.{Written, write_loop-Written}
use murmel.P2p.Blocked.{write_loop-blocked}
use murmel.P2p.Sends.{TakeAll, write_loop-sends}

-- A peer with two messages to send.
abbrev writer : Peer ℕ
writer = record new_peer { queue = 4 ∷ 5 ∷ []; writeable = true; write_buffer = Buffer.new }

abbrev one_byte : ℕ → List ℕ
one_byte e = e ∷ []

abbrev answers : List (Option ℕ)
answers = some 1 ∷ none ∷ []

abbrev writing : Writing ℕ
writing = starts numbers quiet_system pid writer answers

write_loop-Written_example :
    Written numbers quiet_system pid one_byte writing
      (write_loop numbers quiet_system pid 5 writing)
write_loop-Written_example =
    write_loop-Written numbers quiet_system pid one_byte (λ e b. refl) 5 writing new-IsValid.0
      (omega arith)

write_loop-blocked_example :
    (write_loop numbers quiet_system pid 3 (starts numbers quiet_system pid writer [])).0.sent ≡ []
write_loop-blocked_example =
    (write_loop-blocked numbers quiet_system pid one_byte (λ e b. refl) writer new-IsValid.0 refl).1

open_answers : TakeAll (some io_buffer_size ∷ some io_buffer_size ∷ some io_buffer_size ∷ [])
open_answers = (omega arith, (omega arith, (omega arith, tt)))

nothing_written : length (view writer.write_buffer).rest + 2 ≤ io_buffer_size
nothing_written = omega (arith, ap (λ (t : Tape). length t.rest) new-IsValid.1)

write_loop-sends_example :
    (write_loop numbers quiet_system pid 6 (
      starts numbers quiet_system pid writer
        (some io_buffer_size ∷ some io_buffer_size ∷ some io_buffer_size ∷ []))).0.sent
    ≡ (view writer.write_buffer).rest ++ (4 ∷ 5 ∷ [])
write_loop-sends_example =
    (write_loop-sends numbers quiet_system pid one_byte (λ e b. refl) writer
      (some io_buffer_size ∷ some io_buffer_size ∷ some io_buffer_size ∷ []) new-IsValid.0
      open_answers (omega arith) nothing_written refl).1
