-- ===== src/P2p/StallTests.antt =====
-- A peer with one byte more to send than the buffer of the loop of src/p2p.rs holds.
use murmel.Common.{
  ℕ, zero, suc, true, ◌+◌, ◌<◌, ◌≡◌, refl, ap, some, List, [], ◌∷◌, ◌++◌, length, length-append,
  take, arith,
}
use murmel.Buffer.{Buffer, io_buffer_size}
use murmel.Buffer
use murmel.Buffer.Refine.{view}
use murmel.Buffer.Calls.{Leaves, write_lem}
use murmel.Buffer.Run.{new-IsValid}
use murmel.P2p.{Peer}
use murmel.P2p.Tests.{numbers, quiet_system, pid, new_peer}
use murmel.P2p.Write.{write_loop, starts}
use murmel.P2p.Stall.{write_loop-stalls}

zeros : ℕ → List ℕ
zeros zero = []
zeros (suc n) = 0 ∷ zeros n

length-zeros : (n : ℕ) → length (zeros n) ≡ n
unfolding zeros
length-zeros zero = refl
length-zeros (suc n) = ap suc (length-zeros n)

abbrev stuffed : Buffer
stuffed = (Buffer.write Buffer.new (zeros (io_buffer_size + 1))).1

stuffed-Leaves : Leaves stuffed ((view Buffer.new).rest ++ zeros (io_buffer_size + 1))
stuffed-Leaves = write_lem Buffer.new new-IsValid.0 (zeros (io_buffer_size + 1))

length-stuffed : io_buffer_size < length (view stuffed).rest
length-stuffed =
    let bytes = zeros (io_buffer_size + 1) in
    omega (
      arith,
      ap length stuffed-Leaves.shows,
      length-append (view Buffer.new).rest bytes,
      length-zeros (io_buffer_size + 1),
    )

abbrev burdened : Peer ℕ
burdened = record new_peer { queue = []; writeable = true; write_buffer = stuffed }

write_loop-stalls_example :
    (write_loop numbers quiet_system pid 3 (
      starts numbers quiet_system pid burdened
        (some io_buffer_size ∷ some io_buffer_size ∷ []))).0.sent
    ≡ take io_buffer_size (view stuffed).rest
write_loop-stalls_example =
    (write_loop-stalls numbers quiet_system pid burdened (some io_buffer_size ∷ []) io_buffer_size
      stuffed-Leaves.valid (omega arith) length-stuffed refl refl).1
