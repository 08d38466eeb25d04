-- ===== src/P2p/Stall.antt =====
-- A write buffer larger than the buffer of the loop in `event_processor` of src/p2p.rs.
use murmel.Common.{
  ℕ, suc, ◌+◌, ◌≤◌, ◌<◌, ◌≡◌, refl, ap, ap₂, ◌∙◌, min, true, false, Option, none, some, List, [],
  ◌∷◌, inl, inr, length, take, drop, arith, nat_eq, take_all, length-take, Bool-cases, List-cases,
}
use murmel.Buffer.{io_buffer_size}
use murmel.Buffer.Refine.{IsValid, view}
use murmel.Buffer.Calls.{read_ahead_lem}
use murmel.Outcome.{ok}
use murmel.Network.{PeerId}
use murmel.P2p.{Peer, P2PConfig, System, reregister_read}
use murmel.P2p.Write.{
  Writing, write_out, finish_write, refill, write_turn, write_loop, starts, write_rounds,
}
use murmel.P2p.Flow.{take_out_lem}

module _ {Message : Type 0} (p : Peer Message) (answers : List (Option ℕ)) (n : ℕ)
    (v : IsValid p.write_buffer) (o : io_buffer_size ≤ n)
    (l : io_buffer_size < length (view p.write_buffer).rest) where
  abbrev rest : List ℕ
  rest = (view p.write_buffer).rest

  abbrev first : List ℕ
  first = take io_buffer_size rest

  abbrev before : Writing Message
  before = record { peer = p; answers = some n ∷ answers; sent = [] }

  -- One mebibyte has left.
  abbrev IsCut : Writing Message → Type 0
  IsCut w =
      (w.sent ≡ first)
      × ((view w.peer.write_buffer).rest ≡ drop io_buffer_size rest)
      × (w.peer.queue ≡ p.queue)
      × (w.answers ≡ answers)

  write_out-IsCut : let r = write_out (some n ∷ answers) first before in (r.1 ≡ ok true) × IsCut r.0
  unfolding write_out
  write_out-IsCut =
      let m = min n (length first) in
      let full : length first ≡ io_buffer_size =
        omega (arith, length-take io_buffer_size rest, l) in
      let size : m ≡ io_buffer_size = omega (arith, full, o) in
      let (c, f, k) = take_out_lem p.write_buffer m v (omega (arith, size, l)) in
      let started : nat_eq m 0 ≡ false = ground (arith, size) in
      let whole : nat_eq m (length first) ≡ true = ground (arith, size, full) in
      rw (started, write_out)
        (rw (f, write_out)
          (rw (whole, write_out)
            (
              refl,
              (
                take_all first m (omega (arith, size, full)),
                k.shows ∙ ap (λ i. drop i rest) size,
                refl,
                refl,
              ),
            )))

  finish_write-IsCut : let r = finish_write before in (r.1 ≡ ok true) × IsCut r.0
  unfolding finish_write
  finish_write-IsCut =
      let e = read_ahead_lem p.write_buffer v io_buffer_size in
      elim (List-cases first) [
        | inl f ↦ absurd (omega (arith, length-take io_buffer_size rest, ap length f, l))
        | inr (x, xs, f) ↦ rw (e, finish_write) (rw (f, finish_write) (rw (← f) write_out-IsCut))
      ]

module _ {Message Envelope : Type 0} (cfg : P2PConfig Message Envelope) (sys : System)
    (pid : PeerId) where
  -- Registered for reading only.
  abbrev resting : Writing Message → Writing Message
  resting w = record w { peer = record w.peer { writeable = false } }

  refill-resting :
      (w : Writing Message)
      → w.peer.queue ≡ []
      → sys.reregister pid ≡ none
      → refill cfg sys pid w ≡ (resting w, ok false)
  unfolding refill reregister_read
  refill-resting w q s = elim (Bool-cases w.peer.writeable) [
    | inl f ↦
        rw (q, refill)
          (rw (f, reregister_read)
            (rw s (
              ap
                (λ z.
                  (record w { peer = record w.peer { queue = z; writeable = false } }, ok false))
                q)))
    | inr f ↦
        rw (q, refill)
          (rw (f, reregister_read)
            (ap₂ (λ z b. (record w { peer = record w.peer { queue = z; writeable = b } }, ok false))
              q f))
  ]

  write_loop-resting :
      (fuel : ℕ) (w : Writing Message)
      → (finish_write w).1 ≡ ok true
      → (finish_write w).0.peer.queue ≡ []
      → sys.reregister pid ≡ none
      → write_loop cfg sys pid (suc fuel) w ≡ (resting (finish_write w).0, ok tt)
  unfolding write_loop write_turn
  write_loop-resting fuel w o q s =
      let turn : write_turn cfg sys pid w ≡ (resting (finish_write w).0, ok false) =
        rw (o, write_turn) (refill-resting (finish_write w).0 q s) in
      rw (ap (λ r. r.1) turn, write_loop) (ap (λ r. (r.0, ok tt)) turn)

  -- A write buffer that holds more than a mebibyte, for a peer with no queued message: the write event
  -- ends well after the first mebibyte, though the stream takes all it is given and may take more. The
  -- rest stays in the write buffer, and the peer is registered for reading only, if the poll takes the
  -- registration. The write buffer is valid before.
  pub write_loop-stalls :
      (p : Peer Message) (answers : List (Option ℕ)) (n : ℕ)
      → IsValid p.write_buffer
      → io_buffer_size ≤ n
      → io_buffer_size < length (view p.write_buffer).rest
      → p.queue ≡ []
      → sys.reregister pid ≡ none
      → let w = starts cfg sys pid p (some n ∷ answers) in
        let r = write_loop cfg sys pid (write_rounds cfg sys pid w) w in
        (r.1 ≡ ok tt)
        × (r.0.sent ≡ take io_buffer_size (view p.write_buffer).rest)
        × ((view r.0.peer.write_buffer).rest ≡ drop io_buffer_size (view p.write_buffer).rest)
        × (r.0.peer.writeable ≡ false)
        × (r.0.answers ≡ answers)
  write_loop-stalls p answers n v o l q s =
      let w = starts cfg sys pid p (some n ∷ answers) in
      let (goes, (sent, left, queue, asked)) = finish_write-IsCut p answers n v o l in
      let e =
        write_loop-resting (length (some n ∷ answers) + length p.queue) w goes (queue ∙ q) s in
      (
        ap (λ r. r.1) e,
        ap (λ r. r.0.sent) e ∙ sent,
        ap (λ r. (view r.0.peer.write_buffer).rest) e ∙ left,
        ap (λ r. r.0.peer.writeable) e,
        ap (λ r. r.0.answers) e ∙ asked,
      )
