-- ===== src/P2p/Stored.antt =====
-- What writing leaves alone in a peer of src/p2p.rs: all but the queue, the write buffer and the
-- registration.
use murmel.Common.{
  ℕ, zero, suc, min, true, false, Option, none, some, List, [], ◌∷◌, length, drop, nat_eq, inl, inr,
  Bool-cases, Option-cases, List-cases,
}
use murmel.Buffer.{Buffer, read_ahead, io_buffer_size}
use murmel.Outcome.{Outcome-cases}
use murmel.Network.{PeerId}
use murmel.P2p.{Peer, P2PConfig, System, reregister_read}
use murmel.P2p.Stable.{Queues}
use murmel.P2p.Write.{Writing, take_out, write_out, finish_write, refill, write_turn, write_loop}

module _ {Message : Type 0} (P : Peer Message → Type 0)
    (stored : (p : Peer Message) (b : Buffer) → P p → P (record p { write_buffer = b })) where
  write_out-Stored :
      (answers : List (Option ℕ)) (bytes : List ℕ) (w : Writing Message)
      → P w.peer
      → P (write_out answers bytes w).0.peer
  unfolding write_out
  write_out-Stored [] bytes w h = h
  write_out-Stored (none ∷ answers) bytes w h = h
  write_out-Stored (some taken ∷ answers) bytes w h =
      let n = min taken (length bytes) in
      elim (Bool-cases (nat_eq n 0)) [
        | inl z ↦ rw (z, write_out) h
        | inr z ↦ elim (Option-cases (take_out w.peer.write_buffer n)) [
          | inl e ↦ rw (z, write_out) (rw (e, write_out) h)
          | inr (b, e) ↦ elim (Bool-cases (nat_eq n (length bytes))) [
            | inl f ↦ rw (z, write_out) (rw (e, write_out) (rw (f, write_out) (stored w.peer b h)))
            | inr f ↦
                rw (z, write_out)
                  (rw (e, write_out)
                    (rw (f, write_out)
                      (write_out-Stored answers (drop n bytes) _ (stored w.peer b h))))
          ]
        ]
      ]

  finish_write-Stored : (w : Writing Message) → P w.peer → P (finish_write w).0.peer
  unfolding finish_write
  finish_write-Stored w h = elim (Option-cases (read_ahead w.peer.write_buffer io_buffer_size)) [
    | inl e ↦ rw (e, finish_write) h
    | inr ([], e) ↦ rw (e, finish_write) h
    | inr (x ∷ xs, e) ↦ rw (e, finish_write) (write_out-Stored w.answers (x ∷ xs) w h)
  ]

  module _ {Envelope : Type 0} (cfg : P2PConfig Message Envelope) (sys : System) (pid : PeerId)
      (s : Queues P) where
    refill-Stored : (w : Writing Message) → P w.peer → P (refill cfg sys pid w).0.peer
    unfolding refill reregister_read
    refill-Stored w h = elim (List-cases w.peer.queue) [
      | inl e ↦ elim (Bool-cases w.peer.writeable) [
        | inl f ↦ rw (e, refill) (rw (f, reregister_read) (s.registered w.peer false h))
        | inr f ↦ rw (e, refill) (rw (f, reregister_read) h)
      ]
      | inr (m, ms, e) ↦ rw (e, refill) (stored _ _ (s.queued w.peer ms h))
    ]

    write_turn-Stored : (w : Writing Message) → P w.peer → P (write_turn cfg sys pid w).0.peer
    unfolding write_turn
    write_turn-Stored w h =
        let g = finish_write-Stored w h in
        elim (Outcome-cases (finish_write w).1) [
          | inl (true, o) ↦ rw (o, write_turn) (refill-Stored (finish_write w).0 g)
          | inl (false, o) ↦ rw (o, write_turn) g
          | inr (inl (f, o)) ↦ rw (o, write_turn) g
          | inr (inr (inl o)) ↦ rw (o, write_turn) g
          | inr (inr (inr o)) ↦ rw (o, write_turn) g
        ]

    pub write_loop-Stored :
        (fuel : ℕ) (w : Writing Message) → P w.peer → P (write_loop cfg sys pid fuel w).0.peer
    unfolding write_loop
    write_loop-Stored zero w h = h
    write_loop-Stored (suc fuel) w h =
        let g = write_turn-Stored w h in
        elim (Outcome-cases (write_turn cfg sys pid w).1) [
          | inl (true, o) ↦
              rw (o, write_loop) (write_loop-Stored fuel (write_turn cfg sys pid w).0 g)
          | inl (false, o) ↦ rw (o, write_loop) g
          | inr (inl (f, o)) ↦ rw (o, write_loop) g
          | inr (inr (inl o)) ↦ rw (o, write_loop) g
          | inr (inr (inr o)) ↦ rw (o, write_loop) g
        ]
