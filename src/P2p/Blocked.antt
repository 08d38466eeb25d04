-- ===== src/P2p/Blocked.antt =====
-- A stream that takes nothing, or everything, in the writing half of `event_processor` (src/p2p.rs).
use murmel.Common.{
  ℕ, zero, suc, ◌≡◌, refl, sym, ap₂, ◌∙◌, true, false, none, List, [], ◌∷◌, ◌++◌, inl, inr, arith,
  append-nil, Option-cases, List-cases,
}
use murmel.Buffer.{read_ahead, io_buffer_size}
use murmel.Buffer.Refine.{IsValid, view}
use murmel.Outcome.{ok, Outcome-cases}
use murmel.Network.{PeerId}
use murmel.P2p.{Peer, P2PConfig, System}
use murmel.P2p.Write.{
  Writing, write_out, finish_write, refill, write_turn, write_loop, starts, write_rounds,
}
use murmel.P2p.Flow.{Appends, pending, write_loop-Written}

module _ {Message Envelope : Type 0} (cfg : P2PConfig Message Envelope) (sys : System)
    (pid : PeerId) where
  -- Nothing leaves, and nothing will.
  abbrev Shut : Writing Message → Writing Message → Type 0
  Shut w v = (v.sent ≡ w.sent) × (v.answers ≡ [])

  finish_write-Shut : (w : Writing Message) → w.answers ≡ [] → Shut w (finish_write w).0
  unfolding finish_write write_out
  finish_write-Shut w e = elim (Option-cases (read_ahead w.peer.write_buffer io_buffer_size)) [
    | inl f ↦ rw (f, finish_write) (refl, e)
    | inr ([], f) ↦ rw (f, finish_write) (refl, e)
    | inr (x ∷ xs, f) ↦ rw (f, finish_write) (rw (e, write_out) (refl, refl))
  ]

  refill-Shut : (w v : Writing Message) → Shut w v → Shut w (refill cfg sys pid v).0
  unfolding refill
  refill-Shut w v s = elim (List-cases v.peer.queue) [
    | inl e ↦ rw (e, refill) s
    | inr (m, ms, e) ↦ rw (e, refill) s
  ]

  write_turn-Shut : (w : Writing Message) → w.answers ≡ [] → Shut w (write_turn cfg sys pid w).0
  unfolding write_turn
  write_turn-Shut w e =
      let s = finish_write-Shut w e in
      elim (Outcome-cases (finish_write w).1) [
        | inl (true, o) ↦ rw (o, write_turn) (refill-Shut w (finish_write w).0 s)
        | inl (false, o) ↦ rw (o, write_turn) s
        | inr (inl (f, o)) ↦ rw (o, write_turn) s
        | inr (inr (inl o)) ↦ rw (o, write_turn) s
        | inr (inr (inr o)) ↦ rw (o, write_turn) s
      ]

  write_loop-Shut :
      (fuel : ℕ) (w : Writing Message)
      → w.answers ≡ []
      → (write_loop cfg sys pid fuel w).0.sent ≡ w.sent
  unfolding write_loop
  write_loop-Shut zero w e = refl
  write_loop-Shut (suc fuel) w e =
      let (s, a) = write_turn-Shut w e in
      elim (Outcome-cases (write_turn cfg sys pid w).1) [
        | inl (true, o) ↦
            rw (o, write_loop) (write_loop-Shut fuel (write_turn cfg sys pid w).0 a ∙ s)
        | inl (false, o) ↦ rw (o, write_loop) s
        | inr (inl (f, o)) ↦ rw (o, write_loop) s
        | inr (inr (inl o)) ↦ rw (o, write_loop) s
        | inr (inr (inr o)) ↦ rw (o, write_loop) s
      ]

module _ {Message Envelope : Type 0} (cfg : P2PConfig Message Envelope) (sys : System)
    (pid : PeerId) (serialize : Envelope → List ℕ) where
  -- If every write of an event would block and the poll takes the registration, then the event ends
  -- with nothing sent: all bytes, those of the queued messages too, are in the write buffer, and the
  -- peer, with an empty queue, is registered for reading only. The write buffer is valid, and encoding
  -- appends bytes.
  pub write_loop-blocked :
      Appends cfg sys pid serialize
      → (p : Peer Message) → IsValid p.write_buffer
      → sys.reregister pid ≡ none
      → let r =
          write_loop cfg sys pid
            (write_rounds cfg sys pid (starts cfg sys pid p []))
            (starts cfg sys pid p []) in
        (r.1 ≡ ok tt)
        × (r.0.sent ≡ [])
        × (r.0.peer.queue ≡ [])
        × (r.0.peer.writeable ≡ false)
        × ((view r.0.peer.write_buffer).rest
            ≡ (view p.write_buffer).rest ++ pending cfg sys pid serialize p.queue)
  write_loop-blocked a p v s =
      let w = starts cfg sys pid p [] in
      let fuel = write_rounds cfg sys pid w in
      let r = (write_loop cfg sys pid fuel w).0 in
      let shut = write_loop-Shut cfg sys pid fuel w refl in
      let t = write_loop-Written cfg sys pid serialize a fuel w v (omega arith) in
      elim t.result [
        | inl (o, q, u) ↦ (
          o,
          shut,
          q,
          u,
          sym (append-nil (view r.peer.write_buffer).rest)
              ∙ ap₂
                  (λ l q. (l ++ (view r.peer.write_buffer).rest) ++ pending cfg sys pid serialize q)
                  (sym shut) (sym q)
              ∙ t.keeps,
        )
        | inr (e, f, o) ↦ absurd (cc)
      ]
