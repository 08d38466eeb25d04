-- ===== src/P2p/Sends.antt =====
-- The writing half of `event_processor` in src/p2p.rs, when the stream takes all that it is given.
use murmel.Common.{
  ℕ, zero, suc, ◌+◌, ◌≤◌, ◌<◌, ◌≡◌, ◌≢◌, refl, sym, ap, ap₂, subst, ◌∙◌, min, Bool, true, false,
  Option, none, some, List, [], ◌∷◌, ◌++◌, inl, inr, length, take, arith, nat_eq, append-nil,
  take_all, drop_all, length-append, Bool-cases, Option-cases, List-cases,
}
use murmel.Buffer.{write, io_buffer_size}
use murmel.Buffer.Refine.{IsValid, view}
use murmel.Buffer.Calls.{read_ahead_lem, write_lem}
use murmel.Outcome.{Outcome, ok, Outcome-cases}
use murmel.Network.{PeerId}
use murmel.P2p.{Peer, P2PConfig, System, reregister_read}
use murmel.P2p.Write.{
  Writing, write_out, finish_write, refill, write_turn, write_loop, starts, write_rounds,
}
use murmel.P2p.Flow.{Appends, pending, write_loop-Written, take_out_lem}

-- Each answer takes a whole buffer of the loop.
abbrev pub TakeAll : List (Option ℕ) → Type 0
TakeAll [] = Unit
TakeAll (none ∷ answers) = ⊥
TakeAll (some n ∷ answers) = (io_buffer_size ≤ n) × TakeAll answers

module _ {Message : Type 0} where
  abbrev left : Writing Message → List ℕ
  left w = (view w.peer.write_buffer).rest

  -- The unfinished write is finished, with one answer at most.
  record Finished (w : Writing Message) (r : Writing Message × Outcome Bool) : Type 0 where
    pub result : r.1 ≡ ok true
    pub valid : IsValid r.0.peer.write_buffer
    pub empty : left r.0 ≡ []
    pub queue : r.0.peer.queue ≡ w.peer.queue
    pub takers : TakeAll r.0.answers
    pub answers : length w.answers ≤ suc (length r.0.answers)

  write_out-Finished :
      (n : ℕ) (answers : List (Option ℕ)) (w : Writing Message)
      → IsValid w.peer.write_buffer
      → w.answers ≡ some n ∷ answers
      → TakeAll w.answers
      → 0 < length (left w)
      → length (left w) ≤ io_buffer_size
      → Finished w (write_out w.answers (left w) w)
  unfolding write_out
  write_out-Finished n answers w v e o z l =
      let (u, os) = subst TakeAll e o in
      let m = min n (length (left w)) in
      let (c, f, k) = take_out_lem w.peer.write_buffer m v (omega arith) in
      let p : nat_eq m 0 ≡ false = ground (arith, z, u) in
      let q : nat_eq m (length (left w)) ≡ true = ground (arith, u, l) in
      rw (e, write_out)
        (rw (p, write_out)
          (rw (f, write_out)
            (rw (q, write_out)
              (record {
                result = refl;
                valid = k.valid;
                empty = k.shows ∙ drop_all (left w) m (omega (arith, u, l));
                queue = refl;
                takers = os;
                answers = omega (arith, ap length e);
              }))))

  finish_write-Finished :
      (w : Writing Message)
      → IsValid w.peer.write_buffer
      → TakeAll w.answers
      → 0 < length w.answers
      → length (left w) ≤ io_buffer_size
      → Finished w (finish_write w)
  unfolding finish_write
  finish_write-Finished w v o a l =
      let e = read_ahead_lem w.peer.write_buffer v io_buffer_size in
      let t : take io_buffer_size (left w) ≡ left w = take_all (left w) io_buffer_size l in
      elim (List-cases (left w)) [
        | inl f ↦
            rw (e, finish_write)
              (rw (t ∙ f, finish_write)
                (record {
                  result = refl;
                  valid = v;
                  empty = f;
                  queue = refl;
                  takers = o;
                  answers = omega arith;
                }))
        | inr (x, xs, f) ↦ elim (List-cases w.answers) [
          | inl g ↦ absurd (omega (arith, a, ap length g))
          | inr (none, more, g) ↦ absurd (subst TakeAll g o)
          | inr (some n, more, g) ↦
              rw (e, finish_write)
                (rw (t ∙ f, finish_write)
                  (rw (← f) (write_out-Finished n more w v g o (omega (arith, ap length f)) l)))
        ]
      ]

module _ {Message Envelope : Type 0} (cfg : P2PConfig Message Envelope) (sys : System)
    (pid : PeerId) (serialize : Envelope → List ℕ) (a : Appends cfg sys pid serialize) where
  abbrev to_send : Writing Message → ℕ
  to_send w = length (left w) + length (pending cfg sys pid serialize w.peer.queue)

  turn_lem :
      (w : Writing Message)
      → Finished w (finish_write w)
      → write_turn cfg sys pid w ≡ refill cfg sys pid (finish_write w).0
  unfolding write_turn
  turn_lem w s = rw (s.result, write_turn) refl

  refill_last :
      (w : Writing Message)
      → w.peer.queue ≡ []
      → ((refill cfg sys pid w).0.peer.write_buffer ≡ w.peer.write_buffer)
        × ((refill cfg sys pid w).1 ≢ ok true)
  unfolding refill reregister_read
  refill_last w e = elim (Bool-cases w.peer.writeable) [
    | inl f ↦ elim (Option-cases (sys.reregister pid)) [
      | inl s ↦ rw (e, refill) (rw (f, reregister_read) (rw (s, reregister_read) (refl, λ h. cc)))
      | inr (x, s) ↦
          rw (e, refill) (rw (f, reregister_read) (rw (s, reregister_read) (refl, λ h. cc)))
    ]
    | inr f ↦ rw (e, refill) (rw (f, reregister_read) (refl, λ h. cc))
  ]

  abbrev refilled : Writing Message → Message → List Message → Writing Message
  refilled w m ms = record w {
    peer = record w.peer {
      queue = ms;
      write_buffer = (write w.peer.write_buffer (serialize (cfg.wrap m))).1;
    };
  }

  refill_next :
      (w : Writing Message) (m : Message) (ms : List Message)
      → w.peer.queue ≡ m ∷ ms
      → refill cfg sys pid w ≡ (refilled w m ms, ok true)
  unfolding refill
  refill_next w m ms e = rw (e, refill) (rw (a (cfg.wrap m) w.peer.write_buffer, refill) refl)

  -- The loop after a turn.
  loop_stops :
      (fuel : ℕ) (w : Writing Message)
      → (write_turn cfg sys pid w).1 ≢ ok true
      → (write_loop cfg sys pid (suc fuel) w).0 ≡ (write_turn cfg sys pid w).0
  unfolding write_loop
  loop_stops fuel w n = elim (Outcome-cases (write_turn cfg sys pid w).1) [
    | inl (true, o) ↦ absurd (n o)
    | inl (false, o) ↦ rw (o, write_loop) refl
    | inr (inl (f, o)) ↦ rw (o, write_loop) refl
    | inr (inr (inl o)) ↦ rw (o, write_loop) refl
    | inr (inr (inr o)) ↦ rw (o, write_loop) refl
  ]

  loop_goes_on :
      (fuel : ℕ) (w v : Writing Message)
      → write_turn cfg sys pid w ≡ (v, ok true)
      → write_loop cfg sys pid (suc fuel) w ≡ write_loop cfg sys pid fuel v
  unfolding write_loop
  loop_goes_on fuel w v e =
      rw (ap (λ r. r.1) e, write_loop) (ap (λ r. write_loop cfg sys pid fuel r.0) e)

  -- Everything leaves the write buffer.
  write_loop-empties :
      (fuel : ℕ) (w : Writing Message)
      → IsValid w.peer.write_buffer
      → TakeAll w.answers
      → length w.peer.queue < length w.answers
      → to_send w ≤ io_buffer_size
      → length w.peer.queue < fuel
      → left (write_loop cfg sys pid fuel w).0 ≡ []
  write_loop-empties zero w v o l t f = absurd (omega (arith, f))
  write_loop-empties (suc fuel) w v o l t f =
      let s = finish_write-Finished w v o (omega (arith, l)) (omega (arith, t)) in
      let after = (finish_write w).0 in
      elim (List-cases after.peer.queue) [
        | inl e ↦
            let (k, n) = refill_last after e in
            let stops = loop_stops fuel w (rw (turn_lem w s) n) in
            ap left (stops ∙ ap (λ r. r.0) (turn_lem w s)) ∙ ap (λ b. (view b).rest) k ∙ s.empty
        | inr (m, ms, e) ↦
            let next = refilled after m ms in
            let k = write_lem after.peer.write_buffer s.valid (serialize (cfg.wrap m)) in
            let q : w.peer.queue ≡ m ∷ ms = sym s.queue ∙ e in
            let size : to_send next ≤ io_buffer_size = omega (
              arith,
              t,
              ap length k.shows,
              ap length s.empty,
              ap (λ l. length (pending cfg sys pid serialize l)) q,
              length-append (left after) (serialize (cfg.wrap m)),
              length-append (serialize (cfg.wrap m)) (pending cfg sys pid serialize ms),
            ) in
            ap (λ r. left r.0) (loop_goes_on fuel w next (turn_lem w s ∙ refill_next after m ms e))
            ∙ write_loop-empties fuel next k.valid s.takers
                (omega (arith, l, s.answers, ap length q)) size (omega (arith, f, ap length q))
      ]

  -- If the stream takes all it is given, as often as there are queued messages and once more, if the
  -- bytes of a peer fit into the buffer of the loop, and if the poll takes the registration, then a
  -- write event sends everything: first what the write buffer held, then the queued messages in order.
  -- It ends well, with the write buffer and the queue empty. The write buffer is valid before.
  pub write_loop-sends :
      (p : Peer Message) (answers : List (Option ℕ))
      → IsValid p.write_buffer
      → TakeAll answers
      → length p.queue < length answers
      → length (view p.write_buffer).rest + length (pending cfg sys pid serialize p.queue)
        ≤ io_buffer_size
      → sys.reregister pid ≡ none
      → let w = starts cfg sys pid p answers in
        let r = write_loop cfg sys pid (write_rounds cfg sys pid w) w in
        (r.1 ≡ ok tt)
        × (r.0.sent ≡ (view p.write_buffer).rest ++ pending cfg sys pid serialize p.queue)
        × ((view r.0.peer.write_buffer).rest ≡ [])
        × (r.0.peer.queue ≡ [])
  write_loop-sends p answers v o l t s =
      let w = starts cfg sys pid p answers in
      let fuel = write_rounds cfg sys pid w in
      let r = (write_loop cfg sys pid fuel w).0 in
      let empty = write_loop-empties fuel w v o l t (omega arith) in
      let t = write_loop-Written cfg sys pid serialize a fuel w v (omega arith) in
      elim t.result [
        | inl (e, q, u) ↦ (
          e,
          sym (append-nil r.sent)
              ∙ sym (append-nil (r.sent ++ []))
              ∙ ap₂ (λ l q. (r.sent ++ l) ++ pending cfg sys pid serialize q) (sym empty) (sym q)
              ∙ t.keeps,
          empty,
          q,
        )
        | inr (e, f, g) ↦ absurd (cc)
      ]
