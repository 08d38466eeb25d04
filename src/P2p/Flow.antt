-- ===== src/P2p/Flow.antt =====
-- The writing half of `event_processor` in src/p2p.rs loses, repeats and reorders no byte.
use murmel.Common.{
  ℕ, zero, suc, ◌≤◌, ◌<◌, ◌≡◌, refl, sym, ap, ap₂, ◌∙◌, min, Bool, true, false, Option, none, some,
  List, [], ◌∷◌, ◌++◌, ◌⊎◌, inl, inr, length, take, drop, arith, nat_eq, append_assoc,
  take-append-drop, drop-append_le, length-append, Bool-cases, Option-cases, List-cases,
}
use murmel.Buffer.{Buffer, write, io_buffer_size}
use murmel.Buffer.Refine.{IsValid, view}
use murmel.Buffer.Calls.{Leaves, advance_lem, commit_lem, read_ahead_lem, write_lem}
use murmel.Outcome.{Foreign, Outcome, ok, err, io}
use murmel.Network.{PeerId}
use murmel.P2p.{P2PConfig, System, reregister_read}
use murmel.P2p.Write.{
  Writing, take_out, with_store, write_out, finish_write, refill, write_turn, write_loop,
  write_rounds,
}

pub take_out_lem :
    (b : Buffer) (n : ℕ)
    → IsValid b
    → n ≤ length (view b).rest
    → (c : Buffer) × (take_out b n ≡ some c) × Leaves c (drop n (view b).rest)
unfolding take_out
take_out_lem b n v h =
    let (r, e, l) = advance_lem b v n h in
    let (c, f, k) = commit_lem r.1 l.valid in
    (c, rw (e, take_out) f, record { valid = k.valid; shows = k.shows ∙ l.shows })

module _ {Message : Type 0} where
  -- The bytes that left the peer, and those that its write buffer holds.
  abbrev pub stream : Writing Message → List ℕ
  stream w = w.sent ++ (view w.peer.write_buffer).rest

  -- What a write changes: the buffer, and the bytes that left.
  pub record Wrote (w : Writing Message) (r : Writing Message × Outcome Bool) : Type 0 where
    pub valid : IsValid r.0.peer.write_buffer
    pub keeps : stream r.0 ≡ stream w
    pub queue : r.0.peer.queue ≡ w.peer.queue
    pub fewer : length r.0.answers ≤ length w.answers
    pub result : (r.1 ≡ ok true) ⊎ ((r.1 ≡ ok false) × (length r.0.answers < length w.answers))

  write_out-Wrote :
      (answers : List (Option ℕ)) (bytes tail : List ℕ) (w : Writing Message)
      → length answers ≤ length w.answers
      → IsValid w.peer.write_buffer
      → (view w.peer.write_buffer).rest ≡ bytes ++ tail
      → Wrote w (write_out answers bytes w)
  unfolding write_out
  write_out-Wrote [] bytes tail w l v h = record {
    valid = v;
    keeps = refl;
    queue = refl;
    fewer = omega arith;
    result = inl refl;
  }
  write_out-Wrote (none ∷ answers) bytes tail w l v h = record {
    valid = v;
    keeps = refl;
    queue = refl;
    fewer = omega (arith, l);
    result = inl refl;
  }
  write_out-Wrote (some taken ∷ answers) bytes tail w l v h =
      let n = min taken (length bytes) in
      elim (Bool-cases (nat_eq n 0)) [
        | inl z ↦
            rw (z, write_out)
              (record {
                valid = v;
                keeps = refl;
                queue = refl;
                fewer = omega (arith, l);
                result = inr (refl, omega (arith, l));
              })
        | inr z ↦
            let rest = (view w.peer.write_buffer).rest in
            let (c, e, k) =
              take_out_lem w.peer.write_buffer n v
                (omega (arith, ap length h, length-append bytes tail)) in
            let wrote : Writing Message = record (with_store w c) {
              answers = answers;
              sent = w.sent ++ take n bytes;
            } in
            let left : (view c).rest ≡ drop n bytes ++ tail =
              k.shows ∙ ap (drop n) h ∙ drop-append_le n bytes tail (omega arith) in
            let same : stream wrote ≡ stream w =
              rw (left, h, append_assoc)
                (ap (w.sent ++◌) (
                  sym (append_assoc (take n bytes) (drop n bytes) tail)
                  ∙ ap (◌++ tail) (take-append-drop n bytes))) in
            elim (Bool-cases (nat_eq n (length bytes))) [
              | inl f ↦
                  rw (z, write_out)
                    (rw (e, write_out)
                      (rw (f, write_out)
                        (record {
                          valid = k.valid;
                          keeps = same;
                          queue = refl;
                          fewer = omega (arith, l);
                          result = inl refl;
                        })))
              | inr f ↦
                  let r =
                    write_out-Wrote answers (drop n bytes) tail wrote (omega arith) k.valid left in
                  rw (z, write_out)
                    (rw (e, write_out)
                      (rw (f, write_out)
                        (record {
                          valid = r.valid;
                          keeps = r.keeps ∙ same;
                          queue = r.queue;
                          fewer = omega (arith, l, r.fewer);
                          result = elim r.result [
                            | inl o ↦ inl o
                            | inr (o, s) ↦ inr (o, omega (arith, l, s))
                          ];
                        })))
            ]
      ]

  finish_write-Wrote :
      (w : Writing Message) → IsValid w.peer.write_buffer → Wrote w (finish_write w)
  unfolding finish_write
  finish_write-Wrote w v =
      let rest = (view w.peer.write_buffer).rest in
      let e = read_ahead_lem w.peer.write_buffer v io_buffer_size in
      elim (List-cases (take io_buffer_size rest)) [
        | inl h ↦
            rw (e, finish_write)
              (rw (h, finish_write)
                (record {
                  valid = v;
                  keeps = refl;
                  queue = refl;
                  fewer = omega arith;
                  result = inl refl;
                }))
        | inr (x, xs, h) ↦
            rw (e, finish_write)
              (rw (h, finish_write)
                (write_out-Wrote w.answers (x ∷ xs) (drop io_buffer_size rest) w (omega arith) v (
                  sym (take-append-drop io_buffer_size rest)
                  ∙ ap (◌++ drop io_buffer_size rest) h)))
      ]

module _ {Message Envelope : Type 0} (cfg : P2PConfig Message Envelope) (sys : System)
    (pid : PeerId) (serialize : Envelope → List ℕ) where
  -- `encode` appends the bytes of the envelope, as that of `BitcoinP2PConfig` does.
  abbrev pub Appends : Type 0
  Appends = (e : Envelope) (b : Buffer) → cfg.encode e b ≡ ((write b (serialize e)).1, ok tt)

  -- The bytes of queued messages.
  abbrev pub pending : List Message → List ℕ
  pending [] = []
  pending (m ∷ ms) = serialize (cfg.wrap m) ++ pending ms

  -- All bytes of a peer in the order in which they leave.
  abbrev pub flow : Writing Message → List ℕ
  flow w = stream w ++ pending w.peer.queue

  -- The only error of a turn is the poll's.
  abbrev pub Fails : {A : Type 0} → Outcome A → Type 0
  Fails o = (e : Foreign) × (sys.reregister pid ≡ some e) × (o ≡ err (io e))

  record Turned (w : Writing Message) (r : Writing Message × Outcome Bool) : Type 0 where
    pub valid : IsValid r.0.peer.write_buffer
    pub keeps : flow r.0 ≡ flow w
    pub result :
        ((r.1 ≡ ok true) × (write_rounds cfg sys pid r.0 < write_rounds cfg sys pid w))
        ⊎ (((r.1 ≡ ok false) × (r.0.peer.queue ≡ []) × (r.0.peer.writeable ≡ false)) ⊎ Fails r.1)

  module _ (appends : Appends) where
    refill-Turned :
        (w : Writing Message) → IsValid w.peer.write_buffer → Turned w (refill cfg sys pid w)
    unfolding refill reregister_read
    refill-Turned w v = elim (List-cases w.peer.queue) [
      | inl e ↦
          let k = ap (λ q. stream w ++ pending q) e in
          elim (Bool-cases w.peer.writeable) [
            | inl f ↦ elim (Option-cases (sys.reregister pid)) [
              | inl s ↦
                  rw (e, refill)
                    (rw (f, reregister_read)
                      (rw (s, reregister_read)
                        (record { valid = v; keeps = k; result = inr (inl (refl, e, refl)) })))
              | inr (x, s) ↦
                  rw (e, refill)
                    (rw (f, reregister_read)
                      (rw (s, reregister_read)
                        (record { valid = v; keeps = k; result = inr (inr (x, s, refl)) })))
            ]
            | inr f ↦
                rw (e, refill)
                  (rw (f, reregister_read)
                    (record { valid = v; keeps = k; result = inr (inl (refl, e, f)) }))
          ]
      | inr (m, ms, e) ↦
          let l = write_lem w.peer.write_buffer v (serialize (cfg.wrap m)) in
          rw (e, refill)
            (rw (appends (cfg.wrap m) w.peer.write_buffer, refill)
              (record {
                valid = l.valid;
                keeps =
                    ap (λ r. (w.sent ++ r) ++ pending ms) l.shows
                    ∙ ap (◌++ pending ms) (sym (append_assoc w.sent _ (serialize (cfg.wrap m))))
                    ∙ append_assoc (stream w) (serialize (cfg.wrap m)) (pending ms);
                result = inl (refl, omega (arith, ap length e));
              }))
    ]

    -- A turn after the unfinished write is a turn.
    turn_after :
        (w v : Writing Message) (r : Writing Message × Outcome Bool)
        → flow v ≡ flow w
        → write_rounds cfg sys pid v ≤ write_rounds cfg sys pid w
        → Turned v r
        → Turned w r
    turn_after w v r e l t = record {
      valid = t.valid;
      keeps = t.keeps ∙ e;
      result = elim t.result [ inl (o, s) ↦ inl (o, omega (arith, s, l)) | inr f ↦ inr f ];
    }

    write_turn-Turned :
        (w : Writing Message) → IsValid w.peer.write_buffer → Turned w (write_turn cfg sys pid w)
    unfolding write_turn
    write_turn-Turned w v =
        let f = finish_write-Wrote w v in
        let after = (finish_write w).0 in
        let same : flow after ≡ flow w = ap₂ (λ s q. s ++ pending q) f.keeps f.queue in
        elim f.result [
          | inl o ↦
              rw (o, write_turn)
                (turn_after w after (refill cfg sys pid after) same
                  (omega (arith, f.fewer, ap length f.queue)) (refill-Turned after f.valid))
          | inr (o, s) ↦
              rw (o, write_turn)
                (record {
                  valid = f.valid;
                  keeps = same;
                  result = inl (refl, omega (arith, s, ap length f.queue));
                })
        ]

  -- The outcome of a write event that begins at `w`.
  pub record Written (w : Writing Message) (r : Writing Message × Outcome (Unit {0})) : Type 0 where
    pub valid : IsValid r.0.peer.write_buffer
    pub keeps : flow r.0 ≡ flow w
    pub result : ((r.1 ≡ ok tt) × (r.0.peer.queue ≡ []) × (r.0.peer.writeable ≡ false)) ⊎ Fails r.1

  -- From a valid write buffer, if encoding appends bytes: the event of a writable peer ends without a
  -- panic once the loop may turn as often as there are answers of the stream and queued messages, and
  -- once more. The bytes that left, then those in the write buffer, then those of the queued messages
  -- are the same, in the same order, as before. If the poll takes the registration, then the event ends
  -- well with an empty queue and the peer registered for reading only; otherwise its error is the
  -- result.
  pub write_loop-Written :
      Appends
      → (fuel : ℕ) (w : Writing Message) → IsValid w.peer.write_buffer
      → write_rounds cfg sys pid w ≤ fuel
      → Written w (write_loop cfg sys pid fuel w)
  unfolding write_loop
  write_loop-Written a zero w v l = absurd (omega (arith, l))
  write_loop-Written a (suc fuel) w v l =
      let t = write_turn-Turned a w v in
      let after = (write_turn cfg sys pid w).0 in
      elim t.result [
        | inl (o, s) ↦
            let r = write_loop-Written a fuel after t.valid (omega (arith, s, l)) in
            rw (o, write_loop)
              (record { valid = r.valid; keeps = r.keeps ∙ t.keeps; result = r.result })
        | inr (inl (o, q, u)) ↦
            rw (o, write_loop)
              (record { valid = t.valid; keeps = t.keeps; result = inl (refl, q, u) })
        | inr (inr (e, s, o)) ↦
            rw (o, write_loop)
              (record { valid = t.valid; keeps = t.keeps; result = inr (e, s, refl) })
      ]
