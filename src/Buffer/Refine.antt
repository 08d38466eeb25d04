-- ===== src/Buffer/Refine.antt =====
-- `Buffer` refines the tape: no call of a client panics, and each returns what the tape returns.
use murmel.Common.{
  ℕ, ◌+◌, ◌-◌, ◌≤◌, ◌≡◌, ap, sym, ◌∙◌, some, List, [], ◌++◌, length, min, take, drop, arith, ◌⊎◌,
  inl, inr, take-take, drop-drop, take-append-drop, drop-nil, take-min, drop-min,
}
use murmel.Buffer.{Buffer}
use murmel.Buffer.Position.{whole, from, offset, InChunk, from-eq-drop}
use murmel.Buffer.Tape.{Tape, Op, step_tape, step, advance_tape}

-- A position is in a chunk, or at the start of a buffer with no chunk.
abbrev pub IsPos : List (List ℕ) → ℕ × ℕ → Type 0
IsPos chunks p = ((chunks ≡ []) × (p.0 ≡ 0) × (p.1 ≡ 0)) ⊎ InChunk chunks p.0 p.1

abbrev pub at : List (List ℕ) → ℕ × ℕ → ℕ
at chunks p = offset chunks p.0 p.1

abbrev pub rest_from : List (List ℕ) → ℕ × ℕ → List ℕ
rest_from chunks p = from chunks p.0 p.1

pub record IsValid (b : Buffer) : Type 0 where
  pub pos_in : IsPos b.chunks b.pos
  pub checkpoint_in : IsPos b.chunks b.checkpoint
  pub ordered : at b.chunks b.checkpoint ≤ at b.chunks b.pos

abbrev pub view : Buffer → Tape
view b = record {
  taken = take (at b.chunks b.pos - at b.chunks b.checkpoint) (rest_from b.chunks b.checkpoint);
  rest = rest_from b.chunks b.pos;
}

pub IsPos-drop :
    (chunks : List (List ℕ)) (p : ℕ × ℕ)
    → IsPos chunks p
    → rest_from chunks p ≡ drop (at chunks p) (whole chunks)
IsPos-drop chunks p (inl (e, z, w)) = rw e (sym (drop-nil _))
IsPos-drop chunks p (inr v) = from-eq-drop chunks p.0 p.1 v

-- The bytes behind a later position are the bytes behind an earlier one, less those between.
rest_from-later :
    (chunks : List (List ℕ)) (p q : ℕ × ℕ)
    → IsPos chunks p
    → IsPos chunks q
    → at chunks p ≤ at chunks q
    → rest_from chunks q ≡ drop (at chunks q - at chunks p) (rest_from chunks p)
rest_from-later chunks p q v w h =
    IsPos-drop chunks q w
    ∙ ap (λ k. drop k (whole chunks))
        (let e : at chunks q ≡ at chunks p + (at chunks q - at chunks p) = omega arith in e)
    ∙ sym (drop-drop (at chunks p) (at chunks q - at chunks p) (whole chunks))
    ∙ ap (drop (at chunks q - at chunks p)) (sym (IsPos-drop chunks p v))

-- What `rollback` returns to: nothing taken is lost.
pub taken-append-rest :
    (b : Buffer) → IsValid b → (view b).taken ++ (view b).rest ≡ rest_from b.chunks b.checkpoint
taken-append-rest b v =
    ap ((view b).taken ++◌)
      (rest_from-later b.chunks b.checkpoint b.pos v.checkpoint_in v.pos_in v.ordered)
    ∙ take-append-drop (at b.chunks b.pos - at b.chunks b.checkpoint)
        (rest_from b.chunks b.checkpoint)

-- A step of the code against a step of the tape.
pub record Refines (b : Buffer) (op : Op) : Type 0 where
  pub next : Buffer
  pub result : step b op ≡ some ((step_tape (view b) op).0, next)
  pub valid : IsValid next
  pub refines : view next ≡ (step_tape (view b) op).1

-- The position moves over `m` bytes.
module _ (b : Buffer) (v : IsValid b) (q : ℕ × ℕ) (w : IsPos b.chunks q) (n : ℕ)
    (moved : at b.chunks q ≡ at b.chunks b.pos + min n (length (view b).rest)) where
  pub moved-IsValid : IsValid (record b { pos = q })
  moved-IsValid = record {
    pos_in = w;
    checkpoint_in = v.checkpoint_in;
    ordered = omega (arith, v.ordered);
  }

  pub view-moved : view (record b { pos = q }) ≡ advance_tape (view b) n
  view-moved = λ i. record { taken = taken i; rest = rest i }
    where
      later :
          rest_from b.chunks b.pos
          ≡ drop (at b.chunks b.pos - at b.chunks b.checkpoint) (rest_from b.chunks b.checkpoint)
      later = rest_from-later b.chunks b.checkpoint b.pos v.checkpoint_in v.pos_in v.ordered

      rest : rest_from b.chunks q ≡ drop n (rest_from b.chunks b.pos)
      rest =
          rest_from-later b.chunks b.pos q v.pos_in w (omega arith)
          ∙ ap (λ k. drop k (rest_from b.chunks b.pos)) (omega arith)
          ∙ drop-min n (rest_from b.chunks b.pos)

      taken :
          take (at b.chunks q - at b.chunks b.checkpoint) (rest_from b.chunks b.checkpoint)
          ≡ (view b).taken ++ take n (rest_from b.chunks b.pos)
      taken =
          ap (λ k. take k (rest_from b.chunks b.checkpoint)) (omega (arith, v.ordered))
          ∙ sym (
              take-take (at b.chunks b.pos - at b.chunks b.checkpoint)
                (min n (length (view b).rest)) _)
          ∙ ap (λ l. (view b).taken ++ take (min n (length (view b).rest)) l) (sym later)
          ∙ ap ((view b).taken ++◌) (take-min n (rest_from b.chunks b.pos))
