-- ===== src/Buffer/Position.antt =====
-- Positions in a list of chunks: what lies behind a position, and how far it is from the start.
use native.Mathlib.Nat.{add-zero}
use murmel.Common.{
  ℕ, zero, suc, ◌+◌, ◌≤◌, ◌<◌, ◌≡◌, refl, ap, sym, ◌∙◌, some, List, [], ◌∷◌, ◌++◌, length,
  get_elem?, drop, arith, append-nil, append_assoc, length-append, length-drop, if_both, ltb,
  drop-append, drop-append_le, eq_of_some,
}
use murmel.Buffer.{sum_len, append_last, io_buffer_size}

-- All bytes, in order.
abbrev pub whole : List (List ℕ) → List ℕ
whole [] = []
whole (c ∷ cs) = c ++ whole cs

-- The bytes from a position on.
abbrev pub from : List (List ℕ) → ℕ → ℕ → List ℕ
from [] p0 p1 = []
from (c ∷ cs) zero p1 = drop p1 c ++ whole cs
from (c ∷ cs) (suc p0) p1 = from cs p0 p1

abbrev pub offset : List (List ℕ) → ℕ → ℕ → ℕ
offset [] p0 p1 = p1
offset (c ∷ cs) zero p1 = p1
offset (c ∷ cs) (suc p0) p1 = length c + offset cs p0 p1

-- The position lies in a chunk, or at its end.
abbrev pub InChunk : List (List ℕ) → ℕ → ℕ → Type 0
InChunk chunks p0 p1 = (c : List ℕ) × (get_elem? chunks p0 ≡ some c) × (p1 ≤ length c)

pub sum_len-eq : (chunks : List (List ℕ)) → sum_len chunks ≡ length (whole chunks)
sum_len-eq [] = refl
sum_len-eq (c ∷ chunks) = omega (arith, length-append c (whole chunks), sum_len-eq chunks)

pub from_in_chunk :
    (chunks : List (List ℕ)) (p0 p1 : ℕ) {c : List ℕ}
    → get_elem? chunks p0 ≡ some c
    → from chunks p0 p1 ≡ drop p1 c ++ whole (drop (suc p0) chunks)
from_in_chunk [] p0 p1 h = cc
from_in_chunk (d ∷ chunks) zero p1 h = rw (eq_of_some h)
from_in_chunk (d ∷ chunks) (suc p0) p1 h = from_in_chunk chunks p0 p1 h

-- The rest of a chunk that is not the last, and then the next chunk.
pub from_next :
    (chunks : List (List ℕ)) (p0 p1 : ℕ) {c : List ℕ}
    → get_elem? chunks p0 ≡ some c
    → suc p0 < length chunks
    → from chunks p0 p1 ≡ drop p1 c ++ from chunks (suc p0) 0
from_next [] p0 p1 h l = absurd (omega arith)
from_next (d ∷ []) p0 p1 h l = absurd (omega arith)
from_next (d ∷ e ∷ chunks) zero p1 h l = rw (eq_of_some h)
from_next (d ∷ e ∷ chunks) (suc p0) p1 h l = from_next (e ∷ chunks) p0 p1 h (omega arith)

pub from_last :
    (chunks : List (List ℕ)) (p0 p1 : ℕ) {c : List ℕ}
    → get_elem? chunks p0 ≡ some c
    → length chunks ≤ suc p0
    → from chunks p0 p1 ≡ drop p1 c
from_last [] p0 p1 h l = cc
from_last (d ∷ []) zero p1 h l = rw (eq_of_some h) (append-nil _)
from_last (d ∷ []) (suc p0) p1 h l = cc
from_last (d ∷ e ∷ chunks) zero p1 h l = absurd (omega arith)
from_last (d ∷ e ∷ chunks) (suc p0) p1 h l = from_last (e ∷ chunks) p0 p1 h (omega arith)

pub offset_next :
    (chunks : List (List ℕ)) (p0 : ℕ) {c : List ℕ}
    → get_elem? chunks p0 ≡ some c
    → suc p0 < length chunks
    → offset chunks (suc p0) 0 ≡ offset chunks p0 (length c)
offset_next [] p0 h l = absurd (omega arith)
offset_next (d ∷ []) p0 h l = absurd (omega arith)
offset_next (d ∷ e ∷ chunks) zero h l = rw (eq_of_some h) (add-zero _)
offset_next (d ∷ e ∷ chunks) (suc p0) h l =
    omega (arith, offset_next (e ∷ chunks) p0 h (omega arith))

pub offset_add :
    (chunks : List (List ℕ)) (p0 p1 k : ℕ) → offset chunks p0 (p1 + k) ≡ offset chunks p0 p1 + k
offset_add [] p0 p1 k = refl
offset_add (c ∷ chunks) zero p1 k = refl
offset_add (c ∷ chunks) (suc p0) p1 k = omega (arith, offset_add chunks p0 p1 k)

-- The bytes from a position on are the whole content behind its offset.
pub from-eq-drop :
    (chunks : List (List ℕ)) (p0 p1 : ℕ)
    → InChunk chunks p0 p1
    → from chunks p0 p1 ≡ drop (offset chunks p0 p1) (whole chunks)
from-eq-drop [] p0 p1 (c, h, l) = cc
from-eq-drop (d ∷ chunks) zero p1 (c, h, l) =
    sym (drop-append_le p1 d (whole chunks) (rw (eq_of_some h) l))
from-eq-drop (d ∷ chunks) (suc p0) p1 (c, h, l) =
    from-eq-drop chunks p0 p1 (c, h, l) ∙ sym (drop-append (offset chunks p0 p1) d (whole chunks))

pub offset-le :
    (chunks : List (List ℕ)) (p0 p1 : ℕ)
    → InChunk chunks p0 p1
    → offset chunks p0 p1 ≤ length (whole chunks)
offset-le [] p0 p1 (c, h, l) = cc
offset-le (d ∷ chunks) zero p1 (c, h, l) =
    omega (arith, length-append d (whole chunks), ap length (eq_of_some h))
offset-le (d ∷ chunks) (suc p0) p1 (c, h, l) =
    omega (arith, length-append d (whole chunks), offset-le chunks p0 p1 (c, h, l))

-- What `commit` keeps.
pub from-drop :
    (chunks : List (List ℕ)) (p0 p1 : ℕ) → from (drop p0 chunks) 0 p1 ≡ from chunks p0 p1
from-drop [] zero p1 = refl
from-drop [] (suc p0) p1 = refl
from-drop (c ∷ chunks) zero p1 = refl
from-drop (c ∷ chunks) (suc p0) p1 = from-drop chunks p0 p1

pub InChunk-drop :
    (chunks : List (List ℕ)) (p0 p1 : ℕ) → InChunk chunks p0 p1 → InChunk (drop p0 chunks) 0 p1
InChunk-drop [] p0 p1 (c, h, l) = cc
InChunk-drop (d ∷ chunks) zero p1 v = v
InChunk-drop (d ∷ chunks) (suc p0) p1 v = InChunk-drop chunks p0 p1 v

pub length-from :
    (chunks : List (List ℕ)) (p0 p1 : ℕ)
    → InChunk chunks p0 p1
    → sum_len (drop p0 chunks) ≡ p1 + length (from chunks p0 p1)
length-from [] p0 p1 (c, h, l) = cc
length-from (d ∷ chunks) zero p1 (c, h, l) = omega (
  arith,
  length-append (drop p1 d) (whole chunks),
  length-drop p1 d,
  sum_len-eq chunks,
  ap length (eq_of_some h),
)
length-from (d ∷ chunks) (suc p0) p1 v = length-from chunks p0 p1 v

-- What `write` keeps.
pub whole-append_last :
    (chunks : List (List ℕ)) (bytes : List ℕ)
    → whole (append_last chunks bytes) ≡ whole chunks ++ bytes
unfolding append_last
whole-append_last [] bytes = append-nil bytes
whole-append_last (c ∷ []) bytes =
    if_both (λ cs. whole cs ≡ (c ++ []) ++ bytes) (ltb io_buffer_size (length bytes + length c))
      (simp append-nil) (simp append-nil)
whole-append_last (c ∷ d ∷ chunks) bytes =
    ap (c ++◌) (whole-append_last (d ∷ chunks) bytes)
    ∙ sym (append_assoc c (d ++ whole chunks) bytes)

pub InChunk-append_last :
    (chunks : List (List ℕ)) (bytes : List ℕ) (p0 p1 : ℕ)
    → InChunk chunks p0 p1
    → InChunk (append_last chunks bytes) p0 p1
unfolding append_last
InChunk-append_last [] bytes p0 p1 (c, h, l) = cc
InChunk-append_last (d ∷ []) bytes zero p1 (c, h, l) =
    if_both (λ cs. InChunk cs 0 p1) (ltb io_buffer_size (length bytes + length d)) (c, h, l)
      (d ++ bytes, refl, omega (arith, length-append d bytes, ap length (eq_of_some h)))
InChunk-append_last (d ∷ []) bytes (suc p0) p1 (c, h, l) = cc
InChunk-append_last (d ∷ e ∷ chunks) bytes zero p1 v = v
InChunk-append_last (d ∷ e ∷ chunks) bytes (suc p0) p1 v =
    InChunk-append_last (e ∷ chunks) bytes p0 p1 v

pub offset-append_last :
    (chunks : List (List ℕ)) (bytes : List ℕ) (p0 p1 : ℕ)
    → InChunk chunks p0 p1
    → offset (append_last chunks bytes) p0 p1 ≡ offset chunks p0 p1
unfolding append_last
offset-append_last [] bytes p0 p1 (c, h, l) = cc
offset-append_last (d ∷ []) bytes zero p1 v =
    if_both (λ cs. offset cs 0 p1 ≡ p1) (ltb io_buffer_size (length bytes + length d)) refl refl
offset-append_last (d ∷ []) bytes (suc p0) p1 (c, h, l) = cc
offset-append_last (d ∷ e ∷ chunks) bytes zero p1 v = refl
offset-append_last (d ∷ e ∷ chunks) bytes (suc p0) p1 v =
    ap (length d +◌) (offset-append_last (e ∷ chunks) bytes p0 p1 v)
