-- ===== src/DataIo/Copies.antt =====
-- Copies into and out of memory in bounds.
use libb.Prelude.{
  ℕ, ◌+◌, ◌-◌, ◌≤◌, ◌≡◌, refl, List, [], ◌∷◌, inl, inr, Bool-cases, ltb, some, arith, min, length,
  lt→ltb,
}
use libb.Prelude.Int.{pos}
use libb.Prelude.Bytes.{read_bytes}
use libb.Prelude.Splice.{splice, read-splice}
use libb.DataIo.{done, copy_out, copy_in, read_from}

-- A copy that fits is made.
pub copy_in_within :
    (p : ℕ) (src xs : List ℕ)
    → p + length src ≤ length xs
    → copy_in xs (pos p) src ≡ some (splice p src xs)
unfolding copy_in
copy_in_within p src xs h = ground (arith)

pub read_from-zero : (len p : ℕ) (xs : List ℕ) → read_from len xs p 0 ≡ done []
unfolding read_from copy_out read_bytes
read_from-zero len p xs =
    let e : min 0 (len - p) ≡ 0 = omega arith in
    elim (Bool-cases (ltb p len)) [ inl b ↦ rw (b, e) refl | inr b ↦ rw (b) refl ]

-- What was copied in is read back, where the length covers it.
pub read_from-splice :
    (len p : ℕ) (src xs : List ℕ)
    → p + length src ≤ len
    → p + length src ≤ length xs
    → read_from len (splice p src xs) p (length src) ≡ done src
unfolding read_from copy_out read_bytes
read_from-splice len p [] xs h k = read_from-zero len p (splice p [] xs)
read_from-splice len p (x ∷ src) xs h k =
    let e : min (length (x ∷ src)) (len - p) ≡ length (x ∷ src) = omega arith in
    rw (lt→ltb p len (omega arith), e, copy_out, read-splice p (x ∷ src) xs k) refl
