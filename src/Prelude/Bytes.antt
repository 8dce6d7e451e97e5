-- ===== src/Prelude/Bytes.antt =====
-- Memory as a list of bytes: fixed-width numbers in little-endian order, and reads from a pointer.
use native.Mathlib.Nat.{pow-suc}
use libb.Prelude.{
  ℕ, zero, suc, ◌+◌, ◌*◌, ◌/◌, ◌%◌, ◌^◌, ◌<◌, ◌≡◌, refl, ap, List, [], ◌∷◌, ◌++◌, Option, none,
  some, arith, length,
}

-- `*(uintN_t *)p = n` for a width of `w` bytes; the cast to the width drops the higher bytes.
unfoldable pub le_bytes : ℕ → ℕ → List ℕ
le_bytes zero n = []
le_bytes (suc w) n = n % 256 ∷ le_bytes w (n / 256)

-- `memcpy(dst, p, n)`: the bytes read and the memory after them; `none` is a read past the end.
unfoldable pub read_bytes : ℕ → List ℕ → Option (List ℕ × List ℕ)
read_bytes zero mem = some ([], mem)
read_bytes (suc n) [] = none
read_bytes (suc n) (b ∷ mem) = elim (read_bytes n mem) [
  | none ↦ none
  | some (bs, rest) ↦ some (b ∷ bs, rest)
]

-- `*(uintN_t *)p` for a width of `w` bytes.
unfoldable pub read_le : ℕ → List ℕ → Option (ℕ × List ℕ)
read_le zero mem = some (0, mem)
read_le (suc w) [] = none
read_le (suc w) (b ∷ mem) = elim (read_le w mem) [
  | none ↦ none
  | some (n, rest) ↦ some (b + 256 * n, rest)
]

pub length-le_bytes : (w n : ℕ) → length (le_bytes w n) ≡ w
unfolding le_bytes
length-le_bytes zero n = refl
length-le_bytes (suc w) n = ap suc (length-le_bytes w (n / 256))

pub read_bytes-append : (bs rest : List ℕ) → read_bytes (length bs) (bs ++ rest) ≡ some (bs, rest)
unfolding read_bytes
read_bytes-append [] rest = refl
read_bytes-append (b ∷ bs) rest = ground (arith, read_bytes-append bs rest)

-- What is written at a width that holds the number is read back.
pub read_le-le_bytes :
    (w n : ℕ) (rest : List ℕ) → n < 256 ^ w → read_le w (le_bytes w n ++ rest) ≡ some (n, rest)
unfolding read_le le_bytes
read_le-le_bytes zero n rest h = ground arith
read_le-le_bytes (suc w) n rest h =
    ground (arith, pow-suc 256 w, read_le-le_bytes w (n / 256) rest (omega (arith, pow-suc 256 w)))
