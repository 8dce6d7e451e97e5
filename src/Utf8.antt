-- ===== src/Utf8.antt =====
-- kits/support/utf8_functions.h: the counts of bytes and of characters in a C string, which is the
-- list of its bytes before the NUL.
pub mod Counts
use libb.Prelude.{
  ℕ, zero, suc, ◌-◌, ◌/◌, ◌%◌, ◌^◌, List, [], ◌∷◌, Option, none, some, Bool, true, false, ◌==◌,
  take,
}
use libb.Prelude.Int.{ℤ, pos, negsuc}

-- `IsInsideGlyph(ch)`: `(ch & 0xc0) == 0x80`.
unfoldable pub is_inside_glyph : ℕ → Bool
is_inside_glyph c = c / 64 % 4 == 2

-- The loop of UTF8CountBytes with `numChars` at `n`; a byte that starts a character when `n` is 0
-- makes `--numChars < 0`.
unfoldable pub count_bytes : ℕ → List ℕ → ℕ
count_bytes n [] = 0
count_bytes zero (b ∷ bytes) = elim (is_inside_glyph b) [
  | true ↦ suc (count_bytes zero bytes)
  | false ↦ 0
]
count_bytes (suc n) (b ∷ bytes) = elim (is_inside_glyph b) [
  | true ↦ suc (count_bytes (suc n) bytes)
  | false ↦ suc (count_bytes n bytes)
]

-- `UTF8CountBytes(bytes, numChars)`; a negative number is replaced by INT_MAX, a null pointer is
-- `none`.
unfoldable pub utf8_count_bytes : Option (List ℕ) → ℤ → ℕ
utf8_count_bytes none n = 0
utf8_count_bytes (some bytes) (pos n) = count_bytes n bytes
utf8_count_bytes (some bytes) (negsuc n) = count_bytes (2 ^ 31 - 1) bytes

-- The bytes that start a character.
unfoldable pub count_starts : List ℕ → ℕ
count_starts [] = 0
count_starts (b ∷ bytes) = elim (is_inside_glyph b) [
  | true ↦ count_starts bytes
  | false ↦ suc (count_starts bytes)
]

-- `UTF8CountChars(bytes, numBytes)`
unfoldable pub utf8_count_chars : Option (List ℕ) → ℤ → ℕ
utf8_count_chars none n = 0
utf8_count_chars (some bytes) (negsuc n) = count_starts bytes
utf8_count_chars (some bytes) (pos n) = count_starts (take n bytes)

-- The loop of UTF8NextCharLenUnsafe after its first step.
unfoldable pub inside_length : List ℕ → ℕ
inside_length [] = 0
inside_length (b ∷ bytes) = elim (is_inside_glyph b) [
  | true ↦ suc (inside_length bytes)
  | false ↦ 0
]

-- `UTF8NextCharLen(text)`
unfoldable pub next_char_length : Option (List ℕ) → ℕ
next_char_length none = 0
next_char_length (some []) = 0
next_char_length (some (b ∷ bytes)) = suc (inside_length bytes)
