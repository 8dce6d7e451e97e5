-- ===== src/BString/Chars.antt =====
-- kits/support/String.cpp: the calls whose lengths and positions count characters.
pub mod Counts
use libb.Prelude.{
  ℕ, ◌+◌, List, [], ◌∷◌, Option, none, some, Bool, true, false, if◌then◌else◌, length, drop, leb,
}
use libb.Prelude.Int.{ℤ, pos, negsuc}
use libb.Utf8.{utf8_count_bytes}
use libb.BString.{
  Outcome, done, fault, Source, itself, other, c_str, append_string, append_c, prepend_string,
  prepend_c,
}
use libb.BString.Editing.{
  insert_all, insert_length, insert_offset, insert_source, insert_source_length,
  insert_source_offset, remove,
}

-- `UTF8CountBytes(bytes, numChars)`, converted to `int32`.
abbrev pub bytes_of : Option (List ℕ) → ℤ → ℤ
bytes_of s n = pos (utf8_count_bytes s n)

-- `string.String()` of an argument of the string `s`.
abbrev pub text_of : Source → List ℕ → List ℕ
text_of itself s = c_str s
text_of (other xs) s = c_str xs

-- `AppendChars(string, charCount)` of a BString and of a C string.
unfoldable pub append_chars : Source → ℤ → List ℕ → List ℕ
append_chars src n s = append_string src (bytes_of (some (text_of src s)) n) s

unfoldable pub append_chars_c : Option (List ℕ) → ℤ → List ℕ → List ℕ
append_chars_c xs n s = append_c xs (bytes_of xs n) s

-- `PrependChars(string, charCount)` of a BString and of a C string.
unfoldable pub prepend_chars : Source → ℤ → List ℕ → List ℕ
prepend_chars src n s = prepend_string src (bytes_of (some (text_of src s)) n) s

unfoldable pub prepend_chars_c : Option (List ℕ) → ℤ → List ℕ → List ℕ
prepend_chars_c xs n s = prepend_c xs (bytes_of xs n) s

-- `InsertChars(string, charPosition)` and its form with a count, of a C string.
unfoldable pub insert_chars_c : Option (List ℕ) → ℤ → List ℕ → Outcome
insert_chars_c xs p s = insert_all xs (bytes_of (some (c_str s)) p) s

unfoldable pub insert_chars_length_c : Option (List ℕ) → ℤ → ℤ → List ℕ → Outcome
insert_chars_length_c xs n p s = insert_length xs (bytes_of xs n) (bytes_of (some (c_str s)) p) s

-- `string + fromOffset`
abbrev pub skip : Option (List ℕ) → ℕ → Option (List ℕ)
skip none k = none
skip (some xs) k = some (drop k xs)

-- `InsertChars(string, fromCharOffset, charCount, charPosition)` of a C string.
unfoldable pub insert_chars_offset_c : Option (List ℕ) → ℤ → ℤ → ℤ → List ℕ → Outcome
insert_chars_offset_c xs from n p s =
    let k = utf8_count_bytes xs from in
    insert_offset xs k (bytes_of (skip xs k) n) (bytes_of (some (c_str s)) p) s

-- The same for a BString.
unfoldable pub insert_chars : Source → ℤ → List ℕ → Outcome
insert_chars src p s = insert_source src (bytes_of (some (c_str s)) p) s

unfoldable pub insert_chars_length : Source → ℤ → ℤ → List ℕ → Outcome
insert_chars_length src n p s =
    insert_source_length src (bytes_of (some (text_of src s)) n) (bytes_of (some (c_str s)) p) s

unfoldable pub insert_chars_offset : Source → ℤ → ℤ → ℤ → List ℕ → Outcome
insert_chars_offset src from n p s =
    let k = utf8_count_bytes (some (text_of src s)) from in
    insert_source_offset src k (bytes_of (some (drop k (text_of src s))) n)
      (bytes_of (some (c_str s)) p) s

-- `RemoveChars(fromCharOffset, charCount)`
unfoldable pub remove_chars : ℤ → ℤ → List ℕ → Outcome
remove_chars from n s =
    let k = utf8_count_bytes (some (c_str s)) from in
    remove (pos k) (bytes_of (some (drop k (c_str s))) n) s
