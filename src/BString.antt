-- ===== src/BString.antt =====
-- kits/support/String.cpp: BString, which holds a `std::string`. A string is the list of its bytes, and
-- a C string the list of the bytes before the NUL. Lengths are below 2 ^ 31, as `Length()` returns an
-- `int32`.
pub mod Editing
pub mod Chars
pub mod RoundTrip
mod Tests
use libb.Prelude.{
  ℕ, zero, suc, ◌-◌, ◌≡◌, List, [], ◌∷◌, ◌++◌, Option, none, some, Bool, true, false, if◌then◌else◌,
  ◌==◌, ltb, min, length, take, drop, replicate,
}
use libb.Prelude.Int.{ℤ, pos, negsuc, ltb_ℤ}
use libb.Utf8.{count_starts}

-- A call of `std::string` changes the string, or it throws, or it reads outside its argument.
pub data Outcome : Type 0 where
  done : List ℕ → Outcome
  throws : Outcome
  fault : Outcome

-- A BString argument: the object itself, or another one.
pub data Source : Type 0 where
  itself : Source
  other : List ℕ → Source

-- `c_str()` as a C string.
unfoldable pub c_str : List ℕ → List ℕ
c_str [] = []
c_str (b ∷ s) = let rest = c_str s in if b == 0 then [] else b ∷ rest

-- A number, and 0 for a negative one.
abbrev pub clamp0 : ℤ → ℕ
clamp0 (pos n) = n
clamp0 (negsuc n) = 0

-- `min_clamp0(num1, num2)`
abbrev pub min_clamp0 : ℤ → ℤ → ℕ
min_clamp0 a b = if ltb_ℤ a b then clamp0 a else clamp0 b

-- `strlen_clamp(string, max)`
abbrev pub strlen_clamp : List ℕ → ℤ → ℕ
strlen_clamp s (pos n) = min (length s) n
strlen_clamp s (negsuc n) = 0

-- `CountChars()`
unfoldable pub count_chars : List ℕ → ℕ
count_chars s = count_starts (c_str s)

-- `n` bytes from a C string, whose NUL may be read.
unfoldable pub read_c : List ℕ → ℤ → Outcome
read_c s (pos n) = if ltb (suc (length s)) n then fault else done (take n (s ++ (0 ∷ [])))
read_c s (negsuc n) = throws

-- `SetTo(str)`, `SetTo(str, length)`, `SetTo(ch, count)`
abbrev pub set_to_c : List ℕ → List ℕ
set_to_c str = str

abbrev pub set_to_length : List ℕ → ℤ → Outcome
set_to_length str n = read_c str n

abbrev pub set_to_char : ℕ → ℤ → Outcome
set_to_char c (pos n) = done (replicate n c)
set_to_char c (negsuc n) = throws

-- `SetTo(from, length)`: `assign` of a string and a number takes the number as the position to start
-- at.
unfoldable pub set_to_from : List ℕ → ℤ → Outcome
set_to_from xs (pos n) = if ltb (length xs) n then throws else done (drop n xs)
set_to_from xs (negsuc n) = throws

-- `Append(string, length)` of a BString.
unfoldable pub append_string : Source → ℤ → List ℕ → List ℕ
append_string itself n s = s
append_string (other xs) n s = s ++ take (min_clamp0 n (pos (length xs))) xs

-- `Append(string, length)` of a C string, null for `none`.
unfoldable pub append_c : Option (List ℕ) → ℤ → List ℕ → List ℕ
append_c none n s = s
append_c (some xs) n s = s ++ take (strlen_clamp xs n) xs

-- `operator+=(string)`
unfoldable pub append_all : Option (List ℕ) → List ℕ → List ℕ
append_all none s = s
append_all (some xs) s = s ++ xs

-- `Append(c, count)`
unfoldable pub append_char : ℕ → ℤ → List ℕ → List ℕ
append_char c n s = s ++ replicate (clamp0 n) c

-- `Prepend(string)` of a C string and of a BString, which goes through `c_str()`.
unfoldable pub prepend_all : Option (List ℕ) → List ℕ → List ℕ
prepend_all none s = s
prepend_all (some xs) s = xs ++ s

unfoldable pub prepend_source : Source → List ℕ → List ℕ
prepend_source itself s = s
prepend_source (other xs) s = c_str xs ++ s

-- `Prepend(string, length)` of a C string and of a BString, and `Prepend(c, count)`.
unfoldable pub prepend_c : Option (List ℕ) → ℤ → List ℕ → List ℕ
prepend_c none n s = s
prepend_c (some xs) n s = take (strlen_clamp xs n) xs ++ s

unfoldable pub prepend_string : Source → ℤ → List ℕ → List ℕ
prepend_string itself n s = s
prepend_string (other xs) n s = take (min_clamp0 n (pos (length xs))) xs ++ s

unfoldable pub prepend_char : ℕ → ℤ → List ℕ → List ℕ
prepend_char c n s = replicate (clamp0 n) c ++ s
