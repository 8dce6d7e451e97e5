-- ===== src/BString/Editing.antt =====
-- kits/support/String.cpp: insertion, removal and copies.
use libb.Prelude.{
  ℕ, zero, suc, ◌+◌, List, [], ◌++◌, Option, none, some, Bool, true, if◌then◌else◌, ◌==◌, ltb, leb,
  min, length, take, drop, replicate,
}
use libb.Prelude.Int.{ℤ, pos, negsuc, ◌+ℤ◌, ◌-ℤ◌}
use libb.BString.{
  Outcome, done, throws, fault, Source, itself, other, c_str, clamp0, min_clamp0, read_c,
}

-- `DATA->insert(position, xs)`: a position behind the end throws, and so does a negative one, which is
-- a large `size_t`.
abbrev pub insert_at : ℤ → List ℕ → List ℕ → Outcome
insert_at (pos p) xs s = if ltb (length s) p then throws else done (take p s ++ (xs ++ drop p s))
insert_at (negsuc p) xs s = throws

-- `position <= Length()`
abbrev pub up_to_end : ℤ → List ℕ → Bool
up_to_end (pos p) s = leb p (length s)
up_to_end (negsuc p) s = true

-- `Insert(string, position)`
unfoldable pub insert_all : Option (List ℕ) → ℤ → List ℕ → Outcome
insert_all none p s = done s
insert_all (some xs) p s = if up_to_end p s then insert_at p xs s else done s

abbrev pub insert_read : Outcome → ℤ → List ℕ → Outcome
insert_read (done xs) p s = insert_at p xs s
insert_read throws p s = throws
insert_read fault p s = fault

-- `Insert(string, length, position)`: the position is looked at first, and the length is not clamped.
unfoldable pub insert_length : Option (List ℕ) → ℤ → ℤ → List ℕ → Outcome
insert_length none n p s = done s
insert_length (some xs) n p s =
    if up_to_end p s
    then (elim p [ negsuc k ↦ throws | pos k ↦ insert_read (read_c xs n) (pos k) s ])
    else done s

-- `Insert(string, fromOffset, length, position)`; the offset must stay in the string.
unfoldable pub insert_offset : Option (List ℕ) → ℕ → ℤ → ℤ → List ℕ → Outcome
insert_offset none from n p s = done s
insert_offset (some xs) from n p s =
    if leb from (length xs) then insert_length (some (drop from xs)) n p s else fault

-- `&string != this && string.Length() > 0`, with the C string that is then inserted.
abbrev pub inserted : Source → Option (List ℕ)
inserted itself = none
inserted (other xs) = if length xs == 0 then none else some (c_str xs)

-- The three forms of Insert for a BString.
unfoldable pub insert_source : Source → ℤ → List ℕ → Outcome
insert_source src p s = insert_all (inserted src) p s

unfoldable pub insert_source_length : Source → ℤ → ℤ → List ℕ → Outcome
insert_source_length src n p s = insert_length (inserted src) n p s

unfoldable pub insert_source_offset : Source → ℕ → ℤ → ℤ → List ℕ → Outcome
insert_source_offset src from n p s = insert_offset (inserted src) from n p s

-- `Insert(c, count, position)`: the count and the position after the first `if`.
abbrev pub char_count : ℤ → ℤ → ℕ
char_count n (pos p) = clamp0 n
char_count n (negsuc p) = clamp0 (n +ℤ negsuc p)

abbrev pub char_position : ℤ → List ℕ → ℕ
char_position (pos p) s = min p (length s)
char_position (negsuc p) s = 0

unfoldable pub insert_char : ℕ → ℤ → ℤ → List ℕ → List ℕ
insert_char c n p s =
    let q = char_position p s in take q s ++ (replicate (char_count n p) c ++ drop q s)

-- `Truncate(charCount, lazy)`: a negative count is a large `size_t`.
unfoldable pub truncate : ℤ → List ℕ → List ℕ
truncate (pos n) s = if ltb n (length s) then take n s else s
truncate (negsuc n) s = s

-- `Remove(from, length)`: a negative `from` is below the length, and `erase` throws.
unfoldable pub remove : ℤ → ℤ → List ℕ → Outcome
remove from (negsuc n) s = done s
remove from (pos zero) s = done s
remove (negsuc f) (pos (suc n)) s = throws
remove (pos f) (pos (suc n)) s =
    if ltb f (length s) then done (take f s ++ drop (f + suc n) s) else done s

-- `CopyInto(into, fromOffset, length)` for another BString: what it is set to.
unfoldable pub copy_into : ℕ → ℤ → List ℕ → Outcome
copy_into from n s = if leb from (length s) then read_c (drop from s) n else fault

-- `CopyInto(into, fromOffset, length)` for memory: the bytes that are copied. A negative offset is one
-- before the string.
unfoldable pub copy_bytes : ℤ → ℤ → List ℕ → Outcome
copy_bytes (pos f) n s = done (take (min_clamp0 n (pos (length s) -ℤ pos f)) (drop f s))
copy_bytes (negsuc f) n s =
    if min_clamp0 n (pos (length s) -ℤ negsuc f) == 0 then done [] else fault

-- `Adopt(from)`: the two strings afterwards; from itself, the new empty one is all that is left.
unfoldable pub adopt : Source → List ℕ → List ℕ × Source
adopt itself s = ([], itself)
adopt (other xs) s = (xs, other [])

-- `Adopt(from, length)`
unfoldable pub adopt_length : Source → ℤ → List ℕ → List ℕ × Source
adopt_length src n s = let r = adopt src s in (truncate n r.0, r.1)
