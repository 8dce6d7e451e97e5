-- ===== src/Mime.antt =====
-- kits/storage/Mime.cpp: BMimeType. A C string is the list of its bytes before the NUL; `char` is
-- signed, so that the bytes from 128 on are negative. B_MIME_TYPE_LENGTH, which comes from NAME_MAX,
-- is a parameter.
pub mod Format
pub mod Supertype
mod Tests
use libb.Prelude.{
  ℕ, zero, suc, ◌+◌, ◌-◌, ◌≡◌, List, [], ◌∷◌, Option, none, some, Bool, true, false, ◌||◌, ◌&&◌,
  not, if◌then◌else◌, ◌==◌, ltb, leb, length, take,
}
use libb.Prelude.Status.{Status, ok, no_init, bad_value, is_ok}

abbrev pub slash : ℕ
slash = 47

-- The characters that `isValidMimeChar` names: / < > @ , ; : " ( ) [ ] ? = \ and DEL.
abbrev excluded : List ℕ
excluded = 47 ∷ 60 ∷ 62 ∷ 64 ∷ 44 ∷ 59 ∷ 58 ∷ 34 ∷ 40 ∷ 41 ∷ 91 ∷ 93 ∷ 63 ∷ 61 ∷ 92 ∷ 127 ∷ []

abbrev is_one_of : ℕ → List ℕ → Bool
is_one_of c [] = false
is_one_of c (x ∷ xs) = (c == x) || is_one_of c xs

-- `isValidMimeChar(ch)`
unfoldable pub is_valid_char : ℕ → Bool
is_valid_char c = ltb 32 c && ltb c 128 && not (is_one_of c excluded)

-- The loop of `IsValid(string)` from the index `i` on, with `len` and `foundSlash`.
unfoldable pub valid_from : ℕ → ℕ → Bool → List ℕ → Bool
valid_from len i found [] = true
valid_from len i found (c ∷ cs) = elim (c == slash) [
  | true ↦ elim (found || ((i == 0) || (i == len - 1))) [
    | true ↦ false
    | false ↦ valid_from len (suc i) true cs
  ]
  | false ↦ elim (is_valid_char c) [ true ↦ valid_from len (suc i) found cs | false ↦ false ]
]

-- `fType` and `fCStatus`.
pub record MimeType : Type 0 where
  pub name : Option (List ℕ)
  pub status : Status

-- After `Unset()`.
abbrev pub unset : MimeType
unset = record { name = none; status = no_init }

-- The text before the first slash.
unfoldable pub before_slash : List ℕ → List ℕ
before_slash [] = []
before_slash (c ∷ cs) = elim (c == slash) [ true ↦ [] | false ↦ c ∷ before_slash cs ]

unfoldable pub has_slash : List ℕ → Bool
has_slash [] = false
has_slash (c ∷ cs) = (c == slash) || has_slash cs

-- `strcasecmp(a, b) == 0`, in the C locale.
abbrev to_lower : ℕ → ℕ
to_lower c = if ltb 64 c && ltb c 91 then c + 32 else c

unfoldable pub same_text : List ℕ → List ℕ → Bool
same_text [] [] = true
same_text [] (y ∷ ys) = false
same_text (x ∷ xs) [] = false
same_text (x ∷ xs) (y ∷ ys) = (to_lower x == to_lower y) && same_text xs ys

abbrev same_name : Option (List ℕ) → Option (List ℕ) → Bool
same_name (some a) (some b) = same_text a b
same_name none b = false
same_name (some a) none = false

abbrev is_no_init : Status → Bool
is_no_init no_init = true
is_no_init _ = false

-- `operator==`
unfoldable pub equals : MimeType → MimeType → Bool
equals a b =
    if is_no_init a.status && is_no_init b.status
    then true
    else (if is_ok a.status && is_ok b.status then same_name a.name b.name else false)

-- `max_length` is B_MIME_TYPE_LENGTH.
module _ (max_length : ℕ) where
  -- `IsValid(string)`
  unfoldable pub is_valid : List ℕ → Bool
  is_valid s =
      if leb max_length (length s) || (length s == 0)
      then false
      else valid_from (length s) 0 false s

  -- `SetTo(MIME_type)`; a null pointer is `none`. `strlcpy` copies up to a byte less than the limit.
  unfoldable pub set_to : Option (List ℕ) → MimeType → MimeType
  set_to none m = unset
  set_to (some s) m =
      if is_valid s
      then record { name = some (take (max_length - 1) s); status = ok }
      else record m { status = bad_value }

  -- `IsSupertypeOnly()`
  abbrev pub supertype_only_with : Status → Option (List ℕ) → Bool
  supertype_only_with e none = false
  supertype_only_with e (some s) = if is_ok e then not (has_slash s) else false

  unfoldable pub is_supertype_only : MimeType → Bool
  is_supertype_only m = supertype_only_with m.status m.name

  -- `GetSupertype(super_type)` with a target, which is unset first: the result and the target.
  abbrev pub to_result : MimeType → Status × MimeType
  to_result super = (if is_ok super.status then ok else bad_value, super)

  abbrev pub supertype_with : Status → Option (List ℕ) → Status × MimeType
  supertype_with e none = (bad_value, unset)
  supertype_with e (some s) =
      if is_ok e
      then (if has_slash s
          then to_result (set_to (some (before_slash s)) unset)
          else (bad_value, unset))
      else (bad_value, unset)

  unfoldable pub get_supertype : MimeType → Status × MimeType
  get_supertype m = supertype_with m.status m.name

  -- `Contains(type)`
  unfoldable pub contains : MimeType → MimeType → Bool
  contains m type =
      let r = get_supertype type in if equals m type then true else (is_ok r.0 && equals m r.1)
