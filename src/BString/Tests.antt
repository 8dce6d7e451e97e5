-- ===== src/BString/Tests.antt =====
-- Runs of BString, and inputs for the theorems.
use libb.Prelude.{ℕ, ◌-◌, ◌≡◌, refl, List, [], ◌∷◌, ◌++◌, some, true, min}
use libb.Prelude.Int.{pos, negsuc}
use libb.Utf8.{is_inside_glyph, count_bytes, utf8_count_bytes}
use libb.BString.{done, throws, fault, itself, c_str, count_chars, read_c, set_to_from}
use libb.BString.Editing.{insert_length, remove, adopt}
use libb.BString.Chars.{remove_chars}
use libb.BString.Chars.Counts.{starts, remove_chars-count_chars}

-- "aéb"
abbrev accented : List ℕ
accented = 97 ∷ 195 ∷ 169 ∷ 98 ∷ []

removes_accented : remove_chars (pos 1) (pos 1) accented ≡ done (97 ∷ 98 ∷ [])
unfolding remove_chars remove utf8_count_bytes count_bytes is_inside_glyph c_str
removes_accented = refl

-- SetTo of the first two bytes of "abc" gives the rest behind them.
set_to_suffix : set_to_from (97 ∷ 98 ∷ 99 ∷ []) (pos 2) ≡ done (99 ∷ [])
unfolding set_to_from
set_to_suffix = refl

-- Insert of five bytes of a string of two reads behind its NUL.
inserts_outside : insert_length (some (97 ∷ 98 ∷ [])) (pos 5) (pos 0) [] ≡ fault
unfolding insert_length read_c
inserts_outside = refl

removes_negative : remove (negsuc 0) (pos 1) accented ≡ throws
unfolding remove
removes_negative = refl

adopts_itself : (adopt itself accented).0 ≡ []
unfolding adopt
adopts_itself = refl

remove_chars_example :
    (xs ys zs : List ℕ) × ((accented ≡ xs ++ (ys ++ zs))
      × ((remove_chars (pos 1) (pos 1) accented ≡ done (xs ++ zs))
          × ((count_chars xs ≡ min 1 (count_chars accented))
              × ((count_chars ys ≡ min 1 (count_chars accented - 1))
                  × ((starts (ys ++ zs) ≡ true) × (starts zs ≡ true))))))
remove_chars_example = remove_chars-count_chars 1 1 accented (refl, (refl, (refl, (refl, tt))))
