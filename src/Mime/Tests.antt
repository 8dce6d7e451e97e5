-- ===== src/Mime/Tests.antt =====
-- Runs of BMimeType, and inputs for the theorems. The limit is 239, for a NAME_MAX of 255.
use libb.Prelude.{ℕ, ◌≡◌, refl, List, [], ◌∷◌, some, true, false, ltb, length, ◌&&◌}
use libb.Prelude.Status.{ok}
use libb.Mime.{MimeType, is_valid, valid_from, is_valid_char, before_slash}
use libb.Mime.Format.{is_token, is_subtype, after_slash, is_valid_iff}

-- "ab/c"
abbrev slashed : List ℕ
slashed = 97 ∷ 98 ∷ 47 ∷ 99 ∷ []

slashed_valid : is_valid 239 slashed ≡ true
unfolding is_valid valid_from is_valid_char
slashed_valid = refl

-- "ab/"
ends_slashed : is_valid 239 (97 ∷ 98 ∷ 47 ∷ []) ≡ false
unfolding is_valid valid_from is_valid_char
ends_slashed = refl

is_valid_example : is_valid 239 slashed ≡ (
    ltb (length slashed) 239
    && (is_token (before_slash slashed) && is_subtype (after_slash slashed)))
is_valid_example = is_valid_iff 239 slashed

abbrev slashed_type : MimeType
slashed_type = record { name = some slashed; status = ok }

abbrev super_type : MimeType
super_type = record { name = some (before_slash slashed); status = ok }
