-- ===== src/Mime/Format.antt =====
-- `BMimeType::IsValid` against a description of the valid strings.
use libb.Prelude.{
  ℕ, suc, ◌+◌, ◌-◌, ◌≡◌, refl, inl, inr, List, [], ◌∷◌, Bool, true, false, ◌&&◌, ◌==◌, ltb, leb,
  length, arith, Bool-cases, ==_iff, Option, none, some,
}
use libb.Mime.{slash, is_valid_char, valid_from, is_valid, before_slash}

-- The text behind the first slash.
unfoldable pub after_slash : List ℕ → Option (List ℕ)
after_slash [] = none
after_slash (c ∷ cs) = elim (c == slash) [ true ↦ some cs | false ↦ after_slash cs ]

unfoldable pub all_valid : List ℕ → Bool
all_valid [] = true
all_valid (c ∷ cs) = is_valid_char c && all_valid cs

-- A name of a type: characters that are valid, and at least one.
unfoldable pub is_token : List ℕ → Bool
is_token [] = false
is_token (c ∷ cs) = is_valid_char c && all_valid cs

unfoldable pub is_subtype : Option (List ℕ) → Bool
is_subtype none = true
is_subtype (some s) = is_token s

slash_invalid : (c : ℕ) → (c == slash) ≡ true → is_valid_char c ≡ false
unfolding is_valid_char
slash_invalid c e = rw ((==_iff c slash).0 e) refl

valid_from-found : (len i : ℕ) (cs : List ℕ) → valid_from len i true cs ≡ all_valid cs
unfolding valid_from all_valid
valid_from-found len i [] = refl
valid_from-found len i (c ∷ cs) = elim (Bool-cases (c == slash)) [
  | inl e ↦ rw (valid_from, e, slash_invalid c e) refl
  | inr e ↦ elim (Bool-cases (is_valid_char c)) [
    | inl v ↦ rw (valid_from, e, v) (valid_from-found len (suc i) cs)
    | inr v ↦ rw (valid_from, e, v) refl
  ]
]

-- The loop behind the first character, which was no slash.
valid_from-rest :
    (len i : ℕ) (cs : List ℕ)
    → suc i + length cs ≡ len
    → valid_from len (suc i) false cs ≡ (all_valid (before_slash cs) && is_subtype (after_slash cs))
unfolding valid_from all_valid before_slash after_slash is_subtype is_token
valid_from-rest len i [] l = refl
valid_from-rest len i (c ∷ []) l = elim (Bool-cases (c == slash)) [
  | inl e ↦
      let z : (suc i == 0) ≡ false = ground arith in
      let q : (suc i == len - 1) ≡ true = ground arith in
      rw (valid_from, before_slash, after_slash, e, z, q) refl
  | inr e ↦ elim (Bool-cases (is_valid_char c)) [
    | inl v ↦ rw (valid_from, before_slash, after_slash, e, v) refl
    | inr v ↦ rw (valid_from, before_slash, after_slash, e, v) refl
  ]
]
valid_from-rest len i (c ∷ d ∷ cs) l = elim (Bool-cases (c == slash)) [
  | inl e ↦
      let z : (suc i == 0) ≡ false = ground arith in
      let q : (suc i == len - 1) ≡ false = ground arith in
      rw (valid_from, before_slash, after_slash, e, z, q)
        (valid_from-found len (suc (suc i)) (d ∷ cs))
  | inr e ↦ elim (Bool-cases (is_valid_char c)) [
    | inl v ↦
        rw (valid_from, before_slash, after_slash, e, v)
          (valid_from-rest len (suc i) (d ∷ cs) (omega arith))
    | inr v ↦ rw (valid_from, before_slash, after_slash, e, v) refl
  ]
]

valid_from-start :
    (c : ℕ) (cs : List ℕ)
    → valid_from (suc (length cs)) 0 false (c ∷ cs)
      ≡ (is_token (before_slash (c ∷ cs)) && is_subtype (after_slash (c ∷ cs)))
unfolding valid_from before_slash after_slash is_token
valid_from-start c cs = elim (Bool-cases (c == slash)) [
  | inl e ↦ rw (valid_from, before_slash, after_slash, e) refl
  | inr e ↦ elim (Bool-cases (is_valid_char c)) [
    | inl v ↦
        rw (valid_from, before_slash, after_slash, e, is_token, v)
          (valid_from-rest (suc (length cs)) 0 cs (omega arith))
    | inr v ↦ rw (valid_from, before_slash, after_slash, e, is_token, v) refl
  ]
]

-- IsValid holds just for the strings below the limit that are a token, or two tokens with one slash
-- between them. A token has at least one character, and none that isValidMimeChar refuses.
pub is_valid_iff :
    (max_length : ℕ) (s : List ℕ)
    → is_valid max_length s
      ≡ (ltb (length s) max_length && (is_token (before_slash s) && is_subtype (after_slash s)))
unfolding is_valid before_slash after_slash is_token
is_valid_iff max_length [] = ground arith
is_valid_iff max_length (c ∷ cs) = elim (Bool-cases (leb max_length (suc (length cs)))) [
  | inl h ↦
      let l : ltb (suc (length cs)) max_length ≡ false = ground arith in rw (is_valid, h, l) refl
  | inr h ↦
      let l : ltb (suc (length cs)) max_length ≡ true = ground arith in
      let z : (suc (length cs) == 0) ≡ false = ground arith in
      rw (is_valid, h, z, l) (valid_from-start c cs)
]
