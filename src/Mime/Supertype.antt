-- ===== src/Mime/Supertype.antt =====
-- BMimeType: the objects that are set, and their supertypes.
use libb.Prelude.{
  ℕ, ◌-◌, ◌≤◌, ◌<◌, ◌≡◌, refl, sym, ap, ◌∙◌, ◌⊎◌, inl, inr, List, [], ◌∷◌, Option, none, some, Bool,
  true, false, ◌&&◌, ◌==◌, ltb, length, take, take_all, arith, Bool-cases,
}
use libb.Prelude.Status.{ok, bad_value, is_ok}
use libb.Mime.{
  slash, MimeType, unset, before_slash, has_slash, same_text, equals, is_valid, set_to,
  is_supertype_only, get_supertype, contains,
}
use libb.Mime.Format.{after_slash, is_token, is_subtype, is_valid_iff}

before_slash_idem : (s : List ℕ) → before_slash (before_slash s) ≡ before_slash s
unfolding before_slash
before_slash_idem [] = refl
before_slash_idem (c ∷ s) = elim (Bool-cases (c == slash)) [
  | inl e ↦ rw (before_slash, e) refl
  | inr e ↦ rw (before_slash, e, before_slash, e) (ap (λ r. c ∷ r) (before_slash_idem s))
]

after_slash-before_slash : (s : List ℕ) → after_slash (before_slash s) ≡ none
unfolding before_slash after_slash
after_slash-before_slash [] = refl
after_slash-before_slash (c ∷ s) = elim (Bool-cases (c == slash)) [
  | inl e ↦ rw (before_slash, e) refl
  | inr e ↦ rw (before_slash, e, after_slash, e) (after_slash-before_slash s)
]

has_slash-before_slash : (s : List ℕ) → has_slash (before_slash s) ≡ false
unfolding before_slash has_slash
has_slash-before_slash [] = refl
has_slash-before_slash (c ∷ s) = elim (Bool-cases (c == slash)) [
  | inl e ↦ rw (before_slash, e) refl
  | inr e ↦ rw (before_slash, e, has_slash, e) (has_slash-before_slash s)
]

length-before_slash : (s : List ℕ) → length (before_slash s) ≤ length s
unfolding before_slash
length-before_slash [] = omega arith
length-before_slash (c ∷ s) = elim (Bool-cases (c == slash)) [
  | inl e ↦ rw (before_slash, e) (omega arith)
  | inr e ↦ rw (before_slash, e) (omega (arith, length-before_slash s))
]

same_text_self : (s : List ℕ) → same_text s s ≡ true
unfolding same_text
same_text_self [] = refl
same_text_self (c ∷ s) = ground (arith, same_text_self s)

and_left : (a b : Bool) → (a && b) ≡ true → a ≡ true
and_left true b h = refl
and_left false b h = h

and_right : (a b : Bool) → (a && b) ≡ true → b ≡ true
and_right true b h = h
and_right false b h = ground arith

module _ (max_length : ℕ) where
  is_valid-length : (s : List ℕ) → is_valid max_length s ≡ true → length s < max_length
  is_valid-length s h =
      let l =
        and_left (ltb (length s) max_length)
          (is_token (before_slash s) && is_subtype (after_slash s))
          (sym (is_valid_iff max_length s) ∙ h) in
      ground arith

  is_valid-before_slash :
      (s : List ℕ) → is_valid max_length s ≡ true → is_valid max_length (before_slash s) ≡ true
  unfolding is_subtype
  is_valid-before_slash s h =
      let v =
        and_right (ltb (length s) max_length)
          (is_token (before_slash s) && is_subtype (after_slash s))
          (sym (is_valid_iff max_length s) ∙ h) in
      let t = and_left (is_token (before_slash s)) (is_subtype (after_slash s)) v in
      let l : ltb (length (before_slash s)) max_length ≡ true =
        ground (arith, is_valid-length s h, length-before_slash s) in
      rw
        (
          is_valid_iff max_length (before_slash s),
          before_slash_idem s,
          after_slash-before_slash s,
          t,
          l,
        )
        refl

  set_to_valid :
      (s : List ℕ) (m : MimeType)
      → is_valid max_length s ≡ true
      → set_to max_length (some s) m ≡ record { name = some s; status = ok }
  unfolding set_to
  set_to_valid s m h =
      let e : take (max_length - 1) s ≡ s =
        take_all (max_length - 1) s (omega (arith, is_valid-length s h)) in
      rw (set_to, h, e) refl

  contains_before :
      (s : List ℕ)
      → is_valid max_length s ≡ true
      → has_slash s ≡ true
      → contains max_length
          (record { name = some (before_slash s); status = ok })
          (record { name = some s; status = ok })
        ≡ true
  unfolding contains get_supertype equals
  contains_before s h b = elim (Bool-cases (same_text (before_slash s) s)) [
    | inl e ↦ rw (contains, e) refl
    | inr e ↦
        rw
          (
            contains,
            e,
            b,
            set_to_valid (before_slash s) unset (is_valid-before_slash s h),
            same_text_self (before_slash s),
          )
          refl
  ]

  -- B_OK goes with a valid text.
  abbrev pub IsValid : MimeType → Type 0
  IsValid m =
      (is_ok m.status ≡ false)
      ⊎ (is_ok m.status ≡ true)
        × ((s : List ℕ) × (m.name ≡ some s) × (is_valid max_length s ≡ true))

  -- After SetTo of anything, a BMimeType whose status is B_OK holds a valid text, which is then the
  -- text that SetTo was given, not cut.
  pub set_to-IsValid :
      (s : Option (List ℕ)) (m : MimeType)
      → IsValid (set_to max_length s m)
        × ((is_ok (set_to max_length s m).status ≡ false) ⊎ ((set_to max_length s m).name ≡ s))
  unfolding set_to
  set_to-IsValid none m = (inl refl, inl refl)
  set_to-IsValid (some s) m = elim (Bool-cases (is_valid max_length s)) [
    | inl h ↦ rw (set_to_valid s m h) (inr (refl, (s, refl, h)), inr refl)
    | inr h ↦ rw (set_to, h) (inl refl, inl refl)
  ]

  -- A BMimeType that is set to a valid text with a slash has the text before it as its supertype,
  -- which is set, is a supertype only and contains the type; without a slash GetSupertype
  -- returns B_BAD_VALUE and leaves the target unset, and the type is a supertype only.
  pub get_supertype-is_supertype_only :
      (s : List ℕ)
      → is_valid max_length s ≡ true
      → let m : MimeType = record { name = some s; status = ok } in
        let super : MimeType = record { name = some (before_slash s); status = ok } in
        (has_slash s ≡ true)
          × (get_supertype max_length m ≡ (ok, super))
          × (is_supertype_only max_length super ≡ true)
          × (contains max_length super m ≡ true)
        ⊎ (has_slash s ≡ false)
          × (get_supertype max_length m ≡ (bad_value, unset))
          × (is_supertype_only max_length m ≡ true)
  unfolding get_supertype is_supertype_only contains equals
  get_supertype-is_supertype_only s h = elim (Bool-cases (has_slash s)) [
    | inl b ↦ inl (
      b,
      rw (b, set_to_valid (before_slash s) unset (is_valid-before_slash s h)) refl,
      rw (has_slash-before_slash s) refl,
      contains_before s h b,
    )
    | inr b ↦ inr (b, rw (b) refl, rw (b) refl)
  ]
