-- ===== src/Path/Normal.antt =====
-- `_MustNormalize` against a description of the normal paths by their components.
use mathlib.Core.Bool.{true≢false}
use libb.Prelude.{
  ℕ, ◌≡◌, refl, ap, ap₂, ◌∙◌, ◌⊎◌, inl, inr, none, some, List, [], ◌∷◌, ◌++◌, Bool, true, false,
  ◌||◌, ◌&&◌, not, if◌then◌else◌, ◌==◌, Bool-cases, ==_iff,
}
use libb.Prelude.Status.{ok}
use libb.Path.{
  ParseState, no_match, initial_slash, one_dot, two_dots, parse_step, scan, ends_in_slash,
  must_normalize, slash, dot,
}

-- The components of a path, the first one continuing `part`.
unfoldable pub components : List ℕ → List ℕ → List (List ℕ)
components part [] = part ∷ []
components part (c ∷ cs) = elim (c == slash) [
  | true ↦ part ∷ components [] cs
  | false ↦ components (part ++ (c ∷ [])) cs
]

-- A component that must not stand in a normal path: empty, "." or "..".
unfoldable pub is_special : List ℕ → Bool
is_special [] = true
is_special (c ∷ []) = c == dot
is_special (c ∷ d ∷ []) = (c == dot) && (d == dot)
is_special (c ∷ d ∷ e ∷ cs) = false

unfoldable pub any_special : List (List ℕ) → Bool
any_special [] = false
any_special (part ∷ parts) = is_special part || any_special parts

-- "/", or a slash and components that are not special, with a slash between two of them.
unfoldable pub is_normal : List ℕ → Bool
is_normal [] = false
is_normal (c ∷ []) = c == slash
is_normal (c ∷ d ∷ cs) = (c == slash) && not (any_special (components [] (d ∷ cs)))

-- What the state of the parser knows of the component read so far.
abbrev Tracks : ParseState → List ℕ → Type 0
Tracks no_match part = is_special part ≡ false
Tracks initial_slash part = part ≡ []
Tracks one_dot part = part ≡ dot ∷ []
Tracks two_dots part = part ≡ dot ∷ dot ∷ []

abbrev is_initial : ParseState → Bool
is_initial initial_slash = true
is_initial state = false

is_special-append :
    (part : List ℕ) (c : ℕ) → is_special part ≡ false → is_special (part ++ (c ∷ [])) ≡ false
unfolding is_special
is_special-append [] c h = absurd (true≢false h)
is_special-append (x ∷ []) c h = rw (h) refl
is_special-append (x ∷ y ∷ []) c h = refl
is_special-append (x ∷ y ∷ z ∷ part) c h = refl

components-slash :
    (part : List ℕ) (c : ℕ) (cs : List ℕ)
    → (c == slash) ≡ true
    → any_special (components part (c ∷ cs)) ≡ (is_special part || any_special (components [] cs))
unfolding components any_special
components-slash part c cs e = rw (components, e) refl

components-other :
    (part : List ℕ) (c : ℕ) (cs : List ℕ)
    → (c == slash) ≡ false
    → components part (c ∷ cs) ≡ components (part ++ (c ∷ [])) cs
unfolding components
components-other part c cs e = rw (components, e) refl

-- `return true` comes at a slash behind a special component, and else the state tracks the component.
step-Tracks :
    (state : ParseState) (part : List ℕ) (c : ℕ)
    → Tracks state part
    → ((c == slash) ≡ true) × (parse_step state c ≡ none) × (is_special part ≡ true)
      ⊎ (((c == slash) ≡ true)
            × (parse_step state c ≡ some initial_slash)
            × (is_special part ≡ false)
          ⊎ (((c == slash) ≡ false)
              × ((state' : ParseState) × (parse_step state c ≡ some state')
                  × Tracks state' (part ++ (c ∷ []))
                  × (is_initial state' ≡ false))))
unfolding parse_step is_special
step-Tracks no_match part c t = elim (Bool-cases (c == slash)) [
  | inl e ↦ inr (inl (e, rw (e) refl, t))
  | inr e ↦ inr (inr (e, (no_match, rw (e) refl, is_special-append part c t, refl)))
]
step-Tracks initial_slash part c t = elim (Bool-cases (c == slash)) [
  | inl e ↦ inl (e, rw (e) refl, rw (t) refl)
  | inr e ↦ inr (
      inr (
        e,
        elim (Bool-cases (c == dot)) [
          | inl d ↦ (one_dot, rw (e, d) refl, rw (t) (ap (λ x. x ∷ []) ((==_iff c dot).0 d)), refl)
          | inr d ↦ (no_match, rw (e, d) refl, rw (t) d, refl)
        ],
      ))
]
step-Tracks one_dot part c t = elim (Bool-cases (c == slash)) [
  | inl e ↦ inl (e, rw (e) refl, rw (t) refl)
  | inr e ↦ inr (
      inr (
        e,
        elim (Bool-cases (c == dot)) [
          | inl d ↦
              (two_dots, rw (e, d) refl, rw (t) (ap (λ x. dot ∷ x ∷ []) ((==_iff c dot).0 d)), refl)
          | inr d ↦ (no_match, rw (e, d) refl, rw (t) d, refl)
        ],
      ))
]
step-Tracks two_dots part c t = elim (Bool-cases (c == slash)) [
  | inl e ↦ inl (e, rw (e) refl, rw (t) refl)
  | inr e ↦ inr (inr (e, (no_match, rw (e) refl, rw (t) refl, refl)))
]

scan_stop :
    (state : ParseState) (c : ℕ) (cs : List ℕ)
    → parse_step state c ≡ none
    → scan state (c ∷ cs) ≡ true
unfolding scan
scan_stop no_match c cs p = rw (scan, p) refl
scan_stop initial_slash c cs p = rw (scan, p) refl
scan_stop one_dot c cs p = rw (scan, p) refl
scan_stop two_dots c cs p = rw (scan, p) refl

scan_go :
    (state state' : ParseState) (c : ℕ) (cs : List ℕ)
    → parse_step state c ≡ some state'
    → scan state (c ∷ cs) ≡ scan state' cs
unfolding scan
scan_go no_match state' c cs p = rw (scan, p) refl
scan_go initial_slash state' c cs p = rw (scan, p) refl
scan_go one_dot state' c cs p = rw (scan, p) refl
scan_go two_dots state' c cs p = rw (scan, p) refl

not-not : (b : Bool) → b ≡ not (not b)
not-not true = refl
not-not false = refl

or-true : (b : Bool) → (b || true) ≡ true
or-true true = refl
or-true false = refl

-- The scan finds a special component, but for an empty one at the end.
scan-components :
    (state : ParseState) (part cs : List ℕ)
    → Tracks state part
    → (ends_in_slash (is_initial state) cs || scan state cs) ≡ any_special (components part cs)
unfolding scan components any_special ends_in_slash is_special
scan-components no_match part [] t = rw (t) refl
scan-components initial_slash part [] t = rw (t) refl
scan-components one_dot part [] t = rw (t) refl
scan-components two_dots part [] t = rw (t) refl
scan-components state part (c ∷ cs) t = elim (step-Tracks state part c t) [
  | inl (e, p, x) ↦
      rw (components-slash part c cs e, scan_stop state c cs p, x)
        (or-true (ends_in_slash (c == slash) cs))
  | inr (inl (e, p, x)) ↦
      rw (components-slash part c cs e, scan_go state initial_slash c cs p, x, e)
        (scan-components initial_slash [] cs refl)
  | inr (inr (e, (state', p, t', i))) ↦
      rw (components-other part c cs e, scan_go state state' c cs p, e)
        (rw (i) at (scan-components state' (part ++ (c ∷ [])) cs t'))
]

-- For a path that is not empty, `_MustNormalize` sets no error, and it returns false just for the
-- normal paths: "/", and a slash before components, with a slash between two of them, of which none
-- is empty, "." or "..".
pub must_normalize_iff :
    (c : ℕ) (cs : List ℕ) → must_normalize (c ∷ cs) ≡ (not (is_normal (c ∷ cs)), ok)
unfolding must_normalize is_normal ends_in_slash parse_step
must_normalize_iff c [] = refl
must_normalize_iff c (d ∷ cs) = elim (Bool-cases (c == slash)) [
  | inl e ↦
      let q : (ends_in_slash true (d ∷ cs) || scan initial_slash (d ∷ cs))
          ≡ any_special (components [] (d ∷ cs)) =
        scan-components initial_slash [] (d ∷ cs) refl in
      let z : (ends_in_slash (c == slash) (d ∷ cs) || scan no_match (c ∷ d ∷ cs))
          ≡ not (not (any_special (components [] (d ∷ cs)))) =
        rw (scan_go no_match initial_slash c (d ∷ cs) (rw (e) refl))
          (q ∙ not-not (any_special (components [] (d ∷ cs)))) in
      ap₂ {A = Bool} (λ b x. (if b then (x, ok) else (true, ok))) e z ∙ rw (e) refl
  | inr e ↦ rw (e) refl
]
