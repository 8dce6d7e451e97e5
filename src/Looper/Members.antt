-- ===== src/Looper/Members.antt =====
-- BLooper: the list of the handlers of a looper and the loopers of the handlers agree.
use libb.Prelude.{
  ℕ, suc, ◌+◌, ◌≡◌, refl, ap, ◌∙◌, inl, inr, List, [], ◌∷◌, ◌++◌, Option, none, some, Bool, true,
  false, ◌&&◌, if◌then◌else◌, ◌==◌, arith, Bool-cases,
}
use libb.Prelude.Threads.{update}
use libb.BList.{remove_item}
use libb.BList.Items.{remove_item-index_of}
use libb.Looper.{
  World, and_then, is_locked, points_to, set_looper, set_next_of, set_next_with, set_next_handler,
  release_all,
}

-- How often an item stands in a list.
unfoldable pub occurs : ℕ → List ℕ → ℕ
occurs h [] = 0
occurs h (x ∷ xs) = if x == h then suc (occurs h xs) else occurs h xs

abbrev pub bit : Bool → ℕ
bit true = 1
bit false = 0

pub occurs-append : (h : ℕ) (xs ys : List ℕ) → occurs h (xs ++ ys) ≡ occurs h xs + occurs h ys
unfolding occurs
occurs-append h [] ys = omega arith
occurs-append h (x ∷ xs) ys = ground (arith, occurs-append h xs ys)

-- A handler stands once in the list of its looper and in no other, and a preferred handler is one of
-- the looper.
pub record IsValid (w : World) : Type 0 where
  pub member : (l h : ℕ) → occurs h (w.handlers l) ≡ bit (points_to (w.looper_of h) l)
  pub chosen : (l h : ℕ) → w.preferred l ≡ some h → points_to (w.looper_of h) l ≡ true

-- SetNextHandler changes no more than the next handler.
abbrev pub Agrees : World → World → Type 0
Agrees w v = (v.looper_of ≡ w.looper_of) × (v.handlers ≡ w.handlers) × (v.preferred ≡ w.preferred)

-- What holds of the result, unless the program aborts.
abbrev pub Yields {ℓ} : {A : Type ℓ} → (A → Type 0) → Option A → Type 0
Yields P none = Unit
Yields P (some a) = P a

set_next_of-Agrees : (h l : ℕ) (n : Option ℕ) (w : World) → Yields (Agrees w) (set_next_of h l n w)
set_next_of-Agrees h l none w = (refl, refl, refl)
set_next_of-Agrees h l (some n) w = elim (Bool-cases (points_to (w.looper_of n) l)) [
  | inl e ↦ elim (Bool-cases (n == h)) [
    | inl q ↦ rw (e, q) (refl, refl, refl)
    | inr q ↦ rw (e, q) (refl, refl, refl)
  ]
  | inr e ↦ rw (e) tt
]

set_next_with-Agrees :
    (h : ℕ) (l n : Option ℕ) (w : World) → Yields (Agrees w) (set_next_with h l n w)
set_next_with-Agrees h none n w = tt
set_next_with-Agrees h (some l) n w = elim (Bool-cases (is_locked l w)) [
  | inl e ↦ rw (e) (set_next_of-Agrees h l n w)
  | inr e ↦ rw (e) tt
]

pub set_next_handler-Agrees :
    (h : ℕ) (n : Option ℕ) (w : World) → Yields (Agrees w) (set_next_handler h n w)
unfolding set_next_handler
set_next_handler-Agrees h n w = set_next_with-Agrees h (w.looper_of h) n w

pub Yields-mono {ℓ} :
    {A : Type ℓ} (P Q : A → Type 0) (o : Option A) → ((a : A) → P a → Q a) → Yields P o → Yields Q o
Yields-mono P Q none f y = tt
Yields-mono P Q (some a) f y = f a y

pub Agrees-IsValid : (w v : World) → Agrees w v → IsValid w → IsValid v
Agrees-IsValid w v a i = record {
  member = λ l h. rw (a.0, a.1) (i.member l h);
  chosen = λ l h. rw (a.0, a.2) (i.chosen l h);
}

-- The two fields after `AddHandler` of a handler without a looper, at an instance.
pub added-member :
    (lo : ℕ → Option ℕ) (hs : ℕ → List ℕ) (l h l' h' : ℕ)
    → lo h ≡ none
    → occurs h' (hs l') ≡ bit (points_to (lo h') l')
    → occurs h' (update hs l (hs l ++ (h ∷ [])) l') ≡ bit (points_to (update lo h (some l) h') l')
unfolding occurs
added-member lo hs l h l' h' o i = ground (arith, occurs-append h' (hs l) (h ∷ []))

pub added-chosen :
    (lo : ℕ → Option ℕ) (l h l' h' : ℕ)
    → lo h ≡ none
    → points_to (lo h') l' ≡ true
    → points_to (update lo h (some l) h') l' ≡ true
added-chosen lo l h l' h' o i = ground arith

-- One occurrence is taken out of a list.
removed-occurs :
    (h : ℕ) (xs : List ℕ)
    → ((h' : ℕ)
        → occurs h' (remove_item h xs).1 + bit ((remove_item h xs).0 && (h == h')) ≡ occurs h' xs)
unfolding occurs
removed-occurs h xs h' = elim (remove_item-index_of h xs) [
  | inl (ys, (zs, p, a, r, k)) ↦
      rw (r, p) (ground (arith, occurs-append h' ys zs, occurs-append h' ys (h ∷ zs)))
  | inr (a, r, k) ↦ rw (r) (omega arith)
]

-- The fields after `RemoveHandler` of a member, at an instance.
pub removed-member :
    (lo : ℕ → Option ℕ) (hs : ℕ → List ℕ) (l h l' h' : ℕ)
    → points_to (lo h) l ≡ true
    → (remove_item h (hs l)).0 ≡ true
    → occurs h' (hs l') ≡ bit (points_to (lo h') l')
    → occurs h' (update hs l (remove_item h (hs l)).1 l') ≡ bit (points_to (update lo h none h') l')
removed-member lo hs l h l' h' o r i = ground (arith, removed-occurs h (hs l) h')

pub removed-chosen :
    (lo pr : ℕ → Option ℕ) (l h l' h' : ℕ)
    → points_to (lo h) l ≡ true
    → (pr l' ≡ some h' → points_to (lo h') l' ≡ true)
    → (if points_to (pr l) h then update pr l none else pr) l' ≡ some h'
    → points_to (update lo h none h') l' ≡ true
removed-chosen lo pr l h l' h' o i e = ground arith

pub Yields-and_then :
    {A B : Type 0} (P : A → Type 0) (Q : B → Type 0) (o : Option A) (k : A → Option B)
    → Yields P o
    → ((a : A) → P a → Yields Q (k a))
    → Yields Q (and_then o k)
Yields-and_then P Q none k y f = tt
Yields-and_then P Q (some a) k y f = f a y

-- After the handlers in a list are let go.
abbrev pub Released : List ℕ → World → World → Type 0
Released hs w v =
    (v.handlers ≡ w.handlers)
    × (v.preferred ≡ w.preferred)
    × ((h : ℕ) → v.looper_of h ≡ (if occurs h hs == 0 then w.looper_of h else none))

released_step :
    (lo : ℕ → Option ℕ) (h h' : ℕ) (hs : List ℕ)
    → (if occurs h' hs == 0 then update lo h none h' else none)
      ≡ (if occurs h' (h ∷ hs) == 0 then lo h' else none)
unfolding occurs
released_step lo h h' hs = ground arith

pub release_all-Released : (hs : List ℕ) (w : World) → Yields (Released hs w) (release_all hs w)
unfolding release_all occurs
release_all-Released [] w = (refl, refl, λ h. refl)
release_all-Released (h ∷ hs) w =
    Yields-and_then (Agrees w) (Released (h ∷ hs) w) (set_next_handler h none w)
      (λ w1. release_all hs (set_looper h none w1)) (set_next_handler-Agrees h none w)
      (λ w1 a.
        Yields-mono (Released hs (set_looper h none w1)) (Released (h ∷ hs) w)
          (release_all hs (set_looper h none w1))
          (λ v r. (
            r.0 ∙ a.1,
            r.1 ∙ a.2,
            λ h'.
                r.2 h'
                ∙ (ap
                      (λ (lo : ℕ → Option ℕ).
                        if occurs h' hs == 0 then update lo h none h' else none)
                      a.0
                    ∙ released_step w.looper_of h h' hs),
          ))
          (release_all-Released hs (set_looper h none w1)))
