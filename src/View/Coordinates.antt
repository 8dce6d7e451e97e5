-- ===== src/View/Coordinates.antt =====
-- BView: the conversion of coordinates between a view, its parent and the screen, for views in no
-- window: the screen is where the topmost view stands. `parent` is `fParent`, `offset` `fParentOffset`.
use libb.Prelude.{
  ℕ, zero, suc, ◌≤◌, ◌≡◌, refl, ap, ◌∙◌, List, [], ◌∷◌, Option, none, some, arith, length,
}
use libb.Rect.{Scalar, Point, Rect, plus_point, minus_point, offset_by, offset_to}

module _ {F : Type 0} (num : Scalar F) (parent : ℕ → Option ℕ) (offset : ℕ → Point F) where
  -- `ConvertToParent(pt)` and `ConvertFromParent(pt)`
  abbrev pub convert_to_parent : ℕ → Point F → Point F
  convert_to_parent v p = plus_point num p (offset v)

  abbrev pub convert_from_parent : ℕ → Point F → Point F
  convert_from_parent v p = minus_point num p (offset v)

  -- `ConvertToParent(r)`
  abbrev pub rect_to_parent : ℕ → Rect F → Rect F
  rect_to_parent v r = offset_by num ((offset v).x) ((offset v).y) r

  -- `ConvertToScreen(pt)`: up to the topmost view, at most `fuel` views.
  unfoldable pub convert_up : ℕ → Option ℕ → Point F → Point F
  convert_up fuel none p = p
  convert_up zero (some v) p = p
  convert_up (suc fuel) (some v) p = convert_up fuel (parent v) (convert_to_parent v p)

  unfoldable pub convert_to_screen : ℕ → ℕ → Point F → Point F
  convert_to_screen fuel v p = convert_up fuel (some v) p

  -- `ConvertFromScreen(pt)`
  unfoldable pub convert_down : ℕ → Option ℕ → Point F → Point F
  convert_down fuel none p = p
  convert_down zero (some v) p = p
  convert_down (suc fuel) (some v) p = convert_down fuel (parent v) (convert_from_parent v p)

  unfoldable pub convert_from_screen : ℕ → ℕ → Point F → Point F
  convert_from_screen fuel v p = convert_down fuel (some v) p

  -- `ConvertToScreen(r)` and `ConvertFromScreen(r)` move the left top corner.
  abbrev pub move_to : Point F → Rect F → Rect F
  move_to p r = offset_to num p.x p.y r

  unfoldable pub rect_to_screen : ℕ → ℕ → Rect F → Rect F
  rect_to_screen fuel v r = move_to (convert_to_screen fuel v (record { x = r.left; y = r.top })) r

  unfoldable pub rect_from_screen : ℕ → ℕ → Rect F → Rect F
  rect_from_screen fuel v r =
      move_to (convert_from_screen fuel v (record { x = r.left; y = r.top })) r

  -- The views from one up to the topmost.
  unfoldable pub Ancestors : Option ℕ → List ℕ → Type 0
  Ancestors v [] = v ≡ none
  Ancestors v (x ∷ xs) = (v ≡ some x) × Ancestors (parent x) xs

  -- Where sums and differences are exact, as they are for small whole numbers.
  pub record IsExact : Type 0 where
    pub minus_plus : (a b : F) → num.minus (num.plus a b) b ≡ a
    pub minus_comm : (a b c : F) → num.minus (num.minus a b) c ≡ num.minus (num.minus a c) b

  module _ (ex : IsExact) where
    point-minus_plus : (p q : Point F) → minus_point num (plus_point num p q) q ≡ p
    unfolding minus_point plus_point
    point-minus_plus p q = rw (ex.minus_plus p.x q.x, ex.minus_plus p.y q.y) refl

    point_comm :
        (p q r : Point F)
        → minus_point num (minus_point num p q) r ≡ minus_point num (minus_point num p r) q
    unfolding minus_point
    point_comm p q r = rw (ex.minus_comm p.x q.x r.x, ex.minus_comm p.y q.y r.y) refl

    -- A difference with a point passes through the differences on the way down.
    convert_down-minus :
        (fuel : ℕ) (v : Option ℕ) (p q : Point F)
        → convert_down fuel v (minus_point num p q) ≡ minus_point num (convert_down fuel v p) q
    unfolding convert_down
    convert_down-minus fuel none p q = refl
    convert_down-minus zero (some v) p q = refl
    convert_down-minus (suc fuel) (some v) p q =
        ap (convert_down fuel (parent v)) (point_comm p q (offset v))
        ∙ convert_down-minus fuel (parent v) (minus_point num p (offset v)) q

    convert_down-convert_up :
        (fuel : ℕ) (v : Option ℕ) (p : Point F) → convert_down fuel v (convert_up fuel v p) ≡ p
    unfolding convert_down convert_up
    convert_down-convert_up fuel none p = refl
    convert_down-convert_up zero (some v) p = refl
    convert_down-convert_up (suc fuel) (some v) p =
        let o = offset v in
        let q = plus_point num p o in
        convert_down-minus fuel (parent v) (convert_up fuel (parent v) q) o
        ∙ ap (λ r. minus_point num r o) (convert_down-convert_up fuel (parent v) q)
        ∙ point-minus_plus p o

    -- ConvertFromScreen takes back what ConvertToScreen does to a point.
    pub convert_from_screen-convert_to_screen :
        (fuel v : ℕ) (p : Point F) → convert_from_screen fuel v (convert_to_screen fuel v p) ≡ p
    unfolding convert_from_screen convert_to_screen
    convert_from_screen-convert_to_screen fuel v p = convert_down-convert_up fuel (some v) p

  -- The sum with the offsets of some views.
  unfoldable pub along : List ℕ → Point F → Point F
  along [] p = p
  along (v ∷ vs) p = along vs (plus_point num p (offset v))

  convert_up-along :
      (fuel : ℕ) (vs : List ℕ) (v : Option ℕ) (p : Point F)
      → length vs ≤ fuel
      → Ancestors v vs
      → convert_up fuel v p ≡ along vs p
  unfolding convert_up Ancestors along
  convert_up-along fuel [] v p f h = rw (h) refl
  convert_up-along zero (x ∷ vs) v p f h = absurd (omega arith)
  convert_up-along (suc fuel) (x ∷ vs) v p f h =
      rw (h.0)
        (convert_up-along fuel vs (parent x) (plus_point num p (offset x)) (omega arith) (h.1))

  -- ConvertToScreen adds the offsets of all views up to the topmost, where it may take as many steps.
  pub convert_to_screen-along :
      (fuel v : ℕ) (vs : List ℕ) (p : Point F)
      → length vs ≤ fuel
      → Ancestors (some v) vs
      → convert_to_screen fuel v p ≡ along vs p
  unfolding convert_to_screen
  convert_to_screen-along fuel v vs p f h = convert_up-along fuel vs (some v) p f h
