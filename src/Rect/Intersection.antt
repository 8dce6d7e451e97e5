-- ===== src/Rect/Intersection.antt =====
-- BRect: intersection, union and containment.
use mathlib.Core.Bool.{true≢false}
use libb.Prelude.{
  ◌≡◌, refl, sym, ap, ◌∙◌, ◌⊎◌, inl, inr, Bool, true, false, not, ◌&&◌, ◌||◌, Bool-cases,
}
use libb.Rect.{
  equals, same, Scalar, IsOrder, Point, Rect, max_of, min_of, intersection, is_valid, intersects,
  contains_point, constrain_to,
}

interchange : (a b c d : Bool) → ((a && b) && (c && d)) ≡ ((a && c) && (b && d))
interchange false b c d = refl
interchange true false false d = refl
interchange true false true d = refl
interchange true true c d = refl

and_pairs :
    (a a' b b' c c' d d' : Bool)
    → ((a && a') && ((b && b') && ((c && c') && (d && d'))))
      ≡ ((a && (b && (c && d))) && (a' && (b' && (c' && d'))))
and_pairs a a' b b' c c' d d' =
    ap (λ z. (a && a') && ((b && b') && z)) (interchange c c' d d')
    ∙ (ap (λ z. (a && a') && z) (interchange b b' (c && d) (c' && d'))
        ∙ interchange a a' (b && (c && d)) (b' && (c' && d')))

and_false : (a : Bool) → (a && false) ≡ false
and_false true = refl
and_false false = refl

and_left : (a b : Bool) → (a && b) ≡ true → a ≡ true
and_left true b h = refl
and_left false b h = h

and_right : (a b : Bool) → (a && b) ≡ true → b ≡ true
and_right true b h = h
and_right false b h = absurd (true≢false (sym h))

not_or :
    (a b c d : Bool)
    → not (not a || (not b || (not c || not d))) ≡ ((a && (b && true)) && (c && (d && true)))
not_or false b c d = refl
not_or true false c d = refl
not_or true true false d = refl
not_or true true true false = refl
not_or true true true true = refl

bool_of_iff : (a b : Bool) → (a ≡ true → b ≡ true) → (b ≡ true → a ≡ true) → a ≡ b
bool_of_iff true b f g = sym (f refl)
bool_of_iff false true f g = g refl
bool_of_iff false false f g = refl

or_false : (a b : Bool) → ((a ≡ true) ⊎ (b ≡ true)) → a ≡ false → b ≡ true
or_false a b (inl p) q = absurd (true≢false (sym p ∙ q))
or_false a b (inr p) q = p

module _ {F : Type 0} (num : Scalar F) (order : IsOrder num) where
  leb-max_of : (a b x : F) → num.leb (max_of num a b) x ≡ (num.leb a x && num.leb b x)
  unfolding max_of
  leb-max_of a b x = elim (Bool-cases (num.leb b a)) [
    | inl h ↦ elim (Bool-cases (num.leb a x)) [
      | inl k ↦ rw (max_of, h, k) (sym (order.leb_trans b a x h k))
      | inr k ↦ rw (max_of, h, k) refl
    ]
    | inr h ↦
        let g = or_false (num.leb b a) (num.leb a b) (order.leb_total b a) h in
        elim (Bool-cases (num.leb b x)) [
          | inl k ↦ rw (max_of, h, k, order.leb_trans a b x g k) refl
          | inr k ↦ rw (max_of, h, k) (sym (and_false (num.leb a x)))
        ]
  ]

  leb-min_of : (a b x : F) → num.leb x (min_of num a b) ≡ (num.leb x a && num.leb x b)
  unfolding min_of
  leb-min_of a b x = elim (Bool-cases (num.leb a b)) [
    | inl h ↦ elim (Bool-cases (num.leb x a)) [
      | inl k ↦ rw (min_of, h, k) (sym (order.leb_trans x a b k h))
      | inr k ↦ rw (min_of, h, k) refl
    ]
    | inr h ↦
        let g = or_false (num.leb a b) (num.leb b a) (order.leb_total a b) h in
        elim (Bool-cases (num.leb x b)) [
          | inl k ↦ rw (min_of, h, k, order.leb_trans x b a k g) refl
          | inr k ↦ rw (min_of, h, k) (sym (and_false (num.leb x a)))
        ]
  ]

  -- The sides of the intersection of two intervals that are not empty.
  leb-within :
      (l l' r r' : F)
      → num.leb l r ≡ true
      → num.leb l' r' ≡ true
      → num.leb (max_of num l l') (min_of num r r') ≡ (num.leb l' r && (num.leb l r' && true))
  leb-within l l' r r' v w =
      rw (leb-min_of r r' (max_of num l l'), leb-max_of l l' r, leb-max_of l l' r', v, w) refl

  -- Without NaN, a point is in the intersection of two rectangles just if it is in both.
  pub contains_point-intersection :
      (r s : Rect F) (p : Point F)
      → contains_point num (intersection num r s) p
        ≡ (contains_point num r p && contains_point num s p)
  unfolding contains_point intersection
  contains_point-intersection r s p =
      rw
        (
          leb-max_of r.left s.left p.x,
          leb-min_of r.right s.right p.x,
          leb-max_of r.top s.top p.y,
          leb-min_of r.bottom s.bottom p.y,
        )
        (and_pairs (num.leb r.left p.x) (num.leb s.left p.x) (num.leb p.x r.right)
          (num.leb p.x s.right) (num.leb r.top p.y) (num.leb s.top p.y) (num.leb p.y r.bottom)
          (num.leb p.y s.bottom))

  -- Without NaN, two valid rectangles intersect just if their intersection is valid.
  pub intersects-intersection :
      (r s : Rect F)
      → is_valid num r ≡ true
      → is_valid num s ≡ true
      → intersects num r s ≡ is_valid num (intersection num r s)
  unfolding intersects intersection is_valid
  intersects-intersection r s v w =
      let vl = and_left (num.leb r.left r.right) (num.leb r.top r.bottom) v in
      let vt = and_right (num.leb r.left r.right) (num.leb r.top r.bottom) v in
      let wl = and_left (num.leb s.left s.right) (num.leb s.top s.bottom) w in
      let wt = and_right (num.leb s.left s.right) (num.leb s.top s.bottom) w in
      rw
        (
          leb-within r.left s.left r.right s.right vl wl,
          leb-within r.top s.top r.bottom s.bottom vt wt,
          vl,
          vt,
          wl,
          wt,
        )
        (not_or (num.leb s.left r.right) (num.leb r.left s.right) (num.leb s.top r.bottom)
          (num.leb r.top s.bottom))

  leb_self : (a : F) → num.leb a a ≡ true
  leb_self a = elim (order.leb_total a a) [ inl p ↦ p | inr p ↦ p ]

  le_max_right : (a b : F) → num.leb b (max_of num a b) ≡ true
  le_max_right a b =
      and_right (num.leb a (max_of num a b)) (num.leb b (max_of num a b))
        (sym (leb-max_of a b (max_of num a b)) ∙ leb_self (max_of num a b))

  min_le_right : (a b : F) → num.leb (min_of num a b) b ≡ true
  min_le_right a b =
      and_right (num.leb (min_of num a b) a) (num.leb (min_of num a b) b)
        (sym (leb-min_of a b (min_of num a b)) ∙ leb_self (min_of num a b))

  -- Without NaN, ConstrainTo a valid rectangle moves every point into it.
  pub contains_point-constrain_to :
      (r : Rect F) (p : Point F)
      → is_valid num r ≡ true
      → contains_point num r (constrain_to num r p) ≡ true
  unfolding is_valid contains_point constrain_to
  contains_point-constrain_to r p v =
      rw
        (
          le_max_right (min_of num p.x r.right) r.left,
          le_max_right (min_of num p.y r.bottom) r.top,
          leb-max_of (min_of num p.x r.right) r.left r.right,
          leb-max_of (min_of num p.y r.bottom) r.top r.bottom,
          min_le_right p.x r.right,
          min_le_right p.y r.bottom,
          and_left (num.leb r.left r.right) (num.leb r.top r.bottom) v,
          and_right (num.leb r.left r.right) (num.leb r.top r.bottom) v,
        )
        refl

  leb_same : (a b x : F) → same num a b ≡ true → num.leb a x ≡ num.leb b x
  leb_same a b x e =
      bool_of_iff (num.leb a x) (num.leb b x)
        (order.leb_trans b a x (and_right (num.leb a b) (num.leb b a) e))
        (order.leb_trans a b x (and_left (num.leb a b) (num.leb b a) e))

  same_leb : (a b x : F) → same num a b ≡ true → num.leb x a ≡ num.leb x b
  same_leb a b x e =
      bool_of_iff (num.leb x a) (num.leb x b)
        (λ h. order.leb_trans x a b h (and_left (num.leb a b) (num.leb b a) e))
        (λ h. order.leb_trans x b a h (and_right (num.leb a b) (num.leb b a) e))

  -- Without NaN, two rectangles that are equal contain the same points.
  pub contains_point-equals :
      (r s : Rect F) (p : Point F)
      → equals num r s ≡ true
      → contains_point num r p ≡ contains_point num s p
  unfolding equals contains_point
  contains_point-equals r s p e =
      let el =
        and_left (same num r.left s.left)
          (same num r.right s.right && (same num r.top s.top && same num r.bottom s.bottom)) e in
      let e1 =
        and_right (same num r.left s.left)
          (same num r.right s.right && (same num r.top s.top && same num r.bottom s.bottom)) e in
      let er =
        and_left (same num r.right s.right) (same num r.top s.top && same num r.bottom s.bottom)
          e1 in
      let e2 =
        and_right (same num r.right s.right) (same num r.top s.top && same num r.bottom s.bottom)
          e1 in
      let et = and_left (same num r.top s.top) (same num r.bottom s.bottom) e2 in
      let eb = and_right (same num r.top s.top) (same num r.bottom s.bottom) e2 in
      rw
        (
          leb_same r.left s.left p.x el,
          same_leb r.right s.right p.x er,
          leb_same r.top s.top p.y et,
          same_leb r.bottom s.bottom p.y eb,
        )
        refl
