-- ===== src/Rect.antt =====
-- kits/interface/Rect.cpp and Point.cpp: BRect and BPoint. The coordinates are floats: a type with an
-- order, a sum and a difference as an interface, and no law of the sum. There is no NaN.
pub mod Intersection
mod Tests
use libb.Prelude.{◌≡◌, ◌⊎◌, Bool, true, false, not, ◌&&◌, ◌||◌, if◌then◌else◌}

pub record Scalar (F : Type 0) : Type 0 where
  pub leb : F → F → Bool  -- a <= b
  pub plus : F → F → F
  pub minus : F → F → F

-- The order of floats without NaN.
pub record IsOrder {F : Type 0} (num : Scalar F) : Type 0 where
  pub leb_trans : (a b c : F) → num.leb a b ≡ true → num.leb b c ≡ true → num.leb a c ≡ true
  pub leb_total : (a b : F) → (num.leb a b ≡ true) ⊎ (num.leb b a ≡ true)

pub record Point (F : Type 0) : Type 0 where
  pub x : F
  pub y : F

pub record Rect (F : Type 0) : Type 0 where
  pub left : F
  pub top : F
  pub right : F
  pub bottom : F

module _ {F : Type 0} where
  -- `SetLeftTop(point)` and the other corners.
  unfoldable pub set_left_top : Point F → Rect F → Rect F
  set_left_top p r = record r { left = p.x; top = p.y }

  unfoldable pub set_right_bottom : Point F → Rect F → Rect F
  set_right_bottom p r = record r { right = p.x; bottom = p.y }

  unfoldable pub set_left_bottom : Point F → Rect F → Rect F
  set_left_bottom p r = record r { left = p.x; bottom = p.y }

  unfoldable pub set_right_top : Point F → Rect F → Rect F
  set_right_top p r = record r { right = p.x; top = p.y }

module _ {F : Type 0} (num : Scalar F) where
  -- a < b
  abbrev pub less : F → F → Bool
  less a b = not (num.leb b a)

  -- `std::max` and `std::min`
  unfoldable pub max_of : F → F → F
  max_of a b = if less a b then b else a

  unfoldable pub min_of : F → F → F
  min_of a b = if less b a then b else a

  -- `InsetBy(dx, dy)`
  unfoldable pub inset_by : F → F → Rect F → Rect F
  inset_by dx dy r = record {
    left = num.plus r.left dx;
    top = num.plus r.top dy;
    right = num.minus r.right dx;
    bottom = num.minus r.bottom dy;
  }

  -- `OffsetBy(dx, dy)`
  unfoldable pub offset_by : F → F → Rect F → Rect F
  offset_by dx dy r = record {
    left = num.plus r.left dx;
    top = num.plus r.top dy;
    right = num.plus r.right dx;
    bottom = num.plus r.bottom dy;
  }

  -- `OffsetTo(x, y)`
  unfoldable pub offset_to : F → F → Rect F → Rect F
  offset_to x y r = record {
    left = x;
    top = y;
    right = num.plus (num.minus r.right r.left) x;
    bottom = num.plus (num.minus r.bottom r.top) y;
  }

  -- `operator==`; two floats that are no NaN are equal if each is at most the other.
  abbrev pub same : F → F → Bool
  same a b = num.leb a b && num.leb b a

  unfoldable pub equals : Rect F → Rect F → Bool
  equals r s =
      same r.left s.left && (same r.right s.right && (same r.top s.top && same r.bottom s.bottom))

  -- `operator+` and `operator-` of BPoint
  unfoldable pub plus_point : Point F → Point F → Point F
  plus_point p q = record { x = num.plus p.x q.x; y = num.plus p.y q.y }

  unfoldable pub minus_point : Point F → Point F → Point F
  minus_point p q = record { x = num.minus p.x q.x; y = num.minus p.y q.y }

  -- `operator&` and `operator|`
  unfoldable pub intersection : Rect F → Rect F → Rect F
  intersection r s = record {
    left = max_of r.left s.left;
    top = max_of r.top s.top;
    right = min_of r.right s.right;
    bottom = min_of r.bottom s.bottom;
  }

  unfoldable pub union : Rect F → Rect F → Rect F
  union r s = record {
    left = min_of r.left s.left;
    top = min_of r.top s.top;
    right = max_of r.right s.right;
    bottom = max_of r.bottom s.bottom;
  }

  unfoldable pub is_valid : Rect F → Bool
  is_valid r = num.leb r.left r.right && num.leb r.top r.bottom

  unfoldable pub intersects : Rect F → Rect F → Bool
  intersects r s =
      if not (is_valid r) || not (is_valid s)
      then false
      else not (
          less r.right s.left
          || (less s.right r.left || (less r.bottom s.top || less s.bottom r.top)))

  unfoldable pub contains_point : Rect F → Point F → Bool
  contains_point r p =
      num.leb r.left p.x && (num.leb p.x r.right && (num.leb r.top p.y && num.leb p.y r.bottom))

  unfoldable pub contains_rect : Rect F → Rect F → Bool
  contains_rect r s =
      num.leb r.left s.left
      && (num.leb s.right r.right && (num.leb r.top s.top && num.leb s.bottom r.bottom))

  -- `BPoint::ConstrainTo(rect)`
  unfoldable pub constrain_to : Rect F → Point F → Point F
  constrain_to r p = record {
    x = max_of (min_of p.x r.right) r.left;
    y = max_of (min_of p.y r.bottom) r.top;
  }
