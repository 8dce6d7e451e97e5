-- ===== src/Rect/Tests.antt =====
-- Inputs for the theorems on BRect, with numbers as coordinates.
use libb.Prelude.{ℕ, ◌+◌, ◌-◌, ◌≡◌, refl, ◌⊎◌, true, leb, arith}
use libb.Rect.{Scalar, IsOrder, Rect, intersection, intersects, is_valid}
use libb.Rect.Intersection.{intersects-intersection}

abbrev numbers : Scalar ℕ
numbers = record { leb = leb; plus = λ a b. a + b; minus = λ a b. a - b }

leb_or : (a b : ℕ) → (leb a b ≡ true) ⊎ (leb b a ≡ true)
leb_or a b = ground arith

leb_chain : (a b c : ℕ) → leb a b ≡ true → leb b c ≡ true → leb a c ≡ true
leb_chain a b c h k = ground arith

numbers-IsOrder : IsOrder numbers
numbers-IsOrder = record { leb_trans = leb_chain; leb_total = leb_or }

abbrev near : Rect ℕ
near = record { left = 0; top = 0; right = 5; bottom = 5 }

abbrev far : Rect ℕ
far = record { left = 3; top = 4; right = 9; bottom = 9 }

intersects_example : intersects numbers near far ≡ is_valid numbers (intersection numbers near far)
unfolding is_valid
intersects_example = intersects-intersection numbers numbers-IsOrder near far refl refl
