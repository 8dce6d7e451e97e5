-- ===== src/Menu/Next.antt =====
-- kits/interface/Menu.cpp: the loop of _NextItem finds another item that is enabled, if there is one.
use libb.Prelude.{
  ℕ, zero, suc, ◌+◌, ◌-◌, ◌<◌, ◌≡◌, ◌≢◌, refl, sym, ap, ◌∙◌, inl, inr, List, some, Bool, true,
  false, arith, if◌then◌else◌, ◌==◌, ltb, leb, length, Bool-cases,
}
use libb.Menu.Marks.{MarkItem, step, step_back, is_enabled_at, next_loop, next_item}

-- The index so many steps from another one, around a menu of `n` items.
unfoldable place : Bool → ℕ → ℕ → ℕ → ℕ
place true n i m = if ltb (i + m) n then i + m else i + m - n
place false n i m = if leb m i then i - m else i + n - m

step_back_if : (n x : ℕ) → step_back n (some x) ≡ (if x == 0 then n - 1 else x - 1)
step_back_if n zero = refl
step_back_if n (suc x) = ground arith

step-place :
    (d : Bool) (n i m : ℕ)
    → i < n
    → suc m < n
    → step d n (some (place d n i m)) ≡ place d n i (suc m)
unfolding place
step-place true n i m hi hm = ground arith
step-place false n i m hi hm = step_back_if n (place false n i m) ∙ ground arith

place-start : (d : Bool) (n i : ℕ) → i < n → place d n i 0 ≡ i
unfolding place
place-start true n i h = ground arith
place-start false n i h = ground arith

place_moves : (d : Bool) (n i m : ℕ) → i < n → 0 < m → m < n → place d n i m ≢ i
unfolding place
place_moves true n i m hi ha hb = ground arith
place_moves false n i m hi ha hb = ground arith

-- How many steps it is to another index.
unfoldable steps : Bool → ℕ → ℕ → ℕ → ℕ
steps true n i j = if ltb i j then j - i else j + n - i
steps false n i j = if ltb j i then i - j else i + n - j

place-steps :
    (d : Bool) (n i j : ℕ)
    → i < n
    → j < n
    → j ≢ i
    → (place d n i (steps d n i j) ≡ j) × ((0 < steps d n i j) × (steps d n i j < n))
unfolding place steps
place-steps true n i j hi hj h = (ground arith, (ground arith, ground arith))
place-steps false n i j hi hj h = (ground arith, (ground arith, ground arith))

module _ (d : Bool) (ts : List MarkItem) (i : ℕ) (inside : i < length ts) where
  abbrev at : ℕ → ℕ
  at m = place d (length ts) i m

  passed :
      (m x : ℕ)
      → m < x
      → is_enabled_at ts (at x) ≡ true
      → is_enabled_at ts (at (suc m)) ≡ false
      → suc m < x
  passed m x l h b = elim (Bool-cases (ltb (suc m) x)) [
    | inl e ↦ ground arith
    | inr e ↦
        let q : x ≡ suc m = ground arith in let z = ap (λ v. is_enabled_at ts (at v)) q in absurd cc
  ]

  loop_finds :
      (k m x : ℕ)
      → suc (m + k) ≡ length ts
      → m < x
      → x < length ts
      → is_enabled_at ts (at x) ≡ true
      → (y : ℕ) × ((next_loop k d ts (some (at m)) ≡ some (at y))
          × ((0 < y) × ((y < length ts) × (is_enabled_at ts (at y) ≡ true))))
  unfolding next_loop
  loop_finds zero m x e ha hb h = absurd (omega arith)
  loop_finds (suc k) m x e ha hb h =
      let q = step-place d (length ts) i m inside (omega arith) in
      elim (Bool-cases (is_enabled_at ts (at (suc m)))) [
        | inl b ↦ (suc m, (rw (q, b), (omega arith, (omega arith, b))))
        | inr b ↦
            let later = passed m x ha h b in
            let (y, (f, g)) = loop_finds k (suc m) x (omega arith) later hb h in
            (y, (rw (q, b, f), g))
      ]

-- For an item of the menu, if another one is enabled, _NextItem finds an item that is enabled and is
-- not the same, in both directions.
pub next_item_finds :
    (d : Bool) (ts : List MarkItem) (i j : ℕ)
    → i < length ts
    → j < length ts
    → j ≢ i
    → is_enabled_at ts j ≡ true
    → (k : ℕ) × ((next_item d ts (some i) ≡ some k) × ((k ≢ i) × (is_enabled_at ts k ≡ true)))
unfolding next_item
next_item_finds d ts i j hi hj other h =
    let n = length ts in
    let (p, (q, r)) = place-steps d n i j hi hj other in
    let z = ap (is_enabled_at ts) p ∙ h in
    let (y, (f, (a, (b, c)))) =
      loop_finds d ts i hi (n - 1) 0 (steps d n i j) (omega arith) q r z in
    let some_item : (n == 0) ≡ false = ground arith in
    let from = ap (λ v. next_loop (n - 1) d ts (some v)) (sym (place-start d n i hi)) in
    (place d n i y, (rw (some_item) (from ∙ f), (place_moves d n i y hi a b, c)))
