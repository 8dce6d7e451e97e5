-- ===== src/Utf8/Counts.antt =====
-- How the counts of bytes and of characters fit.
use libb.Prelude.{
  ℕ, zero, suc, ◌+◌, ◌-◌, ◌≤◌, ◌≡◌, sym, ap, ◌∙◌, take-append-drop, inl, inr, List, [], ◌∷◌, ◌++◌,
  min, length, take, drop, arith, Bool-cases,
}
use libb.Utf8.{is_inside_glyph, count_bytes, count_starts}

pub count_starts-append :
    (xs ys : List ℕ) → count_starts (xs ++ ys) ≡ count_starts xs + count_starts ys
unfolding count_starts
count_starts-append [] ys = omega arith
count_starts-append (x ∷ xs) ys = elim (Bool-cases (is_inside_glyph x)) [
  | inl e ↦ rw (count_starts, e) (count_starts-append xs ys)
  | inr e ↦ rw (count_starts, e) (omega (arith, count_starts-append xs ys))
]

pub count_bytes-le : (n : ℕ) (s : List ℕ) → count_bytes n s ≤ length s
unfolding count_bytes
count_bytes-le zero [] = omega arith
count_bytes-le (suc n) [] = omega arith
count_bytes-le zero (b ∷ s) = elim (Bool-cases (is_inside_glyph b)) [
  | inl e ↦ rw (count_bytes, e) (omega (arith, count_bytes-le zero s))
  | inr e ↦ rw (count_bytes, e) (omega arith)
]
count_bytes-le (suc n) (b ∷ s) = elim (Bool-cases (is_inside_glyph b)) [
  | inl e ↦ rw (count_bytes, e) (omega (arith, count_bytes-le (suc n) s))
  | inr e ↦ rw (count_bytes, e) (omega (arith, count_bytes-le n s))
]

-- The prefix that UTF8CountBytes measures holds `n` characters, or all if there are fewer.
pub count_starts-count_bytes :
    (n : ℕ) (s : List ℕ) → count_starts (take (count_bytes n s) s) ≡ min n (count_starts s)
unfolding count_bytes count_starts
count_starts-count_bytes zero [] = omega arith
count_starts-count_bytes (suc n) [] = omega arith
count_starts-count_bytes zero (b ∷ s) = elim (Bool-cases (is_inside_glyph b)) [
  | inl e ↦ rw (count_bytes, count_starts, e, count_starts, e) (count_starts-count_bytes zero s)
  | inr e ↦ rw (count_bytes, count_starts, e) (omega arith)
]
count_starts-count_bytes (suc n) (b ∷ s) = elim (Bool-cases (is_inside_glyph b)) [
  | inl e ↦ rw (count_bytes, count_starts, e, count_starts, e) (count_starts-count_bytes (suc n) s)
  | inr e ↦
      rw (count_bytes, count_starts, e, count_starts, e)
        (omega (arith, count_starts-count_bytes n s))
]

-- What is left behind it.
pub count_starts-drop_bytes :
    (n : ℕ) (s : List ℕ) → count_starts (drop (count_bytes n s) s) ≡ count_starts s - n
count_starts-drop_bytes n s =
    let k = count_bytes n s in
    let e : count_starts s ≡ count_starts (take k s) + count_starts (drop k s) =
      ap count_starts (sym (take-append-drop k s)) ∙ count_starts-append (take k s) (drop k s) in
    omega (arith, e, count_starts-count_bytes n s)
