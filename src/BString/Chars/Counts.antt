-- ===== src/BString/Chars/Counts.antt =====
-- BString: the number of characters after an edit that counts characters.
use libb.Prelude.{
  ℕ, zero, suc, ◌+◌, ◌-◌, ◌≤◌, ◌≡◌, refl, sym, ap, inl, inr, List, [], ◌∷◌, ◌++◌, append-nil,
  take_all, Bool, true, false, not, ◌==◌, ltb, min, length, take, drop, All, All-append, arith,
  take-append-drop, Bool-cases, ltb→ge,
}
use libb.Prelude.Int.{pos}
use libb.Utf8.{is_inside_glyph, count_bytes, count_starts, utf8_count_bytes}
use libb.Utf8.Counts.{
  count_starts-append, count_starts-count_bytes, count_starts-drop_bytes, count_bytes-le,
}
use libb.BString.{min_clamp0, done, other, c_str, count_chars, append_string}
use libb.BString.Editing.{remove}
use libb.BString.Chars.{append_chars, remove_chars}

-- No byte of the string is NUL.
abbrev pub HasNoNul : List ℕ → Type 0
HasNoNul s = All (λ b. (b == 0) ≡ false) s

c_str-HasNoNul : (s : List ℕ) → HasNoNul s → c_str s ≡ s
unfolding c_str
c_str-HasNoNul [] h = refl
c_str-HasNoNul (b ∷ s) h = rw (c_str, h.0) (ap (λ r. b ∷ r) (c_str-HasNoNul s h.1))

take-HasNoNul : (n : ℕ) (s : List ℕ) → HasNoNul s → HasNoNul (take n s)
take-HasNoNul zero s h = tt
take-HasNoNul (suc n) [] h = tt
take-HasNoNul (suc n) (b ∷ s) h = (h.0, take-HasNoNul n s h.1)

drop-HasNoNul : (n : ℕ) (s : List ℕ) → HasNoNul s → HasNoNul (drop n s)
drop-HasNoNul zero s h = h
drop-HasNoNul (suc n) [] h = tt
drop-HasNoNul (suc n) (b ∷ s) h = drop-HasNoNul n s h.1

count_chars-HasNoNul : (s : List ℕ) → HasNoNul s → count_chars s ≡ count_starts s
unfolding count_chars
count_chars-HasNoNul s h = ap count_starts (c_str-HasNoNul s h)

drop_all : (n : ℕ) (s : List ℕ) → length s ≤ n → drop n s ≡ []
drop_all zero [] h = refl
drop_all zero (b ∷ s) h = absurd (omega arith)
drop_all (suc n) [] h = refl
drop_all (suc n) (b ∷ s) h = drop_all n s (omega arith)

drop-drop : (k m : ℕ) (s : List ℕ) → drop m (drop k s) ≡ drop (k + m) s
drop-drop zero m s = let e : 0 + m ≡ m = omega arith in rw (e) refl
drop-drop (suc k) m [] =
    rw (drop_all m [] (omega arith), drop_all (suc k + m) [] (omega arith)) refl
drop-drop (suc k) m (b ∷ s) =
    let e : suc k + m ≡ suc (k + m) = omega arith in rw (e) (drop-drop k m s)

-- What `remove` does from an index in the string.
pub remove_within :
    (k m : ℕ) (s : List ℕ)
    → k ≤ length s
    → remove (pos k) (pos m) s ≡ done (take k s ++ drop (k + m) s)
unfolding remove
remove_within k zero s h =
    let e : k + 0 ≡ k = omega arith in rw (e) (ap done (sym (take-append-drop k s)))
remove_within k (suc m) s h = elim (Bool-cases (ltb k (length s))) [
  | inl e ↦ rw (e) refl
  | inr e ↦
      rw
        (
          e,
          take_all k s (ltb→ge k (length s) e),
          drop_all (k + suc m) s (omega (arith, ltb→ge k (length s) e)),
          append-nil s,
        )
        refl
]

-- A string starts with a character, or is empty.
abbrev pub starts : List ℕ → Bool
starts [] = true
starts (b ∷ s) = not (is_inside_glyph b)

-- What UTF8CountBytes leaves starts with a character.
starts-count_bytes : (n : ℕ) (s : List ℕ) → starts (drop (count_bytes n s) s) ≡ true
unfolding count_bytes
starts-count_bytes zero [] = refl
starts-count_bytes (suc n) [] = refl
starts-count_bytes zero (b ∷ s) = elim (Bool-cases (is_inside_glyph b)) [
  | inl e ↦ rw (count_bytes, e) (starts-count_bytes zero s)
  | inr e ↦ rw (count_bytes, e) (rw (e) refl)
]
starts-count_bytes (suc n) (b ∷ s) = elim (Bool-cases (is_inside_glyph b)) [
  | inl e ↦ rw (count_bytes, e) (starts-count_bytes (suc n) s)
  | inr e ↦ rw (count_bytes, e) (starts-count_bytes n s)
]

-- RemoveChars from character `f` on of a string without NUL throws nothing and takes out a middle part:
-- before it are the first `f` characters, or all if there are fewer, it has the next `n` characters, or
-- all that are left, and it and what is behind it start with a character.
pub remove_chars-count_chars :
    (f n : ℕ) (s : List ℕ)
    → HasNoNul s
    → (xs ys zs : List ℕ) × ((s ≡ xs ++ (ys ++ zs))
        × ((remove_chars (pos f) (pos n) s ≡ done (xs ++ zs))
            × ((count_chars xs ≡ min f (count_chars s))
                × ((count_chars ys ≡ min n (count_chars s - f))
                    × ((starts (ys ++ zs) ≡ true) × (starts zs ≡ true))))))
unfolding remove_chars utf8_count_bytes
remove_chars-count_chars f n s h =
    let k = count_bytes f s in
    let m = count_bytes n (drop k s) in
    let whole = take-append-drop m (drop k s) in
    (
      take k s,
      take m (drop k s),
      drop m (drop k s),
      (
        rw (whole, take-append-drop k s) refl,
        (
          rw (c_str-HasNoNul s h, drop-drop k m s) (remove_within k m s (count_bytes-le f s)),
          (
            rw (count_chars-HasNoNul (take k s) (take-HasNoNul k s h), count_chars-HasNoNul s h)
                (count_starts-count_bytes f s),
            (
              rw
                  (
                    count_chars-HasNoNul (take m (drop k s))
                        (take-HasNoNul m (drop k s) (drop-HasNoNul k s h)),
                    count_chars-HasNoNul s h,
                    count_starts-count_bytes n (drop k s),
                    count_starts-drop_bytes f s,
                  )
                  refl,
              (rw (whole) (starts-count_bytes f s), starts-count_bytes n (drop k s)),
            ),
          ),
        ),
      ),
    )

-- AppendChars adds the first `n` characters of another string, or all of them if there are fewer; the
-- strings hold no NUL.
pub count_chars-append_chars :
    (n : ℕ) (xs s : List ℕ)
    → HasNoNul xs
    → HasNoNul s
    → count_chars (append_chars (other xs) (pos n) s) ≡ count_chars s + min n (count_chars xs)
unfolding append_chars append_string utf8_count_bytes
count_chars-append_chars n xs s g h =
    let k = count_bytes n xs in
    let rest : HasNoNul (s ++ take k xs) =
      All-append (λ b. (b == 0) ≡ false) s (take k xs) h (take-HasNoNul k xs g) in
    let m : min_clamp0 (pos k) (pos (length xs)) ≡ k = ground (arith, count_bytes-le n xs) in
    rw
      (
        c_str-HasNoNul xs g,
        m,
        count_chars-HasNoNul (s ++ take k xs) rest,
        count_chars-HasNoNul s h,
        count_chars-HasNoNul xs g,
        count_starts-append s (take k xs),
        count_starts-count_bytes n xs,
      )
      refl
