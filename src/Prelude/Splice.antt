-- ===== src/Prelude/Splice.antt =====
-- `memcpy(data + p, src, n)` into a block: the bytes from `p` on are replaced.
use libb.Prelude.{
  ℕ, zero, suc, ◌+◌, ◌-◌, ◌≤◌, ◌<◌, ◌≡◌, refl, ap, ◌∙◌, List, [], ◌∷◌, ◌++◌, some, arith, length,
  length-append, length-take, length-drop, take, drop, get_elem?,
}
use libb.Prelude.Bytes.{read_bytes, read_bytes-append}

unfoldable pub splice : ℕ → List ℕ → List ℕ → List ℕ
splice p src xs = take p xs ++ (src ++ drop (p + length src) xs)

pub length-splice :
    (p : ℕ) (src xs : List ℕ) → p + length src ≤ length xs → length (splice p src xs) ≡ length xs
unfolding splice
length-splice p src xs h = omega (
  arith,
  length-append (take p xs) (src ++ drop (p + length src) xs),
  length-append src (drop (p + length src) xs),
  length-take p xs,
  length-drop (p + length src) xs,
)

drop-take-append : (p : ℕ) (xs ys : List ℕ) → p ≤ length xs → drop p (take p xs ++ ys) ≡ ys
drop-take-append zero xs ys h = refl
drop-take-append (suc p) [] ys h = absurd (omega arith)
drop-take-append (suc p) (x ∷ xs) ys h = drop-take-append p xs ys (omega arith)

-- What was copied in is read back.
pub read-splice :
    (p : ℕ) (src xs : List ℕ)
    → p + length src ≤ length xs
    → read_bytes (length src) (drop p (splice p src xs)) ≡ some (src, drop (p + length src) xs)
unfolding splice
read-splice p src xs h =
    rw (drop-take-append p xs (src ++ drop (p + length src) xs) (omega arith))
      (read_bytes-append src (drop (p + length src) xs))

get_elem?-take :
    (p i : ℕ) (xs ys : List ℕ)
    → i < p
    → i < length xs
    → get_elem? (take p xs ++ ys) i ≡ get_elem? xs i
get_elem?-take zero i xs ys h k = elim h [ ]
get_elem?-take (suc p) i [] ys h k = elim k [ ]
get_elem?-take (suc p) zero (x ∷ xs) ys h k = refl
get_elem?-take (suc p) (suc i) (x ∷ xs) ys h k =
    get_elem?-take p i xs ys (omega arith) (omega arith)

get_elem?-append_right :
    (xs ys : List ℕ) (i : ℕ) → get_elem? (xs ++ ys) (length xs + i) ≡ get_elem? ys i
get_elem?-append_right [] ys i =
    let e : length {A = ℕ} [] + i ≡ i = omega arith in ap (get_elem? ys) e
get_elem?-append_right (x ∷ xs) ys i =
    let e : length (x ∷ xs) + i ≡ suc (length xs + i) = omega arith in
    ap (get_elem? (x ∷ (xs ++ ys))) e ∙ get_elem?-append_right xs ys i

get_elem?-drop : (n i : ℕ) (xs : List ℕ) → get_elem? (drop n xs) i ≡ get_elem? xs (n + i)
get_elem?-drop zero i xs = let e : i ≡ 0 + i = omega arith in ap (get_elem? xs) e
get_elem?-drop (suc n) i [] = refl
get_elem?-drop (suc n) i (x ∷ xs) =
    let e : suc (n + i) ≡ suc n + i = omega arith in
    get_elem?-drop n i xs ∙ ap (get_elem? (x ∷ xs)) e

-- The bytes before and behind the copy stay.
pub get_elem?-splice_before :
    (p i : ℕ) (src xs : List ℕ)
    → i < p
    → i < length xs
    → get_elem? (splice p src xs) i ≡ get_elem? xs i
unfolding splice
get_elem?-splice_before p i src xs h k = get_elem?-take p i xs (src ++ drop (p + length src) xs) h k

pub get_elem?-splice_behind :
    (p i : ℕ) (src xs : List ℕ)
    → p + length src ≤ i
    → i < length xs
    → get_elem? (splice p src xs) i ≡ get_elem? xs i
unfolding splice
get_elem?-splice_behind p i src xs h k =
    let q = i - p - length src in
    let rest = drop (p + length src) xs in
    ap (get_elem? (take p xs ++ (src ++ rest)))
      (let e : i ≡ length (take p xs) + (length src + q) = omega (arith, length-take p xs) in e)
    ∙ (get_elem?-append_right (take p xs) (src ++ rest) (length src + q)
        ∙ (get_elem?-append_right src rest q
            ∙ (get_elem?-drop (p + length src) q xs ∙ ap (get_elem? xs) (omega arith))))
