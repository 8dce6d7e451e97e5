-- ===== src/BString/RoundTrip.antt =====
-- BString: insertion and removal, and the prefix and suffix that the bounded calls take.
use libb.Prelude.{
  ℕ, ◌+◌, ◌≤◌, ◌≡◌, refl, sym, ap, ◌∙◌, List, ◌++◌, some, true, leb, length, take, drop,
  length-append, length-take, length-drop, arith, ge→ltb, take-append-drop, append_assoc,
  take-length-append, drop-length-append,
}
use libb.Prelude.Int.{pos}
use libb.BString.{done}
use libb.BString.Editing.{insert_all, remove}
use libb.BString.Chars.Counts.{remove_within}

le→leb : (a b : ℕ) → a ≤ b → leb a b ≡ true
le→leb a b h = ground arith

take-length_append : (p : ℕ) (xs ys : List ℕ) → length xs ≡ p → take p (xs ++ ys) ≡ xs
take-length_append p xs ys e = rw (sym e) (take-length-append xs ys)

drop-length_add :
    (p : ℕ) (xs ys zs : List ℕ) → length xs ≡ p → drop (p + length ys) (xs ++ (ys ++ zs)) ≡ zs
drop-length_add p xs ys zs e =
    let l : p + length ys ≡ length (xs ++ ys) = omega (arith, length-append xs ys, e) in
    rw (l, sym (append_assoc xs ys zs)) (drop-length-append (xs ++ ys) zs)

-- Insert of a C string at an index up to the end succeeds, and Remove of as many bytes from that index
-- then gives the string back.
pub remove-insert_all :
    (p : ℕ) (xs s : List ℕ)
    → p ≤ length s
    → (s' : List ℕ) × (insert_all (some xs) (pos p) s ≡ done s')
      × (length s' ≡ length s + length xs)
      × (remove (pos p) (pos (length xs)) s' ≡ done s)
unfolding insert_all
remove-insert_all p xs s h =
    let t : length (take p s) ≡ p = omega (arith, length-take p s) in
    let r = take p s ++ (xs ++ drop p s) in
    let l : length r ≡ length s + length xs = omega (
      arith,
      length-append (take p s) (xs ++ drop p s),
      length-append xs (drop p s),
      length-take p s,
      length-drop p s,
    ) in
    (
      r,
      rw (le→leb p (length s) h, ge→ltb (length s) p h) refl,
      l,
      remove_within p (length xs) r (omega (arith, l))
          ∙ rw
              (
                take-length_append p (take p s) (xs ++ drop p s) t,
                drop-length_add p (take p s) xs (drop p s) t,
              )
              (ap done (take-append-drop p s)),
    )
