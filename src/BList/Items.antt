-- ===== src/BList/Items.antt =====
-- BList: where items go, and where they are found.
use libb.Prelude.{
  ℕ, suc, ◌+◌, ◌-◌, ◌≤◌, ◌≡◌, ◌≢◌, refl, ap, ◌∙◌, ◌⊎◌, inl, inr, List, [], ◌∷◌, ◌++◌, none, some,
  true, false, ◌==◌, ==_iff, ltb, length, length-append, length-replicate, length-take, length-drop,
  take, drop, take-append-drop, take_all, replicate, get_elem?, All, arith, Bool-cases,
}
use libb.Prelude.Int.{pos, negsuc}
use libb.BList.{
  done, add_item, add_item_at, insert, copy_items, add_list, find_index, erase, remove_item,
  remove_item_at, item_at, index_of,
}

-- AddList at the end returns true and appends as many null pointers as the list has items, whatever
-- they are: the loop that should copy them makes no turn.
pub add_list-replicate :
    (items xs : List ℕ) → add_list items xs ≡ (true, xs ++ replicate (length items) 0)
unfolding add_list copy_items
add_list-replicate items xs =
    let n = length xs + length items in
    let t : take n xs ≡ xs = take_all n xs (omega arith) in
    let k : n - length xs ≡ length items = omega arith in
    let l : length (xs ++ replicate (length items) 0) ≡ n = omega (
      arith,
      length-append xs (replicate (length items) 0),
      length-replicate {A = ℕ} (length items) 0,
    ) in
    let z : n - n ≡ 0 = omega arith in rw (add_list, t, k, l, z) refl

get_elem?-append_length : (xs ys : List ℕ) (x : ℕ) → get_elem? (xs ++ (x ∷ ys)) (length xs) ≡ some x
get_elem?-append_length [] ys x = refl
get_elem?-append_length (a ∷ xs) ys x = get_elem?-append_length xs ys x

erase-append : (xs ys : List ℕ) (x : ℕ) → erase (length xs) (xs ++ (x ∷ ys)) ≡ xs ++ ys
erase-append [] ys x = refl
erase-append (a ∷ xs) ys x = ap (λ r. a ∷ r) (erase-append xs ys x)

insert-get_elem? :
    (xs : List ℕ) (i item : ℕ) → i ≤ length xs → get_elem? (insert xs i item) i ≡ some item
insert-get_elem? xs i item h =
    let l : length (take i xs) ≡ i = omega (arith, length-take i xs) in
    rw (l) at (get_elem?-append_length (take i xs) (drop i xs) item)

insert-erase : (xs : List ℕ) (i item : ℕ) → i ≤ length xs → erase i (insert xs i item) ≡ xs
insert-erase xs i item h =
    let l : length (take i xs) ≡ i = omega (arith, length-take i xs) in
    (rw (l) at (erase-append (take i xs) (drop i xs) item)) ∙ take-append-drop i xs

drop-length : (xs : List ℕ) → drop (length xs) xs ≡ []
drop-length [] = refl
drop-length (x ∷ xs) = drop-length xs

insert_end : (item i : ℕ) (xs : List ℕ) → i ≡ length xs → insert xs i item ≡ xs ++ (item ∷ [])
insert_end item i xs e = rw (e, drop-length xs, take_all (length xs) xs (omega arith)) refl

-- What AddItem does at an index up to the number of items.
add_item_at-insert :
    (item i : ℕ) (xs : List ℕ)
    → i ≤ length xs
    → add_item_at item (pos i) xs ≡ done (true, insert xs i item)
unfolding add_item_at add_item
add_item_at-insert item i xs h = elim (Bool-cases (i == length xs)) [
  | inl e ↦ rw (add_item_at, e, insert_end item i xs ((==_iff i (length xs)).0 e)) refl
  | inr e ↦ let l : ltb i (length xs) ≡ true = ground arith in rw (add_item_at, e, l) refl
]

-- AddItem at an index up to the number of items succeeds; then ItemAt the index gives the item, and
-- RemoveItem at the index gives the item and the list as it was.
pub remove_item_at-add_item_at :
    (item i : ℕ) (xs : List ℕ)
    → i ≤ length xs
    → (ys : List ℕ) × (add_item_at item (pos i) xs ≡ done (true, ys))
      × (item_at (pos i) ys ≡ item)
      × (remove_item_at (pos i) ys ≡ done (item, xs))
unfolding remove_item_at item_at
remove_item_at-add_item_at item i xs h =
    let l : length (insert xs i item) ≡ suc (length xs) =
      omega
        (arith, length-append (take i xs) (item ∷ drop i xs), length-take i xs, length-drop i xs) in
    let ne : (i == suc (length xs)) ≡ false = ground arith in
    let g = insert-get_elem? xs i item h in
    (
      insert xs i item,
      add_item_at-insert item i xs h,
      rw (g) refl,
      rw (remove_item_at, l, ne, g, insert-erase xs i item h) refl,
    )

-- Where `std::find` stops.
find_index-cases :
    (item : ℕ) (xs : List ℕ)
    → ((ys : List ℕ) × ((zs : List ℕ) × (xs ≡ ys ++ (item ∷ zs))
          × All (λ x. x ≢ item) ys
          × (find_index item xs ≡ some (length ys))))
      ⊎ All (λ x. x ≢ item) xs × (find_index item xs ≡ none)
unfolding find_index
find_index-cases item [] = inr (tt, refl)
find_index-cases item (x ∷ xs) = elim (Bool-cases (x == item)) [
  | inl e ↦ inl ([], (xs, ap (λ r. r ∷ xs) ((==_iff x item).0 e), tt, rw (e) refl))
  | inr e ↦
      let ne : x ≢ item = λ q. ground arith in
      elim (find_index-cases item xs) [
        | inl (ys, (zs, p, a, f)) ↦
            inl (x ∷ ys, (zs, ap (λ r. x ∷ r) p, (ne, a), rw (find_index, e, f) refl))
        | inr (a, f) ↦ inr ((ne, a), rw (find_index, e, f) refl)
      ]
]

-- RemoveItem of an item removes its first occurrence and nothing else, at the place that IndexOf
-- gives; if there is none it returns false, IndexOf gives -1, and the list stays.
pub remove_item-index_of :
    (item : ℕ) (xs : List ℕ)
    → ((ys : List ℕ) × ((zs : List ℕ) × (xs ≡ ys ++ (item ∷ zs))
          × All (λ x. x ≢ item) ys
          × (remove_item item xs ≡ (true, ys ++ zs))
          × (index_of item xs ≡ pos (length ys))))
      ⊎ All (λ x. x ≢ item) xs × (remove_item item xs ≡ (false, xs)) × (index_of item xs ≡ negsuc 0)
unfolding remove_item index_of
remove_item-index_of item xs = elim (find_index-cases item xs) [
  | inl (ys, (zs, p, a, f)) ↦
      let r : erase (length ys) xs ≡ ys ++ zs = rw (p) (erase-append ys zs item) in
      inl (ys, (zs, p, a, rw (remove_item, f, r) refl, rw (index_of, f) refl))
  | inr (a, f) ↦ inr (a, rw (remove_item, f) refl, rw (index_of, f) refl)
]
