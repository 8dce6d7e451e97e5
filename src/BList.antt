-- ===== src/BList.antt =====
-- kits/support/List.cpp: BList, a vector of pointers. A pointer is an address, a number, and null is 0.
-- An index outside the vector makes an iterator that must not be used: `fault`.
pub mod Items
mod Tests
use libb.Prelude.{
  ℕ, zero, suc, ◌+◌, ◌-◌, ◌≡◌, List, [], ◌∷◌, ◌++◌, Option, none, some, Bool, true, false, ◌||◌,
  ◌&&◌, not, if◌then◌else◌, ◌==◌, ltb, leb, length, take, drop, get_elem?, set, replicate,
}
use libb.Prelude.Int.{ℤ, pos, negsuc}

pub data Outcome {ℓ} (A : Type ℓ) : Type ℓ where
  done : A → Outcome A
  fault : Outcome A

-- The pointer in a place, and null outside.
abbrev pub or_null : Option ℕ → ℕ
or_null none = 0
or_null (some x) = x

-- `AddItem(item)`
unfoldable pub add_item : ℕ → List ℕ → Bool × List ℕ
add_item item xs = (true, xs ++ (item ∷ []))

-- `DATA->insert(DATA->begin() + i, item)`
abbrev pub insert : List ℕ → ℕ → ℕ → List ℕ
insert xs i item = take i xs ++ (item ∷ drop i xs)

-- `AddItem(item, atIndex)`: `insert` does not give the end of the vector.
unfoldable pub add_item_at : ℕ → ℤ → List ℕ → Outcome (Bool × List ℕ)
add_item_at item (negsuc i) xs = fault
add_item_at item (pos i) xs =
    if i == length xs
    then done (add_item item xs)
    else (if ltb i (length xs) then done (true, insert xs i item) else fault)

-- `DATA->resize(n)`
abbrev pub resize : ℕ → List ℕ → List ℕ
resize n xs = take n xs ++ replicate (n - length xs) 0

-- `for (source, dest; dest < newSize; source++, dest++) (*DATA)[dest] = (*newItems)[source];` with
-- `n` as the number of turns.
unfoldable pub copy_items : ℕ → ℕ → ℕ → List ℕ → List ℕ → List ℕ
copy_items zero source dest items xs = xs
copy_items (suc n) source dest items xs =
    copy_items n (suc source) (suc dest) items (set xs dest (or_null (get_elem? items source)))

-- `AddList(newItems)`: `dest` starts at the size after `resize`.
unfoldable pub add_list : List ℕ → List ℕ → Bool × List ℕ
add_list items xs =
    let new_size = length xs + length items in
    let ys = resize new_size xs in (true, copy_items (new_size - length ys) 0 (length ys) items ys)

-- `std::find`: the index of the first match.
unfoldable pub find_index : ℕ → List ℕ → Option ℕ
find_index item [] = none
find_index item (x ∷ xs) =
    let rest = find_index item xs in
    if x == item then some 0 else elim rest [ none ↦ none | some i ↦ some (suc i) ]

-- `DATA->erase(DATA->begin() + i)`
abbrev pub erase : ℕ → List ℕ → List ℕ
erase i xs = take i xs ++ drop (suc i) xs

-- `RemoveItem(item)`
unfoldable pub remove_item : ℕ → List ℕ → Bool × List ℕ
remove_item item xs = elim (find_index item xs) [ none ↦ (false, xs) | some i ↦ (true, erase i xs) ]

-- `RemoveItem(index)`
unfoldable pub remove_item_at : ℤ → List ℕ → Outcome (ℕ × List ℕ)
remove_item_at (negsuc i) xs = fault
remove_item_at (pos i) xs =
    if i == length xs
    then done (0, xs)
    else (elim (get_elem? xs i) [ none ↦ fault | some x ↦ done (x, erase i xs) ])

-- `DATA->erase(begin, begin + count)` for an index that is not the end.
abbrev pub remove_count : ℕ → ℤ → List ℕ → Outcome (Bool × List ℕ)
remove_count i (negsuc n) xs = fault
remove_count i (pos n) xs =
    if leb (i + n) (length xs) then done (true, take i xs ++ drop (i + n) xs) else fault

-- `RemoveItems(index, count)`
unfoldable pub remove_items : ℤ → ℤ → List ℕ → Outcome (Bool × List ℕ)
remove_items (negsuc i) count xs = fault
remove_items (pos i) count xs = if i == length xs then done (false, xs) else remove_count i count xs

-- `ItemAt(index)`: `at` throws out of range.
unfoldable pub item_at : ℤ → List ℕ → ℕ
item_at (negsuc i) xs = 0
item_at (pos i) xs = or_null (get_elem? xs i)

-- `IndexOf(item)`
unfoldable pub index_of : ℕ → List ℕ → ℤ
index_of item xs = elim (find_index item xs) [ none ↦ negsuc 0 | some i ↦ pos i ]

unfoldable pub has_item : ℕ → List ℕ → Bool
has_item item xs = elim (find_index item xs) [ none ↦ false | some i ↦ true ]

unfoldable pub first_item : List ℕ → ℕ
first_item [] = 0
first_item (x ∷ xs) = x

unfoldable pub last_item : List ℕ → ℕ
last_item [] = 0
last_item (x ∷ xs) = or_null (get_elem? (x ∷ xs) (length xs))

abbrev pub count_items : List ℕ → ℕ
count_items xs = length xs

-- `BList(initialAllocSize)`: the vector is made with that many null pointers.
abbrev pub new_list : ℕ → List ℕ
new_list n = replicate n 0
