-- ===== src/BList/Tests.antt =====
-- Runs of BList, and inputs for the theorems.
use libb.Prelude.{ℕ, ◌≡◌, refl, List, [], ◌∷◌, ◌++◌, true, replicate, arith}
use libb.Prelude.Int.{pos}
use libb.BList.{done, add_list, copy_items, add_item_at, item_at, remove_item_at}
use libb.BList.Items.{add_list-replicate, remove_item_at-add_item_at}

-- The items of the second list do not arrive.
add_list_nulls : add_list (7 ∷ 8 ∷ []) (5 ∷ []) ≡ (true, 5 ∷ 0 ∷ 0 ∷ [])
unfolding add_list copy_items
add_list_nulls = refl

add_list-replicate_example : add_list (7 ∷ 8 ∷ []) (5 ∷ []) ≡ (true, (5 ∷ []) ++ replicate 2 0)
add_list-replicate_example = add_list-replicate (7 ∷ 8 ∷ []) (5 ∷ [])

remove_item_at-add_item_at_example :
    (ys : List ℕ) × (add_item_at 9 (pos 1) (5 ∷ 6 ∷ []) ≡ done (true, ys))
    × (item_at (pos 1) ys ≡ 9)
    × (remove_item_at (pos 1) ys ≡ done (9, 5 ∷ 6 ∷ []))
remove_item_at-add_item_at_example = remove_item_at-add_item_at 9 1 (5 ∷ 6 ∷ []) (omega arith)
