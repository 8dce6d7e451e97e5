-- ===== src/Menu/Tests.antt =====
-- BMenu: a menu with a submenu, its modes and witnesses of the theorems.
use libb.Prelude.{ℕ, ◌≡◌, ◌≢◌, refl, List, [], ◌∷◌, none, some, Bool, true, false, arith, ◌==◌}
use libb.Menu.{
  Entry, plain, with_submenu, Menu, empty, items, has_label, find_command, find_name, count_items,
  item_at, submenu_at,
}
use libb.Menu.Marks.{
  MarkItem, Marks, unmark_others, put_mark, set_marked, insert_item, add_item_marked, is_enabled_at,
  next_loop, next_item,
}
use libb.Menu.Radio.{IsRadio, occurrences, empty_menu, added, marking, Reach-IsRadio}
use libb.Menu.Next.{next_item_finds}
use libb.Menu.Preorder.{listed, first_where, find_item-listed}

abbrev entry : ℕ → ℕ → Entry
entry i c = record { id = i; command = c; label = some (c ∷ []) }

abbrev nested : Menu
nested = items (plain (entry 2 7)) (items (plain (entry 3 8)) empty)

abbrev bar : Menu
bar = items (with_submenu (entry 1 5) nested) (items (plain (entry 4 8)) empty)

submenu_first : find_command 8 bar ≡ some (entry 3 8)
unfolding find_command
submenu_first = refl

second_submenu : submenu_at 1 bar ≡ none
unfolding submenu_at item_at
second_submenu = refl

two_items : count_items bar ≡ 2
unfolding count_items
two_items = refl

find_item-listed_example :
    (find_command 8 bar ≡ first_where (λ e. e.command == 8) (listed bar))
    × (find_name (7 ∷ []) bar ≡ first_where (λ e. has_label (7 ∷ []) e.label) (listed bar))
find_item-listed_example = find_item-listed 8 (7 ∷ []) bar

abbrev choice : ℕ → Bool → Bool → MarkItem
choice i m e = record { id = i; label = some (i ∷ []); mark = m; enabled = e }

abbrev radio_menu : List MarkItem → Marks
radio_menu ts = record {
  entries = ts;
  modes = record { radio = true; dynamic_name = true };
  super_label = some none;
}

-- The second item takes the mark, and gives its label to the item above.
abbrev second_marked : Marks
second_marked = record (radio_menu (choice 1 false true ∷ choice 2 true true ∷ [])) {
  super_label = some (some (2 ∷ []));
}

mark_second :
    set_marked
      (choice 2 false true)
      true
      (radio_menu (choice 1 true true ∷ choice 2 false true ∷ []))
    ≡ second_marked
unfolding set_marked put_mark unmark_others
mark_second = refl

-- Without an item to start from the last one is not looked at.
not_last : next_item true (choice 1 false false ∷ choice 2 false true ∷ []) none ≡ none
unfolding next_item next_loop
not_last = refl

around :
    next_item true (choice 1 false true ∷ choice 2 false false ∷ choice 3 false true ∷ []) (some 2)
    ≡ some 0
unfolding next_item next_loop
around = refl

abbrev first_added : Marks
first_added = (add_item_marked true (choice 1 true true) 0 (radio_menu [])).1

new_first : occurrences 1 [] ≡ 0
unfolding occurrences
new_first = refl

new_second : occurrences 2 first_added.entries ≡ 0
unfolding add_item_marked insert_item unmark_others occurrences
new_second = refl

Reach-IsRadio_example : IsRadio (
    set_marked
      (choice 2 false true)
      true
      ((add_item_marked true (choice 2 false true) 1 first_added).1))
Reach-IsRadio_example = Reach-IsRadio (
    marking (choice 2 false true) true (
      added true (choice 2 false true) 1
        (added true (choice 1 true true) 0
          (empty_menu (record { radio = true; dynamic_name = true }) (some none)) new_first)
        new_second))

abbrev three : List MarkItem
three = choice 1 false true ∷ choice 2 false false ∷ choice 3 false true ∷ []

next_item_finds_example :
    (k : ℕ) × ((next_item true three (some 2) ≡ some k)
      × ((k ≢ 2) × (is_enabled_at three k ≡ true)))
next_item_finds_example =
    next_item_finds true three 2 0 (omega arith) (omega arith) (omega arith) refl
