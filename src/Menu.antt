-- ===== src/Menu.antt =====
-- kits/interface/Menu.cpp: the items of a menu and of its submenus, which are a finite tree, the search
-- for an item, and the two modes of a menu.
pub mod Preorder
pub mod Marks
pub mod Radio
pub mod Next
mod Tests
use libb.Prelude.{
  ℕ, zero, suc, ◌≡◌, List, [], ◌∷◌, Option, none, some, Bool, true, false, ◌&&◌, ◌==◌,
}
use libb.Message.{bytes_eq}

-- What an item says of itself: `Command()` is 0 without a message, and `Label()` may be null.
pub record Entry : Type 0 where
  pub id : ℕ
  pub command : ℕ
  pub label : Option (List ℕ)

-- An item with its submenu, if any, and a menu with its items.
mutual
  pub data Item : Type 0 where
    plain : Entry → Item
    with_submenu : Entry → Menu → Item

  pub data Menu : Type 0 where
    empty : Menu
    items : Item → Menu → Menu

abbrev pub entry_of : Item → Entry
entry_of (plain e) = e
entry_of (with_submenu e m) = e

-- The item that matches, or else what its submenu gives, or else what the later items give.
abbrev pub found_or : Bool → Entry → Option Entry → Option Entry → Option Entry
found_or true e inner later = some e
found_or false e (some i) later = some i
found_or false e none later = later

-- `item->Label() && strcmp(item->Label(), name) == 0`
abbrev pub has_label : List ℕ → Option (List ℕ) → Bool
has_label name none = false
has_label name (some l) = bytes_eq l name

-- `FindItem(command)`
unfoldable mutual
  pub find_command : ℕ → Menu → Option Entry
  find_command c empty = none
  find_command c (items i m) =
      found_or ((entry_of i).command == c) (entry_of i) (find_command_below c i) (find_command c m)

  pub find_command_below : ℕ → Item → Option Entry
  find_command_below c (plain e) = none
  find_command_below c (with_submenu e m) = find_command c m

-- `FindItem(name)`
unfoldable mutual
  pub find_name : List ℕ → Menu → Option Entry
  find_name s empty = none
  find_name s (items i m) =
      found_or (has_label s (entry_of i).label) (entry_of i) (find_name_below s i) (find_name s m)

  pub find_name_below : List ℕ → Item → Option Entry
  find_name_below s (plain e) = none
  find_name_below s (with_submenu e m) = find_name s m

-- `CountItems()`, `ItemAt(index)`
unfoldable pub count_items : Menu → ℕ
count_items empty = 0
count_items (items i m) = suc (count_items m)

unfoldable pub item_at : ℕ → Menu → Option Item
item_at n empty = none
item_at zero (items i m) = some i
item_at (suc n) (items i m) = item_at n m

-- `SubmenuAt(index)`
abbrev pub submenu_of : Option Item → Option Menu
submenu_of none = none
submenu_of (some (plain e)) = none
submenu_of (some (with_submenu e m)) = some m

unfoldable pub submenu_at : ℕ → Menu → Option Menu
submenu_at n m = submenu_of (item_at n m)

-- `fRadioMode` and `fDynamicName`
pub record Modes : Type 0 where
  pub radio : Bool
  pub dynamic_name : Bool

-- `SetRadioMode(on)`, whose call of `SetLabelFromMarked(false)` does no more than clear the name.
abbrev pub set_radio_mode : Bool → Modes → Modes
set_radio_mode true s = record s { radio = true }
set_radio_mode false s = record s { radio = false; dynamic_name = false }

-- `SetLabelFromMarked(on)`
abbrev pub set_label_from_marked : Bool → Modes → Modes
set_label_from_marked true s = set_radio_mode true (record s { dynamic_name = true })
set_label_from_marked false s = record s { dynamic_name = false }
