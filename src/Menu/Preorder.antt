-- ===== src/Menu/Preorder.antt =====
-- BMenu::FindItem: the search through the submenus is the search in one list of items.
use libb.Prelude.{
  ℕ, ◌≡◌, refl, sym, ap, ◌∙◌, inl, inr, List, [], ◌∷◌, ◌++◌, Option, none, some, Bool, false, ◌==◌,
  if◌then◌else◌, Bool-cases,
}
use libb.Menu.{
  Entry, Item, plain, with_submenu, Menu, empty, items, entry_of, found_or, has_label, find_command,
  find_command_below, find_name, find_name_below,
}

-- The items of a menu, each one before those of its submenu.
unfoldable mutual
  pub listed : Menu → List Entry
  listed empty = []
  listed (items i m) = listed_item i ++ listed m

  pub listed_item : Item → List Entry
  listed_item (plain e) = e ∷ []
  listed_item (with_submenu e m) = e ∷ listed m

unfoldable pub first_where : (Entry → Bool) → List Entry → Option Entry
first_where t [] = none
first_where t (e ∷ es) = if t e then some e else first_where t es

abbrev or_else : Option Entry → Option Entry → Option Entry
or_else none b = b
or_else (some a) b = some a

first_where-append :
    (t : Entry → Bool) (xs ys : List Entry)
    → first_where t (xs ++ ys) ≡ or_else (first_where t xs) (first_where t ys)
unfolding first_where
first_where-append t [] ys = refl
first_where-append t (x ∷ xs) ys = elim (Bool-cases (t x)) [
  | inl e ↦ rw (e) refl
  | inr e ↦ rw (e, first_where-append t xs ys) refl
]

-- One item and its submenu against the rest of the menu.
found_or-plain :
    (t : Entry → Bool) (e : Entry) (later : Option Entry)
    → found_or (t e) e none later ≡ or_else (first_where t (e ∷ [])) later
unfolding first_where
found_or-plain t e later = elim (Bool-cases (t e)) [ inl h ↦ rw (h) refl | inr h ↦ rw (h) refl ]

found_or-submenu :
    (t : Entry → Bool) (e : Entry) (es : List Entry) (later : Option Entry)
    → found_or (t e) e (first_where t es) later ≡ or_else (first_where t (e ∷ es)) later
unfolding first_where
found_or-submenu t e es later = elim (Bool-cases (t e)) [
  | inl h ↦ rw (h) refl
  | inr h ↦ rw (h) (found_or-later (first_where t es))
]
  where
    found_or-later : (o : Option Entry) → found_or false e o later ≡ or_else o later
    found_or-later none = refl
    found_or-later (some a) = refl

mutual
  unfolding find_command listed first_where

  find_command-listed_at :
      (c : ℕ) (m : Menu) → find_command c m ≡ first_where (λ e. e.command == c) (listed m)
  find_command-listed_at c empty = refl
  find_command-listed_at c (items i m) =
      find_command_item-listed c i (find_command c m)
      ∙ ap (or_else (first_where (λ e. e.command == c) (listed_item i)))
          (find_command-listed_at c m)
      ∙ sym (first_where-append (λ e. e.command == c) (listed_item i) (listed m))

  find_command_item-listed :
      (c : ℕ) (i : Item) (later : Option Entry)
      → found_or ((entry_of i).command == c) (entry_of i) (find_command_below c i) later
        ≡ or_else (first_where (λ e. e.command == c) (listed_item i)) later
  find_command_item-listed c (plain e) later = found_or-plain (λ e. e.command == c) e later
  find_command_item-listed c (with_submenu e m) later =
      rw (find_command-listed_at c m) (found_or-submenu (λ e. e.command == c) e (listed m) later)

mutual
  unfolding find_name listed first_where

  find_name-listed_at :
      (s : List ℕ) (m : Menu) → find_name s m ≡ first_where (λ e. has_label s e.label) (listed m)
  find_name-listed_at s empty = refl
  find_name-listed_at s (items i m) =
      find_name_item-listed s i (find_name s m)
      ∙ ap (or_else (first_where (λ e. has_label s e.label) (listed_item i)))
          (find_name-listed_at s m)
      ∙ sym (first_where-append (λ e. has_label s e.label) (listed_item i) (listed m))

  find_name_item-listed :
      (s : List ℕ) (i : Item) (later : Option Entry)
      → found_or (has_label s (entry_of i).label) (entry_of i) (find_name_below s i) later
        ≡ or_else (first_where (λ e. has_label s e.label) (listed_item i)) later
  find_name_item-listed s (plain e) later = found_or-plain (λ e. has_label s e.label) e later
  find_name_item-listed s (with_submenu e m) later =
      rw (find_name-listed_at s m) (found_or-submenu (λ e. has_label s e.label) e (listed m) later)

-- Both calls of FindItem find the first item of the list of all items, submenus included, that has the
-- command or the label.
pub find_item-listed :
    (c : ℕ) (s : List ℕ) (m : Menu)
    → (find_command c m ≡ first_where (λ e. e.command == c) (listed m))
      × (find_name s m ≡ first_where (λ e. has_label s e.label) (listed m))
find_item-listed c s m = (find_command-listed_at c m, find_name-listed_at s m)
