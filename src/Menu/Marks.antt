-- ===== src/Menu/Marks.antt =====
-- kits/interface/Menu.cpp and MenuItem.cpp: the marks of the items of a menu, with radio mode and the
-- label that the item above the menu takes from the marked one.
use libb.Prelude.{
  ℕ, zero, suc, List, [], ◌∷◌, Option, none, some, Bool, true, false, ◌-◌, if◌then◌else◌, ◌==◌, ltb,
  length,
}
use libb.Menu.{Modes}

-- A `BMenuItem`: which one it is, `fLabel`, `fMark` and `IsEnabled()`.
pub record MarkItem : Type 0 where
  pub id : ℕ
  pub label : Option (List ℕ)
  pub mark : Bool
  pub enabled : Bool

-- `fItems`, `fRadioMode` and `fDynamicName`, and the label of `Superitem()`, if there is one.
pub record Marks : Type 0 where
  pub entries : List MarkItem
  pub modes : Modes
  pub super_label : Option (Option (List ℕ))

-- `ItemAt(i)->SetMarked(false)` for the items other than one, which reaches no other item.
unfoldable pub unmark_others : ℕ → List MarkItem → List MarkItem
unmark_others j [] = []
unmark_others j (t ∷ ts) = (if t.id == j then t else record t { mark = false }) ∷ unmark_others j ts

-- `fMark = state` of one item.
unfoldable pub put_mark : ℕ → Bool → List MarkItem → List MarkItem
put_mark j b [] = []
put_mark j b (t ∷ ts) = (if t.id == j then record t { mark = b } else t) ∷ put_mark j b ts

abbrev pub relabelled : Option (List ℕ) → Option (Option (List ℕ)) → Option (Option (List ℕ))
relabelled l none = none
relabelled l (some old) = some l

-- `_ItemMarked(item)` for an item and its label, and the same lines of `_AddItem`.
abbrev pub item_marked : ℕ → Option (List ℕ) → Marks → Marks
item_marked j l s = record {
  entries = if s.modes.radio then unmark_others j s.entries else s.entries;
  modes = s.modes;
  super_label = if s.modes.dynamic_name then relabelled l s.super_label else s.super_label;
}

-- `SetMarked(state)` of an item of the menu.
unfoldable pub set_marked : MarkItem → Bool → Marks → Marks
set_marked t true s = item_marked t.id t.label (record s { entries = put_mark t.id true s.entries })
set_marked t false s = record s { entries = put_mark t.id false s.entries }

unfoldable pub insert_item : ℕ → MarkItem → List MarkItem → List MarkItem
insert_item zero t ts = t ∷ ts
insert_item (suc n) t [] = t ∷ []
insert_item (suc n) t (u ∷ ts) = u ∷ insert_item n t ts

-- `fItems.AddItem(item, index)`, where memory is found or not.
abbrev pub put_in : Bool → ℕ → MarkItem → Marks → Bool × Marks
put_in true n t s = (true, record s { entries = insert_item n t s.entries })
put_in false n t s = (false, s)

-- `_AddItem(item, index)` with an index from 0.
unfoldable pub add_item_marked : Bool → MarkItem → ℕ → Marks → Bool × Marks
add_item_marked granted t n s =
    if ltb (length s.entries) n
    then (false, s)
    else put_in granted n t (if t.mark then item_marked t.id t.label s else s)

-- `fItems.RemoveItem(item)`
unfoldable pub remove_first : ℕ → List MarkItem → List MarkItem
remove_first j [] = []
remove_first j (t ∷ ts) = if t.id == j then ts else t ∷ remove_first j ts

unfoldable pub is_in : ℕ → List MarkItem → Bool
is_in j [] = false
is_in j (t ∷ ts) = if t.id == j then true else is_in j ts

-- `RemoveItem(item)`, which deletes the item.
unfoldable pub remove_item_marked : ℕ → Marks → Bool × Marks
remove_item_marked j s =
    if is_in j s.entries
    then (true, record s { entries = remove_first j s.entries })
    else (false, s)

-- The loop of `_NextItem` from an index, -1 for none: at most so many turns over a menu.
abbrev pub step_forward : ℕ → Option ℕ → ℕ
step_forward n none = 0
step_forward n (some i) = if ltb (suc i) n then suc i else 0

abbrev pub step_back : ℕ → Option ℕ → ℕ
step_back n none = n - 1
step_back n (some zero) = n - 1
step_back n (some (suc i)) = i

abbrev pub step : Bool → ℕ → Option ℕ → ℕ
step true n i = step_forward n i
step false n i = step_back n i

abbrev pub is_enabled_at : List MarkItem → ℕ → Bool
is_enabled_at [] i = false
is_enabled_at (t ∷ ts) zero = t.enabled
is_enabled_at (t ∷ ts) (suc i) = is_enabled_at ts i

unfoldable pub next_loop : ℕ → Bool → List MarkItem → Option ℕ → Option ℕ
next_loop zero forward ts i = none
next_loop (suc k) forward ts i =
    let j = step forward (length ts) i in
    let later = next_loop k forward ts (some j) in if is_enabled_at ts j then some j else later

-- `_NextItem(item, forward)` with the index of the item, and that of the item it gives.
unfoldable pub next_item : Bool → List MarkItem → Option ℕ → Option ℕ
next_item forward ts i = if length ts == 0 then none else next_loop (length ts - 1) forward ts i
