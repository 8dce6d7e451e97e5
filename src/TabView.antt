-- ===== src/TabView.antt =====
-- kits/interface/TabView.cpp: the tabs of a BTabView, which one is selected and which one has the focus.
-- Drawing is left out. The call of `MakeFocus` on a tab that is not there aborts the program: `none`.
pub mod Marked
pub mod Select
pub mod Reach
mod Tests
use libb.Prelude.{
  ℕ, zero, suc, ◌-◌, ◌≡◌, List, [], ◌∷◌, ◌++◌, Option, none, some, Bool, true, false, not, ◌&&◌,
  ◌||◌, if◌then◌else◌, ◌==◌, ltb, leb, length, get_elem?,
}
use libb.Prelude.Int.{ℤ, pos, negsuc, ltb_ℤ, leb_ℤ, sub_ℕ}

-- `fSelected`, `fFocus`, whether `fView` is not null, and whether the view has a parent.
pub record Tab : Type 0 where
  pub id : ℕ
  pub selected : Bool
  pub focused : Bool
  pub has_view : Bool
  pub shown : Bool

-- `fTabList`, `fSelection`, `fFocus`, and whether there is a window.
pub record TabView : Type 0 where
  pub tabs : List Tab
  pub selection : ℤ
  pub focus : ℤ
  pub attached : Bool

-- `BTab::Select(owner)` with an owner, `Deselect()` and `MakeFocus(infocus)`
abbrev pub select_it : Tab → Tab
select_it t = record t { selected = true; shown = t.shown || t.has_view }

abbrev pub deselect_it : Tab → Tab
deselect_it t = record t { shown = false; selected = false }

abbrev pub focus_it : Bool → Tab → Tab
focus_it b t = record t { focused = b }

-- A call on the tab at an index, if there is one.
unfoldable pub modify_nth : (Tab → Tab) → ℕ → List Tab → List Tab
modify_nth f n [] = []
modify_nth f zero (t ∷ ts) = f t ∷ ts
modify_nth f (suc n) (t ∷ ts) = t ∷ modify_nth f n ts

abbrev pub modify_at : (Tab → Tab) → ℤ → List Tab → List Tab
modify_at f (pos n) ts = modify_nth f n ts
modify_at f (negsuc n) ts = ts

unfoldable pub remove_nth : ℕ → List Tab → List Tab
remove_nth n [] = []
remove_nth zero (t ∷ ts) = ts
remove_nth (suc n) (t ∷ ts) = t ∷ remove_nth n ts

abbrev pub tab_at : ℤ → List Tab → Option Tab
tab_at (pos n) ts = get_elem? ts n
tab_at (negsuc n) ts = none

abbrev pub is_tab : ℤ → List Tab → Bool
is_tab (pos n) ts = ltb n (length ts)
is_tab (negsuc n) ts = false

abbrev pub eq_ℤ : ℤ → ℤ → Bool
eq_ℤ (pos m) (pos n) = m == n
eq_ℤ (negsuc m) (negsuc n) = m == n
eq_ℤ (pos m) (negsuc n) = false
eq_ℤ (negsuc m) (pos n) = false

abbrev pub is_minus_one : ℤ → Bool
is_minus_one z = eq_ℤ z (negsuc 0)

-- z - 1
abbrev pub before : ℤ → ℤ
before (pos zero) = negsuc 0
before (pos (suc n)) = pos n
before (negsuc n) = negsuc (suc n)

-- The index that `SetFocusTab` takes: past the end the first tab, before the start the last.
abbrev pub from_end : ℤ → List Tab → ℤ
from_end (pos n) ts = pos n
from_end (negsuc n) ts = before (pos (length ts))

abbrev pub wrap_index : ℤ → List Tab → ℤ
wrap_index z ts = from_end (if leb_ℤ (pos (length ts)) z then pos 0 else z) ts

abbrev pub leave_focus : TabView → List Tab
leave_focus s = if is_minus_one s.focus then s.tabs else modify_at (focus_it false) s.focus s.tabs

abbrev pub enter_focus : ℤ → TabView → TabView
enter_focus z s =
    if is_tab z s.tabs
    then record s { tabs = modify_at (focus_it true) z (leave_focus s); focus = z }
    else record s { tabs = leave_focus s }

-- `SetFocusTab(tabIndex, true)`
unfoldable pub set_focus_tab : ℤ → TabView → TabView
set_focus_tab z s =
    if eq_ℤ (wrap_index z s.tabs) s.focus then s else enter_focus (wrap_index z s.tabs) s

-- `SetFocusTab(tabIndex, false)`
unfoldable pub drop_focus : TabView → Option TabView
drop_focus s =
    if is_minus_one s.focus
    then some s
    else if is_tab s.focus s.tabs
    then some (record s { tabs = modify_at (focus_it false) s.focus s.tabs; focus = negsuc 0 })
    else none

-- The tab that `Select` goes to.
abbrev pub selectable : ℤ → TabView → ℤ
selectable z s = if is_tab z s.tabs then z else s.selection

abbrev pub go_to : ℤ → TabView → TabView
go_to z s =
    let ts = modify_at deselect_it s.selection s.tabs in
    if is_tab z s.tabs
    then record s { tabs = modify_at select_it z ts; selection = z }
    else record s { tabs = ts }

-- `Select(tabIndex)`
unfoldable pub select_tab : ℤ → TabView → TabView
select_tab z s =
    if eq_ℤ z s.selection then s else set_focus_tab (selectable z s) (go_to (selectable z s) s)

-- `AddTab(tabContents, tab)` with a tab that is new.
abbrev pub new_tab : ℕ → Bool → Tab
new_tab i view = record {
  id = i;
  selected = false;
  focused = false;
  has_view = view;
  shown = false;
}

unfoldable pub add_tab : Tab → TabView → TabView
add_tab t s =
    let s' = record s { tabs = s.tabs ++ (t ∷ []) } in
    if (length s.tabs == 0) && s.attached then select_tab (pos 0) s' else s'

-- What `RemoveTab` does about the focus.
abbrev pub refocus : TabView → Option TabView
refocus s =
    if leb_ℤ (pos 0) s.focus
    then (if eq_ℤ s.focus (before (pos (length s.tabs))) || length s.tabs == 0
        then drop_focus s
        else some (set_focus_tab s.focus s))
    else some s

abbrev pub reselect : ℕ → TabView → TabView
reselect n s =
    if length s.tabs == 0
    then record s { focus = negsuc 0 }
    else if leb_ℤ (pos n) s.selection
    then select_tab (before s.selection) s
    else s

abbrev pub give : Tab → Option TabView → Option (TabView × Option Tab)
give t none = none
give t (some s) = some (s, some (deselect_it t))

-- `RemoveTab(tabIndex)` and the tab that it gives back, deselected.
abbrev pub removed : ℕ → Option Tab → TabView → Option (TabView × Option Tab)
removed n none s = some (s, none)
removed n (some t) s = give t (refocus (reselect n (record s { tabs = remove_nth n s.tabs })))

unfoldable pub remove_tab : ℤ → TabView → Option (TabView × Option Tab)
remove_tab (negsuc n) s = some (s, none)
remove_tab (pos n) s = removed n (get_elem? s.tabs n) s

-- The arrow keys, return and space of `KeyDown`, in a view that is not hidden.
unfoldable pub key_back : TabView → TabView
key_back s =
    let z = before s.focus in
    set_focus_tab (if ltb_ℤ z (pos 0) then before (pos (length s.tabs)) else z) s

abbrev pub after : ℤ → ℤ
after (pos n) = pos (suc n)
after (negsuc zero) = pos 0
after (negsuc (suc n)) = negsuc n

unfoldable pub key_forward : TabView → TabView
key_forward s =
    let z = after s.focus in set_focus_tab (if leb_ℤ (pos (length s.tabs)) z then pos 0 else z) s

unfoldable pub key_select : TabView → TabView
key_select s = select_tab s.focus s
