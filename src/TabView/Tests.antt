-- ===== src/TabView/Tests.antt =====
-- BTabView: runs on one and two tabs, and the witness of the theorem on reachable states.
use libb.Prelude.{ℕ, ◌≡◌, refl, [], ◌∷◌, some, Bool, true, false, arith}
use libb.Prelude.Int.{pos, negsuc}
use libb.TabView.{
  Tab, TabView, modify_nth, remove_nth, set_focus_tab, drop_focus, select_tab, new_tab, add_tab,
  remove_tab,
}
use libb.TabView.Select.{IsExact}
use libb.TabView.Reach.{start, add, remove, Reach-IsExact}

abbrev empty : TabView
empty = record { tabs = []; selection = negsuc 0; focus = negsuc 0; attached = true }

abbrev tab : ℕ → Bool → Tab
tab i b = record { id = i; selected = b; focused = b; has_view = true; shown = b }

abbrev one : TabView
one = record { tabs = tab 1 true ∷ []; selection = pos 0; focus = pos 0; attached = true }

abbrev two : TabView
two = record {
  tabs = tab 1 true ∷ tab 2 false ∷ [];
  selection = pos 0;
  focus = pos 0;
  attached = true;
}

first_tab : add_tab (new_tab 1 true) empty ≡ one
unfolding add_tab select_tab set_focus_tab modify_nth
first_tab = refl

second_tab : add_tab (new_tab 2 true) one ≡ two
unfolding add_tab
second_tab = refl

-- After the last tab the selection stays at 0, so that the next tab is not selected.
abbrev emptied : TabView
emptied = record { tabs = []; selection = pos 0; focus = negsuc 0; attached = true }

last_tab : remove_tab (pos 0) one ≡ some (emptied, some (record (tab 1 false) { focused = true }))
unfolding remove_tab remove_nth
last_tab = refl

not_selected : (add_tab (new_tab 2 true) emptied).tabs ≡ tab 2 false ∷ []
unfolding add_tab select_tab
not_selected = refl

-- The first of two tabs is removed: the other one is selected, and loses the focus.
abbrev second : TabView
second = record {
  tabs = record (tab 2 true) { focused = false } ∷ [];
  selection = pos 0;
  focus = negsuc 0;
  attached = true;
}

first_removed :
    remove_tab (pos 0) two ≡ some (second, some (record (tab 1 false) { focused = true }))
unfolding remove_tab remove_nth select_tab set_focus_tab modify_nth drop_focus
first_removed = refl

Reach-IsExact_example : IsExact second
unfolding add_tab select_tab set_focus_tab modify_nth
Reach-IsExact_example =
    Reach-IsExact
      (remove (pos 0) (add 2 true (add 1 true (start true))) (omega arith) first_removed)
