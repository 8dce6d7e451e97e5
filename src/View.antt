-- ===== src/View.antt =====
-- kits/interface/View.cpp: the children of a view, a doubly linked list through the members of the
-- views. A view is its address. The views stand in no window: `fOwner` is null, so the calls that lock
-- it, attach and detach are not reached. `debugger` and a null dereference abort the program: `none`.
pub mod Chain
pub mod Children
pub mod Walk
pub mod Coordinates
pub mod Frame
mod Tests
use libb.Prelude.{
  ℕ, zero, suc, ◌+◌, ◌≡◌, Option, none, some, Bool, true, false, not, if◌then◌else◌, ◌==◌,
}
use libb.Prelude.Threads.{update}
use libb.Looper.{points_to}

pub record Links : Type 0 where
  pub parent : ℕ → Option ℕ  -- fParent
  pub next : ℕ → Option ℕ  -- fNextSibling
  pub prev : ℕ → Option ℕ  -- fPrevSibling
  pub first : ℕ → Option ℕ  -- fFirstChild

-- A write through a pointer, unless it is null.
abbrev pub set_link : Option ℕ → Option ℕ → (ℕ → Option ℕ) → ℕ → Option ℕ
set_link none a f = f
set_link (some i) a f = update f i a

-- The list of `v` in `AddChild` with a view `before`.
abbrev pub insert_before : ℕ → ℕ → ℕ → Links → Links
insert_before v child before w =
    let prev' = update w.prev child (w.prev before) in
    let next' = update w.next child (some before) in
    record w {
      next = set_link (prev' child) (some child) next';
      prev = update prev' before (some child);
      first = if points_to (w.first v) before then update w.first v (some child) else w.first;
    }

-- `while (last && last->fNextSibling)` from a view and its next one, at most `fuel` steps.
unfoldable pub last_of : ℕ → (ℕ → Option ℕ) → ℕ → Option ℕ → ℕ
last_of fuel f last none = last
last_of zero f last (some i) = last
last_of (suc fuel) f last (some i) = last_of fuel f i (f i)

abbrev pub last_from : ℕ → (ℕ → Option ℕ) → Option ℕ → Option ℕ
last_from fuel f none = none
last_from fuel f (some i) = some (last_of fuel f i (f i))

-- The list of `v` in `AddChild` without one, where `last` is the last child.
abbrev pub insert_after : ℕ → ℕ → Option ℕ → Links → Links
insert_after v child (some last) w = record w {
  next = update (update w.next last (some child)) child none;
  prev = update w.prev child (some last);
}
insert_after v child none w = record w {
  first = update w.first v (some child);
  prev = update w.prev child none;
  next = update w.next child none;
}

abbrev pub set_parent : ℕ → Option ℕ → Links → Links
set_parent child v w = record w { parent = update w.parent child v }

-- What follows the tests of the child in `AddChild`.
abbrev pub add_at : ℕ → ℕ → ℕ → Option ℕ → Links → Option Links
add_at fuel v child (some before) w =
    if points_to (w.parent before) v
    then some (set_parent child (some v) (insert_before v child before w))
    else none
add_at fuel v child none w =
    some (set_parent child (some v) (insert_after v child (last_from fuel w.next (w.first v)) w))

abbrev pub add_orphan : ℕ → ℕ → ℕ → Option ℕ → Option ℕ → Links → Option Links
add_orphan fuel v child before (some p) w = none
add_orphan fuel v child before none w = if child == v then none else add_at fuel v child before w

-- `AddChild(child, before)`, with the steps the loop to the last child may take.
unfoldable pub add_child : ℕ → ℕ → Option ℕ → Option ℕ → Links → Option Links
add_child fuel v none before w = some w
add_child fuel v (some child) before w = add_orphan fuel v child before (w.parent child) w

-- `RemoveChild`: the pointer to the child moves to the next one.
abbrev pub skip_child : ℕ → ℕ → Bool → Option ℕ → Links → Option Links
skip_child v child true p w = some (record w { first = update w.first v (w.next child) })
skip_child v child false (some p) w = some (record w { next = update w.next p (w.next child) })
skip_child v child false none w = none

-- The rest of it: the pointer back, and the members of the child.
abbrev pub cut_child : ℕ → Links → Links
cut_child child w = record w {
  parent = update w.parent child none;
  next = update w.next child none;
  prev = update (set_link (w.next child) (w.prev child) w.prev) child none;
}

abbrev pub cut_result : ℕ → Option Links → Option (Links × Bool)
cut_result child none = none
cut_result child (some w) = some (cut_child child w, true)

-- `RemoveChild(child)`
unfoldable pub remove_child : ℕ → Option ℕ → Links → Option (Links × Bool)
remove_child v none w = some (w, false)
remove_child v (some child) w =
    if points_to (w.parent child) v
    then cut_result child (skip_child v child (points_to (w.first v) child) (w.prev child) w)
    else some (w, false)

-- `RemoveSelf()`, with the parent of the view.
abbrev pub remove_from : Option ℕ → ℕ → Links → Option (Links × Bool)
remove_from none v w = some (w, false)
remove_from (some p) v w = remove_child p (some v) w

unfoldable pub remove_self : ℕ → Links → Option (Links × Bool)
remove_self v w = remove_from (w.parent v) v w

-- `CountChildren()` and `ChildAt(index)` from a view on, at most `fuel` steps.
unfoldable pub count_from : ℕ → (ℕ → Option ℕ) → Option ℕ → ℕ
count_from fuel f none = 0
count_from zero f (some i) = 0
count_from (suc fuel) f (some i) = suc (count_from fuel f (f i))

unfoldable pub child_from : ℕ → (ℕ → Option ℕ) → Option ℕ → Option ℕ
child_from n f none = none
child_from zero f (some i) = some i
child_from (suc n) f (some i) = child_from n f (f i)

unfoldable pub count_children : ℕ → ℕ → Links → ℕ
count_children fuel v w = count_from fuel w.next (w.first v)

unfoldable pub child_at : ℕ → ℕ → Links → Option ℕ
child_at v n w = child_from n w.next (w.first v)
