-- ===== src/TabView/Reach.antt =====
-- BTabView::RemoveTab, and every state that the calls reach.
use mathlib.Core.Path.{subst}
use libb.Prelude.{
  ℕ, zero, suc, ◌<◌, ◌≤◌, ◌≡◌, refl, sym, ap, ◌∙◌, inl, inr, List, [], ◌∷◌, Option, none, some,
  Bool, true, false, ◌||◌, if◌then◌else◌, ◌==◌, ltb, length, get_elem?, arith, Bool-cases, lt→ltb,
}
use libb.Prelude.Int.{ℤ, pos, negsuc, leb_ℤ}
use libb.TabView.{
  Tab, TabView, remove_nth, is_tab, eq_ℤ, before, set_focus_tab, selectable, go_to, select_tab,
  new_tab, add_tab, deselect_it, give, refocus, reselect, removed, remove_tab,
}
use libb.TabView.Marked.{Marked, Marked-ext, Marked-remove, length-remove_nth}
use libb.TabView.Select.{
  is_at, InRange, IsExact, go_to-IsExact, set_focus_tab-IsExact, drop_focus-IsExact,
  select_tab-IsExact, add_tab-IsExact, length-select_tab,
}

-- What a removal at `n` leaves of the marks.
abbrev without : ℕ → ℤ → ℕ → Bool
without n z j = if ltb j n then is_at z j else is_at z (suc j)

select-to :
    (r : ℕ → Bool) (z : ℤ) (k : ℕ) (s : TabView)
    → eq_ℤ z s.selection ≡ false
    → selectable z s ≡ pos k
    → k < length s.tabs
    → ((j : ℕ) → (if k == j then true else if is_at s.selection j then false else r j) ≡ (k == j))
    → Marked r s.tabs
    → IsExact (select_tab z s)
unfolding select_tab
select-to r z k s e y l c h = rw (e) (
    set_focus_tab-IsExact (go_to (selectable z s) s)
      (subst (λ x. IsExact (go_to x s)) (sym y) (go_to-IsExact r k s l c h)) (selectable z s))

cover_first :
    (n j : ℕ)
    → n ≤ 0
    → (if 0 == j then true else if 0 == j then false else without n (pos 0) j) ≡ (0 == j)
cover_first n j q = ground arith

cover_next :
    (n m j : ℕ)
    → n ≤ suc m
    → (if m == j then true else if suc m == j then false else without n (pos (suc m)) j) ≡ (m == j)
cover_next n m j q = ground arith

-- A removal before the selection or at it: `Select` of the tab before the selection.
select-removed :
    (n m : ℕ) (s : TabView)
    → n ≤ m
    → s.selection ≡ pos m
    → m ≤ length s.tabs
    → 1 ≤ length s.tabs
    → Marked (without n (pos m)) s.tabs
    → IsExact (select_tab (before (pos m)) s)
select-removed n zero s q e l l1 h =
    select-to (without n (pos 0)) (negsuc 0) 0 s
      (subst (λ z. eq_ℤ (negsuc 0) z ≡ false) (sym e) refl) e (omega arith)
      (λ j. rw (e) (cover_first n j q)) h
select-removed n (suc m) s q e l l1 h =
    let t : ltb m (length s.tabs) ≡ true = lt→ltb m (length s.tabs) (omega arith) in
    select-to (without n (pos (suc m))) (pos m) m s
      (subst (λ z. eq_ℤ (pos m) z ≡ false) (sym e) (ground arith)) (rw (t) refl) (omega arith)
      (λ j. rw (e) (cover_next n m j q)) h

refocus-IsExact :
    (s : TabView)
    → 1 ≤ length s.tabs
    → IsExact s
    → (s' : TabView) × (refocus s ≡ some s') × IsExact s'
refocus-IsExact s l v = elim (Bool-cases (leb_ℤ (pos 0) s.focus)) [
  | inl e ↦ elim (Bool-cases (eq_ℤ s.focus (before (pos (length s.tabs))) || length s.tabs == 0)) [
    | inl d ↦
        let (s', r, v') = drop_focus-IsExact s v (last_tab s.focus s.tabs l d) in
        (s', rw (e, d) r, v')
    | inr d ↦ (set_focus_tab s.focus s, rw (e, d) refl, set_focus_tab-IsExact s v s.focus)
  ]
  | inr e ↦ (s, rw (e) refl, v)
]
  where
    last_tab :
        (z : ℤ) (ts : List Tab)
        → 1 ≤ length ts
        → (eq_ℤ z (before (pos (length ts))) || length ts == 0) ≡ true
        → is_tab z ts ≡ true
    last_tab z [] h d = absurd (omega arith)
    last_tab (pos k) (t ∷ ts) h d = ground arith
    last_tab (negsuc k) (t ∷ ts) h d = ground arith

abbrev IsWithin : ℤ → ℕ → Type 0
IsWithin (pos k) n = k ≤ n
IsWithin (negsuc k) n = Unit

moved_back :
    (z : ℤ) (n : ℕ) (s : TabView)
    → s.selection ≡ z
    → leb_ℤ (pos n) z ≡ true
    → IsWithin z (length s.tabs)
    → 1 ≤ length s.tabs
    → Marked (without n z) s.tabs
    → IsExact (select_tab (before z) s)
moved_back (pos m) n s e q l l1 h = select-removed n m s (ground arith) e l l1 h
moved_back (negsuc m) n s e q l l1 h = absurd (ground arith)

shorter : (z : ℤ) (n m : ℕ) → suc m ≡ n → InRange z n → IsWithin z m
shorter (pos k) n m e h = omega arith
shorter (negsuc k) n m e h = tt

kept : (z : ℤ) (n j : ℕ) → leb_ℤ (pos n) z ≡ false → without n z j ≡ is_at z j
kept (pos m) n j e = ground arith
kept (negsuc m) n j e = ground arith

still :
    (z : ℤ) (n a b : ℕ) → leb_ℤ (pos n) z ≡ false → suc b ≡ a → n < a → InRange z a → InRange z b
still (pos m) n a b e k l h = ground arith
still (negsuc m) n a b e k l h = h

-- `Select` or nothing, after a removal from two tabs or more.
reselect-IsExact :
    (n : ℕ) (s : TabView)
    → n < length s.tabs
    → 2 ≤ length s.tabs
    → IsExact s
    → IsExact (reselect n (record s { tabs = remove_nth n s.tabs }))
reselect-IsExact n s l two v =
    let k : suc (length (remove_nth n s.tabs)) ≡ length s.tabs = length-remove_nth n s.tabs l in
    let some_left : (length (remove_nth n s.tabs) == 0) ≡ false = ground arith in
    let h = Marked-remove (is_at s.selection) n s.tabs v.marked in
    elim (Bool-cases (leb_ℤ (pos n) s.selection)) [
      | inl e ↦
          rw (some_left, e)
            (moved_back s.selection n (record s { tabs = remove_nth n s.tabs }) refl e
              (shorter s.selection (length s.tabs) (length (remove_nth n s.tabs)) k v.in_range)
              (omega arith) h)
      | inr e ↦
          rw (some_left, e)
            (record {
              marked =
                  Marked-ext (without n s.selection) (is_at s.selection) (remove_nth n s.tabs)
                    (λ j q. kept s.selection n j e) h;
              in_range =
                  still s.selection n (length s.tabs) (length (remove_nth n s.tabs)) e k l
                    v.in_range;
            })
    ]

length-reselect :
    (n : ℕ) (s : TabView)
    → n < length s.tabs
    → 2 ≤ length s.tabs
    → 1 ≤ length (reselect n (record s { tabs = remove_nth n s.tabs })).tabs
length-reselect n s l two =
    let u = record s { tabs = remove_nth n s.tabs } in
    let k : suc (length (remove_nth n s.tabs)) ≡ length s.tabs = length-remove_nth n s.tabs l in
    let some_left : (length (remove_nth n s.tabs) == 0) ≡ false = ground arith in
    elim (Bool-cases (leb_ℤ (pos n) s.selection)) [
      | inl e ↦ rw (some_left, e) (omega (arith, k, length-select_tab (before s.selection) u))
      | inr e ↦ rw (some_left, e) (omega (arith, k))
    ]

-- RemoveTab of one of two tabs or more returns.
pub remove_tab-IsExact :
    (z : ℤ) (s : TabView)
    → 2 ≤ length s.tabs
    → IsExact s
    → (s' : TabView) × ((t : Option Tab) × (remove_tab z s ≡ some (s', t)) × IsExact s')
unfolding remove_tab
remove_tab-IsExact (negsuc n) s two v = (s, (none, refl, v))
remove_tab-IsExact (pos n) s two v = at_index (get_elem? s.tabs n) refl
  where
    in_list : (ts : List Tab) (i : ℕ) (t : Tab) → get_elem? ts i ≡ some t → i < length ts
    in_list [] i t e = absurd cc
    in_list (u ∷ ts) zero t e = omega arith
    in_list (u ∷ ts) (suc i) t e = omega (arith, in_list ts i t e)

    at_index :
        (o : Option Tab)
        → get_elem? s.tabs n ≡ o
        → (s' : TabView) × ((t : Option Tab) × (removed n o s ≡ some (s', t)) × IsExact s')
    at_index none e = (s, (none, refl, v))
    at_index (some t) e =
        let l = in_list s.tabs n t e in
        let u = reselect n (record s { tabs = remove_nth n s.tabs }) in
        let (s', r, w) =
          refocus-IsExact u (length-reselect n s l two) (reselect-IsExact n s l two v) in
        (s', (some (deselect_it t), ap (give t) r, w))

-- What the calls and the keys make of a view without tabs, where the last tab is never removed.
pub data Reach : TabView → Type 0 where
  start :
      (window : Bool)
      → Reach (record { tabs = []; selection = negsuc 0; focus = negsuc 0; attached = window })
  attach : {s : TabView} → Reach s → Reach (select_tab (pos 0) (record s { attached = true }))
  add : {s : TabView} (i : ℕ) (view : Bool) → Reach s → Reach (add_tab (new_tab i view) s)
  select : {s : TabView} (z : ℤ) → Reach s → Reach (select_tab z s)
  focus_on : {s : TabView} (z : ℤ) → Reach s → Reach (set_focus_tab z s)
  remove :
      {s s' : TabView} {t : Option Tab} (z : ℤ)
      → Reach s
      → 2 ≤ length s.tabs
      → remove_tab z s ≡ some (s', t)
      → Reach s'

result_of :
    (s s' u : TabView) (t t' : Option Tab) (o : Option (TabView × Option Tab))
    → o ≡ some (s', t)
    → o ≡ some (u, t')
    → IsExact u
    → IsExact s'
result_of s s' u t t' o p q v =
    let e : ◌≡◌ {A = Option (TabView × Option Tab)} (some (s', t)) (some (u, t')) = sym p ∙ q in
    let x : s' ≡ u = cc in subst IsExact (sym x) v

-- In every state that these reach, the tab at fSelection is selected and shows its view, no other tab
-- is or does, and fSelection is -1 or the index of a tab.
pub Reach-IsExact : {s : TabView} → Reach s → IsExact s
Reach-IsExact (start window) = record { marked = tt; in_range = refl }
Reach-IsExact (attach {s} r) =
    let v = Reach-IsExact r in
    select_tab-IsExact (pos 0) (record s { attached = true })
      (record { marked = v.marked; in_range = v.in_range })
Reach-IsExact (add {s} i view r) = add_tab-IsExact (new_tab i view) s refl refl (Reach-IsExact r)
Reach-IsExact (select {s} z r) = select_tab-IsExact z s (Reach-IsExact r)
Reach-IsExact (focus_on {s} z r) = set_focus_tab-IsExact s (Reach-IsExact r) z
Reach-IsExact (remove {s} {s'} {t} z r two e) =
    let (u, p) = remove_tab-IsExact z s two (Reach-IsExact r) in
    result_of s s' u t (p.0) (remove_tab z s) e (p.1) (p.2)
