-- ===== src/TabView/Select.antt =====
-- BTabView: the tab at fSelection is the one that is selected, after any calls.
use mathlib.Core.Path.{subst}
use libb.Prelude.{
  ℕ, ◌<◌, ◌≤◌, ◌≡◌, refl, sym, ◌∙◌, inl, inr, List, [], ◌∷◌, ◌++◌, some, Bool, true, false, ◌&&◌,
  if◌then◌else◌, ◌==◌, ltb, length, arith, Bool-cases, ltb→lt, lt→ltb, length-append,
}
use libb.Prelude.Int.{ℤ, pos, negsuc}
use libb.TabView.{
  Tab, TabView, select_it, deselect_it, focus_it, modify_nth, modify_at, is_tab, eq_ℤ, is_minus_one,
  wrap_index, leave_focus, enter_focus, set_focus_tab, drop_focus, selectable, go_to, select_tab,
  add_tab,
}
use libb.TabView.Marked.{
  Marked, Marked-ext, Marked-deselect, Marked-select, Marked-focus, Marked-append,
  length-modify_nth,
}

abbrev pub is_at : ℤ → ℕ → Bool
is_at (pos k) j = k == j
is_at (negsuc k) j = false

-- -1, or the index of a tab.
abbrev pub InRange : ℤ → ℕ → Type 0
InRange (pos k) n = k < n
InRange (negsuc k) n = k ≡ 0

-- The tab at the selection, and no other, is selected and shows its view.
pub record IsExact (s : TabView) : Type 0 where
  pub marked : Marked (is_at s.selection) s.tabs
  pub in_range : InRange s.selection (length s.tabs)

length-modify_at : (f : Tab → Tab) (z : ℤ) (ts : List Tab) → length (modify_at f z ts) ≡ length ts
length-modify_at f (pos n) ts = length-modify_nth f n ts
length-modify_at f (negsuc n) ts = refl

Marked-focus_at :
    (p : ℕ → Bool) (b : Bool) (z : ℤ) (ts : List Tab)
    → Marked p ts
    → Marked p (modify_at (focus_it b) z ts)
Marked-focus_at p b (pos n) ts h = Marked-focus p b n ts h
Marked-focus_at p b (negsuc n) ts h = h

-- The calls on the focus.
module _ (s : TabView) (v : IsExact s) where
  leave_focus-Marked :
      Marked (is_at s.selection) (leave_focus s) × (length (leave_focus s) ≡ length s.tabs)
  leave_focus-Marked = elim (Bool-cases (is_minus_one s.focus)) [
    | inl e ↦ rw (e) (v.marked, refl)
    | inr e ↦ rw (e) (
      Marked-focus_at (is_at s.selection) false s.focus s.tabs v.marked,
      length-modify_at (focus_it false) s.focus s.tabs,
    )
  ]

  enter_focus-IsExact : (z : ℤ) → IsExact (enter_focus z s)
  enter_focus-IsExact z = elim (Bool-cases (is_tab z s.tabs)) [
    | inl e ↦ rw (e) (record {
      marked = Marked-focus_at (is_at s.selection) true z (leave_focus s) (leave_focus-Marked.0);
      in_range =
          subst (InRange s.selection)
            (sym (length-modify_at (focus_it true) z (leave_focus s) ∙ leave_focus-Marked.1))
            v.in_range;
    })
    | inr e ↦ rw (e) (record {
      marked = leave_focus-Marked.0;
      in_range = subst (InRange s.selection) (sym (leave_focus-Marked.1)) v.in_range;
    })
  ]

  pub set_focus_tab-IsExact : (z : ℤ) → IsExact (set_focus_tab z s)
  unfolding set_focus_tab
  set_focus_tab-IsExact z = elim (Bool-cases (eq_ℤ (wrap_index z s.tabs) s.focus)) [
    | inl e ↦ rw (e) v
    | inr e ↦ rw (e) (enter_focus-IsExact (wrap_index z s.tabs))
  ]

  pub drop_focus-IsExact :
      is_tab s.focus s.tabs ≡ true → (s' : TabView) × (drop_focus s ≡ some s') × IsExact s'
  unfolding drop_focus
  drop_focus-IsExact t = elim (Bool-cases (is_minus_one s.focus)) [
    | inl e ↦ (s, rw (e) refl, v)
    | inr e ↦ (
      record s { tabs = modify_at (focus_it false) s.focus s.tabs; focus = negsuc 0 },
      rw (e, t) refl,
      record {
        marked = Marked-focus_at (is_at s.selection) false s.focus s.tabs v.marked;
        in_range =
            subst (InRange s.selection) (sym (length-modify_at (focus_it false) s.focus s.tabs))
              v.in_range;
      },
    )
  ]

Marked-deselect_at :
    (p : ℕ → Bool) (z : ℤ) (ts : List Tab)
    → Marked p ts
    → Marked (λ j. if is_at z j then false else p j) (modify_at deselect_it z ts)
Marked-deselect_at p (pos n) ts h = Marked-deselect p n ts h
Marked-deselect_at p (negsuc n) ts h = h

-- `Select` of a tab where no third one is selected.
pub go_to-IsExact :
    (r : ℕ → Bool) (k : ℕ) (s : TabView)
    → k < length s.tabs
    → ((j : ℕ) → (if k == j then true else if is_at s.selection j then false else r j) ≡ (k == j))
    → Marked r s.tabs
    → IsExact (go_to (pos k) s)
go_to-IsExact r k s l c h =
    let ts = modify_at deselect_it s.selection s.tabs in
    let n : length ts ≡ length s.tabs = length-modify_at deselect_it s.selection s.tabs in
    let e : ltb k (length s.tabs) ≡ true = lt→ltb k (length s.tabs) l in
    rw (e) (record {
      marked =
          Marked-ext (λ j. if k == j then true else if is_at s.selection j then false else r j)
            (λ j. k == j) (modify_nth select_it k ts) (λ j q. c j)
            (Marked-select (λ j. if is_at s.selection j then false else r j) k ts
              (Marked-deselect_at r s.selection s.tabs h));
      in_range = omega (arith, length-modify_nth select_it k ts, n, l);
    })

go_to-tab : (k : ℕ) (s : TabView) → k < length s.tabs → IsExact s → IsExact (go_to (pos k) s)
go_to-tab k s l v = go_to-IsExact (is_at s.selection) k s l cover v.marked
  where
    cover :
        (j : ℕ)
        → (if k == j then true else if is_at s.selection j then false else is_at s.selection j)
          ≡ (k == j)
    cover j = elim (Bool-cases (k == j)) [
      | inl a ↦ rw (a) refl
      | inr a ↦ elim (Bool-cases (is_at s.selection j)) [
        | inl b ↦ rw (a, b) refl
        | inr b ↦ rw (a, b) refl
      ]
    ]

go_to-selection : (z : ℤ) (s : TabView) → z ≡ s.selection → IsExact s → IsExact (go_to z s)
go_to-selection (pos k) s e v =
    go_to-tab k s (subst (λ z. InRange z (length s.tabs)) (sym e) v.in_range) v
go_to-selection (negsuc k) s e v = record {
  marked = subst (λ z. Marked (is_at s.selection) (modify_at deselect_it z s.tabs)) e v.marked;
  in_range =
      subst (InRange s.selection) (sym (length-modify_at deselect_it s.selection s.tabs))
        v.in_range;
}

go_to-IsExact_at : (z : ℤ) (s : TabView) → is_tab z s.tabs ≡ true → IsExact s → IsExact (go_to z s)
go_to-IsExact_at (pos k) s t v = go_to-tab k s (ltb→lt k (length s.tabs) t) v
go_to-IsExact_at (negsuc k) s t v = absurd cc

go_to-selectable : (z : ℤ) (s : TabView) → IsExact s → IsExact (go_to (selectable z s) s)
go_to-selectable z s v = elim (Bool-cases (is_tab z s.tabs)) [
  | inl e ↦ subst (λ y. IsExact (go_to y s)) (rw (e) refl) (go_to-IsExact_at z s e v)
  | inr e ↦ subst (λ y. IsExact (go_to y s)) (rw (e) refl) (go_to-selection s.selection s refl v)
]

pub select_tab-IsExact : (z : ℤ) (s : TabView) → IsExact s → IsExact (select_tab z s)
unfolding select_tab
select_tab-IsExact z s v = elim (Bool-cases (eq_ℤ z s.selection)) [
  | inl e ↦ rw (e) v
  | inr e ↦
      rw (e)
        (set_focus_tab-IsExact (go_to (selectable z s) s) (go_to-selectable z s v) (selectable z s))
]

-- `AddTab` where there are tabs or nothing was ever selected.
pub add_tab-IsExact :
    (t : Tab) (s : TabView)
    → t.selected ≡ false
    → t.shown ≡ false
    → IsExact s
    → IsExact (add_tab t s)
unfolding add_tab
add_tab-IsExact t s a b v = elim (Bool-cases ((length s.tabs == 0) && s.attached)) [
  | inl e ↦ rw (e) (select_tab-IsExact (pos 0) (record s { tabs = s.tabs ++ (t ∷ []) }) added)
  | inr e ↦ rw (e) added
]
  where
    end_free : (z : ℤ) → InRange z (length s.tabs) → is_at z (length s.tabs) ≡ false
    end_free (pos k) h = ground arith
    end_free (negsuc k) h = refl

    wider : (z : ℤ) (n m : ℕ) → n ≤ m → InRange z n → InRange z m
    wider (pos k) n m l h = omega arith
    wider (negsuc k) n m l h = h

    added : IsExact (record s { tabs = s.tabs ++ (t ∷ []) })
    added = record {
      marked =
          Marked-append (is_at s.selection) t s.tabs (end_free s.selection v.in_range) a b v.marked;
      in_range =
          wider s.selection (length s.tabs) (length (s.tabs ++ (t ∷ [])))
            (omega (arith, length-append s.tabs (t ∷ []))) v.in_range;
    }

-- No call on the focus or the selection changes the number of tabs.
length-leave_focus : (s : TabView) → length (leave_focus s) ≡ length s.tabs
length-leave_focus s = elim (Bool-cases (is_minus_one s.focus)) [
  | inl e ↦ rw (e) refl
  | inr e ↦ rw (e) (length-modify_at (focus_it false) s.focus s.tabs)
]

length-set_focus_tab : (z : ℤ) (s : TabView) → length (set_focus_tab z s).tabs ≡ length s.tabs
unfolding set_focus_tab
length-set_focus_tab z s = elim (Bool-cases (eq_ℤ (wrap_index z s.tabs) s.focus)) [
  | inl e ↦ rw (e) refl
  | inr e ↦ elim (Bool-cases (is_tab (wrap_index z s.tabs) s.tabs)) [
    | inl t ↦
        rw (e, t)
          (length-modify_at (focus_it true) (wrap_index z s.tabs) (leave_focus s)
            ∙ length-leave_focus s)
    | inr t ↦ rw (e, t) (length-leave_focus s)
  ]
]

length-go_to : (z : ℤ) (s : TabView) → length (go_to z s).tabs ≡ length s.tabs
length-go_to z s =
    let ts = modify_at deselect_it s.selection s.tabs in
    let n = length-modify_at deselect_it s.selection s.tabs in
    elim (Bool-cases (is_tab z s.tabs)) [
      | inl e ↦ rw (e) (length-modify_at select_it z ts ∙ n)
      | inr e ↦ rw (e) n
    ]

pub length-select_tab : (z : ℤ) (s : TabView) → length (select_tab z s).tabs ≡ length s.tabs
unfolding select_tab
length-select_tab z s = elim (Bool-cases (eq_ℤ z s.selection)) [
  | inl e ↦ rw (e) refl
  | inr e ↦ rw (e) (
      length-set_focus_tab (selectable z s) (go_to (selectable z s) s)
      ∙ length-go_to (selectable z s) s)
]
