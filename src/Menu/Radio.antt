-- ===== src/Menu/Radio.antt =====
-- kits/interface/Menu.cpp: in radio mode at most one item of a menu is marked.
use mathlib.Core.Path.{subst}
use libb.Prelude.{
  ℕ, zero, suc, ◌+◌, ◌≤◌, ◌≡◌, refl, ap, inl, inr, List, [], ◌∷◌, Option, Bool, true, false, arith,
  if◌then◌else◌, ◌==◌, ltb, length, Bool-cases, ==_iff,
}
use libb.Menu.{Modes, set_radio_mode}
use libb.Menu.Marks.{
  MarkItem, Marks, unmark_others, put_mark, item_marked, set_marked, insert_item, put_in,
  add_item_marked, remove_first, is_in, remove_item_marked,
}

abbrev bit : Bool → ℕ
bit true = 1
bit false = 0

bit_small : (b : Bool) → bit b ≤ 1
bit_small true = omega arith
bit_small false = omega arith

unfoldable pub marked_count : List MarkItem → ℕ
marked_count [] = 0
marked_count (t ∷ ts) = bit t.mark + marked_count ts

unfoldable pub occurrences : ℕ → List MarkItem → ℕ
occurrences j [] = 0
occurrences j (t ∷ ts) = bit (t.id == j) + occurrences j ts

occurrences-unmark_others :
    (j i : ℕ) (ts : List MarkItem) → occurrences j (unmark_others i ts) ≡ occurrences j ts
unfolding occurrences unmark_others
occurrences-unmark_others j i [] = refl
occurrences-unmark_others j i (t ∷ ts) = elim (Bool-cases (t.id == i)) [
  | inl e ↦ rw (e, occurrences-unmark_others j i ts)
  | inr e ↦ rw (e, occurrences-unmark_others j i ts)
]

occurrences-put_mark :
    (j i : ℕ) (b : Bool) (ts : List MarkItem) → occurrences j (put_mark i b ts) ≡ occurrences j ts
unfolding occurrences put_mark
occurrences-put_mark j i b [] = refl
occurrences-put_mark j i b (t ∷ ts) = elim (Bool-cases (t.id == i)) [
  | inl e ↦ rw (e, occurrences-put_mark j i b ts)
  | inr e ↦ rw (e, occurrences-put_mark j i b ts)
]

marked_count-unmark_others :
    (i : ℕ) (ts : List MarkItem) → marked_count (unmark_others i ts) ≤ occurrences i ts
unfolding occurrences unmark_others marked_count
marked_count-unmark_others i [] = omega arith
marked_count-unmark_others i (t ∷ ts) = elim (Bool-cases (t.id == i)) [
  | inl e ↦ rw (e) (bounded t.mark (marked_count-unmark_others i ts))
  | inr e ↦ rw e (omega (arith, marked_count-unmark_others i ts))
]
  where
    bounded : {m n : ℕ} (b : Bool) → m ≤ n → bit b + m ≤ 1 + n
    bounded true h = omega arith
    bounded false h = omega arith

marked_count-put_mark :
    (i : ℕ) (ts : List MarkItem) → marked_count (put_mark i false ts) ≤ marked_count ts
unfolding put_mark marked_count
marked_count-put_mark i [] = omega arith
marked_count-put_mark i (t ∷ ts) = elim (Bool-cases (t.id == i)) [
  | inl e ↦ rw (e) (omega (arith, marked_count-put_mark i ts))
  | inr e ↦ rw (e) (omega (arith, marked_count-put_mark i ts))
]

count-insert_item :
    (j n : ℕ) (t : MarkItem) (ts : List MarkItem)
    → (occurrences j (insert_item n t ts) ≡ bit (t.id == j) + occurrences j ts)
      × (marked_count (insert_item n t ts) ≡ bit t.mark + marked_count ts)
unfolding insert_item occurrences marked_count
count-insert_item j zero t ts = (refl, refl)
count-insert_item j (suc n) t [] = (refl, refl)
count-insert_item j (suc n) t (u ∷ ts) =
    let (a, b) = count-insert_item j n t ts in (omega arith, omega arith)

count-remove_first :
    (j i : ℕ) (ts : List MarkItem)
    → (occurrences j (remove_first i ts) ≤ occurrences j ts)
      × (marked_count (remove_first i ts) ≤ marked_count ts)
unfolding remove_first occurrences marked_count
count-remove_first j i [] = (omega arith, omega arith)
count-remove_first j i (t ∷ ts) = elim (Bool-cases (t.id == i)) [
  | inl e ↦ rw e ((omega arith, omega arith))
  | inr e ↦ let (a, b) = count-remove_first j i ts in rw e ((omega arith, omega arith))
]

-- Every item is in the menu once, and in radio mode at most one is marked.
pub record IsRadio (s : Marks) : Type 0 where
  pub once : (j : ℕ) → occurrences j s.entries ≤ 1
  pub single : s.modes.radio ≡ true → marked_count s.entries ≤ 1

kept :
    (b : Bool) (j i : ℕ) (ts : List MarkItem)
    → occurrences i (if b then unmark_others j ts else ts) ≡ occurrences i ts
kept true j i ts = occurrences-unmark_others i j ts
kept false j i ts = refl

few :
    (b : Bool) (j : ℕ) (ts : List MarkItem)
    → b ≡ true
    → marked_count (if b then unmark_others j ts else ts) ≤ occurrences j ts
few true j ts e = marked_count-unmark_others j ts
few false j ts e = absurd cc

set_marked-IsRadio : (t : MarkItem) (b : Bool) (s : Marks) → IsRadio s → IsRadio (set_marked t b s)
unfolding set_marked
set_marked-IsRadio t true s v =
    let same = λ (j : ℕ). occurrences-put_mark j t.id true s.entries in
    record {
      once = λ j.
          omega (arith, kept s.modes.radio t.id j (put_mark t.id true s.entries), same j, v.once j);
      single = λ e.
          omega (
            arith,
            few s.modes.radio t.id (put_mark t.id true s.entries) e,
            same t.id,
            v.once t.id,
          );
    }
set_marked-IsRadio t false s v = record {
  once = λ j. omega (arith, occurrences-put_mark j t.id false s.entries, v.once j);
  single = λ e. omega (arith, marked_count-put_mark t.id s.entries, v.single e);
}

-- An item that is not in the menu goes into a list of items with few marks.
put_in-IsRadio :
    (granted : Bool) (t : MarkItem) (n : ℕ) (s : Marks)
    → IsRadio s
    → occurrences t.id s.entries ≡ 0
    → (s.modes.radio ≡ true → bit t.mark + marked_count s.entries ≤ 1)
    → IsRadio ((put_in granted n t s).1)
put_in-IsRadio false t n s v new h = v
put_in-IsRadio true t n s v new h = record {
  once = λ j. at_id j;
  single = λ e. omega (arith, (count-insert_item 0 n t s.entries).1, h e);
}
  where
    at_id : (j : ℕ) → occurrences j (insert_item n t s.entries) ≤ 1
    at_id j = elim (Bool-cases (t.id == j)) [
      | inl e ↦
          let gone = subst (λ k. occurrences k s.entries ≡ 0) ((==_iff t.id j).0 e) new in
          rw ((count-insert_item j n t s.entries).0, e) (omega (arith, gone))
      | inr e ↦ rw ((count-insert_item j n t s.entries).0, e) (omega (arith, v.once j))
    ]

add_item_marked-IsRadio :
    (granted : Bool) (t : MarkItem) (n : ℕ) (s : Marks)
    → IsRadio s
    → occurrences t.id s.entries ≡ 0
    → IsRadio ((add_item_marked granted t n s).1)
unfolding add_item_marked
add_item_marked-IsRadio granted t n s v new = elim (Bool-cases (ltb (length s.entries) n)) [
  | inl e ↦ rw e v
  | inr e ↦ rw e (by_mark t.mark refl)
]
  where
    by_mark :
        (b : Bool)
        → t.mark ≡ b
        → IsRadio ((put_in granted n t (if b then item_marked t.id t.label s else s)).1)
    by_mark true e =
        let q = kept s.modes.radio t.id t.id s.entries in
        put_in-IsRadio granted t n (item_marked t.id t.label s)
          (record {
            once = λ j. omega (arith, kept s.modes.radio t.id j s.entries, v.once j);
            single = λ r. omega (arith, few s.modes.radio t.id s.entries r, v.once t.id);
          })
          (omega (arith, q, new))
          (λ r. omega (arith, few s.modes.radio t.id s.entries r, new, bit_small t.mark))
    by_mark false e = put_in-IsRadio granted t n s v new (λ r. omega (arith, ap bit e, v.single r))

remove_item_marked-IsRadio : (j : ℕ) (s : Marks) → IsRadio s → IsRadio ((remove_item_marked j s).1)
unfolding remove_item_marked
remove_item_marked-IsRadio j s v = elim (Bool-cases (is_in j s.entries)) [
  | inl e ↦ rw (e) (record {
    once = λ i. omega (arith, (count-remove_first i j s.entries).0, v.once i);
    single = λ r. omega (arith, (count-remove_first 0 j s.entries).1, v.single r);
  })
  | inr e ↦ rw e v
]

-- What the calls make of an empty menu, where only new items are added, and radio mode is set while at
-- most one item is marked.
pub data Reach : Marks → Type 0 where
  empty_menu :
      (m : Modes) (super : Option (Option (List ℕ)))
      → Reach (record { entries = []; modes = m; super_label = super })
  added :
      {s : Marks} (granted : Bool) (t : MarkItem) (n : ℕ)
      → Reach s
      → occurrences t.id s.entries ≡ 0
      → Reach ((add_item_marked granted t n s).1)
  marking : {s : Marks} (t : MarkItem) (b : Bool) → Reach s → Reach (set_marked t b s)
  removing : {s : Marks} (j : ℕ) → Reach s → Reach ((remove_item_marked j s).1)
  radio_on :
      {s : Marks}
      → Reach s
      → marked_count s.entries ≤ 1
      → Reach (record s { modes = set_radio_mode true s.modes })
  radio_off : {s : Marks} → Reach s → Reach (record s { modes = set_radio_mode false s.modes })

-- In every state that these reach, each item is in the menu at most once, and in radio mode at most one
-- item is marked.
pub Reach-IsRadio : {s : Marks} → Reach s → IsRadio s
unfolding occurrences marked_count
Reach-IsRadio (empty_menu m super) = record { once = λ j. omega arith; single = λ r. omega arith }
Reach-IsRadio (added {s} granted t n r new) =
    add_item_marked-IsRadio granted t n s (Reach-IsRadio r) new
Reach-IsRadio (marking {s} t b r) = set_marked-IsRadio t b s (Reach-IsRadio r)
Reach-IsRadio (removing {s} j r) = remove_item_marked-IsRadio j s (Reach-IsRadio r)
Reach-IsRadio (radio_on {s} r h) = record { once = (Reach-IsRadio r).once; single = λ e. h }
Reach-IsRadio (radio_off {s} r) = record { once = (Reach-IsRadio r).once; single = λ e. absurd cc }
