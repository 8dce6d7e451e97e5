-- ===== src/Storage/Table.antt =====
-- Who holds which descriptor: what the calls of the kernel kit do to the table of open descriptors.
use mathlib.Core.Path.{subst}
use libb.Prelude.{
  ℕ, ◌≡◌, refl, sym, ◌∙◌, inl, inr, List, [], ◌∷◌, Option, none, some, Bool, true, false, ◌&&◌,
  ◌||◌, ◌==◌, arith, Bool-cases, ==_iff,
}
use libb.Prelude.Status.{Status}
use libb.Prelude.Threads.{update}
use libb.Storage.{
  Text, World, Answer, got, refused, Inode, inode, no_inode, Posix, IsFresh, OpenMode, directory,
  answered, tick, close, bad_leaf, is_some, kern_dup, kern_open, kern_open_dir, find_entry, named,
  parent_of, parent_with, kern_open_parent_dir, dot_dot, kern_read_stat, kern_read_link,
}

abbrev pub holds : Option ℕ → ℕ → Bool
holds none i = false
holds (some c) i = c == i

-- The table is `base` with the descriptor `cur`, which `base` has not.
abbrev pub IsApart : (ℕ → Bool) → Option ℕ → Type 0
IsApart base none = Unit
IsApart base (some c) = base c ≡ false

pub record Held (base : ℕ → Bool) (cur : Option ℕ) (o : ℕ → Bool) : Type 0 where
  pub table : (i : ℕ) → o i ≡ (holds cur i || base i)
  pub apart : IsApart base cur

pub Held-close :
    (base : ℕ → Bool) (cur : Option ℕ) (w : World)
    → Held base cur w.open_at
    → Held base none ((close cur w).open_at)
unfolding close
Held-close base none w h = h
Held-close base (some c) w h = record {
  table = λ i. elim (Bool-cases (c == i)) [
    | inl e ↦ rw (e, sym ((==_iff c i).0 e), h.apart) refl
    | inr e ↦ rw (e, h.table i, e) refl
  ];
  apart = tt;
}

-- A new descriptor takes the place of the one held.
pub Held-replace :
    (base : ℕ → Bool) (cur : Option ℕ) (n t : ℕ) (o : ℕ → Bool)
    → Held base cur o
    → o n ≡ false
    → Held base (some n) ((close cur (record { open_at = update o n true; time = t })).open_at)
unfolding close
Held-replace base none n t o h f = record {
  table = λ i. elim (Bool-cases (n == i)) [ inl e ↦ rw (e) refl | inr e ↦ rw (e, h.table i) refl ];
  apart = sym (h.table n) ∙ f;
}
Held-replace base (some c) n t o h f =
    let both : (c == n || base n) ≡ false = sym (h.table n) ∙ f in
    let apart : base n ≡ false = ground arith in
    let ne : (c == n) ≡ false = ground arith in
    record {
      table = λ i. elim (Bool-cases (c == i)) [
        | inl e ↦ elim (Bool-cases (n == i)) [
          | inl g ↦ ground arith
          | inr g ↦ rw (e, g, sym ((==_iff c i).0 e), h.apart) refl
        ]
        | inr e ↦ elim (Bool-cases (n == i)) [
          | inl g ↦ rw (e, g) refl
          | inr g ↦ rw (e, g, h.table i, e) refl
        ]
      ];
      apart = apart;
    }

-- What a call that may give a descriptor does to the table.
abbrev pub Opens : World → Answer × World → Type 0
Opens w (got n, w') = (w.open_at n ≡ false) × (w'.open_at ≡ update w.open_at n true)
Opens w (refused s, w') = w'.open_at ≡ w.open_at

pub Held-got :
    (base : ℕ → Bool) (cur : Option ℕ) (n : ℕ) (w w' : World)
    → Held base cur w.open_at
    → Opens w (got n, w')
    → Held base (some n) ((close cur w').open_at)
Held-got base cur n w w' h o =
    subst (λ f. Held base (some n) ((close cur (record { open_at = f; time = w'.time })).open_at))
      (sym (o.1)) (Held-replace base cur n w'.time w.open_at h (o.0))

pub Held-refused :
    (base : ℕ → Bool) (cur : Option ℕ) (s : Status) (w w' : World)
    → Held base cur w.open_at
    → Opens w (refused s, w')
    → Held base cur w'.open_at
Held-refused base cur s w w' h o = subst (Held base cur) (sym o) h

answered-Opens :
    (a : Answer) (w : World) → ((n : ℕ) → a ≡ got n → w.open_at n ≡ false) → Opens w (answered a w)
answered-Opens (got n) w f = (f n refl, refl)
answered-Opens (refused s) w f = refl

-- Reading a directory does not fail.
abbrev pub IsReadable : Posix → Type 0
IsReadable os = (t n : ℕ) → (os.entries t n).1 ≡ none

find_entry-none :
    (k : ℕ) (leaf : Text) (es : List (ℕ × Text)) → (find_entry k leaf es none).1 ≡ none
unfolding find_entry
find_entry-none k leaf [] = refl
find_entry-none k leaf ((i, name) ∷ es) = elim (Bool-cases (i == k)) [
  | inl e ↦ rw (e) refl
  | inr e ↦ rw (e) (find_entry-none k leaf es)
]

module _ (os : Posix) (fresh : IsFresh os) where
  pub kern_dup-Opens : (d : ℕ) (w : World) → Opens w (kern_dup os d w)
  unfolding kern_dup
  kern_dup-Opens d w =
      answered-Opens (os.dup w.time w.open_at d) w (fresh.dup_fresh w.time w.open_at d)

  pub kern_open_dir-Opens : (d : Option ℕ) (p : Text) (w : World) → Opens w (kern_open_dir os d p w)
  unfolding kern_open_dir
  kern_open_dir-Opens d p w = elim (Bool-cases (is_some d && bad_leaf (some p))) [
    | inl e ↦ rw (e) refl
    | inr e ↦ rw (e) (
        answered-Opens (os.openat w.time w.open_at d p directory) w
          (fresh.openat_fresh w.time w.open_at d p directory))
  ]

  pub kern_open-Opens :
      (d : Option ℕ) (p : Option Text) (m : OpenMode) (w : World) → Opens w (kern_open os d p m w)
  unfolding kern_open
  kern_open-Opens d none m w = refl
  kern_open-Opens d (some p) m w = elim (Bool-cases (bad_leaf (some p))) [
    | inl e ↦ rw (e) refl
    | inr e ↦ rw (e) (
        answered-Opens (os.openat w.time w.open_at d p m) w
          (fresh.openat_fresh w.time w.open_at d p m))
  ]

  named-Opens :
      (w v : World) (n : ℕ) (r : Text × Option Status)
      → r.1 ≡ none
      → w.open_at n ≡ false
      → v.open_at ≡ update w.open_at n true
      → Opens w ((named n r v).0, (named n r v).2)
  named-Opens w v n (leaf, none) e f g = (f, g)
  named-Opens w v n (leaf, some s) e f g = absurd cc

  parent_of-Opens :
      (k : ℕ) (leaf : Text) (w : World) (r : Answer × World)
      → IsReadable os
      → Opens w r
      → Opens w ((parent_of os k leaf r).0, (parent_of os k leaf r).2)
  parent_of-Opens k leaf w (refused s, v) read h = h
  parent_of-Opens k leaf w (got n, v) read h =
      named-Opens w (tick v) n
        (find_entry k leaf ((os.entries v.time n).0) ((os.entries v.time n).1))
        (rw (read v.time n) (find_entry-none k leaf ((os.entries v.time n).0))) (h.0) (h.1)

  parent_with-Opens :
      (d : Option ℕ) (leaf : Text) (i : Inode) (w : World)
      → IsReadable os
      → Opens w ((parent_with os d leaf i w).0, (parent_with os d leaf i w).2)
  parent_with-Opens d leaf (no_inode s) w read = refl
  parent_with-Opens d leaf (inode k) w read =
      parent_of-Opens k leaf w (kern_open_dir os d dot_dot (tick w)) read
        (kern_open_dir-Opens d dot_dot (tick w))

  -- Where directories can be read, the call leaves no descriptor open but the one it gives.
  pub kern_open_parent_dir-Opens :
      (d : Option ℕ) (leaf : Text) (w : World)
      → IsReadable os
      → Opens w ((kern_open_parent_dir os d leaf w).0, (kern_open_parent_dir os d leaf w).2)
  unfolding kern_open_parent_dir
  kern_open_parent_dir-Opens d leaf w read = parent_with-Opens d leaf (os.fstat w.time d) w read

module _ (os : Posix) where
  pub kern_read_stat_table :
      (d : Option ℕ) (p : Text) (w : World) → (kern_read_stat os d p w).1.open_at ≡ w.open_at
  unfolding kern_read_stat
  kern_read_stat_table d p w = elim (Bool-cases (bad_leaf (some p))) [
    | inl e ↦ rw (e) refl
    | inr e ↦ rw (e) refl
  ]

  pub kern_read_link_table :
      (d : Option ℕ) (p : Text) (w : World) → (kern_read_link os d p w).1.open_at ≡ w.open_at
  unfolding kern_read_link
  kern_read_link_table d p w = elim (Bool-cases (bad_leaf (some p))) [
    | inl e ↦ rw (e) refl
    | inr e ↦ rw (e) refl
  ]
