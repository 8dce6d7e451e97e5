-- ===== src/Storage/Tests.antt =====
-- The storage kit on a host with two free descriptors, and witnesses of the theorems.
use mathlib.Core.Path.{subst}
use libb.Prelude.{
  ℕ, ◌≡◌, refl, inl, inr, [], ◌∷◌, Option, none, some, Bool, true, false, if◌then◌else◌, ◌==◌,
  Bool-cases,
}
use libb.Prelude.Threads.{update}
use libb.Prelude.Status.{Status, ok, is_ok, bad_value, no_init, posix_error}
use libb.Storage.{
  Text, World, Answer, got, refused, inode, other, no_target, Posix, IsFresh, close, has_slash,
  text_eq, bad_leaf, kern_open_dir, kern_dup, kern_read_stat,
}
use libb.Storage.Table.{Held, holds, IsReadable}
use libb.Storage.Entry.{Paths, starts_with_slash, round, check_entry_name}
use libb.Storage.Entry.Calls.{
  BEntry, blank, unset, set_name, set_loop, set_to_at, set_to_path, set_to_ref, set_to_dir,
}
use libb.Storage.Entry.Owner.{Returns, blank-IsOwner, set_to_path-Owning}
use libb.Storage.Entry.Reach.{start, by_path, Reach-unset}
use libb.Storage.Entry.Leaf.{IsLeaf, set_to_ref_takes, set_to_dir-IsLeaf}
use libb.Storage.Node as Node
use libb.Storage.Node.{BNode, no_node}
use libb.Storage.Node.Closed.{IsStrict, IsRelative, assign_fails, set_to_path_fails}

-- The descriptors 5 and 6 are free unless the table has them.
abbrev pick : (ℕ → Bool) → Answer
pick o = if o 5 then (if o 6 then refused posix_error else got 6) else got 5

abbrev open_from : (ℕ → Bool) → Option ℕ → Text → Answer
open_from o none p = if has_slash p then pick o else refused posix_error
open_from o (some d) p = pick o

abbrev host : Posix
host = record {
  openat = λ t o d p m. open_from o d p;
  dup = λ t o d. if o d then pick o else refused posix_error;
  fstat = λ t d. inode 7;
  entries = λ t n. ((7, 97 ∷ []) ∷ [], none);
  lstatat = λ t d p. other;
  statat = λ t d p. none;
  readlinkat = λ t d p. no_target posix_error;
  getcwd = λ t. none;
  renameat = λ t d p e q. ok;
  strdup = λ t. true;
}

-- Paths "/a" and names.
abbrev paths : Paths
paths = record {
  parent_path = λ p. if starts_with_slash p then 47 ∷ [] else [];
  filename = λ p. if starts_with_slash p then 97 ∷ [] else p;
  is_absolute = starts_with_slash;
}

got-inj : (m n : ℕ) → got m ≡ got n → m ≡ n
got-inj m n e = cc

pick_fresh : (o : ℕ → Bool) (n : ℕ) → pick o ≡ got n → o n ≡ false
pick_fresh o n e = elim (Bool-cases (o 5)) [
  | inl a ↦ elim (Bool-cases (o 6)) [
    | inl b ↦ let f : refused posix_error ≡ got n = rw (a, b) at e in cc
    | inr b ↦ subst (λ n. o n ≡ false) (got-inj 6 n (rw (a, b) at e)) b
  ]
  | inr a ↦ subst (λ n. o n ≡ false) (got-inj 5 n (rw (a) at e)) a
]

open_from_fresh :
    (o : ℕ → Bool) (d : Option ℕ) (p : Text) (n : ℕ) → open_from o d p ≡ got n → o n ≡ false
open_from_fresh o none p n e = elim (Bool-cases (has_slash p)) [
  | inl a ↦ pick_fresh o n (rw (a) at e)
  | inr a ↦ let f : refused posix_error ≡ got n = rw (a) at e in cc
]
open_from_fresh o (some d) p n e = pick_fresh o n e

host-IsFresh : IsFresh host
host-IsFresh = record {
  openat_fresh = λ t o d p m n e. open_from_fresh o d p n e;
  dup_fresh = λ t o d n e. elim (Bool-cases (o d)) [
    | inl a ↦ pick_fresh o n (rw (a) at e)
    | inr a ↦ let f : refused posix_error ≡ got n = rw (a) at e in cc
  ];
}

host-IsReadable : IsReadable host
host-IsReadable t n = refl

host-IsStrict : IsStrict host
host-IsStrict = record { dup_closed = λ t o d e. (posix_error, rw (e) refl) }

host-IsRelative : IsRelative host
host-IsRelative = record { openat_none = λ t o p m e. (posix_error, rw (e) refl, refl) }

-- Only the descriptor 3 is open.
abbrev others : ℕ → Bool
others i = i == 3

abbrev idle : World
idle = record { open_at = others; time = 0 }

idle-Held : Held others none others
idle-Held = record { table = λ i. refl; apart = tt }

abbrev root_a : Text
root_a = 47 ∷ 97 ∷ []

-- SetTo("/a", true) leaves the entry with the descriptor 5.
abbrev busy : World
busy = record { open_at = update others 5 true; time = 3 }

abbrev entry_a : BEntry
entry_a = record { dir_fd = some 5; name = some (97 ∷ []); status = ok }

set_to_a : set_to_path host paths [] blank (some root_a) true idle ≡ some (ok, entry_a, busy)
unfolding set_to_path set_to_at set_loop round unset close has_slash text_eq bad_leaf kern_open_dir
    kern_read_stat check_entry_name set_name
set_to_a = refl

Reach-unset_example : (unset entry_a busy).open_at 5 ≡ others 5
Reach-unset_example =
    Reach-unset host others host-IsFresh host-IsReadable paths 5
      (by_path [] (some root_a) true (start idle idle-Held) set_to_a)

set_to_path-Owning_example :
    Returns others (set_to_path host paths [] blank (some root_a) true idle)
set_to_path-Owning_example =
    set_to_path-Owning host others host-IsFresh host-IsReadable paths [] blank (some root_a) true
      idle (blank-IsOwner others no_init idle idle-Held)

set_to_ref_takes_example :
    (x : Status × BEntry × World) × (set_to_ref host paths [] blank 3 (97 ∷ []) true idle ≡ some x)
    × (x.2.open_at 3 ≡ holds x.1.dir_fd 3)
set_to_ref_takes_example =
    set_to_ref_takes host host-IsFresh host-IsReadable paths others [] blank 3 (97 ∷ []) true idle
      (blank-IsOwner others no_init idle idle-Held) refl refl

name_a-IsLeaf : IsLeaf paths (97 ∷ [])
unfolding text_eq
name_a-IsLeaf = record {
  relative = refl;
  no_parent = refl;
  itself = refl;
  filled = refl;
  short = refl;
  not_dot = refl;
  not_dot_dot = refl;
}

set_to_dir-IsLeaf_example :
    set_to_dir host paths [] blank (some 3) (97 ∷ []) true idle
    ≡ some (
      bad_value,
      record blank { status = bad_value },
      close (some 5) (record { open_at = update others 5 true; time = 1 }),
    )
unfolding kern_dup unset close
set_to_dir-IsLeaf_example =
    set_to_dir-IsLeaf host paths [] blank (some 3) (97 ∷ []) true idle
      (record { open_at = update others 5 true; time = 1 }) 5 name_a-IsLeaf refl

-- Two nodes at the descriptors 3 and 4, which `fstat` tells apart.
abbrev node_at : ℕ → BNode
node_at d = record { fd = some d; status = ok }

abbrev two_open : World
two_open = record { open_at = λ i. if i == 3 then true else i == 4; time = 0 }

assign_fails_example :
    (Node.assign host (λ t a b. false) (node_at 3) (node_at 4) two_open).0 ≡ no_node
unfolding Node.equals
assign_fails_example =
    assign_fails host (λ t a b. false) (node_at 3) (node_at 4) 4 two_open host-IsStrict refl refl
      refl refl

set_to_path_fails_example : is_ok (Node.set_to_path host no_node (some root_a) idle).0 ≡ false
set_to_path_fails_example = set_to_path_fails host host-IsRelative no_node (some root_a) idle
