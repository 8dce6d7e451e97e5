-- ===== src/Storage.antt =====
-- kits/kernel/syscalls.c: the calls on file descriptors that the storage kit makes, over the POSIX
-- calls, which are an interface. The world is the table of open descriptors and the number of calls
-- so far, so that the same call may answer differently each time. -1 for a descriptor is `none`.
pub mod Table
pub mod Entry
pub mod Node
mod Tests
use libb.Prelude.{
  ℕ, suc, ◌-◌, ◌≡◌, List, [], ◌∷◌, Option, none, some, Bool, true, false, ◌&&◌, ◌||◌, if◌then◌else◌,
  ◌==◌, take,
}
use libb.Prelude.Status.{Status, bad_value}
use libb.Prelude.Threads.{update}

abbrev pub Text : Type 0
Text = List ℕ

abbrev pub slash : ℕ
slash = 47

-- "." and ".."
abbrev pub dot : Text
dot = 46 ∷ []

abbrev pub dot_dot : Text
dot_dot = 46 ∷ 46 ∷ []

-- `B_FILE_NAME_LENGTH`, `B_PATH_NAME_LENGTH` and `B_MAX_SYMLINKS`
abbrev pub file_name_length : ℕ
file_name_length = 255

abbrev pub path_name_length : ℕ
path_name_length = 4096

abbrev pub max_symlinks : ℕ
max_symlinks = 20

pub record World : Type 0 where
  pub open_at : ℕ → Bool
  pub time : ℕ

-- A new descriptor, or B_FROM_POSIX_ERROR(errno).
pub data Answer : Type 0 where
  got : ℕ → Answer
  refused : Status → Answer

pub data Inode : Type 0 where
  inode : ℕ → Inode
  no_inode : Status → Inode

pub data Stat : Type 0 where
  link other : Stat
  no_stat : Status → Stat

pub data Target : Type 0 where
  target : Text → Target
  no_target : Status → Target

pub data OpenMode : Type 0 where
  directory read_write read_only : OpenMode

-- The POSIX calls, each with the number of the call; those that give a descriptor also depend on
-- the table. `entries` is what reading a directory to its end gives, and the error that ended it.
pub record Posix : Type 0 where
  pub openat : ℕ → (ℕ → Bool) → Option ℕ → Text → OpenMode → Answer
  pub dup : ℕ → (ℕ → Bool) → ℕ → Answer
  pub fstat : ℕ → Option ℕ → Inode
  pub entries : ℕ → ℕ → List (ℕ × Text) × Option Status
  pub lstatat : ℕ → Option ℕ → Text → Stat
  pub statat : ℕ → Option ℕ → Text → Option Status  -- the error
  pub readlinkat : ℕ → Option ℕ → Text → Target
  pub getcwd : ℕ → Option Text
  pub renameat : ℕ → Option ℕ → Text → Option ℕ → Text → Status
  pub strdup : ℕ → Bool  -- memory was found

-- POSIX: a new descriptor is one that is not open.
pub record IsFresh (os : Posix) : Type 0 where
  pub openat_fresh :
      (t : ℕ) (o : ℕ → Bool) (d : Option ℕ) (p : Text) (m : OpenMode) (n : ℕ)
      → os.openat t o d p m ≡ got n
      → o n ≡ false
  pub dup_fresh : (t : ℕ) (o : ℕ → Bool) (d n : ℕ) → os.dup t o d ≡ got n → o n ≡ false

abbrev pub tick : World → World
tick w = record w { time = suc w.time }

-- The world after a call that may give a descriptor.
abbrev pub answered : Answer → World → Answer × World
answered (got n) w = (got n, record { open_at = update w.open_at n true; time = suc w.time })
answered (refused s) w = (refused s, tick w)

-- `if (fd >= 0) _kern_close(fd)`
unfoldable pub close : Option ℕ → World → World
close none w = w
close (some d) w = record { open_at = update w.open_at d false; time = suc w.time }

unfoldable pub has_slash : Text → Bool
has_slash [] = false
has_slash (c ∷ cs) = (c == slash) || has_slash cs

unfoldable pub text_eq : Text → Text → Bool
text_eq [] [] = true
text_eq [] (y ∷ ys) = false
text_eq (x ∷ xs) [] = false
text_eq (x ∷ xs) (y ∷ ys) = (x == y) && text_eq xs ys

abbrev pub is_empty : Text → Bool
is_empty [] = true
is_empty (c ∷ cs) = false

-- `CHECK_BAD_LEAF(path)`
unfoldable pub bad_leaf : Option Text → Bool
bad_leaf none = true
bad_leaf (some p) = is_empty p || has_slash p

abbrev pub is_some {ℓ} : {A : Type ℓ} → Option A → Bool
is_some none = false
is_some (some a) = true

-- The loop of `_kern_open_parent_dir`: the name of the first entry with the inode is copied over
-- what the buffer holds.
unfoldable pub find_entry : ℕ → Text → List (ℕ × Text) → Option Status → Text × Option Status
find_entry k leaf [] e = (leaf, e)
find_entry k leaf ((i, name) ∷ es) e =
    if i == k then (take (file_name_length - 1) name, none) else find_entry k leaf es e

abbrev pub named : ℕ → Text × Option Status → World → Answer × Text × World
named n (leaf, none) w = (got n, leaf, w)
named n (leaf, some s) w = (refused s, leaf, w)

module _ (os : Posix) where
  unfoldable pub kern_dup : ℕ → World → Answer × World
  kern_dup d w = answered (os.dup w.time w.open_at d) w

  -- `_kern_open(fd, path, openMode, perms)`
  abbrev pub open_leaf : Option ℕ → Option Text → OpenMode → World → Answer × World
  open_leaf d none m w = (refused bad_value, w)
  open_leaf d (some p) m w =
      if bad_leaf (some p)
      then (refused bad_value, w)
      else answered (os.openat w.time w.open_at d p m) w

  unfoldable pub kern_open : Option ℕ → Option Text → OpenMode → World → Answer × World
  kern_open d p m w = open_leaf d p m w

  -- `_kern_open_dir(fd, path)`
  unfoldable pub kern_open_dir : Option ℕ → Text → World → Answer × World
  kern_open_dir d p w =
      if is_some d && bad_leaf (some p)
      then (refused bad_value, w)
      else answered (os.openat w.time w.open_at d p directory) w

  abbrev pub parent_of : ℕ → Text → Answer × World → Answer × Text × World
  parent_of k leaf (refused s, w) = (refused s, leaf, w)
  parent_of k leaf (got n, w) =
      let (es, e) = os.entries w.time n in named n (find_entry k leaf es e) (tick w)

  abbrev pub parent_with : Option ℕ → Text → Inode → World → Answer × Text × World
  parent_with d leaf (no_inode s) w = (refused s, leaf, tick w)
  parent_with d leaf (inode k) w = parent_of k leaf (kern_open_dir d dot_dot (tick w))

  -- `_kern_open_parent_dir(fd, name, nameLength)`, where the buffer holds `leaf`: the answer and
  -- what the buffer holds then.
  unfoldable pub kern_open_parent_dir : Option ℕ → Text → World → Answer × Text × World
  kern_open_parent_dir d leaf w = parent_with d leaf (os.fstat w.time d) w

  -- `_kern_read_stat(fd, path, false, st)`
  unfoldable pub kern_read_stat : Option ℕ → Text → World → Stat × World
  kern_read_stat d p w =
      if bad_leaf (some p) then (no_stat bad_value, w) else (os.lstatat w.time d p, tick w)

  -- `_kern_read_link(fd, path, buffer, size)`; the call writes no more than the buffer holds.
  unfoldable pub kern_read_link : Option ℕ → Text → World → Target × World
  kern_read_link d p w =
      if bad_leaf (some p) then (no_target bad_value, w) else (os.readlinkat w.time d p, tick w)

  unfoldable pub kern_rename : Option ℕ → Text → Option ℕ → Text → World → Status × World
  kern_rename d p e q w = (os.renameat w.time d p e q, tick w)
