-- ===== src/Storage/Entry/Calls.antt =====
-- kits/storage/Entry.cpp: the loop of BEntry::_SetTo and the calls on the objects. A result `none`
-- stands for a call that does not return: the loop has no turns left, or a null path is read.
use libb.Prelude.{
  ℕ, zero, suc, ◌+◌, ◌*◌, Option, none, some, Bool, true, false, not, ◌&&◌, if◌then◌else◌,
}
use libb.Prelude.Status.{
  Status, ok, is_ok, no_init, no_memory, bad_value, entry_not_found, file_exists, posix_error,
}
use libb.Storage.{
  Text, dot, max_symlinks, World, Answer, got, refused, Posix, tick, close, text_eq, is_empty,
  kern_dup, kern_open_parent_dir, kern_rename,
}
use libb.Storage.Entry.{Paths, Round, found, failed, again, round}

pub record BEntry : Type 0 where
  pub dir_fd : Option ℕ
  pub name : Option Text
  pub status : Status

pub record EntryRef : Type 0 where
  pub dirfd : Option ℕ
  pub ref_name : Option Text

-- A call on an entry: the status that it returns, the entry and the world.
abbrev pub Result : Type 0
Result = Option (Status × BEntry × World)

abbrev pub with_status : Status × BEntry × World → Status × BEntry × World
with_status (s, e, w) = (s, record e { status = s }, w)

abbrev pub set_status : Result → Result
set_status none = none
set_status (some r) = some (with_status r)

abbrev pub blank : BEntry
blank = record { dir_fd = none; name = none; status = no_init }

-- `Unset()`, which leaves the entry blank.
unfoldable pub unset : BEntry → World → World
unset e w = close e.dir_fd w

abbrev pub next_turn :
    (Option ℕ → Option Text → Text → ℕ → Bool → World → Option (Round × World))
    → Round × World
    → Option (Round × World)
next_turn rest (found c leaf, w) = some (found c leaf, w)
next_turn rest (failed cur s, w) = some (failed cur s, w)
next_turn rest (again cur p leaf limit concrete, w) = rest cur p leaf limit concrete w

abbrev pub copy_end : Status × BEntry × World → BEntry × World
copy_end (s, e, w) = if is_ok s then (record e { status = ok }, w) else (blank, unset e w)

-- `GetParent(entry)` over an entry `e'`.
abbrev pub parent_entry : Status × BEntry × World → Status × BEntry × World
parent_entry (s, e, w) =
    if is_ok s then (ok, record e { status = ok }, w) else (s, blank, unset e w)

-- `_Rename(target, clobber)` and what becomes of the target, which is then destroyed.
abbrev pub renamed : BEntry → BEntry → Status × World → Status × BEntry × World
renamed e t (s, w) = if is_ok s then (s, t, unset e w) else (s, e, unset t w)

module _ (os : Posix) where
  -- `_SetName(name)` with a name that is not null.
  unfoldable pub set_name : Text → BEntry → World → Status × BEntry × World
  set_name n e w =
      if os.strdup w.time
      then (ok, record e { name = some n }, tick w)
      else (no_memory, record e { name = none }, tick w)

  abbrev pub dup_of : Option ℕ → World → Answer × World
  dup_of none w = (refused posix_error, tick w)
  dup_of (some d) w = kern_dup os d w

  -- `GetStat(st)`, and `Exists()`
  abbrev pub stat_answer : Option Status → Status
  stat_answer none = ok
  stat_answer (some s) = s

  abbrev pub stat_of : Option ℕ → Option Text → World → Status × World
  stat_of (some d) (some n) w =
      if is_empty n then (bad_value, w) else (stat_answer (os.statat w.time (some d) n), tick w)
  stat_of none n w = (bad_value, w)
  stat_of (some d) none w = (bad_value, w)

  -- The end of `_SetTo`: an error closes what `fdCloser` holds.
  abbrev pub named_at : ℕ → Status × BEntry × World → Status × BEntry × World
  named_at c (s, e, w) =
      if is_ok s then (ok, record e { dir_fd = some c }, w) else (s, e, close (some c) w)

  abbrev pub resolved : BEntry → Option (Round × World) → Result
  resolved e none = none
  resolved e (some (found c leaf, w)) = some (named_at c (set_name leaf e w))
  resolved e (some (failed cur s, w)) = some (s, e, close cur w)
  resolved e (some (again cur p leaf limit concrete, w)) = none

  abbrev pub parent_at : BEntry → Answer × Text × World → Status × BEntry × World
  parent_at e' (refused s, leaf, w) = (s, e', w)
  parent_at e' (got n, leaf, w) =
      parent_entry (set_name leaf (record blank { dir_fd = some n }) (unset e' w))

  abbrev pub parent_named : BEntry → Option Text → Text → BEntry → World → Status × BEntry × World
  parent_named e none buffer e' w = parent_at e' (kern_open_parent_dir os e.dir_fd buffer w)
  parent_named e (some n) buffer e' w =
      if text_eq n dot
      then (entry_not_found, e', w)
      else parent_at e' (kern_open_parent_dir os e.dir_fd buffer w)

  unfoldable pub get_parent : BEntry → Text → BEntry → World → Status × BEntry × World
  get_parent e buffer e' w =
      if is_ok e.status then parent_named e e.name buffer e' w else (no_init, e', w)

  -- `operator=` of another object.
  abbrev pub copy_named : Option Text → BEntry → World → Status × BEntry × World
  copy_named none e w = (bad_value, e, w)
  copy_named (some n) e w = set_name n e w

  abbrev pub copy_at : Option Text → Answer × World → BEntry × World
  copy_at n (refused s, w) = (blank, w)
  copy_at n (got d, w) = copy_end (copy_named n (record blank { dir_fd = some d }) w)

  unfoldable pub assign : BEntry → BEntry → World → BEntry × World
  assign e item w =
      if is_ok item.status
      then copy_at item.name (dup_of item.dir_fd (unset e w))
      else (blank, unset e w)

  -- `entry_ref::set_name(name)`
  abbrev pub set_ref_name : Option Text → EntryRef → World → Status × EntryRef × World
  set_ref_name none r w = (ok, record r { ref_name = none }, w)
  set_ref_name (some n) r w =
      if is_empty n
      then (ok, record r { ref_name = none }, w)
      else if os.strdup w.time
      then (ok, record r { ref_name = some n }, tick w)
      else (no_memory, record r { ref_name = none }, tick w)

  -- `GetRef(ref)`
  abbrev pub ref_at : Option Text → EntryRef → Answer × World → Status × EntryRef × World
  ref_at n r (refused s, w) = (s, record r { dirfd = none }, w)
  ref_at n r (got d, w) = set_ref_name n (record r { dirfd = some d }) w

  unfoldable pub get_ref : BEntry → EntryRef → World → Status × EntryRef × World
  get_ref e r w =
      if is_ok e.status
      then ref_at e.name r (dup_of e.dir_fd (close r.dirfd w))
      else (no_init, r, w)

  abbrev pub rename_over :
      BEntry → BEntry → Text → Text → Bool → Status × World → Status × BEntry × World
  rename_over e t n m clobber (s, w) =
      if not clobber && is_ok s
      then (file_exists, e, unset t w)
      else renamed e t (kern_rename os e.dir_fd n t.dir_fd m w)

  abbrev pub probe : Bool → BEntry → World → Status × World
  probe true t w = (ok, w)
  probe false t w = stat_of t.dir_fd t.name w

  unfoldable pub rename_to : BEntry → BEntry → Text → Text → Bool → World → Status × BEntry × World
  rename_to e t n m clobber w = rename_over e t n m clobber (probe clobber t w)

  module _ (fs : Paths) where
    -- The loop of `_SetTo`, at most `fuel` turns.
    unfoldable pub set_loop :
        ℕ → Bool → Option ℕ → Option Text → Text → ℕ → Bool → World → Option (Round × World)
    set_loop zero traverse cur p leaf limit concrete w = none
    set_loop (suc fuel) traverse cur p leaf limit concrete w =
        next_turn (set_loop fuel traverse) (round os fs traverse cur p leaf limit concrete w)

    -- `_SetTo(dirFD, path, traverse)`, where the buffer holds `leaf` at first.
    unfoldable pub set_to_at : Text → BEntry → Option ℕ → Option Text → Bool → World → Result
    set_to_at leaf e cur p traverse w =
        resolved e (set_loop (2 * max_symlinks + 2) traverse cur p leaf max_symlinks false w)

    -- `SetTo(path, traverse)`
    unfoldable pub set_to_path : Text → BEntry → Option Text → Bool → World → Result
    set_to_path leaf e none traverse w =
        some (bad_value, record blank { status = bad_value }, unset e w)
    set_to_path leaf e (some p) traverse w =
        set_status (set_to_at leaf blank none (some p) traverse (unset e w))

    -- `SetTo(ref, traverse)` with a reference that has a descriptor and a name.
    unfoldable pub set_to_ref : Text → BEntry → ℕ → Text → Bool → World → Result
    set_to_ref leaf e d n traverse w =
        if fs.is_absolute n
        then set_to_path leaf blank (some n) traverse (unset e w)
        else set_status (set_to_at leaf blank (some d) (some n) traverse (unset e w))

    abbrev pub set_to_dup : Text → Text → Bool → Answer × World → Result
    set_to_dup leaf p traverse (refused s, w) = some (s, record blank { status = s }, w)
    set_to_dup leaf p traverse (got d, w) =
        set_status (set_to_at leaf blank (some d) (some p) traverse w)

    -- `SetTo(dir, path, traverse)` with the descriptor of a directory; the status that a bad one
    -- sets is overwritten.
    unfoldable pub set_to_dir : Text → BEntry → Option ℕ → Text → Bool → World → Result
    set_to_dir leaf e d p traverse w =
        if is_empty p
        then none
        else if fs.is_absolute p
        then set_to_path leaf e (some p) traverse w
        else set_to_dup leaf p traverse (dup_of d (unset e w))
