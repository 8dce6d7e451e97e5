-- ===== src/Storage/Node.antt =====
-- kits/storage/Node.cpp: BNode and node_ref, which hold a descriptor each. A negative `fFd` is `none`.
pub mod Closed
use libb.Prelude.{ℕ, suc, ◌≡◌, Option, none, some, Bool, true, false, ◌&&◌, ◌||◌, if◌then◌else◌}
use libb.Prelude.Status.{Status, ok, is_ok, no_init, bad_value, entry_not_found, posix_error}
use libb.Storage.{
  Text, World, Answer, got, refused, OpenMode, read_write, read_only, Posix, close, tick, is_some,
  kern_dup, kern_open,
}
use libb.Storage.Entry.{Paths, is_entry_not_found}
use libb.Storage.Entry.Calls.{dup_of}

pub record BNode : Type 0 where
  pub fd : Option ℕ
  pub status : Status

abbrev pub no_node : BNode
no_node = record { fd = none; status = no_init }

abbrev pub is_no_init : Status → Bool
is_no_init no_init = true
is_no_init _ = false

-- `Unset()`, which leaves no node, and `close_fd()`.
unfoldable pub unset : BNode → World → World
unset n w = close n.fd w

-- `set_fd(fd)`
unfoldable pub set_fd : Option ℕ → BNode → World → BNode × World
set_fd d n w = (record n { fd = d }, close n.fd w)

abbrev pub dup_answer : Answer × World → Option ℕ × World
dup_answer (got d, w) = (some d, w)
dup_answer (refused s, w) = (none, w)

abbrev pub opened : Answer × World → Status × BNode × World
opened (got d, w) = (ok, record { fd = some d; status = ok }, w)
opened (refused s, w) = (s, record { fd = none; status = s }, w)

abbrev pub ref_from : Option ℕ → Option ℕ × World → Option ℕ × World
ref_from d (r, w) = (r, close d w)

abbrev pub assigned : Answer × World → BNode × World
assigned (got d, w) = (record { fd = some d; status = ok }, w)
assigned (refused s, w) = (record { fd = none; status = no_init }, w)

module _ (os : Posix) where
  -- `node_ref::operator=` of another reference.
  unfoldable pub assign_ref : Option ℕ → Option ℕ → World → Option ℕ × World
  assign_ref mine other w = dup_answer (dup_of os other (close mine w))

  -- `GetNodeRef(ref)`: `*ref = node_ref(fFd)`, and then the destructor of `node_ref(fFd)`.
  unfoldable pub get_node_ref : BNode → Option ℕ → World → Option ℕ × World
  get_node_ref n r w = ref_from n.fd (assign_ref r n.fd w)

  -- `Dup()`
  unfoldable pub dup : BNode → World → Option ℕ × World
  dup n w = dup_answer (dup_of os n.fd w)

  -- `_SetTo(fd, path, traverse)`: read and write, or else to read only.
  abbrev pub retried : Option ℕ → Option Text → Answer × World → Status × BNode × World
  retried d p (got c, w) = opened (got c, w)
  retried d p (refused s, w) =
      if is_entry_not_found s then opened (refused s, w) else opened (kern_open os d p read_only w)

  unfoldable pub set_to_at : BNode → Option ℕ → Option Text → World → Status × BNode × World
  set_to_at n d p w =
      if is_some d || is_some p
      then retried d p (kern_open os d p read_write (unset n w))
      else (bad_value, record { fd = none; status = bad_value }, unset n w)

  -- `SetTo(path)`
  unfoldable pub set_to_path : BNode → Option Text → World → Status × BNode × World
  set_to_path n p w = set_to_at n none p w

  -- `SetTo(entry)`, and `SetTo(dir, path)` with a directory and a path that is given.
  unfoldable pub set_to_entry : BNode → Option ℕ → Option Text → World → Status × BNode × World
  set_to_entry n d name w = set_to_at n d name w

  unfoldable pub set_to_dir : Paths → BNode → Option ℕ → Text → World → Status × BNode × World
  set_to_dir fs n d p w =
      if fs.is_absolute p
      then (bad_value, record { fd = none; status = bad_value }, unset n w)
      else set_to_at n d (some p) w

  abbrev pub assign_unless : BNode → BNode → Bool × World → BNode × World
  assign_unless n m (true, w) = (n, w)
  assign_unless n m (false, w) = assigned (dup_of os m.fd (unset n w))

  -- `node_ref::operator==`: what `fstat` says of two descriptors at a time.
  module _ (same : ℕ → Option ℕ → Option ℕ → Bool) where
    abbrev pub compare_refs : Option ℕ → Option ℕ × World → Bool × World
    compare_refs a (b, w) = (same w.time a b, close a (close b (tick w)))

    abbrev pub compare_with : BNode → Option ℕ × World → Bool × World
    compare_with m (a, w) = compare_refs a (get_node_ref m none w)

    -- `operator==`
    unfoldable pub equals : BNode → BNode → World → Bool × World
    equals n m w =
        if is_no_init n.status && is_no_init m.status
        then (true, w)
        else if is_ok n.status && is_ok m.status
        then compare_with m (get_node_ref n none w)
        else (false, w)

    -- `operator=`
    unfoldable pub assign : BNode → BNode → World → BNode × World
    assign n m w = assign_unless n m (equals n m w)
