-- ===== src/Storage/Entry.antt =====
-- kits/storage/Entry.cpp: BEntry, a descriptor of a directory and a name in it. `std::filesystem::path`
-- is an interface.
pub mod Calls
pub mod Resolve
pub mod Owner
pub mod Reach
pub mod Leaf
use libb.Prelude.{
  ℕ, zero, suc, ◌-◌, ◌≡◌, List, [], ◌∷◌, Option, none, some, Bool, true, false, not, ◌&&◌, ◌||◌,
  if◌then◌else◌, ◌==◌, leb, length,
}
use libb.Prelude.Status.{
  Status, ok, is_ok, no_init, no_memory, bad_value, name_too_long, entry_not_found, link_limit,
  general_error, file_exists,
}
use libb.Storage.{
  Text, slash, dot, dot_dot, file_name_length, path_name_length, max_symlinks, World, Answer, got,
  refused, Stat, link, other, no_stat, Target, target, no_target, Posix, tick, close, has_slash,
  text_eq, is_empty, is_some, kern_dup, kern_open_dir, kern_open_parent_dir, kern_read_stat,
  kern_read_link, kern_rename,
}

pub record Paths : Type 0 where
  pub parent_path : Text → Text
  pub filename : Text → Text
  pub is_absolute : Text → Bool

-- `check_entry_name(entry)`
unfoldable pub check_entry_name : Option Text → Status
check_entry_name none = bad_value
check_entry_name (some e) =
    if leb file_name_length (length e) then name_too_long else if has_slash e then bad_value else ok

-- What one turn of the loop of `_SetTo` ends with: the descriptor of a directory and the name in it,
-- an error with the descriptor that `fdCloser` holds, or the next path to resolve.
pub data Round : Type 0 where
  found : ℕ → Text → Round
  failed : Option ℕ → Status → Round
  again : Option ℕ → Option Text → Text → ℕ → Bool → Round

-- `parse_path(fullPath, dirPath, leafName)`
abbrev pub parse_path : Paths → Text → Status
parse_path fs p =
    if is_empty p
    then bad_value
    else if leb path_name_length (length (fs.parent_path p))
        || leb file_name_length (length (fs.filename p))
    then name_too_long
    else ok

abbrev pub starts_with_slash : Text → Bool
starts_with_slash [] = false
starts_with_slash (c ∷ cs) = c == slash

abbrev pub is_entry_not_found : Status → Bool
is_entry_not_found entry_not_found = true
is_entry_not_found _ = false

-- The leaf of a path, "." for the root directory.
abbrev pub leaf_of : Paths → Text → Text
leaf_of fs p =
    if is_empty (fs.filename p) && starts_with_slash (fs.parent_path p) then dot else fs.filename p

module _ (os : Posix) where
  -- `dirFD = parentFD; fdCloser.SetTo(dirFD); break`
  abbrev pub at_parent : Option ℕ → Answer × Text × World → Round × World
  at_parent cur (refused s, leaf, w) = (failed cur s, w)
  at_parent cur (got n, leaf, w) = (found n leaf, close cur w)

  -- The path "."
  abbrev pub from_current : Text → Answer × World → Round × World
  from_current leaf (refused s, w) = (failed none s, w)
  from_current leaf (got n, w) = at_parent (some n) (kern_open_parent_dir os (some n) leaf w)

  abbrev pub round_dot : Option ℕ → Text → World → Round × World
  round_dot none leaf w = from_current leaf (kern_open_dir os none dot w)
  round_dot (some c) leaf w = at_parent (some c) (kern_open_parent_dir os (some c) leaf w)

  -- The path ".."
  abbrev pub above : Option ℕ → Text → Answer × World → Round × World
  above cur leaf (refused s, w) = (failed cur s, w)
  above cur leaf (got n, w) =
      at_parent (some n) (kern_open_parent_dir os (some n) leaf (close cur w))

  abbrev pub round_dot_dot : Option ℕ → Text → World → Round × World
  round_dot_dot cur leaf w = above cur leaf (kern_open_dir os cur dot_dot w)

  -- A symbolic link, where `limit` more may be followed.
  abbrev pub link_to : ℕ → Text → ℕ → Target × World → Round × World
  link_to c leaf limit (no_target s, w) = (failed (some c) s, w)
  link_to c leaf limit (target p, w) = (again (some c) (some p) leaf limit true, w)

  abbrev pub follow_link : ℕ → Text → ℕ → World → Round × World
  follow_link c leaf zero w = (failed (some c) link_limit, w)
  follow_link c leaf (suc limit) w = link_to c leaf limit (kern_read_link os (some c) leaf w)

  abbrev pub follow_stat : ℕ → Text → ℕ → Bool → Stat × World → Round × World
  follow_stat c leaf limit concrete (no_stat s, w) =
      (if is_entry_not_found s && not concrete then found c leaf else failed (some c) s, w)
  follow_stat c leaf limit concrete (other, w) = (found c leaf, w)
  follow_stat c leaf limit concrete (link, w) = follow_link c leaf limit w

  -- `traverse symlinks, if desired`
  abbrev pub follow : Bool → ℕ → Text → ℕ → Bool → World → Round × World
  follow false c leaf limit concrete w = (found c leaf, w)
  follow true c leaf limit concrete w =
      follow_stat c leaf limit concrete (kern_read_stat os (some c) leaf w)

  -- The path without a leaf is the leaf itself.
  abbrev pub in_current : Bool → Text → ℕ → Bool → Answer × World → Round × World
  in_current traverse leaf limit concrete (refused s, w) = (failed none s, w)
  in_current traverse leaf limit concrete (got n, w) = follow traverse n leaf limit concrete w

  abbrev pub in_directory : Bool → Text → ℕ → Bool → Option Text → World → Round × World
  in_directory traverse leaf limit concrete none w = (failed none general_error, w)
  in_directory traverse leaf limit concrete (some cwd) w =
      in_current traverse leaf limit concrete (kern_open_dir os none cwd w)

  abbrev pub round_leaf : Bool → Option ℕ → Text → ℕ → Bool → World → Round × World
  round_leaf traverse (some c) leaf limit concrete w = follow traverse c leaf limit concrete w
  round_leaf traverse none leaf limit concrete w =
      in_directory traverse leaf limit concrete (os.getcwd w.time) (tick w)

  -- The leaf "." or "..": the next turn resolves the directory.
  abbrev pub reopened : Option ℕ → Text → ℕ → Bool → Answer × World → Round × World
  reopened cur leaf limit concrete (refused s, w) = (failed cur s, w)
  reopened cur leaf limit concrete (got n, w) =
      (again (some n) none leaf limit concrete, close cur w)

  abbrev pub in_parent : Bool → Option ℕ → Text → ℕ → Bool → Answer × World → Round × World
  in_parent traverse cur leaf limit concrete (refused s, w) = (failed cur s, w)
  in_parent traverse cur leaf limit concrete (got n, w) =
      follow traverse n leaf limit concrete (close cur w)

  -- An ordinary path, cut into a directory and a leaf.
  abbrev pub round_parts : Bool → Option ℕ → Text → Text → Text → ℕ → Bool → World → Round × World
  round_parts traverse cur p dir leaf limit concrete w =
      if is_empty leaf
      then (if is_ok (check_entry_name (some dir))
          then round_leaf traverse cur dir limit concrete w
          else (failed cur (check_entry_name (some dir)), w))
      else if text_eq leaf dot || text_eq leaf dot_dot
      then reopened cur leaf limit concrete (kern_open_dir os none p w)
      else in_parent traverse cur leaf limit concrete (kern_open_dir os cur dir w)

  module _ (fs : Paths) where
    abbrev pub round_path : Bool → Option ℕ → Text → ℕ → Bool → World → Round × World
    round_path traverse cur p limit concrete w =
        if is_ok (parse_path fs p)
        then round_parts traverse cur p (fs.parent_path p) (leaf_of fs p) limit concrete w
        else (failed cur (parse_path fs p), w)

    -- One turn of the loop of `_SetTo`, where the buffer holds `leaf`.
    unfoldable pub round : Bool → Option ℕ → Option Text → Text → ℕ → Bool → World → Round × World
    round traverse cur none leaf limit concrete w = round_dot cur leaf w
    round traverse cur (some p) leaf limit concrete w =
        if text_eq p dot
        then round_dot cur leaf w
        else if text_eq p dot_dot
        then round_dot_dot cur leaf w
        else round_path traverse cur p limit concrete w
