-- ===== src/Path.antt =====
-- kits/storage/Path.cpp: BPath, and _kern_entry_ref_to_path of kits/kernel/syscalls.c. A C string is the
-- list of its bytes before the NUL. The reference that BEntry gives for a path (Storage.Entry), the
-- calls of the system, the allocator and `std::filesystem` are an interface.
pub mod Normal
pub mod Valid
mod Tests
use libb.Prelude.{
  ℕ, zero, suc, ◌+◌, ◌-◌, ◌≤◌, ◌<◌, ◌≡◌, List, [], ◌∷◌, ◌++◌, Option, none, some, Bool, true, false,
  ◌||◌, ◌&&◌, not, if◌then◌else◌, ◌==◌, leb, length, take, drop, get_elem?,
}
use libb.Prelude.Status.{
  Status, ok, is_ok, bad_value, no_init, no_memory, name_too_long, entry_not_found,
}
use libb.Storage.{bad_leaf}

abbrev pub slash : ℕ
slash = 47

abbrev pub dot : ℕ
dot = 46

-- The state of the parser in `_MustNormalize`.
pub data ParseState : Type 0 where
  no_match : ParseState
  initial_slash : ParseState
  one_dot : ParseState
  two_dots : ParseState

-- One turn of the loop; `none` is `return true`.
unfoldable pub parse_step : ParseState → ℕ → Option ParseState
parse_step no_match c = some (if c == slash then initial_slash else no_match)
parse_step initial_slash c =
    if c == slash then none else some (if c == dot then one_dot else no_match)
parse_step one_dot c = if c == slash then none else some (if c == dot then two_dots else no_match)
parse_step two_dots c = if c == slash then none else some no_match

unfoldable pub scan : ParseState → List ℕ → Bool
scan no_match [] = false
scan initial_slash [] = false
scan one_dot [] = true
scan two_dots [] = true
scan state (c ∷ cs) = elim (parse_step state c) [ none ↦ true | some state' ↦ scan state' cs ]

-- `path[len - 1] == '/'`, and `b` for no characters.
unfoldable pub ends_in_slash : Bool → List ℕ → Bool
ends_in_slash b [] = b
ends_in_slash b (c ∷ cs) = ends_in_slash (c == slash) cs

-- `_MustNormalize(path, &error)`: the result, and the error that it sets.
unfoldable pub must_normalize : List ℕ → Bool × Status
must_normalize [] = (false, bad_value)
must_normalize (c ∷ []) = (not (c == slash), ok)
must_normalize (c ∷ d ∷ cs) =
    if c == slash
    then (ends_in_slash false (c ∷ d ∷ cs) || scan no_match (c ∷ d ∷ cs), ok)
    else (true, ok)

abbrev is_slash_at : Option ℕ → Bool
is_slash_at none = false
is_slash_at (some c) = c == slash

-- The loops of `Leaf` and `GetParent`: back from `i` to a slash, or to the start.
unfoldable pub back : List ℕ → ℕ → ℕ
back name zero = zero
back name (suc i) = elim (is_slash_at (get_elem? name (suc i))) [
  | true ↦ suc i
  | false ↦ back name i
]

-- `Leaf()` of a name.
unfoldable pub leaf_of : List ℕ → List ℕ
leaf_of name = drop (suc (back name (length name))) name

-- The text of the parent, for a name that is not "/".
abbrev pub parent_text : List ℕ → List ℕ
parent_text name = let i = back name (length name - 1) in take (if i == 0 then 1 else i) name

-- A BPath: `fName` and `fCStatus`.
pub record BPath : Type 0 where
  pub name : Option (List ℕ)
  pub status : Status

-- What the code outside the class does.
pub record Storage : Type 0 where
  pub max_path : ℕ  -- B_PATH_NAME_LENGTH
  pub is_absolute : List ℕ → Bool  -- `std::filesystem::path(p).is_absolute()`
  pub ref_of : List ℕ → Status × ℕ × Option (List ℕ)  -- BEntry::SetTo and GetRef: `dirfd`, `name`
  pub is_open : ℕ → Bool  -- `fstatat` of a descriptor
  pub fd_link : ℕ → Bool  -- memory for "/proc/self/fd/" and the descriptor
  pub readlink : ℕ → Option (List ℕ)  -- of that link
  pub same_file : ℕ → List ℕ → Bool  -- the file of a path is that of the descriptor
  pub alloc : ℕ → Bool  -- whether `new (std::nothrow) char[n]` succeeds

abbrev pub unset_with : Status → BPath
unset_with e = record { name = none; status = e }

module _ (fs : Storage) where
  -- `_kern_entry_ref_to_path(reffd, leaf, userPath, pathLength)`
  abbrev pub link_to_path : ℕ → List ℕ → Option (List ℕ) → Status × List ℕ
  link_to_path d leaf none = (bad_value, [])
  link_to_path d leaf (some l) =
      if leb fs.max_path (length l)
        || (not (fs.same_file d l) || leb (fs.max_path - length l) (length leaf + 1))
      then (bad_value, [])
      else (ok, l ++ (slash ∷ leaf))

  abbrev pub leaf_to_path : ℕ → Option (List ℕ) → Status × List ℕ
  leaf_to_path d none = (bad_value, [])
  leaf_to_path d (some leaf) =
      if bad_leaf (some leaf) || not (fs.is_open d)
      then (bad_value, [])
      else if fs.fd_link d
      then link_to_path d leaf (fs.readlink d)
      else (no_memory, [])

  unfoldable pub entry_ref_to_path : ℕ → Option (List ℕ) → Status × List ℕ
  entry_ref_to_path d leaf = leaf_to_path d leaf

  -- `entry.SetTo(newPath, false)`, and `SetTo(&entry)` up to `_SetPath`.
  abbrev pub ref_path : Status × ℕ × Option (List ℕ) → Status × List ℕ
  ref_path (e, d, leaf) = if is_ok e then entry_ref_to_path d leaf else (e, [])

  unfoldable pub resolve : List ℕ → Status × List ℕ
  resolve p = ref_path (fs.ref_of p)

  -- `_SetPath(path)` with the status that the caller stores; no memory leaves a null name.
  abbrev pub set_path : List ℕ → BPath
  set_path p =
      if fs.alloc (length p + 1)
      then record { name = some p; status = ok }
      else unset_with no_memory

  -- The path and the leaf put together in `newPath`; `none` is B_NAME_TOO_LONG.
  unfoldable pub join : List ℕ → Option (List ℕ) → Option (List ℕ)
  join path none = if leb fs.max_path (length path) then none else some path
  join path (some leaf) =
      let separator = if ends_in_slash true path then [] else slash ∷ [] in
      let whole = path ++ (separator ++ leaf) in
      if leb fs.max_path (length path)
      then none
      else (if leb fs.max_path (length whole) then none else some whole)

  -- `SetTo(&entry)` after `entry.SetTo(newPath, false)`.
  abbrev pub set_resolved : Status × List ℕ → BPath
  set_resolved (e, p) = if is_ok e then set_path p else unset_with e

  abbrev pub set_checked : List ℕ → Bool × Status → BPath
  set_checked p (normalize, e) =
      if is_ok e then (if normalize then set_resolved (resolve p) else set_path p) else unset_with e

  -- The test on the leaf.
  abbrev pub absolute : Option (List ℕ) → Bool
  absolute none = false
  absolute (some l) = fs.is_absolute l

  -- `SetTo(path, leaf, normalize)`; a null path is `none`.
  unfoldable pub set_to : Option (List ℕ) → Option (List ℕ) → Bool → BPath
  set_to none leaf normalize = unset_with bad_value
  set_to (some path) leaf normalize =
      if absolute leaf then unset_with bad_value else elim (join path leaf) [
        | none ↦ unset_with name_too_long
        | some p ↦
            if normalize || not (fs.is_absolute path)
            then set_resolved (resolve p)
            else set_checked p (must_normalize p)
      ]

  abbrev pub append_to : Status → Option (List ℕ) → Option (List ℕ) → Bool → BPath
  append_to e name leaf normalize =
      if is_ok e then set_to name leaf normalize else unset_with bad_value

  -- `Append(path, normalize)`
  unfoldable pub append : BPath → Option (List ℕ) → Bool → BPath
  append s leaf normalize = append_to s.status s.name leaf normalize

  abbrev pub parent_of : List ℕ → BPath → Status × BPath
  parent_of name target =
      if length name == 1
      then (entry_not_found, target)
      else (let r = set_to (some (parent_text name)) none false in (r.status, r))

  -- What follows the test of the target; a set BPath has a name.
  abbrev pub get_parent_with : Status → Option (List ℕ) → BPath → Status × BPath
  get_parent_with e none target = (e, target)
  get_parent_with e (some name) target = if is_ok e then parent_of name target else (e, target)

  -- `GetParent(target)`: the result and the target, which is null for `none`.
  unfoldable pub get_parent : BPath → Option BPath → Status × Option BPath
  get_parent s none = (bad_value, none)
  get_parent s (some target) = let r = get_parent_with s.status s.name target in (r.0, some r.1)
