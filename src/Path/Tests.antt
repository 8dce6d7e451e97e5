-- ===== src/Path/Tests.antt =====
-- Runs of BPath, and inputs for the theorems.
use libb.Prelude.{ℕ, ◌≡◌, refl, inr, List, [], ◌∷◌, some, none, Bool, true, false, not, ◌==◌}
use libb.Prelude.Status.{ok, entry_not_found}
use libb.Path.{
  BPath, Storage, set_to, append, get_parent, must_normalize, parse_step, scan, ends_in_slash,
  leaf_of, back, join, resolve, entry_ref_to_path,
}
use libb.Storage.{bad_leaf, has_slash}
use libb.Path.Normal.{is_normal, must_normalize_iff}
use libb.Path.Valid.{IsValid, IsLinked, set_to-append-get_parent-IsValid}

-- "/ab/c"
abbrev two_parts : List ℕ
two_parts = 47 ∷ 97 ∷ 98 ∷ 47 ∷ 99 ∷ []

abbrev is_root : List ℕ → Bool
is_root [] = false
is_root (c ∷ []) = c == 47
is_root (c ∷ d ∷ cs) = false

is_slash : (c : ℕ) → (c == 47) ≡ true → is_normal (c ∷ []) ≡ true
unfolding is_normal
is_slash c h = h

abbrev is_rooted : List ℕ → Bool
is_rooted [] = false
is_rooted (c ∷ cs) = c == 47

-- Every entry is "tmp" in the root.
abbrev root_only : Storage
root_only = record {
  max_path = 4096;
  is_absolute = is_rooted;
  ref_of = λ p. (ok, 3, some (116 ∷ 109 ∷ 112 ∷ []));
  is_open = λ d. true;
  fd_link = λ d. true;
  readlink = λ d. some (47 ∷ []);
  same_file = λ d p. is_root p;
  alloc = λ n. true;
}

abbrev at_two_parts : BPath
at_two_parts = record { name = some two_parts; status = ok }

root_only-IsLinked : IsLinked root_only
root_only-IsLinked d p e q = root_normal p q
  where
    root_normal : (p : List ℕ) → is_root p ≡ true → is_normal p ≡ true
    root_normal [] h = absurd cc
    root_normal (c ∷ []) h = is_slash c h
    root_normal (c ∷ d ∷ p) h = absurd cc

-- "/tmp/" has a slash at the end, and the path that is set begins with two.
doubled_slash :
    set_to root_only (some (47 ∷ 116 ∷ 109 ∷ 112 ∷ 47 ∷ [])) none false
    ≡ record { name = some (47 ∷ 47 ∷ 116 ∷ 109 ∷ 112 ∷ []); status = ok }
unfolding set_to join must_normalize scan parse_step ends_in_slash resolve entry_ref_to_path
    bad_leaf has_slash
doubled_slash = refl

leaf_of_two : leaf_of two_parts ≡ 99 ∷ []
unfolding leaf_of back
leaf_of_two = refl

-- "/ab/./c" and "/ab/..."
single_dot : must_normalize (47 ∷ 97 ∷ 47 ∷ 46 ∷ 47 ∷ 99 ∷ []) ≡ (true, ok)
unfolding must_normalize scan parse_step ends_in_slash
single_dot = refl

three_dots : must_normalize (47 ∷ 97 ∷ 47 ∷ 46 ∷ 46 ∷ 46 ∷ []) ≡ (false, ok)
unfolding must_normalize scan parse_step ends_in_slash
three_dots = refl

parent_of_two :
    get_parent root_only at_two_parts (some at_two_parts)
    ≡ (ok, some (record { name = some (47 ∷ 97 ∷ 98 ∷ []); status = ok }))
unfolding get_parent set_to join back must_normalize scan parse_step ends_in_slash
parent_of_two = refl

must_normalize_example :
    must_normalize (47 ∷ 97 ∷ 47 ∷ []) ≡ (not (is_normal (47 ∷ 97 ∷ 47 ∷ [])), ok)
must_normalize_example = must_normalize_iff 47 (97 ∷ 47 ∷ [])

bpath-IsValid_example :
    IsValid (set_to root_only (some two_parts) (some (100 ∷ [])) true)
    × IsValid (append root_only at_two_parts (some (100 ∷ [])) true)
    × ((r : BPath) × ((get_parent root_only at_two_parts
            (some (record { name = none; status = entry_not_found }))).1
          ≡ some r)
        × IsValid r)
bpath-IsValid_example =
    set_to-append-get_parent-IsValid root_only root_only-IsLinked at_two_parts
      (record { name = none; status = entry_not_found }) (some two_parts) (some (100 ∷ [])) true
      (inr (refl, refl))
