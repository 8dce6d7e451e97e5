-- ===== src/Path/Valid.antt =====
-- Every BPath that is set holds a path that is normal, but for one in the root directory and for dots.
use libb.Prelude.{
  ℕ, ◌+◌, ◌≡◌, refl, ◌⊎◌, inl, inr, List, [], ◌∷◌, ◌++◌, Option, none, some, Bool, true, false,
  ◌||◌, not, ◌==◌, length, Bool-cases, Option-cases,
}
use libb.Prelude.Status.{Status, ok, bad_value, is_ok}
use libb.Path.{
  BPath, Storage, slash, resolve, ref_path, entry_ref_to_path, link_to_path, set_path, set_resolved,
  set_checked, set_to, append, append_to, get_parent, get_parent_with, parent_text, join, absolute,
  must_normalize,
}
use libb.Prelude.{◌-◌, if◌then◌else◌, leb}
use libb.Storage.{bad_leaf}
use libb.Path.Normal.{is_normal, must_normalize_iff}

-- A normal path, or a normal path of a directory, a slash and a name without a slash. The two differ for
-- the directory "/" and for the names "." and "..".
abbrev pub IsPath : List ℕ → Type 0
IsPath p =
    (is_normal p ≡ true)
    ⊎ ((dir : List ℕ) × ((leaf : List ℕ) × ((p ≡ dir ++ (slash ∷ leaf))
            × ((is_normal dir ≡ true) × (bad_leaf (some leaf) ≡ false)))))

-- A status of B_OK goes with such a path, and any other with no path.
abbrev pub IsValid : BPath → Type 0
IsValid s =
    (is_ok s.status ≡ true) × ((p : List ℕ) × (s.name ≡ some p) × IsPath p)
    ⊎ (is_ok s.status ≡ false) × (s.name ≡ none)

-- proc(5): the link of a descriptor to a file that a path still names is that path, which is normal.
abbrev pub IsLinked : Storage → Type 0
IsLinked fs =
    (d : ℕ) (p : List ℕ) → fs.readlink d ≡ some p → fs.same_file d p ≡ true → is_normal p ≡ true

both : (a b c : Bool) → (a || (not b || c)) ≡ false → b ≡ true
both true b c h = absurd cc
both false true c h = refl
both false false c h = absurd cc

neither : (a b : Bool) → (a || b) ≡ false → a ≡ false
neither true b h = absurd cc
neither false b h = refl

module _ (fs : Storage) (links : IsLinked fs) where
  set_path-IsValid : (p : List ℕ) → IsPath p → IsValid (set_path fs p)
  set_path-IsValid p h = elim (Bool-cases (fs.alloc (length p + 1))) [
    | inl a ↦ rw (a) (inl (refl, (p, refl, h)))
    | inr a ↦ rw (a) (inr (refl, refl))
  ]

  checked_link-IsValid :
      (c : Bool) (dir leaf : List ℕ)
      → (c ≡ false → is_normal dir ≡ true)
      → bad_leaf (some leaf) ≡ false
      → IsValid (set_resolved fs (if c then (bad_value, []) else (ok, dir ++ (slash ∷ leaf))))
  checked_link-IsValid true dir leaf h b = inr (refl, refl)
  checked_link-IsValid false dir leaf h b =
      set_path-IsValid (dir ++ (slash ∷ leaf)) (inr (dir, (leaf, (refl, (h refl, b)))))

  -- What `SetTo(&entry)` makes of a result of `_kern_entry_ref_to_path`.
  link_to_path-IsValid :
      (d : ℕ) (leaf : List ℕ) (l : Option (List ℕ))
      → fs.readlink d ≡ l
      → bad_leaf (some leaf) ≡ false
      → IsValid (set_resolved fs (link_to_path fs d leaf l))
  link_to_path-IsValid d leaf none e b = inr (refl, refl)
  link_to_path-IsValid d leaf (some l) e b =
      checked_link-IsValid
        (leb fs.max_path (length l)
          || (not (fs.same_file d l) || leb (fs.max_path - length l) (length leaf + 1)))
        l leaf
        (λ q. links d l e (
          both (leb fs.max_path (length l)) (fs.same_file d l)
            (leb (fs.max_path - length l) (length leaf + 1)) q))
        b

  leaf_to_path-IsValid :
      (d : ℕ) (leaf : Option (List ℕ)) → IsValid (set_resolved fs (entry_ref_to_path fs d leaf))
  unfolding entry_ref_to_path
  leaf_to_path-IsValid d none = inr (refl, refl)
  leaf_to_path-IsValid d (some leaf) =
      elim (Bool-cases (bad_leaf (some leaf) || not (fs.is_open d))) [
        | inl b ↦ rw (b) (inr (refl, refl))
        | inr b ↦ elim (Bool-cases (fs.fd_link d)) [
          | inl m ↦
              rw (b, m)
                (link_to_path-IsValid d leaf (fs.readlink d) refl
                  (neither (bad_leaf (some leaf)) (not (fs.is_open d)) b))
          | inr m ↦ rw (b, m) (inr (refl, refl))
        ]
      ]

  ref_path-IsValid : (r : Status × ℕ × Option (List ℕ)) → IsValid (set_resolved fs (ref_path fs r))
  ref_path-IsValid (e, d, leaf) = elim (Bool-cases (is_ok e)) [
    | inl o ↦ rw (o) (leaf_to_path-IsValid d leaf)
    | inr o ↦ rw (o, o) (inr (o, refl))
  ]

  set_resolved-IsValid : (p : List ℕ) → IsValid (set_resolved fs (resolve fs p))
  unfolding resolve
  set_resolved-IsValid p = ref_path-IsValid (fs.ref_of p)

  set_checked-IsValid : (p : List ℕ) → IsValid (set_checked fs p (must_normalize p))
  unfolding must_normalize
  set_checked-IsValid [] = inr (refl, refl)
  set_checked-IsValid (c ∷ cs) =
      rw (must_normalize_iff c cs) (elim (Bool-cases (is_normal (c ∷ cs))) [
        | inl n ↦ rw (n) (set_path-IsValid (c ∷ cs) (inl n))
        | inr n ↦ rw (n) (set_resolved-IsValid (c ∷ cs))
      ])

  set_to-IsValid :
      (path leaf : Option (List ℕ)) (normalize : Bool) → IsValid (set_to fs path leaf normalize)
  unfolding set_to
  set_to-IsValid none leaf normalize = inr (refl, refl)
  set_to-IsValid (some path) leaf normalize = elim (Bool-cases (absolute fs leaf)) [
    | inl a ↦ rw (a) (inr (refl, refl))
    | inr a ↦ elim (Option-cases (join fs path leaf)) [
      | inl j ↦ rw (a, j) (inr (refl, refl))
      | inr (p, j) ↦ elim (Bool-cases (normalize || not (fs.is_absolute path))) [
        | inl n ↦ rw (a, j, n) (set_resolved-IsValid p)
        | inr n ↦ rw (a, j, n) (set_checked-IsValid p)
      ]
    ]
  ]

  append_to-IsValid :
      (e : Status) (name leaf : Option (List ℕ)) (normalize : Bool)
      → IsValid (append_to fs e name leaf normalize)
  append_to-IsValid e name leaf normalize = elim (Bool-cases (is_ok e)) [
    | inl o ↦ rw (o) (set_to-IsValid name leaf normalize)
    | inr o ↦ rw (o) (inr (refl, refl))
  ]

  get_parent_with-IsValid :
      (e : Status) (name : Option (List ℕ)) (target : BPath)
      → IsValid target
      → IsValid (get_parent_with fs e name target).1
  get_parent_with-IsValid e none target v = v
  get_parent_with-IsValid e (some name) target v = elim (Bool-cases (is_ok e)) [
    | inr o ↦ rw (o) v
    | inl o ↦ elim (Bool-cases (length name == 1)) [
      | inl l ↦ rw (o, l) v
      | inr l ↦ rw (o, l) (set_to-IsValid (some (parent_text name)) none false)
    ]
  ]

  -- Where the system's link of an open file is a normal path: after SetTo and Append of any arguments, and
  -- in a valid target of GetParent, a BPath has the status B_OK and holds a normal path, or a normal path
  -- of a directory, a slash and a name without a slash; or it holds none and its status is an error.
  pub set_to-append-get_parent-IsValid :
      (s target : BPath) (path leaf : Option (List ℕ)) (normalize : Bool)
      → IsValid target
      → IsValid (set_to fs path leaf normalize)
        × IsValid (append fs s leaf normalize)
        × ((r : BPath) × ((get_parent fs s (some target)).1 ≡ some r) × IsValid r)
  unfolding append get_parent
  set_to-append-get_parent-IsValid s target path leaf normalize v = (
    set_to-IsValid path leaf normalize,
    append_to-IsValid s.status s.name leaf normalize,
    (_, refl, get_parent_with-IsValid s.status s.name target v),
  )
