-- ===== src/Message/Lookup.antt =====
-- A message seen as a finite map from names to a type and a list of items: what AddData, FindData
-- and ReplaceData do to that map.
pub mod RoundTrip
use libb.Prelude.{
  ℕ, ◌≡◌, refl, sym, ap, ◌∙◌, inl, inr, List, [], ◌∷◌, ◌++◌, Option, none, some, Bool, true, false,
  not, ◌&&◌, if◌then◌else◌, ◌==◌, ltb, length, set, Bool-cases,
}
use libb.Prelude.Status.{Status, ok, bad_type, bad_index, name_not_found}
use libb.Prelude.Bytes.{read_bytes}
use libb.Prelude.Int.{size_t_of, ℤ}
use libb.Message.{
  Node, Message, returns, Found, missing, node_list, same_name, any_type, item_at, push_into,
  push_node, find_in, find_data, set_item, add_data,
}
use libb.Message.Fields.{same_name_iff, same_name_comm, key-same_name, same_name_ne, ne_same_name}

-- What a name stands for: a type and the items in the order of their addition.
abbrev pub Entry : Type 0
Entry = ℕ × List (List ℕ)

abbrev pub view : List Node → List ℕ → Option Entry
view [] name = none
view (n ∷ ns) name = if same_name n.name name then some (n.type, n.items) else view ns name

abbrev pub push_entry : ℕ → List ℕ → Option Entry → Status × Option Entry
push_entry type item none = (ok, some (type, item ∷ []))
push_entry type item (some (t, ds)) =
    if t == type then (ok, some (t, ds ++ (item ∷ []))) else (bad_type, some (t, ds))

abbrev pub find_entry : ℕ → ℤ → Option Entry → Found
find_entry type index none = missing name_not_found
find_entry type index (some (t, ds)) =
    if not (type == any_type) && not (t == type)
    then missing bad_type
    else if ltb (length ds) (size_t_of index)
    then missing bad_index
    else item_at ds (size_t_of index)

abbrev pub set_entry : ℕ → List ℕ → Option Entry → Option Entry
set_entry i item none = none
set_entry i item (some (t, ds)) = some (t, set ds i item)

pub same_name_trans : (a b c : List ℕ) → same_name a b ≡ true → same_name a c ≡ same_name c b
same_name_trans a b c h = elim (Bool-cases (same_name c b)) [
  | inl e ↦ rw e ((same_name_iff a c).1 ((same_name_iff a b).0 h ∙ sym ((same_name_iff c b).0 e)))
  | inr e ↦ rw e (ne_same_name a c (λ d. same_name_ne c b e (sym d ∙ (same_name_iff a b).0 h)))
]

if_if {ℓ} :
    {A : Type ℓ} (b : Bool) (x y z : A)
    → (if b then x else (if b then y else z)) ≡ (if b then x else z)
if_if true x y z = refl
if_if false x y z = refl

if_swap {ℓ} :
    {A : Type ℓ} (b c : Bool) (x y z : A)
    → (b ≡ true → c ≡ false)
    → (if b then x else (if c then y else z)) ≡ (if c then y else (if b then x else z))
if_swap true true x y z h = cc (h refl)
if_swap true false x y z h = refl
if_swap false c x y z h = refl

module _ (name : List ℕ) (type : ℕ) (item : List ℕ) where
  -- The status of `pushNode` is decided by the entry of its name.
  pub push_into-status :
      (ns : List Node) → (push_into name type item ns).0 ≡ (push_entry type item (view ns name)).0
  unfolding push_into
  push_into-status [] = refl
  push_into-status (n ∷ ns) = elim (Bool-cases (same_name n.name name)) [
    | inl e ↦ elim (Bool-cases (n.type == type)) [ inl t ↦ rw (e, t) | inr t ↦ rw (e, t) ]
    | inr e ↦ rw e (push_into-status ns)
  ]

  -- `pushNode` updates the entry of its name and leaves every other entry.
  pub view-push_into :
      (ns : List Node) (other : List ℕ)
      → view (push_into name type item ns).1 other
        ≡ (if same_name other name then (push_entry type item (view ns name)).1 else view ns other)
  unfolding push_into
  view-push_into [] other = rw (key-same_name name other, same_name_comm name other)
  view-push_into (n ∷ ns) other = elim (Bool-cases (same_name n.name name)) [
    | inl e ↦ elim (Bool-cases (n.type == type)) [
      | inl t ↦
          rw (e, t, same_name_trans n.name name other e) (sym (if_if (same_name other name) _ _ _))
      | inr t ↦
          rw (e, t, same_name_trans n.name name other e) (sym (if_if (same_name other name) _ _ _))
    ]
    | inr e ↦
        rw (e, view-push_into ns other)
          (if_swap (same_name n.name other) (same_name other name) _ _ _
            (λ h. same_name_comm other name ∙ (sym (same_name_trans n.name other name h) ∙ e)))
  ]

-- `findData` answers from the entry of its name alone.
pub find_in_refines :
    (name : List ℕ) (type : ℕ) (index : ℤ) (ns : List Node)
    → find_in name type index ns ≡ find_entry type index (view ns name)
unfolding find_in
find_in_refines name type index [] = refl
find_in_refines name type index (n ∷ ns) = elim (Bool-cases (same_name n.name name)) [
  | inl e ↦ rw e
  | inr e ↦ rw e (find_in_refines name type index ns)
]

-- Setting an item changes the entry of its name alone.
pub view-set_item :
    (name : List ℕ) (i : ℕ) (item : List ℕ) (ns : List Node) (other : List ℕ)
    → view (set_item name i item ns) other
      ≡ (if same_name other name then set_entry i item (view ns name) else view ns other)
unfolding set_item
view-set_item name i item [] other = elim (Bool-cases (same_name other name)) [
  | inl e ↦ rw e
  | inr e ↦ rw e
]
view-set_item name i item (n ∷ ns) other = elim (Bool-cases (same_name n.name name)) [
  | inl e ↦ rw (e, same_name_trans n.name name other e) (sym (if_if (same_name other name) _ _ _))
  | inr e ↦
      rw (e, view-set_item name i item ns other)
        (if_swap (same_name n.name other) (same_name other name) _ _ _
          (λ h. same_name_comm other name ∙ (sym (same_name_trans n.name other name h) ∙ e)))
]

-- The map that a message stands for.
abbrev pub fields : Message → List ℕ → Option Entry
fields m = view (node_list m.nodes)

abbrev pub same_name_self : (name : List ℕ) → same_name name name ≡ true
same_name_self name = (same_name_iff name name).1 refl

abbrev pub items_of : Option Entry → List (List ℕ)
items_of none = []
items_of (some (t, ds)) = ds

module _ (alloc : ℕ → Bool) (name : List ℕ) (type : ℕ) (size : ℕ) (mem : List ℕ) where
  -- Where the memory is granted and readable, `AddData` runs `pushNode`.
  pub add_data_runs :
      (m : Message) (item rest : List ℕ)
      → alloc size ≡ true
      → read_bytes size mem ≡ some (item, rest)
      → add_data alloc name type size mem m
        ≡ returns (push_node name type item m).0 (push_node name type item m).1
  unfolding add_data
  add_data_runs m item rest a r = rw (a, r)

  -- AddData on memory that is granted and readable: the status and the new entry of the name are
  -- those of the map, and every other entry and the `what` code stay.
  pub add_data_refines :
      (m : Message) (item rest : List ℕ)
      → alloc size ≡ true
      → read_bytes size mem ≡ some (item, rest)
      → (m' : Message) × (add_data alloc name type size mem m
          ≡ returns (push_entry type item (fields m name)).0 m')
        × ((other : List ℕ)
            → fields m' other ≡ (
                if same_name other name
                then (push_entry type item (fields m name)).1
                else fields m other))
        × (m'.what ≡ m.what)
  add_data_refines m item rest a r = (
    (push_node name type item m).1,
    add_data_runs m item rest a r
        ∙ ap (λ s. returns s (push_node name type item m).1) (push_node-status m item),
    fields-push_node m item,
    what-push_node m item,
  )
    where
      push_node-status :
          (m : Message) (item : List ℕ)
          → (push_node name type item m).0 ≡ (push_entry type item (fields m name)).0
      push_node-status m item =
          unfold push_node in push_into-status name type item (node_list m.nodes)

      fields-push_node :
          (m : Message) (item other : List ℕ)
          → fields (push_node name type item m).1 other ≡ (
              if same_name other name
              then (push_entry type item (fields m name)).1
              else fields m other)
      fields-push_node m item other =
          unfold push_node in view-push_into name type item (node_list m.nodes) other

      what-push_node : (m : Message) (item : List ℕ) → (push_node name type item m).1.what ≡ m.what
      what-push_node m item = unfold push_node in refl

-- A lookup by FindData with all pointers given answers from the entry of the name.
pub find_data_refines :
    (name : List ℕ) (type : ℕ) (index : ℤ) (m : Message)
    → find_data (some name) type index true true m ≡ find_entry type index (fields m name)
unfolding find_data
find_data_refines name type index m = find_in_refines name type index (node_list m.nodes)
