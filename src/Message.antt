-- ===== src/Message.antt =====
-- kits/app/Message.cpp: BMessage and its private BMessage::impl, the named fields of a message.
-- A type code is a number below 2 ^ 32, a name is the memory at its `const char *`, and a data item
-- is the list of its bytes (`DataItem::size` is its length). `alloc` answers for `malloc`.
pub mod Fields
pub mod Lookup
pub mod Flat
pub mod Typed
pub mod Copy
pub mod Built
mod Tests
use libb.Prelude.{
  ℕ, zero, suc, ◌-◌, ◌/◌, ◌%◌, ◌^◌, List, [], ◌∷◌, ◌++◌, Option, none, some, Bool, true, false, not,
  ◌&&◌, if◌then◌else◌, ◌==◌, ltb, leb, length, get_elem?, set,
}
use libb.Prelude.Status.{Status, ok, no_memory, bad_index, bad_type, name_not_found, bad_value}
use libb.Prelude.Bytes.{read_bytes}
use libb.Prelude.Int.{ℤ, size_t_of}

abbrev pub field_name_length : ℕ
field_name_length = 255

-- 'ANYT'
abbrev pub any_type : ℕ
any_type = 0x414e5954

-- The bytes at a `const char *` before its terminator, at most `n` of them.
unfoldable pub strn : ℕ → List ℕ → List ℕ
strn zero s = []
strn (suc n) [] = []
strn (suc n) (c ∷ s) = if c == 0 then [] else c ∷ strn n s

unfoldable pub bytes_eq : List ℕ → List ℕ → Bool
bytes_eq [] [] = true
bytes_eq [] (y ∷ ys) = false
bytes_eq (x ∷ xs) [] = false
bytes_eq (x ∷ xs) (y ∷ ys) = x == y && bytes_eq xs ys

-- `strncmp(a, b, B_FIELD_NAME_LENGTH) == 0`
unfoldable pub same_name : List ℕ → List ℕ → Bool
same_name a b = bytes_eq (strn field_name_length a) (strn field_name_length b)

-- `struct Node`
pub record Node : Type 0 where
  pub name : List ℕ
  pub type : ℕ
  pub items : List (List ℕ)

-- `nodes` is `none` for the null pointer `m_nodes`.
pub record Message : Type 0 where
  pub what : ℕ
  pub nodes : Option (List Node)
  pub handler : Option ℕ
  pub reply_to : Option ℕ

-- What a call leaves: its status and the message, or a read outside of an object.
pub data Outcome : Type 0 where
  returns : Status → Message → Outcome
  fault : Outcome

pub data Found : Type 0 where
  found : List ℕ → Found
  missing : Status → Found
  outside : Found

-- `BMessage(uint32 what)`
unfoldable pub new_message : ℕ → Message
new_message what = record { what = what; nodes = none; handler = none; reply_to = none }

-- What a loop over the nodes sees.
abbrev pub node_list : Option (List Node) → List Node
node_list none = []
node_list (some ns) = ns

unfoldable pub clear_nodes : Message → Message
clear_nodes m = record m { nodes = none }

-- The loop of `impl::pushNode` and what follows it: the first node of that name takes the item, or
-- the item stands in a new node at the end.
unfoldable pub push_into : List ℕ → ℕ → List ℕ → List Node → Status × List Node
push_into name type item [] =
    (ok, record { name = strn field_name_length name; type = type; items = item ∷ [] } ∷ [])
push_into name type item (el ∷ els) =
    let (s, els') = push_into name type item els in
    if same_name el.name name
    then (if el.type == type
        then (ok, record el { items = el.items ++ (item ∷ []) } ∷ els)
        else (bad_type, el ∷ els))
    else (s, el ∷ els')

unfoldable pub push_node : List ℕ → ℕ → List ℕ → Message → Status × Message
push_node name type item m =
    let (s, ns) = push_into name type item (node_list m.nodes) in (s, record m { nodes = some ns })

-- `&node.data[index]`
unfoldable pub item_at : List (List ℕ) → ℕ → Found
item_at items i = elim (get_elem? items i) [ none ↦ outside | some d ↦ found d ]

-- The loop of `impl::findData`.
unfoldable pub find_in : List ℕ → ℕ → ℤ → List Node → Found
find_in name type index [] = missing name_not_found
find_in name type index (el ∷ els) =
    let rest = find_in name type index els in
    if same_name el.name name
    then (if not (type == any_type) && not (el.type == type)
        then missing bad_type
        else if ltb (length el.items) (size_t_of index)
        then missing bad_index
        else item_at el.items (size_t_of index))
    else rest

-- `FindData(name, type, index, data, size)`. A pointer argument is `none`, or `false`, for null. On a
-- miss `*data` is null and `*size` is 0.
unfoldable pub find_data : Option (List ℕ) → ℕ → ℤ → Bool → Bool → Message → Found
find_data none type index has_data has_size m = missing bad_value
find_data (some name) type index has_data has_size m =
    if not (has_data && has_size)
    then missing bad_value
    else find_in name type index (node_list m.nodes)

unfoldable pub count_nodes : ℕ → List Node → ℕ
count_nodes type [] = 0
count_nodes type (el ∷ els) =
    let rest = count_nodes type els in
    if type == any_type then suc rest else if type == el.type then suc rest else rest

unfoldable pub count_names : ℕ → Message → ℕ
unfolding count_nodes
count_names type m = count_nodes type (node_list m.nodes)

unfoldable pub is_empty : Message → Bool
is_empty m = elim (node_list m.nodes) [ [] ↦ true | _ ∷ _ ↦ false ]

-- `isupper` of the C locale.
abbrev is_upper : ℕ → Bool
is_upper c = leb b'A' c && leb c b'Z'

unfoldable pub is_system : Message → Bool
is_system m =
    let a = m.what / 2 ^ 24 % 256 in
    let b = m.what / 2 ^ 16 % 256 in
    let c = m.what / 2 ^ 8 % 256 in
    let d = m.what % 256 in a == b'_' && is_upper b && is_upper c && is_upper d

-- The node that `findData` stops at gets the new item at `index`.
unfoldable pub set_item : List ℕ → ℕ → List ℕ → List Node → List Node
set_item name i item [] = []
set_item name i item (el ∷ els) =
    let rest = set_item name i item els in
    if same_name el.name name then record el { items = set el.items i item } ∷ els else el ∷ rest

module _ (alloc : ℕ → Bool) where
  -- `impl::addNode`, which `AddData` calls: `mem` is the memory at `data`.
  unfoldable pub add_data : List ℕ → ℕ → ℕ → List ℕ → Message → Outcome
  add_data name type size mem m =
      if alloc size
      then elim (read_bytes size mem) [
        | none ↦ fault
        | some (item, _) ↦ let (s, m') = push_node name type item m in returns s m'
      ]
      else returns no_memory m

  -- `ReplaceData(name, type, index, data, data_size)`
  unfoldable pub replace_data : Option (List ℕ) → ℕ → ℤ → ℕ → List ℕ → Message → Outcome
  replace_data none type index size mem m =
      if type == any_type then returns bad_type m else returns bad_value m
  replace_data (some name) type index size mem m =
      if type == any_type
      then returns bad_type m
      else elim (find_in name type index (node_list m.nodes)) [
        | outside ↦ fault
        | missing s ↦ returns s m
        | found _ ↦
            if alloc size
            then elim (read_bytes size mem) [
              | none ↦ fault
              | some (item, _) ↦ returns ok (record m {
                nodes = some (set_item name (size_t_of index) item (node_list m.nodes));
              })
            ]
            else returns no_memory m
      ]

  -- `impl::operator=` drops the status of each `addNode`.
  unfoldable pub copy_items : List ℕ → ℕ → List (List ℕ) → Message → Outcome
  copy_items name type [] m = returns ok m
  copy_items name type (d ∷ ds) m = elim (add_data name type (length d) d m) [
    | fault ↦ fault
    | returns s m' ↦ copy_items name type ds m'
  ]

  unfoldable pub copy_nodes : List Node → Message → Outcome
  copy_nodes [] m = returns ok m
  copy_nodes (n ∷ ns) m = elim (copy_items n.name n.type n.items m) [
    | fault ↦ fault
    | returns s m' ↦ copy_nodes ns m'
  ]

  -- `BMessage::operator=`. The source is `none` where it is the target itself: then the loop meets
  -- the null pointer that `clearNodes` has just stored.
  unfoldable pub assign : Option Message → Message → Outcome
  assign none this = returns ok (clear_nodes this)
  assign (some other) this =
      copy_nodes (node_list other.nodes) (clear_nodes (record this { what = other.what }))

  -- `BMessage(const BMessage &msg)`
  unfoldable pub copy : Message → Outcome
  copy msg = copy_nodes (node_list msg.nodes) (clear_nodes (new_message msg.what))

-- `MakeEmpty`
unfoldable pub make_empty : Message → Status × Message
make_empty m = (ok, clear_nodes m)
