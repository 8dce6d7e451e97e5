-- ===== src/Message/Built.antt =====
-- Every message that a program can build has well-formed fields.
use libb.Prelude.{
  ℕ, ◌≡◌, sym, ◌∙◌, inl, inr, List, [], ◌∷◌, Option, none, some, Bool, ◌==◌, length, Bool-cases,
  Option-cases,
}
use libb.Prelude.Status.{Status}
use libb.Prelude.Bytes.{read_bytes}
use libb.Prelude.Int.{size_t_of, ℤ}
use libb.Message.{
  Message, Node, Outcome, returns, node_list, any_type, find_in, add_data, replace_data, copy_items,
  copy_nodes, assign, copy, clear_nodes, new_message, make_empty,
}
use libb.Message.Fields.{IsWellFormed, set_item-IsWellFormed}
use libb.Message.Lookup.RoundTrip.{Found-cases}
use libb.Message.Flat.{unflatten}
use libb.Message.Flat.Decode.{Kept, add_data-Kept, unflatten-total, Outcome-cases}

-- Messages by the calls that made them. Each call may meet another state of the allocator, and may
-- end with any status.
pub data Built : Message → Type 0 where
  created : (what : ℕ) → Built (new_message what)
  added :
      {m m' : Message} {s : Status} (alloc : ℕ → Bool) (name : List ℕ) (type size : ℕ)
      (mem : List ℕ)
      → Built m
      → add_data alloc name type size mem m ≡ returns s m'
      → Built m'
  replaced :
      {m m' : Message} {s : Status} (alloc : ℕ → Bool) (name : Option (List ℕ)) (type : ℕ)
      (index : ℤ) (size : ℕ) (mem : List ℕ)
      → Built m
      → replace_data alloc name type index size mem m ≡ returns s m'
      → Built m'
  copied :
      {m m' : Message} {s : Status} (alloc : ℕ → Bool)
      → Built m
      → copy alloc m ≡ returns s m'
      → Built m'
  assigned :
      {m m' : Message} {s : Status} (alloc : ℕ → Bool) (source : Option Message)
      → Built m
      → assign alloc source m ≡ returns s m'
      → Built m'
  emptied : {m : Message} → Built m → Built (make_empty m).1
  unflattened :
      {m m' : Message} {s : Status} (alloc : ℕ → Bool) (buf : List ℕ)
      → Built m
      → unflatten alloc buf m ≡ some (returns s m')
      → Built m'

Kept-returns :
    (o : Outcome) {s : Status} {m : Message}
    → o ≡ returns s m
    → Kept o
    → IsWellFormed (node_list m.nodes)
Kept-returns o e k = rw e at k

replace_data-Kept :
    (alloc : ℕ → Bool) (name : Option (List ℕ)) (type : ℕ) (index : ℤ) (size : ℕ) (mem : List ℕ)
    (m : Message)
    → IsWellFormed (node_list m.nodes)
    → Kept (replace_data alloc name type index size mem m)
unfolding replace_data
replace_data-Kept alloc none type index size mem m w = elim (Bool-cases (type == any_type)) [
  | inl e ↦ rw e w
  | inr e ↦ rw e w
]
replace_data-Kept alloc (some name) type index size mem m w = elim (Bool-cases (type == any_type)) [
  | inl e ↦ rw e w
  | inr e ↦ elim (Found-cases (find_in name type index (node_list m.nodes))) [
    | inl (d, f) ↦ elim (Bool-cases (alloc size)) [
      | inl a ↦ elim (Option-cases (read_bytes size mem)) [
        | inl r ↦ rw (e, f, a, r) tt
        | inr ((item, rest), r) ↦
            rw (e, f, a, r)
              (set_item-IsWellFormed name (size_t_of index) item (node_list m.nodes) w)
      ]
      | inr a ↦ rw (e, f, a) w
    ]
    | inr (inl (s, f)) ↦ rw (e, f) w
    | inr (inr f) ↦ rw (e, f) tt
  ]
]

module _ (alloc : ℕ → Bool) where
  copy_items-Kept :
      (name : List ℕ) (type : ℕ) (ds : List (List ℕ)) (m : Message)
      → IsWellFormed (node_list m.nodes)
      → Kept (copy_items alloc name type ds m)
  unfolding copy_items
  copy_items-Kept name type [] m w = w
  copy_items-Kept name type (d ∷ ds) m w =
      let k = add_data-Kept alloc name type (length d) d m w in
      elim (Outcome-cases (add_data alloc name type (length d) d m)) [
        | inl e ↦ rw (e, Kept, copy_items) tt
        | inr (s, m', e) ↦
            rw (e, Kept, copy_items)
              (copy_items-Kept name type ds m'
                (Kept-returns (add_data alloc name type (length d) d m) e k))
      ]

  copy_nodes-Kept :
      (ns : List Node) (m : Message)
      → IsWellFormed (node_list m.nodes)
      → Kept (copy_nodes alloc ns m)
  unfolding copy_nodes
  copy_nodes-Kept [] m w = w
  copy_nodes-Kept (n ∷ ns) m w =
      let k = copy_items-Kept n.name n.type n.items m w in
      elim (Outcome-cases (copy_items alloc n.name n.type n.items m)) [
        | inl e ↦ rw (e, Kept, copy_nodes) tt
        | inr (s, m', e) ↦
            rw (e, Kept, copy_nodes)
              (copy_nodes-Kept ns m' (Kept-returns (copy_items alloc n.name n.type n.items m) e k))
      ]

  assign-Kept : (source : Option Message) (m : Message) → Kept (assign alloc source m)
  unfolding assign clear_nodes
  assign-Kept none m = tt
  assign-Kept (some other) m = copy_nodes-Kept (node_list other.nodes) _ tt

  copy-Kept : (m : Message) → Kept (copy alloc m)
  unfolding copy clear_nodes
  copy-Kept m = copy_nodes-Kept (node_list m.nodes) _ tt

some_injective : {o p : Outcome} → some o ≡ some p → o ≡ p
some_injective e = cc

-- In every message that calls of the constructors, AddData, ReplaceData, the assignment, MakeEmpty and
-- Unflatten of any buffer can make, errors included, no two nodes share a name, each name is a C
-- string of at most 255 bytes, and each node holds an item.
pub Built-IsWellFormed : {m : Message} → Built m → IsWellFormed (node_list m.nodes)
unfolding new_message make_empty clear_nodes
Built-IsWellFormed (created what) = tt
Built-IsWellFormed (added {m = m} alloc name type size mem b e) =
    Kept-returns _ e (add_data-Kept alloc name type size mem m (Built-IsWellFormed b))
Built-IsWellFormed (replaced {m = m} alloc name type index size mem b e) =
    Kept-returns _ e (replace_data-Kept alloc name type index size mem m (Built-IsWellFormed b))
Built-IsWellFormed (copied {m = m} alloc b e) = Kept-returns _ e (copy-Kept alloc m)
Built-IsWellFormed (assigned {m = m} alloc source b e) =
    Kept-returns _ e (assign-Kept alloc source m)
Built-IsWellFormed (emptied b) = tt
Built-IsWellFormed (unflattened {m = m} alloc buf b e) =
    let (o, r, k) = unflatten-total alloc buf m in Kept-returns o (some_injective (sym r ∙ e)) k
