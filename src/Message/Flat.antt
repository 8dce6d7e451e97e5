-- ===== src/Message/Flat.antt =====
-- kits/app/Message.cpp: FlattenedSize, Flatten and Unflatten over a buffer. The target stores numbers
-- in little-endian order. Layout of a buffer:
-- [what][type][name length][name][number of items][item size][item]...[0]
pub mod Encode
pub mod Decode
pub mod RoundTrip
use libb.Prelude.{
  ℕ, zero, suc, ◌+◌, ◌-◌, ◌^◌, List, [], ◌∷◌, ◌++◌, Option, none, some, Bool, true, false,
  if◌then◌else◌, ◌==◌, ltb, length,
}
use libb.Prelude.Status.{Status, ok, no_memory, bad_value, is_ok}
use libb.Prelude.Bytes.{le_bytes, read_bytes, read_le}
use libb.Message.{
  Message, Node, Outcome, returns, fault, node_list, clear_nodes, add_data, field_name_length,
}

items_size : List (List ℕ) → ℕ
items_size [] = 0
items_size (d ∷ ds) = 8 + length d + items_size ds

nodes_size : List Node → ℕ
unfolding items_size
nodes_size [] = 0
nodes_size (n ∷ ns) = 4 + 1 + length n.name + 4 + items_size n.items + nodes_size ns

unfoldable pub flattened_size : Message → ℕ
unfolding nodes_size
flattened_size m = 4 + 4 + nodes_size (node_list m.nodes)

-- Bytes written so far, or the status with which `Flatten` gave up and the bytes written until then.
pub data Written : Type 0 where
  wrote : List ℕ → Written
  gave_up : Status → List ℕ → Written

infixl 5 ◌>>=◌
abbrev pub ◌>>=◌ : Written → (List ℕ → Written) → Written
wrote out >>= f = f out
gave_up s out >>= f = gave_up s out

-- `write_size += n; if (write_size > max_size) return B_NO_MEMORY;` and the write. `write_size` is
-- the number of bytes in `out`.
unfoldable pub put : ℕ → List ℕ → List ℕ → Written
put max_size bytes out =
    if ltb max_size (length out + length bytes) then gave_up no_memory out else wrote (out ++ bytes)

-- `if (n > std::numeric_limits<uintN>::max()) return B_BAD_VALUE;`
unfoldable pub check_max : ℕ → ℕ → List ℕ → Written
check_max limit n out = if ltb limit n then gave_up bad_value out else wrote out

unfoldable pub flatten_items : ℕ → List (List ℕ) → List ℕ → Written
flatten_items max_size [] out = wrote out
flatten_items max_size (d ∷ ds) out = do
  out1 ← check_max (2 ^ 64 - 1) (length d) out
  out2 ← put max_size (le_bytes 8 (length d)) out1
  out3 ← put max_size d out2
  flatten_items max_size ds out3

unfoldable pub flatten_node : ℕ → Node → List ℕ → Written
unfolding flatten_items
flatten_node max_size n out = do
  out1 ← put max_size (le_bytes 4 n.type) out
  out2 ← check_max 255 (length n.name) out1
  out3 ← put max_size (le_bytes 1 (length n.name)) out2
  out4 ← put max_size n.name out3
  out5 ← check_max (2 ^ 32 - 1) (length n.items) out4
  out6 ← put max_size (le_bytes 4 (length n.items)) out5
  flatten_items max_size n.items out6

unfoldable pub flatten_nodes : ℕ → List Node → List ℕ → Written
flatten_nodes max_size [] out = wrote out
flatten_nodes max_size (n ∷ ns) out = do
  out1 ← flatten_node max_size n out
  flatten_nodes max_size ns out1

-- `Flatten(buffer, max_size)`; a negative `max_size` fails as 0 does.
unfoldable pub flatten : ℕ → Message → Written
flatten max_size m = do
  out1 ← put max_size (le_bytes 4 m.what) []
  out2 ← flatten_nodes max_size (node_list m.nodes) out1
  put max_size (le_bytes 4 0) out2

-- Where a loop of `Unflatten` stands: it goes on at the rest of the buffer, or the call has ended.
pub data Progress : Type 0 where
  goes_on : Message → List ℕ → Progress
  ended : Outcome → Progress

-- The rest of an iteration once `AddData` has returned: an error ends the call, and otherwise `buf`
-- moves past the item.
unfoldable pub after_add : Outcome → ℕ → List ℕ → (List ℕ → Message → Progress) → Progress
after_add fault size buf next = ended fault
after_add (returns s m) size buf next = elim (is_ok s) [
  | true ↦ elim (read_bytes size buf) [ none ↦ ended fault | some (_, rest) ↦ next rest m ]
  | false ↦ ended (returns s m)
]

module _ (alloc : ℕ → Bool) where
  -- `while (data_size) { … }`. `AddData` copies from `buf`, which moves on only afterwards.
  unfoldable pub unflatten_items : ℕ → List ℕ → ℕ → List ℕ → Message → Progress
  unflatten_items zero name type buf m = goes_on m buf
  unflatten_items (suc k) name type buf m = elim (read_le 8 buf) [
    | none ↦ ended fault
    | some (size, rest) ↦
        after_add (add_data alloc name type size rest m) size rest (unflatten_items k name type)
  ]

  -- The body of `while ((type = *(type_code *)buf)) { … }`, after the type.
  unfoldable pub unflatten_node : ℕ → List ℕ → Message → Progress
  unflatten_node type buf m = elim (read_le 1 buf) [
    | none ↦ ended fault
    | some (name_length, rest1) ↦
        if ltb field_name_length name_length
        then ended (returns bad_value m)
        else elim (read_bytes name_length rest1) [
          | none ↦ ended fault
          | some (name, rest2) ↦ elim (read_le 4 rest2) [
            | none ↦ ended fault
            | some (data_size, rest3) ↦ unflatten_items data_size name type rest3 m
          ]
        ]
  ]

  -- The outer loop, on fuel; `none` means that the fuel ran out.
  unfoldable pub unflatten_nodes : ℕ → List ℕ → Message → Option Outcome
  unflatten_nodes zero buf m = none
  unflatten_nodes (suc fuel) buf m = elim (read_le 4 buf) [
    | none ↦ some fault
    | some (type, rest) ↦ elim (type == 0) [
      | true ↦ some (returns ok m)
      | false ↦ elim (unflatten_node type rest m) [
        | ended o ↦ some o
        | goes_on m' rest' ↦ unflatten_nodes fuel rest' m'
      ]
    ]
  ]

  -- `Unflatten(buf)`, with fuel for every byte of the buffer.
  unfoldable pub unflatten : List ℕ → Message → Option Outcome
  unflatten buf m = elim (read_le 4 buf) [
    | none ↦ some fault
    | some (what, rest) ↦
        unflatten_nodes (suc (length rest)) rest (record (clear_nodes m) { what = what })
  ]
