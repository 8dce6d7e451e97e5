-- ===== src/Message/Tests.antt =====
-- Runs of the message model, and its theorems at concrete messages.
use libb.Prelude.{
  ℕ, ◌⊎◌, ◌≤◌, ◌<◌, ◌≡◌, refl, if◌then◌else◌, List, [], ◌∷◌, ◌++◌, none, some, Bool, true, arith,
  length, All, get_elem?,
}
use libb.Prelude.Status.{ok, bad_index, no_memory, name_not_found}
use libb.Prelude.Bytes.{read_bytes, read_le, le_bytes}
use libb.Prelude.Int.{pos}
use libb.Message.{
  Message, returns, found, missing, outside, node_list, add_data, push_node, push_into, same_name,
  strn, bytes_eq, find_data, find_in, item_at, set_item, replace_data, new_message, clear_nodes,
  any_type,
}
use libb.Message.Fields.{IsWellFormed}
use libb.Message.Lookup.{fields, push_entry, find_entry, find_data_refines, add_data_refines}
use libb.Message.Lookup.RoundTrip.{
  find_data-add_data_earlier, find_data_range, find_data-replace_data_other,
}
use libb.Message.Flat.{
  flattened_size, flatten, wrote, gave_up, unflatten, unflatten_nodes, flatten_nodes, flatten_node,
  put, check_max,
}
use libb.Message.Flat.Encode.{Fits, encode, encode_nodes, encode_node, encode_items, flatten-encode}
use libb.Message.Flat.RoundTrip.{IsSendable, Granted, unflatten-flatten}
use libb.Message.Built.{Built, Built-IsWellFormed}
use libb.Message.Typed.{string_type, message_type, find_num, find_bstring, find_string, add_num}
use libb.Message.Typed.RoundTrip.{find_num-add_num, find_bstring-missing}

abbrev granted : ℕ → Bool
granted size = true

abbrev name_a : List ℕ
name_a = b'a' ∷ []

abbrev name_b : List ℕ
name_b = b'b' ∷ []

-- Two strings under "a" and a byte under "b".
abbrev sample : Message
sample = record {
  what = 0x54455354;
  nodes = some (
      record { name = name_a; type = string_type; items = (1 ∷ 2 ∷ []) ∷ (3 ∷ []) ∷ [] }
      ∷ record { name = name_b; type = 0x42594554; items = (9 ∷ []) ∷ [] }
      ∷ []);
  handler = some 4;
  reply_to = none;
}

abbrev blank : Message
blank = record { what = 0; nodes = none; handler = none; reply_to = none }

sample-IsWellFormed : IsWellFormed (node_list sample.nodes)
unfolding same_name strn bytes_eq
sample-IsWellFormed = (
  record { named = refl; filled = omega arith },
  (refl, tt),
  (record { named = refl; filled = omega arith }, tt, tt),
)

sample-Fits : All Fits (node_list sample.nodes)
sample-Fits = omega arith

sample-IsSendable : All IsSendable (node_list sample.nodes)
sample-IsSendable = omega arith

sample-Granted : All (λ n. Granted granted n.items) (node_list sample.nodes)
sample-Granted = ((refl, (refl, tt)), ((refl, tt), tt))

run_flat : flatten 100 sample ≡ wrote (encode sample)
unfolding flatten flatten_node encode put check_max encode_nodes encode_node encode_items
    flatten_nodes le_bytes
run_flat = refl

find_data_refines_example :
    find_data (some name_a) string_type (pos 2) true true sample
    ≡ find_entry string_type (pos 2) (fields sample name_a)
find_data_refines_example = find_data_refines name_a string_type (pos 2) sample

add_data_refines_example :
    (m' : Message) × (add_data granted name_a string_type 1 (7 ∷ []) sample
      ≡ returns (push_entry string_type (7 ∷ []) (fields sample name_a)).0 m')
    × ((other : List ℕ)
        → fields m' other ≡ (
            if same_name other name_a
            then (push_entry string_type (7 ∷ []) (fields sample name_a)).1
            else fields sample other))
    × (m'.what ≡ 0x54455354)
unfolding read_bytes
add_data_refines_example =
    add_data_refines granted name_a string_type 1 (7 ∷ []) sample (7 ∷ []) [] refl refl

abbrev added : Message
added = record sample {
  nodes = some (
      record { name = name_a; type = string_type; items = (1 ∷ 2 ∷ []) ∷ (3 ∷ []) ∷ (7 ∷ []) ∷ [] }
      ∷ record { name = name_b; type = 0x42594554; items = (9 ∷ []) ∷ [] }
      ∷ []);
}

find_data-add_data_earlier_example :
    find_data (some name_a) string_type (pos 1) true true added
    ≡ find_data (some name_a) string_type (pos 1) true true sample
unfolding same_name strn bytes_eq add_data push_node push_into read_bytes
find_data-add_data_earlier_example =
    find_data-add_data_earlier granted name_a string_type 1 (7 ∷ []) (7 ∷ []) [] sample added refl
      refl string_type 1 (omega arith)

replaced_sample : Message
replaced_sample = record sample {
  nodes = some (
      record { name = name_a; type = string_type; items = (1 ∷ 2 ∷ []) ∷ (8 ∷ 8 ∷ []) ∷ [] }
      ∷ record { name = name_b; type = 0x42594554; items = (9 ∷ []) ∷ [] }
      ∷ []);
}

find_data-replace_data_other_example :
    find_data (some name_b) any_type (pos 0) true true replaced_sample
    ≡ find_data (some name_b) any_type (pos 0) true true sample
unfolding same_name strn bytes_eq replace_data find_in item_at set_item read_bytes replaced_sample
find_data-replace_data_other_example =
    find_data-replace_data_other granted name_a string_type 2 1 (8 ∷ 8 ∷ []) (8 ∷ 8 ∷ []) [] sample
      replaced_sample refl refl name_b any_type (pos 0) refl

-- Index 2 is one past the two items of "a".
find_data_range_example :
    ((d : List ℕ) × (2 < 2)
      × (get_elem? ((1 ∷ 2 ∷ []) ∷ (3 ∷ []) ∷ []) 2 ≡ some d)
      × (find_data (some name_a) string_type (pos 2) true true sample ≡ found d))
    ⊎ ((◌≡◌ {A = ℕ} 2 2 × (find_data (some name_a) string_type (pos 2) true true sample ≡ outside))
        ⊎ ((2 < 2)
            × (find_data (some name_a) string_type (pos 2) true true sample ≡ missing bad_index)))
unfolding same_name strn bytes_eq
find_data_range_example =
    find_data_range name_a string_type ((1 ∷ 2 ∷ []) ∷ (3 ∷ []) ∷ []) sample 2 refl

flatten-encode_example :
    ((56 ≤ 20) × (flatten 20 sample ≡ wrote (encode sample)) × (length (encode sample) ≡ 56))
    ⊎ ((p : List ℕ) × (20 < 56) × (flatten 20 sample ≡ gave_up no_memory p) × (length p ≤ 20))
unfolding flattened_size
flatten-encode_example = flatten-encode 20 sample sample-Fits

unflatten-flatten_example :
    (bytes : List ℕ) × (m' : Message) × ((flatten 60 sample ≡ wrote bytes)
      × ((length bytes ≡ 56)
          × ((unflatten granted (bytes ++ (7 ∷ [])) blank ≡ some (returns ok m'))
              × ((m'.what ≡ 0x54455354) × (node_list m'.nodes ≡ node_list sample.nodes)))))
unfolding flattened_size
unflatten-flatten_example =
    unflatten-flatten granted sample blank 60 (7 ∷ []) (omega arith) (omega arith)
      sample-IsWellFormed sample-IsSendable sample-Granted

-- A field of type 0 is not sent: its type ends the layout.
abbrev untyped : Message
untyped = record blank {
  nodes = some (record { name = b'a' ∷ []; type = 0; items = (9 ∷ []) ∷ [] } ∷ []);
}

untyped_lost : unflatten granted (encode untyped) blank ≡ some (returns ok blank)
unfolding encode encode_nodes encode_node encode_items unflatten unflatten_nodes clear_nodes
    le_bytes read_le
untyped_lost = refl

abbrev with_number : Message
with_number = record blank {
  nodes =
      some (record { name = name_a; type = 0x4c4f4e47; items = (2 ∷ 1 ∷ 0 ∷ 0 ∷ []) ∷ [] } ∷ []);
}

find_num-add_num_example : find_num 4 0x4c4f4e47 name_a (pos 0) with_number ≡ some (ok, 258)
unfolding same_name strn bytes_eq add_num add_data push_node push_into read_bytes le_bytes
find_num-add_num_example =
    find_num-add_num granted 4 0x4c4f4e47 name_a 258 blank with_number (omega arith) refl

abbrev with_text : Message
with_text = record blank {
  nodes =
      some (record { name = name_a; type = string_type; items = (b'h' ∷ b'i' ∷ 0 ∷ []) ∷ [] } ∷ []);
}

find_bstring-missing_example : find_bstring name_b (pos 0) with_text ≡ none
unfolding same_name strn bytes_eq find_string find_data find_in
find_bstring-missing_example = find_bstring-missing name_b (pos 0) with_text name_not_found refl

abbrev with_message : Message
with_message = record blank {
  nodes = some (
      record {
        name = name_a;
        type = message_type;
        items = (1 ∷ 0 ∷ 0 ∷ 0 ∷ 0 ∷ 0 ∷ 0 ∷ 0 ∷ []) ∷ [];
      }
      ∷ []);
}

Built-IsWellFormed_example : IsWellFormed (node_list with_number.nodes)
unfolding new_message same_name strn bytes_eq add_data push_node push_into read_bytes
Built-IsWellFormed_example = Built-IsWellFormed (
    Built.added {m = blank} {m' = with_number} {s = ok} granted name_a 0x4c4f4e47 4
      (2 ∷ 1 ∷ 0 ∷ 0 ∷ []) (Built.created 0) refl)
