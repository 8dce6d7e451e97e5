-- ===== src/Message/Typed.antt =====
-- kits/app/Message.cpp: the typed Add and Find calls that relay to AddData and FindData, for numbers
-- (DEFINE_FUNCTIONS at an integer type of `w` bytes), strings and nested messages.
pub mod RoundTrip
use libb.Prelude.{
  ℕ, suc, ◌+◌, List, [], ◌∷◌, ◌++◌, Option, none, some, Bool, true, if◌then◌else◌, ◌==◌, not, ◌&&◌,
  ltb, length,
}
use libb.Prelude.Status.{Status, ok, no_memory, bad_value}
use libb.Prelude.Bytes.{le_bytes, read_le}
use libb.Prelude.Int.{ℤ}
use libb.Message.{
  Message, Outcome, returns, fault, Found, found, missing, outside, find_data, add_data,
  new_message, clear_nodes,
}
use libb.Message.Flat.{Written, wrote, gave_up, flattened_size, flatten, unflatten}

-- 'CSTR'
abbrev pub string_type : ℕ
string_type = 0x43535452

-- 'MSGG'
abbrev pub message_type : ℕ
message_type = 0x4d534747

-- `Find##typeName(name, index, p)`: the status and `*p`; `none` is a read past the item.
unfoldable pub find_num : ℕ → ℕ → List ℕ → ℤ → Message → Option (Status × ℕ)
find_num w type name index m = elim (find_data (some name) type index true true m) [
  | outside ↦ none
  | missing s ↦ some (s, 0)
  | found d ↦ elim (read_le w d) [ none ↦ none | some (n, _) ↦ some (ok, n) ]
]

-- `FindString(name, index, const char **)`: `*string` is the item.
unfoldable pub find_string : List ℕ → ℤ → Message → Found
find_string name index m = find_data (some name) string_type index true true m

-- The characters before the terminator; `none` is a read past the end.
unfoldable pub c_string : List ℕ → Option (List ℕ)
c_string [] = none
c_string (c ∷ s) =
    if c == 0 then some [] else (elim (c_string s) [ none ↦ none | some t ↦ some (c ∷ t) ])

-- `FindString(name, index, BString *)`. A miss leaves `value` null, and `SetTo(value)` then hands it
-- to `std::string::assign`, which reads it: `none`.
unfoldable pub find_bstring : List ℕ → ℤ → Message → Option (Status × List ℕ)
find_bstring name index m = elim (find_string name index m) [
  | outside ↦ none
  | missing s ↦ none
  | found d ↦ elim (c_string d) [ none ↦ none | some t ↦ some (ok, t) ]
]

module _ (alloc : ℕ → Bool) where
  -- `Add##typeName(name, val)`
  unfoldable pub add_num : ℕ → ℕ → List ℕ → ℕ → Message → Outcome
  add_num w type name val m = add_data alloc name type w (le_bytes w val) m

  -- `AddString(name, string)`; `string` is the text before the terminator, or `none` for null.
  unfoldable pub add_string : List ℕ → Option (List ℕ) → Message → Outcome
  add_string name none m = add_data alloc name string_type 0 [] m
  add_string name (some s) m = add_data alloc name string_type (length s + 1) (s ++ (0 ∷ [])) m

  -- `AddMessage(name, message)`, with a buffer on the stack up to 16384 bytes.
  unfoldable pub add_message : List ℕ → Option Message → Message → Outcome
  add_message name none m = returns bad_value m
  add_message name (some message) m =
      let size = flattened_size message in
      if ltb 16384 size && not (alloc size)
      then returns no_memory m
      else elim (flatten size message) [
        | gave_up s _ ↦ returns s m
        | wrote buffer ↦ add_data alloc name message_type size buffer m
      ]

  -- `FindMessage(name, index, message)`, which gives the message at `message`. A miss stores
  -- `BMessage()`: code 0 and no field. The inner `none` is fuel of `unflatten` that ran out.
  unfoldable pub find_message : List ℕ → ℤ → Message → Message → Option Outcome
  find_message name index message m = elim (find_data (some name) message_type index true true m) [
    | outside ↦ some fault
    | missing s ↦ some (returns s (record (clear_nodes message) { what = 0 }))
    | found d ↦ unflatten alloc d message
  ]
