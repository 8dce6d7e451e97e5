-- ===== src/Message/Typed/RoundTrip.antt =====
-- Typed values come back as they were added.
use libb.Prelude.{
  ℕ, ◌+◌, ◌^◌, ◌<◌, ◌≡◌, ◌≢◌, refl, sym, ap, ◌∙◌, inl, inr, List, [], ◌∷◌, ◌++◌, none, some, Bool,
  false, ◌==◌, not, ◌&&◌, ltb, length, arith, append-nil, All, Bool-cases, length-append,
}
use libb.Prelude.Status.{Status, ok, no_memory}
use libb.Prelude.Bytes.{
  le_bytes, length-le_bytes, read_le, read_bytes, read_bytes-append, read_le-le_bytes,
}
use libb.Prelude.Int.{ℤ, pos}
use libb.Message.{Message, returns, missing, add_data, node_list, Node}
use libb.Message.Fields.{IsWellFormed}
use libb.Message.Lookup.{fields, items_of}
use libb.Message.Lookup.RoundTrip.{find_data-add_data}
use libb.Message.Flat.{flattened_size, unflatten}
use libb.Message.Flat.Encode.{Fits, encode, flatten-Fits, flattened_size-length}
use libb.Message.Flat.RoundTrip.{IsSendable, Granted, unflatten-encode}
use libb.Message.Typed.{
  string_type, message_type, find_num, find_string, find_bstring, c_string, add_num, add_string,
  add_message, find_message,
}

read_bytes_all : (bs : List ℕ) → read_bytes (length bs) bs ≡ some (bs, [])
read_bytes_all bs = ap (read_bytes (length bs)) (sym (append-nil bs)) ∙ read_bytes-append bs []

-- A number that fits its `w` bytes, once added, is found behind the items that the name held before.
pub find_num-add_num :
    (alloc : ℕ → Bool) (w type : ℕ) (name : List ℕ) (val : ℕ) (m m' : Message)
    → val < 256 ^ w
    → add_num alloc w type name val m ≡ returns ok m'
    → find_num w type name (pos (length (items_of (fields m name)))) m' ≡ some (ok, val)
unfolding add_num find_num
find_num-add_num alloc w type name val m m' h e =
    let k = pos (length (items_of (fields m name))) in
    let r : read_bytes w (le_bytes w val) ≡ some (le_bytes w val, []) =
      ap (λ n. read_bytes n (le_bytes w val)) (sym (length-le_bytes w val))
      ∙ read_bytes_all (le_bytes w val) in
    let f = find_data-add_data alloc name type w (le_bytes w val) (le_bytes w val) [] m m' r e in
    let n : read_le w (le_bytes w val) ≡ some (val, []) =
      ap (read_le w) (sym (append-nil (le_bytes w val))) ∙ read_le-le_bytes w val [] h in
    rw (f, find_num, n)

c_string-append : (s : List ℕ) → All (λ c. c ≢ 0) s → c_string (s ++ (0 ∷ [])) ≡ some s
unfolding c_string
c_string-append [] h = refl
c_string-append (c ∷ s) h =
    let n : c ≢ 0 = h.0 in let z : (c == 0) ≡ false = ground arith in rw (z, c_string-append s h.1)

-- A text without a terminator inside, once added, is found behind the items that the name held before.
pub find_bstring-add_string :
    (alloc : ℕ → Bool) (name s : List ℕ) (m m' : Message)
    → All (λ c. c ≢ 0) s
    → add_string alloc name (some s) m ≡ returns ok m'
    → find_bstring name (pos (length (items_of (fields m name)))) m' ≡ some (ok, s)
unfolding add_string find_bstring find_string
find_bstring-add_string alloc name s m m' h e =
    let mem = s ++ (0 ∷ []) in
    let size : length mem ≡ length s + 1 = omega (arith, length-append s (0 ∷ [])) in
    let r : read_bytes (length s + 1) mem ≡ some (mem, []) =
      ap (λ n. read_bytes n mem) (sym size) ∙ read_bytes_all mem in
    let f = find_data-add_data alloc name string_type (length s + 1) mem mem [] m m' r e in
    rw (f, find_bstring, c_string-append s h)

-- FindString into a BString never returns the status of a miss: it hands a null pointer to
-- std::string::assign instead.
pub find_bstring-missing :
    (name : List ℕ) (index : ℤ) (m : Message) (s : Status)
    → find_string name index m ≡ missing s
    → find_bstring name index m ≡ none
unfolding find_bstring
find_bstring-missing name index m s e = rw (e, find_bstring)

sendable-Fits : (ns : List Node) → All IsSendable ns → All Fits ns
sendable-Fits [] h = tt
sendable-Fits (n ∷ ns) h = (h.0.fits, sendable-Fits ns h.1)

-- A successful AddMessage has added the layout of the message.
add_message-inv :
    (alloc : ℕ → Bool) (name : List ℕ) (message m m' : Message)
    → All Fits (node_list message.nodes)
    → add_message alloc name (some message) m ≡ returns ok m'
    → add_data alloc name message_type (flattened_size message) (encode message) m ≡ returns ok m'
unfolding add_message
add_message-inv alloc name message m m' h e =
    let size = flattened_size message in
    elim (Bool-cases (ltb 16384 size && not (alloc size))) [
      | inl b ↦ let e' : returns no_memory m ≡ returns ok m' = rw b at e in cc
      | inr b ↦ rw (b, flatten-Fits message h) at e
    ]

-- A message that was added under a name is found behind the items that the name held before, with the
-- same `what` code and the same fields, under the conditions of `Unflatten` after `Flatten`.
pub find_message-add_message :
    (alloc : ℕ → Bool) (name : List ℕ) (message target m m' : Message)
    → message.what < 2 ^ 32
    → IsWellFormed (node_list message.nodes)
    → All IsSendable (node_list message.nodes)
    → All (λ n. Granted alloc n.items) (node_list message.nodes)
    → add_message alloc name (some message) m ≡ returns ok m'
    → (found_message : Message) × (find_message alloc name
          (pos (length (items_of (fields m name))))
          target
          m'
        ≡ some (returns ok found_message))
      × (found_message.what ≡ message.what)
      × (node_list found_message.nodes ≡ node_list message.nodes)
unfolding find_message
find_message-add_message alloc name message target m m' w f s g e =
    let a =
      rw (flattened_size-length message) at
        (add_message-inv alloc name message m m' (sendable-Fits (node_list message.nodes) s) e) in
    let bytes = encode message in
    let d =
      find_data-add_data alloc name message_type (length bytes) bytes bytes [] m m'
        (read_bytes_all bytes) a in
    let (q, r, wh, k) = unflatten-encode alloc message target [] w f s g in
    (
      q,
      rw (d, find_message) (ap (λ buf. unflatten alloc buf target) (sym (append-nil bytes)) ∙ r),
      wh,
      k,
    )
