-- ===== src/Message/Flat/Decode.antt =====
-- What Unflatten reads: the loops end on every buffer, keep the fields of a message well formed, and
-- give back a flattened message.
use libb.Prelude.{
  ℕ, zero, suc, ◌+◌, ◌≤◌, ◌<◌, ◌≡◌, refl, ◌⊎◌, inl, inr, List, [], ◌∷◌, some, Bool, ltb, arith,
  length, Bool-cases, ◌==◌, Option-cases,
}
use libb.Prelude.Status.{Status, ok, is_ok}
use libb.Prelude.Bytes.{read_le, read_bytes}
use libb.Message.{
  Message, Outcome, returns, fault, node_list, add_data, push_node, clear_nodes, field_name_length,
}
use libb.Message.Fields.{IsWellFormed, push_into-IsWellFormed}
use libb.Message.Flat.{
  Progress, goes_on, ended, after_add, unflatten_items, unflatten_node, unflatten_nodes, unflatten,
}

read_le_shorter :
    (w : ℕ) (mem : List ℕ) (n : ℕ) (rest : List ℕ)
    → read_le w mem ≡ some (n, rest)
    → length rest + w ≡ length mem
unfolding read_le
read_le_shorter zero mem n rest h = ground arith
read_le_shorter (suc w) [] n rest h = cc
read_le_shorter (suc w) (b ∷ mem) n rest h = elim (Option-cases (read_le w mem)) [
  | inl e ↦ absurd (ground arith)
  | inr ((k, r), e) ↦ ground (arith, read_le_shorter w mem k r e)
]

read_bytes_shorter :
    (w : ℕ) (mem bs rest : List ℕ)
    → read_bytes w mem ≡ some (bs, rest)
    → length rest + w ≡ length mem
unfolding read_bytes
read_bytes_shorter zero mem bs rest h = ground arith
read_bytes_shorter (suc w) [] bs rest h = cc
read_bytes_shorter (suc w) (b ∷ mem) bs rest h = elim (Option-cases (read_bytes w mem)) [
  | inl e ↦ absurd (ground arith)
  | inr ((k, r), e) ↦ ground (arith, read_bytes_shorter w mem k r e)
]

pub Outcome-cases : (o : Outcome) → (o ≡ fault) ⊎ ((s : Status) × (m : Message) × (o ≡ returns s m))
Outcome-cases fault = inl refl
Outcome-cases (returns s m) = inr (s, m, refl)

-- What an iteration of a loop leaves: it has not gone backwards in the buffer, and the fields of the
-- message are well formed, also where the call ends.
abbrev pub Kept : Outcome → Type 0
Kept fault = Unit
Kept (returns s m) = IsWellFormed (node_list m.nodes)

abbrev Advances : ℕ → Progress → Type 0
Advances n (goes_on m rest) = (length rest ≤ n) × IsWellFormed (node_list m.nodes)
Advances n (ended o) = Kept o

Advances-mono : (n k : ℕ) (p : Progress) → n ≤ k → Advances n p → Advances k p
Advances-mono n k (goes_on m rest) h a = (omega arith, a.1)
Advances-mono n k (ended o) h a = a

module _ (alloc : ℕ → Bool) where
  -- AddData keeps the fields well formed, whatever it returns.
  pub add_data-Kept :
      (name : List ℕ) (type size : ℕ) (mem : List ℕ) (m : Message)
      → IsWellFormed (node_list m.nodes)
      → Kept (add_data alloc name type size mem m)
  unfolding add_data push_node
  add_data-Kept name type size mem m w = elim (Bool-cases (alloc size)) [
    | inl a ↦ elim (Option-cases (read_bytes size mem)) [
      | inl e ↦ rw (a, e) tt
      | inr ((item, rest), e) ↦
          rw (a, e) (push_into-IsWellFormed name type item (node_list m.nodes) w)
    ]
    | inr a ↦ rw a w
  ]

  after_add-Advances :
      (o : Outcome) (size n : ℕ) (buf : List ℕ) (next : List ℕ → Message → Progress)
      → Kept o
      → ((rest : List ℕ) (m : Message)
          → length rest ≤ length buf
          → IsWellFormed (node_list m.nodes)
          → Advances n (next rest m))
      → Advances n (after_add o size buf next)
  unfolding after_add
  after_add-Advances fault size n buf next w go = tt
  after_add-Advances (returns s m) size n buf next w go = elim (Bool-cases (is_ok s)) [
    | inl e ↦ elim (Option-cases (read_bytes size buf)) [
      | inl r ↦ rw (e, r, Advances, after_add) tt
      | inr ((bs, rest), r) ↦
          rw (e, r, Advances, after_add)
            (go rest m (omega (arith, read_bytes_shorter size buf bs rest r)) w)
    ]
    | inr e ↦ rw (e, Advances, after_add) w
  ]

  unflatten_items-Advances :
      (k : ℕ) (name : List ℕ) (type : ℕ) (buf : List ℕ) (m : Message)
      → IsWellFormed (node_list m.nodes)
      → Advances (length buf) (unflatten_items alloc k name type buf m)
  unfolding unflatten_items
  unflatten_items-Advances zero name type buf m w = (omega arith, w)
  unflatten_items-Advances (suc k) name type buf m w = elim (Option-cases (read_le 8 buf)) [
    | inl e ↦ rw (e, Advances, unflatten_items) tt
    | inr ((size, rest), e) ↦
        rw (e, Advances, unflatten_items)
          (after_add-Advances (add_data alloc name type size rest m) size (length buf) rest
            (unflatten_items alloc k name type) (add_data-Kept name type size rest m w)
            λ rest' m' l w'.
              Advances-mono (length rest') (length buf) (unflatten_items alloc k name type rest' m')
                (omega (arith, read_le_shorter 8 buf size rest e))
                (unflatten_items-Advances k name type rest' m' w'))
  ]

  unflatten_node-Advances :
      (type : ℕ) (buf : List ℕ) (m : Message)
      → IsWellFormed (node_list m.nodes)
      → Advances (length buf) (unflatten_node alloc type buf m)
  unfolding unflatten_node
  unflatten_node-Advances type buf m w = elim (Option-cases (read_le 1 buf)) [
    | inl e ↦ rw (e, Advances, unflatten_node) tt
    | inr ((name_length, rest1), e1) ↦ elim (Bool-cases (ltb field_name_length name_length)) [
      | inl long ↦ rw (e1, long, Advances, unflatten_node) w
      | inr short ↦ elim (Option-cases (read_bytes name_length rest1)) [
        | inl e ↦ rw (e1, short, e, Advances, unflatten_node) tt
        | inr ((name, rest2), e2) ↦ elim (Option-cases (read_le 4 rest2)) [
          | inl e ↦ rw (e1, short, e2, e, Advances, unflatten_node) tt
          | inr ((data_size, rest3), e3) ↦
              rw (e1, short, e2, e3, Advances, unflatten_node)
                (Advances-mono (length rest3) (length buf)
                  (unflatten_items alloc data_size name type rest3 m)
                  (omega (
                    arith,
                    read_le_shorter 1 buf name_length rest1 e1,
                    read_bytes_shorter name_length rest1 name rest2 e2,
                    read_le_shorter 4 rest2 data_size rest3 e3,
                  ))
                  (unflatten_items-Advances data_size name type rest3 m w))
        ]
      ]
    ]
  ]

  Progress-cases :
      (p : Progress)
      → ((m : Message) × (rest : List ℕ) × (p ≡ goes_on m rest)) ⊎ ((o : Outcome) × (p ≡ ended o))
  Progress-cases (goes_on m rest) = inl (m, rest, refl)
  Progress-cases (ended o) = inr (o, refl)

  -- With more fuel than bytes the outer loop ends, with well-formed fields.
  unflatten_nodes-Kept :
      (fuel : ℕ) (buf : List ℕ) (m : Message)
      → length buf < fuel
      → IsWellFormed (node_list m.nodes)
      → (o : Outcome) × (unflatten_nodes alloc fuel buf m ≡ some o) × Kept o
  unfolding unflatten_nodes
  unflatten_nodes-Kept zero buf m h w = elim h [ ]
  unflatten_nodes-Kept (suc fuel) buf m h w = elim (Option-cases (read_le 4 buf)) [
    | inl e ↦ (fault, rw (e, unflatten_nodes), tt)
    | inr ((type, rest), e) ↦ elim (Bool-cases (type == 0)) [
      | inl z ↦ (returns ok m, rw (e, z, unflatten_nodes), w)
      | inr n ↦
          let a = unflatten_node-Advances type rest m w in
          elim (Progress-cases (unflatten_node alloc type rest m)) [
            | inl (m', rest', q) ↦
                let a' : Advances (length rest) (goes_on m' rest') = rw q at a in
                let (o, r, k) =
                  unflatten_nodes-Kept fuel rest' m'
                    (let b : length rest' ≤ length rest = a'.0 in
                      omega (arith, read_le_shorter 4 buf type rest e))
                    a'.1 in
                (o, rw (e, n, q, unflatten_nodes) r, k)
            | inr (o, q) ↦
                let a' : Advances (length rest) (ended o) = rw q at a in
                (o, rw (e, n, q, unflatten_nodes), a')
          ]
    ]
  ]

  -- Unflatten ends on every buffer, and where it returns, with any status, the fields of the message
  -- are well formed.
  pub unflatten-total :
      (buf : List ℕ) (m : Message) → (o : Outcome) × (unflatten alloc buf m ≡ some o) × Kept o
  unfolding unflatten clear_nodes
  unflatten-total buf m = elim (Option-cases (read_le 4 buf)) [
    | inl e ↦ (fault, rw (e, unflatten), tt)
    | inr ((what, rest), e) ↦
        let (o, r, k) =
          unflatten_nodes-Kept (suc (length rest)) rest (record (clear_nodes m) { what = what })
            (omega arith) tt in
        (o, rw (e, unflatten) r, k)
  ]
