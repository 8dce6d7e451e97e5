-- ===== src/Message/Flat/Encode.antt =====
-- What Flatten writes: the layout as one list of bytes, all of it or a status and no byte too many.
use libb.Prelude.{
  ◌⊎◌, inl, inr, ℕ, ◌+◌, ◌-◌, ◌^◌, ◌≤◌, ◌<◌, ◌≡◌, refl, sym, inl, inr, List, [], ◌∷◌, ◌++◌, ltb,
  arith, length, length-append, append_assoc, append-nil, All, Bool-cases, ltb→lt, ltb→ge, lt→ltb,
  ge→ltb,
}
use libb.Prelude.Status.{no_memory}
use libb.Prelude.Bytes.{le_bytes, length-le_bytes}
use libb.Message.{Message, Node, node_list}
use libb.Message.Flat.{
  Written, wrote, gave_up, ◌>>=◌, put, check_max, flatten_items, flatten_node, flatten_nodes,
  flatten, items_size, nodes_size, flattened_size,
}

unfoldable pub encode_items : List (List ℕ) → List ℕ
encode_items [] = []
encode_items (d ∷ ds) = le_bytes 8 (length d) ++ (d ++ encode_items ds)

unfoldable pub encode_node : Node → List ℕ
encode_node n =
    le_bytes 4 n.type
    ++ (le_bytes 1 (length n.name)
        ++ (n.name ++ (le_bytes 4 (length n.items) ++ encode_items n.items)))

unfoldable pub encode_nodes : List Node → List ℕ
encode_nodes [] = []
encode_nodes (n ∷ ns) = encode_node n ++ encode_nodes ns

-- The layout of a flattened message.
unfoldable pub encode : Message → List ℕ
encode m = le_bytes 4 m.what ++ (encode_nodes (node_list m.nodes) ++ le_bytes 4 0)

-- The lengths fit the fields that hold them.
pub record Fits (n : Node) : Type 0 where
  pub name_fits : length n.name ≤ 255
  pub count_fits : length n.items ≤ 2 ^ 32 - 1
  pub items_fit : All (λ d. length d ≤ 2 ^ 64 - 1) n.items

-- A step that appends `bytes` to the output if they fit, and else gives up for lack of room.
pub record Writes (max_size : ℕ) (bytes out : List ℕ) (r : Written) : Type 0 where
  pub all : length out + length bytes ≤ max_size → r ≡ wrote (out ++ bytes)
  pub short :
      length out ≤ max_size
      → max_size < length out + length bytes
      → (p : List ℕ) × (r ≡ gave_up no_memory p) × (length p ≤ max_size)

put-Writes :
    (max_size : ℕ) (bytes out : List ℕ) → Writes max_size bytes out (put max_size bytes out)
unfolding put
put-Writes max_size bytes out = record {
  all = λ h. rw (ge→ltb max_size (length out + length bytes) h);
  short = λ h k. (out, rw (lt→ltb max_size (length out + length bytes) k), h);
}

nothing-Writes : (max_size : ℕ) (out : List ℕ) → Writes max_size [] out (wrote out)
nothing-Writes max_size out = record {
  all = λ h. rw append-nil;
  short = λ h k. absurd (omega arith);
}

bind-Writes :
    (max_size : ℕ) (b c out : List ℕ) (r : Written) (f : List ℕ → Written)
    → Writes max_size b out r
    → ((out' : List ℕ) → Writes max_size c out' (f out'))
    → Writes max_size (b ++ c) out (r >>= f)
bind-Writes max_size b c out r f w v = record {
  all = λ h.
      rw (w.all (omega (arith, length-append b c)), ← append_assoc out b c)
        ((v (out ++ b)).all (omega (arith, length-append b c, length-append out b)));
  short = λ h k. elim (Bool-cases (ltb max_size (length out + length b))) [
    | inl e ↦ let (p, q, l) = w.short h (ltb→lt _ _ e) in (p, rw q, l)
    | inr e ↦
        let fits : length out + length b ≤ max_size = ltb→ge _ _ e in
        rw (w.all fits) (
          (v (out ++ b)).short (omega (arith, length-append out b))
            (omega (arith, length-append b c, length-append out b)))
  ];
}

check_max-Writes :
    (max_size limit n : ℕ) (c out : List ℕ) (f : List ℕ → Written)
    → n ≤ limit
    → Writes max_size c out (f out)
    → Writes max_size c out (check_max limit n out >>= f)
unfolding check_max
check_max-Writes max_size limit n c out f h w = rw (ge→ltb limit n h) w

flatten_items-Writes :
    (max_size : ℕ) (ds : List (List ℕ)) (out : List ℕ)
    → All (λ d. length d ≤ 2 ^ 64 - 1) ds
    → Writes max_size (encode_items ds) out (flatten_items max_size ds out)
unfolding flatten_items encode_items
flatten_items-Writes max_size [] out h = nothing-Writes max_size out
flatten_items-Writes max_size (d ∷ ds) out h =
    check_max-Writes max_size (2 ^ 64 - 1) (length d) _ out _ h.0 (
      bind-Writes max_size _ _ out _ _ (put-Writes max_size _ out) λ out2.
        bind-Writes max_size _ _ out2 _ _ (put-Writes max_size d out2)
          λ out3. flatten_items-Writes max_size ds out3 h.1)

flatten_node-Writes :
    (max_size : ℕ) (n : Node) (out : List ℕ)
    → Fits n
    → Writes max_size (encode_node n) out (flatten_node max_size n out)
unfolding flatten_node encode_node
flatten_node-Writes max_size n out h =
    bind-Writes max_size _ _ out _ _ (put-Writes max_size _ out) λ out1.
      check_max-Writes max_size 255 (length n.name) _ out1 _ h.name_fits (
        bind-Writes max_size _ _ out1 _ _ (put-Writes max_size _ out1) λ out3.
          bind-Writes max_size _ _ out3 _ _ (put-Writes max_size n.name out3) λ out4.
            check_max-Writes max_size (2 ^ 32 - 1) (length n.items) _ out4 _ h.count_fits (
              bind-Writes max_size _ _ out4 _ _ (put-Writes max_size _ out4)
                λ out6. flatten_items-Writes max_size n.items out6 h.items_fit))

flatten_nodes-Writes :
    (max_size : ℕ) (ns : List Node) (out : List ℕ)
    → All Fits ns
    → Writes max_size (encode_nodes ns) out (flatten_nodes max_size ns out)
unfolding flatten_nodes encode_nodes
flatten_nodes-Writes max_size [] out h = nothing-Writes max_size out
flatten_nodes-Writes max_size (n ∷ ns) out h =
    bind-Writes max_size _ _ out _ _ (flatten_node-Writes max_size n out h.0)
      λ out1. flatten_nodes-Writes max_size ns out1 h.1

flatten-Writes :
    (max_size : ℕ) (m : Message)
    → All Fits (node_list m.nodes)
    → Writes max_size (encode m) [] (flatten max_size m)
unfolding flatten encode
flatten-Writes max_size m h = bind-Writes max_size _ _ [] _ _ (put-Writes max_size _ []) λ out1.
    bind-Writes max_size _ _ out1 _ _ (flatten_nodes-Writes max_size (node_list m.nodes) out1 h)
      λ out2. put-Writes max_size _ out2

items_size_lem : (ds : List (List ℕ)) → length (encode_items ds) ≡ items_size ds
unfolding encode_items items_size
items_size_lem [] = refl
items_size_lem (d ∷ ds) = omega (
  arith,
  length-append (le_bytes 8 (length d)) (d ++ encode_items ds),
  length-append d (encode_items ds),
  length-le_bytes 8 (length d),
  items_size_lem ds,
)

nodes_size_lem : (ns : List Node) → length (encode_nodes ns) ≡ nodes_size ns
unfolding encode_nodes encode_node nodes_size
nodes_size_lem [] = refl
nodes_size_lem (n ∷ ns) =
    let items = encode_items n.items in
    let counted = le_bytes 4 (length n.items) ++ items in
    let named = le_bytes 1 (length n.name) ++ (n.name ++ counted) in
    omega (
      arith,
      length-append (le_bytes 4 n.type ++ named) (encode_nodes ns),
      length-append (le_bytes 4 n.type) named,
      length-append (le_bytes 1 (length n.name)) (n.name ++ counted),
      length-append n.name counted,
      length-append (le_bytes 4 (length n.items)) items,
      length-le_bytes 4 n.type,
      length-le_bytes 1 (length n.name),
      length-le_bytes 4 (length n.items),
      items_size_lem n.items,
      nodes_size_lem ns,
    )

-- FlattenedSize is the number of bytes of the layout.
pub flattened_size-length : (m : Message) → flattened_size m ≡ length (encode m)
unfolding flattened_size encode
flattened_size-length m =
    let ns = encode_nodes (node_list m.nodes) in
    omega (
      arith,
      length-append (le_bytes 4 m.what) (ns ++ le_bytes 4 0),
      length-append ns (le_bytes 4 0),
      length-le_bytes 4 m.what,
      length-le_bytes 4 0,
      nodes_size_lem (node_list m.nodes),
    )

-- For a message whose lengths fit their fields: with a buffer of at least FlattenedSize bytes Flatten
-- succeeds and writes exactly the layout, which has FlattenedSize bytes; with a smaller one it returns
-- B_NO_MEMORY and has written no byte past the buffer.
pub flatten-encode :
    (max_size : ℕ) (m : Message)
    → All Fits (node_list m.nodes)
    → ((flattened_size m ≤ max_size)
        × (flatten max_size m ≡ wrote (encode m))
        × (length (encode m) ≡ flattened_size m))
      ⊎ ((p : List ℕ) × (max_size < flattened_size m)
          × (flatten max_size m ≡ gave_up no_memory p)
          × (length p ≤ max_size))
flatten-encode max_size m h = elim (Bool-cases (ltb max_size (flattened_size m))) [
  | inl e ↦
      let less = ltb→lt max_size (flattened_size m) e in
      let (p, q, l) =
        (flatten-Writes max_size m h).short (omega arith)
          (omega (arith, flattened_size-length m)) in
      inr (p, less, q, l)
  | inr e ↦
      let fits = ltb→ge max_size (flattened_size m) e in
      inl (
        fits,
        (flatten-Writes max_size m h).all (omega (arith, flattened_size-length m)),
        sym (flattened_size-length m),
      )
]

pub flatten-Fits :
    (m : Message) → All Fits (node_list m.nodes) → flatten (flattened_size m) m ≡ wrote (encode m)
flatten-Fits m h =
    (flatten-Writes (flattened_size m) m h).all (omega (arith, flattened_size-length m))
