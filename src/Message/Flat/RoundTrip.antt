-- ===== src/Message/Flat/RoundTrip.antt =====
-- Unflatten after Flatten gives the message back.
use libb.Prelude.{
  ℕ, zero, suc, ◌-◌, ◌^◌, ◌≤◌, ◌<◌, ◌≡◌, refl, sym, ap, ◌∙◌, inl, inr, List, [], ◌∷◌, ◌++◌, some,
  Bool, true, false, arith, length, length-append, append_assoc, append-nil, All, ◌==◌, ==_self,
  ge→ltb,
}
use libb.Prelude.Status.{Status, ok}
use libb.Prelude.Bytes.{le_bytes, length-le_bytes, read_le-le_bytes, read_bytes-append}
use libb.Message.{
  Message, Node, returns, node_list, add_data, push_into, push_node, clear_nodes, same_name,
}
use libb.Message.Fields.{key, Fresh, IsNode, IsWellFormed, push_into-Fresh, same_name_comm}
use libb.Message.Lookup.{add_data_runs, same_name_self}
use libb.Message.Flat.{
  Progress, goes_on, after_add, unflatten_items, unflatten_node, unflatten_nodes, unflatten, wrote,
  flatten, flattened_size,
}
use libb.Message.Flat.Encode.{encode_items, encode_node, encode_nodes, encode, Fits, flatten-encode}

-- What a message must meet to come back: its numbers fit the fields of the layout, and no type is 0,
-- which ends the layout.
pub record IsSendable (n : Node) : Type 0 where
  pub fits : Fits n
  pub type_fits : n.type < 2 ^ 32
  pub typed : 0 < n.type

abbrev pub with_nodes : Message → List Node → Message
with_nodes m ns = record m { nodes = some ns }

pub Fresh-head :
    (acc : List Node) (n : Node) (ns : List Node)
    → IsWellFormed (acc ++ (n ∷ ns))
    → Fresh n.name acc × IsNode n
Fresh-head [] n ns w = (tt, w.0)
Fresh-head (a ∷ acc) n ns w =
    let (f, i) = Fresh-head acc n ns w.2 in ((same_name_comm a.name n.name ∙ All-mid acc w.1, f), i)
  where
    All-mid : (xs : List Node) → Fresh a.name (xs ++ (n ∷ ns)) → same_name n.name a.name ≡ false
    All-mid [] h = h.0
    All-mid (x ∷ xs) h = All-mid xs h.1

module _ (name : List ℕ) (type : ℕ) where
  abbrev pub holding : List (List ℕ) → Node
  holding ds = record { name = name; type = type; items = ds }

  pub push_into_last :
      (item : List ℕ) (pre : List (List ℕ)) (ns : List Node)
      → Fresh name ns
      → push_into name type item (ns ++ (holding pre ∷ []))
        ≡ (ok, ns ++ (holding (pre ++ (item ∷ [])) ∷ []))
  unfolding push_into
  push_into_last item pre [] f = rw (same_name_self name, ==_self type)
  push_into_last item pre (n ∷ ns) f = rw (f.0, push_into_last item pre ns f.1)

module _ (alloc : ℕ → Bool) where
  abbrev pub Granted : List (List ℕ) → Type 0
  Granted = All (λ d. alloc (length d) ≡ true)

  after_add_ok :
      (d tail : List ℕ) (m : Message) (next : List ℕ → Message → Progress)
      → after_add (returns ok m) (length d) (d ++ tail) next ≡ next tail m
  unfolding after_add
  after_add_ok d tail m next = rw (read_bytes-append d tail, after_add)

  pub add_data_ok :
      (name : List ℕ) (type : ℕ) (d tail : List ℕ) (m : Message) (ns : List Node)
      → alloc (length d) ≡ true
      → push_into name type d (node_list m.nodes) ≡ (ok, ns)
      → add_data alloc name type (length d) (d ++ tail) m ≡ returns ok (with_nodes m ns)
  unfolding push_node
  add_data_ok name type d tail m ns a p =
      add_data_runs alloc name type (length d) (d ++ tail) m d tail a (read_bytes-append d tail)
      ∙ ap (λ (r : Status × List Node). returns r.0 (with_nodes m r.1)) p

  -- One iteration over an item that `push_into` accepts.
  item_step :
      (k : ℕ) (name : List ℕ) (type : ℕ) (d tail : List ℕ) (m : Message) (ns : List Node)
      → alloc (length d) ≡ true
      → length d ≤ 2 ^ 64 - 1
      → push_into name type d (node_list m.nodes) ≡ (ok, ns)
      → unflatten_items alloc (suc k) name type (le_bytes 8 (length d) ++ (d ++ tail)) m
        ≡ unflatten_items alloc k name type tail (with_nodes m ns)
  unfolding unflatten_items
  item_step k name type d tail m ns a h p =
      rw
        (
          read_le-le_bytes 8 (length d) (d ++ tail) (omega arith),
          unflatten_items,
          add_data_ok name type d tail m ns a p,
        )
        (after_add_ok d tail (with_nodes m ns) (unflatten_items alloc k name type))

  items_loop :
      (name : List ℕ) (type : ℕ) (ds pre : List (List ℕ)) (rest : List ℕ) (m : Message)
      (ns : List Node)
      → Fresh name ns
      → Granted ds
      → All (λ d. length d ≤ 2 ^ 64 - 1) ds
      → unflatten_items alloc
          (length ds)
          name
          type
          (encode_items ds ++ rest)
          (with_nodes m (ns ++ (holding name type pre ∷ [])))
        ≡ goes_on (with_nodes m (ns ++ (holding name type (pre ++ ds) ∷ []))) rest
  unfolding encode_items
  items_loop name type [] pre rest m ns f g h = rw (append-nil pre) (unfold unflatten_items in refl)
  items_loop name type (d ∷ ds) pre rest m ns f g h =
      rw
        (
          append_assoc (le_bytes 8 (length d)) (d ++ encode_items ds) rest,
          append_assoc d (encode_items ds) rest,
          item_step (length ds) name type d (encode_items ds ++ rest)
              (with_nodes m (ns ++ (holding name type pre ∷ [])))
              (ns ++ (holding name type (pre ++ (d ∷ [])) ∷ [])) g.0 h.0
              (push_into_last name type d pre ns f),
        )
        (items_loop name type ds (pre ++ (d ∷ [])) rest m ns f g.1 h.1
          ∙ ap (λ xs. goes_on (with_nodes m (ns ++ (holding name type xs ∷ []))) rest)
              (append_assoc pre (d ∷ []) ds))

  -- All items of a node that is new to the message.
  node_items :
      (name : List ℕ) (type : ℕ) (ds : List (List ℕ)) (rest : List ℕ) (m : Message)
      → 0 < length ds
      → key name ≡ name
      → Fresh name (node_list m.nodes)
      → Granted ds
      → All (λ d. length d ≤ 2 ^ 64 - 1) ds
      → unflatten_items alloc (length ds) name type (encode_items ds ++ rest) m
        ≡ goes_on (with_nodes m (node_list m.nodes ++ (holding name type ds ∷ []))) rest
  unfolding encode_items
  node_items name type [] rest m l k f g h = elim l [ ]
  node_items name type (d ∷ ds) rest m l k f g h =
      rw
        (
          append_assoc (le_bytes 8 (length d)) (d ++ encode_items ds) rest,
          append_assoc d (encode_items ds) rest,
          item_step (length ds) name type d (encode_items ds ++ rest) m
              (node_list m.nodes ++ (holding name type (d ∷ []) ∷ [])) g.0 h.0 pushed,
        )
        (items_loop name type ds (d ∷ []) rest m (node_list m.nodes) f g.1 h.1)
    where
      pushed :
          push_into name type d (node_list m.nodes)
          ≡ (ok, node_list m.nodes ++ (holding name type (d ∷ []) ∷ []))
      pushed =
          push_into-Fresh name type d (node_list m.nodes) f
          ∙ ap (λ k'. (ok, node_list m.nodes ++ (holding k' type (d ∷ []) ∷ []))) k

  node_step :
      (n : Node) (rest : List ℕ) (m : Message)
      → IsNode n
      → Fits n
      → Fresh n.name (node_list m.nodes)
      → Granted n.items
      → unflatten_node alloc n.type
          (le_bytes 1 (length n.name)
            ++ (n.name ++ (le_bytes 4 (length n.items) ++ (encode_items n.items ++ rest))))
          m
        ≡ goes_on (with_nodes m (node_list m.nodes ++ (n ∷ []))) rest
  unfolding unflatten_node
  node_step n rest m i s f g =
      let h1 : length n.name ≤ 255 = s.name_fits in
      let h2 : length n.items ≤ 2 ^ 32 - 1 = s.count_fits in
      let tail = encode_items n.items ++ rest in
      rw
        (
          read_le-le_bytes 1 (length n.name) (n.name ++ (le_bytes 4 (length n.items) ++ tail))
              (omega arith),
          unflatten_node,
          ge→ltb 255 (length n.name) h1,
          read_bytes-append n.name (le_bytes 4 (length n.items) ++ tail),
          read_le-le_bytes 4 (length n.items) tail (omega arith),
        )
        (node_items n.name n.type n.items rest m i.filled i.named f g s.items_fit)

  encode_node-append :
      (n : Node) (tail : List ℕ)
      → encode_node n ++ tail
        ≡ le_bytes 4 n.type
          ++ (le_bytes 1 (length n.name)
              ++ (n.name ++ (le_bytes 4 (length n.items) ++ (encode_items n.items ++ tail))))
  unfolding encode_node
  encode_node-append n tail =
      append_assoc (le_bytes 4 n.type) _ tail
      ∙ ap (λ r. le_bytes 4 n.type ++ r)
          (append_assoc (le_bytes 1 (length n.name)) _ tail
            ∙ ap (λ r. le_bytes 1 (length n.name) ++ r)
                (append_assoc n.name _ tail
                  ∙ ap (λ r. n.name ++ r) (append_assoc (le_bytes 4 (length n.items)) _ tail)))

  -- The outer loop over encoded nodes, from a message that already holds `acc`.
  nodes_loop :
      (ns acc : List Node) (fuel : ℕ) (rest : List ℕ) (m : Message)
      → node_list m.nodes ≡ acc
      → length ns < fuel
      → IsWellFormed (acc ++ ns)
      → All IsSendable ns
      → All (λ n. Granted n.items) ns
      → (m' : Message) × (unflatten_nodes alloc fuel (encode_nodes ns ++ (le_bytes 4 0 ++ rest)) m
          ≡ some (returns ok m'))
        × (m'.what ≡ m.what)
        × (node_list m'.nodes ≡ acc ++ ns)
  unfolding unflatten_nodes encode_nodes
  nodes_loop ns acc zero rest m e l w s g = elim l [ ]
  nodes_loop [] acc (suc fuel) rest m e l w s g = (
    m,
    rw (read_le-le_bytes 4 0 rest (omega arith), unflatten_nodes),
    refl,
    e ∙ sym (append-nil acc),
  )
  nodes_loop (n ∷ ns) acc (suc fuel) rest m e l w s g =
      let (m', r, q, k) =
        nodes_loop ns (acc ++ (n ∷ [])) fuel rest (with_nodes m (acc ++ (n ∷ []))) refl
          (omega arith) (rw (append_assoc acc (n ∷ []) ns) w) s.1 g.1 in
      (m', first ∙ r, q, k ∙ append_assoc acc (n ∷ []) ns)
    where
      tail : List ℕ
      tail = encode_nodes ns ++ (le_bytes 4 0 ++ rest)

      stepped :
          unflatten_node alloc n.type
            (le_bytes 1 (length n.name)
              ++ (n.name ++ (le_bytes 4 (length n.items) ++ (encode_items n.items ++ tail))))
            m
          ≡ goes_on (with_nodes m (acc ++ (n ∷ []))) tail
      stepped =
          let h = Fresh-head acc n ns w in rw (← e) (node_step n tail m h.1 s.0.fits (rw e h.0) g.0)

      typed : (n.type == 0) ≡ false
      typed = let h : 0 < n.type = s.0.typed in ground arith

      first :
          unflatten_nodes alloc
            (suc fuel)
            ((encode_node n ++ encode_nodes ns) ++ (le_bytes 4 0 ++ rest))
            m
          ≡ unflatten_nodes alloc fuel tail (with_nodes m (acc ++ (n ∷ [])))
      first =
          let h : n.type < 2 ^ 32 = s.0.type_fits in
          rw (
            append_assoc (encode_node n) (encode_nodes ns) (le_bytes 4 0 ++ rest),
            encode_node-append n tail,
            read_le-le_bytes 4 n.type
                (le_bytes 1 (length n.name)
                  ++ (n.name ++ (le_bytes 4 (length n.items) ++ (encode_items n.items ++ tail))))
                (omega arith),
            unflatten_nodes,
            typed,
            stepped,
          )

  length-encode_node : (n : Node) → 0 < length (encode_node n)
  unfolding encode_node
  length-encode_node n =
      let tail =
        le_bytes 1 (length n.name)
        ++ (n.name ++ (le_bytes 4 (length n.items) ++ encode_items n.items)) in
      omega (arith, length-append (le_bytes 4 n.type) tail, length-le_bytes 4 n.type)

  length-encode_nodes : (ns : List Node) → length ns ≤ length (encode_nodes ns)
  unfolding encode_nodes
  length-encode_nodes [] = omega arith
  length-encode_nodes (n ∷ ns) = omega (
    arith,
    length-append (encode_node n) (encode_nodes ns),
    length-encode_node n,
    length-encode_nodes ns,
  )

  -- Unflatten of a flattened message, whatever stands behind it in memory and whatever the target
  -- held, returns B_OK and gives the same `what` code and the same fields, if the fields are well
  -- formed, every number fits its place in the layout, no type is 0 and memory is granted.
  pub unflatten-encode :
      (m target : Message) (rest : List ℕ)
      → m.what < 2 ^ 32
      → IsWellFormed (node_list m.nodes)
      → All IsSendable (node_list m.nodes)
      → All (λ n. Granted n.items) (node_list m.nodes)
      → (m' : Message) × (unflatten alloc (encode m ++ rest) target ≡ some (returns ok m'))
        × (m'.what ≡ m.what)
        × (node_list m'.nodes ≡ node_list m.nodes)
  unfolding unflatten encode clear_nodes
  unflatten-encode m target rest h w s g =
      let ns = node_list m.nodes in
      let buf = encode_nodes ns ++ (le_bytes 4 0 ++ rest) in
      let (m', r, q, k) =
        nodes_loop ns [] (suc (length buf)) rest (record (clear_nodes target) { what = m.what })
          refl
          (omega
            (arith, length-append (encode_nodes ns) (le_bytes 4 0 ++ rest), length-encode_nodes ns))
          w s g in
      (
        m',
        rw
            (
              append_assoc (le_bytes 4 m.what) (encode_nodes ns ++ le_bytes 4 0) rest,
              append_assoc (encode_nodes ns) (le_bytes 4 0) rest,
              read_le-le_bytes 4 m.what buf (omega arith),
              unflatten,
            )
            r,
        q,
        k,
      )

  sendable-Fits : (ns : List Node) → All IsSendable ns → All Fits ns
  sendable-Fits [] h = tt
  sendable-Fits (n ∷ ns) h = (h.0.fits, sendable-Fits ns h.1)

  -- What Flatten writes to a buffer of at least FlattenedSize bytes is FlattenedSize bytes, from which
  -- Unflatten, whatever stands behind them in memory and whatever the target held, returns B_OK with the
  -- same `what` code and the same fields, if the fields are well formed, the code, types and lengths fit
  -- their places in the layout, no type is 0 and memory is granted for every item.
  pub unflatten-flatten :
      (m target : Message) (max_size : ℕ) (rest : List ℕ)
      → flattened_size m ≤ max_size
      → m.what < 2 ^ 32
      → IsWellFormed (node_list m.nodes)
      → All IsSendable (node_list m.nodes)
      → All (λ n. Granted n.items) (node_list m.nodes)
      → (bytes : List ℕ) × (m' : Message) × ((flatten max_size m ≡ wrote bytes)
          × ((length bytes ≡ flattened_size m)
              × ((unflatten alloc (bytes ++ rest) target ≡ some (returns ok m'))
                  × ((m'.what ≡ m.what) × (node_list m'.nodes ≡ node_list m.nodes)))))
  unflatten-flatten m target max_size rest room h w s g =
      let (m', r, q, k) = unflatten-encode m target rest h w s g in
      elim (flatten-encode max_size m (sendable-Fits (node_list m.nodes) s)) [
        | inl (fits, wr, len) ↦ (encode m, m', (wr, (len, (r, (q, k)))))
        | inr (p, less, gave, l) ↦ absurd (omega arith)
      ]
