-- ===== src/Message/Copy.antt =====
-- Copying a message field by field, as `impl::operator=` does through `addNode`.
use libb.Prelude.{
  ℕ, ◌<◌, ◌≡◌, refl, sym, ap, ◌∙◌, List, [], ◌∷◌, ◌++◌, Bool, none, some, true, length, append-nil,
  append_assoc, All,
}
use libb.Prelude.Status.{ok}
use libb.Message.{
  Message, Node, returns, node_list, add_data, push_into, copy_items, copy_nodes, assign, copy,
  clear_nodes, new_message,
}
use libb.Message.Fields.{key, Fresh, IsWellFormed, push_into-Fresh}
use libb.Message.Flat.RoundTrip.{
  with_nodes, holding, push_into_last, add_data_ok, Fresh-head, Granted,
}

module _ (alloc : ℕ → Bool) where
  copy_step :
      (name : List ℕ) (type : ℕ) (d : List ℕ) (ds : List (List ℕ)) (m : Message) (ns : List Node)
      → alloc (length d) ≡ true
      → push_into name type d (node_list m.nodes) ≡ (ok, ns)
      → copy_items alloc name type (d ∷ ds) m ≡ copy_items alloc name type ds (with_nodes m ns)
  unfolding copy_items
  copy_step name type d ds m ns a p =
      let granted : add_data alloc name type (length d) d m ≡ returns ok (with_nodes m ns) =
        ap (λ mem. add_data alloc name type (length d) mem m) (sym (append-nil d))
        ∙ add_data_ok alloc name type d [] m ns a p in
      rw (granted, copy_items)

  copy_rest :
      (name : List ℕ) (type : ℕ) (ds pre : List (List ℕ)) (m : Message) (ns : List Node)
      → Fresh name ns
      → Granted alloc ds
      → copy_items alloc name type ds (with_nodes m (ns ++ (holding name type pre ∷ [])))
        ≡ returns ok (with_nodes m (ns ++ (holding name type (pre ++ ds) ∷ [])))
  copy_rest name type [] pre m ns f g = rw (append-nil pre) (unfold copy_items in refl)
  copy_rest name type (d ∷ ds) pre m ns f g =
      copy_step name type d ds (with_nodes m (ns ++ (holding name type pre ∷ [])))
        (ns ++ (holding name type (pre ++ (d ∷ [])) ∷ [])) g.0 (push_into_last name type d pre ns f)
      ∙ (copy_rest name type ds (pre ++ (d ∷ [])) m ns f g.1
          ∙ ap (λ xs. returns ok (with_nodes m (ns ++ (holding name type xs ∷ []))))
              (append_assoc pre (d ∷ []) ds))

  copy_node :
      (name : List ℕ) (type : ℕ) (ds : List (List ℕ)) (m : Message)
      → 0 < length ds
      → key name ≡ name
      → Fresh name (node_list m.nodes)
      → Granted alloc ds
      → copy_items alloc name type ds m
        ≡ returns ok (with_nodes m (node_list m.nodes ++ (holding name type ds ∷ [])))
  copy_node name type [] m l k f g = elim l [ ]
  copy_node name type (d ∷ ds) m l k f g =
      copy_step name type d ds m (node_list m.nodes ++ (holding name type (d ∷ []) ∷ [])) g.0 (
        push_into-Fresh name type d (node_list m.nodes) f
        ∙ ap (λ k'. (ok, node_list m.nodes ++ (holding k' type (d ∷ []) ∷ []))) k)
      ∙ copy_rest name type ds (d ∷ []) m (node_list m.nodes) f g.1

  copy_loop :
      (ns acc : List Node) (m : Message)
      → node_list m.nodes ≡ acc
      → IsWellFormed (acc ++ ns)
      → All (λ n. Granted alloc n.items) ns
      → (m' : Message) × (copy_nodes alloc ns m ≡ returns ok m')
        × (node_list m'.nodes ≡ acc ++ ns)
        × (m'.what ≡ m.what)
        × (m'.handler ≡ m.handler)
        × (m'.reply_to ≡ m.reply_to)
  unfolding copy_nodes
  copy_loop [] acc m e w g = (m, refl, e ∙ sym (append-nil acc), refl, refl, refl)
  copy_loop (n ∷ ns) acc m e w g =
      let h = Fresh-head acc n ns w in
      let (m', r, k, q, hd, rp) =
        copy_loop ns (acc ++ (n ∷ [])) (with_nodes m (acc ++ (n ∷ []))) refl
          (rw (append_assoc acc (n ∷ []) ns) w) g.1 in
      let copied : copy_items alloc n.name n.type n.items m
          ≡ returns ok (with_nodes m (acc ++ (n ∷ []))) =
        rw (← e) (copy_node n.name n.type n.items m h.1.filled h.1.named (rw e h.0) g.0) in
      (m', rw (copied, copy_nodes) r, k ∙ append_assoc acc (n ∷ []) ns, q, hd, rp)

  -- The copy constructor and the assignment from another message give the `what` code and the fields
  -- of the source, if those are well formed and memory is granted; neither copies the handlers: the
  -- new message has none, and the target of an assignment keeps its own.
  pub copy-assign :
      (msg this : Message)
      → IsWellFormed (node_list msg.nodes)
      → All (λ n. Granted alloc n.items) (node_list msg.nodes)
      → ((m' : Message) × (copy alloc msg ≡ returns ok m')
          × (node_list m'.nodes ≡ node_list msg.nodes)
          × (m'.what ≡ msg.what)
          × (m'.handler ≡ none)
          × (m'.reply_to ≡ none))
        × ((m' : Message) × (assign alloc (some msg) this ≡ returns ok m')
            × (node_list m'.nodes ≡ node_list msg.nodes)
            × (m'.what ≡ msg.what)
            × (m'.handler ≡ this.handler)
            × (m'.reply_to ≡ this.reply_to))
  unfolding copy assign clear_nodes new_message
  copy-assign msg this w g = (
    copy_loop (node_list msg.nodes) [] (clear_nodes (new_message msg.what)) refl w g,
    copy_loop (node_list msg.nodes) [] (clear_nodes (record this { what = msg.what })) refl w g,
  )
