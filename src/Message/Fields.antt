-- ===== src/Message/Fields.antt =====
-- The fields of a message: names are compared up to their first 255 bytes, no two nodes share one,
-- and a message refines a finite map from names to a type and the items added under it.
use libb.Prelude.{
  ℕ, zero, suc, ◌<◌, ◌≡◌, refl, sym, ap, ◌∙◌, ◌≢◌, ◌↔◌, inl, inr, List, [], ◌∷◌, ◌++◌, true, false,
  ◌==◌, ==_self, arith, length, length-append, length-set, All, Bool-cases,
}
use libb.Prelude.Status.{ok}
use libb.Message.{Node, strn, bytes_eq, same_name, field_name_length, push_into, set_item}

-- The part of a name that comparisons see.
abbrev pub key : List ℕ → List ℕ
key name = strn field_name_length name

strn_idem : (n : ℕ) (s : List ℕ) → strn n (strn n s) ≡ strn n s
unfolding strn
strn_idem zero s = refl
strn_idem (suc n) [] = refl
strn_idem (suc n) (c ∷ s) = elim (Bool-cases (c == 0)) [
  | inl e ↦ rw e
  | inr e ↦ rw (e, e) (ap (◌∷◌ c) (strn_idem n s))
]

pub key_idem : (name : List ℕ) → key (key name) ≡ key name
key_idem name = strn_idem field_name_length name

pub bytes_eq→eq : (xs ys : List ℕ) → bytes_eq xs ys ≡ true → xs ≡ ys
unfolding bytes_eq
bytes_eq→eq [] [] h = refl
bytes_eq→eq [] (y ∷ ys) h = cc
bytes_eq→eq (x ∷ xs) [] h = cc
bytes_eq→eq (x ∷ xs) (y ∷ ys) h = ground (arith, bytes_eq→eq xs ys)

pub bytes_eq_self : (xs : List ℕ) → bytes_eq xs xs ≡ true
unfolding bytes_eq
bytes_eq_self [] = refl
bytes_eq_self (x ∷ xs) = rw (==_self x) (bytes_eq_self xs)

-- `strncmp` finds two names equal exactly when their keys are.
pub same_name_iff : (a b : List ℕ) → (same_name a b ≡ true) ↔ (key a ≡ key b)
unfolding same_name
same_name_iff a b = (bytes_eq→eq (key a) (key b), λ e. rw e (bytes_eq_self (key b)))

pub same_name-key : (a b : List ℕ) → same_name a (key b) ≡ same_name a b
unfolding same_name
same_name-key a b = rw (key_idem b)

pub key-same_name : (a b : List ℕ) → same_name (key a) b ≡ same_name a b
unfolding same_name
key-same_name a b = rw (key_idem a)

pub same_name_ne : (a b : List ℕ) → same_name a b ≡ false → key a ≢ key b
same_name_ne a b h e = cc ((same_name_iff a b).1 e)

pub ne_same_name : (a b : List ℕ) → key a ≢ key b → same_name a b ≡ false
ne_same_name a b h = elim (Bool-cases (same_name a b)) [
  | inl e ↦ absurd (h ((same_name_iff a b).0 e))
  | inr e ↦ e
]

pub same_name_comm : (a b : List ℕ) → same_name a b ≡ same_name b a
same_name_comm a b = elim (Bool-cases (same_name a b)) [
  | inl e ↦ e ∙ sym ((same_name_iff b a).1 (sym ((same_name_iff a b).0 e)))
  | inr e ↦ e ∙ sym (ne_same_name b a (λ d. same_name_ne a b e (sym d)))
]

-- No node has this name.
abbrev pub Fresh : List ℕ → List Node → Type 0
Fresh name = All (λ n. same_name n.name name ≡ false)

-- A stored name is a C string of at most 255 bytes, and a node holds an item.
pub record IsNode (n : Node) : Type 0 where
  pub named : key n.name ≡ n.name
  pub filled : 0 < length n.items

abbrev pub IsWellFormed : List Node → Type 0
IsWellFormed [] = Unit
IsWellFormed (n ∷ ns) = IsNode n × Fresh n.name ns × IsWellFormed ns

pub Fresh-congr : (a b : List ℕ) (ns : List Node) → key a ≡ key b → Fresh a ns → Fresh b ns
unfolding same_name
Fresh-congr a b [] e f = tt
Fresh-congr a b (n ∷ ns) e f = (ap (bytes_eq (key n.name)) (sym e) ∙ f.0, Fresh-congr a b ns e f.1)

module _ (name : List ℕ) (type : ℕ) (item : List ℕ) where
  -- A new name takes a node at the end.
  pub push_into-Fresh :
      (ns : List Node)
      → Fresh name ns
      → push_into name type item ns
        ≡ (ok, ns ++ (record { name = key name; type = type; items = item ∷ [] } ∷ []))
  unfolding push_into
  push_into-Fresh [] f = refl
  push_into-Fresh (n ∷ ns) f = rw (f.0, push_into-Fresh ns f.1)

  Fresh-push_into :
      (other : List ℕ) (ns : List Node)
      → same_name name other ≡ false
      → Fresh other ns
      → Fresh other (push_into name type item ns).1
  unfolding push_into
  Fresh-push_into other [] d f = (key-same_name name other ∙ d, tt)
  Fresh-push_into other (n ∷ ns) d f = elim (Bool-cases (same_name n.name name)) [
    | inl e ↦ elim (Bool-cases (n.type == type)) [ inl t ↦ rw (e, t) f | inr t ↦ rw (e, t) f ]
    | inr e ↦ rw e (f.0, Fresh-push_into other ns d f.1)
  ]

  -- `pushNode` keeps the names apart, whatever it returns.
  pub push_into-IsWellFormed :
      (ns : List Node) → IsWellFormed ns → IsWellFormed (push_into name type item ns).1
  unfolding push_into
  push_into-IsWellFormed [] w = (record { named = key_idem name; filled = omega arith }, tt, tt)
  push_into-IsWellFormed (n ∷ ns) w = elim (Bool-cases (same_name n.name name)) [
    | inl e ↦ elim (Bool-cases (n.type == type)) [
      | inl t ↦
          rw (e, t)
            (
              record {
                named = w.0.named;
                filled = omega (arith, length-append n.items (item ∷ []));
              },
              w.1,
              w.2,
            )
      | inr t ↦ rw (e, t) w
    ]
    | inr e ↦ rw e (
      w.0,
      Fresh-push_into n.name ns (same_name_comm name n.name ∙ e) w.1,
      push_into-IsWellFormed ns w.2,
    )
  ]

-- Setting an item of the node that holds the name keeps names and counts.
pub set_item-IsWellFormed :
    (name : List ℕ) (i : ℕ) (item : List ℕ) (ns : List Node)
    → IsWellFormed ns
    → IsWellFormed (set_item name i item ns)
unfolding set_item
set_item-IsWellFormed name i item [] w = tt
set_item-IsWellFormed name i item (n ∷ ns) w = elim (Bool-cases (same_name n.name name)) [
  | inl e ↦ rw e (
    record {
      named = w.0.named;
      filled = let h : 0 < length n.items = w.0.filled in omega (arith, length-set n.items i item);
    },
    w.1,
    w.2,
  )
  | inr e ↦ rw e (w.0, Fresh-set_item n.name ns w.1, set_item-IsWellFormed name i item ns w.2)
]
  where
    Fresh-set_item :
        (other : List ℕ) (ms : List Node) → Fresh other ms → Fresh other (set_item name i item ms)
    Fresh-set_item other [] f = tt
    Fresh-set_item other (m ∷ ms) f = elim (Bool-cases (same_name m.name name)) [
      | inl e ↦ rw e f
      | inr e ↦ rw e (f.0, Fresh-set_item other ms f.1)
    ]
