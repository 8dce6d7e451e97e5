-- ===== src/Message/Lookup/RoundTrip.antt =====
-- What is added or replaced is found again, and other fields are not disturbed.
use libb.Prelude.{
  ℕ, zero, suc, ◌≤◌, ◌<◌, ◌≡◌, refl, sym, ap, ◌∙◌, ◌≢◌, ◌⊎◌, inl, inr, List, [], ◌∷◌, ◌++◌, Option,
  none, some, Bool, true, false, if◌then◌else◌, ◌==◌, ==_self, ==_iff, ltb, arith, length,
  get_elem?, length-set, length-append, get_elem?-set_self, get_elem?-append_self,
  get_elem?-append_left, Bool-cases, ge→ltb, lt→ltb,
}
use libb.Prelude.Status.{Status, ok, no_memory, bad_type, bad_index}
use libb.Prelude.Bytes.{read_bytes}
use libb.Prelude.Int.{size_t_of, ℤ, pos}
use libb.Message.{
  Node, Message, returns, Found, found, missing, outside, node_list, same_name, any_type, item_at,
  find_in, find_data, set_item, add_data, replace_data,
}
use libb.Message.Lookup.{
  Entry, push_entry, find_entry, set_entry, fields, items_of, same_name_self, view-set_item,
  add_data_refines, find_data_refines, find_in_refines,
}

item_at-some :
    (ds : List (List ℕ)) (k : ℕ) (d : List ℕ) → get_elem? ds k ≡ some d → item_at ds k ≡ found d
unfolding item_at
item_at-some ds k d e = rw (e, item_at)

get_elem?_lt :
    {A : Type 0} (xs : List A) (k : ℕ) → k < length xs → (d : A) × (get_elem? xs k ≡ some d)
get_elem?_lt [] k h = elim h [ ]
get_elem?_lt (x ∷ xs) zero h = (x, refl)
get_elem?_lt (x ∷ xs) (suc k) h = get_elem?_lt xs k (omega arith)

get_elem?-length : {A : Type 0} (xs : List A) → get_elem? xs (length xs) ≡ none
get_elem?-length [] = refl
get_elem?-length (x ∷ xs) = get_elem?-length xs

item_at-append_left :
    (ds : List (List ℕ)) (item : List ℕ) (i : ℕ)
    → i < length ds
    → item_at (ds ++ (item ∷ [])) i ≡ item_at ds i
unfolding item_at
item_at-append_left ds item i h = rw (get_elem?-append_left ds (item ∷ []) i h, item_at)

-- A lookup at the type of the entry.
find_entry-type :
    (type : ℕ) (index : ℤ) (ds : List (List ℕ))
    → find_entry type index (some (type, ds)) ≡ (
        if ltb (length ds) (size_t_of index)
        then missing bad_index
        else item_at ds (size_t_of index))
find_entry-type type index ds = elim (Bool-cases (type == any_type)) [
  | inl t ↦ rw t
  | inr t ↦ rw (t, ==_self type)
]

find_entry-found :
    (type k : ℕ) (ds : List (List ℕ)) (d : List ℕ)
    → k ≤ length ds
    → get_elem? ds k ≡ some d
    → find_entry type (pos k) (some (type, ds)) ≡ found d
find_entry-found type k ds d h e =
    find_entry-type type (pos k) ds ∙ rw (ge→ltb (length ds) k h) (item_at-some ds k d e)

item_at-length : (ds : List (List ℕ)) → item_at ds (length ds) ≡ outside
unfolding item_at
item_at-length ds = rw (get_elem?-length ds, item_at)

push_entry-find :
    (type : ℕ) (item : List ℕ) (o : Option Entry)
    → (push_entry type item o).0 ≡ ok
    → find_entry type (pos (length (items_of o))) (push_entry type item o).1 ≡ found item
push_entry-find type item none h = find_entry-found type 0 (item ∷ []) item (omega arith) refl
push_entry-find type item (some (t, ds)) h = elim (Bool-cases (t == type)) [
  | inl e ↦
      rw (e, (==_iff t type).0 e)
        (find_entry-found type (length ds) (ds ++ (item ∷ [])) item
          (omega (arith, length-append ds (item ∷ []))) (get_elem?-append_self ds item))
  | inr e ↦ let h' : bad_type ≡ ok = rw e at h in cc
]

push_entry-earlier :
    (type t i : ℕ) (item : List ℕ) (o : Option Entry)
    → i < length (items_of o)
    → find_entry t (pos i) (push_entry type item o).1 ≡ find_entry t (pos i) o
push_entry-earlier type t i item none h = elim h [ ]
push_entry-earlier type t i item (some (t', ds)) h = elim (Bool-cases (t' == type)) [
  | inl e ↦ rw (
    e,
    ge→ltb (length ds) i (omega arith),
    ge→ltb (length (ds ++ (item ∷ []))) i (omega (arith, length-append ds (item ∷ []))),
    item_at-append_left ds item i h,
  )
  | inr e ↦ rw e
]

no_memory-ne-ok : no_memory ≢ ok
no_memory-ne-ok e = cc

-- The parts of a call of AddData that returns B_OK.
record Added (alloc : ℕ → Bool) (name : List ℕ) (type : ℕ) (item : List ℕ) (m m' : Message)
    : Type 0 where
  accepted : (push_entry type item (fields m name)).0 ≡ ok
  updated :
      (other : List ℕ)
      → fields m' other ≡ (
          if same_name other name then (push_entry type item (fields m name)).1 else fields m other)

returns_inj : {s t : Status} {m m' : Message} → returns s m ≡ returns t m' → (s ≡ t) × (m ≡ m')
returns_inj h = (cc, cc)

add_data_denied :
    (alloc : ℕ → Bool) (name : List ℕ) (type size : ℕ) (mem : List ℕ) (m : Message)
    → alloc size ≡ false
    → add_data alloc name type size mem m ≡ returns no_memory m
unfolding add_data
add_data_denied alloc name type size mem m a = rw a

add_data-Added :
    (alloc : ℕ → Bool) (name : List ℕ) (type size : ℕ) (mem item rest : List ℕ) (m m' : Message)
    → read_bytes size mem ≡ some (item, rest)
    → add_data alloc name type size mem m ≡ returns ok m'
    → Added alloc name type item m m'
add_data-Added alloc name type size mem item rest m m' r h = elim (Bool-cases (alloc size)) [
  | inl a ↦
      let (m2, e, f, w) = add_data_refines alloc name type size mem m item rest a r in
      let (s, q) = returns_inj (sym e ∙ h) in
      record { accepted = s; updated = λ other. ap (λ x. fields x other) (sym q) ∙ f other }
  | inr a ↦
      let e = returns_inj (sym (add_data_denied alloc name type size mem m a) ∙ h) in
      absurd (no_memory-ne-ok e.0)
]

-- The entry of the name after a successful AddData.
Added-here :
    {alloc : ℕ → Bool} {name : List ℕ} {type : ℕ} {item : List ℕ} {m m' : Message}
    → Added alloc name type item m m'
    → fields m' name ≡ (push_entry type item (fields m name)).1
Added-here {name = name} added = rw (added.updated name, same_name_self name)

module _ (alloc : ℕ → Bool) (name : List ℕ) (type size : ℕ) (mem item rest : List ℕ)
    (m m' : Message) (r : read_bytes size mem ≡ some (item, rest))
    (h : add_data alloc name type size mem m ≡ returns ok m') where
  -- After AddData returns B_OK, FindData at the number of items that the name had before gives the
  -- bytes that were added.
  pub find_data-add_data :
      find_data (some name) type (pos (length (items_of (fields m name)))) true true m' ≡ found item
  find_data-add_data =
      let added = add_data-Added alloc name type size mem item rest m m' r h in
      rw
        (find_data_refines name type (pos (length (items_of (fields m name)))) m', Added-here added)
        (push_entry-find type item (fields m name) added.accepted)

  -- After AddData returns B_OK, FindData of the same name at a smaller index than the number of items
  -- before, at any type, answers as before.
  pub find_data-add_data_earlier :
      (t i : ℕ)
      → i < length (items_of (fields m name))
      → find_data (some name) t (pos i) true true m' ≡ find_data (some name) t (pos i) true true m
  find_data-add_data_earlier t i lt =
      let added = add_data-Added alloc name type size mem item rest m m' r h in
      rw (find_data_refines name t (pos i) m', find_data_refines name t (pos i) m, Added-here added)
        (push_entry-earlier type t i item (fields m name) lt)

  -- After AddData returns B_OK, FindData of any other name answers as before, at any type and index.
  pub find_data-add_data_other :
      (other : List ℕ) (t : ℕ) (i : ℤ)
      → same_name other name ≡ false
      → find_data (some other) t i true true m' ≡ find_data (some other) t i true true m
  find_data-add_data_other other t i ne =
      let added = add_data-Added alloc name type size mem item rest m m' r h in
      rw (find_data_refines other t i m', find_data_refines other t i m, added.updated other, ne)

lt_cases : (a b : ℕ) → (a < b) ⊎ ((a ≡ b) ⊎ (b < a))
lt_cases a b = omega arith

-- FindData for a name that holds `ds` under that type: below the number of items it gives the item,
-- at the number itself it reads past the end of the vector, and above it the status is B_BAD_INDEX.
pub find_data_range :
    (name : List ℕ) (type : ℕ) (ds : List (List ℕ)) (m : Message) (k : ℕ)
    → fields m name ≡ some (type, ds)
    → ((d : List ℕ) × (k < length ds)
        × (get_elem? ds k ≡ some d)
        × (find_data (some name) type (pos k) true true m ≡ found d))
      ⊎ (((k ≡ length ds) × (find_data (some name) type (pos k) true true m ≡ outside))
          ⊎ ((length ds < k)
              × (find_data (some name) type (pos k) true true m ≡ missing bad_index)))
find_data_range name type ds m k e = elim (lt_cases k (length ds)) [
  | inl lt ↦
      let (d, q) = get_elem?_lt ds k lt in
      inl (
        d,
        lt,
        q,
        rw (find_data_refines name type (pos k) m, e)
            (find_entry-found type k ds d (omega arith) q),
      )
  | inr (inl eq) ↦ inr (
      inl (
        eq,
        rw (find_data_refines name type (pos k) m, e)
            (find_entry-type type (pos k) ds
              ∙ rw (ge→ltb (length ds) k (omega arith), eq) (item_at-length ds)),
      ))
  | inr (inr gt) ↦ inr (
      inr (
        gt,
        rw (find_data_refines name type (pos k) m, e)
            (find_entry-type type (pos k) ds ∙ rw (lt→ltb (length ds) k gt)),
      ))
]

get_elem?_ge : {A : Type 0} (xs : List A) (k : ℕ) → length xs ≤ k → get_elem? xs k ≡ none
get_elem?_ge [] k h = refl
get_elem?_ge (x ∷ xs) zero h = elim h [ ]
get_elem?_ge (x ∷ xs) (suc k) h = get_elem?_ge xs k (omega arith)

set_entry-find :
    (type k : ℕ) (item : List ℕ) (o : Option Entry) (d : List ℕ)
    → find_entry type (pos k) o ≡ found d
    → find_entry type (pos k) (set_entry k item o) ≡ found item
unfolding item_at
set_entry-find type k item none d h = cc
set_entry-find type k item (some (t, ds)) d h =
    ground (arith, length-set ds k item, get_elem?-set_self ds k item, get_elem?_ge ds k)

pub Found-cases :
    (f : Found)
    → ((d : List ℕ) × (f ≡ found d)) ⊎ (((s : Status) × (f ≡ missing s)) ⊎ (f ≡ outside))
Found-cases (found d) = inl (d, refl)
Found-cases (missing s) = inr (inl (s, refl))
Found-cases outside = inr (inr refl)

find_in-ne-missing_ok :
    (name : List ℕ) (type : ℕ) (index : ℤ) (ns : List Node)
    → find_in name type index ns ≢ missing ok
unfolding find_in item_at
find_in-ne-missing_ok name type index [] h = cc
find_in-ne-missing_ok name type index (n ∷ ns) h =
    ground (arith, find_in-ne-missing_ok name type index ns)

-- What a successful ReplaceData has done.
replace_data-inv :
    (alloc : ℕ → Bool) (name : List ℕ) (type size : ℕ) (index : ℤ) (mem item rest : List ℕ)
    (m m' : Message)
    → read_bytes size mem ≡ some (item, rest)
    → replace_data alloc (some name) type index size mem m ≡ returns ok m'
    → (d : List ℕ) × (find_in name type index (node_list m.nodes) ≡ found d)
      × (m'.nodes ≡ some (set_item name (size_t_of index) item (node_list m.nodes)))
unfolding replace_data
replace_data-inv alloc name type size index mem item rest m m' r h =
    elim (Found-cases (find_in name type index (node_list m.nodes))) [
      | inl (d, e) ↦ (d, e, ground (arith, e, r))
      | inr (inl (s, e)) ↦
          absurd (ground (arith, e, find_in-ne-missing_ok name type index (node_list m.nodes)))
      | inr (inr e) ↦ absurd (ground (arith, e))
    ]

module _ (alloc : ℕ → Bool) (name : List ℕ) (type size k : ℕ) (mem item rest : List ℕ)
    (m m' : Message) (r : read_bytes size mem ≡ some (item, rest))
    (h : replace_data alloc (some name) type (pos k) size mem m ≡ returns ok m') where
  replaced :
      (other : List ℕ)
      → fields m' other
        ≡ (if same_name other name then set_entry k item (fields m name) else fields m other)
  replaced other =
      rw ((replace_data-inv alloc name type size (pos k) mem item rest m m' r h).2)
        (view-set_item name k item (node_list m.nodes) other)

  -- After ReplaceData returns B_OK, FindData at that name, type and index gives the new bytes.
  pub find_data-replace_data : find_data (some name) type (pos k) true true m' ≡ found item
  find_data-replace_data =
      let (d, f, n) = replace_data-inv alloc name type size (pos k) mem item rest m m' r h in
      rw (find_data_refines name type (pos k) m', replaced name, same_name_self name)
        (set_entry-find type k item (fields m name) d
          (sym (find_in_refines name type (pos k) (node_list m.nodes)) ∙ f))

  -- After ReplaceData returns B_OK, FindData of any other name answers as before, at any type and index.
  pub find_data-replace_data_other :
      (other : List ℕ) (t : ℕ) (i : ℤ)
      → same_name other name ≡ false
      → find_data (some other) t i true true m' ≡ find_data (some other) t i true true m
  find_data-replace_data_other other t i ne =
      rw (find_data_refines other t i m', find_data_refines other t i m, replaced other, ne)
