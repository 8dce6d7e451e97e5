-- ===== src/Storage/Node/Closed.antt =====
-- BNode: what happens to the descriptor of a node whose reference is asked for.
use libb.Prelude.{ℕ, ◌≡◌, refl, inl, inr, Option, none, some, Bool, true, false, ◌==◌, Bool-cases}
use libb.Prelude.Threads.{update_self}
use libb.Prelude.Status.{Status, ok, is_ok}
use libb.Storage.{
  Text, World, Answer, got, refused, OpenMode, read_write, read_only, Posix, close, tick, bad_leaf,
  has_slash, is_empty, kern_dup, kern_open,
}
use libb.Storage.Entry.{is_entry_not_found}
use libb.Storage.Node.{
  BNode, no_node, unset, assign_ref, get_node_ref, compare_with, equals, assign_unless, assign,
  opened, retried, set_to_at, set_to_path,
}

close-closed :
    (c : Option ℕ) (d : ℕ) (w : World) → w.open_at d ≡ false → (close c w).open_at d ≡ false
unfolding close
close-closed none d w h = h
close-closed (some c) d w h = elim (Bool-cases (c == d)) [ inl e ↦ rw (e) refl | inr e ↦ rw (e) h ]

close_self : (d : ℕ) (w : World) → (close (some d) w).open_at d ≡ false
unfolding close
close_self d w = update_self w.open_at d false

unset-closed : (n : BNode) (d : ℕ) (w : World) → w.open_at d ≡ false → (unset n w).open_at d ≡ false
unfolding unset
unset-closed n d w h = close-closed n.fd d w h

-- POSIX: a descriptor that is not open has no copies.
pub record IsStrict (os : Posix) : Type 0 where
  pub dup_closed :
      (t : ℕ) (o : ℕ → Bool) (d : ℕ) → o d ≡ false → (s : Status) × (os.dup t o d ≡ refused s)

module _ (os : Posix) where
  -- GetNodeRef closes the descriptor of the node itself.
  pub get_node_ref_closes :
      (n : BNode) (d : ℕ) (r : Option ℕ) (w : World)
      → n.fd ≡ some d
      → (get_node_ref os n r w).1.open_at d ≡ false
  unfolding get_node_ref
  get_node_ref_closes n d r w e = rw (e) (close_self d ((assign_ref os r (some d) w).1))

  module _ (same : ℕ → Option ℕ → Option ℕ → Bool) where
    compare_with_closes :
        (m : BNode) (d : ℕ) (a : Option ℕ × World)
        → m.fd ≡ some d
        → (compare_with os same m a).1.open_at d ≡ false
    compare_with_closes m d (a, w) e =
        let (b, v) = get_node_ref os m none w in
        close-closed a d (close b (tick v))
          (close-closed b d (tick v) (get_node_ref_closes m d none w e))

    pub equals_closes :
        (n m : BNode) (d : ℕ) (w : World)
        → n.status ≡ ok
        → m.status ≡ ok
        → m.fd ≡ some d
        → (equals os same n m w).1.open_at d ≡ false
    unfolding equals get_node_ref
    equals_closes n m d w p q e = rw (p, q) (compare_with_closes m d (get_node_ref os n none w) e)

    unless_fails :
        (n m : BNode) (d : ℕ) (r : Bool × World)
        → IsStrict os
        → m.fd ≡ some d
        → r.0 ≡ false
        → r.1.open_at d ≡ false
        → (assign_unless os n m r).0 ≡ no_node
    unfolding kern_dup
    unless_fails n m d (true, w) strict e f h = absurd cc
    unless_fails n m d (false, w) strict e f h =
        let v = unset n w in
        let (s, x) = strict.dup_closed v.time v.open_at d (unset-closed n d w h) in rw (e, x) refl

    -- An assignment between two different nodes that are open leaves the target without a node.
    pub assign_fails :
        (n m : BNode) (d : ℕ) (w : World)
        → IsStrict os
        → n.status ≡ ok
        → m.status ≡ ok
        → m.fd ≡ some d
        → (equals os same n m w).0 ≡ false
        → (assign os same n m w).0 ≡ no_node
    unfolding assign
    assign_fails n m d w strict p q e f =
        unless_fails n m d (equals os same n m w) strict e f (equals_closes n m d w p q e)

-- POSIX: a relative path is looked up from a descriptor, and -1 is none.
pub record IsRelative (os : Posix) : Type 0 where
  pub openat_none :
      (t : ℕ) (o : ℕ → Bool) (p : Text) (m : OpenMode)
      → has_slash p ≡ false
      → (s : Status) × (os.openat t o none p m ≡ refused s) × (is_ok s ≡ false)

module _ (os : Posix) (rel : IsRelative os) where
  -- What an open answers without a descriptor.
  abbrev Refuses : Answer × World → Type 0
  Refuses (got d, w) = ⊥
  Refuses (refused s, w) = is_ok s ≡ false

  kern_open-Refuses :
      (p : Option Text) (m : OpenMode) (w : World) → Refuses (kern_open os none p m w)
  unfolding kern_open bad_leaf
  kern_open-Refuses none m w = refl
  kern_open-Refuses (some p) m w = elim (Bool-cases (is_empty p)) [
    | inl e ↦ rw (e) refl
    | inr e ↦ elim (Bool-cases (has_slash p)) [
      | inl h ↦ rw (e, h) refl
      | inr h ↦ let r = rel.openat_none w.time w.open_at p m h in rw (e, h, r.1) (r.2)
    ]
  ]

  opened-Refuses : (r : Answer × World) → Refuses r → is_ok (opened r).0 ≡ false
  opened-Refuses (got d, w) h = absurd h
  opened-Refuses (refused s, w) h = h

  retried-Refuses :
      (p : Option Text) (r : Answer × World) → Refuses r → is_ok (retried os none p r).0 ≡ false
  retried-Refuses p (got d, w) h = absurd h
  retried-Refuses p (refused s, w) h = elim (Bool-cases (is_entry_not_found s)) [
    | inl e ↦ rw (e) h
    | inr e ↦
        rw (e) (opened-Refuses (kern_open os none p read_only w) (kern_open-Refuses p read_only w))
  ]

  -- SetTo with a path never gives a node, whatever the path.
  pub set_to_path_fails :
      (n : BNode) (p : Option Text) (w : World) → is_ok (set_to_path os n p w).0 ≡ false
  unfolding set_to_path set_to_at
  set_to_path_fails n none w = refl
  set_to_path_fails n (some p) w =
      retried-Refuses (some p) (kern_open os none (some p) read_write (unset n w))
        (kern_open-Refuses (some p) read_write (unset n w))
