-- ===== src/Storage/Entry/Reach.antt =====
-- BEntry: over any sequence of calls an entry holds one descriptor at most, and its destruction leaves
-- none behind.
use mathlib.Core.Path.{subst}
use libb.Prelude.{ℕ, ◌≡◌, refl, sym, ◌∙◌, inl, inr, Option, none, some, Bool, false, Bool-cases}
use libb.Prelude.Status.{Status, is_ok, no_init}
use libb.Storage.{
  Text, dot, World, Answer, got, refused, Posix, IsFresh, tick, close, text_eq, is_empty,
  kern_open_parent_dir,
}
use libb.Storage.Table.{
  Held, Held-close, Held-got, Held-refused, Opens, IsReadable, kern_open_parent_dir-Opens,
}
use libb.Storage.Entry.{Paths}
use libb.Storage.Entry.Calls.{
  BEntry, blank, unset, set_name, dup_of, set_to_path, set_to_dir, parent_entry, parent_at,
  parent_named, get_parent, copy_named, copy_end, copy_at, assign,
}
use libb.Storage.Entry.Owner.{
  IsOwner, Owning, Returns, blank-IsOwner, unset-Held, dup_of-Opens, set_to_path-Owning,
  set_to_dir-Owning,
}

module _ (os : Posix) (base : ℕ → Bool) where
  copy_named-IsOwner :
      (d : ℕ) (n : Option Text) (w : World)
      → Held base (some d) w.open_at
      → (let r = copy_end (copy_named os n (record blank { dir_fd = some d }) w) in
          IsOwner base r.0 r.1)
  unfolding set_name unset
  copy_named-IsOwner d none w h =
      blank-IsOwner base no_init (close (some d) w) (Held-close base (some d) w h)
  copy_named-IsOwner d (some n) w h = elim (Bool-cases (os.strdup w.time)) [
    | inl b ↦ rw (b) (record { held = h; named = refl })
    | inr b ↦
        rw (b) (
          blank-IsOwner base no_init (close (some d) (tick w))
            (Held-close base (some d) (tick w) h))
  ]

  copy_at-IsOwner :
      (n : Option Text) (w : World) (r : Answer × World)
      → Held base none w.open_at
      → Opens w r
      → IsOwner base ((copy_at os n r).0) ((copy_at os n r).1)
  unfolding close
  copy_at-IsOwner n w (refused s, v) h o =
      blank-IsOwner base no_init v (Held-refused base none s w v h o)
  copy_at-IsOwner n w (got d, v) h o = copy_named-IsOwner d n v (Held-got base none d w v h o)

  -- The parent of an entry, put into another one.
  parent_name-Owning :
      (d : ℕ) (n : Text) (w : World)
      → Held base (some d) w.open_at
      → Owning base (parent_entry (set_name os n (record blank { dir_fd = some d }) w))
  unfolding set_name unset
  parent_name-Owning d n w h = elim (Bool-cases (os.strdup w.time)) [
    | inl b ↦ rw (b) (record { held = h; named = refl })
    | inr b ↦
        rw (b) (
          blank-IsOwner base no_init (close (some d) (tick w))
            (Held-close base (some d) (tick w) h))
  ]

  parent_at-Owning :
      (e' : BEntry) (w : World) (r : Answer × Text × World)
      → IsOwner base e' w
      → Opens w (r.0, r.2)
      → Owning base (parent_at os e' r)
  unfolding unset
  parent_at-Owning e' w (refused s, leaf, v) i o = record {
    held = Held-refused base e'.dir_fd s w v i.held o;
    named = i.named;
  }
  parent_at-Owning e' w (got n, leaf, v) i o =
      parent_name-Owning n leaf (close e'.dir_fd v) (Held-got base e'.dir_fd n w v i.held o)

  module _ (fresh : IsFresh os) (read : IsReadable os) (fs : Paths) where
    pub assign-IsOwner :
        (e item : BEntry) (w : World)
        → IsOwner base e w
        → IsOwner base ((assign os e item w).0) ((assign os e item w).1)
    unfolding assign
    assign-IsOwner e item w o = elim (Bool-cases (is_ok item.status)) [
      | inl b ↦ rw (b) (
          copy_at-IsOwner item.name (unset e w) (dup_of os item.dir_fd (unset e w))
            (unset-Held os base fresh read fs e w o)
            (dup_of-Opens os base fresh read fs item.dir_fd (unset e w)))
      | inr b ↦
          rw (b) (blank-IsOwner base no_init (unset e w) (unset-Held os base fresh read fs e w o))
    ]

    parent_named-Owning :
        (e : BEntry) (n : Option Text) (buffer : Text) (e' : BEntry) (w : World)
        → IsOwner base e' w
        → Owning base (parent_named os e n buffer e' w)
    parent_named-Owning e none buffer e' w o =
        parent_at-Owning e' w (kern_open_parent_dir os e.dir_fd buffer w) o
          (kern_open_parent_dir-Opens os fresh e.dir_fd buffer w read)
    parent_named-Owning e (some n) buffer e' w o = elim (Bool-cases (text_eq n dot)) [
      | inl b ↦ rw (b) o
      | inr b ↦ rw (b) (
          parent_at-Owning e' w (kern_open_parent_dir os e.dir_fd buffer w) o
            (kern_open_parent_dir-Opens os fresh e.dir_fd buffer w read))
    ]

    pub get_parent-Owning :
        (e : BEntry) (buffer : Text) (e' : BEntry) (w : World)
        → IsOwner base e' w
        → Owning base (get_parent os e buffer e' w)
    unfolding get_parent
    get_parent-Owning e buffer e' w o = elim (Bool-cases (is_ok e.status)) [
      | inl b ↦ rw (b) (parent_named-Owning e e.name buffer e' w o)
      | inr b ↦ rw (b) o
    ]

    -- What a program can make of an entry with the calls that set it and those that fill it.
    pub data Reach : BEntry → World → Type 0 where
      start : (w : World) → Held base none w.open_at → Reach blank w
      by_path :
          {e e' : BEntry} {w w' : World} {s : Status} (leaf : Text) (p : Option Text)
          (traverse : Bool)
          → Reach e w
          → set_to_path os fs leaf e p traverse w ≡ some (s, e', w')
          → Reach e' w'
      by_dir :
          {e e' : BEntry} {w w' : World} {s : Status} (leaf : Text) (d : Option ℕ) (p : Text)
          (traverse : Bool)
          → Reach e w
          → is_empty p ≡ false
          → set_to_dir os fs leaf e d p traverse w ≡ some (s, e', w')
          → Reach e' w'
      by_copy :
          {e : BEntry} {w : World} (item : BEntry)
          → Reach e w
          → Reach ((assign os e item w).0) ((assign os e item w).1)
      by_parent :
          {e' : BEntry} {w : World} (e : BEntry) (buffer : Text)
          → Reach e' w
          → Reach ((get_parent os e buffer e' w).1) ((get_parent os e buffer e' w).2)
      by_unset : {e : BEntry} {w : World} → Reach e w → Reach blank (unset e w)

    returned-IsOwner :
        (r : Option (Status × BEntry × World)) (s : Status) (e : BEntry) (w : World)
        → Returns base r
        → r ≡ some (s, e, w)
        → IsOwner base e w
    returned-IsOwner r s e w h q =
        let same : some (h.0) ≡ some (s, e, w) = sym (h.1.0) ∙ q in
        let x : h.0 ≡ (s, e, w) = cc in subst (Owning base) x (h.1.1)

    pub Reach-IsOwner : {e : BEntry} {w : World} → Reach e w → IsOwner base e w
    Reach-IsOwner (start w h) = blank-IsOwner base no_init w h
    Reach-IsOwner (by_path {e} {e'} {w} {w'} {s} leaf p traverse r q) =
        returned-IsOwner (set_to_path os fs leaf e p traverse w) s e' w'
          (set_to_path-Owning os base fresh read fs leaf e p traverse w (Reach-IsOwner r)) q
    Reach-IsOwner (by_dir {e} {e'} {w} {w'} {s} leaf d p traverse r n q) =
        returned-IsOwner (set_to_dir os fs leaf e d p traverse w) s e' w'
          (set_to_dir-Owning os base fresh read fs leaf e d p traverse w n (Reach-IsOwner r)) q
    Reach-IsOwner (by_copy {e} {w} item r) = assign-IsOwner e item w (Reach-IsOwner r)
    Reach-IsOwner (by_parent {e'} {w} e buffer r) =
        get_parent-Owning e buffer e' w (Reach-IsOwner r)
    Reach-IsOwner (by_unset {e} {w} r) =
        blank-IsOwner base no_init (unset e w)
          (unset-Held os base fresh read fs e w (Reach-IsOwner r))

    -- The destruction of an entry leaves the table as it was without it.
    pub Reach-unset : {e : BEntry} {w : World} (i : ℕ) → Reach e w → (unset e w).open_at i ≡ base i
    Reach-unset {e} {w} i r = (unset-Held os base fresh read fs e w (Reach-IsOwner r)).table i
