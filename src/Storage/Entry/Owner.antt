-- ===== src/Storage/Entry/Owner.antt =====
-- BEntry: the calls return, and an entry holds one descriptor at most, which it closes.
use mathlib.Core.Path.{subst}
use libb.Prelude.{
  ℕ, zero, suc, ◌+◌, ◌*◌, ◌<◌, ◌≤◌, arith, ◌≡◌, refl, sym, inl, inr, Option, none, some, Bool, true,
  false, Bool-cases,
}
use libb.Prelude.Status.{Status, is_ok, no_memory, bad_value}
use libb.Storage.{
  Text, max_symlinks, World, Answer, got, refused, Posix, IsFresh, tick, close, is_empty,
}
use libb.Storage.Table.{Held, Held-close, Held-got, Held-refused, Opens, IsReadable, kern_dup-Opens}
use libb.Storage.Entry.{Paths, Round, found, failed, again, round}
use libb.Storage.Entry.Calls.{
  BEntry, Result, blank, unset, next_turn, set_name, dup_of, named_at, resolved, set_status,
  set_loop, set_to_at, with_status, set_to_path, set_to_dup, set_to_dir,
}
use libb.Storage.Entry.Resolve.{Keeps, rank, round-Keeps}

-- What the last turn leaves.
abbrev pub Final : (ℕ → Bool) → Round × World → Type 0
Final base (found c leaf, w) = Held base (some c) w.open_at
Final base (failed cur s, w) = Held base cur w.open_at
Final base (again cur p leaf limit concrete, w) = ⊥

-- An entry with a descriptor has a name and B_OK.
abbrev pub HasName : Option ℕ → Option Text → Status → Type 0
HasName none n s = Unit
HasName (some c) none s = ⊥
HasName (some c) (some n) s = is_ok s ≡ true

-- Besides `base`, the table has the descriptor of the entry and no other.
pub record IsOwner (base : ℕ → Bool) (e : BEntry) (w : World) : Type 0 where
  pub held : Held base e.dir_fd w.open_at
  pub named : HasName e.dir_fd e.name e.status

-- Where a call on an entry returns.
abbrev pub Owning : (ℕ → Bool) → Status × BEntry × World → Type 0
Owning base (s, e, w) = IsOwner base e w

abbrev pub Returns : (ℕ → Bool) → Result → Type 0
Returns base r = (x : Status × BEntry × World) × ((r ≡ some x) × Owning base x)

pub blank-IsOwner :
    (base : ℕ → Bool) (s : Status) (w : World)
    → Held base none w.open_at
    → IsOwner base (record blank { status = s }) w
blank-IsOwner base s w h = record { held = h; named = tt }

rank-lt : (p : Option Text) → rank p max_symlinks < 2 * max_symlinks + 2
rank-lt none = omega arith
rank-lt (some p) = omega arith

module _ (os : Posix) (base : ℕ → Bool) where
  -- `_SetName` on the descriptor that a turn found.
  named_at-Owning :
      (c : ℕ) (leaf : Text) (w : World)
      → Held base (some c) w.open_at
      → Owning base (with_status (named_at os c (set_name os leaf blank w)))
  unfolding set_name
  named_at-Owning c leaf w h = elim (Bool-cases (os.strdup w.time)) [
    | inl b ↦ rw (b) (record { held = h; named = refl })
    | inr b ↦ rw (b) (
        blank-IsOwner base no_memory (close (some c) (tick w))
          (Held-close base (some c) (tick w) h))
  ]

  resolved-Owning :
      (r : Round × World) → Final base r → Returns base (set_status (resolved os blank (some r)))
  resolved-Owning (found c leaf, w) h =
      (with_status (named_at os c (set_name os leaf blank w)), (refl, named_at-Owning c leaf w h))
  resolved-Owning (failed cur s, w) h = (
    (s, record blank { status = s }, close cur w),
    (refl, blank-IsOwner base s (close cur w) (Held-close base cur w h)),
  )
  resolved-Owning (again cur p leaf limit concrete, w) h = absurd h

  module _ (fresh : IsFresh os) (read : IsReadable os) (fs : Paths) where
    abbrev Ends : Option (Round × World) → Type 0
    Ends o = (r : Round × World) × ((o ≡ some r) × Final base r)

    next_turn-Ends :
        (k fuel : ℕ) (traverse : Bool) (r : Round × World)
        → ((cur : Option ℕ) (p : Option Text) (leaf : Text) (limit : ℕ) (concrete : Bool)
              (w : World)
            → Held base cur w.open_at
            → rank p limit < fuel
            → Ends (set_loop os fs fuel traverse cur p leaf limit concrete w))
        → k ≤ fuel
        → Keeps base k r
        → Ends (next_turn (set_loop os fs fuel traverse) r)
    next_turn-Ends k fuel traverse (found c leaf, w) ih q h = ((found c leaf, w), (refl, h))
    next_turn-Ends k fuel traverse (failed cur s, w) ih q h = ((failed cur s, w), (refl, h))
    next_turn-Ends k fuel traverse (again cur p leaf limit concrete, w) ih q h =
        ih cur p leaf limit concrete w (h.0) (omega (arith, h.1))

    -- The loop ends within the turns that its rank allows.
    pub set_loop-Ends :
        (fuel : ℕ) (traverse : Bool) (cur : Option ℕ) (p : Option Text) (leaf : Text) (limit : ℕ)
        (concrete : Bool) (w : World)
        → Held base cur w.open_at
        → rank p limit < fuel
        → Ends (set_loop os fs fuel traverse cur p leaf limit concrete w)
    unfolding set_loop
    set_loop-Ends zero traverse cur p leaf limit concrete w h q = absurd (omega arith)
    set_loop-Ends (suc fuel) traverse cur p leaf limit concrete w h q =
        next_turn-Ends (rank p limit) fuel traverse
          (round os fs traverse cur p leaf limit concrete w) (set_loop-Ends fuel traverse)
          (omega arith)
          (round-Keeps os base (rank p limit) fresh read fs traverse cur p leaf limit concrete w
            (omega arith) h)

    pub set_to_at-Owning :
        (leaf : Text) (cur : Option ℕ) (p : Option Text) (traverse : Bool) (w : World)
        → Held base cur w.open_at
        → Returns base (set_status (set_to_at os fs leaf blank cur p traverse w))
    unfolding set_to_at
    set_to_at-Owning leaf cur p traverse w h =
        let (r, e) =
          set_loop-Ends (2 * max_symlinks + 2) traverse cur p leaf max_symlinks false w h
            (rank-lt p) in
        subst (λ o. Returns base (set_status (resolved os blank o))) (sym (e.0))
          (resolved-Owning r (e.1))

    pub unset-Held :
        (e : BEntry) (w : World) → IsOwner base e w → Held base none ((unset e w).open_at)
    unfolding unset
    unset-Held e w o = Held-close base e.dir_fd w o.held

    -- SetTo with a path returns, and leaves the entry with its own descriptor or none.
    pub set_to_path-Owning :
        (leaf : Text) (e : BEntry) (p : Option Text) (traverse : Bool) (w : World)
        → IsOwner base e w
        → Returns base (set_to_path os fs leaf e p traverse w)
    unfolding set_to_path
    set_to_path-Owning leaf e none traverse w o = (
      (bad_value, record blank { status = bad_value }, unset e w),
      (refl, blank-IsOwner base bad_value (unset e w) (unset-Held e w o)),
    )
    set_to_path-Owning leaf e (some p) traverse w o =
        set_to_at-Owning leaf none (some p) traverse (unset e w) (unset-Held e w o)

    set_to_dup-Owning :
        (leaf p : Text) (traverse : Bool) (w : World) (r : Answer × World)
        → Held base none w.open_at
        → Opens w r
        → Returns base (set_to_dup os fs leaf p traverse r)
    unfolding close
    set_to_dup-Owning leaf p traverse w (refused s, v) h o = (
      (s, record blank { status = s }, v),
      (refl, blank-IsOwner base s v (Held-refused base none s w v h o)),
    )
    set_to_dup-Owning leaf p traverse w (got d, v) h o =
        set_to_at-Owning leaf (some d) (some p) traverse v (Held-got base none d w v h o)

    pub dup_of-Opens : (d : Option ℕ) (w : World) → Opens w (dup_of os d w)
    dup_of-Opens none w = refl
    dup_of-Opens (some d) w = kern_dup-Opens os fresh d w

    pub set_to_dir-Owning :
        (leaf : Text) (e : BEntry) (d : Option ℕ) (p : Text) (traverse : Bool) (w : World)
        → is_empty p ≡ false
        → IsOwner base e w
        → Returns base (set_to_dir os fs leaf e d p traverse w)
    unfolding set_to_dir
    set_to_dir-Owning leaf e d p traverse w n o = elim (Bool-cases (fs.is_absolute p)) [
      | inl b ↦ rw (n, b) (set_to_path-Owning leaf e (some p) traverse w o)
      | inr b ↦
          rw (n, b)
            (set_to_dup-Owning leaf p traverse (unset e w) (dup_of os d (unset e w))
              (unset-Held e w o) (dup_of-Opens d (unset e w)))
    ]
