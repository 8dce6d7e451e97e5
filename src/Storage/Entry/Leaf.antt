-- ===== src/Storage/Entry/Leaf.antt =====
-- BEntry::SetTo with a reference, and with a name in a directory.
use libb.Prelude.{
  ℕ, suc, ◌+◌, ◌*◌, ◌≡◌, refl, sym, ap, ◌∙◌, inl, inr, [], Option, none, some, Bool, true, false,
  ◌||◌, Bool-cases, ◌==◌, ==_iff, leb, length,
}
use libb.Prelude.Threads.{update, update_self}
use libb.Prelude.Status.{Status, bad_value}
use libb.Storage.{
  Text, dot, dot_dot, file_name_length, max_symlinks, World, got, Posix, IsFresh, close, text_eq,
  is_empty, bad_leaf, kern_open_dir,
}
use libb.Storage.Table.{Held, holds, IsReadable}
use libb.Storage.Entry.{Paths, failed, round}
use libb.Storage.Entry.Calls.{
  BEntry, blank, unset, dup_of, set_loop, set_to_at, set_to_ref, set_to_dir, set_status, resolved,
  next_turn,
}
use libb.Storage.Entry.Owner.{IsOwner, set_to_at-Owning, unset-Held}

-- The descriptor of another holder passes to the caller.
Held-taken :
    (base : ℕ → Bool) (d : ℕ) (o : ℕ → Bool)
    → Held base none o
    → base d ≡ true
    → Held (update base d false) (some d) o
Held-taken base d o h b = record {
  table = λ i. elim (Bool-cases (d == i)) [
    | inl e ↦ rw (e, h.table i, sym ((==_iff d i).0 e)) b
    | inr e ↦ rw (e) (h.table i)
  ];
  apart = update_self base d false;
}

or_false : (b : Bool) → (b || false) ≡ b
or_false true = refl
or_false false = refl

module _ (os : Posix) (fresh : IsFresh os) (read : IsReadable os) (fs : Paths) where
  -- SetTo with a reference whose name is relative takes the descriptor of the reference, which the
  -- caller holds: it is closed, or it is that of the entry, also when SetTo fails.
  pub set_to_ref_takes :
      (base : ℕ → Bool) (leaf : Text) (e : BEntry) (d : ℕ) (n : Text) (traverse : Bool) (w : World)
      → IsOwner base e w
      → base d ≡ true
      → fs.is_absolute n ≡ false
      → (x : Status × BEntry × World) × (set_to_ref os fs leaf e d n traverse w ≡ some x)
        × (x.2.open_at d ≡ holds x.1.dir_fd d)
  unfolding set_to_ref
  set_to_ref_takes base leaf e d n traverse w o b a =
      let h = Held-taken base d ((unset e w).open_at) (unset-Held os base fresh read fs e w o) b in
      let (x, r) =
        set_to_at-Owning os (update base d false) fresh read fs leaf (some d) (some n) traverse
          (unset e w) h in
      (
        x,
        rw (a) (r.0),
        (r.1).held.table d ∙ rw (update_self base d false) (or_false (holds x.1.dir_fd d)),
      )

-- A name with no slash, as `std::filesystem::path` takes it apart.
pub record IsLeaf (fs : Paths) (p : Text) : Type 0 where
  pub relative : fs.is_absolute p ≡ false
  pub no_parent : fs.parent_path p ≡ []
  pub itself : fs.filename p ≡ p
  pub filled : is_empty p ≡ false
  pub short : leb file_name_length (length p) ≡ false
  pub not_dot : text_eq p dot ≡ false
  pub not_dot_dot : text_eq p dot_dot ≡ false

module _ (os : Posix) (fs : Paths) where
  leaf_round :
      (traverse : Bool) (c : ℕ) (p leaf : Text) (limit : ℕ) (concrete : Bool) (w : World)
      → IsLeaf fs p
      → round os fs traverse (some c) (some p) leaf limit concrete w
        ≡ (failed (some c) bad_value, w)
  unfolding round kern_open_dir bad_leaf
  leaf_round traverse c p leaf limit concrete w l =
      rw
        (
          l.not_dot, l.not_dot_dot, l.no_parent, l.itself, l.filled, l.short, l.filled, l.not_dot,
          l.not_dot_dot,
        )
        refl

  leaf_loop :
      (fuel : ℕ) (traverse : Bool) (c : ℕ) (p leaf : Text) (limit : ℕ) (concrete : Bool) (w : World)
      → IsLeaf fs p
      → set_loop os fs (suc fuel) traverse (some c) (some p) leaf limit concrete w
        ≡ some (failed (some c) bad_value, w)
  unfolding set_loop
  leaf_loop fuel traverse c p leaf limit concrete w l =
      ap (next_turn (set_loop os fs fuel traverse))
        (leaf_round traverse c p leaf limit concrete w l)

  -- SetTo of a plain name in a directory gives B_BAD_VALUE, whatever the directory holds.
  pub set_to_dir-IsLeaf :
      (leaf : Text) (e : BEntry) (d : Option ℕ) (p : Text) (traverse : Bool) (w v : World) (c : ℕ)
      → IsLeaf fs p
      → dup_of os d (unset e w) ≡ (got c, v)
      → set_to_dir os fs leaf e d p traverse w
        ≡ some (bad_value, record blank { status = bad_value }, close (some c) v)
  unfolding set_to_dir set_to_at
  set_to_dir-IsLeaf leaf e d p traverse w v c l q =
      rw (l.filled, l.relative, q)
        (ap (λ o. set_status (resolved os blank o))
          (leaf_loop (2 * max_symlinks + 1) traverse c p leaf max_symlinks false v l))
