-- ===== src/Storage/Entry/Resolve.antt =====
-- BEntry::_SetTo: every turn of the loop holds one descriptor at most besides those of the others.
use mathlib.Core.Path.{subst}
use libb.Prelude.{
  ℕ, zero, suc, ◌+◌, ◌*◌, ◌<◌, ◌≤◌, arith, ◌≡◌, sym, inl, inr, Option, none, some, Bool, true,
  false, not, ◌&&◌, ◌||◌, Bool-cases,
}
use libb.Prelude.Status.{is_ok}
use libb.Storage.{
  Text, dot, dot_dot, World, Answer, got, refused, Stat, link, other, no_stat, Target, target,
  no_target, Posix, IsFresh, tick, close, text_eq, is_empty, kern_open_dir, kern_open_parent_dir,
  kern_read_stat, kern_read_link,
}
use libb.Storage.Table.{
  Held, Held-got, Held-refused, Opens, IsReadable, kern_open_dir-Opens, kern_open_parent_dir-Opens,
  kern_read_stat_table, kern_read_link_table,
}
use libb.Storage.Entry.{
  Paths, Round, found, failed, again, at_parent, from_current, round_dot, above, link_to,
  follow_link, is_entry_not_found, follow_stat, follow, in_current, in_directory, round_leaf,
  reopened, in_parent, round_parts, leaf_of, parse_path, round, check_entry_name,
}

-- How many turns may follow.
abbrev pub rank : Option Text → ℕ → ℕ
rank none limit = 2 * limit
rank (some p) limit = 2 * limit + 1

-- What a turn holds besides `base`, and that another turn lowers the rank below `k`.
abbrev pub Keeps : (ℕ → Bool) → ℕ → Round × World → Type 0
Keeps base k (found c leaf, w) = Held base (some c) w.open_at
Keeps base k (failed cur s, w) = Held base cur w.open_at
Keeps base k (again cur p leaf limit concrete, w) = Held base cur w.open_at × (rank p limit < k)

module _ (os : Posix) (base : ℕ → Bool) (k : ℕ) where
  at_parent-Keeps :
      (cur : Option ℕ) (w : World) (r : Answer × Text × World)
      → Held base cur w.open_at
      → Opens w (r.0, r.2)
      → Keeps base k (at_parent os cur r)
  at_parent-Keeps cur w (refused s, leaf, v) h o = Held-refused base cur s w v h o
  at_parent-Keeps cur w (got n, leaf, v) h o = Held-got base cur n w v h o

  link_to-Keeps :
      (c : ℕ) (leaf : Text) (limit : ℕ) (w : World) (r : Target × World)
      → 2 * suc limit < k
      → Held base (some c) w.open_at
      → r.1.open_at ≡ w.open_at
      → Keeps base k (link_to os c leaf limit r)
  link_to-Keeps c leaf limit w (no_target s, v) q h e = subst (Held base (some c)) (sym e) h
  link_to-Keeps c leaf limit w (target p, v) q h e =
      (subst (Held base (some c)) (sym e) h, omega arith)

  follow_link-Keeps :
      (c : ℕ) (leaf : Text) (limit : ℕ) (w : World)
      → 2 * limit < k
      → Held base (some c) w.open_at
      → Keeps base k (follow_link os c leaf limit w)
  follow_link-Keeps c leaf zero w q h = h
  follow_link-Keeps c leaf (suc limit) w q h =
      link_to-Keeps c leaf limit w (kern_read_link os (some c) leaf w) q h
        (kern_read_link_table os (some c) leaf w)

  follow_stat-Keeps :
      (c : ℕ) (leaf : Text) (limit : ℕ) (concrete : Bool) (w : World) (r : Stat × World)
      → 2 * limit < k
      → Held base (some c) w.open_at
      → r.1.open_at ≡ w.open_at
      → Keeps base k (follow_stat os c leaf limit concrete r)
  follow_stat-Keeps c leaf limit concrete w (no_stat s, v) q h e =
      elim (Bool-cases (is_entry_not_found s && not concrete)) [
        | inl b ↦ rw (b) (subst (Held base (some c)) (sym e) h)
        | inr b ↦ rw (b) (subst (Held base (some c)) (sym e) h)
      ]
  follow_stat-Keeps c leaf limit concrete w (other, v) q h e = subst (Held base (some c)) (sym e) h
  follow_stat-Keeps c leaf limit concrete w (link, v) q h e =
      follow_link-Keeps c leaf limit v q (subst (Held base (some c)) (sym e) h)

  follow-Keeps :
      (traverse : Bool) (c : ℕ) (leaf : Text) (limit : ℕ) (concrete : Bool) (w : World)
      → 2 * limit < k
      → Held base (some c) w.open_at
      → Keeps base k (follow os traverse c leaf limit concrete w)
  follow-Keeps false c leaf limit concrete w q h = h
  follow-Keeps true c leaf limit concrete w q h =
      follow_stat-Keeps c leaf limit concrete w (kern_read_stat os (some c) leaf w) q h
        (kern_read_stat_table os (some c) leaf w)

  module _ (fresh : IsFresh os) (read : IsReadable os) where
    parent-Keeps :
        (cur : Option ℕ) (d : Option ℕ) (leaf : Text) (w : World)
        → Held base cur w.open_at
        → Keeps base k (at_parent os cur (kern_open_parent_dir os d leaf w))
    parent-Keeps cur d leaf w h =
        at_parent-Keeps cur w (kern_open_parent_dir os d leaf w) h
          (kern_open_parent_dir-Opens os fresh d leaf w read)

    from_current-Keeps :
        (leaf : Text) (w : World) (r : Answer × World)
        → Held base none w.open_at
        → Opens w r
        → Keeps base k (from_current os leaf r)
    unfolding close
    from_current-Keeps leaf w (refused s, v) h o = Held-refused base none s w v h o
    from_current-Keeps leaf w (got n, v) h o =
        parent-Keeps (some n) (some n) leaf v (Held-got base none n w v h o)

    round_dot-Keeps :
        (cur : Option ℕ) (leaf : Text) (w : World)
        → Held base cur w.open_at
        → Keeps base k (round_dot os cur leaf w)
    round_dot-Keeps none leaf w h =
        from_current-Keeps leaf w (kern_open_dir os none dot w) h
          (kern_open_dir-Opens os fresh none dot w)
    round_dot-Keeps (some c) leaf w h = parent-Keeps (some c) (some c) leaf w h

    above-Keeps :
        (cur : Option ℕ) (leaf : Text) (w : World) (r : Answer × World)
        → Held base cur w.open_at
        → Opens w r
        → Keeps base k (above os cur leaf r)
    above-Keeps cur leaf w (refused s, v) h o = Held-refused base cur s w v h o
    above-Keeps cur leaf w (got n, v) h o =
        parent-Keeps (some n) (some n) leaf (close cur v) (Held-got base cur n w v h o)

    in_current-Keeps :
        (traverse : Bool) (leaf : Text) (limit : ℕ) (concrete : Bool) (w : World)
        (r : Answer × World)
        → 2 * limit < k
        → Held base none w.open_at
        → Opens w r
        → Keeps base k (in_current os traverse leaf limit concrete r)
    unfolding close
    in_current-Keeps traverse leaf limit concrete w (refused s, v) q h o =
        Held-refused base none s w v h o
    in_current-Keeps traverse leaf limit concrete w (got n, v) q h o =
        follow-Keeps traverse n leaf limit concrete v q (Held-got base none n w v h o)

    round_leaf-Keeps :
        (traverse : Bool) (cur : Option ℕ) (leaf : Text) (limit : ℕ) (concrete : Bool) (w : World)
        → 2 * limit < k
        → Held base cur w.open_at
        → Keeps base k (round_leaf os traverse cur leaf limit concrete w)
    round_leaf-Keeps traverse (some c) leaf limit concrete w q h =
        follow-Keeps traverse c leaf limit concrete w q h
    round_leaf-Keeps traverse none leaf limit concrete w q h = in_directory-Keeps (os.getcwd w.time)
      where
        in_directory-Keeps :
            (cwd : Option Text)
            → Keeps base k (in_directory os traverse leaf limit concrete cwd (tick w))
        in_directory-Keeps none = h
        in_directory-Keeps (some d) =
            in_current-Keeps traverse leaf limit concrete (tick w)
              (kern_open_dir os none d (tick w)) q h (kern_open_dir-Opens os fresh none d (tick w))

    reopened-Keeps :
        (cur : Option ℕ) (leaf : Text) (limit : ℕ) (concrete : Bool) (w : World)
        (r : Answer × World)
        → 2 * limit < k
        → Held base cur w.open_at
        → Opens w r
        → Keeps base k (reopened os cur leaf limit concrete r)
    reopened-Keeps cur leaf limit concrete w (refused s, v) q h o = Held-refused base cur s w v h o
    reopened-Keeps cur leaf limit concrete w (got n, v) q h o = (Held-got base cur n w v h o, q)

    in_parent-Keeps :
        (traverse : Bool) (cur : Option ℕ) (leaf : Text) (limit : ℕ) (concrete : Bool) (w : World)
        (r : Answer × World)
        → 2 * limit < k
        → Held base cur w.open_at
        → Opens w r
        → Keeps base k (in_parent os traverse cur leaf limit concrete r)
    in_parent-Keeps traverse cur leaf limit concrete w (refused s, v) q h o =
        Held-refused base cur s w v h o
    in_parent-Keeps traverse cur leaf limit concrete w (got n, v) q h o =
        follow-Keeps traverse n leaf limit concrete (close cur v) q (Held-got base cur n w v h o)

    module _ (fs : Paths) where
      round_parts-Keeps :
          (traverse : Bool) (cur : Option ℕ) (p dir leaf : Text) (limit : ℕ) (concrete : Bool)
          (w : World)
          → 2 * limit < k
          → Held base cur w.open_at
          → Keeps base k (round_parts os traverse cur p dir leaf limit concrete w)
      round_parts-Keeps traverse cur p dir leaf limit concrete w q h =
          elim (Bool-cases (is_empty leaf)) [
            | inl e ↦ elim (Bool-cases (is_ok (check_entry_name (some dir)))) [
              | inl m ↦ rw (e, m) (round_leaf-Keeps traverse cur dir limit concrete w q h)
              | inr m ↦ rw (e, m) h
            ]
            | inr e ↦ elim (Bool-cases (text_eq leaf dot || text_eq leaf dot_dot)) [
              | inl m ↦
                  rw (e, m)
                    (reopened-Keeps cur leaf limit concrete w (kern_open_dir os none p w) q h
                      (kern_open_dir-Opens os fresh none p w))
              | inr m ↦
                  rw (e, m)
                    (in_parent-Keeps traverse cur leaf limit concrete w (kern_open_dir os cur dir w)
                      q h (kern_open_dir-Opens os fresh cur dir w))
            ]
          ]

      pub round-Keeps :
          (traverse : Bool) (cur : Option ℕ) (p : Option Text) (leaf : Text) (limit : ℕ)
          (concrete : Bool) (w : World)
          → rank p limit ≤ k
          → Held base cur w.open_at
          → Keeps base k (round os fs traverse cur p leaf limit concrete w)
      unfolding round
      round-Keeps traverse cur none leaf limit concrete w q h = round_dot-Keeps cur leaf w h
      round-Keeps traverse cur (some p) leaf limit concrete w q h =
          elim (Bool-cases (text_eq p dot)) [
            | inl e ↦ rw (e) (round_dot-Keeps cur leaf w h)
            | inr e ↦ elim (Bool-cases (text_eq p dot_dot)) [
              | inl m ↦
                  rw (e, m)
                    (above-Keeps cur leaf w (kern_open_dir os cur dot_dot w) h
                      (kern_open_dir-Opens os fresh cur dot_dot w))
              | inr m ↦ elim (Bool-cases (is_ok (parse_path fs p))) [
                | inl b ↦
                    rw (e, m, b)
                      (round_parts-Keeps traverse cur p (fs.parent_path p) (leaf_of fs p) limit
                        concrete w (omega arith) h)
                | inr b ↦ rw (e, m, b) h
              ]
            ]
          ]
