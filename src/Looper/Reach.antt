-- ===== src/Looper/Reach.antt =====
-- BLooper and BHandler: the states that the calls can reach.
use mathlib.Core.Path.{subst}
use libb.Prelude.{
  ℕ, ◌≡◌, refl, sym, ap, ◌∙◌, inl, inr, List, [], Option, none, some, Bool, true, false, not, ◌&&◌,
  if◌then◌else◌, ◌==◌, arith, Bool-cases, ==_iff,
}
use libb.Prelude.Int.{pos, leb_ℤ}
use libb.Prelude.Threads.{update}
use libb.BList.{add_item, remove_item, index_of}
use libb.Looper.{
  World, and_then, cleared, locked_again, end_looper, is_locked, points_to, set_looper,
  set_next_handler, add_with, add_handler, forget_preferred, drop_member, remove_member,
  remove_handler, set_preferred_handler, release_all, new_handler, new_looper, delete_looper,
}
use libb.Looper.Members.{
  IsValid, occurs, Yields, Agrees, Released, bit, Agrees-IsValid, added-member, added-chosen,
  removed-member, removed-chosen, Yields-and_then, Yields-mono, set_next_handler-Agrees,
  release_all-Released,
}

-- A call that the program survives. A handler is destroyed while it has no looper; so no list has it then,
-- nor a new object at its address, where the members are as they were. Locks and the loop's thread
-- change as they like.
pub data Step (w : World) : World → Type 0 where
  construct :
      (l : ℕ) {v : World}
      → w.handlers l ≡ []
      → w.looper_of l ≡ none
      → new_looper l w ≡ some v
      → Step w v
  construct_handler : (h : ℕ) → w.handlers h ≡ [] → w.looper_of h ≡ none → Step w (new_handler h w)
  destroy_handler : (h : ℕ) → w.handlers h ≡ [] → w.looper_of h ≡ none → Step w w
  destroy : (l : ℕ) {v : World} → delete_looper l w ≡ some v → Step w v
  add : (l : ℕ) (h : Option ℕ) {v : World} → add_handler l h w ≡ some v → Step w v
  remove : (l : ℕ) (h : Option ℕ) {r : Bool × World} → remove_handler l h w ≡ some r → Step w r.1
  prefer : (l : ℕ) (h : Option ℕ) {v : World} → set_preferred_handler l h w ≡ some v → Step w v
  link : (h : ℕ) (n : Option ℕ) {v : World} → set_next_handler h n w ≡ some v → Step w v
  lock : (f : ℕ → ℕ) → Step w (record w { locks = f })
  run : (r t : ℕ → Bool) → Step w (record w { run_called = r; terminating = t })

-- No looper, and every handler without one.
abbrev pub nothing : World
nothing = record {
  looper_of = λ h. none;
  next_of = λ h. none;
  handlers = λ l. [];
  preferred = λ l. none;
  locks = λ l. 0;
  run_called = λ l. false;
  terminating = λ l. false;
}

pub data Reach : World → Type 0 where
  fresh : Reach nothing
  next : {w v : World} → Reach w → Step w v → Reach v

Yields-some {ℓ} :
    {A : Type ℓ} (P : A → Type 0) (o : Option A) (a : A) → o ≡ some a → Yields P o → P a
Yields-some P o a e y = subst (Yields P) e y

module _ (w : World) (i : IsValid w) where
  -- Fields that hold the same.
  same_fields :
      (v : World)
      → ((l : ℕ) → v.handlers l ≡ w.handlers l)
      → ((h : ℕ) → v.looper_of h ≡ w.looper_of h)
      → ((l : ℕ) → v.preferred l ≡ w.preferred l)
      → IsValid v
  same_fields v a b c = record {
    member = λ l h. rw (a l, b h) (i.member l h);
    chosen = λ l h e. rw (b h) (i.chosen l h (sym (c l) ∙ e));
  }

  add_with-IsValid :
      (l h : ℕ) (k : Option ℕ) → w.looper_of h ≡ k → Yields IsValid (add_with l h k w)
  unfolding add_item
  add_with-IsValid l h (some k) e = i
  add_with-IsValid l h none e =
      let v =
        set_looper h (some l)
          (record w { handlers = update w.handlers l (add_item h (w.handlers l)).1 }) in
      let j : IsValid v = record {
        member = λ l' h'. added-member w.looper_of w.handlers l h l' h' e (i.member l' h');
        chosen = λ l' h' q. added-chosen w.looper_of l h l' h' e (i.chosen l' h' q);
      } in
      Yields-mono (Agrees v) IsValid (set_next_handler h (some l) v) (λ u a. Agrees-IsValid v u a j)
        (set_next_handler-Agrees h (some l) v)

  add_handler-IsValid : (l : ℕ) (h : Option ℕ) → Yields IsValid (add_handler l h w)
  unfolding add_handler
  add_handler-IsValid l none = i
  add_handler-IsValid l (some h) = elim (Bool-cases (is_locked l w)) [
    | inl e ↦ rw (e) (add_with-IsValid l h (w.looper_of h) refl)
    | inr e ↦ rw (e) tt
  ]

  -- What `RemoveHandler` leaves, with its test of the preferred handler.
  abbrev without : ℕ → ℕ → World
  without l h =
      forget_preferred l h
        (record w { handlers = update w.handlers l (remove_item h (w.handlers l)).1 })

  drop_member-IsValid :
      (l h : ℕ)
      → points_to (w.looper_of h) l ≡ true
      → (remove_item h (w.handlers l)).0 ≡ true
      → Yields IsValid (drop_member l h (remove_item h (w.handlers l)).1 w)
  drop_member-IsValid l h o r =
      Yields-and_then (Agrees (without l h)) IsValid (set_next_handler h none (without l h))
        (λ w1. some (set_looper h none w1)) (set_next_handler-Agrees h none (without l h))
        (λ w1 a. record {
          member = λ l' h'.
              rw (a.1, a.0) (removed-member w.looper_of w.handlers l h l' h' o r (i.member l' h'));
          chosen = λ l' h' e. rw (a.0) (
              removed-chosen w.looper_of w.preferred l h l' h' o (i.chosen l' h')
                (ap (λ (f : ℕ → Option ℕ). f l') (sym a.2) ∙ e));
        })

  remove_member-IsValid :
      (l h : ℕ) → Yields (λ (r : Bool × World). IsValid r.1) (remove_member l h w)
  remove_member-IsValid l h = elim (Bool-cases (points_to (w.looper_of h) l)) [
    | inr e ↦ rw (e) i
    | inl e ↦ elim (Bool-cases (remove_item h (w.handlers l)).0) [
      | inr r ↦ rw (e, r) i
      | inl r ↦
          rw (e, r)
            (Yields-and_then IsValid (λ (q : Bool × World). IsValid q.1)
              (drop_member l h (remove_item h (w.handlers l)).1 w) (λ w1. some (true, w1))
              (drop_member-IsValid l h e r) (λ w1 j. j))
    ]
  ]

  remove_handler-IsValid :
      (l : ℕ) (h : Option ℕ) → Yields (λ (r : Bool × World). IsValid r.1) (remove_handler l h w)
  unfolding remove_handler
  remove_handler-IsValid l none = i
  remove_handler-IsValid l (some h) = elim (Bool-cases (is_locked l w)) [
    | inl e ↦ rw (e) (remove_member-IsValid l h)
    | inr e ↦ rw (e) tt
  ]

  -- The preferred handler of one looper is set to one of its handlers, or to none.
  preferred-IsValid :
      (l : ℕ) (p : Option ℕ)
      → ((h : ℕ) → p ≡ some h → points_to (w.looper_of h) l ≡ true)
      → IsValid (record w { preferred = update w.preferred l p })
  preferred-IsValid l p f = record {
    member = i.member;
    chosen = λ l' h e. ground (arith, f h, i.chosen l' h);
  }

  set_preferred_handler-IsValid :
      (l : ℕ) (h : Option ℕ) → Yields IsValid (set_preferred_handler l h w)
  unfolding set_preferred_handler
  set_preferred_handler-IsValid l none = preferred-IsValid l none (λ h e. ground (arith, e))
  set_preferred_handler-IsValid l (some h) = elim (Bool-cases (points_to (w.looper_of h) l)) [
    | inr e ↦ rw (e) (preferred-IsValid l none (λ h' q. ground (arith, q)))
    | inl e ↦ elim (Bool-cases (is_locked l w)) [
      | inr k ↦ rw (e, k) tt
      | inl k ↦
          rw (e, k)
            (preferred-IsValid l
              (if leb_ℤ (pos 0) (index_of h (w.handlers l)) then some h else none)
              (λ h' q. ground arith))
    ]
  ]

cleared-member :
    (lo : ℕ → Option ℕ) (hs : ℕ → List ℕ) (l l' h : ℕ)
    → hs l ≡ []
    → lo l ≡ none
    → occurs h (hs l') ≡ bit (points_to (lo h) l')
    → occurs h (update hs l [] l') ≡ bit (points_to (update lo l none h) l')
unfolding occurs
cleared-member lo hs l l' h e o i = ground arith

cleared-chosen :
    (lo pr : ℕ → Option ℕ) (l l' h : ℕ)
    → lo l ≡ none
    → (pr l' ≡ some h → points_to (lo h) l' ≡ true)
    → update pr l none l' ≡ some h
    → points_to (update lo l none h) l' ≡ true
cleared-chosen lo pr l l' h o i e = ground arith

construct-IsValid :
    (w : World) (l : ℕ)
    → IsValid w
    → w.handlers l ≡ []
    → w.looper_of l ≡ none
    → Yields IsValid (new_looper l w)
unfolding new_looper
construct-IsValid w l i e o =
    let j : IsValid (cleared l w) = record {
      member = λ l' h. cleared-member w.looper_of w.handlers l l' h e o (i.member l' h);
      chosen = λ l' h q. cleared-chosen w.looper_of w.preferred l l' h o (i.chosen l' h) q;
    } in
    add_handler-IsValid (cleared l w) j l (some l)

ended-member :
    (lo lo' : ℕ → Option ℕ) (hs : ℕ → List ℕ) (l l' h : ℕ)
    → lo' h ≡ (if occurs h (hs l) == 0 then lo h else none)
    → occurs h (hs l) ≡ bit (points_to (lo h) l)
    → occurs h (hs l') ≡ bit (points_to (lo h) l')
    → occurs h (update hs l [] l') ≡ bit (points_to (lo' h) l')
unfolding occurs
ended-member lo lo' hs l l' h e i j = ground arith

ended-chosen :
    (lo lo' pr : ℕ → Option ℕ) (hs : ℕ → List ℕ) (l l' h : ℕ)
    → lo' h ≡ (if occurs h (hs l) == 0 then lo h else none)
    → occurs h (hs l) ≡ bit (points_to (lo h) l)
    → (pr l' ≡ some h → points_to (lo h) l' ≡ true)
    → update pr l none l' ≡ some h
    → points_to (lo' h) l' ≡ true
ended-chosen lo lo' pr hs l l' h e i j q = ground arith

end_looper-IsValid :
    (l : ℕ) (w v : World) → IsValid w → Released (w.handlers l) w v → IsValid (end_looper l v)
end_looper-IsValid l w v i (a, b, c) = record {
  member = λ l' h.
      rw (a) (
        ended-member w.looper_of v.looper_of w.handlers l l' h (c h) (i.member l h)
          (i.member l' h));
  chosen = λ l' h q.
      ended-chosen w.looper_of v.looper_of w.preferred w.handlers l l' h (c h) (i.member l h)
        (i.chosen l' h) (ap (λ (f : ℕ → Option ℕ). update f l none l') (sym b) ∙ q);
}

destroy-IsValid : (w : World) (l : ℕ) → IsValid w → Yields IsValid (delete_looper l w)
unfolding delete_looper
destroy-IsValid w l i = elim (Bool-cases (w.run_called l && not (w.terminating l))) [
  | inl e ↦ rw (e) tt
  | inr e ↦
      let j = same_fields w i (locked_again l w) (λ k. refl) (λ k. refl) (λ k. refl) in
      rw (e) (
        Yields-and_then (λ (r : Bool × World). IsValid r.1) IsValid
          (remove_handler l (some l) (locked_again l w))
          (λ r. and_then (release_all (r.1.handlers l) r.1) (λ w2. some (end_looper l w2)))
          (remove_handler-IsValid (locked_again l w) j l (some l))
          (λ r v.
            Yields-and_then (Released (r.1.handlers l) r.1) IsValid
              (release_all (r.1.handlers l) r.1) (λ w2. some (end_looper l w2))
              (release_all-Released (r.1.handlers l) r.1)
              (λ w2 q. end_looper-IsValid l r.1 w2 v q)))
]

new_handler-same : (lo : ℕ → Option ℕ) (h k : ℕ) → lo h ≡ none → update lo h none k ≡ lo k
new_handler-same lo h k e = elim (Bool-cases (h == k)) [
  | inl q ↦ rw (q) (sym e ∙ ap lo ((==_iff h k).0 q))
  | inr q ↦ rw (q) refl
]

step-IsValid : (w v : World) → IsValid w → Step w v → IsValid v
step-IsValid w v i (construct l e o q) =
    Yields-some IsValid (new_looper l w) v q (construct-IsValid w l i e o)
step-IsValid w _ i (construct_handler h e o) =
    same_fields w i (new_handler h w) (λ l. refl) (λ k. new_handler-same w.looper_of h k o)
      (λ l. refl)
step-IsValid w _ i (destroy_handler h e o) = i
step-IsValid w v i (destroy l q) =
    Yields-some IsValid (delete_looper l w) v q (destroy-IsValid w l i)
step-IsValid w v i (add l h q) =
    Yields-some IsValid (add_handler l h w) v q (add_handler-IsValid w i l h)
step-IsValid w _ i (remove l h {r} q) =
    Yields-some (λ (r : Bool × World). IsValid r.1) (remove_handler l h w) r q
      (remove_handler-IsValid w i l h)
step-IsValid w v i (prefer l h q) =
    Yields-some IsValid (set_preferred_handler l h w) v q (set_preferred_handler-IsValid w i l h)
step-IsValid w v i (link h n q) =
    Agrees-IsValid w v
      (Yields-some (Agrees w) (set_next_handler h n w) v q (set_next_handler-Agrees h n w)) i
step-IsValid w _ i (lock f) =
    same_fields w i (record w { locks = f }) (λ k. refl) (λ k. refl) (λ k. refl)
step-IsValid w _ i (run r t) =
    same_fields w i (record w { run_called = r; terminating = t }) (λ k. refl) (λ k. refl)
      (λ k. refl)

-- In every state that calls of the constructor, the destructor, AddHandler, RemoveHandler,
-- SetPreferredHandler and SetNextHandler can reach, with any locking, a handler stands once in the
-- list of its looper and in no other list, and the preferred handler of a looper is one of its own.
pub Reach-IsValid : {w : World} → Reach w → IsValid w
unfolding occurs
Reach-IsValid fresh = record { member = λ l h. refl; chosen = λ l h e. ground (arith, e) }
Reach-IsValid (next {w} {v} r s) = step-IsValid w v (Reach-IsValid r) s
