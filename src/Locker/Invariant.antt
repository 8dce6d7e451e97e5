-- ===== src/Locker/Invariant.antt =====
-- What holds of a locker in every state that its threads can reach.
use libb.Prelude.{
  ℕ, zero, suc, ◌+◌, ◌-◌, ◌^◌, ◌≤◌, ◌<◌, ◌≡◌, ◌≢◌, refl, sym, ap, ◌∙◌, ◌⊎◌, inl, inr, Option, none,
  some, Bool, true, false, if◌then◌else◌, ◌==◌, ==_self, ==_iff, ltb, arith, Bool-cases,
  Option-cases,
}
use libb.Prelude.Threads.{update, weigh, weigh-update, weigh_unique, weigh-eq-zero, weight-le-weigh}
use mathlib.Core.Path.{subst}
use libb.Locker.{
  Shared, init_locker, Phase, idle, requesting, waiting, entering, claiming, holding, clearing,
  leaving, posting, is_locked, lock_next, add_next, enter_shared, enter_next, unlock_next, sub_next,
  Move, IsOwn, IsOwnStep, IsBounded, succ_32, pred_32, above_32, System, Step, run, Reach, fresh,
  next,
}

-- A thread that has the permit of the locker: it is past the gate, or about to give the permit to the
-- semaphore.
abbrev pub weight : Phase → ℕ
weight idle = 0
weight requesting = 0
weight waiting = 0
weight (entering d) = 1
weight claiming = 1
weight (holding d) = 1
weight clearing = 1
weight leaving = 1
weight posting = 1

-- A thread that has added to the benaphore count and not subtracted.
abbrev pub inside : Phase → ℕ
inside idle = 0
inside requesting = 0
inside waiting = 1
inside (entering d) = 1
inside claiming = 1
inside (holding d) = 1
inside clearing = 1
inside leaving = 1
inside posting = 0

-- A thread whose id the locker stores.
abbrev pub owns : Phase → Bool
owns (entering (suc d)) = true
owns claiming = true
owns (holding d) = true
owns clearing = true
owns idle = false
owns requesting = false
owns waiting = false
owns (entering zero) = false
owns leaving = false
owns posting = false

-- What a thread in a phase knows of the owner and of the recursive count.
abbrev pub Knows : ℕ → Phase → Option ℕ → ℕ → Type 0
Knows i (entering (suc d)) o r = (o ≡ some i) × (r ≡ suc d)
Knows i claiming o r = o ≡ some i
Knows i (holding d) o r = (o ≡ some i) × (r ≡ d) × (0 < d)
Knows i clearing o r = o ≡ some i
Knows i idle o r = Unit
Knows i requesting o r = Unit
Knows i waiting o r = Unit
Knows i (entering zero) o r = Unit
Knows i leaving o r = Unit
Knows i posting o r = Unit

-- A benaphore at 0 keeps the permit itself.
abbrev pub free : ℕ → ℕ
free b = if b == 0 then 1 else 0

-- The count that a new locker of the style starts from.
abbrev pub base : Bool → ℕ
base style = (init_locker style).benaphore

pub record Inv (n : ℕ) (style : Bool) (s : Shared) (f : ℕ → Phase) : Type 0 where
  pub permits : s.sem + weigh weight n f + free s.benaphore ≡ 1
  pub counted : base style + weigh inside n f ≤ s.benaphore
  pub knows : (i : ℕ) → i < n → Knows i (f i) s.owner s.recursive
  pub owned : (j : ℕ) → s.owner ≡ some j → (j < n) × (owns (f j) ≡ true)

owns-weight : (p : Phase) → owns p ≡ true → 0 < weight p
owns-weight idle h = cc
owns-weight requesting h = cc
owns-weight waiting h = cc
owns-weight (entering d) h = omega arith
owns-weight claiming h = omega arith
owns-weight (holding d) h = omega arith
owns-weight clearing h = omega arith
owns-weight leaving h = omega arith
owns-weight posting h = omega arith

Knows-light : (i : ℕ) (p : Phase) (o : Option ℕ) (r : ℕ) → weight p ≡ 0 → Knows i p o r
Knows-light i idle o r h = tt
Knows-light i requesting o r h = tt
Knows-light i waiting o r h = tt
Knows-light i (entering d) o r h = absurd (omega arith)
Knows-light i claiming o r h = absurd (omega arith)
Knows-light i (holding d) o r h = absurd (omega arith)
Knows-light i clearing o r h = absurd (omega arith)
Knows-light i leaving o r h = tt
Knows-light i posting o r h = tt

some_injective : {A : Type 0} {a b : A} → some a ≡ some b → a ≡ b
some_injective e = cc

-- How a step may change who is stored: not at all, or by the thread that has the permit.
abbrev Handles : ℕ → Shared → Phase → Shared → Phase → Type 0
Handles i s p t q =
    ((t.owner ≡ s.owner) × (t.recursive ≡ s.recursive) × (owns p ≡ true → owns q ≡ true))
    ⊎ ((weight p ≡ 1) × ((t.owner ≡ none) ⊎ ((t.owner ≡ some i) × (owns q ≡ true))))

-- Below the bound the counts do not wrap.
succ_32-small : (n : ℕ) → n < 2 ^ 31 - 1 → succ_32 n ≡ n + 1
unfolding succ_32
succ_32-small n h = omega arith

pub pred_32-small : (n : ℕ) → 0 < n → n < 2 ^ 31 - 1 → pred_32 n ≡ n - 1
unfolding pred_32
pred_32-small n p h = omega arith

pub above_32-small : (k n : ℕ) → n < 2 ^ 31 → above_32 k n ≡ ltb k n
unfolding above_32
above_32-small k n h = elim (Bool-cases (ltb k n)) [
  | inl e ↦ rw (e) (ground arith)
  | inr e ↦ rw (e) refl
]

module _ {n : ℕ} {style : Bool} {s : Shared} {f : ℕ → Phase} (v : Inv n style s f) where
  -- Two threads that weigh are the same.
  pub alone : (i j : ℕ) → i < n → j < n → 0 < weight (f i) → 0 < weight (f j) → i ≡ j
  alone i j hi hj wi wj =
      let e : s.sem + weigh weight n f + free s.benaphore ≡ 1 = v.permits in
      weigh_unique weight n f i j (omega arith) hi hj wi wj

  light : (i j : ℕ) → i < n → j < n → i ≢ j → 0 < weight (f i) → weight (f j) ≡ 0
  light i j hi hj ne wi = elim (Bool-cases (ltb 0 (weight (f j)))) [
    | inl e ↦ absurd (ne (alone i j hi hj wi (ground arith)))
    | inr e ↦ ground arith
  ]

  Knows-update :
      (i : ℕ) (t : Shared) (p q : Phase)
      → f i ≡ p
      → i < n
      → Knows i q t.owner t.recursive
      → Handles i s p t q
      → (j : ℕ) → j < n
      → Knows j (update f i q j) t.owner t.recursive
  Knows-update i t p q e h local handled j hj = elim (Bool-cases (i == j)) [
    | inl same ↦ let eq = (==_iff i j).0 same in rw (← eq, ==_self i) local
    | inr differs ↦
        let ne : i ≢ j = ground arith in
        rw differs (elim handled [
          | inl (o, r, k) ↦ rw (o, r) (v.knows j hj)
          | inr (w, c) ↦
              Knows-light j (f j) t.owner t.recursive (light i j h hj ne (rw (e, w) (omega arith)))
        ])
  ]

  owned-update :
      (i : ℕ) (t : Shared) (p q : Phase)
      → f i ≡ p
      → i < n
      → Handles i s p t q
      → (j : ℕ) → t.owner ≡ some j
      → (j < n) × (owns (update f i q j) ≡ true)
  owned-update i t p q e h (inl (o, r, k)) j hj =
      let (lt, own) = v.owned j (sym o ∙ hj) in
      elim (Bool-cases (i == j)) [
        | inl same ↦ (lt, rw same (k (ap owns (sym e) ∙ rw ((==_iff i j).0 same) own)))
        | inr differs ↦ (lt, rw differs own)
      ]
  owned-update i t p q e h (inr (w, inl o)) j hj = cc
  owned-update i t p q e h (inr (w, inr (o, own))) j hj =
      let eq : i ≡ j = some_injective (sym o ∙ hj) in rw (← eq) (h, rw (==_self i) own)

  -- The invariant after a step of one thread, from what the step does to the thread and the counts.
  Inv-update :
      (i : ℕ) (t : Shared) (p q : Phase)
      → f i ≡ p
      → i < n
      → t.sem + weight q + free t.benaphore ≡ s.sem + weight p + free s.benaphore
      → s.benaphore + inside q ≤ t.benaphore + inside p
      → Knows i q t.owner t.recursive
      → Handles i s p t q
      → Inv n style t (update f i q)
  Inv-update i t p q e h perm count local handled =
      let w = rw e at (weigh-update weight n f i q h) in
      let c = rw e at (weigh-update inside n f i q h) in
      record {
        permits = omega (arith, w, v.permits);
        counted = omega (arith, c, v.counted);
        knows = Knows-update i t p q e h local handled;
        owned = owned-update i t p q e h handled;
      }

  -- A thread before the test of the owner, not there before, finds no owner.
  entering_free : (i : ℕ) → i < n → f i ≡ entering 0 → s.owner ≡ none
  entering_free i h e = elim (Option-cases s.owner) [
    | inl o ↦ o
    | inr (j, o) ↦
        let (lt, own) = v.owned j o in
        let eq : i ≡ j = alone i j h lt (rw e (omega arith)) (owns-weight (f j) own) in
        let no : false ≡ true = sym (ap owns e) ∙ rw eq own in cc
  ]

  idle-is_locked : (i : ℕ) → f i ≡ idle → is_locked i s ≡ false
  idle-is_locked i e = elim (Option-cases s.owner) [
    | inl o ↦ rw o
    | inr (j, o) ↦ rw o (elim (Bool-cases (j == i)) [
      | inl same ↦
          let own = (v.owned j o).1 in
          let no : false ≡ true = sym (ap owns e) ∙ rw (← (==_iff j i).0 same) own in cc
      | inr differs ↦ differs
    ])
  ]

  lock-Inv : (i : ℕ) → i < n → f i ≡ idle → Inv n style s (update f i (lock_next (is_locked i s) 0))
  lock-Inv i h e =
      subst (λ b. Inv n style s (update f i (lock_next b 0))) (sym (idle-is_locked i e))
        (Inv-update i s idle requesting e h refl (omega arith) tt (inl (refl, refl, λ x. cc)))

  lock_again-Inv :
      (i d : ℕ) → i < n → f i ≡ holding d → Inv n style s (update f i (lock_next (is_locked i s) d))
  lock_again-Inv i zero h e =
      let k : Knows i (holding 0) s.owner s.recursive = rw e at (v.knows i h) in
      absurd (omega (arith, k.2))
  lock_again-Inv i (suc d) h e =
      let k : Knows i (holding (suc d)) s.owner s.recursive = rw e at (v.knows i h) in
      let l : is_locked i s ≡ true = rw k.0 (==_self i) in
      subst (λ b. Inv n style s (update f i (lock_next b (suc d)))) (sym l)
        (Inv-update i s (holding (suc d)) (entering (suc d)) e h refl (omega arith) (k.0, k.1)
          (inl (refl, refl, λ x. refl)))

  add-Inv :
      (i : ℕ)
      → IsBounded s
      → i < n
      → f i ≡ requesting
      → Inv n style
          (record s { benaphore = succ_32 s.benaphore })
          (update f i (add_next s.benaphore))
  add-Inv i b h e =
      rw (succ_32-small s.benaphore b.0, above_32-small 0 s.benaphore (omega (arith, b.0)))
        (elim (Bool-cases (ltb 0 s.benaphore)) [
          | inl old ↦ rw old (
              Inv-update i _ requesting waiting e h (ground arith) (omega arith) tt
                (inl (refl, refl, λ x. cc)))
          | inr old ↦ rw old (
              Inv-update i _ requesting (entering 0) e h (ground arith) (omega arith) tt
                (inl (refl, refl, λ x. cc)))
        ])

  enter-Inv :
      (i d : ℕ)
      → IsBounded s
      → i < n
      → f i ≡ entering d
      → Inv n style (enter_shared i s) (update f i (enter_next d s))
  unfolding enter_shared enter_next
  enter-Inv i zero b h e =
      rw (entering_free i h e, enter_shared, enter_next)
        (Inv-update i (record s { owner = some i }) (entering 0) claiming e h refl (omega arith)
          refl (inr (refl, inr (refl, refl))))
  enter-Inv i (suc d) b h e =
      let k : Knows i (entering (suc d)) s.owner s.recursive = rw e at (v.knows i h) in
      rw (k.0, enter_shared, enter_next, succ_32-small s.recursive b.1)
        (Inv-update i (record s { recursive = s.recursive + 1 }) (entering (suc d))
          (holding (suc d + 1)) e h refl (omega arith) (k.0, omega (arith, k.1), omega arith)
          (inr (refl, inr (k.0, refl))))

  unlock-Inv :
      (i d : ℕ)
      → IsBounded s
      → i < n
      → f i ≡ holding (suc d)
      → Inv n style (record s { recursive = pred_32 s.recursive }) (update f i (unlock_next d s))
  unlock-Inv i d b h e =
      let k : Knows i (holding (suc d)) s.owner s.recursive = rw e at (v.knows i h) in
      let r : s.recursive ≡ suc d = k.1 in
      rw (pred_32-small s.recursive (omega arith) b.1) (elim (Bool-cases (s.recursive - 1 == 0)) [
        | inl z ↦ rw z (
            Inv-update i _ (holding (suc d)) clearing e h refl (omega arith) k.0
              (inr (refl, inr (k.0, refl))))
        | inr z ↦ rw z (
            Inv-update i _ (holding (suc d)) (holding d) e h refl (omega arith)
              (k.0, omega arith, ground arith) (inr (refl, inr (k.0, refl))))
      ])

  sub-Inv :
      (i : ℕ)
      → IsBounded s
      → i < n
      → f i ≡ leaving
      → Inv n style
          (record s { benaphore = pred_32 s.benaphore })
          (update f i (sub_next s.benaphore))
  sub-Inv i bd h e =
      let w : 1 ≤ weigh inside n f = rw e at (weight-le-weigh inside n f i h) in
      let b : 1 ≤ s.benaphore = omega (arith, v.counted) in
      rw (pred_32-small s.benaphore b bd.0, above_32-small 1 s.benaphore (omega (arith, bd.0)))
        (elim (Bool-cases (ltb 1 s.benaphore)) [
          | inl old ↦ rw old (
              Inv-update i _ leaving posting e h (ground arith) (omega arith) tt
                (inl (refl, refl, λ x. cc)))
          | inr old ↦ rw old (
              Inv-update i _ leaving idle e h (ground arith) (omega arith) tt
                (inl (refl, refl, λ x. cc)))
        ])

  -- Every step of a thread keeps the invariant.
  Move-Inv :
      {i : ℕ} {p q : Phase} {t : Shared}
      → i < n
      → IsBounded s
      → (m : Move i s p t q) → IsOwn m
      → f i ≡ p
      → Inv n style t (update f i q)
  Move-Inv {i} h b Move.lock o e = lock-Inv i h e
  Move-Inv {i} h b (Move.lock_again {d = d}) o e = lock_again-Inv i d h e
  Move-Inv {i} h b Move.add o e = add-Inv i b h e
  Move-Inv {i} h b Move.interrupted o e =
      Inv-update i s waiting waiting e h refl (omega arith) tt (inl (refl, refl, λ x. x))
  Move-Inv {i} h b (Move.acquired pos) o e =
      Inv-update i _ waiting (entering 0) e h (omega arith) (omega arith) tt
        (inl (refl, refl, λ x. cc))
  Move-Inv {i} h b Move.failed o e =
      Inv-update i s waiting idle e h refl (omega arith) tt (inl (refl, refl, λ x. cc))
  Move-Inv {i} h b (Move.enter {d = d}) o e = enter-Inv i d b h e
  Move-Inv {i} h b Move.claim o e =
      let k : s.owner ≡ some i = rw e at (v.knows i h) in
      Inv-update i _ claiming (holding 1) e h refl (omega arith) (k, refl, omega arith)
        (inr (refl, inr (k, refl)))
  Move-Inv {i} h b (Move.unlock {d = d}) o e = unlock-Inv i d b h e
  Move-Inv {i} h b Move.unlock_other o e = absurd o
  Move-Inv {i} h b Move.clear o e =
      Inv-update i _ clearing leaving e h refl (omega arith) tt (inr (refl, inl refl))
  Move-Inv {i} h b Move.sub o e = sub-Inv i b h e
  Move-Inv {i} h b Move.post o e =
      Inv-update i _ posting idle e h (omega arith) (omega arith) tt (inl (refl, refl, λ x. cc))

start-Inv : (n : ℕ) (style : Bool) → Inv n style (init_locker style) (λ _. idle)
start-Inv n true = record {
  permits = omega (arith, weigh-eq-zero weight n (λ _. idle) (λ i h. refl));
  counted = omega (arith, weigh-eq-zero inside n (λ _. idle) (λ i h. refl));
  knows = λ i h. tt;
  owned = λ j h. cc;
}
start-Inv n false = record {
  permits = omega (arith, weigh-eq-zero weight n (λ _. idle) (λ i h. refl));
  counted = omega (arith, weigh-eq-zero inside n (λ _. idle) (λ i h. refl));
  knows = λ i h. tt;
  owned = λ j h. cc;
}

Step-Inv :
    {n : ℕ} {style : Bool} {s t : System}
    → IsBounded s.shared
    → (m : Step n s t) → IsOwnStep m
    → Inv n style s.shared s.phase
    → Inv n style t.shared t.phase
Step-Inv b (run i h mv) o v = Move-Inv v h b mv o refl

-- In every reachable state: the semaphore, the threads past the gate and a benaphore at 0 make up one
-- permit; the benaphore count covers the threads inside; each thread's own count is the recursive
-- count while it has the lock; and a stored owner is a thread that has the lock.
pub Reach-Inv : {n : ℕ} {style : Bool} {s : System} → Reach n style s → Inv n style s.shared s.phase
Reach-Inv {n} {style} fresh = start-Inv n style
Reach-Inv (next r b st o) = Step-Inv b st o (Reach-Inv r)
