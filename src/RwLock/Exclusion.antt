-- ===== src/RwLock/Exclusion.antt =====
-- kits/kernel/rwlock.c: a writer excludes the readers and the other writers.
use libb.Prelude.{
  ℕ, zero, suc, ◌+◌, ◌≤◌, ◌<◌, ◌≡◌, ◌≢◌, refl, sym, ap, ◌∙◌, ◌⊎◌, inl, inr, arith, ◌==◌, ltb,
  Bool-cases,
}
use libb.Prelude.Threads.{update, weigh, weigh-update, weigh_unique, weigh-eq-zero, weight-le-weigh}
use libb.Port.{unlocked}
use libb.RwLock.{
  Stage, idle, rlocking, reading, read_unlocking, writing, write_unlocking, Move, look, locked,
  rlock_lost, take_read, take_write, wlock_lost, leave_read, leave_write, read_open, read_lost,
  read_unlock, write_open, write_lost, write_unlock, System, Step, run, Reach, fresh, next,
}

-- The threads that have the lock as readers, and as writers.
abbrev pub reads : Stage → ℕ
reads idle = 0
reads (rlocking c) = 0
reads reading = 1
reads (read_unlocking c) = 1
reads writing = 0
reads (write_unlocking c) = 0

abbrev pub writes : Stage → ℕ
writes idle = 0
writes (rlocking c) = 0
writes reading = 0
writes (read_unlocking c) = 0
writes writing = 1
writes (write_unlocking c) = 1

-- What a thread that unlocks has read.
abbrev Knows : Stage → Type 0
Knows idle = Unit
Knows (rlocking c) = Unit
Knows reading = Unit
Knows (read_unlocking c) = 2 ≤ c
Knows writing = Unit
Knows (write_unlocking c) = c ≡ 0

-- The word counts the readers from 1, and is 0 with a writer.
record Counts (w r k : ℕ) : Type 0 where
  total : w + k ≡ suc r
  one : k ≤ 1
  alone : (k ≡ 0) ⊎ (w ≡ 0)

unlocked_below : (c : ℕ) → 2 ≤ c → suc (unlocked c) ≡ c
unlocked_below zero h = absurd (omega arith)
unlocked_below (suc zero) h = absurd (omega arith)
unlocked_below (suc (suc c)) h = refl

same-Counts : {w r r' k k' : ℕ} → Counts w r k → r' ≡ r → k' ≡ k → Counts w r' k'
same-Counts {w} c er ek = record {
  total = omega (arith, c.total);
  one = omega (arith, c.one);
  alone = elim c.alone [ inl a ↦ inl (omega arith) | inr a ↦ inr a ];
}

-- With a word that is not 0 there is no writer, and with a writer the word is 0.
no_writer : {w r k : ℕ} → Counts w r k → w ≢ 0 → k ≡ 0
no_writer c h = elim c.alone [ inl a ↦ a | inr a ↦ absurd (h a) ]

no_reader : {w r k : ℕ} → Counts w r k → 1 ≤ k → (w ≡ 0) × ((r ≡ 0) × (k ≡ 1))
no_reader c h = elim c.alone [
  | inl a ↦ absurd (omega arith)
  | inr a ↦ (a, (omega (arith, c.total, c.one), omega (arith, c.one)))
]

-- With a reader the word is at least 2.
read_word : {w r k : ℕ} → Counts w r k → 1 ≤ r → 2 ≤ w
read_word c h = elim c.alone [
  | inl a ↦ omega (arith, c.total)
  | inr a ↦ absurd (omega (arith, c.total, c.one))
]

move-Counts :
    {w v r r' k k' : ℕ} {p q : Stage}
    → Move w p v q
    → Knows p
    → Counts w r k
    → reads p ≤ r
    → writes p ≤ k
    → r' + reads p ≡ r + reads q
    → k' + writes p ≡ k + writes q
    → Counts v r' k' × Knows q
move-Counts look kn c hr hk er ek = (same-Counts c (omega arith) (omega arith), tt)
move-Counts locked kn c hr hk er ek = (same-Counts c (omega arith) (omega arith), tt)
move-Counts (rlock_lost l) kn c hr hk er ek = (same-Counts c (omega arith) (omega arith), tt)
move-Counts (take_read e l) kn c hr hk er ek =
    let z = no_writer c (λ a. l (sym e ∙ a)) in
    (record { total = omega (arith, c.total, e); one = omega arith; alone = inl (omega arith) }, tt)
move-Counts (take_write e) kn c hr hk er ek =
    let z = no_writer c (λ a. omega arith) in
    (record { total = omega (arith, c.total); one = omega arith; alone = inr refl }, tt)
move-Counts (wlock_lost l) kn c hr hk er ek = (same-Counts c (omega arith) (omega arith), tt)
move-Counts leave_read kn c hr hk er ek =
    (same-Counts c (omega arith) (omega arith), read_word c hr)
move-Counts leave_write kn c hr hk er ek =
    (same-Counts c (omega arith) (omega arith), (no_reader c hk).0)
move-Counts read_open kn c hr hk er ek = absurd (omega arith)
move-Counts (read_lost l o) kn c hr hk er ek = (same-Counts c (omega arith) (omega arith), tt)
move-Counts (read_unlock {c} e o) kn h hr hk er ek =
    let z = no_writer h (λ a. omega arith) in
    let u = unlocked_below c kn in
    (record { total = omega (arith, h.total); one = omega arith; alone = inl (omega arith) }, tt)
move-Counts write_open kn c hr hk er ek = absurd (omega arith)
move-Counts (write_lost l o) kn c hr hk er ek = (same-Counts c (omega arith) (omega arith), tt)
move-Counts (write_unlock {c} e o) kn h hr hk er ek =
    let (a, (b, d)) = no_reader h hk in
    let u = ap unlocked kn in
    (record { total = omega arith; one = omega arith; alone = inl (omega arith) }, tt)

record Inv (n : ℕ) (s : System) : Type 0 where
  counts : Counts s.word (weigh reads n s.phase) (weigh writes n s.phase)
  knows : (i : ℕ) → Knows (s.phase i)

step-Inv : {n : ℕ} {s t : System} → Inv n s → Step n s t → Inv n t
step-Inv {n} {s} v (run i {w} {p} h m) =
    let (c, k) =
      move-Counts m (v.knows i) v.counts (weight-le-weigh reads n s.phase i h)
        (weight-le-weigh writes n s.phase i h) (weigh-update reads n s.phase i p h)
        (weigh-update writes n s.phase i p h) in
    record { counts = c; knows = λ j. at_thread j k }
  where
    at_thread : (j : ℕ) → Knows p → Knows (update s.phase i p j)
    at_thread j k = elim (Bool-cases (i == j)) [ inl e ↦ rw e k | inr e ↦ rw e (v.knows j) ]

Reach-Inv : {n : ℕ} {s : System} → Reach n s → Inv n s
Reach-Inv {n} fresh =
    let r = weigh-eq-zero reads n (λ _. idle) (λ i h. refl) in
    let k = weigh-eq-zero writes n (λ _. idle) (λ i h. refl) in
    record {
      counts = record { total = omega arith; one = omega arith; alone = inl k };
      knows = λ i. tt;
    }
Reach-Inv (next r st) = step-Inv (Reach-Inv r) st

-- In every state that n threads can reach by any interleaving, where a thread has the lock as a writer
-- the word is 0, and no other thread has it as a reader or as a writer.
pub writer_excludes :
    {n : ℕ} {s : System}
    → Reach n s
    → (i j : ℕ) → i < n
    → j < n
    → i ≢ j
    → 0 < writes (s.phase i)
    → (s.word ≡ 0) × ((reads (s.phase j) ≡ 0) × (writes (s.phase j) ≡ 0))
writer_excludes {n} {s} r i j hi hj other h =
    let c = (Reach-Inv r).counts in
    let a = weight-le-weigh writes n s.phase i hi in
    let b = weight-le-weigh reads n s.phase j hj in
    let (z, (x, y)) = no_reader c (omega arith) in
    (
      z,
      (
        omega arith,
        elim (Bool-cases (ltb 0 (writes (s.phase j)))) [
          | inl e ↦ absurd (other (weigh_unique writes n s.phase i j c.one hi hj h (ground arith)))
          | inr e ↦ ground arith
        ],
      ),
    )
