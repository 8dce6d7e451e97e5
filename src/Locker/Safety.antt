-- ===== src/Locker/Safety.antt =====
-- What the lock promises to its callers.
use libb.Prelude.{ℕ, ◌^◌, ◌≤◌, ◌<◌, ◌≡◌, some, Bool, true, false, arith, ==_self, lt→ltb}
use libb.Prelude.Threads.{weigh, weigh-eq-zero, weight-le-weigh}
use libb.Locker.{waiting, holding, leaving, posting, is_locked, sub_next, System, Reach}
use libb.Locker.Invariant.{weight, inside, Reach-Inv, alone, Knows, free, above_32-small}

-- In every state that n threads reach by any interleaving and with any time-outs, where no thread calls
-- Unlock without the lock and both counts are below 2 ^ 31 - 1 before each step, two threads that are
-- past the gate of the lock, and so two that hold it, are the same thread.
pub mutual_exclusion :
    {n : ℕ} {style : Bool} {s : System}
    → Reach n style s
    → (i j : ℕ) → i < n
    → j < n
    → 0 < weight (s.phase i)
    → 0 < weight (s.phase j)
    → i ≡ j
mutual_exclusion r i j hi hj wi wj = alone (Reach-Inv r) i j hi hj wi wj

-- In every state that n threads reach where no thread calls Unlock without the lock and both counts are
-- below 2 ^ 31 - 1 before each step, a thread that holds the lock is the stored owner, IsLocked tells it so, and
-- CountLocks is the number of its calls of Lock that it has not yet matched by Unlock, at least 1.
pub holder_count :
    {n d : ℕ} {style : Bool} {s : System}
    → Reach n style s
    → (i : ℕ) → i < n
    → s.phase i ≡ holding d
    → (s.shared.owner ≡ some i) × (is_locked i s.shared ≡ true) × (s.shared.recursive ≡ d) × (0 < d)
holder_count {d = d} {s = s} r i h e =
    let k : Knows i (holding d) s.shared.owner s.shared.recursive =
      rw e at ((Reach-Inv r).knows i h) in
    (k.0, rw k.0 (==_self i), k.1, k.2)

-- In every state that n threads reach where no thread calls Unlock without the lock and both counts are
-- below 2 ^ 31 - 1 before each step, and in which a thread waits for the semaphore and no thread is past
-- the gate or about to release the semaphore, the semaphore has the permit: no wake-up is lost, also
-- after that many time-outs.
pub no_lost_wakeup :
    {n : ℕ} {style : Bool} {s : System}
    → Reach n style s
    → (i : ℕ) → i < n
    → s.phase i ≡ waiting
    → ((j : ℕ) → j < n → weight (s.phase j) ≡ 0)
    → s.shared.sem ≡ 1
no_lost_wakeup {n} {style} {s} r i h e quiet =
    let v = Reach-Inv r in
    let w : 1 ≤ weigh inside n s.phase = rw e at (weight-le-weigh inside n s.phase i h) in
    let z : weigh weight n s.phase ≡ 0 = weigh-eq-zero weight n s.phase quiet in
    let b : 1 ≤ s.shared.benaphore = omega (arith, v.counted) in
    let k : free s.shared.benaphore ≡ 0 = ground arith in omega (arith, v.permits)

-- In every reachable state of a locker in the style of a semaphore with a count below 2 ^ 31, the Unlock that gives the lock up
-- finds an old benaphore count above 1 and so releases the semaphore.
pub semaphore_posts :
    {n : ℕ} {s : System}
    → Reach n false s
    → (i : ℕ) → i < n
    → s.shared.benaphore < 2 ^ 31
    → s.phase i ≡ leaving
    → sub_next s.shared.benaphore ≡ posting
semaphore_posts {n} {s} r i h b e =
    let v = Reach-Inv r in
    let w : 1 ≤ weigh inside n s.phase = rw e at (weight-le-weigh inside n s.phase i h) in
    rw (
      above_32-small 1 s.shared.benaphore b,
      lt→ltb 1 s.shared.benaphore (omega (arith, v.counted)),
    )
