-- ===== src/RwLock.antt =====
-- kits/kernel/rwlock.c: the word of a lock of readers and writers, and any number of threads that call
-- its functions. A wait for the futex ends at any time, and the thread looks at the word again.
pub mod Exclusion
mod Tests
use libb.Prelude.{ℕ, suc, ◌<◌, ◌≡◌, ◌≢◌}
use libb.Prelude.Threads.{update}
use libb.Port.{unlocked}

-- Where a thread is, with the word that it has read as `current`.
pub data Stage : Type 0 where
  idle : Stage  -- without the lock, or before a turn of the loop that takes it
  rlocking : ℕ → Stage  -- in `_rwlock_rlock`, before `cmpxchg`
  reading : Stage
  read_unlocking : ℕ → Stage  -- in `_rwlock_unlock` as a reader
  writing : Stage
  write_unlocking : ℕ → Stage  -- in `_rwlock_unlock` as a writer

-- A step of a thread that finds a word and leaves another one.
pub data Move (w : ℕ) : Stage → ℕ → Stage → Type 0 where
  look : Move w idle w (rlocking w)
  locked : Move w (rlocking 0) w idle
  rlock_lost : {c : ℕ} → w ≢ c → Move w (rlocking c) w idle
  take_read : {c : ℕ} → w ≡ c → c ≢ 0 → Move w (rlocking c) (suc c) reading
  take_write : w ≡ 1 → Move w idle 0 writing
  wlock_lost : w ≢ 1 → Move w idle w idle
  leave_read : Move w reading w (read_unlocking w)
  leave_write : Move w writing w (write_unlocking w)
  read_open : Move w (read_unlocking 1) w idle
  read_lost : {c : ℕ} → w ≢ c → c ≢ 1 → Move w (read_unlocking c) w reading
  read_unlock : {c : ℕ} → w ≡ c → c ≢ 1 → Move w (read_unlocking c) (unlocked c) idle
  write_open : Move w (write_unlocking 1) w idle
  write_lost : {c : ℕ} → w ≢ c → c ≢ 1 → Move w (write_unlocking c) w writing
  write_unlock : {c : ℕ} → w ≡ c → c ≢ 1 → Move w (write_unlocking c) (unlocked c) idle

pub record System : Type 0 where
  pub word : ℕ
  pub phase : ℕ → Stage

pub data Step (n : ℕ) (s : System) : System → Type 0 where
  run :
      (i : ℕ) {w : ℕ} {p : Stage}
      → i < n
      → Move s.word (s.phase i) w p
      → Step n s (record { word = w; phase = update s.phase i p })

-- `RWLOCK`: the word is `_rwlock_OPEN`.
abbrev pub start : System
start = record { word = 1; phase = λ _. idle }

-- The states that n threads can reach.
pub data Reach (n : ℕ) : System → Type 0 where
  fresh : Reach n start
  next : {s t : System} → Reach n s → Step n s t → Reach n t
