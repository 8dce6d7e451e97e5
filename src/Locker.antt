-- ===== src/Locker.antt =====
-- kits/support/Locker.cpp: BLocker, a recursive lock that is a benaphore or a semaphore, as threads
-- in any interleaving see it. A thread is where it stands in Lock, LockWithTimeout or Unlock; each
-- access to a member of the locker is one step. The semaphore of the kernel is its count. The two counts
-- are the bits of an `int32`, which wraps.
pub mod Invariant
pub mod Safety
mod Tests
use libb.Prelude.{
  ℕ, zero, suc, ◌+◌, ◌-◌, ◌%◌, ◌^◌, ◌≤◌, ◌<◌, ◌≡◌, ◌≢◌, Option, none, some, Bool, true, false,
  if◌then◌else◌, ◌==◌, ◌&&◌, ltb,
}
use libb.Prelude.Threads.{update}

-- The bits of `n + 1`, of `n - 1`, and `n > k` for a small `k`, of an `int32`.
unfoldable pub succ_32 : ℕ → ℕ
succ_32 n = (n + 1) % 2 ^ 32

unfoldable pub pred_32 : ℕ → ℕ
pred_32 n = (n + (2 ^ 32 - 1)) % 2 ^ 32

unfoldable pub above_32 : ℕ → ℕ → Bool
above_32 k n = ltb k n && ltb n (2 ^ 31)

-- The members of a BLocker, and the count of its semaphore. `owner` is `none` for B_ERROR.
pub record Shared : Type 0 where
  pub benaphore : ℕ
  pub sem : ℕ
  pub owner : Option ℕ
  pub recursive : ℕ

-- `InitLocker(name, benaphore)`
abbrev pub init_locker : Bool → Shared
init_locker true = record { benaphore = 0; sem = 0; owner = none; recursive = 0 }
init_locker false = record { benaphore = 1; sem = 1; owner = none; recursive = 0 }

-- Where a thread stands. The number is the count of its own calls of Lock that it has not matched by
-- Unlock.
pub data Phase : Type 0 where
  idle : Phase  -- outside, without the lock
  requesting : Phase  -- in AcquireLock, found not to be the owner, before `fetch_add`
  waiting : Phase  -- in the loop on `acquire_sem_etc`
  entering : ℕ → Phase  -- status is B_OK, before the test of `fLockOwner`
  claiming : Phase  -- has stored itself as owner, before `fRecursiveCount = 1`
  holding : ℕ → Phase  -- outside, with the lock
  clearing : Phase  -- in Unlock, `fRecursiveCount` is 0, before `fLockOwner = B_ERROR`
  leaving : Phase  -- before `fetch_sub`
  posting : Phase  -- before `release_sem`

-- `IsLocked()` of thread `i`.
abbrev pub is_locked : ℕ → Shared → Bool
is_locked i s = elim s.owner [ none ↦ false | some j ↦ j == i ]

-- What follows `if (!IsLocked())` for a thread that has the lock `d` times.
abbrev pub lock_next : Bool → ℕ → Phase
lock_next true d = entering d
lock_next false d = requesting

-- `fetch_add(1)` gave the old count.
abbrev pub add_next : ℕ → Phase
add_next old = if above_32 0 old then waiting else entering 0

-- `if (fLockOwner < 0) fLockOwner = find_thread(NULL); else fRecursiveCount++;`
unfoldable pub enter_shared : ℕ → Shared → Shared
enter_shared i s = elim s.owner [
  | none ↦ record s { owner = some i }
  | some _ ↦ record s { recursive = succ_32 s.recursive }
]

unfoldable pub enter_next : ℕ → Shared → Phase
enter_next d s = elim s.owner [ none ↦ claiming | some _ ↦ holding (d + 1) ]

-- `fRecursiveCount--; if (fRecursiveCount == 0) …`
abbrev pub unlock_next : ℕ → Shared → Phase
unlock_next d s = if pred_32 s.recursive == 0 then clearing else holding d

-- The same in a thread that has not locked.
abbrev pub foreign_next : Shared → Phase
foreign_next s = if pred_32 s.recursive == 0 then clearing else idle

-- `if (oldBenaphoreCount > 1)`
abbrev pub sub_next : ℕ → Phase
sub_next old = if above_32 1 old then posting else idle

-- One step of thread `i`. `acquire_sem_etc` takes from a positive count, or it fails for a time-out or
-- another error; B_INTERRUPTED stays in the loop. Unlock may be called without the lock too.
pub data Move (i : ℕ) (s : Shared) : Phase → Shared → Phase → Type 0 where
  lock : Move i s idle s (lock_next (is_locked i s) 0)
  lock_again : {d : ℕ} → Move i s (holding d) s (lock_next (is_locked i s) d)
  add : Move i s requesting (record s { benaphore = succ_32 s.benaphore }) (add_next s.benaphore)
  interrupted : Move i s waiting s waiting
  acquired : 0 < s.sem → Move i s waiting (record s { sem = s.sem - 1 }) (entering 0)
  failed : Move i s waiting s idle
  enter : {d : ℕ} → Move i s (entering d) (enter_shared i s) (enter_next d s)
  claim : Move i s claiming (record s { recursive = 1 }) (holding 1)
  unlock :
      {d : ℕ}
      → Move i s (holding (suc d)) (record s { recursive = pred_32 s.recursive }) (unlock_next d s)
  unlock_other : Move i s idle (record s { recursive = pred_32 s.recursive }) (foreign_next s)
  clear : Move i s clearing (record s { owner = none }) leaving
  sub : Move i s leaving (record s { benaphore = pred_32 s.benaphore }) (sub_next s.benaphore)
  post : Move i s posting (record s { sem = s.sem + 1 }) idle

pub record System : Type 0 where
  pub shared : Shared
  pub phase : ℕ → Phase

pub data Step (n : ℕ) (s : System) : System → Type 0 where
  run :
      (i : ℕ) {t : Shared} {p : Phase}
      → i < n
      → Move i s.shared (s.phase i) t p
      → Step n s (record { shared = t; phase = update s.phase i p })

abbrev pub start : Bool → System
start style = record { shared = init_locker style; phase = λ _. idle }

-- A step that is not Unlock in a thread without the lock, from counts below 2 ^ 31 - 1.
abbrev pub IsOwn : {i : ℕ} {s : Shared} {p q : Phase} {t : Shared} → Move i s p t q → Type 0
IsOwn unlock_other = ⊥
IsOwn _ = Unit

abbrev pub IsOwnStep : {n : ℕ} {s t : System} → Step n s t → Type 0
IsOwnStep (run i h m) = IsOwn m

abbrev pub IsBounded : Shared → Type 0
IsBounded s = (s.benaphore < 2 ^ 31 - 1) × (s.recursive < 2 ^ 31 - 1)

-- The states that `n` threads reach from a new locker of that style, by any interleaving in which no
-- thread calls Unlock without the lock and no count is at 2 ^ 31 - 1 before a step.
pub data Reach (n : ℕ) (style : Bool) : System → Type 0 where
  fresh : Reach n style (start style)
  next :
      {s t : System}
      → Reach n style s
      → IsBounded s.shared
      → (m : Step n s t) → IsOwnStep m
      → Reach n style t

-- The states that `n` threads reach by any calls at all.
pub data ReachAny (n : ℕ) (style : Bool) : System → Type 0 where
  fresh_any : ReachAny n style (start style)
  next_any : {s t : System} → ReachAny n style s → Step n s t → ReachAny n style t
