-- ===== src/Locker/Tests.antt =====
-- Two threads on a new locker.
use libb.Prelude.{ℕ, zero, suc, ◌<◌, ◌≡◌, refl, some, Bool, true, false, arith}
use libb.Locker.{
  succ_32, pred_32, above_32, holding, ReachAny, fresh_any, next_any, is_locked, enter_shared,
  enter_next, Move, System, run, Reach, fresh, next,
}
use libb.Locker.Invariant.{weight}
use libb.Locker.Safety.{mutual_exclusion, holder_count, no_lost_wakeup}

-- A state with the proof that it is reached.
record Run (n : ℕ) (style : Bool) : Type 0 where
  last : System
  reach : Reach n style last

-- Thread 0 holds a benaphore, thread 1 waits.
abbrev contended : Run 2 true
unfolding enter_shared enter_next succ_32 pred_32 above_32
contended = record {
  last = _;
  reach =
      next
        (next
          (next
            (next
              (next (next fresh (omega arith, omega arith) (run 0 (omega arith) Move.lock) tt)
                (omega arith, omega arith) (run 0 (omega arith) Move.add) tt)
              (omega arith, omega arith) (run 0 (omega arith) Move.enter) tt)
            (omega arith, omega arith) (run 0 (omega arith) Move.claim) tt)
          (omega arith, omega arith) (run 1 (omega arith) Move.lock) tt)
        (omega arith, omega arith) (run 1 (omega arith) Move.add) tt;
}

-- Thread 0 has unlocked and released the semaphore, thread 1 still waits.
abbrev released : Run 2 true
unfolding enter_shared enter_next succ_32 pred_32 above_32
released = record {
  last = _;
  reach =
      next
        (next
          (next
            (next contended.reach (omega arith, omega arith) (run 0 (omega arith) Move.unlock) tt)
            (omega arith, omega arith) (run 0 (omega arith) Move.clear) tt)
          (omega arith, omega arith) (run 0 (omega arith) Move.sub) tt)
        (omega arith, omega arith) (run 0 (omega arith) Move.post) tt;
}

mutual_exclusion_example : ◌≡◌ {A = ℕ} 0 0
unfolding enter_shared enter_next succ_32 pred_32 above_32
mutual_exclusion_example =
    mutual_exclusion contended.reach 0 0 (omega arith) (omega arith) (omega arith) (omega arith)

holder_count_example :
    (contended.last.shared.owner ≡ some 0)
    × (is_locked 0 contended.last.shared ≡ true)
    × (contended.last.shared.recursive ≡ 1)
    × (0 < 1)
unfolding enter_shared enter_next succ_32 pred_32 above_32
holder_count_example = holder_count {d = 1} contended.reach 0 (omega arith) refl

released_quiet : (j : ℕ) → j < 2 → weight (released.last.phase j) ≡ 0
unfolding enter_shared enter_next succ_32 pred_32 above_32
released_quiet zero h = refl
released_quiet (suc zero) h = refl
released_quiet (suc (suc j)) h = absurd (omega arith)

no_lost_wakeup_example : released.last.shared.sem ≡ 1
unfolding enter_shared enter_next succ_32 pred_32 above_32
no_lost_wakeup_example = no_lost_wakeup released.reach 1 (omega arith) refl released_quiet

-- A lone thread that has locked and is giving up a locker in the style of a semaphore.
abbrev alone_leaving : Run 1 false
unfolding enter_shared enter_next succ_32 pred_32 above_32
alone_leaving = record {
  last = _;
  reach =
      next
        (next
          (next
            (next
              (next
                (next (next fresh (omega arith, omega arith) (run 0 (omega arith) Move.lock) tt)
                  (omega arith, omega arith) (run 0 (omega arith) Move.add) tt)
                (omega arith, omega arith) (run 0 (omega arith) (Move.acquired (omega arith))) tt)
              (omega arith, omega arith) (run 0 (omega arith) Move.enter) tt)
            (omega arith, omega arith) (run 0 (omega arith) Move.claim) tt)
          (omega arith, omega arith) (run 0 (omega arith) Move.unlock) tt)
        (omega arith, omega arith) (run 0 (omega arith) Move.clear) tt;
}

-- Thread 1 unlocks the locker that thread 0 holds, and locks it: both hold it.
record AnyRun (n : ℕ) (style : Bool) : Type 0 where
  last_any : System
  reach_any : ReachAny n style last_any

abbrev two_holders : AnyRun 2 true
unfolding enter_shared enter_next succ_32 pred_32 above_32
two_holders = record {
  last_any = _;
  reach_any =
      next_any
        (next_any
          (next_any
            (next_any
              (next_any
                (next_any
                  (next_any
                    (next_any
                      (next_any
                        (next_any (next_any fresh_any (run 0 (omega arith) Move.lock))
                          (run 0 (omega arith) Move.add))
                        (run 0 (omega arith) Move.enter))
                      (run 0 (omega arith) Move.claim))
                    (run 1 (omega arith) Move.unlock_other))
                  (run 1 (omega arith) Move.clear))
                (run 1 (omega arith) Move.sub))
              (run 1 (omega arith) Move.lock))
            (run 1 (omega arith) Move.add))
          (run 1 (omega arith) Move.enter))
        (run 1 (omega arith) Move.claim);
}

both_hold : (two_holders.last_any.phase 0 ≡ holding 1) × (two_holders.last_any.phase 1 ≡ holding 1)
unfolding enter_shared enter_next succ_32 pred_32 above_32
both_hold = (refl, refl)
