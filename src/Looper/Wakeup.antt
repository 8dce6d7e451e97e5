-- ===== src/Looper/Wakeup.antt =====
-- kits/app/Looper.cpp: how the thread of a looper is woken. `_PostMessage` and `Quit` first change the
-- queue or `fTerminating` and then send data to the thread, unless it has data already; the loop of
-- `task_looper` looks at both and then waits in `receive_data`. Threads take turns in any order, one
-- step for each access.
pub mod NoLoss
use libb.Prelude.{
  ℕ, zero, suc, ◌+◌, ◌-◌, ◌<◌, ◌≡◌, Bool, true, false, ◌||◌, if◌then◌else◌, ◌==◌, ltb,
}
use libb.Prelude.Threads.{update}

-- The length of the queue, `fTerminating`, and what `send_data` put in the pipe of the thread.
pub record Shared : Type 0 where
  pub queued : ℕ
  pub terminating : Bool
  pub sent : ℕ

-- A thread that posts or quits.
pub data Sender : Type 0 where
  outside : Sender
  announcing : Sender  -- before `has_data(fThread)`
  sending : Sender  -- before `send_data`

-- The thread of the looper.
pub data Runner : Type 0 where
  testing : Runner  -- before `!fTerminating`
  looking : Runner  -- before `fQueue->IsEmpty()`
  receiving : Runner  -- in `receive_data`
  draining : Runner  -- in `_drain_message_queue`
  stopped : Runner

abbrev pub test_next : Bool → Runner
test_next true = stopped
test_next false = looking

abbrev pub look_next : ℕ → Runner
look_next n = if n == 0 then receiving else draining

abbrev pub announce_next : ℕ → Sender
announce_next n = if ltb 0 n then outside else sending

-- A step of a sender.
pub data Send (s : Shared) : Sender → Shared → Sender → Type 0 where
  post : Send s outside (record s { queued = s.queued + 1 }) announcing
  quit : Send s outside (record s { terminating = true }) announcing
  announce : Send s announcing s (announce_next s.sent)
  send : Send s sending (record s { sent = s.sent + 1 }) outside

-- A step of the thread of the looper. Messages that it handles may post to it, which sends no data as
-- `fThread` is the current thread, and may ask it to quit. A `receive_data` that fails goes on to drain.
pub data Run (s : Shared) : Runner → Shared → Runner → Type 0 where
  test : Run s testing s (test_next s.terminating)
  look : Run s looking s (look_next s.queued)
  receive : 0 < s.sent → Run s receiving (record s { sent = s.sent - 1 }) draining
  fail : Run s receiving s draining
  take_message : 0 < s.queued → Run s draining (record s { queued = s.queued - 1 }) draining
  post_self : Run s draining (record s { queued = s.queued + 1 }) draining
  quit_self : (b : Bool) → Run s draining (record s { terminating = s.terminating || b }) draining
  leave : Run s draining s testing

pub record System : Type 0 where
  pub shared : Shared
  pub runner : Runner
  pub senders : ℕ → Sender

pub data Step (s : System) : System → Type 0 where
  sends :
      (i : ℕ) {t : Shared} {p : Sender}
      → Send s.shared (s.senders i) t p
      → Step s (record s { shared = t; senders = update s.senders i p })
  runs :
      {t : Shared} {p : Runner}
      → Run s.shared s.runner t p
      → Step s (record s { shared = t; runner = p })

abbrev pub start : ℕ → System
start n = record {
  shared = record { queued = n; terminating = false; sent = 0 };
  runner = testing;
  senders = λ i. outside;
}

-- The states after the looper's thread starts with `n` messages in the queue.
pub data Reach (n : ℕ) : System → Type 0 where
  fresh : Reach n (start n)
  next : {s t : System} → Reach n s → Step s t → Reach n t
