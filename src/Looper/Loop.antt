-- ===== src/Looper/Loop.antt =====
-- kits/app/Looper.cpp: the messages of one looper, from `_PostMessage` to `_drain_message_queue`. A
-- message is its address. `MessageReceived` and `QuitRequested` are virtual: they are arguments, and
-- may change everything.
pub mod Drain
use libb.Prelude.{
  ℕ, zero, suc, ◌≡◌, List, [], ◌∷◌, ◌++◌, Option, none, some, Bool, true, false, ◌&&◌, ◌||◌,
  if◌then◌else◌, ◌==◌,
}
use libb.Prelude.Threads.{update}
use libb.Queue.{add_message, next_message}
use libb.Looper.{World, points_to}

-- B_QUIT_REQUESTED and _UPDATE_IF_NEEDED_, '_QRQ' and '_UPN'.
abbrev pub quit_requested_code : ℕ
quit_requested_code = 1599165009

abbrev pub update_code : ℕ
update_code = 1599426638

-- The objects, the queue and `fLastMessage`; `dispatched` keeps the messages that went to
-- DispatchMessage, each with its target.
pub record State : Type 0 where
  pub world : World
  pub queue : List ℕ
  pub last : Option ℕ
  pub dispatched : List (ℕ × ℕ)

-- The looper, the code and the handler of each message, and the virtual functions.
pub record Setup : Type 0 where
  pub this : ℕ
  pub what : ℕ → ℕ
  pub handler : ℕ → Option ℕ
  pub received : ℕ → ℕ → State → State  -- `target->MessageReceived(message)`
  pub quit_requested : State → Bool × State

-- `_PostMessage(msg, handler, reply_to)`, but for the wake-up of the thread.
unfoldable pub post_message : ℕ → State → State
post_message m s = record s { queue = add_message (some m) s.queue }

module _ (c : Setup) where
  -- `fTerminating |= …`
  abbrev pub quit_if : Bool × State → State
  quit_if r = record r.1 {
    world = record r.1.world {
      terminating = update r.1.world.terminating c.this (r.1.world.terminating c.this || r.0);
    };
  }

  -- `DispatchMessage(message, target)` for two that are not null.
  unfoldable pub dispatch_message : ℕ → ℕ → State → State
  dispatch_message m t s =
      if (c.what m == quit_requested_code) && (t == c.this)
      then quit_if (c.quit_requested s)
      else c.received t m s

  -- A message without handler goes to the preferred one, or to the looper.
  abbrev pub default_target : Option ℕ → Option ℕ
  default_target none = some c.this
  default_target (some h) = some h

  abbrev pub target_with : Option ℕ → World → Option ℕ
  target_with none w = default_target (w.preferred c.this)
  target_with (some h) w = if points_to (w.looper_of h) c.this then some h else none

  -- `if (handler) …`
  abbrev pub dispatch_to : ℕ → Option ℕ → State → State
  dispatch_to m none s = s
  dispatch_to m (some t) s =
      if points_to (s.world.looper_of t) c.this
      then dispatch_message m t (record s { dispatched = s.dispatched ++ ((m, t) ∷ []) })
      else s

  -- The body of the loop for a message.
  unfoldable pub handle : ℕ → State → State
  handle m s =
      let s1 = dispatch_to m (target_with (c.handler m) s.world) (record s { last = some m }) in
      record s1 { last = none }

  -- One turn of the loop after `NextMessage()`, with the turns that follow.
  abbrev pub drain_turn : (State → Option State) → Option ℕ × List ℕ → State → Option State
  drain_turn more (none, q) s = some (record s { queue = q; last = none })
  drain_turn more (some m, q) s = elim (c.what m == update_code) [
    | true ↦ some (handle m (record s { queue = q }))
    | false ↦ more (handle m (record s { queue = q }))
  ]

  -- `_drain_message_queue()` on fuel; `none` means that the fuel ran out.
  unfoldable pub drain : ℕ → State → Option State
  drain zero s = none
  drain (suc fuel) s = drain_turn (drain fuel) (next_message s.queue) s
