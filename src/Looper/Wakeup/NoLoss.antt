-- ===== src/Looper/Wakeup/NoLoss.antt =====
-- BLooper: no message and no request to quit waits for a thread that is not woken.
use libb.Prelude.{ℕ, ◌<◌, ◌≡◌, ◌⊎◌, Bool, true, false, ◌||◌, ltb}
use libb.Looper.Wakeup.{
  Shared, Sender, outside, announcing, sending, Runner, testing, looking, receiving, draining,
  stopped,
}

abbrev is_active : Sender → Bool
is_active outside = false
is_active announcing = true
is_active sending = true

-- Something is there for the looper to do.
abbrev pub has_work : Shared → Bool
has_work s = ltb 0 s.queued || s.terminating

-- Whether the thread of the looper is about to wait, or waits, with something to do.
abbrev needs : Runner → Shared → Bool
needs testing s = false
needs looking s = s.terminating
needs receiving s = has_work s
needs draining s = false
needs stopped s = false

-- Data is there, or a sender is on the way to it.
abbrev Covers : Shared → (ℕ → Sender) → Type 0
Covers s f = (0 < s.sent) ⊎ ((i : ℕ) × (is_active (f i) ≡ true))
