-- ===== src/Looper/Tests.antt =====
-- Runs of BLooper, and inputs for the theorems.
use libb.Prelude.{
  ◌≡◌, refl, [], ◌∷◌, ◌++◌, Option, some, none, true, false, if◌then◌else◌, ◌==◌, arith,
}
use libb.Prelude.Threads.{update}
use libb.BList.{add_item}
use libb.Looper.{World, new_handler, new_looper, add_handler, set_next_handler, points_to}
use libb.Looper.Members.{IsValid}
use libb.Looper.Reach.{nothing, Reach, construct, add, fresh, next, Reach-IsValid}
use libb.Looper.Loop.{State, Setup, drain}
use libb.Looper.Loop.Drain.{IsQuiet, batch, deliveries, drain-deliveries}
use libb.Looper.Wakeup.{System, outside, receiving, announcing, sending}
use libb.Looper.Wakeup as Wakeup

abbrev or_nothing : Option World → World
or_nothing none = nothing
or_nothing (some w) = w

-- A looper at 1, and a handler at 2 that is added to it.
abbrev one_looper : World
one_looper = or_nothing (new_looper 1 nothing)

abbrev two_handlers : World
two_handlers = or_nothing (add_handler 1 (some 2) one_looper)

constructs : new_looper 1 nothing ≡ some one_looper
unfolding new_looper add_handler set_next_handler add_item
constructs = refl

adds : add_handler 1 (some 2) one_looper ≡ some two_handlers
unfolding new_looper add_handler set_next_handler add_item
adds = refl

reached : Reach two_handlers
reached = next (next fresh (construct 1 refl refl constructs)) (add 1 (some 2) adds)

two_in_list : two_handlers.handlers 1 ≡ 1 ∷ 2 ∷ []
unfolding new_looper add_handler set_next_handler add_item
two_in_list = refl

-- A handler that is destroyed while it has a looper stays in the list, also for a new one at its address.
still_listed : (new_handler 2 two_handlers).handlers 1 ≡ 1 ∷ 2 ∷ []
unfolding new_looper add_handler set_next_handler add_item
still_listed = refl

members_example : IsValid two_handlers
members_example = Reach-IsValid reached

-- The handlers do nothing; message 7 is for the handler 2.
abbrev idle_setup : Setup
idle_setup = record {
  this = 1;
  what = λ m. m;
  handler = λ m. if m == 7 then some 2 else none;
  received = λ t m s. s;
  quit_requested = λ s. (true, s);
}

idle_setup-IsQuiet : IsQuiet idle_setup
idle_setup-IsQuiet = record {
  received_keeps = λ t m s. (refl, refl, refl, refl);
  quit_requested_keeps = λ s. (refl, refl, refl, refl);
}

abbrev two_messages : State
two_messages = record { world = two_handlers; queue = 7 ∷ 5 ∷ []; last = none; dispatched = [] }

its_own : points_to (two_messages.world.looper_of 1) 1 ≡ true
unfolding new_looper add_handler set_next_handler add_item
its_own = refl

delivered : deliveries idle_setup two_handlers (7 ∷ 5 ∷ []) ≡ (7, 2) ∷ (5, 1) ∷ []
unfolding deliveries new_looper add_handler set_next_handler add_item
delivered = refl

drain_example :
    (t : State) × (drain idle_setup 3 two_messages ≡ some t)
    × (t.dispatched ≡ [] ++ deliveries idle_setup two_handlers (batch idle_setup (7 ∷ 5 ∷ [])))
    × (batch idle_setup (7 ∷ 5 ∷ []) ++ t.queue ≡ 7 ∷ 5 ∷ [])
    × (t.last ≡ none)
drain_example =
    drain-deliveries idle_setup two_messages 3 idle_setup-IsQuiet (Reach-IsValid reached) its_own
      (omega arith)

-- The thread waits, and another one has posted.
abbrev posted : System
posted = record {
  shared = record { queued = 1; terminating = false; sent = 1 };
  runner = receiving;
  senders = update (update (update (λ i. outside) 3 announcing) 3 sending) 3 outside;
}
