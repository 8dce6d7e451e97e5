-- ===== src/Queue/Tests.antt =====
-- Runs of BMessageQueue, and inputs for the theorems.
use libb.Prelude.{ℕ, ◌%◌, ◌≡◌, refl, List, [], ◌∷◌, ◌++◌, some}
use libb.Prelude.Int.{pos}
use libb.Queue.{find_what}
use libb.Queue.Order.{Call, add, next, given, queue_after, brought, given-queue_after}

abbrev even_code : ℕ → ℕ
even_code m = m % 2

abbrev calls : List Call
calls = add (some 4) ∷ next ∷ next ∷ add (some 5) ∷ next ∷ next ∷ []

second_even : find_what even_code 0 (3 ∷ 4 ∷ 6 ∷ []) (pos 1) ≡ some 6
unfolding find_what
second_even = refl

given-queue_after_example :
    given calls (3 ∷ []) ++ queue_after calls (3 ∷ []) ≡ (3 ∷ []) ++ brought calls
given-queue_after_example = given-queue_after calls (3 ∷ [])
