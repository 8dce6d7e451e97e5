-- ===== src/Looper.antt =====
-- kits/app/Handler.cpp and Looper.cpp: which handlers belong to which looper. An object is its address,
-- a number; a looper is a handler too. `debugger` aborts the program: `none`.
pub mod Members
pub mod Reach
pub mod Loop
pub mod Wakeup
mod Tests
use libb.Prelude.{
  ℕ, zero, suc, ◌+◌, ◌-◌, ◌<◌, ◌≡◌, List, [], ◌∷◌, Option, none, some, Bool, true, false, not, ◌&&◌,
  ◌||◌, if◌then◌else◌, ◌==◌, ltb,
}
use libb.Prelude.Int.{ℤ, pos, leb_ℤ}
use libb.Prelude.Threads.{update}
use libb.BList.{add_item, remove_item, index_of}

-- The members of the handlers and of the loopers, by address. `locks` is `fOwnerCount`.
pub record World : Type 0 where
  pub looper_of : ℕ → Option ℕ
  pub next_of : ℕ → Option ℕ
  pub handlers : ℕ → List ℕ
  pub preferred : ℕ → Option ℕ
  pub locks : ℕ → ℕ
  pub run_called : ℕ → Bool
  pub terminating : ℕ → Bool

abbrev pub is_locked : ℕ → World → Bool
is_locked l w = ltb 0 (w.locks l)

-- Goes on unless the program aborted.
abbrev pub and_then {ℓ} : {A B : Type ℓ} → Option A → (A → Option B) → Option B
and_then none k = none
and_then (some a) k = k a

-- `p == l` for a pointer that may be null.
abbrev pub points_to : Option ℕ → ℕ → Bool
points_to none l = false
points_to (some k) l = k == l

-- The constructor of a BHandler at an address. `~BHandler()` changes no other object.
abbrev pub new_handler : ℕ → World → World
new_handler h w = record w {
  looper_of = update w.looper_of h none;
  next_of = update w.next_of h none;
}

-- `SetLooper(looper)`
abbrev pub set_looper : ℕ → Option ℕ → World → World
set_looper h l w = record w { looper_of = update w.looper_of h l }

abbrev pub store_next : ℕ → Option ℕ → World → World
store_next h n w = record w { next_of = update w.next_of h n }

-- What follows the tests of the handler's own looper `l` in `SetNextHandler`.
abbrev pub set_next_of : ℕ → ℕ → Option ℕ → World → Option World
set_next_of h l none w = some (store_next h none w)
set_next_of h l (some n) w =
    if points_to (w.looper_of n) l
    then some (if n == h then w else store_next h (some n) w)
    else none

-- `SetNextHandler(handler)`, with the looper of the handler.
abbrev pub set_next_with : ℕ → Option ℕ → Option ℕ → World → Option World
set_next_with h none n w = none
set_next_with h (some l) n w = if is_locked l w then set_next_of h l n w else none

unfoldable pub set_next_handler : ℕ → Option ℕ → World → Option World
set_next_handler h n w = set_next_with h (w.looper_of h) n w

-- `AddHandler(handler)` where the handler has no looper yet.
abbrev pub add_member : ℕ → ℕ → World → Option World
add_member l h w = set_next_handler h (some l) (
    set_looper h (some l)
      (record w { handlers = update w.handlers l (add_item h (w.handlers l)).1 }))

-- `AddHandler(handler)`, with the looper that the handler has.
abbrev pub add_with : ℕ → ℕ → Option ℕ → World → Option World
add_with l h none w = add_member l h w
add_with l h (some k) w = some w

unfoldable pub add_handler : ℕ → Option ℕ → World → Option World
add_handler l none w = some w
add_handler l (some h) w = if is_locked l w then add_with l h (w.looper_of h) w else none

-- What RemoveHandler does for a member that is then no longer in the list `hs`.
abbrev pub forget_preferred : ℕ → ℕ → World → World
forget_preferred l h w = record w {
  preferred = if points_to (w.preferred l) h then update w.preferred l none else w.preferred;
}

abbrev pub drop_member : ℕ → ℕ → List ℕ → World → Option World
drop_member l h hs w =
    and_then
      (set_next_handler h none
        (forget_preferred l h (record w { handlers = update w.handlers l hs })))
      (λ w1. some (set_looper h none w1))

-- A `RemoveItem` that returns false leaves the list.
abbrev pub remove_member : ℕ → ℕ → World → Option (Bool × World)
remove_member l h w =
    let r = remove_item h (w.handlers l) in
    if points_to (w.looper_of h) l && r.0
    then and_then (drop_member l h r.1 w) (λ w1. some (true, w1))
    else some (false, w)

-- `RemoveHandler(handler)`
unfoldable pub remove_handler : ℕ → Option ℕ → World → Option (Bool × World)
remove_handler l none w = some (false, w)
remove_handler l (some h) w = if is_locked l w then remove_member l h w else none

-- `SetPreferredHandler(handler)`; `IndexOf` asserts the lock, and is called for a handler of the looper.
unfoldable pub set_preferred_handler : ℕ → Option ℕ → World → Option World
set_preferred_handler l none w = some (record w { preferred = update w.preferred l none })
set_preferred_handler l (some h) w =
    if points_to (w.looper_of h) l
    then (if is_locked l w
        then some (record w {
          preferred =
              update w.preferred l
                (if leb_ℤ (pos 0) (index_of h (w.handlers l)) then some h else none);
        })
        else none)
    else some (record w { preferred = update w.preferred l none })

-- The loop of the destructor over the handlers that are left.
unfoldable pub release_all : List ℕ → World → Option World
release_all [] w = some w
release_all (h ∷ hs) w =
    and_then (set_next_handler h none w) (λ w1. release_all hs (set_looper h none w1))

-- The members of a new looper, which its constructor locks.
abbrev pub cleared : ℕ → World → World
cleared l w = record {
  looper_of = update w.looper_of l none;
  next_of = update w.next_of l none;
  handlers = update w.handlers l [];
  preferred = update w.preferred l none;
  locks = update w.locks l 1;
  run_called = update w.run_called l false;
  terminating = update w.terminating l false;
}

-- The constructor: the looper is its own first handler.
unfoldable pub new_looper : ℕ → World → Option World
new_looper l w = add_handler l (some l) (cleared l w)

-- `~BLooper()`, which gets the lock. The members of the looper are gone afterwards.
abbrev pub end_looper : ℕ → World → World
end_looper l w = record w {
  handlers = update w.handlers l [];
  preferred = update w.preferred l none;
  locks = update w.locks l (w.locks l - 1);
}

abbrev pub locked_again : ℕ → World → World
locked_again l w = record w { locks = update w.locks l (suc (w.locks l)) }

unfoldable pub delete_looper : ℕ → World → Option World
delete_looper l w =
    if w.run_called l && not (w.terminating l)
    then none
    else and_then (remove_handler l (some l) (locked_again l w))
        (λ r. and_then (release_all (r.1.handlers l) r.1) (λ w2. some (end_looper l w2)))
