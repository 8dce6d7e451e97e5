-- ===== src/Queue.antt =====
-- kits/app/MessageQueue.cpp: BMessageQueue, a list of pointers to messages. A pointer is an address, a
-- number. Each call is taken as one step, as the lock makes it. The code tests `IsEmpty` before it takes
-- the lock: what other threads do in between is left out.
pub mod Order
mod Tests
use libb.Prelude.{
  ℕ, zero, suc, ◌+◌, ◌≡◌, List, [], ◌∷◌, ◌++◌, Option, none, some, Bool, true, false, ◌==◌, length,
}
use libb.Prelude.Int.{ℤ, pos, negsuc}

-- `AddMessage(an_event)`
unfoldable pub add_message : Option ℕ → List ℕ → List ℕ
add_message none q = q
add_message (some m) q = q ++ (m ∷ [])

-- `_impl->remove(an_event)`
unfoldable pub remove_all : ℕ → List ℕ → List ℕ
remove_all m [] = []
remove_all m (x ∷ xs) =
    let rest = remove_all m xs in elim (x == m) [ true ↦ rest | false ↦ x ∷ rest ]

-- `RemoveMessage(an_event)`
unfoldable pub remove_message : Option ℕ → List ℕ → List ℕ
remove_message none q = q
remove_message (some m) q = remove_all m q

-- `NextMessage()`
unfoldable pub next_message : List ℕ → Option ℕ × List ℕ
next_message [] = (none, [])
next_message (m ∷ q) = (some m, q)

-- `FindMessage(index)`
unfoldable pub find_at : List ℕ → ℤ → Option ℕ
find_at [] index = none
find_at (m ∷ q) (pos zero) = some m
find_at (m ∷ q) (pos (suc i)) = find_at q (pos i)
find_at (m ∷ q) (negsuc i) = find_at q (negsuc (suc i))

-- A match of `FindMessage(what, index)`: the message if the index is 0, and else the search on.
abbrev pub matched : ℕ → (ℤ → Option ℕ) → ℤ → Option ℕ
matched m rest (pos zero) = some m
matched m rest (pos (suc i)) = rest (pos i)
matched m rest (negsuc i) = rest (negsuc (suc i))

-- `FindMessage(what, index)`, with the codes of the messages.
unfoldable pub find_what : (ℕ → ℕ) → ℕ → List ℕ → ℤ → Option ℕ
find_what code what [] index = none
find_what code what (m ∷ q) index = elim (code m == what) [
  | true ↦ matched m (find_what code what q) index
  | false ↦ find_what code what q index
]

unfoldable pub count_messages : List ℕ → ℕ
count_messages q = length q

unfoldable pub is_empty : List ℕ → Bool
is_empty [] = true
is_empty (m ∷ q) = false
