-- ===== src/Queue/Order.antt =====
-- BMessageQueue: the order in which messages come out, and what the searches find.
use libb.Prelude.{
  ℕ, zero, suc, ◌≡◌, ◌≢◌, refl, sym, ap, ◌∙◌, inl, inr, List, [], ◌∷◌, ◌++◌, Option, none, some,
  true, false, ◌==◌, get_elem?, append-nil, append_assoc, Bool-cases, arith,
}
use libb.Prelude.Int.{ℤ, pos, negsuc}
use libb.Queue.{add_message, remove_all, remove_message, next_message, find_at, find_what}

-- A call of a producer or of the consumer.
pub data Call : Type 0 where
  add : Option ℕ → Call
  next : Call

-- The queue after the calls.
unfoldable pub queue_after : List Call → List ℕ → List ℕ
queue_after [] q = q
queue_after (add m ∷ calls) q = queue_after calls (add_message m q)
queue_after (next ∷ calls) q = queue_after calls (next_message q).1

abbrev of_option : Option ℕ → List ℕ
of_option none = []
of_option (some m) = m ∷ []

-- The messages that the calls of NextMessage give, in order.
unfoldable pub given : List Call → List ℕ → List ℕ
given [] q = []
given (add m ∷ calls) q = given calls (add_message m q)
given (next ∷ calls) q = of_option (next_message q).0 ++ given calls (next_message q).1

-- The messages that the calls of AddMessage bring, in order.
unfoldable pub brought : List Call → List ℕ
brought [] = []
brought (add m ∷ calls) = of_option m ++ brought calls
brought (next ∷ calls) = brought calls

-- In any sequence of AddMessage and NextMessage, what NextMessage gave and then what is left in the
-- queue are what the queue held and then what AddMessage brought, in order: nothing is lost, doubled
-- or overtaken.
pub given-queue_after :
    (calls : List Call) (q : List ℕ) → given calls q ++ queue_after calls q ≡ q ++ brought calls
unfolding given queue_after brought add_message next_message
given-queue_after [] q = sym (append-nil q)
given-queue_after (add none ∷ calls) q = given-queue_after calls q
given-queue_after (add (some m) ∷ calls) q =
    given-queue_after calls (q ++ (m ∷ [])) ∙ append_assoc q (m ∷ []) (brought calls)
given-queue_after (next ∷ calls) [] = given-queue_after calls []
given-queue_after (next ∷ calls) (m ∷ q) = ap (λ r. m ∷ r) (given-queue_after calls q)

-- The messages with a code, in order.
unfoldable pub with_code : (ℕ → ℕ) → ℕ → List ℕ → List ℕ
with_code code what [] = []
with_code code what (m ∷ q) =
    let rest = with_code code what q in elim (code m == what) [ true ↦ m ∷ rest | false ↦ rest ]

find_what_negative :
    (code : ℕ → ℕ) (what : ℕ) (q : List ℕ) (i : ℕ) → find_what code what q (negsuc i) ≡ none
unfolding find_what
find_what_negative code what [] i = refl
find_what_negative code what (m ∷ q) i = elim (Bool-cases (code m == what)) [
  | inl e ↦ rw (find_what, e) (find_what_negative code what q (suc i))
  | inr e ↦ rw (find_what, e) (find_what_negative code what q i)
]

find_what_at :
    (code : ℕ → ℕ) (what : ℕ) (q : List ℕ) (i : ℕ)
    → find_what code what q (pos i) ≡ get_elem? (with_code code what q) i
unfolding find_what with_code
find_what_at code what [] i = refl
find_what_at code what (m ∷ q) zero = elim (Bool-cases (code m == what)) [
  | inl e ↦ rw (find_what, with_code, e) refl
  | inr e ↦ rw (find_what, with_code, e) (find_what_at code what q zero)
]
find_what_at code what (m ∷ q) (suc i) = elim (Bool-cases (code m == what)) [
  | inl e ↦ rw (find_what, with_code, e) (find_what_at code what q i)
  | inr e ↦ rw (find_what, with_code, e) (find_what_at code what q (suc i))
]

-- FindMessage by code and index gives the message at the index among those with the code, in the
-- order of the queue, and null past them or for a negative index.
pub find_what-with_code :
    (code : ℕ → ℕ) (what : ℕ) (q : List ℕ) (i : ℕ)
    → (find_what code what q (pos i) ≡ get_elem? (with_code code what q) i)
      × (find_what code what q (negsuc i) ≡ none)
find_what-with_code code what q i = (find_what_at code what q i, find_what_negative code what q i)

-- No index finds `m` behind another message, if none finds it in the rest.
find_at-cons :
    (m x : ℕ) (q : List ℕ) (i : ℤ)
    → (x == m) ≡ false
    → ((j : ℤ) → find_at q j ≢ some m)
    → find_at (x ∷ q) i ≢ some m
unfolding find_at
find_at-cons m x q (pos zero) ne h e = ground arith
find_at-cons m x q (pos (suc i)) ne h e = h (pos i) e
find_at-cons m x q (negsuc i) ne h e = h (negsuc (suc i)) e

find_at-remove_all : (m : ℕ) (q : List ℕ) (i : ℤ) → find_at (remove_all m q) i ≢ some m
unfolding remove_all find_at
find_at-remove_all m [] i e = ground arith
find_at-remove_all m (x ∷ q) i e = elim (Bool-cases (x == m)) [
  | inl b ↦ find_at-remove_all m q i (rw (remove_all, b) at e)
  | inr b ↦ find_at-cons m x (remove_all m q) i b (find_at-remove_all m q) (rw (remove_all, b) at e)
]

-- After RemoveMessage no index finds the message.
pub find_at-remove_message :
    (m : ℕ) (q : List ℕ) (i : ℤ) → find_at (remove_message (some m) q) i ≢ some m
unfolding remove_message
find_at-remove_message m q i = find_at-remove_all m q i
