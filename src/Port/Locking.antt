-- ===== src/Port/Locking.antt =====
-- kits/kernel/port.c: what the calls leave of the lock on the table of ports, in a process with one
-- thread.
use mathlib.Core.Path.{subst}
use libb.Prelude.{
  ℕ, zero, suc, ◌+◌, ◌-◌, ◌≡◌, refl, ap, ltb, inl, inr, List, Option, none, some, Bool, true, false,
  Bool-cases,
}
use libb.Prelude.Status.{Status}
use libb.Port.{
  Errno, econnrefused, eagain, Polled, ready, elapsed, not_polled, Sockets, Port, Ports, Outcome,
  done, waits, faults, endless, on, wlock, unlock, unlocked, find_port_info, fill_sockaddr,
  bind_port, bind_result, bound_if, bound_port_info, after_lookup, receiving_fd,
}
use libb.Port.Calls.{
  read_port, port_buffer_size, port_count, write_port, receive_at, size_of, size_is, count_next,
  after_send, after_poll, retry_snooze, is_set, message_of, count_of, count_loop, send_to,
  send_loop,
}
use libb.Port.Ends.{rlock-free}

-- A call that does not wait for the lock, and leaves it with the word `n` if it returns.
abbrev pub Leaves : {W A : Type 0} → ℕ → Outcome (A × Ports W) → Type 0
Leaves n (done r) = (r.1).lock ≡ n
Leaves n waits = ⊥
Leaves n faults = Unit
Leaves n endless = Unit

pub Leaves-on :
    {W A B : Type 0} (n m : ℕ) (o : Outcome (A × Ports W)) (k : A × Ports W → Outcome (B × Ports W))
    → Leaves n o
    → ((r : A × Ports W) → (r.1).lock ≡ n → Leaves m (k r))
    → Leaves m (on o k)
Leaves-on n m (done r) k h f = f r h
Leaves-on n m waits k h f = absurd h
Leaves-on n m faults k h f = tt
Leaves-on n m endless k h f = tt

-- A loop that does not take the lock.
abbrev pub Runs : {A : Type 0} → Outcome A → Type 0
Runs (done r) = Unit
Runs waits = ⊥
Runs faults = Unit
Runs endless = Unit

Leaves-world :
    {W A B : Type 0} (s : Ports W) (o : Outcome (A × W)) (k : A → B)
    → Runs o
    → Leaves s.lock (on o (λ r. done (k (r.0), record s { world = r.1 })))
Leaves-world s (done r) k h = refl
Leaves-world s waits k h = absurd h
Leaves-world s faults k h = tt
Leaves-world s endless k h = tt

pub wlock-open : {W : Type 0} (s : Ports W) → s.lock ≡ 1 → wlock s ≡ done (record s { lock = 0 })
wlock-open s e = rw e

module _ {W : Type 0} (os : Sockets W) where
  bind_result-Leaves :
      (i j : Port) (x : Bool × W) (s : Ports W)
      → s.lock ≡ 0
      → Leaves 1 (on (bind_result os i j x s) (after_lookup os))
  bind_result-Leaves i j (true, w) s e = ap unlocked e
  bind_result-Leaves i j (false, w) s e = ap unlocked e

  bind_port-Leaves :
      (i : Port) (o : Option Port) (s : Ports W)
      → s.lock ≡ 0
      → Leaves 1 (on (bind_port os i o s) (after_lookup os))
  bind_port-Leaves i none s e = tt
  bind_port-Leaves i (some j) s e = elim (Bool-cases j.bound) [
    | inl b ↦ rw b (ap unlocked e)
    | inr b ↦ rw b (bind_result-Leaves i j (os.bind j.fd (fill_sockaddr j) s.world) s e)
  ]

  bound_if-Leaves :
      (p : ℕ) (o : Option Port) (s : Ports W)
      → s.lock ≡ 2
      → Leaves 1 (on (bound_if os p o s) (after_lookup os))
  bound_if-Leaves p none s e = ap unlocked e
  bound_if-Leaves p (some i) s e = elim (Bool-cases i.bound) [
    | inl b ↦ rw b (ap unlocked e)
    | inr b ↦
        rw (b, wlock-open (unlock s) (ap unlocked e))
          (bind_port-Leaves (record i { bound = false }) (find_port_info p s.ports)
            (record s { lock = 0 }) refl)
  ]

  receiving_fd-Leaves : (p : ℕ) (s : Ports W) → s.lock ≡ 1 → Leaves 1 (receiving_fd os p s)
  unfolding receiving_fd bound_port_info
  receiving_fd-Leaves p s e =
      rw (rlock-free 0 s e)
        (bound_if-Leaves p (find_port_info p s.ports) (record s { lock = 2 }) refl)

  pub read_port-Leaves :
      (p size : ℕ) (t : Option ℕ) (s : Ports W) → s.lock ≡ 1 → Leaves 1 (read_port os p size t s)
  unfolding read_port
  read_port-Leaves p size t s e =
      Leaves-on 1 1 (receiving_fd os p s) (receive_at os size t) (receiving_fd-Leaves p s e)
        received_lock
    where
      received_lock : (r : Option ℕ × Ports W) → (r.1).lock ≡ 1 → Leaves 1 (receive_at os size t r)
      received_lock (none, u) h = h
      received_lock (some fd, u) h = h

  pub size-Leaves :
      (p : ℕ) (t : Option ℕ) (s : Ports W) → s.lock ≡ 1 → Leaves 1 (port_buffer_size os p t s)
  unfolding port_buffer_size
  size-Leaves p t s e =
      Leaves-on 1 1 (receiving_fd os p s) (size_of os t) (receiving_fd-Leaves p s e) size_lock
    where
      size_lock : (r : Option ℕ × Ports W) → (r.1).lock ≡ 1 → Leaves 1 (size_of os t r)
      size_lock (none, u) h = h
      size_lock (some fd, u) h = h

  count_next-Runs :
      (again : ℕ → ℕ → W → Outcome (ℕ × W)) (ov n : ℕ) (x : Option ℕ × W)
      → ((o m : ℕ) (w : W) → Runs (again o m w))
      → Runs (count_next os again ov n x)
  count_next-Runs again ov n (none, w) h = tt
  count_next-Runs again ov n (some zero, w) h = tt
  count_next-Runs again ov n (some (suc k), w) h = h (ov + suc k) (suc n) w

  count_loop-Runs : (fuel fd ov n : ℕ) (w : W) → Runs (count_loop os fuel fd ov n w)
  unfolding count_loop
  count_loop-Runs zero fd ov n w = tt
  count_loop-Runs (suc fuel) fd ov n w =
      count_next-Runs (λ o m u. count_loop os fuel fd o m u) ov n (os.peek fd ov w)
        (λ o m u. count_loop-Runs fuel fd o m u)

  pub count-Leaves : (fuel p : ℕ) (s : Ports W) → s.lock ≡ 1 → Leaves 1 (port_count os fuel p s)
  unfolding port_count
  count-Leaves fuel p s e =
      Leaves-on 1 1 (receiving_fd os p s) (count_of os fuel) (receiving_fd-Leaves p s e) count_lock
    where
      count_lock : (r : Option ℕ × Ports W) → (r.1).lock ≡ 1 → Leaves 1 (count_of os fuel r)
      count_lock (none, u) h = h
      count_lock (some fd, u) h =
          subst (λ n. Leaves n (count_of os fuel (some fd, u))) h
            (Leaves-world u (count_loop os fuel fd 0 0 u.world) size_is
              (count_loop-Runs fuel fd 0 0 u.world))

  after_send-Runs :
      (again : ℕ → W → Outcome (Status × W)) (r : ℕ) (t : Option ℕ) (fd : ℕ) (x : Option Errno × W)
      → ((q : ℕ) (w : W) → Runs (again q w))
      → Runs (after_send os again r t fd x)
  after_send-Runs again r t fd (none, w) h = tt
  after_send-Runs again r t fd (some econnrefused, w) h = elim (Bool-cases (ltb 1 r)) [
    | inl e ↦ rw e (h (r - 1) (os.snooze (retry_snooze t) w))
    | inr e ↦ rw e tt
  ]
  after_send-Runs again r none fd (some eagain, w) h = tt
  after_send-Runs again r (some zero) fd (some eagain, w) h = tt
  after_send-Runs again r (some (suc t)) fd (some eagain, w) h = poll (os.poll_out fd (suc t) w)
    where
      poll : (x : Polled × W) → Runs (after_poll os again r x)
      poll (ready, u) = h r u
      poll (elapsed, u) = tt
      poll (not_polled e, u) = tt
  after_send-Runs again r t fd (some e, w) h = tt

  send_loop-Runs :
      (fuel : ℕ) (t : Option ℕ) (fd : ℕ) (address msg : List ℕ) (r : ℕ) (w : W)
      → Runs (send_loop os fuel t fd address msg r w)
  unfolding send_loop
  send_loop-Runs zero t fd address msg r w = tt
  send_loop-Runs (suc fuel) t fd address msg r w =
      after_send-Runs (λ q u. send_loop os fuel t fd address msg q u) r t fd
        (os.sendmsg fd address msg (is_set t) w) (λ q u. send_loop-Runs fuel t fd address msg q u)

  pub write-Leaves :
      (fuel p code : ℕ) (buffer : List ℕ) (t : Option ℕ) (s : Ports W)
      → s.lock ≡ 1
      → Leaves 1 (write_port os fuel p code buffer t s)
  unfolding write_port
  write-Leaves fuel p code buffer t s e =
      rw (rlock-free 0 s e) (send_lock (find_port_info p s.ports))
    where
      send_lock :
          (i : Option Port)
          → Leaves 1 (send_to os fuel t (message_of code buffer) i (record s { lock = 1 }))
      send_lock none = refl
      send_lock (some i) =
          Leaves-world (record s { lock = 1 })
            (send_loop os fuel t i.fd (fill_sockaddr i) (message_of code buffer) 50 s.world)
            (λ st. st)
            (send_loop-Runs fuel t i.fd (fill_sockaddr i) (message_of code buffer) 50 s.world)
