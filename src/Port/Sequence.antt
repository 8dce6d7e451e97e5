-- ===== src/Port/Sequence.antt =====
-- kits/kernel/port.c: sequences of calls in a process with one thread, and _get_port_info.
use libb.Prelude.{ℕ, ◌≡◌, refl, sym, ap, List, [], ◌∷◌, Option, none, some, Bool, true, false}
use libb.Port.{
  Errno, Sockets, Port, Ports, Outcome, done, waits, faults, endless, on, find_port_info,
  delete_info, receiving_fd, bound_port_info,
}
use libb.Port.Calls.{
  size_is, read_port, port_buffer_size, port_count, write_port, create_port, delete_port,
  close_port, get_port_info, PortInfo, make_with, make_port, append_port, delete_found, deleted,
  close_found, shut, info_of, count_loop,
}
use libb.Port.Ends.{rlock-free}
use libb.Port.Locking.{
  Leaves, Leaves-on, wlock-open, read_port-Leaves, size-Leaves, count-Leaves, write-Leaves,
}

-- A call with its arguments.
pub data Call : Type 0 where
  create : ℕ → Option (List ℕ) → Call
  delete : ℕ → Call
  close : ℕ → Call
  read_call : ℕ → ℕ → Option ℕ → Call
  buffer_size : ℕ → Option ℕ → Call
  count : ℕ → Call
  write_call : ℕ → ℕ → List ℕ → Option ℕ → Call

module _ {W : Type 0} (os : Sockets W) where
  append_port-Leaves : (i : Port) (s : Ports W) → s.lock ≡ 1 → Leaves 1 (append_port os i s)
  append_port-Leaves i s e = rw (wlock-open s e) refl

  create-Leaves :
      (capacity : ℕ) (name : Option (List ℕ)) (s : Ports W)
      → s.lock ≡ 1
      → Leaves 1 (create_port os capacity name s)
  unfolding create_port
  create-Leaves capacity none s e = e
  create-Leaves capacity (some []) s e = e
  create-Leaves capacity (some (c ∷ cs)) s e = made (os.socket s.world)
    where
      allocated : (fd : ℕ) (x : Bool × W) → Leaves 1 (make_port os fd capacity (c ∷ cs) s x)
      allocated fd (false, w) = tt
      allocated fd (true, w) = append_port-Leaves _ (record s { world = w }) e

      made : (x : Option ℕ × W) → Leaves 1 (make_with os capacity (c ∷ cs) s x)
      made (none, w) = e
      made (some fd, w) = allocated fd (os.calloc w)

  delete-Leaves : (p : ℕ) (s : Ports W) → s.lock ≡ 1 → Leaves 1 (delete_port os p s)
  unfolding delete_port
  delete-Leaves p s e = rw (wlock-open s e) (found (find_port_info p s.ports))
    where
      gone : (u : Ports W) (x : Option Errno × W) → u.lock ≡ 1 → Leaves 1 (deleted os u x)
      gone u (none, w) h = tt
      gone u (some c, w) h = h

      found : (i : Option Port) → Leaves 1 (delete_found os p i (record s { lock = 0 }))
      found none = refl
      found (some i) =
          gone (record s { lock = 1; ports = delete_info p s.ports }) (os.close i.fd s.world) refl

  close-Leaves : (p : ℕ) (s : Ports W) → s.lock ≡ 1 → Leaves 1 (close_port os p s)
  unfolding close_port
  close-Leaves p s e = rw (rlock-free 0 s e) (found (find_port_info p s.ports))
    where
      closed : (u : Ports W) (x : Option Errno × W) → u.lock ≡ 1 → Leaves 1 (shut os u x)
      closed u (none, w) h = h
      closed u (some c, w) h = h

      found : (i : Option Port) → Leaves 1 (close_found os i (record s { lock = 1 }))
      found none = refl
      found (some i) = closed (record s { lock = 1 }) (os.shutdown i.fd s.world) refl

  -- What a call leaves, its result aside.
  abbrev pub state_of : {A : Type 0} → Outcome (A × Ports W) → Outcome (Unit × Ports W)
  state_of o = on o (λ r. done (tt, r.1))

  abbrev pub perform : ℕ → Call → Ports W → Outcome (Unit × Ports W)
  perform fuel (create n name) s = state_of (create_port os n name s)
  perform fuel (delete p) s = state_of (delete_port os p s)
  perform fuel (close p) s = state_of (close_port os p s)
  perform fuel (read_call p size t) s = state_of (read_port os p size t s)
  perform fuel (buffer_size p t) s = state_of (port_buffer_size os p t s)
  perform fuel (count p) s = state_of (port_count os fuel p s)
  perform fuel (write_call p code buffer t) s = state_of (write_port os fuel p code buffer t s)

  unfoldable pub perform_all : ℕ → List Call → Ports W → Outcome (Unit × Ports W)
  perform_all fuel [] s = done (tt, s)
  perform_all fuel (c ∷ cs) s = on (perform fuel c s) (λ r. perform_all fuel cs (r.1))

  state-Leaves : {A : Type 0} (o : Outcome (A × Ports W)) → Leaves 1 o → Leaves 1 (state_of o)
  state-Leaves o h = Leaves-on 1 1 o (λ r. done (tt, r.1)) h (λ r e. e)

  perform-Leaves : (fuel : ℕ) (c : Call) (s : Ports W) → s.lock ≡ 1 → Leaves 1 (perform fuel c s)
  perform-Leaves fuel (create n name) s e = state-Leaves _ (create-Leaves n name s e)
  perform-Leaves fuel (delete p) s e = state-Leaves _ (delete-Leaves p s e)
  perform-Leaves fuel (close p) s e = state-Leaves _ (close-Leaves p s e)
  perform-Leaves fuel (read_call p size t) s e = state-Leaves _ (read_port-Leaves os p size t s e)
  perform-Leaves fuel (buffer_size p t) s e = state-Leaves _ (size-Leaves os p t s e)
  perform-Leaves fuel (count p) s e = state-Leaves _ (count-Leaves os fuel p s e)
  perform-Leaves fuel (write_call p code buffer t) s e =
      state-Leaves _ (write-Leaves os fuel p code buffer t s e)

  -- From an open lock, no sequence of calls other than _get_port_info ever waits for the lock, and
  -- where it returns the lock is open again, whatever the sockets answer.
  pub perform_all-Leaves :
      (fuel : ℕ) (cs : List Call) (s : Ports W) → s.lock ≡ 1 → Leaves 1 (perform_all fuel cs s)
  unfolding perform_all
  perform_all-Leaves fuel [] s e = e
  perform_all-Leaves fuel (c ∷ cs) s e =
      Leaves-on 1 1 (perform fuel c s) (λ r. perform_all fuel cs (r.1)) (perform-Leaves fuel c s e)
        (λ r h. perform_all-Leaves fuel cs (r.1) h)

  abbrev lock_left : {A : Type 0} → Outcome (A × Ports W) → ℕ
  lock_left (done r) = (r.1).lock
  lock_left _ = 0

  -- `_get_port_info` of a port whose socket is bound, or is not, at the call of `port_count`.
  counted :
      (p team : ℕ) (i : Port) (u : Ports W) (o : Outcome (ℕ × W)) (r : Option PortInfo)
      (s' : Ports W)
      → on (on o (λ x. done (size_is (x.0), record u { world = x.1 }))) (info_of os p team i)
        ≡ done (r, s')
      → s'.lock ≡ u.lock
  counted p team i u (done x) r s' e = sym (ap lock_left e)
  counted p team i u waits r s' e = absurd cc
  counted p team i u faults r s' e = absurd cc
  counted p team i u endless r s' e = absurd cc

  after_info :
      (b : Bool) (fuel p team : ℕ) (i : Port) (s s' : Ports W) (r : Option PortInfo)
      → i.bound ≡ b
      → find_port_info p s.ports ≡ some i
      → s.lock ≡ 1
      → get_port_info os fuel p team s ≡ done (r, s')
      → (b ≡ true) × (s'.lock ≡ 2)
  unfolding get_port_info port_count receiving_fd bound_port_info
  after_info true fuel p team i s s' r eb ef el e =
      let f = rw (rlock-free 0 s el, ef, ef, eb) at e in
      (
        refl,
        counted p team (record i { bound = true }) (record s { lock = 2 })
            (count_loop os fuel i.fd 0 0 s.world) r s' f,
      )
  after_info false fuel p team i s s' r eb ef el e =
      let f = rw (rlock-free 0 s el, ef, ef, eb) at e in absurd cc

  -- Where _get_port_info returns for a port of the table, the lock being open, the socket was bound,
  -- the lock is left with a reader, and delete_port then waits for it with any port.
  pub get_port_info_holds :
      (fuel p q team : ℕ) (i : Port) (s s' : Ports W) (r : Option PortInfo)
      → find_port_info p s.ports ≡ some i
      → s.lock ≡ 1
      → get_port_info os fuel p team s ≡ done (r, s')
      → (i.bound ≡ true) × ((s'.lock ≡ 2) × (delete_port os q s' ≡ waits))
  unfolding delete_port
  get_port_info_holds fuel p q team i s s' r ef el e =
      let (b, h) = after_info i.bound fuel p team i s s' r refl ef el e in (b, (h, rw h))
