-- ===== src/Port.antt =====
-- kits/kernel/port.c: the table of ports of a process and the calls on them, over the sockets of the
-- system, which are an interface. The lock is the word of kits/kernel/rwlock.c, with one thread.
pub mod Calls
pub mod Ends
pub mod Locking
pub mod Sequence
pub mod Order
mod Tests
use libb.Prelude.{
  ℕ, zero, suc, ◌-◌, List, [], ◌∷◌, ◌++◌, Option, none, some, Bool, true, false, if◌then◌else◌,
  ◌==◌, min, length, take,
}
use libb.Prelude.Status.{
  Status, ok, bad_value, bad_port_id, would_block, interrupted, no_memory, posix_error, timed_out,
}

-- The values of errno that the calls tell apart.
pub data Errno : Type 0 where
  eagain eintr enomem econnrefused ebadf efault enotconn enotsock einval emsgsize : Errno
  econnreset edestaddrreq eisconn epipe enobufs eopnotsupp another : Errno

pub data Received : Type 0 where
  datagram : List ℕ → Received
  not_received : Errno → Received

pub data Polled : Type 0 where
  ready elapsed : Polled
  not_polled : Errno → Polled

-- The calls of the system on a state W of the world. `recvmsg` gives at most so many bytes of a
-- datagram; `peek` gives the size of the one behind an offset.
pub record Sockets (W : Type 0) : Type 0 where
  pub socket : W → Option ℕ × W
  pub calloc : W → Bool × W
  pub bind : ℕ → List ℕ → W → Bool × W
  pub sendmsg : ℕ → List ℕ → List ℕ → Bool → W → Option Errno × W
  pub recvmsg : ℕ → ℕ → W → Received × W
  pub peek : ℕ → ℕ → W → Option ℕ × W
  pub poll_in : ℕ → ℕ → W → Polled × W
  pub poll_out : ℕ → ℕ → W → Polled × W
  pub snooze : ℕ → W → W
  pub close : ℕ → W → Option Errno × W
  pub shutdown : ℕ → W → Option Errno × W

-- `_port_info`
pub record Port : Type 0 where
  pub fd : ℕ
  pub name : List ℕ
  pub capacity : ℕ
  pub bound : Bool

-- `_ports` and its lock: 0 is a writer, 1 is open, more are readers.
pub record Ports (W : Type 0) : Type 0 where
  pub ports : List Port
  pub lock : ℕ
  pub world : W

-- What becomes of a call: it returns, waits for the lock, uses memory that is not there, or is still
-- in its loop.
pub data Outcome (A : Type 0) : Type 0 where
  done : A → Outcome A
  waits faults endless : Outcome A

abbrev pub on : {A B : Type 0} → Outcome A → (A → Outcome B) → Outcome B
on (done a) k = k a
on waits k = waits
on faults k = faults
on endless k = endless

-- `_rwlock_rlock`, `_rwlock_wlock` and `_rwlock_unlock`
abbrev pub rlock_at : {W : Type 0} → ℕ → Ports W → Outcome (Ports W)
rlock_at zero s = waits
rlock_at (suc n) s = done (record s { lock = suc (suc n) })

abbrev pub rlock : {W : Type 0} → Ports W → Outcome (Ports W)
rlock s = rlock_at s.lock s

abbrev pub wlock : {W : Type 0} → Ports W → Outcome (Ports W)
wlock s = if s.lock == 1 then done (record s { lock = 0 }) else waits

abbrev pub unlocked : ℕ → ℕ
unlocked zero = 1
unlocked (suc zero) = 1
unlocked (suc (suc n)) = suc n

abbrev pub unlock : {W : Type 0} → Ports W → Ports W
unlock s = record s { lock = unlocked s.lock }

-- `_fill_sockaddr`: the name in the address.
abbrev pub fill_sockaddr : Port → List ℕ
fill_sockaddr i = take (min (length i.name) 107) i.name

-- `_find_port_info`
unfoldable pub find_port_info : ℕ → List Port → Option Port
find_port_info p [] = none
find_port_info p (i ∷ is) = if i.fd == p then some i else find_port_info p is

-- `info->bound = true`, and `DL_DELETE`, for the first port with a descriptor.
unfoldable pub set_bound : ℕ → List Port → List Port
set_bound p [] = []
set_bound p (i ∷ is) = if i.fd == p then record i { bound = true } ∷ is else i ∷ set_bound p is

unfoldable pub delete_info : ℕ → List Port → List Port
delete_info p [] = []
delete_info p (i ∷ is) = if i.fd == p then is else i ∷ delete_info p is

-- `_bound_port_info`, which binds the socket while it holds the lock as a writer.
module _ {W : Type 0} (os : Sockets W) where
  abbrev pub bind_result : Port → Port → Bool × W → Ports W → Outcome (Option Port × Ports W)
  bind_result i j (false, w) s = done (none, record s { world = w })
  bind_result i j (true, w) s =
      done (some i, record s { ports = set_bound j.fd s.ports; world = w })

  abbrev pub bind_port : Port → Option Port → Ports W → Outcome (Option Port × Ports W)
  bind_port i none s = faults
  bind_port i (some j) s =
      if j.bound
      then done (some i, s)
      else bind_result i j (os.bind j.fd (fill_sockaddr j) s.world) s

  abbrev pub bound_if : ℕ → Option Port → Ports W → Outcome (Option Port × Ports W)
  bound_if p none s = done (none, s)
  bound_if p (some i) s =
      if i.bound
      then done (some i, s)
      else on (wlock (unlock s)) (λ u. bind_port i (find_port_info p u.ports) u)

  unfoldable pub bound_port_info : ℕ → Ports W → Outcome (Option Port × Ports W)
  bound_port_info p s = bound_if p (find_port_info p s.ports) s

  abbrev pub after_lookup : Option Port × Ports W → Outcome (Option ℕ × Ports W)
  after_lookup (none, s) = done (none, unlock s)
  after_lookup (some i, s) = done (some i.fd, unlock s)

  -- The descriptor that a call reads from, and -1 for none.
  unfoldable pub receiving_fd : ℕ → Ports W → Outcome (Option ℕ × Ports W)
  receiving_fd p s = on (rlock s) (λ u. on (bound_port_info p u) after_lookup)

-- The errors of `recvmsg` and of `sendmsg`.
abbrev pub receive_error : Errno → Status
receive_error ebadf = bad_port_id
receive_error econnrefused = bad_port_id
receive_error efault = bad_port_id
receive_error enotconn = bad_port_id
receive_error enotsock = bad_port_id
receive_error eagain = would_block
receive_error eintr = interrupted
receive_error einval = bad_value
receive_error emsgsize = bad_value
receive_error enomem = no_memory
receive_error _ = posix_error

abbrev pub send_error : Errno → Status
send_error ebadf = bad_port_id
send_error econnreset = bad_port_id
send_error edestaddrreq = bad_port_id
send_error eisconn = bad_port_id
send_error enotconn = bad_port_id
send_error enotsock = bad_port_id
send_error epipe = bad_port_id
send_error eagain = would_block
send_error eintr = interrupted
send_error efault = bad_value
send_error einval = bad_value
send_error emsgsize = bad_value
send_error enobufs = bad_value
send_error eopnotsupp = bad_value
send_error enomem = no_memory
send_error _ = posix_error

-- `_port_fd_check_recv`: the status that ends the call, if the wait for a datagram does.
abbrev pub poll_status : Polled → Option Status
poll_status ready = none
poll_status elapsed = some timed_out
poll_status (not_polled eintr) = some interrupted
poll_status (not_polled enomem) = some no_memory
poll_status (not_polled _) = none

abbrev pub polled : {W : Type 0} → Polled × W → Option Status × W
polled (q, w) = (poll_status q, w)

-- A relative timeout, if there is one.
abbrev pub check_recv : {W : Type 0} → Sockets W → Option ℕ → ℕ → W → Option Status × W
check_recv os none fd w = (none, w)
check_recv os (some t) fd w = polled (os.poll_in fd t w)
