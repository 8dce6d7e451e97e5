-- ===== src/Port/Calls.antt =====
-- kits/kernel/port.c: reading from a port, writing to one with the loop that tries again, and making,
-- deleting and closing a port.
use libb.Prelude.{
  ℕ, zero, suc, ◌+◌, ◌-◌, ◌/◌, List, [], ◌∷◌, ◌++◌, Option, none, some, Bool, true, false,
  if◌then◌else◌, ◌==◌, ltb, min, length, take, drop,
}
use libb.Prelude.Bytes.{le_bytes}
use libb.Prelude.Int.{ℤ, sub_ℕ}
use libb.Prelude.Status.{
  Status, ok, bad_value, bad_port_id, would_block, interrupted, posix_error, timed_out,
  no_more_ports, bad_team_id,
}
use libb.Port.{
  Errno, eagain, eintr, econnrefused, ebadf, enotsock, Received, datagram, not_received, Polled,
  ready, elapsed, not_polled, Sockets, Port, Ports, Outcome, done, faults, endless, on, rlock,
  wlock, unlock, fill_sockaddr, find_port_info, delete_info, receiving_fd, receive_error,
  send_error, check_recv,
}

-- A number of bytes or a count, the error that is returned in its place, and what was stored at
-- `code` and `buffer`: the bytes of the datagram before and behind the fourth.
pub data Read : Type 0 where
  read_bytes : ℤ → List ℕ → List ℕ → Read
  read_fails : Status → Read

pub data Size : Type 0 where
  size_is : ℕ → Size
  no_size : Status → Size

-- `port_info`, whose `queue_count` is what `port_count` gives, an error included.
pub record PortInfo : Type 0 where
  pub port : ℕ
  pub team : ℕ
  pub name : List ℕ
  pub capacity : ℕ
  pub queue_count : Size

-- `MAX_WRITE_RETRIES` and `MAX_WRITE_SNOOZE`
abbrev pub max_write_retries : ℕ
max_write_retries = 50

abbrev pub max_write_snooze : ℕ
max_write_snooze = 10000

-- `retrysnooze`
abbrev pub retry_snooze : Option ℕ → ℕ
retry_snooze none = max_write_snooze
retry_snooze (some t) = min max_write_snooze (t / max_write_retries)

abbrev pub is_set : Option ℕ → Bool
is_set none = false
is_set (some t) = true

abbrev pub message_of : ℕ → List ℕ → List ℕ
message_of code buffer = le_bytes 4 code ++ buffer

module _ {W : Type 0} (os : Sockets W) where
  -- `recvmsg` into `code` and `buffer`
  abbrev pub store_datagram : Received × W → Read × W
  store_datagram (datagram bs, w) = (read_bytes (sub_ℕ (length bs) 4) (take 4 bs) (drop 4 bs), w)
  store_datagram (not_received e, w) = (read_fails (receive_error e), w)

  abbrev pub receive_if : ℕ → ℕ → Option Status × W → Read × W
  receive_if fd size (some e, w) = (read_fails e, w)
  receive_if fd size (none, w) = store_datagram (os.recvmsg fd (4 + size) w)

  abbrev pub receive_at : ℕ → Option ℕ → Option ℕ × Ports W → Outcome (Read × Ports W)
  receive_at size t (none, s) = done (read_fails bad_port_id, s)
  receive_at size t (some fd, s) =
      let (r, w) = receive_if fd size (check_recv os t fd s.world) in
      done (r, record s { world = w })

  -- `read_port_etc`; `read_port` gives no timeout.
  unfoldable pub read_port : ℕ → ℕ → Option ℕ → Ports W → Outcome (Read × Ports W)
  read_port p size t s = on (receiving_fd os p s) (receive_at size t)

  abbrev pub peeked : Option ℕ × W → Size × W
  peeked (none, w) = (no_size bad_port_id, w)
  peeked (some n, w) = (size_is n, w)

  abbrev pub peek_if : ℕ → Option Status × W → Size × W
  peek_if fd (some e, w) = (no_size e, w)
  peek_if fd (none, w) = peeked (os.peek fd 0 w)

  abbrev pub size_of : Option ℕ → Option ℕ × Ports W → Outcome (Size × Ports W)
  size_of t (none, s) = done (no_size bad_port_id, s)
  size_of t (some fd, s) =
      let (r, w) = peek_if fd (check_recv os t fd s.world) in done (r, record s { world = w })

  -- `port_buffer_size_etc`
  unfoldable pub port_buffer_size : ℕ → Option ℕ → Ports W → Outcome (Size × Ports W)
  port_buffer_size p t s = on (receiving_fd os p s) (size_of t)

  -- The loop of `port_count`, where a datagram without bytes ends it.
  abbrev pub count_next : (ℕ → ℕ → W → Outcome (ℕ × W)) → ℕ → ℕ → Option ℕ × W → Outcome (ℕ × W)
  count_next again ov n (none, w) = done (n, w)
  count_next again ov n (some zero, w) = done (n, w)
  count_next again ov n (some (suc k), w) = again (ov + suc k) (suc n) w

  unfoldable pub count_loop : ℕ → ℕ → ℕ → ℕ → W → Outcome (ℕ × W)
  count_loop zero fd ov n w = endless
  count_loop (suc fuel) fd ov n w =
      count_next (λ o m u. count_loop fuel fd o m u) ov n (os.peek fd ov w)

  abbrev pub count_of : ℕ → Option ℕ × Ports W → Outcome (Size × Ports W)
  count_of fuel (none, s) = done (no_size bad_port_id, s)
  count_of fuel (some fd, s) =
      on (count_loop fuel fd 0 0 s.world) (λ r. done (size_is (r.0), record s { world = r.1 }))

  unfoldable pub port_count : ℕ → ℕ → Ports W → Outcome (Size × Ports W)
  port_count fuel p s = on (receiving_fd os p s) (count_of fuel)

  -- What follows an attempt to send: the end, or another attempt with the retries that are left.
  abbrev pub after_poll : (ℕ → W → Outcome (Status × W)) → ℕ → Polled × W → Outcome (Status × W)
  after_poll again r (ready, w) = again r w
  after_poll again r (elapsed, w) = done (timed_out, w)
  after_poll again r (not_polled e, w) = done (send_error e, w)

  abbrev pub wait_to_send :
      (ℕ → W → Outcome (Status × W)) → ℕ → Option ℕ → ℕ → W → Outcome (Status × W)
  wait_to_send again r none fd w = done (would_block, w)
  wait_to_send again r (some zero) fd w = done (would_block, w)
  wait_to_send again r (some (suc t)) fd w = after_poll again r (os.poll_out fd (suc t) w)

  abbrev pub after_send :
      (ℕ → W → Outcome (Status × W)) → ℕ → Option ℕ → ℕ → Option Errno × W → Outcome (Status × W)
  after_send again r t fd (none, w) = done (ok, w)
  after_send again r t fd (some econnrefused, w) =
      if ltb 1 r then again (r - 1) (os.snooze (retry_snooze t) w) else done (posix_error, w)
  after_send again r t fd (some eagain, w) = wait_to_send again r t fd w
  after_send again r t fd (some e, w) = done (send_error e, w)

  unfoldable pub send_loop : ℕ → Option ℕ → ℕ → List ℕ → List ℕ → ℕ → W → Outcome (Status × W)
  send_loop zero t fd address msg r w = endless
  send_loop (suc fuel) t fd address msg r w =
      after_send (λ q u. send_loop fuel t fd address msg q u) r t fd
        (os.sendmsg fd address msg (is_set t) w)

  abbrev pub send_to : ℕ → Option ℕ → List ℕ → Option Port → Ports W → Outcome (Status × Ports W)
  send_to fuel t msg none s = done (bad_port_id, s)
  send_to fuel t msg (some i) s =
      on (send_loop fuel t i.fd (fill_sockaddr i) msg max_write_retries s.world)
        (λ r. done (r.0, record s { world = r.1 }))

  -- `write_port_etc`; `write_port` gives no timeout.
  unfoldable pub write_port : ℕ → ℕ → ℕ → List ℕ → Option ℕ → Ports W → Outcome (Status × Ports W)
  write_port fuel p code buffer t s =
      on (rlock s)
        (λ u. send_to fuel t (message_of code buffer) (find_port_info p u.ports) (unlock u))

  -- `create_port`: the port, or an error. A failed `calloc` is not tested.
  abbrev pub append_port : Port → Ports W → Outcome (Size × Ports W)
  append_port i s =
      on (wlock s) (λ u. done (size_is i.fd, unlock (record u { ports = u.ports ++ (i ∷ []) })))

  abbrev pub make_port : ℕ → ℕ → List ℕ → Ports W → Bool × W → Outcome (Size × Ports W)
  make_port fd capacity name s (false, w) = faults
  make_port fd capacity name s (true, w) =
      append_port
        (record {
          fd = fd;
          name = take (min (length name) 32) name;
          capacity = capacity;
          bound = false;
        })
        (record s { world = w })

  abbrev pub make_with : ℕ → List ℕ → Ports W → Option ℕ × W → Outcome (Size × Ports W)
  make_with capacity name s (none, w) = done (no_size no_more_ports, record s { world = w })
  make_with capacity name s (some fd, w) = make_port fd capacity name s (os.calloc w)

  unfoldable pub create_port : ℕ → Option (List ℕ) → Ports W → Outcome (Size × Ports W)
  create_port capacity none s = done (no_size bad_value, s)
  create_port capacity (some []) s = done (no_size bad_value, s)
  create_port capacity (some (c ∷ cs)) s = make_with capacity (c ∷ cs) s (os.socket s.world)

  -- `delete_port`, which reads `info->fd` after `free(info)` when the descriptor was closed.
  abbrev pub delete_error : Errno → Status
  delete_error ebadf = bad_port_id
  delete_error eintr = interrupted
  delete_error _ = posix_error

  abbrev pub deleted : Ports W → Option Errno × W → Outcome (Status × Ports W)
  deleted s (none, w) = faults
  deleted s (some e, w) = done (delete_error e, record s { world = w })

  abbrev pub delete_found : ℕ → Option Port → Ports W → Outcome (Status × Ports W)
  delete_found p none s = done (bad_port_id, unlock s)
  delete_found p (some i) s =
      deleted (unlock (record s { ports = delete_info p s.ports })) (os.close i.fd s.world)

  unfoldable pub delete_port : ℕ → Ports W → Outcome (Status × Ports W)
  delete_port p s = on (wlock s) (λ u. delete_found p (find_port_info p u.ports) u)

  -- `close_port`
  abbrev pub close_error : Errno → Status
  close_error ebadf = bad_port_id
  close_error enotsock = bad_port_id
  close_error _ = posix_error

  abbrev pub shut : Ports W → Option Errno × W → Outcome (Status × Ports W)
  shut s (none, w) = done (ok, record s { world = w })
  shut s (some e, w) = done (close_error e, record s { world = w })

  abbrev pub close_found : Option Port → Ports W → Outcome (Status × Ports W)
  close_found none s = done (bad_port_id, s)
  close_found (some i) s = shut s (os.shutdown i.fd s.world)

  unfoldable pub close_port : ℕ → Ports W → Outcome (Status × Ports W)
  close_port p s = on (rlock s) (λ u. close_found (find_port_info p u.ports) (unlock u))

  -- `_get_port_info` in a process `team`, which returns with the lock where the port is there. The last
  -- part counts the datagrams and takes the lock again.
  abbrev pub info_of : ℕ → ℕ → Port → Size × Ports W → Outcome (Option PortInfo × Ports W)
  info_of p team i (n, s) = done (
    some (record { port = p; team = team; name = i.name; capacity = i.capacity; queue_count = n }),
    s,
  )

  abbrev pub info_found : ℕ → ℕ → ℕ → Option Port → Ports W → Outcome (Option PortInfo × Ports W)
  info_found fuel p team none s = done (none, unlock s)
  info_found fuel p team (some i) s = on (port_count fuel p s) (info_of p team i)

  unfoldable pub get_port_info : ℕ → ℕ → ℕ → Ports W → Outcome (Option PortInfo × Ports W)
  get_port_info fuel p team s =
      on (rlock s) (λ u. info_found fuel p team (find_port_info p u.ports) u)

-- `set_port_owner` in a process `team`
abbrev pub set_port_owner : ℕ → ℕ → Status
set_port_owner team new = if new == team then ok else bad_team_id
