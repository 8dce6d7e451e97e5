-- ===== src/Port/Tests.antt =====
-- kits/kernel/port.c: a system with one queue of datagrams, runs on it, and witnesses of the theorems.
use libb.Prelude.{
  ℕ, suc, ◌+◌, ◌≡◌, refl, sym, ap, List, [], ◌∷◌, ◌++◌, Option, none, some, Bool, true, false,
  length, take,
}
use libb.Prelude.Int.{pos}
use libb.Prelude.Bytes.{le_bytes}
use libb.Prelude.Status.{Status, ok, posix_error, bad_port_id, bad_value}
use libb.Prelude.Threads.{update}
use libb.Port.{
  Errno, eagain, econnrefused, Received, datagram, not_received, ready, Sockets, Port, Ports, done,
  waits, faults, find_port_info, bound_port_info, receiving_fd,
}
use libb.Port.Calls.{
  read_bytes, size_is, no_size, PortInfo, send_loop, count_loop, read_port, port_buffer_size,
  port_count, write_port, create_port, delete_port, get_port_info, max_write_retries,
}
use libb.Port.Ends.{write_port_ends}
use libb.Port.Locking.{Leaves}
use libb.Port.Sequence.{
  create, read_call, write_call, close, perform_all, perform_all-Leaves, get_port_info_holds,
}
use libb.Port.Order.{IsDatagram, read_port-write_port}

-- The addresses of sockets, one queue, the next descriptor, and the time slept.
record Net : Type 0 where
  address : ℕ → Option (List ℕ)
  queue : List (List ℕ)
  next : ℕ
  slept : ℕ

abbrev receive_one : ℕ → Net → List (List ℕ) → Received × Net
receive_one n w [] = (not_received eagain, w)
receive_one n w (m ∷ ms) = (datagram (take n m), record w { queue = ms })

abbrev peek_one : Net → List (List ℕ) → Option ℕ × Net
peek_one w [] = (none, w)
peek_one w (m ∷ ms) = (some (length m), w)

abbrev net : Sockets Net
net = record {
  socket = λ w. (some w.next, record w { next = suc w.next });
  calloc = λ w. (true, w);
  bind = λ fd a w. (true, record w { address = update w.address fd (some a) });
  sendmsg = λ fd a m nowait w. (none, record w { queue = w.queue ++ (m ∷ []) });
  recvmsg = λ fd n w. receive_one n w w.queue;
  peek = λ fd ov w. peek_one w w.queue;
  poll_in = λ fd t w. (ready, w);
  poll_out = λ fd t w. (ready, w);
  snooze = λ t w. record w { slept = w.slept + t };
  close = λ fd w. (none, w);
  shutdown = λ fd w. (none, w);
}

-- Nobody has bound the address.
abbrev refusing : Sockets Net
refusing = record net { sendmsg = λ fd a m nowait w. (some econnrefused, w) }

abbrev start : Net
start = record { address = λ fd. none; queue = []; next = 3; slept = 0 }

abbrev port_a : Bool → Port
port_a b = record { fd = 3; name = 97 ∷ []; capacity = 1; bound = b }

abbrev nothing : Ports Net
nothing = record { ports = []; lock = 1; world = start }

abbrev created : Ports Net
created = record { ports = port_a false ∷ []; lock = 1; world = record start { next = 4 } }

abbrev listening : Ports Net
listening = record {
  ports = port_a true ∷ [];
  lock = 1;
  world = record start { next = 4; address = update (λ fd. none) 3 (some (97 ∷ [])) };
}

one_port : create_port net 1 (some (97 ∷ [])) nothing ≡ done (size_is 3, created)
unfolding create_port
one_port = refl

no_name : create_port net 1 (some []) nothing ≡ done (no_size bad_value, nothing)
unfolding create_port
no_name = refl

-- 49 times of sleep, and then the error.
abbrev gave_up : Ports Net
gave_up = record created { world = record created.world { slept = 490000 } }

refused_fifty_times :
    write_port refusing max_write_retries 3 7 [] none created ≡ done (posix_error, gave_up)
unfolding write_port find_port_info send_loop
refused_fifty_times = refl

abbrev written : Ports Net
written = record listening {
  world = record listening.world { queue = (7 ∷ 0 ∷ 0 ∷ 0 ∷ 8 ∷ 9 ∷ []) ∷ [] };
}

write_once : write_port net 1 3 7 (8 ∷ 9 ∷ []) none listening ≡ done (ok, written)
unfolding write_port find_port_info send_loop le_bytes
write_once = refl

-- The descriptor is closed, and the freed memory is read.
delete_one : delete_port net 3 created ≡ faults
unfolding delete_port find_port_info
delete_one = refl

delete_none : delete_port net 4 created ≡ done (bad_port_id, created)
unfolding delete_port find_port_info
delete_none = refl

-- The call takes the lock as a reader, and to bind the socket as a writer.
info_unbound : get_port_info net 9 3 1 created ≡ waits
unfolding get_port_info port_count receiving_fd bound_port_info find_port_info
info_unbound = refl

write_port_ends_example :
    (y : Status × Ports Net) × ((write_port refusing max_write_retries 3 7 [] none created ≡ done y)
      × (((y.1).lock ≡ 1) × ((y.1).ports ≡ port_a false ∷ [])))
write_port_ends_example = write_port_ends refusing 0 3 7 [] created refl

perform_all-Leaves_example : Leaves 1 (
    perform_all net 60
      (create 1 (some (97 ∷ []))
        ∷ read_call 3 8 none
        ∷ write_call 3 7 (8 ∷ []) none
        ∷ read_call 3 8 none
        ∷ close 3
        ∷ [])
      nothing)
perform_all-Leaves_example =
    perform_all-Leaves net 60
      (create 1 (some (97 ∷ []))
        ∷ read_call 3 8 none
        ∷ write_call 3 7 (8 ∷ []) none
        ∷ read_call 3 8 none
        ∷ close 3
        ∷ [])
      nothing refl

abbrev info_a : PortInfo
info_a = record { port = 3; team = 1; name = 97 ∷ []; capacity = 1; queue_count = size_is 0 }

find_a : find_port_info 3 listening.ports ≡ some (port_a true)
unfolding find_port_info
find_a = refl

info_bound : get_port_info net 9 3 1 listening ≡ done (some info_a, record listening { lock = 2 })
unfolding get_port_info port_count receiving_fd bound_port_info find_port_info count_loop
info_bound = refl

get_port_info_holds_example :
    (true ≡ true)
    × (((record listening { lock = 2 }).lock ≡ 2)
        × (delete_port net 4 (record listening { lock = 2 }) ≡ waits))
get_port_info_holds_example =
    get_port_info_holds net 9 3 4 1 (port_a true) listening (record listening { lock = 2 })
      (some info_a) find_a refl info_bound

was_sent : {w w' : Net} {c : Errno} → ◌≡◌ {A = Option Errno × Net} (none, w) (some c, w') → ⊥
was_sent e = absurd cc

abbrev in_order : IsDatagram net
in_order = record {
  address = λ w. w.address;
  queue = λ w a. w.queue;
  sendmsg_queue =
      λ fd a m nowait w w' e. (ap (λ z. (z.1).address) (sym e), ap (λ z. (z.1).queue) (sym e));
  sendmsg_failed = λ fd a m nowait w w' c e. (ap (λ z. (z.1).address) (sym e), absurd (was_sent e));
  snooze_queue = λ t w. (refl, refl);
  recvmsg_queue = λ fd n a m ms w h e. (record w { queue = ms }, (ap (receive_one n w) e, refl));
  peek_queue = λ fd a m ms w h e. (w, ap (peek_one w) e);
}

read_port-write_port_example :
    (u v : Ports Net) × ((read_port net 3 1 none written
        ≡ done (read_bytes (pos 1) (le_bytes 4 7) (8 ∷ []), u))
      × (((u.world).queue ≡ []) × (port_buffer_size net 3 none written ≡ done (size_is 6, v))))
read_port-write_port_example =
    read_port-write_port in_order 1 3 7 1 (8 ∷ 9 ∷ []) (port_a true) listening written refl find_a
      refl refl refl write_once
