-- ===== src/Port/Order.antt =====
-- kits/kernel/port.c: a message written to a port is the one that is read from it, over sockets that
-- keep datagrams in order at the address that they were sent to.
use mathlib.Core.Path.{subst}
use libb.Prelude.{
  ℕ, zero, suc, ◌+◌, ◌-◌, ◌/◌, ◌%◌, ◌≡◌, refl, ap, ◌∙◌, inl, inr, List, [], ◌∷◌, ◌++◌, Option, none,
  some, Bool, true, false, arith, min, ltb, length, take, Bool-cases, length-append, length-take,
}
use libb.Prelude.Int.{pos, sub_ℕ}
use libb.Prelude.Bytes.{le_bytes, length-le_bytes}
use libb.Prelude.Status.{Status, ok}
use libb.Port.{
  Errno, econnrefused, datagram, Sockets, Port, Ports, Outcome, done, waits, faults, endless, on,
  find_port_info, fill_sockaddr, receiving_fd, bound_port_info,
}
use libb.Port.Calls.{
  read_bytes, size_is, read_port, port_buffer_size, write_port, send_loop, after_send, message_of,
  store_datagram,
}
use libb.Port.Ends.{rlock-free}

-- unix(7): a socket has the address that it was bound to, and each address the datagrams that were
-- sent there and not yet received. A datagram that was taken is behind the earlier
-- ones. Nobody else sends while the process sleeps.
pub record IsDatagram {W : Type 0} (os : Sockets W) : Type 0 where
  pub address : W → ℕ → Option (List ℕ)
  pub queue : W → List ℕ → List (List ℕ)
  pub sendmsg_queue :
      (fd : ℕ) (a m : List ℕ) (nowait : Bool) (w w' : W)
      → os.sendmsg fd a m nowait w ≡ (none, w')
      → (address w' ≡ address w) × (queue w' a ≡ queue w a ++ (m ∷ []))
  pub sendmsg_failed :
      (fd : ℕ) (a m : List ℕ) (nowait : Bool) (w w' : W) (e : Errno)
      → os.sendmsg fd a m nowait w ≡ (some e, w')
      → (address w' ≡ address w) × (queue w' ≡ queue w)
  pub snooze_queue :
      (t : ℕ) (w : W) → (address (os.snooze t w) ≡ address w) × (queue (os.snooze t w) ≡ queue w)
  pub recvmsg_queue :
      (fd n : ℕ) (a m : List ℕ) (ms : List (List ℕ)) (w : W)
      → address w fd ≡ some a
      → queue w a ≡ m ∷ ms
      → (w' : W) × ((os.recvmsg fd n w ≡ (datagram (take n m), w')) × (queue w' a ≡ ms))
  pub peek_queue :
      (fd : ℕ) (a m : List ℕ) (ms : List (List ℕ)) (w : W)
      → address w fd ≡ some a
      → queue w a ≡ m ∷ ms
      → (w' : W) × (os.peek fd 0 w ≡ (some (length m), w'))

take_four :
    (n a b c d : ℕ) (bs : List ℕ) → take (4 + n) (a ∷ b ∷ c ∷ d ∷ bs) ≡ a ∷ b ∷ c ∷ d ∷ take n bs
take_four n a b c d bs = let e : 4 + n ≡ suc (suc (suc (suc n))) = omega arith in rw e

behind_four : (n : ℕ) → sub_ℕ (suc (suc (suc (suc n)))) 4 ≡ pos n
behind_four n = ground arith

message_length : (code : ℕ) (buffer : List ℕ) → length (message_of code buffer) ≡ 4 + length buffer
message_length code buffer = rw (length-append (le_bytes 4 code) buffer, length-le_bytes 4 code)

module _ {W : Type 0} {os : Sockets W} (law : IsDatagram os) where
  -- The message is behind what was at the address before.
  abbrev Queued : List ℕ → List ℕ → W → W → Type 0
  Queued a m w w' = (law.address w' ≡ law.address w) × (law.queue w' a ≡ law.queue w a ++ (m ∷ []))

  after_send-Queued :
      (again : ℕ → W → Outcome (Status × W)) (r fd : ℕ) (a m : List ℕ) (w w' : W)
      (x : Option Errno × W)
      → os.sendmsg fd a m false w ≡ x
      → ((u : W) → again (r - 1) u ≡ done (ok, w') → Queued a m u w')
      → after_send os again r none fd x ≡ done (ok, w')
      → Queued a m w w'
  after_send-Queued again r fd a m w w' (none, u) es h e =
      let q : u ≡ w' = cc in subst (Queued a m w) q (law.sendmsg_queue fd a m false w u es)
  after_send-Queued again r fd a m w w' (some econnrefused, u) es h e =
      elim (Bool-cases (ltb 1 r)) [
        | inl b ↦
            let f = rw (b) at e in
            let (k, l) = law.sendmsg_failed fd a m false w u econnrefused es in
            let (k', l') = law.snooze_queue 10000 u in
            let (c, d) = h (os.snooze 10000 u) f in
            (c ∙ (k' ∙ k), d ∙ ap (λ z. z a ++ (m ∷ [])) (l' ∙ l))
        | inr b ↦ let f = rw (b) at e in absurd cc
      ]
  after_send-Queued again r fd a m w w' (some c, u) es h e = absurd cc

  send_loop-Queued :
      (fuel fd : ℕ) (a m : List ℕ) (r : ℕ) (w w' : W)
      → send_loop os fuel none fd a m r w ≡ done (ok, w')
      → Queued a m w w'
  unfolding send_loop
  send_loop-Queued zero fd a m r w w' e = absurd cc
  send_loop-Queued (suc fuel) fd a m r w w' e =
      after_send-Queued (λ q u. send_loop os fuel none fd a m q u) r fd a m w w'
        (os.sendmsg fd a m false w) refl (λ u g. send_loop-Queued fuel fd a m (r - 1) u w' g) e

  returned :
      (o : Outcome (Status × W)) (s s' : Ports W)
      → on {B = Status × Ports W} o (λ r. done (r.0, record s { world = r.1 })) ≡ done (ok, s')
      → (w' : W) × ((o ≡ done (ok, w')) × (s' ≡ record s { world = w' }))
  returned (done (st, w)) s s' e = let k : st ≡ ok = cc in (w, (ap (λ z. done (z, w)) k, cc))
  returned waits s s' e = absurd cc
  returned faults s s' e = absurd cc
  returned endless s s' e = absurd cc

  receiving_bound :
      (p : ℕ) (i : Port) (s : Ports W)
      → s.lock ≡ 1
      → find_port_info p s.ports ≡ some i
      → i.bound ≡ true
      → receiving_fd os p s ≡ done (some i.fd, record s { lock = 1 })
  unfolding receiving_fd bound_port_info
  receiving_bound p i s el ef eb = rw (rlock-free 0 s el, ef, eb)

  -- The bytes that `recvmsg` stores of a message.
  read_message :
      (code size : ℕ) (buffer : List ℕ) (w : W)
      → store_datagram os (datagram (take (4 + size) (message_of code buffer)), w)
        ≡ (read_bytes (pos (min size (length buffer))) (le_bytes 4 code) (take size buffer), w)
  unfolding le_bytes
  read_message code size buffer w =
      let cut =
        take_four size (code % 256) (code / 256 % 256) (code / 256 / 256 % 256)
          (code / 256 / 256 / 256 % 256) buffer in
      rw (cut, behind_four (length (take size buffer)), length-take size buffer)

  -- A message that was written to a port whose socket is bound and has no datagrams is the one that is
  -- read, cut to the size of the buffer, and port_buffer_size gives its size with the four bytes of the
  -- code, where the sockets keep datagrams in order.
  pub read_port-write_port :
      (fuel p code size : ℕ) (buffer : List ℕ) (i : Port) (s s' : Ports W)
      → s.lock ≡ 1
      → find_port_info p s.ports ≡ some i
      → i.bound ≡ true
      → law.address s.world i.fd ≡ some (fill_sockaddr i)
      → law.queue s.world (fill_sockaddr i) ≡ []
      → write_port os fuel p code buffer none s ≡ done (ok, s')
      → (u v : Ports W) × ((read_port os p size none s'
            ≡ done (
              read_bytes (pos (min size (length buffer))) (le_bytes 4 code) (take size buffer),
              u,
            ))
          × ((law.queue u.world (fill_sockaddr i) ≡ [])
              × (port_buffer_size os p none s' ≡ done (size_is (4 + length buffer), v))))
  unfolding write_port read_port port_buffer_size
  read_port-write_port fuel p code size buffer i s s' el ef eb ea eq e =
      let msg = message_of code buffer in
      let f = rw (rlock-free 0 s el, ef) at e in
      let (w', (h, q)) =
        returned (send_loop os fuel none i.fd (fill_sockaddr i) msg 50 s.world)
          (record s { lock = 1 }) s' f in
      let (ka, kq) = send_loop-Queued fuel i.fd (fill_sockaddr i) msg 50 s.world w' h in
      let found = ap (λ z. find_port_info p z.ports) q ∙ ef in
      let here = receiving_bound p i s' (ap (λ z. z.lock) q) found eb in
      let at_w' : s'.world ≡ w' = ap (λ z. z.world) q in
      let at_fd = ap (λ z. law.address z i.fd) at_w' ∙ (ap (λ g. g i.fd) ka ∙ ea) in
      let queued =
        ap (λ z. law.queue z (fill_sockaddr i)) at_w' ∙ (kq ∙ ap (λ ms. ms ++ (msg ∷ [])) eq) in
      let (u, (ru, qu)) =
        law.recvmsg_queue i.fd (4 + size) (fill_sockaddr i) msg [] s'.world at_fd queued in
      let (v, pv) = law.peek_queue i.fd (fill_sockaddr i) msg [] s'.world at_fd queued in
      (
        record s' { lock = 1; world = u },
        record s' { lock = 1; world = v },
        (
          rw (here, ru)
              (ap (λ z. done (z.0, record s' { lock = 1; world = z.1 }))
                (read_message code size buffer u)),
          (qu, rw (here, pv, message_length code buffer)),
        ),
      )
