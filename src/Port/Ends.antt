-- ===== src/Port/Ends.antt =====
-- kits/kernel/port.c: how long the loop of write_port_etc runs without a timeout.
use libb.Prelude.{
  ℕ, zero, suc, ◌-◌, ◌≤◌, ◌≡◌, refl, sym, ap, ◌∙◌, inl, inr, List, Option, none, some, true, false,
  arith, ltb, Bool-cases,
}
use libb.Prelude.Status.{Status, ok, posix_error}
use libb.Port.{
  Errno, econnrefused, Sockets, Port, Ports, Outcome, done, rlock, rlock_at, find_port_info,
  fill_sockaddr,
}
use libb.Port.Calls.{after_send, send_loop, send_to, write_port, message_of, max_write_retries}

pub rlock-free :
    {W : Type 0} (n : ℕ) (s : Ports W)
    → s.lock ≡ suc n
    → rlock s ≡ done (record s { lock = suc (suc n) })
rlock-free n s e = ap (λ k. rlock_at k s) e

module _ {W : Type 0} (os : Sockets W) where
  -- What an attempt leaves of the retries is enough for the ones that follow.
  after_send_ends :
      (again : ℕ → W → Outcome (Status × W)) (r fd : ℕ) (x : Option Errno × W)
      → ((w : W) → ltb 1 r ≡ true → (y : Status × W) × (again (r - 1) w ≡ done y))
      → (y : Status × W) × (after_send os again r none fd x ≡ done y)
  after_send_ends again r fd (none, w) h = ((ok, w), refl)
  after_send_ends again r fd (some econnrefused, w) h = elim (Bool-cases (ltb 1 r)) [
    | inl e ↦ let (y, p) = h (os.snooze 10000 w) e in (y, rw (e, p))
    | inr e ↦ ((posix_error, w), rw e)
  ]
  after_send_ends again r fd (some e, w) h = (_, refl)

  send_ends :
      (fuel fd : ℕ) (address msg : List ℕ) (r : ℕ) (w : W)
      → 1 ≤ r
      → r ≤ fuel
      → (y : Status × W) × (send_loop os fuel none fd address msg r w ≡ done y)
  unfolding send_loop
  send_ends zero fd address msg r w one enough = absurd (omega arith)
  send_ends (suc fuel) fd address msg r w one enough =
      after_send_ends (λ q u. send_loop os fuel none fd address msg q u) r fd
        (os.sendmsg fd address msg false w)
        (λ u e. send_ends fuel fd address msg (r - 1) u (ground arith) (omega arith))

  write_found :
      (i : Option Port) (msg : List ℕ) (s : Ports W)
      → (y : Status × Ports W) × ((send_to os 50 none msg i s ≡ done y)
          × (((y.1).lock ≡ s.lock) × ((y.1).ports ≡ s.ports)))
  write_found none msg s = (_, (refl, (refl, refl)))
  write_found (some i) msg s =
      let (y, p) = send_ends 50 i.fd (fill_sockaddr i) msg 50 s.world (omega arith) (omega arith) in
      ((y.0, record s { world = y.1 }), (rw p, (refl, refl)))

  -- Where the lock is not held by a writer, write_port returns after at most MAX_WRITE_RETRIES attempts
  -- whatever the sockets answer, and leaves the lock and the table as they were.
  pub write_port_ends :
      (n p code : ℕ) (buffer : List ℕ) (s : Ports W)
      → s.lock ≡ suc n
      → (y : Status × Ports W) × ((write_port os max_write_retries p code buffer none s ≡ done y)
          × (((y.1).lock ≡ s.lock) × ((y.1).ports ≡ s.ports)))
  unfolding write_port
  write_port_ends n p code buffer s e =
      let (y, (a, (b, c))) =
        write_found (find_port_info p s.ports) (message_of code buffer)
          (record s { lock = suc n }) in
      (y, (rw (rlock-free n s e, a), (b ∙ sym e, c)))
