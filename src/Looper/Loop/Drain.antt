-- ===== src/Looper/Loop/Drain.antt =====
-- BLooper: which messages `_drain_message_queue` dispatches, in which order and to which handlers.
use libb.Prelude.{
  ℕ, zero, suc, ◌<◌, ◌≡◌, refl, sym, ap, ◌∙◌, inl, inr, List, [], ◌∷◌, ◌++◌, append-nil,
  append_assoc, Option, none, some, true, ◌&&◌, if◌then◌else◌, ◌==◌, length, arith, Bool-cases,
}
use libb.Queue.{next_message}
use libb.Looper.{World, points_to}
use libb.Looper.Members.{IsValid}
use libb.Looper.Loop.{
  State, Setup, update_code, quit_requested_code, dispatch_message, default_target, target_with,
  dispatch_to, handle, drain_turn, drain,
}

-- Nothing of what the order and the targets depend on is different.
abbrev pub Keeps : State → State → Type 0
Keeps s t =
    (t.queue ≡ s.queue)
    × (t.dispatched ≡ s.dispatched)
    × (t.world.looper_of ≡ s.world.looper_of)
    × (t.world.preferred ≡ s.world.preferred)

module _ (c : Setup) where
  -- The virtual functions post nothing to the looper and change no handler of it.
  pub record IsQuiet : Type 0 where
    pub received_keeps : (t m : ℕ) (s : State) → Keeps s (c.received t m s)
    pub quit_requested_keeps : (s : State) → Keeps s (c.quit_requested s).1

  -- The messages that one call takes: up to the first request for an update, and it too.
  unfoldable pub batch : List ℕ → List ℕ
  batch [] = []
  batch (m ∷ q) = let rest = batch q in if c.what m == update_code then m ∷ [] else m ∷ rest

  unfoldable pub left_over : List ℕ → List ℕ
  left_over [] = []
  left_over (m ∷ q) = let rest = left_over q in if c.what m == update_code then q else rest

  abbrev pub or_else : Option ℕ → ℕ → ℕ
  or_else none d = d
  or_else (some h) d = h

  -- A handler, if it belongs to the looper.
  abbrev pub within : World → ℕ → Option ℕ
  within w t = if points_to (w.looper_of t) c.this then some t else none

  -- Where a message goes: to the first there is of its handler, the preferred one and the looper, if
  -- that belongs to the looper.
  abbrev pub addressee : World → ℕ → Option ℕ
  addressee w m = within w (or_else (c.handler m) (or_else (w.preferred c.this) c.this))

  abbrev pub entry : ℕ → Option ℕ → List (ℕ × ℕ)
  entry m none = []
  entry m (some t) = (m, t) ∷ []

  unfoldable pub deliveries : World → List ℕ → List (ℕ × ℕ)
  deliveries w [] = []
  deliveries w (m ∷ q) = entry m (addressee w m) ++ deliveries w q

  module _ (quiet : IsQuiet) where
    dispatch_message-Keeps : (m t : ℕ) (s : State) → Keeps s (dispatch_message c m t s)
    unfolding dispatch_message
    dispatch_message-Keeps m t s =
        elim (Bool-cases ((c.what m == quit_requested_code) && (t == c.this))) [
          | inl e ↦ rw (e) (quiet.quit_requested_keeps s)
          | inr e ↦ rw (e) (quiet.received_keeps t m s)
        ]

    -- After a message for `a` is handled.
    abbrev Handled : ℕ → Option ℕ → State → State → Type 0
    Handled m a s t =
        (t.queue ≡ s.queue)
        × (t.dispatched ≡ s.dispatched ++ entry m a)
        × (t.world.looper_of ≡ s.world.looper_of)
        × (t.world.preferred ≡ s.world.preferred)

    dispatch_to-Handled :
        (m : ℕ) (a : Option ℕ) (s : State)
        → ((t : ℕ) → a ≡ some t → points_to (s.world.looper_of t) c.this ≡ true)
        → Handled m a s (dispatch_to c m a s)
    dispatch_to-Handled m none s h = (refl, sym (append-nil s.dispatched), refl, refl)
    dispatch_to-Handled m (some t) s h =
        rw (h t refl)
          (dispatch_message-Keeps m t (record s { dispatched = s.dispatched ++ ((m, t) ∷ []) }))

    module _ (w : World) (self : points_to (w.looper_of c.this) c.this ≡ true) where
      within-member : (t u : ℕ) → within w t ≡ some u → points_to (w.looper_of u) c.this ≡ true
      within-member t u e = elim (Bool-cases (points_to (w.looper_of t) c.this)) [
        | inl p ↦ ground arith
        | inr p ↦ ground arith
      ]

      -- The preferred handler and the looper belong to the looper.
      default_target-within :
          (p : Option ℕ)
          → ((h : ℕ) → p ≡ some h → points_to (w.looper_of h) c.this ≡ true)
          → default_target c p ≡ within w (or_else p c.this)
      default_target-within none v = rw (self) refl
      default_target-within (some h) v = rw (v h refl) refl

      -- The world of every state in the loop has the loopers and the preferred handlers of `w`.
      abbrev Like : State → Type 0
      Like s = (s.world.looper_of ≡ w.looper_of) × (s.world.preferred ≡ w.preferred)

      target_with-within :
          (o : Option ℕ) (v : World)
          → IsValid w
          → v.looper_of ≡ w.looper_of
          → v.preferred ≡ w.preferred
          → target_with c o v ≡ within w (or_else o (or_else (w.preferred c.this) c.this))
      target_with-within none v i a b =
          rw (b) (default_target-within (w.preferred c.this) (i.chosen c.this))
      target_with-within (some h) v i a b = rw (a) refl

      handle-Handled :
          (m : ℕ) (s : State) → IsValid w → Like s → Handled m (addressee w m) s (handle c m s)
      unfolding handle
      handle-Handled m s i (a, b) = rw (target_with-within (c.handler m) s.world i a b) (
          dispatch_to-Handled m (addressee w m) (record s { last = some m })
            (λ t e.
              rw (a)
                (within-member (or_else (c.handler m) (or_else (w.preferred c.this) c.this)) t e)))

      handle-last : (m : ℕ) (s : State) → (handle c m s).last ≡ none
      unfolding handle
      handle-last m s = refl

      -- What a call of `_drain_message_queue` leaves of the queue `q`.
      abbrev Drained : List ℕ → State → State → Type 0
      Drained q s t =
          (t.queue ≡ left_over q)
          × (t.dispatched ≡ s.dispatched ++ deliveries w (batch q))
          × (t.last ≡ none)
          × Like t

      -- One turn with a message, before more turns on the rest of the queue.
      drain_turn-Drained :
          (more : State → Option State) (m : ℕ) (q : List ℕ) (s : State)
          → IsValid w
          → Like s
          → ((s1 : State)
              → Like s1
              → s1.queue ≡ q
              → (t : State) × (more s1 ≡ some t) × Drained q s1 t)
          → (t : State) × (drain_turn c more (some m, q) s ≡ some t) × Drained (m ∷ q) s t
      unfolding batch left_over deliveries
      drain_turn-Drained more m q s i l k =
          let s1 = record s { queue = q } in
          let g = handle-Handled m s1 i l in
          elim (Bool-cases (c.what m == update_code)) [
            | inl e ↦
                let left : left_over (m ∷ q) ≡ q = rw (left_over, e) refl in
                let taken : batch (m ∷ q) ≡ m ∷ [] = rw (batch, e) refl in
                (
                  handle c m s1,
                  rw (drain_turn, e) refl,
                  (
                    rw (left) g.0,
                    rw (taken, append-nil (entry m (addressee w m))) g.1,
                    handle-last m s1,
                    (g.2 ∙ l.0, g.3 ∙ l.1),
                  ),
                )
            | inr e ↦
                let r = k (handle c m s1) (g.2 ∙ l.0, g.3 ∙ l.1) g.0 in
                let left : left_over (m ∷ q) ≡ left_over q = rw (left_over, e) refl in
                let taken : batch (m ∷ q) ≡ m ∷ batch q = rw (batch, e) refl in
                let rest = deliveries w (batch q) in
                (
                  r.0,
                  rw (drain_turn, e) r.1,
                  (
                    rw (left) r.2.0,
                    rw (taken) (
                        r.2.1
                        ∙ (ap (λ (x : List (ℕ × ℕ)). x ++ rest) g.1
                            ∙ append_assoc s.dispatched (entry m (addressee w m)) rest)),
                    r.2.2,
                    r.2.3,
                  ),
                )
          ]

      drain-Drained :
          (fuel : ℕ) (q : List ℕ) (s : State)
          → IsValid w
          → Like s
          → s.queue ≡ q
          → length q < fuel
          → (t : State) × (drain c fuel s ≡ some t) × Drained q s t
      unfolding drain next_message batch left_over deliveries
      drain-Drained zero q s i l e h = absurd (omega arith)
      drain-Drained (suc fuel) [] s i l e h = (
        record s { queue = []; last = none },
        ap (λ (r : List ℕ). drain_turn c (drain c fuel) (next_message r) s) e,
        (refl, sym (append-nil s.dispatched), refl, l),
      )
      drain-Drained (suc fuel) (m ∷ q) s i l e h =
          let r =
            drain_turn-Drained (drain c fuel) m q s i l
              (λ s1 l1 e1. drain-Drained fuel q s1 i l1 e1 (omega arith)) in
          (r.0, ap (λ (r : List ℕ). drain_turn c (drain c fuel) (next_message r) s) e ∙ r.1, r.2)

batch-left_over : (c : Setup) (q : List ℕ) → batch c q ++ left_over c q ≡ q
unfolding batch left_over
batch-left_over c [] = refl
batch-left_over c (m ∷ q) = elim (Bool-cases (c.what m == update_code)) [
  | inl e ↦ rw (batch, left_over, e) refl
  | inr e ↦ rw (batch, left_over, e) (ap (λ (r : List ℕ). m ∷ r) (batch-left_over c q))
]

-- Where the virtual functions post nothing and change no handler, and the looper is one of its own
-- handlers: a call of _drain_message_queue ends, and dispatches the messages of the queue in order, up
-- to and with the first request for an update. Each goes to its handler, unless that belongs to
-- another looper or to none; without a handler it goes to the preferred one, or else to the looper. The
-- messages behind stay in the queue, and no message is current afterwards.
pub drain-deliveries :
    (c : Setup) (s : State) (fuel : ℕ)
    → IsQuiet c
    → IsValid s.world
    → points_to (s.world.looper_of c.this) c.this ≡ true
    → length s.queue < fuel
    → (t : State) × (drain c fuel s ≡ some t)
      × (t.dispatched ≡ s.dispatched ++ deliveries c s.world (batch c s.queue))
      × (batch c s.queue ++ t.queue ≡ s.queue)
      × (t.last ≡ none)
drain-deliveries c s fuel quiet i self h =
    let r = drain-Drained c quiet s.world self fuel s.queue s i (refl, refl) refl h in
    (
      r.0,
      r.1,
      r.2.1,
      ap (λ (q : List ℕ). batch c s.queue ++ q) r.2.0 ∙ batch-left_over c s.queue,
      r.2.2,
    )
