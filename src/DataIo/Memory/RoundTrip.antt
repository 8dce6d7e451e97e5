-- ===== src/DataIo/Memory/RoundTrip.antt =====
-- BMemoryIO: what a write leaves for a read.
use libb.Prelude.{
  ℕ, ◌+◌, ◌-◌, ◌≤◌, ◌<◌, ◌≡◌, refl, ◌∙◌, inl, inr, List, some, Bool, true, false, if◌then◌else◌,
  ltb, min, max, length, take, arith, length-take, Bool-cases, ltb→lt, ltb→ge,
}
use libb.Prelude.Int.{pos}
use libb.Prelude.Splice.{splice, length-splice}
use libb.Prelude.Status.{not_allowed}
use libb.DataIo.{MemoryIo, done, failed, read_from}
use libb.DataIo.Copies.{copy_in_within, read_from-splice, read_from-zero}
use libb.DataIo.Memory.{IsValid, written, write_buffer, write_some, write_at, read_at, grow}

if_false : {A : Type 0} (b : Bool) (x y : A) → b ≡ false → (if b then x else y) ≡ y
if_false true x y e = ground arith
if_false false x y e = refl

grow-max : (a b : ℕ) → grow a b ≡ max a b
grow-max a b = ground arith

module _ (s : MemoryIo) (p : ℕ) (src : List ℕ) where
  -- The state after a write at `p`.
  abbrev pub Wrote : MemoryIo → Type 0
  Wrote s' =
      IsValid s'
      × (s'.len ≡ max s.len (p + written s p src))
      × (read_at s' (pos p) true (written s p src) ≡ done (take (written s p src) src))

  write_some-buffer :
      (xs : List ℕ)
      → write_buffer s p src ≡ some xs
      → write_some s p src
        ≡ done (record s { buffer = xs; len = max s.len (p + written s p src) }, written s p src)
  unfolding write_some
  write_some-buffer xs e = rw (write_some, e, grow-max s.len (p + written s p src)) refl

  write_some-Wrote :
      IsValid s
      → p ≤ length s.buffer
      → (s' : MemoryIo) × (write_some s p src ≡ done (s', written s p src)) × Wrote s'
  unfolding write_some read_at read_from
  write_some-Wrote v h = elim (Bool-cases (ltb p (length s.buffer))) [
    | inl b ↦
        let n = min (length src) (length s.buffer - p) in
        let lt : p < length s.buffer = ltb→lt p (length s.buffer) b in
        let t : length (take n src) ≡ n = omega (arith, length-take n src) in
        let room : p + length (take n src) ≤ length s.buffer = omega arith in
        let r : read_from (max s.len (p + n)) (splice p (take n src) s.buffer) p
              (length (take n src))
            ≡ done (take n src) =
          read_from-splice (max s.len (p + n)) p (take n src) s.buffer (omega arith) room in
        let l : length (splice p (take n src) s.buffer) ≡ length s.buffer =
          length-splice p (take n src) s.buffer room in
        (
          record s {
            buffer = splice p (take n src) s.buffer;
            len = max s.len (p + written s p src);
          },
          write_some-buffer (splice p (take n src) s.buffer)
              (rw (b) (copy_in_within p (take n src) s.buffer room)),
          (rw (b, l) (omega arith), refl, rw (b) (rw (t) at r)),
        )
    | inr b ↦ (
      record s { len = max s.len (p + written s p src) },
      write_some-buffer s.buffer (rw (b) refl),
      (
        rw (b) (omega (arith, ltb→ge p (length s.buffer) b)),
        refl,
        rw (b) (read_from-zero (max s.len (p + 0)) p s.buffer),
      ),
    )
  ]

  -- A write at a position up to the end of the buffer, to a valid BMemoryIO that is not read-only,
  -- takes the bytes that fit in the buffer, keeps the BMemoryIO valid with the length grown to
  -- the end of the write, and what it took is what a read at the position gives.
  pub write_at-Wrote_within :
      s.read_only ≡ false
      → IsValid s
      → p ≤ length s.buffer
      → (s' : MemoryIo) × (write_at s (pos p) (some src) ≡ done (s', written s p src)) × Wrote s'
  unfolding write_at
  write_at-Wrote_within r v h =
      let (s', e, w) = write_some-Wrote v h in
      (s', if_false s.read_only (failed not_allowed) (write_some s p src) r ∙ e, w)
