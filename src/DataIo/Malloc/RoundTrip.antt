-- ===== src/DataIo/Malloc/RoundTrip.antt =====
-- BMallocIO: what a write leaves for a read.
use mathlib.Core.Path.{subst}
use libb.Prelude.{
  ℕ, ◌+◌, ◌-◌, ◌^◌, ◌≤◌, ◌<◌, ◌≡◌, refl, sym, ap, ◌∙◌, ◌⊎◌, inl, inr, List, [], some, Bool, true,
  false, ltb, ◌==◌, max, length, replicate, arith, take_all, get_elem?, get_elem?-append_left,
  Bool-cases, ltb→lt, ltb→ge,
}
use libb.Prelude.Int.{pos, ◌+ℤ◌}
use libb.Prelude.Splice.{splice, length-splice, get_elem?-splice_before, get_elem?-splice_behind}
use libb.Prelude.Status.{Status, no_memory}
use libb.DataIo.{MallocIo, Outcome, done, failed, fault}
use libb.DataIo.Copies.{copy_in_within, read_from-splice}
use libb.DataIo.Malloc.{
  IsValid, round_up, round_up_ge, resized, length-resized, resize, set_size, reserve, copy_write,
  write_at, read_at, grow,
}

-- `s1` has room for `m` bytes and the bytes of `s`.
abbrev Reserved : MallocIo → ℕ → MallocIo → Type 0
Reserved s m s1 =
    (m ≤ length s1.block)
    × (s.len ≤ s1.len)
    × (s1.len ≤ max m s.len)
    × (0 < s1.block_size)
    × (length s.block ≤ length s1.block)
    × ((i : ℕ) → i < length s.block → get_elem? s1.block i ≡ get_elem? s.block i)

pos-add : (a b : ℕ) → pos a +ℤ pos b ≡ pos (a + b)
unfolding ◌+ℤ◌
pos-add a b = ground arith

module _ (alloc : ℕ → Bool) (s : MallocIo) where
  get_elem?-resized :
      (m i : ℕ)
      → length s.block ≤ m
      → i < length s.block
      → get_elem? (resized m s.block) i ≡ get_elem? s.block i
  get_elem?-resized m i h k =
      rw (take_all m s.block h)
        (get_elem?-append_left s.block (replicate (m - length s.block) 0) i k)

  reserve-cases :
      (m : ℕ)
      → IsValid s
      → s.len ≤ m
      → m + s.block_size ≤ 2 ^ 64
      → ((s1 : MallocIo) × (reserve alloc s m ≡ done s1) × Reserved s m s1)
        ⊎ ((reserve alloc s m ≡ failed no_memory) × (alloc (round_up m s.block_size) ≡ false))
  unfolding reserve set_size resize
  reserve-cases m v h k = elim (Bool-cases (ltb (length s.block) m)) [
    | inr b ↦ inl (
      s,
      rw (b) refl,
      (ltb→ge (length s.block) m b, omega arith, omega arith, v.1, omega arith, λ i e. refl),
    )
    | inl b ↦
        let lt : length s.block < m = ltb→lt (length s.block) m b in
        let z : (m == 0) ≡ false = ground arith in
        let ne : (m == length s.block) ≡ false = ground arith in
        elim (Bool-cases (alloc (round_up m s.block_size))) [
          | inr a ↦ inr (rw (b, z, ne, a) refl, a)
          | inl a ↦
              let n = round_up m s.block_size in
              let ge : m ≤ n = round_up_ge m s.block_size v.1 k in
              inl (
                record s { block = resized n s.block; len = m },
                rw (b, z, ne, a) refl,
                (
                  rw (length-resized n s.block) ge,
                  h,
                  omega arith,
                  v.1,
                  rw (length-resized n s.block) (omega arith),
                  λ i e. get_elem?-resized n i (omega arith) e,
                ),
              )
        ]
  ]

-- The state after a write of `src` at `p`.
abbrev pub Wrote : MallocIo → ℕ → List ℕ → MallocIo → Type 0
Wrote s p src s' =
    IsValid s'
    × (s'.len ≡ max (p + length src) s.len)
    × (read_at s' (pos p) true (length src) ≡ done src)

abbrev block_of : List ℕ → Outcome (MallocIo × ℕ) → List ℕ
block_of xs (done (s, n)) = s.block
block_of xs (failed e) = xs
block_of xs fault = xs

abbrev IsDone {ℓ} : {A : Type ℓ} → Outcome A → Type 0
IsDone (done a) = Unit
IsDone (failed e) = ⊥
IsDone fault = ⊥

done-failed {ℓ} : {A : Type ℓ} (a : A) (e : Status) → done a ≡ failed e → ⊥
done-failed a e h = subst IsDone h tt

module _ (alloc : ℕ → Bool) (s : MallocIo) (p : ℕ) (src : List ℕ) where
  -- `copy_write` with room.
  copy_write-Reserved :
      (s1 : MallocIo)
      → Reserved s (max (p + length src) s.len) s1
      → (copy_write alloc s1 (pos p) src
          ≡ done (
            record s1 { block = splice p src s1.block; len = max (p + length src) s.len },
            length src,
          ))
  unfolding copy_write
  copy_write-Reserved s1 r =
      let room : p + length src ≤ length s1.block = omega (arith, r.0) in
      let (_, lo, hi, _, _, _) = r in
      let g : grow alloc s1.len (p + length src) ≡ max (p + length src) s.len =
        ground (arith, lo, hi) in
      rw (copy_write, copy_in_within p src s1.block room, pos-add p (length src), g) refl

  written :
      (s1 : MallocIo)
      → IsValid s
      → Reserved s (max (p + length src) s.len) s1
      → Wrote s p src
          (record s1 { block = splice p src s1.block; len = max (p + length src) s.len })
  unfolding read_at
  written s1 v r =
      let room : p + length src ≤ length s1.block = omega (arith, r.0) in
      let l : length (splice p src s1.block) ≡ length s1.block =
        length-splice p src s1.block room in
      let all : max (p + length src) s.len ≤ length s1.block = r.0 in
      (
        (rw (l) all, r.3),
        refl,
        read_from-splice (max (p + length src) s.len) p src s1.block (omega arith) room,
      )

  get_elem?-splice_outside :
      (s1 : MallocIo) (i : ℕ)
      → Reserved s (max (p + length src) s.len) s1
      → i < length s.block
      → (i < p) ⊎ (p + length src ≤ i)
      → get_elem? (splice p src s1.block) i ≡ get_elem? s.block i
  get_elem?-splice_outside s1 i r k (inl lo) =
      get_elem?-splice_before p i src s1.block lo (omega (arith, r.4)) ∙ r.5 i k
  get_elem?-splice_outside s1 i r k (inr hi) =
      get_elem?-splice_behind p i src s1.block hi (omega (arith, r.4)) ∙ r.5 i k

  -- A write at a position that is not negative, to a valid BMallocIO with room in `size_t` for the
  -- rounding, takes all of `src`, keeps the BMallocIO valid with the length grown to the end of the
  -- write, and `src` is what a read at the position gives; or it fails with B_NO_MEMORY, and then
  -- `realloc` refused the rounded size.
  pub write_at-Wrote :
      IsValid s
      → max (p + length src) s.len + s.block_size ≤ 2 ^ 64
      → ((s' : MallocIo) × (write_at alloc s (pos p) (some src) ≡ done (s', length src))
          × Wrote s p src s')
        ⊎ ((write_at alloc s (pos p) (some src) ≡ failed no_memory)
            × (alloc (round_up (max (p + length src) s.len) s.block_size) ≡ false))
  unfolding write_at
  write_at-Wrote v h = elim (reserve-cases alloc s (max (p + length src) s.len) v (omega arith) h) [
    | inl (s1, e, r) ↦
        inl (_, rw (write_at, pos-add p (length src), e) (copy_write-Reserved s1 r), written s1 v r)
    | inr (e, a) ↦ inr (rw (write_at, pos-add p (length src), e) refl, a)
  ]

  -- A byte of a valid BMallocIO, within its length and outside what is written, is not changed by a
  -- write that succeeds.
  pub write_at-frame :
      (i : ℕ) (s' : MallocIo) (n : ℕ)
      → IsValid s
      → max (p + length src) s.len + s.block_size ≤ 2 ^ 64
      → write_at alloc s (pos p) (some src) ≡ done (s', n)
      → i < s.len
      → (i < p) ⊎ (p + length src ≤ i)
      → get_elem? s'.block i ≡ get_elem? s.block i
  unfolding write_at
  write_at-frame i s' n v h e k o =
      elim (reserve-cases alloc s (max (p + length src) s.len) v (omega arith) h) [
        | inl (s1, q, r) ↦
            let w : write_at alloc s (pos p) (some src)
                ≡ done (
                  record s1 { block = splice p src s1.block; len = max (p + length src) s.len },
                  length src,
                ) =
              rw (write_at, pos-add p (length src), q) (copy_write-Reserved s1 r) in
            let b : s'.block ≡ splice p src s1.block = ap (block_of []) (sym e ∙ w) in
            rw (b) (get_elem?-splice_outside s1 i r (omega (arith, v.0)) o)
        | inr (q, a) ↦
            let w : write_at alloc s (pos p) (some src) ≡ failed no_memory =
              rw (write_at, pos-add p (length src), q) refl in
            absurd (done-failed (s', n) no_memory (sym e ∙ w))
      ]
