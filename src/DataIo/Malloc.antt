-- ===== src/DataIo/Malloc.antt =====
-- kits/support/DataIO.cpp: BMallocIO.
pub mod RoundTrip
use native.Mathlib.Nat.{mod-add-div', mod-lt, mod-eq_of_lt}
use libb.Prelude.{
  ℕ, ◌+◌, ◌-◌, ◌*◌, ◌/◌, ◌%◌, ◌^◌, ◌≤◌, ◌<◌, ◌≡◌, List, [], ◌++◌, Option, none, some, Bool, true,
  false, if◌then◌else◌, ltb, ◌==◌, min, max, length, take, replicate, arith, length-append,
  length-take, length-replicate,
}
use libb.Prelude.Int.{ℤ, pos, negsuc, ◌+ℤ◌, pos_part, size_t_of}
use libb.Prelude.Status.{Status, bad_value, no_memory}
use libb.DataIo.{
  MallocIo, Outcome, done, failed, fault, PositionIo, copy_in, read_from, seek_position,
}

-- A negative position is below `fLength`, and the `memcpy` starts before the block.
unfoldable pub read_at : MallocIo → ℤ → Bool → ℕ → Outcome (List ℕ)
read_at s p false size = failed bad_value
read_at s (pos p) true size = read_from s.len s.block p size
read_at s (negsuc p) true size = if size == 0 then done [] else fault

-- `(size + fBlockSize - 1) / fBlockSize * fBlockSize` in `size_t`.
abbrev pub round_up : ℕ → ℕ → ℕ
round_up size n = (size + n + 2 ^ 64 - 1) % 2 ^ 64 / n * n % 2 ^ 64

-- The block after `realloc` and `memset`.
abbrev pub resized : ℕ → List ℕ → List ℕ
resized n xs = take n xs ++ replicate (n - length xs) 0

-- `alloc n` says whether `realloc` gives a block of `n` bytes.
module _ (alloc : ℕ → Bool) where
  -- `SetSize(size)` for a size that is not 0.
  unfoldable pub resize : MallocIo → ℤ → Outcome MallocIo
  resize s size =
      let n = round_up (size_t_of size) s.block_size in
      if size_t_of size == length s.block
      then done (record s { len = size_t_of size })
      else (if alloc n
          then done (record s { block = resized n s.block; len = size_t_of size })
          else failed no_memory)

  unfoldable pub set_size : MallocIo → ℤ → Outcome MallocIo
  set_size s size =
      if size_t_of size == 0 then done (record s { block = []; len = 0 }) else resize s size

  -- `SetSize(newSize)` where `newSize > fMallocSize`.
  unfoldable pub reserve : MallocIo → ℕ → Outcome MallocIo
  reserve s new_size = if ltb (length s.block) new_size then set_size s (pos new_size) else done s

  abbrev pub grow : ℕ → ℕ → ℕ
  grow len end = if ltb len end then end else len

  -- What follows `if (error == B_OK)`; `pos + size` is compared as a `size_t`.
  unfoldable pub copy_write : MallocIo → ℤ → List ℕ → Outcome (MallocIo × ℕ)
  copy_write s p src = elim (copy_in s.block p src) [
    | none ↦ fault
    | some d ↦
        done
          (record s { block = d; len = grow s.len (size_t_of (p +ℤ pos (length src))) }, length src)
  ]

  unfoldable pub write_at : MallocIo → ℤ → Option (List ℕ) → Outcome (MallocIo × ℕ)
  write_at s p none = failed bad_value
  write_at s p (some src) = elim (reserve s (max (pos_part (p +ℤ pos (length src))) s.len)) [
    | done s1 ↦ copy_write s1 p src
    | failed e ↦ failed e
    | fault ↦ fault
  ]

unfoldable pub seek : MallocIo → ℤ → ℕ → MallocIo
seek s p mode = record s { position = seek_position s.position s.len p mode }

unfoldable pub set_block_size : MallocIo → ℕ → MallocIo
set_block_size s n =
    let m = if n == 0 then 1 else n in if m == s.block_size then s else record s { block_size = m }

abbrev pub malloc_io : (ℕ → Bool) → PositionIo MallocIo
malloc_io alloc = record {
  at_read = read_at;
  at_write = write_at alloc;
  at_seek = seek;
  at_position = λ s. s.position;
}

-- The length lies in the block, and the block size divides by a number that is not 0.
abbrev pub IsValid : MallocIo → Type 0
IsValid s = (s.len ≤ length s.block) × (0 < s.block_size)

pub round_up_ge : (size n : ℕ) → 0 < n → size + n ≤ 2 ^ 64 → size ≤ round_up size n
round_up_ge size n h k =
    let e : (size + n + 2 ^ 64 - 1) % 2 ^ 64 ≡ size + n - 1 = omega arith in
    let d : (size + n - 1) % n + (size + n - 1) / n * n ≡ size + n - 1 =
      mod-add-div' (size + n - 1) n in
    let l : (size + n - 1) % n < n = mod-lt (size + n - 1) h in
    let m : (size + n - 1) / n * n % 2 ^ 64 ≡ (size + n - 1) / n * n = mod-eq_of_lt (omega arith) in
    rw (e, m) (omega arith)

pub length-resized : (n : ℕ) (xs : List ℕ) → length (resized n xs) ≡ n
length-resized n xs = omega (
  arith,
  length-append (take n xs) (replicate (n - length xs) 0),
  length-take n xs,
  length-replicate {A = ℕ} (n - length xs) 0,
)
