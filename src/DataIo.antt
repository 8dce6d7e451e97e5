-- ===== src/DataIo.antt =====
-- kits/support/DataIO.cpp: BPositionIO, BMemoryIO and BMallocIO. Memory is a list of bytes and a
-- `memcpy` outside it is a fault. Sizes are below 2 ^ 63, where the conversions between `size_t` and
-- `off_t` keep the value; a negative `off_t` is written out.
pub mod Copies
pub mod Memory
pub mod Malloc
mod Tests
use libb.Prelude.{
  ℕ, ◌+◌, ◌-◌, ◌*◌, ◌/◌, ◌%◌, ◌^◌, List, [], ◌∷◌, ◌++◌, Option, none, some, Bool, true, false,
  if◌then◌else◌, ◌==◌, ltb, leb, min, max, length, take, drop, replicate,
}
use libb.Prelude.Int.{ℤ, pos, negsuc, ◌+ℤ◌, pos_part, ltb_ℤ, size_t_of}
use libb.Prelude.Bytes.{read_bytes}
use libb.Prelude.Splice.{splice}
use libb.Prelude.Status.{Status, bad_value, not_allowed, no_memory, general_error}

-- A call returns a status that is an error, or a count with what it changed, or it runs outside
-- the memory it was given.
pub data Outcome {ℓ} (A : Type ℓ) : Type ℓ where
  done : A → Outcome A
  failed : Status → Outcome A
  fault : Outcome A

-- `memcpy(buffer, data + p, n)`
unfoldable pub copy_out : List ℕ → ℕ → ℕ → Outcome (List ℕ)
copy_out xs p n = elim (read_bytes n (drop p xs)) [ none ↦ fault | some (bytes, _) ↦ done bytes ]

-- `memcpy(data + p, src, n)` of the `n` bytes of `src`.
unfoldable pub copy_in : List ℕ → ℤ → List ℕ → Option (List ℕ)
copy_in xs (pos p) src = if leb (p + length src) (length xs) then some (splice p src xs) else none
copy_in xs (negsuc p) [] = some xs
copy_in xs (negsuc p) (x ∷ src) = none

-- From `sizeRead = 0` on, for a position that is not negative.
unfoldable pub read_from : ℕ → List ℕ → ℕ → ℕ → Outcome (List ℕ)
read_from len xs p size = if ltb p len then copy_out xs p (min size (len - p)) else done []

-- `fPosition` after Seek; SEEK_SET is 0, SEEK_CUR is 1, SEEK_END is 2.
unfoldable pub seek_position : ℤ → ℕ → ℤ → ℕ → ℤ
seek_position old len position mode =
    if mode == 0
    then position
    else (if mode == 1 then old +ℤ position else (if mode == 2 then pos len +ℤ position else old))

-- A BMemoryIO; `fBufferSize` is the length of the buffer.
pub record MemoryIo : Type 0 where
  pub read_only : Bool
  pub buffer : List ℕ
  pub len : ℕ
  pub position : ℤ

-- A BMallocIO; `fMallocSize` is the length of the block.
pub record MallocIo : Type 0 where
  pub block_size : ℕ
  pub block : List ℕ
  pub len : ℕ
  pub position : ℤ

-- The virtual functions that BPositionIO calls. A buffer to read into is null for `false`; one to
-- write from is null for `none`.
pub record PositionIo {ℓ} (S : Type ℓ) : Type ℓ where
  pub at_read : S → ℤ → Bool → ℕ → Outcome (List ℕ)
  pub at_write : S → ℤ → Option (List ℕ) → Outcome (S × ℕ)
  pub at_seek : S → ℤ → ℕ → S
  pub at_position : S → ℤ

module _ {ℓ} {S : Type ℓ} (io : PositionIo S) where
  -- `BPositionIO::Read`
  unfoldable pub read : S → Bool → ℕ → Outcome (S × List ℕ)
  read s has size = elim (io.at_read s (io.at_position s) has size) [
    | done bytes ↦
        done ((if ltb 0 (length bytes) then io.at_seek s (pos (length bytes)) 1 else s), bytes)
    | failed e ↦ failed e
    | fault ↦ fault
  ]

  -- `BPositionIO::Write`
  unfoldable pub write : S → Option (List ℕ) → Outcome (S × ℕ)
  write s src = elim (io.at_write s (io.at_position s) src) [
    | done (s1, n) ↦ done ((if ltb 0 n then io.at_seek s1 (pos n) 1 else s1), n)
    | failed e ↦ failed e
    | fault ↦ fault
  ]
