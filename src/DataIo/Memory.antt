-- ===== src/DataIo/Memory.antt =====
-- kits/support/DataIO.cpp: BMemoryIO.
pub mod RoundTrip
use libb.Prelude.{
  ℕ, ◌+◌, ◌-◌, ◌≤◌, ◌<◌, ◌≡◌, List, Option, none, some, Bool, true, false, if◌then◌else◌, ltb, min,
  length, take,
}
use libb.Prelude.Int.{ℤ, pos, negsuc, ltb_ℤ, size_t_of}
use libb.Prelude.Status.{Status, bad_value, not_allowed, general_error}
use libb.DataIo.{
  MemoryIo, Outcome, done, failed, fault, PositionIo, copy_in, read_from, seek_position,
}

unfoldable pub read_at : MemoryIo → ℤ → Bool → ℕ → Outcome (List ℕ)
read_at s p false size = failed bad_value
read_at s (negsuc p) true size = failed bad_value
read_at s (pos p) true size = read_from s.len s.buffer p size

-- `sizeWritten`
abbrev pub written : MemoryIo → ℕ → List ℕ → ℕ
written s p src = if ltb p (length s.buffer) then min (length src) (length s.buffer - p) else 0

-- The buffer after the branch on `pos < fBufferSize`.
abbrev pub write_buffer : MemoryIo → ℕ → List ℕ → Option (List ℕ)
write_buffer s p src =
    if ltb p (length s.buffer)
    then copy_in s.buffer (pos p) (take (written s p src) src)
    else some s.buffer

abbrev pub grow : ℕ → ℕ → ℕ
grow len end = if ltb len end then end else len

unfoldable pub write_some : MemoryIo → ℕ → List ℕ → Outcome (MemoryIo × ℕ)
write_some s p src = elim (write_buffer s p src) [
  | none ↦ fault
  | some b ↦ done (record s { buffer = b; len = grow s.len (p + written s p src) }, written s p src)
]

-- What follows `if (fReadOnly)`.
abbrev write_buffered : MemoryIo → ℤ → Option (List ℕ) → Outcome (MemoryIo × ℕ)
write_buffered s p none = failed bad_value
write_buffered s (negsuc p) (some src) = failed bad_value
write_buffered s (pos p) (some src) = write_some s p src

unfoldable pub write_at : MemoryIo → ℤ → Option (List ℕ) → Outcome (MemoryIo × ℕ)
write_at s p src = if s.read_only then failed not_allowed else write_buffered s p src

unfoldable pub seek : MemoryIo → ℤ → ℕ → MemoryIo
seek s p mode = record s { position = seek_position s.position s.len p mode }

unfoldable pub set_size : MemoryIo → ℤ → Outcome MemoryIo
set_size s size =
    if s.read_only
    then failed not_allowed
    else (if ltb_ℤ (pos (length s.buffer)) size
        then failed general_error
        else done (record s { len = size_t_of size }))

abbrev pub memory_io : PositionIo MemoryIo
memory_io = record {
  at_read = read_at;
  at_write = write_at;
  at_seek = seek;
  at_position = λ s. s.position;
}

-- The length lies in the buffer.
abbrev pub IsValid : MemoryIo → Type 0
IsValid s = s.len ≤ length s.buffer
