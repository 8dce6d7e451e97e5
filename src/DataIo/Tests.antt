-- ===== src/DataIo/Tests.antt =====
-- Runs of BMemoryIO and BMallocIO, and inputs for the theorems.
use libb.Prelude.{
  ℕ, ◌≡◌, refl, ◌⊎◌, inl, inr, List, [], ◌∷◌, some, none, Bool, true, false, arith, length, max,
  get_elem?, ◌+◌, ◌^◌,
}
use libb.Prelude.Int.{pos, negsuc}
use libb.Prelude.Status.{no_memory}
use libb.Prelude.Bytes.{read_bytes}
use libb.Prelude.Splice.{splice}
use libb.DataIo.{MemoryIo, MallocIo, done, failed, fault, copy_out, copy_in, read_from}
use libb.DataIo.Memory
use libb.DataIo.Malloc
use libb.DataIo.Malloc.RoundTrip as MallocRoundTrip

abbrev four_bytes : MemoryIo
four_bytes = record { read_only = false; buffer = 1 ∷ 2 ∷ 3 ∷ 4 ∷ []; len = 2; position = pos 0 }

abbrev empty_block : MallocIo
empty_block = record { block_size = 4; block = []; len = 0; position = pos 0 }

abbrev three_bytes : MallocIo
three_bytes = record { block_size = 4; block = 5 ∷ 6 ∷ 7 ∷ 0 ∷ []; len = 3; position = pos 0 }

abbrev always : ℕ → Bool
always n = true

-- A write behind the end of the buffer makes the length longer than the buffer, and a read then
-- runs outside it.
longer_than_buffer :
    Memory.write_at four_bytes (pos 6) (some (9 ∷ [])) ≡ done (record four_bytes { len = 6 }, 0)
unfolding Memory.write_at Memory.write_some
longer_than_buffer = refl

reads_outside : Memory.read_at (record four_bytes { len = 6 }) (pos 0) true 6 ≡ fault
unfolding Memory.read_at read_from copy_out read_bytes
reads_outside = refl

-- BMallocIO copies from before its block.
reads_before : Malloc.read_at three_bytes (negsuc 0) true 1 ≡ fault
unfolding Malloc.read_at
reads_before = refl

malloc_write_example :
    ((s' : MallocIo) × (Malloc.write_at always three_bytes (pos 2) (some (8 ∷ 9 ∷ 10 ∷ []))
        ≡ done (s', 3))
      × MallocRoundTrip.Wrote three_bytes 2 (8 ∷ 9 ∷ 10 ∷ []) s')
    ⊎ ((Malloc.write_at always three_bytes (pos 2) (some (8 ∷ 9 ∷ 10 ∷ [])) ≡ failed no_memory)
        × (always (Malloc.round_up 5 4) ≡ false))
malloc_write_example =
    MallocRoundTrip.write_at-Wrote always three_bytes 2 (8 ∷ 9 ∷ 10 ∷ []) (omega arith, omega arith)
      (omega arith)

abbrev five_bytes : MallocIo
five_bytes = record {
  block_size = 4;
  block = 5 ∷ 6 ∷ 8 ∷ 9 ∷ 10 ∷ 0 ∷ 0 ∷ 0 ∷ [];
  len = 5;
  position = pos 0;
}

wrote_five :
    Malloc.write_at always three_bytes (pos 2) (some (8 ∷ 9 ∷ 10 ∷ [])) ≡ done (five_bytes, 3)
unfolding Malloc.write_at Malloc.copy_write Malloc.reserve Malloc.set_size Malloc.resize copy_in
    splice libb.Prelude.Int.◌+ℤ◌
wrote_five = refl

malloc_frame_example : get_elem? five_bytes.block 1 ≡ get_elem? three_bytes.block 1
malloc_frame_example =
    MallocRoundTrip.write_at-frame always three_bytes 2 (8 ∷ 9 ∷ 10 ∷ []) 1 five_bytes 3
      (omega arith, omega arith) (omega arith) wrote_five (omega arith) (inl (omega arith))
