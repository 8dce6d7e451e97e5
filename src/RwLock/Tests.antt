-- ===== src/RwLock/Tests.antt =====
-- kits/kernel/rwlock.c: two threads, of which one takes the lock as a writer, and the witness.
use libb.Prelude.{◌≡◌, refl, arith}
use libb.Prelude.Threads.{update}
use libb.RwLock.{writing, take_write, System, run, start, Reach, fresh, next}
use libb.RwLock.Exclusion.{reads, writes, writer_excludes}

abbrev first_writes : System
first_writes = record { word = 0; phase = update start.phase 0 writing }

abbrev one_step : Reach 2 first_writes
one_step = next fresh (run 0 (omega arith) (take_write refl))

writer_excludes_example :
    (first_writes.word ≡ 0)
    × ((reads (first_writes.phase 1) ≡ 0) × (writes (first_writes.phase 1) ≡ 0))
writer_excludes_example =
    writer_excludes one_step 0 1 (omega arith) (omega arith) (omega arith) (omega arith)
