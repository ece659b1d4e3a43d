-- ===== src/Buffer/Tests.antt =====
-- Runs of the read-write buffer.
use df.Prelude.{◌≡◌, refl, arith, [], ◌∷◌, true, false}
use df.Buffer.{ReadWriteBuffer, write, read}
use df.Buffer.Queue.{Wrote, DidRead, write-Wrote, read-DidRead}
use df.Buffer.Wait.{asleep, deadlocked, writes, run, deadlock_for_ever}

-- A buffer of a small capacity, which `Write` grows.
abbrev sample : ReadWriteBuffer
sample = record { buf = 1 ∷ 2 ∷ 3 ∷ 0 ∷ []; buf_len = 3; eof = false }

abbrev empty : ReadWriteBuffer
empty = record sample { buf_len = 0 }

abbrev closed : ReadWriteBuffer
closed = record empty { eof = true }

write-Wrote_example :
    Wrote sample (7 ∷ 8 ∷ []) (write sample (7 ∷ 8 ∷ [])).0 (write sample (7 ∷ 8 ∷ [])).1
write-Wrote_example = write-Wrote sample (7 ∷ 8 ∷ []) (omega arith)

read-DidRead_example : DidRead sample 2 (read sample 2).0 (read sample 2).1
read-DidRead_example = read-DidRead sample 2 (omega arith)

deadlock_for_ever_example :
    (run (writes [] ∷ writes (7 ∷ []) ∷ []) (asleep 1, empty)).0 ≡ deadlocked
deadlock_for_ever_example = deadlock_for_ever (writes (7 ∷ []) ∷ []) 1 empty (omega arith) refl refl
