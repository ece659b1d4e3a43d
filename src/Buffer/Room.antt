-- ===== src/Buffer/Room.antt =====
-- Writes that the maximum does not refuse.
use df.Prelude.{ℕ, zero, suc, ◌+◌, ◌≤◌, ◌≡◌, ◌≢◌, refl, ap, ◌∙◌, arith, false, List, length, ◌++◌}
use df.Io.{Error, Result, ok, err, panic}
use df.Buffer.{ReadWriteBuffer, buf_size, buf_size_max, grow, make_room, written, write}
use df.Buffer.Queue.{
  IsValid, contents, Wrote, appended, refused_closed, refused_full, write-Wrote, write_step,
  make_room-ne-panic,
}

grow-ne-err :
    (fuel c size : ℕ) (x : Error) → size + buf_size ≤ buf_size_max → grow fuel c size ≢ err x
unfolding grow
grow-ne-err zero c size x h = ground arith
grow-ne-err (suc fuel) c size x h = ground (arith, grow-ne-err fuel (c + buf_size) size x)

make_room-ne-err :
    (f : ReadWriteBuffer) (size : ℕ) (x : Error)
    → size + buf_size ≤ buf_size_max
    → make_room f size ≢ err x
unfolding make_room
make_room-ne-err f size x h =
    ground (arith, grow-ne-err (size + 1) (length f.buf + buf_size) size x)

written_ok :
    (f : ReadWriteBuffer) (dat : List ℕ) (r : Result (List ℕ))
    → ((x : Error) → r ≢ err x)
    → r ≢ panic
    → (written f dat r).0 ≡ ok (length dat)
written_ok f dat (ok buf) ne np = refl
written_ok f dat (err x) ne np = absurd (ne x refl)
written_ok f dat panic ne np = absurd (np refl)

-- A write to an open buffer succeeds as long as a block of the maximum stays free.
pub write-ok :
    (f : ReadWriteBuffer) (dat : List ℕ)
    → f.eof ≡ false
    → f.buf_len + length dat + buf_size ≤ buf_size_max
    → (write f dat).0 ≡ ok (length dat)
write-ok f dat opened h =
    ap (λ r. r.0) (write_step f dat opened)
    ∙ written_ok f dat (make_room f (f.buf_len + length dat))
        (λ x. make_room-ne-err f (f.buf_len + length dat) x h)
        (make_room-ne-panic f (f.buf_len + length dat))

-- It appends, and the buffer stays open.
pub write_appends :
    (f : ReadWriteBuffer) (dat : List ℕ)
    → IsValid f
    → f.eof ≡ false
    → f.buf_len + length dat + buf_size ≤ buf_size_max
    → (contents (write f dat).1 ≡ contents f ++ dat)
      × IsValid (write f dat).1
      × ((write f dat).1.eof ≡ false)
write_appends f dat v opened h = appends (write-Wrote f dat v)
  where
    appends :
        Wrote f dat (write f dat).0 (write f dat).1
        → (contents (write f dat).1 ≡ contents f ++ dat)
          × IsValid (write f dat).1
          × ((write f dat).1.eof ≡ false)
    appends (appended r o whole v' same held) = (whole, v', same ∙ opened)
    appends (refused_closed r closed same) = cc
    appends (refused_full r o same full) = cc (write-ok f dat opened h)
