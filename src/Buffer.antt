-- ===== src/Buffer.antt =====
-- utils/buffer.go: a byte buffer between a writer and a blocking reader.
-- An operation is a function on the buffer: the tests of `eof`, which `Read` and `Write` make outside of
-- the lock, go with the locked part in one step. The capacity is the length of `buf`.
pub mod Growth
pub mod Queue
pub mod Limit
pub mod Wait
pub mod Room
mod Tests
use df.Prelude.{
  ℕ, zero, suc, ◌+◌, ◌-◌, ◌*◌, ◌==◌, Bool, true, false, List, [], ◌∷◌, length, take, slice, copy,
  copy_at, replicate, ltb, if◌then◌else◌, fitting,
}
use df.Io.{Error, Result, ok, err, panic, eof, short_buffer, closed_already, and_then}

abbrev pub buf_size : ℕ
buf_size = 1024 * 4

abbrev pub buf_size_max : ℕ
buf_size_max = 1024 * 1024 * 8

pub record ReadWriteBuffer : Type 0 where
  pub buf : List ℕ
  pub buf_len : ℕ
  pub eof : Bool

unfoldable pub new_buffer : ReadWriteBuffer
new_buffer = record { buf = replicate buf_size 0; buf_len = 0; eof = false }

-- The flag is set either way.
unfoldable pub close : ReadWriteBuffer → Result (Unit {0}) × ReadWriteBuffer
close f = (if f.eof then err closed_already else ok tt, record f { eof = true })

-- For a caller's buffer of `n` bytes: the bytes read into it, whose number is the result.
unfoldable pub read_from_buf : ReadWriteBuffer → ℕ → List ℕ × ReadWriteBuffer
read_from_buf f n =
    if ltb 0 f.buf_len
    then (let size = fitting f.buf_len n in
        (
          take size f.buf,
          record f { buf = copy f.buf (slice size f.buf_len f.buf); buf_len = f.buf_len - size },
        ))
    else ([], f)

-- `Read` returns, or waits for a `Broadcast`.
pub data Outcome : Type 0 where
  returned : Result (List ℕ) → Outcome
  waiting : Outcome

-- What `Read` makes of a first try, with the flag `eof`.
abbrev pub tried : Bool → List ℕ × ReadWriteBuffer → Outcome × ReadWriteBuffer
tried at_end (got, f) =
    if ltb 0 (length got)
    then (returned (ok got), f)
    else if at_end
    then (returned (err eof), f)
    else (waiting, f)

unfoldable pub read : ReadWriteBuffer → ℕ → Outcome × ReadWriteBuffer
read f n = if n == 0 then (returned (ok []), f) else tried f.eof (read_from_buf f n)

-- The loop that extends the capacity, on fuel; `panic` marks that it ran out.
unfoldable pub grow : ℕ → ℕ → ℕ → Result ℕ
grow zero cap_new size_after = panic
grow (suc fuel) cap_new size_after =
    let more = grow fuel (cap_new + buf_size) size_after in
    if ltb cap_new size_after
    then (if ltb buf_size_max (cap_new + buf_size) then err short_buffer else more)
    else ok cap_new

-- The buffer of the new capacity, or the old one where there is room.
unfoldable pub make_room : ReadWriteBuffer → ℕ → Result (List ℕ)
unfolding grow
make_room f size_after =
    if ltb (length f.buf) size_after
    then and_then (grow (size_after + 1) (length f.buf + buf_size) size_after)
        (λ cap_new. ok (copy (replicate cap_new 0) (take f.buf_len f.buf)))
    else ok f.buf

abbrev pub written : ReadWriteBuffer → List ℕ → Result (List ℕ) → Result ℕ × ReadWriteBuffer
written f dat (ok buf) = (
  ok (length dat),
  record f { buf = copy_at f.buf_len buf dat; buf_len = f.buf_len + length dat },
)
written f dat (err e) = (err e, f)
written f dat panic = (panic, f)

unfoldable pub write : ReadWriteBuffer → List ℕ → Result ℕ × ReadWriteBuffer
write f dat = if f.eof then (err eof, f) else written f dat (make_room f (f.buf_len + length dat))
