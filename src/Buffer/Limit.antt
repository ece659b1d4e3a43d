-- ===== src/Buffer/Limit.antt =====
-- How far `Write` extends the capacity.
use df.Prelude.{
  ℕ, zero, suc, ◌+◌, ◌*◌, ◌≤◌, ◌<◌, ◌≡◌, refl, ap, ◌∙◌, arith, false, List, length, take, replicate,
  copy, le→ltb, lt→ltb, if◌then◌else◌, length-copy, length-copy_at, length-replicate,
}
use native.Mathlib.Numerals.{add-one}
use df.Io.{ok, and_then}
use df.Buffer.{ReadWriteBuffer, buf_size, new_buffer, grow, make_room, written, write}
use df.Buffer.Queue.{write_step}

-- A first step that is large enough is not held against the maximum.
grow_first : (fuel c size : ℕ) → size ≤ c → grow (suc fuel) c size ≡ ok c
unfolding grow
grow_first fuel c size h = rw (le→ltb c size h)

-- Where the bytes fit one more block, `make_room` succeeds whatever the capacity.
make_room_block :
    (f : ReadWriteBuffer) (size : ℕ)
    → length f.buf < size
    → size ≤ length f.buf + buf_size
    → (buf : List ℕ) × (make_room f size ≡ ok buf) × (length buf ≡ length f.buf + buf_size)
unfolding make_room
make_room_block f size h h' =
    let c = length f.buf + buf_size in
    (
      copy (replicate c 0) (take f.buf_len f.buf),
      ap
            (λ b.
              if b
              then and_then (grow (size + 1) c size)
                  (λ cap_new. ok (copy (replicate cap_new 0) (take f.buf_len f.buf)))
              else ok f.buf)
            (lt→ltb (length f.buf) size h)
          ∙ ap (λ r. and_then r (λ cap_new. ok (copy (replicate cap_new 0) (take f.buf_len f.buf))))
              (ap (λ k. grow k c size) (add-one size) ∙ grow_first size c size h'),
      length-copy (replicate c 0) (take f.buf_len f.buf) ∙ length-replicate c 0,
    )

-- A write of at most one block into an open buffer that is full succeeds, and extends the capacity
-- by a block. `BUF_SIZE_MAX` does not stop it.
pub write_block :
    (f : ReadWriteBuffer) (dat : List ℕ)
    → f.eof ≡ false
    → f.buf_len ≡ length f.buf
    → 0 < length dat
    → length dat ≤ buf_size
    → ((write f dat).0 ≡ ok (length dat))
      × (length (write f dat).1.buf ≡ length f.buf + buf_size)
      × ((write f dat).1.buf_len ≡ length f.buf + length dat)
      × ((write f dat).1.eof ≡ false)
write_block f dat opened full some small =
    let (buf, e, len) = make_room_block f (f.buf_len + length dat) (omega arith) (omega arith) in
    let step = write_step f dat opened ∙ ap (written f dat) e in
    (
      ap (λ p. p.0) step,
      ap (λ p. length p.1.buf) step ∙ length-copy_at f.buf_len buf dat ∙ len,
      ap (λ p. p.1.buf_len) step ∙ omega arith,
      ap (λ p. p.1.eof) step ∙ opened,
    )

-- Whole blocks, one write for each.
unfoldable pub write_blocks : List ℕ → ℕ → ReadWriteBuffer → ReadWriteBuffer
write_blocks block zero f = f
write_blocks block (suc n) f = write_blocks block n (write f block).1

write_blocks_full :
    (block : List ℕ) (n : ℕ) (f : ReadWriteBuffer)
    → length block ≡ buf_size
    → f.eof ≡ false
    → f.buf_len ≡ length f.buf
    → (length (write_blocks block n f).buf ≡ length f.buf + n * buf_size)
      × ((write_blocks block n f).buf_len ≡ length f.buf + n * buf_size)
unfolding write_blocks
write_blocks_full block zero f size opened full = omega arith
write_blocks_full block (suc n) f size opened full =
    let (_, cap, len, opened') = write_block f block opened full (omega arith) (omega arith) in
    let (a, b) = write_blocks_full block n (write f block).1 size opened' (omega arith) in
    omega arith

-- Where there is room the capacity stays.
pub write_fits :
    (f : ReadWriteBuffer) (dat : List ℕ)
    → f.eof ≡ false
    → f.buf_len + length dat ≤ length f.buf
    → ((write f dat).0 ≡ ok (length dat))
      × (length (write f dat).1.buf ≡ length f.buf)
      × ((write f dat).1.buf_len ≡ f.buf_len + length dat)
      × ((write f dat).1.eof ≡ false)
unfolding make_room
write_fits f dat opened room =
    let step =
      write_step f dat opened
      ∙ ap
          (λ b. written f dat (
            if b
            then and_then
                (grow (f.buf_len + length dat + 1) (length f.buf + buf_size)
                  (f.buf_len + length dat))
                (λ cap_new. ok (copy (replicate cap_new 0) (take f.buf_len f.buf)))
            else ok f.buf))
          (le→ltb (length f.buf) (f.buf_len + length dat) room) in
    (
      ap (λ p. p.0) step,
      ap (λ p. length p.1.buf) step ∙ length-copy_at f.buf_len f.buf dat,
      ap (λ p. p.1.buf_len) step,
      ap (λ p. p.1.eof) step ∙ opened,
    )

new_buffer_lem :
    (length new_buffer.buf ≡ buf_size) × (new_buffer.buf_len ≡ 0) × (new_buffer.eof ≡ false)
unfolding new_buffer
new_buffer_lem = (length-replicate {A = ℕ} buf_size 0, refl, refl)

-- There is no bound on the capacity: after `n + 1` writes of a block of `BUF_SIZE` bytes into a fresh
-- buffer, the buffer holds them all, and its capacity is their total size, for every `n`.
pub capacity_unbounded :
    (block : List ℕ) (n : ℕ)
    → length block ≡ buf_size
    → let f = write_blocks block (suc n) new_buffer in
      (length f.buf ≡ suc n * buf_size) × (f.buf_len ≡ suc n * buf_size)
unfolding write_blocks
capacity_unbounded block n size =
    let (cap, len, opened) = new_buffer_lem in
    let (_, cap', len', opened') = write_fits new_buffer block opened (omega arith) in
    let (a, b) = write_blocks_full block n (write new_buffer block).1 size opened' (omega arith) in
    omega arith
