-- ===== src/ReadBuf.antt =====
-- The read buffer that F1, Ws and virtualConn keep, with the same text in each: `bufRead`, whose
-- capacity is its length, `lenBufRead`, `appendBuf`, and the branch of `Read` that serves from it.
pub mod Queue
use df.Prelude.{
  ℕ, ◌+◌, ◌-◌, List, length, take, drop, copy, copy_at, replicate, ltb, if◌then◌else◌, fitting,
}

pub record ReadBuf : Type 0 where
  pub bytes : List ℕ
  pub len : ℕ

unfoldable pub append_buf : ReadBuf → List ℕ → ReadBuf
append_buf b dat =
    let size_after = b.len + length dat in
    if ltb (length b.bytes) size_after
    then record {
      bytes = copy_at b.len (copy (replicate size_after 0) (take b.len b.bytes)) dat;
      len = size_after;
    }
    else record { bytes = copy_at b.len b.bytes dat; len = size_after }

-- The bytes that go to the caller's buffer of `n` bytes, and the buffer with the rest moved down.
unfoldable pub drain : ReadBuf → ℕ → List ℕ × ReadBuf
drain b n =
    let size = fitting b.len n in
    (take size b.bytes, record { bytes = copy b.bytes (drop size b.bytes); len = b.len - size })
