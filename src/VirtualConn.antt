-- ===== src/VirtualConn.antt =====
-- socks/backend/virtual_conn.go: a connection whose bytes come over a channel.
-- The channel `chR` is what waits in it, where `none` is a nil chunk; `chW` and `chErr` are seen as
-- what an operation sends.
pub mod Stream
mod Tests
use df.Prelude.{
  ℕ, Bool, true, false, List, [], ◌∷◌, ◌++◌, length, take, drop, ltb, Option, none, some,
  if◌then◌else◌,
}
use df.Io.{Result, ok, err, eof}
use df.ReadBuf
use df.ReadBuf.{ReadBuf}

pub record VirtualConn : Type 0 where
  pub closed : Bool
  pub buf_read : ReadBuf

-- `Read` returns, or waits for a chunk.
pub data Outcome : Type 0 where
  returned : Result (List ℕ) → Outcome
  waiting : Outcome

-- The `select` of `Read`, for a buffer of `n` bytes: the outcome, the connection and the channel.
unfoldable pub receive :
    VirtualConn → ℕ → List (Option (List ℕ)) → Outcome × VirtualConn × List (Option (List ℕ))
receive c n [] = (waiting, c, [])
receive c n (none ∷ ch_r) = (returned (err eof), c, ch_r)
receive c n (some chunk ∷ ch_r) =
    if ltb n (length chunk)
    then (
      returned (ok (take n chunk)),
      record c { buf_read = ReadBuf.append_buf c.buf_read (drop n chunk) },
      ch_r,
    )
    else (returned (ok chunk), c, ch_r)

unfoldable pub read :
    VirtualConn → ℕ → List (Option (List ℕ)) → Outcome × VirtualConn × List (Option (List ℕ))
unfolding receive
read c n ch_r =
    if ltb 0 c.buf_read.len
    then (
      returned (ok (ReadBuf.drain c.buf_read n).0),
      record c { buf_read = (ReadBuf.drain c.buf_read n).1 },
      ch_r,
    )
    else if c.closed
    then (returned (err eof), c, ch_r)
    else receive c n ch_r

-- `Write`: the result, and what it sends on `chW`.
unfoldable pub write : VirtualConn → List ℕ → Result ℕ × List (List ℕ)
write c dat =
    if c.closed
    then (err eof, [])
    else (ok (length dat), if ltb 0 (length dat) then dat ∷ [] else [])

unfoldable pub close_local : VirtualConn → VirtualConn
close_local c = record c { closed = true }
