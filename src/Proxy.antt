-- ===== src/Proxy.antt =====
-- utils/proxy.go, `Proxy`: the copying between a connection and its up-link, as steps of its four
-- goroutines. Each direction has a reader, which sends what it has read on a channel with room for eight
-- chunks, and a writer. The channel of errors has room for all that are sent, and is a count.
pub mod Order
pub mod Loss
mod Tests
use df.Prelude.{take, ℕ, suc, ◌+◌, ◌<◌, ◌≡◌, Bool, true, false, List, [], ◌∷◌, ◌++◌, length}

-- One direction: what its source still gives, one `Read` after the other, what waits in the channel,
-- what the writer has written to the sink, and whether the reader still runs. A `Read` and the send of its
-- chunk are one step.
pub record Pipe : Type 0 where
  pub source : List (List ℕ)
  pub channel : List (List ℕ)
  pub written : List ℕ
  pub reading : Bool

-- `down` is written by `Proxy` itself, `up` by a goroutine that ends when `Proxy` returns.
pub record Proxy : Type 0 where
  pub down : Pipe
  pub up : Pipe
  pub errors : ℕ
  pub writing_up : Bool
  pub returned : Bool

-- A reader reads a chunk and puts it into the channel where there is room, or reads the end.
pub data Fill : Pipe → Pipe → Type 0 where
  fills :
      {p : Pipe} (chunk : List ℕ) (rest : List (List ℕ))
      → p.reading ≡ true
      → p.source ≡ chunk ∷ rest
      → length p.channel < 8
      → Fill p (record p { source = rest; channel = p.channel ++ chunk ∷ [] })

-- A writer takes a chunk from the channel and writes it.
pub data Drain : Pipe → Pipe → Type 0 where
  drains :
      {p : Pipe} (chunk : List ℕ) (rest : List (List ℕ))
      → p.channel ≡ chunk ∷ rest
      → Drain p (record p { channel = rest; written = p.written ++ chunk })

pub data Step (s : Proxy) : Proxy → Type 0 where
  fill_down : {p : Pipe} → Fill s.down p → Step s (record s { down = p })
  fill_up : {p : Pipe} → Fill s.up p → Step s (record s { up = p })
  -- A `Read` fails, at the end of the source or before.
  end_down :
      s.down.reading ≡ true
      → Step s (record s { down = record s.down { reading = false }; errors = suc s.errors })
  end_up :
      s.up.reading ≡ true
      → Step s (record s { up = record s.up { reading = false }; errors = suc s.errors })
  -- The loop of `Proxy` and the goroutine that writes to the up-link.
  drain_down : {p : Pipe} → s.returned ≡ false → Drain s.down p → Step s (record s { down = p })
  drain_up : {p : Pipe} → s.writing_up ≡ true → Drain s.up p → Step s (record s { up = p })
  -- A `Write` fails, after so many bytes: of the up-link, which is reported, or of the connection.
  fail_up :
      (n : ℕ) (chunk : List ℕ) (rest : List (List ℕ))
      → s.writing_up ≡ true
      → s.up.channel ≡ chunk ∷ rest
      → Step s (record s {
        up = record s.up { channel = rest; written = s.up.written ++ take n chunk };
        writing_up = false;
        errors = suc s.errors;
      })
  fail_down :
      (n : ℕ) (chunk : List ℕ) (rest : List (List ℕ))
      → s.returned ≡ false
      → s.down.channel ≡ chunk ∷ rest
      → Step s (record s {
        down = record s.down { channel = rest; written = s.down.written ++ take n chunk };
        returned = true;
      })
  -- `Proxy` takes an error and returns, and the writer of the up-link then may see that.
  takes_error :
      {n : ℕ}
      → s.returned ≡ false
      → s.errors ≡ suc n
      → Step s (record s { errors = n; returned = true })
  stops_up : s.returned ≡ true → s.writing_up ≡ true → Step s (record s { writing_up = false })

pub data Reach (s : Proxy) : Proxy → Type 0 where
  here : Reach s s
  next : {t u : Proxy} → Reach s t → Step t u → Reach s u
