-- ===== src/H1/Client.antt =====
-- transport/h1/client.go: the client behind its connection. `RelayTraffic` is given by the sequence of what
-- its goroutine reads and its loop receives; what `Write` and `Close` send on a channel is their result.
use df.Prelude.{not, ◌&&◌, ℕ, Bool, true, false, List, [], ◌∷◌, length, leb, ltb, if◌then◌else◌}
use df.Io.{Result, ok, err, panic, Io, Error, eof, empty_key}
use df.Conf.{Values, get, server_url}
use df.Buffer.{ReadWriteBuffer, Outcome, returned, new_buffer}
use df.Buffer

pub record Client : Type 0 where
  pub cfg : Values
  pub id : List ℕ
  pub closed : Bool
  pub connected : Bool
  pub buf_read : ReadWriteBuffer

-- `NewClient`.
unfoldable pub new_client : Values → List ℕ → Result Client
new_client cfg client_id =
    if leb (length client_id) 0
    then err empty_key
    else if leb (length (get cfg server_url)) 0
    then err empty_key
    else ok (record {
      cfg = cfg;
      id = client_id;
      closed = false;
      connected = false;
      buf_read = new_buffer;
    })

-- `Connected`.
unfoldable pub is_connected : Client → Bool
is_connected c = c.connected && not c.closed

unfoldable pub read : Client → ℕ → Outcome × Client
read c n =
    if c.closed
    then (returned (err eof), c)
    else ((Buffer.read c.buf_read n).0, record c { buf_read = (Buffer.read c.buf_read n).1 })

-- `Write`: the result, and what it sends on `chW`.
unfoldable pub write : Client → List ℕ → Result ℕ × List (List ℕ)
write c buf = if c.closed then (err eof, []) else (ok (length buf), buf ∷ [])

-- `Close`: the client, and whether it sends on `chClose`.
unfoldable pub close : Client → Client × Bool
close c = (record c { closed = true }, if c.closed then false else true)

-- The reader reads a chunk, or an error; the loop receives a chunk of `Write`, or the signal of `Close`.
pub data Event : Type 0 where
  got_chunk sends : List ℕ → Event
  got_error : Error → Event
  closes : Event

pub data Relayed : Type 0 where
  running closed_by_client panicked : Relayed
  failed : Error → Relayed

abbrev pub Relay : Type 0
Relay = Relayed × Client × List ℕ

-- The deferred store.
abbrev pub stop : Relayed → Client → List ℕ → Relay
stop r c out = (r, record c { closed = true }, out)

abbrev pub buffered :
    Result ℕ × ReadWriteBuffer → Client → List ℕ → (Client → List ℕ → Relay) → Relay
buffered (ok n, f) c out k = k (record c { buf_read = f }) out
buffered (err e, f) c out k = stop (failed e) (record c { buf_read = f }) out
buffered (panic, f) c out k = stop panicked (record c { buf_read = f }) out

abbrev pub sent : Result ℕ × List ℕ → Client → (Client → List ℕ → Relay) → Relay
sent (ok n, out) c k = k c out
sent (err e, out) c k = stop (failed e) c out
sent (panic, out) c k = stop panicked c out

-- An error of the transport's `Write` is given as it is, where the code returns nil for an I/O error.
module _ (w : List ℕ → Io ℕ) where
  unfoldable pub relay : List Event → Client → List ℕ → Relay
  relay [] c out = (running, c, out)
  relay (got_chunk chunk ∷ es) c out = buffered (Buffer.write c.buf_read chunk) c out (relay es)
  relay (sends chunk ∷ es) c out =
      let rest = relay es c out in
      if ltb 0 (length chunk) then sent (w chunk out) c (relay es) else rest
  relay (got_error e ∷ es) c out = stop (failed e) c out
  relay (closes ∷ es) c out = stop closed_by_client c out

  -- `RelayTraffic`. The error of a client that is closed already is given as `eof`.
  unfoldable pub relay_traffic : List Event → Client → List ℕ → Relay
  unfolding relay
  relay_traffic es c out = if c.closed then (failed eof, c, out) else relay es c out
