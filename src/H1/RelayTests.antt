-- ===== src/H1/RelayTests.antt =====
-- A client that relays until its transport ends.
use df.Prelude.{true, ◌≡◌, refl, arith, false, List, [], ◌∷◌, ◌++◌, replicate}
use df.Io.{err, eof, buffer_write}
use df.Buffer.{returned}
use df.Buffer.Queue.{contents}
use df.H1.Client.{Client, read, Event, got_chunk, sends, got_error, failed, relay_traffic}
use df.H1.Relay.{down, up, relay_ends}

abbrev sample_client : Client
sample_client = record {
  cfg = [];
  id = 97 ∷ [];
  closed = false;
  connected = true;
  buf_read = record { buf = replicate 4 0; buf_len = 0; eof = false };
}

abbrev sample_events : List Event
sample_events = got_chunk (1 ∷ 2 ∷ []) ∷ sends (7 ∷ []) ∷ got_chunk (3 ∷ []) ∷ []

relay_ends_example :
    (c' : Client) × (relay_traffic buffer_write
        (sample_events ++ got_error eof ∷ [])
        sample_client
        []
      ≡ (failed eof, c', 7 ∷ []))
    × (contents c'.buf_read ≡ 1 ∷ 2 ∷ 3 ∷ [])
    × (read c' 2 ≡ (returned (err eof), c'))
relay_ends_example =
    relay_ends sample_events [] eof sample_client 2
      (down (1 ∷ 2 ∷ []), (up (7 ∷ []), (down (3 ∷ []), tt)))
      (record { valid = omega arith; opened = refl; running = refl }) (omega arith)
