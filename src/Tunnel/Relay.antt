-- ===== src/Tunnel/Relay.antt =====
-- The end of `handleDialConn`: the loop that copies between the client's session and the target, given
-- the sequence of what its `select` receives, and the goroutines that feed it.
use df.Prelude.{
  ℕ, zero, suc, ◌+◌, ◌*◌, ◌==◌, ◌&&◌, List, [], ◌∷◌, bytes_eq, leb, ltb, if◌then◌else◌,
}
use df.Io.{Result, ok, err, panic, Io, Error}
use df.Conf.{codes}
use df.Message.{
  Message, MessageConnectionState, MessageData, request_dns, result_dns, request_dial,
  connection_state, conn_data, ping,
}
use df.Codec.{Json}
use df.Codec

abbrev pub max_buffer_size : ℕ
max_buffer_size = 1024 * 1024 * 8

-- The size of the buffer and the count of full reads, behind a read of `size` bytes.
unfoldable pub after_read : ℕ × ℕ → ℕ → ℕ × ℕ
after_read (buf_size, count_full_read) size =
    if size == buf_size
    then if leb 10 (count_full_read + 1) && ltb buf_size max_buffer_size
      then (buf_size * 2, count_full_read + 1)
      else (buf_size, count_full_read + 1)
    else (buf_size, 0)

unfoldable pub after_reads : ℕ × ℕ → List ℕ → ℕ × ℕ
unfolding after_read
after_reads b [] = b
after_reads b (size ∷ sizes) = after_reads (after_read b size) sizes

-- What the loop receives: from the client, from the target, an error, or the end of the context.
pub data Event : Type 0 where
  got_state : MessageConnectionState → Event
  got_data : MessageData → Event
  got_down : List ℕ → Event
  got_error : Error → Event
  cancelled : Event

-- The loop still waits, or has returned.
pub data Relayed : Type 0 where
  running finished panicked : Relayed
  failed : Error → Relayed

-- The goroutine that reads from the client: what it sends, by the rounds left.
abbrev pub sent_on : Result Message × List ℕ → (List ℕ → List Event) → List Event
sent_on (err e, s) k = got_error e ∷ []
sent_on (panic, s) k = []
sent_on (ok (conn_data m), s) k = got_data m ∷ k s
sent_on (ok (connection_state m), s) k = got_state m ∷ k s
sent_on (ok (request_dns m), s) k = k s
sent_on (ok (result_dns m), s) k = k s
sent_on (ok (request_dial m), s) k = k s
sent_on (ok (ping m), s) k = k s

unfoldable pub from_client : Json → ℕ → List ℕ → List Event
from_client json zero s = []
from_client json (suc fuel) s = sent_on (Codec.read json s) (from_client json fuel)

-- The loop's state: the target's bytes so far, and the session's.
abbrev pub Relay : Type 0
Relay = Relayed × List ℕ × List ℕ

abbrev pub to_target : Result ℕ × List ℕ → List ℕ → (List ℕ → List ℕ → Relay) → Relay
to_target (ok n, target) out k = k target out
to_target (err e, target) out k = (failed e, target, out)
to_target (panic, target) out k = (panicked, target, out)

abbrev pub to_client : Result ℕ × List ℕ → List ℕ → (List ℕ → List ℕ → Relay) → Relay
to_client (ok n, out) target k = k target out
to_client (err e, out) target k = (failed e, target, out)
to_client (panic, out) target k = (panicked, target, out)

abbrev pub data_of : List ℕ → List ℕ → MessageData
data_of conn_id dat = record { id = 0; ack = 0; connection_id = conn_id; body = dat }

abbrev pub data_message : List ℕ → List ℕ → Message
data_message conn_id dat = conn_data (data_of conn_id dat)

module _ (json : Json) (noise : List ℕ) (conn_write : List ℕ → Io ℕ) (w : List ℕ → Io ℕ)
    (conn_id : List ℕ) where
  unfoldable pub relay : List Event → List ℕ → List ℕ → Relay
  relay [] target out = (running, target, out)
  relay (got_state m ∷ es) target out =
      let rest = relay es target out in
      if bytes_eq m.state (codes "close") then (finished, target, out) else rest
  relay (got_data m ∷ es) target out = to_target (conn_write m.body target) out (relay es)
  relay (got_down dat ∷ es) target out =
      to_client (Codec.write json noise w (data_message conn_id dat) out) target (relay es)
  relay (got_error e ∷ es) target out = (failed e, target, out)
  relay (cancelled ∷ es) target out = (finished, target, out)
