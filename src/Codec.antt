-- ===== src/Codec.antt =====
-- message/codec/s1: the frame of a message.
-- A writer is the `Write` of the `io.Writer` that it wraps, `w`; a reader reads the stream of `Io`.
-- `encoding/json` is a parameter, `Json`: a marshalled message, and a message filled in from bytes.
-- The eight random bytes of a ping are the argument `noise`.
pub mod Frame
pub mod RoundTrip
pub mod Sound
pub mod Tests
use df.Prelude.{
  ℕ, zero, suc, ◌+◌, ◌-◌, ◌%◌, ◌^◌, ◌==◌, ltb, leb, if◌then◌else◌, ◌||◌, Bool, true, false, List,
  [], ◌∷◌, ◌++◌, length, get_or, slice, replicate, copy_at, take, drop,
}
use df.Bytes.{put_u32, put_u64, get_u}
use df.Io.{
  Error, Result, ok, err, panic, Io, pure, fail, lift, after, ◌>>=◌, ◌>>◌, read_full, buffer_write,
  wrong_type, unknown_kind,
}
use df.Message.{
  Message, MessageRequestDns, MessageResultDns, MessageRequestDial, MessageConnectionState,
  MessageData, MessagePing, request_dns, result_dns, request_dial, connection_state, conn_data,
  ping, kind, message_id, ack_message_id, kind_data, kind_request_dns, kind_result_dns,
  kind_request_dial, kind_connection_state, kind_ping_pong,
}

-- `json.Marshal` and `json.Unmarshal` into an empty struct, for the three types that use them.
pub record Json : Type 0 where
  pub marshal : Message → Result (List ℕ)
  pub unmarshal_request_dns : List ℕ → Result MessageRequestDns
  pub unmarshal_request_dial : List ℕ → Result MessageRequestDial
  pub unmarshal_connection_state : List ℕ → Result MessageConnectionState

-- `make([]byte, n)`, and `copy` into its front.
abbrev pub make_bytes : ℕ → List ℕ
make_bytes n = replicate n 0

-- Writer.
module _ (w : List ℕ → Io ℕ) where
  unfoldable pub write_bytes : List ℕ → Io ℕ
  write_bytes dat = w (b'b' ∷ (put_u32 (length dat) ++ dat))

  unfoldable pub write_array_header : ℕ → Io ℕ
  write_array_header size = w (b'a' ∷ put_u32 size)

  unfoldable pub write_string : List ℕ → Io ℕ
  write_string s = w (b's' ∷ (put_u32 (length s) ++ s))

  -- An `int32` is given by its bit pattern, `uint32(i)`; likewise an `int64`.
  unfoldable pub write_int32 : ℕ → Io ℕ
  write_int32 i = w (b'i' ∷ put_u32 i)

  unfoldable pub write_int64 : ℕ → Io ℕ
  write_int64 i = w (b'I' ∷ put_u64 i)

  unfoldable pub write_bool : Bool → Io ℕ
  write_bool v = w (b'=' ∷ (if v then b'y' else b'n') ∷ [])

-- `total` of `writeMany`: the loop skips an empty chunk, which adds nothing.
abbrev pub total_of : List (List ℕ) → ℕ
total_of [] = 0
total_of (chunk ∷ chunks) =
    let rest = total_of chunks in if leb (length chunk) 0 then rest else length chunk + rest

-- The second loop of `writeMany`, which fills `chunk_all` from index `i` on.
abbrev pub fill : List ℕ → ℕ → List (List ℕ) → List ℕ
fill chunk_all i [] = chunk_all
fill chunk_all i (chunk ∷ chunks) = fill (copy_at i chunk_all chunk) (i + length chunk) chunks

unfoldable pub write_many : (List ℕ → Io ℕ) → List (List ℕ) → Io ℕ
write_many w [] = pure 0
write_many w (chunk ∷ chunks) = w (fill (make_bytes (total_of (chunk ∷ chunks))) 0 (chunk ∷ chunks))

-- The header: kind, 7 reserved bytes, id, ack, and the payload's length.
unfoldable pub frame_header : Message → ℕ → List ℕ
frame_header m size =
    kind m
    ∷ 0
    ∷ 0
    ∷ 0
    ∷ 0
    ∷ 0
    ∷ 0
    ∷ 0
    ∷ (put_u32 (message_id m) ++ (put_u32 (ack_message_id m) ++ put_u32 size))

-- The loop over the addresses, on the inner writer.
unfoldable pub write_addresses : List (List ℕ) → Io ℕ
unfolding write_bytes
write_addresses [] = pure 0
write_addresses (addr ∷ addrs) = do write_bytes buffer_write addr; write_addresses addrs

-- What the inner writer `w1` does for a DNS result, and for data. The result is `total`.
unfoldable pub result_dns_payload : MessageResultDns → Io ℕ
unfolding write_array_header write_addresses write_string
result_dns_payload m1 = do
  write_array_header buffer_write (length m1.addresses)
  write_addresses m1.addresses
  write_string buffer_write m1.error

unfoldable pub data_payload : MessageData → Io ℕ
unfolding write_string write_bytes
data_payload m1 = do
  size ← write_string buffer_write m1.connection_id
  size' ← write_bytes buffer_write m1.body
  pure (size + size')

abbrev pub with_bytes : Result ℕ × List ℕ → Result (ℕ × List ℕ)
with_bytes (ok n, buf) = ok (n, buf)
with_bytes (err e, buf) = err e
with_bytes (panic, buf) = panic

-- A computation on an inner `bytes.Buffer` that starts empty: its result and the buffer's bytes.
abbrev pub in_buffer : Io ℕ → Io (ℕ × List ℕ)
in_buffer m s = (with_bytes (m []), s)

unfoldable pub write : Json → List ℕ → (List ℕ → Io ℕ) → Message → Io ℕ
unfolding write_many result_dns_payload data_payload frame_header
write json noise w (result_dns m1) = do
  (_, dat) ← in_buffer (result_dns_payload m1)
  write_many w (frame_header (result_dns m1) (length dat) ∷ dat ∷ [])
write json noise w (conn_data m1) = do
  (total, dat) ← in_buffer (data_payload m1)
  write_many w (frame_header (conn_data m1) total ∷ dat ∷ [])
write json noise w (ping m1) = write_many w (frame_header (ping m1) 8 ∷ noise ∷ [])
write json noise w (request_dns m1) = do
  dat ← lift (json.marshal (request_dns m1))
  write_many w (frame_header (request_dns m1) (length dat) ∷ dat ∷ [])
write json noise w (request_dial m1) = do
  dat ← lift (json.marshal (request_dial m1))
  write_many w (frame_header (request_dial m1) (length dat) ∷ dat ∷ [])
write json noise w (connection_state m1) = do
  dat ← lift (json.marshal (connection_state m1))
  write_many w (frame_header (connection_state m1) (length dat) ∷ dat ∷ [])

-- Reader.
unfoldable pub read_array_header : Io ℕ
read_array_header = do
  h ← read_full 5
  if get_or h 0 0 == b'a' then pure (get_u (slice 1 5 h)) else fail (wrong_type (get_or h 0 0))

unfoldable pub read_bytes : Io (List ℕ)
read_bytes = do
  h ← read_full 5
  if get_or h 0 0 == b'b' then read_full (get_u (slice 1 5 h)) else fail (wrong_type (get_or h 0 0))

unfoldable pub read_string : Io (List ℕ)
read_string = do
  h ← read_full 5
  if get_or h 0 0 == b's' then read_full (get_u (slice 1 5 h)) else fail (wrong_type (get_or h 0 0))

-- `for i := 0; i < size; i += 1`, by the rounds left.
unfoldable pub read_addresses : ℕ → List (List ℕ) → Io (List (List ℕ))
unfolding read_bytes
read_addresses zero addrs = pure addrs
read_addresses (suc n) addrs = do addrb ← read_bytes; read_addresses n (addrs ++ (addrb ∷ []))

-- A computation on an inner `bytes.Reader` over `dat`; the outer stream stays where it is.
abbrev pub from_bytes : {A : Type 0} → List ℕ → Io A → Io A
from_bytes dat m s = ((m dat).0, s)

unfoldable pub read_result_dns : ℕ → ℕ → Io Message
unfolding read_array_header read_addresses read_string
read_result_dns id ack = do
  size ← read_array_header
  addrs ← read_addresses size []
  err_msg ← read_string
  pure (result_dns (record { id = id; ack = ack; addresses = addrs; error = err_msg }))

unfoldable pub read_data : ℕ → ℕ → Io Message
unfolding read_string read_bytes
read_data id ack = do
  conn_id ← read_string
  body ← read_bytes
  pure (conn_data (record { id = id; ack = ack; connection_id = conn_id; body = body }))

abbrev pub is_known : ℕ → Bool
is_known k =
    k == kind_request_dns
    || k == kind_result_dns
    || k == kind_request_dial
    || k == kind_connection_state
    || k == kind_data
    || k == kind_ping_pong

-- The second `switch kind`, on the payload.
unfoldable pub decode : Json → ℕ → ℕ → ℕ → List ℕ → Io Message
unfolding read_result_dns read_data
decode json k id ack dat =
    if k == kind_request_dns
    then (lift (json.unmarshal_request_dns dat) >>= λ m. pure (request_dns (record m { id = id })))
    else if k == kind_request_dial
    then (lift (json.unmarshal_request_dial dat) >>= λ m.
        pure (request_dial (record m { id = id })))
    else if k == kind_connection_state
    then (lift (json.unmarshal_connection_state dat) >>= λ m.
        pure (connection_state (record m { id = id; ack = ack })))
    else if k == kind_result_dns
    then from_bytes dat (read_result_dns id ack)
    else if k == kind_data
    then from_bytes dat (read_data id ack)
    else if k == kind_ping_pong
    then pure (ping (record { id = id; ack = ack }))
    else fail (unknown_kind k)

unfoldable pub read : Json → Io Message
unfolding decode
read json = do
  header ← read_full 20
  let k = get_or header 0 0
  let id = get_u (slice 8 12 header)
  let ack = get_u (slice 12 16 header)
  let size = get_u (slice 16 20 header)
  if is_known k then (read_full size >>= λ dat. decode json k id ack dat) else fail (unknown_kind k)
