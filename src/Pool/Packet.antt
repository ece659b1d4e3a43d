-- ===== src/Pool/Packet.antt =====
-- transport/h1pool/packet.go: the packets on a shared transport.
-- `encoding/json` is a parameter, `Meta`: the client's id as JSON, and its field filled in from
-- bytes (`client_id` is the only field that JSON carries).
pub mod RoundTrip
pub mod Eos
mod Tests
use df.Prelude.{
  ℕ, zero, suc, ◌+◌, ◌-◌, ◌*◌, ◌==◌, ◌||◌, Bool, List, [], ◌∷◌, ◌++◌, length, take, drop, slice,
  ltb, leb, if◌then◌else◌, get_or, bytes_eq, min,
}
use df.Bytes.{put_u32, get_u}
use df.Io.{
  Error, Result, ok, err, panic, Io, pure, fail, lift, after, ◌>>=◌, ◌>>◌, and_then, read_full,
  illegal_header, invalid_op, meta_too_large, data_too_large, json_failed,
}

abbrev pub magic : List ℕ
magic = b'C' ∷ b'P' ∷ 0 ∷ []

abbrev pub max_packet_size : ℕ
max_packet_size = 1024 * 128

abbrev pub max_meta_size : ℕ
max_meta_size = 1024

abbrev pub op_data : ℕ
op_data = 0

abbrev pub op_ping : ℕ
op_ping = 8

abbrev pub op_pong : ℕ
op_pong = 9

abbrev pub op_eos : ℕ
op_eos = 10

pub record Packet : Type 0 where
  pub client_id : List ℕ
  pub serial : ℕ
  pub op : ℕ
  pub body : List ℕ

-- `json.Marshal(p)`, and `json.Unmarshal` into a packet whose client id is empty: the id it gets.
pub record Meta : Type 0 where
  pub marshal : List ℕ → Result (List ℕ)
  pub unmarshal : List ℕ → Result (List ℕ)

abbrev pub is_op : ℕ → Bool
is_op op = op == op_data || op == op_ping || op == op_pong || op == op_eos

-- The two optional parts behind the header. A failing `json.Unmarshal` is reported anew.
abbrev pub renamed : {A : Type 0} → Result A → Result A
renamed (ok a) = ok a
renamed (err e) = err json_failed
renamed panic = panic

unfoldable pub read_meta : Meta → ℕ → Io (List ℕ)
read_meta json size =
    if ltb 0 size
    then (read_full size >>= λ metab. lift (renamed (json.unmarshal metab)))
    else pure []

unfoldable pub read_body : ℕ → Io (List ℕ)
read_body size = if ltb 0 size then read_full size else pure []

-- `readAnyPacket`, and `readPacket`, which loops over it but returns in its first round. The sizes
-- are of 32 bits, so the tests for a negative `int` fail.
unfoldable pub read_packet : Meta → Io Packet
read_packet json = do
  head ← read_full 16
  if bytes_eq magic (take 3 head)
      then (if is_op (get_or head 3 0)
          then (if ltb max_meta_size (get_u (slice 8 12 head))
              then fail meta_too_large
              else (if ltb max_packet_size (get_u (slice 12 16 head))
                  then fail data_too_large
                  else (read_meta json (get_u (slice 8 12 head)) >>= λ client_id.
                      read_body (get_u (slice 12 16 head)) >>= λ dat. pure (record {
                        client_id = client_id;
                        serial = get_u (slice 4 8 head);
                        op = get_or head 3 0;
                        body = dat;
                      }))))
          else fail invalid_op)
      else fail illegal_header

-- The bytes of `head` for one round of `writePacket`.
abbrev pub packet_head : Packet → List ℕ → List ℕ → List ℕ
packet_head p metab dat =
    magic ++ (p.op ∷ (put_u32 p.serial ++ (put_u32 (length metab) ++ put_u32 (length dat))))

-- The loop of `writePacket`: `rest` is `p.Data[start:]`. It ends when `start` reaches the end, so
-- there is one round where there is no data. Each other round moves by a byte at least.
unfoldable pub write_rounds : (List ℕ → Io ℕ) → Packet → List ℕ → ℕ → List ℕ → Io (Unit {0})
write_rounds w p metab zero rest = pure tt
write_rounds w p metab (suc fuel) rest =
    let size_dat = if ltb max_packet_size (length rest) then max_packet_size else length rest in
    let dat = take size_dat rest in
    let more = write_rounds w p metab fuel (drop size_dat rest) in
    w (packet_head p metab dat)
    >> (w metab >> (w dat >> (if leb (length rest) size_dat then pure tt else more)))

unfoldable pub write_packet : Meta → (List ℕ → Io ℕ) → Packet → Io (Unit {0})
unfolding write_rounds
write_packet json w p = do
  metab ← lift (if p.op == op_data then json.marshal p.client_id else ok [])
  write_rounds w p metab (length p.body + 1) p.body
