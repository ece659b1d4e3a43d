-- ===== src/Codec/Frame.antt =====
-- The bytes that stand for a message, written down without the writer's buffers and loops.
use df.Prelude.{
  ℕ, ◌+◌, ◌≡◌, refl, ap, sym, ◌∙◌, arith, List, [], ◌∷◌, ◌++◌, length, length-append, append_assoc,
  append-nil, length-replicate, copy_at, take-copy_at, length-copy_at, take_of_length-le, take,
}
use df.Bytes.{put_u32, get_u-put_u32, IsU32}
use df.Io.{Result, ok, Io, after, read_full-append, buffer_write}
use df.Message.{
  Message, MessageResultDns, MessageData, request_dns, result_dns, request_dial, connection_state,
  conn_data, ping,
}
use df.Codec.{
  Json, frame_header, write_string, write_addresses, result_dns_payload, data_payload, read_bytes,
  read_string, read_array_header, total_of, fill, make_bytes, write_many,
}

-- A tag, a 32-bit length, and as many bytes.
abbrev pub tagged : ℕ → List ℕ → List ℕ
tagged tag dat = tag ∷ (put_u32 (length dat) ++ dat)

abbrev pub packed_addresses : List (List ℕ) → List ℕ
packed_addresses [] = []
packed_addresses (addr ∷ addrs) = tagged b'b' addr ++ packed_addresses addrs

abbrev pub packed_result_dns : MessageResultDns → List ℕ
packed_result_dns m =
    (b'a' ∷ put_u32 (length m.addresses)) ++ (packed_addresses m.addresses ++ tagged b's' m.error)

abbrev pub packed_data : MessageData → List ℕ
packed_data m = tagged b's' m.connection_id ++ tagged b'b' m.body

abbrev pub payload : Json → List ℕ → Message → Result (List ℕ)
payload json noise (request_dns m) = json.marshal (request_dns m)
payload json noise (request_dial m) = json.marshal (request_dial m)
payload json noise (connection_state m) = json.marshal (connection_state m)
payload json noise (result_dns m) = ok (packed_result_dns m)
payload json noise (conn_data m) = ok (packed_data m)
payload json noise (ping m) = ok noise

abbrev pub frame : Message → List ℕ → List ℕ
frame m dat = frame_header m (length dat) ++ dat

-- What a reader makes of a tagged string, whatever follows.
pub read_bytes-tagged :
    (dat rest : List ℕ) → IsU32 (length dat) → read_bytes (tagged b'b' dat ++ rest) ≡ (ok dat, rest)
unfolding read_bytes
read_bytes-tagged dat rest h =
    rw (read_full-append 5 (b'b' ∷ put_u32 (length dat)) (dat ++ rest) refl)
      (rw (get_u-put_u32 (length dat) h) (read_full-append (length dat) dat rest refl))

pub read_string-tagged :
    (dat rest : List ℕ)
    → IsU32 (length dat)
    → read_string (tagged b's' dat ++ rest) ≡ (ok dat, rest)
unfolding read_string
read_string-tagged dat rest h =
    rw (read_full-append 5 (b's' ∷ put_u32 (length dat)) (dat ++ rest) refl)
      (rw (get_u-put_u32 (length dat) h) (read_full-append (length dat) dat rest refl))

pub read_array_header-packed :
    (n : ℕ) (rest : List ℕ)
    → IsU32 n
    → read_array_header ((b'a' ∷ put_u32 n) ++ rest) ≡ (ok n, rest)
unfolding read_array_header
read_array_header-packed n rest h =
    rw (read_full-append 5 (b'a' ∷ put_u32 n) rest refl) (rw (get_u-put_u32 n h))

abbrev pub joined : List (List ℕ) → List ℕ
joined [] = []
joined (chunk ∷ chunks) = chunk ++ joined chunks

total_of-joined : (chunks : List (List ℕ)) → total_of chunks ≡ length (joined chunks)
total_of-joined [] = refl
total_of-joined (c ∷ cs) = ground (arith, total_of-joined cs, length-append c (joined cs))

-- With room for exactly the chunks, the buffer ends up as its front and the chunks.
fill-joined :
    (buf : List ℕ) (i : ℕ) (chunks : List (List ℕ))
    → i + length (joined chunks) ≡ length buf
    → fill buf i chunks ≡ take i buf ++ joined chunks
fill-joined buf i [] h = sym (append-nil (take i buf) ∙ take_of_length-le i buf (omega arith))
fill-joined buf i (c ∷ cs) h =
    let room : i + length c + length (joined cs) ≡ length buf =
      omega (arith, length-append c (joined cs)) in
    fill-joined (copy_at i buf c) (i + length c) cs (omega (arith, length-copy_at i buf c))
    ∙ ap (λ t. t ++ joined cs) (take-copy_at i buf c (omega arith))
    ∙ append_assoc (take i buf) c (joined cs)

-- `writeMany` hands the chunks, joined, to one call of `w`, or makes no call for no chunk.
pub write_many-joined :
    (w : List ℕ → Io ℕ) (chunk : List ℕ) (chunks : List (List ℕ))
    → write_many w (chunk ∷ chunks) ≡ w (joined (chunk ∷ chunks))
unfolding write_many
write_many-joined w c cs = ap w (
    fill-joined (make_bytes (total_of (c ∷ cs))) 0 (c ∷ cs)
      (omega (arith, total_of-joined (c ∷ cs), length-replicate {A = ℕ} (total_of (c ∷ cs)) 0)))

write_addresses_lem :
    (addrs : List (List ℕ)) (buf : List ℕ)
    → (n : ℕ) × (write_addresses addrs buf ≡ (ok n, buf ++ packed_addresses addrs))
unfolding write_addresses buffer_write
write_addresses_lem [] buf = (0, rw append-nil)
write_addresses_lem (addr ∷ addrs) buf =
    let (n, e) = write_addresses_lem addrs (buf ++ tagged b'b' addr) in
    (n, e ∙ ap (λ t. (ok n, t)) (append_assoc buf (tagged b'b' addr) (packed_addresses addrs)))

-- What the inner buffers hold in the end.
pub result_dns_payload_lem :
    (m : MessageResultDns) → (n : ℕ) × (result_dns_payload m [] ≡ (ok n, packed_result_dns m))
unfolding result_dns_payload buffer_write
result_dns_payload_lem m =
    let head = b'a' ∷ put_u32 (length m.addresses) in
    let (n, e) = write_addresses_lem m.addresses head in
    (length (tagged b's' m.error), ap (λ r. after r (λ _. write_string buffer_write m.error)) e)

pub data_payload_lem :
    (m : MessageData) → data_payload m [] ≡ (ok (length (packed_data m)), packed_data m)
unfolding data_payload buffer_write
data_payload_lem m =
    ap (λ n. (ok n, packed_data m))
      (omega (arith, length-append m.connection_id (tagged b'b' m.body)))
