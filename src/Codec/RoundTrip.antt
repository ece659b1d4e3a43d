-- ===== src/Codec/RoundTrip.antt =====
-- `Writer.Write` against the frame of a message, and `Reader.Read` of what it wrote.
use df.Prelude.{
  ℕ, ◌+◌, ◌≤◌, ◌≡◌, refl, ap, sym, ◌∙◌, arith, List, [], ◌∷◌, ◌++◌, length, length-append,
  append_assoc, append-nil, true,
}
use df.Bytes.{get_u-put_u32, IsU32}
use df.Io.{Result, ok, Io, pure, after, read_full-append, buffer_write}
use df.Message.{
  Message, MessageResultDns, MessageData, request_dns, result_dns, request_dial, connection_state,
  conn_data, ping, kind, message_id, ack_message_id,
}
use mathlib.Core.Path.{fun_ext, subst}
use df.Codec.{
  write_many, with_bytes, is_known, Json, frame_header, write, read_addresses, read_result_dns,
  read_data, decode, read, read_bytes, read_string,
}
use df.Codec.Frame.{
  tagged, packed_addresses, packed_result_dns, packed_data, payload, frame, read_bytes-tagged,
  read_string-tagged, read_array_header-packed, write_many-joined, result_dns_payload_lem,
  data_payload_lem,
}

module _ (w : List ℕ → Io ℕ) where
  write_many_pair : (head dat : List ℕ) → write_many w (head ∷ dat ∷ []) ≡ w (head ++ dat)
  write_many_pair head dat =
      write_many-joined w head (dat ∷ []) ∙ ap (λ t. w (head ++ t)) (append-nil dat)

  write_many-after :
      (r : Result (List ℕ)) (head : List ℕ → List ℕ) (s : List ℕ)
      → after (r, s) (λ dat. write_many w (head dat ∷ dat ∷ []))
        ≡ after (r, s) (λ dat. w (head dat ++ dat))
  write_many-after r head s = ap (after (r, s)) (fun_ext λ dat. write_many_pair (head dat) dat)

module _ (json : Json) (noise : List ℕ) (w : List ℕ → Io ℕ) where
  -- `Write` makes exactly one call of the underlying `Write`, with the whole frame, or none where
  -- the payload cannot be built. The result is that call's. A ping has eight random bytes.
  pub write-frame :
      (m : Message) (s : List ℕ)
      → length noise ≡ 8
      → write json noise w m s ≡ after (payload json noise m, s) (λ dat. w (frame m dat))
  unfolding write
  write-frame (request_dns m) s h =
      write_many-after w (json.marshal (request_dns m))
        (λ dat. frame_header (request_dns m) (length dat)) s
  write-frame (request_dial m) s h =
      write_many-after w (json.marshal (request_dial m))
        (λ dat. frame_header (request_dial m) (length dat)) s
  write-frame (connection_state m) s h =
      write_many-after w (json.marshal (connection_state m))
        (λ dat. frame_header (connection_state m) (length dat)) s
  write-frame (result_dns m) s h =
      ap
        (λ r.
          after (with_bytes r, s)
            (λ x. write_many w (frame_header (result_dns m) (length x.1) ∷ x.1 ∷ [])))
        (result_dns_payload_lem m).1
      ∙ ap (λ f. f s)
          (write_many_pair w (frame_header (result_dns m) (length (packed_result_dns m)))
            (packed_result_dns m))
  write-frame (conn_data m) s h =
      ap
        (λ r.
          after (with_bytes r, s) (λ x. write_many w (frame_header (conn_data m) x.0 ∷ x.1 ∷ [])))
        (data_payload_lem m)
      ∙ ap (λ f. f s)
          (write_many_pair w (frame_header (conn_data m) (length (packed_data m))) (packed_data m))
  write-frame (ping m) s h =
      ap (λ f. f s) (write_many_pair w (frame_header (ping m) 8) noise)
      ∙ ap (λ n. w (frame_header (ping m) n ++ noise) s) (sym h)

is_known-kind : (m : Message) → is_known (kind m) ≡ true
is_known-kind (request_dns m) = refl
is_known-kind (result_dns m) = refl
is_known-kind (request_dial m) = refl
is_known-kind (connection_state m) = refl
is_known-kind (conn_data m) = refl
is_known-kind (ping m) = refl

-- `Read` of a frame comes to the second switch, with the header's fields and the payload.
read-frame :
    (json : Json) (m : Message) (dat rest : List ℕ)
    → IsU32 (message_id m)
    → IsU32 (ack_message_id m)
    → IsU32 (length dat)
    → read json (frame m dat ++ rest)
      ≡ decode json (kind m) (message_id m) (ack_message_id m) dat rest
unfolding read frame_header
read-frame json m dat rest hi ha hn =
    rw (read_full-append 20 (frame_header m (length dat)) (dat ++ rest) refl) (
      rw
        (
          is_known-kind m,
          get_u-put_u32 (message_id m) hi,
          get_u-put_u32 (ack_message_id m) ha,
          get_u-put_u32 (length dat) hn,
        )
        (rw (read_full-append (length dat) dat rest refl)))

-- Where nothing follows.
read_bytes_end : (dat : List ℕ) → IsU32 (length dat) → read_bytes (tagged b'b' dat) ≡ (ok dat, [])
read_bytes_end dat h =
    ap read_bytes (sym (append-nil (tagged b'b' dat))) ∙ read_bytes-tagged dat [] h

read_string_end : (dat : List ℕ) → IsU32 (length dat) → read_string (tagged b's' dat) ≡ (ok dat, [])
read_string_end dat h =
    ap read_string (sym (append-nil (tagged b's' dat))) ∙ read_string-tagged dat [] h

read_addresses-packed :
    (addrs done : List (List ℕ)) (rest : List ℕ)
    → IsU32 (length (packed_addresses addrs))
    → read_addresses (length addrs) done (packed_addresses addrs ++ rest)
      ≡ (ok (done ++ addrs), rest)
unfolding read_addresses
read_addresses-packed [] done rest h = rw append-nil
read_addresses-packed (a ∷ addrs) done rest h =
    let h' : IsU32 (length (tagged b'b' a) + length (packed_addresses addrs)) =
      omega (arith, length-append (tagged b'b' a) (packed_addresses addrs)) in
    rw (append_assoc a (packed_addresses addrs) rest) (
      ap (λ r. after r (λ addrb. read_addresses (length addrs) (done ++ (addrb ∷ []))))
        (read_bytes-tagged a (packed_addresses addrs ++ rest) (omega arith))
      ∙ read_addresses-packed addrs (done ++ (a ∷ [])) rest (omega arith)
      ∙ ap (λ t. (ok t, rest)) (append_assoc done (a ∷ []) addrs))

-- Each packed address has a tag and a length, so the count fits where the bytes do.
addresses_shorter : (addrs : List (List ℕ)) → length addrs ≤ length (packed_addresses addrs)
addresses_shorter [] = omega arith
addresses_shorter (a ∷ addrs) =
    omega (arith, addresses_shorter addrs, length-append (tagged b'b' a) (packed_addresses addrs))

read_result_dns-packed :
    (m : MessageResultDns)
    → IsU32 (length (packed_result_dns m))
    → read_result_dns m.id m.ack (packed_result_dns m) ≡ (ok (result_dns m), [])
unfolding read_result_dns
read_result_dns-packed m h =
    let tail = packed_addresses m.addresses ++ tagged b's' m.error in
    let h' : IsU32 (length (packed_addresses m.addresses) + length (tagged b's' m.error)) =
      omega (arith, length-append (packed_addresses m.addresses) (tagged b's' m.error)) in
    rw
      (read_array_header-packed (length m.addresses) tail
        (omega (arith, addresses_shorter m.addresses)))
      (rw (read_addresses-packed m.addresses [] (tagged b's' m.error) (omega arith))
        (rw (read_string_end m.error (omega arith))))

read_data-packed :
    (m : MessageData)
    → IsU32 (length (packed_data m))
    → read_data m.id m.ack (packed_data m) ≡ (ok (conn_data m), [])
unfolding read_data
read_data-packed m h =
    let h' : IsU32 (length (tagged b's' m.connection_id) + length (tagged b'b' m.body)) =
      omega (arith, length-append (tagged b's' m.connection_id) (tagged b'b' m.body)) in
    rw (read_string-tagged m.connection_id (tagged b'b' m.body) (omega arith)) (
      ap (λ r. after r (λ body. pure (conn_data (record m { body = body }))))
        (read_bytes_end m.body (omega arith)))

-- What `json.Unmarshal` does with the payload: it reads back the message, for the three types that
-- are sent as JSON.
abbrev pub Unmarshals : Json → Message → List ℕ → Type 0
Unmarshals json (request_dns m) dat = json.unmarshal_request_dns dat ≡ ok m
Unmarshals json (request_dial m) dat = json.unmarshal_request_dial dat ≡ ok m
Unmarshals json (connection_state m) dat = json.unmarshal_connection_state dat ≡ ok m
Unmarshals json (result_dns m) dat = Unit
Unmarshals json (conn_data m) dat = Unit
Unmarshals json (ping m) dat = Unit

decode-payload :
    (json : Json) (noise : List ℕ) (m : Message) {dat : List ℕ} (rest : List ℕ)
    → payload json noise m ≡ ok dat
    → Unmarshals json m dat
    → IsU32 (length dat)
    → decode json (kind m) (message_id m) (ack_message_id m) dat rest ≡ (ok m, rest)
unfolding decode
decode-payload json noise (request_dns m) rest e u h = rw u
decode-payload json noise (request_dial m) rest e u h = rw u
decode-payload json noise (connection_state m) rest e u h = rw u
decode-payload json noise (result_dns m) {dat} rest e u h =
    let p : packed_result_dns m ≡ dat = cc in
    rw (← p)
      (ap (λ r. (r.0, rest)) (read_result_dns-packed m (subst (λ d. IsU32 (length d)) (sym p) h)))
decode-payload json noise (conn_data m) {dat} rest e u h =
    let p : packed_data m ≡ dat = cc in
    rw (← p) (ap (λ r. (r.0, rest)) (read_data-packed m (subst (λ d. IsU32 (length d)) (sym p) h)))
decode-payload json noise (ping m) rest e u h = refl

-- A message that is written to a buffer is the frame of its payload, and reading the frame back
-- gives the message and leaves whatever follows: for ids and a payload's length of 32 bits, a ping's
-- eight random bytes, and a payload that `json.Unmarshal` reads back where the message goes as JSON.
pub read-write :
    (json : Json) (noise : List ℕ) (m : Message) {dat : List ℕ} (rest : List ℕ)
    → length noise ≡ 8
    → payload json noise m ≡ ok dat
    → Unmarshals json m dat
    → IsU32 (message_id m)
    → IsU32 (ack_message_id m)
    → IsU32 (length dat)
    → (write json noise buffer_write m [] ≡ (ok (length (frame m dat)), frame m dat))
      × (read json (frame m dat ++ rest) ≡ (ok m, rest))
unfolding buffer_write
read-write json noise m {dat} rest hn e u hi ha hl = (
  write-frame json noise buffer_write m [] hn ∙ rw e,
  read-frame json m dat rest hi ha hl ∙ decode-payload json noise m rest e u hl,
)
