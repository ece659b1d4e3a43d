-- ===== src/Codec/Tests.antt =====
-- Runs of message/codec/s1 on small messages.
use df.Prelude.{
  ℕ, ◌+◌, ◌≡◌, refl, arith, List, [], ◌∷◌, ◌++◌, length, take, drop, get_or, slice, true,
}
use df.Bytes.{get_u}
use df.Io.{Result, ok, err, read_full, buffer_write, json_failed}
use df.Message.{
  Message, MessageRequestDns, request_dns, result_dns, request_dial, connection_state, conn_data,
  ping, kind, message_id,
}
use df.Codec.{Json, write, read, is_known}
use df.Codec.Frame.{frame}
use df.Codec.RoundTrip.{read-write}
use df.Codec.Sound.{read_takes}

-- A serialisation in place of JSON.
abbrev sample_marshal : Message → Result (List ℕ)
sample_marshal (request_dns m) = ok (m.id ∷ (length m.network ∷ (m.network ++ m.domain_name)))
sample_marshal (result_dns m) = err json_failed
sample_marshal (request_dial m) = err json_failed
sample_marshal (connection_state m) = err json_failed
sample_marshal (conn_data m) = err json_failed
sample_marshal (ping m) = err json_failed

abbrev sample_unmarshal : List ℕ → Result MessageRequestDns
sample_unmarshal [] = err json_failed
sample_unmarshal (id ∷ []) = err json_failed
sample_unmarshal (id ∷ n ∷ rest) =
    ok (record { id = id; network = take n rest; domain_name = drop n rest })

abbrev pub sample_json : Json
sample_json = record {
  marshal = sample_marshal;
  unmarshal_request_dns = sample_unmarshal;
  unmarshal_request_dial = λ dat. err json_failed;
  unmarshal_connection_state = λ dat. err json_failed;
}

abbrev pub sample_noise : List ℕ
sample_noise = 1 ∷ 2 ∷ 3 ∷ 4 ∷ 5 ∷ 6 ∷ 7 ∷ 8 ∷ []

abbrev sample_request : Message
sample_request =
    request_dns (record { id = 3; network = b'i' ∷ b'p' ∷ []; domain_name = b'd' ∷ b'f' ∷ [] })

abbrev pub sample_dat : List ℕ
sample_dat = 3 ∷ 2 ∷ b'i' ∷ b'p' ∷ b'd' ∷ b'f' ∷ []

read-write_example :
    (write sample_json sample_noise buffer_write sample_request []
      ≡ (ok (length (frame sample_request sample_dat)), frame sample_request sample_dat))
    × (read sample_json (frame sample_request sample_dat ++ 9 ∷ []) ≡ (ok sample_request, 9 ∷ []))
read-write_example =
    read-write sample_json sample_noise sample_request {dat = sample_dat} (9 ∷ []) refl refl refl
      (omega arith) (omega arith) (omega arith)

abbrev sample_data : Message
sample_data = conn_data (record { id = 7; ack = 1; connection_id = b'c' ∷ []; body = 5 ∷ 6 ∷ [] })

sample_data-read :
    read sample_json ((write sample_json sample_noise buffer_write sample_data []).1 ++ 9 ∷ [])
    ≡ (ok sample_data, 9 ∷ [])
unfolding write read read_full buffer_write get_u
sample_data-read = refl

abbrev sample_rest : List ℕ
sample_rest = 9 ∷ []

abbrev pub sample_stream : List ℕ
sample_stream = frame sample_request sample_dat ++ 9 ∷ []

read_takes_example :
    (kind sample_request ≡ get_or (take 20 sample_stream) 0 0)
    × (is_known (kind sample_request) ≡ true)
    × (message_id sample_request ≡ get_u (slice 8 12 (take 20 sample_stream)))
    × (length sample_stream ≡ 20 + get_u (slice 16 20 (take 20 sample_stream)) + length sample_rest)
read_takes_example =
    read_takes sample_json sample_stream {m = sample_request} {t = sample_rest} read-write_example.1
