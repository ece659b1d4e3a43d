-- ===== src/Pool/Packet/Tests.antt =====
-- Runs of h1pool's packets.
use df.Prelude.{◌≡◌, refl, arith, [], ◌∷◌, ◌++◌, length, map, All}
use df.Io.{ok, buffer_write}
use df.Pool.Packet.{Packet, Meta, write_packet}
use df.Pool.Packet.RoundTrip.{
  Carries-json, read_packets, read_packets-write_packet, rounds_bytes, chunks_of, seen, joined,
  IsPiece,
}

-- An id that stands for its own JSON.
abbrev sample_json : Meta
sample_json = record { marshal = ok; unmarshal = ok }

abbrev sample : Packet
sample = record { client_id = b'c' ∷ []; serial = 4; op = 0; body = 7 ∷ 8 ∷ [] }

read_packets-write_packet_example :
    (write_packet sample_json buffer_write sample []
      ≡ (ok tt, rounds_bytes sample (b'c' ∷ []) (chunks_of sample)))
    × (read_packets sample_json
          (length (chunks_of sample))
          (rounds_bytes sample (b'c' ∷ []) (chunks_of sample) ++ 9 ∷ [])
        ≡ (ok (map (seen sample_json sample (b'c' ∷ []) (b'c' ∷ [])) (chunks_of sample)), 9 ∷ []))
    × (joined (chunks_of sample) ≡ sample.body)
    × All IsPiece (chunks_of sample)
read_packets-write_packet_example =
    read_packets-write_packet sample_json sample (b'c' ∷ []) (b'c' ∷ []) (9 ∷ []) refl (omega arith)
      refl (Carries-json sample_json (b'c' ∷ []) (b'c' ∷ []) (omega arith) (omega arith) refl)

abbrev sample_eos : Packet
sample_eos = record { client_id = b'c' ∷ []; serial = 5; op = 10; body = [] }
