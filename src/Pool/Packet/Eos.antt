-- ===== src/Pool/Packet/Eos.antt =====
-- What a packet that is not of data carries, such as the EOS that closes a client.
use df.Prelude.{
  ℕ, ◌≡◌, refl, sym, ap, ◌∙◌, arith, true, false, List, [], ◌∷◌, ◌++◌, ◌==◌, append-nil,
}
use df.Bytes.{IsU32}
use df.Io.{ok, buffer_write}
use df.Pool.Packet.{Packet, Meta, is_op, op_data, read_packet, write_packet}
use df.Pool.Packet.RoundTrip.{
  Carries-nothing, read_packets-write_packet, rounds_bytes, chunks_of, read_packet-round,
  round_bytes, pieces,
}

abbrev pub without_id : Packet → Packet
without_id p = record p { client_id = [] }

one_chunk : (p : Packet) → p.body ≡ [] → chunks_of p ≡ [] ∷ []
unfolding pieces
one_chunk p none = rw none refl

one_round :
    (json : Meta) (p : Packet)
    → is_op p.op ≡ true
    → (p.op == op_data) ≡ false
    → IsU32 p.serial
    → p.body ≡ []
    → (write_packet json buffer_write p []).1 ≡ round_bytes p [] [] ++ []
one_round json p h other hs none =
    ap (λ r. r.1)
      (read_packets-write_packet json p [] [] [] h hs (rw other refl) (Carries-nothing json)).0
    ∙ ap (rounds_bytes p []) (one_chunk p none)

-- A packet with another op than that of data, and without data, is read back as it was written but
-- for its client id, which is empty, whatever the JSON library does.
pub read_packet-write_packet :
    (json : Meta) (p : Packet) (rest : List ℕ)
    → is_op p.op ≡ true
    → (p.op == op_data) ≡ false
    → IsU32 p.serial
    → p.body ≡ []
    → read_packet json ((write_packet json buffer_write p []).1 ++ rest) ≡ (ok (without_id p), rest)
read_packet-write_packet json p rest h other hs none =
    ap (λ s. read_packet json (s ++ rest))
      (one_round json p h other hs none ∙ append-nil (round_bytes p [] []))
    ∙ read_packet-round json p [] [] [] rest h hs (Carries-nothing json) (omega arith)
    ∙ ap (λ dat. (ok (record p { client_id = []; body = dat }), rest)) (sym none)
