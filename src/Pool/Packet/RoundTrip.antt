-- ===== src/Pool/Packet/RoundTrip.antt =====
-- What `readPacket` makes of the packets that `writePacket` sends.
use df.Prelude.{
  ℕ, zero, suc, ◌+◌, ◌≤◌, ◌<◌, ◌≡◌, inl, inr, refl, sym, ap, ◌∙◌, arith, true, Bool-cases, List, [],
  ◌∷◌, ◌++◌, length, take, drop, All, map, leb, le→ltb, lt→ltb, le→leb, leb→le, leb→lt,
  if◌then◌else◌, ◌==◌, append-nil, append_assoc, length-take, length-drop, take-append-drop,
  take_of_length-le,
}
use df.Bytes.{IsU32, get_u-put_u32}
use df.Io.{ok, Io, pure, ◌>>=◌, read_full-append, buffer_write}
use df.Pool.Packet.{
  Packet, Meta, max_packet_size, max_meta_size, is_op, op_data, read_meta, read_body, read_packet,
  packet_head, write_rounds, write_packet,
}

read_body-append : (dat rest : List ℕ) → read_body (length dat) (dat ++ rest) ≡ (ok dat, rest)
unfolding read_body
read_body-append [] rest = refl
read_body-append (x ∷ xs) rest =
    rw (lt→ltb 0 (suc (length xs)) (omega arith))
      (read_full-append (suc (length xs)) (x ∷ xs) rest refl)

-- A packet's meta part, and the client id that a reader gets from it.
pub record Carries (json : Meta) (metab client_id : List ℕ) : Type 0 where
  pub small : length metab ≤ max_meta_size
  pub reads : (rest : List ℕ) → read_meta json (length metab) (metab ++ rest) ≡ (ok client_id, rest)

-- A meta part that `json.Unmarshal` reads; and none at all, which leaves the id empty.
pub Carries-json :
    (json : Meta) (metab client_id : List ℕ)
    → 0 < length metab
    → length metab ≤ max_meta_size
    → json.unmarshal metab ≡ ok client_id
    → Carries json metab client_id
unfolding read_meta
Carries-json json metab client_id some small e = record {
  small = small;
  reads = λ rest.
      rw (lt→ltb 0 (length metab) some)
        (rw (read_full-append (length metab) metab rest refl) (rw e));
}

pub Carries-nothing : (json : Meta) → Carries json [] []
unfolding read_meta
Carries-nothing json = record { small = omega arith; reads = λ rest. refl }

module _ (p : Packet) (metab : List ℕ) where
  -- One round's bytes, and the packet in them.
  abbrev pub round_bytes : List ℕ → List ℕ
  round_bytes dat = packet_head p metab dat ++ (metab ++ dat)

  -- The bytes of all the rounds, and the packets in them.
  abbrev pub rounds_bytes : List (List ℕ) → List ℕ
  rounds_bytes [] = []
  rounds_bytes (dat ∷ dats) = round_bytes dat ++ rounds_bytes dats

module _ (json : Meta) (p : Packet) (metab client_id : List ℕ) where
  abbrev pub seen : List ℕ → Packet
  seen dat = record p { client_id = client_id; body = dat }

  pub read_packet-round :
      (dat rest : List ℕ)
      → is_op p.op ≡ true
      → IsU32 p.serial
      → Carries json metab client_id
      → length dat ≤ max_packet_size
      → read_packet json (round_bytes p metab dat ++ rest) ≡ (ok (seen dat), rest)
  unfolding read_packet
  read_packet-round dat rest h hs c hd =
      rw (read_full-append 16 (packet_head p metab dat) ((metab ++ dat) ++ rest) refl) (
        rw
          (
            h,
            get_u-put_u32 p.serial hs,
            get_u-put_u32 (length metab) (omega (arith, c.small)),
            get_u-put_u32 (length dat) (omega arith),
          )
          (rw (le→ltb max_meta_size (length metab) c.small, le→ltb max_packet_size (length dat) hd)
            (rw (append_assoc metab dat rest)
              (rw (c.reads (dat ++ rest)) (rw (read_body-append dat rest))))))

abbrev pub joined : List (List ℕ) → List ℕ
joined [] = []
joined (dat ∷ dats) = dat ++ joined dats

-- The pieces that the data is cut into, one for each round.
unfoldable pub pieces : ℕ → List ℕ → List (List ℕ)
pieces zero rest = []
pieces (suc fuel) rest =
    let more = pieces fuel (drop max_packet_size rest) in
    if leb (length rest) max_packet_size then rest ∷ [] else take max_packet_size rest ∷ more

abbrev pub IsPiece : List ℕ → Type 0
IsPiece dat = length dat ≤ max_packet_size

pieces_lem :
    (fuel : ℕ) (rest : List ℕ)
    → length rest < fuel
    → (joined (pieces fuel rest) ≡ rest) × All IsPiece (pieces fuel rest)
unfolding pieces
pieces_lem zero rest h = absurd (omega arith)
pieces_lem (suc fuel) rest h = elim (Bool-cases (leb (length rest) max_packet_size)) [
  | inl last ↦ rw last (append-nil rest, (leb→le (length rest) max_packet_size last, tt))
  | inr more ↦
      let (whole, small) = pieces_lem fuel (drop max_packet_size rest) (
        omega
          (arith, length-drop max_packet_size rest, leb→lt (length rest) max_packet_size more)) in
      rw more (
        ap (λ t. take max_packet_size rest ++ t) whole ∙ take-append-drop max_packet_size rest,
        (omega (arith, length-take max_packet_size rest), small),
      )
]

module _ (p : Packet) (metab : List ℕ) where
  three_writes :
      (s dat : List ℕ)
      → ((s ++ packet_head p metab dat) ++ metab) ++ dat ≡ s ++ round_bytes p metab dat
  three_writes s dat =
      append_assoc (s ++ packet_head p metab dat) metab dat
      ∙ append_assoc s (packet_head p metab dat) (metab ++ dat)

  write_rounds-pieces :
      (fuel : ℕ) (rest s : List ℕ)
      → length rest < fuel
      → write_rounds buffer_write p metab fuel rest s
        ≡ (ok tt, s ++ rounds_bytes p metab (pieces fuel rest))
  unfolding write_rounds buffer_write pieces
  write_rounds-pieces zero rest s h = absurd (omega arith)
  write_rounds-pieces (suc fuel) rest s h = elim (Bool-cases (leb (length rest) max_packet_size)) [
    | inl last ↦
        let small = leb→le (length rest) max_packet_size last in
        rw
          (
            last,
            le→ltb max_packet_size (length rest) small,
            take_of_length-le (length rest) rest (omega arith),
            le→leb (length rest) (length rest) (omega arith),
          )
          (ap (λ t. (ok tt, t))
            (three_writes s rest ∙ ap (λ t. s ++ t) (sym (append-nil (round_bytes p metab rest)))))
    | inr more ↦
        let big = leb→lt (length rest) max_packet_size more in
        rw (lt→ltb max_packet_size (length rest) big, more)
          (write_rounds-pieces fuel (drop max_packet_size rest) _
              (omega (arith, length-drop max_packet_size rest))
            ∙ ap (λ t. (ok tt, t))
                (ap (λ t. t ++ rounds_bytes p metab (pieces fuel (drop max_packet_size rest)))
                    (three_writes s (take max_packet_size rest))
                  ∙ append_assoc s (round_bytes p metab (take max_packet_size rest)) _))
  ]

-- So many packets, one after the other.
unfoldable pub read_packets : Meta → ℕ → Io (List Packet)
read_packets json zero = pure []
read_packets json (suc n) = read_packet json >>= λ p. read_packets json n >>= λ ps. pure (p ∷ ps)

module _ (json : Meta) (p : Packet) (metab client_id : List ℕ) where
  read_packets-rounds :
      (dats : List (List ℕ)) (rest : List ℕ)
      → is_op p.op ≡ true
      → IsU32 p.serial
      → Carries json metab client_id
      → All IsPiece dats
      → read_packets json (length dats) (rounds_bytes p metab dats ++ rest)
        ≡ (ok (map (seen json p metab client_id) dats), rest)
  unfolding read_packets
  read_packets-rounds [] rest h hs c small = refl
  read_packets-rounds (dat ∷ dats) rest h hs c (small, smalls) =
      rw (append_assoc (round_bytes p metab dat) (rounds_bytes p metab dats) rest) (
        rw
          (read_packet-round json p metab client_id dat (rounds_bytes p metab dats ++ rest) h hs c
            small)
          (rw (read_packets-rounds dats rest h hs c smalls)))

abbrev pub chunks_of : Packet → List (List ℕ)
chunks_of p = pieces (length p.body + 1) p.body

-- A packet of any size is written as one packet for each piece of its data, of 128 KiB at most, and
-- the pieces make up the data. Read back, they have the packet's op and serial number, and the
-- client id that its meta part carries, and whatever follows on the stream is left.
pub read_packets-write_packet :
    (json : Meta) (p : Packet) (metab client_id rest : List ℕ)
    → is_op p.op ≡ true
    → IsU32 p.serial
    → (if p.op == op_data then json.marshal p.client_id else ok []) ≡ ok metab
    → Carries json metab client_id
    → (write_packet json buffer_write p [] ≡ (ok tt, rounds_bytes p metab (chunks_of p)))
      × (read_packets json (length (chunks_of p)) (rounds_bytes p metab (chunks_of p) ++ rest)
          ≡ (ok (map (seen json p metab client_id) (chunks_of p)), rest))
      × (joined (chunks_of p) ≡ p.body)
      × All IsPiece (chunks_of p)
unfolding write_packet
read_packets-write_packet json p metab client_id rest h hs e c =
    let (whole, small) = pieces_lem (length p.body + 1) p.body (omega arith) in
    (
      rw e (write_rounds-pieces p metab (length p.body + 1) p.body [] (omega arith)),
      read_packets-rounds json p metab client_id (chunks_of p) rest h hs c small,
      whole,
      small,
    )
