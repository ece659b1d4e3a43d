-- ===== src/Codec/Sound.antt =====
-- What `Reader.Read` has read when it succeeds, on any input.
use mathlib.Core.Path.{subst}
use df.Prelude.{
  ℕ, ◌+◌, ◌≡◌, ap, arith, List, length, get_or, slice, take, true, Bool-cases, inl, inr,
  if◌then◌else◌,
}
use df.Bytes.{get_u}
use df.Io.{ok, ◌>>=◌, read_full, read_full-ok, after-eq-ok, fail, unknown_kind}
use df.Message.{Message, kind, message_id}
use df.Codec.{Json, decode, read, is_known}

decode_sound :
    (json : Json) (k id ack : ℕ) (dat s : List ℕ) {m : Message} {t : List ℕ}
    → decode json k id ack dat s ≡ (ok m, t)
    → (kind m ≡ k) × (message_id m ≡ id) × (t ≡ s)
unfolding decode
decode_sound json k id ack dat s e = ground arith

read_full-take : (n : ℕ) (s : List ℕ) {xs t : List ℕ} → read_full n s ≡ (ok xs, t) → (xs ≡ take n s)
unfolding read_full
read_full-take n s e = ground arith

payload_takes :
    (json : Json) (k id ack size : ℕ) (s : List ℕ) {m : Message} {t : List ℕ}
    → (if is_known k
          then (read_full size >>= λ dat. decode json k id ack dat)
          else fail (unknown_kind k))
        s
      ≡ (ok m, t)
    → (kind m ≡ k) × (is_known k ≡ true) × (message_id m ≡ id) × (length s ≡ size + length t)
payload_takes json k id ack size s {m} {t} e = elim (Bool-cases (is_known k)) [
  | inl known ↦
      let (dat, s', p, q) = after-eq-ok (read_full size s) (decode json k id ack) (rw known at e) in
      let (same_kind, same_id, same_rest) = decode_sound json k id ack dat s' q in
      (same_kind, known, same_id, omega (arith, (read_full-ok size s p).1, ap length same_rest))
  | inr unknown ↦ cc (
      subst
        (λ b.
          (if b
              then (read_full size >>= λ dat. decode json k id ack dat)
              else fail (unknown_kind k))
            s
          ≡ (ok m, t))
        unknown e)
]

-- A message that `Read` returns has the kind and the id of the 20 header bytes in front, the kind is
-- one of the six, and exactly the header and the payload that it announces have been taken.
pub read_takes :
    (json : Json) (s : List ℕ) {m : Message} {t : List ℕ}
    → read json s ≡ (ok m, t)
    → (kind m ≡ get_or (take 20 s) 0 0)
      × (is_known (kind m) ≡ true)
      × (message_id m ≡ get_u (slice 8 12 (take 20 s)))
      × (length s ≡ 20 + get_u (slice 16 20 (take 20 s)) + length t)
unfolding read
read_takes json s {m} {t} e =
    let (header, s', p, q) = after-eq-ok (read_full 20 s) _ e in
    let (a, b, c, d) = payload_takes json _ _ _ _ s' q in
    let cut : header ≡ take 20 s = read_full-take 20 s p in
    rw (← cut) (a, rw a b, c, omega (arith, (read_full-ok 20 s p).1))
