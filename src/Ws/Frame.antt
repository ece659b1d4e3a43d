-- ===== src/Ws/Frame.antt =====
-- A frame that one side writes, read by the other side and by its own.
use df.Prelude.{
  ℕ, zero, suc, ◌+◌, ◌%◌, ◌^◌, ◌<◌, ◌≡◌, refl, ap, ◌∙◌, arith, Bool, true, false, not, List, [],
  ◌∷◌, ◌++◌, length, get_or, All, ltb, leb, if◌then◌else◌, append_assoc, Bool-cases, inl, inr,
  lt→ltb, le→ltb, leb→le, ltb→lt,
}
use df.Bytes.{IsByte, put_u16, put_u64, get_u-put_u16, get_u-put_u64, bit_xor-bit_xor}
use df.Io.{ok, err, read_full-append, mask_error}
use df.F1.{decrypt}
use df.Ws.{apply_mask, same, read_size, top_bit, read_payload, read_chunk, frame_header}

-- A mask is four bytes.
pub record IsMask (mask : List ℕ) : Type 0 where
  pub size : length mask ≡ 4
  pub bytes : All IsByte mask

get_or-IsByte : (i : ℕ) (xs : List ℕ) → All IsByte xs → IsByte (get_or xs i 0)
get_or-IsByte i [] h = omega arith
get_or-IsByte zero (x ∷ xs) (h, hs) = h
get_or-IsByte (suc i) (x ∷ xs) (h, hs) = get_or-IsByte i xs hs

pub length-apply_mask :
    (mask : List ℕ) (i : ℕ) (xs : List ℕ) → length (apply_mask mask i xs) ≡ length xs
unfolding apply_mask
length-apply_mask mask i [] = refl
length-apply_mask mask i (x ∷ xs) = ap suc (length-apply_mask mask (i + 1) xs)

-- A mask applied twice changes nothing.
pub apply_mask-apply_mask :
    (mask : List ℕ) (i : ℕ) (xs : List ℕ)
    → All IsByte mask
    → All IsByte xs
    → apply_mask mask i (apply_mask mask i xs) ≡ xs
unfolding apply_mask
apply_mask-apply_mask mask i [] hm h = refl
apply_mask-apply_mask mask i (x ∷ xs) hm (h, hs) = rw (
  bit_xor-bit_xor x (get_or mask (i % 4) 0) h (get_or-IsByte (i % 4) mask hm),
  apply_mask-apply_mask mask (i + 1) xs hm hs,
)

top_bit_set : (s : ℕ) → s < 128 → (top_bit (s + 128) ≡ true) × ((s + 128) % 128 ≡ s)
top_bit_set s h = (lt→ltb 0 _ (omega arith), omega arith)

top_bit_clear : (s : ℕ) → s < 128 → (top_bit (s + 0) ≡ false) × ((s + 0) % 128 ≡ s)
top_bit_clear s h = (le→ltb 0 _ (omega arith), omega arith)

module _ (aes : List ℕ → List ℕ → List ℕ) (psk mask : List ℕ) (m : IsMask mask) where
  -- What stands on the wire behind the size.
  abbrev masked : Bool → List ℕ → List ℕ
  masked b chunk = (if b then mask else []) ++ (if b then apply_mask mask 0 chunk else chunk)

  read_payload-masked :
      (b : Bool) (s n : ℕ) (extra chunk rest : List ℕ)
      → ((t : List ℕ) → read_size s (extra ++ t) ≡ (ok n, t))
      → length chunk ≡ n
      → n < 2 ^ 63
      → All IsByte chunk
      → read_payload aes psk (not b) b s (extra ++ (masked b chunk ++ rest))
        ≡ (decrypt aes psk chunk, rest)
  unfolding read_payload
  read_payload-masked true s n extra chunk rest e size small h =
      rw (e (masked true chunk ++ rest), append_assoc mask (apply_mask mask 0 chunk) rest)
        (rw (read_full-append 4 mask (apply_mask mask 0 chunk ++ rest) m.size) (
          rw (lt→ltb n (2 ^ 63) small) (
            rw
              (read_full-append n (apply_mask mask 0 chunk) rest
                (length-apply_mask mask 0 chunk ∙ size))
              (rw (m.size) (rw (apply_mask-apply_mask mask 0 chunk m.bytes h))))))
  read_payload-masked false s n extra chunk rest e size small h =
      rw (e (chunk ++ rest))
        (rw (lt→ltb n (2 ^ 63) small) (rw (read_full-append n chunk rest size)))

same_self : (b : Bool) → same b b ≡ true
same_self true = refl
same_self false = refl

-- The size that a header holds: seven bits, and the bytes behind them.
pub record Sized (b : Bool) (mask : List ℕ) (n : ℕ) : Type 0 where
  pub s : ℕ
  pub extra : List ℕ
  pub fits : s < 128
  pub header :
      frame_header b mask n
      ≡ 130 ∷ (s + (if b then 128 else 0)) ∷ (extra ++ (if b then mask else []))
  pub reads : (t : List ℕ) → read_size s (extra ++ t) ≡ (ok n, t)

pub sized : (b : Bool) (mask : List ℕ) (n : ℕ) → n < 2 ^ 63 → Sized b mask n
unfolding frame_header
sized b mask n h = elim (Bool-cases (leb n 125)) [
  | inl small ↦ record {
    s = n;
    extra = [];
    fits = omega (arith, leb→le n 125 small);
    header = rw small refl;
    reads = λ t. rw (lt→ltb n 126 (omega (arith, leb→le n 125 small))) refl;
  }
  | inr more ↦ elim (Bool-cases (ltb n (2 ^ 16))) [
    | inl medium ↦ record {
      s = 126;
      extra = put_u16 n;
      fits = omega arith;
      header = rw (more, medium) refl;
      reads = λ t.
          rw (read_full-append 2 (put_u16 n) t refl)
            (rw (get_u-put_u16 n (ltb→lt n (2 ^ 16) medium)) refl);
    }
    | inr large ↦ record {
      s = 127;
      extra = put_u64 n;
      fits = omega arith;
      header = rw (more, large) refl;
      reads =
          λ t. rw (read_full-append 8 (put_u64 n) t refl) (rw (get_u-put_u64 n (omega arith)) refl);
    }
  ]
]

abbrev pub frame : List ℕ → Bool → List ℕ → List ℕ
frame mask b chunk =
    frame_header b mask (length chunk) ++ (if b then apply_mask mask 0 chunk else chunk)

module _ (aes : List ℕ → List ℕ → List ℕ) (psk : List ℕ) where
  read_two :
      (b f_mask : Bool) (s : ℕ) (t : List ℕ)
      → s < 128
      → read_chunk aes psk f_mask (130 ∷ (s + (if b then 128 else 0)) ∷ t)
        ≡ read_payload aes psk f_mask b s t
  unfolding read_chunk
  read_two true f_mask s t h =
      let (top, low) = top_bit_set s h in
      rw (read_full-append 2 (130 ∷ (s + 128) ∷ []) t refl) (rw (top, low) refl)
  read_two false f_mask s t h =
      let (top, low) = top_bit_clear s h in
      rw (read_full-append 2 (130 ∷ (s + 0) ∷ []) t refl) (rw (top, low) refl)

  -- A frame's bytes, taken apart.
  pub read_chunk-Sized :
      (mask : List ℕ) (b f_mask : Bool) (chunk rest : List ℕ) (z : Sized b mask (length chunk))
      → read_chunk aes psk f_mask (frame mask b chunk ++ rest)
        ≡ read_payload aes psk f_mask b z.s (
            z.extra
            ++ (((if b then mask else []) ++ (if b then apply_mask mask 0 chunk else chunk))
                ++ rest))
  read_chunk-Sized mask b f_mask chunk rest z =
      let tail = if b then mask else [] in
      let body = if b then apply_mask mask 0 chunk else chunk in
      ap (λ t. read_chunk aes psk f_mask ((t ++ body) ++ rest)) z.header
      ∙ ap (λ t. read_chunk aes psk f_mask (130 ∷ (z.s + (if b then 128 else 0)) ∷ (t ++ rest)))
          (append_assoc z.extra tail body)
      ∙ ap (λ t. read_chunk aes psk f_mask (130 ∷ (z.s + (if b then 128 else 0)) ∷ t))
          (append_assoc z.extra (tail ++ body) rest)
      ∙ read_two b f_mask z.s _ z.fits

  -- The other side reads a frame as its chunk, decrypted.
  pub read_chunk-peer :
      (mask : List ℕ) (b : Bool) (chunk rest : List ℕ)
      → IsMask mask
      → length chunk < 2 ^ 63
      → All IsByte chunk
      → read_chunk aes psk (not b) (frame mask b chunk ++ rest) ≡ (decrypt aes psk chunk, rest)
  read_chunk-peer mask b chunk rest m small h =
      let z = sized b mask (length chunk) small in
      read_chunk-Sized mask b (not b) chunk rest z
      ∙ read_payload-masked aes psk mask m b z.s (length chunk) z.extra chunk rest z.reads refl
          small h

  -- A side that finds its own role in a frame refuses it.
  pub read_chunk-own :
      (mask : List ℕ) (b : Bool) (chunk rest : List ℕ)
      → length chunk < 2 ^ 63
      → (read_chunk aes psk b (frame mask b chunk ++ rest)).0 ≡ err mask_error
  unfolding read_payload
  read_chunk-own mask b chunk rest small =
      let z = sized b mask (length chunk) small in
      ap (λ r. r.0) (read_chunk-Sized mask b b chunk rest z)
      ∙ rw (z.reads _) (rw (same_self b) refl)
