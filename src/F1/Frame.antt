-- ===== src/F1/Frame.antt =====
-- One frame: what `Write` sends, and the chunk that `Read` finds in it.
use df.Prelude.{
  ℕ, ◌+◌, ◌≡◌, refl, ap, arith, List, [], ◌∷◌, ◌++◌, length, All, All-append, length-append,
  take-append, le→ltb,
}
use df.Bytes.{IsByte, IsU32, put_u32, get_u-put_u32}
use df.Io.{ok, err, eof, Io, read_full, read_full-append}
use df.F1.{
  block_size, new_cipher, cfb_encrypt, encrypt, decrypt, F1, Random, pad_size, read_chunk, write,
}
use df.F1.Cfb.{IsBlockCipher, length-cfb_encrypt, decrypt-encrypt}

-- Random bytes as `crypto/rand` promises them: as many as were asked for.
pub record IsRandom (r : Random) (iv : List ℕ) : Type 0 where
  pub size_ok : IsByte r.size_byte
  pub pad_len : (n : ℕ) → length (r.pad n) ≡ n
  pub pad_ok : (n : ℕ) → All IsByte (r.pad n)
  pub iv_ok : r.iv ≡ ok iv
  pub iv_len : length iv ≡ block_size

module _ (aes : List ℕ → List ℕ → List ℕ) (psk : List ℕ) where
  -- The padded data of a frame.
  abbrev pub padded : Random → List ℕ → List ℕ
  padded r dat = dat ++ r.pad (pad_size r dat)

  abbrev pub sealed : Random → List ℕ → List ℕ → List ℕ
  sealed r iv dat = iv ++ cfb_encrypt (aes psk) (length (padded r dat)) iv (padded r dat)

  abbrev pub frame : Random → List ℕ → List ℕ → List ℕ
  frame r iv dat =
      (0 ∷ 0 ∷ (put_u32 (length (sealed r iv dat)) ++ put_u32 (pad_size r dat))) ++ sealed r iv dat

-- The sizes that a header must hold.
abbrev pub Fits : Random → List ℕ → Type 0
Fits r dat = IsU32 (block_size + (length dat + pad_size r dat))

module _ (aes : List ℕ → List ℕ → List ℕ) (c : IsBlockCipher aes) (psk : List ℕ)
    (good : new_cipher aes psk ≡ ok (aes psk)) where
  length-sealed :
      (r : Random) (iv dat : List ℕ)
      → IsRandom r iv
      → length (sealed aes psk r iv dat) ≡ block_size + (length dat + pad_size r dat)
  length-sealed r iv dat h =
      let all = padded aes psk r dat in
      omega (
        arith,
        length-append iv (cfb_encrypt (aes psk) (length all) iv all),
        length-cfb_encrypt (aes psk) (c.sized psk) (length all) iv all (omega arith),
        length-append dat (r.pad (pad_size r dat)),
        h.pad_len (pad_size r dat),
        h.iv_len,
      )

  encrypt-sealed :
      (r : Random) (iv dat : List ℕ)
      → IsRandom r iv
      → encrypt aes r.iv psk (padded aes psk r dat) ≡ ok (sealed aes psk r iv dat)
  unfolding encrypt
  encrypt-sealed r iv dat h = rw (good, h.iv_ok)

  -- `Write` sends one frame in one call, with any connection.
  pub write_sends_frame :
      (r : Random) (iv dat : List ℕ) (tx : List ℕ → Io ℕ) (f : F1) (s : List ℕ)
      → f.psk ≡ psk
      → IsRandom r iv
      → write aes r tx f dat s ≡ tx (frame aes psk r iv dat) s
  unfolding write
  write_sends_frame r iv dat tx f s e h = rw (e, encrypt-sealed r iv dat h)

  decrypt-sealed :
      (r : Random) (iv dat : List ℕ)
      → IsRandom r iv
      → All IsByte dat
      → decrypt aes psk (sealed aes psk r iv dat) ≡ ok (padded aes psk r dat)
  unfolding encrypt
  decrypt-sealed r iv dat h hb =
      let (sent, e, _, d) =
        decrypt-encrypt aes iv psk (padded aes psk r dat) c good h.iv_len
          (All-append IsByte dat _ hb (h.pad_ok (pad_size r dat))) in
      let same : sealed aes psk r iv dat ≡ sent =
        cc
          (ap (λ x. encrypt aes x psk (padded aes psk r dat)) h.iv_ok, encrypt-sealed r iv dat h) in
      rw same d

  -- A frame that `Write` makes is read back as its data, and what follows is left.
  pub read_chunk-frame :
      (r : Random) (iv dat rest : List ℕ)
      → IsRandom r iv
      → All IsByte dat
      → Fits r dat
      → read_chunk aes psk (frame aes psk r iv dat ++ rest) ≡ (ok dat, rest)
  unfolding read_chunk
  read_chunk-frame r iv dat rest h hb fits =
      let size = length-sealed r iv dat h in
      let all : length (padded aes psk r dat) ≡ length dat + pad_size r dat =
        omega (arith, length-append dat (r.pad (pad_size r dat)), h.pad_len (pad_size r dat)) in
      rw
        (read_full-append 10
          (0 ∷ 0 ∷ (put_u32 (length (sealed aes psk r iv dat)) ++ put_u32 (pad_size r dat)))
          (sealed aes psk r iv dat ++ rest) refl)
        (rw
          (
            get_u-put_u32 (length (sealed aes psk r iv dat)) (omega arith),
            get_u-put_u32 (pad_size r dat) (omega arith),
          )
          (rw
            (read_full-append (length (sealed aes psk r iv dat)) (sealed aes psk r iv dat) rest
              refl)
            (rw (decrypt-sealed r iv dat h hb) (
              rw (le→ltb (length (padded aes psk r dat)) (pad_size r dat) (omega arith)) (
                ap (λ t. (ok t, rest))
                  (take-append _ dat (r.pad (pad_size r dat)) (omega arith)))))))

-- A connection that has ended before a frame.
pub read_chunk-nil :
    (aes : List ℕ → List ℕ → List ℕ) (psk : List ℕ) → read_chunk aes psk [] ≡ (err eof, [])
unfolding read_chunk read_full
read_chunk-nil aes psk = refl
