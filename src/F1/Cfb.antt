-- ===== src/F1/Cfb.antt =====
-- Decryption undoes encryption, for any block function.
use df.Prelude.{
  All-append, ℕ, zero, suc, ◌+◌, ◌-◌, ◌≤◌, ◌<◌, ◌≡◌, refl, ap, ◌∙◌, arith, List, [], ◌∷◌, ◌++◌,
  length, take, drop, All, All-take, All-drop, length-append, length-take, length-drop, take-append,
  drop-append, min, append-nil, take-append-drop, take_of_length-le, drop_of_length-le, ◌⊎◌, inl,
  inr, le→ltb, ap₂,
}
use native.Mathlib.Decide.{dec_lt}
use df.Bytes.{IsByte, bit_xor-bit_xor, bit_xor-IsByte}
use df.Io.{ok}
use df.F1.{block_size, new_cipher, xor_bytes, cfb_encrypt, cfb_decrypt, encrypt, decrypt}

-- What the code relies on of `crypto/aes`: a block of 16 bytes for every block.
pub record IsBlockCipher (aes : List ℕ → List ℕ → List ℕ) : Type 0 where
  pub sized : (key reg : List ℕ) → length (aes key reg) ≡ block_size
  pub bytes : (key reg : List ℕ) → All IsByte (aes key reg)

length-xor_bytes : (xs ks : List ℕ) → length xs ≤ length ks → length (xor_bytes xs ks) ≡ length xs
length-xor_bytes [] ks h = refl
length-xor_bytes (x ∷ xs) [] h = absurd (omega arith)
length-xor_bytes (x ∷ xs) (k ∷ ks) h = ap suc (length-xor_bytes xs ks (omega arith))

xor_bytes_twice :
    (xs ks : List ℕ)
    → All IsByte xs
    → All IsByte ks
    → length xs ≤ length ks
    → xor_bytes (xor_bytes xs ks) ks ≡ xs
xor_bytes_twice [] ks hx hk h = refl
xor_bytes_twice (x ∷ xs) [] hx hk h = absurd (omega arith)
xor_bytes_twice (x ∷ xs) (k ∷ ks) (hx, hxs) (hk, hks) h =
    ap₂ ◌∷◌ (bit_xor-bit_xor x k hx hk) (xor_bytes_twice xs ks hxs hks (omega arith))

-- A first block is whole, or nothing follows it.
cut_block :
    (out rest : List ℕ)
    → (length out ≡ block_size) ⊎ ((length out ≤ block_size) × (rest ≡ []))
    → (take block_size (out ++ rest) ≡ out) × (drop block_size (out ++ rest) ≡ rest)
cut_block out rest (inl whole) = (take-append 16 out rest whole, drop-append 16 out rest whole)
cut_block out rest (inr (short, none_left)) =
    rw (none_left, append-nil) (take_of_length-le 16 out short, drop_of_length-le 16 out short)

cfb_decrypt_step :
    (block : List ℕ → List ℕ) (fuel : ℕ) (reg src : List ℕ)
    → 0 < length src
    → cfb_decrypt block (suc fuel) reg src
      ≡ xor_bytes (take block_size src) (block reg)
        ++ cfb_decrypt block fuel (take block_size src) (drop block_size src)
unfolding cfb_decrypt
cfb_decrypt_step block fuel reg [] h = absurd (omega arith)
cfb_decrypt_step block fuel reg (x ∷ xs) h = refl

cfb_encrypt_step :
    (block : List ℕ → List ℕ) (fuel : ℕ) (reg src : List ℕ)
    → 0 < length src
    → let out = xor_bytes (take block_size src) (block reg) in
      cfb_encrypt block (suc fuel) reg src ≡ out ++ cfb_encrypt block fuel out (drop block_size src)
unfolding cfb_encrypt
cfb_encrypt_step block fuel reg [] h = absurd (omega arith)
cfb_encrypt_step block fuel reg (x ∷ xs) h = refl

cfb_encrypt-nil :
    (block : List ℕ → List ℕ) (fuel : ℕ) (reg : List ℕ) → cfb_encrypt block fuel reg [] ≡ []
unfolding cfb_encrypt
cfb_encrypt-nil block zero reg = refl
cfb_encrypt-nil block (suc fuel) reg = refl

cfb_decrypt-nil :
    (block : List ℕ → List ℕ) (fuel : ℕ) (reg : List ℕ) → cfb_decrypt block fuel reg [] ≡ []
unfolding cfb_decrypt
cfb_decrypt-nil block zero reg = refl
cfb_decrypt-nil block (suc fuel) reg = refl

module _ (block : List ℕ → List ℕ) (sized : (reg : List ℕ) → length (block reg) ≡ block_size) where
  -- The first block that a round encrypts.
  length_out :
      (reg src : List ℕ)
      → length (xor_bytes (take block_size src) (block reg)) ≡ min block_size (length src)
  length_out reg src =
      length-xor_bytes (take block_size src) (block reg)
        (omega (arith, length-take block_size src, sized reg))
      ∙ length-take block_size src

  pub length-cfb_encrypt :
      (fuel : ℕ) (reg src : List ℕ)
      → length src ≤ fuel
      → length (cfb_encrypt block fuel reg src) ≡ length src
  unfolding cfb_encrypt
  length-cfb_encrypt zero reg [] h = refl
  length-cfb_encrypt zero reg (x ∷ xs) h = absurd (omega arith)
  length-cfb_encrypt (suc fuel) reg [] h = refl
  length-cfb_encrypt (suc fuel) reg (x ∷ xs) h =
      let out = xor_bytes (take block_size (x ∷ xs)) (block reg) in
      let left = drop block_size (x ∷ xs) in
      let shorter : length left ≡ suc (length xs) - 16 = length-drop 16 (x ∷ xs) in
      length-append out (cfb_encrypt block fuel out left)
      ∙ omega
          (arith, shorter, length_out reg (x ∷ xs), length-cfb_encrypt fuel out left (omega arith))

  block_whole :
      (fuel : ℕ) (reg src : List ℕ)
      → let out = xor_bytes (take block_size src) (block reg) in
        (length out ≡ block_size)
        ⊎ ((length out ≤ block_size) × (cfb_encrypt block fuel out (drop block_size src) ≡ []))
  block_whole fuel reg src = elim (dec_lt (length src) block_size) [
    | yes short ↦ inr (
      omega (arith, length_out reg src),
      rw (drop_of_length-le block_size src (omega arith)) (cfb_encrypt-nil block fuel _),
    )
    | no long ↦ inl (omega (arith, length_out reg src))
  ]

  module _ (bytes : (reg : List ℕ) → All IsByte (block reg)) where
    pub cfb_decrypt-cfb_encrypt :
        (fuel fuel' : ℕ) (reg src : List ℕ)
        → length src ≤ fuel
        → length src ≤ fuel'
        → All IsByte src
        → cfb_decrypt block fuel' reg (cfb_encrypt block fuel reg src) ≡ src
    cfb_decrypt-cfb_encrypt zero fuel' reg [] h h' hb =
        ap (cfb_decrypt block fuel' reg) (cfb_encrypt-nil block zero reg)
        ∙ cfb_decrypt-nil block fuel' reg
    cfb_decrypt-cfb_encrypt zero fuel' reg (x ∷ xs) h h' hb = absurd (omega arith)
    cfb_decrypt-cfb_encrypt (suc fuel) fuel' reg [] h h' hb =
        ap (cfb_decrypt block fuel' reg) (cfb_encrypt-nil block (suc fuel) reg)
        ∙ cfb_decrypt-nil block fuel' reg
    cfb_decrypt-cfb_encrypt (suc fuel) zero reg (x ∷ xs) h h' hb = absurd (omega arith)
    cfb_decrypt-cfb_encrypt (suc fuel) (suc fuel') reg (x ∷ xs) h h' hb =
        let src = x ∷ xs in
        let out = xor_bytes (take block_size src) (block reg) in
        let more = cfb_encrypt block fuel out (drop block_size src) in
        let (front, back) = cut_block out more (block_whole fuel reg src) in
        let shorter : length (drop block_size src) ≡ suc (length xs) - 16 = length-drop 16 src in
        let undone : xor_bytes out (block reg) ≡ take block_size src =
          xor_bytes_twice (take block_size src) (block reg) (All-take IsByte block_size src hb)
            (bytes reg) (omega (arith, length-take block_size src, sized reg)) in
        let later : cfb_decrypt block fuel' out more ≡ drop block_size src =
          cfb_decrypt-cfb_encrypt fuel fuel' out (drop block_size src) (omega arith) (omega arith)
            (All-drop IsByte block_size src hb) in
        ap (cfb_decrypt block (suc fuel') reg) (cfb_encrypt_step block fuel reg src (omega arith))
        ∙ cfb_decrypt_step block fuel' reg (out ++ more)
            (omega (arith, length-append out more, length_out reg src))
        ∙ rw (front, back) (rw (undone, later) (take-append-drop block_size src))

xor_bytes-IsByte : (xs ks : List ℕ) → All IsByte xs → All IsByte ks → All IsByte (xor_bytes xs ks)
xor_bytes-IsByte [] ks hx hk = tt
xor_bytes-IsByte (x ∷ xs) [] hx hk = tt
xor_bytes-IsByte (x ∷ xs) (k ∷ ks) (hx, hxs) (hk, hks) =
    (bit_xor-IsByte x k hx hk, xor_bytes-IsByte xs ks hxs hks)

-- The ciphertext of bytes is bytes.
pub cfb_encrypt-IsByte :
    (block : List ℕ → List ℕ) (fuel : ℕ) (reg src : List ℕ)
    → ((r : List ℕ) → All IsByte (block r))
    → All IsByte src
    → All IsByte (cfb_encrypt block fuel reg src)
unfolding cfb_encrypt
cfb_encrypt-IsByte block zero reg src hk hs = tt
cfb_encrypt-IsByte block (suc fuel) reg [] hk hs = tt
cfb_encrypt-IsByte block (suc fuel) reg (x ∷ xs) hk hs =
    All-append IsByte (xor_bytes (take block_size (x ∷ xs)) (block reg)) _
      (xor_bytes-IsByte (take block_size (x ∷ xs)) (block reg)
        (All-take IsByte block_size (x ∷ xs) hs) (hk reg))
      (cfb_encrypt-IsByte block fuel _ (drop block_size (x ∷ xs)) hk
        (All-drop IsByte block_size (x ∷ xs) hs))

-- `Encrypt` with a key of 16, 24 or 32 bytes and an iv of 16 random bytes gives 16 bytes more than
-- the data, and `Decrypt` with the same key gives the data back.
pub decrypt-encrypt :
    (aes : List ℕ → List ℕ → List ℕ) (iv key dat : List ℕ)
    → IsBlockCipher aes
    → new_cipher aes key ≡ ok (aes key)
    → length iv ≡ block_size
    → All IsByte dat
    → (dat' : List ℕ) × (encrypt aes (ok iv) key dat ≡ ok dat')
      × (length dat' ≡ block_size + length dat)
      × (decrypt aes key dat' ≡ ok dat)
unfolding encrypt decrypt
decrypt-encrypt aes iv key dat c good hiv hb =
    let sealed = cfb_encrypt (aes key) (length dat) iv dat in
    let size : length sealed ≡ length dat =
      length-cfb_encrypt (aes key) (c.sized key) (length dat) iv dat (omega arith) in
    (
      iv ++ sealed,
      rw good,
      omega (arith, length-append iv sealed),
      rw good (
          rw
            (
              le→ltb (length (iv ++ sealed)) block_size (omega (arith, length-append iv sealed)),
              take-append block_size iv sealed hiv,
              drop-append block_size iv sealed hiv,
            )
            (ap ok (
              cfb_decrypt-cfb_encrypt (aes key) (c.sized key) (c.bytes key) (length dat)
                (length (iv ++ sealed) - block_size) iv dat (omega arith)
                (omega (arith, length-append iv sealed)) hb))),
    )

-- What `Encrypt` makes of bytes is bytes.
pub encrypt-IsByte :
    (aes : List ℕ → List ℕ → List ℕ) (iv key dat : List ℕ) {sent : List ℕ}
    → IsBlockCipher aes
    → new_cipher aes key ≡ ok (aes key)
    → All IsByte iv
    → All IsByte dat
    → encrypt aes (ok iv) key dat ≡ ok sent
    → All IsByte sent
unfolding encrypt
encrypt-IsByte aes iv key dat {sent} c good hi hd e =
    let e' : ok (iv ++ cfb_encrypt (aes key) (length dat) iv dat) ≡ ok sent = rw good at e in
    let whole : iv ++ cfb_encrypt (aes key) (length dat) iv dat ≡ sent = cc in
    rw (← whole) (
      All-append IsByte iv _ hi (cfb_encrypt-IsByte (aes key) (length dat) iv dat (c.bytes key) hd))
