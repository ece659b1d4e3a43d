-- ===== src/H1/Steps.antt =====
-- The steps of the agreement: what each side makes of the other's bytes.
use df.Prelude.{
  ℕ, suc, ◌+◌, ◌*◌, ◌/◌, ◌^◌, ◌≤◌, ◌<◌, ◌≡◌, refl, ap, ◌∙◌, arith, false, List, [], ◌∷◌, ◌++◌,
  length, take, drop, length-copy, All, All-append, All-drop, lt→ltb, le→ltb, lt→leb,
  copy-eq-append,
}
use df.Bytes.{IsByte, put_u64, get_u, get_u-put_u64, bit_xor-IsByte}
use df.Io.{ok}
use df.F1.{encrypt, decrypt, xor, key_size, block_size, new_cipher, derive_key}
use df.F1.Cfb.{IsBlockCipher, decrypt-encrypt, encrypt-IsByte}
use df.F1.Xor.{overlay, xor_lem}
use df.Conf.{
  Values, Strconv, clone, get, set_value, framer_psk, framer_timestamp, framer_role, codes,
}
use df.Framer.{Text, framer_key}
use df.Framer.Config.{get-set_value}
use df.H1.{
  opened, far_apart, session_params, handle_server_conn, auth_bytes, auth_header, finish_connect,
}

-- What the libraries promise of base64 and of decimal numbers.
pub record IsCoding (text : Text) (conv : Strconv) : Type 0 where
  pub decode-encode : (x : List ℕ) → All IsByte x → text.decode (text.encode x) ≡ ok x
  pub length-encode : (x : List ℕ) → length (text.encode x) ≡ 4 * ((length x + 2) / 3)
  pub parse-format : (n : ℕ) → n < 2 ^ 64 → conv.parse_int (conv.format_int n) ≡ ok n

near :
    (ts now : ℕ)
    → ts < 2 ^ 63
    → now < 2 ^ 63
    → ts ≤ now + 120
    → now ≤ ts + 120
    → far_apart ts now ≡ false
near ts now h k early late = ground arith

overlay-IsByte : (xs ys : List ℕ) → All IsByte xs → All IsByte ys → All IsByte (overlay xs ys)
overlay-IsByte [] ys hx hy = hy
overlay-IsByte (x ∷ xs) [] hx hy = tt
overlay-IsByte (x ∷ xs) (y ∷ ys) (hx, hxs) (hy, hys) =
    (bit_xor-IsByte x y hx hy, overlay-IsByte xs ys hxs hys)

length-overlay : (xs ys : List ℕ) → length xs ≤ length ys → length (overlay xs ys) ≡ length ys
length-overlay [] ys h = refl
length-overlay (x ∷ xs) [] h = absurd (omega arith)
length-overlay (x ∷ xs) (y ∷ ys) h = ap suc (length-overlay xs ys (omega arith))

pub xor_sized :
    (xs ys : List ℕ)
    → length ys ≡ length xs
    → All IsByte xs
    → All IsByte ys
    → (length (xor xs ys) ≡ length xs) × All IsByte (xor xs ys)
xor_sized xs ys same hx hy = rw (xor_lem xs ys) (
    rw (le→ltb (length xs) (length ys) (omega arith))
      (length-overlay ys xs (omega arith), overlay-IsByte ys xs hy hx))

put_u64-IsByte : (v : ℕ) → All IsByte (put_u64 v)
put_u64-IsByte v = ground arith

-- So many random bytes.
abbrev pub AreBytes : ℕ → List ℕ → Type 0
AreBytes n xs = (length xs ≡ n) × All IsByte xs

module _ (aes : List ℕ → List ℕ → List ℕ) (text : Text) (conv : Strconv) where
  pub framer_key-session_params :
      (cfg : Values) (key role : List ℕ) (ts : ℕ)
      → IsCoding text conv
      → All IsByte key
      → ts < 2 ^ 64
      → framer_key text conv (session_params text conv cfg key ts role) ≡ derive_key key ts
  unfolding framer_key
  framer_key-session_params cfg key role ts coding hk small =
      let c1 = set_value (clone cfg) framer_psk (text.encode key) in
      let c2 = set_value c1 framer_timestamp (conv.format_int ts) in
      let psk : get (session_params text conv cfg key ts role) framer_psk ≡ text.encode key =
        get-set_value c2 framer_role framer_psk role
        ∙ get-set_value c1 framer_timestamp framer_psk (conv.format_int ts)
        ∙ get-set_value (clone cfg) framer_psk framer_psk (text.encode key) in
      let time : get (session_params text conv cfg key ts role) framer_timestamp
          ≡ conv.format_int ts =
        get-set_value c2 framer_role framer_timestamp role
        ∙ get-set_value c1 framer_timestamp framer_timestamp (conv.format_int ts) in
      rw (psk, time) (rw (coding.decode-encode key hk, coding.parse-format ts small) refl)

auth_bytes-eq :
    (random : List ℕ) (ts : ℕ)
    → AreBytes 24 random
    → auth_bytes ts random ≡ put_u64 ts ++ drop 8 random
auth_bytes-eq random ts (size, bytes) = copy-eq-append random (put_u64 ts) (omega arith)

-- What the server reads from the bytes that a client encrypts.
pub auth_bytes_lem :
    (random : List ℕ) (ts : ℕ)
    → AreBytes 24 random
    → ts < 2 ^ 64
    → (length (auth_bytes ts random) ≡ 24)
      × (get_u (take 8 (auth_bytes ts random)) ≡ ts)
      × (drop 8 (auth_bytes ts random) ≡ drop 8 random)
      × All IsByte (auth_bytes ts random)
auth_bytes_lem random ts (size, bytes) small =
    let e = auth_bytes-eq random ts (size, bytes) in
    (
      length-copy random (put_u64 ts) ∙ size,
      ap (λ t. get_u (take 8 t)) e ∙ get_u-put_u64 ts small,
      ap (drop 8) e,
      rw e (
          All-append IsByte (put_u64 ts) (drop 8 random) (put_u64-IsByte ts)
            (All-drop IsByte 8 random bytes)),
    )

module _ (aes : List ℕ → List ℕ → List ℕ) (text : Text) (conv : Strconv) (c : IsBlockCipher aes)
    (coding : IsCoding text conv) (pskb : List ℕ) (good : new_cipher aes pskb ≡ ok (aes pskb)) where
  -- Data that one side encrypts and encodes, and the other side decodes and decrypts.
  pub record Sealed (iv dat : List ℕ) : Type 0 where
    pub dat' : List ℕ
    pub made : encrypt aes (ok iv) pskb dat ≡ ok dat'
    pub size : length dat' ≡ block_size + length dat
    pub read : decrypt aes pskb dat' ≡ ok dat
    pub arrives : text.decode (text.encode dat') ≡ ok dat'
    pub bytes : All IsByte dat'
    pub length_text : length (text.encode dat') ≡ 4 * ((block_size + length dat + 2) / 3)

  pub sealed : (iv dat : List ℕ) → AreBytes 16 iv → All IsByte dat → Sealed iv dat
  sealed iv dat (hiv, hi) hd =
      let (dat', made, size, read) = decrypt-encrypt aes iv pskb dat c good hiv hd in
      record {
        dat' = dat';
        made = made;
        size = size;
        read = read;
        arrives = coding.decode-encode dat' (encrypt-IsByte aes iv pskb dat c good hi hd made);
        bytes = encrypt-IsByte aes iv pskb dat c good hi hd made;
        length_text = coding.length-encode dat' ∙ ap (λ n. 4 * ((n + 2) / 3)) size;
      }

  -- The server lets in a client whose clock is near, and offers it the new key.
  pub server_opens :
      (cfg : Values) (client_id random raw iv iv' : List ℕ) (ts now : ℕ)
      → text.decode (get cfg framer_psk) ≡ ok pskb
      → 0 < length client_id
      → AreBytes 24 random
      → AreBytes 16 raw
      → AreBytes 16 iv
      → AreBytes 16 iv'
      → ts < 2 ^ 63
      → now < 2 ^ 63
      → ts ≤ now + 120
      → now ≤ ts + 120
      → (a : Sealed iv (auth_bytes ts random)) (k : Sealed iv' raw)
      → handle_server_conn aes text conv cfg now client_id
          (auth_header aes text conv pskb (auth_bytes ts random) (ok iv))
          raw
          (ok iv')
        ≡ opened
            (text.encode k.dat')
            (session_params text conv cfg (xor raw (drop 8 random)) ts (codes "server"))
  unfolding handle_server_conn auth_header
  server_opens cfg client_id random raw iv iv' ts now psk some_id hr hraw hiv hiv' h k early late a
        o =
      let (size, time, tail, _) = auth_bytes_lem random ts hr (omega arith) in
      rw (lt→leb 0 (length client_id) some_id, psk, a.made)
        (rw
          (
            le→ltb 128 (length (text.encode a.dat')) (omega (arith, a.length_text)),
            lt→leb 0 (length (text.encode a.dat')) (omega (arith, a.length_text)),
          )
          (rw (a.arrives, a.read)
            (rw (le→ltb (length (auth_bytes ts random)) (8 + key_size) (omega arith)) (
              rw (ap (λ n. far_apart n now) time ∙ near ts now h k early late) (
                rw (o.made, tail)
                  (ap
                    (λ n.
                      opened (text.encode o.dat')
                        (session_params text conv cfg (xor raw (drop 8 random)) n (codes "server")))
                    time))))))

  -- The client then takes the settings with the same key.
  pub client_finishes :
      (cfg : Values) (auth raw iv' : List ℕ) (ts : ℕ)
      → AreBytes 16 raw
      → (k : Sealed iv' raw)
      → finish_connect aes text conv cfg pskb auth ts (text.encode k.dat')
        ≡ ok (session_params text conv cfg (xor raw (drop 8 auth)) ts (codes "client"))
  unfolding finish_connect
  client_finishes cfg auth raw iv' ts (hraw, _) o =
      rw (lt→leb 0 (length (text.encode o.dat')) (omega (arith, o.length_text)), o.arrives)
        (rw (lt→ltb 0 (length o.dat') (omega (arith, o.size))) (rw o.read refl))
