-- ===== src/H1/Admit.antt =====
-- Whom the server lets in, and what a short `Authentication` does to it.
use df.Prelude.{
  ℕ, ◌+◌, ◌-◌, ◌%◌, ◌^◌, ◌≤◌, ◌<◌, ◌≡◌, refl, arith, Bool, true, false, ◌||◌, List, length, take,
  ltb, leb, if◌then◌else◌, ltb→le, leb→lt, lt→leb, lt→ltb, le→ltb,
}
use df.Bytes.{get_u}
use df.Io.{Result, ok, err, panic}
use df.F1.{encrypt, decrypt, key_size, block_size, new_cipher}
use df.Conf.{Values, Strconv, get, framer_psk}
use df.Framer.{Text}
use df.H1.{
  Decision, denied, crashed, opened, far_apart, offered, let_in, auth_decoded, psk_decoded,
  handle_server_conn,
}

not_far :
    (ts now : ℕ)
    → 120 ≤ now
    → now < 2 ^ 63 - 120
    → far_apart ts now ≡ false
    → (ts % 2 ^ 64 ≤ now + 120) × (now ≤ ts % 2 ^ 64 + 120)
not_far ts now h k e = ground arith

passed :
    (b : Bool) (d : Decision) {token : List ℕ} {params : Values}
    → (if b then denied else d) ≡ opened token params
    → (b ≡ false) × (d ≡ opened token params)
passed true d e = cc
passed false d e = (refl, e)

-- What a server has seen of a client that it lets in.
abbrev pub Known : (List ℕ → List ℕ → List ℕ) → ℕ → List ℕ → List ℕ → Type 0
Known aes now pskb auth_enc =
    (authb : List ℕ) × (decrypt aes pskb auth_enc ≡ ok authb)
    × (8 + key_size ≤ length authb)
    × (get_u (take 8 authb) % 2 ^ 64 ≤ now + 120)
    × (now ≤ get_u (take 8 authb) % 2 ^ 64 + 120)

module _ (aes : List ℕ → List ℕ → List ℕ) (text : Text) (conv : Strconv) (cfg : Values) (now : ℕ)
    (raw : List ℕ) (iv : Result (List ℕ)) where
  let_in-opened :
      (pskb : List ℕ) (r : Result (List ℕ)) {token : List ℕ} {params : Values}
      → 120 ≤ now
      → now < 2 ^ 63 - 120
      → let_in aes text conv cfg now pskb raw iv r ≡ opened token params
      → (authb : List ℕ) × (r ≡ ok authb)
        × (8 + key_size ≤ length authb)
        × (get_u (take 8 authb) % 2 ^ 64 ≤ now + 120)
        × (now ≤ get_u (take 8 authb) % 2 ^ 64 + 120)
  let_in-opened pskb (err x) h k e = cc
  let_in-opened pskb panic h k e = cc
  let_in-opened pskb (ok authb) h k e =
      let rest =
        if far_apart (get_u (take 8 authb)) now
        then denied
        else offered aes text conv cfg authb pskb raw (encrypt aes iv pskb raw) in
      let (long, e') = passed (ltb (length authb) (8 + key_size)) rest e in
      let (close, _) =
        passed (far_apart (get_u (take 8 authb)) now)
          (offered aes text conv cfg authb pskb raw (encrypt aes iv pskb raw)) e' in
      let (late, early) = not_far (get_u (take 8 authb)) now h k close in
      (authb, refl, ltb→le (length authb) (8 + key_size) long, late, early)

  auth_decoded-opened :
      (pskb : List ℕ) (r : Result (List ℕ)) {token : List ℕ} {params : Values}
      → 120 ≤ now
      → now < 2 ^ 63 - 120
      → auth_decoded aes text conv cfg now pskb raw iv r ≡ opened token params
      → (auth_enc : List ℕ) × (r ≡ ok auth_enc) × Known aes now pskb auth_enc
  auth_decoded-opened pskb (err x) h k e = cc
  auth_decoded-opened pskb panic h k e = cc
  auth_decoded-opened pskb (ok auth_enc) h k e =
      (auth_enc, refl, let_in-opened pskb (decrypt aes pskb auth_enc) h k e)

  psk_decoded-opened :
      (auth_str : List ℕ) (r : Result (List ℕ)) {token : List ℕ} {params : Values}
      → 120 ≤ now
      → now < 2 ^ 63 - 120
      → psk_decoded aes text conv cfg now auth_str raw iv r ≡ opened token params
      → (pskb auth_enc : List ℕ) × (r ≡ ok pskb)
        × (text.decode auth_str ≡ ok auth_enc)
        × Known aes now pskb auth_enc
  psk_decoded-opened auth_str (err x) h k e = cc
  psk_decoded-opened auth_str panic h k e = cc
  psk_decoded-opened auth_str (ok pskb) h k e =
      let (_, e') =
        passed (ltb 128 (length auth_str) || leb (length auth_str) 0)
          (auth_decoded aes text conv cfg now pskb raw iv (text.decode auth_str)) e in
      let (auth_enc, arrives, known) = auth_decoded-opened pskb (text.decode auth_str) h k e' in
      (pskb, auth_enc, refl, arrives, known)

  -- A client that is let in has a name, and its header `Authentication` decrypts, with the key of the
  -- server's settings, to at least 24 bytes that start with a time at most two minutes from the
  -- server's clock. The clock itself is at least two minutes from the bounds of an `int64`.
  pub let_in_only :
      (client_id auth_str token : List ℕ) (params : Values)
      → 120 ≤ now
      → now < 2 ^ 63 - 120
      → handle_server_conn aes text conv cfg now client_id auth_str raw iv ≡ opened token params
      → (0 < length client_id)
        × (pskb auth_enc : List ℕ) × (text.decode (get cfg framer_psk) ≡ ok pskb)
        × (text.decode auth_str ≡ ok auth_enc)
        × Known aes now pskb auth_enc
  unfolding handle_server_conn
  let_in_only client_id auth_str token params h k e =
      let r = text.decode (get cfg framer_psk) in
      let (some_id, e') =
        passed (leb (length client_id) 0) (psk_decoded aes text conv cfg now auth_str raw iv r) e in
      let (pskb, auth_enc, psk, arrives, known) = psk_decoded-opened auth_str r h k e' in
      (leb→lt (length client_id) 0 some_id, pskb, auth_enc, psk, arrives, known)

  -- A named client whose header `Authentication` is the base64 text of fewer than 16 bytes makes the
  -- server panic, whatever the pre-shared key, which the client need not know.
  pub short_auth_crashes :
      (client_id auth_str pskb auth_enc : List ℕ)
      → 0 < length client_id
      → text.decode (get cfg framer_psk) ≡ ok pskb
      → new_cipher aes pskb ≡ ok (aes pskb)
      → 0 < length auth_str
      → length auth_str ≤ 128
      → text.decode auth_str ≡ ok auth_enc
      → length auth_enc < block_size
      → handle_server_conn aes text conv cfg now client_id auth_str raw iv ≡ crashed
  unfolding handle_server_conn decrypt
  short_auth_crashes client_id auth_str pskb auth_enc some_id psk good some upto arrives short =
      rw (lt→leb 0 (length client_id) some_id, psk)
        (rw (le→ltb 128 (length auth_str) upto, lt→leb 0 (length auth_str) some)
          (rw arrives (rw good (rw (lt→ltb (length auth_enc) block_size short) refl))))
