-- ===== src/H1/Agree.antt =====
-- The session key that both sides come to.
use df.Prelude.{
  All, ℕ, ◌+◌, ◌^◌, ◌≤◌, ◌<◌, ◌≡◌, refl, ap, ◌∙◌, arith, List, length, drop, All-drop, length-drop,
}
use df.Bytes.{IsByte}
use df.Io.{ok}
use df.F1.{xor, new_cipher}
use df.F1.Cfb.{IsBlockCipher}
use df.F1.Key.{derive_key_lem}
use df.Conf.{Values, Strconv, get, framer_psk, codes}
use df.Framer.{Text, framer_key}
use df.H1.{
  encoded, Decision, opened, session_params, handle_server_conn, auth_bytes, auth_header,
  finish_connect,
}
use df.H1.Steps.{
  IsCoding, AreBytes, xor_sized, auth_bytes_lem, framer_key-session_params, sealed, server_opens,
  client_finishes,
}

-- An attempt to connect: the random bytes of both sides, and the clocks' readings.
pub record Attempt : Type 0 where
  pub client_id : List ℕ
  pub random : List ℕ
  pub iv : List ℕ
  pub raw : List ℕ
  pub iv' : List ℕ
  pub ts : ℕ
  pub now : ℕ

pub record IsAttempt (a : Attempt) : Type 0 where
  pub some_id : 0 < length a.client_id
  pub random_ok : AreBytes 24 a.random
  pub iv_ok : AreBytes 16 a.iv
  pub raw_ok : AreBytes 16 a.raw
  pub iv'_ok : AreBytes 16 a.iv'
  pub ts_ok : a.ts < 2 ^ 63
  pub now_ok : a.now < 2 ^ 63

module _ (aes : List ℕ → List ℕ → List ℕ) (text : Text) (conv : Strconv) (cfg : Values)
    (pskb : List ℕ) where
  -- What the server answers to the client of an attempt.
  abbrev pub answer : Attempt → Decision
  answer a =
      handle_server_conn aes text conv cfg a.now a.client_id
        (auth_header aes text conv pskb (auth_bytes a.ts a.random) (ok a.iv)) a.raw (ok a.iv')

  -- A client with the server's pre-shared key, whose clock is within two minutes of the server's, is
  -- let in. It takes the token of the response, and the framers of both sides derive one and the same
  -- key, of 16 bytes, which the cipher takes. What each side sends is the text of some bytes.
  pub agree :
      (cfg_client : Values) (a : Attempt)
      → IsBlockCipher aes
      → IsCoding text conv
      → new_cipher aes pskb ≡ ok (aes pskb)
      → text.decode (get cfg framer_psk) ≡ ok pskb
      → IsAttempt a
      → a.ts ≤ a.now + 120
      → a.now ≤ a.ts + 120
      → (token : List ℕ) × (server client : Values) × (key : List ℕ) × (answer a
          ≡ opened token server)
        × (finish_connect aes text conv cfg_client pskb (auth_bytes a.ts a.random) a.ts token
            ≡ ok client)
        × (framer_key text conv server ≡ ok key)
        × (framer_key text conv client ≡ ok key)
        × (new_cipher aes key ≡ ok (aes key))
        × (sent offer : List ℕ) × (auth_header aes text conv pskb
              (auth_bytes a.ts a.random)
              (ok a.iv)
            ≡ text.encode sent)
        × All IsByte sent
        × (token ≡ text.encode offer)
        × All IsByte offer
        × (length offer ≡ 32)
  unfolding auth_header
  agree cfg_client a c coding good psk h early late =
      let (_, _, tail, bytes) = auth_bytes_lem a.random a.ts h.random_ok (omega (arith, h.ts_ok)) in
      let (n, random_IsByte) = h.random_ok in
      let (m, raw_IsByte) = h.raw_ok in
      let o = sealed aes text conv c coding pskb good a.iv' a.raw h.iv'_ok raw_IsByte in
      let i =
        sealed aes text conv c coding pskb good a.iv (auth_bytes a.ts a.random) h.iv_ok bytes in
      let rest : length (drop 8 a.random) ≡ length a.raw = omega (arith, length-drop 8 a.random) in
      let (size, key_IsByte) =
        xor_sized a.raw (drop 8 a.random) rest raw_IsByte
          (All-drop IsByte 8 a.random random_IsByte) in
      let new = xor a.raw (drop 8 a.random) in
      let (key, derived, takes, _) = derive_key_lem aes new a.ts (omega arith) in
      (
        text.encode o.dat',
        session_params text conv cfg new a.ts (codes "server"),
        session_params text conv cfg_client new a.ts (codes "client"),
        key,
        server_opens aes text conv c coding pskb good cfg a.client_id a.random a.raw a.iv a.iv' a.ts
            a.now psk h.some_id h.random_ok h.raw_ok h.iv_ok h.iv'_ok h.ts_ok h.now_ok early late i
            o,
        client_finishes aes text conv c coding pskb good cfg_client (auth_bytes a.ts a.random) a.raw
              a.iv' a.ts h.raw_ok o
            ∙ ap (λ t. ok (session_params text conv cfg_client (xor a.raw t) a.ts (codes "client")))
                tail,
        framer_key-session_params aes text conv cfg new (codes "server") a.ts coding key_IsByte
              (omega (arith, h.ts_ok))
            ∙ derived,
        framer_key-session_params aes text conv cfg_client new (codes "client") a.ts coding
              key_IsByte (omega (arith, h.ts_ok))
            ∙ derived,
        takes,
        i.dat',
        o.dat',
        ap (encoded text) i.made,
        i.bytes,
        refl,
        o.bytes,
        omega (arith, o.size),
      )
