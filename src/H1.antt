-- ===== src/H1.antt =====
-- transport/h1: how a client and a server agree on a session key, over the headers of an HTTP request
-- and of its response. A header's value is given as it is read; the packages `time`, `crypto/rand` and
-- `encoding/base64` are parameters, the clock's reading being `now`. Logging is left out.
pub mod Steps
pub mod Agree
pub mod Admit
pub mod Reply
pub mod Token
pub mod Client
pub mod Relay
pub mod Traffic
pub mod Web
pub mod Tests
mod RelayTests
use df.Prelude.{
  ℕ, ◌+◌, ◌-◌, ◌%◌, ◌^◌, ◌&&◌, ◌||◌, Bool, List, [], ◌∷◌, ◌++◌, length, take, drop, copy, ltb, leb,
  if◌then◌else◌,
}
use df.Bytes.{put_u64, get_u}
use df.Io.{Result, ok, err, panic, and_then, empty_key, not_base64}
use df.F1.{encrypt, decrypt, xor, key_size}
use df.Conf.{
  Values, Strconv, clone, get, set_value, framer_psk, framer_timestamp, framer_role, codes,
}
use df.Framer.{Text}

-- What the request of a client comes to: `abort`, a panic that ends the process, or the token of the
-- response with the settings of the framer.
pub data Decision : Type 0 where
  denied : Decision
  crashed : Decision
  opened : List ℕ → Values → Decision

-- `ts-now > 120 || ts-now < -120`, on `int64`: the difference is given by its bit pattern.
abbrev pub far_apart : ℕ → ℕ → Bool
far_apart ts now =
    let d = (ts + 2 ^ 64 - now) % 2 ^ 64 in
    (ltb 120 d && ltb d (2 ^ 63)) || (leb (2 ^ 63) d && ltb d (2 ^ 64 - 120))

-- The settings of the session's framer, which both sides set.
abbrev pub session_params : Text → Strconv → Values → List ℕ → ℕ → List ℕ → Values
session_params text conv cfg key_new ts role =
    set_value
      (set_value (set_value (clone cfg) framer_psk (text.encode key_new)) framer_timestamp
        (conv.format_int ts))
      framer_role role

-- `Connect`: the 24 random bytes that the timestamp is put over.
abbrev pub auth_bytes : ℕ → List ℕ → List ℕ
auth_bytes ts random = copy random (put_u64 ts)

-- The value of the header `Authentication`, which stays empty where the encryption fails.
abbrev pub encoded : Text → Result (List ℕ) → List ℕ
encoded text (ok dat) = text.encode dat
encoded text (err e) = []
encoded text panic = []

-- The key in the response's header `X-Token`.
abbrev pub or_no_key : Result (List ℕ) → Result (List ℕ)
or_no_key (ok dat) = ok dat
or_no_key (err e) = ok []
or_no_key panic = panic

module _ (aes : List ℕ → List ℕ → List ℕ) (text : Text) (conv : Strconv) where
  -- The end of `handleServerConn`, for the bytes `authb` of a client that is let in. `raw` is the new
  -- key and `iv` what reading the random iv comes to.
  abbrev pub offered : Values → List ℕ → List ℕ → List ℕ → Result (List ℕ) → Decision
  offered cfg authb pskb raw (ok key_new_enc) = opened (text.encode key_new_enc) (
      session_params text conv cfg (xor raw (drop 8 authb)) (get_u (take 8 authb)) (codes "server"))
  offered cfg authb pskb raw (err e) = denied
  offered cfg authb pskb raw panic = crashed

  abbrev pub let_in : Values → ℕ → List ℕ → List ℕ → Result (List ℕ) → Result (List ℕ) → Decision
  let_in cfg now pskb raw iv (ok authb) =
      if ltb (length authb) (8 + key_size)
      then denied
      else if far_apart (get_u (take 8 authb)) now
      then denied
      else offered cfg authb pskb raw (encrypt aes iv pskb raw)
  let_in cfg now pskb raw iv (err e) = denied
  let_in cfg now pskb raw iv panic = crashed

  abbrev pub auth_decoded :
      Values → ℕ → List ℕ → List ℕ → Result (List ℕ) → Result (List ℕ) → Decision
  auth_decoded cfg now pskb raw iv (ok auth_enc) =
      let_in cfg now pskb raw iv (decrypt aes pskb auth_enc)
  auth_decoded cfg now pskb raw iv (err e) = denied
  auth_decoded cfg now pskb raw iv panic = crashed

  abbrev pub psk_decoded :
      Values → ℕ → List ℕ → List ℕ → Result (List ℕ) → Result (List ℕ) → Decision
  psk_decoded cfg now auth_str raw iv (ok pskb) =
      if ltb 128 (length auth_str) || leb (length auth_str) 0
      then denied
      else auth_decoded cfg now pskb raw iv (text.decode auth_str)
  psk_decoded cfg now auth_str raw iv (err e) = denied
  psk_decoded cfg now auth_str raw iv panic = crashed

  -- `handleServerConn` from the client's id on, up to the framer; the response (Reply) is taken to be
  -- written, and a handler to be there. `auth_str` is the value of the
  -- header `Authentication`.
  unfoldable pub handle_server_conn :
      Values → ℕ → List ℕ → List ℕ → List ℕ → Result (List ℕ) → Decision
  handle_server_conn cfg now client_id auth_str raw iv =
      if leb (length client_id) 0
      then denied
      else psk_decoded cfg now auth_str raw iv (text.decode (get cfg framer_psk))

  unfoldable pub auth_header : List ℕ → List ℕ → Result (List ℕ) → List ℕ
  auth_header pskb auth iv = encoded text (encrypt aes iv pskb auth)

  -- `Connect` behind the response, for the token in it: the settings of the framer.
  unfoldable pub finish_connect : Values → List ℕ → List ℕ → ℕ → List ℕ → Result Values
  finish_connect cfg pskb auth ts token =
      if leb (length token) 0
      then err empty_key
      else and_then (or_no_key (text.decode token)) λ key_new_enc.
        if ltb 0 (length key_new_enc)
        then (and_then (decrypt aes pskb key_new_enc)
            λ raw. ok (session_params text conv cfg (xor raw (drop 8 auth)) ts (codes "client")))
        else err empty_key
