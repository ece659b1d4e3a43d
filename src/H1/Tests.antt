-- ===== src/H1/Tests.antt =====
-- A client and a server that connect, over a code of four symbols for three bytes.
use df.Prelude.{
  bytes_eq, ℕ, zero, suc, ◌+◌, ◌*◌, ◌/◌, ◌<◌, ◌≡◌, refl, ap, arith, List, [], ◌∷◌, length,
  replicate,
}
use df.Bytes.{put_u64, get_u, get_u-put_u64}
use df.Io.{Result, ok, err, and_then, not_base64}
use df.F1.{F1}
use df.F1.Transfer.{write_all, read_all}
use df.F1.Stream.{plain}
use df.F1.Tests.{
  sample_aes, sample-IsBlockCipher, sample_sent, sample-IsSent, sample_key, sample_iv,
}
use df.Conf.{Values, Strconv, get, framer_psk}
use df.Framer.{Text, f1_framer}
use df.H1.{opened, auth_header, auth_bytes, finish_connect}
use df.H1.Steps.{IsCoding}
use df.H1.Agree.{Attempt, IsAttempt, answer, agree}
use df.H1.Admit.{Known, let_in_only}
use df.H1.Traffic.{session_delivers}

abbrev pub encode_triples : List ℕ → List ℕ
encode_triples [] = []
encode_triples (a ∷ []) = 2 ∷ a ∷ 0 ∷ 0 ∷ []
encode_triples (a ∷ b ∷ []) = 1 ∷ a ∷ b ∷ 0 ∷ []
encode_triples (a ∷ b ∷ c ∷ xs) = 0 ∷ a ∷ b ∷ c ∷ encode_triples xs

abbrev triple : ℕ → ℕ → ℕ → ℕ → Result (List ℕ) → Result (List ℕ)
triple zero a b c rest = and_then rest λ xs. ok (a ∷ b ∷ c ∷ xs)
triple (suc zero) a b c rest = ok (a ∷ b ∷ [])
triple (suc (suc k)) a b c rest = ok (a ∷ [])

abbrev pub decode_triples : List ℕ → Result (List ℕ)
decode_triples [] = ok []
decode_triples (t ∷ []) = err not_base64
decode_triples (t ∷ a ∷ []) = err not_base64
decode_triples (t ∷ a ∷ b ∷ []) = err not_base64
decode_triples (t ∷ a ∷ b ∷ c ∷ xs) = triple t a b c (decode_triples xs)

pub decode-encode_triples : (xs : List ℕ) → decode_triples (encode_triples xs) ≡ ok xs
decode-encode_triples [] = refl
decode-encode_triples (a ∷ []) = refl
decode-encode_triples (a ∷ b ∷ []) = refl
decode-encode_triples (a ∷ b ∷ c ∷ xs) = rw (decode-encode_triples xs) refl

pub length-encode_triples : (xs : List ℕ) → length (encode_triples xs) ≡ 4 * ((length xs + 2) / 3)
length-encode_triples [] = refl
length-encode_triples (a ∷ []) = refl
length-encode_triples (a ∷ b ∷ []) = refl
length-encode_triples (a ∷ b ∷ c ∷ xs) = omega (arith, length-encode_triples xs)

abbrev sample_text : Text
sample_text = record {
  decode = decode_triples;
  encode = encode_triples;
  equal_fold = λ x y. bytes_eq x y;
}

abbrev pub sample_conv : Strconv
sample_conv = record {
  atoi = λ s. ok (get_u s);
  parse_int = λ s. ok (get_u s);
  format_int = put_u64;
}

pub sample-IsCoding : IsCoding sample_text sample_conv
sample-IsCoding = record {
  decode-encode = λ x _. decode-encode_triples x;
  length-encode = length-encode_triples;
  parse-format = λ n h. ap ok (get_u-put_u64 n h);
}

abbrev sample_cfg : Values
sample_cfg = (framer_psk, encode_triples sample_key) ∷ []

abbrev pub sample_attempt : Attempt
sample_attempt = record {
  client_id = 97 ∷ [];
  random = replicate 24 7;
  iv = sample_iv;
  raw = replicate 16 5;
  iv' = sample_iv;
  ts = 1700000000;
  now = 1700000060;
}

pub sample-IsAttempt : IsAttempt sample_attempt
sample-IsAttempt = record {
  some_id = omega arith;
  random_ok = (refl, ground arith);
  iv_ok = (refl, ground arith);
  raw_ok = (refl, ground arith);
  iv'_ok = (refl, ground arith);
  ts_ok = omega arith;
  now_ok = omega arith;
}

sample_cfg_psk : decode_triples (get sample_cfg framer_psk) ≡ ok sample_key
unfolding get df.SyncMap.load
sample_cfg_psk = refl

session_delivers_example :
    (token : List ℕ) × (server client : Values) × (x y : F1) × (answer sample_aes sample_text
        sample_conv sample_cfg sample_key sample_attempt
      ≡ opened token server)
    × (finish_connect sample_aes sample_text sample_conv [] sample_key
          (auth_bytes 1700000000 (replicate 24 7))
          1700000000
          token
        ≡ ok client)
    × (f1_framer sample_text sample_conv server ≡ ok x)
    × (f1_framer sample_text sample_conv client ≡ ok y)
    × ((read_all sample_aes x (replicate 4 9) (write_all sample_aes y sample_sent []).1).0
        ≡ plain sample_sent)
    × ((read_all sample_aes y (replicate 4 9) (write_all sample_aes x sample_sent []).1).0
        ≡ plain sample_sent)
session_delivers_example =
    session_delivers sample_aes sample_text sample_conv sample_cfg sample_key [] sample_attempt
      sample_sent (replicate 4 9) sample-IsBlockCipher sample-IsCoding refl sample_cfg_psk
      sample-IsAttempt (omega arith) (omega arith) (sample-IsSent, tt) (ground arith) (omega arith)

abbrev sample_sealed : List ℕ
sample_sealed =
    auth_header sample_aes sample_text sample_conv sample_key
      (auth_bytes 1700000000 (replicate 24 7)) (ok sample_iv)

sample_opened :
    (token : List ℕ) × (params : Values) × (answer sample_aes sample_text sample_conv sample_cfg
        sample_key sample_attempt
      ≡ opened token params)
sample_opened =
    let (token, server, _, _, e, _, _, _, _, _, _, _, _, _, _, _) =
      agree sample_aes sample_text sample_conv sample_cfg sample_key [] sample_attempt
        sample-IsBlockCipher sample-IsCoding refl sample_cfg_psk sample-IsAttempt (omega arith)
        (omega arith) in
    (token, server, e)

let_in_only_example :
    (0 < 1)
    × (pskb auth_enc : List ℕ) × (decode_triples (get sample_cfg framer_psk) ≡ ok pskb)
    × (decode_triples sample_sealed ≡ ok auth_enc)
    × Known sample_aes 1700000060 pskb auth_enc
let_in_only_example =
    let (token, params, e) = sample_opened in
    let_in_only sample_aes sample_text sample_conv sample_cfg 1700000060 (replicate 16 5)
      (ok sample_iv) (97 ∷ []) sample_sealed token params (omega arith) (omega arith) e
