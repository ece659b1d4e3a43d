-- ===== src/H1/Web/Tests.antt =====
-- A client and a server that meet over a connection that carries one byte at a time.
use df.Prelude.{
  inl, bytes_eq, ℕ, suc, ◌+◌, ◌-◌, ◌*◌, ◌^◌, ◌<◌, ◌≤◌, ◌≡◌, ◌==◌, ◌||◌, ◌&&◌, true, false, refl, ap,
  ◌∙◌, arith, List, [], ◌∷◌, length, All, flat, take, drop, replicate, if◌then◌else◌,
}
use df.Bytes.{put_u64, get_u, get_u-put_u64}
use df.Io.{ok, err, empty_key}
use df.F1.{new_cipher}
use df.F1.Tests.{sample_aes, sample-IsBlockCipher, sample_key}
use df.Conf.{Values, Strconv, get, framer_psk, server_url, codes}
use df.Framer.{Text, framer_key}
use df.Http.{Names}
use df.Http.Header.{Letters, Uri}
use df.Http.Whole.{lacks}
use df.H1.Steps.{IsCoding}
use df.H1.Agree.{Attempt, IsAttempt}
use df.H1.Tests.{
  encode_triples, decode_triples, decode-encode_triples, length-encode_triples, sample_attempt,
  sample-IsAttempt,
}
use df.H1.Client.{Client}
use df.H1.Web.{abort_bytes, refused, Url, Web, serving, Session, connect, target}
use df.H1.Web.Fields.{IsWeb}
use df.H1.Web.Refuse.{IsRefusal, far_client_refused}
use df.H1.Web.Meet.{
  asks_ws, IsAnswer, IsCut, IsMeeting, request_bytes, served, to_server, connect-serve,
}

-- Letters that stand for bytes, far from the codes of the header.
abbrev up : List ℕ → List ℕ
up [] = []
up (x ∷ xs) = (x + 300) ∷ up xs

abbrev down : List ℕ → List ℕ
down [] = []
down (x ∷ xs) = (x - 300) ∷ down xs

down-up : (xs : List ℕ) → down (up xs) ≡ xs
down-up [] = refl
down-up (x ∷ xs) = ground (arith, down-up xs)

length-up : (xs : List ℕ) → length (up xs) ≡ length xs
length-up [] = refl
length-up (x ∷ xs) = ap suc (length-up xs)

up-plain : (c : ℕ) (xs : List ℕ) → c < 300 → lacks c (up xs) ≡ true
up-plain c [] h = refl
up-plain c (x ∷ xs) h = ground (arith, up-plain c xs h)

abbrev web_text : Text
web_text = record {
  decode = λ s. decode_triples (down s);
  encode = λ s. up (encode_triples s);
  equal_fold = λ x y. bytes_eq x y;
}

abbrev six : List ℕ
six = codes "6"

abbrev web_conv : Strconv
web_conv = record {
  atoi = λ s.
      ok
        (if bytes_eq s (codes "101") then 101 else (if bytes_eq s (codes "403") then 403 else 200));
  parse_int = λ s. ok (if bytes_eq s six then 6 else get_u s);
  format_int = λ n. if n == 6 then six else put_u64 n;
}

parse-format_web : (n : ℕ) → n < 2 ^ 64 → web_conv.parse_int (web_conv.format_int n) ≡ ok n
parse-format_web n h = ground (arith, get_u-put_u64 n h)

web-IsCoding : IsCoding web_text web_conv
web-IsCoding = record {
  decode-encode = λ x _. ap decode_triples (down-up (encode_triples x)) ∙ decode-encode_triples x;
  length-encode = λ x. length-up (encode_triples x) ∙ length-encode_triples x;
  parse-format = parse-format_web;
}

abbrev web_letters : Letters
web_letters = record {
  to_upper = λ s. s;
  equal_fold = λ x y. bytes_eq x y || (bytes_eq x (codes "Host") && bytes_eq y (codes "host"));
  canonical = λ s.
      if bytes_eq s (codes "Sec-WebSocket-Key")
      then codes "Sec-Websocket-Key"
      else (if bytes_eq s (codes "Sec-WebSocket-Protocol")
          then codes "Sec-Websocket-Protocol"
          else s);
  parse_request_uri = λ s. ok (record { request_uri = s; host = [] });
}

abbrev web_names : Names
web_names = record {
  trim_space = λ s. if bytes_eq (take 1 s) (32 ∷ []) then drop 1 s else s;
  canonical = λ s. s;
}

abbrev web_url : Url
web_url = record { scheme = codes "ws"; hostname = codes "h"; port = []; host = codes "h" }

abbrev sample_web : Web
sample_web = record {
  parse = λ s. ok web_url;
  to_lower = λ s. s;
  with_query = λ u path id. up id;
  query_get = λ url name. down url.request_uri;
  sha1 = λ s. replicate 20 7;
}

sample-IsWeb : IsWeb web_letters sample_web web_text
sample-IsWeb = record {
  authentication = refl;
  content_type = refl;
  connection = refl;
  upgrade = refl;
  ws_key = refl;
  ws_key_again = refl;
  ws_protocol = refl;
  host = refl;
  is_host = refl;
  not_authentication = refl;
  not_content_type = refl;
  not_connection = refl;
  not_upgrade = refl;
  not_ws_key = refl;
  is_websocket = refl;
  not_websocket = refl;
  get = refl;
  post = refl;
  proto = refl;
  plain = λ x _. up-plain 13 (encode_triples x) (omega arith);
  no_space = λ u path id. up-plain 32 id (omega arith);
  no_return = λ u path id. up-plain 13 id (omega arith);
  parses = λ u path id. (record { request_uri = up id; host = [] }, refl, down-up id);
  query_kept = λ url x. refl;
}

sample-IsAnswer : IsAnswer web_conv web_names sample_web web_text
sample-IsAnswer = record {
  atoi_101 = refl;
  atoi_200 = refl;
  trim_name = refl;
  trim_token = λ x _. refl;
  sha1_IsByte = λ x. ground arith;
  length-sha1 = λ x. refl;
}

abbrev one_by_one : List ℕ → List (List ℕ)
one_by_one [] = []
one_by_one (x ∷ xs) = (x ∷ []) ∷ one_by_one xs

flat-one_by_one : (xs : List ℕ) → flat (one_by_one xs) ≡ xs
flat-one_by_one [] = refl
flat-one_by_one (x ∷ xs) = ap (λ t. x ∷ t) (flat-one_by_one xs)

one_by_one_some : (xs : List ℕ) → All (λ chunk. 0 < length chunk) (one_by_one xs)
one_by_one_some [] = tt
one_by_one_some (x ∷ xs) = (omega arith, one_by_one_some xs)

one_by_one-IsCut : IsCut one_by_one
one_by_one-IsCut = record { flat-cut = flat-one_by_one; some_bytes = one_by_one_some }

abbrev web_cfg : Values
web_cfg = (framer_psk, up (encode_triples sample_key)) ∷ (server_url, codes "ws://h") ∷ []

abbrev web_client : Client
web_client = record {
  cfg = web_cfg;
  id = 97 ∷ [];
  closed = false;
  connected = false;
  buf_read = record { buf = replicate 4 0; buf_len = 0; eof = false };
}

abbrev asked : List ℕ
asked =
    request_bytes sample_aes web_text web_conv web_letters web_names sample_web one_by_one
      one_by_one web_cfg sample_attempt web_url sample_key (1 ∷ 2 ∷ 3 ∷ 4 ∷ [])

asked_fits : length asked + 1024 * 2 ≤ 1024 * 16
unfolding df.Http.Header.write_to df.H1.Web.connect_request df.H1.Web.target df.H1.auth_header
    df.SyncMap.store df.F1.encrypt df.F1.cfb_encrypt df.Http.Whole.with_crlf
asked_fits = omega arith

web-IsMeeting :
    IsMeeting sample_aes web_text web_conv web_letters web_names sample_web one_by_one one_by_one
      web_cfg sample_attempt web_client web_url sample_key
      (1 ∷ 2 ∷ 3 ∷ 4 ∷ [])
unfolding get df.SyncMap.load
web-IsMeeting = record {
  still_open = refl;
  same_id = refl;
  psk_server = refl;
  psk_client = refl;
  parsed = refl;
  plain_host = refl;
  key_bytes = ground arith;
  fits = asked_fits;
}

connect-serve_example :
    (reply : List ℕ) × (server client : Values) × (key : List ℕ) × (served sample_aes web_text
        web_conv web_letters web_names sample_web one_by_one one_by_one web_cfg sample_attempt asked
      ≡ serving reply (asks_ws sample_web web_url) (97 ∷ []) server)
    × (connect sample_aes web_text web_conv web_letters web_names sample_web
          (to_server sample_aes web_text web_conv web_letters web_names sample_web one_by_one
            one_by_one web_cfg sample_attempt)
          web_client
          1700000000
          (replicate 24 7)
          (ok (replicate 16 200))
          (1 ∷ 2 ∷ 3 ∷ 4 ∷ [])
        ≡ (
          record web_client { connected = true },
          ok (record { use_ws = (asks_ws sample_web web_url); params = client }),
        ))
    × (framer_key web_text web_conv server ≡ ok key)
    × (framer_key web_text web_conv client ≡ ok key)
    × (new_cipher sample_aes key ≡ ok (sample_aes key))
connect-serve_example =
    connect-serve sample_aes web_text web_conv web_letters web_names sample_web one_by_one
      one_by_one web_cfg sample_attempt web_client web_url sample_key (1 ∷ 2 ∷ 3 ∷ 4 ∷ [])
      sample-IsBlockCipher refl web-IsCoding sample-IsWeb sample-IsAnswer one_by_one-IsCut
      one_by_one-IsCut sample-IsAttempt web-IsMeeting (omega arith) (omega arith)

web-IsRefusal : IsRefusal web_conv web_names
web-IsRefusal = record {
  atoi_403 = refl;
  format_6 = refl;
  trim_connection = refl;
  trim_type = refl;
  trim_length = refl;
  connection = refl;
  content_type = refl;
  content_length = refl;
  token = refl;
}

-- The client's clock is years behind.
abbrev late_attempt : Attempt
late_attempt = record sample_attempt { ts = 1600000000 }

late-IsAttempt : IsAttempt late_attempt
late-IsAttempt = record {
  some_id = sample-IsAttempt.some_id;
  random_ok = sample-IsAttempt.random_ok;
  iv_ok = sample-IsAttempt.iv_ok;
  raw_ok = sample-IsAttempt.raw_ok;
  iv'_ok = sample-IsAttempt.iv'_ok;
  ts_ok = omega arith;
  now_ok = sample-IsAttempt.now_ok;
}

abbrev late_asked : List ℕ
late_asked =
    request_bytes sample_aes web_text web_conv web_letters web_names sample_web one_by_one
      one_by_one web_cfg late_attempt web_url sample_key (1 ∷ 2 ∷ 3 ∷ 4 ∷ [])

late_asked_fits : length late_asked + 1024 * 2 ≤ 1024 * 16
unfolding df.Http.Header.write_to df.H1.Web.connect_request df.H1.Web.target df.H1.auth_header
    df.SyncMap.store df.F1.encrypt df.F1.cfb_encrypt df.Http.Whole.with_crlf
late_asked_fits = omega arith

late-IsMeeting :
    IsMeeting sample_aes web_text web_conv web_letters web_names sample_web one_by_one one_by_one
      web_cfg late_attempt web_client web_url sample_key
      (1 ∷ 2 ∷ 3 ∷ 4 ∷ [])
unfolding get df.SyncMap.load
late-IsMeeting = record {
  still_open = refl;
  same_id = refl;
  psk_server = refl;
  psk_client = refl;
  parsed = refl;
  plain_host = refl;
  key_bytes = ground arith;
  fits = late_asked_fits;
}

far_client_refused_example :
    (served sample_aes web_text web_conv web_letters web_names sample_web one_by_one one_by_one
        web_cfg late_attempt late_asked
      ≡ refused (abort_bytes web_conv (codes "HTTP/1.1") (codes "denied")))
    × (connect sample_aes web_text web_conv web_letters web_names sample_web
          (to_server sample_aes web_text web_conv web_letters web_names sample_web one_by_one
            one_by_one web_cfg late_attempt)
          web_client
          1600000000
          (replicate 24 7)
          (ok (replicate 16 200))
          (1 ∷ 2 ∷ 3 ∷ 4 ∷ [])
        ≡ (web_client, err empty_key))
far_client_refused_example =
    far_client_refused sample_aes web_text web_conv web_letters web_names sample_web one_by_one
      one_by_one web_cfg late_attempt web_client web_url sample_key (1 ∷ 2 ∷ 3 ∷ 4 ∷ [])
      sample-IsBlockCipher refl web-IsCoding sample-IsWeb sample-IsAnswer web-IsRefusal
      one_by_one-IsCut one_by_one-IsCut late-IsAttempt late-IsMeeting (inl (omega arith))
