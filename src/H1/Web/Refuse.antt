-- ===== src/H1/Web/Refuse.antt =====
-- A client that a server refuses.
use df.Prelude.{
  ℕ, ◌+◌, ◌^◌, ◌<◌, ◌≡◌, ◌⊎◌, inl, inr, refl, ap, ◌∙◌, arith, true, List, [], ◌∷◌, ◌++◌, length,
  flat, lt→leb, le→ltb,
}
use df.Io.{Result, ok, err, empty_key}
use df.F1.{new_cipher, key_size}
use df.F1.Cfb.{IsBlockCipher}
use df.Conf.{Values, Strconv, get, framer_psk, codes}
use df.Framer.{Text}
use df.Http.{
  Names, Response, read_response, get_header, take_line, cut_line, split_at, parse_response_line,
  parse_header_line,
}
use df.Http.Whole.{with_crlf}
use df.SyncMap.{load, store}
use df.Http.Chunks.{chunks_joined}
use df.Http.Header.{Letters, write_to}
use df.H1.{encoded, denied, far_apart, auth_bytes, auth_header, handle_server_conn, finish_connect}
use df.H1.Steps.{IsCoding, AreBytes, auth_bytes_lem, Sealed, sealed}
use df.H1.Agree.{Attempt, IsAttempt}
use df.H1.Client.{Client}
use df.H1.Web.{Url, Web, target, refused, connect_request, abort_bytes, connect, replies}
use df.H1.Web.Fields.{IsWeb}
use df.H1.Web.Meet.{
  connect_lem, IsAnswer, IsCut, IsMeeting, session_lem, serve_lem, request_read, request_bytes,
  served, to_server,
}

-- What the libraries promise on the texts of a refusal.
pub record IsRefusal (conv : Strconv) (names : Names) : Type 0 where
  pub atoi_403 : conv.atoi (codes "403") ≡ ok 403
  pub format_6 : conv.format_int 6 ≡ codes "6"
  pub trim_connection : names.trim_space (codes "Connection") ≡ codes "Connection"
  pub trim_type : names.trim_space (codes "Content-Type") ≡ codes "Content-Type"
  pub trim_length : names.trim_space (codes "Content-Length") ≡ codes "Content-Length"
  pub connection : names.canonical (codes "Connection") ≡ codes "Connection"
  pub content_type : names.canonical (codes "Content-Type") ≡ codes "Content-Type"
  pub content_length : names.canonical (codes "Content-Length") ≡ codes "Content-Length"
  pub token : names.canonical (codes "X-Token") ≡ codes "X-Token"

far :
    (ts now : ℕ)
    → ts < 2 ^ 63
    → now < 2 ^ 63
    → (ts + 120 < now) ⊎ (now + 120 < ts)
    → far_apart ts now ≡ true
far ts now h k (inl late) = ground arith
far ts now h k (inr early) = ground arith

-- The bytes of a refusal.
abbrev denial : List ℕ → List ℕ
denial size =
    with_crlf (
      codes "HTTP/1.1 403 DENIED"
      ∷ codes "Connection: close"
      ∷ codes "Content-Type: text/plain"
      ∷ (codes "Content-Length: " ++ size)
      ∷ []
      ∷ [])
    ++ codes "denied"

module _ (conv : Strconv) (names : Names) (r : IsRefusal conv names) where
  abort_bytes-denial : abort_bytes conv (codes "HTTP/1.1") (codes "denied") ≡ denial (codes "6")
  unfolding abort_bytes
  abort_bytes-denial = ap denial r.format_6

  abbrev understood : Response
  understood = record {
    status_code = 403;
    header =
        (codes "Connection", names.trim_space (codes " close"))
        ∷ (codes "Content-Type", names.trim_space (codes " text/plain"))
        ∷ (codes "Content-Length", names.trim_space (codes " 6"))
        ∷ [];
  }

  denial_read : (read_response conv names (denial (codes "6") ∷ [])).0 ≡ ok understood
  unfolding read_response with_crlf take_line cut_line split_at parse_response_line
      parse_header_line store
  denial_read = rw (r.atoi_403) (
      rw (r.trim_connection, r.trim_type, r.trim_length)
        (rw (r.connection, r.content_type, r.content_length) refl))

  -- A refused client reads the response, and no token in it.
  abort_read :
      (conn : List (List ℕ))
      → flat conn ≡ abort_bytes conv (codes "HTTP/1.1") (codes "denied")
      → ((read_response conv names conn).0 ≡ ok understood)
        × (get_header names (codes "X-Token") understood ≡ [])
  unfolding load
  abort_read conn e =
      let same = e ∙ abort_bytes-denial in
      (
        chunks_joined conv names conn (unfold with_crlf in omega (arith, ap length same))
            ∙ ap (λ t. (read_response conv names (t ∷ [])).0) same
            ∙ denial_read,
        rw r.token refl,
      )

module _ (aes : List ℕ → List ℕ → List ℕ) (text : Text) (conv : Strconv)
    (cipher : IsBlockCipher aes) (coding : IsCoding text conv) (pskb : List ℕ)
    (good : new_cipher aes pskb ≡ ok (aes pskb)) where
  -- The server denies a client whose clock is far.
  server_denies :
      (cfg : Values) (client_id random raw iv : List ℕ) (iv' : Result (List ℕ)) (ts now : ℕ)
      → text.decode (get cfg framer_psk) ≡ ok pskb
      → 0 < length client_id
      → AreBytes 24 random
      → ts < 2 ^ 63
      → far_apart ts now ≡ true
      → (a : Sealed aes text conv cipher coding pskb good iv (auth_bytes ts random))
      → handle_server_conn aes text conv cfg now client_id (text.encode a.dat') raw iv' ≡ denied
  unfolding handle_server_conn
  server_denies cfg client_id random raw iv iv' ts now psk some_id hr h apart a =
      let (size, time, tail, _) = auth_bytes_lem random ts hr (omega arith) in
      rw (lt→leb 0 (length client_id) some_id, psk)
        (rw
          (
            le→ltb 128 (length (text.encode a.dat')) (omega (arith, a.length_text)),
            lt→leb 0 (length (text.encode a.dat')) (omega (arith, a.length_text)),
          )
          (rw (a.arrives, a.read)
            (rw (le→ltb (length (auth_bytes ts random)) (8 + key_size) (omega arith))
              (rw (ap (λ n. far_apart n now) time ∙ apart) refl))))

module _ (aes : List ℕ → List ℕ → List ℕ) (text : Text) (conv : Strconv) (letters : Letters)
    (names : Names) (web : Web) (up down : List ℕ → List (List ℕ)) (cfg : Values)
    (a : Attempt) where
  -- A client with the server's pre-shared key, but a clock more than two minutes from the server's, is
  -- refused by the bytes of a response 403, and fails to connect for want of a token, however the
  -- connection cuts both.
  pub far_client_refused :
      (c : Client) (u : Url) (pskb ws_key : List ℕ)
      → IsBlockCipher aes
      → new_cipher aes pskb ≡ ok (aes pskb)
      → IsCoding text conv
      → IsWeb letters web text
      → IsAnswer conv names web text
      → IsRefusal conv names
      → IsCut up
      → IsCut down
      → IsAttempt a
      → IsMeeting aes text conv letters names web up down cfg a c u pskb ws_key
      → (a.ts + 120 < a.now) ⊎ (a.now + 120 < a.ts)
      → (served aes text conv letters names web up down cfg a
            (request_bytes aes text conv letters names web up down cfg a u pskb ws_key)
          ≡ refused (abort_bytes conv (codes "HTTP/1.1") (codes "denied")))
        × (connect aes text conv letters names web
              (to_server aes text conv letters names web up down cfg a)
              c
              a.ts
              a.random
              (ok a.iv)
              ws_key
            ≡ (c, err empty_key))
  far_client_refused c u pskb ws_key cipher good coding w n f cut_up cut_down h m far_off =
      let use_ws = (target web u).use_ws in
      let auth = auth_bytes a.ts a.random in
      let asked = request_bytes aes text conv letters names web up down cfg a u pskb ws_key in
      let (_, _, _, bytes) = auth_bytes_lem a.random a.ts h.random_ok (omega (arith, h.ts_ok)) in
      let i = sealed aes text conv cipher coding pskb good a.iv auth h.iv_ok bytes in
      let written : auth_header aes text conv pskb auth (ok a.iv) ≡ text.encode i.dat' =
        unfold auth_header in ap (encoded text) i.made in
      let same : asked
          ≡ write_to letters
              (connect_request letters web text use_ws u a.client_id (text.encode i.dat') ws_key) =
        ap (λ t. write_to letters (connect_request letters web text use_ws u a.client_id t ws_key))
          written in
      let (head, read, r) =
        request_read aes text conv letters names web coding w n use_ws u a.client_id i.dat' ws_key
          (up asked) m.plain_host i.bytes m.key_bytes (cut_up.flat-cut asked ∙ same)
          (cut_up.some_bytes asked) (omega (arith, ap length same, m.fits)) in
      let serves =
        serve_lem aes text conv letters names web coding w n cfg a.now a.raw a.client_id
          (text.encode i.dat') (ok a.iv') denied (up asked) head read r
          (server_denies aes text conv cipher coding pskb good cfg a.client_id a.random a.raw a.iv
            (ok a.iv') a.ts a.now m.psk_server h.some_id h.random_ok h.ts_ok
            (far a.ts a.now h.ts_ok h.now_ok far_off) i)
        ∙ ap (λ t. refused (abort_bytes conv t (codes "denied"))) r.same_proto in
      let (got, found) =
        abort_read conv names f (down (abort_bytes conv (codes "HTTP/1.1") (codes "denied")))
          (cut_down.flat-cut (abort_bytes conv (codes "HTTP/1.1") (codes "denied"))) in
      let network = to_server aes text conv letters names web up down cfg a in
      let made =
        session_lem aes text conv letters names web coding w n network c.cfg a.client_id a.random
          ws_key pskb [] a.ts (ok a.iv) u (err empty_key) m.psk_client m.parsed
          (ap (λ x. ok (replies down x)) serves) got found (unfold finish_connect in refl) in
      (
        serves,
        connect_lem aes text conv letters names web coding w n network c a.client_id a.random ws_key
            a.ts (ok a.iv) m.still_open m.same_id made,
      )
