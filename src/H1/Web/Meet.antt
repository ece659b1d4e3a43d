-- ===== src/H1/Web/Meet.antt =====
-- A client's `Connect` and a server's `handleServerConn` at the two ends of a connection.
use df.Prelude.{
  bytes_eq, ◌||◌, ℕ, Bool-cases, inl, inr, ◌+◌, ◌*◌, ◌≤◌, ◌<◌, ◌≡◌, refl, sym, ap, ◌∙◌, arith, Bool,
  true, false, List, [], ◌∷◌, ◌++◌, length, All, append-nil, length-append, flat, ltb, ◌&&◌,
  if◌then◌else◌,
}
use df.Bytes.{IsByte}
use df.Io.{closed_already, err, Result, ok, and_then}
use df.F1.{new_cipher}
use df.F1.Cfb.{IsBlockCipher}
use df.Conf.{Values, Strconv, get, framer_psk, server_url, codes}
use df.Framer.{Text, framer_key}
use df.Http.{Names, Response, read_response, get_header}
use df.Http.Header.{Letters, Header, write_to, peek_header}
use df.Http.Whole.{lacks, with_crlf}
use df.Http.Arrives.{received, request_arrives}
use df.H1.{Decision, opened, auth_bytes, auth_header, finish_connect, handle_server_conn}
use df.H1.Steps.{IsCoding}
use df.H1.Agree.{Attempt, IsAttempt, agree}
use df.H1.Reply.{response_bytes, header_lines}
use df.H1.Token.{token_arrives}
use df.H1.Client.{Client}
use df.H1.Web.{
  Url, Web, Target, target, Served, serving, Session, connect_request, get_field, wants_ws,
  ws_accept, ws_guid, marked, on_header, answered, serve, session, connect, replies,
}
use df.H1.Web.Fields.{IsWeb, Reads, connect_request-Reads, connect_request-IsRequest}

-- What the libraries promise on the texts of the response.
pub record IsAnswer (conv : Strconv) (names : Names) (web : Web) (text : Text) : Type 0 where
  pub atoi_101 : conv.atoi (codes "101") ≡ ok 101
  pub atoi_200 : conv.atoi (codes "200") ≡ ok 200
  pub trim_name : names.trim_space (codes "X-Token") ≡ codes "X-Token"
  pub trim_token :
      (x : List ℕ) → All IsByte x → names.trim_space (32 ∷ text.encode x) ≡ text.encode x
  pub sha1_IsByte : (x : List ℕ) → All IsByte (web.sha1 x)
  pub length-sha1 : (x : List ℕ) → length (web.sha1 x) ≡ 20

-- How a connection cuts what is written into reads: none of them is empty.
pub record IsCut (cut : List ℕ → List (List ℕ)) : Type 0 where
  pub flat-cut : (x : List ℕ) → flat (cut x) ≡ x
  pub some_bytes : (x : List ℕ) → All (λ chunk. 0 < length chunk) (cut x)

length-response_bytes :
    (is_ws : Bool) (accept token : List ℕ)
    → length accept ≤ 28
    → length token ≤ 44
    → length (response_bytes is_ws (codes "HTTP/1.1") accept [] token) ≤ 1024 * 16
unfolding response_bytes header_lines with_crlf
length-response_bytes true accept token h k =
    let end : List ℕ = 13 ∷ 10 ∷ 13 ∷ 10 ∷ [] in
    let more =
      13
      ∷ 10
      ∷ (codes "Sec-WebSocket-Version: 7" ++ (13 ∷ 10 ∷ (codes "X-Token: " ++ (token ++ end)))) in
    omega (arith, length-append accept more, length-append token end)
length-response_bytes false accept token h k =
    omega (arith, length-append token (13 ∷ 10 ∷ 13 ∷ 10 ∷ []))

-- The schemes of a websocket.
abbrev pub asks_ws : Web → Url → Bool
asks_ws web u =
    bytes_eq (web.to_lower u.scheme) (codes "ws") || bytes_eq (web.to_lower u.scheme) (codes "wss")

module _ (aes : List ℕ → List ℕ → List ℕ) (text : Text) (conv : Strconv) (letters : Letters)
    (names : Names) (web : Web) (coding : IsCoding text conv) (w : IsWeb letters web text)
    (n : IsAnswer conv names web text) where
  ws_accept_lem :
      (h : Header)
      → (lacks 13 (ws_accept letters web text h) ≡ true)
        × (length (ws_accept letters web text h) ≤ 28)
  ws_accept_lem h =
      let key = get_field letters web text (codes "Sec-WebSocket-Key") h in
      elim (Bool-cases (wants_ws letters web text h && ltb 0 (length key))) [
        | inl hashed ↦
            let sum = web.sha1 (key ++ ws_guid) in
            rw hashed (
              w.plain sum (n.sha1_IsByte (key ++ ws_guid)),
              omega (arith, coding.length-encode sum, n.length-sha1 (key ++ ws_guid)),
            )
        | inr none ↦ rw none (refl, omega arith)
      ]

  -- The request, as the server reads it.
  pub request_read :
      (use_ws : Bool) (u : Url) (id sent key : List ℕ) (conn : List (List ℕ))
      → let h = connect_request letters web text use_ws u id (text.encode sent) key in
        lacks 13 u.host ≡ true
        → All IsByte sent
        → All IsByte key
        → flat conn ≡ write_to letters h
        → All (λ chunk. 0 < length chunk) conn
        → length (write_to letters h) + 1024 * 2 ≤ 1024 * 16
        → (head : Header) × (peek_header letters conn [] (1024 * 4) ≡ ok head)
          × Reads letters web text w use_ws id (text.encode sent) head
  request_read use_ws u id sent key conn plain bytes bytes' e some_bytes fits =
      let h = connect_request letters web text use_ws u id (text.encode sent) key in
      let (url, parsed, found) = w.parses u (codes "/api/cv2") id in
      (
        received letters h url,
        request_arrives letters h url [] conn
            (connect_request-IsRequest letters web text w use_ws u id (text.encode sent) key url
              plain (w.plain sent bytes) bytes' parsed)
            (e ∙ sym (append-nil (write_to letters h))) some_bytes (omega (arith, ap length e)),
        connect_request-Reads letters web text w use_ws u id (text.encode sent) key url found,
      )

  -- The bytes that the server writes to a client whose header it has read.
  abbrev reply : Header → List ℕ → List ℕ
  reply head token =
      response_bytes (wants_ws letters web text head) head.proto (ws_accept letters web text head)
        (get_field letters web text (codes "Sec-WebSocket-Protocol") head) token

  -- The response, as the client reads it.
  response_read :
      {use_ws : Bool} {id auth_str : List ℕ} (head : Header) (offer : List ℕ) (conn : List (List ℕ))
      → Reads letters web text w use_ws id auth_str head
      → All IsByte offer
      → length offer ≡ 32
      → flat conn ≡ reply head (text.encode offer)
      → (rs : Response) × ((read_response conv names conn).0 ≡ ok rs)
        × (get_header names (codes "X-Token") rs ≡ text.encode offer)
  response_read head offer conn r bytes size e =
      let token = text.encode offer in
      let is_ws = wants_ws letters web text head in
      let accept = ws_accept letters web text head in
      let ws_proto = get_field letters web text (codes "Sec-WebSocket-Protocol") head in
      let (plain, short) = ws_accept_lem head in
      let same : reply head token ≡ response_bytes is_ws (codes "HTTP/1.1") accept [] token =
        ap (λ t. response_bytes is_ws t accept ws_proto token) r.same_proto
        ∙ ap (λ t. response_bytes is_ws (codes "HTTP/1.1") accept t token) r.no_protocol in
      let fits =
        length-response_bytes is_ws accept token short
          (omega (arith, coding.length-encode offer)) in
      let (rs, read, _, found) =
        token_arrives conv names is_ws head.proto accept ws_proto token [] conn
          (ap (lacks 32) r.same_proto ∙ refl) (ap (lacks 13) r.same_proto ∙ refl) plain
          (ap (lacks 13) r.no_protocol ∙ refl) (w.plain offer bytes)
          (record {
            atoi_101 = n.atoi_101;
            atoi_200 = n.atoi_200;
            trim_name = n.trim_name;
            trim_token = n.trim_token offer bytes;
          })
          (e ∙ sym (append-nil (reply head token))) (omega (arith, ap length (e ∙ same), fits)) in
      (rs, read, found)

  -- `Connect`, step by step.
  pub session_lem :
      (network : Target → List ℕ → Result (List (List ℕ))) (cfg : Values)
      (id random ws_key pskb token : List ℕ) (ts : ℕ) (iv : Result (List ℕ)) (u : Url)
      (params : Result Values) {reads : List (List ℕ)} {rs : Response}
      → text.decode (get cfg framer_psk) ≡ ok pskb
      → web.parse (get cfg server_url) ≡ ok u
      → network (target web u) (
          write_to letters (
            connect_request letters web text
              (target web u).use_ws
              u
              id
              (auth_header aes text conv pskb (auth_bytes ts random) iv)
              ws_key))
        ≡ ok reads
      → (read_response conv names reads).0 ≡ ok rs
      → get_header names (codes "X-Token") rs ≡ token
      → finish_connect aes text conv cfg pskb (auth_bytes ts random) ts token ≡ params
      → session aes text conv letters names web network cfg id ts random iv ws_key
        ≡ and_then params λ p. ok (record { use_ws = (target web u).use_ws; params = p })
  unfolding session
  session_lem network cfg id random ws_key pskb token ts iv u params psk parsed answers read found
        taken =
      rw psk (rw parsed (rw answers (rw read (rw found (rw taken refl)))))

  pub connect_lem :
      (network : Target → List ℕ → Result (List (List ℕ))) (c : Client) (id random ws_key : List ℕ)
      (ts : ℕ) (iv : Result (List ℕ)) {r : Result Session}
      → c.closed ≡ false
      → c.id ≡ id
      → session aes text conv letters names web network c.cfg id ts random iv ws_key ≡ r
      → connect aes text conv letters names web network c ts random iv ws_key
        ≡ marked aes text conv letters names web c r
  unfolding connect
  connect_lem network c id random ws_key ts iv still_open same made =
      ap
        (λ b.
          if b
          then (c, err closed_already)
          else marked aes text conv letters names web c
              (session aes text conv letters names web network c.cfg c.id ts random iv ws_key))
        still_open
      ∙ ap
          (λ i.
            marked aes text conv letters names web c
              (session aes text conv letters names web network c.cfg i ts random iv ws_key))
          same
      ∙ ap (marked aes text conv letters names web c) made

  -- `handleServerConn`, step by step.
  pub serve_lem :
      (cfg : Values) (now : ℕ) (raw id auth_str : List ℕ) (iv : Result (List ℕ)) (d : Decision)
      {use_ws : Bool} (conn : List (List ℕ)) (head : Header)
      → peek_header letters conn [] (1024 * 4) ≡ ok head
      → Reads letters web text w use_ws id auth_str head
      → handle_server_conn aes text conv cfg now id auth_str raw iv ≡ d
      → serve aes text conv letters names web cfg now raw iv conn
        ≡ answered letters web text conv head id d
  unfolding serve
  serve_lem cfg now raw id auth_str iv d conn head read r decides =
      let auth = get_field letters web text (codes "Authentication") head in
      ap (on_header aes text conv letters names web cfg now raw iv) read
      ∙ ap
          (λ t.
            answered letters web text conv head t
              (handle_server_conn aes text conv cfg now t auth raw iv))
          r.same_id
      ∙ ap
          (λ t.
            answered letters web text conv head id
              (handle_server_conn aes text conv cfg now id t raw iv))
          r.same_auth
      ∙ ap (answered letters web text conv head id) decides

module _ (aes : List ℕ → List ℕ → List ℕ) (text : Text) (conv : Strconv) (letters : Letters)
    (names : Names) (web : Web) (up down : List ℕ → List (List ℕ)) (cfg : Values)
    (a : Attempt) where
  -- The bytes of a client's request.
  abbrev pub request_bytes : Url → List ℕ → List ℕ → List ℕ
  request_bytes u pskb ws_key = write_to letters (
      connect_request letters web text (target web u).use_ws u a.client_id
        (auth_header aes text conv pskb (auth_bytes a.ts a.random) (ok a.iv)) ws_key)

  -- What the server at the other end does with the bytes that a client writes.
  abbrev pub served : List ℕ → Served
  served bytes = serve aes text conv letters names web cfg a.now a.raw (ok a.iv') (up bytes)

  abbrev pub to_server : Target → List ℕ → Result (List (List ℕ))
  to_server t bytes = ok (replies down (served bytes))

  -- A client that can connect: not closed, with the server's pre-shared key and a request
  -- that leaves 2 KB of the 16 KB.
  pub record IsMeeting (c : Client) (u : Url) (pskb ws_key : List ℕ) : Type 0 where
    pub still_open : c.closed ≡ false
    pub same_id : c.id ≡ a.client_id
    pub psk_server : text.decode (get cfg framer_psk) ≡ ok pskb
    pub psk_client : text.decode (get c.cfg framer_psk) ≡ ok pskb
    pub parsed : web.parse (get c.cfg server_url) ≡ ok u
    pub plain_host : lacks 13 u.host ≡ true
    pub key_bytes : All IsByte ws_key
    pub fits : length (request_bytes u pskb ws_key) + 1024 * 2 ≤ 1024 * 16

  -- A client with the server's pre-shared key and a clock within two minutes of the server's connects:
  -- however the connection cuts the request and the response into reads, the server finds the client's
  -- id and its `Authentication` in the request and serves it, and the client finds the token in the
  -- response. Both take the framer that the URL's scheme asks for, ws for the schemes ws and wss and f1 otherwise, and settings from which the
  -- framers derive one and the same key, which the cipher takes.
  pub connect-serve :
      (c : Client) (u : Url) (pskb ws_key : List ℕ)
      → IsBlockCipher aes
      → new_cipher aes pskb ≡ ok (aes pskb)
      → IsCoding text conv
      → IsWeb letters web text
      → IsAnswer conv names web text
      → IsCut up
      → IsCut down
      → IsAttempt a
      → IsMeeting c u pskb ws_key
      → a.ts ≤ a.now + 120
      → a.now ≤ a.ts + 120
      → (reply : List ℕ) × (server client : Values) × (key : List ℕ) × (served
            (request_bytes u pskb ws_key)
          ≡ serving reply (asks_ws web u) a.client_id server)
        × (connect aes text conv letters names web to_server c a.ts a.random (ok a.iv) ws_key ≡ (
          record c { connected = true },
          ok (record { use_ws = asks_ws web u; params = client }),
        ))
        × (framer_key text conv server ≡ ok key)
        × (framer_key text conv client ≡ ok key)
        × (new_cipher aes key ≡ ok (aes key))
  unfolding target
  connect-serve c u pskb ws_key cipher good coding w n cut_up cut_down h m early late =
      let use_ws = (target web u).use_ws in
      let (
        token, server, client, key, opens, taken, theirs, ours, takes, sent, offer, sealed,
        sent_bytes, offered, offer_bytes, size,
      ) =
        agree aes text conv cfg pskb c.cfg a cipher coding good m.psk_server h early late in
      let auth = auth_header aes text conv pskb (auth_bytes a.ts a.random) (ok a.iv) in
      let same : request_bytes u pskb ws_key
          ≡ write_to letters
              (connect_request letters web text use_ws u a.client_id (text.encode sent) ws_key) =
        ap (λ t. write_to letters (connect_request letters web text use_ws u a.client_id t ws_key))
          sealed in
      let (head, read, r) =
        request_read aes text conv letters names web coding w n use_ws u a.client_id sent ws_key
          (up (request_bytes u pskb ws_key)) m.plain_host sent_bytes m.key_bytes
          (cut_up.flat-cut (request_bytes u pskb ws_key) ∙ same)
          (cut_up.some_bytes (request_bytes u pskb ws_key))
          (omega (arith, ap length same, m.fits)) in
      let serves =
        serve_lem aes text conv letters names web coding w n cfg a.now a.raw a.client_id
          (text.encode sent) (ok a.iv') (opened token server) (up (request_bytes u pskb ws_key))
          head read r
          (ap (λ t. handle_server_conn aes text conv cfg a.now a.client_id t a.raw (ok a.iv'))
              (sym sealed)
            ∙ opens)
        ∙ ap
            (λ b.
              serving (reply aes text conv letters names web coding w n head token) b a.client_id
                server)
            r.same_ws in
      let bytes = reply aes text conv letters names web coding w n head token in
      let (rs, got, found) =
        response_read aes text conv letters names web coding w n head offer (down bytes) r
          offer_bytes size
          (cut_down.flat-cut bytes
            ∙ ap (reply aes text conv letters names web coding w n head) offered) in
      let made =
        session_lem aes text conv letters names web coding w n to_server c.cfg a.client_id a.random
          ws_key pskb token a.ts (ok a.iv) u (ok client) m.psk_client m.parsed
          (ap (λ x. ok (replies down x)) serves) got (found ∙ sym offered) taken in
      (
        bytes,
        server,
        client,
        key,
        serves,
        connect_lem aes text conv letters names web coding w n to_server c a.client_id a.random
            ws_key a.ts (ok a.iv) m.still_open m.same_id made,
        theirs,
        ours,
        takes,
      )
