-- ===== src/H1/Web.antt =====
-- transport/h1: the request by which a client connects, from its settings to the bytes, and what the
-- server makes of the bytes it reads. The packages `net/url`, `strings`, `net/textproto` and
-- `crypto/sha1` are parameters. A map of headers is in the order in which it was filled.
pub mod Fields
pub mod Meet
pub mod Refuse
mod Tests
use df.Prelude.{
  ℕ, ◌*◌, ◌&&◌, ◌||◌, Bool, true, false, List, [], ◌∷◌, ◌++◌, length, ltb, leb, bytes_eq,
  if◌then◌else◌,
}
use df.Io.{Result, ok, err, panic, and_then, closed_already}
use df.SyncMap.{load, store}
use df.Conf.{Values, Strconv, get, framer_psk, server_url, or_empty, codes}
use df.Framer.{Text}
use df.Http.{Names, Response, get_header, read_response}
use df.Http.Header.{Uri, Letters, Header, write_to, peek_header}
use df.Http.Whole.{with_crlf}
use df.H1.{
  Decision, denied, crashed, opened, handle_server_conn, auth_bytes, auth_header, finish_connect,
}
use df.H1.Reply.{response_bytes}
use df.H1.Client.{Client}

-- A URL of `url.Parse`: its scheme, `Hostname` and `Port`, and the field Host that holds both.
pub record Url : Type 0 where
  pub scheme : List ℕ
  pub hostname : List ℕ
  pub port : List ℕ
  pub host : List ℕ

-- `with_query u path id` is what `RequestURI` gives once the path is set, and the query to `c=id`;
-- `query_get` is `Query().Get`.
pub record Web : Type 0 where
  pub parse : List ℕ → Result Url
  pub to_lower : List ℕ → List ℕ
  pub with_query : Url → List ℕ → List ℕ → List ℕ
  pub query_get : Uri → List ℕ → List ℕ
  pub sha1 : List ℕ → List ℕ

-- Where the client dials, and how.
pub record Target : Type 0 where
  pub addr : List ℕ
  pub use_tls : Bool
  pub use_ws : Bool

abbrev pub is_any : List ℕ → List ℕ → List ℕ → Bool
is_any x a b = bytes_eq x a || bytes_eq x b

unfoldable pub port_of : List ℕ → List ℕ → List ℕ
port_of scheme port =
    if leb (length port) 0
    then (if is_any scheme (codes "http") (codes "ws")
        then codes "80"
        else (if is_any scheme (codes "https") (codes "wss") then codes "443" else port))
    else port

unfoldable pub target : Web → Url → Target
unfolding port_of
target web u = record {
  addr = u.hostname ++ (58 ∷ port_of (web.to_lower u.scheme) u.port);
  use_tls = is_any (web.to_lower u.scheme) (codes "https") (codes "wss");
  use_ws = is_any (web.to_lower u.scheme) (codes "ws") (codes "wss");
}

abbrev pub ws_guid : List ℕ
ws_guid = codes "258EAFA5-E914-47DA-95CA-C5AB0DC85B11"

-- What a server does with a connection: it closes it without a word, refuses it with these bytes, ends
-- by a panic, or answers with these bytes and serves the client of this id, over the framer ws or f1.
pub data Served : Type 0 where
  dropped died : Served
  refused : List ℕ → Served
  serving : List ℕ → Bool → List ℕ → Values → Served

-- `abort`: the bytes.
unfoldable pub abort_bytes : Strconv → List ℕ → List ℕ → List ℕ
unfolding with_crlf
abort_bytes conv proto reason =
    with_crlf (
      (proto ++ codes " 403 DENIED")
      ∷ codes "Connection: close"
      ∷ codes "Content-Type: text/plain"
      ∷ (codes "Content-Length: " ++ conv.format_int (length reason))
      ∷ []
      ∷ [])
    ++ reason

-- What a client has, once it is connected.
pub record Session : Type 0 where
  pub use_ws : Bool
  pub params : Values

module _ (letters : Letters) (web : Web) (text : Text) where
  -- `Values.Set` of an http.Header, and `Values.Get`.
  abbrev pub set_field : List ℕ → List ℕ → List (List ℕ × List ℕ) → List (List ℕ × List ℕ)
  set_field name value vs = store (letters.canonical name) value vs

  abbrev pub get_field : List ℕ → Header → List ℕ
  get_field name h = or_empty (load (letters.canonical name) h.values)

  -- The client's header. `ws_key` is the four random bytes of a WebSocket's handshake.
  unfoldable pub connect_request : Bool → Url → List ℕ → List ℕ → List ℕ → Header
  connect_request use_ws u id auth_str ws_key = record {
    method = if use_ws then codes "GET" else codes "POST";
    proto = codes "HTTP/1.1";
    host = [];
    url = record { request_uri = web.with_query u (codes "/api/cv2") id; host = u.host };
    values = set_field (codes "Authentication") auth_str (
        if use_ws
        then set_field (codes "Sec-WebSocket-Key") (text.encode ws_key) (
            set_field (codes "Upgrade") (codes "websocket")
              (set_field (codes "Connection") (codes "upgrade") []))
        else set_field (codes "Content-Type") (codes "image/png") []);
  }

  abbrev pub wants_ws : Header → Bool
  wants_ws h = letters.equal_fold (get_field (codes "Upgrade") h) (codes "websocket")

  abbrev pub ws_accept : Header → List ℕ
  ws_accept h =
      let ws_key = get_field (codes "Sec-WebSocket-Key") h in
      if wants_ws h && ltb 0 (length ws_key) then text.encode (web.sha1 (ws_key ++ ws_guid)) else []

  -- What the server writes, by what it decides on the request with this header.
  abbrev pub answered : Strconv → Header → List ℕ → Decision → Served
  answered conv h id denied = refused (abort_bytes conv h.proto (codes "denied"))
  answered conv h id crashed = died
  answered conv h id (opened token params) =
      serving
        (response_bytes (wants_ws h) h.proto (ws_accept h)
          (get_field (codes "Sec-WebSocket-Protocol") h) token)
        (wants_ws h) id params

module _ (aes : List ℕ → List ℕ → List ℕ) (text : Text) (conv : Strconv) (letters : Letters)
    (names : Names) (web : Web) where
  abbrev pub on_header : Values → ℕ → List ℕ → Result (List ℕ) → Result Header → Served
  on_header cfg now raw iv (err e) = dropped
  on_header cfg now raw iv panic = died
  on_header cfg now raw iv (ok h) =
      let id = web.query_get h.url (codes "c") in
      answered letters web text conv h id (
        handle_server_conn aes text conv cfg now id
          (get_field letters web text (codes "Authentication") h) raw iv)

  -- `handleServerConn` on the reads of a connection, up to the handler, which gets a framer of the
  -- settings. The writes succeed.
  unfoldable pub serve : Values → ℕ → List ℕ → Result (List ℕ) → List (List ℕ) → Served
  serve cfg now raw iv conn = on_header cfg now raw iv (peek_header letters conn [] (1024 * 4))

  -- `Connect` of a client that is not closed, for the settings and the id of the client. `network` is
  -- what dialling a target and writing these bytes there comes to: the reads that follow.
  unfoldable pub session :
      (Target → List ℕ → Result (List (List ℕ)))
      → Values
      → List ℕ
      → ℕ
      → List ℕ
      → Result (List ℕ)
      → List ℕ
      → Result Session
  session network cfg id ts random iv ws_key = and_then (text.decode (get cfg framer_psk)) λ pskb.
      and_then (web.parse (get cfg server_url)) λ u.
        let auth = auth_bytes ts random in
        let t = target web u in
        let h =
          connect_request letters web text t.use_ws u id (auth_header aes text conv pskb auth iv)
            ws_key in
        and_then (network t (write_to letters h)) λ reads.
          and_then (read_response conv names reads).0 λ rs.
            and_then
              (finish_connect aes text conv cfg pskb auth ts
                (get_header names (codes "X-Token") rs))
              λ params. ok (record { use_ws = t.use_ws; params = params })

  abbrev pub marked : Client → Result Session → Client × Result Session
  marked c (ok s) = (record c { connected = true }, ok s)
  marked c (err e) = (c, err e)
  marked c panic = (c, panic)

  unfoldable pub connect :
      (Target → List ℕ → Result (List (List ℕ)))
      → Client
      → ℕ
      → List ℕ
      → Result (List ℕ)
      → List ℕ
      → Client × Result Session
  unfolding session
  connect network c ts random iv ws_key =
      if c.closed
      then (c, err closed_already)
      else marked c (session network c.cfg c.id ts random iv ws_key)

-- A server at the other end: the reads of the client, where `cut` is how the connection cuts what is
-- written.
abbrev pub replies : (List ℕ → List (List ℕ)) → Served → List (List ℕ)
replies cut dropped = []
replies cut died = []
replies cut (refused bytes) = cut bytes
replies cut (serving bytes use_ws id params) = cut bytes
