-- ===== src/H1/Web/Fields.antt =====
-- What a server finds in the request of `Connect` in transport/h1/client.go.
use df.Prelude.{
  ℕ, suc, All-append, Bool-cases, inl, inr, leb, ltb, ◌&&◌, ◌≡◌, refl, sym, ap, ◌∙◌, arith, Bool,
  true, false, List, [], ◌∷◌, ◌++◌, length, All, lt→ltb, if◌then◌else◌,
}
use mathlib.Core.Path.{subst}
use df.Bytes.{IsByte}
use df.Io.{ok}
use df.SyncMap.{load, store}
use df.Conf.{codes, or_empty}
use df.Framer.{Text}
use df.Http.Whole.{lacks}
use df.Http.Header.{Uri, Letters, Header, with_uri_host}
use df.Http.Arrives.{IsField, IsRequest, set_values, fields, received}
use df.H1.Web.{Url, Web, connect_request, get_field, wants_ws}

-- What the libraries promise on the texts of the request.
pub record IsWeb (letters : Letters) (web : Web) (text : Text) : Type 0 where
  pub authentication : letters.canonical (codes "Authentication") ≡ codes "Authentication"
  pub content_type : letters.canonical (codes "Content-Type") ≡ codes "Content-Type"
  pub connection : letters.canonical (codes "Connection") ≡ codes "Connection"
  pub upgrade : letters.canonical (codes "Upgrade") ≡ codes "Upgrade"
  pub ws_key : letters.canonical (codes "Sec-WebSocket-Key") ≡ codes "Sec-Websocket-Key"
  pub ws_key_again : letters.canonical (codes "Sec-Websocket-Key") ≡ codes "Sec-Websocket-Key"
  pub ws_protocol :
      letters.canonical (codes "Sec-WebSocket-Protocol") ≡ codes "Sec-Websocket-Protocol"
  pub host : letters.canonical (codes "Host") ≡ codes "Host"
  pub is_host : letters.equal_fold (codes "Host") (codes "host") ≡ true
  pub not_authentication : letters.equal_fold (codes "Authentication") (codes "host") ≡ false
  pub not_content_type : letters.equal_fold (codes "Content-Type") (codes "host") ≡ false
  pub not_connection : letters.equal_fold (codes "Connection") (codes "host") ≡ false
  pub not_upgrade : letters.equal_fold (codes "Upgrade") (codes "host") ≡ false
  pub not_ws_key : letters.equal_fold (codes "Sec-Websocket-Key") (codes "host") ≡ false
  pub is_websocket : letters.equal_fold (codes "websocket") (codes "websocket") ≡ true
  pub not_websocket : letters.equal_fold [] (codes "websocket") ≡ false
  pub get : letters.to_upper (codes "GET") ≡ codes "GET"
  pub post : letters.to_upper (codes "POST") ≡ codes "POST"
  pub proto : letters.to_upper (codes "HTTP/1.1") ≡ codes "HTTP/1.1"
  pub plain : (x : List ℕ) → All IsByte x → lacks 13 (text.encode x) ≡ true
  pub no_space : (u : Url) (path id : List ℕ) → lacks 32 (web.with_query u path id) ≡ true
  pub no_return : (u : Url) (path id : List ℕ) → lacks 13 (web.with_query u path id) ≡ true
  pub parses :
      (u : Url) (path id : List ℕ)
      → (url : Uri) × (letters.parse_request_uri (web.with_query u path id) ≡ ok url)
        × (web.query_get url (codes "c") ≡ id)
  pub query_kept :
      (url : Uri) (x : List ℕ)
      → web.query_get (record url { host = x }) (codes "c") ≡ web.query_get url (codes "c")

abbrev sent_values : Bool → List ℕ → List ℕ → List (List ℕ × List ℕ)
sent_values false auth_str key =
    (codes "Content-Type", codes "image/png") ∷ (codes "Authentication", auth_str) ∷ []
sent_values true auth_str key =
    (codes "Connection", codes "upgrade")
    ∷ (codes "Upgrade", codes "websocket")
    ∷ (codes "Sec-Websocket-Key", key)
    ∷ (codes "Authentication", auth_str)
    ∷ []

abbrev host_fields : List ℕ → List (List ℕ × List ℕ)
host_fields [] = []
host_fields (x ∷ host) = (codes "Host", x ∷ host) ∷ []

-- The request, with its values written out.
abbrev sent : Bool → List ℕ → List ℕ → List ℕ → List ℕ → Header
sent use_ws uri host auth_str key = record {
  method = if use_ws then codes "GET" else codes "POST";
  proto = codes "HTTP/1.1";
  host = [];
  url = record { request_uri = uri; host = host };
  values = sent_values use_ws auth_str key;
}

module _ (letters : Letters) (web : Web) (text : Text) (w : IsWeb letters web text) where
  connect_request-sent :
      (use_ws : Bool) (u : Url) (id auth_str ws_key : List ℕ)
      → connect_request letters web text use_ws u id auth_str ws_key
        ≡ sent use_ws (web.with_query u (codes "/api/cv2") id) u.host auth_str (text.encode ws_key)
  unfolding connect_request store
  connect_request-sent false u id auth_str ws_key = rw (w.content_type, w.authentication) refl
  connect_request-sent true u id auth_str ws_key =
      rw (w.connection, w.upgrade, w.ws_key, w.authentication) refl

  fields-sent :
      (use_ws : Bool) (uri host auth_str key : List ℕ)
      → fields letters (sent use_ws uri host auth_str key)
        ≡ sent_values use_ws auth_str key ++ host_fields host
  fields-sent false uri [] auth_str key = rw (w.not_content_type, w.not_authentication) refl
  fields-sent false uri (x ∷ host) auth_str key =
      rw (w.not_content_type, w.not_authentication, lt→ltb 0 (suc (length host)) (omega arith)) refl
  fields-sent true uri [] auth_str key =
      rw (w.not_connection, w.not_upgrade, w.not_ws_key, w.not_authentication) refl
  fields-sent true uri (x ∷ host) auth_str key =
      rw
        (
          w.not_connection,
          w.not_upgrade,
          w.not_ws_key,
          w.not_authentication,
          lt→ltb 0 (suc (length host)) (omega arith),
        )
        refl

  host_fields-IsField : (host : List ℕ) → lacks 13 host ≡ true → All IsField (host_fields host)
  host_fields-IsField [] h = tt
  host_fields-IsField (x ∷ host) h = ((refl, refl, refl, h), tt)

  sent_values-IsField :
      (use_ws : Bool) (auth_str key : List ℕ)
      → lacks 13 auth_str ≡ true
      → lacks 13 key ≡ true
      → All IsField (sent_values use_ws auth_str key)
  sent_values-IsField false auth_str key h k =
      ((refl, refl, refl, refl), ((refl, refl, refl, h), tt))
  sent_values-IsField true auth_str key h k = (
    (refl, refl, refl, refl),
    ((refl, refl, refl, refl), ((refl, refl, refl, k), ((refl, refl, refl, h), tt))),
  )

  pub sent-IsRequest :
      (use_ws : Bool) (uri host auth_str key : List ℕ) (url : Uri)
      → lacks 32 uri ≡ true
      → lacks 13 uri ≡ true
      → lacks 13 host ≡ true
      → lacks 13 auth_str ≡ true
      → lacks 13 key ≡ true
      → letters.parse_request_uri uri ≡ ok url
      → IsRequest letters (sent use_ws uri host auth_str key) url
  sent-IsRequest false uri host auth_str key url a b c d e p = record {
    method_ok = rw w.post refl;
    method_plain = rw w.post refl;
    uri_ok = a;
    uri_plain = b;
    proto_plain = refl;
    fields_ok = subst (All IsField) (sym (fields-sent false uri host auth_str key)) (
        All-append IsField (sent_values false auth_str key) (host_fields host)
          (sent_values-IsField false auth_str key d e) (host_fields-IsField host c));
    parses = p;
  }
  sent-IsRequest true uri host auth_str key url a b c d e p = record {
    method_ok = rw w.get refl;
    method_plain = rw w.get refl;
    uri_ok = a;
    uri_plain = b;
    proto_plain = refl;
    fields_ok = subst (All IsField) (sym (fields-sent true uri host auth_str key)) (
        All-append IsField (sent_values true auth_str key) (host_fields host)
          (sent_values-IsField true auth_str key d e) (host_fields-IsField host c));
    parses = p;
  }

  with_uri_host-keeps :
      (h : Header)
      → ((with_uri_host letters h).proto ≡ h.proto)
        × ((with_uri_host letters h).values ≡ h.values)
        × (web.query_get (with_uri_host letters h).url (codes "c")
            ≡ web.query_get h.url (codes "c"))
  with_uri_host-keeps h = elim (Bool-cases (leb (length h.url.host) 0 && ltb 0 (length h.host))) [
    | inl empty ↦ rw empty (refl, refl, w.query_kept h.url h.host)
    | inr full ↦ rw full (refl, refl, refl)
  ]

  -- The values that the server has.
  abbrev got : Bool → List ℕ → List ℕ → List ℕ → List (List ℕ × List ℕ)
  got use_ws host auth_str key = sent_values use_ws auth_str key ++ host_fields host

  set_values-sent :
      (use_ws : Bool) (host auth_str key : List ℕ) (h : Header)
      → h.values ≡ []
      → ((set_values letters (got use_ws host auth_str key) h).values
          ≡ got use_ws host auth_str key)
        × ((set_values letters (got use_ws host auth_str key) h).url ≡ h.url)
        × ((set_values letters (got use_ws host auth_str key) h).proto ≡ h.proto)
  unfolding store
  set_values-sent false [] auth_str key h e =
      (rw (w.content_type, w.authentication) (rw e refl), refl, refl)
  set_values-sent false (x ∷ host) auth_str key h e =
      (rw (w.content_type, w.authentication, w.host) (rw e refl), refl, refl)
  set_values-sent true [] auth_str key h e =
      (rw (w.connection, w.upgrade, w.ws_key_again, w.authentication) (rw e refl), refl, refl)
  set_values-sent true (x ∷ host) auth_str key h e = (
    rw (w.connection, w.upgrade, w.ws_key_again, w.authentication, w.host) (rw e refl),
    refl,
    refl,
  )

  get_got :
      (use_ws : Bool) (host auth_str key : List ℕ)
      → (or_empty (load (codes "Authentication") (got use_ws host auth_str key)) ≡ auth_str)
        × (or_empty (load (codes "Upgrade") (got use_ws host auth_str key))
            ≡ (if use_ws then codes "websocket" else []))
        × (or_empty (load (codes "Sec-Websocket-Protocol") (got use_ws host auth_str key)) ≡ [])
  unfolding load
  get_got false [] auth_str key = (refl, refl, refl)
  get_got false (x ∷ host) auth_str key = (refl, refl, refl)
  get_got true [] auth_str key = (refl, refl, refl)
  get_got true (x ∷ host) auth_str key = (refl, refl, refl)

  -- What the server reads in the header of a request.
  pub record Reads (use_ws : Bool) (id auth_str : List ℕ) (h : Header) : Type 0 where
    pub same_proto : h.proto ≡ codes "HTTP/1.1"
    pub same_id : web.query_get h.url (codes "c") ≡ id
    pub same_auth : get_field letters web text (codes "Authentication") h ≡ auth_str
    pub same_ws : wants_ws letters web text h ≡ use_ws
    pub no_protocol : get_field letters web text (codes "Sec-WebSocket-Protocol") h ≡ []

  wanted :
      (use_ws : Bool)
      → letters.equal_fold (if use_ws then codes "websocket" else []) (codes "websocket") ≡ use_ws
  wanted true = w.is_websocket
  wanted false = w.not_websocket

  received-Reads :
      (use_ws : Bool) (uri host auth_str key id : List ℕ) (url : Uri)
      → web.query_get url (codes "c") ≡ id
      → Reads use_ws id auth_str (received letters (sent use_ws uri host auth_str key) url)
  received-Reads use_ws uri host auth_str key id url found =
      let vs = got use_ws host auth_str key in
      let start : Header = record {
        method = letters.to_upper (letters.to_upper (sent use_ws uri host auth_str key).method);
        proto = letters.to_upper (codes "HTTP/1.1");
        host = [];
        url = url;
        values = [];
      } in
      let mid = set_values letters vs start in
      let (values, same_url, proto) = set_values-sent use_ws host auth_str key start refl in
      let (proto', values', query) = with_uri_host-keeps mid in
      let (auth, up, none_sent) = get_got use_ws host auth_str key in
      let same : (with_uri_host letters mid).values ≡ vs = values' ∙ values in
      subst (λ t. Reads use_ws id auth_str (with_uri_host letters (set_values letters t start)))
        (sym (fields-sent use_ws uri host auth_str key))
        (record {
          same_proto = proto' ∙ proto ∙ w.proto;
          same_id = query ∙ ap (λ v. web.query_get v (codes "c")) same_url ∙ found;
          same_auth =
              ap (λ n. or_empty (load n (with_uri_host letters mid).values)) w.authentication
              ∙ ap (λ t. or_empty (load (codes "Authentication") t)) same
              ∙ auth;
          same_ws =
              ap
                (λ n.
                  letters.equal_fold (or_empty (load n (with_uri_host letters mid).values))
                    (codes "websocket"))
                w.upgrade
              ∙ ap
                  (λ t.
                    letters.equal_fold (or_empty (load (codes "Upgrade") t)) (codes "websocket"))
                  same
              ∙ ap (λ t. letters.equal_fold t (codes "websocket")) up
              ∙ wanted use_ws;
          no_protocol =
              ap (λ n. or_empty (load n (with_uri_host letters mid).values)) w.ws_protocol
              ∙ ap (λ t. or_empty (load (codes "Sec-Websocket-Protocol") t)) same
              ∙ none_sent;
        })

  -- The header of `Connect`, as the server reads it.
  pub connect_request-Reads :
      (use_ws : Bool) (u : Url) (id auth_str key : List ℕ) (url : Uri)
      → web.query_get url (codes "c") ≡ id
      → Reads use_ws id auth_str
          (received letters (connect_request letters web text use_ws u id auth_str key) url)
  connect_request-Reads use_ws u id auth_str key url found =
      subst (λ t. Reads use_ws id auth_str (received letters t url))
        (sym (connect_request-sent use_ws u id auth_str key))
        (received-Reads use_ws (web.with_query u (codes "/api/cv2") id) u.host auth_str
          (text.encode key) id url found)

  pub connect_request-IsRequest :
      (use_ws : Bool) (u : Url) (id auth_str key : List ℕ) (url : Uri)
      → lacks 13 u.host ≡ true
      → lacks 13 auth_str ≡ true
      → All IsByte key
      → letters.parse_request_uri (web.with_query u (codes "/api/cv2") id) ≡ ok url
      → IsRequest letters (connect_request letters web text use_ws u id auth_str key) url
  connect_request-IsRequest use_ws u id auth_str key url plain_host plain_auth bytes parsed =
      let uri = web.with_query u (codes "/api/cv2") id in
      subst (λ t. IsRequest letters t url) (sym (connect_request-sent use_ws u id auth_str key))
        (sent-IsRequest use_ws uri u.host auth_str (text.encode key) url
          (w.no_space u (codes "/api/cv2") id) (w.no_return u (codes "/api/cv2") id) plain_host
          plain_auth (w.plain key bytes) parsed)
