-- ===== src/Http/Arrives.antt =====
-- What `parseHeader` makes of the lines that `WriteTo` writes.
use df.Prelude.{
  ℕ, suc, ◌+◌, ◌*◌, ◌≤◌, ◌<◌, ◌≡◌, ◌==◌, ◌&&◌, not, Bool, true, false, refl, sym, ap, ◌∙◌, arith,
  List, [], ◌∷◌, ◌++◌, length, flat, All, append-nil, append_assoc, length-append, ltb, some,
  if◌then◌else◌,
}
use df.Io.{ok}
use df.SyncMap.{store}
use df.Conf.{codes}
use df.Http.{split_at}
use df.Http.Whole.{lacks, with_crlf, split_at-found, IsLine}
use df.Http.Header.{
  Uri, Letters, Header, cut_blank, value_line, kept, trim_right, first_part, host_set, value_lines,
  host_lines, request_line, write_to, with_value, parse_values, with_uri_host, parse_header,
  peek_header,
}
use df.Http.Blank.{join, with_crlf-join, split_lines-join, cut_blank-join}
use df.Http.Request.{peek_header-found}

lacks-append :
    (sep : ℕ) (x y : List ℕ) → lacks sep x ≡ true → lacks sep y ≡ true → lacks sep (x ++ y) ≡ true
lacks-append sep [] y h k = k
lacks-append sep (a ∷ x) y h k = ground (arith, h, k, lacks-append sep x y)

kept-plain :
    (x : ℕ) (xs : List ℕ) (b b' : Bool)
    → not (x == 58) && b ≡ true
    → not (x == 32) && b' ≡ true
    → (kept x xs ≡ x ∷ xs) × (b ≡ true) × (b' ≡ true)
kept-plain x [] b b' h k = ground (arith, h, k)
kept-plain x (y ∷ ys) b b' h k = ground (arith, h, k)

trim_right-name :
    (name : List ℕ)
    → lacks 58 name ≡ true
    → lacks 32 name ≡ true
    → trim_right (name ++ 58 ∷ []) ≡ name
unfolding trim_right
trim_right-name [] h k = refl
trim_right-name (x ∷ name) h k =
    let (keeps, h', k') = kept-plain x name (lacks 58 name) (lacks 32 name) h k in
    ap (kept x) (trim_right-name name h' k') ∙ keeps

-- A name that can stand in front of a colon, and a value on one line.
abbrev pub IsField : List ℕ × List ℕ → Type 0
IsField (name, value) =
    (lacks 58 name ≡ true)
    × (lacks 32 name ≡ true)
    × (lacks 13 name ≡ true)
    × (lacks 13 value ≡ true)

value_line-IsLine : (v : List ℕ × List ℕ) → IsField v → IsLine (value_line v)
value_line-IsLine (name, value) (a, b, c, d) = (
  omega (arith, length-append name (58 ∷ 32 ∷ value)),
  lacks-append 13 name (58 ∷ 32 ∷ value) c d,
)

module _ (letters : Letters) where
  -- One `Set` after the other; the value of a header named host is the header's host, too.
  abbrev pub set_one : List ℕ → List ℕ → Header → Header
  set_one name value h = record h {
    host = if letters.equal_fold name (codes "host") then value else h.host;
    values = store (letters.canonical name) value h.values;
  }

  abbrev pub set_values : List (List ℕ × List ℕ) → Header → Header
  set_values [] h = h
  set_values ((name, value) ∷ vs) h = set_values vs (set_one name value h)

  parse_values-fields :
      (vs : List (List ℕ × List ℕ)) (more : List (List ℕ)) (h : Header)
      → All IsField vs
      → parse_values letters (value_lines letters vs ++ more) h
        ≡ parse_values letters more (set_values vs h)
  unfolding parse_values
  parse_values-fields [] more h hs = refl
  parse_values-fields ((name, value) ∷ vs) more h ((a, b, c, d), hs) =
      let cut : split_at 32 (name ++ (58 ∷ 32 ∷ value)) ≡ some (name ++ 58 ∷ [], value) =
        ap (split_at 32) (sym (append_assoc name (58 ∷ []) (32 ∷ value)))
        ∙ split_at-found 32 (name ++ 58 ∷ []) value (lacks-append 32 name (58 ∷ []) b refl) in
      let rest = value_lines letters vs ++ more in
      ap (λ o. parse_values letters rest (with_value letters o h)) cut
      ∙ ap (λ n. parse_values letters rest (set_one n value h)) (trim_right-name name a b)
      ∙ parse_values-fields vs more (set_one name value h) hs

  value_lines-IsLine :
      (vs : List (List ℕ × List ℕ)) → All IsField vs → All IsLine (value_lines letters vs)
  value_lines-IsLine [] hs = tt
  value_lines-IsLine (v ∷ vs) (h, hs) = (value_line-IsLine v h, value_lines-IsLine vs hs)

  -- The fields that `WriteTo` writes.
  abbrev pub fields : Header → List (List ℕ × List ℕ)
  fields h =
      h.values
      ++ (if not (host_set letters h.values) && ltb 0 (length h.url.host)
          then (codes "Host", h.url.host) ∷ []
          else [])

  value_lines-append :
      (xs ys : List (List ℕ × List ℕ))
      → value_lines letters (xs ++ ys) ≡ value_lines letters xs ++ value_lines letters ys
  value_lines-append [] ys = refl
  value_lines-append (x ∷ xs) ys = ap (λ t. value_line x ∷ t) (value_lines-append xs ys)

  lines_if :
      (b : Bool) (v : List ℕ × List ℕ)
      → value_lines letters (if b then v ∷ [] else []) ≡ (if b then value_line v ∷ [] else [])
  lines_if true v = refl
  lines_if false v = refl

  fields-lines :
      (h : Header)
      → value_lines letters h.values ++ host_lines letters h ≡ value_lines letters (fields h)
  fields-lines h =
      let written = not (host_set letters h.values) && ltb 0 (length h.url.host) in
      let last = codes "Host" in
      ap (λ t. value_lines letters h.values ++ t) (sym (lines_if written (last, h.url.host)))
      ∙ sym (value_lines-append h.values (if written then (last, h.url.host) ∷ [] else []))

  pub record IsRequest (h : Header) (url : Uri) : Type 0 where
    pub method_ok : lacks 32 (letters.to_upper h.method) ≡ true
    pub method_plain : lacks 13 (letters.to_upper h.method) ≡ true
    pub uri_ok : lacks 32 h.url.request_uri ≡ true
    pub uri_plain : lacks 13 h.url.request_uri ≡ true
    pub proto_plain : lacks 13 h.proto ≡ true
    pub fields_ok : All IsField (fields h)
    pub parses : letters.parse_request_uri h.url.request_uri ≡ ok url

  request_line-plain :
      (h : Header) (url : Uri) → IsRequest h url → lacks 13 (request_line letters h) ≡ true
  request_line-plain h url r =
      lacks-append 13 (letters.to_upper h.method) (32 ∷ (h.url.request_uri ++ (32 ∷ h.proto)))
        r.method_plain (lacks-append 13 h.url.request_uri (32 ∷ h.proto) r.uri_plain r.proto_plain)

  request_line-parts :
      (h : Header) (url : Uri)
      → IsRequest h url
      → first_part (split_at 32 (request_line letters h))
        ≡ ok (letters.to_upper h.method, h.url.request_uri, h.proto)
  request_line-parts h url r =
      rw
        (split_at-found 32 (letters.to_upper h.method) (h.url.request_uri ++ (32 ∷ h.proto))
          r.method_ok)
        (rw (split_at-found 32 h.url.request_uri h.proto r.uri_ok) refl)

  write_to-join :
      (h : Header)
      → write_to letters h
        ≡ join (request_line letters h) (value_lines letters (fields h)) ++ (13 ∷ 10 ∷ 13 ∷ 10 ∷ [])
  unfolding write_to
  write_to-join h =
      let line = request_line letters h in
      ap (λ t. with_crlf (line ∷ t))
        (sym (append_assoc (value_lines letters h.values) (host_lines letters h) ([] ∷ []))
          ∙ ap (λ t. t ++ [] ∷ []) (fields-lines h))
      ∙ with_crlf-join line (value_lines letters (fields h))

  -- What the server makes of a header: its fields, set one after the other.
  abbrev pub received : Header → Uri → Header
  received h url = with_uri_host letters (
      set_values (fields h) (record {
        method = letters.to_upper (letters.to_upper h.method);
        proto = letters.to_upper h.proto;
        host = [];
        url = url;
        values = [];
      }))

  parse_header-join :
      (h : Header) (url : Uri)
      → IsRequest h url
      → parse_header letters (join (request_line letters h) (value_lines letters (fields h)))
        ≡ ok (received h url)
  unfolding parse_header parse_values
  parse_header-join h url r =
      let line = request_line letters h in
      let lines = value_lines letters (fields h) in
      let start : Header = record {
        method = letters.to_upper (letters.to_upper h.method);
        proto = letters.to_upper h.proto;
        host = [];
        url = url;
        values = [];
      } in
      rw
        (split_lines-join line lines (suc (length (join line lines))) (request_line-plain h url r)
          (value_lines-IsLine (fields h) r.fields_ok) (omega arith))
        (rw (request_line-parts h url r) (
          rw r.parses (
            ap (λ x. ok (with_uri_host letters x))
              (ap (λ t. parse_values letters t start) (sym (append-nil lines))
                ∙ parse_values-fields (fields h) [] start r.fields_ok))))

  -- The server reads the header of a request as the client writes it: the method and the protocol in
  -- capitals, and each field set in order, the URL's host last where the fields have none. The bytes may
  -- come in any non-empty reads, and others may follow, as far as all of it leaves 2 KB of the 16 KB. The
  -- parts of the first line have no space, no text has a carriage return, and names have no colon.
  pub request_arrives :
      (h : Header) (url : Uri) (extra : List ℕ) (conn : List (List ℕ))
      → IsRequest h url
      → flat conn ≡ write_to letters h ++ extra
      → All (λ chunk. 0 < length chunk) conn
      → length (flat conn) + 1024 * 2 ≤ 1024 * 16
      → peek_header letters conn [] (1024 * 4) ≡ ok (received h url)
  request_arrives h url extra conn r e some_bytes fits =
      let line = request_line letters h in
      let lines = value_lines letters (fields h) in
      let end : List ℕ = 13 ∷ 10 ∷ 13 ∷ 10 ∷ [] in
      let whole : flat conn ≡ join line lines ++ (13 ∷ 10 ∷ 13 ∷ 10 ∷ extra) =
        e ∙ ap (λ t. t ++ extra) (write_to-join h) ∙ append_assoc (join line lines) end extra in
      peek_header-found letters conn [] (join line lines) extra 0
        (ap cut_blank whole
          ∙ cut_blank-join line lines extra (request_line-plain h url r)
              (value_lines-IsLine (fields h) r.fields_ok))
        some_bytes (omega (arith, fits)) (omega arith)
      ∙ parse_header-join h url r
