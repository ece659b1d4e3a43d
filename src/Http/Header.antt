-- ===== src/Http/Header.antt =====
-- http/header.go and http/http.go: the header of a request. A header has one value by name, as `Set` leaves
-- it, and a map's order is that of the list. A URL is given by its request URI and its host;
-- `net/url` and the functions of `strings` on letters are parameters.
use df.Prelude.{
  ℕ, zero, suc, ◌+◌, ◌-◌, ◌*◌, ◌==◌, ◌&&◌, ◌||◌, not, Bool, false, List, [], ◌∷◌, ◌++◌, length, leb,
  ltb, Option, none, some, if◌then◌else◌,
}
use df.Io.{Result, ok, err, panic, and_then, eof, short_buffer, illegal_header}
use df.SyncMap.{store}
use df.Conf.{codes}
use df.Http.{before, split_at, cut_line}
use df.Http.Whole.{with_crlf}

pub record Uri : Type 0 where
  pub request_uri : List ℕ
  pub host : List ℕ

pub record Letters : Type 0 where
  pub to_upper : List ℕ → List ℕ
  pub equal_fold : List ℕ → List ℕ → Bool
  pub canonical : List ℕ → List ℕ
  pub parse_request_uri : List ℕ → Result Uri

pub record Header : Type 0 where
  pub method : List ℕ
  pub proto : List ℕ
  pub host : List ℕ
  pub url : Uri
  pub values : List (List ℕ × List ℕ)

abbrev pub value_line : List ℕ × List ℕ → List ℕ
value_line (name, value) = name ++ (58 ∷ 32 ∷ value)

-- The bytes of `strings.TrimRight(_, ": ")`.
abbrev pub kept : ℕ → List ℕ → List ℕ
kept x [] = if x == 58 || x == 32 then [] else x ∷ []
kept x (y ∷ ys) = x ∷ y ∷ ys

unfoldable pub trim_right : List ℕ → List ℕ
trim_right [] = []
trim_right (x ∷ xs) = kept x (trim_right xs)

-- `bytes.Split(dat, "\r\n")`, by the rounds left.
abbrev pub split_rest : Option (List ℕ × List ℕ) → List ℕ → (List ℕ → List (List ℕ)) → List (List ℕ)
split_rest none dat k = dat ∷ []
split_rest (some (line, rest)) dat k = line ∷ k rest

unfoldable pub split_lines : ℕ → List ℕ → List (List ℕ)
unfolding cut_line
split_lines zero dat = dat ∷ []
split_lines (suc fuel) dat = split_rest (cut_line dat) dat (split_lines fuel)

-- The three parts of the first line.
abbrev pub second_part : List ℕ → Option (List ℕ × List ℕ) → Result (List ℕ × List ℕ × List ℕ)
second_part method none = err illegal_header
second_part method (some (uri, proto)) = ok (method, uri, proto)

abbrev pub first_part : Option (List ℕ × List ℕ) → Result (List ℕ × List ℕ × List ℕ)
first_part none = err illegal_header
first_part (some (method, rest)) = second_part method (split_at 32 rest)

-- Where the first "\r\n\r\n" is: the bytes before it, and those behind.
unfoldable pub cut_blank : List ℕ → Option (List ℕ × List ℕ)
cut_blank [] = none
cut_blank (a ∷ []) = none
cut_blank (a ∷ b ∷ []) = none
cut_blank (a ∷ b ∷ c ∷ []) = none
cut_blank (a ∷ b ∷ c ∷ d ∷ s) =
    let rest = cut_blank (b ∷ c ∷ d ∷ s) in
    if a == 13 && b == 10 && c == 13 && d == 10 then some ([], s) else before a rest

-- The loop of `readMore` that makes room for 2 KB: the buffer's size, by the rounds left.
unfoldable pub room : ℕ → ℕ → ℕ → Option ℕ
room zero size end = none
room (suc fuel) size end =
    let more = room fuel (size + 1024 * 2) end in
    if ltb (size - end) (1024 * 2)
    then if ltb (1024 * 16) (size + 1024 * 2) then none else more
    else some size

module _ (letters : Letters) where
  abbrev pub host_set : List (List ℕ × List ℕ) → Bool
  host_set [] = false
  host_set ((name, value) ∷ vs) = letters.equal_fold name (codes "host") || host_set vs

  abbrev pub value_lines : List (List ℕ × List ℕ) → List (List ℕ)
  value_lines [] = []
  value_lines (v ∷ vs) = value_line v ∷ value_lines vs

  abbrev pub host_lines : Header → List (List ℕ)
  host_lines h =
      if not (host_set h.values) && ltb 0 (length h.url.host)
      then value_line (codes "Host", h.url.host) ∷ []
      else []

  abbrev pub request_line : Header → List ℕ
  request_line h = letters.to_upper h.method ++ (32 ∷ (h.url.request_uri ++ (32 ∷ h.proto)))

  -- `WriteTo` a buffer: its bytes.
  unfoldable pub write_to : Header → List ℕ
  unfolding with_crlf
  write_to h = with_crlf (request_line h ∷ (value_lines h.values ++ (host_lines h ++ [] ∷ [])))

  abbrev pub with_value : Option (List ℕ × List ℕ) → Header → Header
  with_value none h = h
  with_value (some (part, value)) h =
      let name = trim_right part in
      record h {
        host = if letters.equal_fold name (codes "host") then value else h.host;
        values = store (letters.canonical name) value h.values;
      }

  -- The loop of `parseHeader`.
  unfoldable pub parse_values : List (List ℕ) → Header → Header
  unfolding split_at trim_right
  parse_values [] h = h
  parse_values (line ∷ lines) h = parse_values lines (with_value (split_at 32 line) h)

  abbrev pub with_uri_host : Header → Header
  with_uri_host h =
      if leb (length h.url.host) 0 && ltb 0 (length h.host)
      then record h { url = record h.url { host = h.host } }
      else h

  abbrev pub parsed : List (List ℕ) → Result (List ℕ × List ℕ × List ℕ) → Result Header
  parsed lines (err e) = err e
  parsed lines panic = panic
  parsed lines (ok (method, uri, proto)) = and_then (letters.parse_request_uri uri) λ url. ok (
      with_uri_host (
        parse_values lines (record {
          method = letters.to_upper method;
          proto = letters.to_upper proto;
          host = [];
          url = url;
          values = [];
        })))

  abbrev pub parse_lines : List (List ℕ) → Result Header
  parse_lines [] = err illegal_header
  parse_lines (line ∷ lines) = parsed lines (first_part (split_at 32 line))

  unfoldable pub parse_header : List ℕ → Result Header
  unfolding split_lines parse_values
  parse_header dat = parse_lines (split_lines (suc (length dat)) dat)

  abbrev pub found_or : Option (List ℕ × List ℕ) → Option ℕ → (ℕ → Result Header) → Result Header
  found_or (some (front, rest)) size k = parse_header front
  found_or none none k = err short_buffer
  found_or none (some size) k = k size

  -- `PeekHeader`, for the bytes that the reader has and the size of its buffer.
  unfoldable pub peek_header : List (List ℕ) → List ℕ → ℕ → Result Header
  unfolding parse_header cut_blank room
  peek_header [] buff size = found_or (cut_blank buff) (room 8 size (length buff)) λ size'. err eof
  peek_header (chunk ∷ conn) buff size =
      found_or (cut_blank buff) (room 8 size (length buff))
        λ size'. if leb (length chunk) 0 then err eof else peek_header conn (buff ++ chunk) size'
