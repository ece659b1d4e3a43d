-- ===== src/Http.antt =====
-- http/response.go: the header of an HTTP response, read from a connection. The connection is the list
-- of what its `Read` gives, up to the end; a `Read` gives at most 1024 bytes. `strings.TrimSpace` and the
-- canonical form of a header's name are parameters, as `strconv` is.
pub mod Partial
pub mod Chunks
pub mod Whole
pub mod Header
pub mod Blank
pub mod Request
pub mod Arrives
mod Tests
use df.Prelude.{
  ℕ, zero, suc, ◌+◌, ◌*◌, ◌==◌, ◌&&◌, Bool, List, [], ◌∷◌, ◌++◌, length, ltb, leb, Option, none,
  some, if◌then◌else◌,
}
use df.Io.{Result, ok, err, panic, and_then, Error, eof, short_buffer, illegal_header}
use df.SyncMap.{load, store}
use df.Conf.{Strconv, or_empty}

pub record Names : Type 0 where
  pub trim_space : List ℕ → List ℕ
  pub canonical : List ℕ → List ℕ

pub record Response : Type 0 where
  pub status_code : ℕ
  pub header : List (List ℕ × List ℕ)

-- `Header.Set` and `Header.Get` of net/http.
abbrev pub set_header : Names → List ℕ → List ℕ → Response → Response
set_header names k v rs = record rs { header = store (names.canonical k) v rs.header }

abbrev pub get_header : Names → List ℕ → Response → List ℕ
get_header names k rs = or_empty (load (names.canonical k) rs.header)

abbrev pub before : {A : Type 0} → ℕ → Option (List ℕ × A) → Option (List ℕ × A)
before x none = none
before x (some (front, rest)) = some (x ∷ front, rest)

-- The bytes before the first `sep`, and those behind it.
unfoldable pub split_at : ℕ → List ℕ → Option (List ℕ × List ℕ)
split_at sep [] = none
split_at sep (x ∷ s) = let rest = split_at sep s in if x == sep then some ([], s) else before x rest

-- The same for the first "\r\n".
unfoldable pub cut_line : List ℕ → Option (List ℕ × List ℕ)
cut_line [] = none
cut_line (x ∷ []) = none
cut_line (x ∷ y ∷ s) =
    let rest = cut_line (y ∷ s) in if x == 13 && y == 10 then some ([], s) else before x rest

-- The code of `SplitN(line, " ", 3)`, where there are three parts.
abbrev pub third : Option (List ℕ × List ℕ) → Result (List ℕ)
third none = err illegal_header
third (some (code, text)) = ok code

abbrev pub second : Option (List ℕ × List ℕ) → Result (List ℕ)
second none = err illegal_header
second (some (proto, rest)) = third (split_at 32 rest)

unfoldable pub parse_response_line : Strconv → List ℕ → Result ℕ
unfolding split_at
parse_response_line conv line = and_then (second (split_at 32 line)) λ code. conv.atoi code

abbrev pub trimmed : Names → Option (List ℕ × List ℕ) → Result (List ℕ × List ℕ)
trimmed names none = err illegal_header
trimmed names (some (name, value)) = ok (names.trim_space name, names.trim_space value)

unfoldable pub parse_header_line : Names → List ℕ → Result (List ℕ × List ℕ)
unfolding split_at
parse_header_line names line = trimmed names (split_at 58 line)

-- What the loop over the lines of the buffer comes to: more bytes are needed behind those left, or the
-- empty line has been found, with these bytes behind it.
pub data Lines : Type 0 where
  need_more : List ℕ → Response → ℕ → Lines
  complete : Response → List ℕ → Lines
  failed : Error → Lines
  panicked out_of_fuel : Lines

module _ (conv : Strconv) (names : Names) where
  abbrev pub with_status : Result ℕ → Response → Result Response
  with_status (ok code) rs = ok (record rs { status_code = code })
  with_status (err e) rs = err e
  with_status panic rs = panic

  abbrev pub with_header : Result (List ℕ × List ℕ) → Response → Result Response
  with_header (ok (k, v)) rs = ok (set_header names k v rs)
  with_header (err e) rs = err e
  with_header panic rs = panic

  -- A line that is not empty.
  unfoldable pub take_line : ℕ → List ℕ → Response → Result Response
  unfolding parse_response_line parse_header_line
  take_line zero line rs = with_status (parse_response_line conv line) rs
  take_line (suc i) line rs = with_header (parse_header_line names line) rs

  abbrev pub go_on : Result Response → (Response → Lines) → Lines
  go_on (ok rs) k = k rs
  go_on (err e) k = failed e
  go_on panic k = panicked

  abbrev pub on_line :
      Option (List ℕ × List ℕ) → List ℕ → Response → ℕ → (List ℕ → Response → ℕ → Lines) → Lines
  on_line none buf rs i k = need_more buf rs i
  on_line (some ([], buf')) buf rs i k = complete rs buf'
  on_line (some (x ∷ line, buf')) buf rs i k =
      go_on (take_line i (x ∷ line) rs) λ rs'. k buf' rs' (suc i)

  -- The inner loop of `ReadResponse`, on the bytes in `bufHeader`, by the rounds left.
  unfoldable pub take_lines : ℕ → List ℕ → Response → ℕ → Lines
  unfolding take_line cut_line
  take_lines zero buf rs i = out_of_fuel
  take_lines (suc fuel) buf rs i = on_line (cut_line buf) buf rs i (take_lines fuel)

  abbrev pub after_lines :
      Lines
      → List (List ℕ)
      → (List ℕ → Response → ℕ → Result Response × List (List ℕ))
      → Result Response × List (List ℕ)
  after_lines (need_more buf rs i) conn k = k buf rs i
  after_lines (complete rs buf) conn k = (ok rs, conn)
  after_lines (failed e) conn k = (err e, conn)
  after_lines panicked conn k = (panic, conn)
  after_lines out_of_fuel conn k = (panic, conn)

  -- The outer loop: the result, and what is still to be read from the connection.
  unfoldable pub read_rest : List (List ℕ) → List ℕ → Response → ℕ → Result Response × List (List ℕ)
  unfolding take_lines
  read_rest [] buf rs i = (err eof, [])
  read_rest (chunk ∷ conn) buf rs i =
      if ltb (1024 * 16) (length buf + length chunk)
      then (err short_buffer, conn)
      else after_lines (take_lines (suc (length (buf ++ chunk))) (buf ++ chunk) rs i) conn
          (read_rest conn)

  unfoldable pub read_response : List (List ℕ) → Result Response × List (List ℕ)
  unfolding read_rest
  read_response conn = read_rest conn [] (record { status_code = 0; header = [] }) 0
