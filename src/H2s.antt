-- ===== src/H2s.antt =====
-- h2s/server.go: the HTTP proxy in front of a SOCKS 5 server. A request is what `http.ReadRequest` gives; the
-- proxy's connection is the stream, and the writes are taken to succeed.
pub mod Through
mod Tests
use df.Prelude.{ℕ, ◌==◌, Bool, List, [], ◌∷◌, ◌++◌, length, ltb, leb, if◌then◌else◌, bytes_eq}
use df.Conf.{codes}
use df.Io.{Result, ok, err, panic, Error}
use df.Socks5.{Net}
use df.Socks5.Serve.{connect}

-- `url` of the request by its parts, as `Hostname()` and `Port()` give them.
pub record Request : Type 0 where
  pub method : List ℕ
  pub scheme : List ℕ
  pub hostname : List ℕ
  pub port : List ℕ
  pub host : List ℕ

-- `strings.ToLower`, `strings.EqualFold`, `net.SplitHostPort`, `strconv.Atoi`, `net.Dial` of an address of
-- tcp, and what `Request.Write` writes.
pub record Lib : Type 0 where
  pub to_lower : List ℕ → List ℕ
  pub equal_fold : List ℕ → List ℕ → Bool
  pub split : List ℕ → Result (List ℕ × List ℕ)
  pub atoi : List ℕ → Result ℕ
  pub dial : List ℕ → Result (Unit {0})
  pub written : Request → List ℕ

abbrev pub default_port : Lib → List ℕ → List ℕ
default_port lib scheme =
    if bytes_eq (lib.to_lower scheme) (codes "https") then codes "443" else codes "80"

abbrev pub port_or : List ℕ → Result (List ℕ × List ℕ) → List ℕ
port_or port (ok hp) = hp.1
port_or port (err e) = port
port_or port panic = port

unfoldable pub target_port : Lib → Request → List ℕ
target_port lib req =
    let port = if leb (length req.port) 0 then default_port lib req.scheme else req.port in
    if leb (length port) 0 then port_or port (lib.split req.host) else port

-- The connection ends, or is proxied after these bytes to the client and to the SOCKS server.
pub data Handled : Type 0 where
  no_port panicked : Handled
  refused : Error → Handled
  proxied : List ℕ → List ℕ → Handled

abbrev pub is_connect : Lib → Request → Bool
is_connect lib req = lib.equal_fold req.method (codes "connect")

abbrev pub opened : Lib → Request → Result (List ℕ) × List ℕ → Handled × List ℕ
opened lib req (ok sent, s) = (
  if is_connect lib req
      then proxied (codes "HTTP/1.1 200 OK" ++ (13 ∷ 10 ∷ 13 ∷ 10 ∷ [])) sent
      else proxied [] (sent ++ lib.written req),
  s,
)
opened lib req (err e, s) = (refused e, s)
opened lib req (panic, s) = (panicked, s)

-- `handleConn` for a request that has been read: what it comes to, and what is unread of the stream.
unfoldable pub handle_conn : Lib → Net → List ℕ → Request → List ℕ → Handled × List ℕ
unfolding target_port
handle_conn lib net proxy_addr req s =
    let port = target_port lib req in
    if leb (length port) 0
    then (no_port, s)
    else opened lib req
        (connect net lib.split lib.atoi lib.dial proxy_addr (req.hostname ++ (58 ∷ port)) s)
