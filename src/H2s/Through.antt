-- ===== src/H2s/Through.antt =====
-- The HTTP proxy with a SOCKS 5 server of this repository.
use df.Prelude.{
  ℕ, ◌<◌, ◌^◌, ◌≡◌, refl, sym, ap, ◌∙◌, arith, Bool, true, false, List, [], ◌∷◌, ◌++◌, length, leb,
  lt→leb, if◌then◌else◌, append-nil, Bool-cases, inl, inr, bytes_eq,
}
use df.Conf.{codes}
use df.Io.{ok}
use df.Socks5.{Net, Linker, answer, hello, s5_request, socks5_connect}
use df.Socks5.Dialogue.{Parses, meant, granted, dialogue, answer-granted}
use df.Socks5.Serve
use df.Socks5.Serve.{connect, request_served}
use df.H2s.{Request, Lib, default_port, target_port, is_connect, opened, proxied, handle_conn}

default_port_some : (lib : Lib) (scheme : List ℕ) → 0 < length (default_port lib scheme)
default_port_some lib scheme = elim (Bool-cases (bytes_eq (lib.to_lower scheme) (codes "https"))) [
  | inl tls ↦ rw tls (omega arith)
  | inr plain ↦ rw plain (omega arith)
]

-- There is always a port, so the `Host` of a request is never looked at.
target_port_some :
    (lib : Lib) (req : Request)
    → (leb (length (target_port lib req)) 0 ≡ false)
      × (target_port lib req
          ≡ (if leb (length req.port) 0 then default_port lib req.scheme else req.port))
unfolding target_port
target_port_some lib req =
    let some = lt→leb 0 (length (default_port lib req.scheme)) (default_port_some lib req.scheme) in
    elim (Bool-cases (leb (length req.port) 0)) [
      | inl none ↦ rw (none, some) (some, refl)
      | inr given ↦ rw (given, given) (given, refl)
    ]

connect-granted :
    (lib : Lib) (net : Net) (provider : Bool) (dial : Linker → List ℕ → ℕ → Bool)
    (proxy_addr addr host port rest : List ℕ) (n : ℕ)
    → lib.split addr ≡ ok (host, port)
    → lib.atoi port ≡ ok n
    → lib.dial proxy_addr ≡ ok tt
    → Parses net host
    → length host < 256
    → n < 2 ^ 16
    → (answer provider dial (meant net host n)).1 ≡ true
    → connect net lib.split lib.atoi lib.dial proxy_addr addr (5 ∷ 0 ∷ (granted ++ rest))
      ≡ (ok (hello ++ s5_request net host n), rest)
unfolding connect
connect-granted lib net provider dial proxy_addr addr host port rest n e1 e2 e3 parses short small
      h =
    let (_, _, read) = dialogue net provider dial host rest n parses short small h in
    let out = answer-granted provider dial (meant net host n) h in
    rw (e1, e2, e3) (ap (λ t. socks5_connect net host n (5 ∷ 0 ∷ (t ++ rest))) (sym out) ∙ read)

-- The HTTP proxy in front of this SOCKS 5 server, for a request whose host is a name of less than 256 bytes
-- or an address that parses to 16 bytes and whose host and port, joined by a colon, split into the two
-- again, where the port is a number of 16 bits, the SOCKS server is there, and its dial succeeds. The port
-- is the URL's, or 443 for https and 80 otherwise. The server proxies the connection from what follows the
-- SOCKS request; and with the server's answer the client is told of success for the method CONNECT, and
-- the request is written on for another method, with nothing more read from the server.
pub request_passed_on :
    (lib : Lib) (net : Net) (provider : Bool) (dial : Linker → List ℕ → ℕ → Bool)
    (proxy_addr rest : List ℕ) (req : Request) (n : ℕ) (cs : List (List ℕ))
    → let port =
        (if leb (length req.port) 0
          then (if bytes_eq (lib.to_lower req.scheme) (codes "https")
              then codes "443"
              else codes "80")
          else req.port) in
      lib.split (req.hostname ++ (58 ∷ port)) ≡ ok (req.hostname, port)
      → lib.atoi port ≡ ok n
      → lib.dial proxy_addr ≡ ok tt
      → Parses net req.hostname
      → length req.hostname < 256
      → n < 2 ^ 16
      → (answer provider dial (meant net req.hostname n)).1 ≡ true
      → let asked = hello ++ s5_request net req.hostname n in
        (reply : List ℕ) × (Serve.handle_conn net provider dial
            (hello ∷ s5_request net req.hostname n ∷ cs)
          ≡ Serve.proxied reply cs)
        × (handle_conn lib net proxy_addr req (reply ++ rest) ≡ (
          (if is_connect lib req
              then proxied (codes "HTTP/1.1 200 OK" ++ (13 ∷ 10 ∷ 13 ∷ 10 ∷ [])) asked
              else proxied [] (asked ++ lib.written req)),
          rest,
        ))
unfolding handle_conn s5_request
request_passed_on lib net provider dial proxy_addr rest req n cs e1 e2 e3 parses short small h =
    let request = s5_request net req.hostname n in
    let port = (if leb (length req.port) 0 then default_port lib req.scheme else req.port) in
    let (there, found) = target_port_some lib req in
    (
      5 ∷ 0 ∷ granted,
      request_served net provider dial req.hostname n (hello ∷ []) request [] cs parses short small
          h (ap (λ x. hello ++ x) (sym (append-nil request))) (omega arith),
      rw (there, found)
          (ap (opened lib req) (
            connect-granted lib net provider dial proxy_addr (req.hostname ++ (58 ∷ port))
              req.hostname port rest n e1 e2 e3 parses short small h)),
    )
