-- ===== src/Socks5/Dialogue.antt =====
-- The client's messages at the server, and the server's answers at the client.
use df.Prelude.{
  ℕ, ◌+◌, ◌*◌, ◌%◌, ◌^◌, ◌==◌, ◌<◌, ◌≡◌, refl, ap, ◌∙◌, arith, Bool, true, false, not, List, [],
  ◌∷◌, ◌++◌, length, get_or, ltb, if◌then◌else◌, append_assoc, Bool-cases, inl, inr,
}
use df.Bytes.{put_u16}
use df.Io.{ok, err, pure, ◌>>=◌, read_full, read_full-append, unexpected_eof, server_failed}
use df.Socks5.{
  Net, is_legit_proxiable_ip, read_byte, handshake, Request, refused, dials, read_host,
  read_request, Linker, answer, hello, s5_request, socks5_connect,
}

-- What `net.ParseIP` documents: nil, or 16 bytes.
pub data Parses (net : Net) (host : List ℕ) : Type 0 where
  name : net.parse_ip host ≡ [] → Parses net host
  address : length (net.parse_ip host) ≡ 16 → Parses net host

-- The request that the server makes of the client's host.
abbrev pub meant : Net → List ℕ → ℕ → Request
meant net host port =
    if ltb 0 (length (net.parse_ip host))
    then dials (net.ip_string (net.parse_ip host)) port
        (not (is_legit_proxiable_ip net (net.parse_ip host)))
    else dials host port false

pub read_byte-cons : (b : ℕ) (s : List ℕ) → read_byte (b ∷ s) ≡ (ok b, s)
read_byte-cons b s = rw (read_full-append 1 (b ∷ []) s refl) refl

-- The fixed part of a request.
read_request-head :
    (net : Net) (addr_typ : ℕ) (s : List ℕ)
    → read_request net (5 ∷ 1 ∷ 0 ∷ addr_typ ∷ s)
      ≡ (read_host net addr_typ >>= λ host. read_full 2 >>= λ portb.
            pure (dials host.0 (get_or portb 0 0 * 256 + get_or portb 1 0) host.1))
          s
unfolding read_request
read_request-head net addr_typ s = rw (read_byte-cons 5 (1 ∷ 0 ∷ addr_typ ∷ s)) (
    rw (read_byte-cons 1 (0 ∷ addr_typ ∷ s))
      (rw (read_byte-cons 0 (addr_typ ∷ s)) (rw (read_byte-cons addr_typ s) refl)))

read_port :
    (host : List ℕ) (b : Bool) (port : ℕ) (rest : List ℕ)
    → port < 2 ^ 16
    → (read_full 2 >>= λ portb. pure (dials host (get_or portb 0 0 * 256 + get_or portb 1 0) b))
        (put_u16 port ++ rest)
      ≡ (ok (dials host port b), rest)
read_port host b port rest small =
    rw (read_full-append 2 (put_u16 port) rest refl)
      (ap (λ n. (ok (dials host n b), rest)) (omega arith))

read_host-name :
    (net : Net) (host s : List ℕ)
    → length host < 256
    → read_host net 3 (length host % 256 ∷ (host ++ s)) ≡ (ok (host, false), s)
unfolding read_host
read_host-name net host s short =
    rw (read_byte-cons (length host % 256) (host ++ s))
      (rw (read_full-append (length host % 256) host s (omega arith)) refl)

read_host-ip :
    (net : Net) (ip s : List ℕ)
    → length ip ≡ 16
    → read_host net 4 (ip ++ s) ≡ (ok (net.ip_string ip, not (is_legit_proxiable_ip net ip)), s)
unfolding read_host
read_host-ip net ip s size = rw (read_full-append 16 ip s size) refl

pub read_request-s5_request :
    (net : Net) (host rest : List ℕ) (port : ℕ)
    → Parses net host
    → length host < 256
    → port < 2 ^ 16
    → read_request net (s5_request net host port ++ rest) ≡ (ok (meant net host port), rest)
unfolding s5_request
read_request-s5_request net host rest port (name e) short small =
    rw (e, append_assoc host (put_u16 port) rest)
      (read_request-head net 3 (length host % 256 ∷ (host ++ (put_u16 port ++ rest)))
        ∙ rw (read_host-name net host (put_u16 port ++ rest) short)
            (read_port host false port rest small))
read_request-s5_request net host rest port (address e) short small =
    let ip = net.parse_ip host in
    rw (e, append_assoc ip (put_u16 port) rest)
      (read_request-head net 4 (ip ++ (put_u16 port ++ rest))
        ∙ rw (read_host-ip net ip (put_u16 port ++ rest) e)
            (read_port (net.ip_string ip) (not (is_legit_proxiable_ip net ip)) port rest small))

abbrev pub granted : List ℕ
granted = 5 ∷ 0 ∷ 0 ∷ 1 ∷ 0 ∷ 0 ∷ 0 ∷ 0 ∷ 0 ∷ 0 ∷ []

abbrev failed : List ℕ
failed = 5 ∷ 4 ∷ 0 ∷ 0 ∷ 0 ∷ 0 ∷ []

pub answer-granted :
    (provider : Bool) (dial : Linker → List ℕ → ℕ → Bool) (r : Request)
    → (answer provider dial r).1 ≡ true
    → (answer provider dial r).0 ≡ granted
unfolding answer
answer-granted provider dial (refused written cmd) h = cc
answer-granted provider dial (dials host port b) h = ground arith

answer-failed :
    (provider : Bool) (dial : Linker → List ℕ → ℕ → Bool) (host : List ℕ) (port : ℕ) (b : Bool)
    → (answer provider dial (dials host port b)).1 ≡ false
    → (answer provider dial (dials host port b)).0 ≡ failed
unfolding answer
answer-failed provider dial host port b h = ground arith

meant-failed :
    (net : Net) (host : List ℕ) (port : ℕ) (provider : Bool) (dial : Linker → List ℕ → ℕ → Bool)
    → (answer provider dial (meant net host port)).1 ≡ false
    → (answer provider dial (meant net host port)).0 ≡ failed
meant-failed net host port provider dial = elim (Bool-cases (ltb 0 (length (net.parse_ip host)))) [
  | inl parsed ↦ rw parsed (answer-failed provider dial _ port _)
  | inr unparsed ↦ rw unparsed (answer-failed provider dial host port false)
]

pub handshake-hello : (rest : List ℕ) → handshake (hello ++ rest) ≡ (ok (5 ∷ 0 ∷ []), rest)
unfolding handshake
handshake-hello rest = rw (read_byte-cons 5 (0 ∷ rest)) (rw (read_byte-cons 0 rest) refl)

-- What the client makes of an answer of ten bytes behind the handshake's.
connect_ten :
    (net : Net) (host : List ℕ) (port status reserved addr_typ : ℕ) (bound rest : List ℕ)
    → length bound ≡ 6
    → socks5_connect net host port (5 ∷ 0 ∷ 5 ∷ status ∷ reserved ∷ addr_typ ∷ (bound ++ rest)) ≡ (
      (if addr_typ == 1 then ok (hello ++ s5_request net host port) else err server_failed),
      rest,
    )
unfolding socks5_connect
connect_ten net host port status reserved addr_typ bound rest size =
    rw (read_full-append 2 (5 ∷ 0 ∷ []) (5 ∷ status ∷ reserved ∷ addr_typ ∷ (bound ++ rest)) refl) (
      rw (read_full-append 10 (5 ∷ status ∷ reserved ∷ addr_typ ∷ bound) rest (omega arith))
        (elim (Bool-cases (addr_typ == 1)) [
          | inl right ↦ rw right refl
          | inr wrong ↦ rw wrong refl
        ]))

connect_short :
    (net : Net) (host : List ℕ) (port : ℕ)
    → (socks5_connect net host port (5 ∷ 0 ∷ failed)).0 ≡ err unexpected_eof
unfolding socks5_connect read_full
connect_short net host port = refl

-- `Socks5Connect` with this server, for a host that is a name of less than 256 bytes or an address
-- that parses to 16 bytes, and a port of 16 bits. The server shakes hands and understands the
-- request: the same name, or the address's string, and the port. Where the dial succeeds, its answer
-- makes the client succeed, with nothing more read.
pub dialogue :
    (net : Net) (provider : Bool) (dial : Linker → List ℕ → ℕ → Bool) (host rest : List ℕ)
    (port : ℕ)
    → Parses net host
    → length host < 256
    → port < 2 ^ 16
    → (answer provider dial (meant net host port)).1 ≡ true
    → (handshake (hello ++ (s5_request net host port ++ rest))
        ≡ (ok (5 ∷ 0 ∷ []), s5_request net host port ++ rest))
      × (read_request net (s5_request net host port ++ rest) ≡ (ok (meant net host port), rest))
      × (socks5_connect net host port
            (5 ∷ 0 ∷ ((answer provider dial (meant net host port)).0 ++ rest))
          ≡ (ok (hello ++ s5_request net host port), rest))
dialogue net provider dial host rest port parses short small h = (
  handshake-hello (s5_request net host port ++ rest),
  read_request-s5_request net host rest port parses short small,
  ap (λ t. socks5_connect net host port (5 ∷ 0 ∷ (t ++ rest)))
        (answer-granted provider dial (meant net host port) h)
      ∙ connect_ten net host port 0 0 1 (0 ∷ 0 ∷ 0 ∷ 0 ∷ 0 ∷ 0 ∷ []) rest refl,
)

-- Where the dial fails, the server's answer has six bytes, and the client, which reads ten, reports
-- an unexpected end of the connection in place of the failure.
pub failure_unread :
    (net : Net) (provider : Bool) (dial : Linker → List ℕ → ℕ → Bool) (host : List ℕ) (port : ℕ)
    → (answer provider dial (meant net host port)).1 ≡ false
    → (length (answer provider dial (meant net host port)).0 ≡ 6)
      × ((socks5_connect net host port (5 ∷ 0 ∷ (answer provider dial (meant net host port)).0)).0
          ≡ err unexpected_eof)
failure_unread net provider dial host port h =
    let e = meant-failed net host port provider dial h in
    (
      ap length e,
      ap (λ t. (socks5_connect net host port (5 ∷ 0 ∷ t)).0) e ∙ connect_short net host port,
    )

-- The client does not look at the status of an answer: with a bound address of type 1 it succeeds
-- whatever the status, and with another type it fails whatever the status.
pub status_ignored :
    (net : Net) (host : List ℕ) (port status reserved addr_typ : ℕ) (bound rest : List ℕ)
    → length bound ≡ 6
    → (socks5_connect net host port (5 ∷ 0 ∷ 5 ∷ status ∷ reserved ∷ addr_typ ∷ (bound ++ rest))).0
      ≡ (if addr_typ == 1 then ok (hello ++ s5_request net host port) else err server_failed)
status_ignored net host port status reserved addr_typ bound rest size =
    ap (λ t. t.0) (connect_ten net host port status reserved addr_typ bound rest size)
