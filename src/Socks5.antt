-- ===== src/Socks5.antt =====
-- socks/socks5/socks5.go and client.go: the SOCKS 5 server's requests, and the client's.
-- A connection is the stream of `Io` where it is read. What goes out on it is part of the result;
-- the writes are taken to succeed. The library `net` is a parameter, `Net`; the address that is
-- dialled is the pair of host and port that `fmt.Sprintf` joins.
pub mod Dialogue
pub mod Serve
mod Tests
use df.Prelude.{
  ℕ, zero, suc, ◌+◌, ◌*◌, ◌%◌, ◌==◌, Bool, true, false, not, ◌&&◌, ◌||◌, List, [], ◌∷◌, ◌++◌,
  length, get_or, ltb, if◌then◌else◌,
}
use df.Bytes.{put_u16}
use df.Io.{
  Result, ok, err, panic, Io, pure, fail, lift, ◌>>=◌, ◌>>◌, read_full, wrong_version,
  handshake_failed, server_failed,
}

-- `ip.String()`, the six tests of an `IP` that the code calls, and `net.ParseIP`, which gives nil for
-- what is not an address.
pub record Net : Type 0 where
  pub ip_string : List ℕ → List ℕ
  pub is_link_local_unicast : List ℕ → Bool
  pub is_link_local_multicast : List ℕ → Bool
  pub is_loopback : List ℕ → Bool
  pub is_private : List ℕ → Bool
  pub is_multicast : List ℕ → Bool
  pub is_unspecified : List ℕ → Bool
  pub parse_ip : List ℕ → List ℕ

-- utils/ip.go: only nil has no bytes among the addresses that are tested.
abbrev pub is_legit_proxiable_ip : Net → List ℕ → Bool
is_legit_proxiable_ip net [] = false
is_legit_proxiable_ip net (b ∷ bs) =
    let ip = b ∷ bs in
    if net.is_link_local_unicast ip
    then false
    else if net.is_link_local_multicast ip
    then false
    else if net.is_loopback ip
    then false
    else if net.is_private ip
    then false
    else if net.is_multicast ip
    then false
    else if net.is_unspecified ip
    then false
    else true

abbrev pub read_byte : Io ℕ
read_byte = read_full 1 >>= λ b. pure (get_or b 0 0)

-- The loop over the offered methods, which it does not use.
unfoldable pub read_auths : ℕ → Io (Unit {0})
read_auths zero = pure tt
read_auths (suc n) = do auth ← read_byte; read_auths n

-- `Handshake`: the bytes that it writes.
unfoldable pub handshake : Io (List ℕ)
unfolding read_auths
handshake = do
  ver ← read_byte
  if not (ver == 5)
      then fail wrong_version
      else (read_byte >>= λ nauth. read_auths nauth >> pure (ver ∷ 0 ∷ []))

-- What a request comes to before anything is dialled: a refusal with the bytes written and the
-- command, or a host, a port and whether the host is local.
pub data Request : Type 0 where
  refused : List ℕ → ℕ → Request
  dials : List ℕ → ℕ → Bool → Request

-- The switch over the address type. Another type leaves the host empty.
unfoldable pub read_host : Net → ℕ → Io (List ℕ × Bool)
read_host net addr_typ =
    if addr_typ == 1
    then (read_full 4 >>= λ ip. pure (net.ip_string ip, not (is_legit_proxiable_ip net ip)))
    else if addr_typ == 3
    then (read_byte >>= λ size. read_full size >>= λ nameb. pure (nameb, false))
    else if addr_typ == 4
    then (read_full 16 >>= λ ip. pure (net.ip_string ip, not (is_legit_proxiable_ip net ip)))
    else pure ([], false)

-- `HandleRequest` up to the choice of the backend.
unfoldable pub read_request : Net → Io Request
unfolding read_host
read_request net = do
  ver ← read_byte
  if not (ver == 5)
      then fail wrong_version
      else (read_byte >>= λ cmd.
          if not (cmd == 1)
          then pure (refused (ver ∷ 7 ∷ 0 ∷ 0 ∷ 0 ∷ 0 ∷ []) cmd)
          else (read_byte >>= λ _. read_byte >>= λ addr_typ. read_host net addr_typ >>= λ host.
              read_full 2 >>= λ portb.
              pure (dials host.0 (get_or portb 0 0 * 256 + get_or portb 1 0) host.1)))

-- The backend that a request is dialled on: the provider's, that of the protocol suit, or direct.
pub data Linker : Type 0 where
  provided suit direct : Linker

-- `provider` tells whether the options have a provider that gives a backend.
abbrev pub choose_linker : Bool → Bool → Linker
choose_linker provider is_host_local =
    if provider then provided else if not is_host_local then suit else direct

-- The end of `HandleRequest`: the bytes written before any proxying, and whether it gets that far.
-- `dial` tells whether `Dial` succeeds.
unfoldable pub answer : Bool → (Linker → List ℕ → ℕ → Bool) → Request → List ℕ × Bool
answer provider dial (refused written cmd) = (written, false)
answer provider dial (dials host port is_host_local) =
    if dial (choose_linker provider is_host_local) host port
    then (5 ∷ 0 ∷ 0 ∷ 1 ∷ 0 ∷ 0 ∷ 0 ∷ 0 ∷ 0 ∷ 0 ∷ [], true)
    else (5 ∷ 4 ∷ 0 ∷ 0 ∷ 0 ∷ 0 ∷ [], false)

-- `Socks5Connect`: the two messages that it sends.
abbrev pub hello : List ℕ
hello = 5 ∷ 0 ∷ []

unfoldable pub s5_request : Net → List ℕ → ℕ → List ℕ
s5_request net host port =
    let ip = net.parse_ip host in
    let addr_typ = if length ip == 4 then 1 else if length ip == 16 then 4 else 3 in
    5
    ∷ 1
    ∷ 0
    ∷ addr_typ
    ∷ ((if ltb 0 (length ip) then ip else (length host % 256) ∷ host) ++ put_u16 port)

-- What it sends and reads on a connection, for an address that has been split: the bytes sent.
unfoldable pub socks5_connect : Net → List ℕ → ℕ → Io (List ℕ)
unfolding s5_request
socks5_connect net host port = do
  hs_ack ← read_full 2
  if not (get_or hs_ack 0 0 == 5) || not (get_or hs_ack 1 0 == 0)
      then fail handshake_failed
      else (read_full 10 >>= λ ack.
          if not (get_or ack 0 0 == 5)
          then fail wrong_version
          else if not (get_or ack 3 0 == 1)
          then fail server_failed
          else pure (hello ++ s5_request net host port))
