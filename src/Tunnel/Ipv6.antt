-- ===== src/Tunnel/Ipv6.antt =====
-- A request for a literal address of version 6: `handleDialConn` joins its text to the port by a colon.
use df.Prelude.{
  ℕ, ◌+◌, ◌≤◌, ◌<◌, ◌≡◌, ◌≢◌, ◌==◌, arith, Bool, false, Bool-cases, inl, inr, List, [], ◌∷◌, ◌++◌,
  length, lt→ltb, if◌then◌else◌,
}
use df.Io.{Result, ok, err, panic, Io, Error}
use df.Cache.{TsCache}
use df.Conf.{codes}
use df.Message.{MessageRequestDial, connection_state}
use df.Codec.{Json}
use df.Codec
use df.Socks5.{Net, is_legit_proxiable_ip}
use df.Tunnel.{host_target}
use df.Tunnel.Dial.{target_failed, linked, state_of, told, handle_dial}

-- How often a character stands in a text.
abbrev pub count : ℕ → List ℕ → ℕ
count c [] = 0
count c (x ∷ xs) = (if x == c then 1 else 0) + count c xs

abbrev pub starts_with : ℕ → List ℕ → Bool
starts_with c [] = false
starts_with c (x ∷ xs) = x == c

-- What `net.Dial` documents of an address of host and port: a host that has colons stands in brackets.
abbrev pub WantsBrackets : (List ℕ → List ℕ → Result (Unit {0})) → Type 0
WantsBrackets dial =
    (network addr : List ℕ)
    → 2 ≤ count 58 addr
    → starts_with b'[' addr ≡ false
    → (e : Error) × (dial network addr ≡ err e)

count-append : (c : ℕ) (xs ys : List ℕ) → count c (xs ++ ys) ≡ count c xs + count c ys
count-append c [] ys = omega arith
count-append c (x ∷ xs) ys = ground (arith, count-append c xs ys)

starts_with-append :
    (c : ℕ) (xs ys : List ℕ)
    → 0 < count 58 xs
    → starts_with c xs ≡ false
    → starts_with c (xs ++ ys) ≡ false
starts_with-append c [] ys some h = absurd (omega arith)
starts_with-append c (x ∷ xs) ys some h = h

told_not_linked :
    (e : Error) (r : Result ℕ × List ℕ) (addr : List ℕ) → (told (target_failed e) r).0 ≢ linked addr
told_not_linked e (ok n, out) addr = λ p. cc
told_not_linked e (err x, out) addr = λ p. cc
told_not_linked e (panic, out) addr = λ p. cc

-- A request for a host that is the text of an address of version 6, as a client sends it for a literal
-- address, is never connected: the session dials the address without brackets. This is stated for an
-- address whose text has a colon and no bracket in front.
pub ipv6_never_linked :
    (json : Json) (noise : List ℕ) (text : Error → List ℕ) (w : List ℕ → Io ℕ) (net : Net) (now : ℕ)
    (net_lookup : List ℕ → Result (List (List ℕ))) (split : List ℕ → Result (List ℕ × List ℕ))
    (dial : List ℕ → List ℕ → Result (Unit {0})) (m1 : MessageRequestDial)
    (host port out addr : List ℕ) (cache : TsCache (List (List ℕ)))
    → WantsBrackets dial
    → split m1.address ≡ ok (host, port)
    → 0 < length (net.parse_ip host)
    → 0 < count 58 (net.ip_string (net.parse_ip host))
    → starts_with b'[' (net.ip_string (net.parse_ip host)) ≡ false
    → (handle_dial json noise text w net now net_lookup split dial m1 cache out).0.0 ≢ linked addr
unfolding handle_dial host_target
ipv6_never_linked json noise text w net now net_lookup split dial m1 host port out addr cache wants
      parts is_ip colon bare =
    let ip = net.ip_string (net.parse_ip host) in
    let (e, refused) =
      wants m1.network (ip ++ (58 ∷ port)) (omega (arith, count-append 58 ip (58 ∷ port)))
        (starts_with-append b'[' ip (58 ∷ port) colon bare) in
    rw parts (
      rw (lt→ltb 0 (length (net.parse_ip host)) is_ip)
        (elim (Bool-cases (is_legit_proxiable_ip net (net.parse_ip host))) [
          | inl good ↦ rw good (
              rw refused (
                told_not_linked e
                  (Codec.write json noise w
                    (connection_state
                      (state_of m1.connection_id (codes "error") (codes "net.Dial: " ++ text e)))
                    out)
                  addr))
          | inr bad ↦ rw bad (λ p. cc)
        ]))
