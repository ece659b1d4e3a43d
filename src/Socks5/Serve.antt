-- ===== src/Socks5/Serve.antt =====
-- `handleConn` of socks/socks5/server.go, and the whole of `Socks5Connect`. A connection is given by its
-- chunks: what one `Read` of it after the other gives. The writes are taken to succeed.
use df.Prelude.{
  ℕ, zero, suc, ◌+◌, ◌-◌, ◌==◌, ◌<◌, ◌≤◌, ◌^◌, ◌≡◌, refl, sym, ap, ap₂, ◌∙◌, arith, Bool, true,
  false, List, [], ◌∷◌, ◌++◌, length, length-append, append_assoc, flat, flat-append, if◌then◌else◌,
}
use df.Io.{Result, ok, err, panic, Io, lift, ◌>>=◌, ◌>>◌}
use df.Socks5.{
  Net, handshake, Request, read_request, Linker, answer, hello, s5_request, socks5_connect,
}
use df.Socks5.Dialogue.{
  Parses, meant, granted, handshake-hello, read_request-s5_request, answer-granted,
}

-- The connection ends with these bytes written, or is proxied from this chunk on.
pub data Served : Type 0 where
  ended : List ℕ → Served
  proxied : List ℕ → List (List ℕ) → Served
  crashed : Served

-- What a `bufio.Reader` that has given out `n` bytes has not read: it reads when it has nothing left.
unfoldable pub unread : ℕ → List (List ℕ) → List (List ℕ)
unread zero cs = cs
unread (suc n) [] = []
unread (suc n) (c ∷ cs) = unread (suc n - length c) cs

-- `Proxy` is called with the connection, not with the reader.
abbrev pub proxy_if : List (List ℕ) → List ℕ → List ℕ × Bool → Served
proxy_if cs hs (out, true) = proxied (hs ++ out) cs
proxy_if cs hs (out, false) = ended (hs ++ out)

module _ (net : Net) (provider : Bool) (dial : Linker → List ℕ → ℕ → Bool) where
  abbrev pub requested : List (List ℕ) → List ℕ → Result Request × List ℕ → Served
  requested cs hs (ok r, s) =
      proxy_if (unread (length (flat cs) - length s) cs) hs (answer provider dial r)
  requested cs hs (err e, s) = ended hs
  requested cs hs (panic, s) = crashed

  abbrev pub greeted : List (List ℕ) → Result (List ℕ) × List ℕ → Served
  greeted cs (ok hs, s) = requested cs hs (read_request net s)
  greeted cs (err e, s) = ended []
  greeted cs (panic, s) = crashed

  -- By the byte that `Peek(1)` gives; version 4 has no protocol.
  abbrev pub by_version : List (List ℕ) → List ℕ → Served
  by_version cs [] = ended []
  by_version cs (ver ∷ s) = if ver == 5 then greeted cs (handshake (ver ∷ s)) else ended []

  unfoldable pub handle_conn : List (List ℕ) → Served
  handle_conn cs = by_version cs (flat cs)

-- `net.SplitHostPort`, `strconv.Atoi` and `net.Dial` are given.
unfoldable pub connect :
    Net
    → (List ℕ → Result (List ℕ × List ℕ))
    → (List ℕ → Result ℕ)
    → (List ℕ → Result (Unit {0}))
    → List ℕ
    → List ℕ
    → Io (List ℕ)
connect net split atoi dial proxy_addr addr = do
  hp ← lift (split addr)
  port ← lift (atoi hp.1)
  lift (dial proxy_addr)
  socks5_connect net hp.0 port

unread_nothing : (n : ℕ) (cs : List (List ℕ)) → n ≤ 0 → unread n cs ≡ cs
unfolding unread
unread_nothing zero cs h = refl
unread_nothing (suc n) cs h = absurd (omega (arith, h))

unread_lem :
    (n : ℕ) (before : List (List ℕ)) (last : List ℕ) (cs : List (List ℕ))
    → length (flat before) < n
    → n ≤ length (flat before) + length last
    → unread n (before ++ last ∷ cs) ≡ cs
unfolding unread
unread_lem zero before last cs more enough = absurd (omega (arith, more))
unread_lem (suc n) [] last cs more enough = unread_nothing (suc n - length last) cs (omega arith)
unread_lem (suc n) (b ∷ before) last cs more enough =
    unread_lem (suc n - length b) before last cs (omega (arith, length-append b (flat before)))
      (omega (arith, length-append b (flat before)))

-- The server behind `Socks5Connect`, for a host that is a name of less than 256 bytes or an address that
-- parses to 16 bytes, a port of 16 bits and a dial that succeeds, however the client's two messages are cut
-- into chunks: the server answers both with success, and proxies the connection from the chunk behind the
-- one in which the request ends. What that chunk holds behind the request is proxied nowhere.
pub request_served :
    (net : Net) (provider : Bool) (dial : Linker → List ℕ → ℕ → Bool) (host : List ℕ) (port : ℕ)
    (before : List (List ℕ)) (last early : List ℕ) (cs : List (List ℕ))
    → Parses net host
    → length host < 256
    → port < 2 ^ 16
    → (answer provider dial (meant net host port)).1 ≡ true
    → flat before ++ last ≡ hello ++ (s5_request net host port ++ early)
    → length (flat before) < length (hello ++ s5_request net host port)
    → handle_conn net provider dial (before ++ last ∷ cs) ≡ proxied (5 ∷ 0 ∷ granted) cs
unfolding handle_conn
request_served net provider dial host port before last early cs parses short small h cut within =
    let chunks = before ++ last ∷ cs in
    let request = s5_request net host port in
    let behind = early ++ flat cs in
    let stream : flat chunks ≡ hello ++ (request ++ behind) =
      flat-append before (last ∷ cs)
      ∙ sym (append_assoc (flat before) last (flat cs))
      ∙ ap (λ x. x ++ flat cs) cut
      ∙ ap (λ x. hello ++ x) (append_assoc request early (flat cs)) in
    let n = length (flat chunks) - length behind in
    ap (by_version net provider dial chunks) stream
    ∙ ap (greeted net provider dial chunks) (handshake-hello (request ++ behind))
    ∙ ap (requested net provider dial chunks (5 ∷ 0 ∷ []))
        (read_request-s5_request net host behind port parses short small)
    ∙ ap₂ (λ out ok. proxy_if (unread n chunks) (5 ∷ 0 ∷ []) (out, ok))
        (answer-granted provider dial (meant net host port) h) h
    ∙ ap (proxied (5 ∷ 0 ∷ granted)) (
        unread_lem n before last cs
          (omega (
            arith,
            ap length stream,
            ap length cut,
            length-append request behind,
            length-append request early,
            length-append (flat before) last,
          ))
          (omega (
            arith,
            ap length stream,
            ap length cut,
            length-append request behind,
            length-append request early,
            length-append (flat before) last,
          )))
