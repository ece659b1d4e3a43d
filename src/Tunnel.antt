-- ===== src/Tunnel.antt =====
-- socks/tunnel/server_handler.go: where a dial request may go, and the cache of resolved names.
-- `net.LookupIP` is the parameter `net_lookup`; the package `net` is the parameter `Net` of Socks5.
pub mod Targets
pub mod Names
pub mod Session
pub mod Ends
pub mod Relay
pub mod Growth
pub mod Copy
pub mod Dial
pub mod Ipv6
mod Tests
use df.Prelude.{
  ℕ, ◌==◌, Bool, true, false, not, List, [], ◌∷◌, length, ltb, leb, Option, none, some,
  if◌then◌else◌,
}
use df.Io.{Result, ok, err, panic, bad_address}
use df.Cache.{TsCache, get, put}
use df.Socks5.{Net, is_legit_proxiable_ip}

abbrev pub saved :
    ℕ
    → List ℕ
    → Result (List (List ℕ))
    → TsCache (List (List ℕ))
    → Result (List (List ℕ)) × TsCache (List (List ℕ))
saved now host (ok ips) cache = (ok ips, put now host ips cache)
saved now host (err e) cache = (err e, cache)
saved now host panic cache = (panic, cache)

abbrev pub looked_up :
    ℕ
    → (List ℕ → Result (List (List ℕ)))
    → List ℕ
    → Option (List (List ℕ)) × TsCache (List (List ℕ))
    → Result (List (List ℕ)) × TsCache (List (List ℕ))
looked_up now net_lookup host (some ips, cache) = (ok ips, cache)
looked_up now net_lookup host (none, cache) = saved now host (net_lookup host) cache

-- `lookupIP` at the time `now`. The cache holds nothing but addresses.
unfoldable pub lookup_ip :
    ℕ
    → (List ℕ → Result (List (List ℕ)))
    → List ℕ
    → TsCache (List (List ℕ))
    → Result (List (List ℕ)) × TsCache (List (List ℕ))
lookup_ip now net_lookup host cache = looked_up now net_lookup host (get now host cache)

-- The loop for an address of four bytes; nil, the empty list, where there is none.
unfoldable pub first_v4 : List (List ℕ) → List ℕ
first_v4 [] = []
first_v4 (v ∷ vs) = let rest = first_v4 vs in if length v == 4 then v else rest

abbrev pub picked : Net → Result (List (List ℕ)) → Result (List ℕ)
picked net (ok ips) =
    if leb (length ips) 0
    then err bad_address
    else if not (is_legit_proxiable_ip net (first_v4 ips))
    then err bad_address
    else ok (net.ip_string (first_v4 ips))
picked net (err e) = err bad_address
picked net panic = panic

-- `handleDialConn` up to `hostTarget`, for the host of the address.
unfoldable pub host_target :
    Net
    → ℕ
    → (List ℕ → Result (List (List ℕ)))
    → List ℕ
    → TsCache (List (List ℕ))
    → Result (List ℕ) × TsCache (List (List ℕ))
unfolding first_v4
host_target net now net_lookup host cache =
    let ip = net.parse_ip host in
    let found = lookup_ip now net_lookup host cache in
    if ltb 0 (length ip)
    then (
      if not (is_legit_proxiable_ip net ip) then err bad_address else ok (net.ip_string ip),
      cache,
    )
    else (picked net found.0, found.1)
