-- ===== src/Tunnel/Targets.antt =====
-- The targets that the tunnel dials.
use df.Prelude.{
  ℕ, ◌==◌, ==_iff, ◌≡◌, ◌⊎◌, inl, inr, refl, Bool, true, false, not, Bool-cases, List, [], length,
  ltb, leb, ◌≢◌, ◌∷◌, if◌then◌else◌,
}
use df.Io.{Result, ok, err, panic}
use df.Cache.{TsCache}
use df.Socks5.{Net, is_legit_proxiable_ip}
use df.Tunnel.{lookup_ip, first_v4, picked, host_target}

-- An address that the six tests of the package `net` all deny.
pub record IsGlobal (net : Net) (ip : List ℕ) : Type 0 where
  pub not_empty : ip ≢ []
  pub no_link_local_unicast : net.is_link_local_unicast ip ≡ false
  pub no_link_local_multicast : net.is_link_local_multicast ip ≡ false
  pub no_loopback : net.is_loopback ip ≡ false
  pub no_private : net.is_private ip ≡ false
  pub no_multicast : net.is_multicast ip ≡ false
  pub no_unspecified : net.is_unspecified ip ≡ false

abbrev refuse_if : Bool → Bool → Bool
refuse_if test rest = if test then false else rest

both : (test rest : Bool) → refuse_if test rest ≡ true → (test ≡ false) × (rest ≡ true)
both true rest h = cc
both false rest h = (refl, h)

legit-IsGlobal : (net : Net) (ip : List ℕ) → is_legit_proxiable_ip net ip ≡ true → IsGlobal net ip
legit-IsGlobal net [] h = cc
legit-IsGlobal net (b ∷ bs) h =
    let ip = b ∷ bs in
    let (a1, h1) = both (net.is_link_local_unicast ip) _ h in
    let (a2, h2) = both (net.is_link_local_multicast ip) _ h1 in
    let (a3, h3) = both (net.is_loopback ip) _ h2 in
    let (a4, h4) = both (net.is_private ip) _ h3 in
    let (a5, h5) = both (net.is_multicast ip) _ h4 in
    let (a6, _) = both (net.is_unspecified ip) true h5 in
    record {
      not_empty = λ e. cc;
      no_link_local_unicast = a1;
      no_link_local_multicast = a2;
      no_loopback = a3;
      no_private = a4;
      no_multicast = a5;
      no_unspecified = a6;
    }

-- A target that may be dialled.
pub record IsAllowed (net : Net) (host target : List ℕ) : Type 0 where
  pub ip : List ℕ
  pub named : target ≡ net.ip_string ip
  pub global : IsGlobal net ip
  pub source : (ip ≡ net.parse_ip host) ⊎ (length ip ≡ 4)

first_v4-length :
    (net : Net) (ips : List (List ℕ))
    → is_legit_proxiable_ip net (first_v4 ips) ≡ true
    → length (first_v4 ips) ≡ 4
unfolding first_v4
first_v4-length net [] h = cc
first_v4-length net (v ∷ vs) h = elim (Bool-cases (length v == 4)) [
  | inl four ↦ rw four ((==_iff (length v) 4).0 four)
  | inr other ↦ rw other (first_v4-length net vs (rw other at h))
]

not-false : (b : Bool) → not b ≡ false → b ≡ true
not-false true h = refl
not-false false h = cc

picked-IsAllowed :
    (net : Net) (host : List ℕ) (r : Result (List (List ℕ))) {target : List ℕ}
    → picked net r ≡ ok target
    → IsAllowed net host target
picked-IsAllowed net host (ok ips) {target} e = elim (Bool-cases (leb (length ips) 0)) [
  | inl empty ↦ cc (rw empty at e)
  | inr some_ip ↦ elim (Bool-cases (not (is_legit_proxiable_ip net (first_v4 ips)))) [
    | inl bad ↦ cc (rw (some_ip, bad) at e)
    | inr good ↦
        let legit = not-false (is_legit_proxiable_ip net (first_v4 ips)) good in
        let same : ok (net.ip_string (first_v4 ips)) ≡ ok target = rw (some_ip, good) at e in
        record {
          ip = first_v4 ips;
          named = cc;
          global = legit-IsGlobal net (first_v4 ips) legit;
          source = inr (first_v4-length net ips legit);
        }
  ]
]
picked-IsAllowed net host (err x) e = cc
picked-IsAllowed net host panic e = cc

-- Whatever the resolver and the cache say, a target that `handleDialConn` goes on to dial is the
-- string of an address that is none of link-local, loopback, private, multicast or unspecified, and
-- that the host parses to or that has four bytes.
pub host_target-IsAllowed :
    (net : Net) (now : ℕ) (net_lookup : List ℕ → Result (List (List ℕ))) (host : List ℕ)
    (cache : TsCache (List (List ℕ))) {target : List ℕ}
    → (host_target net now net_lookup host cache).0 ≡ ok target
    → IsAllowed net host target
unfolding host_target
host_target-IsAllowed net now net_lookup host cache {target} e =
    elim (Bool-cases (ltb 0 (length (net.parse_ip host)))) [
      | inl parsed ↦ elim (Bool-cases (not (is_legit_proxiable_ip net (net.parse_ip host)))) [
        | inl bad ↦ cc (rw (parsed, bad) at e)
        | inr good ↦
            let same : ok (net.ip_string (net.parse_ip host)) ≡ ok target =
              rw (parsed, good) at e in
            record {
              ip = net.parse_ip host;
              named = cc;
              global =
                  legit-IsGlobal net (net.parse_ip host)
                    (not-false (is_legit_proxiable_ip net (net.parse_ip host)) good);
              source = inl refl;
            }
      ]
      | inr unparsed ↦
          picked-IsAllowed net host (lookup_ip now net_lookup host cache).0 (rw unparsed at e)
    ]
