-- ===== src/Socks5/Tests.antt =====
-- Runs of the SOCKS 5 dialogue.
use df.Prelude.{ℕ, ◌==◌, ◌≡◌, refl, arith, Bool, false, List, [], ◌∷◌, ◌++◌}
use df.Socks5.{Net, Linker, answer, hello, s5_request}
use df.Socks5.Dialogue.{Parses, name, granted}
use df.Socks5.Serve.{handle_conn, proxied, request_served}

-- A library that takes nothing for an address.
abbrev sample_net : Net
sample_net = record {
  ip_string = λ ip. ip;
  is_link_local_unicast = λ ip. false;
  is_link_local_multicast = λ ip. false;
  is_loopback = λ ip. false;
  is_private = λ ip. false;
  is_multicast = λ ip. false;
  is_unspecified = λ ip. false;
  parse_ip = λ host. [];
}

abbrev sample_host : List ℕ
sample_host = b'd' ∷ b'f' ∷ []

abbrev sample_rest : List ℕ
sample_rest = 1 ∷ []

abbrev reachable : Linker → List ℕ → ℕ → Bool
reachable linker host port = port == 443

sample-Parses : Parses sample_net sample_host
sample-Parses = name refl

abbrev bound : List ℕ
bound = 0 ∷ 0 ∷ 0 ∷ 0 ∷ 0 ∷ 0 ∷ []

-- The request comes in two chunks, and the second has three bytes more, which are lost.
request_served_example :
    handle_conn sample_net false reachable (
      (hello ++ (5 ∷ 1 ∷ []))
      ∷ (0 ∷ 3 ∷ 2 ∷ b'd' ∷ b'f' ∷ 1 ∷ 187 ∷ 7 ∷ 8 ∷ 9 ∷ [])
      ∷ (6 ∷ [])
      ∷ [])
    ≡ proxied (5 ∷ 0 ∷ granted) ((6 ∷ []) ∷ [])
request_served_example =
    request_served sample_net false reachable sample_host 443 ((hello ++ (5 ∷ 1 ∷ [])) ∷ [])
      (0 ∷ 3 ∷ 2 ∷ b'd' ∷ b'f' ∷ 1 ∷ 187 ∷ 7 ∷ 8 ∷ 9 ∷ []) (7 ∷ 8 ∷ 9 ∷ []) ((6 ∷ []) ∷ [])
      sample-Parses (omega arith) (omega arith) (unfold answer in refl) (unfold s5_request in refl)
      (unfold s5_request in omega arith)
