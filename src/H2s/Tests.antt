-- ===== src/H2s/Tests.antt =====
-- A run of the HTTP proxy.
use df.Prelude.{ℕ, ◌==◌, ◌≡◌, refl, arith, Bool, true, false, List, [], ◌∷◌, ◌++◌, if◌then◌else◌}
use df.Conf.{codes}
use df.Io.{ok}
use df.Socks5.{Net, Linker, answer, hello, s5_request}
use df.Socks5.Dialogue.{name}
use df.Socks5.Serve
use df.H2s.{Request, Lib, is_connect, proxied, handle_conn}
use df.H2s.Through.{request_passed_on}

-- A library that takes nothing for an address.
abbrev sample_net : Net
sample_net = record {
  ip_string = λ ip. ip;
  is_link_local_unicast = λ ip. false;
  is_link_local_multicast = λ ip. false;
  is_loopback = λ ip. false;
  is_private = λ ip. false;
  is_multicast = λ ip. false;
  is_unspecified = λ ip. false;
  parse_ip = λ host. [];
}

-- One that knows the one address of the run, and takes every method for CONNECT.
abbrev sample_lib : Lib
sample_lib = record {
  to_lower = λ s. s;
  equal_fold = λ a b. true;
  split = λ addr. ok (codes "df", codes "80");
  atoi = λ port. ok 80;
  dial = λ addr. ok tt;
  written = λ req. [];
}

abbrev sample_request : Request
sample_request = record {
  method = codes "CONNECT";
  scheme = [];
  hostname = codes "df";
  port = [];
  host = codes "df";
}

abbrev reachable : Linker → List ℕ → ℕ → Bool
reachable linker host port = port == 80

request_passed_on_example :
    let asked = hello ++ s5_request sample_net (codes "df") 80 in
    (reply : List ℕ) × (Serve.handle_conn sample_net false reachable
        (hello ∷ s5_request sample_net (codes "df") 80 ∷ (4 ∷ []) ∷ [])
      ≡ Serve.proxied reply ((4 ∷ []) ∷ []))
    × (handle_conn sample_lib sample_net [] sample_request (reply ++ (3 ∷ [])) ≡ (
      (if is_connect sample_lib sample_request
          then proxied (codes "HTTP/1.1 200 OK" ++ (13 ∷ 10 ∷ 13 ∷ 10 ∷ [])) asked
          else proxied [] (asked ++ sample_lib.written sample_request)),
      3 ∷ [],
    ))
request_passed_on_example =
    request_passed_on sample_lib sample_net false reachable [] (3 ∷ []) sample_request 80
      ((4 ∷ []) ∷ []) refl refl refl (name refl) (omega arith) (omega arith) (unfold answer in refl)
