-- ===== src/Tunnel/Tests.antt =====
-- A run of the choice of a target.
use df.Prelude.{replicate, ◌≢◌, arith, ℕ, ◌≡◌, refl, false, List, [], ◌∷◌}
use df.Io.{buffer_write, ok}
use df.Cache.{get, TsCache}
use df.SyncMap.{load}
use df.Socks5.{Net}
use df.Tunnel.{host_target, lookup_ip, first_v4}
use df.Tunnel.Relay.{after_reads}
use df.Tunnel.Session.{handle, out_of_fuel}
use df.Tunnel.Ends.{handle_ends}
use df.Codec.Tests.{sample_json, sample_noise}
use df.Tunnel.Targets.{IsAllowed, host_target-IsAllowed}

-- A library with no special address, which takes nothing for an address.
abbrev sample_net : Net
sample_net = record {
  ip_string = λ ip. ip;
  is_link_local_unicast = λ ip. false;
  is_link_local_multicast = λ ip. false;
  is_loopback = λ ip. false;
  is_private = λ ip. false;
  is_multicast = λ ip. false;
  is_unspecified = λ ip. false;
  parse_ip = λ host. [];
}

abbrev sample_ip : List ℕ
sample_ip = 1 ∷ 2 ∷ 3 ∷ 4 ∷ []

abbrev sample_cache : TsCache (List (List ℕ))
sample_cache = record { items = []; entry_max_ttl = 5 }

host_target-IsAllowed_example : IsAllowed sample_net (b'd' ∷ []) sample_ip
host_target-IsAllowed_example =
    host_target-IsAllowed sample_net 7 (λ host. ok (sample_ip ∷ [])) (b'd' ∷ []) sample_cache
      {target = sample_ip} (unfold host_target lookup_ip first_v4 get load in refl)

abbrev sample_ips : List (List ℕ)
sample_ips = sample_ip ∷ []

handle_ends_example :
    (handle sample_json sample_noise
      (λ e. [])
      (λ host. ok sample_ips)
      buffer_write
      6
      (1 ∷ 2 ∷ 3 ∷ [])
      []).0
    ≢ out_of_fuel
handle_ends_example =
    handle_ends sample_json sample_noise (λ e. []) (λ host. ok sample_ips) buffer_write 6
      (1 ∷ 2 ∷ 3 ∷ []) [] (omega arith)

-- Ten full reads double the buffer.
after_ten_reads : after_reads (65536, 0) (replicate 10 65536) ≡ (131072, 10)
unfolding after_reads
after_ten_reads = refl
