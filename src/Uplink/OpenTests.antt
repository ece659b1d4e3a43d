-- ===== src/Uplink/OpenTests.antt =====
-- A dial whose target refuses, and two callers that look up one name.
use df.Uplink.Shared.{
  outside, waiting, asking, calling, Lookups, at, set, Mem, first, Reach, here, handler_blocks,
}
use df.Prelude.{ℕ, ◌≡◌, refl, arith, some, false, List, [], ◌∷◌, ◌++◌, bytes_eq, if◌then◌else◌}
use df.Io.{Result, ok, err, Error, buffer_write, json_failed, bad_address}
use df.Cache.{TsCache}
use df.Conf.{codes}
use df.Message.{
  Message, MessageRequestDial, MessageConnectionState, request_dns, result_dns, request_dial,
  connection_state, conn_data, ping,
}
use df.Codec.{Json}
use df.Codec
use df.Codec.Tests.{sample_noise}
use df.Socks5.{Net}
use df.Tunnel.Session.{dialing, handle}
use df.Tunnel.Dial.{state_of, handle_dial}
use df.Uplink.{Uplink, worker}
use df.Uplink.Open.{start_dial, Answered, dial-Answered}

abbrev sample_id : List ℕ
sample_id = codes "c1"

abbrev sample_addr : List ℕ
sample_addr = codes "::1:80"

abbrev sample_dial : MessageRequestDial
sample_dial = record {
  id = 0;
  network = codes "tcp";
  address = sample_addr;
  connection_id = sample_id;
}

abbrev reason : Error → List ℕ
reason e = codes "refused"

abbrev sample_failure : MessageConnectionState
sample_failure = state_of sample_id (codes "error") (codes "net.Dial: refused")

abbrev sample_open : MessageConnectionState
sample_open = state_of sample_id (codes "open") []

-- A serialisation of the messages of one dial in place of JSON.
abbrev dial_marshal : Message → Result (List ℕ)
dial_marshal (request_dns m) = err json_failed
dial_marshal (result_dns m) = err json_failed
dial_marshal (request_dial m) = ok (m.network ++ m.address)
dial_marshal (connection_state m) = ok m.state
dial_marshal (conn_data m) = err json_failed
dial_marshal (ping m) = err json_failed

abbrev dial_json : Json
dial_json = record {
  marshal = dial_marshal;
  unmarshal_request_dns = λ dat. err json_failed;
  unmarshal_request_dial = λ dat. ok sample_dial;
  unmarshal_connection_state =
      λ dat. ok (if bytes_eq dat (codes "open") then sample_open else sample_failure);
}

abbrev dial_net : Net
dial_net = record {
  ip_string = λ ip. codes "::1";
  is_link_local_unicast = λ ip. false;
  is_link_local_multicast = λ ip. false;
  is_loopback = λ ip. false;
  is_private = λ ip. false;
  is_multicast = λ ip. false;
  is_unspecified = λ ip. false;
  parse_ip = λ host. 1 ∷ 2 ∷ [];
}

abbrev split_at_port : List ℕ → Result (List ℕ × List ℕ)
split_at_port addr = ok (codes "::1", codes "80")

abbrev no_dial : List ℕ → List ℕ → Result (Unit {0})
no_dial network addr = err bad_address

abbrev no_lookup : List ℕ → Result (List (List ℕ))
no_lookup host = err bad_address

abbrev no_cache : TsCache (List (List ℕ))
no_cache = record { items = []; entry_max_ttl = 5 }

abbrev no_handlers : Uplink
no_handlers = record { map_wait = []; map_wait_conn = [] }

dial-Answered_example :
    (handle dial_json sample_noise reason no_lookup buffer_write 1
        (Codec.write dial_json sample_noise buffer_write (request_dial sample_dial) []).1
        []
      ≡ (dialing sample_dial, [], []))
    × Answered reason dial_net 7 no_lookup split_at_port no_dial
        (codes "tcp")
        sample_addr
        no_cache
        sample_id
        (handle_dial dial_json sample_noise reason buffer_write dial_net 7 no_lookup split_at_port
          no_dial sample_dial no_cache []).0.0
        (worker dial_json 2
          (start_dial sample_id (codes "tcp") sample_addr no_handlers).1
          (handle_dial dial_json sample_noise reason buffer_write dial_net 7 no_lookup split_at_port
            no_dial sample_dial no_cache []).0.1).0
unfolding start_dial
dial-Answered_example =
    dial-Answered dial_json sample_noise sample_id refl reason dial_net 7 no_lookup split_at_port
      no_dial (codes "tcp") sample_addr no_handlers no_cache (omega arith)
      (record { dat = codes "tcp::1:80"; packs = refl; unpacks = refl; size_ok = omega arith })
      (record { dat = codes "open"; packs = refl; unpacks = refl; size_ok = omega arith })
      (λ e. record { dat = codes "error"; packs = refl; unpacks = refl; size_ok = omega arith })

-- One caller asks, and another has left a handler.
abbrev two_callers : Lookups
two_callers = record {
  handlers = some (2 ∷ []);
  phase = set 1 asking (set 2 waiting (λ k. outside));
}

handler_blocks_example :
    Reach two_callers (at 1 (calling (2 ∷ []) []) (at 2 asking two_callers))
    × ((left : List ℕ) × (ips : List (List ℕ)) × ((at 1
              (calling (2 ∷ []) [])
              (at 2 asking two_callers)).phase
            1
          ≡ calling left ips)
        × Mem 2 left)
handler_blocks_example =
    handler_blocks two_callers 1 2 (2 ∷ []) (2 ∷ []) [] refl refl first refl (λ k. (λ m. m, λ m. m))
      here
