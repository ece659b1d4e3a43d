-- ===== src/Uplink/Tests.antt =====
-- Runs of an uplink.
use df.Prelude.{
  map, inl, inr, sym, ◌∙◌, Bool-cases, bytes_eq→eq, ℕ, ◌≤◌, ◌≡◌, ◌≢◌, refl, arith, List, [], ◌∷◌,
  ◌++◌, none, some, false, if◌then◌else◌, bytes_eq,
}
use df.Io.{Result, ok, err, Error, bad_address, buffer_write}
use df.SyncMap.{load}
use df.Cache.{TsCache}
use df.Message.{Message, MessageRequestDns, MessageConnectionState, connection_state, conn_data}
use df.Codec.Tests.{sample_json, sample_noise}
use df.Tunnel.Session.{handle}
use df.Bytes.{get_u}
use df.Io.{read_full}
use df.Codec
use df.Tunnel.Relay.{Event, got_down, got_data, running, relay, from_client, data_of}
use df.Tunnel.Copy.{Merge, both_done, from_left, from_right}
use df.Uplink.Carry.{write_chunks, tunnel_carries}
use df.Uplink.{to_conn, Uplink, nothing, to_lookup, to_dial, next_ns_req_id, worker, dispatch}
use df.Uplink.Ids.{issued, issued_distinct}
use df.Uplink.Names.{started, write_requests, IsCarried, lookups_answered}
use df.Uplink.Dials.{Dials, IsValid, Reach, here, next, reads, data_taken, others_change}
use df.Uplink.Order.{if_some, coming, arrived_in_order}
use df.Uplink.Stuck.{late_state_blocks}

issued_distinct_example :
    (1 ≤ issued next_ns_req_id 5 32768)
    × (issued next_ns_req_id 5 32768 ≤ 32769)
    × (issued next_ns_req_id 5 32768 ≢ issued next_ns_req_id 7 32768)
issued_distinct_example = issued_distinct 32768 5 7 (omega arith) (omega arith) (omega arith)

abbrev sample_name : List ℕ
sample_name = b'd' ∷ b'f' ∷ []

abbrev other_name : List ℕ
other_name = b'g' ∷ b'o' ∷ []

abbrev sample_ask : MessageRequestDns
sample_ask = record { id = 3; network = b'i' ∷ b'p' ∷ []; domain_name = sample_name }

abbrev other_ask : MessageRequestDns
other_ask = record { id = 4; network = b'i' ∷ b'p' ∷ []; domain_name = other_name }

abbrev sample_lookup : List ℕ → Result (List (List ℕ))
sample_lookup host =
    if bytes_eq host sample_name then ok ((1 ∷ 2 ∷ 3 ∷ 4 ∷ []) ∷ []) else err bad_address

abbrev sample_error : Error → List ℕ
sample_error e = b'e' ∷ []

abbrev sample_uplink : Uplink
sample_uplink = record { map_wait = []; map_wait_conn = (sample_name, sample_name) ∷ [] }

sample_ask-IsCarried : IsCarried sample_json sample_error sample_lookup sample_ask
sample_ask-IsCarried = record {
  dat = 3 ∷ 2 ∷ b'i' ∷ b'p' ∷ sample_name;
  marshals = refl;
  unmarshals = refl;
  positive = omega arith;
  id_ok = omega arith;
  dat_ok = omega arith;
  reply_ok = omega arith;
}

other_ask-IsCarried : IsCarried sample_json sample_error sample_lookup other_ask
other_ask-IsCarried = record {
  dat = 4 ∷ 2 ∷ b'i' ∷ b'p' ∷ other_name;
  marshals = refl;
  unmarshals = refl;
  positive = omega arith;
  id_ok = omega arith;
  dat_ok = omega arith;
  reply_ok = omega arith;
}

lookups_answered_example :
    (worker sample_json 3
      (started (sample_ask ∷ other_ask ∷ []) sample_uplink)
      (handle sample_json sample_noise sample_error sample_lookup buffer_write 3
        (write_requests sample_json sample_noise (sample_ask ∷ other_ask ∷ []) []).1
        []).2).0
    ≡ to_lookup sample_name
        (some (record { id = 0; ack = 3; addresses = (1 ∷ 2 ∷ 3 ∷ 4 ∷ []) ∷ []; error = [] }))
      ∷ to_lookup other_name
          (some (record { id = 0; ack = 4; addresses = []; error = sample_error bad_address }))
      ∷ []
lookups_answered_example =
    lookups_answered sample_json sample_noise sample_error sample_lookup
      (sample_ask ∷ other_ask ∷ []) sample_uplink refl tt ((ground arith, tt), (tt, tt))
      (sample_ask-IsCarried, (other_ask-IsCarried, tt))

abbrev sample_chunk : Message
sample_chunk = conn_data (record { id = 0; ack = 0; connection_id = sample_name; body = 7 ∷ [] })

abbrev sample_state : MessageConnectionState
sample_state = record {
  id = 0;
  ack = 0;
  connection_id = sample_name;
  state = [];
  error = [];
  error_type = [];
}

abbrev before_read : Dials
before_read = record {
  uplink = sample_uplink;
  incoming = sample_chunk ∷ [];
  busy = nothing;
  dialing = false;
  arrived = [];
}

sample_uplink-IsValid : IsValid sample_uplink
unfolding load
sample_uplink-IsValid = (
  (refl, tt),
  λ k v e. elim (Bool-cases (bytes_eq sample_name k)) [
    | inl same ↦
        let n = bytes_eq→eq sample_name k same in
        let found : some sample_name ≡ some v = sym (rw same refl) ∙ e in cc
    | inr other ↦ let gone : none ≡ some v = sym (rw other refl) ∙ e in cc
  ],
)

abbrev after_read : Dials
after_read = record {
  uplink = sample_uplink;
  incoming = [];
  busy = nothing;
  dialing = false;
  arrived = (7 ∷ []) ∷ [];
}

sample-Reach : Reach sample_name before_read after_read
unfolding dispatch load
sample-Reach = next (next here (reads sample_chunk [] refl refl)) (data_taken (7 ∷ []) refl)

arrived_in_order_example :
    (more : List (List ℕ)) × (if_some
        (load sample_name sample_uplink.map_wait_conn)
        (coming sample_name (sample_chunk ∷ []))
      ≡ ((7 ∷ []) ∷ []) ++ more)
arrived_in_order_example =
    arrived_in_order sample_name (omega arith) sample_uplink-IsValid refl refl sample-Reach

abbrev late_state : Dials
late_state = record before_read { incoming = connection_state sample_state ∷ sample_chunk ∷ [] }

sample_kept : load sample_name sample_uplink.map_wait_conn ≡ some sample_name
unfolding load
sample_kept = refl

-- The state has been read, and then the chunk's message waits.
abbrev blocked : Dials
blocked = record {
  uplink = sample_uplink;
  incoming = sample_chunk ∷ [];
  busy = to_dial sample_name sample_state;
  dialing = false;
  arrived = [];
}

sample_blocked :
    Reach sample_name
      (record late_state {
        uplink = (dispatch sample_uplink (connection_state sample_state)).1;
        incoming = sample_chunk ∷ [];
        busy = (dispatch sample_uplink (connection_state sample_state)).0;
      })
      blocked
unfolding dispatch load
sample_blocked = next here (others_change sample_uplink refl sample_uplink-IsValid)

late_state_blocks_example :
    (blocked.incoming ≡ sample_chunk ∷ []) × (blocked.busy ≡ to_dial sample_name sample_state)
late_state_blocks_example =
    late_state_blocks sample_name sample_state (sample_chunk ∷ []) late_state (omega arith) refl
      refl sample_kept refl sample_blocked

abbrev no_names : TsCache (List (List ℕ))
no_names = record { items = []; entry_max_ttl = 5 }

abbrev sample_downs : List (List ℕ)
sample_downs = (4 ∷ []) ∷ []

-- The target's chunk comes before the client's.
abbrev sample_events : List Event
sample_events = got_down (4 ∷ []) ∷ got_data (data_of sample_name (7 ∷ 8 ∷ [])) ∷ []

sample-Merge :
    Merge
      (from_client sample_json 1
        (write_chunks sample_json sample_noise sample_name ((7 ∷ 8 ∷ []) ∷ []) []).1)
      (map got_down sample_downs)
      sample_events
unfolding from_client write_chunks Codec.read Codec.write read_full buffer_write get_u
sample-Merge =
    from_right (got_down (4 ∷ []))
      (from_left (got_data (data_of sample_name (7 ∷ 8 ∷ []))) both_done)

tunnel_carries_example :
    (out : List ℕ) × (relay sample_json sample_noise buffer_write buffer_write sample_name
        sample_events [] []
      ≡ (running, 7 ∷ 8 ∷ [], out))
    × ((worker sample_json 2 sample_uplink out).0 ≡ to_conn sample_name (4 ∷ []) ∷ [])
tunnel_carries_example =
    tunnel_carries sample_json sample_noise sample_name refl ((7 ∷ 8 ∷ []) ∷ []) sample_downs
      sample_events sample_uplink (omega arith) sample_kept (omega arith, tt) (omega arith, tt)
      sample-Merge
