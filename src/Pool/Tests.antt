-- ===== src/Pool/Tests.antt =====
-- A session over h1pool with one client.
use df.SyncMap.{store, delete}
use df.Conf.{get, server_url}
use df.H1.Client.{new_client}
use df.Pool.Supply.{Change, adds, exits, change, count}
use df.Pool.Supply.Bound.{changes, changes_bound}
use df.Prelude.{
  ℕ, ◌+◌, ◌≤◌, ◌≡◌, refl, arith, List, [], ◌∷◌, ◌++◌, length, some, none, true, false, inl,
}
use df.Io.{ok, buffer_write}
use df.Buffer.{new_buffer}
use df.Buffer.Queue
use df.SyncMap.{load}
use df.Pool.Packet.{Packet, Meta, read_packet, write_packet}
use df.Pool.Packet.RoundTrip.{Carries-json, read_packets}
use df.Pool.Server.{
  Instance, new_instance, ReplyChannel, reply_channel, get_reply_channel, Server, on_packet,
  on_packets,
}
use df.Pool.Client.{SharedClient, DividedClient, Pool, receive, divided_write, divided_close}
use df.Pool.Session.{Ready, starting, write_arrives}
use df.Pool.Reply.{
  end_packet, instance_write, by_server, start_ends, write_replies, receive_all, IsOpen,
  reply_arrives, ends_lost,
}
use df.Pool.Server.Choice.{IsNewest}
use df.Pool.Life.{Round}

-- An id that stands for its own JSON.
abbrev sample_json : Meta
sample_json = record { marshal = ok; unmarshal = ok }

abbrev sample_id : List ℕ
sample_id = b'c' ∷ []

abbrev sample_dat : List ℕ
sample_dat = 7 ∷ 8 ∷ []

abbrev sample_rest : List ℕ
sample_rest = 9 ∷ []

abbrev sample_client : DividedClient
sample_client = record { client_id = sample_id; buf = new_buffer; serial = 0 }

abbrev sample_shared : SharedClient
sample_shared = record {
  id = b's' ∷ [];
  connected = true;
  last_pong_unix = 0;
  last_ping_unix = 0;
  last_data_unix = 0;
  created_at = 5;
  bytes_recv = 0;
  bytes_sent = 0;
}

abbrev sample_server : Server
sample_server = record { instances = []; replies = [] }

sample-Ready : Ready sample_client sample_server []
sample-Ready = starting (unfold load in refl) refl refl

write_arrives_example :
    let out = divided_write sample_json buffer_write 6 sample_shared sample_client sample_dat [] in
    (out.0
      ≡ ok (
        length sample_dat,
        record sample_shared { bytes_sent = 0 + length sample_dat; last_data_unix = 6 },
      ))
    × ((ps : List Packet) × (inst : Instance) × (read_packets sample_json
            (length ps)
            (out.1 ++ sample_rest)
          ≡ (ok ps, sample_rest))
        × (load sample_id (on_packets (b't' ∷ []) ps sample_server).instances ≡ some inst)
        × (Queue.contents inst.buf ≡ [] ++ sample_dat)
        × (inst.buf.eof ≡ false))
write_arrives_example =
    write_arrives sample_json sample_client sample_shared 6 (b't' ∷ []) sample_dat sample_id
      sample_rest [] sample_server sample-Ready (omega arith) (omega arith) refl
      (Carries-json sample_json sample_id sample_id (omega arith) (omega arith) refl) (omega arith)

abbrev channel : ℕ → ReplyChannel
channel created_at = record { trunk_prefix = b't' ∷ []; ch = []; created_at = created_at }

abbrev sample_channels : List ReplyChannel
sample_channels = channel 3 ∷ channel 8 ∷ channel 5 ∷ []

abbrev sample_instance : Instance
unfolding new_instance
sample_instance = new_instance (b't' ∷ []) sample_id

abbrev sample_pool : Pool
sample_pool = record {
  clients = (sample_id, sample_client) ∷ [];
  shared = sample_shared;
  sent = [];
}

newest_channel : get_reply_channel sample_instance sample_channels ≡ some (channel 8)
unfolding get_reply_channel reply_channel new_instance
newest_channel = refl

sample_loaded : load sample_id sample_pool.clients ≡ some sample_client
unfolding load
sample_loaded = refl

nobody_loaded : load [] sample_pool.clients ≡ none
unfolding load
nobody_loaded = refl

sample-IsOpen : IsOpen sample_client
unfolding new_buffer
sample-IsOpen = record { valid = omega arith; opened = refl }

reply_arrives_example :
    (ch : ReplyChannel) × (p : Packet) × (instance_write sample_instance sample_dat sample_channels
      ≡ (ok (length sample_dat), some (ch, p)))
    × IsNewest (b't' ∷ []) sample_channels ch
    × ((ps : List Packet) × (cl' : DividedClient) × (read_packets sample_json
            (length ps)
            ((write_replies sample_json buffer_write (p ∷ []) []).1 ++ sample_rest)
          ≡ (ok ps, sample_rest))
        × (load sample_id (receive_all 7 ps sample_pool).clients ≡ some cl')
        × (Queue.contents cl'.buf ≡ Queue.contents sample_client.buf ++ sample_dat)
        × (cl'.buf.eof ≡ false))
unfolding new_instance new_buffer
reply_arrives_example =
    reply_arrives sample_json 7 sample_instance sample_channels (channel 3) sample_dat sample_id
      sample_rest sample_pool sample_client (omega arith, (omega arith, (omega arith, tt)))
      (inl refl) refl sample_loaded sample-IsOpen refl
      (Carries-json sample_json sample_id sample_id (omega arith) (omega arith) refl) (omega arith)

ends_lost_example :
    ((p : Packet) × (read_packet sample_json (
          (write_packet sample_json buffer_write
            (divided_close sample_client sample_pool.clients).2
            []).1
          ++ sample_rest)
        ≡ (ok p, sample_rest))
      × (on_packet (b't' ∷ []) p sample_server ≡ sample_server))
    × ((start_ends sample_instance by_server sample_channels []).1
        ≡ some (channel 8, end_packet sample_instance))
    × ((p : Packet) × (read_packet sample_json (
            (write_packet sample_json buffer_write (end_packet sample_instance) []).1
            ++ sample_rest)
          ≡ (ok p, sample_rest))
        × ((receive 7 p sample_pool).clients ≡ sample_pool.clients)
        × ((receive 7 p sample_pool).sent ≡ []))
ends_lost_example =
    ends_lost sample_json 7 sample_client sample_pool.clients (b't' ∷ []) sample_rest sample_server
      sample_instance sample_channels (channel 8) [] sample_pool (omega arith) newest_channel
      nobody_loaded

abbrev round : ℕ → Round
round now = record {
  now = now;
  pinged_at = now;
  table = [];
  ping_ok = true;
  last_data = 0;
  sent = 0;
}

abbrev sample_changes : List Change
sample_changes = adds 7 (b'a' ∷ []) ∷ exits (b'a' ∷ []) ∷ adds 400 (b'b' ∷ []) ∷ []

changes_bound_example : length (changes ((server_url, b'u' ∷ []) ∷ []) sample_changes []) ≤ 5
changes_bound_example = changes_bound ((server_url, b'u' ∷ []) ∷ []) sample_changes [] (omega arith)

sample_added : length (changes ((server_url, b'u' ∷ []) ∷ []) sample_changes []) ≡ 1
unfolding changes change store delete load get new_client count
sample_added = refl
