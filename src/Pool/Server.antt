-- ===== src/Pool/Server.antt =====
-- transport/h1pool/server.go: the server's end of a shared transport.
-- The instances are a `sync.Map`. The goroutines of the instances and the tunnel are not modelled: an
-- instance is what its transport's reader sees of it. Channels do not bound what waits in them.
pub mod Choice
use df.Prelude.{
  ℕ, ◌==◌, Bool, false, ◌||◌, List, [], ◌∷◌, ◌++◌, length, leb, Option, none, some, if◌then◌else◌,
  bytes_eq, ltb,
}
use df.Buffer
use df.Buffer.{ReadWriteBuffer, new_buffer}
use df.SyncMap.{load, store}
use df.Pool.Packet.{Packet, op_ping, op_pong, op_eos}

pub record Instance : Type 0 where
  pub trunk_prefix : List ℕ
  pub client_id : List ℕ
  pub buf : ReadWriteBuffer
  -- `start` is at its `select`, where it receives from `chCloseByClient`
  pub waits : Bool
  -- it has received from it
  pub closed_by_client : Bool

unfoldable pub new_instance : List ℕ → List ℕ → Instance
new_instance trunk_prefix client_id = record {
  trunk_prefix = trunk_prefix;
  client_id = client_id;
  buf = new_buffer;
  waits = false;
  closed_by_client = false;
}

-- `instance.writePacket`, which drops an error of `Write`.
unfoldable pub take_packet : Instance → Packet → Instance
take_packet t p = record t { buf = (Buffer.write t.buf p.body).1 }

-- The send on `chCloseByClient` has a `default`.
unfoldable pub close_instance : Instance → Instance
close_instance t = record t {
  buf = (Buffer.close t.buf).1;
  waits = false;
  closed_by_client = t.waits || t.closed_by_client;
}

pub record Server : Type 0 where
  pub instances : List (List ℕ × Instance)
  -- the packets sent to the transport's `chReply`
  pub replies : List Packet

abbrev pub closed_if_found : List ℕ → Server → Option Instance → Server
closed_if_found cid s none = s
closed_if_found cid s (some inst) = record s {
  instances = store cid (close_instance inst) s.instances;
}

abbrev pub accepted : List ℕ → Packet → Server → Option Instance → Server
accepted trunk_prefix p s (some inst) = record s {
  instances = store p.client_id (take_packet inst p) s.instances;
}
accepted trunk_prefix p s none =
    if p.serial == 0
    then record s {
      instances =
          store p.client_id (take_packet (new_instance trunk_prefix p.client_id) p) s.instances;
    }
    else s

abbrev pub pong : Packet
pong = record { client_id = []; serial = 0; op = op_pong; body = [] }

-- The reading loop's body in `pooledServerHandler`, for a packet that has been read.
unfoldable pub on_packet : List ℕ → Packet → Server → Server
unfolding take_packet close_instance new_instance
on_packet trunk_prefix p s =
    if p.op == op_ping
    then record s { replies = s.replies ++ pong ∷ [] }
    else if leb (length p.client_id) 0
    then s
    else if p.op == op_eos
    then closed_if_found p.client_id s (load p.client_id s.instances)
    else accepted trunk_prefix p s (load p.client_id s.instances)

-- Packets in the order in which they are read.
unfoldable pub on_packets : List ℕ → List Packet → Server → Server
unfolding on_packet
on_packets trunk_prefix [] s = s
on_packets trunk_prefix (p ∷ ps) s = on_packets trunk_prefix ps (on_packet trunk_prefix p s)

pub record ReplyChannel : Type 0 where
  pub trunk_prefix : List ℕ
  pub ch : List Packet
  pub created_at : ℕ

-- The `Range` of `getReplyChannel`, with `latest` and the channel found so far.
unfoldable pub reply_channel :
    List ℕ → List ReplyChannel → ℕ → Option ReplyChannel → Option ReplyChannel
reply_channel trunk_prefix [] latest best = best
reply_channel trunk_prefix (ch ∷ chs) latest best =
    let skipped = reply_channel trunk_prefix chs latest best in
    let taken = reply_channel trunk_prefix chs ch.created_at (some ch) in
    if bytes_eq ch.trunk_prefix trunk_prefix
    then (if latest == 0 || ltb latest ch.created_at then taken else skipped)
    else skipped

unfoldable pub get_reply_channel : Instance → List ReplyChannel → Option ReplyChannel
unfolding reply_channel
get_reply_channel t chs = reply_channel t.trunk_prefix chs 0 none
