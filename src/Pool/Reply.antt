-- ===== src/Pool/Reply.antt =====
-- transport/h1pool: from an instance of the server back to the divided client. A channel does not bound
-- what waits in it; the times that an instance and a channel were last active are left out.
use df.Prelude.{
  All, bytes_eq, true, ℕ, ◌+◌, ◌≤◌, ◌≡◌, refl, sym, ap, ◌∙◌, arith, false, List, [], ◌∷◌, ◌++◌,
  length, map, Option, none, some, append-nil, append_assoc, length-append,
}
use df.Bytes.{IsU32}
use df.Io.{Result, ok, err, eof, Io, pure, buffer_write, ◌>>◌}
use df.Buffer
use df.Buffer.{ReadWriteBuffer, Outcome, buf_size, buf_size_max}
use df.Buffer.Queue
use df.Buffer.Room.{write_appends}
use df.SyncMap.{load, store, delete}
use df.Pool.Packet.{Packet, Meta, op_data, op_eos, write_packet, read_packet}
use df.Pool.Packet.RoundTrip.{
  Carries, read_packets, read_packets-write_packet, chunks_of, seen, joined,
}
use df.Pool.Packet.Eos.{read_packet-write_packet, without_id}
use df.Pool.Server.Choice.{Occurs, IsDated, IsNewest, Newest-some, get_reply_channel-Newest}
use df.Pool.Server.{Instance, Server, ReplyChannel, get_reply_channel, on_packet}
use df.Pool.Client.{DividedClient, Pool, divided_close, fed, receive}
use df.Pool.Session.{close_lost, length-map, length-contents, load-store_same}

-- The packets of `instance.Write`, and of `start` behind the handler's end.
abbrev pub reply_packet : Instance → List ℕ → Packet
reply_packet t dat = record { client_id = t.client_id; serial = 0; op = op_data; body = dat }

abbrev pub end_packet : Instance → Packet
end_packet t = record { client_id = t.client_id; serial = 0; op = op_eos; body = [] }

abbrev pub replied :
    Instance → List ℕ → Option ReplyChannel → Result ℕ × Option (ReplyChannel × Packet)
replied t dat none = (err eof, none)
replied t dat (some ch) = (ok (length dat), some (ch, reply_packet t dat))

-- `instance.Write`: the result, and what it sends on which channel.
unfoldable pub instance_write :
    Instance → List ℕ → List ReplyChannel → Result ℕ × Option (ReplyChannel × Packet)
instance_write t dat chs = replied t dat (get_reply_channel t chs)

unfoldable pub instance_read : Instance → ℕ → Outcome × Instance
instance_read t n = ((Buffer.read t.buf n).0, record t { buf = (Buffer.read t.buf n).1 })

-- What ends `start`: a signal of `Close`, or the end of the handler.
pub data Ending : Type 0 where
  by_client by_server : Ending

abbrev pub end_sent : Instance → Option ReplyChannel → Option (ReplyChannel × Packet)
end_sent t none = none
end_sent t (some ch) = some (ch, end_packet t)

-- `instance.start`: the instances without this one, and what is sent.
unfoldable pub start_ends :
    Instance
    → Ending
    → List ReplyChannel
    → List (List ℕ × Instance)
    → List (List ℕ × Instance) × Option (ReplyChannel × Packet)
start_ends t by_client chs instances = (delete t.client_id instances, none)
start_ends t by_server chs instances =
    (delete t.client_id instances, end_sent t (get_reply_channel t chs))

module _ (json : Meta) (w : List ℕ → Io ℕ) where
  -- The last loop of `pooledServerHandler`, on what comes on `chReply`.
  unfoldable pub write_replies : List Packet → Io (Unit {0})
  write_replies [] = pure tt
  write_replies (p ∷ ps) = do write_packet json w p; write_replies ps

-- The reading loop of `client.start`, on packets that come at the time `now`.
unfoldable pub receive_all : ℕ → List Packet → Pool → Pool
receive_all now [] s = s
receive_all now (p ∷ ps) s = receive_all now ps (receive now p s)

-- A divided client that takes what comes.
pub record IsOpen (cl : DividedClient) : Type 0 where
  pub valid : Queue.IsValid cl.buf
  pub opened : cl.buf.eof ≡ false

-- What a client has after the packets of one write.
record Reaches (cid : List ℕ) (s : Pool) (before body : List ℕ) : Type 0 where
  cl : DividedClient
  loaded : load cid s.clients ≡ some cl
  whole : Queue.contents cl.buf ≡ before ++ body
  is_open : IsOpen cl

abbrev fill : DividedClient → List ℕ → DividedClient
fill cl dat = record cl { buf = (Buffer.write cl.buf dat).1 }

fill-IsOpen :
    (cl : DividedClient) (dat : List ℕ)
    → IsOpen cl
    → cl.buf.buf_len + length dat + buf_size ≤ buf_size_max
    → IsOpen (fill cl dat) × (Queue.contents (fill cl dat).buf ≡ Queue.contents cl.buf ++ dat)
fill-IsOpen cl dat o h =
    let (whole, v, e) = write_appends cl.buf dat o.valid o.opened h in
    (record { valid = v; opened = e }, whole)

module _ (json : Meta) (now : ℕ) (t : Instance) (body metab : List ℕ) where
  abbrev piece : List ℕ → Packet
  piece dat = seen json (reply_packet t body) metab t.client_id dat

  receive_data :
      (dat : List ℕ) (s : Pool) {cl : DividedClient}
      → load t.client_id s.clients ≡ some cl
      → (receive now (piece dat) s).clients ≡ store t.client_id (fill cl dat) s.clients
  unfolding receive
  receive_data dat s h =
      let sc = s.shared in
      let s' : Pool = record s {
        shared = record sc { bytes_recv = sc.bytes_recv + length dat; last_data_unix = now };
      } in
      ap (λ o. (fed (piece dat) s' o).clients) h

  receive_pieces :
      (dats : List (List ℕ)) (s : Pool) (cl : DividedClient)
      → load t.client_id s.clients ≡ some cl
      → IsOpen cl
      → cl.buf.buf_len + length (joined dats) + buf_size ≤ buf_size_max
      → Reaches t.client_id
          (receive_all now (map piece dats) s)
          (Queue.contents cl.buf)
          (joined dats)
  unfolding receive_all
  receive_pieces [] s cl h o room = record {
    cl = cl;
    loaded = h;
    whole = sym (append-nil (Queue.contents cl.buf));
    is_open = o;
  }
  receive_pieces (dat ∷ dats) s cl h o room =
      let (o', whole') = fill-IsOpen cl dat o (omega (arith, length-append dat (joined dats))) in
      let s1 = receive now (piece dat) s in
      let h1 : load t.client_id s1.clients ≡ some (fill cl dat) =
        ap (load t.client_id) (receive_data dat s h)
        ∙ load-store_same t.client_id (fill cl dat) s.clients in
      let more = receive_pieces dats s1 (fill cl dat) h1 o' (
        omega (
          arith,
          length-append dat (joined dats),
          length-contents cl.buf o.valid,
          length-contents (fill cl dat).buf o'.valid,
          ap length whole',
          length-append (Queue.contents cl.buf) dat,
        )) in
      record {
        cl = more.cl;
        loaded = more.loaded;
        whole =
            more.whole
            ∙ ap (λ x. x ++ joined dats) whole'
            ∙ append_assoc (Queue.contents cl.buf) dat (joined dats);
        is_open = more.is_open;
      }

write_replies-one :
    (json : Meta) (p : Packet) {wire : List ℕ}
    → write_packet json buffer_write p [] ≡ (ok tt, wire)
    → write_replies json buffer_write (p ∷ []) [] ≡ (ok tt, wire)
unfolding write_replies
write_replies-one json p e = rw e refl

-- What an instance writes arrives at its divided client: `Write` succeeds and sends a packet on the newest
-- of the reply channels of the instance's trunk, provided that there is one; and from the bytes that the
-- loop of a channel writes for that packet the client reads packets, leaves what follows them, and after
-- them has the data behind the bytes it had. The channels have been created after the epoch. The client is
-- in the table, with an open buffer that stays 4096 bytes or more below its maximum, and its id's JSON is
-- read back and has 1024 bytes at most.
pub reply_arrives :
    (json : Meta) (now : ℕ) (t : Instance) (chs : List ReplyChannel) (c : ReplyChannel)
    (dat metab rest : List ℕ) (s : Pool) (cl : DividedClient)
    → All IsDated chs
    → Occurs c chs
    → bytes_eq c.trunk_prefix t.trunk_prefix ≡ true
    → load t.client_id s.clients ≡ some cl
    → IsOpen cl
    → json.marshal t.client_id ≡ ok metab
    → Carries json metab t.client_id
    → cl.buf.buf_len + length dat + buf_size ≤ buf_size_max
    → (ch : ReplyChannel) × (p : Packet) × (instance_write t dat chs
        ≡ (ok (length dat), some (ch, p)))
      × IsNewest t.trunk_prefix chs ch
      × ((ps : List Packet) × (cl' : DividedClient) × (read_packets json
              (length ps)
              ((write_replies json buffer_write (p ∷ []) []).1 ++ rest)
            ≡ (ok ps, rest))
          × (load t.client_id (receive_all now ps s).clients ≡ some cl')
          × (Queue.contents cl'.buf ≡ Queue.contents cl.buf ++ dat)
          × (cl'.buf.eof ≡ false))
unfolding instance_write
reply_arrives json now t chs c dat metab rest s cl dated there_is of_trunk there o e carries room =
    let p = reply_packet t dat in
    let (ch, found, is_newest) =
      Newest-some t.trunk_prefix chs c there_is of_trunk (get_reply_channel-Newest t chs dated) in
    let (w, r, whole, _) =
      read_packets-write_packet json p metab t.client_id rest refl (omega arith) e carries in
    let reached =
      receive_pieces json now t dat metab (chunks_of p) s cl there o
        (omega (arith, ap length whole)) in
    (
      ch,
      p,
      ap (replied t dat) found,
      is_newest,
      (
        map (seen json p metab t.client_id) (chunks_of p),
        reached.cl,
        rw (length-map (seen json p metab t.client_id) (chunks_of p)) (
            ap (λ x. read_packets json (length (chunks_of p)) (x.1 ++ rest))
              (write_replies-one json p w)
            ∙ r),
        reached.loaded,
        reached.whole ∙ ap (λ x. Queue.contents cl.buf ++ x) whole,
        reached.is_open.opened,
      ),
    )

-- An end is lost both ways. The packet by which a divided client closes changes nothing on any server that
-- reads it; and the packet by which the server ends an instance, which has a reply channel, changes no
-- client and makes none of them send anything, as long as no client's id is empty.
pub ends_lost :
    (json : Meta) (now : ℕ) (c : DividedClient) (clients : List (List ℕ × DividedClient))
    (trunk rest : List ℕ) (v : Server) (t : Instance) (chs : List ReplyChannel) (ch : ReplyChannel)
    (instances : List (List ℕ × Instance)) (s : Pool)
    → IsU32 c.serial
    → get_reply_channel t chs ≡ some ch
    → load [] s.clients ≡ none
    → ((p : Packet) × (read_packet json
            ((write_packet json buffer_write (divided_close c clients).2 []).1 ++ rest)
          ≡ (ok p, rest))
        × (on_packet trunk p v ≡ v))
      × ((start_ends t by_server chs instances).1 ≡ some (ch, end_packet t))
      × ((p : Packet) × (read_packet json
              ((write_packet json buffer_write (end_packet t) []).1 ++ rest)
            ≡ (ok p, rest))
          × ((receive now p s).clients ≡ s.clients)
          × ((receive now p s).sent ≡ s.sent))
unfolding start_ends receive
ends_lost json now c clients trunk rest v t chs ch instances s hs chosen nobody = (
  close_lost json c clients trunk rest v hs,
  ap (end_sent t) chosen,
  (
    without_id (end_packet t),
    read_packet-write_packet json (end_packet t) rest refl refl (omega arith) refl,
    rw nobody refl,
    rw nobody refl,
  ),
)
