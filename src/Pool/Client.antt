-- ===== src/Pool/Client.antt =====
-- transport/h1pool/client.go: the client's end, where divided clients share transports.
-- `clients` is a `sync.Map`. A time is a number of seconds. `c.client()`, which waits for a shared
-- client, is taken to have found one; the timers around `tick` are not modelled.
use df.Prelude.{
  ℕ, ◌+◌, ◌%◌, ◌^◌, ◌==◌, Bool, ◌&&◌, ◌||◌, List, [], ◌∷◌, ◌++◌, length, ltb, Option, none, some,
  if◌then◌else◌, bytes_eq,
}
use df.Buffer
use df.Buffer.{ReadWriteBuffer, new_buffer}
use df.Io.{Io, pure, ◌>>=◌, ◌>>◌}
use df.SyncMap.{load, store, delete}
use df.Pool.Packet.{Packet, Meta, op_data, op_ping, op_pong, op_eos, write_packet}

-- A shared client transport.
pub record SharedClient : Type 0 where
  pub id : List ℕ
  pub connected : Bool
  pub last_pong_unix : ℕ
  pub last_ping_unix : ℕ
  pub last_data_unix : ℕ
  pub created_at : ℕ
  pub bytes_recv : ℕ
  pub bytes_sent : ℕ

-- The `Range` of `queryClientInfo`, with `oldest`, `oldestId` and `total` so far.
unfoldable pub query_loop : List SharedClient → ℕ → List ℕ → ℕ → List ℕ × ℕ
query_loop [] oldest oldest_id total = (oldest_id, total)
query_loop (sc ∷ scs) oldest oldest_id total =
    let older = query_loop scs sc.created_at sc.id (total + 1) in
    let newer = query_loop scs oldest oldest_id (total + 1) in
    if oldest == 0 || ltb sc.created_at oldest then older else newer

unfoldable pub query_client_info : List ℕ → List SharedClient → Bool × ℕ
unfolding query_loop
query_client_info id scs = (bytes_eq (query_loop scs 0 [] 0).0 id, (query_loop scs 0 [] 0).1)

-- What the loop of `start` does every five seconds.
pub data Tick : Type 0 where
  stalled decommission send_ping idle : Tick

unfoldable pub tick : SharedClient → List SharedClient → ℕ → ℕ → Tick
unfolding query_client_info
tick c scs now serial =
    let info = query_client_info c.id scs in
    let is_idle = ltb (c.last_data_unix + 30) now in
    let idle_too_long = ltb (c.last_data_unix + 60) now in
    if ltb c.created_at c.last_ping_unix && ltb (c.last_pong_unix + 15) c.last_ping_unix
    then stalled
    else if ltb (c.created_at + 120) now && (info.0 && ((ltb 1 info.1 && is_idle) || idle_too_long))
    then decommission
    else if serial % 2 == 0
    then send_ping
    else idle

-- `client.writePacket`, with what it counts.
unfoldable pub send_packet : Meta → (List ℕ → Io ℕ) → ℕ → SharedClient → Packet → Io SharedClient
send_packet json tx now c p = do
  write_packet json tx p
  pure (
      if p.op == op_data
      then record c { bytes_sent = c.bytes_sent + length p.body; last_data_unix = now }
      else c)

pub record DividedClient : Type 0 where
  pub client_id : List ℕ
  pub buf : ReadWriteBuffer
  pub serial : ℕ

unfoldable pub new_divided_client : List ℕ → DividedClient
new_divided_client client_id = record { client_id = client_id; buf = new_buffer; serial = 0 }

-- `c.serial.Add(1) - 1` is the number before.
abbrev pub next_serial : DividedClient → DividedClient
next_serial c = record c { serial = (c.serial + 1) % 2 ^ 32 }

-- The packets of `Write` and of `Close`.
abbrev pub data_packet : DividedClient → List ℕ → Packet
data_packet c dat = record { client_id = c.client_id; serial = c.serial; op = op_data; body = dat }

abbrev pub eos_packet : DividedClient → Packet
eos_packet c = record { client_id = c.client_id; serial = c.serial; op = op_eos; body = [] }

-- `dividedClient.Write` on the shared client `sc`: the result, and the shared client afterwards.
unfoldable pub divided_write :
    Meta → (List ℕ → Io ℕ) → ℕ → SharedClient → DividedClient → List ℕ → Io (ℕ × SharedClient)
divided_write json tx now sc c dat = do
  sc' ← send_packet json tx now sc (data_packet c dat)
  pure (length dat, sc')

-- `dividedClient.Close`: the client with its buffer closed, the map without it, and the packet sent.
unfoldable pub divided_close :
    DividedClient
    → List (List ℕ × DividedClient)
    → DividedClient × List (List ℕ × DividedClient) × Packet
divided_close c clients = (
  next_serial (record c { buf = (Buffer.close c.buf).1 }),
  delete c.client_id clients,
  eos_packet c,
)

-- The state that the reading loop changes: the clients, the shared client, and the packets sent.
pub record Pool : Type 0 where
  pub clients : List (List ℕ × DividedClient)
  pub shared : SharedClient
  pub sent : List Packet

abbrev pub fed : Packet → Pool → Option DividedClient → Pool
fed p s none = s
fed p s (some cl) = record s {
  clients = store p.client_id (record cl { buf = (Buffer.write cl.buf p.body).1 }) s.clients;
}

abbrev pub ended : Pool → Option DividedClient → Pool
ended s none = s
ended s (some cl) = record s {
  clients = (divided_close cl s.clients).1;
  sent = s.sent ++ (divided_close cl s.clients).2 ∷ [];
}

-- The reading loop's body in `start`, for a packet read at the time `now`.
unfoldable pub receive : ℕ → Packet → Pool → Pool
unfolding divided_close
receive now p s =
    let sc = record s.shared { bytes_recv = s.shared.bytes_recv + length p.body } in
    if p.op == op_data
    then fed p (record s { shared = record sc { last_data_unix = now } })
        (load p.client_id s.clients)
    else if p.op == op_ping
    then record s { shared = sc }
    else if p.op == op_pong
    then record s { shared = record sc { last_pong_unix = now } }
    else if p.op == op_eos
    then ended (record s { shared = sc }) (load p.client_id s.clients)
    else record s { shared = sc }

-- The `Range` of `getAvailableSharedClient`, with `latest`, `sc` and `scAny` so far.
unfoldable pub available :
    List SharedClient
    → ℕ
    → Option SharedClient
    → Option SharedClient
    → Option SharedClient × Option SharedClient
available [] latest sc sc_any = (sc, sc_any)
available (c ∷ cs) latest none sc_any =
    let chosen = available cs c.created_at (some c) (some c) in
    let fallback = available cs latest (some c) (some c) in
    let skipped = available cs latest none (some c) in
    if latest == 0 || ltb latest c.created_at
    then (if c.connected then chosen else fallback)
    else skipped
available (c ∷ cs) latest (some sc) sc_any =
    let chosen = available cs c.created_at (some c) (some c) in
    let skipped = available cs latest (some sc) (some c) in
    if latest == 0 || ltb latest c.created_at
    then (if c.connected then chosen else skipped)
    else skipped

abbrev pub or_any : Option SharedClient × Option SharedClient → Option SharedClient
or_any (some sc, sc_any) = some sc
or_any (none, sc_any) = sc_any

unfoldable pub get_available_shared_client : List SharedClient → Option SharedClient
unfolding available
get_available_shared_client cs = or_any (available cs 0 none none)
