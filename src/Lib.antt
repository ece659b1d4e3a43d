-- ===== src/Lib.antt =====
-- libsdf/df: tunnels for TCP connections and DNS requests, over framed, encrypted transports.
--
-- A SOCKS 5 server (socks/socks5) hands each request to a backend. A backend talks to a tunnel server
-- in messages (message), which a codec (message/codec/s1) puts on a transport as frames. The transport
-- h1pool lets many clients share connections in packets; each is a client of the transport h1, which agrees
-- on a key with the server in the headers of an HTTP request (http) and its response. The connections' bytes
-- then go through a framer (transport/framer), which encrypts them. Below them stand a byte buffer with a blocking reader
-- (utils) and a cache with expiry (lru).
--
-- Conventions. A byte, an unsigned integer and a character is a natural number, and a byte slice and
-- a string is a list of them. An integer of w bits wraps around where the code puts it into bytes
-- (Bytes) or adds to it. A call has a `Result`: a value, an error, or a panic. `Io` passes on the bytes
-- of a stream: those still to be read, or those written so far. `io.ReadFull` is `read_full`, and a
-- `bytes.Buffer`'s `Write` is `buffer_write`. The writer of a component is a parameter where the
-- statement is about any writer. Locks make an operation one step, and are not modelled otherwise,
-- but for the condition variable of the buffer.
--
-- The files, and the code that each is about:
-- - Prelude, Bytes, Io: lists, tests and slices; `encoding/binary`; results and streams.
-- - SyncMap: `sync.Map` with string keys.
-- - Message: message/message.go. The constructors of `Message` are the types of the interface.
-- - Codec: message/codec/s1/writer.go and reader.go. `write_many` is `writeMany`, `write` is
--   `Writer.Write`, `read` is `Reader.Read`. `encoding/json` is the parameter `Json`, and the eight
--   random bytes of a ping are a parameter.
-- - ReadBuf: `appendBuf` and the first branch of `Read` in transport/framer/f1/f1.go, which the other
--   readers repeat.
-- - F1: transport/framer/f1/f1.go and encrypt.go. `read_chunk` is the middle of `Read`, `derive_key` the
--   key that `Framer` makes. `crypto/aes` is the parameter `aes`, of which the proofs use only that a
--   block has 16 bytes; cipher feedback is written out. `crypto/rand` is the parameter `Random`.
-- - Ws: transport/framer/ws/ws.go, on the encryption of F1.
-- - Pool: transport/h1pool. Pool.Packet is packet.go, Pool.Server what server.go does with a packet,
--   Pool.Client the shared and the divided clients of client.go, Pool.Session the two together, Pool.Reply
--   the way back from an instance, Pool.Life the rounds of a shared client and Pool.Supply how shared clients
--   are added.
-- - Buffer: utils/buffer.go. `read` is a `Read` up to its wait; Buffer.Wait has the loop behind it, as
--   steps of a reader and those who write and close.
-- - Cache: lru/ts_cache.go.
-- - VirtualConn: socks/backend/virtual_conn.go.
-- - Tunnel: the choice of a target in socks/tunnel/server_handler.go, with `lookupIP`.
--   Tunnel.Session is `handle` up to a dial request, Tunnel.Dial `handleDialConn` up to the reply,
--   Tunnel.Relay what it does once the target is connected; Tunnel.Copy merges the events of its two
--   goroutines in any order.
-- - Uplink: socks/backend/backend_secure.go. `dispatch` is a round of `worker`, which says what the handler
--   sends. Uplink.Open is `Dial` up to the connection, and Uplink.Shared has the callers of `LookupIP` for one
--   name, as steps. Uplink.Dials has the sends that wait for a receiver, as steps of one connection and the
--   worker.
-- - Conf, Framer: conf, and the functions `Framer` of transport/framer/f1 and ws. `strconv`,
--   `encoding/base64` and `strings.EqualFold` are the parameters `Strconv` and `Text`.
-- - H1: transport/h1. `handle_server_conn` is `handleServerConn` from the client's id on, H1.Reply its
--   response, `auth_header` and `finish_connect` are in `Client.Connect`, before and behind the response.
--   H1.Client has the client's methods and `RelayTraffic`, H1.Web the whole of `Connect` and of
--   `handleServerConn` up to its handler, from bytes to bytes. `Web` and `Letters` stand for `net/url`,
--   `strings`, `net/textproto` and `crypto/sha1`.
-- - Http: http/response.go, over the results of the connection's reads. Http.Header is header.go and
--   `PeekHeader` of http.go.
-- - F1g: transport/framer/f1g/f1g.go.
-- - Proxy: utils/proxy.go, as steps of its goroutines. Rand: utils/rand.go.
-- - Log: log. Log.Format reads a format in pieces, Log.Values says what its variables stand
--   for. Log.Logger is the logger with its methods, Log.Handlers the two handlers and the steps of the
--   syslog handler's worker, Log.Syslog the entries that it sends.
-- - Socks5: socks/socks5/socks5.go and client.go, and utils/ip.go; Socks5.Serve is server.go. The package
--   `net` is the parameter `Net`, and the backend is the function `dial`. H2s: h2s/server.go, the HTTP proxy
--   in front of it.
--
-- Fuel. `cfb_encrypt` and `cfb_decrypt` have the data's length, and a round takes a byte at least.
-- `write_rounds` has a round more than there are bytes, `repeat_key` one more than the key has bytes, and
-- `grow` one more than the size wanted; each has a lemma that it does not run out. `handle` has a round more
-- than there are bytes, and so has `take_lines`; `worker` and `from_client` stop at their fuel, and the
-- statements give the rounds for the messages that there are. `read_full_from` needs a test more than there
-- are reads, and says where it has too few.
--
-- Not modelled: the UDP transport, the dialling and listening, the timers but for what they lead to, the
-- registry of transports, and the examples. Goroutines appear as the steps that they make.
pub mod Prelude
pub mod Bytes
pub mod Io
pub mod Log
pub mod Message
pub mod Codec
pub mod ReadBuf
pub mod F1
pub mod Pool
pub mod Buffer
pub mod SyncMap
pub mod Cache
pub mod Ws
pub mod Socks5
pub mod H2s
pub mod VirtualConn
pub mod Tunnel
pub mod Conf
pub mod Framer
pub mod H1
pub mod Uplink
pub mod Http
pub mod Proxy
pub mod F1g
pub mod Rand
