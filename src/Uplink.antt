-- ===== src/Uplink.antt =====
-- socks/backend/backend_secure.go: the client's end of a tunnel, which shares one transport among the
-- names that it looks up and the connections that it dials. A handler that waits for a message stands
-- in a map, as the name that is looked up or as the connection; what a handler sends on its channel
-- is the result of the dispatch. A `uint32` key is a list of one number.
pub mod Ids
pub mod Names
pub mod Dials
pub mod Order
pub mod Stuck
pub mod Failures
pub mod Carry
pub mod Open
pub mod Shared
mod Tests
mod OpenTests
use df.Prelude.{
  ℕ, zero, suc, ◌+◌, ◌%◌, ◌^◌, List, [], ◌∷◌, ◌++◌, length, map, ltb, leb, Option, none, some,
  if◌then◌else◌,
}
use df.Io.{Result, ok, err, panic, Error}
use df.SyncMap.{load, store, delete}
use df.Cache.{TsCache, get, put}
use df.Message.{
  Message, MessageRequestDns, MessageResultDns, MessageConnectionState, MessageData, request_dns,
  result_dns, request_dial, connection_state, conn_data, ping, ack_message_id,
}
use df.Codec.{Json}
use df.Codec

-- The new value of `seedNsReqId`, which is the id.
unfoldable pub next_ns_req_id : ℕ → ℕ
next_ns_req_id seed = if ltb (2 ^ 15) seed then 1 else seed + 1

-- The handlers that wait; the transport and the uplink's name are left out.
pub record Uplink : Type 0 where
  pub map_wait : List (List ℕ × List ℕ)
  pub map_wait_conn : List (List ℕ × List ℕ)

-- What a dispatched message comes to: nothing, the send of a DNS result (`none` is nil) to the lookup of
-- a name, or of a state or of data to a connection.
pub data Sent : Type 0 where
  nothing : Sent
  to_lookup : List ℕ → Option MessageResultDns → Sent
  to_dial : List ℕ → MessageConnectionState → Sent
  to_conn : List ℕ → List ℕ → Sent

-- The handler that `LookupIP` stores.
abbrev pub lookup_handler : List ℕ → Message → Sent
lookup_handler dn (request_dns m) = to_lookup dn none
lookup_handler dn (result_dns rs) = to_lookup dn (some rs)
lookup_handler dn (request_dial m) = to_lookup dn none
lookup_handler dn (connection_state m) = to_lookup dn none
lookup_handler dn (conn_data m) = to_lookup dn none
lookup_handler dn (ping m) = to_lookup dn none

abbrev pub replied : Message → Option (List ℕ) → Sent
replied m none = nothing
replied m (some dn) = lookup_handler dn m

unfoldable pub dispatch_reply : Uplink → Message → Sent × Uplink
dispatch_reply l m =
    let ack = ack_message_id m ∷ [] in
    (replied m (load ack l.map_wait), record l { map_wait = delete ack l.map_wait })

-- The handler that `Dial` stores, for its connection.
abbrev pub conn_handler : List ℕ → Message → Sent
conn_handler conn_id (connection_state m1) = to_dial conn_id m1
conn_handler conn_id (conn_data m1) = to_conn conn_id m1.body
conn_handler conn_id (request_dns m1) = nothing
conn_handler conn_id (result_dns m1) = nothing
conn_handler conn_id (request_dial m1) = nothing
conn_handler conn_id (ping m1) = nothing

abbrev pub handled : Message → Option (List ℕ) → Sent
handled m none = nothing
handled m (some conn_id) = conn_handler conn_id m

abbrev pub conn_id_of : Message → List ℕ
conn_id_of (connection_state m1) = m1.connection_id
conn_id_of (conn_data m1) = m1.connection_id
conn_id_of (request_dns m1) = []
conn_id_of (result_dns m1) = []
conn_id_of (request_dial m1) = []
conn_id_of (ping m1) = []

unfoldable pub dispatch_conn_msg : Uplink → Message → Sent
dispatch_conn_msg l m =
    let conn_id = conn_id_of m in
    if ltb 0 (length conn_id) then handled m (load conn_id l.map_wait_conn) else nothing

-- One round of `worker`, behind the read.
unfoldable pub dispatch : Uplink → Message → Sent × Uplink
unfolding dispatch_reply dispatch_conn_msg
dispatch l m = if ltb 0 (ack_message_id m) then dispatch_reply l m else (dispatch_conn_msg l m, l)

abbrev pub work_on :
    Result Message × List ℕ → Uplink → (Uplink → List ℕ → List Sent × Uplink) → List Sent × Uplink
work_on (ok m, s) l k = let d = dispatch l m in let rest = k d.1 s in (d.0 ∷ rest.0, rest.1)
work_on (err e, s) l k = ([], l)
work_on (panic, s) l k = ([], l)

-- `worker`, where each send finds its receiver, by the rounds left.
unfoldable pub worker : Json → ℕ → Uplink → List ℕ → List Sent × Uplink
worker json zero l s = ([], l)
worker json (suc fuel) l s = work_on (Codec.read json s) l (worker json fuel)

-- `LookupIP` up to the request: the waiting handler and the request.
unfoldable pub start_lookup : ℕ → List ℕ → List ℕ → Uplink → MessageRequestDns × Uplink
start_lookup ns_req_id network dn l = (
  record { id = ns_req_id; network = network; domain_name = dn },
  record l { map_wait = store (ns_req_id ∷ []) dn l.map_wait },
)

-- `LookupIP` behind a result that is received: the addresses where it returns, and the cache. The
-- callers that wait for the same name are in Uplink.Shared.
unfoldable pub take_result :
    ℕ
    → List ℕ
    → Option MessageResultDns
    → TsCache (List (List ℕ))
    → Option (List (List ℕ)) × TsCache (List (List ℕ))
take_result now dn none cache = (none, cache)
take_result now dn (some rs) cache = (some rs.addresses, put now dn rs.addresses cache)
