-- ===== src/Uplink/Open.antt =====
-- `Dial` of socks/backend/backend_secure.go up to the connection, and its request at the other end.
use df.Prelude.{
  ℕ, ◌<◌, ◌≡◌, refl, sym, ap, ◌∙◌, arith, List, [], ◌∷◌, ◌++◌, length, append-nil, Option, none,
  some, bytes_eq, bytes_eq_refl, if◌then◌else◌, lt→ltb,
}
use mathlib.Core.Path.{subst}
use df.Bytes.{IsU32}
use df.Io.{Result, ok, err, panic, Error, buffer_write, read_full, server_failed, timed_out}
use df.SyncMap.{load, store, load-store}
use df.Cache.{TsCache}
use df.Conf.{codes}
use df.Message.{Message, MessageRequestDial, MessageConnectionState, request_dial, connection_state}
use df.Codec.{Json}
use df.Codec
use df.Codec.Frame.{frame, payload}
use df.Codec.RoundTrip.{Unmarshals, read-write}
use df.Socks5.{Net}
use df.Tunnel.{host_target}
use df.Tunnel.Session.{dialing, handle, handle_one}
use df.Tunnel.Dial.{
  Dialed, target_failed, linked, state_of, told, report, dial_target, dial_host, handle_dial,
}
use df.Uplink.{Uplink, Sent, to_dial, dispatch, dispatch_conn_msg, worker}

-- `Dial` up to its request: the waiting handler and the request. `conn_id` is a new id.
unfoldable pub start_dial : List ℕ → List ℕ → List ℕ → Uplink → MessageRequestDial × Uplink
start_dial conn_id network addr l = (
  record { id = 0; network = network; address = addr; connection_id = conn_id },
  record l { map_wait_conn = store conn_id conn_id l.map_wait_conn },
)

-- `Dial` behind its wait: `none` is the end of the 30 seconds.
unfoldable pub dial_outcome : Option MessageConnectionState → Result (Unit {0})
dial_outcome none = err timed_out
dial_outcome (some m1) = if bytes_eq m1.state (codes "open") then ok tt else err server_failed

-- A message that goes as JSON, and that the codec carries.
pub record IsCarried (json : Json) (noise : List ℕ) (m : Message) : Type 0 where
  pub dat : List ℕ
  pub packs : payload json noise m ≡ ok dat
  pub unpacks : Unmarshals json m dat
  pub size_ok : IsU32 (length dat)

module _ (text : Error → List ℕ) (net : Net) (now : ℕ)
    (net_lookup : List ℕ → Result (List (List ℕ))) (split : List ℕ → Result (List ℕ × List ℕ))
    (dial : List ℕ → List ℕ → Result (Unit {0})) (network addr : List ℕ)
    (cache : TsCache (List (List ℕ))) (conn_id : List ℕ) where
  -- The address splits, and its host has a target that may be dialled.
  pub record HasTarget (target : List ℕ) : Type 0 where
    pub host : List ℕ
    pub port : List ℕ
    pub ip : List ℕ
    pub splits : split addr ≡ ok (host, port)
    pub found : (host_target net now net_lookup host cache).0 ≡ ok ip
    pub joined : target ≡ ip ++ (58 ∷ port)

  -- What the session comes to, what the worker sends to the waiting `Dial`, and what `Dial` makes of it,
  -- by what `split`, the choice of a target and `dial` give.
  pub data Answered (d : Dialed) (sents : List Sent) : Type 0 where
    connects :
        (target : List ℕ) (m : MessageConnectionState)
        → HasTarget target
        → dial network target ≡ ok tt
        → d ≡ linked target
        → sents ≡ to_dial conn_id m ∷ []
        → dial_outcome (some m) ≡ ok tt
        → m.error ≡ []
        → Answered d sents
    is_refused :
        (target : List ℕ) (m : MessageConnectionState) (e : Error)
        → HasTarget target
        → dial network target ≡ err e
        → sents ≡ to_dial conn_id m ∷ []
        → dial_outcome (some m) ≡ err server_failed
        → m.error ≡ codes "net.Dial: " ++ text e
        → Answered d sents
    has_no_host : (e : Error) → split addr ≡ err e → sents ≡ [] → Answered d sents
    has_no_target :
        (host port : List ℕ) (e : Error)
        → split addr ≡ ok (host, port)
        → (host_target net now net_lookup host cache).0 ≡ err e
        → sents ≡ []
        → Answered d sents
    split_panics : split addr ≡ panic → sents ≡ [] → Answered d sents
    lookup_panics :
        (host port : List ℕ)
        → split addr ≡ ok (host, port)
        → (host_target net now net_lookup host cache).0 ≡ panic
        → sents ≡ []
        → Answered d sents
    dial_panics :
        (target : List ℕ)
        → HasTarget target
        → dial network target ≡ panic
        → sents ≡ []
        → Answered d sents

module _ (json : Json) (noise conn_id : List ℕ) (eight : length noise ≡ 8) where
  -- What the worker makes of one state message.
  worker_state :
      (state error : List ℕ) (l : Uplink)
      → 0 < length conn_id
      → load conn_id l.map_wait_conn ≡ some conn_id
      → (c : IsCarried json noise (connection_state (state_of conn_id state error)))
      → ((Codec.write json noise buffer_write (connection_state (state_of conn_id state error)) [])
          ≡ (
            ok (length (frame (connection_state (state_of conn_id state error)) c.dat)),
            frame (connection_state (state_of conn_id state error)) c.dat,
          ))
        × ((worker json 2 l (frame (connection_state (state_of conn_id state error)) c.dat)).0
            ≡ to_dial conn_id (state_of conn_id state error) ∷ [])
  unfolding worker dispatch dispatch_conn_msg Codec.read read_full
  worker_state state error l some_id kept c =
      let m = connection_state (state_of conn_id state error) in
      let (written, read) =
        read-write json noise m [] eight c.packs c.unpacks (omega arith) (omega arith) c.size_ok in
      (
        written,
        ap (λ t. (worker json 2 l t).0) (sym (append-nil (frame m c.dat)))
            ∙ rw read (rw (lt→ltb 0 (length conn_id) some_id, kept) refl),
      )

  module _ (text : Error → List ℕ) (net : Net) (now : ℕ)
      (net_lookup : List ℕ → Result (List (List ℕ))) (split : List ℕ → Result (List ℕ × List ℕ))
      (dial : List ℕ → List ℕ → Result (Unit {0})) (l : Uplink) (some_id : 0 < length conn_id)
      (kept : load conn_id l.map_wait_conn ≡ some conn_id)
      (opens : IsCarried json noise (connection_state (state_of conn_id (codes "open") [])))
      (fails : (e : Error)
        → IsCarried json noise
            (connection_state (state_of conn_id (codes "error") (codes "net.Dial: " ++ text e))))
      (network addr : List ℕ) (cache : TsCache (List (List ℕ))) where
    -- What a reply comes to at the client.
    abbrev Arrives : Dialed × List ℕ → Type 0
    Arrives r =
        Answered text net now net_lookup split dial network addr cache conn_id r.0
          (worker json 2 l r.1).0

    nothing_sent : (worker json 2 l []).0 ≡ []
    unfolding worker Codec.read read_full
    nothing_sent = refl

    report-Arrives :
        (target : List ℕ) (r : Result (Unit {0}))
        → HasTarget text net now net_lookup split dial network addr cache conn_id target
        → dial network target ≡ r
        → Arrives (report json noise text buffer_write conn_id target r [])
    report-Arrives target (ok tt) has e =
        let (written, sends) = worker_state (codes "open") [] l some_id kept opens in
        subst Arrives (sym (ap (told (linked target)) written)) (
          connects target (state_of conn_id (codes "open") []) has e refl sends
            (unfold dial_outcome in refl) refl)
    report-Arrives target (err x) has e =
        let reason = codes "net.Dial: " ++ text x in
        let (written, sends) = worker_state (codes "error") reason l some_id kept (fails x) in
        subst Arrives (sym (ap (told (target_failed x)) written)) (
          is_refused target (state_of conn_id (codes "error") reason) x has e sends
            (unfold dial_outcome in refl) refl)
    report-Arrives target panic has e = dial_panics target has e nothing_sent

    target-Arrives :
        (m1 : MessageRequestDial) (host port : List ℕ) (r : Result (List ℕ))
        → m1.connection_id ≡ conn_id
        → m1.network ≡ network
        → split addr ≡ ok (host, port)
        → (host_target net now net_lookup host cache).0 ≡ r
        → Arrives
            (dial_target json noise text buffer_write net now net_lookup split dial m1 port r [])
    target-Arrives m1 host port (ok ip) e f splits found =
        let target = ip ++ (58 ∷ port) in
        subst
          (λ c. Arrives (report json noise text buffer_write c target (dial m1.network target) []))
          (sym e)
          (report-Arrives target (dial m1.network target)
            (record {
              host = host;
              port = port;
              ip = ip;
              splits = splits;
              found = found;
              joined = refl;
            })
            (ap (λ n. dial n target) (sym f)))
    target-Arrives m1 host port (err x) e f splits found =
        has_no_target host port x splits found nothing_sent
    target-Arrives m1 host port panic e f splits found =
        lookup_panics host port splits found nothing_sent

    host-Arrives :
        (m1 : MessageRequestDial) (r : Result (List ℕ × List ℕ))
        → m1.connection_id ≡ conn_id
        → m1.network ≡ network
        → split addr ≡ r
        → Arrives
            (dial_host json noise text buffer_write net now net_lookup split dial m1 r cache []).0
    host-Arrives m1 (ok (host, port)) e f splits =
        target-Arrives m1 host port (host_target net now net_lookup host cache).0 e f splits refl
    host-Arrives m1 (err x) e f splits = has_no_host x splits nothing_sent
    host-Arrives m1 panic e f splits = split_panics splits nothing_sent

  -- A `Dial` over the tunnel: the session reads the request as it was sent, and hands it to
  -- `handleDialConn`. Where `net.Dial` connects to the target, the client is told of an open connection
  -- and `Dial` succeeds; where it fails, the client is told its error and `Dial` fails; but where the request fails before the dial (an address that does not split, a
  -- name that does not resolve, a target that is not allowed), the client is sent nothing. The messages
  -- are such as the codec carries, and the id of the connection has a byte.
  pub dial-Answered :
      (text : Error → List ℕ) (net : Net) (now : ℕ) (net_lookup : List ℕ → Result (List (List ℕ)))
      (split : List ℕ → Result (List ℕ × List ℕ)) (dial : List ℕ → List ℕ → Result (Unit {0}))
      (network addr : List ℕ) (l : Uplink) (cache : TsCache (List (List ℕ)))
      → 0 < length conn_id
      → IsCarried json noise (request_dial (start_dial conn_id network addr l).0)
      → IsCarried json noise (connection_state (state_of conn_id (codes "open") []))
      → ((e : Error)
          → IsCarried json noise
              (connection_state (state_of conn_id (codes "error") (codes "net.Dial: " ++ text e))))
      → let (m1, l') = start_dial conn_id network addr l in
        let (d, out) =
          (handle_dial json noise text buffer_write net now net_lookup split dial m1 cache []).0 in
        (handle json noise text net_lookup buffer_write 1
            (Codec.write json noise buffer_write (request_dial m1) []).1
            []
          ≡ (dialing m1, [], []))
        × Answered text net now net_lookup split dial network addr cache conn_id d
            (worker json 2 l' out).0
  unfolding start_dial handle handle_one handle_dial
  dial-Answered text net now net_lookup split dial network addr l cache some_id asks opens fails =
      let m1 : MessageRequestDial = record {
        id = 0;
        network = network;
        address = addr;
        connection_id = conn_id;
      } in
      let (written, read) =
        read-write json noise (request_dial m1) [] eight asks.packs asks.unpacks (omega arith)
          (omega arith) asks.size_ok in
      let l' : Uplink = record l { map_wait_conn = store conn_id conn_id l.map_wait_conn } in
      (
        rw written (
            rw (ap (Codec.read json) (sym (append-nil (frame (request_dial m1) asks.dat))) ∙ read)
              refl),
        host-Arrives text net now net_lookup split dial l' some_id
            (load-store conn_id conn_id conn_id l.map_wait_conn ∙ rw (bytes_eq_refl conn_id) refl)
            opens fails network addr cache m1 (split addr) refl refl refl,
      )
