-- ===== src/Tunnel/Dial.antt =====
-- `handleDialConn` of socks/tunnel/server_handler.go up to its copying: the dial of the target, and the
-- reply. `net.SplitHostPort` and `net.Dial` are the parameters `split` and `dial`, and `text` gives the
-- text of an error.
use df.Prelude.{ℕ, List, [], ◌∷◌, ◌++◌}
use df.Io.{Result, ok, err, panic, Io, Error}
use df.Cache.{TsCache}
use df.Conf.{codes}
use df.Message.{MessageRequestDial, MessageConnectionState, connection_state}
use df.Codec.{Json}
use df.Codec
use df.Socks5.{Net}
use df.Tunnel.{host_target}

-- What a dial request comes to: an error in front of the dial, without a reply, an error of the dial or of
-- the write of a reply, or a connection to this address, which is copied from then on.
pub data Dialed : Type 0 where
  no_target target_failed unwritten : Error → Dialed
  panicked : Dialed
  linked : List ℕ → Dialed

abbrev pub state_of : List ℕ → List ℕ → List ℕ → MessageConnectionState
state_of conn_id state error = record {
  id = 0;
  ack = 0;
  connection_id = conn_id;
  state = state;
  error = error;
  error_type = [];
}

abbrev pub told : Dialed → Result ℕ × List ℕ → Dialed × List ℕ
told d (ok n, out) = (d, out)
told d (err e, out) = (unwritten e, out)
told d (panic, out) = (panicked, out)

module _ (json : Json) (noise : List ℕ) (text : Error → List ℕ) (w : List ℕ → Io ℕ) where
  -- The reply to what `net.Dial` of this address comes to.
  abbrev pub report : List ℕ → List ℕ → Result (Unit {0}) → List ℕ → Dialed × List ℕ
  report conn_id addr (ok c) out =
      told (linked addr)
        (Codec.write json noise w (connection_state (state_of conn_id (codes "open") [])) out)
  report conn_id addr (err e) out = told (target_failed e) (
      Codec.write json noise w
        (connection_state (state_of conn_id (codes "error") (codes "net.Dial: " ++ text e))) out)
  report conn_id addr panic out = (panicked, out)

  module _ (net : Net) (now : ℕ) (net_lookup : List ℕ → Result (List (List ℕ)))
      (split : List ℕ → Result (List ℕ × List ℕ)) (dial : List ℕ → List ℕ → Result (Unit {0})) where
    abbrev pub dial_target :
        MessageRequestDial → List ℕ → Result (List ℕ) → List ℕ → Dialed × List ℕ
    dial_target m1 port (ok ip) out =
        let addr = ip ++ (58 ∷ port) in report m1.connection_id addr (dial m1.network addr) out
    dial_target m1 port (err e) out = (no_target e, out)
    dial_target m1 port panic out = (panicked, out)

    abbrev pub dial_host :
        MessageRequestDial
        → Result (List ℕ × List ℕ)
        → TsCache (List (List ℕ))
        → List ℕ
        → (Dialed × List ℕ) × TsCache (List (List ℕ))
    dial_host m1 (ok (host, port)) cache out =
        let found = host_target net now net_lookup host cache in
        (dial_target m1 port found.0 out, found.1)
    dial_host m1 (err e) cache out = ((no_target e, out), cache)
    dial_host m1 panic cache out = ((panicked, out), cache)

    -- The outcome with the bytes written to the client, and the cache.
    unfoldable pub handle_dial :
        MessageRequestDial
        → TsCache (List (List ℕ))
        → List ℕ
        → (Dialed × List ℕ) × TsCache (List (List ℕ))
    handle_dial m1 cache out = dial_host m1 (split m1.address) cache out
