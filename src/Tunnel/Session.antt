-- ===== src/Tunnel/Session.antt =====
-- `clientSession.handle`: the messages of one client, up to its first dial request, and the replies.
-- `net.LookupIP` is a parameter, as is the text of an error.
use df.Prelude.{ℕ, zero, suc, List, []}
use df.Io.{Result, ok, err, panic, Io, Error}
use df.Message.{
  Message, MessageRequestDns, MessageResultDns, MessageRequestDial, request_dns, result_dns,
  request_dial, connection_state, conn_data, ping,
}
use df.Codec.{Json}
use df.Codec

-- How the loop ends: with a failed read or write, or with a request whose connection takes over.
pub data Ended : Type 0 where
  read_failed write_failed : Error → Ended
  panicked out_of_fuel : Ended
  dialing : MessageRequestDial → Ended

-- The reply of `handleDNS`. A lookup does not panic.
unfoldable pub dns_reply :
    (Error → List ℕ) → MessageRequestDns → Result (List (List ℕ)) → MessageResultDns
dns_reply text m1 (ok ips) = record { id = 0; ack = m1.id; addresses = ips; error = [] }
dns_reply text m1 (err e) = record { id = 0; ack = m1.id; addresses = []; error = text e }
dns_reply text m1 panic = record { id = 0; ack = m1.id; addresses = []; error = [] }

abbrev pub Session : Type 0
Session = Ended × List ℕ × List ℕ

abbrev pub answered : Result ℕ × List ℕ → List ℕ → (List ℕ → List ℕ → Session) → Session
answered (ok n, out) s k = k s out
answered (err e, out) s k = (write_failed e, s, out)
answered (panic, out) s k = (panicked, s, out)

module _ (json : Json) (noise : List ℕ) (text : Error → List ℕ)
    (net_lookup : List ℕ → Result (List (List ℕ))) (w : List ℕ → Io ℕ) where
  -- `handleDNS`.
  unfoldable pub handle_dns : MessageRequestDns → Io ℕ
  unfolding dns_reply
  handle_dns m1 =
      Codec.write json noise w (result_dns (dns_reply text m1 (net_lookup m1.domain_name)))

  -- A round of `handle`, for what the read comes to.
  unfoldable pub handle_one :
      Result Message × List ℕ → List ℕ → (List ℕ → List ℕ → Session) → Session
  handle_one (err e, s) out k = (read_failed e, s, out)
  handle_one (panic, s) out k = (panicked, s, out)
  handle_one (ok (request_dns m1), s) out k = answered (handle_dns m1 out) s k
  handle_one (ok (request_dial m1), s) out k = (dialing m1, s, out)
  handle_one (ok (result_dns m1), s) out k = k s out
  handle_one (ok (connection_state m1), s) out k = k s out
  handle_one (ok (conn_data m1), s) out k = k s out
  handle_one (ok (ping m1), s) out k = k s out

  -- `handle`, for the bytes `s` that the client sends and those written so far, by the rounds left.
  unfoldable pub handle : ℕ → List ℕ → List ℕ → Session
  unfolding handle_one
  handle zero s out = (out_of_fuel, s, out)
  handle (suc fuel) s out = handle_one (Codec.read json s) out (handle fuel)
