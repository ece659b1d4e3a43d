-- ===== src/Pool/Life.antt =====
-- The last loop of `client.start` in transport/h1pool/client.go: what happens every five seconds, until the
-- shared client is left. Whether the write of a ping succeeds is given.
use df.Prelude.{ℕ, ◌+◌, ◌%◌, ◌^◌, Bool, List, [], ◌∷◌, if◌then◌else◌}
use df.Pool.Client.{SharedClient, Tick, stalled, decommission, send_ping, idle, tick}

-- The loop goes on with this client and this serial number, or has returned by its own decision or with
-- the write of a ping.
pub data Life : Type 0 where
  running : SharedClient → ℕ → Life
  left_by : Tick → Life
  ping_failed : Life

abbrev pub acted : ℕ → Bool → SharedClient → ℕ → Tick → Life
acted pinged_at ping_ok c serial stalled = left_by stalled
acted pinged_at ping_ok c serial decommission = left_by decommission
acted pinged_at ping_ok c serial send_ping =
    if ping_ok
    then running (record c { last_ping_unix = pinged_at }) ((serial + 1) % 2 ^ 64)
    else ping_failed
acted pinged_at ping_ok c serial idle = running c ((serial + 1) % 2 ^ 64)

unfoldable pub on_tick : ℕ → ℕ → List SharedClient → Bool → SharedClient → ℕ → Life
on_tick now pinged_at scs ping_ok c serial =
    acted pinged_at ping_ok c serial (tick c scs now serial)

-- A round: the time at its start and behind a ping, the table of shared clients, whether a ping can be
-- written, and what the writes of others have made of the client's counters since the last round.
pub record Round : Type 0 where
  pub now : ℕ
  pub pinged_at : ℕ
  pub table : List SharedClient
  pub ping_ok : Bool
  pub last_data : ℕ
  pub sent : ℕ

abbrev pub written : Round → SharedClient → SharedClient
written r c = record c { last_data_unix = r.last_data; bytes_sent = r.sent }

abbrev pub go_on : Life → (SharedClient → ℕ → Life) → Life
go_on (running c serial) k = k c serial
go_on (left_by t) k = left_by t
go_on ping_failed k = ping_failed

-- Rounds between which nothing is received.
unfoldable pub silent_rounds : List Round → SharedClient → ℕ → Life
silent_rounds [] c serial = running c serial
silent_rounds (r ∷ rs) c serial =
    go_on (on_tick r.now r.pinged_at r.table r.ping_ok (written r c) serial) (silent_rounds rs)
