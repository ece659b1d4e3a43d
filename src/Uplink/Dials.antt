-- ===== src/Uplink/Dials.antt =====
-- One connection of an uplink and the worker, as steps: the worker reads a message when nothing keeps
-- it, and a send on a channel keeps it until the channel's receiver takes the value.
use df.Prelude.{ℕ, ◌≡◌, ◌≢◌, Bool, true, false, List, [], ◌∷◌, ◌++◌, some}
use df.SyncMap.{load, delete, Distinct}
use df.Message.{Message, MessageConnectionState}
use df.Uplink.{Uplink, Sent, nothing, to_lookup, to_dial, to_conn, dispatch}

-- The messages still to be read, the send that keeps the worker, whether `Dial` waits for the
-- connection's state, and the chunks that the connection has received.
pub record Dials : Type 0 where
  pub uplink : Uplink
  pub incoming : List Message
  pub busy : Sent
  pub dialing : Bool
  pub arrived : List (List ℕ)

-- Each handler stands under its own connection's id.
abbrev pub IsValid : Uplink → Type 0
IsValid l = Distinct l.map_wait_conn × ((k v : List ℕ) → load k l.map_wait_conn ≡ some v → v ≡ k)

-- A value that the connection is not sent.
abbrev pub IsOther : List ℕ → Sent → Type 0
IsOther c nothing = Unit
IsOther c (to_lookup dn rs) = Unit
IsOther c (to_dial d m) = d ≢ c
IsOther c (to_conn d chunk) = d ≢ c

pub data Step (c : List ℕ) (s : Dials) : Dials → Type 0 where
  -- A round of `worker`.
  reads :
      (m : Message) (ms : List Message)
      → s.busy ≡ nothing
      → s.incoming ≡ m ∷ ms
      → Step c s (record s {
        uplink = (dispatch s.uplink m).1;
        incoming = ms;
        busy = (dispatch s.uplink m).0;
      })
  -- `Dial` receives a state, or gives up after half a minute, which leaves its handler in the map.
  state_taken :
      (m : MessageConnectionState)
      → s.busy ≡ to_dial c m
      → s.dialing ≡ true
      → Step c s (record s { busy = nothing; dialing = false })
  timeout : s.dialing ≡ true → Step c s (record s { dialing = false })
  -- The connection's `Read` receives a chunk.
  data_taken :
      (chunk : List ℕ)
      → s.busy ≡ to_conn c chunk
      → Step c s (record s { busy = nothing; arrived = s.arrived ++ chunk ∷ [] })
  -- The deferred `Delete` of an established connection.
  closes :
      Step c s
        (record s { uplink = record s.uplink { map_wait_conn = delete c s.uplink.map_wait_conn } })
  -- The receivers of other values, and the handlers of others.
  other_taken : IsOther c s.busy → Step c s (record s { busy = nothing })
  others_change :
      (l : Uplink)
      → load c l.map_wait_conn ≡ load c s.uplink.map_wait_conn
      → IsValid l
      → Step c s (record s { uplink = l })

pub data Reach (c : List ℕ) (s : Dials) : Dials → Type 0 where
  here : Reach c s s
  next : {t u : Dials} → Reach c s t → Step c t u → Reach c s u
