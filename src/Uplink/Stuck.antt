-- ===== src/Uplink/Stuck.antt =====
-- A state that no `Dial` waits for keeps the worker for ever.
use df.Prelude.{ℕ, ◌<◌, ◌≡◌, refl, false, List, length, some, lt→ltb}
use mathlib.Core.Path.{subst}
use df.SyncMap.{load}
use df.Message.{Message, MessageConnectionState, connection_state}
use df.Uplink.{to_dial, dispatch, dispatch_conn_msg}
use df.Uplink.Dials.{
  Dials, IsOther, Step, reads, state_taken, timeout, data_taken, closes, other_taken, others_change,
  Reach, here, next,
}

-- The worker is kept by a state of the connection, and no `Dial` waits for it.
abbrev IsStuck : List ℕ → MessageConnectionState → List Message → Dials → Type 0
IsStuck c m ms s = (s.busy ≡ to_dial c m) × (s.dialing ≡ false) × (s.incoming ≡ ms)

Step-IsStuck :
    (c : List ℕ) (m : MessageConnectionState) (ms : List Message) {s t : Dials}
    → IsStuck c m ms s
    → Step c s t
    → IsStuck c m ms t
Step-IsStuck c m ms (b, d, i) (reads m' ms' free e) = cc
Step-IsStuck c m ms (b, d, i) (state_taken m' e h) = cc
Step-IsStuck c m ms (b, d, i) (timeout h) = cc
Step-IsStuck c m ms (b, d, i) (data_taken chunk e) = cc
Step-IsStuck c m ms (b, d, i) closes = (b, d, i)
Step-IsStuck c m ms {s} (b, d, i) (other_taken h) = absurd ((subst (IsOther c) b h) refl)
Step-IsStuck c m ms (b, d, i) (others_change l e v) = (b, d, i)

Reach-IsStuck :
    (c : List ℕ) (m : MessageConnectionState) (ms : List Message) {s t : Dials}
    → IsStuck c m ms s
    → Reach c s t
    → IsStuck c m ms t
Reach-IsStuck c m ms h here = h
Reach-IsStuck c m ms h (next r step) = Step-IsStuck c m ms (Reach-IsStuck c m ms h r) step

-- The server reports the state of a connection whose `Dial` has given up, or has had its state
-- already, while the connection's handler is in the map: once the worker has read that message, it
-- reads no other, of this or any other connection, whatever else happens.
pub late_state_blocks :
    (c : List ℕ) (m : MessageConnectionState) (ms : List Message) (s : Dials) {t : Dials}
    → 0 < length c
    → m.connection_id ≡ c
    → m.ack ≡ 0
    → load c s.uplink.map_wait_conn ≡ some c
    → s.dialing ≡ false
    → Reach c
        (record s {
          uplink = (dispatch s.uplink (connection_state m)).1;
          incoming = ms;
          busy = (dispatch s.uplink (connection_state m)).0;
        })
        t
    → (t.incoming ≡ ms) × (t.busy ≡ to_dial c m)
unfolding dispatch dispatch_conn_msg
late_state_blocks c m ms s some_id id no_ack kept given_up r =
    let blocked : (dispatch s.uplink (connection_state m)).0 ≡ to_dial c m =
      rw (no_ack, id, lt→ltb 0 (length c) some_id, kept) refl in
    let (b, d, i) = Reach-IsStuck c m ms (blocked, given_up, refl) r in (i, b)
