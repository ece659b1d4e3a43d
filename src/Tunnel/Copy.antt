-- ===== src/Tunnel/Copy.antt =====
-- The loop copies both ways, whatever the order in which the two sides send.
use df.Prelude.{
  flat, ap₂, ℕ, ◌≡◌, refl, sym, ap, ◌∙◌, List, [], ◌∷◌, ◌++◌, length, map, All, append-nil,
  append_assoc, arith,
}
use mathlib.Core.Path.{subst}
use df.Bytes.{IsU32}
use df.Io.{ok, buffer_write}
use df.Message.{MessageData}
use df.Codec.{Json}
use df.Codec
use df.Codec.Frame.{frame, packed_data}
use df.Codec.RoundTrip.{read-write, write-frame}
use df.Tunnel.Relay.{
  Event, got_state, got_data, got_down, got_error, cancelled, running, data_of, data_message, relay,
  from_client,
}

-- The events of two goroutines, in some order.
pub data Merge : List Event → List Event → List Event → Type 0 where
  both_done : Merge [] [] []
  from_left : (e : Event) {xs ys es : List Event} → Merge xs ys es → Merge (e ∷ xs) ys (e ∷ es)
  from_right : (e : Event) {xs ys es : List Event} → Merge xs ys es → Merge xs (e ∷ ys) (e ∷ es)

-- A chunk whose message the codec carries.
abbrev pub IsCarried : List ℕ → List ℕ → Type 0
IsCarried conn_id dat = IsU32 (length (packed_data (data_of conn_id dat)))

data IsUp : Event → Type 0 where
  up : (m : MessageData) → IsUp (got_data m)

data IsDown (conn_id : List ℕ) : Event → Type 0 where
  down : (dat : List ℕ) → IsCarried conn_id dat → IsDown conn_id (got_down dat)

abbrev sent_frame : List ℕ → List ℕ → List ℕ
sent_frame conn_id dat = frame (data_message conn_id dat) (packed_data (data_of conn_id dat))

up_bytes : List Event → List ℕ
up_bytes [] = []
up_bytes (got_data m ∷ es) = m.body ++ up_bytes es
up_bytes (got_state m ∷ es) = up_bytes es
up_bytes (got_down dat ∷ es) = up_bytes es
up_bytes (got_error e ∷ es) = up_bytes es
up_bytes (cancelled ∷ es) = up_bytes es

down_frames : List ℕ → List Event → List ℕ
down_frames conn_id [] = []
down_frames conn_id (got_down dat ∷ es) = sent_frame conn_id dat ++ down_frames conn_id es
down_frames conn_id (got_data m ∷ es) = down_frames conn_id es
down_frames conn_id (got_state m ∷ es) = down_frames conn_id es
down_frames conn_id (got_error e ∷ es) = down_frames conn_id es
down_frames conn_id (cancelled ∷ es) = down_frames conn_id es

module _ (json : Json) (noise : List ℕ) (conn_id : List ℕ) (eight : length noise ≡ 8) where
  pub write_data :
      (dat out : List ℕ)
      → Codec.write json noise buffer_write (data_message conn_id dat) out
        ≡ (ok (length (sent_frame conn_id dat)), out ++ sent_frame conn_id dat)
  unfolding buffer_write
  write_data dat out = write-frame json noise buffer_write (data_message conn_id dat) out eight

  -- What the loop makes of the merged events of a client that sends data and of a target's chunks.
  relay-Merge :
      {xs ys es : List Event} (target out : List ℕ)
      → Merge xs ys es
      → All IsUp xs
      → All (IsDown conn_id) ys
      → relay json noise buffer_write buffer_write conn_id es target out
        ≡ (running, target ++ up_bytes xs, out ++ down_frames conn_id ys)
  unfolding relay up_bytes down_frames buffer_write
  relay-Merge target out both_done h k =
      ap₂ (λ a b. (running, a, b)) (sym (append-nil target)) (sym (append-nil out))
  relay-Merge target out (from_left e {xs} {ys} {es} merged) (up m, h) k =
      relay-Merge (target ++ m.body) out merged h k
      ∙ ap (λ t. (running, t, out ++ down_frames conn_id ys))
          (append_assoc target m.body (up_bytes xs))
  relay-Merge target out (from_right e {xs} {ys} {es} merged) h (down dat fits, k) =
      rw (write_data dat out) (
        relay-Merge target (out ++ sent_frame conn_id dat) merged h k
        ∙ ap (λ t. (running, target ++ up_bytes xs, t))
            (append_assoc out (sent_frame conn_id dat) (down_frames conn_id ys)))

  -- The frames of chunks, one behind the other.
  unfoldable pub frames : List (List ℕ) → List ℕ
  frames [] = []
  frames (dat ∷ dats) = sent_frame conn_id dat ++ frames dats

  pub read_data :
      (dat rest : List ℕ)
      → IsCarried conn_id dat
      → Codec.read json (sent_frame conn_id dat ++ rest) ≡ (ok (data_message conn_id dat), rest)
  read_data dat rest fits =
      (read-write json noise (data_message conn_id dat) {dat = packed_data (data_of conn_id dat)}
        rest eight refl tt (omega arith) (omega arith) fits).1

  from_client-frames :
      (dats : List (List ℕ))
      → All (IsCarried conn_id) dats
      → from_client json (length dats) (frames dats)
        ≡ map (λ dat. got_data (data_of conn_id dat)) dats
  unfolding from_client frames
  from_client-frames [] hs = refl
  from_client-frames (dat ∷ dats) (h, hs) =
      rw (read_data dat (frames dats) h)
        (ap (λ t. got_data (data_of conn_id dat) ∷ t) (from_client-frames dats hs))

  ups_IsUp : (dats : List (List ℕ)) → All IsUp (map (λ dat. got_data (data_of conn_id dat)) dats)
  ups_IsUp [] = tt
  ups_IsUp (dat ∷ dats) = (up (data_of conn_id dat), ups_IsUp dats)

  downs_IsDown :
      (dats : List (List ℕ))
      → All (IsCarried conn_id) dats
      → All (IsDown conn_id) (map got_down dats)
  downs_IsDown [] hs = tt
  downs_IsDown (dat ∷ dats) (h, hs) = (down dat h, downs_IsDown dats hs)

  down_frames-map : (dats : List (List ℕ)) → down_frames conn_id (map got_down dats) ≡ frames dats
  unfolding down_frames frames
  down_frames-map [] = refl
  down_frames-map (dat ∷ dats) = ap (λ t. sent_frame conn_id dat ++ t) (down_frames-map dats)

  up_bytes-map :
      (dats : List (List ℕ))
      → up_bytes (map (λ dat. got_data (data_of conn_id dat)) dats) ≡ flat dats
  unfolding up_bytes
  up_bytes-map [] = refl
  up_bytes-map (dat ∷ dats) = ap (λ t. dat ++ t) (up_bytes-map dats)

  -- The session's end of a connection: of the chunks that the client sends and those of the target, in
  -- any order, the first go to the target and the others to the client, each as a message.
  pub relay_copies :
      (ups downs : List (List ℕ)) (es : List Event)
      → All (IsCarried conn_id) ups
      → All (IsCarried conn_id) downs
      → Merge (from_client json (length ups) (frames ups)) (map got_down downs) es
      → relay json noise buffer_write buffer_write conn_id es [] []
        ≡ (running, flat ups, frames downs)
  relay_copies ups downs es hu hd merged =
      relay-Merge [] []
        (subst (λ xs. Merge xs (map got_down downs) es) (from_client-frames ups hu) merged)
        (ups_IsUp ups) (downs_IsDown downs hd)
      ∙ ap₂ (λ a b. (running, a, b)) (up_bytes-map ups) (down_frames-map downs)
