-- ===== src/Uplink/Carry.antt =====
-- A connection over the tunnel: the goroutine of `Dial`, the session's loop and the worker.
use df.Prelude.{
  flat, ℕ, suc, ◌<◌, ◌≡◌, refl, sym, ap, ◌∙◌, List, [], ◌∷◌, ◌++◌, length, map, All, append-nil,
  append_assoc, some, lt→ltb,
}
use mathlib.Core.Path.{subst}
use df.Io.{Io, pure, ◌>>◌, buffer_write, read_full}
use df.SyncMap.{load}
use df.Codec.{Json}
use df.Codec
use df.Tunnel.Relay.{Event, got_down, running, data_message, relay, from_client}
use df.Tunnel.Copy.{Merge, IsCarried, frames, write_data, read_data, relay_copies}
use df.Uplink.{Uplink, to_conn, dispatch, dispatch_conn_msg, worker}

module _ (json : Json) (noise : List ℕ) (conn_id : List ℕ) where
  -- The loop of `Dial` over the chunks that the connection's `Write` sends on `chUp`.
  unfoldable pub write_chunks : List (List ℕ) → Io ℕ
  write_chunks [] = pure 0
  write_chunks (dat ∷ dats) = do
    Codec.write json noise buffer_write (data_message conn_id dat)
    write_chunks dats

module _ (json : Json) (noise : List ℕ) (conn_id : List ℕ) (eight : length noise ≡ 8) where
  write_chunks-frames :
      (dats : List (List ℕ)) (s : List ℕ)
      → (write_chunks json noise conn_id dats s).1 ≡ s ++ frames json noise conn_id eight dats
  unfolding write_chunks frames
  write_chunks-frames [] s = sym (append-nil s)
  write_chunks-frames (dat ∷ dats) s =
      rw (write_data json noise conn_id eight dat s)
        (write_chunks-frames dats _ ∙ append_assoc s _ (frames json noise conn_id eight dats))

  worker-frames :
      (dats : List (List ℕ)) (l : Uplink)
      → 0 < length conn_id
      → load conn_id l.map_wait_conn ≡ some conn_id
      → All (IsCarried conn_id) dats
      → (worker json (suc (length dats)) l (frames json noise conn_id eight dats)).0
        ≡ map (to_conn conn_id) dats
  unfolding worker dispatch dispatch_conn_msg frames Codec.read read_full
  worker-frames [] l some_id kept hs = refl
  worker-frames (dat ∷ dats) l some_id kept (h, hs) =
      rw (read_data json noise conn_id eight dat (frames json noise conn_id eight dats) h) (
        rw (lt→ltb 0 (length conn_id) some_id, kept)
          (ap (λ t. to_conn conn_id dat ∷ t) (worker-frames dats l some_id kept hs)))

  -- An established connection carries both ways: of the chunks that its `Write` sends and those that the
  -- target gives, merged in any order by the session's loop, the first arrive at the target in order,
  -- and the worker sends the others to the connection in order. The client's session has read its
  -- messages; each chunk's message is within 32 bits.
  pub tunnel_carries :
      (ups downs : List (List ℕ)) (es : List Event) (l : Uplink)
      → 0 < length conn_id
      → load conn_id l.map_wait_conn ≡ some conn_id
      → All (IsCarried conn_id) ups
      → All (IsCarried conn_id) downs
      → Merge
          (from_client json (length ups) (write_chunks json noise conn_id ups []).1)
          (map got_down downs)
          es
      → (out : List ℕ) × (relay json noise buffer_write buffer_write conn_id es [] []
          ≡ (running, flat ups, out))
        × ((worker json (suc (length downs)) l out).0 ≡ map (to_conn conn_id) downs)
  tunnel_carries ups downs es l some_id kept hu hd merged = (
    frames json noise conn_id eight downs,
    relay_copies json noise conn_id eight ups downs es hu hd (
        subst (λ s. Merge (from_client json (length ups) s) (map got_down downs) es)
          (write_chunks-frames ups []) merged),
    worker-frames downs l some_id kept hd,
  )
