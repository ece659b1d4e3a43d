-- ===== src/Pool/Session.antt =====
-- A divided client's writes, from the client over the shared transport to the server's instance.
use mathlib.Core.Path.{subst}
use df.Prelude.{
  ℕ, zero, suc, ◌+◌, ◌≤◌, ◌<◌, ◌≡◌, refl, sym, ap, ◌∙◌, arith, false, inl, inr, List, [], ◌∷◌, ◌++◌,
  length, take, drop, map, leb, lt→leb, none, some, append-nil, append_assoc, length-append,
  length-take, bytes_eq_refl, Bool-cases,
}
use df.Bytes.{IsU32}
use df.Io.{ok, buffer_write}
use df.Buffer.{ReadWriteBuffer, buf_size, buf_size_max, new_buffer}
use df.Buffer.Queue
use df.Buffer.Room.{write_appends}
use df.SyncMap.{load, store, load-store}
use df.Pool.Packet.{Packet, Meta, op_data, max_packet_size, write_packet, read_packet}
use df.Pool.Packet.RoundTrip.{
  Carries, read_packets, read_packets-write_packet, chunks_of, pieces, seen, joined,
}
use df.Pool.Packet.Eos.{read_packet-write_packet, without_id}
use df.Pool.Server.{Instance, Server, new_instance, take_packet, accepted, on_packet, on_packets}
use df.Pool.Client.{
  SharedClient, DividedClient, data_packet, eos_packet, send_packet, divided_write, divided_close,
}

pub length-map : {A B : Type 0} (f : A → B) (xs : List A) → length (map f xs) ≡ length xs
length-map f [] = refl
length-map f (x ∷ xs) = ap suc (length-map f xs)

pub length-contents :
    (f : ReadWriteBuffer) → Queue.IsValid f → length (Queue.contents f) ≡ f.buf_len
length-contents f v = omega (arith, length-take f.buf_len f.buf)

pub load-store_same :
    {V : Type 0} (k : List ℕ) (v : V) (m : List (List ℕ × V)) → load k (store k v m) ≡ some v
load-store_same k v m = load-store k k v m ∙ rw (bytes_eq_refl k) refl

-- An instance that takes what comes.
pub record IsOpen (inst : Instance) : Type 0 where
  pub valid : Queue.IsValid inst.buf
  pub opened : inst.buf.eof ≡ false

take_packet-IsOpen :
    (inst : Instance) (p : Packet)
    → IsOpen inst
    → inst.buf.buf_len + length p.body + buf_size ≤ buf_size_max
    → IsOpen (take_packet inst p)
      × (Queue.contents (take_packet inst p).buf ≡ Queue.contents inst.buf ++ p.body)
unfolding take_packet
take_packet-IsOpen inst p o h =
    let (whole, v, e) = write_appends inst.buf p.body o.valid o.opened h in
    (record { valid = v; opened = e }, whole)

new_instance-IsOpen :
    (trunk cid : List ℕ)
    → IsOpen (new_instance trunk cid) × (Queue.contents (new_instance trunk cid).buf ≡ [])
unfolding new_instance new_buffer
new_instance-IsOpen trunk cid = (record { valid = omega arith; opened = refl }, refl)

on_data :
    (trunk : List ℕ) (p : Packet) (s : Server)
    → p.op ≡ op_data
    → 0 < length p.client_id
    → on_packet trunk p s ≡ accepted trunk p s (load p.client_id s.instances)
unfolding on_packet
on_data trunk p s e some_id = rw (e, lt→leb 0 (length p.client_id) some_id) refl

-- What an instance has after the packets of one write.
record Reaches (cid : List ℕ) (s : Server) (before body : List ℕ) : Type 0 where
  inst : Instance
  loaded : load cid s.instances ≡ some inst
  whole : Queue.contents inst.buf ≡ before ++ body
  is_open : IsOpen inst

module _ (json : Meta) (trunk : List ℕ) (p : Packet) (metab : List ℕ) (e : p.op ≡ op_data) where
  serve_pieces :
      (dats : List (List ℕ)) (s : Server) (inst : Instance)
      → 0 < length p.client_id
      → load p.client_id s.instances ≡ some inst
      → IsOpen inst
      → inst.buf.buf_len + length (joined dats) + buf_size ≤ buf_size_max
      → Reaches p.client_id
          (on_packets trunk (map (seen json p metab p.client_id) dats) s)
          (Queue.contents inst.buf)
          (joined dats)
  unfolding on_packets
  serve_pieces [] s inst i h o room = record {
    inst = inst;
    loaded = h;
    whole = sym (append-nil _);
    is_open = o;
  }
  serve_pieces (dat ∷ dats) s inst i h o room =
      let p1 = seen json p metab p.client_id dat in
      let (o', whole') =
        take_packet-IsOpen inst p1 o (omega (arith, length-append dat (joined dats))) in
      let s1 = accepted trunk p1 s (some inst) in
      let q : on_packet trunk p1 s ≡ s1 = on_data trunk p1 s e i ∙ ap (accepted trunk p1 s) h in
      let more =
        serve_pieces dats s1 (take_packet inst p1) i
          (load-store_same p.client_id (take_packet inst p1) s.instances) o'
          (omega (
            arith,
            length-append dat (joined dats),
            length-contents inst.buf o.valid,
            length-contents (take_packet inst p1).buf o'.valid,
            ap length whole',
            length-append (Queue.contents inst.buf) dat,
          )) in
      record {
        inst = more.inst;
        loaded =
            ap
              (λ t.
                load p.client_id
                  (on_packets trunk (map (seen json p metab p.client_id) dats) t).instances)
              q
            ∙ more.loaded;
        whole =
            more.whole
            ∙ ap (λ t. t ++ joined dats) whole'
            ∙ append_assoc (Queue.contents inst.buf) dat (joined dats);
        is_open = more.is_open;
      }

  -- The first write of a client makes the instance.
  start_pieces :
      (dat : List ℕ) (dats : List (List ℕ)) (s : Server)
      → 0 < length p.client_id
      → p.serial ≡ 0
      → load p.client_id s.instances ≡ none
      → length (joined (dat ∷ dats)) + buf_size ≤ buf_size_max
      → Reaches p.client_id
          (on_packets trunk (map (seen json p metab p.client_id) (dat ∷ dats)) s)
          []
          (joined (dat ∷ dats))
  unfolding on_packets
  start_pieces dat dats s i first h room =
      let p1 = seen json p metab p.client_id dat in
      let fresh = new_instance trunk p.client_id in
      let (o, none_yet) = new_instance-IsOpen trunk p.client_id in
      let (o', whole') = take_packet-IsOpen fresh p1 o (
        omega (
          arith,
          length-append dat (joined dats),
          length-contents fresh.buf o.valid,
          ap length none_yet,
        )) in
      let s1 = record s { instances = store p.client_id (take_packet fresh p1) s.instances } in
      let q : on_packet trunk p1 s ≡ s1 =
        on_data trunk p1 s e i ∙ ap (accepted trunk p1 s) h ∙ rw first refl in
      let more =
        serve_pieces dats s1 (take_packet fresh p1) i
          (load-store_same p.client_id (take_packet fresh p1) s.instances) o'
          (omega (
            arith,
            length-append dat (joined dats),
            length-contents (take_packet fresh p1).buf o'.valid,
            ap length whole',
            ap length none_yet,
            length-append (Queue.contents fresh.buf) dat,
          )) in
      record {
        inst = more.inst;
        loaded =
            ap
              (λ t.
                load p.client_id
                  (on_packets trunk (map (seen json p metab p.client_id) dats) t).instances)
              q
            ∙ more.loaded;
        whole = more.whole ∙ ap (λ t. t ++ joined dats) (whole' ∙ ap (λ t. t ++ dat) none_yet);
        is_open = more.is_open;
      }

-- What the server holds for a client before a write: an open instance with these bytes unread, or
-- nothing yet for a client that has not written.
pub data Ready (c : DividedClient) (s : Server) (before : List ℕ) : Type 0 where
  serving :
      (inst : Instance)
      → load c.client_id s.instances ≡ some inst
      → IsOpen inst
      → Queue.contents inst.buf ≡ before
      → Ready c s before
  starting : load c.client_id s.instances ≡ none → c.serial ≡ 0 → before ≡ [] → Ready c s before

pieces-cons :
    (fuel : ℕ) (rest : List ℕ)
    → 0 < fuel
    → (dat : List ℕ) × (dats : List (List ℕ)) × (pieces fuel rest ≡ dat ∷ dats)
unfolding pieces
pieces-cons zero rest some_fuel = absurd (omega arith)
pieces-cons (suc fuel) rest some_fuel = elim (Bool-cases (leb (length rest) max_packet_size)) [
  | inl last ↦ (rest, [], rw last refl)
  | inr more ↦ (take max_packet_size rest, pieces fuel (drop max_packet_size rest), rw more refl)
]

module _ (json : Meta) (trunk : List ℕ) (c : DividedClient) (dat metab : List ℕ) where
  serve_write :
      (s : Server) (before : List ℕ) (dats : List (List ℕ))
      → (d : List ℕ) × (ds : List (List ℕ)) × (dats ≡ d ∷ ds)
      → Ready c s before
      → 0 < length c.client_id
      → length before + length (joined dats) + buf_size ≤ buf_size_max
      → Reaches c.client_id
          (on_packets trunk (map (seen json (data_packet c dat) metab c.client_id) dats) s)
          before
          (joined dats)
  serve_write s before dats some_piece (serving inst h o same) i room =
      subst
        (λ b.
          Reaches c.client_id
            (on_packets trunk (map (seen json (data_packet c dat) metab c.client_id) dats) s) b
            (joined dats))
        same
        (serve_pieces json trunk (data_packet c dat) metab refl dats s inst i h o
          (omega (arith, length-contents inst.buf o.valid, ap length same)))
  serve_write s before dats (d, ds, cut) (starting h first empty) i room =
      subst
        (λ b.
          Reaches c.client_id
            (on_packets trunk (map (seen json (data_packet c dat) metab c.client_id) dats) s) b
            (joined dats))
        (sym empty)
        (subst
          (λ t.
            Reaches c.client_id
              (on_packets trunk (map (seen json (data_packet c dat) metab c.client_id) t) s) []
              (joined t))
          (sym cut)
          (start_pieces json trunk (data_packet c dat) metab refl d ds s i first h
            (omega (arith, ap (λ t. length (joined t)) cut))))

divided_write-ok :
    (json : Meta) (c : DividedClient) (sc : SharedClient) (now : ℕ) (dat : List ℕ) {wire : List ℕ}
    → write_packet json buffer_write (data_packet c dat) [] ≡ (ok tt, wire)
    → divided_write json buffer_write now sc c dat [] ≡ (
      ok (length dat, record sc { bytes_sent = sc.bytes_sent + length dat; last_data_unix = now }),
      wire,
    )
unfolding divided_write send_packet
divided_write-ok json c sc now dat w = rw w refl

-- What a divided client writes arrives at its instance on the server: `Write` succeeds and counts the
-- bytes, and from the wire the server reads packets, leaves what follows them, and after them the
-- instance, which the first write makes, has the data behind the bytes it had. The client's id has a
-- byte, its JSON is read back and has 1024 bytes at most, its serial number has 32 bits, and the
-- instance's buffer is 4096 bytes or more below its maximum.
pub write_arrives :
    (json : Meta) (c : DividedClient) (sc : SharedClient) (now : ℕ)
    (trunk dat metab rest before : List ℕ) (s : Server)
    → Ready c s before
    → 0 < length c.client_id
    → IsU32 c.serial
    → json.marshal c.client_id ≡ ok metab
    → Carries json metab c.client_id
    → length before + length dat + buf_size ≤ buf_size_max
    → let out = divided_write json buffer_write now sc c dat [] in
      (out.0
        ≡ ok (
          length dat,
          record sc { bytes_sent = sc.bytes_sent + length dat; last_data_unix = now },
        ))
      × ((ps : List Packet) × (inst : Instance) × (read_packets json (length ps) (out.1 ++ rest)
            ≡ (ok ps, rest))
          × (load c.client_id (on_packets trunk ps s).instances ≡ some inst)
          × (Queue.contents inst.buf ≡ before ++ dat)
          × (inst.buf.eof ≡ false))
write_arrives json c sc now trunk dat metab rest before s ready i hs e carries room =
    let p = data_packet c dat in
    let (w, r, whole, _) =
      read_packets-write_packet json p metab c.client_id rest refl hs e carries in
    let done = divided_write-ok json c sc now dat w in
    let reached =
      serve_write json trunk c dat metab s before (chunks_of p) some_chunk ready i
        (omega (arith, ap length whole)) in
    let packets = map (seen json p metab c.client_id) (chunks_of p) in
    (
      ap (λ t. t.0) done,
      (
        packets,
        reached.inst,
        rw (length-map (seen json p metab c.client_id) (chunks_of p))
            (ap (λ t. read_packets json (length (chunks_of p)) (t.1 ++ rest)) done ∙ r),
        reached.loaded,
        reached.whole ∙ ap (λ t. before ++ t) whole,
        reached.is_open.opened,
      ),
    )
  where
    some_chunk : (d : List ℕ) × (ds : List (List ℕ)) × (chunks_of (data_packet c dat) ≡ d ∷ ds)
    some_chunk = pieces-cons (length dat + 1) dat (omega arith)

-- The packet of `Close` is lost on every server: what is read from the wire changes nothing there.
pub close_lost :
    (json : Meta) (c : DividedClient) (clients : List (List ℕ × DividedClient))
    (trunk rest : List ℕ) (s : Server)
    → IsU32 c.serial
    → (p : Packet) × (read_packet json
          ((write_packet json buffer_write (divided_close c clients).2 []).1 ++ rest)
        ≡ (ok p, rest))
      × (on_packet trunk p s ≡ s)
unfolding divided_close on_packet
close_lost json c clients trunk rest s hs = (
  without_id (eos_packet c),
  read_packet-write_packet json (eos_packet c) rest refl refl hs refl,
  refl,
)
