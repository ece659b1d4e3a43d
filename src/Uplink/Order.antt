-- ===== src/Uplink/Order.antt =====
-- What a connection receives is what the server sent it, in order.
use df.Prelude.{
  ℕ, ◌<◌, ◌≡◌, inl, inr, refl, sym, ap, ◌∙◌, arith, Bool, true, false, List, [], ◌∷◌, ◌++◌, length,
  append-nil, append_assoc, Option, none, some, bytes_eq, bytes_eq_refl, bytes_eq→eq, Bool-cases,
  ltb, lt→ltb, if◌then◌else◌,
}
use df.SyncMap.{load, delete, load-delete, delete-Distinct}
use df.Message.{
  Message, request_dns, result_dns, request_dial, connection_state, conn_data, ping, ack_message_id,
}
use df.Uplink.{
  Uplink, Sent, nothing, to_lookup, to_dial, to_conn, replied, conn_handler, handled, conn_id_of,
  dispatch_reply, dispatch_conn_msg, dispatch,
}
use df.Uplink.Dials.{
  Dials, IsValid, IsOther, Step, reads, state_taken, timeout, data_taken, closes, other_taken,
  others_change, Reach, here, next,
}

-- The chunks of the connection: in a send that keeps the worker, in a message, and still to be read.
abbrev pub in_flight : List ℕ → Sent → List (List ℕ)
in_flight c nothing = []
in_flight c (to_lookup dn rs) = []
in_flight c (to_dial d m) = []
in_flight c (to_conn d chunk) = if bytes_eq d c then chunk ∷ [] else []

abbrev pub body_of : Message → List (List ℕ)
body_of (conn_data m) = m.body ∷ []
body_of (request_dns m) = []
body_of (result_dns m) = []
body_of (request_dial m) = []
body_of (connection_state m) = []
body_of (ping m) = []

abbrev pub chunk_of : List ℕ → Message → List (List ℕ)
chunk_of c m =
    if ltb 0 (ack_message_id m) then [] else if bytes_eq (conn_id_of m) c then body_of m else []

pub coming : List ℕ → List Message → List (List ℕ)
coming c [] = []
coming c (m ∷ ms) = chunk_of c m ++ coming c ms

in_flight-replied :
    (c : List ℕ) (m : Message) (o : Option (List ℕ)) → in_flight c (replied m o) ≡ []
in_flight-replied c m none = refl
in_flight-replied c (request_dns m) (some dn) = refl
in_flight-replied c (result_dns m) (some dn) = refl
in_flight-replied c (request_dial m) (some dn) = refl
in_flight-replied c (connection_state m) (some dn) = refl
in_flight-replied c (conn_data m) (some dn) = refl
in_flight-replied c (ping m) (some dn) = refl

in_flight-conn_handler :
    (c d : List ℕ) (m : Message)
    → in_flight c (conn_handler d m) ≡ (if bytes_eq d c then body_of m else [])
in_flight-conn_handler c d (request_dns m) = ground arith
in_flight-conn_handler c d (result_dns m) = ground arith
in_flight-conn_handler c d (request_dial m) = ground arith
in_flight-conn_handler c d (connection_state m) = ground arith
in_flight-conn_handler c d (conn_data m) = refl
in_flight-conn_handler c d (ping m) = ground arith

-- What is still to come for the connection, where its handler is in the map.
abbrev pub if_some : Option (List ℕ) → List (List ℕ) → List (List ℕ)
if_some none xs = []
if_some (some v) xs = xs

keyed :
    (c : List ℕ) (m : Message) (o : Option (List ℕ)) (id : List ℕ)
    → ((v : List ℕ) → o ≡ some v → v ≡ id)
    → in_flight c (handled m o) ≡ if_some o (if bytes_eq id c then body_of m else [])
keyed c m none id h = refl
keyed c m (some d) id h =
    in_flight-conn_handler c d m ∙ ap (λ k. if bytes_eq k c then body_of m else []) (h d refl)

if_some_nil : (o : Option (List ℕ)) → if_some o [] ≡ []
if_some_nil none = refl
if_some_nil (some v) = refl

in_flight-dispatch_conn_msg :
    (c : List ℕ) (l : Uplink) (m : Message)
    → 0 < length c
    → IsValid l
    → in_flight c (dispatch_conn_msg l m)
      ≡ if_some (load c l.map_wait_conn) (if bytes_eq (conn_id_of m) c then body_of m else [])
unfolding dispatch_conn_msg
in_flight-dispatch_conn_msg c l m some_id (d, k) = elim (Bool-cases (bytes_eq (conn_id_of m) c)) [
  | inl same ↦
      let e = bytes_eq→eq (conn_id_of m) c same in
      rw (e, lt→ltb 0 (length c) some_id)
        (keyed c m (load c l.map_wait_conn) c (k c) ∙ rw (bytes_eq_refl c) refl)
  | inr other ↦ rw other (
      ap (λ t. t) (if_same (ltb 0 (length (conn_id_of m))) other)
      ∙ sym (if_some_nil (load c l.map_wait_conn)))
]
  where
    if_same :
        (b : Bool)
        → bytes_eq (conn_id_of m) c ≡ false
        → in_flight c (if b then handled m (load (conn_id_of m) l.map_wait_conn) else nothing) ≡ []
    if_same false h = refl
    if_same true h =
        keyed c m (load (conn_id_of m) l.map_wait_conn) (conn_id_of m) (k (conn_id_of m))
        ∙ rw h (if_some_nil (load (conn_id_of m) l.map_wait_conn))

in_flight-dispatch :
    (c : List ℕ) (l : Uplink) (m : Message)
    → 0 < length c
    → IsValid l
    → (in_flight c (dispatch l m).0 ≡ if_some (load c l.map_wait_conn) (chunk_of c m))
      × ((dispatch l m).1.map_wait_conn ≡ l.map_wait_conn)
unfolding dispatch dispatch_reply
in_flight-dispatch c l m some_id v = elim (Bool-cases (ltb 0 (ack_message_id m))) [
  | inl reply ↦ rw reply (
    in_flight-replied c m (load (ack_message_id m ∷ []) l.map_wait)
        ∙ sym (if_some_nil (load c l.map_wait_conn)),
    refl,
  )
  | inr message ↦ rw message (in_flight-dispatch_conn_msg c l m some_id v, refl)
]

-- The chunks of a connection, from those it has received to those still to be read.
abbrev pub stream : List ℕ → Dials → List (List ℕ)
stream c s =
    s.arrived
    ++ (in_flight c s.busy ++ if_some (load c s.uplink.map_wait_conn) (coming c s.incoming))

-- From one state to another the stream stays, but for chunks lost at its end.
abbrev Keeps : List ℕ → Dials → Dials → Type 0
Keeps c s t = (lost : List (List ℕ)) × (stream c s ≡ stream c t ++ lost) × IsValid t.uplink

none_lost : {xs ys : List (List ℕ)} → xs ≡ ys → xs ≡ ys ++ []
none_lost {xs} {ys} e = e ∙ sym (append-nil ys)

if_some-append :
    (o : Option (List ℕ)) (xs ys : List (List ℕ))
    → if_some o (xs ++ ys) ≡ if_some o xs ++ if_some o ys
if_some-append none xs ys = refl
if_some-append (some v) xs ys = refl

other_in_flight : (c : List ℕ) (x : Sent) → IsOther c x → in_flight c x ≡ []
other_in_flight c nothing h = refl
other_in_flight c (to_lookup dn rs) h = refl
other_in_flight c (to_dial d m) h = refl
other_in_flight c (to_conn d chunk) h = ground (arith, bytes_eq→eq d c, h)

closed_IsValid :
    (c : List ℕ) (l : Uplink)
    → IsValid l
    → (load c (delete c l.map_wait_conn) ≡ none)
      × IsValid (record l { map_wait_conn = delete c l.map_wait_conn })
closed_IsValid c l (d, k) = (
  load-delete c c l.map_wait_conn d ∙ rw (bytes_eq_refl c) refl,
  (
    delete-Distinct c l.map_wait_conn d,
    λ j v e. after_delete j v (load-delete c j l.map_wait_conn d) e,
  ),
)
  where
    after_delete :
        (j v : List ℕ)
        → load j (delete c l.map_wait_conn)
          ≡ (if bytes_eq c j then none else load j l.map_wait_conn)
        → load j (delete c l.map_wait_conn) ≡ some v
        → v ≡ j
    after_delete j v h e = elim (Bool-cases (bytes_eq c j)) [
      | inl same ↦ let gone : none ≡ some v = sym (h ∙ rw same refl) ∙ e in cc
      | inr other ↦ k j v (sym (h ∙ rw other refl) ∙ e)
    ]

Step-Keeps : (c : List ℕ) {s t : Dials} → 0 < length c → IsValid s.uplink → Step c s t → Keeps c s t
unfolding coming
Step-Keeps c {s} some_id v (reads m ms free e) =
    let (sent, same) = in_flight-dispatch c s.uplink m some_id v in
    let here = load c s.uplink.map_wait_conn in
    (
      [],
      none_lost (
          rw (free, e, sent, same)
            (ap (λ t. s.arrived ++ t) (if_some-append here (chunk_of c m) (coming c ms)))),
      rw same v,
    )
Step-Keeps c {s} some_id v (state_taken m e h) = ([], none_lost (rw e refl), v)
Step-Keeps c {s} some_id v (timeout h) = ([], none_lost refl, v)
Step-Keeps c {s} some_id v (data_taken chunk e) =
    ([], none_lost (rw (e, bytes_eq_refl c) (sym (append_assoc s.arrived (chunk ∷ []) _))), v)
Step-Keeps c {s} some_id v closes =
    let (gone, v') = closed_IsValid c s.uplink v in
    (
      if_some (load c s.uplink.map_wait_conn) (coming c s.incoming),
      rw (gone, append-nil (in_flight c s.busy))
          (sym (append_assoc s.arrived (in_flight c s.busy) _)),
      v',
    )
Step-Keeps c {s} some_id v (other_taken h) =
    ([], none_lost (rw (other_in_flight c s.busy h) refl), v)
Step-Keeps c {s} some_id v (others_change l e v') = ([], none_lost (rw e refl), v')

Reach-Keeps :
    (c : List ℕ) {s t : Dials} → 0 < length c → IsValid s.uplink → Reach c s t → Keeps c s t
Reach-Keeps c {s} some_id v here = ([], none_lost refl, v)
Reach-Keeps c {s} some_id v (next {t} {u} r step) =
    let (lost, e, v') = Reach-Keeps c some_id v r in
    let (lost', e', v'') = Step-Keeps c some_id v' step in
    (lost' ++ lost, e ∙ ap (λ x. x ++ lost) e' ∙ append_assoc (stream c u) lost' lost, v'')

-- Whatever the scheduling, and whatever the handlers of other connections and lookups do: the chunks
-- that a connection has received are, in order and each once, the first of those that the server has
-- sent it, taken from the messages that were to be read when nothing kept the worker.
pub arrived_in_order :
    (c : List ℕ) {s t : Dials}
    → 0 < length c
    → IsValid s.uplink
    → s.busy ≡ nothing
    → s.arrived ≡ []
    → Reach c s t
    → (more : List (List ℕ)) × (if_some (load c s.uplink.map_wait_conn) (coming c s.incoming)
        ≡ t.arrived ++ more)
arrived_in_order c {s} {t} some_id v free fresh r =
    let (lost, e, v') = Reach-Keeps c some_id v r in
    let rest =
      in_flight c t.busy ++ if_some (load c t.uplink.map_wait_conn) (coming c t.incoming) in
    let start : stream c s ≡ if_some (load c s.uplink.map_wait_conn) (coming c s.incoming) =
      rw (free, fresh) refl in
    (rest ++ lost, sym start ∙ e ∙ append_assoc t.arrived rest lost)
