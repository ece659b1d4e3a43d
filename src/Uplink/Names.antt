-- ===== src/Uplink/Names.antt =====
-- Lookups over the tunnel: the requests that `LookupIP` writes, the session's replies, and the worker
-- that reads them.
use df.Prelude.{
  ℕ, suc, ◌<◌, ◌≡◌, ◌≢◌, refl, sym, ap, ◌∙◌, arith, List, [], ◌∷◌, ◌++◌, length, map, append-nil,
  append_assoc, All, false, some, bytes_eq, bytes_eq_refl, lt→ltb,
}
use df.Bytes.{IsU32}
use df.Io.{Result, ok, err, panic, Error, Io, pure, eof, ◌>>◌, buffer_write, read_full}
use df.SyncMap.{load, delete, Distinct, load-store, store-Distinct, load-delete, delete-Distinct}
use df.Message.{MessageRequestDns, MessageResultDns, request_dns, result_dns}
use df.Codec.{Json}
use df.Codec
use df.Codec.Frame.{frame, packed_result_dns}
use df.Codec.RoundTrip.{read-write, write-frame}
use df.Tunnel.Session.{read_failed, dns_reply, handle_dns, handle_one, handle}
use df.Uplink.{Uplink, to_lookup, start_lookup, dispatch, dispatch_reply, worker}

-- One `LookupIP` after the other, up to where each waits for its result.
unfoldable pub started : List MessageRequestDns → Uplink → Uplink
started [] l = l
started (m ∷ ms) l = started ms (start_lookup m.id m.network m.domain_name l).1

module _ (json : Json) (noise : List ℕ) where
  unfoldable pub write_requests : List MessageRequestDns → Io ℕ
  write_requests [] = pure 0
  write_requests (m ∷ ms) = do
    Codec.write json noise buffer_write (request_dns m)
    write_requests ms

abbrev pub Separate : List MessageRequestDns → Type 0
Separate [] = Unit
Separate (m ∷ ms) = All (λ n. m.id ≢ n.id) ms × Separate ms

-- What the reply to a request has: its id in the acknowledgement, and the addresses that the resolver
-- gives, or none and the error's text.
abbrev pub addresses_of : Result (List (List ℕ)) → List (List ℕ)
addresses_of (ok ips) = ips
addresses_of (err e) = []
addresses_of panic = []

abbrev pub error_of : (Error → List ℕ) → Result (List (List ℕ)) → List ℕ
error_of text (ok ips) = []
error_of text (err e) = text e
error_of text panic = []

abbrev pub reply_to :
    (Error → List ℕ) → (List ℕ → Result (List (List ℕ))) → MessageRequestDns → MessageResultDns
reply_to text net_lookup m = record {
  id = 0;
  ack = m.id;
  addresses = addresses_of (net_lookup m.domain_name);
  error = error_of text (net_lookup m.domain_name);
}

dns_reply_lem :
    (text : Error → List ℕ) (m : MessageRequestDns) (r : Result (List (List ℕ)))
    → dns_reply text m r
      ≡ record { id = 0; ack = m.id; addresses = addresses_of r; error = error_of text r }
unfolding dns_reply
dns_reply_lem text m (ok ips) = refl
dns_reply_lem text m (err e) = refl
dns_reply_lem text m panic = refl

module _ (json : Json) (text : Error → List ℕ) (net_lookup : List ℕ → Result (List (List ℕ))) where
  abbrev reply : MessageRequestDns → MessageResultDns
  reply = reply_to text net_lookup

  -- A request that the codec carries, and so its reply.
  pub record IsCarried (m : MessageRequestDns) : Type 0 where
    pub dat : List ℕ
    pub marshals : json.marshal (request_dns m) ≡ ok dat
    pub unmarshals : json.unmarshal_request_dns dat ≡ ok m
    pub positive : 0 < m.id
    pub id_ok : IsU32 m.id
    pub dat_ok : IsU32 (length dat)
    pub reply_ok : IsU32 (length (packed_result_dns (reply m)))

  requests : (ms : List MessageRequestDns) → All IsCarried ms → List ℕ
  requests [] hs = []
  requests (m ∷ ms) (h, hs) = frame (request_dns m) h.dat ++ requests ms hs

  replies : List MessageRequestDns → List ℕ
  replies [] = []
  replies (m ∷ ms) = frame (result_dns (reply m)) (packed_result_dns (reply m)) ++ replies ms

  write_requests_lem :
      (noise : List ℕ) (ms : List MessageRequestDns) (hs : All IsCarried ms) (s : List ℕ)
      → length noise ≡ 8
      → (write_requests json noise ms s).1 ≡ s ++ requests ms hs
  unfolding write_requests requests buffer_write
  write_requests_lem noise [] hs s n = sym (append-nil s)
  write_requests_lem noise (m ∷ ms) (h, hs) s n =
      let sent = frame (request_dns m) h.dat in
      rw (write-frame json noise buffer_write (request_dns m) s n, h.marshals)
        (write_requests_lem noise ms hs (s ++ sent) n ∙ append_assoc s sent (requests ms hs))

  -- The worker takes each reply to the lookup that waits for it.
  abbrev Waiting : Uplink → MessageRequestDns → Type 0
  Waiting l m = load (m.id ∷ []) l.map_wait ≡ some m.domain_name

  worker_step :
      (noise : List ℕ) (fuel : ℕ) (l : Uplink) (m : MessageRequestDns) (rest : List ℕ)
      → length noise ≡ 8
      → IsCarried m
      → Waiting l m
      → (worker json
          (suc fuel)
          l
          (frame (result_dns (reply m)) (packed_result_dns (reply m)) ++ rest)).0
        ≡ to_lookup m.domain_name (some (reply m))
          ∷ (worker json fuel (record l { map_wait = delete (m.id ∷ []) l.map_wait }) rest).0
  unfolding worker dispatch dispatch_reply
  worker_step noise fuel l m rest n h waits =
      let carried =
        read-write json noise (result_dns (reply m)) {dat = packed_result_dns (reply m)} rest n refl
          tt (omega arith) h.id_ok h.reply_ok in
      rw carried.1 (rw (lt→ltb 0 m.id h.positive) (rw waits refl))

  other_key : (i j : ℕ) → i ≢ j → bytes_eq (i ∷ []) (j ∷ []) ≡ false
  other_key i j h = ground (arith, h)

  after_delete :
      (l : Uplink) (m : MessageRequestDns) (ms : List MessageRequestDns)
      → Distinct l.map_wait
      → All (λ n. m.id ≢ n.id) ms
      → All (Waiting l) ms
      → All (Waiting (record l { map_wait = delete (m.id ∷ []) l.map_wait })) ms
  after_delete l m [] d others waits = tt
  after_delete l m (n ∷ ms) d (other, others) (waits_n, waits) = (
    load-delete (m.id ∷ []) (n.id ∷ []) l.map_wait d ∙ rw (other_key m.id n.id other) waits_n,
    after_delete l m ms d others waits,
  )

  worker_lem :
      (noise : List ℕ) (ms : List MessageRequestDns) (l : Uplink)
      → length noise ≡ 8
      → All IsCarried ms
      → Separate ms
      → Distinct l.map_wait
      → All (Waiting l) ms
      → (worker json (suc (length ms)) l (replies ms)).0
        ≡ map (λ m. to_lookup m.domain_name (some (reply m))) ms
  unfolding worker replies Codec.read read_full
  worker_lem noise [] l n hs sep d waits = refl
  worker_lem noise (m ∷ ms) l n (h, hs) (others, sep) d (waits_m, waits) =
      worker_step noise (suc (length ms)) l m (replies ms) n h waits_m
      ∙ ap (λ t. to_lookup m.domain_name (some (reply m)) ∷ t)
          (worker_lem noise ms (record l { map_wait = delete (m.id ∷ []) l.map_wait }) n hs sep
            (delete-Distinct (m.id ∷ []) l.map_wait d) (after_delete l m ms d others waits))

  start-Waiting :
      (m : MessageRequestDns) (ms : List MessageRequestDns) (l : Uplink)
      → All (λ n. m.id ≢ n.id) ms
      → Waiting l m
      → Waiting (started ms l) m
  unfolding started start_lookup
  start-Waiting m [] l others waits = waits
  start-Waiting m (n ∷ ms) l (other, others) waits =
      start-Waiting m ms (start_lookup n.id n.network n.domain_name l).1 others (
        load-store (n.id ∷ []) (m.id ∷ []) n.domain_name l.map_wait
        ∙ rw (other_key n.id m.id (λ e. other (sym e))) waits)

  started-Waiting :
      (ms : List MessageRequestDns) (l : Uplink)
      → Separate ms
      → Distinct l.map_wait
      → Distinct (started ms l).map_wait × All (Waiting (started ms l)) ms
  unfolding started start_lookup
  started-Waiting [] l sep d = (d, tt)
  started-Waiting (m ∷ ms) l (others, sep) d =
      let l' = (start_lookup m.id m.network m.domain_name l).1 in
      let (d', waits) =
        started-Waiting ms l' sep (store-Distinct (m.id ∷ []) m.domain_name l.map_wait d) in
      let mine = start-Waiting m ms l' others (
        load-store (m.id ∷ []) (m.id ∷ []) m.domain_name l.map_wait
        ∙ rw (bytes_eq_refl (m.id ∷ []))) in
      (d', (mine, waits))

module _ (json : Json) (noise : List ℕ) (text : Error → List ℕ)
    (net_lookup : List ℕ → Result (List (List ℕ))) where
  handle_lem :
      (ms : List MessageRequestDns) (hs : All (IsCarried json text net_lookup) ms) (out : List ℕ)
      → length noise ≡ 8
      → (handle json noise text net_lookup buffer_write
          (suc (length ms))
          (requests json text net_lookup ms hs)
          out)
        ≡ (read_failed eof, [], out ++ replies json text net_lookup ms)
  unfolding handle handle_one handle_dns requests replies buffer_write Codec.read read_full
  handle_lem [] hs out n = ap (λ t. (read_failed eof, [], t)) (sym (append-nil out))
  handle_lem (m ∷ ms) (h, hs) out n =
      let r = result_dns (reply_to text net_lookup m) in
      let sent = frame r (packed_result_dns (reply_to text net_lookup m)) in
      let rest = requests json text net_lookup ms hs in
      rw
        ((read-write json noise (request_dns m) {dat = h.dat} rest n h.marshals h.unmarshals h.id_ok
          (omega arith) h.dat_ok).1)
        (rw (dns_reply_lem text m (net_lookup m.domain_name)) (
          rw (write-frame json noise buffer_write r out n) (
            handle_lem ms hs (out ++ sent) n
            ∙ ap (λ t. (read_failed eof, [], t))
                (append_assoc out sent (replies json text net_lookup ms)))))

  -- Any number of names looked up at once, under ids that differ: the session answers every request
  -- that the lookups write, and the worker gives each lookup the reply to its own request, with the
  -- addresses that the resolver has for its name, or none and the error. The ids are positive, and ids
  -- and payloads are within 32 bits.
  pub lookups_answered :
      (ms : List MessageRequestDns) (l : Uplink)
      → length noise ≡ 8
      → Distinct l.map_wait
      → Separate ms
      → All (IsCarried json text net_lookup) ms
      → let s = (write_requests json noise ms []).1 in
        let out = (handle json noise text net_lookup buffer_write (suc (length ms)) s []).2 in
        (worker json (suc (length ms)) (started ms l) out).0
        ≡ map (λ m. to_lookup m.domain_name (some (reply_to text net_lookup m))) ms
  lookups_answered ms l n d sep hs =
      let (d', waits) = started-Waiting json text net_lookup ms l sep d in
      rw (write_requests_lem json text net_lookup noise ms hs [] n, handle_lem ms hs [] n)
        (worker_lem json text net_lookup noise ms (started ms l) n hs sep d' waits)
