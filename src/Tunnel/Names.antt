-- ===== src/Tunnel/Names.antt =====
-- Names are resolved once while the cache keeps them.
use df.Prelude.{ℕ, ◌≡◌, refl, sym, ap, ◌∙◌, List, Option, none, some, bytes_eq_refl}
use df.Io.{Result, ok, err, panic}
use df.SyncMap.{load}
use df.Cache.{TsCache, Item, get, put}
use df.Cache.Expiry
use df.Cache.Expiry.{get_lem, load-put, map_option, entry_of, used_at}
use df.Tunnel.{lookup_ip, looked_up, saved}

-- A cache with these addresses under the host.
record Holds (host : List ℕ) (ips : List (List ℕ)) (cache : TsCache (List (List ℕ))) : Type 0 where
  item : Item (List (List ℕ))
  loaded : load host cache.items ≡ some item
  same : item.entry ≡ ips
  valid : Expiry.IsValid cache

hit :
    (now : ℕ) (net_lookup : List ℕ → Result (List (List ℕ))) (host : List ℕ) (ips : List (List ℕ))
    (p : Option (List (List ℕ)) × TsCache (List (List ℕ)))
    → p.0 ≡ some ips
    → (looked_up now net_lookup host p).0 ≡ ok ips
hit now net_lookup host ips (none, cache) e = cc
hit now net_lookup host ips (some found, cache) e = cc

lookup_ip-Holds :
    (now : ℕ) (net_lookup : List ℕ → Result (List (List ℕ))) (host : List ℕ) (ips : List (List ℕ))
    (cache : TsCache (List (List ℕ)))
    → Holds host ips cache
    → (lookup_ip now net_lookup host cache).0 ≡ ok ips
unfolding lookup_ip
lookup_ip-Holds now net_lookup host ips cache h =
    hit now net_lookup host ips (get now host cache)
      ((get_lem now host host cache h.valid).0 ∙ ap (map_option entry_of) h.loaded ∙ ap some h.same)

put-Holds :
    (now : ℕ) (host : List ℕ) (ips : List (List ℕ)) (cache : TsCache (List (List ℕ)))
    → Expiry.IsValid cache
    → Holds host ips (put now host ips cache)
put-Holds now host ips cache v =
    let (e, v') = load-put now host host ips cache v in
    record {
      item = record { last_used_at = now; entry = ips };
      loaded = e ∙ rw (bytes_eq_refl host) refl;
      same = refl;
      valid = v';
    }

saved-Holds :
    (now : ℕ) (host : List ℕ) (ips : List (List ℕ)) (cache : TsCache (List (List ℕ)))
    (r : Result (List (List ℕ)))
    → Expiry.IsValid cache
    → (saved now host r cache).0 ≡ ok ips
    → Holds host ips (saved now host r cache).1
saved-Holds now host ips cache (ok found) v e =
    let same : found ≡ ips = cc in rw same (put-Holds now host ips cache v)
saved-Holds now host ips cache (err x) v e = cc
saved-Holds now host ips cache panic v e = cc

got-Holds :
    (now : ℕ) (host : List ℕ) (ips : List (List ℕ)) (cache : TsCache (List (List ℕ)))
    (o : Option (Item (List (List ℕ))))
    → Expiry.IsValid cache
    → load host cache.items ≡ o
    → map_option entry_of o ≡ some ips
    → Holds host ips (get now host cache).1
got-Holds now host ips cache none v e h = cc
got-Holds now host ips cache (some item) v e h =
    let (_, later, v') = get_lem now host host cache v in
    record {
      item = used_at now item;
      loaded = later ∙ rw (bytes_eq_refl host) (ap (map_option (used_at now)) e);
      same = cc;
      valid = v';
    }

looked_up-Holds :
    (now : ℕ) (net_lookup : List ℕ → Result (List (List ℕ))) (host : List ℕ) (ips : List (List ℕ))
    (cache : TsCache (List (List ℕ))) (o : Option (List (List ℕ)))
    → Expiry.IsValid cache
    → (get now host cache).0 ≡ o
    → (looked_up now net_lookup host (o, (get now host cache).1)).0 ≡ ok ips
    → Holds host ips (looked_up now net_lookup host (o, (get now host cache).1)).1
looked_up-Holds now net_lookup host ips cache none v e h =
    saved-Holds now host ips (get now host cache).1 (net_lookup host)
      (get_lem now host host cache v).2 h
looked_up-Holds now net_lookup host ips cache (some found) v e h =
    got-Holds now host ips cache (load host cache.items) v refl
      (sym (get_lem now host host cache v).0 ∙ e ∙ cc)

-- A name that `lookupIP` has resolved is resolved to the same addresses when it is looked up next,
-- at any time before a clean-up and whatever the resolver then says.
pub lookup_ip-lookup_ip :
    (now later : ℕ) (net_lookup net_lookup' : List ℕ → Result (List (List ℕ))) (host : List ℕ)
    (ips : List (List ℕ)) (cache : TsCache (List (List ℕ)))
    → Expiry.IsValid cache
    → (lookup_ip now net_lookup host cache).0 ≡ ok ips
    → (lookup_ip later net_lookup' host (lookup_ip now net_lookup host cache).1).0 ≡ ok ips
unfolding lookup_ip
lookup_ip-lookup_ip now later net_lookup net_lookup' host ips cache v e =
    lookup_ip-Holds later net_lookup' host ips (lookup_ip now net_lookup host cache).1
      (looked_up-Holds now net_lookup host ips cache (get now host cache).0 v refl e)
