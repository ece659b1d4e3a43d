-- ===== src/Uplink/Failures.antt =====
-- A name that the server cannot resolve.
use df.Prelude.{ℕ, ◌≡◌, refl, ◌∙◌, List, [], some, bytes_eq_refl}
use df.Io.{Error, err}
use df.Cache.{TsCache, get, put}
use df.Cache.Expiry
use df.Cache.Expiry.{get_lem, load-put, map_option, entry_of}
use df.Message.{MessageRequestDns}
use df.Tunnel.Session.{dns_reply}
use df.Uplink.{take_result}

-- The session's reply to a name that does not resolve is taken for a name without addresses: the lookup
-- returns an empty list and no error, and puts that into the cache, where a later lookup finds it.
pub failure_cached :
    (text : Error → List ℕ) (m : MessageRequestDns) (e : Error) (now later : ℕ) (dn : List ℕ)
    (cache : TsCache (List (List ℕ)))
    → Expiry.IsValid cache
    → let taken = take_result now dn (some (dns_reply text m (err e))) cache in
      (taken.0 ≡ some []) × ((get later dn taken.1).0 ≡ some [])
unfolding take_result dns_reply
failure_cached text m e now later dn cache v =
    let (stored, v') = load-put now dn dn [] cache v in
    (
      refl,
      (get_lem later dn dn (put now dn [] cache) v').0 ∙ rw stored (rw (bytes_eq_refl dn) refl),
    )
