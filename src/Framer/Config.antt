-- ===== src/Framer/Config.antt =====
-- What a framer makes of settings that were set one after the other.
use df.Prelude.{ℕ, ◌≡◌, refl, ap, ◌∙◌, List, some, Bool, true, false, bytes_eq, if◌then◌else◌}
use df.SyncMap.{load, load-store}
use df.Conf.{Values, get, set_value, or_empty}

pub get-set_value :
    (v : Values) (name other value : List ℕ)
    → get (set_value v name value) other ≡ (if bytes_eq name other then value else get v other)
unfolding get set_value
get-set_value v name other value =
    ap or_empty (load-store name other value v) ∙ if_empty (bytes_eq name other)
  where
    if_empty :
        (b : Bool)
        → or_empty (if b then some value else load other v)
          ≡ (if b then value else or_empty (load other v))
    if_empty true = refl
    if_empty false = refl
