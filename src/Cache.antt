-- ===== src/Cache.antt =====
-- lru/ts_cache.go: entries that are dropped when they have not been used for a while.
-- `sync.Map` is a list of keys with items, each key once. A time is a number of nanoseconds, and the
-- clock's reading is the argument `now`. The entries' type is a parameter; no other value is stored.
pub mod Expiry
mod Tests
use df.SyncMap.{load, store, delete}
use df.Prelude.{
  ℕ, ◌+◌, Bool, true, false, List, [], ◌∷◌, ◌++◌, Option, none, some, bytes_eq, ltb, if◌then◌else◌,
}

pub record Item (V : Type 0) : Type 0 where
  pub last_used_at : ℕ
  pub entry : V

pub record TsCache (V : Type 0) : Type 0 where
  pub items : List (List ℕ × Item V)
  pub entry_max_ttl : ℕ

module _ {V : Type 0} where
  unfoldable pub put : ℕ → List ℕ → V → TsCache V → TsCache V
  put now key entry t = record t {
    items = store key (record { last_used_at = now; entry = entry }) t.items;
  }

  -- The item is shared, so the new time is seen in the map.
  abbrev pub found : ℕ → List ℕ → TsCache V → Option (Item V) → Option V × TsCache V
  found now key t none = (none, t)
  found now key t (some item) =
      (some item.entry, record t { items = store key (record item { last_used_at = now }) t.items })

  unfoldable pub get : ℕ → List ℕ → TsCache V → Option V × TsCache V
  get now key t = found now key t (load key t.items)

  abbrev pub is_outdated : ℕ → ℕ → Item V → Bool
  is_outdated now max_ttl item = ltb (item.last_used_at + max_ttl) now

  -- The `Range` of `removeOutdatedItems`, which collects keys, and its loop that deletes them.
  unfoldable pub outdated_keys : ℕ → ℕ → List (List ℕ × Item V) → List (List ℕ)
  outdated_keys now max_ttl [] = []
  outdated_keys now max_ttl ((k, item) ∷ m) =
      let rest = outdated_keys now max_ttl m in
      if is_outdated now max_ttl item then k ∷ rest else rest

  unfoldable pub delete_all : List (List ℕ) → List (List ℕ × Item V) → List (List ℕ × Item V)
  delete_all [] m = m
  delete_all (k ∷ ks) m = delete_all ks (delete k m)

  unfoldable pub remove_outdated_items : ℕ → TsCache V → TsCache V
  unfolding outdated_keys delete_all
  remove_outdated_items now t = record t {
    items = delete_all (outdated_keys now t.entry_max_ttl t.items) t.items;
  }

unfoldable pub new_ts_cache : {V : Type 0} → ℕ → TsCache V
new_ts_cache ttl = record { items = []; entry_max_ttl = ttl }
