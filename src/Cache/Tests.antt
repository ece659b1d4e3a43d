-- ===== src/Cache/Tests.antt =====
-- Runs of the cache.
use df.Prelude.{ℕ, ◌≡◌, refl, [], ◌∷◌, none, some}
use df.SyncMap.{load, delete}
use df.Cache.{TsCache, remove_outdated_items}
use df.Cache.Expiry.{IsValid, load-remove_outdated_items, kept}

abbrev sample : TsCache ℕ
sample = record {
  items =
      (b'a' ∷ [], record { last_used_at = 10; entry = 1 })
      ∷ (b'b' ∷ [], record { last_used_at = 50; entry = 2 })
      ∷ [];
  entry_max_ttl = 30;
}

sample-IsValid : IsValid sample
unfolding load
sample-IsValid = (refl, (refl, tt))

load-remove_outdated_items_example :
    (load (b'a' ∷ []) (remove_outdated_items 60 sample).items
      ≡ kept 60 30 (load (b'a' ∷ []) sample.items))
    × IsValid (remove_outdated_items 60 sample)
load-remove_outdated_items_example = load-remove_outdated_items 60 (b'a' ∷ []) sample sample-IsValid

-- The first item is gone, the second is left.
removed :
    (load (b'a' ∷ []) (remove_outdated_items 60 sample).items ≡ none)
    × (load (b'b' ∷ []) (remove_outdated_items 60 sample).items
        ≡ some (record { last_used_at = 50; entry = 2 }))
unfolding load delete remove_outdated_items
removed = (refl, refl)
