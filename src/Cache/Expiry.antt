-- ===== src/Cache/Expiry.antt =====
-- What a cache holds after each operation.
use df.Prelude.{
  ◌≡◌, inl, inr, refl, sym, ap, ◌∙◌, arith, Bool, false, ◌||◌, Bool-cases, List, [], ◌∷◌, Option,
  none, some, bytes_eq, bytes_eq→eq, leb, ◌+◌, ℕ, if◌then◌else◌,
}
use df.SyncMap.{load, delete, Distinct, load-store, store-Distinct, load-delete, delete-Distinct}
use df.Cache.{Item, TsCache, put, get, found, outdated_keys, delete_all, remove_outdated_items}

abbrev pub map_option {ℓ κ} : {A : Type ℓ} {B : Type κ} → (A → B) → Option A → Option B
map_option f none = none
map_option f (some a) = some (f a)

abbrev pub member : List ℕ → List (List ℕ) → Bool
member k [] = false
member k (j ∷ js) = bytes_eq j k || member k js

module _ {V : Type 0} where
  load-delete_all :
      (ks : List (List ℕ)) (j : List ℕ) (m : List (List ℕ × Item V))
      → Distinct m
      → load j (delete_all ks m) ≡ (if member j ks then none else load j m)
  unfolding delete_all
  load-delete_all [] j m d = refl
  load-delete_all (k ∷ ks) j m d =
      load-delete_all ks j (delete k m) (delete-Distinct k m d)
      ∙ ground (arith, load-delete k j m d)

  delete_all-Distinct :
      (ks : List (List ℕ)) (m : List (List ℕ × Item V)) → Distinct m → Distinct (delete_all ks m)
  unfolding delete_all
  delete_all-Distinct [] m d = d
  delete_all-Distinct (k ∷ ks) m d = delete_all-Distinct ks (delete k m) (delete-Distinct k m d)

  -- What is left of an item after a clean-up: the item, if its last use and the TTL reach up to `now`.
  abbrev pub kept : ℕ → ℕ → Option (Item V) → Option (Item V)
  kept now ttl none = none
  kept now ttl (some item) = if leb now (item.last_used_at + ttl) then some item else none

  absent_not_outdated :
      (now ttl : ℕ) (j : List ℕ) (m : List (List ℕ × Item V))
      → load j m ≡ none
      → member j (outdated_keys now ttl m) ≡ false
  unfolding outdated_keys load
  absent_not_outdated now ttl j [] h = refl
  absent_not_outdated now ttl j ((k, item) ∷ m) h = ground (arith, absent_not_outdated now ttl j m)

  outdated_keys_lem :
      (now ttl : ℕ) (j : List ℕ) (m : List (List ℕ × Item V))
      → Distinct m
      → (if member j (outdated_keys now ttl m) then none else load j m) ≡ kept now ttl (load j m)
  unfolding outdated_keys load
  outdated_keys_lem now ttl j [] d = refl
  outdated_keys_lem now ttl j ((k, item) ∷ m) (h, d) =
      ground
        (arith, bytes_eq→eq k j, absent_not_outdated now ttl k m h, outdated_keys_lem now ttl j m d)

-- A cache whose keys stand once each.
abbrev pub IsValid : {V : Type 0} → TsCache V → Type 0
IsValid t = Distinct t.items

module _ {V : Type 0} where
  -- `removeOutdatedItems` drops exactly the items last used more than the TTL ago: a key is found
  -- afterwards with the item that it had before, if the item's last use and the TTL reach up to
  -- `now`, and is not found otherwise.
  pub load-remove_outdated_items :
      (now : ℕ) (j : List ℕ) (t : TsCache V)
      → IsValid t
      → (load j (remove_outdated_items now t).items ≡ kept now t.entry_max_ttl (load j t.items))
        × IsValid (remove_outdated_items now t)
  unfolding remove_outdated_items
  load-remove_outdated_items now j t d =
      let ks = outdated_keys now t.entry_max_ttl t.items in
      (
        load-delete_all ks j t.items d ∙ outdated_keys_lem now t.entry_max_ttl j t.items d,
        delete_all-Distinct ks t.items d,
      )

  -- `Put` makes its entry the one found under the key, used now, and leaves every other key.
  pub load-put :
      (now : ℕ) (k j : List ℕ) (v : V) (t : TsCache V)
      → IsValid t
      → (load j (put now k v t).items ≡ (
          if bytes_eq k j then some (record { last_used_at = now; entry = v }) else load j t.items))
        × IsValid (put now k v t)
  unfolding put
  load-put now k j v t d = (load-store k j _ t.items, store-Distinct k _ t.items d)

  abbrev pub used_at : ℕ → Item V → Item V
  used_at now item = record item { last_used_at = now }

  abbrev pub entry_of : Item V → V
  entry_of item = item.entry

  load_miss :
      (k j : List ℕ) (m : List (List ℕ × Item V))
      → load k m ≡ none
      → load j m ≡ (if bytes_eq k j then none else load j m)
  load_miss k j m e = elim (Bool-cases (bytes_eq k j)) [
    | inl same ↦ rw same (ap (λ i. load i m) (sym (bytes_eq→eq k j same)) ∙ e)
    | inr other ↦ rw other refl
  ]

  found_lem :
      (now : ℕ) (k j : List ℕ) (t : TsCache V) (o : Option (Item V))
      → IsValid t
      → load k t.items ≡ o
      → ((found now k t o).0 ≡ map_option entry_of o)
        × (load j (found now k t o).1.items
            ≡ (if bytes_eq k j then map_option (used_at now) o else load j t.items))
        × IsValid (found now k t o).1
  found_lem now k j t none d e = (refl, load_miss k j t.items e, d)
  found_lem now k j t (some item) d e =
      (refl, load-store k j _ t.items, store-Distinct k _ t.items d)

  -- `Get` returns the entry found under the key, and marks it as used now; a miss changes nothing.
  -- Every other key keeps what it had.
  pub get_lem :
      (now : ℕ) (k j : List ℕ) (t : TsCache V)
      → IsValid t
      → ((get now k t).0 ≡ map_option entry_of (load k t.items))
        × (load j (get now k t).1.items
            ≡ (if bytes_eq k j then map_option (used_at now) (load k t.items) else load j t.items))
        × IsValid (get now k t).1
  unfolding get
  get_lem now k j t d = found_lem now k j t (load k t.items) d refl
