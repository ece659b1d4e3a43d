-- ===== src/SyncMap.antt =====
-- `sync.Map` with string keys: a list of keys with values, each key once, and the laws of its
-- operations.
use df.Prelude.{
  ℕ, ◌≡◌, inl, inr, refl, ◌∙◌, arith, Bool-cases, List, [], ◌∷◌, Option, none, some, bytes_eq,
  bytes_eq_refl, bytes_eq→eq, if◌then◌else◌,
}

module _ {ℓ} {V : Type ℓ} where
  -- `Load`, `Store` and `Delete` of a `sync.Map`.
  unfoldable pub load : List ℕ → List (List ℕ × V) → Option V
  load k [] = none
  load k ((j, v) ∷ m) = if bytes_eq j k then some v else load k m

  unfoldable pub store : List ℕ → V → List (List ℕ × V) → List (List ℕ × V)
  store k v [] = (k, v) ∷ []
  store k v ((j, w) ∷ m) = if bytes_eq j k then (j, v) ∷ m else (j, w) ∷ store k v m

  unfoldable pub delete : List ℕ → List (List ℕ × V) → List (List ℕ × V)
  delete k [] = []
  delete k ((j, w) ∷ m) = if bytes_eq j k then m else (j, w) ∷ delete k m

bytes_eq_comm : (xs ys : List ℕ) → bytes_eq xs ys ≡ bytes_eq ys xs
bytes_eq_comm [] [] = refl
bytes_eq_comm [] (y ∷ ys) = refl
bytes_eq_comm (x ∷ xs) [] = refl
bytes_eq_comm (x ∷ xs) (y ∷ ys) = ground (arith, bytes_eq_comm xs ys)

module _ {ℓ} {V : Type ℓ} where
  -- Each key stands once.
  abbrev pub Distinct : List (List ℕ × V) → Type ℓ
  Distinct [] = Unit
  Distinct ((k, v) ∷ m) = (load k m ≡ none) × Distinct m

  pub load-store :
      (k j : List ℕ) (v : V) (m : List (List ℕ × V))
      → load j (store k v m) ≡ (if bytes_eq k j then some v else load j m)
  unfolding load store
  load-store k j v [] = refl
  load-store k j v ((i, w) ∷ m) = ground (
    arith,
    bytes_eq→eq i k,
    bytes_eq→eq i j,
    bytes_eq→eq k j,
    bytes_eq_refl i,
    load-store k j v m,
  )

  pub store-Distinct :
      (k : List ℕ) (v : V) (m : List (List ℕ × V)) → Distinct m → Distinct (store k v m)
  unfolding store
  store-Distinct k v [] d = (unfold load in refl, tt)
  store-Distinct k v ((i, w) ∷ m) (h, d) = elim (Bool-cases (bytes_eq i k)) [
    | inl same ↦ rw same (h, d)
    | inr other ↦
        rw other (load-store k i v m ∙ rw (bytes_eq_comm k i ∙ other) h, store-Distinct k v m d)
  ]

  pub load-delete :
      (k j : List ℕ) (m : List (List ℕ × V))
      → Distinct m
      → load j (delete k m) ≡ (if bytes_eq k j then none else load j m)
  unfolding load delete
  load-delete k j [] d = ground arith
  load-delete k j ((i, w) ∷ m) (h, d) = ground (
    arith,
    bytes_eq→eq i k,
    bytes_eq→eq i j,
    bytes_eq→eq k j,
    bytes_eq_refl i,
    load-delete k j m d,
  )

  pub delete-Distinct : (k : List ℕ) (m : List (List ℕ × V)) → Distinct m → Distinct (delete k m)
  unfolding delete
  delete-Distinct k [] d = d
  delete-Distinct k ((i, w) ∷ m) (h, d) = elim (Bool-cases (bytes_eq i k)) [
    | inl same ↦ rw same d
    | inr other ↦
        rw other (load-delete k i m d ∙ rw (bytes_eq_comm k i ∙ other) h, delete-Distinct k m d)
  ]
