-- ===== src/Prelude/Lists.antt =====
-- Lists measured and indexed by native numbers, under the library's names.
use Prim.Native.Nat.{ℕ, zero, suc, ◌+◌, ◌-◌, ◌≤◌, min}
use mathlib.Core.Path.{◌≡◌, refl, sym, ap, ◌∙◌}
use mathlib.Core.List.{List, [], ◌∷◌, ◌++◌, append_assoc}
use mathlib.Core.Option.{Option, none, some}
use native.Mathlib.Omega.{arith}

module _ {ℓ} {A : Type ℓ} where
  abbrev pub length : List A → ℕ
  length [] = 0
  length (x ∷ xs) = suc (length xs)

  abbrev pub get_elem? : List A → ℕ → Option A
  get_elem? [] i = none
  get_elem? (x ∷ xs) zero = some x
  get_elem? (x ∷ xs) (suc i) = get_elem? xs i

  abbrev pub get_or : List A → ℕ → A → A
  get_or [] i d = d
  get_or (x ∷ xs) zero d = x
  get_or (x ∷ xs) (suc i) d = get_or xs i d

  -- A write out of bounds changes nothing.
  abbrev pub set : List A → ℕ → A → List A
  set [] i v = []
  set (x ∷ xs) zero v = v ∷ xs
  set (x ∷ xs) (suc i) v = x ∷ set xs i v

  abbrev pub take : ℕ → List A → List A
  take zero xs = []
  take (suc n) [] = []
  take (suc n) (x ∷ xs) = x ∷ take n xs

  abbrev pub drop : ℕ → List A → List A
  drop zero xs = xs
  drop (suc n) [] = []
  drop (suc n) (x ∷ xs) = drop n xs

  abbrev pub replicate : ℕ → A → List A
  replicate zero a = []
  replicate (suc n) a = a ∷ replicate n a

  -- `copy(dst, src)`: as many elements as both hold.
  abbrev pub copy : List A → List A → List A
  copy [] ys = []
  copy (x ∷ xs) [] = x ∷ xs
  copy (x ∷ xs) (y ∷ ys) = y ∷ copy xs ys

  -- `xs[i:j]`
  abbrev pub slice : ℕ → ℕ → List A → List A
  slice i j xs = take (j - i) (drop i xs)

  -- `copy(dst[i:], src)` seen as an update of the whole of `dst`.
  abbrev pub copy_at : ℕ → List A → List A → List A
  copy_at zero dst src = copy dst src
  copy_at (suc i) [] src = []
  copy_at (suc i) (x ∷ dst) src = x ∷ copy_at i dst src

module _ {ℓ κ} {A : Type ℓ} where
  abbrev pub All : (A → Type κ) → List A → Type κ
  All P [] = Unit {κ}
  All P (x ∷ xs) = P x × All P xs

module _ {ℓ} {A : Type ℓ} where
  pub length-append : (xs ys : List A) → length (xs ++ ys) ≡ length xs + length ys
  length-append [] ys = omega arith
  length-append (x ∷ xs) ys = omega (arith, length-append xs ys)

  pub length-take : (n : ℕ) (xs : List A) → length (take n xs) ≡ min n (length xs)
  length-take zero xs = omega arith
  length-take (suc n) [] = omega arith
  length-take (suc n) (x ∷ xs) = omega (arith, length-take n xs)

  pub length-drop : (n : ℕ) (xs : List A) → length (drop n xs) ≡ length xs - n
  length-drop zero xs = omega arith
  length-drop (suc n) [] = omega arith
  length-drop (suc n) (x ∷ xs) = omega (arith, length-drop n xs)

  pub length-replicate : (n : ℕ) (a : A) → length (replicate n a) ≡ n
  length-replicate zero a = refl
  length-replicate (suc n) a = ap suc (length-replicate n a)

  pub length-copy : (dst src : List A) → length (copy dst src) ≡ length dst
  length-copy [] ys = refl
  length-copy (x ∷ xs) [] = refl
  length-copy (x ∷ xs) (y ∷ ys) = ap suc (length-copy xs ys)

  pub length-copy_at : (i : ℕ) (dst src : List A) → length (copy_at i dst src) ≡ length dst
  length-copy_at zero dst src = length-copy dst src
  length-copy_at (suc i) [] src = refl
  length-copy_at (suc i) (x ∷ dst) src = ap suc (length-copy_at i dst src)

  pub take-append-drop : (n : ℕ) (xs : List A) → take n xs ++ drop n xs ≡ xs
  take-append-drop zero xs = refl
  take-append-drop (suc n) [] = refl
  take-append-drop (suc n) (x ∷ xs) = ap (◌∷◌ x) (take-append-drop n xs)

  pub take-append : (n : ℕ) (xs ys : List A) → length xs ≡ n → take n (xs ++ ys) ≡ xs
  take-append zero [] ys h = refl
  take-append zero (x ∷ xs) ys h = absurd (omega arith)
  take-append (suc n) [] ys h = absurd (omega arith)
  take-append (suc n) (x ∷ xs) ys h = ap (◌∷◌ x) (take-append n xs ys (omega arith))

  pub drop-append : (n : ℕ) (xs ys : List A) → length xs ≡ n → drop n (xs ++ ys) ≡ ys
  drop-append zero [] ys h = refl
  drop-append zero (x ∷ xs) ys h = absurd (omega arith)
  drop-append (suc n) [] ys h = absurd (omega arith)
  drop-append (suc n) (x ∷ xs) ys h = drop-append n xs ys (omega arith)

  pub drop_of_length-le : (n : ℕ) (xs : List A) → length xs ≤ n → drop n xs ≡ []
  drop_of_length-le zero [] h = refl
  drop_of_length-le zero (x ∷ xs) h = absurd (omega arith)
  drop_of_length-le (suc n) [] h = refl
  drop_of_length-le (suc n) (x ∷ xs) h = drop_of_length-le n xs (omega arith)

  -- A prefix and what lies behind it, under one more cut.
  pub take-append_le : (n : ℕ) (xs ys : List A) → n ≤ length xs → take n (xs ++ ys) ≡ take n xs
  take-append_le zero xs ys h = refl
  take-append_le (suc n) [] ys h = absurd (omega arith)
  take-append_le (suc n) (x ∷ xs) ys h = ap (◌∷◌ x) (take-append_le n xs ys (omega arith))

  pub drop-append_le :
      (n : ℕ) (xs ys : List A) → n ≤ length xs → drop n (xs ++ ys) ≡ drop n xs ++ ys
  drop-append_le zero xs ys h = refl
  drop-append_le (suc n) [] ys h = absurd (omega arith)
  drop-append_le (suc n) (x ∷ xs) ys h = drop-append_le n xs ys (omega arith)

  pub copy-eq-append :
      (dst src : List A) → length src ≤ length dst → copy dst src ≡ src ++ drop (length src) dst
  copy-eq-append [] [] h = refl
  copy-eq-append [] (y ∷ src) h = absurd (omega arith)
  copy-eq-append (x ∷ dst) [] h = refl
  copy-eq-append (x ∷ dst) (y ∷ src) h = ap (◌∷◌ y) (copy-eq-append dst src (omega arith))

  -- `copy_at` keeps what stands before and behind the elements written.
  pub copy_at-eq-append :
      (i : ℕ) (dst src : List A)
      → i + length src ≤ length dst
      → copy_at i dst src ≡ take i dst ++ (src ++ drop (length src) (drop i dst))
  copy_at-eq-append zero dst src h = copy-eq-append dst src (omega arith)
  copy_at-eq-append (suc i) [] src h = absurd (omega arith)
  copy_at-eq-append (suc i) (x ∷ dst) src h = ap (◌∷◌ x) (copy_at-eq-append i dst src (omega arith))

module _ {ℓ} {A : Type ℓ} where
  -- One `copy` into a buffer, cut behind what was written.
  pub take-copy_at :
      (i : ℕ) (buf chunk : List A)
      → i + length chunk ≤ length buf
      → take (i + length chunk) (copy_at i buf chunk) ≡ take i buf ++ chunk
  take-copy_at i buf chunk h = rw (copy_at-eq-append i buf chunk h) (
      rw (← append_assoc (take i buf) chunk (drop (length chunk) (drop i buf))) (
        take-append _ (take i buf ++ chunk) _
          (omega (arith, length-append (take i buf) chunk, length-take i buf))))

  pub take-nil : (n : ℕ) → take {A = A} n [] ≡ []
  take-nil zero = refl
  take-nil (suc n) = refl

  pub take_of_length-le : (n : ℕ) (xs : List A) → length xs ≤ n → take n xs ≡ xs
  take_of_length-le n [] h = take-nil n
  take_of_length-le (suc m) (y ∷ ys) h = ap (◌∷◌ y) (take_of_length-le m ys (omega arith))
  take_of_length-le zero (y ∷ ys) h = absurd (omega arith)

  pub take-take : (n m : ℕ) (xs : List A) → n ≤ m → take n (take m xs) ≡ take n xs
  take-take zero m xs h = refl
  take-take (suc n) zero xs h = absurd (omega arith)
  take-take (suc n) (suc m) [] h = refl
  take-take (suc n) (suc m) (x ∷ xs) h = ap (◌∷◌ x) (take-take n m xs (omega arith))

  pub take-drop : (k n : ℕ) (xs : List A) → k ≤ n → take (n - k) (drop k xs) ≡ drop k (take n xs)
  take-drop zero n xs h = ap (λ m. take m xs) (omega arith)
  take-drop (suc k) zero xs h = absurd (omega arith)
  take-drop (suc k) (suc n) [] h = take-nil (suc n - suc k)
  take-drop (suc k) (suc n) (x ∷ xs) h =
      ap (λ m. take m (drop k xs)) (omega arith) ∙ take-drop k n xs (omega arith)

  -- Moving the end of a buffer down to its front.
  pub take-copy-drop :
      (k n : ℕ) (xs : List A)
      → k ≤ n
      → n ≤ length xs
      → take (n - k) (copy xs (drop k xs)) ≡ drop k (take n xs)
  take-copy-drop k n xs h h' =
      ap (take (n - k)) (copy-eq-append xs (drop k xs) (omega (arith, length-drop k xs)))
      ∙ take-append_le (n - k) (drop k xs) _ (omega (arith, length-drop k xs))
      ∙ take-drop k n xs h

-- A grown buffer starts with the bytes that were kept.
pub take-copy-replicate :
    (n len : ℕ) (xs : List ℕ)
    → len ≤ length xs
    → len ≤ n
    → take len (copy (replicate n 0) (take len xs)) ≡ take len xs
take-copy-replicate n len xs h h' =
    ap (take len) (
      copy-eq-append (replicate n 0) (take len xs)
        (omega (arith, length-take len xs, length-replicate {A = ℕ} n 0)))
    ∙ take-append len (take len xs) _ (omega (arith, length-take len xs))

module _ {ℓ κ} {A : Type ℓ} (P : A → Type κ) where
  pub All-append : (xs ys : List A) → All P xs → All P ys → All P (xs ++ ys)
  All-append [] ys h k = k
  All-append (x ∷ xs) ys (h, hs) k = (h, All-append xs ys hs k)

  pub All-take : (n : ℕ) (xs : List A) → All P xs → All P (take n xs)
  All-take zero xs h = tt
  All-take (suc n) [] h = tt
  All-take (suc n) (x ∷ xs) (h, hs) = (h, All-take n xs hs)

  pub All-drop : (n : ℕ) (xs : List A) → All P xs → All P (drop n xs)
  All-drop zero xs h = h
  All-drop (suc n) [] h = tt
  All-drop (suc n) (x ∷ xs) (h, hs) = All-drop n xs hs

-- All of the chunks, one behind the other.
abbrev pub flat {ℓ} : {A : Type ℓ} → List (List A) → List A
flat [] = []
flat (chunk ∷ chunks) = chunk ++ flat chunks

pub flat-append : (xs ys : List (List ℕ)) → flat (xs ++ ys) ≡ flat xs ++ flat ys
flat-append [] ys = refl
flat-append (x ∷ xs) ys =
    ap (λ t. x ++ t) (flat-append xs ys) ∙ sym (append_assoc x (flat xs) (flat ys))
