-- ===== src/F1/Key.antt =====
-- The key that `Framer` derives: the pre-shared key cut or repeated to 16 bytes, its first 8 bytes
-- xored with the timestamp.
use df.Prelude.{
  ℕ, zero, suc, ◌+◌, ◌-◌, ◌%◌, ◌≤◌, ◌<◌, ◌≡◌, inl, inr, refl, sym, ap, ◌∙◌, arith, List, [], ◌∷◌,
  length, take, get_or, copy, copy_at, length-copy_at, length-take, replicate, ltb, bit_xor,
  if◌then◌else◌, le→ltb, ltb→lt, ltb→le, lt→ltb, lt→leb, Bool-cases,
}
use native.Mathlib.Decide.{dec_lt}
use native.Mathlib.Nat.{mod-eq_of_lt, mod-add-mod, add-mod_right, zero-mod}
use df.Bytes.{put_u64}
use df.Io.{ok}
use df.F1.{key_size, new_cipher, repeat_key, mix, resize_key, derive_key}

get_or-copy :
    (j : ℕ) (dst src : List ℕ)
    → j < length src
    → j < length dst
    → get_or (copy dst src) j 0 ≡ get_or src j 0
get_or-copy j [] src h h' = absurd (omega arith)
get_or-copy j (x ∷ dst) [] h h' = absurd (omega arith)
get_or-copy zero (x ∷ dst) (y ∷ src) h h' = refl
get_or-copy (suc j) (x ∷ dst) (y ∷ src) h h' = get_or-copy j dst src (omega arith) (omega arith)

-- `copy(k[i:], src)` leaves what stands before index `i`, and puts `src` from there on.
get_or-copy_at_before :
    (i j : ℕ) (dst src : List ℕ) → j < i → get_or (copy_at i dst src) j 0 ≡ get_or dst j 0
get_or-copy_at_before zero j dst src h = absurd (omega arith)
get_or-copy_at_before (suc i) j [] src h = refl
get_or-copy_at_before (suc i) zero (x ∷ dst) src h = refl
get_or-copy_at_before (suc i) (suc j) (x ∷ dst) src h =
    get_or-copy_at_before i j dst src (omega arith)

get_or-copy_at_from :
    (i j : ℕ) (dst src : List ℕ)
    → i ≤ j
    → j < i + length src
    → j < length dst
    → get_or (copy_at i dst src) j 0 ≡ get_or src (j - i) 0
get_or-copy_at_from zero j dst src h h' h'' =
    get_or-copy j dst src (omega arith) h'' ∙ ap (λ k. get_or src k 0) (omega arith)
get_or-copy_at_from (suc i) j [] src h h' h'' = absurd (omega arith)
get_or-copy_at_from (suc i) zero (x ∷ dst) src h h' h'' = absurd (omega arith)
get_or-copy_at_from (suc i) (suc j) (x ∷ dst) src h h' h'' =
    get_or-copy_at_from i j dst src (omega arith) (omega arith) (omega arith)
    ∙ ap (λ k. get_or src k 0) (omega arith)

offset_mod : (i j l : ℕ) → i % l ≡ 0 → i ≤ j → j < i + l → j - i ≡ j % l
offset_mod i j l m h h' =
    let whole : i + (j - i) ≡ j = omega arith in
    sym (
      ap (λ t. t % l) (sym whole)
      ∙ sym (mod-add-mod i l (j - i))
      ∙ ap (λ t. (t + (j - i)) % l) m
      ∙ mod-eq_of_lt {n = 0 + (j - i)} (omega arith)
      ∙ omega arith)

-- `k` repeats `pskb` below index `n`.
abbrev Repeats : List ℕ → ℕ → List ℕ → Type 0
Repeats pskb n k = (j : ℕ) → j < n → j < length k → get_or k j 0 ≡ get_or pskb (j % length pskb) 0

repeat_round :
    (pskb k : List ℕ) (i : ℕ)
    → i % length pskb ≡ 0
    → Repeats pskb i k
    → Repeats pskb (i + length pskb) (copy_at i k pskb)
repeat_round pskb k i m h j under inside = elim (dec_lt j i) [
  | yes early ↦
      get_or-copy_at_before i j k pskb early ∙ h j early (omega (arith, length-copy_at i k pskb))
  | no late ↦
      get_or-copy_at_from i j k pskb (omega arith) under (omega (arith, length-copy_at i k pskb))
      ∙ ap (λ t. get_or pskb t 0) (offset_mod i j (length pskb) m (omega arith) under)
]

repeat_key-Repeats :
    (fuel i : ℕ) (pskb k : List ℕ)
    → 0 < length pskb
    → length k ≡ key_size
    → key_size < fuel + i
    → i % length pskb ≡ 0
    → Repeats pskb i k
    → (length (repeat_key fuel i pskb k) ≡ key_size)
      × Repeats pskb key_size (repeat_key fuel i pskb k)
unfolding repeat_key
repeat_key-Repeats zero i pskb k some size enough m h =
    (size, λ j _ inside. h j (omega arith) inside)
repeat_key-Repeats (suc fuel) i pskb k some size enough m h = elim (Bool-cases (ltb i key_size)) [
  | inl more ↦ rw more (
      repeat_key-Repeats fuel (i + length pskb) pskb (copy_at i k pskb) some
        (length-copy_at i k pskb ∙ size) (omega arith) (add-mod_right i (length pskb) ∙ m)
        (repeat_round pskb k i m h))
  | inr done ↦
      let below_end : (j : ℕ) → j < key_size → j < i =
        λ j u. omega (arith, ltb→le i key_size done) in
      rw done (size, λ j _ inside. h j (below_end j (omega arith)) inside)
]

get_or-take : (n j : ℕ) (xs : List ℕ) → j < n → get_or (take n xs) j 0 ≡ get_or xs j 0
get_or-take zero j xs h = absurd (omega arith)
get_or-take (suc n) j [] h = refl
get_or-take (suc n) zero (x ∷ xs) h = refl
get_or-take (suc n) (suc j) (x ∷ xs) h = get_or-take n j xs (omega arith)

-- Resized, the key has 16 bytes, and repeats the given one as far as that goes.
resize_key_lem :
    (pskb : List ℕ)
    → 0 < length pskb
    → (length (resize_key pskb) ≡ key_size)
      × ((j : ℕ) → j < key_size → get_or (resize_key pskb) j 0 ≡ get_or pskb (j % length pskb) 0)
unfolding resize_key
resize_key_lem pskb some = elim (Bool-cases (ltb key_size (length pskb))) [
  | inl long ↦
      let over : key_size < length pskb = ltb→lt key_size (length pskb) long in
      rw long (
        omega (arith, length-take key_size pskb),
        λ j h.
            get_or-take key_size j pskb h
            ∙ ap (λ t. get_or pskb t 0) (sym (mod-eq_of_lt {n = j} (omega arith))),
      )
  | inr not_long ↦ rw not_long (elim (Bool-cases (ltb (length pskb) key_size)) [
    | inl short ↦
        let (size, repeats) =
          repeat_key-Repeats (key_size + 1) 0 pskb (replicate key_size 0) some refl (omega arith)
            (zero-mod (length pskb)) (λ j h _. absurd (omega arith)) in
        rw short (size, λ j h. repeats j h (omega arith))
    | inr exact ↦
        let size : length pskb ≡ key_size =
          omega
            (arith, ltb→le key_size (length pskb) not_long, ltb→le (length pskb) key_size exact) in
        rw exact (size, λ j h. ap (λ t. get_or pskb t 0) (sym (mod-eq_of_lt {n = j} (omega arith))))
  ])
]

ltb-suc : (a b : ℕ) → ltb a b ≡ ltb (suc a) (suc b)
ltb-suc a b = ground arith

length-mix : (ks ts : List ℕ) → length (mix ks ts) ≡ length ks
length-mix [] ts = refl
length-mix (k ∷ ks) [] = refl
length-mix (k ∷ ks) (t ∷ ts) = ap suc (length-mix ks ts)

get_or-mix :
    (j : ℕ) (ks ts : List ℕ)
    → j < length ks
    → get_or (mix ks ts) j 0
      ≡ (if ltb j (length ts) then bit_xor (get_or ks j 0) (get_or ts j 0) else get_or ks j 0)
get_or-mix j [] ts h = absurd (omega arith)
get_or-mix j (k ∷ ks) [] h = rw (le→ltb j 0 (omega arith))
get_or-mix zero (k ∷ ks) (t ∷ ts) h = rw (lt→ltb 0 (suc (length ts)) (omega arith))
get_or-mix (suc j) (k ∷ ks) (t ∷ ts) h =
    get_or-mix j ks ts (omega arith)
    ∙ ap (λ b. if b then bit_xor (get_or ks j 0) (get_or ts j 0) else get_or ks j 0)
        (ltb-suc j (length ts))

-- `Framer` makes of every non-empty key one of 16 bytes, which `aes.NewCipher` takes. Its byte `j`
-- is the given key's byte `j` modulo its length, xored with the timestamp's for the first 8.
pub derive_key_lem :
    (aes : List ℕ → List ℕ → List ℕ) (pskb : List ℕ) (ts : ℕ)
    → 0 < length pskb
    → (key : List ℕ) × (derive_key pskb ts ≡ ok key)
      × (new_cipher aes key ≡ ok (aes key))
      × ((j : ℕ)
          → j < key_size
          → get_or key j 0 ≡ (
              let byte = get_or pskb (j % length pskb) 0 in
              if ltb j 8 then bit_xor byte (get_or (put_u64 ts) j 0) else byte))
unfolding derive_key
derive_key_lem aes pskb ts some =
    let (size, bytes) = resize_key_lem pskb some in
    let key = mix (resize_key pskb) (put_u64 ts) in
    let size' : length key ≡ 16 = length-mix (resize_key pskb) (put_u64 ts) ∙ size in
    (
      key,
      rw (lt→leb 0 (length pskb) some),
      rw size',
      λ j h. get_or-mix j (resize_key pskb) (put_u64 ts) (omega arith) ∙ rw (bytes j h),
    )
