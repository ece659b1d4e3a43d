-- ===== src/F1/Xor.antt =====
-- `Xor` lays the shorter slice over the front of the longer one.
use native.Mathlib.Nat.{zero-add, suc-add}
use native.Mathlib.Numerals.{add-one}
use df.Prelude.{
  ℕ, zero, suc, ◌+◌, ◌≤◌, ◌<◌, ◌≡◌, refl, sym, ap, ap₂, ◌∙◌, arith, Bool-cases, inl, inr, List, [],
  ◌∷◌, ◌++◌, length, take, drop, get_or, set, copy, copy_at, replicate, ltb, ltb→lt, ltb→le,
  if◌then◌else◌, bit_xor, append-nil, append_assoc, take-append-drop, drop-append, length-replicate,
  length-copy, length-drop, take-append, drop_of_length-le, copy-eq-append, copy_at-eq-append,
}
use df.F1.{xor_loop, xor}

-- Byte by byte, with the rest of the second slice behind.
abbrev pub overlay : List ℕ → List ℕ → List ℕ
overlay [] ys = ys
overlay (x ∷ xs) [] = []
overlay (x ∷ xs) (y ∷ ys) = bit_xor x y ∷ overlay xs ys

get_or-append_right : (xs ys : List ℕ) (i : ℕ) → get_or (xs ++ ys) (length xs + i) 0 ≡ get_or ys i 0
get_or-append_right [] ys i = rw zero-add refl
get_or-append_right (x ∷ xs) ys i = rw suc-add (get_or-append_right xs ys i)

get_or-append_left :
    (xs ys : List ℕ) (i : ℕ) → i < length xs → get_or (xs ++ ys) i 0 ≡ get_or xs i 0
get_or-append_left [] ys i h = absurd (omega arith)
get_or-append_left (x ∷ xs) ys zero h = refl
get_or-append_left (x ∷ xs) ys (suc i) h = get_or-append_left xs ys i (omega arith)

set-append_right : (xs ys : List ℕ) (i v : ℕ) → set (xs ++ ys) (length xs + i) v ≡ xs ++ set ys i v
set-append_right [] ys i v = rw zero-add refl
set-append_right (x ∷ xs) ys i v = rw suc-add (ap (◌∷◌ x) (set-append_right xs ys i v))

-- A list cut at an index, and the same after a write there.
get_or-cut :
    (i : ℕ) (s : List ℕ) {x : ℕ} {xs : List ℕ}
    → drop i s ≡ x ∷ xs
    → (get_or s i 0 ≡ x) × (drop (suc i) s ≡ xs) × (i < length s)
get_or-cut zero [] e = cc
get_or-cut zero (y ∷ s) e = (cc, cc, omega arith)
get_or-cut (suc i) [] e = cc
get_or-cut (suc i) (y ∷ s) e = let (a, b, c) = get_or-cut i s e in (a, b, omega arith)

set-cut :
    (i v : ℕ) (s : List ℕ) {x : ℕ} {xs : List ℕ}
    → drop i s ≡ x ∷ xs
    → (drop (suc i) (set s i v) ≡ xs) × (take (suc i) (set s i v) ≡ take i s ++ v ∷ [])
set-cut zero v [] e = cc
set-cut zero v (y ∷ s) e = (cc, refl)
set-cut (suc i) v [] e = cc
set-cut (suc i) v (y ∷ s) e = let (a, b) = set-cut i v s e in (a, ap (◌∷◌ y) b)

xor_loop-overlay :
    (todo rest s t : List ℕ) (i : ℕ)
    → drop i s ≡ todo
    → drop i t ≡ rest
    → length todo ≤ length rest
    → xor_loop (length todo) i (length s) (s ++ t) ≡ s ++ (take i t ++ overlay todo rest)
xor_loop-overlay [] rest s t i e f h =
    ap (λ r. s ++ r) (sym (take-append-drop i t) ∙ ap (λ r. take i t ++ r) f)
xor_loop-overlay (x ∷ xs) [] s t i e f h = absurd (omega arith)
xor_loop-overlay (x ∷ xs) (y ∷ ys) s t i e f h =
    let (gx, dx, short) = get_or-cut i s e in
    let (gy, dy, _) = get_or-cut i t f in
    let v = bit_xor x y in
    let (left, front) = set-cut i v t f in
    let step : xor_loop (suc (length xs)) i (length s) (s ++ t)
        ≡ xor_loop (length xs) (i + 1) (length s) (
            set (s ++ t) (length s + i)
              (bit_xor (get_or (s ++ t) i 0) (get_or (s ++ t) (length s + i) 0))) =
      refl in
    step
    ∙ rw
        (
          get_or-append_left s t i short,
          get_or-append_right s t i,
          gx,
          gy,
          set-append_right s t i v,
          add-one,
        )
        (xor_loop-overlay xs ys s (set t i v) (suc i) dx left (omega arith)
          ∙ ap (λ r. s ++ r)
              (ap (λ r. r ++ overlay xs ys) front
                ∙ append_assoc (take i t) (v ∷ []) (overlay xs ys)))

laid_out :
    (x y : List ℕ) (n : ℕ)
    → n ≡ length x + length y
    → copy_at (length x) (copy (replicate n 0) x) y ≡ x ++ y
laid_out x y n size =
    let c = copy (replicate n 0) x in
    let len : length c ≡ n = length-copy (replicate n 0) x ∙ length-replicate n 0 in
    let front : take (length x) c ≡ x =
      ap (take (length x))
        (copy-eq-append (replicate n 0) x (omega (arith, length-replicate {A = ℕ} n 0)))
      ∙ take-append (length x) x (drop (length x) (replicate n 0)) refl in
    let none_left : drop (length y) (drop (length x) c) ≡ [] =
      drop_of_length-le (length y) (drop (length x) c) (omega (arith, length-drop (length x) c)) in
    copy_at-eq-append (length x) c y (omega arith)
    ∙ ap₂ ◌++◌ front (ap (λ t. y ++ t) none_left ∙ append-nil y)

-- The shorter slice is laid out in front of the longer one, and taken up by it.
merged :
    (x y : List ℕ) (n : ℕ)
    → n ≡ length x + length y
    → length x ≤ length y
    → drop
        (length x)
        (xor_loop (length x) 0 (length x) (copy_at (length x) (copy (replicate n 0) x) y))
      ≡ overlay x y
merged x y n size short =
    ap (λ rs. drop (length x) (xor_loop (length x) 0 (length x) rs)) (laid_out x y n size)
    ∙ ap (drop (length x)) (xor_loop-overlay x y x y 0 refl refl short)
    ∙ drop-append (length x) x (overlay x y) refl

-- `Xor` is the longer slice, the second of two as long, with the other xored into its front.
pub xor_lem :
    (x y : List ℕ) → xor x y ≡ (if ltb (length x) (length y) then overlay x y else overlay y x)
unfolding xor
xor_lem x y = elim (Bool-cases (ltb (length x) (length y))) [
  | inl shorter ↦
      rw shorter (
        merged x y (length x + length y) refl (omega (arith, ltb→lt (length x) (length y) shorter)))
  | inr longer ↦
      rw longer
        (merged y x (length x + length y) (omega arith) (ltb→le (length x) (length y) longer))
]
