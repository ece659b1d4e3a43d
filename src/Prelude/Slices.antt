-- ===== src/Prelude/Slices.antt =====
-- The part of a buffer's bytes that fits a caller's buffer.
use Prim.Native.Nat.{ℕ, ◌-◌, ◌≤◌, ◌<◌}
use mathlib.Core.Path.{◌≡◌, refl, sym, ap, ◌∙◌}
use mathlib.Core.Logic.{inl, inr}
use mathlib.Core.List.{List}
use native.Mathlib.Omega.{arith}
use df.Prelude.Tests.{ltb, if◌then◌else◌, Bool-cases, ltb→lt, ltb→le}
use df.Prelude.Lists.{
  length, take, drop, copy, length-take, length-drop, take_of_length-le, drop_of_length-le,
  take-take, take-drop, copy-eq-append, take-append,
}

-- With `len` bytes held, as many as there are go to a buffer of `n` bytes, or `n`.
abbrev pub fitting : ℕ → ℕ → ℕ
fitting len n = if ltb len n then len else n

pub fitting_le : (len n : ℕ) → (fitting len n ≤ len) × (fitting len n ≤ n)
fitting_le len n = ground arith

pub fitting_cut :
    (len n : ℕ) (bytes : List ℕ)
    → len ≤ length bytes
    → (take (fitting len n) bytes ≡ take n (take len bytes))
      × (drop (fitting len n) (take len bytes) ≡ drop n (take len bytes))
fitting_cut len n bytes v =
    let all : length (take len bytes) ≤ len = omega (arith, length-take len bytes) in
    elim (Bool-cases (ltb len n)) [
      | inl less ↦
          let under : len < n = ltb→lt len n less in
          rw less (
            sym (take_of_length-le n (take len bytes) (omega arith)),
            drop_of_length-le len (take len bytes) all
                ∙ sym (drop_of_length-le n (take len bytes) (omega arith)),
          )
      | inr more ↦ rw more (sym (take-take n len bytes (ltb→le len n more)), refl)
    ]

-- Copying the rest of the bytes held down to the front.
pub take-copy-take :
    (k len : ℕ) (bytes : List ℕ)
    → k ≤ len
    → len ≤ length bytes
    → take (len - k) (copy bytes (take (len - k) (drop k bytes))) ≡ drop k (take len bytes)
take-copy-take k len bytes h h' =
    let size : length (take (len - k) (drop k bytes)) ≡ len - k =
      omega (arith, length-take (len - k) (drop k bytes), length-drop k bytes) in
    ap (take (len - k)) (copy-eq-append bytes (take (len - k) (drop k bytes)) (omega arith))
    ∙ take-append (len - k) (take (len - k) (drop k bytes)) _ size
    ∙ take-drop k len bytes h
