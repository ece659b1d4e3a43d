-- ===== src/Buffer/Growth.antt =====
-- When `Write` extends the buffer, and when its maximum refuses.
use df.Prelude.{
  ◌-◌, ◌*◌, ◌/◌, ◌⊎◌, ℕ, zero, suc, ◌+◌, ◌≤◌, ◌<◌, ◌≡◌, inl, inr, refl, arith, Bool-cases, List,
  length, take, copy, replicate, ltb, ltb→le, ltb→lt,
}
use df.Io.{Error, Result, ok, err, panic, and_then}
use df.Buffer.{ReadWriteBuffer, buf_size, buf_size_max, grow, make_room}

-- The capacity that is reached from this one, in steps of 4096 bytes and at least one, for so many bytes.
abbrev pub reached : ℕ → ℕ → ℕ
reached held size = held + 4096 + (size - (held + 4096) + 4095) / 4096 * 4096

-- Whether the buffer may hold so many bytes: there is room with one step, or the capacity that is reached
-- is within 8 MB.
abbrev pub MayHold : ReadWriteBuffer → ℕ → Type 0
MayHold f size = (size ≤ length f.buf + 4096) ⊎ (reached (length f.buf) size ≤ 8 * 1024 * 1024)

round_up :
    (c size : ℕ)
    → c < size
    → c + (size - c + 4095) / 4096 * 4096 ≡ c + 4096 + (size - (c + 4096) + 4095) / 4096 * 4096
round_up c size h = omega arith

grow-within :
    (fuel c size d : ℕ)
    → grow fuel c size ≡ ok d
    → (size ≤ c) ⊎ (c + (size - c + 4095) / 4096 * 4096 ≤ 8 * 1024 * 1024)
unfolding grow
grow-within zero c size d e = cc
grow-within (suc fuel) c size d e = elim (Bool-cases (ltb c size)) [
  | inl small ↦ elim (Bool-cases (ltb buf_size_max (c + buf_size))) [
    | inl beyond ↦ cc (rw (small, beyond) at e)
    | inr within ↦
        let more = grow-within fuel (c + buf_size) size d (rw (small, within) at e) in
        let step = round_up c size (ltb→lt c size small) in
        inr (ground (arith, more, step, ltb→le buf_size_max (c + buf_size) within))
  ]
  | inr large ↦ inl (ltb→le c size large)
]

grow-beyond :
    (fuel c size : ℕ) (x : Error)
    → grow fuel c size ≡ err x
    → (c < size) × (8 * 1024 * 1024 < c + (size - c + 4095) / 4096 * 4096)
unfolding grow
grow-beyond zero c size x e = cc
grow-beyond (suc fuel) c size x e = elim (Bool-cases (ltb c size)) [
  | inl small ↦ elim (Bool-cases (ltb buf_size_max (c + buf_size))) [
    | inl beyond ↦
        let step = round_up c size (ltb→lt c size small) in
        (ltb→lt c size small, omega (arith, step, ltb→lt buf_size_max (c + buf_size) beyond))
    | inr within ↦
        let (more, far) = grow-beyond fuel (c + buf_size) size x (rw (small, within) at e) in
        let step = round_up c size (ltb→lt c size small) in
        (ltb→lt c size small, omega (arith, step, far))
  ]
  | inr large ↦ cc (rw large at e)
]

pub make_room-MayHold :
    (f : ReadWriteBuffer) (size : ℕ) {buf : List ℕ} → make_room f size ≡ ok buf → MayHold f size
unfolding make_room
make_room-MayHold f size {buf} e = elim (Bool-cases (ltb (length f.buf) size)) [
  | inl small ↦ grown (grow (size + 1) (length f.buf + buf_size) size) refl (rw small at e)
  | inr large ↦ inl (omega (arith, ltb→le (length f.buf) size large))
]
  where
    grown :
        (r : Result ℕ)
        → grow (size + 1) (length f.buf + buf_size) size ≡ r
        → and_then r (λ cap_new. ok (copy (replicate cap_new 0) (take f.buf_len f.buf))) ≡ ok buf
        → MayHold f size
    grown (ok c) g e' = grow-within (size + 1) (length f.buf + buf_size) size c g
    grown (err x) g e' = cc
    grown panic g e' = cc

pub make_room-full :
    (f : ReadWriteBuffer) (size : ℕ) (x : Error) → make_room f size ≡ err x → ¬ MayHold f size
unfolding make_room
make_room-full f size x e = elim (Bool-cases (ltb (length f.buf) size)) [
  | inl small ↦ grown (grow (size + 1) (length f.buf + buf_size) size) refl (rw small at e)
  | inr large ↦ cc (rw large at e)
]
  where
    grown :
        (r : Result ℕ)
        → grow (size + 1) (length f.buf + buf_size) size ≡ r
        → and_then r (λ cap_new. ok (copy (replicate cap_new 0) (take f.buf_len f.buf))) ≡ err x
        → ¬ MayHold f size
    grown (ok c) g e' = cc
    grown (err y) g e' =
        let (small, beyond) = grow-beyond (size + 1) (length f.buf + buf_size) size y g in
        elim_hold small beyond
      where
        elim_hold :
            length f.buf + buf_size < size
            → 8 * 1024 * 1024 < reached (length f.buf) size
            → ¬ MayHold f size
        elim_hold small beyond (inl fits) = omega arith
        elim_hold small beyond (inr fits) = omega arith
    grown panic g e' = cc
