-- ===== src/Tunnel/Growth.antt =====
-- The buffer for the target's bytes never grows past its limit.
use df.Prelude.{
  ℕ, ◌+◌, ◌*◌, ◌≤◌, ◌≡◌, inl, inr, refl, arith, Bool, true, Bool-cases, List, [], ◌∷◌, ◌==◌, ◌||◌,
  leb, ltb,
}
use df.Conf.{default_buffer_size}
use df.Tunnel.Relay.{max_buffer_size, after_read, after_reads}

-- The sizes that the doubling goes through.
abbrev is_stage : ℕ → Bool
is_stage b =
    b == 65536
    || b == 131072
    || b == 262144
    || b == 524288
    || b == 1048576
    || b == 2097152
    || b == 4194304
    || b == 8388608

doubled : (b : ℕ) → is_stage b ≡ true → ltb b 8388608 ≡ true → is_stage (b * 2) ≡ true
doubled b h k = ground arith

is_stage-bounds : (b : ℕ) → is_stage b ≡ true → (65536 ≤ b) × (b ≤ 8388608)
is_stage-bounds b h = ground arith

after_read-is_stage :
    (b count size : ℕ) → is_stage b ≡ true → is_stage (after_read (b, count) size).0 ≡ true
unfolding after_read
after_read-is_stage b count size h = elim (Bool-cases (size == b)) [
  | inl full ↦ rw full (elim (Bool-cases (ltb b max_buffer_size)) [
    | inl room ↦ rw room (elim (Bool-cases (leb 10 (count + 1))) [
      | inl many ↦ rw many (doubled b h room)
      | inr few ↦ rw few h
    ])
    | inr largest ↦
        rw largest
          (elim (Bool-cases (leb 10 (count + 1))) [ inl many ↦ rw many h | inr few ↦ rw few h ])
  ])
  | inr part ↦ rw part h
]

after_reads-is_stage :
    (sizes : List ℕ) (b : ℕ × ℕ) → is_stage b.0 ≡ true → is_stage (after_reads b sizes).0 ≡ true
unfolding after_reads
after_reads-is_stage [] b h = h
after_reads-is_stage (size ∷ sizes) (b, count) h =
    after_reads-is_stage sizes (after_read (b, count) size) (after_read-is_stage b count size h)

-- Whatever the sizes of the reads, the buffer that they go into keeps at least its first size, and never
-- has more than 8 MB.
pub after_reads_bounds :
    (sizes : List ℕ)
    → (default_buffer_size ≤ (after_reads (default_buffer_size, 0) sizes).0)
      × ((after_reads (default_buffer_size, 0) sizes).0 ≤ max_buffer_size)
after_reads_bounds sizes =
    is_stage-bounds (after_reads (default_buffer_size, 0) sizes).0
      (after_reads-is_stage sizes (default_buffer_size, 0) refl)
