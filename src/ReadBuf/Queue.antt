-- ===== src/ReadBuf/Queue.antt =====
-- A read buffer is a queue of bytes.
use df.Prelude.{
  ℕ, ◌+◌, ◌≤◌, ◌≡◌, ap, ◌∙◌, arith, List, ◌++◌, length, take, drop, copy, replicate, ltb,
  Bool-cases, fitting, fitting_le, fitting_cut, inl, inr, ltb→le, length-copy, length-copy_at,
  length-replicate, take-copy_at, take-copy-replicate, take-copy-drop,
}
use df.ReadBuf.{ReadBuf, append_buf, drain}

abbrev pub IsValid : ReadBuf → Type 0
IsValid b = b.len ≤ length b.bytes

-- The bytes not yet served, oldest first.
abbrev pub pending : ReadBuf → List ℕ
pending b = take b.len b.bytes

-- `appendBuf` puts the bytes behind those pending, whether or not it has to grow the buffer.
pub append_buf-pending :
    (b : ReadBuf) (dat : List ℕ)
    → IsValid b
    → IsValid (append_buf b dat) × (pending (append_buf b dat) ≡ pending b ++ dat)
unfolding append_buf
append_buf-pending b dat v = elim (Bool-cases (ltb (length b.bytes) (b.len + length dat))) [
  | inl grow ↦ rw grow (
      (
        omega (
          arith,
          length-copy_at b.len (copy (replicate (b.len + length dat) 0) (take b.len b.bytes)) dat,
          length-copy (replicate (b.len + length dat) 0) (take b.len b.bytes),
          length-replicate {A = ℕ} (b.len + length dat) 0,
        ),
        take-copy_at b.len (copy (replicate (b.len + length dat) 0) (take b.len b.bytes)) dat (
              omega (
                arith,
                length-copy (replicate (b.len + length dat) 0) (take b.len b.bytes),
                length-replicate {A = ℕ} (b.len + length dat) 0,
              ))
            ∙ ap (λ t. t ++ dat)
                (take-copy-replicate (b.len + length dat) b.len b.bytes v (omega arith)),
      ))
  | inr fits ↦ rw fits (
      (
        omega (
          arith,
          length-copy_at b.len b.bytes dat,
          ltb→le (length b.bytes) (b.len + length dat) fits,
        ),
        take-copy_at b.len b.bytes dat (ltb→le (length b.bytes) (b.len + length dat) fits),
      ))
]

-- Serving a buffer of `n` bytes takes the first `n` pending bytes, or all where there are fewer,
-- and leaves the rest pending.
pub drain-pending :
    (b : ReadBuf) (n : ℕ)
    → IsValid b
    → ((drain b n).0 ≡ take n (pending b))
      × (pending (drain b n).1 ≡ drop n (pending b))
      × IsValid (drain b n).1
unfolding drain
drain-pending b n v =
    let size = fitting b.len n in
    let (short, _) = fitting_le b.len n in
    let (out, rest) = fitting_cut b.len n b.bytes v in
    (
      out,
      take-copy-drop size b.len b.bytes short v ∙ rest,
      omega (arith, length-copy b.bytes (drop size b.bytes)),
    )
