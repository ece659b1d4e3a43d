-- ===== src/Rand/Letters.antt =====
-- The names are made of letters and digits.
use df.Prelude.{ℕ, suc, ◌≤◌, ◌≡◌, ◌⊎◌, refl, ap, ◌∙◌, arith, List, [], ◌∷◌, length, All}
use df.Bytes.{IsByte, put_u64, bit_xor-IsByte}
use df.Rand.{letter, encode_as_ascii, with_time, unique_id}

-- A digit, a small letter or a capital one.
abbrev pub IsLetter : ℕ → Type 0
IsLetter c = ((48 ≤ c) × (c ≤ 57)) ⊎ (((97 ≤ c) × (c ≤ 122)) ⊎ ((65 ≤ c) × (c ≤ 90)))

letter-IsLetter : (b : ℕ) → IsByte b → IsLetter (letter b)
letter-IsLetter b h = ground arith

encode_as_ascii-IsLetter :
    (buf : List ℕ)
    → All IsByte buf
    → (length (encode_as_ascii buf) ≡ length buf) × All IsLetter (encode_as_ascii buf)
unfolding encode_as_ascii
encode_as_ascii-IsLetter [] hs = (refl, tt)
encode_as_ascii-IsLetter (b ∷ buf) (h, hs) =
    let (size, letters) = encode_as_ascii-IsLetter buf hs in
    (ap suc size, (letter-IsLetter b h, letters))

with_time-IsByte :
    (buf tbuf : List ℕ)
    → All IsByte buf
    → All IsByte tbuf
    → (length (with_time buf tbuf) ≡ length buf) × All IsByte (with_time buf tbuf)
with_time-IsByte [] tbuf hs ks = (refl, tt)
with_time-IsByte (b ∷ buf) [] hs ks = (refl, hs)
with_time-IsByte (b ∷ buf) (t ∷ tbuf) (h, hs) (k, ks) =
    let (size, bytes) = with_time-IsByte buf tbuf hs ks in
    (ap suc size, (bit_xor-IsByte b t h k, bytes))

-- The name that is made of so many random bytes has as many characters, whatever the time, each a letter
-- or a digit: it can stand in a URL or a header as it is.
pub unique_id-IsLetter :
    (now : ℕ) (buf : List ℕ)
    → All IsByte buf
    → (length (unique_id now buf) ≡ length buf) × All IsLetter (unique_id now buf)
unfolding unique_id
unique_id-IsLetter now buf hs =
    let (size, bytes) = with_time-IsByte buf (put_u64 now) hs (ground arith) in
    let (size', letters) = encode_as_ascii-IsLetter (with_time buf (put_u64 now)) bytes in
    (size' ∙ size, letters)
