-- ===== src/Rand.antt =====
-- utils/rand.go: names made of random bytes. `crypto/rand` and the clock are parameters. The products of
-- `float32` are whole numbers below 2 ^ 24, and the quotients by 256 are exact, so the conversion to a byte
-- is the division.
pub mod Letters
mod Tests
use df.Prelude.{ℕ, ◌+◌, ◌-◌, ◌*◌, ◌/◌, ◌%◌, ◌^◌, List, [], ◌∷◌, map, ltb, bit_xor, if◌then◌else◌}
use df.Bytes.{put_u64}

-- A byte of `RandDigits`.
abbrev pub digit : ℕ → ℕ
digit v = 48 + v * 10 / 256

unfoldable pub rand_digits : List ℕ → List ℕ
rand_digits buff = map digit buff

-- A byte of `EncodeAsASCII`.
abbrev pub letter : ℕ → ℕ
letter b =
    let v = b * 62 / 256 in
    if ltb v 10
    then v + 48
    else if ltb v (10 + 26)
    then v + (97 - 10)
    else if ltb v (10 + 26 + 26)
    then v + (65 - 26 - 10)
    else v

unfoldable pub encode_as_ascii : List ℕ → List ℕ
encode_as_ascii buf = map letter buf

unfoldable pub rand_string : List ℕ → List ℕ
unfolding encode_as_ascii
rand_string buf = encode_as_ascii buf

-- The loop of `UniqueId`: the time's bytes are put over the front of the random ones.
abbrev pub with_time : List ℕ → List ℕ → List ℕ
with_time [] tbuf = []
with_time (b ∷ buf) [] = b ∷ buf
with_time (b ∷ buf) (t ∷ tbuf) = bit_xor b t ∷ with_time buf tbuf

unfoldable pub unique_id : ℕ → List ℕ → List ℕ
unfolding encode_as_ascii
unique_id now buf = encode_as_ascii (with_time buf (put_u64 now))
