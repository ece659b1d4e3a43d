-- ===== src/Rand/Tests.antt =====
-- A name of four bytes.
use df.Prelude.{◌≡◌, refl, arith, [], ◌∷◌, length, All}
use df.Rand.{unique_id, encode_as_ascii}
use df.Rand.Letters.{IsLetter, unique_id-IsLetter}

unique_id-IsLetter_example :
    (length (unique_id 1700000000 (0 ∷ 80 ∷ 160 ∷ 255 ∷ [])) ≡ 4)
    × All IsLetter (unique_id 1700000000 (0 ∷ 80 ∷ 160 ∷ 255 ∷ []))
unique_id-IsLetter_example = unique_id-IsLetter 1700000000 (0 ∷ 80 ∷ 160 ∷ 255 ∷ []) (ground arith)

four_letters : encode_as_ascii (0 ∷ 80 ∷ 160 ∷ 255 ∷ []) ≡ b'0' ∷ b'j' ∷ b'C' ∷ b'Z' ∷ []
unfolding encode_as_ascii
four_letters = refl
