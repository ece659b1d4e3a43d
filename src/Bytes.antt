-- ===== src/Bytes.antt =====
-- Bytes, `encoding/binary`'s big-endian words, and xor of byte strings.
use df.Prelude.{
  false, ℕ, zero, suc, ◌+◌, ◌*◌, ◌/◌, ◌%◌, ◌^◌, ◌<◌, bit_xor, ◌≡◌, refl, List, [], ◌∷◌, arith, Bool,
  true, ◌&&◌, if◌then◌else◌, ltb, ◌==◌,
}

abbrev pub IsByte : ℕ → Type 0
IsByte b = b < 256

abbrev pub IsU32 : ℕ → Type 0
IsU32 v = v < 2 ^ 32

-- `binary.BigEndian.PutUint16`, `PutUint32`, `PutUint64` of a number converted to that width.
abbrev pub put_u16 : ℕ → List ℕ
put_u16 v = (v / 2 ^ 8 % 256) ∷ (v % 256) ∷ []

abbrev pub put_u32 : ℕ → List ℕ
put_u32 v = (v / 2 ^ 24 % 256) ∷ (v / 2 ^ 16 % 256) ∷ (v / 2 ^ 8 % 256) ∷ (v % 256) ∷ []

abbrev pub put_u64 : ℕ → List ℕ
put_u64 v =
    (v / 2 ^ 56 % 256)
    ∷ (v / 2 ^ 48 % 256)
    ∷ (v / 2 ^ 40 % 256)
    ∷ (v / 2 ^ 32 % 256)
    ∷ (v / 2 ^ 24 % 256)
    ∷ (v / 2 ^ 16 % 256)
    ∷ (v / 2 ^ 8 % 256)
    ∷ (v % 256)
    ∷ []

-- `binary.BigEndian.Uint16`, `Uint32`, `Uint64`: the number that the bytes stand for.
abbrev get_be : ℕ → List ℕ → ℕ
get_be acc [] = acc
get_be acc (b ∷ bs) = get_be (acc * 256 + b) bs

unfoldable pub get_u : List ℕ → ℕ
get_u bs = get_be 0 bs

pub get_u-put_u16 : (v : ℕ) → v < 2 ^ 16 → get_u (put_u16 v) ≡ v
unfolding get_u
get_u-put_u16 v h = omega arith

pub get_u-put_u32 : (v : ℕ) → IsU32 v → get_u (put_u32 v) ≡ v
unfolding get_u
get_u-put_u32 v h = omega arith

pub get_u-put_u64 : (v : ℕ) → v < 2 ^ 64 → get_u (put_u64 v) ≡ v
unfolding get_u
get_u-put_u64 v h = omega arith

-- A test that holds at each number under a bound is evaluated at all of them.
passes : (ℕ → Bool) → ℕ → Bool
passes test zero = true
passes test (suc bound) = let others = passes test bound in if test bound then others else false

passes_sound :
    (test : ℕ → Bool) (bound i : ℕ) → i < bound → passes test bound ≡ true → test i ≡ true
unfolding passes
passes_sound test zero i below e = absurd (omega arith)
passes_sound test (suc bound) i below e = ground (arith, passes_sound test bound i)

abbrev xor_cell : ℕ → ℕ → Bool
xor_cell x y = (bit_xor (bit_xor x y) y == x) && ltb (bit_xor x y) 256

xor_row : ℕ → Bool
unfolding passes
xor_row x = passes (xor_cell x) 256

xor_table : passes xor_row 256 ≡ true
unfolding xor_row
xor_table = refl

xor_cell-true : (x y : ℕ) → IsByte x → IsByte y → xor_cell x y ≡ true
xor_cell-true x y hx hy =
    passes_sound (xor_cell x) 256 y hy (unfold xor_row in passes_sound xor_row 256 x hx xor_table)

bit_xor_facts :
    (x y : ℕ) → IsByte x → IsByte y → (bit_xor (bit_xor x y) y ≡ x) × IsByte (bit_xor x y)
bit_xor_facts x y hx hy = ground (arith, xor_cell-true x y hx hy)

pub bit_xor-bit_xor : (x y : ℕ) → IsByte x → IsByte y → bit_xor (bit_xor x y) y ≡ x
bit_xor-bit_xor x y hx hy = (bit_xor_facts x y hx hy).0

pub bit_xor-IsByte : (x y : ℕ) → IsByte x → IsByte y → IsByte (bit_xor x y)
bit_xor-IsByte x y hx hy = (bit_xor_facts x y hx hy).1
