-- ===== src/F1.antt =====
-- transport/framer/f1: chunks of a byte stream in encrypted frames.
-- The connection `tx` is the stream of `Io` when it is read, and the function `tx` when it is
-- written. `crypto/aes` is a parameter, `aes key block`; `crypto/rand` is a parameter, `Random`.
pub mod Cfb
pub mod Frame
pub mod Stream
pub mod Key
pub mod Transfer
pub mod Xor
pub mod Tests
use df.Prelude.{
  ℕ, zero, suc, ◌+◌, ◌-◌, ◌==◌, ◌||◌, List, [], ◌∷◌, ◌++◌, length, take, drop, slice, ltb, leb,
  if◌then◌else◌, get_or, set, copy, copy_at, replicate, bit_xor, min,
}
use df.Bytes.{put_u32, put_u64, get_u}
use df.Io.{
  Result, ok, err, panic, Io, pure, lift, after, ◌>>=◌, ◌>>◌, and_then, read_full, wrong_key_size,
}
use df.ReadBuf
use df.ReadBuf.{ReadBuf}

-- `aes.BlockSize`, which is also the key's size.
abbrev pub block_size : ℕ
block_size = 16

abbrev pub key_size : ℕ
key_size = block_size

-- `aes.NewCipher` takes keys of 16, 24 and 32 bytes. The cipher is its block function.
abbrev pub new_cipher : (List ℕ → List ℕ → List ℕ) → List ℕ → Result (List ℕ → List ℕ)
new_cipher aes key =
    if length key == 16 || length key == 24 || length key == 32
    then ok (aes key)
    else err (wrong_key_size (length key))

-- `XORKeyStream` works over as many bytes as both arguments have.
abbrev pub xor_bytes : List ℕ → List ℕ → List ℕ
xor_bytes [] ys = []
xor_bytes (x ∷ xs) [] = []
xor_bytes (x ∷ xs) (y ∷ ys) = bit_xor x y ∷ xor_bytes xs ys

-- Cipher feedback: each block is xored with the encryption of the ciphertext block before it, the
-- first with that of the iv. The fuel is the number of bytes, and each round takes one at least.
unfoldable pub cfb_encrypt : (List ℕ → List ℕ) → ℕ → List ℕ → List ℕ → List ℕ
cfb_encrypt block zero reg src = []
cfb_encrypt block (suc fuel) reg [] = []
cfb_encrypt block (suc fuel) reg (x ∷ xs) =
    let out = xor_bytes (take block_size (x ∷ xs)) (block reg) in
    out ++ cfb_encrypt block fuel out (drop block_size (x ∷ xs))

unfoldable pub cfb_decrypt : (List ℕ → List ℕ) → ℕ → List ℕ → List ℕ → List ℕ
cfb_decrypt block zero reg src = []
cfb_decrypt block (suc fuel) reg [] = []
cfb_decrypt block (suc fuel) reg (x ∷ xs) =
    let front = take block_size (x ∷ xs) in
    xor_bytes front (block reg) ++ cfb_decrypt block fuel front (drop block_size (x ∷ xs))

-- `iv` is what `rand.Read(iv)` comes to.
unfoldable pub encrypt :
    (List ℕ → List ℕ → List ℕ) → Result (List ℕ) → List ℕ → List ℕ → Result (List ℕ)
encrypt aes random key dat =
    and_then (new_cipher aes key)
      λ block. and_then random λ iv. ok (iv ++ cfb_encrypt block (length dat) iv dat)

-- `dat[:aes.BlockSize]` panics on shorter data.
unfoldable pub decrypt : (List ℕ → List ℕ → List ℕ) → List ℕ → List ℕ → Result (List ℕ)
decrypt aes key dat = and_then (new_cipher aes key) λ block.
    if ltb (length dat) block_size
    then panic
    else ok
        (cfb_decrypt block (length dat - block_size) (take block_size dat) (drop block_size dat))

-- `Xor`: both slices are laid out in `rs`, the shorter first, and `rs[j+i]` takes up `rs[i]` for
-- `i` below `j`, the shorter length.
abbrev xor_loop : ℕ → ℕ → ℕ → List ℕ → List ℕ
xor_loop zero i j rs = rs
xor_loop (suc rounds) i j rs =
    xor_loop rounds (i + 1) j (set rs (j + i) (bit_xor (get_or rs i 0) (get_or rs (j + i) 0)))

unfoldable pub xor : List ℕ → List ℕ → List ℕ
xor x y =
    let rs = replicate (length x + length y) 0 in
    if ltb (length x) (length y)
    then drop (length x) (xor_loop (length x) 0 (length x) (copy_at (length x) (copy rs x) y))
    else drop (length y) (xor_loop (length y) 0 (length y) (copy_at (length y) (copy rs y) x))

-- The framer.
pub record F1 : Type 0 where
  pub psk : List ℕ
  pub buf_read : ReadBuf

unfoldable pub set_psk : F1 → List ℕ → F1
set_psk f psk = record f { psk = psk }

-- The random bytes that one `Write` draws: the one that gives the padding's size, the padding of a
-- given size, and what reading the iv comes to. The first two calls' errors are ignored.
pub record Random : Type 0 where
  pub size_byte : ℕ
  pub pad : ℕ → List ℕ
  pub iv : Result (List ℕ)

abbrev pub pad_size : Random → List ℕ → ℕ
pad_size random dat =
    let size = if ltb (length dat) 256 then random.size_byte else 0 in
    if ltb size 2 then 2 else size

-- What `Read` does with a chunk, for a buffer of `n` bytes.
unfoldable pub deliver : F1 → ℕ → List ℕ → List ℕ × F1
deliver f n chunk =
    if ltb n (length chunk)
    then (take n chunk, record f { buf_read = ReadBuf.append_buf f.buf_read (drop n chunk) })
    else (chunk, f)

abbrev pub delivered : F1 → ℕ → Result (List ℕ) × List ℕ → Result (List ℕ) × F1 × List ℕ
delivered f n (ok chunk, s) = (ok (deliver f n chunk).0, (deliver f n chunk).1, s)
delivered f n (err e, s) = (err e, f, s)
delivered f n (panic, s) = (panic, f, s)

module _ (aes : List ℕ → List ℕ → List ℕ) where
  -- The chunk of the next frame. A padding longer than the chunk is a slice out of range.
  unfoldable pub read_chunk : List ℕ → Io (List ℕ)
  unfolding decrypt
  read_chunk psk = do
    header ← read_full 10
    let size_all = get_u (slice 2 6 header)
    let size_pad = get_u (slice 6 10 header)
    chunk_enc ← read_full size_all
    chunk ← lift (decrypt aes psk chunk_enc)
    lift (if ltb (length chunk) size_pad then panic else ok (take (length chunk - size_pad) chunk))

  -- `Read` into a buffer of `n` bytes: the bytes put there, the framer and the stream afterwards.
  unfoldable pub read : F1 → ℕ → List ℕ → Result (List ℕ) × F1 × List ℕ
  unfolding read_chunk deliver
  read f n s =
      if ltb 0 f.buf_read.len
      then (
        ok (ReadBuf.drain f.buf_read n).0,
        record f { buf_read = (ReadBuf.drain f.buf_read n).1 },
        s,
      )
      else delivered f n (read_chunk f.psk s)

  unfoldable pub write : Random → (List ℕ → Io ℕ) → F1 → List ℕ → Io ℕ
  unfolding encrypt
  write random tx f dat = do
    let size_pad = pad_size random dat
    let chunk = dat ++ random.pad size_pad
    chunk_enc ← lift (encrypt aes random.iv f.psk chunk)
    tx ((0 ∷ 0 ∷ (put_u32 (length chunk_enc) ++ put_u32 size_pad)) ++ chunk_enc)

-- The loop `for i := 0; i < keySize; i += len(pskb) { copy(k[i:], pskb) }`, on fuel.
unfoldable pub repeat_key : ℕ → ℕ → List ℕ → List ℕ → List ℕ
repeat_key zero i pskb k = k
repeat_key (suc fuel) i pskb k =
    let more = repeat_key fuel (i + length pskb) pskb (copy_at i k pskb) in
    if ltb i key_size then more else k

-- The loop over `tsBytes`: the first bytes of the key are xored with them.
abbrev pub mix : List ℕ → List ℕ → List ℕ
mix [] ts_bytes = []
mix (k ∷ ks) [] = k ∷ ks
mix (k ∷ ks) (t ∷ ts) = bit_xor k t ∷ mix ks ts

-- The key before the timestamp goes in: cut to size, or repeated. Each round of the loop moves by a
-- byte at least, so `key_size` rounds and the last test are enough.
unfoldable pub resize_key : List ℕ → List ℕ
unfolding repeat_key
resize_key pskb =
    if ltb key_size (length pskb)
    then take key_size pskb
    else if ltb (length pskb) key_size
    then repeat_key (key_size + 1) 0 pskb (replicate key_size 0)
    else pskb

-- The key that `Framer` makes of the decoded pre-shared key and the timestamp's 64 bits. An empty
-- key is a panic.
unfoldable pub derive_key : List ℕ → ℕ → Result (List ℕ)
unfolding resize_key
derive_key pskb ts = if leb (length pskb) 0 then panic else ok (mix (resize_key pskb) (put_u64 ts))
