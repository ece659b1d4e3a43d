-- ===== src/Ws.antt =====
-- transport/framer/ws/ws.go: chunks of a byte stream in binary frames of the WebSocket protocol.
-- `f1.Encrypt` and `f1.Decrypt` are those of F1; the connection is as in F1.
pub mod Frame
pub mod Exchange
mod Tests
use df.Prelude.{
  ℕ, zero, suc, ◌+◌, ◌*◌, ◌-◌, ◌/◌, ◌%◌, ◌^◌, ◌==◌, ◌||◌, ◌&&◌, Bool, true, false, not, List, [],
  ◌∷◌, ◌++◌, length, take, drop, ltb, leb, if◌then◌else◌, get_or, bit_xor,
}
use df.Bytes.{put_u16, put_u64, get_u}
use df.Io.{Result, ok, err, panic, Io, pure, fail, lift, ◌>>=◌, read_full, mask_error, eof}
use df.F1.{encrypt, decrypt}
use df.ReadBuf
use df.ReadBuf.{ReadBuf}

pub record Ws : Type 0 where
  pub psk : List ℕ
  -- `true` for a client, `false` for a server
  pub mask : Bool
  pub buf_read : ReadBuf

-- `chunkEnc[i] = v ^ mask[i%4]`, from index `i` on.
unfoldable pub apply_mask : List ℕ → ℕ → List ℕ → List ℕ
apply_mask mask i [] = []
apply_mask mask i (v ∷ vs) = bit_xor v (get_or mask (i % 4) 0) ∷ apply_mask mask (i + 1) vs

abbrev pub same : Bool → Bool → Bool
same a b = if a then b else not b

-- The payload's size, from the header's seven bits and the bytes that follow.
abbrev pub read_size : ℕ → Io ℕ
read_size size_base =
    if ltb size_base 126
    then pure size_base
    else if size_base == 126
    then (read_full 2 >>= λ sizeb. pure (get_u sizeb))
    else (read_full 8 >>= λ sizeb. pure (get_u sizeb))

abbrev pub read_mask : Bool → Io (List ℕ)
read_mask masking = if masking then read_full 4 else pure []

-- `make([]byte, size)` panics on an `int` below zero, which a size of 64 bits can be. That it also panics
-- above the size of the address space, and that memory may run out, is left out.
abbrev pub check_size : ℕ → Result ℕ
check_size size = if ltb size (2 ^ 63) then ok size else panic

abbrev pub unmask : List ℕ → List ℕ → List ℕ
unmask mask chunk_enc = if ltb 0 (length mask) then apply_mask mask 0 chunk_enc else chunk_enc

-- The bits of a header byte, `fin` and `masking`.
abbrev pub top_bit : ℕ → Bool
top_bit h = ltb 0 (h / 128 % 2)

module _ (aes : List ℕ → List ℕ → List ℕ) where
  -- The frame behind its two leading bytes, up to `Decrypt`, for a framer with this key and `mask`.
  unfoldable pub read_payload : List ℕ → Bool → Bool → ℕ → Io (List ℕ)
  unfolding decrypt
  read_payload psk f_mask masking size_base = do
    size ← read_size size_base
    if same masking f_mask
        then fail mask_error
        else (read_mask masking >>= λ mask. lift (check_size size) >>= λ n.
            read_full n >>= λ chunk_enc. lift (decrypt aes psk (unmask mask chunk_enc)))

  -- `Read` behind its first branch, up to `Decrypt`.
  unfoldable pub read_chunk : List ℕ → Bool → Io (List ℕ)
  unfolding read_payload
  read_chunk psk f_mask = do
    header ← read_full 2
    let fin = top_bit (get_or header 0 0)
    let op_code = get_or header 0 0 % 16
    if not fin || not (op_code == 2)
        then fail eof
        else read_payload psk f_mask (top_bit (get_or header 1 0)) (get_or header 1 0 % 128)

  -- What `Read` does with a chunk, for a buffer of `n` bytes.
  abbrev pub deliver : Ws → ℕ → List ℕ → List ℕ × Ws
  deliver f n chunk =
      if ltb n (length chunk)
      then (take n chunk, record f { buf_read = ReadBuf.append_buf f.buf_read (drop n chunk) })
      else (chunk, f)

  abbrev pub delivered : Ws → ℕ → Result (List ℕ) × List ℕ → Result (List ℕ) × Ws × List ℕ
  delivered f n (ok chunk, s) = (ok (deliver f n chunk).0, (deliver f n chunk).1, s)
  delivered f n (err e, s) = (err e, f, s)
  delivered f n (panic, s) = (panic, f, s)

  -- `Read` into a buffer of `n` bytes: the bytes put there, the framer and the stream afterwards.
  unfoldable pub read : Ws → ℕ → List ℕ → Result (List ℕ) × Ws × List ℕ
  unfolding read_chunk
  read f n s =
      if ltb 0 f.buf_read.len
      then (
        ok (ReadBuf.drain f.buf_read n).0,
        record f { buf_read = (ReadBuf.drain f.buf_read n).1 },
        s,
      )
      else delivered f n (read_chunk f.psk f.mask s)

-- The header of a payload of this size, with the mask's four bytes where `f_mask` is set.
unfoldable pub frame_header : Bool → List ℕ → ℕ → List ℕ
frame_header f_mask mask size =
    let bit = if f_mask then 128 else 0 in
    let tail = if f_mask then mask else [] in
    130
    ∷ (if leb size 125
        then (size + bit) ∷ tail
        else if ltb size (2 ^ 16)
        then (126 + bit) ∷ (put_u16 size ++ tail)
        else (127 + bit) ∷ (put_u64 size ++ tail))

-- `Write`, where reading the iv comes to `random` and the mask's random bytes are `mask`.
unfoldable pub write :
    (List ℕ → List ℕ → List ℕ) → Result (List ℕ) → List ℕ → (List ℕ → Io ℕ) → Ws → List ℕ → Io ℕ
unfolding encrypt apply_mask frame_header
write aes random mask tx f dat = do
  chunk_enc ← lift (encrypt aes random f.psk dat)
  tx (
      frame_header f.mask mask (length chunk_enc)
      ++ (if f.mask then apply_mask mask 0 chunk_enc else chunk_enc))
