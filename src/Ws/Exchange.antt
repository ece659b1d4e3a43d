-- ===== src/Ws/Exchange.antt =====
-- A `Write` of one framer, and the `Read` of another.
use df.Prelude.{
  ℕ, ◌+◌, ◌^◌, ◌≤◌, ◌<◌, ◌≡◌, refl, sym, ap, ◌∙◌, arith, not, List, [], ◌++◌, length, take, drop,
  All, ltb, Bool-cases, inl, inr, ltb→le, take_of_length-le, drop_of_length-le,
}
use df.Bytes.{IsByte}
use df.Io.{Error, Result, ok, err, panic, buffer_write, mask_error}
use df.F1.{new_cipher, block_size}
use df.F1.Cfb.{IsBlockCipher, decrypt-encrypt, encrypt-IsByte}
use df.ReadBuf.Queue
use df.Ws.{Ws, read_chunk, read, deliver, delivered, write}
use df.Ws.Frame.{IsMask, frame, read_chunk-peer, read_chunk-own}

deliver_cut :
    (aes : List ℕ → List ℕ → List ℕ) (f : Ws) (n : ℕ) (chunk : List ℕ)
    → Queue.IsValid f.buf_read
    → f.buf_read.len ≡ 0
    → ((deliver aes f n chunk).0 ≡ take n chunk)
      × (Queue.pending (deliver aes f n chunk).1.buf_read ≡ drop n chunk)
      × Queue.IsValid (deliver aes f n chunk).1.buf_read
deliver_cut aes f n chunk v e = elim (Bool-cases (ltb n (length chunk))) [
  | inl more ↦
      let (v', p) = Queue.append_buf-pending f.buf_read (drop n chunk) v in
      rw more (refl, p ∙ rw e, v')
  | inr all ↦
      let fits : length chunk ≤ n = ltb→le n (length chunk) all in
      rw all (sym (take_of_length-le n chunk fits), rw e (sym (drop_of_length-le n chunk fits)), v)
]

read_empty :
    (aes : List ℕ → List ℕ → List ℕ) (f : Ws) (n : ℕ) (s : List ℕ)
    → f.buf_read.len ≡ 0
    → read aes f n s ≡ delivered aes f n (read_chunk aes f.psk f.mask s)
unfolding read
read_empty aes f n s e = rw e refl

delivered_err :
    (aes : List ℕ → List ℕ → List ℕ) (f : Ws) (n : ℕ) (p : Result (List ℕ) × List ℕ) {x : Error}
    → p.0 ≡ err x
    → (delivered aes f n p).0 ≡ err x
delivered_err aes f n (ok chunk, s) e = cc
delivered_err aes f n (err y, s) e = cc
delivered_err aes f n (panic, s) e = cc

-- What one side writes, the other reads: the framer sends one frame, in one call. A framer of the other role with the same key and nothing left over, given
-- the frame, serves the data up to its buffer's size, keeps what did not fit, and leaves what
-- follows on the stream; one of the writer's own role refuses the frame. The key has 16, 24 or 32
-- bytes, the random iv 16, the random mask 4, and the frame's payload is shorter than 2 ^ 63.
pub exchange :
    (aes : List ℕ → List ℕ → List ℕ) (iv mask dat rest : List ℕ) (f g own : Ws) (n : ℕ)
    → IsBlockCipher aes
    → new_cipher aes f.psk ≡ ok (aes f.psk)
    → length iv ≡ block_size
    → All IsByte iv
    → IsMask mask
    → All IsByte dat
    → block_size + length dat < 2 ^ 63
    → g.psk ≡ f.psk
    → g.mask ≡ not f.mask
    → own.mask ≡ f.mask
    → Queue.IsValid g.buf_read
    → g.buf_read.len ≡ 0
    → own.buf_read.len ≡ 0
    → (sent : List ℕ) × (g' : Ws) × (write aes (ok iv) mask buffer_write f dat []
        ≡ (ok (length sent), sent))
      × (read aes g n (sent ++ rest) ≡ (ok (take n dat), g', rest))
      × (Queue.pending g'.buf_read ≡ drop n dat)
      × Queue.IsValid g'.buf_read
      × ((read aes own n (sent ++ rest)).0 ≡ err mask_error)
unfolding write buffer_write
exchange aes iv mask dat rest f g own n c good hiv hi m hd small key role self v e e_own =
    let (chunk, enc, size, dec) = decrypt-encrypt aes iv f.psk dat c good hiv hd in
    let bytes = encrypt-IsByte aes iv f.psk dat c good hi hd enc in
    let (out, left, v') = deliver_cut aes g n dat v e in
    let sent = frame mask f.mask chunk in
    let seen : read_chunk aes g.psk g.mask (sent ++ rest) ≡ (ok dat, rest) =
      rw (key, role)
        (read_chunk-peer aes f.psk mask f.mask chunk rest m (omega arith) bytes
          ∙ ap (λ r. (r, rest)) dec) in
    let refused : (read_chunk aes own.psk own.mask (sent ++ rest)).0 ≡ err mask_error =
      rw self (read_chunk-own aes own.psk mask f.mask chunk rest (omega arith)) in
    (
      sent,
      (deliver aes g n dat).1,
      rw enc refl,
      read_empty aes g n (sent ++ rest) e
          ∙ ap (delivered aes g n) seen
          ∙ ap (λ o. (ok o, (deliver aes g n dat).1, rest)) out,
      left,
      v',
      ap (λ r. r.0) (read_empty aes own n (sent ++ rest) e_own)
          ∙ delivered_err aes own n (read_chunk aes own.psk own.mask (sent ++ rest)) refused,
    )
