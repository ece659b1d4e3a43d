-- ===== src/F1/Stream.antt =====
-- A connection of frames is a stream of bytes: `Read` serves it in order, whatever the sizes of the
-- buffers and of the chunks.
use df.Prelude.{
  ℕ, ◌+◌, ◌≤◌, ◌<◌, ◌≡◌, inl, inr, refl, sym, ap, ◌∙◌, arith, List, [], ◌∷◌, ◌++◌, length, min,
  take, drop, All, length-append, append_assoc, take-append-drop, length-take, take_of_length-le,
  drop_of_length-le, ltb, le→ltb, lt→ltb, ltb→le, Bool-cases,
}
use native.Mathlib.Decide.{dec_lt}
use df.Bytes.{IsByte}
use df.Io.{ok, err, eof}
use df.ReadBuf
use df.ReadBuf.{ReadBuf}
use df.ReadBuf.Queue
use df.F1.{new_cipher, F1, Random, deliver, delivered, read}
use df.F1.Cfb.{IsBlockCipher}
use df.F1.Frame.{IsRandom, Fits, frame, read_chunk-frame, read_chunk-nil}

-- One `Write`: its randomness and its data.
pub record Sent : Type 0 where
  pub random : Random
  pub iv : List ℕ
  pub chunk : List ℕ

pub record IsSent (d : Sent) : Type 0 where
  pub drawn : IsRandom d.random d.iv
  pub bytes : All IsByte d.chunk
  pub fits : Fits d.random d.chunk

abbrev pub plain : List Sent → List ℕ
plain [] = []
plain (d ∷ ds) = d.chunk ++ plain ds

module _ (aes : List ℕ → List ℕ → List ℕ) where
  abbrev pub frames : List ℕ → List Sent → List ℕ
  frames psk [] = []
  frames psk (d ∷ ds) = frame aes psk d.random d.iv d.chunk ++ frames psk ds

-- The bytes of the stream that the framer has not served yet.
abbrev pub remaining : F1 → List Sent → List ℕ
remaining f ds = Queue.pending f.buf_read ++ plain ds

-- A chunk is served from its front, and what does not fit is kept.
deliver_lem :
    (f : F1) (n : ℕ) (chunk : List ℕ)
    → Queue.IsValid f.buf_read
    → f.buf_read.len ≡ 0
    → ((deliver f n chunk).0 ≡ take n chunk)
      × (Queue.pending (deliver f n chunk).1.buf_read ≡ drop n chunk)
      × Queue.IsValid (deliver f n chunk).1.buf_read
      × ((deliver f n chunk).1.psk ≡ f.psk)
unfolding deliver
deliver_lem f n chunk v e = elim (Bool-cases (ltb n (length chunk))) [
  | inl more ↦
      let (v', p) = Queue.append_buf-pending f.buf_read (drop n chunk) v in
      rw more (refl, p ∙ rw e, v', refl)
  | inr all ↦
      let fits : length chunk ≤ n = ltb→le n (length chunk) all in
      rw all
        (sym (take_of_length-le n chunk fits), rw e (sym (drop_of_length-le n chunk fits)), v, refl)
]

-- What a cut of `front` at `n` means for the bytes in front of `tail`.
cut_facts :
    (n : ℕ) (front tail : List ℕ) {out rest : List ℕ}
    → out ≡ take n front
    → rest ≡ drop n front
    → (length out ≤ n)
      × (out ++ (rest ++ tail) ≡ front ++ tail)
      × (length (front ++ tail) ≡ length out + length (rest ++ tail))
      × (1 ≤ n → 0 < length front → 0 < length out)
cut_facts n front tail {out} {rest} o p =
    let whole : out ++ (rest ++ tail) ≡ front ++ tail =
      sym (append_assoc out rest tail)
      ∙ ap (λ t. t ++ tail) (rw (o, p) (take-append-drop n front)) in
    let size : length out ≡ min n (length front) = ap length o ∙ length-take n front in
    (
      omega arith,
      whole,
      ap length (sym whole) ∙ length-append out (rest ++ tail),
      λ one some_front. omega arith,
    )

module _ (aes : List ℕ → List ℕ → List ℕ) (c : IsBlockCipher aes) where
  -- `Read` on bytes left over: they are served first, and the connection is not touched.
  read_left_over :
      (f : F1) (n : ℕ) (s : List ℕ)
      → Queue.IsValid f.buf_read
      → 0 < f.buf_read.len
      → (out : List ℕ) × (f' : F1) × (read aes f n s ≡ (ok out, f', s))
        × (out ≡ take n (Queue.pending f.buf_read))
        × (Queue.pending f'.buf_read ≡ drop n (Queue.pending f.buf_read))
        × Queue.IsValid f'.buf_read
        × (f'.psk ≡ f.psk)
  unfolding read
  read_left_over f n s v h =
      let (out, rest, v') = Queue.drain-pending f.buf_read n v in
      (
        (ReadBuf.drain f.buf_read n).0,
        record f { buf_read = (ReadBuf.drain f.buf_read n).1 },
        rw (lt→ltb 0 f.buf_read.len h),
        out,
        rest,
        v',
        refl,
      )

  read_next :
      (f : F1) (n : ℕ) (d : Sent) (ds : List Sent)
      → new_cipher aes f.psk ≡ ok (aes f.psk)
      → Queue.IsValid f.buf_read
      → f.buf_read.len ≡ 0
      → IsSent d
      → (out : List ℕ) × (f' : F1) × (read aes f n (frames aes f.psk (d ∷ ds))
          ≡ (ok out, f', frames aes f.psk ds))
        × (out ≡ take n d.chunk)
        × (Queue.pending f'.buf_read ≡ drop n d.chunk)
        × Queue.IsValid f'.buf_read
        × (f'.psk ≡ f.psk)
  unfolding read
  read_next f n d ds good v e h =
      let (out, rest, v', same) = deliver_lem f n d.chunk v e in
      (
        (deliver f n d.chunk).0,
        (deliver f n d.chunk).1,
        rw (
          e,
          read_chunk-frame aes c f.psk good d.random d.iv d.chunk (frames aes f.psk ds) h.drawn
              h.bytes h.fits,
        ),
        out,
        rest,
        v',
        same,
      )

  -- One `Read` on a connection that has bytes or frames left: what it puts in the buffer, and what
  -- then remains, make up what remained. With room for a byte, less remains.
  pub record Served (f : F1) (n : ℕ) (ds : List Sent) : Type 0 where
    pub out : List ℕ
    pub after_f : F1
    pub after_ds : List Sent
    pub runs :
        read aes f n (frames aes f.psk ds) ≡ (ok out, after_f, frames aes after_f.psk after_ds)
    pub bounded : length out ≤ n
    pub split : out ++ remaining after_f after_ds ≡ remaining f ds
    pub less :
        1 ≤ n
        → length (remaining after_f after_ds) + length after_ds
          < length (remaining f ds) + length ds
    pub valid : Queue.IsValid after_f.buf_read
    pub same_psk : after_f.psk ≡ f.psk
    pub sent : All IsSent after_ds

  serve_left_over :
      (f : F1) (n : ℕ) (ds : List Sent)
      → Queue.IsValid f.buf_read
      → All IsSent ds
      → 0 < f.buf_read.len
      → Served f n ds
  serve_left_over f n ds v hs h =
      let (out, f', runs, o, p, v', q) = read_left_over f n (frames aes f.psk ds) v h in
      let (short, whole, size, some_out) = cut_facts n (Queue.pending f.buf_read) (plain ds) o p in
      record {
        out = out;
        after_f = f';
        after_ds = ds;
        runs = rw q runs;
        bounded = short;
        split = whole;
        less = λ one. omega (
          arith,
          size,
          some_out one (omega (arith, length-take f.buf_read.len f.buf_read.bytes)),
        );
        valid = v';
        same_psk = q;
        sent = hs;
      }

  serve_next :
      (f : F1) (n : ℕ) (d : Sent) (ds : List Sent)
      → new_cipher aes f.psk ≡ ok (aes f.psk)
      → Queue.IsValid f.buf_read
      → f.buf_read.len ≡ 0
      → All IsSent (d ∷ ds)
      → Served f n (d ∷ ds)
  serve_next f n d ds good v e (h, hs) =
      let (out, f', runs, o, p, v', q) = read_next f n d ds good v e h in
      let (short, whole, size, _) = cut_facts n d.chunk (plain ds) o p in
      let start : remaining f (d ∷ ds) ≡ d.chunk ++ plain ds = rw e in
      record {
        out = out;
        after_f = f';
        after_ds = ds;
        runs = rw q runs;
        bounded = short;
        split = whole ∙ sym start;
        less = λ one. omega (arith, size, ap length start);
        valid = v';
        same_psk = q;
        sent = hs;
      }

  -- A framer that has bytes left over or frames to come serves some of them in order.
  pub read_serves :
      (f : F1) (n : ℕ) (ds : List Sent)
      → new_cipher aes f.psk ≡ ok (aes f.psk)
      → Queue.IsValid f.buf_read
      → All IsSent ds
      → 0 < f.buf_read.len + length ds
      → Served f n ds
  read_serves f n [] good v hs h = serve_left_over f n [] v hs (omega arith)
  read_serves f n (d ∷ ds) good v hs h = elim (dec_lt 0 f.buf_read.len) [
    | yes left ↦ serve_left_over f n (d ∷ ds) v hs left
    | no none_left ↦ serve_next f n d ds good v (omega arith) hs
  ]

-- A connection that has ended, and no byte left over.
pub read_end :
    (aes : List ℕ → List ℕ → List ℕ) (f : F1) (n : ℕ)
    → f.buf_read.len ≡ 0
    → read aes f n [] ≡ (err eof, f, [])
unfolding read
read_end aes f n e =
    rw (le→ltb 0 f.buf_read.len (omega arith)) (ap (delivered f n) (read_chunk-nil aes f.psk))
