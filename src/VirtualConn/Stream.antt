-- ===== src/VirtualConn/Stream.antt =====
-- What a virtual connection's reader gets.
use df.Prelude.{
  ℕ, ◌≤◌, ◌≡◌, inl, inr, refl, sym, ap, ◌∙◌, arith, Bool, true, false, Bool-cases, List, [], ◌∷◌,
  ◌++◌, length, take, drop, ltb, Option, none, some, if◌then◌else◌, append_assoc, take-append-drop,
  length-take, ltb→le,
}
use df.Io.{ok, err, eof}
use df.ReadBuf
use df.ReadBuf.Queue
use df.VirtualConn.{VirtualConn, Outcome, returned, waiting, receive, read}

-- The bytes of the chunks in the channel, up to a nil one.
abbrev pub plain : List (Option (List ℕ)) → List ℕ
plain [] = []
plain (none ∷ ch_r) = []
plain (some chunk ∷ ch_r) = chunk ++ plain ch_r

-- The bytes that the reader has still to get.
abbrev pub remaining : VirtualConn → List (Option (List ℕ)) → List ℕ
remaining c ch_r = Queue.pending c.buf_read ++ plain ch_r

-- What a `Read` into `n` bytes comes to.
pub data DidRead (c : VirtualConn) (n : ℕ) (ch_r : List (Option (List ℕ))) (o : Outcome)
    (c' : VirtualConn) (ch_r' : List (Option (List ℕ))) : Type 0 where
  served :
      (out : List ℕ)
      → o ≡ returned (ok out)
      → length out ≤ n
      → out ++ remaining c' ch_r' ≡ remaining c ch_r
      → Queue.IsValid c'.buf_read
      → DidRead c n ch_r o c' ch_r'
  ended_closed :
      o ≡ returned (err eof)
      → c.closed ≡ true
      → Queue.pending c.buf_read ≡ []
      → c' ≡ c
      → ch_r' ≡ ch_r
      → DidRead c n ch_r o c' ch_r'
  ended_nil :
      o ≡ returned (err eof)
      → remaining c ch_r ≡ []
      → c' ≡ c
      → ch_r ≡ none ∷ ch_r'
      → DidRead c n ch_r o c' ch_r'
  waits :
      o ≡ waiting
      → remaining c ch_r ≡ []
      → ch_r ≡ []
      → c.closed ≡ false
      → c' ≡ c
      → ch_r' ≡ ch_r
      → DidRead c n ch_r o c' ch_r'

pending-empty : (c : VirtualConn) → c.buf_read.len ≡ 0 → Queue.pending c.buf_read ≡ []
pending-empty c e = rw e refl

cut : (n : ℕ) (front tail : List ℕ) → take n front ++ (drop n front ++ tail) ≡ front ++ tail
cut n front tail =
    sym (append_assoc (take n front) (drop n front) tail)
    ∙ ap (λ t. t ++ tail) (take-append-drop n front)

receive-DidRead :
    (c : VirtualConn) (n : ℕ) (ch_r : List (Option (List ℕ)))
    → Queue.IsValid c.buf_read
    → c.buf_read.len ≡ 0
    → c.closed ≡ false
    → DidRead c n ch_r (receive c n ch_r).0 (receive c n ch_r).1 (receive c n ch_r).2
unfolding receive
receive-DidRead c n [] v e opened = waits refl (rw (pending-empty c e) refl) refl opened refl refl
receive-DidRead c n (none ∷ ch_r) v e opened =
    ended_nil refl (rw (pending-empty c e) refl) refl refl
receive-DidRead c n (some chunk ∷ ch_r) v e opened = elim (Bool-cases (ltb n (length chunk))) [
  | inl more ↦
      let (v', p) = Queue.append_buf-pending c.buf_read (drop n chunk) v in
      rw more (
        served (take n chunk) refl (omega (arith, length-take n chunk))
          (ap (λ t. take n chunk ++ (t ++ plain ch_r))
              (p ∙ ap (λ t. t ++ drop n chunk) (pending-empty c e))
            ∙ cut n chunk (plain ch_r)
            ∙ sym (ap (λ t. t ++ (chunk ++ plain ch_r)) (pending-empty c e)))
          v')
  | inr all ↦ rw all (
      served chunk refl (ltb→le n (length chunk) all)
        (ap (λ t. chunk ++ (t ++ plain ch_r)) (pending-empty c e)
          ∙ sym (ap (λ t. t ++ (chunk ++ plain ch_r)) (pending-empty c e)))
        v)
]

-- A `Read` that succeeds gives the next bytes of the chunks in order, no more than its buffer holds,
-- and what remains is what follows them. It reports an end once the bytes left over are served, on a
-- closed connection or at a nil chunk, and waits only while the connection is open and nothing is there.
pub read_conserves :
    (c : VirtualConn) (n : ℕ) (ch_r : List (Option (List ℕ)))
    → Queue.IsValid c.buf_read
    → DidRead c n ch_r (read c n ch_r).0 (read c n ch_r).1 (read c n ch_r).2
unfolding read
read_conserves c n ch_r v = elim (Bool-cases (ltb 0 c.buf_read.len)) [
  | inl some_left ↦
      let (out, rest, v') = Queue.drain-pending c.buf_read n v in
      rw some_left (
        served (ReadBuf.drain c.buf_read n).0 refl
          (omega (arith, ap length out, length-take n (Queue.pending c.buf_read)))
          (ap (λ t. t ++ (Queue.pending (ReadBuf.drain c.buf_read n).1 ++ plain ch_r)) out
            ∙ ap (λ t. take n (Queue.pending c.buf_read) ++ (t ++ plain ch_r)) rest
            ∙ cut n (Queue.pending c.buf_read) (plain ch_r))
          v')
  | inr none_left ↦
      let e : c.buf_read.len ≡ 0 = omega (arith, ltb→le 0 c.buf_read.len none_left) in
      rw none_left (on_flag e c.closed refl)
]
  where
    on_flag :
        c.buf_read.len ≡ 0
        → (b : Bool) → c.closed ≡ b
        → let r = if b then (returned (err eof), c, ch_r) else receive c n ch_r in
          DidRead c n ch_r r.0 r.1 r.2
    on_flag e true shut = ended_closed refl shut (pending-empty c e) refl refl
    on_flag e false opened = receive-DidRead c n ch_r v e opened
