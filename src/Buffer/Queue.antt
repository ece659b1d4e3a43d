-- ===== src/Buffer/Queue.antt =====
-- The buffer is a queue of bytes: `Write` appends, `Read` takes from the front.
use df.Prelude.{
  ℕ, zero, suc, ◌+◌, ◌≤◌, ◌<◌, ◌==◌, ==_iff, ◌≡◌, ◌≢◌, inl, inr, refl, sym, ap, ◌∙◌, arith, Bool,
  true, false, Bool-cases, List, [], ◌∷◌, ◌++◌, length, take, drop, slice, copy, replicate, ltb,
  lt→ltb, ltb→le, if◌then◌else◌, take-copy_at, length-copy, length-copy_at, length-replicate,
  take-copy-replicate, drop_of_length-le, take-nil, fitting, fitting_le, fitting_cut,
  take-copy-take,
}
use mathlib.Core.Path.{subst}
use df.Io.{Error, Result, ok, err, panic, eof, short_buffer, and_then}
use df.Buffer.Growth.{MayHold, make_room-MayHold, make_room-full}
use df.Buffer.{
  ReadWriteBuffer, buf_size, read_from_buf, read, tried, Outcome, returned, waiting, grow,
  make_room, written, write,
}

abbrev pub IsValid : ReadWriteBuffer → Type 0
IsValid f = f.buf_len ≤ length f.buf

-- The bytes written and not yet read, oldest first.
abbrev pub contents : ReadWriteBuffer → List ℕ
contents f = take f.buf_len f.buf

pub grow_lem : (fuel c size d : ℕ) → grow fuel c size ≡ ok d → (size ≤ d) × (c ≤ d)
unfolding grow
grow_lem zero c size d e = cc
grow_lem (suc fuel) c size d e = ground (arith, grow_lem fuel (c + buf_size) size d)

-- A fuel above the size is enough.
pub grow-ne-panic : (fuel c size : ℕ) → size < fuel + c → 0 < fuel → grow fuel c size ≢ panic
unfolding grow
grow-ne-panic zero c size h some = absurd (omega arith)
grow-ne-panic (suc fuel) c size h some = ground (arith, grow-ne-panic fuel (c + buf_size) size)

-- A buffer with room, grown or not, starts with the contents.
pub make_room_lem :
    (f : ReadWriteBuffer) (size : ℕ) {buf : List ℕ}
    → IsValid f
    → make_room f size ≡ ok buf
    → (size ≤ length buf) × (length f.buf ≤ length buf) × (take f.buf_len buf ≡ contents f)
unfolding make_room
make_room_lem f size {buf} v e = elim (Bool-cases (ltb (length f.buf) size)) [
  | inl small ↦ grown (grow (size + 1) (length f.buf + buf_size) size) refl (rw small at e)
  | inr large ↦
      let same : f.buf ≡ buf = cc (rw large at e) in
      rw (← same) (ltb→le (length f.buf) size large, omega arith, refl)
]
  where
    grown :
        (r : Result ℕ)
        → grow (size + 1) (length f.buf + buf_size) size ≡ r
        → and_then r (λ cap_new. ok (copy (replicate cap_new 0) (contents f))) ≡ ok buf
        → (size ≤ length buf) × (length f.buf ≤ length buf) × (take f.buf_len buf ≡ contents f)
    grown (ok c) g e' =
        let (fits, more) = grow_lem (size + 1) (length f.buf + buf_size) size c g in
        let same : copy (replicate c 0) (contents f) ≡ buf = cc in
        let len : length buf ≡ c =
          ap length (sym same) ∙ length-copy (replicate c 0) (contents f) ∙ length-replicate c 0 in
        (
          omega arith,
          omega arith,
          rw (← same) (take-copy-replicate c f.buf_len f.buf v (omega arith)),
        )
    grown (err x) g e' = cc
    grown panic g e' = cc

pub make_room-ne-panic : (f : ReadWriteBuffer) (size : ℕ) → make_room f size ≢ panic
unfolding make_room
make_room-ne-panic f size = ground (arith, grow-ne-panic (size + 1) (length f.buf + buf_size) size)

grow-short : (fuel c size : ℕ) (x : Error) → grow fuel c size ≡ err x → x ≡ short_buffer
unfolding grow
grow-short zero c size x e = cc
grow-short (suc fuel) c size x e = ground (arith, grow-short fuel (c + buf_size) size x)

make_room-short :
    (f : ReadWriteBuffer) (size : ℕ) (x : Error) → make_room f size ≡ err x → x ≡ short_buffer
unfolding make_room
make_room-short f size x e = ground (arith, grow-short (size + 1) (length f.buf + buf_size) size x)

-- What `Write` comes to.
pub data Wrote (f : ReadWriteBuffer) (dat : List ℕ) (r : Result ℕ) (f' : ReadWriteBuffer)
    : Type 0 where
  appended :
      r ≡ ok (length dat)
      → f.eof ≡ false
      → contents f' ≡ contents f ++ dat
      → IsValid f'
      → f'.eof ≡ f.eof
      → MayHold f (f.buf_len + length dat)
      → Wrote f dat r f'
  refused_closed : r ≡ err eof → f.eof ≡ true → f' ≡ f → Wrote f dat r f'
  refused_full :
      r ≡ err short_buffer
      → f.eof ≡ false
      → f' ≡ f
      → ¬ MayHold f (f.buf_len + length dat)
      → Wrote f dat r f'

pub write_step :
    (f : ReadWriteBuffer) (dat : List ℕ) {b : Bool}
    → f.eof ≡ b
    → write f dat
      ≡ (if b then (err eof, f) else written f dat (make_room f (f.buf_len + length dat)))
unfolding write
write_step f dat e =
    ap (λ b. if b then (err eof, f) else written f dat (make_room f (f.buf_len + length dat))) e

Wrote-open :
    (f : ReadWriteBuffer) (dat : List ℕ)
    → IsValid f
    → (r : Result (List ℕ)) → make_room f (f.buf_len + length dat) ≡ r
    → f.eof ≡ false
    → Wrote f dat (write f dat).0 (write f dat).1
Wrote-open f dat v (ok buf) e opened =
    let (fits, _, same) = make_room_lem f (f.buf_len + length dat) v e in
    let step = write_step f dat opened ∙ ap (written f dat) e in
    appended (ap (λ p. p.0) step) opened
      (ap (λ p. contents p.1) step ∙ take-copy_at f.buf_len buf dat fits ∙ ap (λ t. t ++ dat) same)
      (subst (λ p. IsValid p.1) (sym step) (omega (arith, length-copy_at f.buf_len buf dat)))
      (ap (λ p. p.1.eof) step) (make_room-MayHold f (f.buf_len + length dat) e)
Wrote-open f dat v (err x) e opened =
    let step = write_step f dat opened ∙ ap (written f dat) e in
    refused_full (ap (λ p. p.0) step ∙ ap err (make_room-short f (f.buf_len + length dat) x e))
      opened (ap (λ p. p.1) step) (make_room-full f (f.buf_len + length dat) x e)
Wrote-open f dat v panic e opened = absurd (make_room-ne-panic f (f.buf_len + length dat) e)

-- `Write` appends all of the bytes to the contents and returns their number, or changes nothing. It returns
-- `io.EOF` on a closed buffer. On an open one it returns `io.ErrShortBuffer` exactly where the bytes do not
-- fit a capacity of 4096 bytes more, and the capacity in steps of 4096 bytes that they need is over 8 MB.
pub write-Wrote :
    (f : ReadWriteBuffer) (dat : List ℕ) → IsValid f → Wrote f dat (write f dat).0 (write f dat).1
write-Wrote f dat v = elim (Bool-cases f.eof) [
  | inl closed ↦
      let step = write_step f dat closed in
      refused_closed (ap (λ p. p.0) step) closed (ap (λ p. p.1) step)
  | inr opened ↦ Wrote-open f dat v (make_room f (f.buf_len + length dat)) refl opened
]

-- What a read of `n` bytes takes and leaves.
abbrev pub Takes : ReadWriteBuffer → ℕ → List ℕ × ReadWriteBuffer → Type 0
Takes f n p =
    (p.0 ≡ take n (contents f))
    × (contents p.1 ≡ drop n (contents f))
    × IsValid p.1
    × (p.1.eof ≡ f.eof)

pub read_from_buf-Takes : (f : ReadWriteBuffer) (n : ℕ) → IsValid f → Takes f n (read_from_buf f n)
unfolding read_from_buf
read_from_buf-Takes f n v = elim (Bool-cases (ltb 0 f.buf_len)) [
  | inl some ↦
      let size = fitting f.buf_len n in
      let (short, _) = fitting_le f.buf_len n in
      let (out, rest) = fitting_cut f.buf_len n f.buf v in
      rw some (
        out,
        take-copy-take size f.buf_len f.buf short v ∙ rest,
        omega (arith, length-copy f.buf (slice size f.buf_len f.buf)),
        refl,
      )
  | inr nothing ↦
      let empty : f.buf_len ≡ 0 = omega (arith, ltb→le 0 f.buf_len nothing) in
      let none_left : contents f ≡ [] = ap (λ k. take k f.buf) empty in
      rw nothing (
        sym (ap (take n) none_left ∙ take-nil n),
        none_left ∙ sym (ap (drop n) none_left ∙ drop_of_length-le n [] (omega arith)),
        v,
        refl,
      )
]

-- What `Read` comes to.
pub data DidRead (f : ReadWriteBuffer) (n : ℕ) (o : Outcome) (f' : ReadWriteBuffer) : Type 0 where
  asked_nothing : n ≡ 0 → o ≡ returned (ok []) → f' ≡ f → DidRead f n o f'
  took :
      0 < n
      → contents f ≢ []
      → o ≡ returned (ok (take n (contents f)))
      → contents f' ≡ drop n (contents f)
      → IsValid f'
      → DidRead f n o f'
  ended :
      0 < n
      → contents f ≡ []
      → f.eof ≡ true
      → o ≡ returned (err eof)
      → contents f' ≡ []
      → DidRead f n o f'
  waits :
      0 < n → contents f ≡ [] → f.eof ≡ false → o ≡ waiting → contents f' ≡ [] → DidRead f n o f'

take_none : (n : ℕ) (xs : List ℕ) → 0 < n → [] ≡ take n xs → xs ≡ []
take_none zero xs h e = absurd (omega arith)
take_none (suc n) [] h e = refl
take_none (suc n) (x ∷ xs) h e = cc

tried-DidRead :
    (f : ReadWriteBuffer) (n : ℕ) (b : Bool) (got : List ℕ) (f' : ReadWriteBuffer)
    → 0 < n
    → f.eof ≡ b
    → Takes f n (got, f')
    → DidRead f n (tried b (got, f')).0 (tried b (got, f')).1
tried-DidRead f n b (x ∷ xs) f' pos e (out, rest, v, _) =
    let tested = lt→ltb 0 (suc (length xs)) (omega arith) in
    rw tested (
      took pos (λ none_left. cc (take-nil {A = ℕ} n, ap (take n) none_left))
        (ap (λ t. returned (ok t)) out) rest v)
tried-DidRead f n b [] f' pos e (out, rest, v, _) =
    let none_left = take_none n (contents f) pos out in
    let none_left' = rest ∙ ap (drop n) none_left ∙ drop_of_length-le n [] (omega arith) in
    nothing b e none_left none_left'
  where
    nothing :
        (b : Bool)
        → f.eof ≡ b
        → contents f ≡ []
        → contents f' ≡ []
        → DidRead f n (tried b ([], f')).0 (tried b ([], f')).1
    nothing true e' p q = ended pos p e' refl q
    nothing false e' p q = waits pos p e' refl q

-- `Read` gives the front of the contents, `io.EOF` once the buffer is closed and empty, and waits
-- while it is open and empty.
pub read-DidRead : (f : ReadWriteBuffer) (n : ℕ) → IsValid f → DidRead f n (read f n).0 (read f n).1
unfolding read
read-DidRead f n v = elim (Bool-cases (n == 0)) [
  | inl none_asked ↦ rw none_asked (asked_nothing ((==_iff n 0).0 none_asked) refl refl)
  | inr some ↦ rw some (
      tried-DidRead f n f.eof (read_from_buf f n).0 (read_from_buf f n).1 (ground arith) refl
        (read_from_buf-Takes f n v))
]
