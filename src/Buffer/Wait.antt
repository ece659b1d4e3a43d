-- ===== src/Buffer/Wait.antt =====
-- A reader that waits in `Read`, and what wakes it.
-- The reader holds `cond.L` when `Wait` returns. Its loop then takes `cond.L` again where the try
-- fails, since the unlock is deferred: it blocks for ever on the lock that it holds.
use df.Prelude.{
  ℕ, ◌<◌, ◌≡◌, refl, ap, ◌∙◌, arith, true, false, List, [], ◌∷◌, ◌++◌, length, take, drop,
  length-take, take-nil, ltb, le→ltb, lt→ltb, if◌then◌else◌,
}
use df.Io.{Result, ok, err, panic}
use df.Buffer.{ReadWriteBuffer, read_from_buf, close, write}
use df.Buffer.Limit.{write_fits}
use df.Buffer.Queue.{
  IsValid, contents, read_from_buf-Takes, appended, refused_closed, refused_full, write-Wrote,
  write_step,
}

-- A reader inside the loop of `Read`, with a buffer of `n` bytes.
pub data Reader : Type 0 where
  asleep : ℕ → Reader
  finished : List ℕ → Reader
  deadlocked : Reader

abbrev tried_again : List ℕ × ReadWriteBuffer → Reader × ReadWriteBuffer
tried_again (got, f) = (if ltb 0 (length got) then finished got else deadlocked, f)

-- One round of the loop, behind `Wait`.
unfoldable pub wake : Reader → ReadWriteBuffer → Reader × ReadWriteBuffer
wake (asleep n) f = tried_again (read_from_buf f n)
wake (finished got) f = (finished got, f)
wake deadlocked f = (deadlocked, f)

-- What the others do: a `Write`, or `Close`.
pub data Event : Type 0 where
  writes : List ℕ → Event
  closes : Event

abbrev broadcast : Result ℕ × ReadWriteBuffer → Reader → Reader × ReadWriteBuffer
broadcast (ok n, f) r = wake r f
broadcast (err e, f) r = (r, f)
broadcast (panic, f) r = (r, f)

-- A `Write` that succeeds ends in `Broadcast`; `Close` has none.
unfoldable pub step : Event → Reader × ReadWriteBuffer → Reader × ReadWriteBuffer
unfolding wake
step (writes dat) (r, f) = broadcast (write f dat) r
step closes (r, f) = (r, (close f).1)

unfoldable pub run : List Event → Reader × ReadWriteBuffer → Reader × ReadWriteBuffer
unfolding step
run [] s = s
run (e ∷ es) s = run es (step e s)

broadcast_ok :
    (p : Result ℕ × ReadWriteBuffer) (r : Reader) {n : ℕ} → p.0 ≡ ok n → broadcast p r ≡ wake r p.1
broadcast_ok (ok n, f) r e = refl
broadcast_ok (err x, f) r e = cc
broadcast_ok (panic, f) r e = cc

tried_again_some :
    (p : List ℕ × ReadWriteBuffer) → 0 < length p.0 → tried_again p ≡ (finished p.0, p.1)
tried_again_some (got, f) h = rw (lt→ltb 0 (length got) h)

tried_again_none :
    (p : List ℕ × ReadWriteBuffer) → length p.0 ≡ 0 → tried_again p ≡ (deadlocked, p.1)
tried_again_none (got, f) h = rw (le→ltb 0 (length got) (omega arith))

-- A `Write` that succeeds on an empty buffer: the reader's new try takes from its bytes.
new_try :
    (f : ReadWriteBuffer) (n : ℕ) (dat : List ℕ)
    → IsValid f
    → contents f ≡ []
    → (write f dat).0 ≡ ok (length dat)
    → (p : List ℕ × ReadWriteBuffer) × (step (writes dat) (asleep n, f) ≡ tried_again p)
      × (p.0 ≡ take n dat)
      × (contents p.1 ≡ drop n dat)
unfolding step
new_try f n dat v empty e = elim (write-Wrote f dat v) [
  | appended _ _ added v' _ _ ↦
      let f' = (write f dat).1 in
      let all : contents f' ≡ dat = added ∙ ap (λ t. t ++ dat) empty in
      let (got, left, _, _) = read_from_buf-Takes f' n v' in
      (
        read_from_buf f' n,
        broadcast_ok (write f dat) (asleep n) e,
        got ∙ ap (take n) all,
        left ∙ ap (drop n) all,
      )
  | refused_closed r _ _ ↦ cc
  | refused_full r _ _ _ ↦ cc
]

-- A `Write` of some bytes into an open buffer that is empty, where it succeeds, wakes the reader,
-- which returns the front of them and leaves the rest.
pub wake_by_write :
    (f : ReadWriteBuffer) (n : ℕ) (dat : List ℕ)
    → IsValid f
    → contents f ≡ []
    → 0 < n
    → 0 < length dat
    → (write f dat).0 ≡ ok (length dat)
    → ((step (writes dat) (asleep n, f)).0 ≡ finished (take n dat))
      × (contents (step (writes dat) (asleep n, f)).1 ≡ drop n dat)
wake_by_write f n dat v empty pos some e =
    let (p, runs, got, left) = new_try f n dat v empty e in
    let done = runs ∙ tried_again_some p (omega (arith, ap length got, length-take n dat)) in
    (ap (λ s. s.0) done ∙ ap finished got, ap (λ s. contents s.1) done ∙ left)

-- A closed buffer whose reader sleeps never wakes it: no `Write` and no `Close` that follows does.
pub asleep_for_ever :
    (es : List Event) (n : ℕ) (f : ReadWriteBuffer)
    → f.eof ≡ true
    → (run es (asleep n, f)).0 ≡ asleep n
unfolding run close
asleep_for_ever [] n f closed = refl
asleep_for_ever (writes dat ∷ es) n f closed =
    ap (λ p. (run es (broadcast p (asleep n))).0) (write_step f dat closed)
    ∙ asleep_for_ever es n f closed
asleep_for_ever (closes ∷ es) n f closed = asleep_for_ever es n (record f { eof = true }) refl

broadcast_deadlocked : (p : Result ℕ × ReadWriteBuffer) → broadcast p deadlocked ≡ (deadlocked, p.1)
unfolding wake
broadcast_deadlocked (ok n, f) = refl
broadcast_deadlocked (err x, f) = refl
broadcast_deadlocked (panic, f) = refl

still_deadlocked : (es : List Event) (f : ReadWriteBuffer) → (run es (deadlocked, f)).0 ≡ deadlocked
unfolding run
still_deadlocked [] f = refl
still_deadlocked (writes dat ∷ es) f =
    ap (λ s. (run es s).0) (broadcast_deadlocked (write f dat))
    ∙ still_deadlocked es (write f dat).1
still_deadlocked (closes ∷ es) f = still_deadlocked es (close f).1

-- A `Write` of no bytes to an open buffer that is empty puts a sleeping reader into a deadlock, and
-- nothing that follows ends it.
pub deadlock_for_ever :
    (es : List Event) (n : ℕ) (f : ReadWriteBuffer)
    → IsValid f
    → contents f ≡ []
    → f.eof ≡ false
    → (run (writes [] ∷ es) (asleep n, f)).0 ≡ deadlocked
deadlock_for_ever es n f v empty opened =
    let (e, _, _, _) = write_fits f [] opened (omega arith) in
    let (p, runs, got, left) = new_try f n [] v empty e in
    let none_got : length p.0 ≡ 0 = ap length (got ∙ take-nil {A = ℕ} n) in
    let done = runs ∙ tried_again_none p none_got in
    unfold run in (ap (λ s. (run es s).0) done ∙ still_deadlocked es p.1)
