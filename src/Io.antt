-- ===== src/Io.antt =====
-- Results of Go code, and readers and writers over a byte stream.
use df.Prelude.{
  ℕ, ◌+◌, ◌≡◌, refl, List, [], ◌++◌, length, take, drop, leb, ◌==◌, if◌then◌else◌, le→leb,
  length-append, take-append, drop-append, arith, length-take, length-drop,
}

-- The errors that the modelled code returns. A number is the byte that the message names.
pub data Error : Type 0 where
  eof unexpected_eof short_buffer closed_already timed_out : Error
  wrong_type unknown_kind wrong_key_size : ℕ → Error
  json_failed illegal_header invalid_op meta_too_large data_too_large : Error
  mask_error wrong_version server_failed handshake_failed bad_address empty_key not_base64 : Error

-- What a Go call comes to: a value with a nil error, an error, or a run-time panic.
pub data Result {ℓ} (A : Type ℓ) : Type ℓ where
  ok : A → Result A
  err : Error → Result A
  panic : Result A

abbrev pub and_then {ℓ κ} : {A : Type ℓ} {B : Type κ} → Result A → (A → Result B) → Result B
and_then (ok a) f = f a
and_then (err e) f = err e
and_then panic f = panic

-- A computation over the bytes of a stream: those still to be read, or those written so far.
abbrev pub Io : Type 0 → Type 0
Io A = List ℕ → Result A × List ℕ

abbrev pub pure : {A : Type 0} → A → Io A
pure a s = (ok a, s)

abbrev pub fail : {A : Type 0} → Error → Io A
fail e s = (err e, s)

abbrev pub lift : {A : Type 0} → Result A → Io A
lift r s = (r, s)

abbrev pub after : {A B : Type 0} → Result A × List ℕ → (A → Io B) → Result B × List ℕ
after (ok a, s) f = f a s
after (err e, s) f = (err e, s)
after (panic, s) f = (panic, s)

infixl 5 ◌>>=◌ ◌>>◌
abbrev pub ◌>>=◌ : {A B : Type 0} → Io A → (A → Io B) → Io B
◌>>=◌ m f s = after (m s) f

abbrev pub ◌>>◌ : {A B : Type 0} → Io A → Io B → Io B
◌>>◌ m k = m >>= λ _. k

-- `io.ReadFull` into a buffer of `n` bytes. The end of the list is the end of the stream.
unfoldable pub read_full : ℕ → Io (List ℕ)
read_full n s =
    if leb n (length s)
    then (ok (take n s), drop n s)
    else (if length s == 0 then (err eof, []) else (err unexpected_eof, []))

-- `Write` of a `bytes.Buffer`: all of the bytes are appended.
unfoldable pub buffer_write : List ℕ → Io ℕ
buffer_write dat s = (ok (length dat), s ++ dat)

pub read_full-append :
    (n : ℕ) (xs ys : List ℕ) → length xs ≡ n → read_full n (xs ++ ys) ≡ (ok xs, ys)
unfolding read_full
read_full-append n xs ys h =
    rw (le→leb n (length (xs ++ ys)) (omega (arith, length-append xs ys)))
      (rw (take-append n xs ys h, drop-append n xs ys h))

-- A full read takes exactly the bytes that it returns off the front.
pub read_full-ok :
    (n : ℕ) (s : List ℕ) {xs t : List ℕ}
    → read_full n s ≡ (ok xs, t)
    → (length xs ≡ n) × (length s ≡ n + length t)
unfolding read_full
read_full-ok n s e = ground (arith, length-take n s, length-drop n s)

-- A successful chain: its first part succeeded, and so did the rest from there.
pub after-eq-ok :
    {A B : Type 0} (r : Result A × List ℕ) (f : A → Io B) {b : B} {t : List ℕ}
    → after r f ≡ (ok b, t)
    → (a : A) × (s : List ℕ) × (r ≡ (ok a, s)) × (f a s ≡ (ok b, t))
after-eq-ok (ok a, s) f e = (a, s, refl, e)
after-eq-ok (err x, s) f e = cc
after-eq-ok (panic, s) f e = cc
