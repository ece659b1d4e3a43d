-- ===== src/H1/Relay.antt =====
-- What the relay of a client copies, and what its end leaves.
use df.Prelude.{
  ℕ, suc, ◌+◌, ◌≤◌, ◌≡◌, refl, sym, ap, ◌∙◌, arith, true, false, List, [], ◌∷◌, ◌++◌, length, All,
  append-nil, append_assoc, length-append, length-take, lt→ltb, if◌then◌else◌,
}
use df.Io.{Result, ok, err, panic, Error, eof, buffer_write}
use df.Buffer.{ReadWriteBuffer, returned, buf_size, buf_size_max}
use df.Buffer
use df.Buffer.Queue.{IsValid, contents}
use df.Buffer.Room.{write-ok, write_appends}
use df.H1.Client.{
  Client, read, Event, got_chunk, sends, got_error, closes, failed, Relay, buffered, relay,
  relay_traffic,
}

-- An event that is data, for one side or the other.
pub data IsCopied : Event → Type 0 where
  down : (chunk : List ℕ) → IsCopied (got_chunk chunk)
  up : (chunk : List ℕ) → IsCopied (sends chunk)

-- The bytes read from the transport, and those to be written to it.
abbrev pub downs : List Event → List ℕ
downs [] = []
downs (got_chunk chunk ∷ es) = chunk ++ downs es
downs (sends chunk ∷ es) = downs es
downs (got_error e ∷ es) = downs es
downs (closes ∷ es) = downs es

abbrev pub ups : List Event → List ℕ
ups [] = []
ups (sends chunk ∷ es) = chunk ++ ups es
ups (got_chunk chunk ∷ es) = ups es
ups (got_error e ∷ es) = ups es
ups (closes ∷ es) = ups es

-- A client whose buffer takes bytes.
pub record IsOpen (c : Client) : Type 0 where
  pub valid : IsValid c.buf_read
  pub opened : c.buf_read.eof ≡ false
  pub running : c.closed ≡ false

-- Behind these events the relay goes on with the client of this state.
record Copied (c : Client) (es : List Event) : Type 0 where
  after_c : Client
  goes_on :
      (tail : List Event) (out : List ℕ)
      → relay buffer_write (es ++ tail) c out ≡ relay buffer_write tail after_c (out ++ ups es)
  whole : contents after_c.buf_read ≡ contents c.buf_read ++ downs es
  is_open : IsOpen after_c

length-contents : (f : ReadWriteBuffer) → IsValid f → length (contents f) ≡ f.buf_len
length-contents f v = omega (arith, length-take f.buf_len f.buf)

buffered_ok :
    (r : Result ℕ × ReadWriteBuffer) (c : Client) (out : List ℕ) (k : Client → List ℕ → Relay)
    {n : ℕ}
    → r.0 ≡ ok n
    → buffered r c out k ≡ k (record c { buf_read = r.1 }) out
buffered_ok (ok m, f) c out k e = refl
buffered_ok (err x, f) c out k e = cc
buffered_ok (panic, f) c out k e = cc

sends_step :
    (chunk : List ℕ) (es : List Event) (c : Client) (out : List ℕ)
    → relay buffer_write (sends chunk ∷ es) c out ≡ relay buffer_write es c (out ++ chunk)
unfolding relay buffer_write
sends_step [] es c out = ap (relay buffer_write es c) (sym (append-nil out))
sends_step (x ∷ chunk) es c out = rw (lt→ltb 0 (suc (length chunk)) (omega arith)) refl

got_step :
    (chunk : List ℕ) (es : List Event) (c : Client) (out : List ℕ)
    → (Buffer.write c.buf_read chunk).0 ≡ ok (length chunk)
    → relay buffer_write (got_chunk chunk ∷ es) c out
      ≡ relay buffer_write es (record c { buf_read = (Buffer.write c.buf_read chunk).1 }) out
unfolding relay
got_step chunk es c out e =
    buffered_ok (Buffer.write c.buf_read chunk) c out (relay buffer_write es) e

error_step :
    (e : Error) (es : List Event) (c : Client) (out : List ℕ)
    → relay buffer_write (got_error e ∷ es) c out ≡ (failed e, record c { closed = true }, out)
unfolding relay
error_step e es c out = refl

relay_traffic_open :
    (es : List Event) (c : Client) (out : List ℕ)
    → c.closed ≡ false
    → relay_traffic buffer_write es c out ≡ relay buffer_write es c out
unfolding relay_traffic
relay_traffic_open es c out h =
    ap (λ b. if b then (failed eof, c, out) else relay buffer_write es c out) h

copied :
    (es : List Event) (c : Client)
    → All IsCopied es
    → IsOpen c
    → c.buf_read.buf_len + length (downs es) + buf_size ≤ buf_size_max
    → Copied c es
copied [] c hs o room = record {
  after_c = c;
  goes_on = λ tail out. ap (relay buffer_write tail c) (sym (append-nil out));
  whole = sym (append-nil (contents c.buf_read));
  is_open = o;
}
copied (e ∷ es) c (up chunk, hs) o room =
    let r = copied es c hs o room in
    record {
      after_c = r.after_c;
      goes_on = λ tail out.
          sends_step chunk (es ++ tail) c out
          ∙ r.goes_on tail (out ++ chunk)
          ∙ ap (relay buffer_write tail r.after_c) (append_assoc out chunk (ups es));
      whole = r.whole;
      is_open = r.is_open;
    }
copied (e ∷ es) c (down chunk, hs) o room =
    let fits : c.buf_read.buf_len + length chunk + buf_size ≤ buf_size_max =
      omega (arith, length-append chunk (downs es)) in
    let (whole, v, opened) = write_appends c.buf_read chunk o.valid o.opened fits in
    let c' : Client = record c { buf_read = (Buffer.write c.buf_read chunk).1 } in
    let room' : c'.buf_read.buf_len + length (downs es) + buf_size ≤ buf_size_max = omega (
      arith,
      length-contents c.buf_read o.valid,
      length-contents c'.buf_read v,
      ap length whole,
      length-append (contents c.buf_read) chunk,
      length-append chunk (downs es),
    ) in
    let r = copied es c' hs (record { valid = v; opened = opened; running = o.running }) room' in
    record {
      after_c = r.after_c;
      goes_on = λ tail out.
          got_step chunk (es ++ tail) c out (write-ok c.buf_read chunk o.opened fits)
          ∙ r.goes_on tail out;
      whole =
          r.whole
          ∙ ap (λ t. t ++ downs es) whole
          ∙ append_assoc (contents c.buf_read) chunk (downs es);
      is_open = r.is_open;
    }

-- A client relays data in both directions, in any order, until its transport ends: what `Write` sent has
-- been written in order, and what came from the transport stands in order in the buffer, behind what it
-- held, as far as that leaves a block of the maximum. From then on `Read` returns `io.EOF`, whatever is
-- left in the buffer.
pub relay_ends :
    (es more : List Event) (e : Error) (c : Client) (n : ℕ)
    → All IsCopied es
    → IsOpen c
    → c.buf_read.buf_len + length (downs es) + buf_size ≤ buf_size_max
    → (c' : Client) × (relay_traffic buffer_write (es ++ got_error e ∷ more) c []
        ≡ (failed e, c', ups es))
      × (contents c'.buf_read ≡ contents c.buf_read ++ downs es)
      × (read c' n ≡ (returned (err eof), c'))
unfolding read
relay_ends es more e c n hs o room =
    let r = copied es c hs o room in
    let c' : Client = record r.after_c { closed = true } in
    (
      c',
      relay_traffic_open (es ++ got_error e ∷ more) c [] o.running
          ∙ r.goes_on (got_error e ∷ more) []
          ∙ error_step e more r.after_c (ups es),
      r.whole,
      refl,
    )
