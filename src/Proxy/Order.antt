-- ===== src/Proxy/Order.antt =====
-- Each direction is copied in order.
use df.Prelude.{
  flat, flat-append, ℕ, ◌≡◌, refl, sym, ap, ◌∙◌, Bool, true, false, not, List, [], ◌∷◌, ◌++◌, take,
  drop, append-nil, append_assoc, take-append-drop,
}
use df.Proxy.{
  Pipe, Proxy, Fill, fills, Drain, drains, Step, fill_down, fill_up, end_down, end_up, drain_down,
  drain_up, fail_up, fail_down, takes_error, stops_up, Reach, here, next,
}

-- Of the bytes `all`, the pipe holds what it has not written; or its writer has ended, and some are lost.
data Holds (all : List ℕ) (p : Pipe) (writing : Bool) : Type 0 where
  flows : all ≡ p.written ++ (flat p.channel ++ flat p.source) → Holds all p writing
  cut : (more : List ℕ) → writing ≡ false → all ≡ p.written ++ more → Holds all p writing

Fill-Holds :
    (all : List ℕ) {p q : Pipe} (writing : Bool)
    → Fill p q
    → Holds all p writing
    → Holds all q writing
Fill-Holds all {p} writing (fills chunk rest r e room) (flows h) = flows (
    h
    ∙ ap (λ t. p.written ++ t)
        (ap (λ t. flat p.channel ++ flat t) e
          ∙ sym (append_assoc (flat p.channel) chunk (flat rest))
          ∙ ap (λ t. t ++ flat rest)
              (sym (
                flat-append p.channel (chunk ∷ [])
                ∙ ap (λ t. flat p.channel ++ t) (append-nil chunk)))))
Fill-Holds all {p} writing (fills chunk rest r e room) (cut more w h) = cut more w h

Drain-Holds :
    (all : List ℕ) {p q : Pipe} (writing : Bool)
    → writing ≡ true
    → Drain p q
    → Holds all p writing
    → Holds all q writing
Drain-Holds all {p} writing w (drains chunk rest e) (flows h) = flows (
    h
    ∙ ap (λ t. p.written ++ (flat t ++ flat p.source)) e
    ∙ ap (λ t. p.written ++ t) (append_assoc chunk (flat rest) (flat p.source))
    ∙ sym (append_assoc p.written chunk (flat rest ++ flat p.source)))
Drain-Holds all {p} writing w (drains chunk rest e) (cut more w' h) = cc

-- A write that fails has written a front of its chunk.
failed-Holds :
    (all : List ℕ) (p : Pipe) (writing : Bool) (n : ℕ) (chunk : List ℕ) (rest : List (List ℕ))
    → writing ≡ true
    → p.channel ≡ chunk ∷ rest
    → Holds all p writing
    → Holds all (record p { channel = rest; written = p.written ++ take n chunk }) false
failed-Holds all p writing n chunk rest w e (flows h) =
    let left = flat rest ++ flat p.source in
    cut (drop n chunk ++ left) refl (
      h
      ∙ ap (λ t. p.written ++ (flat t ++ flat p.source)) e
      ∙ ap (λ t. p.written ++ t)
          (append_assoc chunk (flat rest) (flat p.source)
            ∙ ap (λ t. t ++ left) (sym (take-append-drop n chunk))
            ∙ append_assoc (take n chunk) (drop n chunk) left)
      ∙ sym (append_assoc p.written (take n chunk) (drop n chunk ++ left)))
failed-Holds all p writing n chunk rest w e (cut more w' h) = cc

ended-Holds : (all : List ℕ) (p : Pipe) (writing : Bool) → Holds all p writing → Holds all p false
ended-Holds all p writing (flows h) = flows h
ended-Holds all p writing (cut more w h) = cut more refl h

quiet-Holds :
    (all : List ℕ) (p : Pipe) (writing : Bool)
    → Holds all p writing
    → Holds all (record p { reading = false }) writing
quiet-Holds all p writing (flows h) = flows h
quiet-Holds all p writing (cut more w h) = cut more w h

abbrev Both : List ℕ → List ℕ → Proxy → Type 0
Both down up s = Holds down s.down (not s.returned) × Holds up s.up s.writing_up

Step-Both : (down up : List ℕ) {s t : Proxy} → Step s t → Both down up s → Both down up t
Step-Both down up {s} (fill_down f) (h, k) = (Fill-Holds down (not s.returned) f h, k)
Step-Both down up {s} (fill_up f) (h, k) = (h, Fill-Holds up s.writing_up f k)
Step-Both down up {s} (end_down r) (h, k) = (quiet-Holds down s.down (not s.returned) h, k)
Step-Both down up {s} (end_up r) (h, k) = (h, quiet-Holds up s.up s.writing_up k)
Step-Both down up {s} (drain_down r d) (h, k) =
    (Drain-Holds down (not s.returned) (ap not r) d h, k)
Step-Both down up {s} (drain_up w d) (h, k) = (h, Drain-Holds up s.writing_up w d k)
Step-Both down up {s} (fail_up n chunk rest w e) (h, k) =
    (h, failed-Holds up s.up s.writing_up n chunk rest w e k)
Step-Both down up {s} (fail_down n chunk rest r e) (h, k) =
    (failed-Holds down s.down (not s.returned) n chunk rest (ap not r) e h, k)
Step-Both down up {s} (takes_error r e) (h, k) = (ended-Holds down s.down (not s.returned) h, k)
Step-Both down up {s} (stops_up r w) (h, k) = (h, ended-Holds up s.up s.writing_up k)

Reach-Both : (down up : List ℕ) {s t : Proxy} → Reach s t → Both down up s → Both down up t
Reach-Both down up here h = h
Reach-Both down up (next r step) h = Step-Both down up step (Reach-Both down up r h)

written_front :
    (all : List ℕ) (p : Pipe) (writing : Bool)
    → Holds all p writing
    → (more : List ℕ) × (all ≡ p.written ++ more)
written_front all p writing (flows h) = (flat p.channel ++ flat p.source, h)
written_front all p writing (cut more w h) = (more, h)

-- A pipe that has copied nothing.
pub record IsFresh (p : Pipe) : Type 0 where
  pub no_chunks : p.channel ≡ []
  pub no_bytes : p.written ≡ []

-- From a start with empty channels, whatever the schedule and whichever reads and writes fail: what has
-- been written in each direction is a front of what that direction's source gives.
pub copied_in_order :
    {s t : Proxy}
    → IsFresh s.down
    → IsFresh s.up
    → Reach s t
    → ((more : List ℕ) × (flat s.down.source ≡ t.down.written ++ more))
      × ((more : List ℕ) × (flat s.up.source ≡ t.up.written ++ more))
copied_in_order {s} {t} h k r =
    let start : Both (flat s.down.source) (flat s.up.source) s =
      (flows (rw (h.no_chunks, h.no_bytes) refl), flows (rw (k.no_chunks, k.no_bytes) refl)) in
    let (down, up) = Reach-Both (flat s.down.source) (flat s.up.source) r start in
    (
      written_front (flat s.down.source) t.down (not t.returned) down,
      written_front (flat s.up.source) t.up t.writing_up up,
    )
