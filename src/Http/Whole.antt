-- ===== src/Http/Whole.antt =====
-- What `ReadResponse` makes of whole lines.
use df.Prelude.{
  ℕ, zero, suc, ◌+◌, ◌<◌, ◌≡◌, refl, ap, ◌∙◌, arith, Bool, true, false, not, ◌==◌, ◌&&◌, List, [],
  ◌∷◌, ◌++◌, length, All, length-append, append_assoc, some,
}
use df.Io.{Result, ok, err, panic, and_then}
use df.Conf.{Strconv}
use df.Http.{
  Names, Response, cut_line, split_at, set_header, Lines, take_line, go_on, take_lines,
  parse_header_line,
}
use df.Http.Chunks.{finished}

-- Lines as they are written, with "\r\n" behind each.
unfoldable pub with_crlf : List (List ℕ) → List ℕ
with_crlf [] = []
with_crlf (line ∷ lines) = line ++ (13 ∷ 10 ∷ with_crlf lines)

-- A text without a byte.
abbrev pub lacks : ℕ → List ℕ → Bool
lacks sep [] = true
lacks sep (x ∷ xs) = not (x == sep) && lacks sep xs

pub split_at-found :
    (sep : ℕ) (front rest : List ℕ)
    → lacks sep front ≡ true
    → split_at sep (front ++ sep ∷ rest) ≡ some (front, rest)
unfolding split_at
split_at-found sep [] rest h = ground arith
split_at-found sep (x ∷ front) rest h =
    let (other, h') = differs x sep (lacks sep front) h in
    rw other (rw (split_at-found sep front rest h') refl)
  where
    differs :
        (x sep : ℕ) (b : Bool) → not (x == sep) && b ≡ true → ((x == sep) ≡ false) × (b ≡ true)
    differs x sep b h = ground arith

not_crlf :
    (x y : ℕ) (b : Bool) → not (x == 13) && b ≡ true → ((x == 13 && y == 10) ≡ false) × (b ≡ true)
not_crlf x y b h = ground arith

pub cut_line-whole :
    (line s : List ℕ) → lacks 13 line ≡ true → cut_line (line ++ (13 ∷ 10 ∷ s)) ≡ some (line, s)
unfolding cut_line
cut_line-whole [] s h = refl
cut_line-whole (x ∷ []) s h = rw (not_crlf x 13 true h).0 refl
cut_line-whole (x ∷ y ∷ line) s h =
    let (no_end, rest) = not_crlf x y (lacks 13 (y ∷ line)) h in
    rw no_end (rw (cut_line-whole (y ∷ line) s rest) refl)

-- A line with bytes, and no end of line in it.
abbrev pub IsLine : List ℕ → Type 0
IsLine line = (0 < length line) × (lacks 13 line ≡ true)

-- A header's line has a colon.
abbrev pub IsHeader : List ℕ → Type 0
IsHeader line = (name value : List ℕ) × (split_at 58 line ≡ some (name, value))

module _ (conv : Strconv) (names : Names) where
  -- The lines of a header, one after the other.
  abbrev pub taken : List (List ℕ) → Response → ℕ → Result Response
  taken [] rs i = ok rs
  taken (line ∷ lines) rs i =
      and_then (take_line conv names i line rs) λ rs'. taken lines rs' (suc i)

  finished-go_on :
      (r : Result Response) (k : Response → Lines) (k' : Response → Result Response)
      → ((rs : Response) → finished (k rs) ≡ k' rs)
      → finished (go_on conv names r k) ≡ and_then r k'
  finished-go_on (ok rs) k k' h = h rs
  finished-go_on (err e) k k' h = refl
  finished-go_on panic k k' h = refl

  on_line-whole :
      (f : ℕ) (line s : List ℕ) (rs : Response) (i : ℕ) (k' : Response → Result Response)
      → IsLine line
      → ((rs' : Response) → finished (take_lines conv names f s rs' (suc i)) ≡ k' rs')
      → finished (take_lines conv names (suc f) (line ++ (13 ∷ 10 ∷ s)) rs i)
        ≡ and_then (take_line conv names i line rs) k'
  unfolding take_lines
  on_line-whole f [] s rs i k' (some_bytes, plain) h = absurd (omega arith)
  on_line-whole f (x ∷ line) s rs i k' (some_bytes, plain) h =
      rw (cut_line-whole (x ∷ line) s plain) (
        finished-go_on (take_line conv names i (x ∷ line) rs)
          (λ rs'. take_lines conv names f s rs' (suc i)) k' h)

  -- Lines that end in the empty one.
  pub take_lines-whole :
      (lines : List (List ℕ)) (rest : List ℕ) (f : ℕ) (rs : Response) (i : ℕ)
      → All IsLine lines
      → length (with_crlf lines ++ (13 ∷ 10 ∷ rest)) < f
      → finished (take_lines conv names f (with_crlf lines ++ (13 ∷ 10 ∷ rest)) rs i)
        ≡ taken lines rs i
  unfolding take_lines with_crlf
  take_lines-whole lines rest zero rs i hs enough = absurd (omega arith)
  take_lines-whole [] rest (suc f) rs i hs enough = unfold cut_line in refl
  take_lines-whole (line ∷ lines) rest (suc f) rs i (h, hs) enough =
      let s = with_crlf lines ++ (13 ∷ 10 ∷ rest) in
      rw (append_assoc line (13 ∷ 10 ∷ with_crlf lines) (13 ∷ 10 ∷ rest)) (
        on_line-whole f line s rs i (λ rs'. taken lines rs' (suc i)) h
          (λ rs'. take_lines-whole lines rest f rs' (suc i) hs (
            omega (
              arith,
              length-append line (13 ∷ 10 ∷ with_crlf lines),
              length-append (line ++ (13 ∷ 10 ∷ with_crlf lines)) (13 ∷ 10 ∷ rest),
              length-append (with_crlf lines) (13 ∷ 10 ∷ rest),
            ))))

  -- The lines of headers set values and leave the status.
  pub taken-IsHeader :
      (lines more : List (List ℕ)) (rs : Response) (i : ℕ)
      → All IsHeader lines
      → (rs' : Response) × (taken (lines ++ more) rs (suc i)
          ≡ taken more rs' (suc (i + length lines)))
        × (rs'.status_code ≡ rs.status_code)
  unfolding take_line parse_header_line
  taken-IsHeader [] more rs i hs = (rs, ap (taken more rs) (omega arith), refl)
  taken-IsHeader (line ∷ lines) more rs i ((name, value, colon), hs) =
      let set = set_header names (names.trim_space name) (names.trim_space value) rs in
      let (rs', e, same) = taken-IsHeader lines more set (suc i) hs in
      (rs', rw colon (e ∙ ap (taken more rs') (omega arith)), same)
