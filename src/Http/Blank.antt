-- ===== src/Http/Blank.antt =====
-- Where the lines of a header end.
use df.Prelude.{
  ℕ, zero, suc, ◌<◌, ◌≡◌, ◌==◌, ◌&&◌, not, Bool, Bool-cases, inl, inr, true, false, refl, sym, ap,
  ap₂, ◌∙◌, arith, List, [], ◌∷◌, ◌++◌, length, All, append-nil, append_assoc, length-append,
  Option, none, some,
}
use df.Http.{before, cut_line}
use df.Http.Partial.{before-eq}
use df.Http.Whole.{lacks, with_crlf, cut_line-whole, IsLine}
use df.Http.Header.{split_lines, cut_blank}

-- More bytes behind the header do not change where it ends.
pub cut_blank-append :
    (s t : List ℕ) {l r : List ℕ}
    → cut_blank s ≡ some (l, r)
    → cut_blank (s ++ t) ≡ some (l, r ++ t)
unfolding cut_blank
cut_blank-append [] t e = cc
cut_blank-append (a ∷ []) t e = cc
cut_blank-append (a ∷ b ∷ []) t e = cc
cut_blank-append (a ∷ b ∷ c ∷ []) t e = cc
cut_blank-append (a ∷ b ∷ c ∷ d ∷ s) t {l} {r} e =
    elim (Bool-cases (a == 13 && b == 10 && c == 13 && d == 10)) [
      | inl blank ↦
          let found : ◌≡◌ {A = Option (List ℕ × List ℕ)} (some ([], s)) (some (l, r)) =
            sym (rw blank refl) ∙ e in
          let empty : [] ≡ l = cc in
          let rest : s ≡ r = cc in rw blank (ap₂ (λ x y. some (x, y ++ t)) empty rest)
      | inr other ↦
          let later : before a (cut_blank (b ∷ c ∷ d ∷ s)) ≡ some (l, r) =
            sym (rw other refl) ∙ e in
          let (front, o, whole) = before-eq a (cut_blank (b ∷ c ∷ d ∷ s)) later in
          rw other (rw (cut_blank-append (b ∷ c ∷ d ∷ s) t o, whole) refl)
    ]

-- The header does not end at a byte that is not 13.
cut_blank-step :
    (x : ℕ) (u : List ℕ) {l r : List ℕ}
    → (x == 13) ≡ false
    → cut_blank u ≡ some (l, r)
    → cut_blank (x ∷ u) ≡ some (x ∷ l, r)
unfolding cut_blank
cut_blank-step x [] h e = cc
cut_blank-step x (a ∷ []) h e = cc
cut_blank-step x (a ∷ b ∷ []) h e = cc
cut_blank-step x (a ∷ b ∷ c ∷ u) h e = rw h (rw e refl)

-- An end of line in front of a line is not the end.
cut_blank-crlf :
    (y : ℕ) (u : List ℕ) {l r : List ℕ}
    → (y == 13) ≡ false
    → cut_blank (y ∷ u) ≡ some (l, r)
    → cut_blank (13 ∷ 10 ∷ y ∷ u) ≡ some (13 ∷ 10 ∷ l, r)
cut_blank-crlf y [] h e = unfold cut_blank in cc
cut_blank-crlf y (d ∷ u) h e =
    let inner = cut_blank-step 10 (y ∷ d ∷ u) refl e in
    unfold cut_blank in rw h (ap (before 13) inner)

-- The lines without the last end of line.
unfoldable pub join : List ℕ → List (List ℕ) → List ℕ
join line [] = line
join line (next ∷ lines) = line ++ (13 ∷ 10 ∷ join next lines)

pub with_crlf-join :
    (line : List ℕ) (lines : List (List ℕ))
    → with_crlf (line ∷ (lines ++ [] ∷ [])) ≡ join line lines ++ (13 ∷ 10 ∷ 13 ∷ 10 ∷ [])
unfolding with_crlf join
with_crlf-join line [] = refl
with_crlf-join line (next ∷ lines) =
    ap (λ t. line ++ (13 ∷ 10 ∷ t)) (with_crlf-join next lines)
    ∙ sym (append_assoc line (13 ∷ 10 ∷ join next lines) (13 ∷ 10 ∷ 13 ∷ 10 ∷ []))

not_cr : (x : ℕ) (b : Bool) → not (x == 13) && b ≡ true → ((x == 13) ≡ false) × (b ≡ true)
not_cr x b h = ground arith

cut_line-none : (line : List ℕ) → lacks 13 line ≡ true → cut_line line ≡ none
unfolding cut_line
cut_line-none [] h = refl
cut_line-none (x ∷ []) h = refl
cut_line-none (x ∷ y ∷ line) h =
    let (other, rest) = not_cr x (lacks 13 (y ∷ line)) h in
    rw other (ap (before x) (cut_line-none (y ∷ line) rest))

pub split_lines-join :
    (line : List ℕ) (lines : List (List ℕ)) (fuel : ℕ)
    → lacks 13 line ≡ true
    → All IsLine lines
    → length (join line lines) < fuel
    → split_lines fuel (join line lines) ≡ line ∷ lines
unfolding split_lines join
split_lines-join line lines zero h hs enough = absurd (omega arith)
split_lines-join line [] (suc fuel) h hs enough = rw (cut_line-none line h) refl
split_lines-join line (next ∷ lines) (suc fuel) h ((some_bytes, plain), hs) enough =
    rw (cut_line-whole line (join next lines) h) (
      ap (λ t. line ∷ t)
        (split_lines-join next lines fuel plain hs
          (omega (arith, length-append line (13 ∷ 10 ∷ join next lines)))))

-- Within a line nothing ends.
cut_blank-line :
    (line s : List ℕ) {l r : List ℕ}
    → lacks 13 line ≡ true
    → cut_blank s ≡ some (l, r)
    → cut_blank (line ++ s) ≡ some (line ++ l, r)
cut_blank-line [] s h e = e
cut_blank-line (x ∷ line) s h e =
    let (other, rest) = not_cr x (lacks 13 line) h in
    cut_blank-step x (line ++ s) other (cut_blank-line line s rest e)

join-front :
    (y : ℕ) (next : List ℕ) (lines : List (List ℕ)) → join (y ∷ next) lines ≡ y ∷ join next lines
unfolding join
join-front y next [] = refl
join-front y next (line ∷ lines) = refl

pub cut_blank-join :
    (line : List ℕ) (lines : List (List ℕ)) (extra : List ℕ)
    → lacks 13 line ≡ true
    → All IsLine lines
    → cut_blank (join line lines ++ (13 ∷ 10 ∷ 13 ∷ 10 ∷ extra)) ≡ some (join line lines, extra)
unfolding join
cut_blank-join line [] extra h hs =
    let end : cut_blank (13 ∷ 10 ∷ 13 ∷ 10 ∷ extra) ≡ some ([], extra) = unfold cut_blank in refl in
    cut_blank-line line (13 ∷ 10 ∷ 13 ∷ 10 ∷ extra) h end
    ∙ ap (λ t. some (t, extra)) (append-nil line)
cut_blank-join line ([] ∷ lines) extra h ((some_bytes, plain), hs) = absurd (omega arith)
cut_blank-join line ((y ∷ next) ∷ lines) extra h ((some_bytes, plain), hs) =
    let (other, _) = not_cr y (lacks 13 next) plain in
    let end = 13 ∷ 10 ∷ 13 ∷ 10 ∷ extra in
    let front = join-front y next lines in
    let later : cut_blank (y ∷ (join next lines ++ end)) ≡ some (y ∷ join next lines, extra) =
      ap (λ t. cut_blank (t ++ end)) (sym front)
      ∙ cut_blank-join (y ∷ next) lines extra plain hs
      ∙ ap (λ t. some (t, extra)) front in
    let from_end : cut_blank (13 ∷ 10 ∷ (join (y ∷ next) lines ++ end))
        ≡ some (13 ∷ 10 ∷ join (y ∷ next) lines, extra) =
      rw front (cut_blank-crlf y (join next lines ++ end) other later) in
    ap cut_blank (append_assoc line (13 ∷ 10 ∷ join (y ∷ next) lines) end)
    ∙ cut_blank-line line (13 ∷ 10 ∷ (join (y ∷ next) lines ++ end)) h from_end
