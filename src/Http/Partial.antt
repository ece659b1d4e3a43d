-- ===== src/Http/Partial.antt =====
-- The lines of a buffer, and what more bytes behind it change.
use df.Prelude.{
  ap, ap₂, ℕ, zero, suc, ◌+◌, ◌<◌, ◌≡◌, inl, inr, refl, sym, ◌∙◌, arith, Bool-cases, ◌==◌, ◌&&◌,
  List, [], ◌∷◌, ◌++◌, length, length-append, Option, none, some,
}
use df.Io.{Result, ok, err, panic}
use df.Conf.{Strconv}
use df.Http.{
  Names, Response, before, cut_line, Lines, need_more, complete, failed, panicked, out_of_fuel,
  take_line, go_on, on_line, take_lines,
}

pub before-eq :
    (x : ℕ) (o : Option (List ℕ × List ℕ)) {l r : List ℕ}
    → before x o ≡ some (l, r)
    → (front : List ℕ) × (o ≡ some (front, r)) × (l ≡ x ∷ front)
before-eq x none e = cc
before-eq x (some (front, rest)) e = (front, cc, cc)

-- A line that is found is found with more bytes behind it, too.
pub cut_line-append :
    (s t : List ℕ) {l r : List ℕ}
    → cut_line s ≡ some (l, r)
    → (cut_line (s ++ t) ≡ some (l, r ++ t)) × (length s ≡ length l + 2 + length r)
unfolding cut_line
cut_line-append [] t e = cc
cut_line-append (x ∷ []) t e = cc
cut_line-append (x ∷ y ∷ s) t {l} {r} e = elim (Bool-cases (x == 13 && y == 10)) [
  | inl crlf ↦
      let found : ◌≡◌ {A = Option (List ℕ × List ℕ)} (some ([], s)) (some (l, r)) =
        sym (rw crlf refl) ∙ e in
      let empty : [] ≡ l = cc in
      let rest : s ≡ r = cc in
      rw crlf
        ((ap₂ (λ a b. some (a, b ++ t)) empty rest, omega (arith, ap length empty, ap length rest)))
  | inr other ↦
      let later : before x (cut_line (y ∷ s)) ≡ some (l, r) = sym (rw other refl) ∙ e in
      let (front, o, whole) = before-eq x (cut_line (y ∷ s)) later in
      let (o', size) = cut_line-append (y ∷ s) t o in
      rw other (rw (o', whole) (refl, omega (arith, size)))
]

-- What the lines of a buffer come to when more bytes stand behind it.
abbrev pub continued : Strconv → Names → Lines → List ℕ → Lines
continued conv names (need_more buf rs i) t =
    take_lines conv names (suc (length (buf ++ t))) (buf ++ t) rs i
continued conv names (complete rs buf) t = complete rs (buf ++ t)
continued conv names (failed e) t = failed e
continued conv names panicked t = panicked
continued conv names out_of_fuel t = out_of_fuel

module _ (conv : Strconv) (names : Names) where
  on_line-fuel :
      (f f' : ℕ) (o : Option (List ℕ × List ℕ)) (buf : List ℕ) (rs : Response) (i : ℕ)
      → ((rs' : Response) (l b : List ℕ)
          → o ≡ some (l, b)
          → take_lines conv names f b rs' (suc i) ≡ take_lines conv names f' b rs' (suc i))
      → on_line conv names o buf rs i (take_lines conv names f)
        ≡ on_line conv names o buf rs i (take_lines conv names f')
  on_line-fuel f f' none buf rs i h = refl
  on_line-fuel f f' (some ([], b)) buf rs i h = refl
  on_line-fuel f f' (some (x ∷ line, b)) buf rs i h = same (take_line conv names i (x ∷ line) rs)
    where
      same :
          (r : Result Response)
          → go_on conv names r (λ rs'. take_lines conv names f b rs' (suc i))
            ≡ go_on conv names r (λ rs'. take_lines conv names f' b rs' (suc i))
      same (ok rs') = h rs' (x ∷ line) b refl
      same (err e) = refl
      same panic = refl

  take_lines-fuel :
      (f f' : ℕ) (buf : List ℕ) (rs : Response) (i : ℕ)
      → length buf < f
      → length buf < f'
      → take_lines conv names f buf rs i ≡ take_lines conv names f' buf rs i
  unfolding take_lines
  take_lines-fuel zero f' buf rs i h h' = absurd (omega arith)
  take_lines-fuel (suc f) zero buf rs i h h' = absurd (omega arith)
  take_lines-fuel (suc f) (suc f') buf rs i h h' =
      on_line-fuel f f' (cut_line buf) buf rs i λ rs' l b e.
        let (_, size) = cut_line-append buf [] e in
        take_lines-fuel f f' b rs' (suc i) (omega (arith, size)) (omega (arith, size))

  go_on-continued :
      (t : List ℕ) (r : Result Response) (k k' : Response → Lines)
      → ((rs : Response) → k' rs ≡ continued conv names (k rs) t)
      → go_on conv names r k' ≡ continued conv names (go_on conv names r k) t
  go_on-continued t (ok rs) k k' h = h rs
  go_on-continued t (err e) k k' h = refl
  go_on-continued t panic k k' h = refl

  on_line-append :
      (f f' : ℕ) (buf t : List ℕ) (rs : Response) (i : ℕ)
      → length buf < suc f
      → length (buf ++ t) < suc f'
      → ((b : List ℕ) (rs' : Response)
          → length b < f
          → length (b ++ t) < f'
          → take_lines conv names f' (b ++ t) rs' (suc i)
            ≡ continued conv names (take_lines conv names f b rs' (suc i)) t)
      → (o : Option (List ℕ × List ℕ)) → cut_line buf ≡ o
      → take_lines conv names (suc f') (buf ++ t) rs i
        ≡ continued conv names (on_line conv names o buf rs i (take_lines conv names f)) t
  unfolding take_lines
  on_line-append f f' buf t rs i h h' ih none e =
      take_lines-fuel (suc f') (suc (length (buf ++ t))) (buf ++ t) rs i h' (omega arith)
  on_line-append f f' buf t rs i h h' ih (some ([], b)) e = rw ((cut_line-append buf t e).0) refl
  on_line-append f f' buf t rs i h h' ih (some (x ∷ line, b)) e =
      let (e', size) = cut_line-append buf t e in
      rw e' (
        go_on-continued t (take_line conv names i (x ∷ line) rs)
          (λ rs'. take_lines conv names f b rs' (suc i))
          (λ rs'. take_lines conv names f' (b ++ t) rs' (suc i))
          (λ rs'.
            ih b rs' (omega (arith, size))
              (omega (arith, size, length-append b t, length-append buf t))))

  pub take_lines-append :
      (f f' : ℕ) (buf t : List ℕ) (rs : Response) (i : ℕ)
      → length buf < f
      → length (buf ++ t) < f'
      → take_lines conv names f' (buf ++ t) rs i
        ≡ continued conv names (take_lines conv names f buf rs i) t
  unfolding take_lines
  take_lines-append zero f' buf t rs i h h' = absurd (omega arith)
  take_lines-append (suc f) zero buf t rs i h h' = absurd (omega arith)
  take_lines-append (suc f) (suc f') buf t rs i h h' =
      on_line-append f f' buf t rs i h h'
        (λ b rs' k k'. take_lines-append f f' b t rs' (suc i) k k') (cut_line buf) refl
