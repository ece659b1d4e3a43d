-- ===== src/Log/Format.antt =====
-- A format as pieces of text and variables.
use df.Prelude.{
  ℕ, suc, Bool-cases, inl, inr, ==_iff, ◌<◌, ◌≡◌, ◌==◌, ◌||◌, not, refl, sym, ap, ◌∙◌, arith, ◌≢◌,
  append-nil, Bool, true, false, List, [], ◌∷◌, ◌++◌, length, All, append_assoc, none, some, lt→ltb,
}
use df.Log.{LogMessage, Texts, is_word, value_of, replace_all}

-- A piece of a format: text, or a variable of this name, with a star behind it or not.
pub data Piece : Type 0 where
  plain : ℕ → Piece
  variable starred : List ℕ → Piece

abbrev pub IsName : List ℕ → Type 0
IsName key = (0 < length key) × All (λ c. is_word c ≡ true) key

-- A variable without a star ends in front of what is neither a letter nor a star.
abbrev pub ends_at : List Piece → Bool
ends_at [] = true
ends_at (plain c ∷ ps) = not (is_word c || c == b'*')
ends_at (variable key ∷ ps) = true
ends_at (starred key ∷ ps) = true

abbrev pub ArePieces : List Piece → Type 0
ArePieces [] = Unit
ArePieces (plain c ∷ ps) = (c ≢ b'$') × ArePieces ps
ArePieces (variable key ∷ ps) = IsName key × (ends_at ps ≡ true) × ArePieces ps
ArePieces (starred key ∷ ps) = IsName key × ArePieces ps

-- The pieces, as they are written.
abbrev pub written : List Piece → List ℕ
written [] = []
written (plain c ∷ ps) = c ∷ written ps
written (variable key ∷ ps) = b'$' ∷ (key ++ written ps)
written (starred key ∷ ps) = b'$' ∷ (key ++ (b'*' ∷ written ps))

other : (c d : ℕ) → c ≢ d → (c == d) ≡ false
other c d k = elim (Bool-cases (c == d)) [
  | inl same ↦ absurd (k ((==_iff c d).0 same))
  | inr differ ↦ differ
]

apart :
    (w : Bool) (c : ℕ)
    → not (w || c == b'*') ≡ true
    → c ≢ b'$'
    → (w ≡ false) × ((c == b'*') ≡ false) × ((c == b'$') ≡ false)
apart true c h k = cc
apart false c h k = elim (Bool-cases (c == b'*')) [
  | inl star ↦ cc (rw star at h)
  | inr differs ↦ (refl, differs, other c b'$' k)
]

module _ (texts : Texts) (msg : LogMessage) where
  -- The pieces, each with its value.
  abbrev pub rendered : List Piece → List ℕ
  rendered [] = []
  rendered (plain c ∷ ps) = c ∷ rendered ps
  rendered (variable key ∷ ps) = value_of texts msg key ++ rendered ps
  rendered (starred key ∷ ps) = value_of texts msg (key ++ b'*' ∷ []) ++ rendered ps

  outside :
      (c : ℕ) (s : List ℕ)
      → c ≢ b'$'
      → replace_all texts msg none (c ∷ s) ≡ c ∷ replace_all texts msg none s
  unfolding replace_all
  outside c s k = rw (other c b'$' k) refl

  inside : (s : List ℕ) → replace_all texts msg none (b'$' ∷ s) ≡ replace_all texts msg (some []) s
  unfolding replace_all
  inside s = refl

  -- The characters of a name are collected.
  collect :
      (done key s : List ℕ)
      → All (λ c. is_word c ≡ true) key
      → replace_all texts msg (some done) (key ++ s) ≡ replace_all texts msg (some (done ++ key)) s
  unfolding replace_all
  collect done [] s h = ap (λ t. replace_all texts msg (some t) s) (sym (append-nil done))
  collect done (c ∷ key) s (h, hs) = rw h (
      collect (done ++ c ∷ []) key s hs
      ∙ ap (λ t. replace_all texts msg (some t) s) (append_assoc done (c ∷ []) key))

  stop_plain :
      (x : ℕ) (key : List ℕ) (c : ℕ) (s : List ℕ)
      → not (is_word c || c == b'*') ≡ true
      → c ≢ b'$'
      → replace_all texts msg (some (x ∷ key)) (c ∷ s)
        ≡ value_of texts msg (x ∷ key) ++ (c ∷ replace_all texts msg none s)
  unfolding replace_all
  stop_plain x key c s h k =
      let (a, b, d) = apart (is_word c) c h k in
      rw (a, lt→ltb 0 (suc (length key)) (omega arith), b, d) refl

  stop_dollar :
      (x : ℕ) (key s : List ℕ)
      → replace_all texts msg (some (x ∷ key)) (b'$' ∷ s)
        ≡ value_of texts msg (x ∷ key) ++ replace_all texts msg none (b'$' ∷ s)
  unfolding replace_all
  stop_dollar x key s = rw (lt→ltb 0 (suc (length key)) (omega arith)) refl

  -- A variable without a star ends in front of the next piece.
  stop :
      (x : ℕ) (key : List ℕ) (ps : List Piece)
      → ends_at ps ≡ true
      → ArePieces ps
      → replace_all texts msg (some (x ∷ key)) (written ps)
        ≡ value_of texts msg (x ∷ key) ++ replace_all texts msg none (written ps)
  stop x key [] e h = unfold replace_all in sym (append-nil (value_of texts msg (x ∷ key)))
  stop x key (plain c ∷ ps) e (k, h) =
      stop_plain x key c (written ps) e k
      ∙ ap (λ t. value_of texts msg (x ∷ key) ++ t) (sym (outside c (written ps) k))
  stop x key (variable next ∷ ps) e h = stop_dollar x key (next ++ written ps)
  stop x key (starred next ∷ ps) e h = stop_dollar x key (next ++ (b'*' ∷ written ps))

  star :
      (x : ℕ) (key s : List ℕ)
      → replace_all texts msg (some (x ∷ key)) (b'*' ∷ s)
        ≡ value_of texts msg (x ∷ key ++ b'*' ∷ []) ++ replace_all texts msg none s
  unfolding replace_all
  star x key s = rw (lt→ltb 0 (suc (length key)) (omega arith)) refl

  pub replace_all-written :
      (ps : List Piece) → ArePieces ps → replace_all texts msg none (written ps) ≡ rendered ps
  replace_all-written [] h = unfold replace_all in refl
  replace_all-written (plain c ∷ ps) (k, h) =
      outside c (written ps) k ∙ ap (λ t. c ∷ t) (replace_all-written ps h)
  replace_all-written (variable [] ∷ ps) ((full, _), _, _) = absurd (omega arith)
  replace_all-written (variable (x ∷ key) ∷ ps) ((full, word), e, h) =
      inside ((x ∷ key) ++ written ps)
      ∙ collect [] (x ∷ key) (written ps) word
      ∙ stop x key ps e h
      ∙ ap (λ t. value_of texts msg (x ∷ key) ++ t) (replace_all-written ps h)
  replace_all-written (starred [] ∷ ps) ((full, _), _) = absurd (omega arith)
  replace_all-written (starred (x ∷ key) ∷ ps) ((full, word), h) =
      inside ((x ∷ key) ++ (b'*' ∷ written ps))
      ∙ collect [] (x ∷ key) (b'*' ∷ written ps) word
      ∙ star x key (written ps)
      ∙ ap (λ t. value_of texts msg (x ∷ key ++ b'*' ∷ []) ++ t) (replace_all-written ps h)
