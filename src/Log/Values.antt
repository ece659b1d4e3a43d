-- ===== src/Log/Values.antt =====
-- The values of the variables of a format.
use df.Prelude.{
  ℕ, ◌<◌, ◌≡◌, ◌≢◌, refl, sym, ap, ap₂, ◌∙◌, false, List, [], ◌∷◌, ◌++◌, length, All, bytes_eq,
  lt→leb, ne→==,
}
use df.Conf.{codes}
use df.Log.{LogMessage, Texts, get_level_name, get_level_name_colored, value_of, format_message}
use df.Log.Format.{
  Piece, plain, variable, starred, ArePieces, written, rendered, replace_all-written,
}

-- The names of the levels.
pub data IsLevelName (lev : ℕ) : List ℕ → Type 0 where
  critical : lev ≡ 2 → IsLevelName lev (codes "critical")
  error : lev ≡ 3 → IsLevelName lev (codes "error")
  warning : lev ≡ 4 → IsLevelName lev (codes "warning")
  info : lev ≡ 6 → IsLevelName lev (codes "info")
  debug : lev ≡ 7 → IsLevelName lev (codes "debug")
  no_level : lev ≢ 2 → lev ≢ 3 → lev ≢ 4 → lev ≢ 6 → lev ≢ 7 → IsLevelName lev []

-- Three letters between a colour and its end.
abbrev pub in_color : List ℕ → List ℕ → List ℕ
in_color color letters =
    27 ∷ (codes "[" ++ (color ++ (codes "m" ++ (letters ++ (27 ∷ codes "[0m")))))

pub data IsColoredName (lev : ℕ) : List ℕ → Type 0 where
  critical : lev ≡ 2 → IsColoredName lev (in_color (codes "31") (codes "CRI"))
  error : lev ≡ 3 → IsColoredName lev (in_color (codes "31;1") (codes "ERR"))
  warning : lev ≡ 4 → IsColoredName lev (in_color (codes "33;1") (codes "WRN"))
  info : lev ≡ 6 → IsColoredName lev (in_color (codes "32;1") (codes "INF"))
  debug : lev ≡ 7 → IsColoredName lev (in_color (codes "30;1") (codes "DBG"))
  no_level : lev ≢ 2 → lev ≢ 3 → lev ≢ 4 → lev ≢ 6 → lev ≢ 7 → IsColoredName lev []

level_name_lem : (lev : ℕ) {name : List ℕ} → IsLevelName lev name → get_level_name lev ≡ name
unfolding get_level_name
level_name_lem lev (critical e) = rw e refl
level_name_lem lev (error e) = rw e refl
level_name_lem lev (warning e) = rw e refl
level_name_lem lev (info e) = rw e refl
level_name_lem lev (debug e) = rw e refl
level_name_lem lev (no_level a b c d e) =
    rw
      (
        ne→== 2 lev (λ x. a (sym x)),
        ne→== 3 lev (λ x. b (sym x)),
        ne→== 4 lev (λ x. c (sym x)),
        ne→== 6 lev (λ x. d (sym x)),
        ne→== 7 lev (λ x. e (sym x)),
      )
      refl

colored_lem : (lev : ℕ) {name : List ℕ} → IsColoredName lev name → get_level_name_colored lev ≡ name
unfolding get_level_name_colored
colored_lem lev (critical e) = rw e refl
colored_lem lev (error e) = rw e refl
colored_lem lev (warning e) = rw e refl
colored_lem lev (info e) = rw e refl
colored_lem lev (debug e) = rw e refl
colored_lem lev (no_level a b c d e) =
    rw (ne→== lev 2 a, ne→== lev 3 b, ne→== lev 4 c, ne→== lev 6 d, ne→== lev 7 e) refl

-- The variables that have a value.
abbrev pub known : List (List ℕ)
known =
    codes "time"
    ∷ codes "name"
    ∷ codes "message"
    ∷ codes "lev"
    ∷ codes "lev*"
    ∷ codes "mod"
    ∷ codes "filename"
    ∷ codes "lineno"
    ∷ []

-- What a variable stands for, by its name with its star.
pub data StandsFor (texts : Texts) (msg : LogMessage) (key : List ℕ) : List ℕ → Type 0 where
  is_time : key ≡ codes "time" → StandsFor texts msg key (texts.format_time msg.timestamp)
  is_name : key ≡ codes "name" → StandsFor texts msg key msg.logger_name
  is_message : key ≡ codes "message" → StandsFor texts msg key msg.body
  is_lev :
      {name : List ℕ} → key ≡ codes "lev" → IsLevelName msg.lev name → StandsFor texts msg key name
  is_colored :
      {name : List ℕ}
      → key ≡ codes "lev*"
      → IsColoredName msg.lev name
      → StandsFor texts msg key name
  is_mod : key ≡ codes "mod" → StandsFor texts msg key msg.mod_path
  is_filename : key ≡ codes "filename" → StandsFor texts msg key msg.file_name
  is_lineno : key ≡ codes "lineno" → StandsFor texts msg key (texts.format_int msg.line_no)
  is_unknown : All (λ name. bytes_eq key name ≡ false) known → StandsFor texts msg key (b'$' ∷ key)

module _ (texts : Texts) (msg : LogMessage) where
  value_of_lem :
      (key : List ℕ) {value : List ℕ}
      → StandsFor texts msg key value
      → value_of texts msg key ≡ value
  unfolding value_of
  value_of_lem key (is_time e) = rw e refl
  value_of_lem key (is_name e) = rw e refl
  value_of_lem key (is_message e) = rw e refl
  value_of_lem key (is_lev e l) = rw e (level_name_lem msg.lev l)
  value_of_lem key (is_colored e l) = rw e (colored_lem msg.lev l)
  value_of_lem key (is_mod e) = rw e refl
  value_of_lem key (is_filename e) = rw e refl
  value_of_lem key (is_lineno e) = rw e refl
  value_of_lem key (is_unknown (a, (b, (c, (d, (e, (f, (g, (h, _))))))))) =
      rw (a, b, c, d, e, f, g, h) refl

  -- The text of the pieces: each variable is what it stands for.
  pub data Reads : List Piece → List ℕ → Type 0 where
    nothing : Reads [] []
    text : (c : ℕ) {ps : List Piece} {out : List ℕ} → Reads ps out → Reads (plain c ∷ ps) (c ∷ out)
    value :
        (key : List ℕ) {v : List ℕ} {ps : List Piece} {out : List ℕ}
        → StandsFor texts msg key v
        → Reads ps out
        → Reads (variable key ∷ ps) (v ++ out)
    starred_value :
        (key : List ℕ) {v : List ℕ} {ps : List Piece} {out : List ℕ}
        → StandsFor texts msg (key ++ b'*' ∷ []) v
        → Reads ps out
        → Reads (starred key ∷ ps) (v ++ out)

  Reads-rendered : (ps : List Piece) {out : List ℕ} → Reads ps out → rendered texts msg ps ≡ out
  Reads-rendered _ nothing = refl
  Reads-rendered _ (text c r) = ap (λ t. c ∷ t) (Reads-rendered _ r)
  Reads-rendered _ (value key s r) = ap₂ (λ v t. v ++ t) (value_of_lem key s) (Reads-rendered _ r)
  Reads-rendered _ (starred_value key s r) =
      ap₂ (λ v t. v ++ t) (value_of_lem (key ++ b'*' ∷ []) s) (Reads-rendered _ r)

-- A format that is made of text and variables gives the text as it is, and in the place of each variable
-- what it stands for: the time, the name of the logger, the message, the level's name, plain or in colour,
-- the module, the file or the line, and for any other name the variable itself. A name has letters, digits
-- or underscores; a variable without a star ends in front of something else; the text has no dollar sign,
-- and the whole is neither empty nor `@json`.
pub format_message-written :
    (texts : Texts) (msg : LogMessage) (ps : List Piece) {out : List ℕ}
    → ArePieces ps
    → 0 < length (written ps)
    → texts.equal_fold (written ps) (codes "@json") ≡ false
    → Reads texts msg ps out
    → format_message texts (written ps) msg ≡ out
unfolding format_message
format_message-written texts msg ps {out} h some_bytes other reads =
    rw (lt→leb 0 (length (written ps)) some_bytes, other)
      (replace_all-written texts msg ps h ∙ Reads-rendered texts msg ps reads)
