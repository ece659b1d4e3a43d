-- ===== src/Log.antt =====
-- log: the levels, the text of a message, and the logger. The packages `encoding/json`, `time`, `fmt` and
-- `strings` are the parameter `Texts`; what `runtime` gives of the caller is part of a message. A level is
-- not negative, a format is in ASCII.
pub mod Format
pub mod Values
pub mod Handlers
pub mod Stall
pub mod Logger
pub mod Syslog
mod Tests
use df.Prelude.{
  ℕ, ◌+◌, ◌*◌, ◌==◌, ◌&&◌, ◌||◌, Bool, List, [], ◌∷◌, ◌++◌, length, ltb, leb, bytes_eq, Option,
  none, some, if◌then◌else◌,
}
use df.Conf.{codes}

abbrev pub critical : ℕ
critical = 2

abbrev pub error : ℕ
error = 3

abbrev pub warning : ℕ
warning = 4

abbrev pub info : ℕ
info = 6

abbrev pub debug : ℕ
debug = 7

abbrev pub notset : ℕ
notset = 8

-- The entries of `idx`, in an order.
abbrev pub idx : List (ℕ × List ℕ)
idx =
    (critical, codes "critical")
    ∷ (error, codes "error")
    ∷ (warning, codes "warning")
    ∷ (info, codes "info")
    ∷ (debug, codes "debug")
    ∷ []

abbrev pub name_in : ℕ → List (ℕ × List ℕ) → List ℕ
name_in lev [] = []
name_in lev ((l, name) ∷ es) = if l == lev then name else name_in lev es

unfoldable pub get_level_name : ℕ → List ℕ
get_level_name lev = name_in lev idx

abbrev pub colored : List ℕ → List ℕ → List ℕ
colored code name = 27 ∷ b'[' ∷ (code ++ (b'm' ∷ (name ++ (27 ∷ codes "[0m"))))

unfoldable pub get_level_name_colored : ℕ → List ℕ
get_level_name_colored lev =
    if lev == critical
    then colored (codes "31") (codes "CRI")
    else if lev == error
    then colored (codes "31;1") (codes "ERR")
    else if lev == warning
    then colored (codes "33;1") (codes "WRN")
    else if lev == info
    then colored (codes "32;1") (codes "INF")
    else if lev == debug
    then colored (codes "30;1") (codes "DBG")
    else []

pub record LogMessage : Type 0 where
  pub timestamp : ℕ
  pub logger_name : List ℕ
  pub body : List ℕ
  pub lev : ℕ
  pub mod_path : List ℕ
  pub file_name : List ℕ
  pub line_no : ℕ

-- `json.Marshal`, `Time.Format` by `dateFmt`, a number by `%d`, and `strings.EqualFold`.
pub record Texts : Type 0 where
  pub marshal : LogMessage → Option (List ℕ)
  pub format_time : ℕ → List ℕ
  pub format_int : ℕ → List ℕ
  pub equal_fold : List ℕ → List ℕ → Bool

-- `\w`.
abbrev pub is_word : ℕ → Bool
is_word c =
    (leb b'0' c && leb c b'9')
    || ((leb b'A' c && leb c b'Z') || ((leb b'a' c && leb c b'z') || c == b'_'))

module _ (texts : Texts) where
  abbrev pub level_in : List ℕ → List (ℕ × List ℕ) → ℕ
  level_in name [] = notset
  level_in name ((lev, lname) ∷ es) = if texts.equal_fold name lname then lev else level_in name es

  unfoldable pub get_level : List ℕ → ℕ
  get_level name = level_in name idx

  -- The function that replaces a match: `key` is the match without its dollar sign.
  unfoldable pub value_of : LogMessage → List ℕ → List ℕ
  unfolding get_level_name get_level_name_colored
  value_of msg key =
      if bytes_eq key (codes "time")
      then texts.format_time msg.timestamp
      else if bytes_eq key (codes "name")
      then msg.logger_name
      else if bytes_eq key (codes "message")
      then msg.body
      else if bytes_eq key (codes "lev")
      then get_level_name msg.lev
      else if bytes_eq key (codes "lev*")
      then get_level_name_colored msg.lev
      else if bytes_eq key (codes "mod")
      then msg.mod_path
      else if bytes_eq key (codes "filename")
      then msg.file_name
      else if bytes_eq key (codes "lineno")
      then texts.format_int msg.line_no
      else b'$' ∷ key

  -- What stands for the characters behind a dollar sign that are no part of a longer match.
  abbrev pub flush : LogMessage → List ℕ → List ℕ
  flush msg [] = b'$' ∷ []
  flush msg (x ∷ key) = value_of msg (x ∷ key)

  -- `ReplaceAllStringFunc` with the pattern `\$(\w+[*]?)`. `none` is outside of a match; `some key` is behind
  -- a dollar sign and these characters.
  unfoldable pub replace_all : LogMessage → Option (List ℕ) → List ℕ → List ℕ
  unfolding value_of
  replace_all msg none [] = []
  replace_all msg (some key) [] = flush msg key
  replace_all msg none (c ∷ s) =
      let inside = replace_all msg (some []) s in
      let outside = c ∷ replace_all msg none s in if c == b'$' then inside else outside
  replace_all msg (some key) (c ∷ s) =
      let longer = replace_all msg (some (key ++ c ∷ [])) s in
      let starred = value_of msg (key ++ b'*' ∷ []) ++ replace_all msg none s in
      let again = flush msg key ++ replace_all msg (some []) s in
      let over = flush msg key ++ (c ∷ replace_all msg none s) in
      if is_word c
      then longer
      else if ltb 0 (length key) && c == b'*'
      then starred
      else if c == b'$'
      then again
      else over

  abbrev pub or_nothing : Option (List ℕ) → List ℕ
  or_nothing none = []
  or_nothing (some dat) = dat

  unfoldable pub format_message : List ℕ → LogMessage → List ℕ
  unfolding replace_all
  format_message format msg =
      if leb (length format) 0 || texts.equal_fold format (codes "@json")
      then or_nothing (texts.marshal msg)
      else replace_all msg none format
