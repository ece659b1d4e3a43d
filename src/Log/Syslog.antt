-- ===== src/Log/Syslog.antt =====
-- log/syslog.go: the entries that the worker of log/handler_syslog.go writes. `time.Format` and `%d` are
-- parameters: a timestamp is given by its text.
use df.Prelude.{
  ℕ, zero, suc, ◌+◌, ◌*◌, ◌==◌, ◌≡◌, refl, ap, arith, true, List, [], ◌∷◌, ◌++◌, length, ltb, ◌||◌,
  ◌∙◌, Option, none, some, if◌then◌else◌, Bool-cases, inl, inr,
}
use df.Conf.{codes}
use df.Http.{split_at}
use df.Http.Whole.{lacks, split_at-found}
use df.Log.{LogMessage, Texts, critical, error, warning, info, format_message}

unfoldable pub severity_from_level : ℕ → ℕ
severity_from_level lev =
    if lev == critical
    then 2
    else if lev == error
    then 3
    else if lev == warning
    then 4
    else if lev == info
    then 6
    else 7

-- `EntryRFC3164`, and `EntryRFC5424` with its App in place of the tag.
pub record Entry : Type 0 where
  pub facility : ℕ
  pub severity : ℕ
  pub timestamp : List ℕ
  pub hostname : List ℕ
  pub tag : List ℕ
  pub pid : ℕ
  pub content : List ℕ

-- Texts, each with a space behind it, and a last one.
abbrev pub spaced : List (List ℕ) → List ℕ → List ℕ
spaced [] last = last
spaced (f ∷ fs) last = f ++ (32 ∷ spaced fs last)

module _ (format_int : ℕ → List ℕ) where
  abbrev pub pri : Entry → List ℕ
  pri m = b'<' ∷ (format_int (m.facility * 8 + m.severity) ++ b'>' ∷ [])

  abbrev pub prefix_of : Entry → List ℕ
  prefix_of m =
      if ltb 0 m.pid then m.tag ++ (b'[' ∷ (format_int m.pid ++ codes "]:")) else m.tag ++ codes ":"

  -- `EntryRFC3164.WriteTo`: the bytes of the one write.
  unfoldable pub write_to_3164 : Entry → List ℕ
  write_to_3164 m = spaced ((pri m ++ m.timestamp) ∷ m.hostname ∷ prefix_of m ∷ []) m.content

  abbrev pub app_of : Entry → List ℕ
  app_of m = if ltb 0 (length m.tag) then m.tag else codes "-"

  -- `EntryRFC5424.WriteTo`.
  unfoldable pub write_to_5424 : Entry → List ℕ
  write_to_5424 m =
      spaced
        ((pri m ++ format_int 1)
          ∷ m.timestamp
          ∷ m.hostname
          ∷ app_of m
          ∷ format_int m.pid
          ∷ codes "-"
          ∷ codes "-"
          ∷ [])
        m.content

-- The severity as a number: the level's own for four levels, and that of a debugging message for others.
abbrev pub severity : ℕ → ℕ
severity lev = if lev == 2 || (lev == 3 || (lev == 4 || lev == 6)) then lev else 7

severity_lem : (lev : ℕ) → severity_from_level lev ≡ severity lev
unfolding severity_from_level
severity_lem lev = ground arith

-- What the worker sends for a message that it takes.
unfoldable pub line_of : Texts → List ℕ → List ℕ → List ℕ → List ℕ → ℕ → LogMessage → List ℕ
unfolding write_to_5424 severity_from_level
line_of texts format now hostname tag pid msg = write_to_5424 texts.format_int (record {
  facility = 1;
  severity = severity_from_level msg.lev;
  timestamp = now;
  hostname = hostname;
  tag = tag;
  pid = pid;
  content = format_message texts format msg;
})

-- A reader of entries, which takes so many fields in front of the content.
abbrev pub with_field : List ℕ → Option (List (List ℕ) × List ℕ) → Option (List (List ℕ) × List ℕ)
with_field f none = none
with_field f (some (fs, last)) = some (f ∷ fs, last)

abbrev pub and_fields :
    Option (List ℕ × List ℕ)
    → (List ℕ → Option (List (List ℕ) × List ℕ))
    → Option (List (List ℕ) × List ℕ)
and_fields none k = none
and_fields (some (f, rest)) k = with_field f (k rest)

abbrev pub fields : ℕ → List ℕ → Option (List (List ℕ) × List ℕ)
fields zero s = some ([], s)
fields (suc n) s = and_fields (split_at 32 s) (fields n)

abbrev pub NoSpaces : List (List ℕ) → Type 0
NoSpaces [] = Unit
NoSpaces (f ∷ fs) = (lacks 32 f ≡ true) × NoSpaces fs

fields-spaced :
    (fs : List (List ℕ)) (last : List ℕ)
    → NoSpaces fs
    → fields (length fs) (spaced fs last) ≡ some (fs, last)
fields-spaced [] last h = refl
fields-spaced (f ∷ fs) last (h, hs) =
    rw (split_at-found 32 f (spaced fs last) h) (ap (with_field f) (fields-spaced fs last hs))

lacks-append :
    (c : ℕ) (x y : List ℕ) → lacks c x ≡ true → lacks c y ≡ true → lacks c (x ++ y) ≡ true
lacks-append c [] y h k = k
lacks-append c (a ∷ x) y h k = ground (arith, h, k, lacks-append c x y)

app_of-lacks :
    (format_int : ℕ → List ℕ) (m : Entry)
    → lacks 32 m.tag ≡ true
    → lacks 32 (app_of format_int m) ≡ true
app_of-lacks format_int m h = elim (Bool-cases (ltb 0 (length m.tag))) [
  | inl named ↦ rw named h
  | inr nameless ↦ rw nameless refl
]

-- What the worker sends for a message splits at its first seven spaces into the priority with the
-- version (the priority is 8 and the level for the levels 2, 3, 4 and 6, and 15 for others), the time, the host's name, the tag or a dash, the process's number and two dashes, and what
-- follows is the formatted message, whatever spaces it has: provided that the time, the names and the
-- numbers have none.
pub fields-line_of :
    (texts : Texts) (format now hostname tag : List ℕ) (pid : ℕ) (msg : LogMessage)
    → ((n : ℕ) → lacks 32 (texts.format_int n) ≡ true)
    → lacks 32 now ≡ true
    → lacks 32 hostname ≡ true
    → lacks 32 tag ≡ true
    → fields 7 (line_of texts format now hostname tag pid msg)
      ≡ some (
        (b'<' ∷ (texts.format_int (8 + severity msg.lev) ++ b'>' ∷ []) ++ texts.format_int 1)
            ∷ now
            ∷ hostname
            ∷ (if ltb 0 (length tag) then tag else codes "-")
            ∷ texts.format_int pid
            ∷ codes "-"
            ∷ codes "-"
            ∷ [],
        format_message texts format msg,
      )
unfolding line_of write_to_5424
fields-line_of texts format now hostname tag pid msg numbers a b c =
    let m : Entry = record {
      facility = 1;
      severity = severity msg.lev;
      timestamp = now;
      hostname = hostname;
      tag = tag;
      pid = pid;
      content = format_message texts format msg;
    } in
    let number = texts.format_int (8 + severity msg.lev) in
    ap (λ n. fields 7 (write_to_5424 texts.format_int (record m { severity = n })))
      (severity_lem msg.lev)
    ∙ fields-spaced
        ((pri texts.format_int m ++ texts.format_int 1)
          ∷ now
          ∷ hostname
          ∷ app_of texts.format_int m
          ∷ texts.format_int pid
          ∷ codes "-"
          ∷ codes "-"
          ∷ [])
        (format_message texts format msg)
        (
          lacks-append 32 (pri texts.format_int m) (texts.format_int 1)
              (lacks-append 32 number (b'>' ∷ []) (numbers (8 + severity msg.lev)) refl)
              (numbers 1),
          (a, (b, (app_of-lacks texts.format_int m c, (numbers pid, (refl, (refl, tt)))))),
        )
