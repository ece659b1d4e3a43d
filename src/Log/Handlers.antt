-- ===== src/Log/Handlers.antt =====
-- The handlers of log: the one that prints lines, and the one that hands messages to a worker over a
-- channel. What the worker sends to the syslog server is Syslog's.
use df.Prelude.{
  ℕ, Bool, true, false, List, [], ◌∷◌, ◌++◌, length, ltb, Option, none, some, ◌≡◌, if◌then◌else◌,
}
use df.Conf.{codes}
use df.Log.{LogMessage, Texts, format_message}

-- `defaultHandler`, with the lines that it has printed.
pub record DefaultHandler : Type 0 where
  pub format : List ℕ
  pub printed : List (List ℕ)

-- The worker sets itself up, serves, or has returned.
pub data Worker : Type 0 where
  starting serving gone : Worker

-- `syslogHandler`: what waits in `ch`, which is nil at first, and whether the context is cancelled.
pub record SyslogHandler : Type 0 where
  pub format : List ℕ
  pub ch : Option (List LogMessage)
  pub worker : Worker
  pub cancelled : Bool

pub data Handler : Type 0 where
  default_handler : DefaultHandler → Handler
  syslog_handler : SyslogHandler → Handler

-- `DefaultHandler`.
unfoldable pub new_default_handler : Handler
new_default_handler =
    default_handler
      (record { format = codes "[$mod] <$filename:$lineno> $lev* $message"; printed = [] })

unfoldable pub new_syslog_handler : List ℕ → Handler
new_syslog_handler format =
    syslog_handler (record { format = format; ch = none; worker = starting; cancelled = false })

abbrev pub ch_size : ℕ
ch_size = 1024

abbrev pub sent_on : LogMessage → SyslogHandler → Option (List LogMessage) → Option SyslogHandler
sent_on msg h none = some h
sent_on msg h (some q) =
    if ltb (length q) ch_size then some (record h { ch = some (q ++ msg ∷ []) }) else none

-- `Write` of the syslog handler; `none` is a send that waits for room.
unfoldable pub send_on : LogMessage → SyslogHandler → Option SyslogHandler
send_on msg h = sent_on msg h h.ch

abbrev pub as_handler : Option SyslogHandler → Option Handler
as_handler none = none
as_handler (some h) = some (syslog_handler h)

unfoldable pub write : Texts → LogMessage → Handler → Option Handler
unfolding send_on
write texts msg (default_handler h) =
    some
      (default_handler (record h { printed = h.printed ++ format_message texts h.format msg ∷ [] }))
write texts msg (syslog_handler h) = as_handler (send_on msg h)

unfoldable pub format_of : Handler → List ℕ
format_of (default_handler h) = h.format
format_of (syslog_handler h) = h.format

unfoldable pub set_format : List ℕ → Handler → Handler
set_format format (default_handler h) = default_handler (record h { format = format })
set_format format (syslog_handler h) = syslog_handler (record h { format = format })

unfoldable pub clean_up : Handler → Handler
clean_up (default_handler h) = default_handler h
clean_up (syslog_handler h) = syslog_handler (record h { cancelled = true })

-- The worker's steps: its set-up succeeds or fails, it takes a message, or it sees the end of the context.
-- Others write, set the format and clean up.
pub data Step (s : SyslogHandler) : SyslogHandler → Type 0 where
  starts : s.worker ≡ starting → Step s (record s { worker = serving; ch = some [] })
  fails : s.worker ≡ starting → Step s (record s { worker = gone })
  takes :
      (m : LogMessage) (q : List LogMessage)
      → s.worker ≡ serving
      → s.ch ≡ some (m ∷ q)
      → Step s (record s { ch = some q })
  stops : s.worker ≡ serving → s.cancelled ≡ true → Step s (record s { worker = gone })
  writes : (m : LogMessage) {t : SyslogHandler} → send_on m s ≡ some t → Step s t
  cancels : Step s (record s { cancelled = true })
  formats : (format : List ℕ) → Step s (record s { format = format })

pub data Reach (s : SyslogHandler) : SyslogHandler → Type 0 where
  here : Reach s s
  next : {t u : SyslogHandler} → Reach s t → Step t u → Reach s u
