-- ===== src/Log/Tests.antt =====
-- Runs of the log: the standard format, an entry, and a handler that was cleaned up.
use df.Prelude.{◌≡◌, refl, arith, true, List, [], ◌∷◌, ◌++◌, replicate, bytes_eq, none, some}
use df.Conf.{codes}
use df.Log.{
  LogMessage, Texts, info, notset, get_level, get_level_name, value_of, replace_all, format_message,
}
use df.Log.Format.{Piece, plain, variable, starred, written}
use df.Log.Values.{
  IsColoredName, is_filename, is_lineno, is_colored, is_message, nothing, text, value,
  starred_value, format_message-written,
}
use df.Log.Handlers.{SyslogHandler, syslog_handler, gone, here}
use df.Log.Logger.{LoggerBuiltin, FuncInfo, print}
use df.Log.Stall.{send_all, logging_blocks}
use df.Log.Syslog.{line_of, fields, fields-line_of}

abbrev sample_texts : Texts
sample_texts = record {
  marshal = λ msg. none;
  format_time = λ t. codes "now";
  format_int = λ n. b'7' ∷ [];
  equal_fold = λ x y. bytes_eq x y;
}

abbrev sample_message : LogMessage
sample_message = record {
  timestamp = 5;
  logger_name = codes "df";
  body = codes "cost: $5 a";
  lev = info;
  mod_path = codes "h1";
  file_name = codes "a.go";
  line_no = 7;
}

-- `<$filename:$lineno> $lev* $message`
abbrev sample_pieces : List Piece
sample_pieces =
    plain b'<'
    ∷ variable (codes "filename")
    ∷ plain b':'
    ∷ variable (codes "lineno")
    ∷ plain b'>'
    ∷ plain 32
    ∷ starred (codes "lev")
    ∷ plain 32
    ∷ variable (codes "message")
    ∷ []

sample_written : written sample_pieces ≡ codes "<$filename:$lineno> $lev* $message"
sample_written = refl

format_message-written_example :
    format_message sample_texts (written sample_pieces) sample_message
    ≡ codes "<a.go:7> " ++ (27 ∷ (codes "[32;1mINF" ++ (27 ∷ codes "[0m cost: $5 a")))
format_message-written_example =
    format_message-written sample_texts sample_message sample_pieces (ground arith) (omega arith)
      refl
      (text b'<' (
        value (codes "filename") (is_filename refl) (
          text b':' (
            value (codes "lineno") (is_lineno refl) (
              text b'>' (
                text 32 (
                  starred_value (codes "lev") (is_colored refl (IsColoredName.info refl))
                    (text 32 (value (codes "message") (is_message refl) nothing)))))))))

-- A dollar sign that stands alone, and one in front of an unknown name.
dollars : format_message sample_texts (codes "$$lev.$ $x*") sample_message ≡ codes "$info.$ $x*"
unfolding format_message replace_all value_of get_level_name
dollars = refl

-- A name that is no level's sets a logger to the level at which it writes everything.
unknown_level : get_level sample_texts (codes "warn") ≡ notset
unfolding get_level
unknown_level = refl

fields-line_of_example :
    fields 7 (line_of sample_texts (codes "$message") (codes "now") (codes "h") [] 7 sample_message)
    ≡ some (
      (b'<' ∷ (codes "7" ++ b'>' ∷ []) ++ codes "7")
          ∷ codes "now"
          ∷ codes "h"
          ∷ codes "-"
          ∷ codes "7"
          ∷ codes "-"
          ∷ codes "-"
          ∷ [],
      format_message sample_texts (codes "$message") sample_message,
    )
fields-line_of_example =
    fields-line_of sample_texts (codes "$message") (codes "now") (codes "h") [] 7 sample_message
      (λ n. refl) refl refl refl

abbrev old_handler : SyslogHandler
old_handler = record { format = []; ch = some []; worker = gone; cancelled = true }

abbrev many : List LogMessage
many = replicate 1024 sample_message

abbrev full_handler : SyslogHandler
full_handler = record old_handler { ch = some many }

abbrev sample_logger : LoggerBuiltin
sample_logger = record { lev = info; name = []; handlers = syslog_handler full_handler ∷ [] }

abbrev sample_caller : FuncInfo
sample_caller = record { mod_path = []; file_name = []; line = 0 }

logging_blocks_example :
    (send_all many old_handler ≡ some full_handler)
    × (print sample_texts 5 sample_caller info (codes "lost") sample_logger ≡ none)
logging_blocks_example =
    logging_blocks sample_texts many [] old_handler {u = full_handler} 5 sample_caller info
      (codes "lost") sample_logger [] [] refl refl (omega arith) here refl (omega arith)
