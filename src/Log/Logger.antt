-- ===== src/Log/Logger.antt =====
-- log/logger_builtin.go, and the functions of log.go that make and set up a logger.
use df.Prelude.{ℕ, List, [], ◌∷◌, ltb, Option, none, some, if◌then◌else◌}
use df.Log.{LogMessage, Texts, debug, error, warning, info, notset, get_level}
use df.Log.Handlers.{Handler, new_default_handler}
use df.Log.Handlers

pub record LoggerBuiltin : Type 0 where
  pub lev : ℕ
  pub name : List ℕ
  pub handlers : List Handler

-- What `getFuncInfo` finds.
pub record FuncInfo : Type 0 where
  pub mod_path : List ℕ
  pub file_name : List ℕ
  pub line : ℕ

unfoldable pub make_message : ℕ → FuncInfo → LoggerBuiltin → ℕ → List ℕ → LogMessage
make_message now fi l lev body = record {
  timestamp = now;
  logger_name = l.name;
  body = body;
  lev = lev;
  mod_path = fi.mod_path;
  file_name = fi.file_name;
  line_no = fi.line;
}

abbrev pub and_rest : Handler → Option (List Handler) → Option (List Handler)
and_rest h none = none
and_rest h (some hs) = some (h ∷ hs)

abbrev pub then_rest : Option Handler → Option (List Handler) → Option (List Handler)
then_rest none rest = none
then_rest (some h) rest = and_rest h rest

-- The loop over the handlers; `none` is a write that waits.
unfoldable pub write_all : Texts → LogMessage → List Handler → Option (List Handler)
write_all texts msg [] = some []
write_all texts msg (h ∷ hs) = then_rest (Handlers.write texts msg h) (write_all texts msg hs)

abbrev pub with_handlers : LoggerBuiltin → Option (List Handler) → Option LoggerBuiltin
with_handlers l none = none
with_handlers l (some hs) = some (record l { handlers = hs })

-- `Print`, `Printf` and `Println`, for the text that `fmt` makes.
unfoldable pub print : Texts → ℕ → FuncInfo → ℕ → List ℕ → LoggerBuiltin → Option LoggerBuiltin
unfolding make_message write_all
print texts now fi lev body l =
    if ltb l.lev lev
    then some l
    else with_handlers l (write_all texts (make_message now fi l lev body) l.handlers)

-- The methods with a level in their names, each in two forms.
pub data Method : Type 0 where
  debugs errors warnings infos : Method

abbrev pub level_of : Method → ℕ
level_of debugs = debug
level_of errors = error
level_of warnings = warning
level_of infos = info

unfoldable pub log_by :
    Texts → ℕ → FuncInfo → Method → List ℕ → LoggerBuiltin → Option LoggerBuiltin
unfolding print
log_by texts now fi m body l = print texts now fi (level_of m) body l

unfoldable pub set_level : ℕ → LoggerBuiltin → LoggerBuiltin
set_level level l = record l { lev = level }

unfoldable pub set_level_name : Texts → List ℕ → LoggerBuiltin → LoggerBuiltin
unfolding set_level
set_level_name texts name l = set_level (get_level texts name) l

abbrev pub clean_all : List Handler → List Handler
clean_all [] = []
clean_all (h ∷ hs) = Handlers.clean_up h ∷ clean_all hs

unfoldable pub clean_up : LoggerBuiltin → LoggerBuiltin
clean_up l = record l { handlers = clean_all l.handlers }

abbrev pub handlers_of : Option Handler → List Handler
handlers_of none = []
handlers_of (some h) = h ∷ []

unfoldable pub new_logger : List ℕ → ℕ → Option Handler → LoggerBuiltin
new_logger name level handler = record { lev = level; name = name; handlers = handlers_of handler }

unfoldable pub get_logger : List ℕ → LoggerBuiltin
unfolding new_logger new_default_handler
get_logger name = new_logger name notset (some new_default_handler)
