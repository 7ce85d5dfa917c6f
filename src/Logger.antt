-- ===== src/Logger.antt =====
-- The logger: include/ares/logging/logger.hpp and src/logging/logger.cpp. A text is a list of character
-- codes; the message that `vsnprintf` formats is a parameter, `none` if it fails. What a logger does
-- is a list of events.
pub mod Hexdump
pub mod Macros
pub mod Laws
pub mod RoundTrip
mod Tests
use ares_common.Common.{
  ℕ, Bool, true, false, Option, none, some, if◌then◌else◌, ◌==◌, leb, List, [], ◌∷◌,
}

abbrev pub Text : Type 0
Text = List ℕ

-- `LogLevel`.
abbrev pub log_level_dbg : ℕ
log_level_dbg = 10

abbrev pub log_level_info : ℕ
log_level_info = 20

abbrev pub log_level_warn : ℕ
log_level_warn = 30

abbrev pub log_level_error : ℕ
log_level_error = 40

abbrev pub log_level_critical : ℕ
log_level_critical = 50

abbrev pub log_level_off : ℕ
log_level_off = 60

-- `LoggerCallbacks`: which of the functions are set; of `get_level`, what it returns.
pub record LoggerCallbacks : Type 0 where
  pub dbg : Bool
  pub info : Bool
  pub warn : Bool
  pub error : Bool
  pub critical : Bool
  pub set_level : Bool
  pub get_level : Option ℕ

pub record LoggerImpl : Type 0 where
  pub name : Text
  pub level : ℕ
  pub cb : LoggerCallbacks

-- A callback of a level is called, a line is printed with the tag of a level, or `set_level` is called.
pub data Event : Type 0 where
  called : ℕ → Text → Event
  printed : ℕ → Text → Text → Event
  level_set : ℕ → Event

abbrev pub no_callbacks : LoggerCallbacks
no_callbacks = record {
  dbg = false;
  info = false;
  warn = false;
  error = false;
  critical = false;
  set_level = false;
  get_level = none;
}

-- The constructor.
unfoldable pub construct : Text → ℕ → LoggerImpl
construct name level = record { name = name; level = level; cb = no_callbacks }

unfoldable pub set_log_level : ℕ → LoggerImpl → LoggerImpl × List Event
set_log_level level l =
    (record l { level = level }, if l.cb.set_level then level_set level ∷ [] else [])

abbrev pub level_or : ℕ → Option ℕ → ℕ
level_or level none = level
level_or level (some n) = n

unfoldable pub get_log_level : LoggerImpl → ℕ
get_log_level l = level_or l.level l.cb.get_level

unfoldable pub register_logging_callbacks : LoggerCallbacks → LoggerImpl → LoggerImpl × List Event
register_logging_callbacks cb l =
    (record l { cb = cb }, if cb.set_level then level_set l.level ∷ [] else [])

unfoldable pub log_dbg : Text → LoggerImpl → List Event
log_dbg msg l =
    if l.cb.dbg
    then called log_level_dbg msg ∷ []
    else if l.level == log_level_dbg
    then printed log_level_dbg l.name msg ∷ []
    else []

unfoldable pub log_inf : Text → LoggerImpl → List Event
log_inf msg l =
    if l.cb.info
    then called log_level_info msg ∷ []
    else if leb l.level log_level_info
    then printed log_level_info l.name msg ∷ []
    else []

unfoldable pub log_wrn : Text → LoggerImpl → List Event
log_wrn msg l =
    if l.cb.warn
    then called log_level_warn msg ∷ []
    else if leb l.level log_level_warn
    then printed log_level_warn l.name msg ∷ []
    else []

unfoldable pub log_err : Text → LoggerImpl → List Event
log_err msg l =
    if l.cb.error
    then called log_level_error msg ∷ []
    else if leb l.level log_level_error
    then printed log_level_error l.name msg ∷ []
    else []

unfoldable pub log_crit : Text → LoggerImpl → List Event
log_crit msg l =
    if l.cb.critical
    then called log_level_critical msg ∷ []
    else if leb l.level log_level_critical
    then printed log_level_critical l.name msg ∷ []
    else []

-- The `switch` of `log` and `log_hexdump`.
unfoldable pub emit : ℕ → Text → LoggerImpl → List Event
emit level msg l =
    if level == log_level_dbg
    then log_dbg msg l
    else if level == log_level_info
    then log_inf msg l
    else if level == log_level_warn
    then log_wrn msg l
    else if level == log_level_error
    then log_err msg l
    else if level == log_level_critical
    then log_crit msg l
    else []

-- `log`, with what `vsnprintf` formats.
unfoldable pub log : ℕ → Option Text → LoggerImpl → List Event
log level none l = []
log level (some msg) l = emit level msg l

-- `loggers`, and `find_logger`, which makes a logger if there is none of the name.
abbrev pub same_text : Text → Text → Bool
same_text [] [] = true
same_text [] (y ∷ ys) = false
same_text (x ∷ xs) [] = false
same_text (x ∷ xs) (y ∷ ys) = if x == y then same_text xs ys else false

abbrev pub find : Text → List LoggerImpl → Option LoggerImpl
find name [] = none
find name (l ∷ ls) = if same_text name l.name then some l else find name ls

abbrev pub found_or_new :
    Text → ℕ → List LoggerImpl → Option LoggerImpl → List LoggerImpl × LoggerImpl
found_or_new name level loggers (some l) = (loggers, l)
found_or_new name level loggers none = (construct name level ∷ loggers, construct name level)

unfoldable pub find_logger : Text → ℕ → List LoggerImpl → List LoggerImpl × LoggerImpl
find_logger name level loggers = found_or_new name level loggers (find name loggers)
