-- ===== src/Logger/Macros.antt =====
-- The macros of include/ares/logging/log.hpp, which a file uses on its own logger: a module is the
-- logger and the level that it has saved.
use ares_common.Common.{
  ℕ, Bool, min, ◌≡◌, ap, Option, none, if◌then◌else◌, ◌==◌, ltb, List, [], ◌∷◌, arith,
}
use ares_common.Logger.{
  Text, level_or, LoggerImpl, LoggerCallbacks, Event, level_set, construct, set_log_level,
  get_log_level, register_logging_callbacks, log, log_level_dbg, log_level_info, log_level_warn,
  log_level_error, log_level_critical, log_level_off,
}
use ares_common.Logger.Hexdump.{log_hexdump}

-- `__logger__` and `__saved_level__`.
pub record Module : Type 0 where
  pub logger : LoggerImpl
  pub saved_level : ℕ

-- `DEFAULT_LOG_LEVEL`, from the number in the macro `LOG_LEVEL`.
unfoldable pub default_log_level : ℕ → ℕ
default_log_level log_level =
    if log_level == 0
    then log_level_dbg
    else if log_level == 1
    then log_level_info
    else if log_level == 2
    then log_level_warn
    else if log_level == 3
    then log_level_error
    else if log_level == 4
    then log_level_critical
    else log_level_off

-- `LOG_MODULE_REGISTER` with a level, and without one.
unfoldable pub register_logger : Text → ℕ → Module
register_logger name level = record { logger = construct name level; saved_level = level }

unfoldable pub register_default : Text → ℕ → Module
register_default name log_level = register_logger name (default_log_level log_level)

-- The messages, formatted, and the dumps, which take at most `len` bytes.
module _ (msg : Option Text) (m : Module) where
  unfoldable pub log_dbg : List Event
  log_dbg = log log_level_dbg msg m.logger

  unfoldable pub log_inf : List Event
  log_inf = log log_level_info msg m.logger

  unfoldable pub log_wrn : List Event
  log_wrn = log log_level_warn msg m.logger

  unfoldable pub log_err : List Event
  log_err = log log_level_error msg m.logger

  unfoldable pub log_crit : List Event
  log_crit = log log_level_critical msg m.logger

module _ (isprint : ℕ → Bool) (bytes : Text) (len : ℕ) (msg : Text) (m : Module) where
  unfoldable pub log_dbg_hexdump : List Event
  log_dbg_hexdump = log_hexdump isprint log_level_dbg msg bytes len m.logger

  unfoldable pub log_inf_hexdump : List Event
  log_inf_hexdump = log_hexdump isprint log_level_info msg bytes len m.logger

  unfoldable pub log_wrn_hexdump : List Event
  log_wrn_hexdump = log_hexdump isprint log_level_warn msg bytes len m.logger

  unfoldable pub log_err_hexdump : List Event
  log_err_hexdump = log_hexdump isprint log_level_error msg bytes len m.logger

  unfoldable pub log_crit_hexdump : List Event
  log_crit_hexdump = log_hexdump isprint log_level_critical msg bytes len m.logger

-- What a macro leaves of the module when it changes the logger.
abbrev changed : ℕ → LoggerImpl × List Event → Module × List Event
changed saved (l, events) = (record { logger = l; saved_level = saved }, events)

-- `SET_LOG_LEVEL`.
unfoldable pub set_level : ℕ → Module → Module × List Event
set_level new_level m = changed m.saved_level (set_log_level new_level m.logger)

-- `SAVE_LOG_LEVEL_AND_OVERRIDE`.
unfoldable pub save_and_override : ℕ → Module → Module × List Event
save_and_override new_level m =
    let saved = record m { saved_level = get_log_level m.logger } in
    if ltb new_level saved.saved_level then set_level new_level saved else (saved, [])

-- `SAVE_LOG_LEVEL_AND_FORCE`.
unfoldable pub save_and_force : ℕ → Module → Module × List Event
save_and_force new_level m = set_level new_level (record m { saved_level = get_log_level m.logger })

-- `RESTORE_LOG_LEVEL`.
unfoldable pub restore : Module → Module × List Event
restore m = set_level m.saved_level m

-- `LOG_MODULE_REGISTER_CALLBACKS`.
unfoldable pub register_callbacks : LoggerCallbacks → Module → Module × List Event
register_callbacks cb m = changed m.saved_level (register_logging_callbacks cb m.logger)

-- The level that a module's logger goes by.
abbrev pub current_level : Module → ℕ
current_level m = get_log_level m.logger

-- In a module whose logger does not ask a callback for its level, saving the level makes it the lower
-- one of the new level and its own, or the new one if that is forced, and restoring it gives back the
-- logger as it was, with one call of `set_level` for each level that is set, if there is such a
-- callback.
pub restore-save :
    (new_level : ℕ) (m : Module)
    → m.logger.cb.get_level ≡ none
    → let (overridden, e1) = save_and_override new_level m in
      let (forced, e2) = save_and_force new_level m in
      (current_level overridden ≡ min new_level (current_level m))
      × (current_level forced ≡ new_level)
      × ((restore overridden).0.logger ≡ m.logger)
      × ((restore forced).0.logger ≡ m.logger)
      × ((restore forced).1 ≡ (if m.logger.cb.set_level then level_set m.logger.level ∷ [] else []))
unfolding save_and_override save_and_force restore set_level set_log_level get_log_level
restore-save new_level m h = (
  ground (arith, h),
  ap (level_or new_level) h,
  ground (arith, h),
  ground (arith, h),
  ground (arith, h),
)
