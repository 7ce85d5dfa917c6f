-- ===== src/Logger/Laws.antt =====
-- What a logger prints, and which logger a name stands for.
use ares_common.Common.{
  ℕ, ◌≡◌, refl, ap, Bool, true, ◌&&◌, ◌||◌, some, Option-cases, if◌then◌else◌, ◌==◌, leb, List, [],
  ◌∷◌, arith, inl, inr,
}
use ares_common.Logger.{
  Text, same_text, find, found_or_new, find_logger, construct, LoggerImpl, LoggerCallbacks, called,
  printed, emit, log_dbg, log_inf, log_wrn, log_err, log_crit,
}

-- A level that messages have, and one that a logger can be set to.
abbrev pub is_level : ℕ → Bool
is_level n = n == 10 || n == 20 || n == 30 || n == 40 || n == 50

abbrev pub is_limit : ℕ → Bool
is_limit n = is_level n || n == 60

-- The callback of a level.
abbrev pub callback : ℕ → LoggerCallbacks → Bool
callback n cb =
    if n == 10
    then cb.dbg
    else if n == 20
    then cb.info
    else if n == 30
    then cb.warn
    else if n == 40
    then cb.error
    else n == 50 && cb.critical

-- A message of one of the five levels, to a logger that is set to one of them or is off: it goes to the
-- callback of its level if there is one, whatever the logger's level is, and otherwise it is printed
-- just if the logger's level is not above it.
pub emit_lem :
    (level : ℕ) (msg : Text) (l : LoggerImpl)
    → is_level level ≡ true
    → is_limit l.level ≡ true
    → emit level msg l ≡ (
        if callback level l.cb
        then called level msg ∷ []
        else if leb l.level level
        then printed level l.name msg ∷ []
        else [])
unfolding emit log_dbg log_inf log_wrn log_err log_crit
emit_lem level msg l h k = ground (arith, h, k)

same_text_self : (t : Text) → same_text t t ≡ true
same_text_self [] = refl
same_text_self (x ∷ xs) = let e : (x == x) ≡ true = ground arith in rw e (same_text_self xs)

find-new :
    (name : Text) (level : ℕ) (loggers : List LoggerImpl)
    → find name (construct name level ∷ loggers) ≡ some (construct name level)
unfolding construct
find-new name level loggers = rw (same_text_self name) refl

-- All loggers that are asked for by one name are one: the second time nothing is made, and the level
-- that it is asked for with is not looked at.
pub find_logger_lem :
    (name : Text) (first second : ℕ) (loggers : List LoggerImpl)
    → let (known, l) = find_logger name first loggers in find_logger name second known ≡ (known, l)
unfolding find_logger
find_logger_lem name first second loggers = elim (Option-cases (find name loggers)) [
  | inl e ↦
      rw e (
        ap (found_or_new name second (construct name first ∷ loggers))
          (find-new name first loggers))
  | inr (l, e) ↦ rw e (ap (found_or_new name second loggers) e)
]
