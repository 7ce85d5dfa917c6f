-- ===== src/DateTime.antt =====
-- `DateTime` of include/ares/datetime/datetime.hpp and src/datetime/datetime.cpp. A point of the system
-- clock is in nanoseconds from the epoch. `localtime` and `mktime` are parameters.
pub mod Laws
mod Tests
use ares_common.Common.{
  ℕ, ◌+◌, ◌-◌, ◌*◌, ◌^◌, ◌≡◌, Bool, true, false, Option, none, some, if◌then◌else◌, ltb,
}
use ares_common.Common.Int.{ℤ, pos, negsuc, neg, ◌+ℤ◌, ◌-ℤ◌, is_neg, scale, quotient}
use ares_common.Serial.Timeout.{remainder}

-- The members of `struct tm` that are used.
pub record Tm : Type 0 where
  pub tm_sec : ℤ
  pub tm_min : ℤ
  pub tm_hour : ℤ
  pub tm_mday : ℤ
  pub tm_mon : ℤ
  pub tm_year : ℤ

-- The time zone's calendar: `localtime`, which can fail, and `mktime`.
pub record Calendar : Type 0 where
  pub localtime : ℤ → Option Tm
  pub mktime : Tm → ℤ

pub record DateTime : Type 0 where
  pub timepoint : ℤ
  pub year : ℤ
  pub month : ℤ
  pub day : ℤ
  pub hour : ℤ
  pub minute : ℤ
  pub second : ℤ
  pub microsecond : ℤ

abbrev pub ns_per_us : ℕ
ns_per_us = 1000

abbrev pub ns_per_s : ℕ
ns_per_s = 1_000_000_000

-- The microseconds of a point, between 0 and a million.
unfoldable pub microseconds_of : ℤ → ℤ
microseconds_of timepoint =
    let us = quotient (remainder timepoint ns_per_s) ns_per_us in
    if is_neg us then us +ℤ pos 1_000_000 else us

-- The seconds that are handed to `localtime`.
unfoldable pub seconds_of : ℤ → ℤ
seconds_of timepoint = quotient (timepoint -ℤ scale (microseconds_of timepoint) ns_per_us) ns_per_s

-- What `mktime` is given.
abbrev pub calendar_time : DateTime → Tm
calendar_time d = record {
  tm_sec = d.second;
  tm_min = d.minute;
  tm_hour = d.hour;
  tm_mday = d.day;
  tm_mon = d.month -ℤ pos 1;
  tm_year = d.year -ℤ pos 1900;
}

-- The members before they are set, with a point.
abbrev pub members : ℤ → DateTime
members timepoint = record {
  timepoint = timepoint;
  year = pos 0;
  month = pos 0;
  day = pos 0;
  hour = pos 0;
  minute = pos 0;
  second = pos 0;
  microsecond = pos 0;
}

-- The end of `_timepoint_to_datetime`, with what `localtime` gave; `none` is the exception.
abbrev pub with_calendar : ℤ → DateTime → Option Tm → Option DateTime
with_calendar timepoint d none = none
with_calendar timepoint d (some tm) = some (record d {
  year = tm.tm_year +ℤ pos 1900;
  month = tm.tm_mon +ℤ pos 1;
  day = tm.tm_mday;
  hour = tm.tm_hour;
  minute = tm.tm_min;
  second = tm.tm_sec;
  microsecond = microseconds_of timepoint;
})

module _ (calendar : Calendar) where
  -- `_timepoint_to_datetime`.
  unfoldable pub timepoint_to_datetime : ℤ → DateTime → Option DateTime
  timepoint_to_datetime timepoint d =
      with_calendar timepoint d (calendar.localtime (seconds_of timepoint))

  -- `_datetime_to_timepoint`.
  unfoldable pub datetime_to_timepoint : DateTime → DateTime
  datetime_to_timepoint d = record d {
    timepoint = scale (calendar.mktime (calendar_time d)) ns_per_s +ℤ scale d.microsecond ns_per_us;
  }

  -- The constructors: from the parts, from a point, and the copy, which is also the assignment.
  unfoldable pub of_parts : ℤ → ℤ → ℤ → ℤ → ℤ → ℤ → ℤ → DateTime
  of_parts year month day hour minute second microsecond = datetime_to_timepoint (record {
    timepoint = pos 0;
    year = year;
    month = month;
    day = day;
    hour = hour;
    minute = minute;
    second = second;
    microsecond = microsecond;
  })

  unfoldable pub of_timepoint : ℤ → Option DateTime
  of_timepoint timepoint = timepoint_to_datetime timepoint (members timepoint)

  unfoldable pub copy_of : DateTime → DateTime
  copy_of rhs = of_parts rhs.year rhs.month rhs.day rhs.hour rhs.minute rhs.second rhs.microsecond
