-- ===== src/DateTime/Tests.antt =====
-- Dates of a calendar that has seconds only.
use ares_common.Common.{ℕ, ◌<◌, ◌≡◌, refl, some}
use ares_common.Common.Int.{ℤ, pos, negsuc, ◌+ℤ◌, ◌-ℤ◌, scale}
use ares_common.DateTime.{
  Tm, Calendar, DateTime, of_timepoint, copy_of, calendar_time, microseconds_of, seconds_of,
  ns_per_s, ns_per_us,
}
use ares_common.DateTime.Laws.{copy_lem}

abbrev at : ℤ → Tm
at s = record {
  tm_sec = s;
  tm_min = pos 0;
  tm_hour = pos 0;
  tm_mday = pos 1;
  tm_mon = pos 0;
  tm_year = pos 70;
}

abbrev seconds_only : Calendar
seconds_only = record { localtime = λ s. some (at s); mktime = λ tm. tm.tm_sec }

-- A second and a half before the epoch is half a second after the second before.
before_epoch :
    (microseconds_of (negsuc 1_499_999_999) ≡ pos 500_000)
    × (seconds_of (negsuc 1_499_999_999) ≡ negsuc 1)
unfolding microseconds_of seconds_of ◌+ℤ◌ ◌-ℤ◌
before_epoch = (refl, refl)

copy_lem_example :
    (d : DateTime) × (of_timepoint seconds_only (pos 1_500_000_007) ≡ some d)
    × (d.timepoint ≡ pos 1_500_000_007)
    × ((u : ℕ) × (d.microsecond ≡ pos u) × (u < 1_000_000))
    × (calendar_time d ≡ at (seconds_of (pos 1_500_000_007)))
    × (scale (seconds_of (pos 1_500_000_007)) ns_per_s +ℤ scale d.microsecond ns_per_us
        ≡ pos 1_500_000_000)
    × ((copy_of seconds_only d).timepoint
        ≡ scale (seconds_only.mktime (at (seconds_of (pos 1_500_000_007)))) ns_per_s
          +ℤ scale d.microsecond ns_per_us)
copy_lem_example =
    copy_lem seconds_only (pos 1_500_000_007) (at (seconds_of (pos 1_500_000_007))) refl
