-- ===== src/Serial/Timeout.antt =====
-- `Timeout` of include/ares/serial/core/serial_base.hpp and src/serial/core/serial_base.cpp. The clock
-- is read by the caller of each function, in nanoseconds; two readings that follow each other
-- directly are taken as one.
use ares_common.Common.{
  ℕ, zero, suc, le-cases, inl, inr, ◌+◌, ◌-◌, ◌*◌, ◌/◌, ◌%◌, ◌^◌, ◌<◌, ◌≤◌, ◌≡◌, ap, Bool, false,
  not, if◌then◌else◌, ltb, arith,
}
use ares_common.Common.Int.{
  ℤ, pos, negsuc, neg, int_eq, ms_zero, ms_max, ◌+ℤ◌, ◌-ℤ◌, ltb_ℤ, scale, quotient,
}

abbrev pub ns_per_ms : ℕ
ns_per_ms = 1_000_000

-- `steady_clock::time_point::max()`.
abbrev pub time_max : ℤ
time_max = pos (2 ^ 63 - 1)

pub record Timeout : Type 0 where
  pub duration : ℤ
  pub target_time : ℤ
  pub infinite : Bool
  pub non_blocking : Bool

-- `now + timeout`, in the clock's nanoseconds.
abbrev pub later : ℕ → ℤ → ℤ
later now timeout = pos now +ℤ scale timeout ns_per_ms

-- The constructor.
unfoldable pub create : ℕ → ℤ → Timeout
create now timeout = record {
  duration = timeout;
  target_time = if int_eq timeout ms_max then time_max else later now timeout;
  infinite = int_eq timeout ms_max;
  non_blocking = int_eq timeout ms_zero;
}

unfoldable pub restart : ℕ → ℤ → Timeout → Timeout
restart now duration t = record t { duration = duration; target_time = later now duration }

abbrev pub not_negative : ℤ → ℤ
not_negative (pos n) = pos n
not_negative (negsuc n) = pos 0

-- `time_left`, which starts again when the clock has jumped back.
unfoldable pub time_left : ℕ → Timeout → Timeout × ℤ
time_left now t =
    if t.non_blocking
    then (t, ms_zero)
    else if t.infinite
    then (t, ms_max)
    else (let delta = quotient (t.target_time -ℤ pos now) ns_per_ms in
        if ltb_ℤ t.duration delta
        then (restart now t.duration t, t.duration)
        else (t, not_negative delta))

unfoldable pub expired : ℕ → Timeout → Timeout × Bool
expired now t =
    if int_eq t.target_time time_max
    then (t, false)
    else (let (t', left) = time_left now t in (t', not (ltb_ℤ ms_zero left)))

-- `struct timeval`.
pub record TimeVal : Type 0 where
  pub tv_sec : ℤ
  pub tv_usec : ℤ

-- The remainder has the sign of the left operand.
abbrev pub remainder : ℤ → ℕ → ℤ
remainder (pos n) k = pos (n % k)
remainder (negsuc n) k = pos 0 -ℤ pos ((n + 1) % k)

unfoldable pub time_left_tv : ℕ → Timeout → Timeout × TimeVal
time_left_tv now t =
    let (t', left) = time_left now t in
    (t', record { tv_sec = quotient left 1000; tv_usec = remainder (scale left 1000) 1_000_000 })

-- How long a timeout of `ms` milliseconds, made at `start`, has still to run at `now`.
abbrev pub ns_left : ℕ → ℕ → ℕ → ℕ
ns_left start ms now = ms * ns_per_ms - (now - start)

-- A time that has passed leaves nothing.
passed : (ms k : ℕ) → (ltb_ℤ (pos ms) (neg k) ≡ false) × (not_negative (neg k) ≡ pos 0)
passed ms zero = ground arith
passed ms (suc k) = ground arith

module _ (start ms now : ℕ) (some_time : 0 < ms) (since : start ≤ now)
    (fits : start + ms * ns_per_ms < 2 ^ 63 - 1) where
  abbrev fresh : Timeout
  fresh = record {
    duration = pos ms;
    target_time = pos (start + ms * ns_per_ms);
    infinite = false;
    non_blocking = false;
  }

  create-fresh : create start (pos ms) ≡ fresh
  unfolding create ◌+ℤ◌
  create-fresh = ground arith

  time_left-fresh : time_left now fresh ≡ (fresh, pos (ns_left start ms now / ns_per_ms))
  unfolding time_left ◌-ℤ◌
  time_left-fresh = elim (le-cases now (start + ms * ns_per_ms)) [
    | inl early ↦ ground (arith, early)
    | inr late ↦ ground (arith, late, passed ms ((now - (start + ms * ns_per_ms)) / ns_per_ms))
  ]

  expired-fresh : expired now fresh ≡ (fresh, ltb (ns_left start ms now) ns_per_ms)
  unfolding expired
  expired-fresh = ground (arith, time_left-fresh)

  tv-fresh : time_left_tv now fresh ≡ (
    fresh,
    record {
      tv_sec = pos (ns_left start ms now / ns_per_ms / 1000);
      tv_usec = pos (ns_left start ms now / ns_per_ms % 1000 * 1000);
    },
  )
  unfolding time_left_tv
  tv-fresh =
      let left = ns_left start ms now / ns_per_ms in
      rw time_left-fresh
        (ap (λ n. (fresh, record { tv_sec = pos (left / 1000); tv_usec = pos n })) (omega arith))

  -- A timeout of at least one millisecond that is over before the clock's last nanosecond, at any time
  -- from when it was made on: asking does not change it, the time left is what has not passed yet,
  -- rounded down to milliseconds, it is expired exactly when less than a millisecond is left, and its
  -- `timeval` is the time left in seconds and less than a million microseconds.
  pub timeout_lem :
      let t = create start (pos ms) in
      let left = ns_left start ms now / ns_per_ms in
      (time_left now t ≡ (t, pos left))
      × (expired now t ≡ (t, ltb (ns_left start ms now) ns_per_ms))
      × (time_left_tv now t
          ≡ (t, record { tv_sec = pos (left / 1000); tv_usec = pos (left % 1000 * 1000) }))
  timeout_lem = rw create-fresh (time_left-fresh, expired-fresh, tv-fresh)
