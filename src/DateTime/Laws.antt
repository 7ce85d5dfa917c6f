-- ===== src/DateTime/Laws.antt =====
-- The time of a date and the date of a time.
use ares_common.Common.{
  ℕ, zero, suc, ◌+◌, ◌-◌, ◌*◌, ◌/◌, ◌%◌, ◌<◌, ◌≡◌, refl, sym, ap, ap₂, ◌∙◌, some, if◌then◌else◌,
  arith,
}
use mathlib.Core.Path.{subst}
use ares_common.Common.Int.{
  ℤ, pos, negsuc, neg, ◌+ℤ◌, ◌-ℤ◌, is_neg, scale, quotient, sub_ℕ, pos_part, neg_part,
}
use ares_common.Serial.Timeout.{remainder}
use ares_common.DateTime.{
  Tm, Calendar, DateTime, ns_per_us, ns_per_s, microseconds_of, seconds_of, timepoint_to_datetime,
  with_calendar, members, calendar_time, datetime_to_timepoint, of_parts, of_timepoint, copy_of,
}

-- The whole microseconds of a point, of which a fraction is cut off towards the epoch.
abbrev pub whole : ℤ → ℤ
whole timepoint = scale (quotient timepoint ns_per_us) ns_per_us

quotient-neg : (n k : ℕ) → quotient (neg n) k ≡ neg (n / k)
quotient-neg zero k = ground arith
quotient-neg (suc n) k = refl

scale-neg : (n k : ℕ) → scale (neg n) k ≡ neg (n * k)
scale-neg zero k = ground arith
scale-neg (suc n) k = refl

-- A difference that is not positive.
sub_ℕ-neg : (a d : ℕ) → sub_ℕ a (a + d) ≡ neg d
sub_ℕ-neg a zero = ground arith
sub_ℕ-neg a (suc d) = ground arith

pos_part-neg : (n : ℕ) → (pos_part (neg n) ≡ 0) × (neg_part (neg n) ≡ n)
pos_part-neg zero = (refl, refl)
pos_part-neg (suc n) = (refl, refl)

add-neg : (b d : ℕ) → neg (b + d) +ℤ pos b ≡ neg d
unfolding ◌+ℤ◌
add-neg b d =
    ap₂ sub_ℕ (ap (λ x. x + b) (pos_part-neg (b + d)).0 ∙ omega arith)
      (ap (λ x. x + 0) (pos_part-neg (b + d)).1 ∙ omega arith)
    ∙ sub_ℕ-neg b d

sub-neg : (a b : ℕ) → neg a -ℤ pos b ≡ neg (a + b)
unfolding ◌-ℤ◌
sub-neg a b =
    ap₂ sub_ℕ (ap (λ x. x + 0) (pos_part-neg a).0 ∙ omega arith)
      (ap (λ x. x + b) (pos_part-neg a).1 ∙ omega arith)
    ∙ sub_ℕ-neg 0 (a + b)

remainder-neg : (n k : ℕ) → remainder (negsuc n) k ≡ neg ((n + 1) % k)
remainder-neg n k = sub-neg 0 ((n + 1) % k) ∙ ap neg (omega arith)

-- The microseconds of a second that has u of them to its end.
abbrev pub after : ℕ → ℕ
after u = (1_000_000 - u) % 1_000_000

micro-neg :
    (u : ℕ)
    → u < 1_000_000
    → (if is_neg (neg u) then neg u +ℤ pos 1_000_000 else neg u) ≡ pos (after u)
unfolding ◌+ℤ◌
micro-neg zero h = ground arith
micro-neg (suc u) h = ground (arith, h)

-- The microseconds and the seconds of a point, after the epoch and before it.
microseconds-pos : (n : ℕ) → microseconds_of (pos n) ≡ pos (n % ns_per_s / ns_per_us)
unfolding microseconds_of
microseconds-pos n = refl

microseconds-neg :
    (n : ℕ) → microseconds_of (negsuc n) ≡ pos (after ((n + 1) % ns_per_s / ns_per_us))
unfolding microseconds_of
microseconds-neg n =
    let u = (n + 1) % ns_per_s / ns_per_us in
    let e : quotient (remainder (negsuc n) ns_per_s) ns_per_us ≡ neg u =
      rw (remainder-neg n ns_per_s) (quotient-neg ((n + 1) % ns_per_s) ns_per_us) in
    rw e (micro-neg u (omega arith))

seconds-pos : (n : ℕ) → seconds_of (pos n) ≡ pos (n / ns_per_s)
unfolding seconds_of ◌-ℤ◌
seconds-pos n = rw (microseconds-pos n) (ground arith)

seconds-neg :
    (n : ℕ)
    → seconds_of (negsuc n)
      ≡ neg ((suc n + after ((n + 1) % ns_per_s / ns_per_us) * ns_per_us) / ns_per_s)
unfolding seconds_of
seconds-neg n =
    let k = after ((n + 1) % ns_per_s / ns_per_us) * ns_per_us in
    rw (microseconds-neg n) (rw (sub-neg (suc n) k) (quotient-neg (suc n + k) ns_per_s))

whole-pos :
    (n : ℕ)
    → scale (seconds_of (pos n)) ns_per_s +ℤ scale (microseconds_of (pos n)) ns_per_us
      ≡ whole (pos n)
unfolding ◌+ℤ◌
whole-pos n = rw (seconds-pos n) (rw (microseconds-pos n) (ground arith))

-- The seconds and microseconds of a point m before the epoch.
seconds_after :
    (m : ℕ)
    → let b = after (m % ns_per_s / ns_per_us) * ns_per_us in
      (m + b) / ns_per_s * ns_per_s ≡ b + m / ns_per_us * ns_per_us
seconds_after m = omega arith

-- A point is made of its seconds and its microseconds again, but for less than a microsecond.
whole_lem : (t : ℤ) → scale (seconds_of t) ns_per_s +ℤ scale (microseconds_of t) ns_per_us ≡ whole t
whole_lem (pos n) = whole-pos n
whole_lem (negsuc n) =
    let b = after ((n + 1) % ns_per_s / ns_per_us) * ns_per_us in
    let s = (suc n + b) / ns_per_s in
    let same : n + 1 ≡ suc n = omega arith in
    let e : s * ns_per_s ≡ b + suc n / ns_per_us * ns_per_us =
      subst
        (λ m.
          (suc n + after (m % ns_per_s / ns_per_us) * ns_per_us) / ns_per_s * ns_per_s
          ≡ after (m % ns_per_s / ns_per_us) * ns_per_us + suc n / ns_per_us * ns_per_us)
        (sym same) (seconds_after (suc n)) in
    rw (seconds-neg n) (
      rw (microseconds-neg n) (
        ap (λ x. x +ℤ pos b) (scale-neg s ns_per_s ∙ ap neg e)
        ∙ add-neg b (suc n / ns_per_us * ns_per_us)
        ∙ sym (scale-neg (suc n / ns_per_us) ns_per_us)))

plus-minus : (z : ℤ) (k : ℕ) → (z +ℤ pos k) -ℤ pos k ≡ z
unfolding ◌+ℤ◌ ◌-ℤ◌
plus-minus z k = ground arith

microseconds-range : (t : ℤ) → (u : ℕ) × (microseconds_of t ≡ pos u) × (u < 1_000_000)
microseconds-range (pos n) = (_, microseconds-pos n, omega arith)
microseconds-range (negsuc n) = (_, microseconds-neg n, omega arith)

-- A date made from a point for which `localtime` gives a calendar time keeps the point, its
-- microseconds are less than a million, before the epoch too, and its calendar time is that of
-- `localtime`. The point's seconds and the date's microseconds make the point's whole microseconds,
-- and a copy of the date has the seconds that `mktime` finds for the calendar time, those of the
-- point or, where local time is ambiguous, others, with the same microseconds: what the point has
-- below a microsecond is lost.
pub copy_lem :
    (calendar : Calendar) (t : ℤ) (tm : Tm)
    → calendar.localtime (seconds_of t) ≡ some tm
    → (d : DateTime) × (of_timepoint calendar t ≡ some d)
      × (d.timepoint ≡ t)
      × ((u : ℕ) × (d.microsecond ≡ pos u) × (u < 1_000_000))
      × (calendar_time d ≡ tm)
      × (scale (seconds_of t) ns_per_s +ℤ scale d.microsecond ns_per_us ≡ whole t)
      × ((copy_of calendar d).timepoint
          ≡ scale (calendar.mktime tm) ns_per_s +ℤ scale d.microsecond ns_per_us)
unfolding of_timepoint timepoint_to_datetime copy_of of_parts datetime_to_timepoint
copy_lem calendar t tm l =
    let d : DateTime = record {
      timepoint = t;
      year = tm.tm_year +ℤ pos 1900;
      month = tm.tm_mon +ℤ pos 1;
      day = tm.tm_mday;
      hour = tm.tm_hour;
      minute = tm.tm_min;
      second = tm.tm_sec;
      microsecond = microseconds_of t;
    } in
    let same : calendar_time d ≡ tm =
      rw (plus-minus tm.tm_year 1900) (rw (plus-minus tm.tm_mon 1) refl) in
    (
      d,
      ap (with_calendar t (members t)) l,
      refl,
      microseconds-range t,
      same,
      whole_lem t,
      ap (λ x. scale (calendar.mktime x) ns_per_s +ℤ scale (microseconds_of t) ns_per_us) same,
    )
