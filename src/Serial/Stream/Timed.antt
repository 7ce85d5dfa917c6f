-- ===== src/Serial/Stream/Timed.antt =====
-- That `read` of serial_posix.cpp with a timeout ends.
use ares_common.Common.{
  ℕ, ◌+◌, ◌-◌, ◌*◌, ◌^◌, ◌≡◌, ◌≢◌, refl, ap, ◌≤◌, ◌<◌, Bool, true, false, ◌&&◌, ◌||◌, if◌then◌else◌,
  ◌==◌, ltb, leb, List, [], ◌∷◌, inl, inr, arith, Bool-cases,
}
use ares_common.Common.Int.{pos}
use ares_common.Serial.Timeout.{Timeout, create, ns_per_ms, ns_left, timeout_lem}
use ares_common.Serial.Posix.{
  Exception, Outcome, SerialPosix, port_not_open, returned, threw, waiting,
}
use ares_common.Serial.Stream.{
  is_temporary, ReadRound, Bytes, bytes, errno, read_port, Reading, read_end, read_result, asked,
  read_turn, read_loop, read, etimedout,
}
use ares_common.Serial.Stream.Laws.{Leads, continue-Leads}

-- The clock does not stand before the start, and a round has ended at or after a time.
abbrev pub since : ℕ → List ReadRound → Bool
since start [] = true
since start (r ∷ rs) = leb start r.before && leb start r.after && since start rs

abbrev pub lasts_until : ℕ → List ReadRound → Bool
lasts_until time [] = false
lasts_until time (r ∷ rs) = leb time r.after || lasts_until time rs

abbrev Ends : Reading × Outcome ℕ → Type 0
Ends (s, o) = o ≢ waiting

returned-waiting : (k : ℕ) → ◌≢◌ {A = Outcome ℕ} (returned k) waiting
returned-waiting k h = ground (arith, h)

threw-waiting : (e : Exception) → ◌≢◌ {A = Outcome ℕ} (threw e) waiting
threw-waiting e h = ground (arith, h)

if-same : {A : Type 0} (b : Bool) (x y : A) → y ≡ x → (if b then x else y) ≡ x
if-same true x y e = refl
if-same false x y e = e

module _ (start ms : ℕ) (some_time : 0 < ms) (fits : start + ms * ns_per_ms < 2 ^ 63 - 1) where
  abbrev limit : Timeout
  limit = create start (pos ms)

  abbrev deadline : ℕ
  deadline = start + ms * ns_per_ms

  -- The time is not over yet, but there is a round at which it is.
  record Runs (rs : List ReadRound) (s : Reading) : Type 0 where
    limited : s.timeout ≡ limit
    on : since start rs ≡ true
    up : lasts_until deadline rs ≡ true

  asked-limit : (now : ℕ) → start ≤ now → asked now limit ≡ limit
  asked-limit now h =
      if-same limit.infinite limit _ (ap (λ x. x.0) (timeout_lem start ms now some_time h fits).2)

  -- At the end of a turn the time is over, or it is before the deadline.
  read_end-Runs :
      (after : ℕ) (rs : List ReadRound) (s : Reading)
      → s.timeout ≡ limit
      → start ≤ after
      → since start rs ≡ true
      → leb deadline after || lasts_until deadline rs ≡ true
      → Leads (Runs rs) Ends (read_end after s)
  read_end-Runs after rs s t h o u = rw t (
      rw (timeout_lem start ms after some_time h fits).1
        (elim (Bool-cases (ltb (ns_left start ms after) ns_per_ms)) [
          | inl b ↦ rw b (returned-waiting s.bytes_read)
          | inr b ↦ rw b (record { limited = refl; on = o; up = ground (arith, b, u) })
        ]))

  read_result-Runs :
      (after : ℕ) (rs : List ReadRound) (s : Reading) (answer : Bytes) (input : List ℕ)
      → s.timeout ≡ limit
      → start ≤ after
      → since start rs ≡ true
      → leb deadline after || lasts_until deadline rs ≡ true
      → Leads (Runs rs) Ends (read_result after s (answer, input))
  read_result-Runs after rs s (bytes []) input t h o u = threw-waiting _
  read_result-Runs after rs s (bytes (x ∷ xs)) input t h o u = read_end-Runs after rs _ t h o u
  read_result-Runs after rs s (errno e) input t h o u =
      elim (Bool-cases (is_temporary e || e == etimedout)) [
        | inl b ↦ rw b (read_end-Runs after rs s t h o u)
        | inr b ↦ rw b (threw-waiting _)
      ]

  turn-Runs :
      (n : ℕ) (r : ReadRound) (rs : List ReadRound) (s : Reading)
      → Runs (r ∷ rs) s
      → Leads (Runs rs) Ends (read_turn n r s)
  unfolding read_turn
  turn-Runs n r rs s w = elim (Bool-cases (ltb s.bytes_read n)) [
    | inl b ↦
        let same : asked r.before s.timeout ≡ limit =
          rw w.limited (asked-limit r.before (ground (arith, w.on))) in
        let (answer, input) = read_port r.selected r.answer (n - s.bytes_read) s.input in
        rw b (
          read_result-Runs r.after rs (record s { timeout = asked r.before s.timeout }) answer input
            same (ground (arith, w.on)) (ground (arith, w.on)) w.up)
    | inr b ↦ rw b (returned-waiting s.bytes_read)
  ]

  loop-Runs : (n : ℕ) (rs : List ReadRound) (s : Reading) → Runs rs s → Ends (read_loop rs n s)
  unfolding read_loop
  loop-Runs n [] s w = ground (arith, w.up)
  loop-Runs n (r ∷ rs) s w =
      continue-Leads (Runs rs) Ends (read_loop rs n) (read_turn n r s)
        (λ s' w'. loop-Runs n rs s' w') (turn-Runs n r rs s w)

-- A port with a read timeout of at least one millisecond, over before the clock's last nanosecond,
-- does not wait forever: `read` ends if one of its turns ends when the timeout is over, whatever the
-- system answered, as long as the clock does not go back before the start.
pub read_ends :
    (p : SerialPosix) (start ms : ℕ) (rounds : List ReadRound) (b : List ℕ) (n : ℕ) (input : List ℕ)
    → p.attr.timeout ≡ pos ms
    → 0 < ms
    → start + ms * ns_per_ms < 2 ^ 63 - 1
    → since start rounds ≡ true
    → lasts_until (start + ms * ns_per_ms) rounds ≡ true
    → (read p start rounds b n input).1 ≢ waiting
unfolding read
read_ends p start ms rounds b n input t z f o u = elim (Bool-cases p.is_open) [
  | inl h ↦
      rw h (rw t (loop-Runs start ms z f n rounds _ (record { limited = refl; on = o; up = u })))
  | inr h ↦ rw h (threw-waiting port_not_open)
]
