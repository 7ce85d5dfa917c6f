-- ===== src/Serial/Transmit/Laws.antt =====
-- What `write` of serial_posix.cpp does with the bytes that it is given: the device gets the first of
-- them, in their order, and the call says how many.
use ares_common.Common.{
  ℕ, ◌-◌, ◌≡◌, refl, ap, ◌∙◌, ◌≤◌, ◌<◌, true, false, not, ltb, min, List, [], ◌∷◌, ◌++◌,
  append_assoc, Option, none, some, length, drop, take, take-drop, length-take, length-drop,
  length-append, ◌⊎◌, inl, inr, arith, Bool-cases, if-holds,
}
use ares_common.Serial.Timeout.{Timeout, time_left, time_left_tv, expired, restart}
use ares_common.Serial.Posix.{
  Exception, Outcome, SerialPosix, port_not_open, returned, threw, overflow, waiting,
}
use ares_common.Serial.Stream.{gave, failed, is_temporary}
use ares_common.Serial.Stream.Laws.{Leads, continue-Leads}
use ares_common.Serial.Transmit.{
  WriteRound, Writing, wait_write_timed, write_end, wait_write, written, write_answer, write_turn,
  write_loop, write,
}

-- The head of the loop: what the device has and what is left make up what was given, and a call that
-- does not block is in its first turn.
pub record IsWriting (total : List ℕ) (s : Writing) : Type 0 where
  pub conserved : s.sent ++ s.d ≡ total
  pub counted : s.tx_len ≡ length s.d
  pub first : (s.timeout.non_blocking ≡ false) ⊎ (s.sent ≡ [])

-- How a call that has sent k of n bytes can end: it returns k, it throws, or it waits with less than n.
abbrev pub SentAt : ℕ → ℕ → Outcome ℕ → Type 0
SentAt n k (returned m) = m ≡ k
SentAt n k (threw e) = Unit {0}
SentAt n k overflow = ⊥
SentAt n k waiting = k < n

abbrev pub WriteEnds : List ℕ → Writing × Outcome ℕ → Type 0
WriteEnds total (s, o) =
    (rest : List ℕ) × (s.sent ++ rest ≡ total) × SentAt (length total) (length s.sent) o

time_left-non_blocking : (now : ℕ) (t : Timeout) → (time_left now t).0.non_blocking ≡ t.non_blocking
unfolding time_left restart
time_left-non_blocking now t = ground arith

wait_write-non_blocking :
    (r : WriteRound) (t : Timeout) → (wait_write r t).0.non_blocking ≡ t.non_blocking
unfolding wait_write_timed expired time_left_tv
wait_write-non_blocking r t = ground (
  arith,
  time_left-non_blocking r.at_expired t,
  time_left-non_blocking r.at_time_left (time_left r.at_expired t).0,
  time_left-non_blocking r.at_time_left t,
)

module _ {total : List ℕ} where
  write_end-writes :
      (n : ℕ) (s : Writing) (w : Timeout × Option Exception)
      → s.sent ++ drop n s.d ≡ total
      → s.tx_len ≡ length s.d
      → w.0.non_blocking ≡ false
      → Leads (IsWriting total) (WriteEnds total) (write_end n s w)
  write_end-writes n s (t, none) c l f = record {
    conserved = c;
    counted = ground (arith, l, length-drop n s.d);
    first = inl f;
  }
  write_end-writes n s (t, some e) c l f = (drop n s.d, c, tt)

  written-writes :
      (r : WriteRound) (n : ℕ) (s : Writing)
      → IsWriting total s
      → n ≤ length s.d
      → Leads (IsWriting total) (WriteEnds total) (written r n s)
  written-writes r n s w h =
      let c : (s.sent ++ take n s.d) ++ drop n s.d ≡ total =
        append_assoc s.sent (take n s.d) (drop n s.d)
        ∙ ap (λ ys. s.sent ++ ys) (take-drop n s.d)
        ∙ w.conserved in
      let s' : Writing = record s { sent = s.sent ++ take n s.d } in
      if-holds (Leads (IsWriting total) (WriteEnds total)) s.timeout.non_blocking _ _
        (λ b. (
          drop n s.d,
          c,
          ground (arith, b, w.first, length-append s.sent (take n s.d), length-take n s.d, h),
        ))
        (λ b.
          write_end-writes n s' (wait_write r s.timeout) c w.counted
            (wait_write-non_blocking r s.timeout ∙ b))

  turn-writes :
      (r : WriteRound) (s : Writing)
      → IsWriting total s
      → Leads (IsWriting total) (WriteEnds total) (write_turn r s)
  unfolding write_turn
  turn-writes r s w =
      elim r.answer as (λ a. Leads (IsWriting total) (WriteEnds total) (write_answer r a s)) [
        | gave k ↦ written-writes r (min k s.tx_len) s w (ground (arith, w.counted))
        | failed e ↦
            if-holds (Leads (IsWriting total) (WriteEnds total)) (not (is_temporary e)) _ _
              (λ b. (s.d, w.conserved, tt)) (λ b. written-writes r 0 s w (omega arith))
      ]

  done-writes :
      (s : Writing)
      → IsWriting total s
      → ltb 0 s.tx_len ≡ false
      → WriteEnds total (s, returned (length total - length s.d))
  done-writes s w b =
      (s.d, w.conserved, ground (arith, b, w.counted, w.conserved, length-append s.sent s.d))

  waiting-writes :
      (s : Writing) → IsWriting total s → ltb 0 s.tx_len ≡ true → WriteEnds total (s, waiting)
  waiting-writes s w b =
      (s.d, w.conserved, ground (arith, b, w.counted, w.conserved, length-append s.sent s.d))

  pub loop-writes :
      (rs : List WriteRound) (s : Writing)
      → IsWriting total s
      → WriteEnds total (write_loop (length total) rs s)
  unfolding write_loop
  loop-writes [] s w =
      if-holds (λ o. WriteEnds total (s, o)) (ltb 0 s.tx_len) _ _ (waiting-writes s w)
        (done-writes s w)
  loop-writes (r ∷ rs) s w =
      if-holds (WriteEnds total) (not (ltb 0 s.tx_len)) _ _
        (λ b. done-writes s w (ground (arith, b)))
        (λ b.
          continue-Leads (IsWriting total) (WriteEnds total) (write_loop (length total) rs)
            (write_turn r s) (λ s'. loop-writes rs s') (turn-writes r s w))

-- A call of `write` fails at once if the port is not open. If it is, then what the device gets is the
-- first part of what was given, and its length is what the call returns, if it returns. It waits only
-- while a byte is left.
pub write_lem :
    (p : SerialPosix) (start : ℕ) (rounds : List WriteRound) (b : List ℕ)
    → let (sent, o) = write p start rounds b in
      ((p.is_open ≡ false) × (sent ≡ []) × (o ≡ threw port_not_open))
      ⊎ ((p.is_open ≡ true)
          × ((rest : List ℕ) × (sent ++ rest ≡ b) × SentAt (length b) (length sent) o))
unfolding write
write_lem p start rounds b = elim (Bool-cases p.is_open) [
  | inl h ↦ rw h (
      inr (
        refl,
        loop-writes rounds _ (record { conserved = refl; counted = refl; first = inr refl }),
      ))
  | inr h ↦ rw h (inl (refl, refl, refl))
]
