-- ===== src/Serial/Stream/Laws.antt =====
-- What `read` of serial_posix.cpp does with the bytes of the device: it neither loses, repeats nor
-- reorders one, whatever the system answers.
use ares_common.Common.{
  ℕ, ◌+◌, ◌-◌, ◌≡◌, refl, sym, ap, ◌∙◌, ◌≤◌, ◌<◌, true, false, not, ◌||◌, ◌==◌, ltb, min, List, [],
  ◌∷◌, ◌++◌, append_assoc, length, drop, take, take-drop, length-take, length-append, ◌⊎◌, inl, inr,
  arith, Bool-cases,
}
use ares_common.Serial.Timeout.{expired}
use ares_common.Serial.Posix.{
  Outcome, SerialPosix, port_not_open, returned, threw, overflow, waiting,
}
use ares_common.Serial.Stream.{
  Reply, gave, failed, Selected, ready, time_over, select_failed, Turn, go, stop, continue,
  is_temporary, ReadRound, bytes, read_answer, read_port, Reading, read_end, read_result, asked,
  read_turn, read_loop, read, etimedout,
}

-- Of n bytes wanted and all that there were at the start, so many have been read.
pub record IsReading (n : ℕ) (total : List ℕ) (s : Reading) : Type 0 where
  pub conserved : s.b ++ s.input ≡ total
  pub counted : s.bytes_read ≡ length s.b
  pub bounded : s.bytes_read ≤ n

-- How a call that has read k of n bytes can end: it returns k, or it throws or waits with less than n.
abbrev pub EndsAt : ℕ → ℕ → Outcome ℕ → Type 0
EndsAt n k (returned m) = m ≡ k
EndsAt n k (threw e) = k < n
EndsAt n k overflow = ⊥
EndsAt n k waiting = k < n

-- A turn that leads from P to Q: it goes on with P, or stops with Q.
abbrev pub Leads : {S : Type 0} → (S → Type 0) → (S × Outcome ℕ → Type 0) → Turn S → Type 0
Leads P Q (go s) = P s
Leads P Q (stop s o) = Q (s, o)

pub continue-Leads :
    {S : Type 0} (P : S → Type 0) (Q : S × Outcome ℕ → Type 0) (f : S → S × Outcome ℕ) (t : Turn S)
    → ((s : S) → P s → Q (f s))
    → Leads P Q t
    → Q (continue f t)
continue-Leads P Q f (go s) h w = h s w
continue-Leads P Q f (stop s o) h w = w

abbrev pub ReadEnds : ℕ → List ℕ → Reading × Outcome ℕ → Type 0
ReadEnds n total (s, o) = IsReading n total s × EndsAt n s.bytes_read o

abbrev TurnReads : ℕ → List ℕ → Turn Reading → Type 0
TurnReads n total = Leads (IsReading n total) (ReadEnds n total)

module _ {n : ℕ} {total : List ℕ} where
  read_end-reads :
      (after : ℕ) (s : Reading) → IsReading n total s → TurnReads n total (read_end after s)
  read_end-reads after s w = elim (Bool-cases (expired after s.timeout).1) [
    | inl h ↦
        rw h (record { conserved = w.conserved; counted = w.counted; bounded = w.bounded }, refl)
    | inr h ↦ rw h (record { conserved = w.conserved; counted = w.counted; bounded = w.bounded })
  ]

  -- The bytes of one answer.
  read_some-reads :
      (after : ℕ) (s : Reading) (xs input : List ℕ)
      → IsReading n total s
      → s.bytes_read < n
      → xs ++ input ≡ s.input
      → s.bytes_read + length xs ≤ n
      → TurnReads n total (read_result after s (bytes xs, input))
  read_some-reads after s [] input w l e h = (w, l)
  read_some-reads after s (x ∷ xs) input w l e h = read_end-reads after _ (record {
    conserved = append_assoc s.b (x ∷ xs) input ∙ ap (λ ys. s.b ++ ys) e ∙ w.conserved;
    counted = ground (arith, w.counted, length-append s.b (x ∷ xs));
    bounded = h;
  })

  read_answer-reads :
      (after : ℕ) (s : Reading) (answer : Reply)
      → IsReading n total s
      → s.bytes_read < n
      → TurnReads n total (read_result after s (read_answer answer (n - s.bytes_read) s.input))
  read_answer-reads after s (gave k) w l =
      let m = min k (n - s.bytes_read) in
      read_some-reads after s (take m s.input) (drop m s.input) w l (take-drop m s.input)
        (ground (arith, length-take m s.input, w.bounded))
  read_answer-reads after s (failed e) w l =
      elim (Bool-cases (not (is_temporary e || e == etimedout))) [
        | inl h ↦ rw h (w, l)
        | inr h ↦ rw h (read_end-reads after s w)
      ]

  read_port-reads :
      (after : ℕ) (s : Reading) (selected : Selected) (answer : Reply)
      → IsReading n total s
      → s.bytes_read < n
      → TurnReads n total
          (read_result after s (read_port selected answer (n - s.bytes_read) s.input))
  unfolding read_port
  read_port-reads after s ready answer w l = read_answer-reads after s answer w l
  read_port-reads after s time_over answer w l = read_end-reads after s w
  read_port-reads after s (select_failed e) answer w l = read_answer-reads after s answer w l

  read_turn-reads :
      (r : ReadRound) (s : Reading) → IsReading n total s → TurnReads n total (read_turn n r s)
  unfolding read_turn
  read_turn-reads r s w = elim (Bool-cases (not (ltb s.bytes_read n))) [
    | inl h ↦ rw h (w, refl)
    | inr h ↦ rw h (
        read_port-reads r.after (record s { timeout = asked r.before s.timeout }) r.selected
          r.answer (record { conserved = w.conserved; counted = w.counted; bounded = w.bounded })
          (ground (arith, h)))
  ]

  pub read_loop-reads :
      (rounds : List ReadRound) (s : Reading)
      → IsReading n total s
      → ReadEnds n total (read_loop rounds n s)
  unfolding read_loop
  read_loop-reads [] s w = elim (Bool-cases (ltb s.bytes_read n)) [
    | inl h ↦ rw h (w, ground (arith, h))
    | inr h ↦ rw h (w, refl)
  ]
  read_loop-reads (r ∷ rs) s w =
      continue-Leads (IsReading n total) (ReadEnds n total) (read_loop rs n) (read_turn n r s)
        (λ s'. read_loop-reads rs s') (read_turn-reads r s w)

-- A call of `read` for n bytes fails at once if the port is not open. If it is, then what the vector
-- has in the end, followed by what the device still has, is what the device had; it is at most n
-- bytes, and their number is what the call returns, if it returns. It throws or waits only
-- while the vector has less than n bytes.
pub read_lem :
    (p : SerialPosix) (start : ℕ) (rounds : List ReadRound) (b : List ℕ) (n : ℕ) (input : List ℕ)
    → let r = read p start rounds b n input in
      ((p.is_open ≡ false) × (r ≡ ((b, input), threw port_not_open)))
      ⊎ ((p.is_open ≡ true)
          × (r.0.0 ++ r.0.1 ≡ input)
          × (length r.0.0 ≤ n)
          × EndsAt n (length r.0.0) r.1)
unfolding read
read_lem p start rounds b n input = elim (Bool-cases p.is_open) [
  | inl h ↦ rw h (
      let (w, e) =
        read_loop-reads {total = input} rounds _
          (record { conserved = refl; counted = refl; bounded = omega arith }) in
      inr (refl, w.conserved, rw (sym w.counted) w.bounded, rw (sym w.counted) e))
  | inr h ↦ rw h (inl (refl, refl))
]
