-- ===== src/Serial/Transmit/Ends.antt =====
-- That `write` of serial_posix.cpp without a timeout writes everything.
use mathlib.Core.Path.{subst}
use ares_common.Common.{
  ℕ, zero, suc, ◌-◌, ◌≡◌, refl, sym, ap, ◌∙◌, ◌≤◌, Bool, true, false, not, ◌&&◌, if◌then◌else◌, ltb,
  min, List, [], ◌∷◌, ◌++◌, append-nil, none, length, length-drop, length-append, inr, arith,
  if-holds,
}
use ares_common.Common.Int.{ms_max}
use ares_common.Serial.Timeout.{create}
use ares_common.Serial.Posix.{Outcome, SerialPosix, returned}
use ares_common.Serial.Stream.{
  Reply, gave, failed, Selected, ready, time_over, select_failed, is_temporary,
}
use ares_common.Serial.Stream.Laws.{Leads, continue-Leads}
use ares_common.Serial.Transmit.{
  WriteRound, Writing, wait_write_blocking, wait_write, written, write_answer, write_turn,
  write_loop, write,
}
use ares_common.Serial.Transmit.Laws.{SentAt, WriteEnds, loop-writes}

-- Whether a round takes a byte, and whether it is no error. `select` without a time is not over.
abbrev pub takes : Reply → Bool
takes (gave (suc k)) = true
takes _ = false

abbrev pub is_kept : Selected → Reply → Bool
is_kept time_over answer = false
is_kept selected (gave k) = true
is_kept selected (failed e) = is_temporary e

abbrev pub all_kept : List WriteRound → Bool
all_kept [] = true
all_kept (r ∷ rs) = is_kept r.selected r.answer && all_kept rs

abbrev pub takings : List WriteRound → ℕ
takings [] = 0
takings (r ∷ rs) = if takes r.answer then suc (takings rs) else takings rs

module _ (start size : ℕ) where
  record Goes (rs : List WriteRound) (s : Writing) : Type 0 where
    unlimited : s.timeout ≡ create start ms_max
    counted : s.tx_len ≡ length s.d
    enough : length s.d ≤ takings rs

  abbrev All : Writing × Outcome ℕ → Type 0
  All (s, o) = o ≡ returned (size - 0)

  wait-Goes :
      (r : WriteRound)
      → is_kept r.selected r.answer ≡ true
      → wait_write r (create start ms_max) ≡ (create start ms_max, none)
  unfolding create wait_write_blocking
  wait-Goes r f = ground (arith, f)

  written-Goes :
      (r : WriteRound) (rs : List WriteRound) (n : ℕ) (s : Writing)
      → s.timeout ≡ create start ms_max
      → s.tx_len ≡ length s.d
      → length s.d - n ≤ takings rs
      → is_kept r.selected r.answer ≡ true
      → Leads (Goes rs) All (written r n s)
  unfolding create
  written-Goes r rs n s t l e f = rw t (
      rw (wait-Goes r f) (record {
        unlimited = refl;
        counted = ground (arith, l, length-drop n s.d);
        enough = ground (arith, e, length-drop n s.d);
      }))

  kept-temporary :
      (selected : Selected) (e : ℕ) → is_kept selected (failed e) ≡ true → is_temporary e ≡ true
  kept-temporary ready e f = f
  kept-temporary time_over e f = ground (arith, f)
  kept-temporary (select_failed d) e f = f

  answer-Goes :
      (r : WriteRound) (rs : List WriteRound) (a : Reply) (s : Writing)
      → s.timeout ≡ create start ms_max
      → s.tx_len ≡ length s.d
      → length s.d ≤ (if takes a then suc (takings rs) else takings rs)
      → is_kept r.selected a ≡ true
      → is_kept r.selected r.answer ≡ true
      → Leads (Goes rs) All (write_answer r a s)
  answer-Goes r rs (gave zero) s t l e f g =
      written-Goes r rs (min 0 s.tx_len) s t l (ground (arith, e)) g
  answer-Goes r rs (gave (suc k)) s t l e f g =
      written-Goes r rs (min (suc k) s.tx_len) s t l (ground (arith, e, l)) g
  answer-Goes r rs (failed n) s t l e f g =
      rw (kept-temporary r.selected n f) (written-Goes r rs 0 s t l (ground (arith, e)) g)

  turn-Goes :
      (r : WriteRound) (rs : List WriteRound) (s : Writing)
      → Goes (r ∷ rs) s
      → is_kept r.selected r.answer ≡ true
      → Leads (Goes rs) All (write_turn r s)
  unfolding write_turn
  turn-Goes r rs s w f = answer-Goes r rs r.answer s w.unlimited w.counted w.enough f f

  done-All :
      (s : Writing) (rs : List WriteRound)
      → Goes rs s
      → ltb 0 s.tx_len ≡ false
      → returned (size - length s.d) ≡ returned (size - 0)
  done-All s rs w b = ground (arith, b, w.counted)

  loop-Goes :
      (rs : List WriteRound) (s : Writing)
      → Goes rs s
      → all_kept rs ≡ true
      → All (write_loop size rs s)
  unfolding write_loop
  loop-Goes [] s w f =
      if-holds (λ o. All (s, o)) (ltb 0 s.tx_len) _ _
        (λ b. absurd (ground (arith, b, w.counted, w.enough))) (done-All s [] w)
  loop-Goes (r ∷ rs) s w f =
      if-holds All (not (ltb 0 s.tx_len)) _ _ (λ b. done-All s (r ∷ rs) w (ground (arith, b)))
        (λ b.
          continue-Leads (Goes rs) All (write_loop size rs) (write_turn r s)
            (λ s' w'. loop-Goes rs s' w' (ground (arith, f)))
            (turn-Goes r rs s w (ground (arith, f))))

no_rest : (xs ys : List ℕ) → length xs ≡ length (xs ++ ys) → xs ≡ xs ++ ys
no_rest xs [] e = sym (append-nil xs)
no_rest xs (y ∷ ys) e = absurd (ground (arith, e, length-append xs (y ∷ ys)))

-- What was written in full is all that was given.
whole :
    (sent rest b : List ℕ) (o : Outcome ℕ)
    → sent ++ rest ≡ b
    → SentAt (length b) (length sent) o
    → o ≡ returned (length b - 0)
    → ◌≡◌ {A = List ℕ × Outcome ℕ} (sent, o) (b, returned (length b))
whole sent rest b o c e r =
    let ends : SentAt (length b) (length sent) (returned (length b - 0)) =
      subst (λ x. SentAt (length b) (length sent) x) r e in
    let size : length b - 0 ≡ length b = omega arith in
    let all : sent ≡ b = no_rest sent rest (rw c (omega (arith, ends))) ∙ c in
    rw r (rw size (ap (λ xs. (xs, returned (length b))) all))

-- A port without a write timeout sends every byte that it is given, in order, and returns their
-- number, as soon as as many rounds have taken some as there are bytes, if no round was an error.
pub write_complete :
    (p : SerialPosix) (start : ℕ) (rounds : List WriteRound) (b : List ℕ)
    → p.is_open ≡ true
    → p.attr.write_timeout ≡ ms_max
    → all_kept rounds ≡ true
    → length b ≤ takings rounds
    → write p start rounds b ≡ (b, returned (length b))
unfolding write
write_complete p start rounds b op un f d =
    let s : Writing = record {
      d = b;
      tx_len = length b;
      timeout = create start ms_max;
      sent = [];
    } in
    let (rest, c, e) : WriteEnds b (write_loop (length b) rounds s) =
      loop-writes rounds s (record { conserved = refl; counted = refl; first = inr refl }) in
    rw op (
      rw un (
        whole _ rest b _ c e (
          loop-Goes start (length b) rounds s
            (record { unlimited = refl; counted = refl; enough = d }) f)))
