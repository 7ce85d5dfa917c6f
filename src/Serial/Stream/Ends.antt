-- ===== src/Serial/Stream/Ends.antt =====
-- That `read` of serial_posix.cpp ends: without a timeout when the device has delivered what is wanted,
-- with one when its time is over.
use ares_common.Common.{
  ℕ, zero, suc, ◌+◌, ◌-◌, ◌≡◌, refl, sym, ◌≤◌, ◌<◌, Bool, true, false, ◌&&◌, ◌||◌, if◌then◌else◌,
  ◌==◌, ltb, min, List, [], ◌∷◌, ◌++◌, length, drop, take, take-append, drop-append, length-take,
  length-drop, inl, inr, arith, Bool-cases,
}
use mathlib.Core.Path.{subst}
use ares_common.Common.Int.{ms_max}
use ares_common.Serial.Timeout.{create, expired}
use ares_common.Serial.Posix.{Outcome, SerialPosix, returned}
use ares_common.Serial.Stream.{
  Reply, gave, failed, Selected, ready, time_over, select_failed, is_temporary, ReadRound, bytes,
  errno, read_answer, read_port, Reading, read_end, read_result, asked, read_turn, read_loop, read,
  etimedout,
}
use ares_common.Serial.Stream.Laws.{Leads, continue-Leads, EndsAt, ReadEnds, read_loop-reads}

-- Whether a round brings a byte, and whether it is no error: it brings one, the time of `select` is
-- over, or `read(2)` is to be tried again.
abbrev pub brings : Selected → Reply → Bool
brings time_over answer = false
brings selected (gave (suc k)) = true
brings selected _ = false

abbrev pub is_fine : Selected → Reply → Bool
is_fine time_over answer = true
is_fine selected (gave zero) = false
is_fine selected (gave (suc k)) = true
is_fine selected (failed e) = is_temporary e || e == etimedout

abbrev pub all_fine : List ReadRound → Bool
all_fine [] = true
all_fine (r ∷ rs) = is_fine r.selected r.answer && all_fine rs

abbrev pub deliveries : List ReadRound → ℕ
deliveries [] = 0
deliveries (r ∷ rs) = if brings r.selected r.answer then suc (deliveries rs) else deliveries rs

pub forever-expires :
    (start now : ℕ) → expired now (create start ms_max) ≡ (create start ms_max, false)
unfolding expired create
forever-expires start now = refl

asked-forever : (start now : ℕ) → asked now (create start ms_max) ≡ create start ms_max
unfolding create
asked-forever start now = refl

module _ (start n : ℕ) where
  -- What is wanted has still time to come.
  record Comes (rs : List ReadRound) (s : Reading) : Type 0 where
    unlimited : s.timeout ≡ create start ms_max
    enough_rounds : n ≤ s.bytes_read + deliveries rs
    enough_input : n ≤ s.bytes_read + length s.input

  abbrev Complete : Reading × Outcome ℕ → Type 0
  Complete (s, o) = (n ≤ s.bytes_read) × (o ≡ returned s.bytes_read)

  read_end-Comes :
      (rs : List ReadRound) (after : ℕ) (s : Reading)
      → Comes rs s
      → Leads (Comes rs) Complete (read_end after s)
  read_end-Comes rs after s w = rw w.unlimited (
      rw (forever-expires start after) (record {
        unlimited = refl;
        enough_rounds = w.enough_rounds;
        enough_input = w.enough_input;
      }))

  read_some-Comes :
      (rs : List ReadRound) (after : ℕ) (s : Reading) (xs input : List ℕ)
      → s.timeout ≡ create start ms_max
      → 0 < length xs
      → n ≤ s.bytes_read + length xs + deliveries rs
      → n ≤ s.bytes_read + length xs + length input
      → Leads (Comes rs) Complete (read_result after s (bytes xs, input))
  read_some-Comes rs after s [] input t z r i = absurd (omega arith)
  read_some-Comes rs after s (x ∷ xs) input t z r i =
      read_end-Comes rs after _ (record { unlimited = t; enough_rounds = r; enough_input = i })

  -- A turn that brings bytes.
  read_bytes-Comes :
      (rs : List ReadRound) (after k : ℕ) (s : Reading)
      → s.timeout ≡ create start ms_max
      → s.bytes_read < n
      → n ≤ s.bytes_read + suc (deliveries rs)
      → n ≤ s.bytes_read + length s.input
      → Leads
          (Comes rs)
          Complete
          (read_result after s (read_answer (gave (suc k)) (n - s.bytes_read) s.input))
  read_bytes-Comes rs after k s t h r i =
      let m = min (suc k) (n - s.bytes_read) in
      let xs = take m s.input in
      read_some-Comes rs after s xs (drop m s.input) t (ground (arith, length-take m s.input))
        (ground (arith, length-take m s.input))
        (ground (arith, length-take m s.input, length-drop m s.input))

  -- A turn after which nothing has changed.
  read_again-Comes :
      (rs : List ReadRound) (after e : ℕ) (s : Reading)
      → Comes rs s
      → is_temporary e || e == etimedout ≡ true
      → Leads (Comes rs) Complete (read_result after s (errno e, s.input))
  read_again-Comes rs after e s w h = rw h (read_end-Comes rs after s w)

  answer-Comes :
      (rs : List ReadRound) (after : ℕ) (answer : Reply) (s : Reading)
      → s.timeout ≡ create start ms_max
      → s.bytes_read < n
      → n ≤ s.bytes_read + (if brings ready answer then suc (deliveries rs) else deliveries rs)
      → n ≤ s.bytes_read + length s.input
      → is_fine ready answer ≡ true
      → Leads
          (Comes rs)
          Complete
          (read_result after s (read_answer answer (n - s.bytes_read) s.input))
  answer-Comes rs after (gave zero) s t h r i f = ground (f, arith)
  answer-Comes rs after (gave (suc k)) s t h r i f = read_bytes-Comes rs after k s t h r i
  answer-Comes rs after (failed e) s t h r i f =
      read_again-Comes rs after e s (record { unlimited = t; enough_rounds = r; enough_input = i })
        f

  port-Comes :
      (rs : List ReadRound) (after : ℕ) (selected : Selected) (answer : Reply) (s : Reading)
      → s.timeout ≡ create start ms_max
      → s.bytes_read < n
      → n ≤ s.bytes_read + (if brings selected answer then suc (deliveries rs) else deliveries rs)
      → n ≤ s.bytes_read + length s.input
      → is_fine selected answer ≡ true
      → Leads
          (Comes rs)
          Complete
          (read_result after s (read_port selected answer (n - s.bytes_read) s.input))
  unfolding read_port
  port-Comes rs after ready (gave zero) s t h r i f = answer-Comes rs after (gave zero) s t h r i f
  port-Comes rs after ready (gave (suc k)) s t h r i f =
      answer-Comes rs after (gave (suc k)) s t h r i f
  port-Comes rs after ready (failed e) s t h r i f = answer-Comes rs after (failed e) s t h r i f
  port-Comes rs after (select_failed d) (gave zero) s t h r i f =
      answer-Comes rs after (gave zero) s t h r i f
  port-Comes rs after (select_failed d) (gave (suc k)) s t h r i f =
      answer-Comes rs after (gave (suc k)) s t h r i f
  port-Comes rs after (select_failed d) (failed e) s t h r i f =
      answer-Comes rs after (failed e) s t h r i f
  port-Comes rs after time_over answer s t h r i f =
      read_end-Comes rs after s (record { unlimited = t; enough_rounds = r; enough_input = i })

  turn-Comes :
      (r : ReadRound) (rs : List ReadRound) (s : Reading)
      → Comes (r ∷ rs) s
      → is_fine r.selected r.answer ≡ true
      → Leads (Comes rs) Complete (read_turn n r s)
  unfolding read_turn
  turn-Comes r rs s w f = elim (Bool-cases (ltb s.bytes_read n)) [
    | inl h ↦
        let same : asked r.before s.timeout ≡ create start ms_max =
          rw w.unlimited (asked-forever start r.before) in
        rw h (
          port-Comes rs r.after r.selected r.answer
            (record s { timeout = asked r.before s.timeout }) same (ground (arith, h))
            w.enough_rounds w.enough_input f)
    | inr h ↦ rw h (ground (arith, h), refl)
  ]

  loop-Comes :
      (rs : List ReadRound) (s : Reading)
      → Comes rs s
      → all_fine rs ≡ true
      → Complete (read_loop rs n s)
  unfolding read_loop
  loop-Comes [] s w f = (ground (arith, w.enough_rounds), ground (arith, w.enough_rounds))
  loop-Comes (r ∷ rs) s w f =
      continue-Leads (Comes rs) Complete (read_loop rs n) (read_turn n r s)
        (λ s' w'. loop-Comes rs s' w' (ground (arith, f))) (turn-Comes r rs s w (ground (arith, f)))

-- A call that returns at least what was wanted, and no more, has returned just that.
exactly :
    (xs ys input : List ℕ) (n k : ℕ) (o : Outcome ℕ)
    → xs ++ ys ≡ input
    → length xs ≤ n
    → EndsAt n (length xs) o
    → n ≤ k
    → o ≡ returned k
    → ◌≡◌ {A = (List ℕ × List ℕ) × Outcome ℕ}
        ((xs, ys), o)
        ((take n input, drop n input), returned n)
exactly xs ys input n k o c l e m r =
    let returns : EndsAt n (length xs) (returned k) = subst (λ x. EndsAt n (length xs) x) r e in
    let whole : length xs ≡ n = omega (arith, returns) in
    let same : k ≡ n = omega (arith, returns) in
    rw r (
      rw (sym c) (
        rw (sym whole) (rw (take-append xs ys) (rw (drop-append xs ys) (rw same (rw whole refl))))))

-- A port without a read timeout returns exactly the n bytes that were asked for, the first n that the
-- device had, as soon as the device has n bytes and n rounds brought some, if no round was an error.
pub read_complete :
    (p : SerialPosix) (start : ℕ) (rounds : List ReadRound) (b : List ℕ) (n : ℕ) (input : List ℕ)
    → p.is_open ≡ true
    → p.attr.timeout ≡ ms_max
    → all_fine rounds ≡ true
    → n ≤ deliveries rounds
    → n ≤ length input
    → read p start rounds b n input ≡ ((take n input, drop n input), returned n)
unfolding read
read_complete p start rounds b n input op un f d i =
    let s : Reading = record {
      b = [];
      bytes_read = 0;
      timeout = create start ms_max;
      input = input;
    } in
    let (w, e) : ReadEnds n input (read_loop rounds n s) =
      read_loop-reads rounds s
        (record { conserved = refl; counted = refl; bounded = omega arith }) in
    let (enough, o) =
      loop-Comes start n rounds s
        (record {
          unlimited = refl;
          enough_rounds = omega (arith, d);
          enough_input = omega (arith, i);
        })
        f in
    rw op (
      rw un (
        exactly _ _ input n _ _ w.conserved (rw (sym w.counted) w.bounded) (rw (sym w.counted) e)
          enough o))
