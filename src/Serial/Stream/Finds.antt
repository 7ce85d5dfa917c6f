-- ===== src/Serial/Stream/Finds.antt =====
-- That `read_until` of serial_base.cpp ends: without a timeout when the device has delivered what is
-- looked for, or as many bytes as were asked for.
use ares_common.Common.{
  ℕ, zero, suc, ◌≡◌, ◌≤◌, ◌<◌, refl, sym, ap, ◌∙◌, Bool, true, false, not, ◌&&◌, ◌==◌, leb, List,
  [], ◌∷◌, ◌++◌, append_assoc, length, length-append, take, inl, inr, arith, le-cases, if-holds,
}
use ares_common.Common.Int.{ms_max}
use ares_common.Serial.Timeout.{create}
use ares_common.Serial.Posix.{Outcome, SerialPosix, returned}
use ares_common.Serial.Stream.{
  UntilRound, Finding, go, stop, continue, ends_with, until_result, until_turn, until_loop,
  read_until,
}
use ares_common.Serial.Stream.Ends.{all_fine, deliveries, forever-expires, read_complete}
use ares_common.Serial.Stream.Until.{stops_at, stops_before}

-- Each round's call of `read` brings a byte, without an error.
abbrev pub all_bring : List UntilRound → Bool
all_bring [] = true
all_bring (r ∷ rs) = (all_fine r.rounds && leb 1 (deliveries r.rounds)) && all_bring rs

-- A first part, of one byte at least and less than n, does not stop it.
before-stops :
    (expected : List ℕ) (len : ℕ) (xs : List ℕ) (n k : ℕ)
    → stops_before expected len xs n ≡ false
    → suc k < n
    → stops_at expected len (take (suc k) xs) ≡ false
before-stops expected len xs zero k h l = absurd (omega arith)
before-stops expected len xs (suc zero) k h l = absurd (omega arith)
before-stops expected len xs (suc (suc n)) k h l = elim (le-cases n k) [
  | inl last ↦ (let same : k ≡ n = omega arith in rw same (ground (arith, h)))
  | inr early ↦ before-stops expected len xs (suc n) k (ground (arith, h)) (omega arith)
]

-- The first part of a list, with the byte behind it.
take-next : (xs ys : List ℕ) (x : ℕ) → take (suc (length xs)) (xs ++ x ∷ ys) ≡ xs ++ x ∷ []
take-next [] ys x = refl
take-next (z ∷ xs) ys x = ap (λ l. z ∷ l) (take-next xs ys x)

module _ (p : SerialPosix) (expected : List ℕ) (len : ℕ) (opened : p.is_open ≡ true)
    (forever : p.attr.timeout ≡ ms_max) where
  -- The loop's variables once the bytes `xs` have been found.
  abbrev after_bytes : ℕ → List ℕ → List ℕ → Finding
  after_bytes start xs input = record {
    found = xs;
    bytes_read = length xs;
    timeout = create start ms_max;
    input = input;
  }

  -- A turn that brings a byte.
  turn-byte :
      (r : UntilRound) (start : ℕ) (xs input : List ℕ) (x : ℕ)
      → all_fine r.rounds ≡ true
      → 1 ≤ deliveries r.rounds
      → until_turn p expected len r (after_bytes start xs (x ∷ input))
        ≡ until_result expected len r.after
            (after_bytes start xs (x ∷ input))
            ((x ∷ [], input), returned 1)
  unfolding until_turn
  turn-byte r start xs input x fine some_byte =
      ap (until_result expected len r.after (after_bytes start xs (x ∷ input))) (
        read_complete p r.start r.rounds [] 1 (x ∷ input) opened forever fine some_byte
          (omega arith))

  length-next : (xs : List ℕ) (x : ℕ) → suc (length xs) ≡ length (xs ++ x ∷ [])
  length-next xs x = omega (arith, length-append xs (x ∷ []))

  result-stops :
      (after start : ℕ) (xs input : List ℕ) (x : ℕ)
      → stops_at expected len (xs ++ x ∷ []) ≡ true
      → until_result expected len after
          (after_bytes start xs (x ∷ input))
          ((x ∷ [], input), returned 1)
        ≡ stop (after_bytes start (xs ++ x ∷ []) input) (returned (length (xs ++ x ∷ [])))
  result-stops after start xs input x h =
      let found = xs ++ x ∷ [] in
      let end : Finding × Outcome ℕ = (after_bytes start found input, returned (length found)) in
      rw (length-next xs x) (
        if-holds (λ t. t ≡ stop end.0 end.1)
          (leb (length expected) (length found) && ends_with expected found) _ _ (λ here. refl)
          (λ not_here.
            if-holds (λ t. t ≡ stop end.0 end.1) (not (len == 0) && leb len (length found)) _ _
              (λ enough. refl) (λ too_few. absurd (ground (arith, h, not_here, too_few)))))

  result-goes :
      (after start : ℕ) (xs input : List ℕ) (x : ℕ)
      → stops_at expected len (xs ++ x ∷ []) ≡ false
      → until_result expected len after
          (after_bytes start xs (x ∷ input))
          ((x ∷ [], input), returned 1)
        ≡ go (after_bytes start (xs ++ x ∷ []) input)
  result-goes after start xs input x h =
      let found = xs ++ x ∷ [] in
      let next = after_bytes start found input in
      rw (length-next xs x) (
        if-holds (λ t. t ≡ go next)
          (leb (length expected) (length found) && ends_with expected found) _ _
          (λ here. absurd (ground (arith, h, here)))
          (λ not_here.
            if-holds (λ t. t ≡ go next) (not (len == 0) && leb len (length found)) _ _
              (λ enough. absurd (ground (arith, h, enough)))
              (λ too_few. rw (forever-expires start after) refl)))

  -- The rest of what is found, behind the bytes that have been found.
  loop-finds :
      (rs : List UntilRound) (start : ℕ) (xs ys rest : List ℕ) (y : ℕ)
      → all_bring rs ≡ true
      → length (y ∷ ys) ≤ length rs
      → stops_at expected len (xs ++ y ∷ ys) ≡ true
      → stops_before expected len (xs ++ y ∷ ys) (length (xs ++ y ∷ ys)) ≡ false
      → until_loop p expected len rs (after_bytes start xs (y ∷ ys ++ rest))
        ≡ (after_bytes start (xs ++ y ∷ ys) rest, returned (length (xs ++ y ∷ ys)))
  unfolding until_loop
  loop-finds [] start xs ys rest y bring enough last first = absurd (omega arith)
  loop-finds (r ∷ rs) start xs [] rest y bring enough last first =
      ap (continue (until_loop p expected len rs)) (
        turn-byte r start xs rest y (ground (arith, bring)) (ground (arith, bring))
        ∙ result-stops r.after start xs rest y last)
  loop-finds (r ∷ rs) start xs (z ∷ ys) rest y bring enough last first =
      let same : (xs ++ y ∷ []) ++ z ∷ ys ≡ xs ++ y ∷ z ∷ ys = append_assoc xs (y ∷ []) (z ∷ ys) in
      let early : stops_at expected len (xs ++ y ∷ []) ≡ false =
        ap (stops_at expected len) (sym (take-next xs (z ∷ ys) y))
        ∙ before-stops expected len (xs ++ y ∷ z ∷ ys) (length (xs ++ y ∷ z ∷ ys)) (length xs) first
            (omega (arith, length-append xs (y ∷ z ∷ ys))) in
      ap (continue (until_loop p expected len rs)) (
        turn-byte r start xs (z ∷ ys ++ rest) y (ground (arith, bring)) (ground (arith, bring))
        ∙ result-goes r.after start xs (z ∷ ys ++ rest) y early)
      ∙ loop-finds rs start (xs ++ y ∷ []) ys rest z (ground (arith, bring)) (omega arith)
          (ap (stops_at expected len) same ∙ last)
          (ap (λ l. stops_before expected len l (length l)) same ∙ first)
      ∙ ap (λ l. (after_bytes start l rest, returned (length l))) same

-- A port that is open and has no read timeout finds what is looked for: if what the device has begins
-- with bytes, one at least, that end in what is looked for or are as many as were asked for, and no
-- shorter part of them does, then `read_until` appends just these bytes and returns their number, as
-- soon as there have been as many turns as bytes, each of which brought one without an error.
pub read_until-finds :
    (p : SerialPosix) (expected : List ℕ) (len start : ℕ) (rounds : List UntilRound) (y : ℕ)
    (ys rest : List ℕ)
    → p.is_open ≡ true
    → p.attr.timeout ≡ ms_max
    → all_bring rounds ≡ true
    → length (y ∷ ys) ≤ length rounds
    → stops_at expected len (y ∷ ys) ≡ true
    → stops_before expected len (y ∷ ys) (length (y ∷ ys)) ≡ false
    → read_until p expected len start rounds (y ∷ ys ++ rest)
      ≡ ((y ∷ ys, rest), returned (length (y ∷ ys)))
unfolding read_until
read_until-finds p expected len start rounds y ys rest opened forever bring enough last first =
    ap
      (λ t.
        ends
          (record { found = []; bytes_read = 0; timeout = create start t; input = y ∷ ys ++ rest }))
      forever
    ∙ ap (λ r. ((r.0.found, r.0.input), r.1))
        (loop-finds p expected len opened forever rounds start [] ys rest y bring enough last first)
  where
    ends : Finding → (List ℕ × List ℕ) × Outcome ℕ
    ends s = let (u, o) = until_loop p expected len rounds s in ((u.found, u.input), o)
