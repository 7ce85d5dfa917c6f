-- ===== src/Serial/Stream/Until.antt =====
-- What `read_until` of serial_base.cpp finds: it stops at the first place where it can.
use ares_common.Common.{
  ℕ, zero, suc, ◌≡◌, refl, ap, ◌∙◌, ◌≤◌, ◌<◌, Bool, false, not, ◌&&◌, ◌||◌, ◌==◌, leb, List, [],
  ◌∷◌, ◌++◌, append_assoc, length, take, length-append, inl, inr, arith, le-cases, if-holds,
}
use ares_common.Serial.Timeout.{create, expired}
use ares_common.Serial.Posix.{
  Outcome, SerialPosix, port_not_open, returned, threw, overflow, waiting,
}
use ares_common.Serial.Stream.{
  UntilRound, Finding, ends_with, until_result, until_turn, until_loop, read_until,
}
use ares_common.Serial.Stream.Laws.{Leads, continue-Leads, EndsAt, read_lem}

-- Whether the bytes that were found end what is looked for, or are as many as were asked for.
abbrev pub stops_at : List ℕ → ℕ → List ℕ → Bool
stops_at expected len xs = ends_with expected xs || not (len == 0) && leb len (length xs)

take-append_le : (k : ℕ) (xs ys : List ℕ) → k ≤ length xs → take k (xs ++ ys) ≡ take k xs
take-append_le zero xs ys h = refl
take-append_le (suc k) [] ys h = absurd (omega (arith, h))
take-append_le (suc k) (x ∷ xs) ys h = ap (λ zs. x ∷ zs) (take-append_le k xs ys (omega (arith, h)))

take-all : (xs : List ℕ) → take (length xs) xs ≡ xs
take-all [] = refl
take-all (x ∷ xs) = ap (λ zs. x ∷ zs) (take-all xs)

-- What `read` of one byte returns.
one :
    (xs : List ℕ) (k : ℕ)
    → length xs ≤ 1
    → suc k ≡ length xs
    → length (take 1 xs) ≡ 1 × (take 1 xs ≡ xs)
one [] k l e = absurd (omega (arith, e))
one (x ∷ []) k l e = (refl, refl)
one (x ∷ y ∷ xs) k l e = absurd (omega (arith, l))

-- How a call that has found k bytes can end: if it returns, it returns k.
abbrev pub Returns : ℕ → Outcome ℕ → Type 0
Returns k (returned m) = m ≡ k
Returns k _ = Unit {0}

-- Whether a first part of less than n bytes, and one at least, stops it.
abbrev pub stops_before : List ℕ → ℕ → List ℕ → ℕ → Bool
stops_before expected len xs zero = false
stops_before expected len xs (suc zero) = false
stops_before expected len xs (suc (suc k)) =
    stops_at expected len (take (suc k) xs) || stops_before expected len xs (suc k)

module _ (expected : List ℕ) (len : ℕ) where
  -- No part of the first bytes, of less than n and not empty, stops it.
  abbrev NoneBefore : ℕ → List ℕ → Type 0
  NoneBefore n xs = (k : ℕ) → 0 < k → k < n → stops_at expected len (take k xs) ≡ false

  none-push :
      (xs ys : List ℕ)
      → length ys ≡ 1
      → NoneBefore (suc (length xs)) xs
      → NoneBefore (length (xs ++ ys)) (xs ++ ys)
  none-push xs ys e h k p q =
      rw (take-append_le k xs ys (ground (arith, q, e, length-append xs ys)))
        (h k p (ground (arith, q, e, length-append xs ys)))

  none_self :
      (xs : List ℕ)
      → stops_at expected len xs ≡ false
      → NoneBefore (length xs) xs
      → NoneBefore (suc (length xs)) xs
  none_self xs s h k p q = elim (le-cases (length xs) k) [
    | inl l ↦ let e : k ≡ length xs = omega (arith, l, q) in rw e (rw (take-all xs) s)
    | inr l ↦ h k p l
  ]

  stops-before : (xs : List ℕ) (n : ℕ) → NoneBefore n xs → stops_before expected len xs n ≡ false
  stops-before xs zero h = refl
  stops-before xs (suc zero) h = refl
  stops-before xs (suc (suc k)) h =
      rw (h (suc k) (omega arith) (omega arith))
        (stops-before xs (suc k) (λ i p q. h i p (omega (arith, q))))

  not-stops :
      (xs : List ℕ) (n : ℕ)
      → n ≡ length xs
      → leb (length expected) n && ends_with expected xs ≡ false
      → not (len == 0) && leb len n ≡ false
      → stops_at expected len xs ≡ false
  not-stops xs n e f g = ground (arith, e, f, g)

module _ (p : SerialPosix) (expected : List ℕ) (len : ℕ) (total : List ℕ) where
  -- At the head of the loop.
  record IsFinding (s : Finding) : Type 0 where
    conserved : s.found ++ s.input ≡ total
    counted : s.bytes_read ≡ length s.found
    unfinished : NoneBefore expected len (suc (length s.found)) s.found

  -- At the end of the loop.
  abbrev Found : Finding × Outcome ℕ → Type 0
  Found (s, o) =
      (s.found ++ s.input ≡ total)
      × NoneBefore expected len (length s.found) s.found
      × Returns (length s.found) o

  none-less :
      (xs : List ℕ)
      → NoneBefore expected len (suc (length xs)) xs
      → NoneBefore expected len (length xs) xs
  none-less xs h k p q = h k p (omega (arith, q))

  push-Found :
      (after : ℕ) (s : Finding) (temp input : List ℕ) (k : ℕ)
      → IsFinding s
      → temp ++ input ≡ s.input
      → length temp ≤ 1
      → suc k ≡ length temp
      → Leads IsFinding Found (until_result expected len after s ((temp, input), returned (suc k)))
  push-Found after s temp input k w c l e =
      let (size, same) = one temp k l e in
      let found = s.found ++ take 1 temp in
      let conserved : found ++ input ≡ total =
        append_assoc s.found (take 1 temp) input
        ∙ ap (λ xs. s.found ++ (xs ++ input)) same
        ∙ ap (λ xs. s.found ++ xs) c
        ∙ w.conserved in
      let counted : suc s.bytes_read ≡ length found =
        ground (arith, w.counted, size, length-append s.found (take 1 temp)) in
      let none = none-push expected len s.found (take 1 temp) size w.unfinished in
      if-holds (Leads IsFinding Found)
        (leb (length expected) (suc s.bytes_read) && ends_with expected found) _ _
        (λ b. (conserved, none, counted))
        (λ b.
          if-holds (Leads IsFinding Found) (not (len == 0) && leb len (suc s.bytes_read)) _ _
            (λ b'. (conserved, none, counted))
            (λ b'.
              if-holds (Leads IsFinding Found) (expired after s.timeout).1 _ _
                (λ b''. (conserved, none, counted))
                (λ b''. record {
                  conserved = conserved;
                  counted = counted;
                  unfinished =
                      none_self expected len found
                        (not-stops expected len found (suc s.bytes_read) counted b b') none;
                })))

  none-read :
      (s : Finding) (temp input : List ℕ)
      → IsFinding s
      → temp ++ input ≡ s.input
      → length temp ≡ 0
      → s.found ++ input ≡ total
  none-read s [] input w c z = ap (λ xs. s.found ++ xs) c ∙ w.conserved
  none-read s (x ∷ xs) input w c z = absurd (omega (arith, z))

  result-Found :
      (after : ℕ) (s : Finding) (temp input : List ℕ) (o : Outcome ℕ)
      → IsFinding s
      → temp ++ input ≡ s.input
      → length temp ≤ 1
      → EndsAt 1 (length temp) o
      → Leads IsFinding Found (until_result expected len after s ((temp, input), o))
  result-Found after s temp input (returned (suc k)) w c l e =
      push-Found after s temp input k w c l e
  result-Found after s temp input (returned zero) w c l e =
      (none-read s temp input w c (omega (arith, e)), none-less s.found w.unfinished, w.counted)
  result-Found after s temp input (threw e) w c l h =
      (none-read s temp input w c (omega (arith, h)), none-less s.found w.unfinished, tt)
  result-Found after s temp input waiting w c l h =
      (none-read s temp input w c (omega (arith, h)), none-less s.found w.unfinished, tt)
  result-Found after s temp input overflow w c l e = absurd e

  turn-Found :
      (r : UntilRound) (s : Finding)
      → IsFinding s
      → Leads IsFinding Found (until_turn p expected len r s)
  unfolding until_turn
  turn-Found r s w = elim (read_lem p r.start r.rounds [] 1 s.input) [
    | inl (shut, e) ↦
        rw e (
          result-Found r.after s [] s.input (threw port_not_open) w refl (omega arith)
            (omega arith))
    | inr (op, c, l, e) ↦ result-Found r.after s _ _ _ w c l e
  ]

  loop-Found :
      (rs : List UntilRound) (s : Finding) → IsFinding s → Found (until_loop p expected len rs s)
  unfolding until_loop
  loop-Found [] s w = (w.conserved, none-less s.found w.unfinished, tt)
  loop-Found (r ∷ rs) s w =
      continue-Leads IsFinding Found (until_loop p expected len rs) (until_turn p expected len r s)
        (λ s'. loop-Found rs s') (turn-Found r s w)

-- What `read_until` appends to the vector, followed by what the device still has, is what the device
-- had. No shorter part of it, of one byte at least, ends in what is looked for or has as many bytes as
-- were asked for: it stops at the first place where it can. If it returns, it returns the number of
-- the bytes that it appended.
pub read_until_lem :
    (p : SerialPosix) (expected : List ℕ) (len start : ℕ) (rounds : List UntilRound)
    (input : List ℕ)
    → let ((found, rest), o) = read_until p expected len start rounds input in
      (found ++ rest ≡ input)
      × (stops_before expected len found (length found) ≡ false)
      × Returns (length found) o
unfolding read_until
read_until_lem p expected len start rounds input =
    let s : Finding = record {
      found = [];
      bytes_read = 0;
      timeout = create start p.attr.timeout;
      input = input;
    } in
    let (c, n, r) = loop-Found p expected len input rounds s (record {
      conserved = refl;
      counted = refl;
      unfinished = λ k h l. absurd (omega (arith, h, l));
    }) in
    (c, stops-before expected len _ _ n, r)
