-- ===== src/Logger/RoundTrip.antt =====
-- That the hexdump of src/logging/logger.cpp can be read back.
use ares_common.Common.{
  ℕ, zero, suc, ◌+◌, ◌-◌, ◌*◌, ◌/◌, ◌%◌, ◌<◌, ◌≤◌, ◌≡◌, refl, sym, ap, ap₂, ◌∙◌, Bool, true, false,
  ◌&&◌, Option, none, some, Option-cases, if◌then◌else◌, ◌==◌, ltb, List, [], ◌∷◌, ◌++◌, length,
  replicate, take, drop, take-drop, arith, Bool-cases, if-holds, ◌⊎◌, inl, inr,
}
use ares_common.Logger.{Text}
use ares_common.Logger.Hexdump.{
  at, space, newline, bytes_per_line, space_break, hex_digit, hex_cells, dump_hex, ascii_cell,
  ascii_cells, dump_ascii, dump_from, construct_hexdump,
}

abbrev pub unhex : ℕ → ℕ
unhex c = if ltb c 58 then c - 48 else c - 87

-- A byte in two digits, or none in two spaces.
abbrev pub byte_of : ℕ → ℕ → List ℕ → List ℕ
byte_of a b bs = if a == space then bs else (unhex a * 16 + unhex b) ∷ bs

abbrev pub after_cell : ℕ → Text → Text
after_cell i text = if i == space_break then drop 2 text else text

-- The bytes of k cells from the i-th on, and the text after them.
abbrev pub read_cells : ℕ → ℕ → Text → List ℕ × Text
read_cells zero i text = ([], text)
read_cells (suc k) i (a ∷ b ∷ c ∷ text) =
    let (bs, rest) = read_cells k (suc i) (after_cell i text) in (byte_of a b bs, rest)
read_cells (suc k) i text = ([], text)

abbrev pub next_line : Text → Text
next_line [] = []
next_line (x ∷ xs) = let rest = next_line xs in if x == newline then xs else rest

-- The bytes of up to so many lines of a dump.
abbrev pub read_lines : ℕ → ℕ → Text → List ℕ
read_lines zero pad text = []
read_lines (suc n) pad text =
    let (bs, rest) = read_cells bytes_per_line 0 (drop pad text) in
    bs ++ read_lines n pad (next_line rest)

abbrev pub are_bytes : List ℕ → Bool
are_bytes [] = true
are_bytes (b ∷ bs) = ltb b 256 && are_bytes bs

at-none : (view : Text) (n : ℕ) → at view n ≡ none → drop n view ≡ []
at-none [] zero e = refl
at-none [] (suc n) e = refl
at-none (x ∷ xs) zero e = ground (arith, e)
at-none (x ∷ xs) (suc n) e = at-none xs n e

at-some :
    (view : Text) (n b : ℕ)
    → at view n ≡ some b
    → are_bytes view ≡ true
    → (drop n view ≡ b ∷ drop (suc n) view) × (b < 256)
at-some [] n b e h = ground (arith, e)
at-some (x ∷ xs) zero b e h =
    let s : x ≡ b = ground (arith, e) in (ap (λ y. y ∷ xs) s, ground (arith, h, s))
at-some (x ∷ xs) (suc n) b e h = at-some xs n b e (ground (arith, h))

drop-nil : (n : ℕ) → ◌≡◌ {A = List ℕ} (drop n []) []
drop-nil zero = refl
drop-nil (suc n) = refl

drop-suc : (n : ℕ) (xs : List ℕ) → drop n xs ≡ [] → drop (suc n) xs ≡ []
drop-suc n [] e = refl
drop-suc zero (x ∷ xs) e = ground (arith, e)
drop-suc (suc n) (x ∷ xs) e = drop-suc n xs e

take-nil : (n : ℕ) → ◌≡◌ {A = List ℕ} (take n []) []
take-nil zero = refl
take-nil (suc n) = refl

digit_lem : (d : ℕ) → d < 16 → (unhex (hex_digit d) ≡ d) × ((hex_digit d == space) ≡ false)
digit_lem d h = (ground (arith, h), ground (arith, h))

byte_lem :
    (b : ℕ) (bs : List ℕ) → b < 256 → byte_of (hex_digit (b / 16)) (hex_digit (b % 16)) bs ≡ b ∷ bs
byte_lem b bs h =
    let (high, blank) = digit_lem (b / 16) (omega (arith, h)) in
    let (low, dark) = digit_lem (b % 16) (omega arith) in
    let whole : b / 16 * 16 + b % 16 ≡ b = omega arith in
    rw blank (ap (λ x. x ∷ bs) (ap₂ (λ x y. x * 16 + y) high low ∙ whole))

after_lem :
    (i : ℕ) (text : Text)
    → after_cell i (if i == space_break then space ∷ space ∷ text else text) ≡ text
after_lem i text = elim (Bool-cases (i == space_break)) [ inl e ↦ rw e refl | inr e ↦ rw e refl ]

-- The cells of a line give the bytes that were put into them.
cells_lem :
    (k i idx : ℕ) (view rest : Text)
    → are_bytes view ≡ true
    → read_cells k i (hex_cells k i idx view rest) ≡ (take k (drop (i + idx) view), rest)
unfolding hex_cells
cells_lem zero i idx view rest h = refl
cells_lem (suc k) i idx view rest h =
    let others = hex_cells k (suc i) idx view rest in
    let next : suc i + idx ≡ suc (i + idx) = omega arith in
    let ih : read_cells k (suc i) others ≡ (take k (drop (suc (i + idx)) view), rest) =
      cells_lem k (suc i) idx view rest h ∙ ap (λ n. (take k (drop n view), rest)) next in
    elim (Option-cases (at view (i + idx))) [
      | inl e ↦
          let d = at-none view (i + idx) e in
          rw e (
            rw (after_lem i others)
              (rw ih (rw (drop-suc (i + idx) view d) (rw d (rw (take-nil k) refl)))))
      | inr (b, e) ↦
          let (d, small) = at-some view (i + idx) b e h in
          rw e (
            rw (after_lem i others)
              (rw ih (rw (byte_lem b (take k (drop (suc (i + idx)) view)) small) (rw d refl))))
    ]

drop-replicate : (n : ℕ) (x : ℕ) (xs : Text) → drop n (replicate n x ++ xs) ≡ xs
drop-replicate zero x xs = refl
drop-replicate (suc n) x xs = drop-replicate n x xs

drop-all : (n : ℕ) (xs : List ℕ) → length xs ≤ n → drop n xs ≡ []
drop-all n [] h = drop-nil n
drop-all zero (x ∷ xs) h = absurd (omega (arith, h))
drop-all (suc n) (x ∷ xs) h = drop-all n xs (omega (arith, h))

drop-drop : (n m : ℕ) (xs : List ℕ) → drop n (drop m xs) ≡ drop (m + n) xs
drop-drop n zero xs = ap (λ k. drop k xs) (omega arith)
drop-drop n (suc m) [] = drop-nil n ∙ sym (drop-nil (suc m + n))
drop-drop n (suc m) (x ∷ xs) =
    let next : suc m + n ≡ suc (m + n) = omega arith in
    drop-drop n m xs ∙ sym (ap (λ k. drop k (x ∷ xs)) next)

next_line-other : (x : ℕ) (xs : Text) → (x == newline) ≡ false → next_line (x ∷ xs) ≡ next_line xs
next_line-other x xs h = rw h refl

read_lines-nil : (n pad : ℕ) → read_lines n pad [] ≡ []
read_lines-nil zero pad = refl
read_lines-nil (suc n) pad = rw (drop-nil pad) (read_lines-nil n pad)

read_lines-step :
    (n pad : ℕ) (text rest bs : Text)
    → ◌≡◌ {A = List ℕ × Text} (read_cells bytes_per_line 0 (drop pad text)) (bs, rest)
    → read_lines (suc n) pad text ≡ bs ++ read_lines n pad (next_line rest)
read_lines-step n pad text rest bs e =
    ap (λ (x : List ℕ × Text). x.0 ++ read_lines n pad (next_line x.1)) e

module _ (isprint : ℕ → Bool) (no_newline : isprint newline ≡ false) where
  -- What stands for a byte is no newline.
  shown : (b : ℕ) → ((if isprint b then b else 46) == newline) ≡ false
  shown b = elim (Bool-cases (b == newline)) [
    | inl e ↦ let same : b ≡ newline = ground (arith, e) in rw same (rw no_newline refl)
    | inr e ↦ if-holds (λ c. (c == newline) ≡ false) (isprint b) b 46 (λ p. e) (λ p. refl)
  ]

  skip-cell : (o : Option ℕ) (rest : Text) → next_line (ascii_cell isprint o rest) ≡ next_line rest
  skip-cell none rest = refl
  skip-cell (some b) rest = next_line-other _ rest (shown b)

  skip-cells :
      (k i idx : ℕ) (view rest : Text)
      → next_line (ascii_cells isprint k i idx view rest) ≡ next_line rest
  unfolding ascii_cells
  skip-cells zero i idx view rest = refl
  skip-cells (suc k) i idx view rest =
      let others = ascii_cells isprint k (suc i) idx view rest in
      skip-cell (at view (i + idx)) _
      ∙ if-holds (λ t. next_line t ≡ next_line others) (i == space_break) (space ∷ others) others
          (λ e. refl) (λ e. refl)
      ∙ skip-cells k (suc i) idx view rest

  -- After the last line there is nothing.
  skip-ascii :
      (idx : ℕ) (view rest : Text)
      → (ltb (bytes_per_line + idx) (length view) ≡ true) ⊎ (rest ≡ [])
      → next_line (dump_ascii isprint idx view rest) ≡ rest
  unfolding dump_ascii
  skip-ascii idx view rest h =
      skip-cells bytes_per_line 0 idx view _
      ∙ if-holds (λ t. next_line t ≡ rest) (ltb (bytes_per_line + idx) (length view)) _ _
          (λ e. refl) (λ e. elim h [ inl t ↦ absurd (ground (arith, t, e)) | inr z ↦ rw z refl ])

  dump_from-end :
      (fuel i : ℕ) (view : Text) (pad : ℕ)
      → length view ≤ i
      → dump_from isprint fuel i view pad ≡ []
  unfolding dump_from
  dump_from-end zero i view pad h = refl
  dump_from-end (suc fuel) i view pad h =
      let e : ltb i (length view) ≡ false = ground (arith, h) in rw e refl

  ends :
      (i fuel : ℕ) (view : Text) (pad : ℕ)
      → (ltb (bytes_per_line + i) (length view) ≡ true)
        ⊎ (dump_from isprint fuel (i + bytes_per_line) view pad ≡ [])
  ends i fuel view pad = elim (Bool-cases (ltb (bytes_per_line + i) (length view))) [
    | inl e ↦ inl e
    | inr e ↦ inr (dump_from-end fuel (i + bytes_per_line) view pad (ground (arith, e)))
  ]

  lines_lem :
      (fuel i : ℕ) (view : Text) (pad : ℕ)
      → are_bytes view ≡ true
      → length view ≤ i + fuel
      → read_lines fuel pad (dump_from isprint fuel i view pad) ≡ drop i view
  unfolding dump_from
  lines_lem zero i view pad h l = sym (drop-all i view (omega (arith, l)))
  lines_lem (suc fuel) i view pad h l =
      let others = dump_from isprint fuel (i + bytes_per_line) view pad in
      let tail = dump_ascii isprint i view others in
      let line = dump_hex i view tail in
      let zero_plus : 0 + i ≡ i = omega arith in
      elim (Bool-cases (ltb i (length view))) [
        | inl e ↦
            let cells : ◌≡◌ {A = List ℕ × Text}
                (read_cells bytes_per_line 0 (drop pad (replicate pad space ++ line)))
                (take bytes_per_line (drop i view), tail) =
              rw (drop-replicate pad space line) (
                cells_lem bytes_per_line 0 i view tail h
                ∙ ap (λ n. (take bytes_per_line (drop n view), tail)) zero_plus) in
            rw e (
              read_lines-step fuel pad (replicate pad space ++ line) tail _ cells
              ∙ ap (λ t. take bytes_per_line (drop i view) ++ read_lines fuel pad t)
                  (skip-ascii i view others (ends i fuel view pad))
              ∙ ap (λ xs. take bytes_per_line (drop i view) ++ xs)
                  (lines_lem fuel (i + bytes_per_line) view pad h (omega (arith, l))
                    ∙ sym (drop-drop bytes_per_line i view))
              ∙ take-drop bytes_per_line (drop i view))
        | inr e ↦ rw e (read_lines-nil (suc fuel) pad ∙ sym (drop-all i view (ground (arith, e))))
      ]

-- If a newline is not printable, the hexdump of any bytes can be read back: its lines, without their
-- padding, begin with the digits of all the bytes in order.
pub hexdump_lem :
    (isprint : ℕ → Bool) (view : Text) (pad : ℕ)
    → isprint newline ≡ false
    → are_bytes view ≡ true
    → read_lines (length view) pad (construct_hexdump isprint view pad) ≡ view
unfolding construct_hexdump
hexdump_lem isprint view pad n h = lines_lem isprint n (length view) 0 view pad h (omega arith)
