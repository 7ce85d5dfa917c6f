-- ===== src/SysFs/Print.antt =====
-- The vendor and product numbers in `SysFsBase::usb_info` of src/serial/tools/core/sys_fs_common.cpp:
-- what is printed reads back as the number, the way src/serial/tools/core/sys_fs_linux.cpp reads it.
use ares_common.Common.{
  ℕ, zero, suc, ◌+◌, ◌-◌, ◌*◌, ◌/◌, ◌%◌, ◌^◌, ◌<◌, ◌≤◌, ◌≡◌, refl, ap, ◌∙◌, Bool, true, false, ◌||◌,
  ◌&&◌, [], ◌∷◌, ◌++◌, ok, ◌==◌, ltb, leb, arith, length, replicate, length-append,
  length-replicate, drop, Bool-cases, inl, inr,
}
use native.Mathlib.Nat.{pow-suc}
use ares_common.SysFs.{SysFsBase, usb_info}
use ares_common.SysFs.Texts.{Text, codes, erase_leading, is_blank}
use ares_common.SysFs.Numbers.{
  digit, starts_digit, scan, sign, skip_prefix, number, stoull, upper_digit, hex_digits, hex,
}

-- Digits as they are printed.
abbrev pub is_upper : ℕ → Bool
is_upper c = (leb 48 c && leb c 57) || (leb 65 c && leb c 70)

abbrev pub all_upper : Text → Bool
all_upper [] = true
all_upper (c ∷ l) = is_upper c && all_upper l

upper_digit-is_upper : (d : ℕ) → d < 16 → is_upper (upper_digit d) ≡ true
upper_digit-is_upper d h = ground arith

digit-upper_digit : (d : ℕ) → d < 16 → digit (upper_digit d) ≡ d
unfolding digit
digit-upper_digit d h = ground arith

scan-upper_digit :
    (m d : ℕ) (l : Text) → d < 16 → scan 16 m (upper_digit d ∷ l) ≡ scan 16 (m * 16 + d) l
unfolding scan
scan-upper_digit m d l h = ground (arith, digit-upper_digit d h)

hex_digits-all_upper :
    (k n : ℕ) (rest : Text) → all_upper rest ≡ true → all_upper (hex_digits k n rest) ≡ true
unfolding hex_digits
hex_digits-all_upper zero n rest h = h
hex_digits-all_upper (suc k) n rest h = elim (Bool-cases (ltb n 16)) [
  | inl small ↦ rw (small, upper_digit-is_upper n (ground arith)) h
  | inr large ↦ rw large (
      hex_digits-all_upper k (n / 16) (upper_digit (n % 16) ∷ rest)
        (rw (upper_digit-is_upper (n % 16) (omega arith)) h))
]

-- As many digits as are allowed for are enough.
scan-hex_digits :
    (k n : ℕ) (rest : Text) → n < 16 ^ k → scan 16 0 (hex_digits k n rest) ≡ scan 16 n rest
unfolding hex_digits
scan-hex_digits zero n rest h = ap (λ m. scan 16 m rest) (omega arith)
scan-hex_digits (suc k) n rest h = elim (Bool-cases (ltb n 16)) [
  | inl small ↦
      rw small (scan-upper_digit 0 n rest (ground arith) ∙ ap (λ m. scan 16 m rest) (omega arith))
  | inr large ↦ rw large (
      scan-hex_digits k (n / 16) (upper_digit (n % 16) ∷ rest) (omega (arith, pow-suc 16 k))
      ∙ scan-upper_digit (n / 16) (n % 16) rest (omega arith)
      ∙ ap (λ m. scan 16 m rest) (omega arith))
]

scan-zeros : (k : ℕ) (l : Text) → scan 16 0 (replicate k 48 ++ l) ≡ scan 16 0 l
scan-zeros zero l = refl
scan-zeros (suc k) l = scan-upper_digit 0 0 (replicate k 48 ++ l) (omega arith) ∙ scan-zeros k l

zeros-all_upper : (k : ℕ) (l : Text) → all_upper l ≡ true → all_upper (replicate k 48 ++ l) ≡ true
zeros-all_upper zero l h = h
zeros-all_upper (suc k) l h = zeros-all_upper k l h

skip_prefix-all_upper :
    (l rest : Text) → 2 ≤ length l → all_upper l ≡ true → skip_prefix (l ++ rest) ≡ l ++ rest
unfolding skip_prefix
skip_prefix-all_upper [] rest long h = absurd (omega arith)
skip_prefix-all_upper (c ∷ []) rest long h = absurd (omega arith)
skip_prefix-all_upper (c ∷ d ∷ l) rest long h =
    let upper : is_upper d ≡ true = ground (arith, h) in
    let small : (d == 120) ≡ false = ground (arith, upper) in
    let large : (d == 88) ≡ false = ground (arith, upper) in
    elim (Bool-cases (c == 48)) [
      | inl zero_first ↦ rw (zero_first, small, large) refl
      | inr other ↦ rw other refl
    ]

-- A colon ends a number.
scan-colon : (n : ℕ) (l rest : Text) → all_upper l ≡ true → scan 16 n (l ++ 58 ∷ rest) ≡ scan 16 n l
unfolding scan digit
scan-colon n [] rest h = refl
scan-colon n (c ∷ l) rest h =
    ground (arith, h, scan-colon (n * 16 + digit c) l rest (ground (arith, h)))

-- A text of digits has no white space, sign or prefix in front.
stoull-all_upper :
    (l rest : Text)
    → 2 ≤ length l
    → all_upper l ≡ true
    → scan 16 0 l < 2 ^ 64
    → stoull 16 (l ++ 58 ∷ rest) ≡ ok (scan 16 0 l)
unfolding stoull erase_leading sign digit
stoull-all_upper [] rest long h fits = absurd (omega arith)
stoull-all_upper (c ∷ l) rest long h fits =
    let upper : is_upper c ≡ true = ground (arith, h) in
    let solid : is_blank c ≡ false = ground (arith, upper) in
    let no_minus : (c == 45) ≡ false = ground (arith, upper) in
    let no_plus : (c == 43) ≡ false = ground (arith, upper) in
    let text = c ∷ l ++ 58 ∷ rest in
    let digit_first : starts_digit 16 text ≡ true = ground (arith, upper) in
    let same = scan-colon 0 (c ∷ l) rest h in
    let below : ltb (scan 16 0 text) (2 ^ 64) ≡ true = ground (arith, fits, same) in
    rw (solid, no_minus, no_plus)
      (ap (number 16 false) (skip_prefix-all_upper (c ∷ l) (58 ∷ rest) long h)
        ∙ rw (digit_first, below) (ap ok same))

hex-all_upper : (n : ℕ) → all_upper (hex n) ≡ true
unfolding hex
hex-all_upper n =
    zeros-all_upper (4 - length (hex_digits 16 n [])) (hex_digits 16 n [])
      (hex_digits-all_upper 16 n [] refl)

length-hex : (n : ℕ) → 4 ≤ length (hex n)
unfolding hex
length-hex n =
    let digits = hex_digits 16 n [] in
    omega (
      arith,
      length-append (replicate (4 - length digits) 48) digits,
      length-replicate {A = ℕ} (4 - length digits) 48,
    )

scan-hex : (n : ℕ) → n < 2 ^ 64 → scan 16 0 (hex n) ≡ n
unfolding hex scan
scan-hex n h =
    scan-zeros (4 - length (hex_digits 16 n [])) (hex_digits 16 n [])
    ∙ scan-hex_digits 16 n [] (omega (arith, h))

-- A number of 64 bits is printed with at least four digits, all of them upper case, and reading what
-- is printed, up to a colon, gives the number again.
pub stoull-hex :
    (n : ℕ) (rest : Text)
    → n < 2 ^ 64
    → (stoull 16 (hex n ++ 58 ∷ rest) ≡ ok n) × (4 ≤ length (hex n)) × (all_upper (hex n) ≡ true)
stoull-hex n rest h = (
  stoull-all_upper (hex n) rest (omega (arith, length-hex n)) (hex-all_upper n)
        (omega (arith, scan-hex n h))
      ∙ ap ok (scan-hex n h),
  length-hex n,
  hex-all_upper n,
)

-- What stands in the hardware id behind its first twelve bytes reads as the vendor number, if that has
-- 64 bits, as all that are read do.
pub stoull-usb_info : (b : SysFsBase) → b.vid < 2 ^ 64 → stoull 16 (drop 12 (usb_info b)) ≡ ok b.vid
unfolding usb_info
stoull-usb_info b h =
    (stoull-hex b.vid
      (hex b.pid ++ (codes " SER=" ++ (b.serial_number ++ (codes " LOCATION=" ++ b.location)))) h).0
