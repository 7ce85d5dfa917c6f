-- ===== src/SysFs/Numbers.antt =====
-- Numbers as texts: `std::stoul` and `std::stoull` in a base, and the hexadecimal digits that
-- `SysFsBase::usb_info` of src/serial/tools/core/sys_fs_common.cpp prints.
use ares_common.Common.{
  ℕ, zero, suc, ◌+◌, ◌-◌, ◌*◌, ◌/◌, ◌%◌, ◌^◌, Bool, true, false, ◌&&◌, ◌||◌, [], ◌∷◌, ◌++◌, Result,
  ok, err, if◌then◌else◌, ◌==◌, ltb, leb, length, replicate,
}
use ares_common.SysFs.Texts.{Text, erase_leading}

-- What leaves a constructor: an error of the file system, or of a text that is no number.
pub data Failure : Type 0 where
  filesystem_error : Failure
  invalid_argument : Failure
  out_of_range : Failure

-- A digit's value, 16 for a byte that is none.
unfoldable pub digit : ℕ → ℕ
digit c =
    if leb 48 c && leb c 57
    then c - 48
    else if leb 65 c && leb c 70
    then c - 55
    else if leb 97 c && leb c 102
    then c - 87
    else 16

abbrev pub starts_digit : ℕ → Text → Bool
starts_digit base [] = false
starts_digit base (c ∷ l) = ltb (digit c) base

-- The digits at the beginning, read behind `n`.
unfoldable pub scan : ℕ → ℕ → Text → ℕ
scan base n [] = n
scan base n (c ∷ l) =
    let more = scan base (n * base + digit c) l in if ltb (digit c) base then more else n

-- A sign, and whether it is a minus.
unfoldable pub sign : Text → Bool × Text
sign [] = (false, [])
sign (c ∷ l) = if c == 45 then (true, l) else if c == 43 then (false, l) else (false, c ∷ l)

-- `0x`, if a digit stands behind it.
unfoldable pub skip_prefix : Text → Text
skip_prefix [] = []
skip_prefix (c ∷ []) = c ∷ []
skip_prefix (c ∷ d ∷ l) =
    if (c == 48) && ((d == 120) || (d == 88)) && starts_digit 16 l then l else c ∷ d ∷ l

abbrev pub negate : Bool → ℕ → ℕ
negate minus n = if minus then (2 ^ 64 - n) % 2 ^ 64 else n

abbrev pub number : ℕ → Bool → Text → Result Failure ℕ
number base minus l =
    let n = scan base 0 l in
    if starts_digit base l
    then if ltb n (2 ^ 64) then ok (negate minus n) else err out_of_range
    else err invalid_argument

-- `std::stoull(line, nullptr, base)`; `std::stoul` is the same, as both types have 64 bits.
unfoldable pub stoull : ℕ → Text → Result Failure ℕ
stoull base l =
    let (minus, rest) = sign (erase_leading l) in
    number base minus (if base == 16 then skip_prefix rest else rest)

-- The digits of `std::hex` with `std::uppercase`.
abbrev pub upper_digit : ℕ → ℕ
upper_digit d = if ltb d 10 then 48 + d else 55 + d

unfoldable pub hex_digits : ℕ → ℕ → Text → Text
hex_digits zero n rest = rest
hex_digits (suc k) n rest =
    let more = hex_digits k (n / 16) (upper_digit (n % 16) ∷ rest) in
    if ltb n 16 then upper_digit n ∷ rest else more

-- `std::setw(4) << std::setfill('0')`; a number of 64 bits has at most 16 digits.
unfoldable pub hex : ℕ → Text
hex n = let digits = hex_digits 16 n [] in replicate (4 - length digits) 48 ++ digits
