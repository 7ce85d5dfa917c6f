-- ===== src/Common/Bits.antt =====
-- Bits of a number: what the bitwise operations do to them, for every width.
use Prim.Native.Nat.{
  ℕ, zero, suc, ◌+◌, ◌-◌, ◌*◌, ◌/◌, ◌%◌, ◌^◌, ◌≤◌, ◌<◌, min, max, bit_and, bit_or, digits, bitwise,
  bit_and-bitwise, bit_or-bitwise,
}
use mathlib.Core.Path.{◌≡◌, refl, sym, ap, ap₂, ◌∙◌}
use mathlib.Core.Logic.{inl, inr}
use native.Mathlib.Omega.{arith}
use native.Mathlib.Nat.{
  mod-eq_of_lt, pow-suc, pow-succ', div-one, zero-add, suc-add, div-div-eq-div-mul, div-add-mod,
  mul_assoc,
}
use ares_common.Common.Decide.{le-cases, ◌==◌, ltb, if◌then◌else◌}

-- Bit `i` of a number, 0 or 1.
abbrev pub bit : ℕ → ℕ → ℕ
bit n zero = n % 2
bit n (suc i) = bit (n / 2) i

pub bit-le-one : (n i : ℕ) → bit n i ≤ 1
bit-le-one n zero = omega arith
bit-le-one n (suc i) = bit-le-one (n / 2) i

pub zero-bit : (i : ℕ) → bit 0 i ≡ 0
zero-bit zero = refl
zero-bit (suc i) = zero-bit i

-- The native operations are recursions on halves, with the first number as fuel. One more unit of
-- fuel than the number changes nothing, so they can be told what they do to the last digits.
module _ (last : ℕ → ℕ) (join : ℕ → ℕ → ℕ) where
  digits-settled : (n a b : ℕ) → a ≤ n → digits last join (suc n) a b ≡ digits last join n a b
  digits-settled zero zero b h = refl
  digits-settled (suc n) zero b h = refl
  digits-settled zero (suc a) b h = absurd (omega arith)
  digits-settled (suc n) (suc a) b h =
      ap (λ high. high * 2 + join (suc a % 2) (b % 2))
        (digits-settled n (suc a / 2) (b / 2) (omega arith))

  same_fuel : (a b n : ℕ) → n ≡ a → digits last join n a b ≡ digits last join a a b
  same_fuel a b n h = ap (λ k. digits last join k a b) h

  digits-reached : (n a b : ℕ) → a ≤ n → digits last join n a b ≡ digits last join a a b
  digits-reached zero a b h = same_fuel a b 0 (omega arith)
  digits-reached (suc n) a b h = elim (le-cases a n) [
    | inl below ↦ digits-settled n a b below ∙ digits-reached n a b below
    | inr above ↦ same_fuel a b (suc n) (omega arith)
  ]

  bitwise-halves :
      (a b : ℕ)
      → bitwise last join (suc a) b
        ≡ bitwise last join (suc a / 2) (b / 2) * 2 + join (suc a % 2) (b % 2)
  bitwise-halves a b =
      ap (λ high. high * 2 + join (suc a % 2) (b % 2))
        (digits-reached a (suc a / 2) (b / 2) (omega arith))

zero-bit_and : (b : ℕ) → bit_and 0 b ≡ 0
zero-bit_and b = bit_and-bitwise 0 b

zero-bit_or : (b : ℕ) → bit_or 0 b ≡ b
zero-bit_or b = bit_or-bitwise 0 b

-- `&` and `|` by halves and last digits.
pub bit_and-halves : (a b : ℕ) → bit_and a b ≡ bit_and (a / 2) (b / 2) * 2 + min (a % 2) (b % 2)
bit_and-halves zero b = omega (arith, zero-bit_and b, zero-bit_and (b / 2))
bit_and-halves (suc a) b =
    bit_and-bitwise (suc a) b
    ∙ bitwise-halves (λ y. zero) min a b
    ∙ ap (λ high. high * 2 + min (suc a % 2) (b % 2)) (sym (bit_and-bitwise (suc a / 2) (b / 2)))

bit_or-halves : (a b : ℕ) → bit_or a b ≡ bit_or (a / 2) (b / 2) * 2 + max (a % 2) (b % 2)
bit_or-halves zero b = omega (arith, zero-bit_or b, zero-bit_or (b / 2))
bit_or-halves (suc a) b =
    bit_or-bitwise (suc a) b
    ∙ bitwise-halves (λ y. y) max a b
    ∙ ap (λ high. high * 2 + max (suc a % 2) (b % 2)) (sym (bit_or-bitwise (suc a / 2) (b / 2)))

-- Bit by bit, `&` is the minimum and `|` the maximum.
pub bit-bit_and : (a b i : ℕ) → bit (bit_and a b) i ≡ min (bit a i) (bit b i)
bit-bit_and a b zero = omega (arith, bit_and-halves a b)
bit-bit_and a b (suc i) =
    ap (λ n. bit n i) (omega (arith, bit_and-halves a b)) ∙ bit-bit_and (a / 2) (b / 2) i

pub bit-bit_or : (a b i : ℕ) → bit (bit_or a b) i ≡ max (bit a i) (bit b i)
bit-bit_or a b zero = omega (arith, bit_or-halves a b)
bit-bit_or a b (suc i) =
    ap (λ n. bit n i) (omega (arith, bit_or-halves a b)) ∙ bit-bit_or (a / 2) (b / 2) i

-- Twice a power of two.
pub double : (k : ℕ) → 2 ^ suc k ≡ 2 ^ k * 2
double k = pow-suc 2 k

half_double : (k : ℕ) → 2 ^ suc k / 2 ≡ 2 ^ k
half_double k = omega (arith, double k)

pub pow-pos : (k : ℕ) → 0 < 2 ^ k
pow-pos zero = omega arith
pow-pos (suc k) = omega (arith, double k, pow-pos k)

pub pow-lt : (k w : ℕ) → k < w → 2 ^ k < 2 ^ w
pow-lt k zero h = absurd (omega arith)
pow-lt zero (suc w) h = omega (arith, double w, pow-pos w)
pow-lt (suc k) (suc w) h = omega (arith, double k, double w, pow-lt k w (omega arith))

pub pow-le : (k w : ℕ) → k ≤ w → 2 ^ k ≤ 2 ^ w
pow-le zero w h = omega (arith, pow-pos w)
pow-le (suc k) zero h = absurd (omega arith)
pow-le (suc k) (suc w) h = omega (arith, double k, double w, pow-le k w (omega arith))

digits-zero : (n a : ℕ) → digits (λ y. zero) min n a 0 ≡ 0
digits-zero zero a = refl
digits-zero (suc n) zero = refl
digits-zero (suc n) (suc a) = omega (arith, digits-zero n (suc a / 2))

bit_and-zero : (a : ℕ) → bit_and a 0 ≡ 0
bit_and-zero a = bit_and-bitwise a 0 ∙ digits-zero a a

-- Masking with a power of two leaves its bit.
pub bit_and-pow : (a k : ℕ) → bit_and a (2 ^ k) ≡ bit a k * 2 ^ k
bit_and-pow a zero = omega (arith, bit_and-halves a 1, bit_and-zero (a / 2))
bit_and-pow a (suc k) = omega (
  arith,
  double k,
  bit_and-halves a (2 ^ suc k),
  ap (λ n. bit_and (a / 2) n) (half_double k),
  bit_and-pow (a / 2) k,
  times_double (bit (a / 2) k),
)
  where
    times_double : (b : ℕ) → b * 2 ^ suc k ≡ b * 2 ^ k * 2
    times_double b = ap (λ n. b * n) (double k) ∙ sym (mul_assoc b (2 ^ k) 2)

-- A power of two has one bit.
pub bit-pow : (k i : ℕ) → bit (2 ^ k) i ≡ (if k == i then 1 else 0)
bit-pow zero zero = refl
bit-pow zero (suc i) = ground (arith, zero-bit i)
bit-pow (suc k) zero = ground (arith, double k)
bit-pow (suc k) (suc i) = ap (λ n. bit n i) (half_double k) ∙ ground (arith, bit-pow k i)

-- The bitwise complement in `w` bits.
abbrev pub complement : ℕ → ℕ → ℕ
complement w m = 2 ^ w - 1 - m

complement-half : (w m : ℕ) → m < 2 ^ suc w → complement (suc w) m / 2 ≡ complement w (m / 2)
complement-half w m h = omega (arith, double w, pow-pos w)

pub bit-complement : (w m i : ℕ) → m < 2 ^ w → i < w → bit (complement w m) i ≡ 1 - bit m i
bit-complement zero m i h k = absurd (omega arith)
bit-complement (suc w) m zero h k = omega (arith, double w, pow-pos w)
bit-complement (suc w) m (suc i) h k =
    ap (λ n. bit n i) (complement-half w m h)
    ∙ bit-complement w (m / 2) i (omega (arith, double w)) (omega arith)

-- Numbers of `w` bits with the same bits are the same.
pub eq_of_bits : (w a b : ℕ) → a < 2 ^ w → b < 2 ^ w → ((i : ℕ) → i < w → bit a i ≡ bit b i) → a ≡ b
eq_of_bits zero a b p q same = omega arith
eq_of_bits (suc w) a b p q same = omega (
  arith,
  same 0 (omega arith),
  eq_of_bits w (a / 2) (b / 2) (omega (arith, double w)) (omega (arith, double w))
      (λ i h. same (suc i) (omega arith)),
)

pub bit_and-lt : (w a b : ℕ) → a < 2 ^ w → bit_and a b < 2 ^ w
bit_and-lt zero a b p =
    omega
      (arith, bit_and-halves a b, ap (λ n. bit_and n (b / 2)) (half_zero a p), zero-bit_and (b / 2))
  where
    half_zero : (n : ℕ) → n < 2 ^ 0 → n / 2 ≡ 0
    half_zero n h = omega arith
bit_and-lt (suc w) a b p =
    omega
      (arith, double w, bit_and-halves a b, bit_and-lt w (a / 2) (b / 2) (omega (arith, double w)))

pub bit_and-lt_right : (w a b : ℕ) → b < 2 ^ w → bit_and a b < 2 ^ w
bit_and-lt_right zero a b p =
    let none : b ≡ 0 = omega arith in omega (arith, ap (λ n. bit_and a n) none, bit_and-zero a)
bit_and-lt_right (suc w) a b p = omega (
  arith,
  double w,
  bit_and-halves a b,
  bit_and-lt_right w (a / 2) (b / 2) (omega (arith, double w)),
)

pub bit_or-lt : (w a b : ℕ) → a < 2 ^ w → b < 2 ^ w → bit_or a b < 2 ^ w
bit_or-lt zero a b p q =
    let none : a ≡ 0 = omega arith in omega (arith, ap (λ n. bit_or n b) none, zero-bit_or b)
bit_or-lt (suc w) a b p q = omega (
  arith,
  double w,
  bit_or-halves a b,
  bit_or-lt w (a / 2) (b / 2) (omega (arith, double w)) (omega (arith, double w)),
)

-- Shifting right moves the bits down.
pub bit-shift_right : (k x i : ℕ) → bit (x / 2 ^ k) i ≡ bit x (k + i)
bit-shift_right zero x i = ap₂ bit (div-one x) (sym (zero-add i))
bit-shift_right (suc k) x i =
    ap (λ n. bit n i) shifted ∙ bit-shift_right k (x / 2) i ∙ ap (bit x) (sym (suc-add k i))
  where
    shifted : x / 2 ^ suc k ≡ x / 2 / 2 ^ k
    shifted = ap (λ m. x / m) (pow-succ' 2 k) ∙ sym (div-div-eq-div-mul x 2 (2 ^ k))

-- Shifting left moves the bits up.
pub bit-shift_left : (k x i : ℕ) → bit (x * 2 ^ k) i ≡ (if ltb i k then 0 else bit x (i - k))
bit-shift_left zero x i = ground (arith, ap (λ n. bit n i) once, ap (bit x) same)
  where
    once : x * 2 ^ 0 ≡ x
    once = omega arith

    same : i - 0 ≡ i
    same = omega arith
bit-shift_left (suc k) x zero = ground (arith, ap (λ n. x * n) (double k))
bit-shift_left (suc k) x (suc i) = ap (λ n. bit n i) halved ∙ bit-shift_left k x i ∙ ground arith
  where
    halved : x * 2 ^ suc k / 2 ≡ x * 2 ^ k
    halved = omega (arith, ap (λ n. x * n) (double k))

mod_double : (w x : ℕ) → (x % 2 ^ suc w % 2 ≡ x % 2) × (x % 2 ^ suc w / 2 ≡ x / 2 % 2 ^ w)
mod_double w x = omega (
  arith,
  double w,
  div-add-mod x (2 ^ suc w),
  div-add-mod (x / 2) (2 ^ w),
  ap (λ m. m * (x / 2 ^ suc w)) (double w),
  ap (λ q. 2 ^ w * q) quotient,
)
  where
    quotient : x / 2 ^ suc w ≡ x / 2 / 2 ^ w
    quotient = ap (λ m. x / m) (pow-succ' 2 w) ∙ sym (div-div-eq-div-mul x 2 (2 ^ w))

-- Cutting off at `w` bits.
pub bit-mod : (w x i : ℕ) → bit (x % 2 ^ w) i ≡ (if ltb i w then bit x i else 0)
bit-mod zero x i = ap (λ n. bit n i) (omega arith) ∙ zero-bit i ∙ ground arith
bit-mod (suc w) x zero = ground (arith, mod_double w x)
bit-mod (suc w) x (suc i) =
    ap (λ n. bit n i) (mod_double w x).1 ∙ bit-mod w (x / 2) i ∙ ground arith

-- A number of `n` bits has none further up.
pub bit-of_lt : (n x i : ℕ) → x < 2 ^ n → n ≤ i → bit x i ≡ 0
bit-of_lt n x i h l = ap (λ m. bit m i) (sym (mod-eq_of_lt h)) ∙ bit-mod n x i ∙ ground arith

-- The `n` lowest bits.
pub bit-mask : (n i : ℕ) → bit (2 ^ n - 1) i ≡ (if ltb i n then 1 else 0)
bit-mask n i = elim (le-cases n i) [
  | inl h ↦ bit-of_lt n (2 ^ n - 1) i (omega (arith, pow-pos n)) h ∙ ground arith
  | inr h ↦
      ap (λ m. bit m i) (omega arith)
      ∙ bit-complement n 0 i (pow-pos n) h
      ∙ ground (arith, zero-bit i)
]
