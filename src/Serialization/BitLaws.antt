-- ===== src/Serialization/BitLaws.antt =====
-- `set_bit`, `check_bit` and the flags: which bit they touch, and that they agree.
use Prim.Native.Nat.{bit_and, bit_or}
use native.Mathlib.Nat.{mod-eq_of_lt}
use ares_common.Common.{
  ℕ, zero, suc, ◌+◌, ◌^◌, ◌≤◌, ◌<◌, ◌≡◌, ◌≢◌, refl, ap, ap₂, ◌∙◌, ◌⊎◌, inl, inr, Bool, true, false,
  List, [], ◌∷◌, length, ◌==◌, if◌then◌else◌, arith,
}
use ares_common.Common.Bits.{
  bit, bit-le-one, bit-bit_and, bit-bit_or, bit-pow, pow-lt, pow-pos, bit_and-pow, complement,
  bit-complement, bit_and-lt, bit_or-lt,
}
use ares_common.Serialization.{
  done, assert_failed, undefined, ◌>>=◌, shift_left, set_bit, check_bit, set_flags, get_flags,
}

-- A Boolean as a bit.
abbrev pub to_bit : Bool → ℕ
to_bit true = 1
to_bit false = 0

pub shift_left_one : (w k : ℕ) → k < w → shift_left w 1 k ≡ done (2 ^ k)
shift_left_one w k h = ground (arith, pow-lt k w h, mod-eq_of_lt (pow-lt k w h))

-- What `set_bit` computes at a bit of the bit field.
abbrev set_value : ℕ → ℕ → ℕ → Bool → ℕ
set_value w bitfield k value =
    if value
    then bit_or (bit_and bitfield (complement w (2 ^ k))) (2 ^ k)
    else bit_and bitfield (complement w (2 ^ k))

set_bit-done :
    (w bitfield k : ℕ) (value : Bool)
    → k < w
    → set_bit w bitfield k value ≡ done (set_value w bitfield k value)
unfolding set_bit
set_bit-done w bitfield k value h = ground (arith, shift_left_one w k h)

bit-set_value :
    (w bitfield k i : ℕ) (value : Bool)
    → k < w
    → i < w
    → bit (set_value w bitfield k value) i ≡ (if k == i then to_bit value else bit bitfield i)
bit-set_value w bitfield k i true h l = ground (
  arith,
  bit-bit_or (bit_and bitfield (complement w (2 ^ k))) (2 ^ k) i,
  bit-bit_and bitfield (complement w (2 ^ k)) i,
  bit-complement w (2 ^ k) i (pow-lt k w h) l,
  bit-pow k i,
  bit-le-one bitfield i,
)
bit-set_value w bitfield k i false h l = ground (
  arith,
  bit-bit_and bitfield (complement w (2 ^ k)) i,
  bit-complement w (2 ^ k) i (pow-lt k w h) l,
  bit-pow k i,
  bit-le-one bitfield i,
)

set_value-lt :
    (w bitfield k : ℕ) (value : Bool)
    → bitfield < 2 ^ w
    → k < w
    → set_value w bitfield k value < 2 ^ w
set_value-lt w bitfield k true fits h =
    bit_or-lt w _ (2 ^ k) (bit_and-lt w bitfield (complement w (2 ^ k)) fits) (pow-lt k w h)
set_value-lt w bitfield k false fits h = bit_and-lt w bitfield (complement w (2 ^ k)) fits

-- `set_bit` at a bit of a bit field of `w` bits returns, and changes that bit to the value and no other bit.
pub set_bit_lem :
    (w bitfield k : ℕ) (value : Bool)
    → bitfield < 2 ^ w
    → k < w
    → (r : ℕ) × (set_bit w bitfield k value ≡ done r)
      × (r < 2 ^ w)
      × ((i : ℕ) → i < w → bit r i ≡ (if k == i then to_bit value else bit bitfield i))
set_bit_lem w bitfield k value fits h = (
  set_value w bitfield k value,
  set_bit-done w bitfield k value h,
  set_value-lt w bitfield k value fits h,
  λ i l. bit-set_value w bitfield k i value h l,
)

-- `check_bit` at a bit of a bit field of `w` bits returns whether that bit is set.
pub check_bit_lem : (w bitfield k : ℕ) → k < w → check_bit w bitfield k ≡ done (bit bitfield k == 1)
unfolding check_bit
check_bit_lem w bitfield k h =
    ground (arith, shift_left_one w k h, bit_and-pow bitfield k, bit-le-one bitfield k, pow-pos k)

-- Bits from `start` on, as flags.
abbrev pub flags_of : ℕ → ℕ → ℕ → List Bool
flags_of bitfield start zero = []
flags_of bitfield start (suc count) =
    (bit bitfield start == 1) ∷ flags_of bitfield (start + 1) count

get_flags_lem :
    (w bitfield start count : ℕ)
    → start + count ≤ w
    → get_flags w bitfield start count ≡ done (flags_of bitfield start count)
unfolding get_flags
get_flags_lem w bitfield start zero h = refl
get_flags_lem w bitfield start (suc count) h =
    rw
      (
        check_bit_lem w bitfield start (omega arith),
        get_flags_lem w bitfield (start + 1) count (omega arith),
      )
      refl

to_bit_test : {n : ℕ} (b : Bool) → n ≡ to_bit b → (n == 1) ≡ b
to_bit_test true h = ground (arith, h)
to_bit_test false h = ground (arith, h)

-- `set_flags` returns and changes only the bits that it has flags for.
set_flags_lem :
    (w bitfield start : ℕ) (flags : List Bool)
    → bitfield < 2 ^ w
    → start + length flags ≤ w
    → (r : ℕ) × (set_flags w bitfield start flags ≡ done r)
      × (r < 2 ^ w)
      × ((i : ℕ) → i < w → (i < start) ⊎ (start + length flags ≤ i) → bit r i ≡ bit bitfield i)
      × (flags_of r start (length flags) ≡ flags)
unfolding set_flags
set_flags_lem w bitfield start [] fits h = (bitfield, refl, fits, (λ i l away. refl), refl)
set_flags_lem w bitfield start (flag ∷ flags) fits h =
    let (b, wrote, b_fits, b_bits) = set_bit_lem w bitfield start flag fits (omega arith) in
    let (r, rest, r_fits, r_bits, same) =
      set_flags_lem w b (start + 1) flags b_fits (omega arith) in
    (
      r,
      rw wrote rest,
      r_fits,
      (λ i l away. r_bits i l (further i away) ∙ b_bits i l ∙ ground (arith, outside i away)),
      ap₂ (λ f fs. f ∷ fs) (first r (r_bits start (omega arith) (inl (omega arith))) b_bits) same,
    )
  where
    further :
        (i : ℕ)
        → (i < start) ⊎ (start + suc (length flags) ≤ i)
        → (i < start + 1) ⊎ (start + 1 + length flags ≤ i)
    further i (inl p) = inl (omega arith)
    further i (inr p) = inr (omega arith)

    outside : (i : ℕ) → (i < start) ⊎ (start + suc (length flags) ≤ i) → start ≢ i
    outside i (inl p) same = omega arith
    outside i (inr p) same = omega arith

    first :
        {b : ℕ} (r : ℕ)
        → bit r start ≡ bit b start
        → ((i : ℕ) → i < w → bit b i ≡ (if start == i then to_bit flag else bit bitfield i))
        → (bit r start == 1) ≡ flag
    first r kept wrote = to_bit_test flag (kept ∙ wrote start (omega arith) ∙ ground arith)

-- If they have room in the bit field, the flags that `set_flags` wrote are the flags that `get_flags` reads at the same place.
pub get-set_flags :
    (w bitfield start : ℕ) (flags : List Bool)
    → bitfield < 2 ^ w
    → start + length flags ≤ w
    → (set_flags w bitfield start flags >>= λ b. get_flags w b start (length flags)) ≡ done flags
get-set_flags w bitfield start flags fits h =
    let (r, wrote, r_fits, r_bits, same) = set_flags_lem w bitfield start flags fits h in
    ap (λ m. m >>= λ b. get_flags w b start (length flags)) wrote
    ∙ get_flags_lem w r start (length flags) h
    ∙ ap done same

-- The asserts of `set_bit` and `check_bit` let the width itself through as a bit: from 32 bits on,
-- the shift that follows is undefined, and any bit past the width fails the assert.
pub width_as_bit :
    (w bitfield k : ℕ) (value : Bool)
    → 32 ≤ w
    → w ≤ k
    → (set_bit w bitfield k value ≡ (if k == w then undefined else assert_failed))
      × (check_bit w bitfield k ≡ (if k == w then undefined else assert_failed))
unfolding set_bit check_bit
width_as_bit w bitfield k value h l = ground arith
