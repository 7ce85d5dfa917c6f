-- ===== src/Serialization/FieldLaws.antt =====
-- `set_bitfield` and `get_bitfield`: which bits they write and read, and that they agree.
use Prim.Native.Nat.{bit_and, bit_or}
use native.Mathlib.Nat.{mod-lt, mod-eq_of_lt, mod_self, add-mod_right}
use ares_common.Common.{
  le-cases, ℕ, ◌+◌, ◌-◌, ◌*◌, ◌/◌, ◌%◌, ◌^◌, ◌≤◌, ◌<◌, ◌≡◌, refl, sym, ap, ◌∙◌, ◌⊎◌, inl, inr, ◌&&◌,
  ltb, leb, if◌then◌else◌, arith,
}
use ares_common.Common.Bits.{
  bit, bit-le-one, bit-bit_and, bit-bit_or, bit-mask, bit-mod, bit-shift_left, bit-shift_right,
  complement, bit-complement, bit_and-lt, bit_and-lt_right, pow-le, bit_or-lt, eq_of_bits, pow-lt,
  pow-pos,
}
use ares_common.Serialization.{
  done, ◌>>=◌, shift_left, field_asserts, field_mask, set_bitfield, get_bitfield,
}

-- What the asserts ask of a field, and what the shift that makes its mask asks beside them: a field
-- as wide as a container of 32 bits or more has no mask.
pub record IsField (w1 w2 lsb num_bits : ℕ) : Type 0 where
  pub inside : lsb < w1
  pub some_bits : 0 < num_bits
  pub fits_value : num_bits ≤ w2
  pub fits : lsb + num_bits ≤ w1
  pub has_mask : (num_bits < w1) ⊎ (w1 < 32)

mask_value : (n w : ℕ) → n ≤ w → (1 * 2 ^ n % 2 ^ w + 2 ^ w - 1) % 2 ^ w ≡ 2 ^ n - 1
mask_value n w h = elim (le-cases w n) [ inl l ↦ full (omega arith) | inr l ↦ part l ]
  where
    less_one : (k : ℕ) → (2 ^ k - 1) % 2 ^ k ≡ 2 ^ k - 1
    less_one k = mod-eq_of_lt (omega (arith, pow-pos k))

    full : n ≡ w → (1 * 2 ^ n % 2 ^ w + 2 ^ w - 1) % 2 ^ w ≡ 2 ^ n - 1
    full same =
        ap (λ m. (m % 2 ^ w + 2 ^ w - 1) % 2 ^ w) (omega (arith, ap (λ k. 2 ^ k) same))
        ∙ ap (λ m. (m + 2 ^ w - 1) % 2 ^ w) (mod_self (2 ^ w))
        ∙ ap (λ m. m % 2 ^ w) (omega arith)
        ∙ less_one w
        ∙ ap (λ k. 2 ^ k - 1) (sym same)

    part : n < w → (1 * 2 ^ n % 2 ^ w + 2 ^ w - 1) % 2 ^ w ≡ 2 ^ n - 1
    part l =
        ap (λ m. (m + 2 ^ w - 1) % 2 ^ w)
          (ap (λ m. m % 2 ^ w) (omega arith) ∙ mod-eq_of_lt (pow-lt n w l))
        ∙ ap (λ m. m % 2 ^ w) (omega (arith, pow-pos n))
        ∙ add-mod_right (2 ^ n - 1) (2 ^ w)
        ∙ mod-eq_of_lt (omega (arith, pow-pos n, pow-lt n w l))

module _ {w1 w2 lsb num_bits : ℕ} (field : IsField w1 w2 lsb num_bits) where
  field_asserts-done : field_asserts w1 w2 lsb num_bits ≡ done tt
  unfolding field_asserts
  field_asserts-done = ground (arith, field.inside, field.some_bits, field.fits_value, field.fits)

  shift_left-field : (x : ℕ) → shift_left w1 x lsb ≡ done (x * 2 ^ lsb % 2 ^ w1)
  shift_left-field x = ground (arith, field.inside)

  field_mask-done : field_mask w1 num_bits ≡ done (2 ^ num_bits - 1)
  field_mask-done = elim (field.has_mask) [
    | inl h ↦ ground (arith, mask_value num_bits w1 (omega (arith, field.fits)))
    | inr h ↦ ground (arith, mask_value num_bits w1 (omega (arith, field.fits)))
  ]

  -- The bits that `get_bitfield` extracts.
  abbrev got : ℕ → ℕ
  got bitfield = bit_and (bitfield / 2 ^ lsb) (2 ^ num_bits - 1)

  bit-got :
      (bitfield i : ℕ)
      → bit (got bitfield) i ≡ (if ltb i num_bits then bit bitfield (lsb + i) else 0)
  bit-got bitfield i = ground (
    arith,
    bit-bit_and (bitfield / 2 ^ lsb) (2 ^ num_bits - 1) i,
    bit-shift_right lsb bitfield i,
    bit-mask num_bits i,
    bit-le-one bitfield (lsb + i),
  )

  got-lt : (bitfield : ℕ) → got bitfield < 2 ^ w2
  got-lt bitfield = omega (
    arith,
    bit_and-lt_right num_bits (bitfield / 2 ^ lsb) (2 ^ num_bits - 1)
        (omega (arith, pow-pos num_bits)),
    pow-le num_bits w2 field.fits_value,
  )

  -- `get_bitfield` of a field that fits and has a mask returns the field's bits, moved down, and no
  -- others.
  pub get_bitfield_lem :
      (bitfield : ℕ)
      → (r : ℕ) × (get_bitfield w1 w2 bitfield lsb num_bits ≡ done r)
        × (r < 2 ^ w2)
        × ((i : ℕ) → bit r i ≡ (if ltb i num_bits then bit bitfield (lsb + i) else 0))
  unfolding get_bitfield
  get_bitfield_lem bitfield = (
    got bitfield,
    rw (field_asserts-done, field_mask-done, mod-eq_of_lt (got-lt bitfield)) refl,
    got-lt bitfield,
    bit-got bitfield,
  )

  -- The mask in its place, the value in its place, and what `set_bitfield` computes from them.
  abbrev shifted : ℕ
  shifted = (2 ^ num_bits - 1) * 2 ^ lsb % 2 ^ w1

  abbrev placed : ℕ → ℕ
  placed value = bit_and value (2 ^ num_bits - 1) * 2 ^ lsb % 2 ^ w1

  abbrev written : ℕ → ℕ → ℕ
  written bitfield value = bit_or (bit_and bitfield (complement w1 shifted)) (placed value)

  bit-shifted :
      (i : ℕ) → i < w1 → bit shifted i ≡ (if leb lsb i && ltb i (lsb + num_bits) then 1 else 0)
  bit-shifted i h = ground (
    arith,
    bit-mod w1 ((2 ^ num_bits - 1) * 2 ^ lsb) i,
    bit-shift_left lsb (2 ^ num_bits - 1) i,
    bit-mask num_bits (i - lsb),
  )

  bit-placed :
      (value i : ℕ)
      → i < w1
      → bit (placed value) i
        ≡ (if leb lsb i && ltb i (lsb + num_bits) then bit value (i - lsb) else 0)
  bit-placed value i h = ground (
    arith,
    bit-mod w1 (bit_and value (2 ^ num_bits - 1) * 2 ^ lsb) i,
    bit-shift_left lsb (bit_and value (2 ^ num_bits - 1)) i,
    bit-bit_and value (2 ^ num_bits - 1) (i - lsb),
    bit-mask num_bits (i - lsb),
    bit-le-one value (i - lsb),
  )

  bit-written :
      (bitfield value i : ℕ)
      → i < w1
      → bit (written bitfield value) i
        ≡ (if leb lsb i && ltb i (lsb + num_bits) then bit value (i - lsb) else bit bitfield i)
  bit-written bitfield value i h = ground (
    arith,
    bit-bit_or (bit_and bitfield (complement w1 shifted)) (placed value) i,
    bit-bit_and bitfield (complement w1 shifted) i,
    bit-complement w1 shifted i (mod-lt ((2 ^ num_bits - 1) * 2 ^ lsb) (pow-pos w1)) h,
    bit-shifted i h,
    bit-placed value i h,
    bit-le-one bitfield i,
    bit-le-one value (i - lsb),
  )

  -- `set_bitfield` of a field that fits and has a mask returns, with the field's bits changed to the
  -- value's lowest ones and no other bit changed.
  pub set_bitfield_lem :
      (bitfield value : ℕ)
      → bitfield < 2 ^ w1
      → (r : ℕ) × (set_bitfield w1 w2 bitfield lsb num_bits value ≡ done r)
        × (r < 2 ^ w1)
        × ((i : ℕ)
            → i < w1
            → bit r i ≡ (
                if leb lsb i && ltb i (lsb + num_bits)
                then bit value (i - lsb)
                else bit bitfield i))
  unfolding set_bitfield
  set_bitfield_lem bitfield value h = (
    written bitfield value,
    rw
        (
          field_asserts-done,
          field_mask-done,
          shift_left-field (bit_and value (2 ^ num_bits - 1)),
          shift_left-field (2 ^ num_bits - 1),
        )
        refl,
    bit_or-lt w1 (bit_and bitfield (complement w1 shifted)) (placed value)
        (bit_and-lt w1 bitfield (complement w1 shifted) h)
        (mod-lt (bit_and value (2 ^ num_bits - 1) * 2 ^ lsb) (pow-pos w1)),
    bit-written bitfield value,
  )

  -- For a field that fits and has a mask, `get_bitfield` reads what `set_bitfield` wrote: the value's
  -- lowest bits.
  pub get-set_bitfield :
      (bitfield value : ℕ)
      → bitfield < 2 ^ w1
      → (set_bitfield w1 w2 bitfield lsb num_bits value >>= λ b. get_bitfield w1 w2 b lsb num_bits)
        ≡ done (value % 2 ^ num_bits)
  get-set_bitfield bitfield value h =
      let (b, wrote, b_fits, b_bits) = set_bitfield_lem bitfield value h in
      let (r, read, r_fits, r_bits) = get_bitfield_lem b in
      ap (λ m. m >>= λ b. get_bitfield w1 w2 b lsb num_bits) wrote
      ∙ read
      ∙ ap done (
          eq_of_bits w2 r (value % 2 ^ num_bits) r_fits
            (omega (arith, mod-lt value (pow-pos num_bits), pow-le num_bits w2 field.fits_value))
            λ i l. elim (le-cases num_bits i) [
              | inl h ↦ ground (arith, r_bits i, bit-mod num_bits value i)
              | inr h ↦ ground (
                arith,
                r_bits i,
                bit-mod num_bits value i,
                b_bits (lsb + i) (omega (arith, field.fits)),
                ap (bit value) back,
              )
            ])
    where
      back : {i : ℕ} → lsb + i - lsb ≡ i
      back = omega arith
