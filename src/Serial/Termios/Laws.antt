-- ===== src/Serial/Termios/Laws.antt =====
-- What a configured port has: the parity that was asked for, and either every setting or none.
use Prim.Native.Nat.{bit_or}
use ares_common.Common.{
  ℕ, ◌*◌, ◌^◌, ◌<◌, ◌≡◌, ◌≢◌, refl, Bool, true, false, not, ◌&&◌, ◌||◌, none, some, inl, inr, ◌⊎◌,
  if◌then◌else◌, ◌==◌, ltb, arith,
}
use ares_common.Common.Bits.{
  bit, bit-le-one, bit-pow, bit-bit_and, bit-bit_or, bit-complement, complement, pow-lt,
}
use ares_common.Common.Int.{pos}
use ares_common.Serial.Config.{
  baud_invalid, parity_invalid, stopbits_invalid, stopbits_1p5, Parity, parity_none, parity_even,
  parity_odd, parity_mark, parity_space, parity_other, Constants, Termios, Config,
}
use ares_common.Serial.Termios.{
  Applied, set_baud, stopbits_flags, applied, refused, undefined, einval, set_mask, clear_mask,
  flag, parity_flags, set_ic_timeout,
}

-- Whether flag `k` is set.
abbrev pub has : ℕ → ℕ → Bool
has k f = bit f k == 1

has-set : (f k i : ℕ) → has i (set_mask (flag k) f) ≡ (k == i) || has i f
has-set f k i = ground (arith, bit-bit_or f (2 ^ k) i, bit-pow k i, bit-le-one f i)

has-set_two :
    (f k j i : ℕ) → has i (set_mask (bit_or (flag k) (flag j)) f) ≡ (k == i) || (j == i) || has i f
has-set_two f k j i = ground (
  arith,
  bit-bit_or f (bit_or (2 ^ k) (2 ^ j)) i,
  bit-bit_or (2 ^ k) (2 ^ j) i,
  bit-pow k i,
  bit-pow j i,
  bit-le-one f i,
)

has-set_three :
    (f k j m i : ℕ)
    → has i (set_mask (bit_or (bit_or (flag k) (flag j)) (flag m)) f)
      ≡ (k == i) || (j == i) || (m == i) || has i f
has-set_three f k j m i = ground (
  arith,
  bit-bit_or f (bit_or (bit_or (2 ^ k) (2 ^ j)) (2 ^ m)) i,
  bit-bit_or (bit_or (2 ^ k) (2 ^ j)) (2 ^ m) i,
  bit-bit_or (2 ^ k) (2 ^ j) i,
  bit-pow k i,
  bit-pow j i,
  bit-pow m i,
  bit-le-one f i,
)

has-clear : (f k i : ℕ) → k < 32 → i < 32 → has i (clear_mask (flag k) f) ≡ not (k == i) && has i f
has-clear f k i l h = ground (
  arith,
  bit-bit_and f (complement 32 (2 ^ k)) i,
  bit-complement 32 (2 ^ k) i (pow-lt k 32 l) h,
  bit-pow k i,
  bit-le-one f i,
)

-- The parity that control flags stand for.
abbrev pub parity_of : Constants → ℕ → Parity
parity_of c f =
    if not (has c.parenb f)
    then parity_none
    else if has c.cmspar f
    then if has c.parodd f then parity_mark else parity_space
    else if has c.parodd f
    then parity_odd
    else parity_even

-- What <termios.h> says of the three flags: they are bits of their own, of 32.
pub record AreFlags (c : Constants) : Type 0 where
  pub parenb_in : c.parenb < 32
  pub parodd_in : c.parodd < 32
  pub cmspar_in : c.cmspar < 32
  pub parenb_parodd : c.parenb ≢ c.parodd
  pub parenb_cmspar : c.parenb ≢ c.cmspar
  pub parodd_cmspar : c.parodd ≢ c.cmspar

-- The parity that a port has after it was asked for one: the sticky flag of mark and space is never
-- taken back, so even becomes space and odd becomes mark if it is set.
abbrev pub sticky : Bool → Parity → Parity
sticky true parity_even = parity_space
sticky true parity_odd = parity_mark
sticky _ p = p

module _ {c : Constants} (w : AreFlags c) (f : ℕ) where
  -- The flags of each parity.
  even_lem :
      parity_of c (clear_mask (flag c.parodd) (set_mask (flag c.parenb) f))
      ≡ sticky (has c.cmspar f) parity_even
  even_lem =
      let g = set_mask (flag c.parenb) f in
      ground (
        arith,
        has-clear g c.parodd c.parenb w.parodd_in w.parenb_in,
        has-clear g c.parodd c.parodd w.parodd_in w.parodd_in,
        has-clear g c.parodd c.cmspar w.parodd_in w.cmspar_in,
        has-set f c.parenb c.parenb,
        has-set f c.parenb c.cmspar,
        w.parenb_parodd,
        w.parenb_cmspar,
        w.parodd_cmspar,
      )

  none_lem : parity_of c (clear_mask (flag c.parenb) f) ≡ sticky (has c.cmspar f) parity_none
  none_lem = ground (arith, has-clear f c.parenb c.parenb w.parenb_in w.parenb_in)

  odd_lem :
      parity_of c (set_mask (bit_or (flag c.parenb) (flag c.parodd)) f)
      ≡ sticky (has c.cmspar f) parity_odd
  odd_lem = ground (
    arith,
    has-set_two f c.parenb c.parodd c.parenb,
    has-set_two f c.parenb c.parodd c.parodd,
    has-set_two f c.parenb c.parodd c.cmspar,
    w.parenb_cmspar,
    w.parodd_cmspar,
  )

  mark_lem :
      parity_of c (set_mask (bit_or (bit_or (flag c.parenb) (flag c.cmspar)) (flag c.parodd)) f)
      ≡ sticky (has c.cmspar f) parity_mark
  mark_lem = ground (
    arith,
    has-set_three f c.parenb c.cmspar c.parodd c.parenb,
    has-set_three f c.parenb c.cmspar c.parodd c.cmspar,
    has-set_three f c.parenb c.cmspar c.parodd c.parodd,
  )

  space_lem :
      parity_of c (clear_mask (flag c.parodd) (set_mask (bit_or (flag c.parenb) (flag c.cmspar)) f))
      ≡ sticky (has c.cmspar f) parity_space
  space_lem =
      let g = set_mask (bit_or (flag c.parenb) (flag c.cmspar)) f in
      ground (
        arith,
        has-clear g c.parodd c.parenb w.parodd_in w.parenb_in,
        has-clear g c.parodd c.parodd w.parodd_in w.parodd_in,
        has-clear g c.parodd c.cmspar w.parodd_in w.cmspar_in,
        has-set_two f c.parenb c.cmspar c.parenb,
        has-set_two f c.parenb c.cmspar c.cmspar,
        w.parenb_parodd,
        w.parodd_cmspar,
      )

-- If the three flags are bits of their own, setting a parity makes it the port's, unless the flag of
-- mark and space was set: then even parity makes it space, and odd parity mark. A value that is no
-- enumerator is refused; `PARITY_INVALID` is one, the same as even parity.
pub parity_lem :
    (c : Constants)
    → AreFlags c
    → (p : Parity) (f : ℕ)
    → ((p ≡ parity_other) × (parity_flags c p f ≡ none))
      ⊎ ((g : ℕ) × (parity_flags c p f ≡ some g) × (parity_of c g ≡ sticky (has c.cmspar f) p))
unfolding parity_flags
parity_lem c w parity_none f = inr (_, refl, none_lem w f)
parity_lem c w parity_even f = inr (_, refl, even_lem w f)
parity_lem c w parity_odd f = inr (_, refl, odd_lem w f)
parity_lem c w parity_mark f = inr (_, refl, mark_lem w f)
parity_lem c w parity_space f = inr (_, refl, space_lem w f)
parity_lem c w parity_other f = inl (refl, refl)

-- Whether a change comes to a value.
abbrev pub is_applied : {A : Type 0} → Applied A → Bool
is_applied (applied a) = true
is_applied (refused e) = false
is_applied undefined = false

-- The enumerators for invalid settings are accepted, as the valid ones of the same number.
pub invalid_accepted :
    (c : Constants) (tty : Termios) (f : ℕ)
    → (set_baud c baud_invalid tty
        ≡ some (record tty { ispeed = c.speed 230400; ospeed = c.speed 230400 }))
      × (parity_flags c parity_invalid f ≡ parity_flags c parity_even f)
      × (stopbits_flags c stopbits_invalid f ≡ stopbits_flags c stopbits_1p5 f)
unfolding set_baud
invalid_accepted c tty f = (refl, refl, refl)

-- The inter-byte timeout: up to 25 seconds it is written in tenths, up to 214748364 it is refused, and
-- from there on the product overflows before it is checked. A negative one turns it off.
pub ic_timeout_lem :
    (n : ℕ) (tty : Termios)
    → set_ic_timeout (pos n) tty ≡ (
        if ltb n 26
        then applied (record tty { vmin = 1; vtime = n * 10 })
        else if ltb n 214748365
        then refused einval
        else undefined)
unfolding set_ic_timeout
ic_timeout_lem n tty = ground arith
