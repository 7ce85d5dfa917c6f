-- ===== src/Allocators/Laws.antt =====
-- Powers of two, and what an allocation gives.
use Prim.Native.Nat.{bit_and}
use native.Mathlib.Nat.{pow-suc, mod-eq_of_lt, div-add-mod', mul-le-mul_right}
use ares_common.Common.{
  ℕ, zero, suc, ◌+◌, ◌-◌, ◌*◌, ◌/◌, ◌%◌, ◌^◌, ◌<◌, ◌≤◌, ◌≡◌, ◌↔◌, ◌⊎◌, inl, inr, refl, sym, ap, ◌∙◌,
  true, false, ◌&&◌, Option, none, some, Option-cases, ◌==◌, leb, min, arith, Bool-cases,
}
use ares_common.Common.Bits.{bit_and-halves}
use ares_common.Allocators.{
  power_of_2, Allocation, returned, bad_alloc, aborts, stored, allocated, pointer_size, max_size,
  allocate_aligned_memory, allocate_aligned_page, aligned_allocate, page_allocate,
}

even-odd : (x : ℕ) → (x % 2 ≡ 0) ⊎ (x % 2 ≡ 1)
even-odd x = ground arith

pow-pos : (k : ℕ) → 0 < 2 ^ k
pow-pos zero = omega arith
pow-pos (suc k) = omega (arith, pow-pos k, pow-suc 2 k)

-- A number and itself.
bit_and-same : (fuel x : ℕ) → x ≤ fuel → bit_and x x ≡ x
bit_and-same zero x h = let e : x ≡ 0 = omega (arith, h) in ap (λ y. bit_and y y) e ∙ sym e
bit_and-same (suc fuel) x h =
    omega (arith, h, bit_and-halves x x, bit_and-same fuel (x / 2) (omega (arith, h)))

-- An even number and the one before, and an odd number and the one before.
and_before-even : (x : ℕ) → x % 2 ≡ 0 → bit_and x (x - 1) ≡ bit_and (x / 2) (x / 2 - 1) * 2
and_before-even x e =
    let half : (x - 1) / 2 ≡ x / 2 - 1 = omega (arith, e) in
    bit_and-halves x (x - 1)
    ∙ ap (λ y. bit_and (x / 2) y * 2 + min (x % 2) ((x - 1) % 2)) half
    ∙ omega (arith, e)

and_before-odd : (x : ℕ) → x % 2 ≡ 1 → bit_and x (x - 1) ≡ x / 2 * 2
and_before-odd x e =
    let half : (x - 1) / 2 ≡ x / 2 = omega (arith, e) in
    bit_and-halves x (x - 1)
    ∙ ap (λ y. bit_and (x / 2) y * 2 + min (x % 2) ((x - 1) % 2)) half
    ∙ omega (arith, e, bit_and-same (x / 2) (x / 2) (omega arith))

power_of : (fuel x : ℕ) → x ≤ fuel → 0 < x → bit_and x (x - 1) ≡ 0 → (k : ℕ) × (x ≡ 2 ^ k)
power_of zero x h p e = absurd (omega (arith, h, p))
power_of (suc fuel) x h p e = elim (even-odd x) [
  | inl even ↦
      let (k, q) =
        power_of fuel (x / 2) (omega (arith, h, p)) (omega (arith, p, even))
          (omega (arith, e, and_before-even x even)) in
      (suc k, omega (arith, q, even, pow-suc 2 k))
  | inr odd ↦ (0, omega (arith, e, odd, and_before-odd x odd))
]

half-pow : (k : ℕ) → (2 ^ suc k % 2 ≡ 0) × (2 ^ suc k / 2 ≡ 2 ^ k)
half-pow k = (omega (arith, pow-suc 2 k), omega (arith, pow-suc 2 k))

and_before-pow : (k : ℕ) → bit_and (2 ^ k) (2 ^ k - 1) ≡ 0
and_before-pow zero = refl
and_before-pow (suc k) =
    and_before-even (2 ^ suc k) (half-pow k).0
    ∙ ap (λ y. bit_and y (y - 1) * 2) (half-pow k).1
    ∙ omega (arith, and_before-pow k)

-- `power_of_2` finds the powers of two and nothing else.
pub power_of_2_iff : (x : ℕ) → (power_of_2 x ≡ true) ↔ ((k : ℕ) × (x ≡ 2 ^ k))
unfolding power_of_2
power_of_2_iff x = (
  λ h. power_of x x (omega arith) (ground (arith, h)) (ground (arith, h)),
  λ (k, e). rw e (ground (arith, and_before-pow k, pow-pos k)),
)

-- A product of up to `max_size` items is a `size_t`.
fits : (align size_of n : ℕ) → n ≤ max_size align size_of → n * size_of % 2 ^ 64 ≡ n * size_of
unfolding max_size
fits align size_of n h =
    let all = 2 ^ 64 - 1 - align in
    mod-eq_of_lt (omega (arith, mul-le-mul_right size_of h, div-add-mod' all size_of))

-- What is documented of `posix_memalign`: a block that it stores is aligned, and has at least the
-- size that was asked for; a block of some bytes is not at the null pointer. `room` tells the size of the block at an address.
pub record IsMemalign (memalign : ℕ → ℕ → Option ℕ) (room : ℕ → ℕ) : Type 0 where
  pub aligned : (align size ptr : ℕ) → memalign align size ≡ some ptr → ptr % align ≡ 0
  pub large : (align size ptr : ℕ) → memalign align size ≡ some ptr → size ≤ room ptr
  pub not_null :
      (align size ptr : ℕ) → 0 < size → memalign align size ≡ some ptr → (ptr == 0) ≡ false

-- How an allocation of some bytes with an alignment should end.
abbrev pub Allocates : (ℕ → ℕ → Option ℕ) → (ℕ → ℕ) → ℕ → ℕ → Allocation → Type 0
Allocates memalign room align size (returned ptr) =
    (0 < size) × (ptr % align ≡ 0) × (size ≤ room ptr)
Allocates memalign room align size bad_alloc = (size ≡ 0) ⊎ (memalign align size ≡ none)
Allocates memalign room align size aborts = ⊥

module _ {memalign : ℕ → ℕ → Option ℕ} {room : ℕ → ℕ} (w : IsMemalign memalign room) where
  stored-Allocates :
      (align size : ℕ)
      → 0 < size
      → Allocates memalign room align size (allocated (stored (memalign align size)))
  stored-Allocates align size p = elim (Option-cases (memalign align size)) [
    | inl e ↦ rw e (inr e)
    | inr (ptr, e) ↦
        rw (e, w.not_null align size ptr p e)
          (p, w.aligned align size ptr e, w.large align size ptr e)
  ]

  page-Allocates :
      (align size : ℕ)
      → Allocates memalign room align size (allocated (allocate_aligned_page memalign align size))
  unfolding allocate_aligned_page
  page-Allocates align size = elim (Bool-cases (size == 0)) [
    | inl e ↦ rw e (inl (ground (arith, e)))
    | inr e ↦ rw e (stored-Allocates align size (ground (arith, e)))
  ]

  aligned-Allocates :
      (k size : ℕ)
      → pointer_size ≤ 2 ^ k
      → Allocates memalign room
          (2 ^ k)
          size
          (allocated (allocate_aligned_memory memalign (2 ^ k) size))
  unfolding allocate_aligned_memory
  aligned-Allocates k size p =
      let ok : leb pointer_size (2 ^ k) && power_of_2 (2 ^ k) ≡ true =
        ground (arith, p, (power_of_2_iff (2 ^ k)).1 (k, refl)) in
      rw ok (elim (Bool-cases (size == 0)) [
        | inl e ↦ rw e (inl (ground (arith, e)))
        | inr e ↦ rw e (stored-Allocates (2 ^ k) size (ground (arith, e)))
      ])

-- Both allocators, for up to `max_size` items and an alignment that is a power of two and at least the
-- size of a pointer: an allocation returns the address of a block that is aligned and large enough for
-- all the items, or it throws `bad_alloc`, and that only for no bytes or if `posix_memalign` fails.
pub allocate_lem :
    (memalign : ℕ → ℕ → Option ℕ) (room : ℕ → ℕ)
    → IsMemalign memalign room
    → (k size_of n : ℕ) → pointer_size ≤ 2 ^ k
    → n ≤ max_size (2 ^ k) size_of
    → Allocates memalign room (2 ^ k) (n * size_of) (aligned_allocate memalign (2 ^ k) size_of n)
      × Allocates memalign room (2 ^ k) (n * size_of) (page_allocate memalign (2 ^ k) size_of n)
unfolding aligned_allocate page_allocate
allocate_lem memalign room w k size_of n p h =
    rw (fits (2 ^ k) size_of n h)
      (aligned-Allocates w k (n * size_of) p, page-Allocates w (2 ^ k) (n * size_of))
