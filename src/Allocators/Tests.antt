-- ===== src/Allocators/Tests.antt =====
-- Allocations from a memory that has every address.
use native.Mathlib.Nat.{mod_self}
use ares_common.Common.{
  ℕ, ◌+◌, ◌-◌, ◌≤◌, ◌∙◌, ◌^◌, ◌%◌, ◌≡◌, refl, ap, Option, none, some, arith, if◌then◌else◌, ltb,
  true, ◌↔◌, ◌||◌, ◌==◌,
}
use ares_common.Allocators.{
  power_of_2, returned, max_size, aligned_allocate, page_allocate, allocate_aligned_memory,
}
use ares_common.Allocators.Laws.{IsMemalign, Allocates, allocate_lem, power_of_2_iff}

-- Every block stands at the alignment, and has a million bytes.
abbrev memory : ℕ → ℕ → Option ℕ
memory align size = if ltb 1_000_000 size || (align == 0) then none else some align

abbrev million : ℕ → ℕ
million ptr = 1_000_000

same : (align size ptr : ℕ) → memory align size ≡ some ptr → ptr % align ≡ align % align
same align size ptr h = let e : ptr ≡ align = ground (arith, h) in ap (λ x. x % align) e

fits : 10 ≤ max_size (2 ^ 12) 8
unfolding max_size
fits = omega arith

memory-IsMemalign : IsMemalign memory million
memory-IsMemalign = record {
  aligned = λ align size ptr h. same align size ptr h ∙ mod_self align;
  large = λ align size ptr h. ground (arith, h);
  not_null = λ align size ptr p h. ground (arith, h);
}

-- 2^61 + 1 items of 8 bytes are more than `max_size`, and ask for 8 bytes.
too_many : (max_size 8 8 ≡ 2 ^ 61 - 2) × (aligned_allocate memory 8 8 (2 ^ 61 + 1) ≡ returned 8)
unfolding max_size aligned_allocate allocate_aligned_memory power_of_2
too_many = (refl, refl)

allocate_lem_example :
    Allocates memory million 4096 80 (aligned_allocate memory 4096 8 10)
    × Allocates memory million 4096 80 (page_allocate memory 4096 8 10)
allocate_lem_example = allocate_lem memory million memory-IsMemalign 12 8 10 (omega arith) fits

power_of_2_iff_example : (power_of_2 96 ≡ true) ↔ ((k : ℕ) × (96 ≡ 2 ^ k))
power_of_2_iff_example = power_of_2_iff 96
