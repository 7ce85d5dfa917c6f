-- ===== src/Util.antt =====
-- include/common/ares/util.hpp, less `power_of_2`, which stands with the allocators. A pointer is its
-- address, and a member of a class is given by its offset in the class.
use ares_common.Common.{
  ◌≡◌, refl, sym, ap, ◌∙◌, ℕ, ◌^◌, ◌<◌, Bool, true, false, List, [], ◌∷◌, ◌++◌, Option, none, some,
  ◌⊎◌, inl, inr, if◌then◌else◌, Bool-cases, add_size, sub_size, arith,
}
use mathlib.Core.Path.{subst}
use ares_common.Common.Int.{ℤ, pos, ◌+ℤ◌, ltb_ℤ, scale}

-- The address of a member of an object.
abbrev pub member : ℕ → ℕ → ℕ
member object offset = add_size object offset

unfoldable pub container_of : ℕ → ℕ → ℕ
container_of ptr offset = sub_size ptr offset

-- `work_delayable_from_work` of src/work-q/work_q.cpp.
abbrev pub work_delayable_from_work : ℕ → ℕ → ℕ
work_delayable_from_work offset_of_work work = container_of work offset_of_work

-- The loop of `spin_wait`, with what the clock reads in each turn; the result is the last reading,
-- or `none` while it still spins.
unfoldable pub spin : ℤ → List ℕ → Option ℕ
spin deadline [] = none
spin deadline (now ∷ readings) =
    if ltb_ℤ (pos now) deadline then spin deadline readings else some now

-- `spin_wait` with a timeout in milliseconds, from the clock's reading `start`, in nanoseconds.
abbrev pub spin_end : ℕ → ℤ → ℤ
spin_end start timeout = pos start +ℤ scale timeout 1_000_000

unfoldable pub spin_wait : ℤ → ℕ → List ℕ → Option ℕ
spin_wait timeout start readings = spin (spin_end start timeout) readings

-- `container_of` of a member's address is the object, wherever it lies in the address space.
container_of-member :
    (object offset : ℕ)
    → object < 2 ^ 64
    → offset < 2 ^ 64
    → container_of (member object offset) offset ≡ object
unfolding container_of add_size sub_size
container_of-member object offset h k = omega (arith, h, k)

-- Readings before a time.
abbrev AllBefore : ℤ → List ℕ → Type 0
AllBefore deadline [] = Unit
AllBefore deadline (now ∷ readings) =
    (ltb_ℤ (pos now) deadline ≡ true) × AllBefore deadline readings

-- The loop ends at the first reading that is not before its end, and spins as long as there is none.
spin-cases :
    (deadline : ℤ) (readings : List ℕ)
    → ((spin deadline readings ≡ none) × AllBefore deadline readings)
      ⊎ ((before : List ℕ) × (now : ℕ) × (after : List ℕ) × (readings ≡ before ++ now ∷ after)
          × AllBefore deadline before
          × (ltb_ℤ (pos now) deadline ≡ false)
          × (spin deadline readings ≡ some now))
unfolding spin
spin-cases deadline [] = inl (refl, tt)
spin-cases deadline (now ∷ readings) =
    let choose : Bool → Option ℕ = λ b. if b then spin deadline readings else some now in
    elim (Bool-cases (ltb_ℤ (pos now) deadline)) [
      | inr e ↦ inr ([], now, readings, refl, tt, e, ap choose e)
      | inl e ↦ elim (spin-cases deadline readings) [
        | inl (f, g) ↦ inl (ap choose e ∙ f, (e, g))
        | inr (before, last, after, p, all, late, ends) ↦
            inr (now ∷ before, last, after, ap (λ l. now ∷ l) p, (e, all), late, ap choose e ∙ ends)
      ]
    ]

-- What returned did so no sooner than a time.
abbrev NotBefore : ℤ → Option ℕ → Type 0
NotBefore deadline none = Unit
NotBefore deadline (some now) = ltb_ℤ (pos now) deadline ≡ false

-- A wait that returns has lasted for its timeout.
spin_wait-NotBefore :
    (timeout : ℤ) (start : ℕ) (readings : List ℕ)
    → NotBefore (spin_end start timeout) (spin_wait timeout start readings)
unfolding spin_wait
spin_wait-NotBefore timeout start readings =
    let deadline = spin_end start timeout in
    elim (spin-cases deadline readings) [
      | inl (f, g) ↦ subst (NotBefore deadline) (sym f) tt
      | inr (before, last, after, p, all, late, ends) ↦ subst (NotBefore deadline) (sym ends) late
    ]

spin_wait-runs : spin_wait (pos 2) 5 (7 ∷ 2_000_004 ∷ 2_000_005 ∷ 9_000_000 ∷ []) ≡ some 2_000_005
unfolding spin_wait spin ◌+ℤ◌
spin_wait-runs = refl
