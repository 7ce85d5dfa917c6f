-- ===== src/WorkQ/Flags.antt =====
-- The flags of work items and of work queues: `WorkStatus` of include/ares/work-q/work_q.hpp and
-- the helpers at the top of src/work-q/work_q.cpp.
use Prim.Native.Nat.{bit_and, bit_or}
use ares_common.Common.{ℕ, ◌%◌, ◌^◌, ◌<◌, ◌≡◌, Bool, not, ◌&&◌, ◌||◌, ◌==◌, arith}
use ares_common.Common.Bits.{
  bit, bit-le-one, bit-bit_and, bit-bit_or, bit-pow, bit-mod, complement, bit-complement, pow-lt,
  pow-pos, bit_and-pow,
}

-- Bits of a work item's state.
abbrev pub running_bit : ℕ
running_bit = 0

abbrev pub canceling_bit : ℕ
canceling_bit = 1

abbrev pub queued_bit : ℕ
queued_bit = 2

abbrev pub delayed_bit : ℕ
delayed_bit = 3

abbrev pub flushing_bit : ℕ
flushing_bit = 4

-- Bits of a queue's state.
abbrev pub started_bit : ℕ
started_bit = 0

abbrev pub busy_bit : ℕ
busy_bit = 1

abbrev pub drain_bit : ℕ
drain_bit = 2

abbrev pub plugged_bit : ℕ
plugged_bit = 3

abbrev pub stop_bit : ℕ
stop_bit = 4

abbrev pub no_yield_bit : ℕ
no_yield_bit = 8

-- `WORK_MASK`: the five bits of a work item.
abbrev pub work_mask : ℕ
work_mask = 31

-- `BIT(bit)` has 64 bits, the flags have 32.
unfoldable pub flag_clear : ℕ → ℕ → ℕ
flag_clear flags bit = bit_and flags (complement 64 (2 ^ bit)) % 2 ^ 32

unfoldable pub flag_set : ℕ → ℕ → ℕ
flag_set flags bit = bit_or flags (2 ^ bit) % 2 ^ 32

unfoldable pub flag_test : ℕ → ℕ → Bool
flag_test flags bit = not (bit_and flags (2 ^ bit) == 0)

unfoldable pub flag_test_and_clear : ℕ → ℕ → ℕ × Bool
flag_test_and_clear flags bit = (flag_clear flags bit, flag_test flags bit)

-- `flag_test` reads one bit.
pub flag_test_lem : (flags k : ℕ) → flag_test flags k ≡ (bit flags k == 1)
unfolding flag_test
flag_test_lem flags k = ground (arith, bit_and-pow flags k, pow-pos k, bit-le-one flags k)

-- Setting a flag sets that one and no other.
pub flag_test-set :
    (flags k i : ℕ) → i < 32 → flag_test (flag_set flags k) i ≡ (k == i) || flag_test flags i
unfolding flag_set
flag_test-set flags k i h = ground (
  arith,
  flag_test_lem (bit_or flags (2 ^ k) % 2 ^ 32) i,
  flag_test_lem flags i,
  bit-mod 32 (bit_or flags (2 ^ k)) i,
  bit-bit_or flags (2 ^ k) i,
  bit-pow k i,
  bit-le-one flags i,
)

-- Clearing a flag clears that one and no other.
pub flag_test-clear :
    (flags k i : ℕ)
    → k < 32
    → i < 32
    → flag_test (flag_clear flags k) i ≡ not (k == i) && flag_test flags i
unfolding flag_clear
flag_test-clear flags k i l h = ground (
  arith,
  flag_test_lem (bit_and flags (complement 64 (2 ^ k)) % 2 ^ 32) i,
  flag_test_lem flags i,
  bit-mod 32 (bit_and flags (complement 64 (2 ^ k))) i,
  bit-bit_and flags (complement 64 (2 ^ k)) i,
  bit-complement 64 (2 ^ k) i (pow-lt k 64 (omega arith)) (omega arith),
  bit-pow k i,
  bit-le-one flags i,
)
