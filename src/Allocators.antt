-- ===== src/Allocators.antt =====
-- The allocators: include/ares/allocators and src/allocators, and `power_of_2` of
-- include/common/ares/util.hpp. `posix_memalign` is a parameter: for an alignment and a size, the
-- address that it stores, or `none` if it fails. `T` counts by its size in bytes.
pub mod Laws
mod Tests
use Prim.Native.Nat.{bit_and}
use ares_common.Common.{
  ℕ, ◌+◌, ◌-◌, ◌*◌, ◌/◌, ◌%◌, ◌^◌, Bool, true, false, not, ◌&&◌, Option, none, some, if◌then◌else◌,
  ◌==◌, leb,
}

unfoldable pub power_of_2 : ℕ → Bool
power_of_2 x = not (x == 0) && (bit_and x (x - 1) == 0)

-- How an allocation ends; `aborts` is a failed assertion.
pub data Allocation : Type 0 where
  returned : ℕ → Allocation
  bad_alloc aborts : Allocation

-- What the functions of `detail` return, and a null pointer.
pub data Pointer : Type 0 where
  pointer : ℕ → Pointer
  null_pointer assert_failed : Pointer

-- `rc != 0`. An address of 0 is the null pointer.
abbrev pub stored : Option ℕ → Pointer
stored none = null_pointer
stored (some ptr) = if ptr == 0 then null_pointer else pointer ptr

-- `ptr == nullptr`.
abbrev pub allocated : Pointer → Allocation
allocated (pointer ptr) = returned ptr
allocated null_pointer = bad_alloc
allocated assert_failed = aborts

abbrev pub pointer_size : ℕ
pointer_size = 8

-- `max_size` of both allocators, for a size of T that is not 0.
unfoldable pub max_size : ℕ → ℕ → ℕ
max_size align size_of = (2 ^ 64 - 1 - align) / size_of

module _ (memalign : ℕ → ℕ → Option ℕ) where
  unfoldable pub allocate_aligned_memory : ℕ → ℕ → Pointer
  allocate_aligned_memory align size =
      if not (leb pointer_size align && power_of_2 align)
      then assert_failed
      else if size == 0
      then null_pointer
      else stored (memalign align size)

  unfoldable pub allocate_aligned_page : ℕ → ℕ → Pointer
  allocate_aligned_page page_size size =
      if size == 0 then null_pointer else stored (memalign page_size size)

  -- `AlignedAllocator::allocate`. The product is of 64 bits.
  unfoldable pub aligned_allocate : ℕ → ℕ → ℕ → Allocation
  aligned_allocate align size_of n =
      allocated (allocate_aligned_memory align (n * size_of % 2 ^ 64))

  -- `PageAllocator::allocate`.
  unfoldable pub page_allocate : ℕ → ℕ → ℕ → Allocation
  page_allocate page_size size_of n =
      allocated (allocate_aligned_page page_size (n * size_of % 2 ^ 64))
