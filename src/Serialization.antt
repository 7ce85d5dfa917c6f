-- ===== src/Serialization.antt =====
-- include/common/ares/serialization.hpp: bits, bit fields and flags in an unsigned integer of `w`
-- bits, and the bytes of objects one after the other. `size_t` arguments are taken as they are.
pub mod BitLaws
pub mod FieldLaws
pub mod Bytes
mod Tests
use Prim.Native.Nat.{bit_and, bit_or}
use ares_common.Common.{
  ℕ, zero, suc, ◌+◌, ◌-◌, ◌*◌, ◌/◌, ◌%◌, ◌^◌, Bool, true, false, not, ◌&&◌, ◌||◌, List, [], ◌∷◌,
  ◌++◌, length, drop, ltb, leb, ◌==◌, if◌then◌else◌,
}
use ares_common.Common.Bits.{complement}

-- `assert_failed` is a failed `assert`; `undefined` is a shift by the width or more, or a read past
-- the end of a buffer.
pub data Checked {ℓ} (A : Type ℓ) : Type ℓ where
  done : A → Checked A
  assert_failed undefined : Checked A

infixl 5 ◌>>=◌ ◌>>◌
abbrev pub ◌>>=◌ {ℓ κ} : {A : Type ℓ} {B : Type κ} → Checked A → (A → Checked B) → Checked B
done a >>= f = f a
assert_failed >>= f = assert_failed
undefined >>= f = undefined

abbrev pub ◌>>◌ {ℓ} : {B : Type ℓ} → Checked (Unit {0}) → Checked B → Checked B
m >> k = m >>= λ _. k

abbrev pub assert : Bool → Checked (Unit {0})
assert true = done tt
assert false = assert_failed

-- `x << k` stored in `w` bits. A type narrower than `int` is shifted as an `int`, which has room
-- for the shifts of this file; a wider one must be shifted by less than its width.
abbrev pub shift_left : ℕ → ℕ → ℕ → Checked ℕ
shift_left w x k = if ltb k w || ltb w 32 then done (x * 2 ^ k % 2 ^ w) else undefined

unfoldable pub set_bit : ℕ → ℕ → ℕ → Bool → Checked ℕ
set_bit w bitfield bit value = do
  assert (leb bit w)
  mask ← shift_left w 1 bit
  let cleared = bit_and bitfield (complement w mask)
  done (if value then bit_or cleared mask else cleared)

unfoldable pub check_bit : ℕ → ℕ → ℕ → Checked Bool
check_bit w bitfield bit = do
  assert (leb bit w)
  mask ← shift_left w 1 bit
  done (not (bit_and bitfield mask == 0))

-- The asserts that both bit field functions begin with; `w1` and `w2` are the two widths.
unfoldable pub field_asserts : ℕ → ℕ → ℕ → ℕ → Checked (Unit {0})
field_asserts w1 w2 lsb num_bits = do
  assert (ltb lsb w1)
  assert (not (num_bits == 0))
  assert (leb num_bits w2)
  assert (leb (lsb + num_bits) w1)

-- `(static_cast<T1>(1) << num_bits) - 1`.
abbrev pub field_mask : ℕ → ℕ → Checked ℕ
field_mask w1 num_bits = do one ← shift_left w1 1 num_bits; done ((one + 2 ^ w1 - 1) % 2 ^ w1)

unfoldable pub set_bitfield : ℕ → ℕ → ℕ → ℕ → ℕ → ℕ → Checked ℕ
unfolding field_asserts
set_bitfield w1 w2 bitfield lsb num_bits value = do
  field_asserts w1 w2 lsb num_bits
  mask ← field_mask w1 num_bits
  value_ ← shift_left w1 (bit_and value mask) lsb
  shifted ← shift_left w1 mask lsb
  done (bit_or (bit_and bitfield (complement w1 shifted)) value_)

unfoldable pub get_bitfield : ℕ → ℕ → ℕ → ℕ → ℕ → Checked ℕ
unfolding field_asserts
get_bitfield w1 w2 bitfield lsb num_bits = do
  field_asserts w1 w2 lsb num_bits
  mask ← field_mask w1 num_bits
  let value_ = bit_and (bitfield / 2 ^ lsb) mask
  done (value_ % 2 ^ w2)

-- The fold of `set_flags` over its flags, from `bit` on.
unfoldable pub set_flags : ℕ → ℕ → ℕ → List Bool → Checked ℕ
set_flags w bitfield bit [] = done bitfield
set_flags w bitfield bit (flag ∷ flags) =
    set_bit w bitfield bit flag >>= λ b. set_flags w b (bit + 1) flags

-- The fold of `get_flags`, which reads `count` flags from `bit` on.
unfoldable pub get_flags : ℕ → ℕ → ℕ → ℕ → Checked (List Bool)
get_flags w bitfield bit zero = done []
get_flags w bitfield bit (suc count) = do
  flag ← check_bit w bitfield bit
  flags ← get_flags w bitfield (bit + 1) count
  done (flag ∷ flags)

-- An object is its bytes. The first branch of `serialize` serves every item: `decltype(item)` is a
-- reference, and a `SerializeBuffer` has no bytes but its buffer's.
unfoldable pub serialize {ℓ} : {B : Type ℓ} → List B → List (List B) → List B
serialize buffer [] = buffer
serialize buffer (item ∷ items) = serialize (buffer ++ item) items

-- `memcpy` of `n` bytes from the buffer, or past its end.
unfoldable pub copy {ℓ} : {B : Type ℓ} → ℕ → List B → Checked (List B)
copy zero buffer = done []
copy (suc n) [] = undefined
copy (suc n) (b ∷ buffer) = copy n buffer >>= λ item. done (b ∷ item)

-- `sizes` are the sizes of the items.
unfoldable pub deserialize {ℓ} : {B : Type ℓ} → List B → List ℕ → Checked (List (List B))
deserialize buffer [] = done []
deserialize buffer (size ∷ sizes) = do
  item ← copy size buffer
  items ← deserialize (drop size buffer) sizes
  done (item ∷ items)
