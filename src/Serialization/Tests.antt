-- ===== src/Serialization/Tests.antt =====
-- Each theorem on bits, fields, flags and bytes at concrete numbers.
use ares_common.Common.{ℕ, ◌%◌, ◌^◌, ◌≡◌, [], ◌∷◌, ◌++◌, drop, inl, arith}
use ares_common.Serialization.{done, ◌>>=◌, set_bitfield, get_bitfield, serialize, deserialize}
use ares_common.Serialization.FieldLaws.{IsField, get-set_bitfield}
use ares_common.Serialization.Bytes.{deserialize-serialize}

-- Three bits at bit 2 of a `uint8_t`.
three_bits : IsField 8 8 2 3
three_bits = record {
  inside = omega arith;
  some_bits = omega arith;
  fits_value = omega arith;
  fits = omega arith;
  has_mask = inl (omega arith);
}

get-set_bitfield_example :
    (set_bitfield 8 8 165 2 3 14 >>= λ b. get_bitfield 8 8 b 2 3) ≡ done (14 % 2 ^ 3)
get-set_bitfield_example = get-set_bitfield three_bits 165 14 (omega arith)

deserialize-serialize_example :
    deserialize {B = ℕ}
      (drop 1 (serialize (9 ∷ []) ((1 ∷ 2 ∷ []) ∷ (3 ∷ []) ∷ []) ++ 4 ∷ []))
      (2 ∷ 1 ∷ [])
    ≡ done ((1 ∷ 2 ∷ []) ∷ (3 ∷ []) ∷ [])
deserialize-serialize_example =
    deserialize-serialize (9 ∷ []) (4 ∷ []) ((1 ∷ 2 ∷ []) ∷ (3 ∷ []) ∷ [])
