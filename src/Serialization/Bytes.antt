-- ===== src/Serialization/Bytes.antt =====
-- `serialize` and `deserialize`: the bytes of the items come back as the same items.
use ares_common.Common.{
  ◌≡◌, refl, sym, ◌∙◌, List, [], ◌∷◌, ◌++◌, map, length, drop, append-nil, append_assoc,
}
use ares_common.Serialization.{done, serialize, copy, deserialize}

module _ {ℓ} {B : Type ℓ} where
  -- The items one after the other.
  abbrev joined : List (List B) → List B
  joined [] = []
  joined (item ∷ items) = item ++ joined items

  serialize-joined :
      (buffer : List B) (items : List (List B)) → serialize buffer items ≡ buffer ++ joined items
  unfolding serialize
  serialize-joined buffer [] = sym (append-nil buffer)
  serialize-joined buffer (item ∷ items) =
      serialize-joined (buffer ++ item) items ∙ append_assoc buffer item (joined items)

  copy-append : (item rest : List B) → copy (length item) (item ++ rest) ≡ done item
  unfolding copy
  copy-append [] rest = refl
  copy-append (b ∷ item) rest = rw (copy-append item rest) refl

  drop-append : (item rest : List B) → drop (length item) (item ++ rest) ≡ rest
  drop-append [] rest = refl
  drop-append (b ∷ item) rest = drop-append item rest

  deserialize-joined :
      (items : List (List B)) (rest : List B)
      → deserialize (joined items ++ rest) (map length items) ≡ done items
  unfolding deserialize
  deserialize-joined [] rest = refl
  deserialize-joined (item ∷ items) rest =
      rw
        (
          append_assoc item (joined items) rest,
          copy-append item (joined items ++ rest),
          drop-append item (joined items ++ rest),
          deserialize-joined items rest,
        )
        refl

  -- Items that are serialized behind `before` and read from there come back, whatever follows.
  pub deserialize-serialize :
      (before rest : List B) (items : List (List B))
      → deserialize (drop (length before) (serialize before items ++ rest)) (map length items)
        ≡ done items
  deserialize-serialize before rest items =
      rw
        (
          serialize-joined before items,
          append_assoc before (joined items) rest,
          drop-append before (joined items ++ rest),
          deserialize-joined items rest,
        )
        refl
