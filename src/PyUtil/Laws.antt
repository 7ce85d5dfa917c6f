-- ===== src/PyUtil/Laws.antt =====
-- include/common/ares/pyutil.hpp: values that go into a dictionary and come back as keyword arguments.
use ares_common.Common.{
  ◌≡◌, refl, ap, ◌∙◌, ℕ, ◌&&◌, ◌||◌, Bool, true, false, List, [], ◌∷◌, map, Option, none, some,
  if◌then◌else◌, ◌==◌, Bool-cases, inl, inr, sym, ap₂, ==_true, ◌++◌, ◌≤◌, length, take, arith, suc,
  zero,
}
use ares_common.PyUtil.{
  Python, StructParam, NamedValue, process, next_field, from_kwargs, object, put_value,
  to_dict_from, to_dict_checked, to_dict, to_dict_plain, array_to_tuple, with_first,
}

-- A dictionary holds what was put last under a name, and keeps what stands under another name.
pub record IsPython (P : Python) : Type 0 where
  pub contains-set_item :
      (d : P.Dict) (n m : ℕ) (o : P.Object)
      → P.contains (P.set_item d n o) m ≡ ((n == m) || P.contains d m)
  pub item-same : (d : P.Dict) (n : ℕ) (o : P.Object) → P.item (P.set_item d n o) n ≡ o
  pub item-other :
      (d : P.Dict) (n m : ℕ) (o : P.Object)
      → (n == m) ≡ false
      → P.item (P.set_item d n o) m ≡ P.item d m

module _ {P : Python} where
  -- No value of the list has this name.
  abbrev pub Absent : List (NamedValue P) → ℕ → Type 0
  Absent [] n = Unit
  Absent (v ∷ vs) n = ((v.name == n) ≡ false) × Absent vs n

  -- No two values have the same name.
  abbrev pub Distinct : List (NamedValue P) → Type 0
  Distinct [] = Unit
  Distinct (v ∷ vs) = Absent vs v.name × Distinct vs

  -- Every value becomes an object that is not `None` and that becomes the value again.
  abbrev pub Convertible : (NamedValue P → P.T) → List (NamedValue P) → Type 0
  Convertible old [] = Unit
  Convertible old (v ∷ vs) =
      (P.is_none (P.into v.value) ≡ false)
      × (P.cast (old v) (P.into v.value) ≡ some v.value)
      × Convertible old vs

  -- The field with a value's name, and what it holds before and after.
  abbrev pub field_of : (NamedValue P → P.T) → NamedValue P → StructParam P
  field_of old v = record { name = v.name; value = old v }

  abbrev pub restored : (P.T → Bool) → (NamedValue P → P.T) → NamedValue P → P.T
  restored check old v = if v.check && check v.value then old v else v.value

module _ (P : Python) (laws : IsPython P) (check : P.T → Bool) (default_val : P.Object) where
  contains-to_dict :
      (vs : List (NamedValue P)) (d : P.Dict) (n : ℕ)
      → Absent vs n
      → P.contains (to_dict_from check default_val vs d) n ≡ P.contains d n
  unfolding to_dict_from put_value
  contains-to_dict [] d n h = refl
  contains-to_dict (v ∷ vs) d n h =
      contains-to_dict vs (put_value check default_val v d) n h.1
      ∙ laws.contains-set_item d v.name n (object check default_val v)
      ∙ ap (λ b. b || P.contains d n) h.0

  item-to_dict :
      (vs : List (NamedValue P)) (d : P.Dict) (n : ℕ)
      → Absent vs n
      → P.item (to_dict_from check default_val vs d) n ≡ P.item d n
  unfolding to_dict_from put_value
  item-to_dict [] d n h = refl
  item-to_dict (v ∷ vs) d n h =
      item-to_dict vs (put_value check default_val v d) n h.1
      ∙ laws.item-other d v.name n (object check default_val v) h.0

  -- A field whose name stands in the dictionary.
  process_none :
      (d : P.Dict) (p : StructParam P)
      → P.contains d p.name ≡ true
      → P.is_none (P.item d p.name) ≡ true
      → process d p ≡ some p
  unfolding process
  process_none d p c h = rw (c, h)

  process_cast :
      (d : P.Dict) (p : StructParam P) (o : P.Object) (x : P.T)
      → P.contains d p.name ≡ true
      → P.item d p.name ≡ o
      → P.is_none o ≡ false
      → P.cast p.value o ≡ some x
      → process d p ≡ some (record p { value = x })
  unfolding process
  process_cast d p o x c i h k = rw (c, i, h, k)

  module _ (old : NamedValue P → P.T) (none_default : P.is_none default_val ≡ true) where
    process-put :
        (d : P.Dict) (v : NamedValue P)
        → P.contains d v.name ≡ true
        → P.item d v.name ≡ object check default_val v
        → P.is_none (P.into v.value) ≡ false
        → P.cast (old v) (P.into v.value) ≡ some v.value
        → process d (field_of old v) ≡ some (record { name = v.name; value = restored check old v })
    process-put d v c i h k =
        let put : Bool → P.Object = λ b. if b then default_val else P.into v.value in
        let after : Bool → P.T = λ b. if b then old v else v.value in
        let field : P.T → Option (StructParam P) =
          λ x. some (record { name = v.name; value = x }) in
        elim (Bool-cases (v.check && check v.value)) [
          | inl b ↦
              process_none d (field_of old v) c (ap P.is_none (i ∙ ap put b) ∙ none_default)
              ∙ ap field (sym (ap after b))
          | inr b ↦
              process_cast d (field_of old v) (P.into v.value) v.value c (i ∙ ap put b) h k
              ∙ ap field (sym (ap after b))
        ]

    from_kwargs-to_dict_from :
        (vs : List (NamedValue P)) (d : P.Dict)
        → Distinct vs
        → Convertible old vs
        → from_kwargs (to_dict_from check default_val vs d) (map (field_of old) vs)
          ≡ (map (field_of (restored check old)) vs, true)
    unfolding from_kwargs to_dict_from put_value
    from_kwargs-to_dict_from [] d h k = refl
    from_kwargs-to_dict_from (v ∷ vs) d h k =
        let next = put_value check default_val v d in
        let rest = from_kwargs-to_dict_from vs next h.1 k.2 in
        let here : process (to_dict_from check default_val vs next) (field_of old v)
            ≡ some (field_of (restored check old) v) =
          process-put (to_dict_from check default_val vs next) v
            (contains-to_dict vs next v.name h.0
              ∙ laws.contains-set_item d v.name v.name (object check default_val v)
              ∙ ap (λ b. b || P.contains d v.name) (==_true refl))
            (item-to_dict vs next v.name h.0 ∙ laws.item-same d v.name (object check default_val v))
            k.0 k.1 in
        ap₂ (next_field (field_of old v) (map (field_of old) vs)) rest here

    -- Values with different names, each of which becomes an object that is not `None` and that
    -- becomes the value again, are put into a dictionary, `None` in place of those that the check
    -- picks. `from_kwargs` of that dictionary gives every field its value, and leaves the fields of
    -- the values picked as they were.
    pub from_kwargs-to_dict :
        (vs : List (NamedValue P))
        → Distinct vs
        → Convertible old vs
        → from_kwargs (to_dict_checked check default_val vs) (map (field_of old) vs)
          ≡ (map (field_of (restored check old)) vs, true)
    unfolding to_dict_checked
    from_kwargs-to_dict vs h k = from_kwargs-to_dict_from vs P.empty h k

module _ (P : Python) where
  -- Without a check, the dictionary is that of a check that picks nothing.
  to_dict_from_lem :
      (o : P.Object) (vs : List (NamedValue P)) (d : P.Dict)
      → to_dict_plain vs d ≡ to_dict_from (λ x. false) o vs d
  unfolding to_dict_plain to_dict_from put_value
  to_dict_from_lem o [] d = refl
  to_dict_from_lem o (v ∷ vs) d =
      let never : v.check && false ≡ false = ground arith in
      to_dict_from_lem o vs (P.set_item d v.name (P.into v.value))
      ∙ ap
          (λ b.
            to_dict_from (λ x. false) o vs (P.set_item d v.name (if b then o else P.into v.value)))
          (sym never)

  to_dict_lem :
      (o : P.Object) (vs : List (NamedValue P)) → to_dict vs ≡ to_dict_checked (λ x. false) o vs
  unfolding to_dict to_dict_checked
  to_dict_lem o vs = to_dict_from_lem o vs P.empty

  -- Fields that are processed, with what they are afterwards.
  abbrev pub AllProcessed : P.Dict → List (StructParam P × StructParam P) → Type 0
  AllProcessed d [] = Unit
  AllProcessed d (p ∷ ps) = (process d p.0 ≡ some p.1) × AllProcessed d ps

  -- Where a value has no such type, `from_kwargs` throws: the fields before it are assigned, it and
  -- those behind it are as they were.
  from_kwargs-throws :
      (d : P.Dict) (before : List (StructParam P × StructParam P)) (p : StructParam P)
      (after : List (StructParam P))
      → AllProcessed d before
      → process d p ≡ none
      → from_kwargs d (map (λ q. q.0) before ++ p ∷ after)
        ≡ (map (λ q. q.1) before ++ p ∷ after, false)
  unfolding from_kwargs
  from_kwargs-throws d [] p after h k = ap (next_field p after (from_kwargs d after)) k
  from_kwargs-throws d (q ∷ before) p after h k =
      ap₂ (next_field q.0 (map (λ r. r.0) before ++ p ∷ after))
        (from_kwargs-throws d before p after h.1 k) h.0

  -- A tuple has the first `count` elements.
  array_to_tuple_lem :
      (data_ : List P.T) (count : ℕ)
      → count ≤ length data_
      → array_to_tuple P data_ count ≡ some (map P.into (take count data_))
  unfolding array_to_tuple
  array_to_tuple_lem data_ zero h = refl
  array_to_tuple_lem [] (suc count) h = ground (arith, h)
  array_to_tuple_lem (x ∷ xs) (suc count) h =
      ap (with_first P x) (array_to_tuple_lem xs count (omega (arith, h)))
