-- ===== src/PyUtil.antt =====
-- include/common/ares/pyutil.hpp: what the bindings to Python take from keyword arguments and put into
-- dictionaries. A name is given by a number, equal for equal texts.
pub mod Laws
pub mod Tests
use ares_common.Common.{
  ℕ, zero, suc, ◌&&◌, not, Bool, true, false, List, [], ◌∷◌, Option, none, some, if◌then◌else◌,
  ◌==◌,
}

-- What is used of pybind11: Python's objects and dictionaries. `T` holds the values that C++ converts
-- to objects and back; `cast` is told by an old value which type it is to give, and throws on an
-- object that has none of that type.
pub record Python : Type 1 where
  pub T : Type 0
  pub Object : Type 0
  pub Dict : Type 0
  pub empty : Dict
  pub contains : Dict → ℕ → Bool
  pub item : Dict → ℕ → Object
  pub set_item : Dict → ℕ → Object → Dict
  pub is_none : Object → Bool
  pub cast : T → Object → Option T
  pub into : T → Object

-- `StructParam`: a field's name, and what its variable holds.
pub record StructParam (P : Python) : Type 0 where
  pub name : ℕ
  pub value : P.T

-- `NamedValue`.
pub record NamedValue (P : Python) : Type 0 where
  pub name : ℕ
  pub value : P.T
  pub check : Bool

module _ {P : Python} where
  -- What a field is after it was looked for; `none` is an exception.
  abbrev pub assigned : StructParam P → Option P.T → Option (StructParam P)
  assigned p none = none
  assigned p (some value) = some (record p { value = value })

  unfoldable pub process : P.Dict → StructParam P → Option (StructParam P)
  process kwargs p =
      if P.contains kwargs p.name && not (P.is_none (P.item kwargs p.name))
      then assigned p (P.cast p.value (P.item kwargs p.name))
      else some p

  -- `from_kwargs`: the fields, one after the other, and whether it returns. A field behind one that
  -- throws is left as it was.
  abbrev pub next_field :
      StructParam P
      → List (StructParam P)
      → List (StructParam P) × Bool
      → Option (StructParam P)
      → List (StructParam P) × Bool
  next_field p ps rest none = (p ∷ ps, false)
  next_field p ps rest (some q) = (q ∷ rest.0, rest.1)

  unfoldable pub from_kwargs : P.Dict → List (StructParam P) → List (StructParam P) × Bool
  from_kwargs kwargs [] = ([], true)
  from_kwargs kwargs (p ∷ ps) = next_field p ps (from_kwargs kwargs ps) (process kwargs p)

  -- `to_dict` with a check, for which the value `default_val` is put.
  abbrev pub object : (P.T → Bool) → P.Object → NamedValue P → P.Object
  object check default_val v = if v.check && check v.value then default_val else P.into v.value

  unfoldable pub put_value : (P.T → Bool) → P.Object → NamedValue P → P.Dict → P.Dict
  put_value check default_val v d = P.set_item d v.name (object check default_val v)

  unfoldable pub to_dict_from : (P.T → Bool) → P.Object → List (NamedValue P) → P.Dict → P.Dict
  to_dict_from check default_val [] d = d
  to_dict_from check default_val (v ∷ vs) d =
      to_dict_from check default_val vs (put_value check default_val v d)

  unfoldable pub to_dict_checked : (P.T → Bool) → P.Object → List (NamedValue P) → P.Dict
  to_dict_checked check default_val vs = to_dict_from check default_val vs P.empty

  -- `to_dict` without one.
  unfoldable pub to_dict_plain : List (NamedValue P) → P.Dict → P.Dict
  to_dict_plain [] d = d
  to_dict_plain (v ∷ vs) d = to_dict_plain vs (P.set_item d v.name (P.into v.value))

  unfoldable pub to_dict : List (NamedValue P) → P.Dict
  to_dict vs = to_dict_plain vs P.empty

-- `array_to_tuple`; `none` is a read behind the array's end.
module _ (P : Python) where
  abbrev pub with_first : P.T → Option (List P.Object) → Option (List P.Object)
  with_first x none = none
  with_first x (some l) = some (P.into x ∷ l)

  unfoldable pub array_to_tuple : List P.T → ℕ → Option (List P.Object)
  array_to_tuple data_ zero = some []
  array_to_tuple [] (suc count) = none
  array_to_tuple (x ∷ xs) (suc count) = with_first x (array_to_tuple xs count)
