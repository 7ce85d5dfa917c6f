-- ===== src/PyUtil/Tests.antt =====
-- The round trip through a dictionary of Python at concrete values.
use ares_common.Common.{
  ◌≡◌, refl, ℕ, ◌||◌, Bool, true, false, List, [], ◌∷◌, map, Option, none, some, if◌then◌else◌,
  ◌==◌, ap, ==_true,
}
use ares_common.PyUtil.{Python, NamedValue, to_dict_checked, from_kwargs}
use ares_common.PyUtil.Laws.{IsPython, field_of, restored, from_kwargs-to_dict}

-- Objects are numbers and `None`, and a dictionary is what stands under each name.
abbrev is_some : Option (Option ℕ) → Bool
is_some none = false
is_some (some o) = true

abbrev get_item : Option (Option ℕ) → Option ℕ
get_item none = none
get_item (some o) = o

abbrev none_object : Option ℕ → Bool
none_object none = true
none_object (some x) = false

abbrev numbers : Python
numbers = record {
  T = ℕ;
  Object = Option ℕ;
  Dict = ℕ → Option (Option ℕ);
  empty = λ n. none;
  contains = λ d n. is_some (d n);
  item = λ d n. get_item (d n);
  set_item = λ d n o m. if n == m then some o else d m;
  is_none = none_object;
  cast = λ x o. o;
  into = λ x. some x;
}

contains_if :
    (b : Bool) (o : Option ℕ) (r : Option (Option ℕ))
    → is_some (if b then some o else r) ≡ (b || is_some r)
contains_if true o r = refl
contains_if false o r = refl

numbers-IsPython : IsPython numbers
numbers-IsPython = record {
  contains-set_item = λ d n m o. contains_if (n == m) o (d m);
  item-same = λ d n o. ap (λ b. get_item (if b then some o else d n)) (==_true refl);
  item-other = λ d n m o h. ap (λ b. get_item (if b then some o else d m)) h;
}

abbrev is_zero : ℕ → Bool
is_zero x = x == 0

-- A speed that is not 0, an address that is 0, and a count that is 0 and is not checked.
abbrev values : List (NamedValue numbers)
values =
    record { name = 1; value = 115200; check = true }
    ∷ record { name = 2; value = 0; check = true }
    ∷ record { name = 3; value = 0; check = false }
    ∷ []

from_kwargs-to_dict_example :
    from_kwargs (to_dict_checked is_zero none values) (map (field_of (λ v. 7)) values)
    ≡ (map (field_of (restored is_zero (λ v. 7))) values, true)
from_kwargs-to_dict_example =
    from_kwargs-to_dict numbers numbers-IsPython is_zero none (λ v. 7) refl values
      ((refl, (refl, tt)), ((refl, tt), (tt, tt))) (refl, refl, (refl, refl, (refl, refl, tt)))

restored-values : map (λ v. restored {P = numbers} is_zero (λ w. 7) v) values ≡ 115200 ∷ 7 ∷ 0 ∷ []
restored-values = refl
