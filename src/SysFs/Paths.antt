-- ===== src/SysFs/Paths.antt =====
-- What the port list uses of `std::filesystem::path`: `operator/`, `filename`, `parent_path` and `stem`.
use ares_common.Common.{
  ℕ, Bool, false, ◌||◌, ◌&&◌, [], ◌∷◌, ◌++◌, Option, none, some, if◌then◌else◌, ◌==◌,
}
use ares_common.SysFs.Texts.{Text, is_nil}

abbrev pub slash : ℕ
slash = 47

abbrev pub dot : ℕ
dot = 46

-- The parts of a text before and behind the last occurrence of a byte.
unfoldable pub split_last : ℕ → Text → Option (Text × Text)
split_last b [] = none
split_last b (c ∷ l) = elim (split_last b l) [
  | some p ↦ some (c ∷ p.0, p.1)
  | none ↦ if c == b then some ([], l) else none
]

abbrev pub ends_with : ℕ → Text → Bool
ends_with b [] = false
ends_with b (c ∷ []) = c == b
ends_with b (c ∷ d ∷ l) = ends_with b (d ∷ l)

abbrev pub is_absolute : Text → Bool
is_absolute [] = false
is_absolute (c ∷ l) = c == slash

-- `a / b`.
unfoldable pub join : Text → Text → Text
join a b =
    if is_absolute b then b else if is_nil a || ends_with slash a then a ++ b else a ++ slash ∷ b

unfoldable pub filename : Text → Text
filename p = elim (split_last slash p) [ none ↦ p | some s ↦ s.1 ]

-- The root directory is its own parent.
abbrev pub parent_of : Option (Text × Text) → Text
parent_of none = []
parent_of (some s) = if is_nil s.0 then slash ∷ [] else s.0

unfoldable pub parent_path : Text → Text
parent_path p = parent_of (split_last slash p)

-- `..`.
abbrev pub is_dots : Text → Bool
is_dots [] = false
is_dots (c ∷ []) = false
is_dots (c ∷ d ∷ []) = (c == dot) && (d == dot)
is_dots (c ∷ d ∷ e ∷ l) = false

-- The name up to its last dot, if that is not the first byte; `.` and `..` have no extension.
unfoldable pub stem : Text → Text
stem p =
    let name = filename p in
    elim (split_last dot name) [
      | none ↦ name
      | some s ↦ if is_nil s.0 || is_dots name then name else s.0
    ]
