-- ===== src/SysFs/Texts.antt =====
-- Texts of src/serial/tools/core/sys_fs_linux.cpp: the codes of a literal, the first line of a file and
-- the white space around it.
use Prim.Native.Char.{code}
use Prim.Native.String.{String}
use ares_common.Common.{
  ℕ, Bool, true, false, ◌||◌, List, [], ◌∷◌, Option, none, some, if◌then◌else◌, ◌==◌, leb, ◌&&◌,
}

abbrev pub Text : Type 0
Text = List ℕ

-- The codes of a literal, which are its bytes.
abbrev pub codes : String → Text
codes String.[] = []
codes (String.◌∷◌ c s) = code c ∷ codes s

abbrev pub is_nil : Text → Bool
is_nil [] = true
is_nil (c ∷ l) = false

-- One of " \t\n\r\f\v".
abbrev pub is_blank : ℕ → Bool
is_blank c = (c == 32) || (leb 9 c && leb c 13)

-- `line.erase(0, line.find_first_not_of(…))`.
unfoldable pub erase_leading : Text → Text
erase_leading [] = []
erase_leading (c ∷ l) = let rest = erase_leading l in if is_blank c then rest else c ∷ l

-- `line.erase(line.find_last_not_of(…) + 1)`.
unfoldable pub erase_trailing : Text → Text
erase_trailing [] = []
erase_trailing (c ∷ l) =
    let rest = erase_trailing l in if is_nil rest && is_blank c then [] else c ∷ rest

unfoldable pub trim : Text → Text
trim l = erase_trailing (erase_leading l)

-- `std::getline` on a new stream: what stands before the first newline.
unfoldable pub first_line : Text → Text
first_line [] = []
first_line (c ∷ l) = let rest = first_line l in if c == 10 then [] else c ∷ rest

-- `SysFsLinux::_read_line`, of what the file holds, if it can be opened.
unfoldable pub read_line : Option Text → Text
read_line none = []
read_line (some l) = trim (first_line l)
