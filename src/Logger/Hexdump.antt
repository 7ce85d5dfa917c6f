-- ===== src/Logger/Hexdump.antt =====
-- The hexdump of src/logging/logger.cpp: `construct_hexdump` and the functions under it. `isprint` is a
-- parameter.
use ares_common.Common.{
  ℕ, zero, suc, ◌+◌, ◌/◌, ◌%◌, Bool, Option, none, some, if◌then◌else◌, ◌==◌, ltb, ◌||◌, List, [],
  ◌∷◌, ◌++◌, length, replicate, take, min,
}
use ares_common.Logger.{Text, LoggerImpl, Event, emit, log_level_dbg, log_level_error}

abbrev pub at : Text → ℕ → Option ℕ
at [] i = none
at (x ∷ xs) zero = some x
at (x ∷ xs) (suc i) = at xs i

abbrev pub space : ℕ
space = 32

abbrev pub newline : ℕ
newline = 10

abbrev pub bytes_per_line : ℕ
bytes_per_line = 8

abbrev pub space_break : ℕ
space_break = 3

abbrev pub hex_digit : ℕ → ℕ
hex_digit d = if ltb d 10 then 48 + d else 87 + d

-- One byte in two digits and a space, or three spaces after the end of the data.
abbrev pub hex_cell : Option ℕ → Text → Text
hex_cell none rest = space ∷ space ∷ space ∷ rest
hex_cell (some b) rest = hex_digit (b / 16) ∷ hex_digit (b % 16) ∷ space ∷ rest

-- The loop of `dump_hex`, from i on, k times, and what follows.
unfoldable pub hex_cells : ℕ → ℕ → ℕ → Text → Text → Text
hex_cells zero i idx view rest = rest
hex_cells (suc k) i idx view rest =
    let others = hex_cells k (suc i) idx view rest in
    hex_cell (at view (i + idx)) (if i == space_break then space ∷ space ∷ others else others)

abbrev pub dump_hex : ℕ → Text → Text → Text
dump_hex idx view rest = hex_cells bytes_per_line 0 idx view rest

module _ (isprint : ℕ → Bool) where
  abbrev pub ascii_cell : Option ℕ → Text → Text
  ascii_cell none rest = rest
  ascii_cell (some b) rest = (if isprint b then b else 46) ∷ rest

  -- The loop of `dump_ascii`.
  unfoldable pub ascii_cells : ℕ → ℕ → ℕ → Text → Text → Text
  ascii_cells zero i idx view rest = rest
  ascii_cells (suc k) i idx view rest =
      let others = ascii_cells k (suc i) idx view rest in
      ascii_cell (at view (i + idx)) (if i == space_break then space ∷ others else others)

  unfoldable pub dump_ascii : ℕ → Text → Text → Text
  dump_ascii idx view rest =
      space
      ∷ space
      ∷ 124
      ∷ ascii_cells bytes_per_line 0 idx view
          (if ltb (bytes_per_line + idx) (length view) then newline ∷ rest else rest)

  -- The loop of `construct_hexdump`, from i on, with as much fuel as there are bytes left.
  unfoldable pub dump_from : ℕ → ℕ → Text → ℕ → Text
  dump_from zero i view pad = []
  dump_from (suc fuel) i view pad =
      let others = dump_from fuel (i + bytes_per_line) view pad in
      if ltb i (length view)
      then replicate pad space ++ dump_hex i view (dump_ascii i view others)
      else []

  unfoldable pub construct_hexdump : Text → ℕ → Text
  construct_hexdump view pad = dump_from (length view) 0 view pad

  -- `log_hexdump`.
  unfoldable pub log_hexdump : ℕ → Text → Text → ℕ → LoggerImpl → List Event
  log_hexdump level msg buf bytes l =
      let offset =
        (if level == log_level_dbg || level == log_level_error then 6 else 7)
        + (length l.name + 2) in
      emit level (msg ++ newline ∷ construct_hexdump (take (min bytes (length buf)) buf) offset) l
