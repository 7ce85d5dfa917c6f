-- ===== src/Logger/Tests.antt =====
-- Runs of a logger, and each theorem on it at a concrete logger.
use ares_common.Common.{ℕ, ◌≡◌, refl, Bool, ◌&&◌, ltb, [], ◌∷◌}
use ares_common.Logger.{Text, LoggerImpl, no_callbacks, find_logger, log_level_warn, log_level_info}
use ares_common.Logger.Hexdump.{construct_hexdump, dump_from, dump_ascii, ascii_cells, hex_cells}
use ares_common.Logger.Laws.{find_logger_lem}
use ares_common.Logger.RoundTrip.{read_lines, hexdump_lem}

-- Printable ASCII.
abbrev graphic : ℕ → Bool
graphic c = ltb 31 c && ltb c 127

abbrev quiet : LoggerImpl
quiet = record { name = 97 ∷ []; level = 30; cb = no_callbacks }

-- Nine bytes, of which the last stands on a line of its own.
abbrev nine : Text
nine = 0 ∷ 255 ∷ 65 ∷ 10 ∷ 16 ∷ 32 ∷ 97 ∷ 9 ∷ 171 ∷ []

-- 41, the middle, and an A between bars.
one_byte :
    construct_hexdump graphic (65 ∷ []) 1
    ≡ 32 ∷ 52 ∷ 49 ∷ 32 ∷ 32 ∷ 32 ∷ 32 ∷ 32 ∷ 32 ∷ 32 ∷ 32 ∷ 32 ∷ 32 ∷ 32 ∷ 32 ∷ 32 ∷ 32 ∷ 32 ∷ 32
      ∷ 32 ∷ 32 ∷ 32 ∷ 32 ∷ 32 ∷ 32 ∷ 32 ∷ 32 ∷ 32 ∷ 32 ∷ 124 ∷ 65 ∷ 32 ∷ []
unfolding construct_hexdump dump_from dump_ascii ascii_cells hex_cells
one_byte = refl

find_logger_lem_example :
    let (known, l) = find_logger (98 ∷ []) log_level_info (quiet ∷ []) in
    find_logger (98 ∷ []) log_level_warn known ≡ (known, l)
find_logger_lem_example = find_logger_lem (98 ∷ []) log_level_info log_level_warn (quiet ∷ [])

hexdump_lem_example : read_lines 9 4 (construct_hexdump graphic nine 4) ≡ nine
hexdump_lem_example = hexdump_lem graphic nine 4 refl refl
