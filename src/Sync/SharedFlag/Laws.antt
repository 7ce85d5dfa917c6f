-- ===== src/Sync/SharedFlag/Laws.antt =====
-- SharedFlag is a register: a read returns what was written last.
use ares_common.Common.{◌≡◌, refl, ap, Bool, List, [], ◌∷◌, ◌++◌}
use ares_common.Sync.SharedFlag.{
  Use, reads, converts, writes, assigns, uses, create, read, write, to_bool, assign,
}

-- The value written last among some uses, after `b`.
abbrev pub last_written : Bool → List Use → Bool
last_written b [] = b
last_written b (reads ∷ us) = last_written b us
last_written b (converts ∷ us) = last_written b us
last_written b (writes c ∷ us) = last_written c us
last_written b (assigns c ∷ us) = last_written c us

-- Both kinds of read, after any uses of a flag created with `b`, return the value written last, or
-- `b` if none was; the reads before it are not changed by it.
pub uses-append_reads :
    (b : Bool) (us : List Use)
    → uses (us ++ reads ∷ converts ∷ []) (create b)
      ≡ uses us (create b) ++ last_written b us ∷ last_written b us ∷ []
unfolding uses create read write to_bool assign
uses-append_reads b [] = refl
uses-append_reads b (reads ∷ us) = ap (◌∷◌ b) (uses-append_reads b us)
uses-append_reads b (converts ∷ us) = ap (◌∷◌ b) (uses-append_reads b us)
uses-append_reads b (writes c ∷ us) = uses-append_reads c us
uses-append_reads b (assigns c ∷ us) = uses-append_reads c us
