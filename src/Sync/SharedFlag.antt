-- ===== src/Sync/SharedFlag.antt =====
-- ares::SharedFlag of include/ares/synchronization/shared_flag.hpp. Each member function holds the
-- shared mutex throughout, so a use of the flag is a sequence of whole calls.
pub mod Laws
use ares_common.Common.{Bool, true, false, List, [], ◌∷◌, ◌++◌}

-- `_flag`.
pub record SharedFlag : Type 0 where
  pub flag : Bool

unfoldable pub create_default : SharedFlag
create_default = record { flag = false }

unfoldable pub create : Bool → SharedFlag
create init_condition = record { flag = init_condition }

unfoldable pub read : SharedFlag → Bool
read f = f.flag

unfoldable pub write : Bool → SharedFlag → SharedFlag
write condition f = record { flag = condition }

-- `explicit operator bool`.
unfoldable pub to_bool : SharedFlag → Bool
to_bool f = read f

-- `operator=`.
unfoldable pub assign : Bool → SharedFlag → SharedFlag
assign condition f = write condition f

-- The calls of any number of threads, in the order in which they get the mutex.
pub data Use : Type 0 where
  reads converts : Use
  writes assigns : Bool → Use

-- What the reads return.
unfoldable pub uses : List Use → SharedFlag → List Bool
uses [] f = []
uses (reads ∷ us) f = read f ∷ uses us f
uses (converts ∷ us) f = to_bool f ∷ uses us f
uses (writes b ∷ us) f = uses us (write b f)
uses (assigns b ∷ us) f = uses us (assign b f)
