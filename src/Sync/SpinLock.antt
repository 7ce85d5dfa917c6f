-- ===== src/Sync/SpinLock.antt =====
-- ares::SpinLock of include/ares/synchronization/spinlock.hpp: one atomic flag, and threads that
-- spin on it.
pub mod Exclusion
use ares_common.Common.{
  ℕ, Bool, true, false, not, ◌&&◌, List, [], ◌∷◌, Option, none, some, get_or, set, if◌then◌else◌,
}

-- `_locked`.
abbrev pub SpinLock : Type 0
SpinLock = Bool

-- `test_and_set` returns the flag's old value; it is one atomic step.
unfoldable pub test_and_set : SpinLock → SpinLock × Bool
test_and_set l = (true, l)

unfoldable pub try_lock : SpinLock → SpinLock × Bool
unfolding test_and_set
try_lock l = let (l', ret) = test_and_set l in (l', not ret)

unfoldable pub unlock : SpinLock → SpinLock
unlock l = false

unfoldable pub locked : SpinLock → Bool
locked l = l

-- One evaluation of the loop's condition in `lock`, `while (_locked.test_and_set()) ;`: the flag, and
-- whether the loop is left.
unfoldable pub lock_round : SpinLock → SpinLock × Bool
unfolding test_and_set
lock_round l = let (l', spin) = test_and_set l in (l', not spin)

-- `lock`, with one element of the list for what other threads make of the flag between two rounds.
-- `none` is a thread that still spins.
unfoldable pub lock : List (SpinLock → SpinLock) → SpinLock → Option SpinLock
lock [] l = let (l', over) = lock_round l in if over then some l' else none
lock (w ∷ ws) l =
    let (l', over) = lock_round l in let rest = lock ws (w l') in if over then some l' else rest

-- Threads that use one lock: each is outside, in the loop of `lock`, or inside what the lock protects.
pub data Phase : Type 0 where
  outside spinning inside : Phase

abbrev pub is_inside : Phase → Bool
is_inside outside = false
is_inside spinning = false
is_inside inside = true

abbrev pub is_outside : Phase → Bool
is_outside outside = true
is_outside spinning = false
is_outside inside = false

pub record System : Type 0 where
  pub flag : SpinLock
  pub threads : List Phase

-- A thread that is outside calls `lock`, or one in its loop goes on: one round.
unfoldable pub spin : ℕ → System → System
spin i s =
    if is_inside (get_or s.threads i inside)
    then s
    else (let (flag, over) = lock_round s.flag in
        record { flag = flag; threads = set s.threads i (if over then inside else spinning) })

-- A thread that is outside calls `try_lock`.
unfoldable pub attempt : ℕ → System → System
attempt i s =
    if is_outside (get_or s.threads i inside)
    then (let (flag, got) = try_lock s.flag in
        record { flag = flag; threads = set s.threads i (if got then inside else outside) })
    else s

-- A thread that is inside calls `unlock`.
unfoldable pub leave : ℕ → System → System
leave i s =
    if is_inside (get_or s.threads i outside)
    then record { flag = unlock s.flag; threads = set s.threads i outside }
    else s

pub data Move : Type 0 where
  spins attempts leaves : ℕ → Move

unfoldable pub move : Move → System → System
move (spins i) s = spin i s
move (attempts i) s = attempt i s
move (leaves i) s = leave i s

unfoldable pub moves : List Move → System → System
moves [] s = s
moves (m ∷ ms) s = moves ms (move m s)
