-- ===== src/Sync/SpinLock/Exclusion.antt =====
-- Mutual exclusion of SpinLock, for any number of threads and any interleaving.
use ares_common.Common.{
  ℕ, zero, suc, ◌+◌, ◌≡◌, refl, sym, Bool, true, false, List, [], ◌∷◌, none, some, get_or, set,
  if◌then◌else◌, arith, not,
}
use ares_common.Sync.SpinLock.{
  SpinLock, try_lock, unlock, lock, Phase, outside, inside, is_inside, System, attempt, leave, Move,
  attempts, leaves, move, moves, spins, spin, lock_round, spinning, is_outside,
}

abbrev pub inside_count : List Phase → ℕ
inside_count [] = 0
inside_count (p ∷ ps) = (if is_inside p then 1 else 0) + inside_count ps

-- The flag is set exactly while a thread is inside, and there is never more than one.
pub record IsExclusive (s : System) : Type 0 where
  pub one : inside_count s.threads ≡ (if s.flag then 1 else 0)

inside_count-enter :
    (ps : List Phase) (i : ℕ)
    → is_inside (get_or ps i inside) ≡ false
    → inside_count (set ps i inside) ≡ inside_count ps + 1
inside_count-enter [] i h = ground arith
inside_count-enter (p ∷ ps) zero h = ground arith
inside_count-enter (p ∷ ps) (suc i) h = ground (arith, inside_count-enter ps i)

inside_count-stay :
    (ps : List Phase) (i : ℕ) (p : Phase)
    → is_inside (get_or ps i inside) ≡ false
    → is_inside p ≡ false
    → inside_count (set ps i p) ≡ inside_count ps
inside_count-stay [] i p h k = refl
inside_count-stay (q ∷ ps) zero p h k = ground arith
inside_count-stay (q ∷ ps) (suc i) p h k = ground (arith, inside_count-stay ps i p)

-- One that is outside is not inside.
not_inside : (p : Phase) → is_outside p ≡ true → is_inside p ≡ false
not_inside outside h = refl
not_inside spinning h = refl
not_inside inside h = sym h

inside_count-leave :
    (ps : List Phase) (i : ℕ)
    → is_inside (get_or ps i outside) ≡ true
    → inside_count (set ps i outside) + 1 ≡ inside_count ps
inside_count-leave [] i h = ground arith
inside_count-leave (p ∷ ps) zero h = ground arith
inside_count-leave (p ∷ ps) (suc i) h = ground (arith, inside_count-leave ps i)

move-IsExclusive : (m : Move) (s : System) → IsExclusive s → IsExclusive (move m s)
unfolding move spin attempt leave lock_round try_lock unlock
move-IsExclusive (spins i) s v =
    ground (arith, inside_count-enter s.threads i, inside_count-stay s.threads i spinning)
move-IsExclusive (attempts i) s v = ground (
  arith,
  inside_count-enter s.threads i,
  inside_count-stay s.threads i outside,
  not_inside (get_or s.threads i inside),
)
move-IsExclusive (leaves i) s v = ground (arith, inside_count-leave s.threads i)

pub moves-IsExclusive : (ms : List Move) (s : System) → IsExclusive s → IsExclusive (moves ms s)
unfolding moves
moves-IsExclusive [] s v = v
moves-IsExclusive (m ∷ ms) s v = moves-IsExclusive ms (move m s) (move-IsExclusive m s v)

-- Whether the flag was clear at one of the rounds of `lock`.
abbrev pub seen_clear : List (SpinLock → SpinLock) → SpinLock → Bool
seen_clear [] l = not l
seen_clear (w ∷ ws) l = if l then seen_clear ws (w true) else true

-- `lock` returns exactly if the flag was clear at one of its rounds, and then it has set it.
pub lock_lem :
    (ws : List (SpinLock → SpinLock)) (l : SpinLock)
    → lock ws l ≡ (if seen_clear ws l then some true else none)
unfolding lock lock_round
lock_lem [] true = refl
lock_lem [] false = refl
lock_lem (w ∷ ws) true = lock_lem ws (w true)
lock_lem (w ∷ ws) false = refl
