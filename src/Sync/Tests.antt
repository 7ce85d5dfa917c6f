-- ===== src/Sync/Tests.antt =====
-- Each theorem on the semaphore, the spin lock and the shared flag at a concrete state.
use ares_common.Common.{◌≡◌, refl, [], ◌∷◌, arith}
use ares_common.Common.Int.{pos}
use ares_common.Queue.{wait, wait_for}
use ares_common.Queue.Bounded.{IsTemplate, puts, gets}
use ares_common.Queue.Bounded.Invariant.{IsValid}
use ares_common.Sync.Semaphore.{Semaphore, template, returned, lock, unlock}
use ares_common.Sync.Semaphore.Counter
use ares_common.Sync.Semaphore.Refine.{view_ended, level, lock_refines, unlock_refines}

two_ok : IsTemplate (template 2)
two_ok = record { positive = omega arith; small = omega arith }

-- A semaphore of two that holds one, and one that holds none.
abbrev one_left : Semaphore
one_left = record {
  buffer = 0 ∷ 0 ∷ [];
  producer_index = 0;
  consumer_index = 1;
  size = 1;
  not_empty = 2;
  space_available = 1;
}

abbrev taken : Semaphore
taken = record one_left { consumer_index = 0; size = 0; space_available = 2 }

one_left-IsValid : IsValid (template 2) one_left
one_left-IsValid = record {
  storage = refl;
  producer_in = omega arith;
  consumer_in = omega arith;
  size_in = omega arith;
  linked = refl;
}

taken-IsValid : IsValid (template 2) taken
taken-IsValid = record {
  storage = refl;
  producer_in = omega arith;
  consumer_in = omega arith;
  size_in = omega arith;
  linked = refl;
}

lock_refines_example :
    view_ended level (lock 2 (pos 10) ((puts 0 ∷ gets ∷ []) ∷ []) (puts 0 ∷ []) taken)
    ≡ record { after = 0; outcome = returned tt }
unfolding Counter.lock wait_for wait Counter.sections Counter.section
lock_refines_example =
    lock_refines two_ok taken-IsValid (pos 10) ((puts 0 ∷ gets ∷ []) ∷ []) (puts 0 ∷ [])

unlock_refines_example :
    view_ended level (unlock 2 [] one_left) ≡ record { after = 2; outcome = returned tt }
unfolding Counter.unlock wait_for wait Counter.sections
unlock_refines_example = unlock_refines two_ok one_left-IsValid []
