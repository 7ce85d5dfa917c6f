-- ===== src/Sync/Semaphore/Counter.antt =====
-- What a client of semaphore<count> may rely on: a number between 0 and `count`.
use ares_common.Common.{ℕ, ◌+◌, ◌-◌, Bool, false, not, List, [], ◌∷◌, ◌==◌, if◌then◌else◌}
use ares_common.Common.Int.{ℤ, int_eq, ms_zero}
use ares_common.Queue.{Waited, wait, wait_for}
use ares_common.Queue.Bounded.{Section, puts, forces, gets, clears}
use ares_common.Sync.Semaphore.{
  timeout_exception, semaphore_exception, Outcome, returned, threw, blocked, Ended, forever,
}

module _ (count : ℕ) where
  abbrev pub up : ℕ → ℕ
  up n = if n == count then n else n + 1

  unfoldable pub section : Section ℕ → ℕ → ℕ
  section (puts x) n = up n
  section (forces x) n = up n
  section gets n = n - 1
  section clears n = 0

  unfoldable pub sections : List (Section ℕ) → ℕ → ℕ
  sections [] n = n
  sections (c ∷ cs) n = sections cs (section c n)

  abbrev pub available : ℕ → Bool
  available n = not (n == 0)

  -- A lock takes one from the counter when its wait ends with the counter above zero.
  abbrev pub end_lock : Outcome (Unit {0}) → Waited ℕ → Ended ℕ (Unit {0})
  end_lock failed w =
      if w.held
      then record { after = w.state - 1; outcome = returned tt }
      else record { after = w.state; outcome = failed }

  -- Without waiting a lock that fails throws one exception, after a wait another.
  abbrev pub lock_failed : ℤ → Outcome (Unit {0})
  lock_failed timeout = threw (
      if int_eq timeout ms_zero
      then semaphore_exception "Unable to `take` semaphore without blocking"
      else timeout_exception "Semaphore `take` timed out")

  unfoldable pub lock : ℤ → List (List (Section ℕ)) → List (Section ℕ) → ℕ → Ended ℕ (Unit {0})
  lock timeout turns last n =
      if int_eq timeout forever
      then end_lock blocked (wait sections available false n turns)
      else end_lock (lock_failed timeout) (wait_for sections available false n turns last)

  -- The counter is raised at once, or after what other threads do in a single turn.
  abbrev pub end_unlock : Waited ℕ → Ended ℕ (Unit {0})
  end_unlock w = if w.held then record { after = w.state + 1; outcome = returned tt } else record {
    after = w.state;
    outcome =
        threw (semaphore_exception "Cannot `give` semaphore more times than its permitted count");
  }

  unfoldable pub unlock : List (Section ℕ) → ℕ → Ended ℕ (Unit {0})
  unlock last n = end_unlock (wait_for sections (λ k. not (k == count)) false n [] last)
