-- ===== src/Queue.antt =====
-- include/ares/data-structures/queue.hpp: the queue exceptions, and the waits of both queues.
-- A call holds the queue's mutex but while it waits, so what other threads do is a list of whole
-- critical sections, run between two evaluations of the wait's predicate.
pub mod Wait
pub mod Unbounded
pub mod Bounded
mod Tests
use Prim.Native.String.{String}
use ares_common.Common.{
  ℕ, zero, suc, ◌+◌, ◌≡◌, refl, Bool, true, false, List, [], ◌∷◌, Result, if◌then◌else◌, arith,
}
use ares_common.Common.Int.{ℤ, int_eq, ms_zero}

-- `queue_exception::queue_exception_reason`.
pub data Reason : Type 0 where
  queue_empty queue_full queue_timeout : Reason

-- `queue_exception::what`: the constructor's switch over the three enumerators.
unfoldable pub what : Reason → String
what queue_empty = "Queue Empty"
what queue_full = "Queue Full"
what queue_timeout = "Queue Timed Out"

-- How a wait ended: `held` is the predicate's last value, `calls` counts the runs of the callback.
pub record Waited {ℓ} (S : Type ℓ) : Type ℓ where
  pub state : S
  pub calls : ℕ
  pub held : Bool

-- How a call ended. `blocked` is a call that still waits after the sections given to it.
pub data Reply {ℓ} (A : Type ℓ) : Type ℓ where
  returned : A → Reply A
  threw : Reason → Reply A
  blocked : Reply A

pub record Call {ℓ} (S A : Type ℓ) : Type ℓ where
  pub after : S
  pub calls : ℕ
  pub reply : Reply A

module _ {ℓ} {S W : Type ℓ} (run : W → S → S) (test : S → Bool) (callback : Bool) where
  -- The predicate lambda calls the callback, if there is one, whenever it is about to be false.
  abbrev calls_at : S → ℕ
  calls_at s = if test s then 0 else if callback then 1 else 0

  abbrev look : S → Waited S
  look s = record { state = s; calls = calls_at s; held = test s }

  abbrev again : S → Waited S → Waited S
  again s r = record r { calls = calls_at s + r.calls }

  -- `condition_variable::wait(guard, pred)`: `while (!pred()) wait(guard)`. Each element of the
  -- list is what other threads do until one wake-up.
  unfoldable pub wait : S → List W → Waited S
  wait s [] = look s
  wait s (w ∷ ws) = let rest = wait (run w s) ws in if test s then look s else again s rest

  -- `condition_variable::wait_for(guard, timeout, pred)`. The last section runs until the time is
  -- up; the predicate is then evaluated once more, and its value is returned.
  unfoldable pub wait_for : S → List W → W → Waited S
  unfolding wait
  wait_for s [] last = wait s (last ∷ [])
  wait_for s (w ∷ ws) last =
      let rest = wait_for (run w s) ws last in if test s then look s else again s rest

-- `timeout_ms == zero ? … : …` of the timed calls.
unfoldable pub timeout_reason : ℤ → Reason → Reason
timeout_reason timeout_ms reason = if int_eq timeout_ms ms_zero then reason else queue_timeout
