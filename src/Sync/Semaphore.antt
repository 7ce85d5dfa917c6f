-- ===== src/Sync/Semaphore.antt =====
-- ares::semaphore<count> of include/ares/synchronization/semaphore.hpp, a client of bounded_queue:
-- the count is the number of zeros in a `bounded_queue<uint8_t, count>`.
pub mod Counter
pub mod Refine
pub mod Laws
use Prim.Native.String.{String}
use ares_common.Common.{
  ℕ, zero, suc, min, ◌<◌, Bool, true, false, List, [], ◌∷◌, Result, ok, err, if◌then◌else◌,
}
use ares_common.Common.Int.{ℤ, int_eq, ms_zero, ms_max}
use ares_common.Queue
use ares_common.Queue.{Reason, queue_empty, queue_full, queue_timeout, Reply, Call}
use ares_common.Queue.Bounded.{Template, BoundedQueue, Section, init, put_nonblocking, get, get_for}
use ares_common.Queue.Bounded

-- `timeout_exception`, `semaphore_exception`, and a queue exception that is passed on.
pub data Exception : Type 0 where
  timeout_exception : String → Exception
  semaphore_exception : String → Exception
  queue_exception : Reason → Exception

pub data Outcome (A : Type 0) : Type 0 where
  returned : A → Outcome A
  threw : Exception → Outcome A
  blocked : Outcome A

pub record Ended (S A : Type 0) : Type 0 where
  pub after : S
  pub outcome : Outcome A

-- `no_wait` and `forever` of internal/constants.hpp.
abbrev pub no_wait : ℤ
no_wait = ms_zero

abbrev pub forever : ℤ
forever = ms_max

abbrev pub Semaphore : Type 0
Semaphore = BoundedQueue ℕ

-- A move of a `uint8_t` is a copy.
abbrev pub template : ℕ → Template ℕ
template count = record { default = 0; moved = λ x. x; max_size = count; overwrite = false }

-- What the handlers of `_nonblocking_lock` and of `unlock` make of a queue exception.
unfoldable pub lock_failure : Reason → Exception
lock_failure queue_timeout = timeout_exception "Semaphore `take` timed out"
lock_failure queue_empty = semaphore_exception "Unable to `take` semaphore without blocking"
lock_failure queue_full = queue_exception queue_full

unfoldable pub unlock_failure : Reason → Exception
unlock_failure queue_full =
    semaphore_exception "Cannot `give` semaphore more times than its permitted count"
unlock_failure queue_empty = queue_exception queue_empty
unlock_failure queue_timeout = queue_exception queue_timeout

-- A queue call under a `catch`, its value dropped.
abbrev pub outcome_of : {A : Type 0} → (Reason → Exception) → Reply A → Outcome (Unit {0})
outcome_of failure (Queue.returned x) = returned tt
outcome_of failure (Queue.threw r) = threw (failure r)
outcome_of failure Queue.blocked = blocked

abbrev pub ended :
    {A : Type 0} → (Reason → Exception) → Call Semaphore A → Ended Semaphore (Unit {0})
ended failure c = record { after = c.after; outcome = outcome_of failure c.reply }

module _ (count : ℕ) where
  -- One round of the constructors' loop, as `put_nonblocking(0)` ends.
  abbrev pub next_put : Call Semaphore (Unit {0}) → Result Reason Semaphore
  next_put c = elim c.reply [
    | Queue.returned _ ↦ ok c.after
    | Queue.threw r ↦ err r
    | Queue.blocked ↦ err queue_timeout
  ]

  -- `for (i = 0; i < n; i++) _sem.put_nonblocking(0)`; nobody else has the semaphore yet.
  unfoldable pub fill : ℕ → Semaphore → Result Reason Semaphore
  fill zero s = ok s
  fill (suc n) s = elim (next_put (put_nonblocking (template count) 0 [] s)) [
    | ok s' ↦ fill n s'
    | err r ↦ err r
  ]

  -- `semaphore()`.
  unfoldable pub create_full : Result Reason Semaphore
  create_full = fill count (init (template count))

  -- `semaphore(init_cnt)`.
  unfoldable pub create : ℕ → Result Reason Semaphore
  create init_cnt = fill (min init_cnt count) (init (template count))

  -- `_blocking_lock`.
  unfoldable pub blocking_lock : List (List (Section ℕ)) → Semaphore → Ended Semaphore (Unit {0})
  blocking_lock turns s = ended queue_exception (get (template count) false turns s)

  -- `_nonblocking_lock`.
  unfoldable pub nonblocking_lock :
      ℤ → List (List (Section ℕ)) → List (Section ℕ) → Semaphore → Ended Semaphore (Unit {0})
  nonblocking_lock timeout turns last s =
      ended lock_failure (get_for (template count) timeout false turns last s)

  -- `lock`. The last section is what runs until a timed wait is over.
  unfoldable pub lock :
      ℤ → List (List (Section ℕ)) → List (Section ℕ) → Semaphore → Ended Semaphore (Unit {0})
  lock timeout turns last s =
      if int_eq timeout forever
      then blocking_lock turns s
      else nonblocking_lock timeout turns last s

  unfoldable pub take :
      ℤ → List (List (Section ℕ)) → List (Section ℕ) → Semaphore → Ended Semaphore (Unit {0})
  take timeout turns last s = lock timeout turns last s

  -- `unlock`.
  unfoldable pub unlock : List (Section ℕ) → Semaphore → Ended Semaphore (Unit {0})
  unlock last s = ended unlock_failure (put_nonblocking (template count) 0 last s)

  unfoldable pub give : List (Section ℕ) → Semaphore → Ended Semaphore (Unit {0})
  give last s = unlock last s

  -- The `catch` of `try_lock`, which takes a semaphore exception only.
  abbrev pub tried : Outcome (Unit {0}) → Outcome Bool
  tried (returned _) = returned true
  tried (threw (semaphore_exception message)) = returned false
  tried (threw (timeout_exception message)) = threw (timeout_exception message)
  tried (threw (queue_exception r)) = threw (queue_exception r)
  tried blocked = blocked

  unfoldable pub try_lock : List (Section ℕ) → Semaphore → Ended Semaphore Bool
  try_lock last s =
      let e = nonblocking_lock no_wait [] last s in
      record { after = e.after; outcome = tried e.outcome }

  unfoldable pub get_count : Semaphore → ℕ
  get_count s = Bounded.size (template count) s
