-- ===== src/WorkQ.antt =====
-- include/ares/work-q/work_q.hpp and src/work-q/work_q.cpp: work items, the queues that run them,
-- flushing and canceling. One spin lock is held by every section, so each section is one step.
pub mod Flags
pub mod Nodes
pub mod Submit
pub mod Queue
pub mod Cancel
pub mod Main
pub mod Loop
pub mod Life
pub mod Delayable
pub mod Flush
pub mod Invariant
pub mod Steps
pub mod Drain
mod Tests
mod Trials
use ares_common.Common.{ℕ, Bool, true, false, List, [], Option, none, some, if◌then◌else◌, ◌==◌}
use ares_common.Common.Int.{ℤ, ms_zero}
use ares_common.Queue.Bounded.{Template, BoundedQueue, put_nonblocking}
use ares_common.Sync.Semaphore.{Semaphore}
use ares_common.Task.{Task}
use ares_common.WorkQ.Nodes.{NodeList}

-- `Work`. A pointer is a number, `none` the null pointer, and so is a handler.
pub record Work : Type 0 where
  pub flags : ℕ
  pub queue : Option ℕ
  pub handler : ℕ

-- `WorkQ`.
pub record WorkQueue (S : NodeList) : Type 0 where
  pub thread : Task (Unit {0})
  pub pending : S.Nodes
  pub notifyq : BoundedQueue ℕ
  pub drainq : BoundedQueue ℕ
  pub flags : ℕ

-- `WorkCanceller`.
pub record Canceller : Type 0 where
  pub work : ℕ
  pub sem : Semaphore

-- All items, queues and cancellers at their addresses, the semaphores of the flushers at those of
-- their items, and the list `pending_cancels`.
pub record World (S : NodeList) : Type 0 where
  pub works : ℕ → Work
  pub queues : ℕ → WorkQueue S
  pub cancellers : ℕ → Canceller
  pub flushers : ℕ → Semaphore
  pub pending_cancels : S.Nodes

-- A store with one address changed.
abbrev pub update {ℓ} : {A : Type ℓ} → (ℕ → A) → ℕ → A → ℕ → A
update f i x j = if i == j then x else f j

-- `notifyq` and `drainq` hold one token, which a new one overwrites.
abbrev pub token : Template ℕ
token = record { default = 0; moved = λ x. x; max_size = 1; overwrite = true }

-- `put_nonblocking` on one of the two. A `get` that the queue's thread makes while the call looks
-- for space is one that comes before it.
unfoldable pub post : ℕ → BoundedQueue ℕ → BoundedQueue ℕ
post value q = (put_nonblocking token value [] q).after

module _ {S : NodeList} where
  abbrev pub set_work : ℕ → Work → World S → World S
  set_work work x w = record w { works = update w.works work x }

  abbrev pub set_queue : ℕ → WorkQueue S → World S → World S
  set_queue queue x w = record w { queues = update w.queues queue x }
