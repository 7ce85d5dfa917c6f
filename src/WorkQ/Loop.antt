-- ===== src/WorkQ/Loop.antt =====
-- The whole of `work_queue_main` in src/work-q/work_q.cpp: its rounds after each other, with what the
-- handlers and the other threads do, and how it is left.
pub mod Failure
pub mod Service
use ares_common.Common.{ℕ, Bool, false, List, [], ◌∷◌}
use ares_common.Queue.{Reply, Call}
use ares_common.Queue
use ares_common.Queue.Bounded.{get}
use ares_common.Sync.Semaphore.{Exception, timeout_exception, semaphore_exception, queue_exception}
use ares_common.Task.{Ended, Thrown, std_exception, Finish, value, exception, execute}
use ares_common.WorkQ.{World, set_queue, token}
use ares_common.WorkQ.Nodes.{NodeList}
use ares_common.WorkQ.Main.{
  Next, runs, waits, ends, Finished, continues, throws, begin_round, finish,
}

-- How a call of a handler ended.
pub data Handled : Type 0 where
  completes : Handled
  fails : Thrown → Handled

-- What happens from a round's first locked section to its handler's end, or to the end of its wait:
-- what the handler and the other threads do to the world, and how the handler ended.
pub record Turn (S : NodeList) : Type 0 where
  pub effect : World S → World S
  pub handled : Handled

-- How a round ended: with another round, in a wait that does not end, or by leaving the function.
pub data Stage : Type 0 where
  goes_on : Stage
  stuck : Stage
  left : Ended (Unit {0}) → Stage

-- The `std::system_error` of an `unlock` of a `std::unique_lock` that holds nothing, by its code
-- `operation_not_permitted`, and the exceptions of a semaphore, all of them `std::exception`s.
abbrev pub not_owner : Thrown
not_owner = std_exception 1

abbrev pub thrown_of : Exception → Thrown
thrown_of (timeout_exception s) = std_exception 1001
thrown_of (semaphore_exception s) = std_exception 1002
thrown_of (queue_exception r) = std_exception 1003

module _ {S : NodeList} where
  -- The function ends: the task of the queue's thread has its result.
  unfoldable pub leave : ℕ → Finish (Unit {0}) → World S → World S × Stage
  leave queue result w =
      let q = w.queues queue in
      let (t, ended) = execute result q.thread in
      (set_queue queue (record q { thread = t }) w, left ended)

  abbrev pub after_section : ℕ → World S × Finished → World S × Stage
  after_section queue (w, continues yields) = (w, goes_on)
  after_section queue (w, throws e) = leave queue (exception (thrown_of e)) w

  -- After the handler. The `catch` unlocks a lock that is not held, and what that throws leaves the
  -- function in place of what the handler threw.
  unfoldable pub end_handler : ℕ → ℕ → Handled → World S → World S × Stage
  end_handler queue work completes w = after_section queue (finish queue work w)
  end_handler queue work (fails e) w = leave queue (exception not_owner) w

  abbrev pub got_token : ℕ → World S → Reply ℕ → World S × Stage
  got_token queue w (Queue.returned x) = (w, goes_on)
  got_token queue w (Queue.threw r) = leave queue (exception (thrown_of (queue_exception r))) w
  got_token queue w Queue.blocked = (w, stuck)

  -- `queue->notifyq.get()`.
  unfoldable pub take_token : ℕ → World S → World S × Stage
  take_token queue w =
      let q = w.queues queue in
      let c = get token false [] q.notifyq in
      got_token queue (set_queue queue (record q { notifyq = c.after }) w) c.reply

  unfoldable pub end_with : ℕ → Turn S → World S × Next → World S × Stage
  end_with queue turn (w, runs work handler) = end_handler queue work turn.handled (turn.effect w)
  end_with queue turn (w, waits) = take_token queue (turn.effect w)
  end_with queue turn (w, ends) = leave queue (value tt) w

  -- One turn of the loop.
  unfoldable pub round : ℕ → Turn S → World S → World S × Stage
  round queue turn w = end_with queue turn (begin_round queue w)

  abbrev pub proceed : (World S → World S × Stage) → World S × Stage → World S × Stage
  proceed next (w, goes_on) = next w
  proceed next (w, stuck) = (w, stuck)
  proceed next (w, left e) = (w, left e)

  -- As many turns as are given.
  unfoldable pub work_queue_main : ℕ → List (Turn S) → World S → World S × Stage
  work_queue_main queue [] w = (w, goes_on)
  work_queue_main queue (turn ∷ turns) w =
      proceed (work_queue_main queue turns) (round queue turn w)

  -- The queue's thread from where a turn left it: it goes on at the head of the loop, or sleeps in
  -- `notifyq.get()` until there is a token, or has left the function.
  unfoldable pub resume : Stage → ℕ → List (Turn S) → World S → World S × Stage
  resume goes_on queue turns w = work_queue_main queue turns w
  resume stuck queue turns w = proceed (work_queue_main queue turns) (take_token queue w)
  resume (left e) queue turns w = (w, left e)
