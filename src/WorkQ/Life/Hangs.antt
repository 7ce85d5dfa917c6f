-- ===== src/WorkQ/Life/Hangs.antt =====
-- The destructor of a queue whose thread has ended, in src/work-q/work_q.cpp.
use ares_common.Common.{
  ℕ, ◌≡◌, refl, ap, ◌∙◌, true, false, [], ◌∷◌, List, Option, none, if◌then◌else◌, ==_true, arith,
}
use ares_common.Queue.Bounded.{get}
use ares_common.Common.Int.{ℤ}
use ares_common.Queue.{Reply, wait}
use ares_common.Queue
use ares_common.Task.{Thrown, blocked, aborts, returned}
use ares_common.WorkQ.{World, WorkQueue, set_queue}
use ares_common.WorkQ.Flags.{flag_test, started_bit}
use ares_common.WorkQ.Nodes.{NodeList, IsNodeList}
use ares_common.WorkQ.Queue.{begin_drain, must_drain, end_drain}
use ares_common.WorkQ.Loop.{left, round}
use ares_common.WorkQ.Loop.Failure.{throwing, LeavesRunning, handler_throws}
use ares_common.WorkQ.Main.{begin_round}
use ares_common.WorkQ.Life.{code_of, drain_wait, after_drain, queue_drain, destroy}

-- Threads that leave a queue's `drainq` alone, as all but the queue's own thread do.
abbrev pub LeavesDrain : {S : NodeList} → ℕ → (World S → World S) → Type 0
LeavesDrain {S} queue others =
    (w : World S) → ((others w).queues queue).drainq ≡ (w.queues queue).drainq

module _ {S : NodeList} where
  begin_drain-drainq : (q : WorkQueue S) → (begin_drain true q).0.drainq ≡ q.drainq
  unfolding begin_drain
  begin_drain-drainq q = ground arith

  begin_drain-waits :
      (q : WorkQueue S) → flag_test q.flags started_bit ≡ true → (begin_drain true q).1 ≡ none
  unfolding begin_drain must_drain
  begin_drain-waits q started = ground arith

  get-empty : (q : WorkQueue S) → q.drainq.size ≡ 0 → (end_drain [] q).1 ≡ Queue.blocked
  unfolding end_drain get wait
  get-empty q empty = ground arith

  -- The wait of `drainq.get()` when it has started and nobody puts anything there.
  drain_wait-blocked :
      (others : World S → World S) (queue : ℕ) (w : World S) (q : WorkQueue S) (code : Option ℤ)
      → LeavesDrain queue others
      → q.drainq.size ≡ 0
      → code ≡ none
      → (drain_wait others queue w (q, code)).1 ≡ Queue.blocked
  drain_wait-blocked others queue w q code leaves empty waits =
      let begun = set_queue queue q w in
      let u = others begun in
      let there : (u.queues queue).drainq ≡ q.drainq =
        leaves begun
        ∙ ap (λ b. (if b then q else w.queues queue).drainq) (==_true {a = queue} refl) in
      rw waits (ap code_of (get-empty (u.queues queue) (ap (λ d. d.size) there ∙ empty)))

  after_drain-blocked :
      (others : World S → World S) (queue : ℕ) (r : World S × Reply ℤ)
      → r.1 ≡ Queue.blocked
      → (after_drain others queue r).1 ≡ blocked
  after_drain-blocked others queue (u, reply) e = ap (λ x. (after_drain others queue (u, x)).1) e

  -- A queue that is started and whose `drainq` stays empty is never destroyed.
  destroy-blocked :
      (draining stopping : World S → World S) (queue : ℕ) (w : World S)
      → LeavesDrain queue draining
      → flag_test (w.queues queue).flags started_bit ≡ true
      → (w.queues queue).drainq.size ≡ 0
      → (destroy draining stopping queue w).1 ≡ blocked
  unfolding destroy queue_drain
  destroy-blocked draining stopping queue w leaves started empty =
      let q = w.queues queue in
      after_drain-blocked stopping queue _ (
        drain_wait-blocked draining queue w (begin_drain true q).0 (begin_drain true q).1 leaves
          (ap (λ d. d.size) (begin_drain-drainq q) ∙ empty) (begin_drain-waits q started))

module _ {S : NodeList} (laws : IsNodeList S) where
  -- The handler of the first item of a started queue, whose thread is not essential, throws, whatever
  -- it and the other threads have done before, but to the item's running flag, to the queue's started
  -- and busy flags and thread, and to `drainq`, in which no answer to a drain is left. Then the
  -- queue's thread ends, and the destructor never returns: its drain waits for ever, whatever other
  -- threads do meanwhile but to `drainq`.
  pub throws-destroy :
      (queue work : ℕ) (rest : List ℕ) (others : World S → World S) (e : Thrown) (w : World S)
      → S.nodes (w.queues queue).pending ≡ work ∷ rest
      → LeavesRunning queue work others
      → LeavesDrain queue others
      → flag_test (w.queues queue).flags started_bit ≡ true
      → (w.queues queue).thread.essential ≡ false
      → (w.queues queue).drainq.size ≡ 0
      → (draining stopping : World S → World S) → LeavesDrain queue draining
      → let (u, stage) = round queue (throwing others e) w in
        (stage ≡ left (returned tt)) × ((destroy draining stopping queue u).1 ≡ blocked)
  throws-destroy queue work rest others e w h leaves off started plain empty draining stopping
        still =
      let (begins, abandons, on) = handler_throws laws queue work rest others e w h leaves in
      (
        abandons.0 ∙ ap (λ b. left (if b then aborts else returned tt)) plain,
        destroy-blocked draining stopping queue (round queue (throwing others e) w).0 still
            (on ∙ started)
            (ap (λ d. d.size) (abandons.3 ∙ off (begin_round queue w).0 ∙ begins.2) ∙ empty),
      )
