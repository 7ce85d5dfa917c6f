-- ===== src/WorkQ/Life/Drains.antt =====
-- The drain that the destructor of a queue makes, in src/work-q/work_q.cpp, when the queue's thread
-- runs: every item is run, and the drain is answered.
use ares_common.Common.{
  ℕ, ◌≡◌, ◌≢◌, ◌≤◌, ◌<◌, suc, refl, sym, ap, ◌∙◌, true, false, not, ◌&&◌, ◌||◌, List, [], length,
  replicate, if◌then◌else◌, ◌==◌, ==_true, Bool, arith,
}
use mathlib.Core.Path.{subst}
use ares_common.Common.Int.{ℤ, pos}
use ares_common.Queue
use ares_common.Queue.{wait, wait_for, Reply}
use ares_common.WorkQ.{World, WorkQueue, set_queue, post}
use ares_common.WorkQ.Flags.{
  flag_test, flag_set, started_bit, busy_bit, drain_bit, plugged_bit, flag_test-set,
}
use ares_common.WorkQ.Nodes.{NodeList, IsNodeList}
use ares_common.WorkQ.Invariant.{IsValid, queue-Agrees, Agrees-IsValid}
use ares_common.WorkQ.Queue.{begin_drain, end_drain}
use ares_common.WorkQ.Drain.{plug-done}
use ares_common.WorkQ.Loop.{Stage, resume}
use ares_common.WorkQ.Life.{code_of, drain_wait, queue_drain}
use ares_common.WorkQ.Loop.Service.{Uncanceled}
use ares_common.WorkQ.Life.Tokens.{calm_turn, size-post, get-token, place_of}
use ares_common.WorkQ.Life.Answers.{resume-Answers}

-- A queue that is drained and plugged.
abbrev pub Drained : {S : NodeList} → WorkQueue S → WorkQueue S → Type 0
Drained {S} q p =
    (S.nodes p.pending ≡ [])
    × (p.thread ≡ q.thread)
    × (flag_test p.flags started_bit ≡ true)
    × (flag_test p.flags plugged_bit ≡ true)
    × (flag_test p.flags drain_bit ≡ false)
    × (p.notifyq.size ≡ 0)

-- What the queue's thread does, from where it is, until a drain of `l` is answered.
abbrev pub drains_all : {S : NodeList} → Stage → ℕ → List ℕ → World S → World S × Stage
drains_all place queue l w = resume place queue (replicate (suc (length l)) calm_turn) w

module _ {S : NodeList} (laws : IsNodeList S) where
  pub queue_drain-Drained :
      (asleep : Bool) (queue : ℕ) (w : World S)
      → IsValid w
      → Uncanceled w
      → flag_test (w.queues queue).flags started_bit ≡ true
      → (w.queues queue).notifyq.size ≤ 1
      → (w.queues queue).drainq.size ≤ 1
      → let serves = drains_all (place_of asleep) queue (S.nodes (w.queues queue).pending) in
        let r = queue_drain true (λ v. (serves v).0) queue w in
        ((c : ℤ) × (r.1 ≡ Queue.returned c))
        × Drained (w.queues queue) (r.0.queues queue)
        × ((serves (set_queue queue (begin_drain true (w.queues queue)).0 w)).1 ≡ place_of asleep)
  unfolding queue_drain end_drain
  queue_drain-Drained asleep queue w v calm started n d =
      let q = w.queues queue in
      let l = S.nodes q.pending in
      let q1 = record q {
        flags = flag_set (flag_set q.flags drain_bit) plugged_bit;
        notifyq = post 0 q.notifyq;
      } in
      let w1 = set_queue queue q1 w in
      let here = ==_true {a = queue} refl in
      let draining : flag_test q1.flags drain_bit ≡ true =
        flag_test-set (flag_set q.flags drain_bit) plugged_bit drain_bit (omega arith)
        ∙ flag_test-set q.flags drain_bit drain_bit (omega arith) in
      let (place, (list, thread, drainq, none_left, flags)) =
        resume-Answers laws asleep queue l w1 (Agrees-IsValid (queue-Agrees queue q1 refl) v) calm
          (rw here draining) (rw here (size-post 0 q.notifyq n)) (rw here refl) in
      let at : w1.queues queue ≡ q1 = ap (λ b. if b then q1 else q) here in
      let serves = drains_all {S = S} (place_of asleep) queue l in
      let u = (serves w1).0 in
      let posted =
        ap (λ d. d.size) (drainq ∙ ap (λ p. post 1 p.drainq) at) ∙ size-post 1 q.drainq d in
      let (x, got, rest) = get-token (u.queues queue).drainq posted in
      let flag : (i : ℕ)
          → i < 32
          → i ≢ busy_bit
          → flag_test (u.queues queue).flags i ≡ not (drain_bit == i) && flag_test q1.flags i =
        λ i h other. flags i h other ∙ ap (λ p. not (drain_bit == i) && flag_test p.flags i) at in
      let set : (i : ℕ)
          → i < 32
          → flag_test q1.flags i ≡ (plugged_bit == i) || ((drain_bit == i) || flag_test q.flags i) =
        λ i h.
          flag_test-set (flag_set q.flags drain_bit) plugged_bit i h
          ∙ ap (λ b. (plugged_bit == i) || b) (flag_test-set q.flags drain_bit i h) in
      subst
        (λ b.
          let r = drain_wait (λ v. (serves v).0) queue w b in
          ((c : ℤ) × (r.1 ≡ Queue.returned c))
          × Drained q (r.0.queues queue)
          × ((serves (set_queue queue b.0 w)).1 ≡ place_of asleep))
        (sym (plug-done q started))
        (
          (pos x, ap code_of got),
          rw here (
            list,
            thread ∙ ap (λ p. p.thread) at,
            flag started_bit (omega arith) (λ e. absurd (omega arith))
                ∙ set started_bit (omega arith)
                ∙ started,
            flag plugged_bit (omega arith) (λ e. absurd (omega arith))
                ∙ set plugged_bit (omega arith),
            flag drain_bit (omega arith) (λ e. absurd (omega arith)),
            none_left,
          ),
          place,
        )
