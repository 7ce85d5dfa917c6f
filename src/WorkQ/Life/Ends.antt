-- ===== src/WorkQ/Life/Ends.antt =====
-- The destructor of a queue whose thread runs, in src/work-q/work_q.cpp: it ends, with the thread.
use ares_common.Queue.Bounded.{get}
use ares_common.Common.{
  Bool, ℕ, ◌≡◌, ◌≤◌, refl, sym, ap, ◌∙◌, true, false, [], ◌∷◌, Option, none, some, if◌then◌else◌,
  ==_true, arith,
}
use mathlib.Core.Path.{subst}
use ares_common.Common.Int.{pos, ms_max}
use ares_common.Task.{Task, returned, ealready, value, done, execute, join, join_thread, destroy}
use ares_common.WorkQ.{World, WorkQueue, set_queue, post, token}
use ares_common.WorkQ.Flags.{
  flag_test, flag_set, flag_clear, flag_test_and_clear, started_bit, drain_bit, stop_bit,
  flag_test-set, flag_test-clear,
}
use ares_common.WorkQ.Nodes.{NodeList, IsNodeList, split}
use ares_common.WorkQ.Invariant.{IsValid}
use ares_common.WorkQ.Queue.{begin_drain, begin_stop, end_stop}
use ares_common.WorkQ.Main.{begin_round, begin_with, idle}
use ares_common.WorkQ.Loop.{
  Stage, goes_on, stuck, left, proceed, round, end_with, leave, work_queue_main, resume,
}
use ares_common.WorkQ.Life.{
  code_of, drain_wait, stop_wait, queue_drain, stop, destroy_thread, after_drain, after_stop,
}
use ares_common.WorkQ.Life
use ares_common.WorkQ.Life.Drains.{Drained, drains_all, queue_drain-Drained}
use ares_common.WorkQ.Life.Tokens.{calm_turn, place_of, size-post}
use ares_common.WorkQ.Life.Answers.{take_token-wakes}
use ares_common.WorkQ.Loop.Service.{Uncanceled}

-- What the queue's thread does, from where it is, until it has stopped.
abbrev pub stops : {S : NodeList} → Stage → ℕ → World S → World S
stops place queue w = (resume place queue (calm_turn ∷ []) w).0

-- What is left of a queue that has stopped.
abbrev pub Stopped : {S : NodeList} → WorkQueue S → Type 0
Stopped {S} q =
    (S.nodes q.pending ≡ [])
    × (q.flags ≡ 0)
    × (q.thread.joinable ≡ false)
    × (q.thread.future ≡ done (value tt))

module _ {S : NodeList} (laws : IsNodeList S) where
  -- The last of the given turns.
  proceed-last : (queue : ℕ) (r : World S × Stage) → (proceed (work_queue_main queue []) r).0 ≡ r.0
  unfolding work_queue_main
  proceed-last queue (u, goes_on) = refl
  proceed-last queue (u, stuck) = refl
  proceed-last queue (u, left e) = refl

  -- The queue's thread once its stop has been asked for, with nothing left to run.
  stopping_with :
      (queue : ℕ) (w : World S) (got : S.Nodes × Option ℕ)
      → flag_test (w.queues queue).flags drain_bit ≡ false
      → flag_test (w.queues queue).flags stop_bit ≡ true
      → S.nodes got.0 ≡ []
      → got.1 ≡ none
      → let (u, stage) = end_with queue calm_turn (begin_with queue w got) in
        let q = u.queues queue in
        (S.nodes q.pending ≡ [])
        × (q.flags ≡ 0)
        × (q.thread ≡ (execute (value tt) (w.queues queue).thread).0)
  unfolding begin_with end_with leave idle flag_test_and_clear
  stopping_with queue w (pending, some first) draining asked left_over nothing =
      absurd (ground arith)
  stopping_with queue w (pending, none) draining asked left_over nothing =
      let q = w.queues queue in
      let here = ==_true {a = queue} refl in
      let still : flag_test (flag_clear q.flags drain_bit) stop_bit ≡ true =
        flag_test-clear q.flags drain_bit stop_bit (omega arith) (omega arith) ∙ asked in
      rw (here, draining, still, here) (left_over, refl, refl)

  main-stops :
      (queue : ℕ) (w : World S)
      → flag_test (w.queues queue).flags drain_bit ≡ false
      → flag_test (w.queues queue).flags stop_bit ≡ true
      → S.nodes (w.queues queue).pending ≡ []
      → let q = (work_queue_main queue (calm_turn ∷ []) w).0.queues queue in
        (S.nodes q.pending ≡ [])
        × (q.flags ≡ 0)
        × (q.thread ≡ (execute (value tt) (w.queues queue).thread).0)
  unfolding work_queue_main round begin_round
  main-stops queue w draining asked h =
      let got = laws.get_lem (w.queues queue).pending ∙ ap split h in
      subst
        (λ u.
          (S.nodes (u.queues queue).pending ≡ [])
          × ((u.queues queue).flags ≡ 0)
          × ((u.queues queue).thread ≡ (execute (value tt) (w.queues queue).thread).0))
        (sym (proceed-last queue (round queue calm_turn w)))
        (stopping_with queue w (S.get (w.queues queue).pending) draining asked (ap (λ p. p.0) got)
          (ap (λ p. p.1) got))

  -- The same from either place, for a queue with a token.
  stops_lem :
      (asleep : Bool) (queue : ℕ) (w : World S)
      → flag_test (w.queues queue).flags drain_bit ≡ false
      → flag_test (w.queues queue).flags stop_bit ≡ true
      → (w.queues queue).notifyq.size ≡ 1
      → S.nodes (w.queues queue).pending ≡ []
      → let q = (stops (place_of asleep) queue w).queues queue in
        (S.nodes q.pending ≡ [])
        × (q.flags ≡ 0)
        × (q.thread ≡ (execute (value tt) (w.queues queue).thread).0)
  unfolding resume
  stops_lem false queue w draining asked posted h = main-stops queue w draining asked h
  stops_lem true queue w draining asked posted h =
      let (wakes, none_left) = take_token-wakes laws queue w posted in
      let q = w.queues queue in
      let awake = record q { notifyq = (get token false [] q.notifyq).after } in
      let u = set_queue queue awake w in
      let at : u.queues queue ≡ awake =
        ap (λ b. if b then awake else q) (==_true {a = queue} refl) in
      let (empty, flags, thread) =
        main-stops queue u (ap (λ p. flag_test p.flags drain_bit) at ∙ draining)
          (ap (λ p. flag_test p.flags stop_bit) at ∙ asked) (ap (λ p. S.nodes p.pending) at ∙ h) in
      subst
        (λ x.
          (S.nodes (x.0.queues queue).pending ≡ [])
          × ((x.0.queues queue).flags ≡ 0)
          × ((x.0.queues queue).thread ≡ (execute (value tt) q.thread).0))
        (sym (ap (proceed (work_queue_main queue (calm_turn ∷ []))) wakes))
        (empty, flags, thread ∙ ap (λ p. (execute (value tt) p.thread).0) at)

  join_stopped :
      (t : Task (Unit {0}))
      → t.joinable ≡ true
      → let (u, ended) = join ms_max (execute (value tt) t).0 in
        (ended ≡ returned (pos 0)) × (u.joinable ≡ false) × (u.future ≡ done (value tt))
  unfolding join join_thread execute
  join_stopped t h = ground arith

  stop-Stopped :
      (asleep : Bool) (queue : ℕ) (w : World S)
      → Drained (w.queues queue) (w.queues queue)
      → (w.queues queue).thread.joinable ≡ true
      → let (u, ended) = stop ms_max (stops (place_of asleep) queue) queue w in
        (ended ≡ returned (pos 0)) × Stopped (u.queues queue)
  unfolding stop begin_stop end_stop
  stop-Stopped asleep queue w (list, same, started, plugged, drained, none_left) joinable =
      let q = w.queues queue in
      let q1 = record q { flags = flag_set q.flags stop_bit; notifyq = post 0 q.notifyq } in
      let w1 = set_queue queue q1 w in
      let here = ==_true {a = queue} refl in
      let at : w1.queues queue ≡ q1 = ap (λ b. if b then q1 else q) here in
      let (empty, flags, thread) =
        stops_lem asleep queue w1
          (ap (λ p. flag_test p.flags drain_bit) at
            ∙ flag_test-set q.flags stop_bit drain_bit (omega arith)
            ∙ drained)
          (ap (λ p. flag_test p.flags stop_bit) at
            ∙ flag_test-set q.flags stop_bit stop_bit (omega arith))
          (ap (λ p. p.notifyq.size) at ∙ size-post 0 q.notifyq (omega (arith, none_left)))
          (ap (λ p. S.nodes p.pending) at ∙ list) in
      let its = thread ∙ ap (λ p. (execute (value tt) p.thread).0) at in
      let (ended, off, future) = join_stopped q.thread joinable in
      rw (started, plugged, here, its) (ended, (empty, flags, off, future))

  -- The destructor of the task that has been joined.
  destroyed :
      (queue : ℕ) (w : World S)
      → Stopped (w.queues queue)
      → let (u, ended) = destroy_thread queue w in
        (ended ≡ returned ealready) × Stopped (u.queues queue)
  unfolding destroy_thread destroy join join_thread
  destroyed queue w (empty, flags, off, future) =
      rw (==_true {a = queue} refl, off) (refl, (empty, flags, refl, future))

  -- The destructor of a started queue ends, in a valid world in which no item is being canceled, if the
  -- queue's thread can be joined, no other thread acts and the handlers do nothing but return. The
  -- thread is at the head of its loop or sleeps in `notifyq.get()`, from which only a token wakes it;
  -- from there it makes a turn for each item of the list and one more while the drain is waited for,
  -- and from where it is then, one while it is joined. In the end the list is empty, the flags are
  -- cleared, and the thread has returned and is joined.
  pub destroy-Stopped :
      (asleep : Bool) (queue : ℕ) (w : World S)
      → IsValid w
      → Uncanceled w
      → flag_test (w.queues queue).flags started_bit ≡ true
      → (w.queues queue).thread.joinable ≡ true
      → (w.queues queue).notifyq.size ≤ 1
      → (w.queues queue).drainq.size ≤ 1
      → let serves = drains_all (place_of asleep) queue (S.nodes (w.queues queue).pending) in
        let drain_asked = set_queue queue (begin_drain true (w.queues queue)).0 w in
        let (u, ended) =
          Life.destroy (λ v. (serves v).0) (stops (serves drain_asked).1 queue) queue w in
        (ended ≡ returned ealready) × Stopped (u.queues queue)
  unfolding Life.destroy
  destroy-Stopped asleep queue w v calm started joinable n d =
      let serves = drains_all {S = S} (place_of asleep) queue (S.nodes (w.queues queue).pending) in
      let r = queue_drain true (λ v. (serves v).0) queue w in
      let ((c, answered), drained, place) =
        queue_drain-Drained laws asleep queue w v calm started n d in
      let then_stops : World S → World S = stops (place_of asleep) queue in
      let s = stop ms_max then_stops queue r.0 in
      let (list, thread, on, shut, off, none_left) = drained in
      let (joined, stopped) =
        stop-Stopped asleep queue r.0 (list, refl, on, shut, off, none_left)
          (ap (λ t. t.joinable) thread ∙ joinable) in
      subst
        (λ x.
          let (u, ended) = after_drain (stops x queue) queue r in
          (ended ≡ returned ealready) × Stopped (u.queues queue))
        (sym place)
        (subst (λ x. (x.1 ≡ returned ealready) × Stopped (x.0.queues queue))
          (sym (
            ap (λ a. after_drain then_stops queue (r.0, a)) answered
            ∙ ap (λ a. after_stop queue (s.0, a)) joined))
          (destroyed queue s.0 stopped))
