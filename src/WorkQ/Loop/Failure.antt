-- ===== src/WorkQ/Loop/Failure.antt =====
-- A handler that throws, in `work_queue_main` of src/work-q/work_q.cpp: what is left of the item, of
-- the queue and of its thread.
use Prim.Native.Nat.{bit_and}
use ares_common.Common.{
  ℕ, ◌≡◌, refl, sym, ap, ◌∙◌, true, false, not, List, ◌∷◌, Option, some, if◌then◌else◌, ◌==◌,
  ==_true, arith,
}
use ares_common.Common.Bits.{bit-bit_and}
use ares_common.Task.{Task, Thrown, aborts, done, exception, returned, execute, get_id}
use ares_common.WorkQ.{World, WorkQueue}
use ares_common.WorkQ.Flags.{
  flag_test, flag_set, running_bit, queued_bit, started_bit, busy_bit, flag_test-set,
  flag_test-clear, flag_test_lem,
}
use ares_common.WorkQ.Nodes.{NodeList, IsNodeList, split}
use ares_common.WorkQ.Submit.{admission}
use ares_common.WorkQ.Cancel.{needs_flush}
use ares_common.WorkQ.Main.{begin_round, begin_with, mark_running, Next, runs}
use mathlib.Core.Path.{subst}
use ares_common.WorkQ.Loop.{
  fails, Turn, Stage, left, not_owner, round, end_with, end_handler, leave,
}

-- A turn whose handler throws, after what it and the other threads have done.
abbrev pub throwing : {S : NodeList} → (World S → World S) → Thrown → Turn S
throwing others e = record { effect = others; handled = fails e }

-- What a handler and the other threads leave alone of a running item, its queue and its thread, as all
-- calls but `start` do.
pub record LeavesRunning {S : NodeList} (queue work : ℕ) (others : World S → World S) : Type 0 where
  pub running :
      (w : World S)
      → flag_test ((others w).works work).flags running_bit
        ≡ flag_test (w.works work).flags running_bit
  pub started :
      (w : World S)
      → flag_test ((others w).queues queue).flags started_bit
        ≡ flag_test (w.queues queue).flags started_bit
  pub busy :
      (w : World S)
      → flag_test ((others w).queues queue).flags busy_bit
        ≡ flag_test (w.queues queue).flags busy_bit
  pub thread : (w : World S) → ((others w).queues queue).thread ≡ (w.queues queue).thread

-- A round that begins with an item.
abbrev pub Begins : {S : NodeList} → ℕ → ℕ → List ℕ → World S → World S × Next → Type 0
Begins {S} queue work rest w (b, next) =
    let q = b.queues queue in
    ((handler : ℕ) × (next ≡ runs work handler))
    × (S.nodes q.pending ≡ rest)
    × (q.drainq ≡ (w.queues queue).drainq)
    × (q.thread ≡ (w.queues queue).thread)
    × (flag_test q.flags started_bit ≡ flag_test (w.queues queue).flags started_bit)
    × (flag_test q.flags busy_bit ≡ true)
    × (flag_test (b.works work).flags running_bit ≡ true)
    × (flag_test (b.works work).flags queued_bit ≡ false)

-- What an exception makes of the world that the handler and the other threads left: the queue's thread
-- ends, with a task `t` and the item running.
abbrev pub Abandons : {S : NodeList} → ℕ → ℕ → Task (Unit {0}) → World S → World S × Stage → Type 0
Abandons {S} queue work t v (u, stage) =
    let q = u.queues queue in
    (stage ≡ left (if t.essential then aborts else returned tt))
    × (q.thread.future ≡ (if t.essential then t.future else done (exception not_owner)))
    × (S.nodes q.pending ≡ S.nodes (v.queues queue).pending)
    × (q.drainq ≡ (v.queues queue).drainq)
    × (flag_test q.flags started_bit ≡ flag_test (v.queues queue).flags started_bit)
    × (flag_test (u.works work).flags running_bit ≡ true)
    × (needs_flush (u.works work) ≡ true)
    × (flag_test q.flags busy_bit ≡ true)
    × ((caller : ℕ) → admission caller q ≡ admission caller (v.queues queue))

-- A running item is one that a flush waits for.
needs_flush-running :
    (flags : ℕ) → flag_test flags running_bit ≡ true → (bit_and flags 5 == 0) ≡ false
needs_flush-running flags h = ground (arith, flag_test_lem flags running_bit, bit-bit_and flags 5 0)

-- What the task of the queue's thread becomes.
execute-not_owner :
    (t : Task (Unit {0}))
    → let (u, ended) = execute (exception not_owner) t in
      (ended ≡ (if t.essential then aborts else returned tt))
      × (get_id u ≡ get_id t)
      × (u.future ≡ (if t.essential then t.future else done (exception not_owner)))
unfolding execute get_id
execute-not_owner t = ground arith

module _ {S : NodeList} where
  -- The flags and the thread's id decide on an admission.
  admission-same :
      (caller : ℕ) (q p : WorkQueue S)
      → get_id p.thread ≡ get_id q.thread
      → p.flags ≡ q.flags
      → admission caller p ≡ admission caller q
  unfolding admission
  admission-same caller q p same flags = rw (same, flags) refl

  begin_first-Begins :
      (queue work : ℕ) (w : World S) (pending : S.Nodes)
      → Begins queue work (S.nodes pending) w (begin_with queue w (pending, some work))
  unfolding begin_with mark_running
  begin_first-Begins queue work w pending =
      let q = w.queues queue in
      let f = (w.works work).flags in
      let here = ==_true {a = queue} refl in
      let its = ==_true {a = work} refl in
      rw (here, its)
        (
          (_, refl),
          refl,
          refl,
          refl,
          flag_test-set q.flags busy_bit started_bit (omega arith),
          flag_test-set q.flags busy_bit busy_bit (omega arith),
          flag_test-clear (flag_set f running_bit) queued_bit running_bit (omega arith)
                (omega arith)
              ∙ flag_test-set f running_bit running_bit (omega arith),
          flag_test-clear (flag_set f running_bit) queued_bit queued_bit (omega arith)
              (omega arith),
        )

  begin_with-Begins :
      (queue work : ℕ) (rest : List ℕ) (w : World S) (got : S.Nodes × Option ℕ)
      → S.nodes got.0 ≡ rest
      → got.1 ≡ some work
      → Begins queue work rest w (begin_with queue w got)
  begin_with-Begins queue work rest w (pending, at) left_over first =
      subst (λ l. Begins queue work l w (begin_with queue w (pending, at))) left_over
        (subst (λ o. Begins queue work (S.nodes pending) w (begin_with queue w (pending, o)))
          (sym first) (begin_first-Begins queue work w pending))

  -- The thread ends in a world in which the item runs and the queue is busy.
  leave-Abandons :
      (queue work : ℕ) (t : Task (Unit {0})) (v : World S)
      → (v.queues queue).thread ≡ t
      → flag_test (v.queues queue).flags busy_bit ≡ true
      → flag_test (v.works work).flags running_bit ≡ true
      → Abandons queue work t v (leave queue (exception not_owner) v)
  unfolding leave needs_flush
  leave-Abandons queue work t v same busy runs_now =
      let q = v.queues queue in
      let (ended, kept, future) = execute-not_owner q.thread in
      rw (==_true {a = queue} refl) (
        ap left ended ∙ ap (λ x. left (if x.essential then aborts else returned tt)) same,
        future ∙ ap (λ x. if x.essential then x.future else done (exception not_owner)) same,
        refl,
        refl,
        refl,
        runs_now,
        ap not (needs_flush-running (v.works work).flags runs_now),
        busy,
        λ caller. admission-same caller q _ kept refl,
      )

module _ {S : NodeList} (laws : IsNodeList S) where
  begin_round-Begins :
      (queue work : ℕ) (rest : List ℕ) (w : World S)
      → S.nodes (w.queues queue).pending ≡ work ∷ rest
      → Begins queue work rest w (begin_round queue w)
  unfolding begin_round
  begin_round-Begins queue work rest w h =
      let got = laws.get_lem (w.queues queue).pending ∙ ap split h in
      begin_with-Begins queue work rest w (S.get (w.queues queue).pending) (ap (λ p. p.0) got)
        (ap (λ p. p.1) got)

  -- A round for the first item of a queue's list marks it running and no longer queued, marks the
  -- queue busy, and takes the item off the list. When its handler then throws, whatever it throws and
  -- whatever it and the other threads have done before, but to the item's running flag, the queue's
  -- started and busy flags and its thread, the round ends with the thread: an essential one aborts the
  -- program, and the task of any other has the error of a lock that is not held as its result, not what
  -- the handler threw. The item keeps its running flag, so that a flush of it has to wait; the queue
  -- keeps its busy and its started flag, its list and its `drainq` are as the handler left them, and it
  -- takes or refuses items of every thread as it would have then.
  pub handler_throws :
      (queue work : ℕ) (rest : List ℕ) (others : World S → World S) (e : Thrown) (w : World S)
      → S.nodes (w.queues queue).pending ≡ work ∷ rest
      → LeavesRunning queue work others
      → let begun = begin_round queue w in
        let r = round queue (throwing others e) w in
        Begins queue work rest w begun
        × Abandons queue work (w.queues queue).thread (others begun.0) r
        × (flag_test (r.0.queues queue).flags started_bit
            ≡ flag_test (w.queues queue).flags started_bit)
  unfolding round end_with end_handler
  handler_throws queue work rest others e w h leaves =
      let begun = begin_round queue w in
      let v = others begun.0 in
      let begins = begin_round-Begins queue work rest w h in
      let ((handler, its), list, drainq, thread, started, busy, runs_now, unqueued) = begins in
      let left_off : round queue (throwing others e) w ≡ leave queue (exception not_owner) v =
        ap (λ next. end_with queue (throwing others e) (begun.0, next)) its in
      let abandons = subst (Abandons queue work (w.queues queue).thread v) (sym left_off) (
        leave-Abandons queue work (w.queues queue).thread v (leaves.thread begun.0 ∙ thread)
          (leaves.busy begun.0 ∙ busy) (leaves.running begun.0 ∙ runs_now)) in
      (begins, abandons, abandons.4 ∙ leaves.started begun.0 ∙ started)
