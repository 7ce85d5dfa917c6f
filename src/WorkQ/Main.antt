-- ===== src/WorkQ/Main.antt =====
-- The thread of a queue: the two locked sections of a round of `work_queue_main` in
-- src/work-q/work_q.cpp, before the handler and after it.
use ares_common.Common.{ℕ, Bool, not, Option, none, some, if◌then◌else◌, ◌==◌, List, [], ◌∷◌}
use ares_common.Sync.Semaphore.{Outcome, returned, threw, blocked, Exception, unlock}
use ares_common.WorkQ.{Work, World, set_work, set_queue, update, post}
use ares_common.WorkQ.Flags.{
  flag_test, flag_set, flag_clear, flag_test_and_clear, running_bit, canceling_bit, queued_bit,
  flushing_bit, busy_bit, drain_bit, stop_bit, no_yield_bit,
}
use ares_common.WorkQ.Nodes.{NodeList}

-- What a round goes on with: an item's handler, a wait for a token in `notifyq`, or the return.
pub data Next : Type 0 where
  runs : ℕ → ℕ → Next
  waits : Next
  ends : Next

-- How the section after the handler ends: with the next round, with or without a yield, or by an
-- exception of a semaphore.
pub data Finished : Type 0 where
  continues : Bool → Finished
  throws : Exception → Finished

-- The canceller that waits for an item, and the one before it in the list.
abbrev pub find_canceller : (ℕ → ℕ) → ℕ → Option ℕ → List ℕ → Option (Option ℕ × ℕ)
find_canceller work_of work prev [] = none
find_canceller work_of work prev (c ∷ cs) =
    let rest = find_canceller work_of work (some c) cs in
    if work_of c == work then some (prev, c) else rest

-- The section before the handler, for an item.
unfoldable pub mark_running : Work → Work
mark_running item = record item { flags = flag_clear (flag_set item.flags running_bit) queued_bit }

module _ {S : NodeList} where
  -- The section before the handler, without an item.
  unfoldable pub idle : ℕ → World S → World S × Next
  idle queue w =
      let q = w.queues queue in
      let (flags, draining) = flag_test_and_clear q.flags drain_bit in
      if draining
      then (set_queue queue (record q { flags = flags; drainq = post 1 q.drainq }) w, waits)
      else if flag_test flags stop_bit
      then (set_queue queue (record q { flags = 0 }) w, ends)
      else (set_queue queue (record q { flags = flags }) w, waits)

  -- The section before the handler, with what `sys_slist_get` gave.
  unfoldable pub begin_with : ℕ → World S → S.Nodes × Option ℕ → World S × Next
  begin_with queue w (pending, none) =
      idle queue (set_queue queue (record (w.queues queue) { pending = pending }) w)
  begin_with queue w (pending, some work) =
      let q = w.queues queue in
      (
        set_work work (mark_running (w.works work))
            (set_queue queue (record q { pending = pending; flags = flag_set q.flags busy_bit }) w),
        runs work (w.works work).handler,
      )

  -- The section before the handler.
  unfoldable pub begin_round : ℕ → World S → World S × Next
  begin_round queue w = begin_with queue w (S.get (w.queues queue).pending)

  -- `finalize_flush_locked`: the semaphore of the flusher that the item is part of.
  unfoldable pub finalize_flush : ℕ → World S → World S × Outcome (Unit {0})
  finalize_flush work w =
      let item = w.works work in
      let e = unlock 1 [] (w.flushers work) in
      (
        record (set_work work (record item { flags = flag_clear item.flags flushing_bit }) w) {
          flushers = update w.flushers work e.after;
        },
        e.outcome,
      )

  -- The canceller found is taken off the list, and its semaphore is given.
  unfoldable pub release : Option (Option ℕ × ℕ) → World S → World S × Outcome (Unit {0})
  release none w = (w, returned tt)
  release (some (prev, c)) w =
      let canceller = w.cancellers c in
      let e = unlock 1 [] canceller.sem in
      (
        record w {
          pending_cancels = S.remove w.pending_cancels prev c;
          cancellers = update w.cancellers c (record canceller { sem = e.after });
        },
        e.outcome,
      )

  -- `finalize_cancel_locked`.
  unfoldable pub finalize_cancel : ℕ → World S → World S × Outcome (Unit {0})
  finalize_cancel work w =
      let item = w.works work in
      release (find_canceller (λ c. (w.cancellers c).work) work none (S.nodes w.pending_cancels))
        (set_work work (record item { flags = flag_clear item.flags canceling_bit }) w)

  -- Going on after a call that may throw.
  abbrev pub after :
      World S × Outcome (Unit {0}) → (World S → World S × Finished) → World S × Finished
  after (w, returned x) next = next w
  after (w, threw e) next = (w, throws e)
  after (w, blocked) next = next w

  -- The end of a round.
  unfoldable pub end_round : ℕ → World S → World S × Finished
  end_round queue w =
      let q = w.queues queue in
      let flags = flag_clear q.flags canceling_bit in
      (
        set_queue queue (record q { flags = flags }) w,
        continues (not (flag_test flags no_yield_bit)),
      )

  -- What `if (flag_test(…)) finalize(…)` comes to.
  abbrev pub finalize :
      ℕ → ℕ → (ℕ → World S → World S × Outcome (Unit {0})) → World S → World S × Outcome (Unit {0})
  finalize bit work f w = if flag_test (w.works work).flags bit then f work w else (w, returned tt)

  -- The section after the handler.
  unfoldable pub finish : ℕ → ℕ → World S → World S × Finished
  finish queue work w =
      let item = w.works work in
      let stopped = set_work work (record item { flags = flag_clear item.flags running_bit }) w in
      after (finalize flushing_bit work finalize_flush stopped)
        λ u. after (finalize canceling_bit work finalize_cancel u) λ v. end_round queue v
