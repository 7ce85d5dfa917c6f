-- ===== src/WorkQ/Cancel.antt =====
-- What is asked of a work item besides submitting it: its state, a flush, a cancellation and a new
-- handler; `Work` of src/work-q/work_q.cpp, with the members of `WorkQ` that only `Work` calls.
pub mod Laws
use Prim.Native.Nat.{bit_and}
use ares_common.Common.{ℕ, Bool, true, false, not, Option, none, some, if◌then◌else◌, ◌==◌}
use ares_common.Common.Int.{ℤ, pos, is_neg}
use ares_common.Queue.Bounded.{init}
use ares_common.Sync.Semaphore.{template}
use ares_common.Task.{ebusy}
use ares_common.WorkQ.{Work, WorkQueue, Canceller, World, set_work, set_queue, update, post}
use ares_common.WorkQ.Flags.{
  flag_test, flag_set, flag_clear, flag_test_and_clear, canceling_bit, queued_bit, flushing_bit,
  work_mask,
}
use ares_common.WorkQ.Nodes.{NodeList}

-- `work_busy_get_locked`.
unfoldable pub busy_get : Work → ℕ
busy_get item = bit_and item.flags work_mask

unfoldable pub is_pending : Work → Bool
is_pending item = not (busy_get item == 0)

-- `(flags & (WORK_QUEUED | WORK_RUNNING)) != 0`.
unfoldable pub needs_flush : Work → Bool
needs_flush item = not (bit_and item.flags 5 == 0)

-- `set_new_work_handler`.
unfoldable pub set_handler : ℕ → Work → Work × ℤ
set_handler handler item =
    if not (item.flags == 0) then (item, ebusy) else (record item { handler = handler }, pos 0)

module _ {S : NodeList} where
  -- `WorkQ::remove_locked`.
  unfoldable pub remove_locked : ℕ → ℕ → World S → World S
  remove_locked queue work w =
      let item = w.works work in
      let (flags, queued) = flag_test_and_clear item.flags queued_bit in
      let w' = set_work work (record item { flags = flags }) w in
      let q = w.queues queue in
      if queued
      then set_queue queue (record q { pending = S.find_and_remove q.pending work }) w'
      else w'

  -- The second half of `cancel_async_locked`.
  unfoldable pub mark_canceling : ℕ → World S → World S × ℕ
  mark_canceling work w =
      let item = w.works work in
      let marked = record item { flags = flag_set item.flags canceling_bit } in
      if busy_get item == 0 then (w, 0) else (set_work work marked w, busy_get marked)

  -- `cancel_async_locked`. `none` is a call through a null pointer, made for an item that was never
  -- submitted.
  unfoldable pub cancel_async : ℕ → World S → Option (World S × ℕ)
  cancel_async work w =
      if flag_test (w.works work).flags canceling_bit
      then some (mark_canceling work w)
      else elim (w.works work).queue [
        | none ↦ none
        | some queue ↦ some (mark_canceling work (remove_locked queue work w))
      ]

  -- `work_cancel`.
  unfoldable pub cancel : ℕ → World S → Option (World S × ℕ)
  cancel work w = cancel_async work w

  -- `cancel_sync_locked` and `WorkQ::init_canceller`. The Boolean says whether the caller must wait.
  unfoldable pub cancel_sync_locked : ℕ → ℕ → World S → World S × Bool
  cancel_sync_locked canceller work w =
      if flag_test (w.works work).flags canceling_bit
      then (
        record w {
          cancellers =
              update w.cancellers canceller (record (w.cancellers canceller) { work = work });
          pending_cancels = S.append w.pending_cancels canceller;
        },
        true,
      )
      else (w, false)

  -- `work_cancel_sync` up to its wait, with a new canceller: whether the item was pending, and
  -- whether the caller waits. `semaphore<> sem{0}` starts without a token.
  unfoldable pub cancel_sync : ℕ → ℕ → World S → Option (World S × Bool × Bool)
  cancel_sync canceller work w =
      let fresh : Canceller = record { work = 0; sem = init (template 1) } in
      let w' = record w { cancellers = update w.cancellers canceller fresh } in
      if is_pending (w.works work)
      then elim (cancel_async work w') [
        | none ↦ none
        | some r ↦ (let (w3, wait) = cancel_sync_locked canceller work r.0 in some (w3, true, wait))
      ]
      else some (w', false, false)

  -- `WorkQ::init_flusher` and `WorkQ::flusher_locked`.
  unfoldable pub flusher_locked : ℕ → ℕ → ℕ → World S → World S
  flusher_locked queue work flusher w =
      let item = w.works flusher in
      let q = w.queues queue in
      let nodes =
        if flag_test (w.works work).flags queued_bit
        then S.insert q.pending work flusher
        else S.prepend q.pending flusher in
      set_work flusher (record item { flags = flag_set item.flags flushing_bit })
        (set_queue queue (record q { pending = nodes }) w)

  -- `WorkQ::notify_locked`.
  unfoldable pub notify_locked : ℕ → World S → World S
  notify_locked queue w =
      let q = w.queues queue in set_queue queue (record q { notifyq = post 0 q.notifyq }) w

  -- `work_flush_locked`.
  unfoldable pub flush_locked : ℕ → ℕ → World S → Option (World S × Bool)
  flush_locked work flusher w =
      if needs_flush (w.works work)
      then elim (w.works work).queue [
        | none ↦ none
        | some queue ↦ some (notify_locked queue (flusher_locked queue work flusher w), true)
      ]
      else some (w, false)

  -- `work_flush` up to its wait, with a new flusher at an address of its own, whose handler does
  -- nothing.
  unfoldable pub flush : ℕ → ℕ → ℕ → World S → Option (World S × Bool)
  flush nothing work flusher w =
      let fresh : Work = record { flags = 0; queue = none; handler = nothing } in
      flush_locked work flusher (record w {
        works = update w.works flusher fresh;
        flushers = update w.flushers flusher (init (template 1));
      })
