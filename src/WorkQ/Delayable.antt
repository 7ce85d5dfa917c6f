-- ===== src/WorkQ/Delayable.antt =====
-- `WorkDelayable` of include/ares/work-q/work_q.hpp and src/work-q/work_q.cpp: an item with a delay.
-- `WorkQ::schedule` and `WorkQ::reschedule`, which would delay one, are called and not written.
use ares_common.Common.{
  ℕ, ◌≡◌, refl, ◌∙◌, ◌⊎◌, Bool, true, false, Option, none, some, if◌then◌else◌, ◌==◌, ==_true,
  arith,
}
use ares_common.Common.Int.{ℤ}
use ares_common.Queue.Bounded.{init}
use ares_common.Sync.Semaphore.{template}
use ares_common.Task.{ebusy}
use ares_common.WorkQ.{Work, World, Canceller, set_work, update}
use ares_common.WorkQ.Flags.{
  flag_test, flag_clear, flag_test_and_clear, delayed_bit, queued_bit, canceling_bit, running_bit,
  flushing_bit, flag_test-clear,
}
use ares_common.WorkQ.Nodes.{NodeList, IsNodeList, count}
use ares_common.WorkQ.Submit.{submit_locked}
use ares_common.WorkQ.Cancel.{busy_get, is_pending, cancel_async, cancel_sync_locked, flush_locked}
use ares_common.WorkQ.Cancel.Laws.{cancel_lem}
use ares_common.WorkQ.Cancel
use ares_common.WorkQ.Invariant.{IsValid, flags-Agrees, Agrees-IsValid}

-- `work` is the address of the item that it holds.
pub record WorkDelayable : Type 0 where
  pub work : ℕ
  pub timeout : ℤ
  pub queue : Option ℕ

module _ {S : NodeList} where
  -- `work_busy_delayable_get_locked`, the whole of `work_busy_get` under the lock.
  unfoldable pub busy_delayable : WorkDelayable → World S → ℕ
  busy_delayable d w = busy_get (w.works d.work)

  unfoldable pub is_pending_delayable : WorkDelayable → World S → Bool
  is_pending_delayable d w = is_pending (w.works d.work)

  -- `unschedule_locked`.
  unfoldable pub unschedule : ℕ → World S → World S × Bool
  unschedule work w =
      let item = w.works work in
      let (flags, delayed) = flag_test_and_clear item.flags delayed_bit in
      (set_work work (record item { flags = flags }) w, delayed)

  -- `work_cancel_async_locked`.
  unfoldable pub cancel_delayable : WorkDelayable → World S → Option (World S × ℕ)
  cancel_delayable d w = cancel_async d.work (unschedule d.work w).0

  -- `work_cancel_sync` up to its wait.
  abbrev cancel_waits : ℕ → ℕ → Option (World S × ℕ) → Option (World S × Bool × Bool)
  cancel_waits canceller work none = none
  cancel_waits canceller work (some (w, busy)) =
      let (u, wait) = cancel_sync_locked canceller work w in some (u, true, wait)

  unfoldable pub cancel_sync_delayable :
      ℕ → WorkDelayable → World S → Option (World S × Bool × Bool)
  cancel_sync_delayable canceller d w =
      let fresh : Canceller = record { work = 0; sem = init (template 1) } in
      let w' = record w { cancellers = update w.cancellers canceller fresh } in
      if busy_delayable d w == 0
      then some (w', false, false)
      else cancel_waits canceller d.work (cancel_delayable d w')

  -- The submission of an item whose delay is cut short; what it leaves in `queue` stays there.
  abbrev submit_now : ℕ → WorkDelayable → World S × Bool → Option (WorkDelayable × World S)
  submit_now caller d (w, false) = some (d, w)
  submit_now caller d (w, true) = elim (submit_locked caller d.work d.queue w) [
    | none ↦ none
    | some r ↦ some (record d { queue = r.1 }, r.0)
  ]

  abbrev flush_now : ℕ → Option (WorkDelayable × World S) → Option (WorkDelayable × World S × Bool)
  flush_now flusher none = none
  flush_now flusher (some (d, w)) = elim (flush_locked d.work flusher w) [
    | none ↦ none
    | some r ↦ some (d, r.0, r.1)
  ]

  -- `work_flush` up to its wait, with a new flusher at an address of its own.
  unfoldable pub flush_delayable :
      ℕ → ℕ → WorkDelayable → ℕ → World S → Option (WorkDelayable × World S × Bool)
  flush_delayable caller nothing d flusher w =
      let fresh : Work = record { flags = 0; queue = none; handler = nothing } in
      let w' = record w {
        works = update w.works flusher fresh;
        flushers = update w.flushers flusher (init (template 1));
      } in
      if busy_get (w'.works d.work) == 0
      then some (d, w', false)
      else flush_now flusher (submit_now caller d (unschedule d.work w'))

module _ {S : NodeList} (laws : IsNodeList S) where
  unschedule-IsValid : (work : ℕ) (w : World S) → IsValid w → IsValid (unschedule work w).0
  unfolding unschedule flag_test_and_clear
  unschedule-IsValid work w v =
      let f = (w.works work).flags in
      Agrees-IsValid
        (flags-Agrees work (flag_clear f delayed_bit)
          (flag_test-clear f delayed_bit flushing_bit (omega arith) (omega arith))
          (flag_test-clear f delayed_bit queued_bit (omega arith) (omega arith))
          (λ r.
            ground (arith, flag_test-clear f delayed_bit running_bit (omega arith) (omega arith))))
        v

  -- In a valid world, canceling a delayable item that was submitted before and is not being canceled
  -- returns, delayed or not: the item is then in no queue's list, and either 0 is returned or every
  -- submission of it, by any thread to any queue, returns -EBUSY and changes nothing.
  pub cancel_delayable_lem :
      (d : WorkDelayable) (w : World S) (queue : ℕ)
      → IsValid w
      → (w.works d.work).queue ≡ some queue
      → flag_test (w.works d.work).flags canceling_bit ≡ false
      → (u : World S) × (r : ℕ) × (cancel_delayable d w ≡ some (u, r))
        × ((p : ℕ) → count d.work (S.nodes (u.queues p).pending) ≡ 0)
        × ((r ≡ 0)
            ⊎ ((caller : ℕ) (given : Option ℕ)
                → submit_locked caller d.work given u ≡ some (u, none, ebusy)))
  unfolding cancel_delayable unschedule flag_test_and_clear Cancel.cancel
  cancel_delayable_lem d w queue v at c =
      let its = ==_true {a = d.work} refl in
      cancel_lem laws (unschedule-IsValid d.work w v) d.work queue (rw its at) (
        rw its (
          flag_test-clear (w.works d.work).flags delayed_bit canceling_bit (omega arith)
            (omega arith)
          ∙ c))
