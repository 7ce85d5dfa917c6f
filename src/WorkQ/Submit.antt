-- ===== src/WorkQ/Submit.antt =====
-- Submitting a work item to a queue: `WorkQ::submit`, both `WorkQ::submit_locked`, `Work::resubmit`
-- and `work_submit_to_queue` of src/work-q/work_q.cpp.
pub mod Laws
use ares_common.Common.{
  ℕ, Bool, true, false, not, ◌&&◌, ◌||◌, Option, none, some, if◌then◌else◌, ◌==◌,
}
use ares_common.Common.Int.{ℤ, pos, neg, is_neg}
use ares_common.Task.{get_id, ebusy}
use ares_common.WorkQ.{Work, WorkQueue, World, set_work, set_queue, post}
use ares_common.WorkQ.Flags.{
  flag_test, flag_set, running_bit, canceling_bit, queued_bit, started_bit, drain_bit, plugged_bit,
}
use ares_common.WorkQ.Nodes.{NodeList}

abbrev pub enodev : ℤ
enodev = neg 19

abbrev pub einval : ℤ
einval = neg 22

-- `std::this_thread::get_id() == _thread.get_id()`.
abbrev pub is_thread : ℕ → Option ℕ → Bool
is_thread caller none = false
is_thread caller (some id) = caller == id

-- `*queue == nullptr ? work->queue : *queue`.
abbrev pub or_else : Option ℕ → Option ℕ → Option ℕ
or_else none other = other
or_else (some queue) other = some queue

module _ {S : NodeList} where
  -- Whether a queue takes an item from a thread, as the code of an error or 1.
  unfoldable pub admission : ℕ → WorkQueue S → ℤ
  admission caller q =
      if not (flag_test q.flags started_bit)
      then enodev
      else (let chained = is_thread caller (get_id q.thread) in
          let draining = flag_test q.flags drain_bit in
          let plugged = flag_test q.flags plugged_bit in
          if (draining && not chained) || (plugged && not draining) then ebusy else pos 1)

  -- The member function `submit_locked`, on the queue alone.
  unfoldable pub accept : ℕ → ℕ → WorkQueue S → WorkQueue S × ℤ
  accept caller work q =
      let rc = admission caller q in
      if is_neg rc
      then (q, rc)
      else (record q { pending = S.append q.pending work; notifyq = post 0 q.notifyq }, rc)

  -- The end of the static `submit_locked`, once the queue is chosen. `none` is a call through a null
  -- pointer; the middle part of the result is what is left in `*queue`.
  unfoldable pub submit_chosen : ℕ → ℕ → ℤ → Option ℕ → World S → Option (World S × Option ℕ × ℤ)
  submit_chosen caller work ret none w = none
  submit_chosen caller work ret (some queue) w =
      let (q, rc) = accept caller work (w.queues queue) in
      let item = w.works work in
      if is_neg rc
      then some (w, none, rc)
      else some (
        set_work work (record item { flags = flag_set item.flags queued_bit; queue = some queue })
            (set_queue queue q w),
        some queue,
        ret,
      )

  -- The static function `submit_locked`.
  unfoldable pub submit_locked : ℕ → ℕ → Option ℕ → World S → Option (World S × Option ℕ × ℤ)
  submit_locked caller work queue w =
      let item = w.works work in
      if flag_test item.flags canceling_bit
      then some (w, none, ebusy)
      else if flag_test item.flags queued_bit
      then some (w, none, pos 0)
      else if flag_test item.flags running_bit
      then submit_chosen caller work (pos 2) item.queue w
      else submit_chosen caller work (pos 1) (or_else queue item.queue) w

  -- `submit`, whose item may be a null pointer.
  unfoldable pub submit : ℕ → ℕ → Option ℕ → World S → Option (World S × Option ℕ × ℤ)
  submit caller queue none w = some (w, some queue, einval)
  submit caller queue (some work) w = submit_locked caller work (some queue) w

  -- `resubmit`.
  unfoldable pub resubmit : ℕ → ℕ → World S → Option (World S × Option ℕ × ℤ)
  resubmit caller work w = elim (w.works work).queue [
    | none ↦ some (w, none, einval)
    | some queue ↦ submit_locked caller work none w
  ]

  -- `work_submit_to_queue`.
  unfoldable pub submit_to_queue :
      ℕ → Option ℕ → Option ℕ → World S → Option (World S × Option ℕ × ℤ)
  submit_to_queue caller queue none w = some (w, queue, einval)
  submit_to_queue caller none (some work) w = resubmit caller work w
  submit_to_queue caller (some queue) (some work) w = submit caller queue (some work) w
