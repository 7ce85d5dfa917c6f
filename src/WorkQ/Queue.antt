-- ===== src/WorkQ/Queue.antt =====
-- Starting, draining, plugging and stopping a queue: `WorkQ` of src/work-q/work_q.cpp.
use Prim.Native.Nat.{bit_and, bit_or}
use Prim.Native.String.{String}
use ares_common.Common.{ℕ, Bool, false, not, ◌||◌, Option, none, some, if◌then◌else◌, ◌==◌, List}
use ares_common.Common.Int.{ℤ, pos}
use ares_common.Queue.{Reply}
use ares_common.Queue.Bounded.{Section, clear, get}
use ares_common.Task.{
  Task, Ended, Finish, set_name, set_essential, begin_run, join, get_id, ebusy, ealready,
}
use ares_common.Task
use ares_common.WorkQ.{WorkQueue, post, token}
use ares_common.WorkQ.Flags.{
  flag_test, flag_set, flag_test_and_clear, started_bit, drain_bit, plugged_bit, stop_bit,
}
use ares_common.WorkQ.Nodes.{NodeList}
use ares_common.WorkQ.Submit.{enodev}

-- `WorkQConfig`. `none` is a null name; the work timeout is not read.
pub record Config : Type 0 where
  pub name : Option String
  pub no_yield : Bool
  pub essential : Bool

-- The flags that a queue starts with.
unfoldable pub start_flags : Option Config → ℕ
start_flags none = 1
start_flags (some config) = if config.no_yield then bit_or 1 256 else 1

-- What both `start` and `run` do to the task before they start it.
abbrev pub set_named : Option String → Task (Unit {0}) → Task (Unit {0})
set_named none t = t
set_named (some name) t = (set_name name t).0

unfoldable pub configure : Option Config → Task (Unit {0}) → Task (Unit {0})
configure none t = t
configure (some config) t = (set_essential config.essential (set_named config.name t)).0

module _ {S : NodeList} where
  -- The state that both leave to the task.
  unfoldable pub prepare : Option Config → WorkQueue S → WorkQueue S
  prepare config q = record q {
    thread = configure config q.thread;
    pending = S.init;
    notifyq = clear token q.notifyq;
    drainq = clear token q.drainq;
    flags = start_flags config;
  }

  -- `start`; `thread` is the new thread's id, or that none could be created.
  unfoldable pub start : Option ℕ → Option Config → WorkQueue S → WorkQueue S × Ended (Unit {0})
  start thread config q =
      let p = prepare config q in
      let (t, ended) = Task.start thread p.thread in (record p { thread = t }, ended)

  -- `run`, until the caller's thread enters `work_queue_main`.
  unfoldable pub run : ℕ → Option Config → WorkQueue S → WorkQueue S × Ended (Unit {0})
  run caller config q =
      let p = prepare config q in
      let (t, ended) = begin_run caller p.thread in (record p { thread = t }, ended)

  unfoldable pub queue_thread_get : WorkQueue S → Option ℕ
  queue_thread_get q = get_id q.thread

  -- `flags & (WORK_QUEUE_BUSY | WORK_QUEUE_DRAIN)`, `plug`, or an item that is pending.
  unfoldable pub must_drain : Bool → WorkQueue S → Bool
  must_drain plug q = not (bit_and q.flags 6 == 0) || plug || not (S.is_empty q.pending)

  -- `queue_drain` up to its wait; `none` says that it goes on with `end_drain`.
  unfoldable pub begin_drain : Bool → WorkQueue S → WorkQueue S × Option ℤ
  begin_drain plug q =
      if not (flag_test q.flags started_bit)
      then (q, some enodev)
      else if must_drain plug q
      then (let draining = flag_set q.flags drain_bit in
          (
            record q {
              flags = if plug then flag_set draining plugged_bit else draining;
              notifyq = post 0 q.notifyq;
            },
            none,
          ))
      else (q, some (pos 0))

  -- `ret = drainq.get()`, with what the queue's thread and other callers do to it meanwhile.
  unfoldable pub end_drain : List (List (Section ℕ)) → WorkQueue S → WorkQueue S × Reply ℕ
  end_drain turns q =
      let c = get token false turns q.drainq in (record q { drainq = c.after }, c.reply)

  unfoldable pub unplug : WorkQueue S → WorkQueue S × ℤ
  unplug q =
      let (flags, plugged) = flag_test_and_clear q.flags plugged_bit in
      (record q { flags = flags }, if plugged then pos 0 else ealready)

  -- `stop` up to the `join`; `none` says that it goes on with `end_stop`.
  unfoldable pub begin_stop : WorkQueue S → WorkQueue S × Option ℤ
  begin_stop q =
      if not (flag_test q.flags started_bit)
      then (q, some ealready)
      else if not (flag_test q.flags plugged_bit)
      then (q, some ebusy)
      else (record q { flags = flag_set q.flags stop_bit; notifyq = post 0 q.notifyq }, none)

  -- `return _thread.join(timeout)`.
  unfoldable pub end_stop : ℤ → WorkQueue S → WorkQueue S × Ended ℤ
  end_stop timeout q = let (t, ended) = join timeout q.thread in (record q { thread = t }, ended)

  unfoldable pub plugged : WorkQueue S → Bool
  plugged q = not (bit_and q.flags 8 == 0)

  unfoldable pub get_flags : WorkQueue S → ℕ
  get_flags q = q.flags
