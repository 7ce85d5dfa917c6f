-- ===== src/WorkQ/Life.antt =====
-- A queue from its constructor to its destructor, with the system's queue, in src/work-q/work_q.cpp;
-- a call that waits takes what the other threads do until its wait is over.
pub mod Hangs
pub mod Tokens
pub mod Answers
pub mod Drains
pub mod Ends
use ares_common.Common.{ℕ, Bool, true, false, [], Option, none, some}
use ares_common.Common.Int.{ℤ, pos, ms_max}
use ares_common.Queue.{Reply}
use ares_common.Queue
use ares_common.Queue.Bounded.{init}
use ares_common.Task.{Task, Ended, returned, threw, blocked, aborts, terminates, undefined, create}
use ares_common.Task
use ares_common.WorkQ.{Work, WorkQueue, World, set_queue, token}
use ares_common.WorkQ.Nodes.{NodeList}
use ares_common.WorkQ.Submit.{submit}
use ares_common.WorkQ.Queue.{Config, start, begin_drain, end_drain, begin_stop, end_stop}

-- `Work::Work`.
unfoldable pub new_work : ℕ → Work
new_work handler = record { flags = 0; queue = none; handler = handler }

-- The configuration of the system's queue.
abbrev pub system_config : Config
system_config = record { name = some "System Work Queue"; no_yield = false; essential = true }

-- The code of `drainq.get()` as an `int`.
abbrev pub code_of : Reply ℕ → Reply ℤ
code_of (Queue.returned x) = Queue.returned (pos x)
code_of (Queue.threw r) = Queue.threw r
code_of Queue.blocked = Queue.blocked

module _ {S : NodeList} where
  abbrev created : Ended (Task (Unit {0})) → Ended (WorkQueue S)
  created (returned t) = returned (record {
    thread = t;
    pending = S.init;
    notifyq = init token;
    drainq = init token;
    flags = 0;
  })
  created (threw e) = threw e
  created blocked = blocked
  created aborts = aborts
  created terminates = terminates
  created undefined = undefined

  -- `WorkQ::WorkQ`.
  unfoldable pub new_queue : Ended (WorkQueue S)
  new_queue = created (create true)

  -- `PreMainCaller`.
  unfoldable pub start_system : Option ℕ → WorkQueue S → WorkQueue S × Ended (Unit {0})
  start_system thread q = start thread (some system_config) q

  -- `work_submit`; `system` is the address of `sys_work_q`.
  unfoldable pub work_submit : ℕ → ℕ → Option ℕ → World S → Option (World S × Option ℕ × ℤ)
  work_submit caller system work w = submit caller system work w

  -- `queue_drain`.
  abbrev pub drain_wait :
      (World S → World S) → ℕ → World S → WorkQueue S × Option ℤ → World S × Reply ℤ
  drain_wait others queue w (q, some code) = (set_queue queue q w, Queue.returned code)
  drain_wait others queue w (q, none) =
      let u = others (set_queue queue q w) in
      let (p, reply) = end_drain [] (u.queues queue) in (set_queue queue p u, code_of reply)

  unfoldable pub queue_drain : Bool → (World S → World S) → ℕ → World S → World S × Reply ℤ
  queue_drain plug others queue w = drain_wait others queue w (begin_drain plug (w.queues queue))

  -- `stop`.
  abbrev pub stop_wait :
      ℤ → (World S → World S) → ℕ → World S → WorkQueue S × Option ℤ → World S × Ended ℤ
  stop_wait timeout others queue w (q, some code) = (set_queue queue q w, returned code)
  stop_wait timeout others queue w (q, none) =
      let u = others (set_queue queue q w) in
      let (p, ended) = end_stop timeout (u.queues queue) in (set_queue queue p u, ended)

  unfoldable pub stop : ℤ → (World S → World S) → ℕ → World S → World S × Ended ℤ
  stop timeout others queue w = stop_wait timeout others queue w (begin_stop (w.queues queue))

  -- The members are destroyed after the destructor's body.
  unfoldable pub destroy_thread : ℕ → World S → World S × Ended ℤ
  destroy_thread queue w =
      let q = w.queues queue in
      let (t, ended) = Task.destroy q.thread in (set_queue queue (record q { thread = t }) w, ended)

  -- A destructor must not throw.
  abbrev pub after_stop : ℕ → World S × Ended ℤ → World S × Ended ℤ
  after_stop queue (w, returned code) = destroy_thread queue w
  after_stop queue (w, threw e) = (w, terminates)
  after_stop queue (w, blocked) = (w, blocked)
  after_stop queue (w, aborts) = (w, aborts)
  after_stop queue (w, terminates) = (w, terminates)
  after_stop queue (w, undefined) = (w, undefined)

  abbrev pub after_drain : (World S → World S) → ℕ → World S × Reply ℤ → World S × Ended ℤ
  after_drain others queue (w, Queue.returned code) = after_stop queue (stop ms_max others queue w)
  after_drain others queue (w, Queue.threw r) = (w, terminates)
  after_drain others queue (w, Queue.blocked) = (w, blocked)

  -- `WorkQ::~WorkQ`, with what other threads do during the wait of `queue_drain(true)` and during
  -- that of `stop()`.
  unfoldable pub destroy :
      (World S → World S) → (World S → World S) → ℕ → World S → World S × Ended ℤ
  destroy draining stopping queue w = after_drain stopping queue (queue_drain true draining queue w)
