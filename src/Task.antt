-- ===== src/Task.antt =====
-- ares::Task<R(Args...)> of include/ares/work-q/task.hpp: one handler, run by a thread of its own
-- (`start`) or by the caller (`run`), with its result kept in a future until `get`.
pub mod Invariant
pub mod Lifecycle
mod Tests
use Prim.Native.String.{String}
use ares_common.Common.{ℕ, Bool, true, false, not, Option, none, some, if◌then◌else◌}
use ares_common.Common.Int.{ℤ, pos, neg, int_eq, ms_max}

-- What the handler may throw, and what a packaged task leaves that is destroyed before it ran.
pub data Thrown : Type 0 where
  std_exception : ℕ → Thrown
  other_exception : ℕ → Thrown
  broken_promise : Thrown

-- `TaskException`, the `std::system_error` of a thread that cannot be created, the handler's own.
pub data Exception : Type 0 where
  task_exception : String → Exception
  system_error : Exception
  rethrown : Thrown → Exception

-- How a call ended. `aborts` is `std::abort`, `terminates` is `std::terminate`, and `undefined` is
-- a use of a future that has no shared state.
pub data Ended (A : Type 0) : Type 0 where
  returned : A → Ended A
  threw : Exception → Ended A
  blocked aborts terminates undefined : Ended A

-- What running the handler came to.
pub data Finish (R : Type 0) : Type 0 where
  value : R → Finish R
  exception : Thrown → Finish R

pub data Future (R : Type 0) : Type 0 where
  no_state : Future R
  pending : Future R
  done : Finish R → Future R

pub data State : Type 0 where
  ready running joined : State

-- `joinable` is that of `_thread`. `id` is `none` for the id of no thread.
pub record Task (R : Type 0) : Type 0 where
  pub essential : Bool
  pub name : String
  pub future : Future R
  pub joinable : Bool
  pub id : Option ℕ
  pub state : State

abbrev pub ebusy : ℤ
ebusy = neg 16

abbrev pub ealready : ℤ
ealready = neg 114

abbrev pub etimedout : ℤ
etimedout = neg 110

abbrev pub is_running : State → Bool
is_running ready = false
is_running running = true
is_running joined = false

module _ {R : Type 0} where
  fresh : Task R
  fresh = record {
    essential = false;
    name = "";
    future = no_state;
    joinable = false;
    id = none;
    state = ready;
  }

  -- The constructor; the argument says whether the handler is callable.
  unfoldable pub create : Bool → Ended (Task R)
  unfolding fresh
  create true = returned fresh
  create false = threw (task_exception "Task handler cannot be `nullptr`")

  unfoldable pub set_name : String → Task R → Task R × ℤ
  set_name new_name t =
      if is_running t.state then (t, ebusy) else (record t { name = new_name }, pos 0)

  unfoldable pub get_name : Task R → String
  get_name t = t.name

  unfoldable pub set_essential : Bool → Task R → Task R × ℤ
  set_essential essential_task t =
      if is_running t.state then (t, ebusy) else (record t { essential = essential_task }, pos 0)

  unfoldable pub get_essential : Task R → Bool
  get_essential t = t.essential

  unfoldable pub get_state : Task R → State
  get_state t = t.state

  unfoldable pub get_id : Task R → Option ℕ
  get_id t = t.id

  -- `_init_task`: a new packaged task and its future.
  unfoldable pub init_task : Task R → Task R × Ended (Unit {0})
  init_task t =
      if is_running t.state
      then (t, threw (task_exception "Cannot run/start a task that is already in the `run` state."))
      else (record t { state = running; future = pending }, returned tt)

  -- `_thread = std::thread(std::move(_task)); _id = _thread.get_id()`. `none` is a thread that
  -- cannot be created; assigning to a thread that is joinable terminates the program.
  unfoldable pub launch : Option ℕ → Task R → Task R × Ended (Unit {0})
  launch none t = (record t { future = done (exception broken_promise) }, threw system_error)
  launch (some thread) t =
      if t.joinable
      then (t, terminates)
      else (record t { joinable = true; id = some thread }, returned tt)

  -- Sequencing after `_init_task`.
  abbrev pub then_do :
      Task R × Ended (Unit {0}) → (Task R → Task R × Ended (Unit {0})) → Task R × Ended (Unit {0})
  then_do (t, returned x) next = next t
  then_do (t, threw e) next = (t, threw e)
  then_do (t, blocked) next = (t, blocked)
  then_do (t, aborts) next = (t, aborts)
  then_do (t, terminates) next = (t, terminates)
  then_do (t, undefined) next = (t, undefined)

  unfoldable pub start : Option ℕ → Task R → Task R × Ended (Unit {0})
  start thread t = then_do (init_task t) (launch thread)

  -- The packaged task runs the wrapper: the handler, with a `catch` of `std::exception` that
  -- aborts if the task is essential. Anything else that is thrown goes into the future.
  unfoldable pub execute : Finish R → Task R → Task R × Ended (Unit {0})
  execute (value r) t = (record t { future = done (value r) }, returned tt)
  execute (exception (std_exception e)) t =
      if t.essential
      then (t, aborts)
      else (record t { future = done (exception (std_exception e)) }, returned tt)
  execute (exception (other_exception e)) t =
      (record t { future = done (exception (other_exception e)) }, returned tt)
  execute (exception broken_promise) t =
      (record t { future = done (exception broken_promise) }, returned tt)

  -- `run` in the calling thread: what it does before the handler, and after it.
  unfoldable pub begin_run : ℕ → Task R → Task R × Ended (Unit {0})
  begin_run thread t = then_do (init_task t) (λ t'. (record t' { id = some thread }, returned tt))

  unfoldable pub end_run : Task R → Task R × Ended (Unit {0})
  end_run t = (record t { state = joined }, returned tt)

  unfoldable pub run : ℕ → Finish R → Task R → Task R × Ended (Unit {0})
  run thread f t = then_do (then_do (begin_run thread t) (execute f)) end_run

  -- What the task's own thread does while a caller waits for it: it ends, or it does not yet.
  abbrev pub is_done : Future R → Bool
  is_done no_state = false
  is_done pending = false
  is_done (done f) = true

  -- `_thread.join()` returns when the thread has ended.
  unfoldable pub join_thread : Task R → Task R × Ended ℤ
  join_thread t =
      if t.joinable
      then if is_done t.future
        then (record t { joinable = false; state = joined }, returned (pos 0))
        else (t, blocked)
      else (t, returned ealready)

  -- `_future.wait_for(timeout)`, then `_join()` if the result is there.
  unfoldable pub join_timed : Future R → Task R → Task R × Ended ℤ
  join_timed no_state t = (t, undefined)
  join_timed pending t = (t, returned etimedout)
  join_timed (done f) t = join_thread t

  -- `join`, where the task's thread has got as far as `t` when the wait is over.
  unfoldable pub join : ℤ → Task R → Task R × Ended ℤ
  join timeout t = if int_eq timeout ms_max then join_thread t else join_timed t.future t

  -- `_future.get()`.
  abbrev pub future_get : Future R → Ended R
  future_get no_state = undefined
  future_get pending = blocked
  future_get (done (value r)) = returned r
  future_get (done (exception e)) = threw (rethrown e)

  abbrev pub get_in : State → Task R → Task R × Ended R
  get_in ready t =
      (t, threw (task_exception "Cannot get result from task that has not been started"))
  get_in running t = (t, threw (task_exception "Join task before getting the result"))
  get_in joined t = (record t { state = ready; future = no_state }, future_get t.future)

  unfoldable pub get : Task R → Task R × Ended R
  get t = get_in t.state t

  -- The destructor.
  unfoldable pub destroy : Task R → Task R × Ended ℤ
  destroy t = join ms_max t
