-- ===== src/Task/Lifecycle.antt =====
-- From `start` or `run` to `get`: what each call returns in each state, and what is never reached.
use Prim.Native.String.{String}
use ares_common.Common.{
  ℕ, ◌≡◌, ◌≢◌, refl, ap, Bool, false, Option, some, none, arith, if◌then◌else◌,
}
use ares_common.Common.Int.{ℤ, pos, int_eq, ms_max}
use ares_common.Task.{
  Task, ready, running, joined, no_state, done, Finish, value, exception, std_exception,
  other_exception, broken_promise, returned, threw, blocked, aborts, terminates, undefined,
  set_name, task_exception, system_error, set_essential, start, begin_run, end_run, execute, join,
  get, init_task, launch, join_thread, join_timed, run, future_get, ebusy, ealready, get_in,
}
use ares_common.Task.Invariant.{IsValid}

module _ {R : Type 0} where
  -- Whether a handler's exception takes the program down: it is a `std::exception` that leaves the
  -- handler of an essential task.
  abbrev pub is_fatal : Finish R → Task R → Bool
  is_fatal (value r) t = false
  is_fatal (exception (std_exception e)) t = t.essential
  is_fatal (exception (other_exception e)) t = false
  is_fatal (exception broken_promise) t = false

  -- A valid task that is not running can be started. Let its handler return, or throw something but not
  -- a `std::exception` out of an essential task, which takes the program down; what is no
  -- `std::exception` does not, out of an essential task either, although every uncaught exception of
  -- one is documented to. Then `join` returns 0 and `get` gives what the handler returned or threw,
  -- and leaves the task ready for another start.
  pub start-join-get :
      (t : Task R) (thread : ℕ) (f : Finish R)
      → IsValid t
      → t.state ≢ running
      → is_fatal f t ≡ false
      → let (started, e1) = start (some thread) t in
        let (executed, e2) = execute f started in
        let (j, e3) = join ms_max executed in
        let (u, e4) = get j in
        (e1 ≡ returned tt)
        × (e2 ≡ returned tt)
        × (e3 ≡ returned (pos 0))
        × (e4 ≡ future_get (done f))
        × (u.state ≡ ready)
        × (u.future ≡ no_state)
        × (u.joinable ≡ false)
        × (u.id ≡ some thread)
  unfolding start init_task launch execute join join_thread get
  start-join-get t thread f v idle safe = ground arith

  -- `run` of a valid task that is not running, whose handler does not take the program down, leaves
  -- the task joined, with no thread to join, and `get` then gives what the handler returned or threw
  -- and leaves the task ready.
  pub run-get :
      (t : Task R) (thread : ℕ) (f : Finish R)
      → IsValid t
      → t.state ≢ running
      → is_fatal f t ≡ false
      → let (ran, e1) = run thread f t in
        let (u, e2) = get ran in
        (e1 ≡ returned tt)
        × (ran.state ≡ joined)
        × ((join ms_max ran).1 ≡ returned ealready)
        × (e2 ≡ future_get (done f))
        × (u.state ≡ ready)
        × (u.id ≡ some thread)
  unfolding run begin_run init_task execute end_run join join_thread get
  run-get t thread f v idle safe = ground arith

  -- A handler's exception takes the program down exactly when it is fatal: an essential task does
  -- not abort on an exception that is no `std::exception`.
  pub execute-aborts :
      (f : Finish R) (t : Task R)
      → ((execute f t).1 ≡ (if is_fatal f t then aborts else returned tt))
        × ((execute f t).0.future ≡ (if is_fatal f t then t.future else done f))
  unfolding execute
  execute-aborts (value r) t = (refl, refl)
  execute-aborts (exception (std_exception e)) t = ground arith
  execute-aborts (exception (other_exception e)) t = (refl, refl)
  execute-aborts (exception broken_promise) t = (refl, refl)

  -- On a valid task `start` terminates nothing, `get` neither blocks nor reads
  -- a future without a state, and `join` for ever does not read the future at all.
  pub safe_calls :
      (t : Task R) (thread : Option ℕ)
      → IsValid t
      → ((start thread t).1 ≢ terminates)
        × ((get t).1 ≢ undefined)
        × ((get t).1 ≢ blocked)
        × ((join ms_max t).1 ≢ undefined)
  unfolding start init_task launch get join join_thread
  safe_calls t thread v = (ground arith, ground arith, ground arith, ground arith)

  -- A timed `join` of a valid task that is ready to be started reads a future without a state, whatever
  -- its timeout: it does not report that the task was not running.
  pub join_ready :
      (t : Task R) (timeout : ℤ)
      → IsValid t
      → t.state ≡ ready
      → int_eq timeout ms_max ≡ false
      → (join timeout t).1 ≡ undefined
  unfolding join join_timed
  join_ready t timeout v idle timed = ground arith

  get_running :
      (t : Task R)
      → t.state ≡ running
      → get t ≡ (t, threw (task_exception "Join task before getting the result"))
  unfolding get
  get_running t busy = ap (λ s. get_in s t) busy

  -- While a task runs, `set_name` and `set_essential` return -EBUSY, and `start`, `run` and `get`
  -- throw a task exception; none of them changes the task.
  pub running_refuses :
      (t : Task R) (s : String) (b : Bool) (thread : Option ℕ) (caller : ℕ) (f : Finish R)
      → t.state ≡ running
      → (set_name s t ≡ (t, ebusy))
        × (set_essential b t ≡ (t, ebusy))
        × (start thread t ≡ (
          t,
          threw (task_exception "Cannot run/start a task that is already in the `run` state."),
        ))
        × (run caller f t ≡ (
          t,
          threw (task_exception "Cannot run/start a task that is already in the `run` state."),
        ))
        × (get t ≡ (t, threw (task_exception "Join task before getting the result")))
  unfolding set_name set_essential start run begin_run init_task
  running_refuses t s b thread caller f busy =
      (ground arith, ground arith, ground arith, ground arith, get_running t busy)

  -- When the thread of a `start` of a valid task that is not running cannot be created, the task stays in its running state with no
  -- thread: another `start` refuses, `get` refuses, and `join` for ever returns -EALREADY, and
  -- none of them changes the task.
  pub failed_start_sticks :
      (t : Task R) (thread : Option ℕ)
      → IsValid t
      → t.state ≢ running
      → let (u, e) = start none t in
        (e ≡ threw system_error)
        × (u.state ≡ running)
        × ((start thread u).0 ≡ u)
        × ((get u).0 ≡ u)
        × (join ms_max u ≡ (u, returned ealready))
  unfolding start init_task launch join join_thread
  failed_start_sticks t thread v idle = (
    ground arith,
    ground arith,
    ground arith,
    ap (λ p. p.0) (get_running (start none t).0 (ground arith)),
    ground arith,
  )
