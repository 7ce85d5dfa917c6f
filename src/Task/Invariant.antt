-- ===== src/Task/Invariant.antt =====
-- What always holds of a Task, whatever is called in whatever order.
use Prim.Native.String.{String}
use ares_common.Common.{ℕ, ◌≡◌, ◌≢◌, Bool, true, false, Option, arith}
use ares_common.Common.Int.{ℤ}
use ares_common.Task.{
  Task, ready, running, joined, no_state, pending, Finish, returned, create, set_name,
  set_essential, start, begin_run, end_run, execute, join, get, is_done, init_task, launch,
  join_thread, join_timed,
}

pub record IsValid {R : Type 0} (t : Task R) : Type 0 where
  pub thread_runs : t.joinable ≡ true → t.state ≡ running
  pub fresh_future : t.state ≡ ready → t.future ≡ no_state
  pub live_future : t.state ≢ ready → t.future ≢ no_state
  pub joined_done : t.state ≡ joined → is_done t.future ≡ true

-- What any thread may do to a task: a call, or the task's thread running the handler, once. A
-- `run` ends after its handler has run.
pub data Step {R : Type 0} : Task R → Task R → Type 0 where
  names : (s : String) (t : Task R) → Step t (set_name s t).0
  marks : (b : Bool) (t : Task R) → Step t (set_essential b t).0
  starts : (thread : Option ℕ) (t : Task R) → Step t (start thread t).0
  begins : (thread : ℕ) (t : Task R) → Step t (begin_run thread t).0
  executes : (f : Finish R) (t : Task R) → t.future ≡ pending → Step t (execute f t).0
  ends :
      (t : Task R)
      → t.state ≡ running
      → t.joinable ≡ false
      → is_done t.future ≡ true
      → Step t (end_run t).0
  joins : (timeout : ℤ) (t : Task R) → Step t (join timeout t).0
  gets : (t : Task R) → Step t (get t).0

pub data Reach {R : Type 0} (t : Task R) : Task R → Type 0 where
  here : Reach t t
  next : {u v : Task R} → Reach t u → Step u v → Reach t v

module _ {R : Type 0} where
  create-IsValid : (t : Task R) → create true ≡ returned t → IsValid t
  unfolding create
  create-IsValid t e = ground arith

  start-IsValid : (thread : Option ℕ) (t : Task R) → IsValid t → IsValid (start thread t).0
  unfolding start init_task launch
  start-IsValid thread t v = ground arith

  join_thread-IsValid : (t : Task R) → IsValid t → IsValid (join_thread t).0
  unfolding join_thread
  join_thread-IsValid t v = ground arith

  join-IsValid : (timeout : ℤ) (t : Task R) → IsValid t → IsValid (join timeout t).0
  unfolding join join_timed
  join-IsValid timeout t v = ground (arith, join_thread-IsValid t v)

  -- Every step keeps the invariant.
  pub Step-IsValid : {t u : Task R} → Step t u → IsValid t → IsValid u
  unfolding set_name set_essential begin_run init_task execute end_run get
  Step-IsValid (names s t) v = ground arith
  Step-IsValid (marks b t) v = ground arith
  Step-IsValid (starts thread t) v = start-IsValid thread t v
  Step-IsValid (begins thread t) v = ground arith
  Step-IsValid (executes f t h) v = ground arith
  Step-IsValid (ends t h k e) v = ground arith
  Step-IsValid (joins timeout t) v = join-IsValid timeout t v
  Step-IsValid (gets t) v = ground arith

  -- Whatever is called in whatever order keeps a valid task valid: a thread is joinable only while the
  -- task runs, its future has a shared state exactly when the task is not ready, and a joined task's
  -- result is there.
  pub Reach-IsValid : {t u : Task R} → IsValid t → Reach t u → IsValid u
  Reach-IsValid v here = v
  Reach-IsValid v (next r s) = Step-IsValid s (Reach-IsValid v r)
