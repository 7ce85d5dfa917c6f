-- ===== src/Task/Tests.antt =====
-- Each theorem on tasks at a task whose handler returns a number.
use ares_common.Common.{ℕ, ◌≡◌, refl, true, false, some, none, arith}
use ares_common.Common.Int.{pos, ms_max}
use ares_common.Task.{
  Task, ready, running, no_state, pending, value, returned, create, start, init_task, launch,
  execute, join, get,
}
use ares_common.Task.Invariant.{IsValid, here, next, starts, executes, joins, Reach-IsValid}
use ares_common.Task.Lifecycle.{start-join-get}

abbrev idle : Task ℕ
idle = record {
  essential = true;
  name = "t";
  future = no_state;
  joinable = false;
  id = none;
  state = ready;
}

abbrev busy : Task ℕ
busy = record idle { future = pending; joinable = true; id = some 7; state = running }

create-idle : create {R = ℕ} true ≡ returned (record idle { essential = false; name = "" })
unfolding create
create-idle = refl

idle-IsValid : IsValid idle
idle-IsValid = ground arith

busy-IsValid : IsValid busy
busy-IsValid = ground arith

Reach-IsValid_example : IsValid (join ms_max (execute (value 3) (start (some 7) idle).0).0).0
unfolding start init_task launch
Reach-IsValid_example = Reach-IsValid idle-IsValid (
    next (next (next here (starts (some 7) idle)) (executes (value 3) (start (some 7) idle).0 refl))
      (joins ms_max (execute (value 3) (start (some 7) idle).0).0))

start-join-get_example :
    let (started, e1) = start (some 7) idle in
    let (executed, e2) = execute (value 3) started in
    let (j, e3) = join ms_max executed in
    let (u, e4) = get j in
    (e1 ≡ returned tt)
    × (e2 ≡ returned tt)
    × (e3 ≡ returned (pos 0))
    × (e4 ≡ returned 3)
    × (u.state ≡ ready)
    × (u.future ≡ no_state)
    × (u.joinable ≡ false)
    × (u.id ≡ some 7)
start-join-get_example = start-join-get idle 7 (value 3) idle-IsValid (ground arith) refl
