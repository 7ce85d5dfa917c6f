-- ===== src/WorkQ/Trials.antt =====
-- The theorems on the loop of a queue's thread, on its destructor and on delayable items at concrete
-- worlds, over lists of addresses.
use ares_common.Common.{◌≡◌, refl, sym, append-nil, [], ◌∷◌, none, some, arith}
use ares_common.Common.Int.{pos}
use ares_common.Task.{other_exception, returned, ealready, blocked}
use ares_common.WorkQ.{World, set_work, set_queue}
use ares_common.WorkQ.Flags.{flag_test, flag_set, queued_bit, started_bit}
use ares_common.WorkQ.Main.{runs, begin_round}
use ares_common.WorkQ.Invariant.{IsValid, enqueue-IsValid}
use ares_common.WorkQ.Loop.{goes_on, stuck, left, round, work_queue_main}
use ares_common.WorkQ.Loop.Failure.{Abandons, Begins, LeavesRunning, throwing, handler_throws}
use ares_common.WorkQ.Loop.Service.{Uncanceled, IsHarmless, runs_in_order}
use ares_common.Common.{ℕ, replicate, true, ◌≤◌}
use ares_common.Sync.Semaphore.{take, forever}
use ares_common.Sync.Semaphore
use ares_common.WorkQ.Cancel.{flush}
use ares_common.WorkQ.Flush.Waits.{flush_lem}
use ares_common.WorkQ.Life.{destroy}
use ares_common.WorkQ.Life.Hangs.{throws-destroy}
use ares_common.WorkQ.Life.Tokens.{calm_turn}
use ares_common.WorkQ.Life.Drains.{drains_all}
use ares_common.WorkQ.Queue.{begin_drain}
use ares_common.WorkQ.Life.Ends.{stops, Stopped, destroy-Stopped}
use ares_common.WorkQ.Delayable.{WorkDelayable}
use ares_common.WorkQ.Tests.{lists, lists-IsNodeList, waiting_queue, waiting, waiting-IsValid}

-- Items 5 and 6 in the list of queue 2.
abbrev two : World lists
two =
    set_work 6 (record { flags = flag_set 0 queued_bit; queue = some 2; handler = 0 })
      (set_queue 2 (record waiting_queue { pending = 5 ∷ 6 ∷ [] }) waiting)

two-IsValid : IsValid two
unfolding flag_test
two-IsValid =
    enqueue-IsValid lists-IsNodeList waiting-IsValid 6 2
      (record waiting_queue { pending = 5 ∷ 6 ∷ [] }) refl refl

two-Uncanceled : Uncanceled two
unfolding flag_test flag_set
two-Uncanceled n = ground arith

calm-IsHarmless : IsHarmless {S = lists} 2 calm_turn
calm-IsHarmless = record {
  returns = refl;
  valid = λ w v. v;
  calm = λ w c. c;
  grown = λ w v. ([], sym (append-nil _));
  handlers = λ w n. refl;
}

-- Item 6 runs after item 5.
runs_in_order_example :
    let (u, stage) = work_queue_main 2 (calm_turn ∷ []) two in
    (stage ≡ goes_on) × ((begin_round 2 u).1 ≡ runs 6 0)
runs_in_order_example =
    runs_in_order lists-IsNodeList 2 6 (calm_turn ∷ []) (5 ∷ []) [] two (calm-IsHarmless, tt) refl
      two-IsValid two-Uncanceled refl

-- A handler that makes item 8 before it throws.
abbrev makes_eight : World lists → World lists
makes_eight = set_work 8 (record { flags = 0; queue = none; handler = 1 })

eight-LeavesRunning : LeavesRunning {S = lists} 2 5 makes_eight
eight-LeavesRunning = record {
  running = λ w. refl;
  started = λ w. refl;
  busy = λ w. refl;
  thread = λ w. refl;
}

handler_throws_example :
    let begun = begin_round 2 two in
    let r = round 2 (throwing makes_eight (other_exception 4)) two in
    Begins 2 5 (6 ∷ []) two begun
    × Abandons 2 5 (two.queues 2).thread (makes_eight begun.0) r
    × (flag_test (r.0.queues 2).flags started_bit ≡ flag_test (two.queues 2).flags started_bit)
handler_throws_example =
    handler_throws lists-IsNodeList 2 5 (6 ∷ []) makes_eight (other_exception 4) two refl
      eight-LeavesRunning

throws-destroy_example :
    let (u, stage) = round 2 (throwing makes_eight (other_exception 4)) two in
    (stage ≡ left (returned tt)) × ((destroy (λ w. w) (λ w. w) 2 u).1 ≡ blocked)
unfolding flag_test
throws-destroy_example =
    throws-destroy lists-IsNodeList 2 5 (6 ∷ []) makes_eight (other_exception 4) two refl
      eight-LeavesRunning (λ w. refl) refl refl refl (λ w. w) (λ w. w) (λ w. refl)

destroy-Stopped_example :
    let serves = drains_all stuck 2 (5 ∷ 6 ∷ []) in
    let drain_asked = set_queue 2 (begin_drain true (two.queues 2)).0 two in
    let (u, ended) = destroy (λ v. (serves v).0) (stops (serves drain_asked).1 2) 2 two in
    (ended ≡ returned ealready) × Stopped (u.queues 2)
unfolding flag_test
destroy-Stopped_example =
    destroy-Stopped lists-IsNodeList true 2 two two-IsValid two-Uncanceled refl refl (omega arith)
      (omega arith)

-- Item 5 as a delayable one.
abbrev delayed_five : WorkDelayable
delayed_five = record { work = 5; timeout = pos 10; queue = none }

-- Item 6 is flushed while item 5 is before it.
flush_lem_example :
    (u : World lists) × (flush 0 6 100 two ≡ some (u, true))
    × ((k : ℕ)
        → k ≤ 2
        → let v = (work_queue_main 2 (replicate k calm_turn) u).0 in
          (take 1 forever [] [] (v.flushers 100)).outcome ≡ Semaphore.blocked)
    × (let v = (work_queue_main 2 (calm_turn ∷ calm_turn ∷ []) u).0 in
        let (t, stage) = round 2 calm_turn v in
        (stage ≡ goes_on)
        × ((take 1 forever [] [] (t.flushers 100)).outcome ≡ Semaphore.returned tt))
unfolding flag_test flag_set
flush_lem_example =
    flush_lem lists-IsNodeList 0 6 100 2 (5 ∷ []) [] two two-IsValid two-Uncanceled refl refl refl
      refl
