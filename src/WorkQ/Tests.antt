-- ===== src/WorkQ/Tests.antt =====
-- Each theorem on work queues at concrete worlds, over lists of addresses.
use ares_common.Common.{
  ℕ, ◌≡◌, ◌⊎◌, refl, true, false, List, [], ◌∷◌, ◌++◌, Option, none, some, ◌==◌, arith, length,
}
use ares_common.Common.Int.{pos}
use ares_common.Queue.Bounded.{BoundedQueue}
use ares_common.Task.{Task, pending, running, ebusy}
use ares_common.WorkQ.{WorkQueue, World, set_work, set_queue}
use ares_common.WorkQ.Flags.{flag_test, flag_set, queued_bit}
use ares_common.WorkQ.Nodes.{NodeList, IsNodeList, count, insert_after, erase, split}
use ares_common.WorkQ.Submit.{submit_locked, admission}
use ares_common.WorkQ.Submit.Laws.{submit_twice}
use ares_common.WorkQ.Cancel.{cancel}
use ares_common.WorkQ.Cancel.Laws.{cancel_lem}
use ares_common.WorkQ.Queue.{begin_drain}
use ares_common.WorkQ.Main.{begin_round, finish}
use ares_common.WorkQ.Invariant.{IsValid, enqueue-IsValid}
use ares_common.WorkQ.Steps.{Run, Step, begins, finishes, drains, step, Run-IsValid}
use ares_common.WorkQ.Steps

-- The list of nodes as a list of their addresses.
abbrev pub lists : NodeList
lists = record {
  Nodes = List ℕ;
  init = [];
  is_empty = λ l. length l == 0;
  append = λ l n. l ++ n ∷ [];
  prepend = λ l n. n ∷ l;
  insert = λ l prev n. insert_after prev n l;
  get = split;
  remove = λ l prev n. erase n l;
  find_and_remove = λ l n. erase n l;
  nodes = λ l. l;
}

pub lists-IsNodeList : IsNodeList lists
lists-IsNodeList = record {
  nodes-init = refl;
  is_empty_lem = λ l. refl;
  nodes-append = λ l n h. refl;
  nodes-prepend = λ l n h. refl;
  nodes-insert = λ l prev n h. refl;
  get_lem = λ l. refl;
  nodes-find_and_remove = λ l n. refl;
}

abbrev pub no_tokens : BoundedQueue ℕ
no_tokens = record {
  buffer = 0 ∷ [];
  producer_index = 0;
  consumer_index = 0;
  size = 0;
  not_empty = 0;
  space_available = 0;
}

abbrev pub busy_thread : Task (Unit {0})
busy_thread = record {
  essential = false;
  name = "q";
  future = pending;
  joinable = true;
  id = some 7;
  state = running;
}

-- Queues that are started and empty, and items that were never submitted.
abbrev pub quiet_queue : WorkQueue lists
quiet_queue = record {
  thread = busy_thread;
  pending = [];
  notifyq = no_tokens;
  drainq = no_tokens;
  flags = 1;
}

abbrev pub quiet : World lists
quiet = record {
  works = λ n. record { flags = 0; queue = none; handler = 0 };
  queues = λ q. quiet_queue;
  cancellers = λ c. record { work = 0; sem = no_tokens };
  flushers = λ f. no_tokens;
  pending_cancels = [];
}

pub quiet-IsValid : IsValid quiet
unfolding flag_test
quiet-IsValid = record {
  plain = λ n. refl;
  counted = λ n q. refl;
  owned = λ n h. absurd (ground (arith, h));
}

-- Item 5 in the list of queue 2.
abbrev pub waiting_queue : WorkQueue lists
waiting_queue = record quiet_queue { pending = 5 ∷ [] }

abbrev pub waiting : World lists
waiting =
    set_work 5 (record { flags = flag_set 0 queued_bit; queue = some 2; handler = 0 })
      (set_queue 2 waiting_queue quiet)

pub waiting-IsValid : IsValid waiting
unfolding flag_test
waiting-IsValid = enqueue-IsValid lists-IsNodeList quiet-IsValid 5 2 waiting_queue refl refl

-- The queue's thread runs item 5 while a drain is asked for.
Run-IsValid_example :
    IsValid
      (finish 2 5 (begin_round 2 (set_queue 2 (begin_drain true (waiting.queues 2)).0 waiting)).0).0
Run-IsValid_example =
    Run-IsValid lists-IsNodeList waiting-IsValid
      (step (step (step Steps.start (drains true 2)) (begins 2)) (finishes 2 5))

submit_twice_example :
    (u : World lists) × (submit_locked 9 5 (some 2) quiet ≡ some (u, some 2, pos 1))
    × ((u.queues 2).pending ≡ 5 ∷ [])
    × ((another : ℕ) (elsewhere : Option ℕ)
        → submit_locked another 5 elsewhere u ≡ some (u, none, pos 0))
unfolding flag_test admission
submit_twice_example =
    submit_twice lists-IsNodeList quiet-IsValid 9 5 (some 2) 2 refl refl refl refl

cancel_lem_example :
    (u : World lists) × (r : ℕ) × (cancel 5 waiting ≡ some (u, r))
    × ((p : ℕ) → count 5 (u.queues p).pending ≡ 0)
    × ((r ≡ 0)
        ⊎ ((caller : ℕ) (given : Option ℕ)
            → submit_locked caller 5 given u ≡ some (u, none, ebusy)))
unfolding flag_test flag_set
cancel_lem_example = cancel_lem lists-IsNodeList waiting-IsValid 5 2 refl refl

-- A drain of queue 2, which has one item.
abbrev draining : World lists
draining = set_queue 2 (record waiting_queue { flags = 5 }) waiting
