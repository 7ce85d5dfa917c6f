-- ===== src/Queue/Tests.antt =====
-- Runs of both queues, and each theorem on them at a concrete queue.
use ares_common.Common.{ℕ, ◌≡◌, refl, true, false, List, [], ◌∷◌, ◌++◌, arith, add_size, sub_size}
use ares_common.Common.Int.{pos}
use ares_common.Queue.{wait, wait_for, returned, threw, timeout_reason, queue_empty, queue_timeout}
use ares_common.Queue.Bounded.{
  get, Template, IsTemplate, BoundedQueue, Section, puts, forces, gets, clears, init, sections,
  section, put_item, get_item, put, put_for, get_for,
}
use ares_common.Queue.Bounded.Fifo
use ares_common.Queue.Bounded.Invariant.{IsValid, sections-IsValid}
use ares_common.Queue.Bounded.Refine.{contents, sections_refine}
use ares_common.Queue.Bounded.Calls.{
  view_call, put_refines, get_refines, put_for_refines, get_for_refines,
}
use ares_common.Queue.Bounded.History.{all_added, all_removed, sections_history}
use ares_common.Queue.Unbounded
use ares_common.Queue.Unbounded.Laws.{IsCounted}

-- A queue of two numbers that overwrites, and one that does not.
abbrev rolling : Template ℕ
rolling = record { default = 0; moved = λ x. 0; max_size = 2; overwrite = true }

abbrev strict : Template ℕ
strict = record { default = 0; moved = λ x. 0; max_size = 2; overwrite = false }

rolling_ok : IsTemplate rolling
rolling_ok = record { positive = omega arith; small = omega arith }

strict_ok : IsTemplate strict
strict_ok = record { positive = omega arith; small = omega arith }

-- After these the queue is full and its items lie round the end of the array.
abbrev script : List (Section ℕ)
script = puts 7 ∷ puts 8 ∷ gets ∷ puts 9 ∷ []

abbrev wrapped : BoundedQueue ℕ
wrapped = record {
  buffer = 9 ∷ 8 ∷ [];
  producer_index = 1;
  consumer_index = 1;
  size = 2;
  not_empty = 3;
  space_available = 1;
}

abbrev fresh : BoundedQueue ℕ
fresh = record {
  buffer = 0 ∷ 0 ∷ [];
  producer_index = 0;
  consumer_index = 0;
  size = 0;
  not_empty = 0;
  space_available = 0;
}

rolling-IsValid : IsValid rolling wrapped
rolling-IsValid = record {
  storage = refl;
  producer_in = omega arith;
  consumer_in = omega arith;
  size_in = omega arith;
  linked = refl;
}

strict-IsValid : IsValid strict wrapped
strict-IsValid = record {
  storage = refl;
  producer_in = omega arith;
  consumer_in = omega arith;
  size_in = omega arith;
  linked = refl;
}

fresh-IsValid : IsValid strict fresh
fresh-IsValid = record {
  storage = refl;
  producer_in = omega arith;
  consumer_in = omega arith;
  size_in = omega arith;
  linked = refl;
}

sections-script : sections strict script (init strict) ≡ wrapped
unfolding init sections section put_item add_size get_item sub_size
sections-script = refl

contents-wrapped : contents strict wrapped ≡ 8 ∷ 9 ∷ []
contents-wrapped = refl

put-full_times_out :
    (put_for strict 5 (pos 10) true ([] ∷ []) [] wrapped).reply ≡ threw queue_timeout
unfolding put_for wait_for wait timeout_reason sections
put-full_times_out = refl

-- The moved-from place keeps what the move left.
abbrev others : List (Section ℕ)
others = gets ∷ forces 4 ∷ puts 5 ∷ clears ∷ puts 6 ∷ []

sections_refine_example :
    contents rolling (sections rolling others wrapped)
    ≡ Fifo.sections rolling others (contents rolling wrapped)
sections_refine_example = sections_refine rolling_ok others wrapped rolling-IsValid

sections-IsValid_example : IsValid rolling (sections rolling others wrapped)
sections-IsValid_example = sections-IsValid rolling_ok others wrapped rolling-IsValid

get_refines_example :
    view_call (contents strict) (get strict true ((gets ∷ gets ∷ []) ∷ (puts 4 ∷ []) ∷ []) wrapped)
    ≡ Fifo.get strict true ((gets ∷ gets ∷ []) ∷ (puts 4 ∷ []) ∷ []) (contents strict wrapped)
get_refines_example =
    get_refines strict_ok strict-IsValid true ((gets ∷ gets ∷ []) ∷ (puts 4 ∷ []) ∷ [])

put_refines_example :
    view_call (contents strict) (put strict 5 true ((puts 1 ∷ []) ∷ (gets ∷ []) ∷ []) wrapped)
    ≡ record { after = 9 ∷ 5 ∷ []; calls = 2; reply = returned tt }
unfolding Fifo.put wait Fifo.sections Fifo.section Fifo.force_item
put_refines_example = put_refines strict_ok strict-IsValid true ((puts 1 ∷ []) ∷ (gets ∷ []) ∷ []) 5

-- With `overwrite` a timed `put` drops the oldest item, 8.
put_for_refines_example :
    view_call (contents rolling) (put_for rolling 5 (pos 10) true ([] ∷ []) [] wrapped)
    ≡ record { after = 9 ∷ 5 ∷ []; calls = 3; reply = returned tt }
unfolding Fifo.put_for wait_for wait Fifo.sections Fifo.section Fifo.force_item
put_for_refines_example = put_for_refines rolling_ok rolling-IsValid true ([] ∷ []) [] (pos 10) 5

get_for_refines_example :
    view_call (contents strict) (get_for strict (pos 0) false [] [] fresh)
    ≡ record { after = []; calls = 0; reply = threw queue_empty }
unfolding Fifo.get_for wait_for wait Fifo.sections timeout_reason
get_for_refines_example = get_for_refines strict_ok fresh-IsValid false [] [] (pos 0)

sections_history_example :
    contents rolling wrapped ++ all_added rolling others wrapped
    ≡ all_removed rolling others wrapped ++ contents rolling (sections rolling others wrapped)
sections_history_example = sections_history rolling_ok others wrapped rolling-IsValid

abbrev three_items : Unbounded.Queue ℕ
three_items = record { buffer = 4 ∷ 5 ∷ 6 ∷ []; size = 3; not_empty = 3 }

three_items-IsCounted : IsCounted 100 three_items
three_items-IsCounted = record { counted = refl; within = omega arith }
