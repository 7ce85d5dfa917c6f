-- ===== src/WorkQ/Life/Tokens.antt =====
-- The tokens that wake the thread of a queue and that answer a drain, in src/work-q/work_q.cpp.
use ares_common.Common.{
  ℕ, ◌≡◌, ◌≤◌, refl, true, false, [], get_or, Bool, if-holds, add_size_lem, sub_size, arith,
}
use ares_common.Common.Int.{ms_zero}
use ares_common.Queue
use ares_common.Queue.{wait, wait_for, Reply}
use ares_common.Queue.Bounded.{
  BoundedQueue, get, put_nonblocking, put_for, sections, force_item, put_item, end_put_for,
  has_space, get_item,
}
use ares_common.WorkQ.{token, post}
use ares_common.WorkQ.Nodes.{NodeList}
use ares_common.WorkQ.Loop.{completes, Turn, Stage, goes_on, stuck}

-- A turn in which the handler does nothing and returns.
abbrev pub calm_turn : {S : NodeList} → Turn S
calm_turn = record { effect = λ w. w; handled = completes }

size-force_item : (x : ℕ) (d : BoundedQueue ℕ) → d.size ≤ 1 → (force_item token x d).size ≡ 1
unfolding force_item put_item
size-force_item x d h = ground (arith, add_size_lem d.size 1 (omega arith))

size-end_put_for :
    (x : ℕ) (d : BoundedQueue ℕ) (calls : ℕ) (held : Bool)
    → d.size ≤ 1
    → (end_put_for token x ms_zero (record { state = d; calls = calls; held = held })).after.size
      ≡ 1
size-end_put_for x d calls true h = size-force_item x d h
size-end_put_for x d calls false h = size-force_item x d h

pub size-post : (x : ℕ) (d : BoundedQueue ℕ) → d.size ≤ 1 → (post x d).size ≡ 1
unfolding post put_nonblocking put_for wait_for wait sections
size-post x d h =
    if-holds (λ w. (end_put_for token x ms_zero w).after.size ≡ 1) (has_space token d) _ _
      (λ room. size-end_put_for x d _ _ h) (λ full. size-end_put_for x d _ _ h)

pub get-token :
    (d : BoundedQueue ℕ)
    → d.size ≡ 1
    → (x : ℕ) × ((get token false [] d).reply ≡ Queue.returned x)
      × ((get token false [] d).after.size ≡ 0)
unfolding get wait get_item sub_size
get-token d h = (get_or d.buffer d.consumer_index 0, rw h refl, rw h refl)

pub get-nothing :
    (d : BoundedQueue ℕ)
    → d.size ≡ 0
    → ((get token false [] d).reply ≡ Queue.blocked) × ((get token false [] d).after.size ≡ 0)
unfolding get wait
get-nothing d h = (rw h refl, rw h refl)

-- The tokens in `notifyq` with which an answer to a drain leaves the thread where it was.
abbrev pub tokens : Bool → ℕ
tokens true = 0
tokens false = 1

-- Where the queue's thread is between two turns, asleep or not.
abbrev pub place_of : Bool → Stage
place_of true = stuck
place_of false = goes_on
