-- ===== src/Queue/Bounded.antt =====
-- ares::bounded_queue<Type, max_size, overwrite> of include/ares/data-structures/queue.hpp.
pub mod Invariant
pub mod Refine
pub mod History
pub mod Calls
pub mod Fifo
pub mod Window
use ares_common.Common.{
  ℕ, ◌+◌, ◌%◌, ◌<◌, ◌≤◌, ◌^◌, Bool, true, false, not, ◌&&◌, List, [], ◌∷◌, length, get_or, set,
  replicate, add_size, sub_size, ltb, ◌==◌, if◌then◌else◌,
}
use ares_common.Common.Int.{ℤ, ms_zero}
use ares_common.Queue.{
  Reason, queue_empty, queue_full, Waited, Reply, returned, threw, blocked, Call, wait, wait_for,
  timeout_reason,
}

-- The template's arguments, with the default value of `Type` and what a move leaves behind.
pub record Template {ℓ} (A : Type ℓ) : Type ℓ where
  pub default : A
  pub moved : A → A
  pub max_size : ℕ
  pub overwrite : Bool

-- The `static_assert`, and the limit that C++ puts on the size of an array.
pub record IsTemplate {ℓ} {A : Type ℓ} (t : Template A) : Type 0 where
  pub positive : 0 < t.max_size
  pub small : t.max_size < 2 ^ 63

-- The last two fields count the `notify_one` calls on the two condition variables.
pub record BoundedQueue {ℓ} (A : Type ℓ) : Type ℓ where
  pub buffer : List A
  pub producer_index : ℕ
  pub consumer_index : ℕ
  pub size : ℕ
  pub not_empty : ℕ
  pub space_available : ℕ

module _ {ℓ} {A : Type ℓ} (t : Template A) where
  open t use {default, moved, max_size, overwrite}

  unfoldable pub init : BoundedQueue A
  init = record {
    buffer = replicate max_size default;
    producer_index = 0;
    consumer_index = 0;
    size = 0;
    not_empty = 0;
    space_available = 0;
  }

  abbrev pub is_full : BoundedQueue A → Bool
  is_full q = q.size == max_size

  abbrev pub is_empty : BoundedQueue A → Bool
  is_empty q = q.size == 0

  abbrev pub next : ℕ → ℕ
  next i = add_size i 1 % max_size

  -- The end of the blocking `put`, once there is space.
  unfoldable pub put_item : A → BoundedQueue A → BoundedQueue A
  put_item x q = record q {
    buffer = set q.buffer q.producer_index x;
    producer_index = next q.producer_index;
    size = add_size q.size 1;
    not_empty = q.not_empty + 1;
  }

  -- `if (_size > max_size) …` of the timed `put`.
  abbrev clamp : BoundedQueue A → BoundedQueue A
  clamp q =
      if ltb max_size q.size
      then record q {
        size = max_size;
        consumer_index = if overwrite then next q.consumer_index else q.consumer_index;
      }
      else q

  -- The end of the timed `put`.
  unfoldable pub force_item : A → BoundedQueue A → BoundedQueue A
  unfolding put_item
  force_item x q = clamp (put_item x q)

  -- The end of both `get`s: the item at the consumer's index is moved out.
  abbrev pub front : BoundedQueue A → A
  front q = get_or q.buffer q.consumer_index default

  unfoldable pub get_item : BoundedQueue A → BoundedQueue A
  get_item q = record q {
    buffer = set q.buffer q.consumer_index (moved (front q));
    consumer_index = next q.consumer_index;
    size = sub_size q.size 1;
    space_available = q.space_available + 1;
  }

  -- `clear` notifies nobody.
  unfoldable pub clear : BoundedQueue A → BoundedQueue A
  clear q = record q { size = 0; producer_index = 0; consumer_index = 0 }

-- A critical section that changes the queue: `puts` of a `put` that found space, `forces` of a
-- timed `put` with `overwrite` whose wait found none, `gets` and `clears`. A thread whose wait
-- does not end leaves the queue alone.
pub data Section {ℓ} (A : Type ℓ) : Type ℓ where
  puts : A → Section A
  forces : A → Section A
  gets : Section A
  clears : Section A

module _ {ℓ} {A : Type ℓ} (t : Template A) where
  open t use {overwrite}

  unfoldable pub section : Section A → BoundedQueue A → BoundedQueue A
  section (puts x) q = if is_full t q then q else put_item t x q
  section (forces x) q = if is_full t q && not overwrite then q else force_item t x q
  section gets q = if is_empty t q then q else get_item t q
  section clears q = clear t q

  unfoldable pub sections : List (Section A) → BoundedQueue A → BoundedQueue A
  sections [] q = q
  sections (c ∷ cs) q = sections cs (section c q)

  -- The waits, with what the other threads do meanwhile.
  abbrev pub has_space : BoundedQueue A → Bool
  has_space q = not (is_full t q)

  abbrev pub has_item : BoundedQueue A → Bool
  has_item q = not (is_empty t q)

  -- What a blocking `put` does when its wait has ended, or is given up as not ending.
  abbrev pub end_put : A → Waited (BoundedQueue A) → Call (BoundedQueue A) (Unit {ℓ})
  end_put x w =
      if w.held
      then record { after = put_item t x w.state; calls = w.calls; reply = returned tt }
      else record { after = w.state; calls = w.calls; reply = blocked }

  -- `put(item, blocking_cb)`.
  unfoldable pub put :
      A → Bool → List (List (Section A)) → BoundedQueue A → Call (BoundedQueue A) (Unit {ℓ})
  put x callback turns q = end_put x (wait sections has_space callback q turns)

  abbrev pub end_put_for : A → ℤ → Waited (BoundedQueue A) → Call (BoundedQueue A) (Unit {ℓ})
  end_put_for x timeout_ms w =
      if not w.held && not overwrite
      then record {
        after = w.state;
        calls = w.calls;
        reply = threw (timeout_reason timeout_ms queue_full);
      }
      else record { after = force_item t x w.state; calls = w.calls; reply = returned tt }

  -- `put(item, timeout_ms, blocking_cb)`.
  unfoldable pub put_for :
      A
      → ℤ
      → Bool
      → List (List (Section A))
      → List (Section A)
      → BoundedQueue A
      → Call (BoundedQueue A) (Unit {ℓ})
  put_for x timeout_ms callback turns last q =
      end_put_for x timeout_ms (wait_for sections has_space callback q turns last)

  unfoldable pub put_nonblocking :
      A → List (Section A) → BoundedQueue A → Call (BoundedQueue A) (Unit {ℓ})
  put_nonblocking x last q = put_for x ms_zero false [] last q

  -- The end of both `get`s; `failed` is the reply of a wait that found no item.
  abbrev pub end_get : Reply A → Waited (BoundedQueue A) → Call (BoundedQueue A) A
  end_get failed w =
      if w.held
      then record {
        after = get_item t w.state;
        calls = w.calls;
        reply = returned (front t w.state);
      }
      else record { after = w.state; calls = w.calls; reply = failed }

  -- `get(block_cb)`.
  unfoldable pub get : Bool → List (List (Section A)) → BoundedQueue A → Call (BoundedQueue A) A
  get callback turns q = end_get blocked (wait sections has_item callback q turns)

  -- `get(timeout_ms, block_cb)`.
  unfoldable pub get_for :
      ℤ
      → Bool
      → List (List (Section A))
      → List (Section A)
      → BoundedQueue A
      → Call (BoundedQueue A) A
  get_for timeout_ms callback turns last q =
      end_get (threw (timeout_reason timeout_ms queue_empty))
        (wait_for sections has_item callback q turns last)

  unfoldable pub get_nonblocking : List (Section A) → BoundedQueue A → Call (BoundedQueue A) A
  get_nonblocking last q = get_for ms_zero false [] last q

  -- `size`, `empty` and `full` read the state under the lock.
  unfoldable pub size : BoundedQueue A → ℕ
  size q = q.size

  unfoldable pub empty : BoundedQueue A → Bool
  empty q = q.size == 0

  unfoldable pub full : BoundedQueue A → Bool
  full q = q.size == t.max_size
