-- ===== src/Queue/Unbounded.antt =====
-- ares::queue<Type> of include/ares/data-structures/queue.hpp: a deque and the number of its items.
pub mod Laws
use ares_common.Common.{
  ℕ, ◌+◌, ◌%◌, ◌<◌, ◌≤◌, ◌^◌, ◌≡◌, Bool, true, false, not, List, [], ◌∷◌, ◌++◌, length, get_or,
  drop, add_size, sub_size, ◌==◌, if◌then◌else◌,
}
use ares_common.Common.Int.{ℤ, ms_zero}
use ares_common.Queue.{
  queue_empty, Waited, Reply, returned, threw, blocked, Call, wait, wait_for, timeout_reason,
}

-- `not_empty` counts the `notify_one` calls on the condition variable.
pub record Queue {ℓ} (A : Type ℓ) : Type ℓ where
  pub buffer : List A
  pub size : ℕ
  pub not_empty : ℕ

-- A critical section that changes the queue.
pub data Section {ℓ} (A : Type ℓ) : Type ℓ where
  puts : A → Section A
  gets : Section A
  clears : Section A

-- `limit` is `std::deque::max_size()`: past it `emplace_back` throws, and the queue is unchanged.
-- `default` stands for what `front()` gives on an empty deque, which no call reads.
module _ {ℓ} {A : Type ℓ} (limit : ℕ) (default : A) where
  unfoldable pub init : Queue A
  init = record { buffer = []; size = 0; not_empty = 0 }

  -- The Boolean is false if `emplace_back` throws.
  unfoldable pub put : A → Queue A → Queue A × Bool
  put x q = if length q.buffer == limit then (q, false) else (
    record { buffer = q.buffer ++ x ∷ []; size = add_size q.size 1; not_empty = q.not_empty + 1 },
    true,
  )

  -- The end of both `get`s.
  abbrev pub front : Queue A → A
  front q = get_or q.buffer 0 default

  unfoldable pub get_item : Queue A → Queue A
  get_item q = record q { buffer = drop 1 q.buffer; size = sub_size q.size 1 }

  unfoldable pub clear : Queue A → Queue A
  clear q = record q { size = 0; buffer = [] }

  abbrev pub has_item : Queue A → Bool
  has_item q = not (q.size == 0)

  unfoldable pub section : Section A → Queue A → Queue A
  section (puts x) q = (put x q).0
  section gets q = if has_item q then get_item q else q
  section clears q = clear q

  unfoldable pub sections : List (Section A) → Queue A → Queue A
  sections [] q = q
  sections (c ∷ cs) q = sections cs (section c q)

  -- `failed` is the reply of a wait that found no item.
  abbrev pub end_get : Reply A → Waited (Queue A) → Call (Queue A) A
  end_get failed w =
      if w.held
      then record { after = get_item w.state; calls = w.calls; reply = returned (front w.state) }
      else record { after = w.state; calls = w.calls; reply = failed }

  -- `get(block_cb)`.
  unfoldable pub get : Bool → List (List (Section A)) → Queue A → Call (Queue A) A
  get callback turns q = end_get blocked (wait sections has_item callback q turns)

  -- `get(timeout_ms, block_cb)`.
  unfoldable pub get_for :
      ℤ → Bool → List (List (Section A)) → List (Section A) → Queue A → Call (Queue A) A
  get_for timeout_ms callback turns last q =
      end_get (threw (timeout_reason timeout_ms queue_empty))
        (wait_for sections has_item callback q turns last)

  unfoldable pub get_nonblocking : List (Section A) → Queue A → Call (Queue A) A
  get_nonblocking last q = get_for ms_zero false [] last q

  -- `size` and `empty` read the state under the lock.
  unfoldable pub size : Queue A → ℕ
  size q = q.size

  unfoldable pub empty : Queue A → Bool
  empty q = q.size == 0
