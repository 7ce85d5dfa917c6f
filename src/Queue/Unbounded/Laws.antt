-- ===== src/Queue/Unbounded/Laws.antt =====
-- The unbounded queue counts its items, keeps their order and hands out the oldest one.
use ares_common.Common.{
  ℕ, ◌-◌, ◌≤◌, ◌<◌, ◌^◌, ◌≡◌, ◌≢◌, refl, ◌⊎◌, inl, inr, Bool, true, false, not, List, [], ◌∷◌, ◌++◌,
  length, drop, arith, ◌==◌, add_size_lem, sub_size_lem, length-append,
}
use ares_common.Common.Int.{ℤ}
use ares_common.Queue.{
  Waited, wait, wait_for, Call, Reply, returned, threw, blocked, timeout_reason, queue_empty,
}
use ares_common.Queue.Wait.{wait-keeps, wait-held, wait_for_lem}
use ares_common.Queue.Unbounded.{
  Queue, Section, puts, gets, clears, put, get_item, clear, section, sections, has_item, get,
  get_for, end_get,
}

-- `_size` counts the items of `_buffer`, which stays within what the deque may hold.
pub record IsCounted {ℓ} {A : Type ℓ} (limit : ℕ) (q : Queue A) : Type 0 where
  pub counted : q.size ≡ length q.buffer
  pub within : length q.buffer ≤ limit

length-drop {ℓ} : {A : Type ℓ} (l : List A) → length (drop 1 l) ≡ length l - 1
length-drop [] = omega arith
length-drop (x ∷ l) = omega arith

-- What a `get` did to the items: it took the oldest one, or there was none and it failed.
abbrev pub Got {ℓ} : {A : Type ℓ} → Reply A → List A → Call (Queue A) A → Type ℓ
Got {A} failed items c =
    ((items ≡ []) × (c.reply ≡ failed) × (c.after.buffer ≡ []))
    ⊎ ((x : A) × (rest : List A) × (items ≡ x ∷ rest)
        × (c.reply ≡ returned x)
        × (c.after.buffer ≡ rest))

module _ {ℓ} {A : Type ℓ} (limit : ℕ) (default : A) (small : limit < 2 ^ 64) where
  put-IsCounted :
      (x : A) (q : Queue A) → IsCounted limit q → IsCounted limit (put limit default x q).0
  unfolding put
  put-IsCounted x q v = ground (arith, length-append q.buffer (x ∷ []), add_size_lem q.size 1)

  get_item-IsCounted :
      (q : Queue A) → q.size ≢ 0 → IsCounted limit q → IsCounted limit (get_item limit default q)
  unfolding get_item
  get_item-IsCounted q some_item v = ground (arith, length-drop q.buffer, sub_size_lem q.size 1)

  -- Every critical section keeps the count right.
  pub section-IsCounted :
      (c : Section A) (q : Queue A)
      → IsCounted limit q
      → IsCounted limit (section limit default c q)
  unfolding section clear
  section-IsCounted (puts x) q v = put-IsCounted x q v
  section-IsCounted gets q v = ground (arith, get_item-IsCounted q)
  section-IsCounted clears q v = record { counted = refl; within = omega arith }

  -- Any sequence of critical sections keeps the size of an unbounded queue equal to the number of its
  -- items, if the deque's limit is below 2^64.
  pub sections-IsCounted :
      (cs : List (Section A)) (q : Queue A)
      → IsCounted limit q
      → IsCounted limit (sections limit default cs q)
  unfolding sections
  sections-IsCounted [] q v = v
  sections-IsCounted (c ∷ cs) q v =
      sections-IsCounted cs (section limit default c q) (section-IsCounted c q v)

  end_get-Got :
      (failed : Reply A) (items : List A) (n k signals : ℕ) (h : Bool)
      → n ≡ length items
      → h ≡ not (n == 0)
      → Got failed items (
          end_get limit default failed (record {
            state = record { buffer = items; size = n; not_empty = signals };
            calls = k;
            held = h;
          }))
  unfolding get_item
  end_get-Got failed [] n k signals true counted tested = absurd (ground arith)
  end_get-Got failed [] n k signals false counted tested = inl (refl, refl, refl)
  end_get-Got failed (x ∷ rest) n k signals true counted tested = inr (x, rest, refl, refl, refl)
  end_get-Got failed (x ∷ rest) n k signals false counted tested = absurd (ground arith)

  module _ {q : Queue A} (v : IsCounted limit q) (turns : List (List (Section A)))
      (callback : Bool) where
    abbrev at_end : Waited (Queue A)
    at_end = wait (sections limit default) (has_item limit default) callback q turns

    -- A blocking `get` of an unbounded queue that counts right takes the oldest item of those held
    -- when its wait ends and leaves the others in order, or there is none and it goes on waiting.
    pub get-Got : Got blocked at_end.state.buffer (get limit default callback turns q)
    unfolding get
    get-Got =
        end_get-Got blocked at_end.state.buffer at_end.state.size at_end.calls
          at_end.state.not_empty at_end.held
          (wait-keeps _ _ callback (IsCounted limit) sections-IsCounted q turns v).counted
          (wait-held _ _ callback q turns)

  -- A timed `get` of an unbounded queue that counts right takes the oldest item of those held when
  -- its wait ends and leaves the others in order, or there is none and it throws: that the queue is
  -- empty if the timeout is zero, that the time is up otherwise.
  pub get_for-Got :
      {q : Queue A} (v : IsCounted limit q) (turns : List (List (Section A)))
      (last : List (Section A)) (timeout_ms : ℤ) (callback : Bool)
      → Got
          (threw (timeout_reason timeout_ms queue_empty))
          (wait_for
            (sections limit default)
            (has_item limit default)
            callback
            q
            turns
            last).state.buffer
          (get_for limit default timeout_ms callback turns last q)
  unfolding get_for
  get_for-Got {q} v turns last timeout_ms callback = rw (wait_for_lem (sections limit default)) (
      end_get-Got (threw (timeout_reason timeout_ms queue_empty)) e.state.buffer e.state.size
        e.calls e.state.not_empty e.held
        (wait-keeps _ _ callback (IsCounted limit) sections-IsCounted q (turns ++ last ∷ [])
          v).counted
        (wait-held _ _ callback q (turns ++ last ∷ [])))
    where
      e : Waited (Queue A)
      e = at_end v (turns ++ last ∷ []) callback
