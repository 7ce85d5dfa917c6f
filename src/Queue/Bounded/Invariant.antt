-- ===== src/Queue/Bounded/Invariant.antt =====
-- The representation invariant of bounded_queue: the indices stay inside the array, and the
-- producer's index stands `size` places after the consumer's.
use native.Mathlib.Nat.{mod-add-mod, add-mod_right, mod-eq_of_lt, mod-lt}
use native.Mathlib.Decide.{ℕ_discrete}
use ares_common.Common.{
  ◌⊎◌, ℕ, ◌+◌, ◌-◌, ◌%◌, ◌≤◌, ◌<◌, ◌≡◌, ◌≢◌, sym, ap, ◌∙◌, List, [], ◌∷◌, true, inl, inr, length,
  length-set, length-replicate, set, arith, add_size, sub_size, add_size_lem, sub_size_lem,
}
use ares_common.Queue.Bounded.{
  Template, IsTemplate, BoundedQueue, Section, puts, forces, gets, clears, init, next, put_item,
  force_item, get_item, clear, section, sections,
}

pub record IsValid {ℓ} {A : Type ℓ} (t : Template A) (q : BoundedQueue A) : Type 0 where
  pub storage : length q.buffer ≡ t.max_size
  pub producer_in : q.producer_index < t.max_size
  pub consumer_in : q.consumer_index < t.max_size
  pub size_in : q.size ≤ t.max_size
  pub linked : q.producer_index ≡ (q.consumer_index + q.size) % t.max_size

module _ {ℓ} {A : Type ℓ} {t : Template A} (ok : IsTemplate t) where
  pub next_lem : (i : ℕ) → i < t.max_size → next t i ≡ (i + 1) % t.max_size
  next_lem i h = ap (λ k. k % t.max_size) (add_size_lem i 1 (omega (arith, ok.small)))

  pub next-lt : (i : ℕ) → next t i < t.max_size
  next-lt i = mod-lt _ ok.positive

  pub init-IsValid : IsValid t (init t)
  unfolding init
  init-IsValid = record {
    storage = length-replicate t.max_size t.default;
    producer_in = ok.positive;
    consumer_in = ok.positive;
    size_in = omega arith;
    linked = sym (mod-eq_of_lt ok.positive);
  }

  -- The producer's step moves it one place further from the consumer.
  producer-step :
      (p c n : ℕ)
      → p < t.max_size
      → p ≡ (c + n) % t.max_size
      → next t p ≡ (c + (n + 1)) % t.max_size
  producer-step p c n h e =
      next_lem p h
      ∙ ap (λ k. (k + 1) % t.max_size) e
      ∙ mod-add-mod (c + n) t.max_size 1
      ∙ ap (λ k. k % t.max_size) (omega arith)

  -- The consumer's step takes one place off its distance to the producer.
  consumer-step :
      (c n : ℕ) → c < t.max_size → (next t c + n) % t.max_size ≡ (c + (n + 1)) % t.max_size
  consumer-step c n h =
      ap (λ k. (k + n) % t.max_size) (next_lem c h)
      ∙ mod-add-mod (c + 1) t.max_size n
      ∙ ap (λ k. k % t.max_size) (omega arith)

  module _ {q : BoundedQueue A} (v : IsValid t q) where
    pub put_item-IsValid : (x : A) → q.size ≢ t.max_size → IsValid t (put_item t x q)
    unfolding put_item
    put_item-IsValid x room = record {
      storage = length-set q.buffer q.producer_index x ∙ v.storage;
      producer_in = next-lt q.producer_index;
      consumer_in = v.consumer_in;
      size_in = rw grow (omega (arith, v.size_in));
      linked =
          rw grow (producer-step q.producer_index q.consumer_index q.size v.producer_in v.linked);
    }
      where
        grow : add_size q.size 1 ≡ q.size + 1
        grow = add_size_lem q.size 1 (omega (arith, v.size_in, ok.small))

    pub get_item-IsValid : q.size ≢ 0 → IsValid t (get_item t q)
    unfolding get_item
    get_item-IsValid some_item = record {
      storage = length-set q.buffer q.consumer_index _ ∙ v.storage;
      producer_in = v.producer_in;
      consumer_in = next-lt q.consumer_index;
      size_in = rw shrink (omega (arith, v.size_in));
      linked = rw shrink (
          v.linked
          ∙ ap (λ k. (q.consumer_index + k) % t.max_size) (omega arith)
          ∙ sym (consumer-step q.consumer_index (q.size - 1) v.consumer_in));
    }
      where
        shrink : sub_size q.size 1 ≡ q.size - 1
        shrink = sub_size_lem q.size 1 (omega arith) (omega (arith, v.size_in, ok.small))

    -- With room the timed `put` ends as the blocking one does.
    pub force_item-room : (x : A) → q.size ≢ t.max_size → force_item t x q ≡ put_item t x q
    unfolding force_item put_item
    force_item-room x room = ground (arith, add_size_lem q.size 1, v.size_in, ok.small)

    -- Without room it overwrites the oldest item and moves both indices on.
    pub force_item-full :
        (x : A)
        → q.size ≡ t.max_size
        → t.overwrite ≡ true
        → force_item t x q ≡ record q {
          buffer = set q.buffer q.producer_index x;
          producer_index = next t q.producer_index;
          consumer_index = next t q.consumer_index;
          size = t.max_size;
          not_empty = q.not_empty + 1;
        }
    unfolding force_item put_item
    force_item-full x full over = ground (arith, add_size_lem q.size 1, v.size_in, ok.small)

    -- A full queue's producer stands where its consumer does.
    pub full_indices : q.size ≡ t.max_size → q.producer_index ≡ q.consumer_index
    full_indices full =
        v.linked
        ∙ ap (λ k. (q.consumer_index + k) % t.max_size) full
        ∙ add-mod_right q.consumer_index t.max_size
        ∙ mod-eq_of_lt v.consumer_in

    pub force_item-IsValid :
        (x : A) → (t.overwrite ≡ true) ⊎ (q.size ≢ t.max_size) → IsValid t (force_item t x q)
    force_item-IsValid x why = elim (ℕ_discrete q.size t.max_size) [
      | no room ↦ rw (force_item-room x room) (put_item-IsValid x room)
      | yes full ↦ elim why [
        | inr room ↦ absurd (room full)
        | inl over ↦ rw (force_item-full x full over) (record {
          storage = length-set q.buffer q.producer_index x ∙ v.storage;
          producer_in = next-lt q.producer_index;
          consumer_in = next-lt q.consumer_index;
          size_in = omega arith;
          linked =
              ap (next t) (full_indices full)
              ∙ sym (mod-eq_of_lt (next-lt q.consumer_index))
              ∙ sym (add-mod_right (next t q.consumer_index) t.max_size);
        })
      ]
    ]

    pub clear-IsValid : IsValid t (clear t q)
    unfolding clear
    clear-IsValid = record {
      storage = v.storage;
      producer_in = ok.positive;
      consumer_in = ok.positive;
      size_in = omega arith;
      linked = sym (mod-eq_of_lt ok.positive);
    }

  -- Every critical section keeps the invariant.
  pub section-IsValid :
      (c : Section A) (q : BoundedQueue A) → IsValid t q → IsValid t (section t c q)
  unfolding section
  section-IsValid (puts x) q v = ground (arith, put_item-IsValid v x)
  section-IsValid (forces x) q v = ground (arith, force_item-IsValid v x)
  section-IsValid gets q v = ground (arith, get_item-IsValid v)
  section-IsValid clears q v = clear-IsValid v

  -- Any sequence of critical sections keeps a valid bounded_queue valid: the array keeps its length,
  -- both indices stay inside it, the size stays within it, and the producer's index stays `size`
  -- places after the consumer's.
  pub sections-IsValid :
      (cs : List (Section A)) (q : BoundedQueue A) → IsValid t q → IsValid t (sections t cs q)
  unfolding sections
  sections-IsValid [] q v = v
  sections-IsValid (c ∷ cs) q v = sections-IsValid cs (section t c q) (section-IsValid c q v)
