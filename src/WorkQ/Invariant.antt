-- ===== src/WorkQ/Invariant.antt =====
-- Where a work item stands: in the list of the queue that it was submitted to, once, while its
-- WORK_QUEUED flag is set, and in no list otherwise.
use native.Mathlib.Decide.{ℕ_discrete}
use ares_common.Common.{
  ==_true, ==_false, ℕ, ◌+◌, ◌-◌, ◌<◌, ◌≡◌, ◌≢◌, refl, sym, ap, ◌∙◌, Bool, true, false, ◌&&◌, ◌||◌,
  [], ◌∷◌, Option, none, some, if◌then◌else◌, ◌==◌, arith,
}
use ares_common.WorkQ.{WorkQueue, World, set_work, set_queue}
use ares_common.WorkQ.Flags.{
  flag_test, flag_set, running_bit, queued_bit, flushing_bit, flag_test-set,
}
use ares_common.WorkQ.Nodes.{NodeList, IsNodeList, count, count-append}

-- Whether a pointer is the address of a queue.
abbrev pub is_at : Option ℕ → ℕ → Bool
is_at none q = false
is_at (some p) q = p == q

-- While nothing is being flushed. An item that runs has a queue.
pub record IsValid {S : NodeList} (w : World S) : Type 0 where
  pub plain : (n : ℕ) → flag_test (w.works n).flags flushing_bit ≡ false
  pub counted :
      (n q : ℕ)
      → count n (S.nodes (w.queues q).pending)
        ≡ (if flag_test (w.works n).flags queued_bit && is_at (w.works n).queue q then 1 else 0)
  pub owned : (n : ℕ) → flag_test (w.works n).flags running_bit ≡ true → (w.works n).queue ≢ none

module _ {S : NodeList} (laws : IsNodeList S) {w : World S} (v : IsValid w) where
  -- An item that is in no list goes to the end of one.
  pub enqueue-IsValid :
      (work queue : ℕ) (q : WorkQueue S)
      → flag_test (w.works work).flags queued_bit ≡ false
      → q.pending ≡ S.append (w.queues queue).pending work
      → IsValid (
          set_work work
            (record (w.works work) {
              flags = flag_set (w.works work).flags queued_bit;
              queue = some queue;
            })
            (set_queue queue q w))
  enqueue-IsValid work queue q free added = record {
    plain = λ n. ground (arith, v.plain n, set flushing_bit (omega arith));
    counted = λ n p. ground (
      arith,
      set queued_bit (omega arith),
      v.counted n p,
      v.counted n queue,
      v.counted work p,
      grown n,
    );
    owned = λ n. ground (arith, v.owned n);
  }
    where
      set :
          (i : ℕ)
          → i < 32
          → flag_test (flag_set (w.works work).flags queued_bit) i
            ≡ (queued_bit == i) || flag_test (w.works work).flags i
      set i h = flag_test-set (w.works work).flags queued_bit i h

      none_yet : count work (S.nodes (w.queues queue).pending) ≡ 0
      none_yet = ground (arith, v.counted work queue)

      grown :
          (n : ℕ)
          → count n (S.nodes q.pending)
            ≡ count n (S.nodes (w.queues queue).pending) + (if work == n then 1 else 0)
      grown n =
          ap (λ l. count n (S.nodes l)) added
          ∙ ap (count n) (laws.nodes-append (w.queues queue).pending work none_yet)
          ∙ count-append n (S.nodes (w.queues queue).pending) (work ∷ [])
          ∙ omega arith

  -- An item that is in a list goes off it.
  pub dequeue-IsValid :
      (work queue : ℕ) (q : WorkQueue S) (flags : ℕ)
      → flag_test (w.works work).flags queued_bit ≡ true
      → (w.works work).queue ≡ some queue
      → flag_test flags flushing_bit ≡ flag_test (w.works work).flags flushing_bit
      → flag_test flags queued_bit ≡ false
      → ((n : ℕ)
          → count n (S.nodes q.pending)
            ≡ count n (S.nodes (w.queues queue).pending) - (if work == n then 1 else 0))
      → IsValid (set_work work (record (w.works work) { flags = flags }) (set_queue queue q w))
  dequeue-IsValid work queue q flags held at same cleared shrunk = record {
    plain = λ n. ground (arith, v.plain n, same);
    counted = λ n p.
        ground
          (arith, cleared, held, at, v.counted n p, v.counted n queue, v.counted work p, shrunk n);
    owned = λ n. ground (arith, at, v.owned n);
  }

-- A change that leaves alone where the items stand.
pub record Agrees {S : NodeList} (w u : World S) : Type 0 where
  pub flushing :
      (n : ℕ) → flag_test (u.works n).flags flushing_bit ≡ flag_test (w.works n).flags flushing_bit
  pub queued :
      (n : ℕ) → flag_test (u.works n).flags queued_bit ≡ flag_test (w.works n).flags queued_bit
  pub running :
      (n : ℕ)
      → flag_test (u.works n).flags running_bit ≡ true
      → flag_test (w.works n).flags running_bit ≡ true
  pub queue : (n : ℕ) → (u.works n).queue ≡ (w.works n).queue
  pub pending : (q : ℕ) → S.nodes (u.queues q).pending ≡ S.nodes (w.queues q).pending

pub Agrees-IsValid : {S : NodeList} {w u : World S} → Agrees w u → IsValid w → IsValid u
Agrees-IsValid {S} {w} {u} a v = record {
  plain = λ n. a.flushing n ∙ v.plain n;
  counted =
      λ n q. ap (count n) (a.pending q) ∙ v.counted n q ∙ ground (arith, a.queued n, a.queue n);
  owned = λ n h none_there. v.owned n (a.running n h) (sym (a.queue n) ∙ none_there);
}

pub trans-Agrees : {S : NodeList} {w u t : World S} → Agrees w u → Agrees u t → Agrees w t
trans-Agrees a b = record {
  flushing = λ n. b.flushing n ∙ a.flushing n;
  queued = λ n. b.queued n ∙ a.queued n;
  running = λ n h. a.running n (b.running n h);
  queue = λ n. b.queue n ∙ a.queue n;
  pending = λ q. b.pending q ∙ a.pending q;
}

module _ {S : NodeList} {w : World S} where
  -- One item's flags change, but for where it stands.
  pub flags-Agrees :
      (work flags : ℕ)
      → flag_test flags flushing_bit ≡ flag_test (w.works work).flags flushing_bit
      → flag_test flags queued_bit ≡ flag_test (w.works work).flags queued_bit
      → (flag_test flags running_bit ≡ true → flag_test (w.works work).flags running_bit ≡ true)
      → Agrees w (set_work work (record (w.works work) { flags = flags }) w)
  flags-Agrees work flags f q r = record {
    flushing = λ n. ground (arith, f);
    queued = λ n. ground (arith, q);
    running = λ n. ground (arith, r);
    queue = λ n. ground arith;
    pending = λ p. refl;
  }

  -- One queue changes, but for its list.
  pub queue-Agrees :
      (queue : ℕ) (q : WorkQueue S)
      → S.nodes q.pending ≡ S.nodes (w.queues queue).pending
      → Agrees w (set_queue queue q w)
  queue-Agrees queue q same = record {
    flushing = λ n. refl;
    queued = λ n. refl;
    running = λ n h. h;
    queue = λ n. refl;
    pending = λ p. elim (ℕ_discrete queue p) [
      | yes e ↦ rw (==_true e) (same ∙ ap (λ k. S.nodes (w.queues k).pending) e)
      | no ne ↦ rw (==_false ne) refl
    ];
  }
