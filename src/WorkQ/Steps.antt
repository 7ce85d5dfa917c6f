-- ===== src/WorkQ/Steps.antt =====
-- What any thread may do to work items and queues while nothing is flushed, and that each step keeps
-- every item where its flags say.
use ares_common.Common.{
  ℕ, ◌<◌, ◌≡◌, ◌≢◌, refl, sym, ap, ◌∙◌, inl, inr, Bool, true, false, ◌&&◌, List, [], ◌∷◌, Option,
  none, some, if◌then◌else◌, ◌==◌, arith, Bool-cases, Option-cases,
}
use ares_common.Common.Int.{ℤ, pos, is_neg}
use ares_common.WorkQ.{WorkQueue, World, set_work, set_queue}
use ares_common.WorkQ.Flags.{
  flag_test, flag_set, flag_clear, flag_test_and_clear, running_bit, canceling_bit, queued_bit,
  flushing_bit, drain_bit, stop_bit, flag_test-set, flag_test-clear,
}
use ares_common.WorkQ.Nodes.{NodeList, IsNodeList, count, split, count-erase}
use ares_common.WorkQ.Submit.{accept, admission, submit_chosen, submit_locked}
use mathlib.Core.Path.{subst}
use ares_common.WorkQ.Queue.{begin_drain, unplug, begin_stop}
use ares_common.WorkQ.Cancel.{remove_locked, mark_canceling, cancel_async, busy_get}
use ares_common.WorkQ.Main.{
  begin_round, begin_with, idle, mark_running, finish, finalize_cancel, after, release, end_round,
}
use ares_common.Sync.Semaphore.{Outcome, returned, threw, blocked}
use ares_common.WorkQ.Invariant.{
  IsValid, is_at, enqueue-IsValid, dequeue-IsValid, Agrees, Agrees-IsValid, trans-Agrees,
  flags-Agrees, queue-Agrees,
}

-- A call's world is valid, if there is one.
abbrev pub AllValid : {S : NodeList} {B : Type 0} → (B → World S) → Option B → Type 0
AllValid world none = Unit
AllValid world (some r) = IsValid (world r)

pub split-none : (all rest : List ℕ) → (rest, none) ≡ split all → rest ≡ all
split-none [] rest e = ap (λ p. p.0) e
split-none (m ∷ all) rest e = absurd (ground (arith, ap (λ p. p.1) e))

pub split-empty : (all rest : List ℕ) → (rest, none) ≡ split all → all ≡ []
split-empty [] rest e = refl
split-empty (m ∷ all) rest e = absurd (ground (arith, ap (λ p. p.1) e))

pub split-some : (all rest : List ℕ) (work : ℕ) → (rest, some work) ≡ split all → work ∷ rest ≡ all
split-some [] rest work e = absurd (ground (arith, ap (λ p. p.1) e))
split-some (m ∷ all) rest work e = ground (arith, ap (λ p. p.0) e, ap (λ p. p.1) e)

module _ {S : NodeList} (laws : IsNodeList S) where
  submit_chosen-IsValid :
      (caller work : ℕ) (ret : ℤ) (queue : Option ℕ) (w : World S)
      → IsValid w
      → flag_test (w.works work).flags queued_bit ≡ false
      → AllValid (λ r. r.0) (submit_chosen caller work ret queue w)
  unfolding submit_chosen accept
  submit_chosen-IsValid caller work ret none w v free = tt
  submit_chosen-IsValid caller work ret (some queue) w v free =
      elim (Bool-cases (is_neg (admission caller (w.queues queue)))) [
        | inl refused ↦ rw (refused, refused) v
        | inr taken ↦ rw (taken, taken) (enqueue-IsValid laws v work queue _ free refl)
      ]

  pub submit_locked-IsValid :
      (caller work : ℕ) (queue : Option ℕ) (w : World S)
      → IsValid w
      → AllValid (λ r. r.0) (submit_locked caller work queue w)
  unfolding submit_locked
  submit_locked-IsValid caller work queue w v =
      let f = (w.works work).flags in
      elim (Bool-cases (flag_test f canceling_bit)) [
        | inl c ↦ rw c v
        | inr c ↦ rw c (elim (Bool-cases (flag_test f queued_bit)) [
          | inl q ↦ rw q v
          | inr q ↦ rw q (elim (Bool-cases (flag_test f running_bit)) [
            | inl r ↦ rw r (submit_chosen-IsValid caller work (pos 2) _ w v q)
            | inr r ↦ rw r (submit_chosen-IsValid caller work (pos 1) _ w v q)
          ])
        ])
      ]

  pub remove_locked-IsValid :
      (work queue : ℕ) (w : World S)
      → IsValid w
      → (w.works work).queue ≡ some queue
      → IsValid (remove_locked queue work w)
  unfolding remove_locked flag_test_and_clear
  remove_locked-IsValid work queue w v at =
      let f = (w.works work).flags in
      elim (Bool-cases (flag_test f queued_bit)) [
        | inl q ↦ rw q (
            dequeue-IsValid laws v work queue _ (flag_clear f queued_bit) q at
              (flag_test-clear f queued_bit flushing_bit (omega arith) (omega arith))
              (flag_test-clear f queued_bit queued_bit (omega arith) (omega arith))
              (λ n.
                ap (count n) (laws.nodes-find_and_remove (w.queues queue).pending work)
                ∙ count-erase n work (S.nodes (w.queues queue).pending)))
        | inr q ↦ rw q (
            Agrees-IsValid
              (flags-Agrees work (flag_clear f queued_bit)
                (flag_test-clear f queued_bit flushing_bit (omega arith) (omega arith))
                (flag_test-clear f queued_bit queued_bit (omega arith) (omega arith) ∙ sym q)
                (λ h.
                  sym (flag_test-clear f queued_bit running_bit (omega arith) (omega arith)) ∙ h))
              v)
      ]

  pub mark_canceling-IsValid :
      (work : ℕ) (w : World S) → IsValid w → IsValid (mark_canceling work w).0
  unfolding mark_canceling
  mark_canceling-IsValid work w v =
      let f = (w.works work).flags in
      elim (Bool-cases (busy_get (w.works work) == 0)) [
        | inl z ↦ rw z v
        | inr z ↦ rw z (
            Agrees-IsValid
              (flags-Agrees work (flag_set f canceling_bit)
                (flag_test-set f canceling_bit flushing_bit (omega arith))
                (flag_test-set f canceling_bit queued_bit (omega arith))
                (λ h. sym (flag_test-set f canceling_bit running_bit (omega arith)) ∙ h))
              v)
      ]

  pub cancel_async-IsValid :
      (work : ℕ) (w : World S) → IsValid w → AllValid (λ r. r.0) (cancel_async work w)
  unfolding cancel_async
  cancel_async-IsValid work w v = elim (Bool-cases (flag_test (w.works work).flags canceling_bit)) [
    | inl c ↦ rw c (mark_canceling-IsValid work w v)
    | inr c ↦ rw c (elim (Option-cases (w.works work).queue) [
      | inl none_there ↦ rw none_there tt
      | inr (queue, at) ↦ rw at (
          mark_canceling-IsValid work (remove_locked queue work w)
            (remove_locked-IsValid work queue w v at))
    ])
  ]

  idle-Agrees : (queue : ℕ) (w : World S) → Agrees w (idle queue w).0
  unfolding idle flag_test_and_clear
  idle-Agrees queue w =
      let f = (w.queues queue).flags in
      elim (Bool-cases (flag_test f drain_bit)) [
        | inl d ↦ rw d (queue-Agrees queue _ refl)
        | inr d ↦ rw d (elim (Bool-cases (flag_test (flag_clear f drain_bit) stop_bit)) [
          | inl s ↦ rw s (queue-Agrees queue _ refl)
          | inr s ↦ rw s (queue-Agrees queue _ refl)
        ])
      ]

  -- An item at the head of a queue's list is one that was submitted there.
  head_queued :
      (queue work : ℕ) (w : World S)
      → IsValid w
      → count work (S.nodes (w.queues queue).pending) ≢ 0
      → (flag_test (w.works work).flags queued_bit ≡ true) × ((w.works work).queue ≡ some queue)
  head_queued queue work w v there = at_queue (w.works work).queue (v.counted work queue)
    where
      at_queue :
          (at : Option ℕ)
          → count work (S.nodes (w.queues queue).pending)
            ≡ (if flag_test (w.works work).flags queued_bit && is_at at queue then 1 else 0)
          → (flag_test (w.works work).flags queued_bit ≡ true) × (at ≡ some queue)
      at_queue none h = absurd (ground arith)
      at_queue (some p) h = (ground arith, ap some (ground arith))

  begin_with-IsValid :
      (queue : ℕ) (w : World S) (got : S.Nodes × Option ℕ)
      → IsValid w
      → (S.nodes got.0, got.1) ≡ split (S.nodes (w.queues queue).pending)
      → IsValid (begin_with queue w got).0
  unfolding begin_with mark_running
  begin_with-IsValid queue w (pending, none) v e =
      Agrees-IsValid
        (trans-Agrees
          (queue-Agrees queue (record (w.queues queue) { pending = pending }) (split-none _ _ e))
          (idle-Agrees queue (set_queue queue (record (w.queues queue) { pending = pending }) w)))
        v
  begin_with-IsValid queue w (pending, some work) v e =
      let f = (w.works work).flags in
      let all : work ∷ S.nodes pending ≡ S.nodes (w.queues queue).pending = split-some _ _ work e in
      let (queued, at) = head_queued queue work w v (λ z. ground (arith, z, ap (count work) all)) in
      dequeue-IsValid laws v work queue _ (mark_running (w.works work)).flags queued at
        (flag_test-clear (flag_set f running_bit) queued_bit flushing_bit (omega arith)
            (omega arith)
          ∙ flag_test-set f running_bit flushing_bit (omega arith))
        (flag_test-clear (flag_set f running_bit) queued_bit queued_bit (omega arith) (omega arith))
        (λ n. ground (arith, ap (count n) all))

  pub begin_round-IsValid : (queue : ℕ) (w : World S) → IsValid w → IsValid (begin_round queue w).0
  unfolding begin_round
  begin_round-IsValid queue w v =
      begin_with-IsValid queue w (S.get (w.queues queue).pending) v
        (laws.get_lem (w.queues queue).pending)

  release-Agrees : (found : Option (Option ℕ × ℕ)) (w : World S) → Agrees w (release found w).0
  unfolding release
  release-Agrees none w = record {
    flushing = λ n. refl;
    queued = λ n. refl;
    running = λ n h. h;
    queue = λ n. refl;
    pending = λ q. refl;
  }
  release-Agrees (some (prev, c)) w = record {
    flushing = λ n. refl;
    queued = λ n. refl;
    running = λ n h. h;
    queue = λ n. refl;
    pending = λ q. refl;
  }

  -- Clearing an item's running or canceling flag.
  clear-Agrees :
      (work k : ℕ) (w : World S)
      → k < 2
      → Agrees w
          (set_work work (record (w.works work) { flags = flag_clear (w.works work).flags k }) w)
  clear-Agrees work k w h =
      let f = (w.works work).flags in
      flags-Agrees work (flag_clear f k)
        (flag_test-clear f k flushing_bit (omega arith) (omega arith) ∙ ground arith)
        (flag_test-clear f k queued_bit (omega arith) (omega arith) ∙ ground arith)
        (λ r. ground (arith, flag_test-clear f k running_bit (omega arith) (omega arith)))

  end_round-Agrees : (queue : ℕ) (w : World S) → Agrees w (end_round queue w).0
  unfolding end_round
  end_round-Agrees queue w = queue-Agrees queue _ refl

  finalize_cancel-Agrees : (work : ℕ) (w : World S) → Agrees w (finalize_cancel work w).0
  unfolding finalize_cancel
  finalize_cancel-Agrees work w =
      trans-Agrees (clear-Agrees work canceling_bit w (omega arith)) (release-Agrees _ _)

  after-IsValid :
      (queue : ℕ) (w : World S) (ended : Outcome (Unit {0}))
      → IsValid w
      → IsValid (after (w, ended) (end_round queue)).0
  after-IsValid queue w (returned x) v = Agrees-IsValid (end_round-Agrees queue w) v
  after-IsValid queue w (threw e) v = v
  after-IsValid queue w blocked v = Agrees-IsValid (end_round-Agrees queue w) v

  pub finish-IsValid : (queue work : ℕ) (w : World S) → IsValid w → IsValid (finish queue work w).0
  unfolding finish
  finish-IsValid queue work w v =
      let u =
        set_work work
          (record (w.works work) { flags = flag_clear (w.works work).flags running_bit }) w in
      let stopped : IsValid u = Agrees-IsValid (clear-Agrees work running_bit w (omega arith)) v in
      rw (stopped.plain work) (elim (Bool-cases (flag_test (u.works work).flags canceling_bit)) [
        | inl c ↦ rw c (
            after-IsValid queue (finalize_cancel work u).0 _
              (Agrees-IsValid (finalize_cancel-Agrees work u) stopped))
        | inr c ↦ rw c (after-IsValid queue u (returned tt) stopped)
      ])

-- A locked section, by any thread.
pub data Step {S : NodeList} (w : World S) : World S → Type 0 where
  submits :
      (caller work : ℕ) (queue : Option ℕ) {r : World S × Option ℕ × ℤ}
      → submit_locked caller work queue w ≡ some r
      → Step w r.0
  cancels : (work : ℕ) {r : World S × ℕ} → cancel_async work w ≡ some r → Step w r.0
  begins : (queue : ℕ) → Step w (begin_round queue w).0
  finishes : (queue work : ℕ) → Step w (finish queue work w).0
  drains :
      (plug : Bool) (queue : ℕ) → Step w (set_queue queue (begin_drain plug (w.queues queue)).0 w)
  unplugs : (queue : ℕ) → Step w (set_queue queue (unplug (w.queues queue)).0 w)
  stops : (queue : ℕ) → Step w (set_queue queue (begin_stop (w.queues queue)).0 w)

-- Any number of sections after each other.
pub data Run {S : NodeList} (w : World S) : World S → Type 0 where
  start : Run w w
  step : {u t : World S} → Run w u → Step u t → Run w t

module _ {S : NodeList} (laws : IsNodeList S) where
  drain-pending : (plug : Bool) (q : WorkQueue S) → (begin_drain plug q).0.pending ≡ q.pending
  unfolding begin_drain
  drain-pending plug q = ground arith

  stop-pending : (q : WorkQueue S) → (begin_stop q).0.pending ≡ q.pending
  unfolding begin_stop
  stop-pending q = ground arith

  unplug-pending : (q : WorkQueue S) → (unplug q).0.pending ≡ q.pending
  unfolding unplug
  unplug-pending q = refl

  Step-IsValid : {w u : World S} → Step w u → IsValid w → IsValid u
  Step-IsValid {w} (submits caller work queue h) v =
      subst (AllValid (λ r. r.0)) h (submit_locked-IsValid laws caller work queue w v)
  Step-IsValid {w} (cancels work h) v =
      subst (AllValid (λ r. r.0)) h (cancel_async-IsValid laws work w v)
  Step-IsValid {w} (begins queue) v = begin_round-IsValid laws queue w v
  Step-IsValid {w} (finishes queue work) v = finish-IsValid laws queue work w v
  Step-IsValid {w} (drains plug queue) v =
      Agrees-IsValid (queue-Agrees queue _ (ap S.nodes (drain-pending plug (w.queues queue)))) v
  Step-IsValid {w} (unplugs queue) v =
      Agrees-IsValid (queue-Agrees queue _ (ap S.nodes (unplug-pending (w.queues queue)))) v
  Step-IsValid {w} (stops queue) v =
      Agrees-IsValid (queue-Agrees queue _ (ap S.nodes (stop-pending (w.queues queue)))) v

  -- Whatever threads submit, cancel, drain, unplug and stop, and whatever rounds the queues' threads
  -- make, in any order, while nothing is being flushed: an item stands in the list of the queue that
  -- it was submitted to, exactly once, while its WORK_QUEUED flag is set, in no list otherwise, and
  -- an item that runs has a queue.
  pub Run-IsValid : {w u : World S} → IsValid w → Run w u → IsValid u
  Run-IsValid v start = v
  Run-IsValid v (step r s) = Step-IsValid s (Run-IsValid v r)
