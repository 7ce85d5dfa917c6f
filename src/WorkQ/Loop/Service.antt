-- ===== src/WorkQ/Loop/Service.antt =====
-- Who is served next by `work_queue_main` of src/work-q/work_q.cpp: the items of a queue's list run in
-- its order.
use ares_common.Common.{
  ℕ, ◌≡◌, refl, sym, ap, ◌∙◌, false, List, [], ◌∷◌, ◌++◌, append_assoc, length, Option, some,
  ==_true, ◌<◌, ◌≢◌, arith,
}
use mathlib.Core.Path.{subst}
use ares_common.WorkQ.{World, WorkQueue}
use ares_common.WorkQ.Flags.{
  flag_test, flag_set, flag_clear, running_bit, canceling_bit, queued_bit, flushing_bit, busy_bit,
  flag_test-set, flag_test-clear,
}
use ares_common.WorkQ.Nodes.{NodeList, IsNodeList, split}
use ares_common.WorkQ.Invariant.{IsValid}
use ares_common.WorkQ.Steps.{begin_round-IsValid, finish-IsValid}
use ares_common.WorkQ.Main.{Next, runs, begin_round, begin_with, mark_running, finish, end_round}
use ares_common.WorkQ.Loop.{
  completes, Turn, Stage, goes_on, round, end_with, end_handler, work_queue_main, proceed,
}

-- No item is being canceled.
abbrev pub Uncanceled : {S : NodeList} → World S → Type 0
Uncanceled w = (n : ℕ) → flag_test (w.works n).flags canceling_bit ≡ false

-- A turn whose handler returns, and during which nobody cancels or flushes: items may be submitted,
-- to the end of the queue's list.
pub record IsHarmless {S : NodeList} (queue : ℕ) (turn : Turn S) : Type 0 where
  pub returns : turn.handled ≡ completes
  pub valid : (w : World S) → IsValid w → IsValid (turn.effect w)
  pub calm : (w : World S) → Uncanceled w → Uncanceled (turn.effect w)
  pub grown :
      (w : World S)
      → IsValid w
      → (more : List ℕ) × (S.nodes ((turn.effect w).queues queue).pending
          ≡ S.nodes (w.queues queue).pending ++ more)
  pub handlers : (w : World S) (n : ℕ) → ((turn.effect w).works n).handler ≡ (w.works n).handler

abbrev pub AllHarmless : {S : NodeList} → ℕ → List (Turn S) → Type 0
AllHarmless queue [] = Unit
AllHarmless queue (turn ∷ turns) = IsHarmless queue turn × AllHarmless queue turns

-- What a round that runs an item leaves alone of its queue.
pub record Keeps {S : NodeList} (q p : WorkQueue S) : Type 0 where
  pub thread : p.thread ≡ q.thread
  pub notifyq : p.notifyq ≡ q.notifyq
  pub drainq : p.drainq ≡ q.drainq
  pub flags : (i : ℕ) → i < 32 → i ≢ busy_bit → flag_test p.flags i ≡ flag_test q.flags i

pub trans-Keeps : {S : NodeList} {q p r : WorkQueue S} → Keeps q p → Keeps p r → Keeps q r
trans-Keeps a b = record {
  thread = b.thread ∙ a.thread;
  notifyq = b.notifyq ∙ a.notifyq;
  drainq = b.drainq ∙ a.drainq;
  flags = λ i h other. b.flags i h other ∙ a.flags i h other;
}

-- The first item of the list is run, and is taken off it.
abbrev pub Takes : {S : NodeList} → ℕ → ℕ → List ℕ → World S → World S × Next → Type 0
Takes {S} queue work rest w (u, next) =
    (next ≡ runs work (w.works work).handler)
    × (S.nodes (u.queues queue).pending ≡ rest)
    × (Uncanceled w → Uncanceled u)
    × ((n : ℕ) → (u.works n).handler ≡ (w.works n).handler)
    × Keeps (w.queues queue) (u.queues queue)

module _ {S : NodeList} where
  begin_first-Takes :
      (queue work : ℕ) (w : World S) (pending : S.Nodes)
      → Takes queue work (S.nodes pending) w (begin_with queue w (pending, some work))
  unfolding begin_with mark_running
  begin_first-Takes queue work w pending = (
    refl,
    rw (==_true {a = queue} refl) refl,
    (λ calm n. ground (
      arith,
      calm n,
      flag_test-clear (flag_set (w.works work).flags running_bit) queued_bit canceling_bit
          (omega arith) (omega arith),
      flag_test-set (w.works work).flags running_bit canceling_bit (omega arith),
    )),
    (λ n. ground arith),
    rw (==_true {a = queue} refl) (record {
      thread = refl;
      notifyq = refl;
      drainq = refl;
      flags = λ i h other. ground (arith, flag_test-set (w.queues queue).flags busy_bit i h);
    }),
  )

  begin_with-Takes :
      (queue work : ℕ) (rest : List ℕ) (w : World S) (got : S.Nodes × Option ℕ)
      → S.nodes got.0 ≡ rest
      → got.1 ≡ some work
      → Takes queue work rest w (begin_with queue w got)
  begin_with-Takes queue work rest w (pending, at) left_over first =
      subst (λ l. Takes queue work l w (begin_with queue w (pending, at))) left_over
        (subst (λ o. Takes queue work (S.nodes pending) w (begin_with queue w (pending, o)))
          (sym first) (begin_first-Takes queue work w pending))

  -- The section after a handler that returned.
  pub finish-goes_on :
      (queue work : ℕ) (w : World S)
      → IsValid w
      → Uncanceled w
      → let (u, stage) = end_handler queue work completes w in
        (stage ≡ goes_on)
        × (u ≡ (finish queue work w).0)
        × (S.nodes (u.queues queue).pending ≡ S.nodes (w.queues queue).pending)
        × Uncanceled u
        × ((n : ℕ) → (u.works n).handler ≡ (w.works n).handler)
        × Keeps (w.queues queue) (u.queues queue)
  unfolding end_handler finish end_round
  finish-goes_on queue work w v calm =
      let f = (w.works work).flags in
      let its = ==_true {a = work} refl in
      let unflushed : flag_test (flag_clear f running_bit) flushing_bit ≡ false =
        flag_test-clear f running_bit flushing_bit (omega arith) (omega arith) ∙ v.plain work in
      let uncanceled : flag_test (flag_clear f running_bit) canceling_bit ≡ false =
        flag_test-clear f running_bit canceling_bit (omega arith) (omega arith) ∙ calm work in
      rw (its, unflushed, its, uncanceled)
        (
          refl,
          refl,
          rw (==_true {a = queue} refl) refl,
          (λ n. ground (arith, calm n, uncanceled)),
          (λ n. ground arith),
          rw (==_true {a = queue} refl) (record {
            thread = refl;
            notifyq = refl;
            drainq = refl;
            flags = λ i h other.
                ground
                  (arith, flag_test-clear (w.queues queue).flags canceling_bit i (omega arith) h);
          }),
        )

-- What a harmless turn that runs an item leaves: the rest of the list, and what was submitted.
abbrev GoesOn : {S : NodeList} → ℕ → List ℕ → World S → World S × Stage → Type 0
GoesOn {S} queue rest w (u, stage) =
    (stage ≡ goes_on)
    × IsValid u
    × Uncanceled u
    × ((n : ℕ) → (u.works n).handler ≡ (w.works n).handler)
    × ((more : List ℕ) × (S.nodes (u.queues queue).pending ≡ rest ++ more))

module _ {S : NodeList} (laws : IsNodeList S) where
  pub begin_round-Takes :
      (queue work : ℕ) (rest : List ℕ) (w : World S)
      → S.nodes (w.queues queue).pending ≡ work ∷ rest
      → Takes queue work rest w (begin_round queue w)
  unfolding begin_round
  begin_round-Takes queue work rest w h =
      let got = laws.get_lem (w.queues queue).pending ∙ ap split h in
      begin_with-Takes queue work rest w (S.get (w.queues queue).pending) (ap (λ p. p.0) got)
        (ap (λ p. p.1) got)

  -- After a handler that returned, in the world that it left.
  handled-GoesOn :
      (queue work : ℕ) (rest : List ℕ) (turn : Turn S) (w u : World S)
      → IsHarmless queue turn
      → IsValid u
      → Uncanceled u
      → S.nodes (u.queues queue).pending ≡ rest
      → ((n : ℕ) → (u.works n).handler ≡ (w.works n).handler)
      → GoesOn queue rest w (end_handler queue work turn.handled (turn.effect u))
  handled-GoesOn queue work rest turn w u harmless v calm list same =
      let t = turn.effect u in
      let valid = harmless.valid u v in
      subst (λ x. GoesOn queue rest w (end_handler queue work x t)) (sym harmless.returns)
        (let (goes, is_finish, kept, uncanceled, handlers, the_rest) =
            finish-goes_on queue work t valid (harmless.calm u calm) in
          let (more, longer) = harmless.grown u v in
          (
            goes,
            subst IsValid (sym is_finish) (finish-IsValid laws queue work t valid),
            uncanceled,
            (λ n. handlers n ∙ harmless.handlers u n ∙ same n),
            (more, kept ∙ longer ∙ ap (λ l. l ++ more) list),
          ))

  end_with-GoesOn :
      (queue work : ℕ) (rest : List ℕ) (turn : Turn S) (w : World S) (begun : World S × Next)
      → IsHarmless queue turn
      → Uncanceled w
      → IsValid begun.0
      → Takes queue work rest w begun
      → GoesOn queue rest w (end_with queue turn begun)
  unfolding end_with
  end_with-GoesOn queue work rest turn w (u, next) harmless calm v
        (runs_it, list, still, same, kept) =
      subst (λ x. GoesOn queue rest w (end_with queue turn (u, x))) (sym runs_it)
        (handled-GoesOn queue work rest turn w u harmless v (still calm) list same)

  round-GoesOn :
      (queue work : ℕ) (rest : List ℕ) (turn : Turn S) (w : World S)
      → IsHarmless queue turn
      → IsValid w
      → Uncanceled w
      → S.nodes (w.queues queue).pending ≡ work ∷ rest
      → GoesOn queue rest w (round queue turn w)
  unfolding round
  round-GoesOn queue work rest turn w harmless v calm h =
      end_with-GoesOn queue work rest turn w (begin_round queue w) harmless calm
        (begin_round-IsValid laws queue w v) (begin_round-Takes queue work rest w h)

  pub proceed_lem :
      (next : World S → World S × Stage) (r : World S × Stage)
      → r.1 ≡ goes_on
      → proceed next r ≡ next r.0
  proceed_lem next (u, stage) e = ap (λ s. proceed next (u, s)) e

  -- In a valid world in which no item is being canceled, the queue's thread runs the items of its list
  -- in the list's order: after as many turns as stand before an item, whatever their handlers and the
  -- other threads submit meanwhile, provided that the handlers return and nobody cancels or flushes,
  -- the loop has not been left and has not come to a wait, and its next round runs that item with the
  -- handler it had.
  pub runs_in_order :
      (queue work : ℕ) (turns : List (Turn S)) (before after : List ℕ) (w : World S)
      → AllHarmless queue turns
      → length turns ≡ length before
      → IsValid w
      → Uncanceled w
      → S.nodes (w.queues queue).pending ≡ before ++ work ∷ after
      → let (u, stage) = work_queue_main queue turns w in
        (stage ≡ goes_on) × ((begin_round queue u).1 ≡ runs work (w.works work).handler)
  unfolding work_queue_main
  runs_in_order queue work [] [] after w harmless same v calm h =
      (refl, (begin_round-Takes queue work after w h).0)
  runs_in_order queue work [] (b ∷ before) after w harmless same v calm h = absurd (omega arith)
  runs_in_order queue work (t ∷ turns) [] after w harmless same v calm h = absurd (omega arith)
  runs_in_order queue work (t ∷ turns) (b ∷ before) after w (first, others) same v calm h =
      let (goes, valid, uncanceled, handlers, (more, list)) =
        round-GoesOn queue b (before ++ work ∷ after) t w first v calm h in
      let u = (round queue t w).0 in
      let (stage, next) =
        runs_in_order queue work turns before (after ++ more) u others (omega arith) valid
          uncanceled (list ∙ append_assoc before (work ∷ after) more) in
      let r = proceed_lem (work_queue_main queue turns) (round queue t w) goes in
      (
        ap (λ p. p.1) r ∙ stage,
        ap (λ p. (begin_round queue p.0).1) r ∙ next ∙ ap (runs work) (handlers work),
      )
