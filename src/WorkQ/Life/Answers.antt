-- ===== src/WorkQ/Life/Answers.antt =====
-- The turns of a queue's thread until it answers a drain, in src/work-q/work_q.cpp.
use ares_common.Common.{
  ℕ, ◌≡◌, ◌≢◌, ◌<◌, suc, refl, sym, ap, ◌∙◌, true, false, not, ◌&&◌, List, [], ◌∷◌, length,
  replicate, Option, none, some, if◌then◌else◌, ◌==◌, ==_true, Bool, arith,
}
use mathlib.Core.Path.{subst}
use ares_common.Queue.Bounded.{get}
use ares_common.WorkQ.{World, WorkQueue, set_queue, token, post}
use ares_common.WorkQ.Flags.{flag_test, busy_bit, drain_bit, flag_test-clear}
use ares_common.WorkQ.Nodes.{NodeList, IsNodeList, split}
use ares_common.WorkQ.Invariant.{IsValid, queue-Agrees, Agrees-IsValid}
use ares_common.WorkQ.Steps.{begin_round-IsValid, finish-IsValid}
use ares_common.WorkQ.Main.{Next, begin_round, begin_with}
use ares_common.WorkQ.Drain.{begin_idle}
use ares_common.WorkQ.Loop.{
  Turn, Stage, goes_on, stuck, round, end_with, take_token, work_queue_main, proceed, resume,
}
use ares_common.WorkQ.Loop.Service.{
  Uncanceled, Keeps, trans-Keeps, begin_round-Takes, Takes, finish-goes_on, proceed_lem,
}
use ares_common.WorkQ.Life.Tokens.{calm_turn, get-token, get-nothing, tokens, place_of}

-- A round that runs an item whose handler does nothing.
abbrev Shrinks : {S : NodeList} → ℕ → List ℕ → World S → World S × Stage → Type 0
Shrinks {S} queue rest w (u, stage) =
    (stage ≡ goes_on)
    × IsValid u
    × Uncanceled u
    × (S.nodes (u.queues queue).pending ≡ rest)
    × Keeps (w.queues queue) (u.queues queue)

-- A round that answers a drain.
abbrev pub Answers : {S : NodeList} → WorkQueue S → WorkQueue S → Type 0
Answers {S} q p =
    (S.nodes p.pending ≡ [])
    × (p.thread ≡ q.thread)
    × (p.drainq ≡ post 1 q.drainq)
    × (p.notifyq.size ≡ 0)
    × ((i : ℕ)
        → i < 32
        → i ≢ busy_bit
        → flag_test p.flags i ≡ not (drain_bit == i) && flag_test q.flags i)

module _ {S : NodeList} (laws : IsNodeList S) where
  end_with-Shrinks :
      (queue work : ℕ) (rest : List ℕ) (w : World S) (begun : World S × Next)
      → Uncanceled w
      → IsValid begun.0
      → Takes queue work rest w begun
      → Shrinks queue rest w (end_with queue calm_turn begun)
  unfolding end_with
  end_with-Shrinks queue work rest w (u, next) calm v (runs_it, list, still, same, kept) =
      subst (λ x. Shrinks queue rest w (end_with queue calm_turn (u, x))) (sym runs_it)
        (let (goes, is_finish, as_before, uncanceled, handlers, kept_too) =
            finish-goes_on queue work u v (still calm) in
          (
            goes,
            subst IsValid (sym is_finish) (finish-IsValid laws queue work u v),
            uncanceled,
            as_before ∙ list,
            trans-Keeps kept kept_too,
          ))

  round-Shrinks :
      (queue work : ℕ) (rest : List ℕ) (w : World S)
      → IsValid w
      → Uncanceled w
      → S.nodes (w.queues queue).pending ≡ work ∷ rest
      → Shrinks queue rest w (round queue calm_turn w)
  unfolding round
  round-Shrinks queue work rest w v calm h =
      end_with-Shrinks queue work rest w (begin_round queue w) calm
        (begin_round-IsValid laws queue w v) (begin_round-Takes laws queue work rest w h)

  end_with-Answers :
      (asleep : Bool) (queue : ℕ) (w : World S) (got : S.Nodes × Option ℕ)
      → flag_test (w.queues queue).flags drain_bit ≡ true
      → (w.queues queue).notifyq.size ≡ tokens asleep
      → S.nodes got.0 ≡ []
      → got.1 ≡ none
      → let (u, stage) = end_with queue calm_turn (begin_with queue w got) in
        (stage ≡ place_of asleep) × Answers (w.queues queue) (u.queues queue)
  unfolding begin_with end_with take_token
  end_with-Answers asleep queue w (pending, some first) draining posted left_over nothing =
      absurd (ground arith)
  end_with-Answers true queue w (pending, none) draining posted left_over nothing =
      let q = w.queues queue in
      let w' = set_queue queue (record q { pending = pending }) w in
      let here = ==_true {a = queue} refl in
      let (got, none_left) = get-nothing q.notifyq posted in
      rw (begin_idle queue w' (rw here draining), here, got)
        (
          refl,
          rw here (
            left_over,
            refl,
            refl,
            none_left,
            λ i h other. flag_test-clear q.flags drain_bit i (omega arith) h,
          ),
        )
  end_with-Answers false queue w (pending, none) draining posted left_over nothing =
      let q = w.queues queue in
      let w' = set_queue queue (record q { pending = pending }) w in
      let here = ==_true {a = queue} refl in
      let (x, got, none_left) = get-token q.notifyq posted in
      rw (begin_idle queue w' (rw here draining), here, got)
        (
          refl,
          rw here (
            left_over,
            refl,
            refl,
            none_left,
            λ i h other. flag_test-clear q.flags drain_bit i (omega arith) h,
          ),
        )

  Keeps-Answers : (q p r : WorkQueue S) → Keeps q p → Answers p r → Answers q r
  Keeps-Answers q p r k (list, thread, drainq, none_left, flags) = (
    list,
    thread ∙ k.thread,
    drainq ∙ ap (post 1) k.drainq,
    none_left,
    λ i h other. flags i h other ∙ ap (λ b. not (drain_bit == i) && b) (k.flags i h other),
  )

  -- The first of the turns ends in the wait.
  proceed-stuck :
      (next : World S → World S × Stage) (r : World S × Stage) → r.1 ≡ stuck → proceed next r ≡ r
  proceed-stuck next (u, stage) e = ap (λ s. proceed next (u, s)) e ∙ ap (λ s. (u, s)) (sym e)

  -- The last of the given turns.
  main-last :
      (asleep : Bool) (queue : ℕ) (r : World S × Stage)
      → r.1 ≡ place_of asleep
      → proceed (work_queue_main queue []) r ≡ r
  unfolding work_queue_main
  main-last true queue r e = proceed-stuck (work_queue_main queue []) r e
  main-last false queue (u, stage) e =
      ap (λ s. proceed (work_queue_main queue []) (u, s)) e ∙ ap (λ s. (u, s)) (sym e)

  -- As many rounds as there are items, and one that answers the drain.
  main-Answers :
      (asleep : Bool) (queue : ℕ) (l : List ℕ) (w : World S)
      → IsValid w
      → Uncanceled w
      → flag_test (w.queues queue).flags drain_bit ≡ true
      → (w.queues queue).notifyq.size ≡ tokens asleep
      → S.nodes (w.queues queue).pending ≡ l
      → let r = work_queue_main queue (replicate (suc (length l)) calm_turn) w in
        (r.1 ≡ place_of asleep) × Answers (w.queues queue) (r.0.queues queue)
  unfolding work_queue_main round begin_round
  main-Answers asleep queue [] w v calm draining posted h =
      let got = laws.get_lem (w.queues queue).pending ∙ ap split h in
      let ended =
        end_with-Answers asleep queue w (S.get (w.queues queue).pending) draining posted
          (ap (λ p. p.0) got) (ap (λ p. p.1) got) in
      subst (λ r. (r.1 ≡ place_of asleep) × Answers (w.queues queue) (r.0.queues queue))
        (sym (main-last asleep queue (round queue calm_turn w) ended.0)) ended
  main-Answers asleep queue (work ∷ l) w v calm draining posted h =
      let (goes, valid, uncanceled, list, kept) = round-Shrinks queue work l w v calm h in
      let u = (round queue calm_turn w).0 in
      let turns : List (Turn S) = replicate (suc (length l)) calm_turn in
      let (place, answers) =
        main-Answers asleep queue l u valid uncanceled
          (kept.flags drain_bit (omega arith) (λ e. absurd (omega arith)) ∙ draining)
          (ap (λ d. d.size) kept.notifyq ∙ posted) list in
      subst (λ r. (r.1 ≡ place_of asleep) × Answers (w.queues queue) (r.0.queues queue))
        (sym (proceed_lem laws (work_queue_main queue turns) (round queue calm_turn w) goes))
        (
          place,
          Keeps-Answers (w.queues queue) (u.queues queue)
              ((work_queue_main queue turns u).0.queues queue) kept answers,
        )

  -- A thread that sleeps takes the token of whoever wakes it.
  pub take_token-wakes :
      (queue : ℕ) (w : World S)
      → (w.queues queue).notifyq.size ≡ 1
      → let q = w.queues queue in
        let left_over = (get token false [] q.notifyq).after in
        (take_token queue w ≡ (set_queue queue (record q { notifyq = left_over }) w, goes_on))
        × (left_over.size ≡ 0)
  unfolding take_token
  take_token-wakes queue w posted =
      let (x, got, none_left) = get-token (w.queues queue).notifyq posted in
      (rw got refl, none_left)

  -- The same from either place, for a queue with a token.
  pub resume-Answers :
      (asleep : Bool) (queue : ℕ) (l : List ℕ) (w : World S)
      → IsValid w
      → Uncanceled w
      → flag_test (w.queues queue).flags drain_bit ≡ true
      → (w.queues queue).notifyq.size ≡ 1
      → S.nodes (w.queues queue).pending ≡ l
      → let r = resume (place_of asleep) queue (replicate (suc (length l)) calm_turn) w in
        (r.1 ≡ place_of asleep) × Answers (w.queues queue) (r.0.queues queue)
  unfolding resume
  resume-Answers false queue l w v calm draining posted h =
      main-Answers false queue l w v calm draining posted h
  resume-Answers true queue l w v calm draining posted h =
      let (wakes, none_left) = take_token-wakes queue w posted in
      let q = w.queues queue in
      let awake = record q { notifyq = (get token false [] q.notifyq).after } in
      let u = set_queue queue awake w in
      let turns : List (Turn S) = replicate (suc (length l)) calm_turn in
      let at : u.queues queue ≡ awake =
        ap (λ b. if b then awake else q) (==_true {a = queue} refl) in
      let r = work_queue_main queue turns u in
      let (place, answers) =
        main-Answers true queue l u (Agrees-IsValid (queue-Agrees queue awake refl) v) calm
          (ap (λ p. flag_test p.flags drain_bit) at ∙ draining)
          (ap (λ p. p.notifyq.size) at ∙ none_left) (ap (λ p. S.nodes p.pending) at ∙ h) in
      subst (λ x. (x.1 ≡ stuck) × Answers q (x.0.queues queue))
        (sym (ap (proceed (work_queue_main queue turns)) wakes))
        (place, subst (λ p. Answers p (r.0.queues queue)) at answers)
