-- ===== src/WorkQ/Flush.antt =====
-- The rounds of a queue's thread while a flush waits, in src/work-q/work_q.cpp: the items before the
-- flusher run, and the flusher's own round gives its semaphore.
pub mod Waits
use ares_common.Common.{
  ℕ, zero, suc, add_size, ◌+◌, ◌≡◌, ◌≢◌, ◌<◌, refl, sym, ap, ◌∙◌, true, false, not, ◌&&◌, ◌||◌,
  List, [], ◌∷◌, ◌++◌, append_assoc, length, length-append, replicate, take-drop, length-take, drop,
  ◌≤◌, Option, none, some, if◌then◌else◌, ◌==◌, ==_true, ==_false, arith, Bool-cases, inl, inr,
}
use Prim.Native.Nat.{bit_and}
use mathlib.Core.Path.{subst}
use ares_common.Common.Bits.{bit, bit-bit_and}
use ares_common.Queue.{wait, wait_for}
use ares_common.Queue.Bounded.{init, get, put_nonblocking, put_for, sections, force_item, put_item}
use ares_common.Sync.Semaphore.{
  Semaphore, template, take, lock, blocking_lock, unlock, forever, returned, blocked,
}
use ares_common.WorkQ.{World, WorkQueue, set_work, set_queue}
use ares_common.WorkQ.Flags.{
  flag_test, flag_set, flag_clear, running_bit, canceling_bit, queued_bit, flushing_bit,
  flag_test-set, flag_test-clear, flag_test_lem,
}
use ares_common.WorkQ.Nodes.{NodeList, IsNodeList, split, count, count-append, insert_after}
use ares_common.WorkQ.Invariant.{IsValid}
use ares_common.WorkQ.Cancel.{flush, flush_locked, flusher_locked, notify_locked, needs_flush}
use ares_common.WorkQ.Main.{
  begin_round, begin_with, mark_running, finish, end_round, finalize_flush,
}
use ares_common.WorkQ.Loop.{
  Turn, Stage, goes_on, round, end_with, end_handler, work_queue_main, proceed,
}
use ares_common.WorkQ.Loop.Service.{Uncanceled, proceed_lem}
use ares_common.WorkQ.Life.Tokens.{calm_turn}

-- A new semaphore without a token.
abbrev pub no_token : Semaphore
no_token = init (template 1)

-- What a round leaves that runs an item: the rest of the list, the flags that others wait for, and the
-- semaphores.
abbrev Passes : {S : NodeList} → ℕ → List ℕ → World S → World S × Stage → Type 0
Passes {S} queue rest w (u, stage) =
    (stage ≡ goes_on)
    × (S.nodes (u.queues queue).pending ≡ rest)
    × ((n : ℕ)
        → flag_test (u.works n).flags flushing_bit ≡ flag_test (w.works n).flags flushing_bit)
    × Uncanceled u
    × (u.flushers ≡ w.flushers)

-- The round of the flusher itself gives its semaphore.
abbrev pub Gives : {S : NodeList} → ℕ → World S × Stage → Type 0
Gives f (u, stage) =
    (stage ≡ goes_on)
    × ((take 1 forever [] [] (u.flushers f)).outcome ≡ returned tt)
    × (flag_test (u.works f).flags flushing_bit ≡ false)

-- A semaphore without a token is given one, which can then be taken and could not before.
given : (unlock 1 [] no_token).outcome ≡ returned tt
unfolding unlock put_nonblocking put_for wait_for wait init sections force_item put_item add_size
given = refl

taken : (take 1 forever [] [] (unlock 1 [] no_token).after).outcome ≡ returned tt
unfolding take lock blocking_lock get unlock put_nonblocking put_for wait_for wait init sections
    force_item put_item add_size
taken = refl

pub not_taken : (take 1 forever [] [] no_token).outcome ≡ blocked
unfolding take lock blocking_lock get wait init
not_taken = refl

-- The flags of an item after its round, but for those of running and being queued.
abbrev ran_flags : ℕ → ℕ
ran_flags f = flag_clear (flag_clear (flag_set f running_bit) queued_bit) running_bit

ran_flags_lem :
    (f i : ℕ) → 0 < i → i ≢ queued_bit → i < 32 → flag_test (ran_flags f) i ≡ flag_test f i
ran_flags_lem f i p q h =
    flag_test-clear (flag_clear (flag_set f running_bit) queued_bit) running_bit i (omega arith) h
    ∙ ground (
      arith,
      flag_test-clear (flag_set f running_bit) queued_bit i (omega arith) h,
      flag_test-set f running_bit i h,
    )

ran-flushing : (f : ℕ) → flag_test (ran_flags f) flushing_bit ≡ flag_test f flushing_bit
ran-flushing f =
    ran_flags_lem f flushing_bit (omega arith) (λ e. absurd (omega arith)) (omega arith)

ran-canceling : (f : ℕ) → flag_test (ran_flags f) canceling_bit ≡ flag_test f canceling_bit
ran-canceling f =
    ran_flags_lem f canceling_bit (omega arith) (λ e. absurd (omega arith)) (omega arith)

module _ {S : NodeList} where
  first-Passes :
      (queue work : ℕ) (w : World S) (pending : S.Nodes)
      → flag_test (w.works work).flags flushing_bit ≡ false
      → Uncanceled w
      → Passes queue
          (S.nodes pending)
          w
          (end_with queue calm_turn (begin_with queue w (pending, some work)))
  unfolding end_with end_handler begin_with mark_running finish end_round
  first-Passes queue work w pending plain calm =
      let f = (w.works work).flags in
      let its = ==_true {a = work} refl in
      let here = ==_true {a = queue} refl in
      let unflushed = ran-flushing f ∙ plain in
      let uncanceled = ran-canceling f ∙ calm work in
      rw (its, unflushed, its, uncanceled, here)
        (
          refl,
          refl,
          (λ n. ground (arith, unflushed, plain)),
          (λ n. ground (arith, uncanceled, calm n)),
          refl,
        )

  first-Gives :
      (queue f : ℕ) (w : World S) (pending : S.Nodes)
      → flag_test (w.works f).flags flushing_bit ≡ true
      → Uncanceled w
      → w.flushers f ≡ no_token
      → Gives f (end_with queue calm_turn (begin_with queue w (pending, some f)))
  unfolding end_with end_handler begin_with mark_running finish end_round finalize_flush
  first-Gives queue f w pending flushing calm empty =
      let g = ran_flags (w.works f).flags in
      let its = ==_true {a = f} refl in
      let flushed = ran-flushing (w.works f).flags ∙ flushing in
      let uncanceled : flag_test (flag_clear g flushing_bit) canceling_bit ≡ false =
        flag_test-clear g flushing_bit canceling_bit (omega arith) (omega arith)
        ∙ ran-canceling (w.works f).flags
        ∙ calm f in
      rw (its, flushed, empty, given, its, uncanceled, its)
        (refl, taken, flag_test-clear g flushing_bit flushing_bit (omega arith) (omega arith))

-- While the items before a flusher run, which are not flushers themselves.
abbrev pub Awaits : {S : NodeList} → ℕ → ℕ → List ℕ → World S → Type 0
Awaits {S} queue f list w =
    (S.nodes (w.queues queue).pending ≡ list)
    × ((n : ℕ) → flag_test (w.works n).flags flushing_bit ≡ (n == f))
    × Uncanceled w
    × (w.flushers f ≡ no_token)

module _ {S : NodeList} (laws : IsNodeList S) where
  round-Awaits :
      (queue f work : ℕ) (list : List ℕ) (w : World S)
      → work ≢ f
      → Awaits queue f (work ∷ list) w
      → let (u, stage) = round queue calm_turn w in (stage ≡ goes_on) × Awaits queue f list u
  unfolding round begin_round
  round-Awaits queue f work list w other (pending, flushing, calm, empty) =
      let got = laws.get_lem (w.queues queue).pending ∙ ap split pending in
      let r = S.get (w.queues queue).pending in
      let at : r ≡ (r.0, some work) = ap (λ o. (r.0, o)) (ap (λ p. p.1) got) in
      let (goes, rest, same, uncanceled, flushers) : Passes queue (S.nodes r.0) w
          (end_with queue calm_turn (begin_with queue w r)) =
        subst (λ g. Passes queue (S.nodes r.0) w (end_with queue calm_turn (begin_with queue w g)))
          (sym at) (first-Passes queue work w r.0 (flushing work ∙ ==_false other) calm) in
      (
        goes,
        (
          rest ∙ ap (λ p. p.0) got,
          (λ n. same n ∙ flushing n),
          uncanceled,
          ap (λ s. s f) flushers ∙ empty,
        ),
      )

  pub main-Awaits :
      (queue f : ℕ) (before list : List ℕ) (w : World S)
      → count f before ≡ 0
      → Awaits queue f (before ++ list) w
      → Awaits queue f list (work_queue_main queue (replicate (length before) calm_turn) w).0
  unfolding work_queue_main
  main-Awaits queue f [] list w lacks a = a
  main-Awaits queue f (work ∷ before) list w lacks a =
      let (goes, next) =
        round-Awaits queue f work (before ++ list) w (λ e. ground (arith, lacks, e)) a in
      let turns : List (Turn S) = replicate (length before) calm_turn in
      subst (λ r. Awaits queue f list r.0)
        (sym (proceed_lem laws (work_queue_main queue turns) (round queue calm_turn w) goes))
        (main-Awaits queue f before list (round queue calm_turn w).0 (ground (arith, lacks)) next)

  pub round-Gives :
      (queue f : ℕ) (list : List ℕ) (w : World S)
      → Awaits queue f (f ∷ list) w
      → Gives f (round queue calm_turn w)
  unfolding round begin_round
  round-Gives queue f list w (pending, flushing, calm, empty) =
      let got = laws.get_lem (w.queues queue).pending ∙ ap split pending in
      let r = S.get (w.queues queue).pending in
      subst (λ g. Gives f (end_with queue calm_turn (begin_with queue w g)))
        (sym (ap (λ o. (r.0, o)) (ap (λ p. p.1) got)))
        (first-Gives queue f w r.0 (flushing f ∙ ==_true refl) calm empty)
