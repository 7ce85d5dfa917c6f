-- ===== src/WorkQ/Drain.antt =====
-- Draining and plugging: a drain is answered when no item is left, and a plugged queue takes none.
use Prim.Native.Nat.{bit_and}
use ares_common.Common.{
  ℕ, ◌<◌, ◌≡◌, refl, sym, ap, ◌∙◌, ◌⊎◌, inl, inr, true, false, not, ◌&&◌, ◌||◌, List, [], ◌∷◌,
  Option, none, some, Bool-cases, ==_true, ◌==◌, arith,
}
use ares_common.Common.Int.{pos}
use Prim.Native.String.{String}
use ares_common.Queue.Bounded.{clear}
use ares_common.Task.Lifecycle.{running_refuses}
use ares_common.Task.{Task, ebusy, running, threw, task_exception, value, set_essential}
use ares_common.WorkQ.{WorkQueue, World, set_queue, post}
use ares_common.WorkQ.Flags.{
  flag_test, flag_set, flag_clear, flag_test_and_clear, started_bit, drain_bit, plugged_bit,
  busy_bit, flag_test-set, flag_test-clear,
}
use ares_common.WorkQ.Nodes.{NodeList, IsNodeList, split}
use ares_common.WorkQ.Submit.{admission}
use ares_common.WorkQ.Queue.{
  Config, configure, set_named, begin_drain, must_drain, unplug, start, start_flags, prepare,
}
use ares_common.WorkQ.Steps.{split-empty, split-some}
use ares_common.WorkQ.Main.{Next, runs, waits, begin_round, begin_with, idle}

-- What the flags are after a drain that plugs, once it is answered, and after an unplug.
abbrev drained_flags : ℕ → ℕ
drained_flags f = flag_clear (flag_set (flag_set f drain_bit) plugged_bit) drain_bit

drained_flags_lem :
    (f i : ℕ)
    → i < 32
    → flag_test (drained_flags f) i
      ≡ not (drain_bit == i) && ((plugged_bit == i) || ((drain_bit == i) || flag_test f i))
drained_flags_lem f i h =
    flag_test-clear _ drain_bit i (omega arith) h
    ∙ ap (λ b. not (drain_bit == i) && b)
        (flag_test-set _ plugged_bit i h
          ∙ ap (λ b. (plugged_bit == i) || b) (flag_test-set f drain_bit i h))

unplugged_lem :
    (f i : ℕ)
    → i < 32
    → flag_test (flag_clear (drained_flags f) plugged_bit) i
      ≡ not (plugged_bit == i) && flag_test (drained_flags f) i
unplugged_lem f i h = flag_test-clear _ plugged_bit i (omega arith) h

module _ {S : NodeList} where
  pub plug-done :
      (q : WorkQueue S)
      → flag_test q.flags started_bit ≡ true
      → begin_drain true q ≡ (
        record q {
          flags = flag_set (flag_set q.flags drain_bit) plugged_bit;
          notifyq = post 0 q.notifyq;
        },
        none,
      )
  unfolding begin_drain must_drain
  plug-done q started = elim (Bool-cases (bit_and q.flags 6 == 0)) [
    | inl none_busy ↦ rw (started, none_busy) refl
    | inr some_busy ↦ rw (started, some_busy) refl
  ]

  -- A started queue that is plugged refuses every item of every thread from when its drain has been
  -- answered until it is unplugged, and takes every item after that.
  pub plug_lem :
      (q : WorkQueue S)
      → flag_test q.flags started_bit ≡ true
      → let (plugged, code) = begin_drain true q in
        let drained = record plugged { flags = flag_clear plugged.flags drain_bit } in
        let (open_again, unplugged) = unplug drained in
        (code ≡ none)
        × (plugged.pending ≡ q.pending)
        × ((caller : ℕ) → admission caller drained ≡ ebusy)
        × (unplugged ≡ pos 0)
        × ((caller : ℕ) → admission caller open_again ≡ pos 1)
  unfolding unplug flag_test_and_clear admission
  plug_lem q started =
      let f = q.flags in
      let started_still = drained_flags_lem f started_bit (omega arith) ∙ started in
      let plugged_now = drained_flags_lem f plugged_bit (omega arith) in
      let drained_now = drained_flags_lem f drain_bit (omega arith) in
      rw (plug-done q started) (
        refl,
        refl,
        (λ caller. rw (started_still, plugged_now, drained_now) refl),
        rw plugged_now refl,
        (λ caller.
            rw
              (
                unplugged_lem f started_bit (omega arith) ∙ started_still,
                unplugged_lem f plugged_bit (omega arith),
                unplugged_lem f drain_bit (omega arith) ∙ drained_now,
              )
              refl),
      )

  pub begin_idle :
      (queue : ℕ) (w : World S)
      → flag_test (w.queues queue).flags drain_bit ≡ true
      → idle queue w ≡ (
        set_queue queue
            (record (w.queues queue) {
              flags = flag_clear (w.queues queue).flags drain_bit;
              drainq = post 1 (w.queues queue).drainq;
            })
            w,
        waits,
      )
  unfolding idle flag_test_and_clear
  begin_idle queue w draining = rw draining refl

-- What a round comes to while a drain is asked for: it takes the first item and leaves the drain
-- unanswered, or there is no item and it answers.
abbrev pub Drains : {S : NodeList} → ℕ → World S → World S × Next → Type 0
Drains {S} queue w (u, next) =
    ((first : ℕ) × (rest : List ℕ) × (S.nodes (w.queues queue).pending ≡ first ∷ rest)
      × (next ≡ runs first (w.works first).handler)
      × (S.nodes (u.queues queue).pending ≡ rest)
      × ((u.queues queue).drainq ≡ (w.queues queue).drainq)
      × (flag_test (u.queues queue).flags drain_bit ≡ true))
    ⊎ ((S.nodes (w.queues queue).pending ≡ [])
        × (next ≡ waits)
        × ((u.queues queue).drainq ≡ post 1 (w.queues queue).drainq)
        × (flag_test (u.queues queue).flags drain_bit ≡ false))

-- A running task is not configured.
configure-running :
    (config : Option Config) (t : Task (Unit {0})) → t.state ≡ running → configure config t ≡ t
unfolding configure
configure-running none t busy = refl
configure-running (some config) t busy =
    ap (λ u. (set_essential config.essential u).0) (named config.name)
    ∙ ap (λ p. p.0) (running_refuses t "" config.essential none 0 (value tt) busy).1
  where
    named : (name : Option String) → set_named name t ≡ t
    named none = refl
    named (some name) = ap (λ p. p.0) (running_refuses t name false none 0 (value tt) busy).0

module _ {S : NodeList} (laws : IsNodeList S) where
  drain_with :
      (queue : ℕ) (w : World S) (got : S.Nodes × Option ℕ)
      → flag_test (w.queues queue).flags drain_bit ≡ true
      → (S.nodes got.0, got.1) ≡ split (S.nodes (w.queues queue).pending)
      → Drains queue w (begin_with queue w got)
  unfolding begin_with
  drain_with queue w (pending, none) draining e =
      let w' = set_queue queue (record (w.queues queue) { pending = pending }) w in
      let here = ==_true {a = queue} refl in
      rw (begin_idle queue w' (rw here draining)) (
        inr (
          split-empty _ _ e,
          refl,
          rw here refl,
          rw here (
              flag_test-clear (w.queues queue).flags drain_bit drain_bit (omega arith)
                (omega arith)),
        ))
  drain_with queue w (pending, some first) draining e =
      let here = ==_true {a = queue} refl in
      inl (
        first,
        S.nodes pending,
        sym (split-some _ _ first e),
        refl,
        rw here refl,
        rw here refl,
        rw here (flag_test-set (w.queues queue).flags busy_bit drain_bit (omega arith) ∙ draining),
      )

  -- While a drain is asked for, a round of the queue's thread that finds an item takes the first one
  -- and leaves the drain unanswered, its flag set; a round that finds none answers it with 1, clears
  -- the flag and waits.
  pub drain_lem :
      (queue : ℕ) (w : World S)
      → flag_test (w.queues queue).flags drain_bit ≡ true
      → Drains queue w (begin_round queue w)
  unfolding begin_round
  drain_lem queue w draining =
      drain_with queue w (S.get (w.queues queue).pending) draining
        (laws.get_lem (w.queues queue).pending)

  -- `start` of a queue whose thread runs throws, but has by then emptied the queue's list, both token
  -- queues and the flags.
  pub start-running :
      (thread : Option ℕ) (config : Option Config) (q : WorkQueue S)
      → q.thread.state ≡ running
      → let (p, ended) = start thread config q in
        (ended
          ≡ threw (task_exception "Cannot run/start a task that is already in the `run` state."))
        × (S.nodes p.pending ≡ [])
        × (p.notifyq.size ≡ 0)
        × (p.drainq.size ≡ 0)
        × (p.flags ≡ start_flags config)
        × (p.thread ≡ q.thread)
  unfolding start prepare clear
  start-running thread config q busy =
      let same = configure-running config q.thread busy in
      let refused = (running_refuses q.thread "" false thread 0 (value tt) busy).2 in
      (
        rw same (ap (λ p. p.1) refused),
        laws.nodes-init,
        refl,
        refl,
        refl,
        rw same (ap (λ p. p.0) refused),
      )
