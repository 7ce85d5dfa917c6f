-- ===== src/Sync/Semaphore/Refine.antt =====
-- semaphore<count> implements the counter.
use ares_common.Common.{
  ℕ, ◌+◌, ◌-◌, ◌≡◌, refl, ap, ◌∙◌, Bool, true, false, not, List, [], ◌∷◌, ◌++◌, ◌==◌, arith,
  add_size_lem, sub_size_lem, Bool-cases, inl, inr,
}
use ares_common.Common.Int.{ℤ, int_eq}
use ares_common.Queue.{
  Waited, wait, wait_for, timeout_reason, queue_empty, queue_full, queue_timeout, Reason,
}
use ares_common.Queue
use ares_common.Queue.Wait.{view_wait, wait-view, wait-keeps, wait-held, wait_for_lem}
use ares_common.Queue.Bounded.{
  IsTemplate, Section, puts, forces, gets, clears, section, sections, put_item, force_item,
  get_item, clear, has_space, has_item, get, get_for, put_for, put_nonblocking, end_get,
  end_put_for,
}
use ares_common.Queue.Bounded.Invariant.{IsValid, section-IsValid, sections-IsValid}
use ares_common.Sync.Semaphore.{
  Semaphore, template, Exception, blocked, Ended, forever, no_wait, lock, lock_failure,
  unlock_failure, unlock, blocking_lock, nonblocking_lock, ended, outcome_of, queue_exception,
}
use ares_common.Sync.Semaphore.Counter

-- An ended call seen through a view of the state.
abbrev pub view_ended : {A S T : Type 0} → (S → T) → Ended S A → Ended T A
view_ended view e = record { after = view e.after; outcome = e.outcome }

-- The count of a semaphore.
abbrev pub level : Semaphore → ℕ
level s = s.size

module _ {count : ℕ} (good : IsTemplate (template count)) where
  abbrev Valid : Semaphore → Type 0
  Valid s = IsValid (template count) s

  -- Each critical section moves the count as it moves the counter.
  pub size-section :
      (c : Section ℕ) (s : Semaphore)
      → Valid s
      → (section (template count) c s).size ≡ Counter.section count c s.size
  unfolding section Counter.section put_item force_item get_item clear
  size-section (puts x) s v = ground (arith, add_size_lem s.size 1, v.size_in, good.small)
  size-section (forces x) s v = ground (arith, add_size_lem s.size 1, v.size_in, good.small)
  size-section gets s v = ground (arith, sub_size_lem s.size 1, v.size_in, good.small)
  size-section clears s v = refl

  pub size-sections :
      (cs : List (Section ℕ)) (s : Semaphore)
      → Valid s
      → (sections (template count) cs s).size ≡ Counter.sections count cs s.size
  unfolding sections Counter.sections
  size-sections [] s v = refl
  size-sections (c ∷ cs) s v =
      size-sections cs (section (template count) c s) (section-IsValid good c s v)
      ∙ ap (Counter.sections count cs) (size-section c s v)

  module _ {s : Semaphore} (v : Valid s) (turns : List (List (Section ℕ))) where
    wait-available :
        view_wait level (wait (sections (template count)) (has_item (template count)) false s turns)
        ≡ wait (Counter.sections count) (Counter.available count) false s.size turns
    wait-available =
        wait-view _ _ _ _ false level Valid (sections-IsValid good) (λ q _. refl) size-sections s
          turns v

    wait_space :
        view_wait level
          (wait (sections (template count)) (has_space (template count)) false s turns)
        ≡ wait (Counter.sections count) (λ k. not (k == count)) false s.size turns
    wait_space =
        wait-view _ _ _ _ false level Valid (sections-IsValid good) (λ q _. refl) size-sections s
          turns v

  size-get_item :
      (s : Semaphore)
      → Valid s
      → true ≡ has_item (template count) s
      → (get_item (template count) s).size ≡ s.size - 1
  unfolding get_item
  size-get_item s v e = ground (arith, sub_size_lem s.size 1, v.size_in, good.small)

  pub size-force_item :
      (s : Semaphore)
      → Valid s
      → true ≡ has_space (template count) s
      → (force_item (template count) 0 s).size ≡ s.size + 1
  unfolding force_item put_item
  size-force_item s v e = ground (arith, add_size_lem s.size 1, v.size_in, good.small)

  end_lock_view :
      (failed : Queue.Reply ℕ) (failure : Reason → Exception) (s : Semaphore) (n : ℕ) (h : Bool)
      → Valid s
      → h ≡ has_item (template count) s
      → view_ended level (
          ended failure
            (end_get (template count) failed (record { state = s; calls = n; held = h })))
        ≡ Counter.end_lock count
            (outcome_of failure failed)
            (record { state = s.size; calls = n; held = h })
  end_lock_view failed failure s n true v e = rw (size-get_item s v e)
  end_lock_view failed failure s n false v e = refl

  end_unlock_view :
      (s : Semaphore) (n : ℕ) (h : Bool)
      → Valid s
      → h ≡ has_space (template count) s
      → view_ended level (
          ended unlock_failure
            (end_put_for (template count) 0 no_wait (record { state = s; calls = n; held = h })))
        ≡ Counter.end_unlock count (record { state = s.size; calls = n; held = h })
  unfolding unlock_failure timeout_reason
  end_unlock_view s n true v e = rw (size-force_item s v e)
  end_unlock_view s n false v e = refl

  lock_failure_lem :
      (timeout : ℤ)
      → outcome_of {A = ℕ} lock_failure (Queue.threw (timeout_reason timeout queue_empty))
        ≡ Counter.lock_failed count timeout
  unfolding lock_failure timeout_reason
  lock_failure_lem timeout = ground arith

  module _ {s : Semaphore} (v : Valid s) where
    blocking_lock_refines :
        (turns : List (List (Section ℕ)))
        → view_ended level (blocking_lock count turns s)
          ≡ Counter.end_lock count blocked
              (wait (Counter.sections count) (Counter.available count) false s.size turns)
    unfolding blocking_lock get
    blocking_lock_refines turns =
        let w : Waited Semaphore =
          wait (sections (template count)) (has_item (template count)) false s turns in
        end_lock_view Queue.blocked queue_exception w.state w.calls w.held
          (wait-keeps _ _ false Valid (sections-IsValid good) s turns v)
          (wait-held _ _ false s turns)
        ∙ ap (Counter.end_lock count blocked) (wait-available v turns)

    pub nonblocking_lock_refines :
        (timeout : ℤ) (turns : List (List (Section ℕ))) (last : List (Section ℕ))
        → view_ended level (nonblocking_lock count timeout turns last s)
          ≡ Counter.end_lock count
              (Counter.lock_failed count timeout)
              (wait_for (Counter.sections count) (Counter.available count) false s.size turns last)
    unfolding nonblocking_lock get_for
    nonblocking_lock_refines timeout turns last =
        let rounds : List (List (Section ℕ)) = turns ++ last ∷ [] in
        let w : Waited Semaphore =
          wait (sections (template count)) (has_item (template count)) false s rounds in
        rw
          (
            wait_for_lem (sections (template count)),
            wait_for_lem (Counter.sections count),
            ← lock_failure_lem timeout,
          )
          (end_lock_view (Queue.threw (timeout_reason timeout queue_empty)) lock_failure w.state
              w.calls w.held (wait-keeps _ _ false Valid (sections-IsValid good) s rounds v)
              (wait-held _ _ false s rounds)
            ∙ ap (Counter.end_lock count _) (wait-available v rounds))

    -- `lock` on a valid semaphore, for every timeout and whatever other threads do meanwhile, ends as
    -- the lock of a counter between 0 and `count` does and leaves the count where that leaves it.
    pub lock_refines :
        (timeout : ℤ) (turns : List (List (Section ℕ))) (last : List (Section ℕ))
        → view_ended level (lock count timeout turns last s)
          ≡ Counter.lock count timeout turns last s.size
    unfolding lock Counter.lock
    lock_refines timeout turns last = elim (Bool-cases (int_eq timeout forever)) [
      | inl endless ↦ rw endless (blocking_lock_refines turns)
      | inr timed ↦ rw timed (nonblocking_lock_refines timeout turns last)
    ]

    -- `unlock` on a valid semaphore ends as that of a counter between 0 and `count` does: it raises
    -- the count by one, or throws and leaves it if the count is `count`.
    pub unlock_refines :
        (last : List (Section ℕ))
        → view_ended level (unlock count last s) ≡ Counter.unlock count last s.size
    unfolding unlock put_nonblocking put_for Counter.unlock
    unlock_refines last =
        let rounds : List (List (Section ℕ)) = last ∷ [] in
        let w : Waited Semaphore =
          wait (sections (template count)) (has_space (template count)) false s rounds in
        rw (wait_for_lem (sections (template count)), wait_for_lem (Counter.sections count))
          (end_unlock_view w.state w.calls w.held
              (wait-keeps _ _ false Valid (sections-IsValid good) s rounds v)
              (wait-held _ _ false s rounds)
            ∙ ap (Counter.end_unlock count) (wait_space v rounds))
