-- ===== src/Sync/Semaphore/Laws.antt =====
-- How many threads semaphore<count> lets through, and which exceptions its calls throw.
use ares_common.Common.{
  ℕ, zero, suc, ◌+◌, ◌-◌, ◌≤◌, ◌≡◌, ◌≢◌, refl, ap, ◌∙◌, Bool, false, not, List, [], ◌∷◌, ◌++◌, ◌==◌,
  if◌then◌else◌, arith, inr, ◌⊎◌, ok, err, Result, min, ==_false,
}
use ares_common.Common.Int.{ℤ, int_eq}
use ares_common.Queue.{Waited, wait, wait_for, Reason, Call}
use ares_common.Queue
use ares_common.Queue.Wait.{wait-held, wait_for_lem, wait_ready}
use ares_common.Queue.Bounded.{
  IsTemplate, Section, sections, force_item, put_nonblocking, put_for, has_space, init,
}
use ares_common.Queue.Bounded.Invariant.{IsValid, init-IsValid, force_item-IsValid}
use ares_common.Sync.Semaphore.{
  Semaphore, template, next_put, Exception, returned, threw, blocked, forever, no_wait, lock,
  unlock, try_lock, create, create_full, fill, timeout_exception, semaphore_exception,
}
use ares_common.Sync.Semaphore.Counter
use ares_common.Sync.Semaphore.Refine.{
  lock_refines, unlock_refines, nonblocking_lock_refines, size-force_item,
}

module _ {count : ℕ} (good : IsTemplate (template count)) where
  -- A non-blocking `put` with room ends at once.
  put_ready :
      (s : Semaphore)
      → s.size ≢ count
      → put_nonblocking (template count) 0 [] s
        ≡ record { after = force_item (template count) 0 s; calls = 0; reply = Queue.returned tt }
  unfolding put_nonblocking put_for
  put_ready s room = rw (wait_for_lem (sections (template count))) (
      rw (
        wait_ready (sections (template count)) (has_space (template count)) false s ([] ∷ [])
          (ap not (==_false room))))

  fill_step :
      (n : ℕ) (s : Semaphore)
      → s.size ≢ count
      → fill count (suc n) s ≡ fill count n (force_item (template count) 0 s)
  unfolding fill
  fill_step n s room =
      ap
        (λ (c : Call Semaphore (Unit {0})).
          let rest : Result Reason Semaphore = elim (next_put count c) [
            | ok s' ↦ fill count n s'
            | err r ↦ err r
          ] in
          rest)
        (put_ready s room)

  fill_lem :
      (n : ℕ) (s : Semaphore)
      → IsValid (template count) s
      → s.size + n ≤ count
      → (s' : Semaphore) × (fill count n s ≡ ok s')
        × IsValid (template count) s'
        × (s'.size ≡ s.size + n)
  unfolding fill
  fill_lem zero s v fits = (s, refl, v, omega arith)
  fill_lem (suc n) s v fits =
      let s1 : Semaphore = force_item (template count) 0 s in
      let room : s.size ≢ count = omega arith in
      let grown : s1.size ≡ s.size + 1 = size-force_item good s v (rw (==_false room)) in
      let (s', filled, v', size) =
        fill_lem n s1 (force_item-IsValid good v 0 (inr room)) (omega (arith, grown)) in
      (s', fill_step n s room ∙ filled, v', omega (arith, size, grown))

  fill-init :
      (n : ℕ)
      → n ≤ count
      → (s' : Semaphore) × (fill count n (init (template count)) ≡ ok s')
        × IsValid (template count) s'
        × (s'.size ≡ n)
  unfolding init
  fill-init n fits =
      let (s', filled, v', size) =
        fill_lem n (init (template count)) (init-IsValid good) (omega arith) in
      (s', filled, v', omega (arith, size))

  -- Both constructors return: `semaphore(init_cnt)` a valid semaphore that holds `init_cnt`, or
  -- `count` if that is less, and `semaphore()` one that holds `count`.
  pub create_lem :
      (init_cnt : ℕ)
      → ((s : Semaphore) × (create count init_cnt ≡ ok s)
          × IsValid (template count) s
          × (s.size ≡ min init_cnt count))
        × ((s : Semaphore) × (create_full count ≡ ok s)
            × IsValid (template count) s
            × (s.size ≡ count))
  unfolding create create_full
  create_lem init_cnt =
      (fill-init (min init_cnt count) (omega arith), fill-init count (omega arith))

  module _ {s : Semaphore} (v : IsValid (template count) s) (last : List (Section ℕ)) where
    -- The count that a call which does not wait decides by: its own at once, or, if that does not
    -- do, the count after what other threads do while the call has released the lock.
    abbrev seen : (ℕ → Bool) → ℕ
    seen good_enough = if good_enough s.size then s.size else Counter.sections count last s.size

    -- `try_lock` on a valid semaphore never throws and never blocks: it returns whether the count that
    -- it sees is not zero, and takes one from the count in that case.
    pub try_lock_lem :
        let n = seen (λ k. not (k == 0)) in
        ((try_lock count last s).outcome ≡ returned (not (n == 0)))
        × ((try_lock count last s).after.size ≡ n - 1)
    unfolding try_lock wait_for wait
    try_lock_lem = ground (arith, nonblocking_lock_refines good v no_wait [] last)

    -- What `unlock` on a valid semaphore throws, and the count that it leaves.
    pub unlock_lem :
        let n = seen (λ k. not (k == count)) in
        ((unlock count last s).outcome ≡ (
          if n == count
          then threw
              (semaphore_exception "Cannot `give` semaphore more times than its permitted count")
          else returned tt))
        × ((unlock count last s).after.size ≡ (if n == count then n else n + 1))
    unfolding Counter.unlock wait_for wait
    unlock_lem = ground (arith, unlock_refines good v last)

  -- A `lock` on a valid semaphore that throws was not asked to wait for ever, found the count at zero when it gave up,
  -- and left it there; what it throws tells a call that does not wait from one that does.
  pub lock_throws :
      {s : Semaphore}
      → IsValid (template count) s
      → (timeout : ℤ) (turns : List (List (Section ℕ))) (last : List (Section ℕ)) {x : Exception}
      → (lock count timeout turns last s).outcome ≡ threw x
      → (int_eq timeout forever ≡ false)
        × (x ≡ (
            if int_eq timeout no_wait
            then semaphore_exception "Unable to `take` semaphore without blocking"
            else timeout_exception "Semaphore `take` timed out"))
        × ((lock count timeout turns last s).after.size ≡ 0)
  unfolding Counter.lock
  lock_throws {s} v timeout turns last h =
      let rounds : List (List (Section ℕ)) = turns ++ last ∷ [] in
      ground (
        arith,
        lock_refines good v timeout turns last,
        wait_for_lem (Counter.sections count) (Counter.available count) false s.size turns last,
        wait-held (Counter.sections count) (Counter.available count) false s.size rounds,
      )

  -- A `lock` on a valid semaphore that is asked to wait for ever throws nothing: it returns, with the
  -- count one less than when its wait ended, or it still waits and the count is zero.
  pub lock-forever :
      {s : Semaphore}
      → IsValid (template count) s
      → (turns : List (List (Section ℕ))) (last : List (Section ℕ))
      → let n =
          (wait (Counter.sections count) (Counter.available count) false s.size turns).state in
        let e = lock count forever turns last s in
        ((e.outcome ≡ returned tt) × (n ≡ e.after.size + 1))
        ⊎ ((e.outcome ≡ blocked) × (n ≡ 0) × (e.after.size ≡ 0))
  unfolding Counter.lock
  lock-forever {s} v turns last = ground (
    arith,
    lock_refines good v forever turns last,
    wait-held (Counter.sections count) (Counter.available count) false s.size turns,
  )
