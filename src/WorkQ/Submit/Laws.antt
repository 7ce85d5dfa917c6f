-- ===== src/WorkQ/Submit/Laws.antt =====
-- What a submission does: the item is taken once, at the end of its queue's list.
use ares_common.Common.{
  ℕ, ◌≡◌, refl, sym, ap, ◌∙◌, inl, inr, Bool, true, false, [], ◌∷◌, ◌++◌, Option, none, some,
  Bool-cases, ==_true, if◌then◌else◌, arith,
}
use ares_common.Common.Int.{ℤ, pos}
use ares_common.WorkQ.{World, set_work, set_queue, post}
use ares_common.WorkQ.Flags.{
  flag_test, flag_set, running_bit, canceling_bit, queued_bit, flag_test-set,
}
use ares_common.WorkQ.Nodes.{NodeList, IsNodeList}
use ares_common.WorkQ.Submit.{accept, admission, submit_chosen, submit_locked, or_else}
use ares_common.WorkQ.Invariant.{IsValid}

module _ {S : NodeList} where
  -- The queue that an item goes to: the one that runs it, or the one it is submitted to.
  abbrev pub chosen : ℕ → Option ℕ → World S → Option ℕ
  chosen work queue w =
      if flag_test (w.works work).flags running_bit
      then (w.works work).queue
      else or_else queue (w.works work).queue

  -- The code for an item that was queued.
  abbrev pub queued_code : ℕ → World S → ℤ
  queued_code work w = if flag_test (w.works work).flags running_bit then pos 2 else pos 1

  -- What the item and its queue become.
  abbrev pub submitted : ℕ → ℕ → World S → World S
  submitted work queue w =
      let q = w.queues queue in
      set_work work
        (record (w.works work) {
          flags = flag_set (w.works work).flags queued_bit;
          queue = some queue;
        })
        (set_queue queue
          (record q { pending = S.append q.pending work; notifyq = post 0 q.notifyq }) w)

  chosen-done :
      (caller work : ℕ) (ret : ℤ) (w : World S) (queue : ℕ)
      → admission caller (w.queues queue) ≡ pos 1
      → submit_chosen caller work ret (some queue) w
        ≡ some (submitted work queue w, some queue, ret)
  unfolding submit_chosen accept
  chosen-done caller work ret w queue taken = rw taken

  submit-done :
      (caller work : ℕ) (given : Option ℕ) (w : World S) (queue : ℕ)
      → flag_test (w.works work).flags canceling_bit ≡ false
      → flag_test (w.works work).flags queued_bit ≡ false
      → chosen work given w ≡ some queue
      → admission caller (w.queues queue) ≡ pos 1
      → submit_locked caller work given w
        ≡ some (submitted work queue w, some queue, queued_code work w)
  unfolding submit_locked
  submit-done caller work given w queue c q at taken =
      let item = w.works work in
      let to : Bool → Option ℕ = λ b. if b then item.queue else or_else given item.queue in
      rw (c, q)
        (elim (Bool-cases (flag_test item.flags running_bit)) [
          | inl r ↦ rw r (
              ap (λ o. submit_chosen caller work (pos 2) o w) (ap to (sym r) ∙ at)
              ∙ chosen-done caller work (pos 2) w queue taken)
          | inr r ↦ rw r (
              ap (λ o. submit_chosen caller work (pos 1) o w) (ap to (sym r) ∙ at)
              ∙ chosen-done caller work (pos 1) w queue taken)
        ])

  submit-again :
      (caller work : ℕ) (given : Option ℕ) (u : World S)
      → flag_test (u.works work).flags canceling_bit ≡ false
      → flag_test (u.works work).flags queued_bit ≡ true
      → submit_locked caller work given u ≡ some (u, none, pos 0)
  unfolding submit_locked
  submit-again caller work given u c q = rw (c, q) refl

module _ {S : NodeList} (laws : IsNodeList S) where
  -- In a valid world, an item that is neither being canceled nor queued, and whose queue takes it, is
  -- taken: 1 is returned, or 2 if it runs, its node is then the last one of its queue's list, and a
  -- second submission, by any thread to any queue, returns 0 and changes nothing.
  pub submit_twice :
      {w : World S}
      → IsValid w
      → (caller work : ℕ) (given : Option ℕ) (queue : ℕ)
      → flag_test (w.works work).flags canceling_bit ≡ false
      → flag_test (w.works work).flags queued_bit ≡ false
      → chosen work given w ≡ some queue
      → admission caller (w.queues queue) ≡ pos 1
      → (u : World S) × (submit_locked caller work given w
          ≡ some (u, some queue, queued_code work w))
        × (S.nodes (u.queues queue).pending ≡ S.nodes (w.queues queue).pending ++ work ∷ [])
        × ((another : ℕ) (elsewhere : Option ℕ)
            → submit_locked another work elsewhere u ≡ some (u, none, pos 0))
  submit_twice {w} v caller work given queue c q at taken = (
    submitted work queue w,
    submit-done caller work given w queue c q at taken,
    rw (==_true {a = queue} refl)
        (laws.nodes-append (w.queues queue).pending work (ground (arith, v.counted work queue))),
    λ another elsewhere.
        submit-again another work elsewhere (submitted work queue w)
          (rw (==_true {a = work} refl)
            (flag_test-set (w.works work).flags queued_bit canceling_bit (omega arith) ∙ c))
          (rw (==_true {a = work} refl)
            (flag_test-set (w.works work).flags queued_bit queued_bit (omega arith))),
  )
