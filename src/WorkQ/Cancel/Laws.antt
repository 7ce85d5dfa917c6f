-- ===== src/WorkQ/Cancel/Laws.antt =====
-- What a cancellation does: the item leaves every list, and if it runs it is not taken again.
use ares_common.Common.{
  ℕ, ◌≡◌, refl, ◌∙◌, ◌⊎◌, inl, inr, true, false, Option, none, some, Bool-cases, ==_true, ◌==◌,
  arith,
}
use ares_common.Task.{ebusy}
use ares_common.WorkQ.{World}
use ares_common.WorkQ.Flags.{
  flag_test, flag_test_and_clear, canceling_bit, queued_bit, flag_test-set, flag_test-clear,
}
use ares_common.WorkQ.Nodes.{NodeList, IsNodeList, count}
use ares_common.WorkQ.Submit.{submit_locked}
use ares_common.WorkQ.Cancel.{busy_get, mark_canceling, remove_locked, cancel_async, cancel}
use ares_common.WorkQ.Invariant.{IsValid}
use ares_common.WorkQ.Steps.{remove_locked-IsValid, mark_canceling-IsValid}

module _ {S : NodeList} where
  remove_locked-cleared :
      (work queue : ℕ) (w : World S)
      → flag_test ((remove_locked queue work w).works work).flags queued_bit ≡ false
  unfolding remove_locked flag_test_and_clear
  remove_locked-cleared work queue w =
      let f = (w.works work).flags in
      elim (Bool-cases (flag_test f queued_bit)) [
        | inl q ↦
            rw (q, ==_true {a = work} refl)
              (flag_test-clear f queued_bit queued_bit (omega arith) (omega arith))
        | inr q ↦
            rw (q, ==_true {a = work} refl)
              (flag_test-clear f queued_bit queued_bit (omega arith) (omega arith))
      ]

  -- Marking keeps an item out of the lists, and makes submissions refuse it if it is busy.
  mark_canceling_lem :
      (work : ℕ) (w : World S)
      → flag_test (w.works work).flags queued_bit ≡ false
      → let r = mark_canceling work w in
        (flag_test (r.0.works work).flags queued_bit ≡ false)
        × ((r.1 ≡ 0) ⊎ (flag_test (r.0.works work).flags canceling_bit ≡ true))
  unfolding mark_canceling
  mark_canceling_lem work w q =
      let f = (w.works work).flags in
      elim (Bool-cases (busy_get (w.works work) == 0)) [
        | inl z ↦ rw z (q, inl refl)
        | inr z ↦
            rw (z, ==_true {a = work} refl)
              (
                flag_test-set f canceling_bit queued_bit (omega arith) ∙ q,
                inr (flag_test-set f canceling_bit canceling_bit (omega arith)),
              )
      ]

  submit-canceling :
      (caller work : ℕ) (given : Option ℕ) (u : World S)
      → flag_test (u.works work).flags canceling_bit ≡ true
      → submit_locked caller work given u ≡ some (u, none, ebusy)
  unfolding submit_locked
  submit-canceling caller work given u c = rw c refl

  in_no_list :
      {u : World S}
      → IsValid u
      → (work p : ℕ) → flag_test (u.works work).flags queued_bit ≡ false
      → count work (S.nodes (u.queues p).pending) ≡ 0
  in_no_list {u} v work p q = ground (arith, v.counted work p)

module _ {S : NodeList} (laws : IsNodeList S) where
  -- In a valid world, canceling an item that was submitted before and is not being canceled returns;
  -- the item is then in no queue's list, and either 0 is returned or every submission of the item,
  -- by any thread to any queue, returns -EBUSY and changes nothing.
  pub cancel_lem :
      {w : World S}
      → IsValid w
      → (work queue : ℕ) → (w.works work).queue ≡ some queue
      → flag_test (w.works work).flags canceling_bit ≡ false
      → (u : World S) × (r : ℕ) × (cancel work w ≡ some (u, r))
        × ((p : ℕ) → count work (S.nodes (u.queues p).pending) ≡ 0)
        × ((r ≡ 0)
            ⊎ ((caller : ℕ) (given : Option ℕ)
                → submit_locked caller work given u ≡ some (u, none, ebusy)))
  unfolding cancel cancel_async
  cancel_lem {w} v work queue at c =
      let removed = remove_locked queue work w in
      let (q, marked) = mark_canceling_lem work removed (remove_locked-cleared work queue w) in
      let u = (mark_canceling work removed).0 in
      let valid : IsValid u =
        mark_canceling-IsValid laws work removed (remove_locked-IsValid laws work queue w v at) in
      (
        u,
        (mark_canceling work removed).1,
        rw (c, at) refl,
        (λ p. in_no_list valid work p q),
        elim marked [
          | inl idle ↦ inl idle
          | inr busy ↦ inr (λ caller given. submit-canceling caller work given u busy)
        ],
      )
