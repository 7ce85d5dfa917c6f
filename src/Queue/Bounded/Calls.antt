-- ===== src/Queue/Bounded/Calls.antt =====
-- Every call of bounded_queue, blocking or timed, with whatever other threads do while it waits.
use ares_common.Common.{
  ℕ, ◌≡◌, ◌≢◌, refl, ap, ◌∙◌, inl, inr, Bool, true, false, List, [], ◌∷◌, ◌++◌, arith, Bool-cases,
}
use ares_common.Common.Int.{ℤ}
use ares_common.Queue.{Waited, wait, Call, Reply, threw, blocked, timeout_reason, queue_empty}
use ares_common.Queue.Wait.{view_wait, wait-keeps, wait-held, wait_for_lem}
use ares_common.Queue.Bounded.{
  Template, IsTemplate, BoundedQueue, Section, sections, has_space, has_item, put, put_for, get,
  get_for, end_put, end_get, end_put_for,
}
use ares_common.Queue.Bounded.Fifo
use ares_common.Queue.Bounded.Refine.{
  contents, contents-put_item, contents-get_item, force_refines, wait_space_refines,
  wait_item_refines,
}
use ares_common.Queue.Bounded.Invariant.{IsValid, sections-IsValid}

-- A call seen through a view of the state.
abbrev pub view_call {ℓ} : {S T A : Type ℓ} → (S → T) → Call S A → Call T A
view_call view c = record { after = view c.after; calls = c.calls; reply = c.reply }

module _ {ℓ} {A : Type ℓ} {t : Template A} (ok : IsTemplate t) where
  -- A wait ended with the predicate's value at its last state; these take it apart.
  abbrev waited : BoundedQueue A → ℕ → Bool → Waited (BoundedQueue A)
  waited q n h = record { state = q; calls = n; held = h }

  space_room : (q : BoundedQueue A) → true ≡ has_space t q → q.size ≢ t.max_size
  space_room q e = ground arith

  item_some : (q : BoundedQueue A) → true ≡ has_item t q → q.size ≢ 0
  item_some q e = ground arith

  end_put_view :
      (x : A) (q : BoundedQueue A) (n : ℕ) (h : Bool)
      → IsValid t q
      → h ≡ has_space t q
      → view_call (contents t) (end_put t x (waited q n h))
        ≡ Fifo.end_put t x (view_wait (contents t) (waited q n h))
  end_put_view x q n true v e = rw (contents-put_item ok v x (space_room q e))
  end_put_view x q n false v e = refl

  end_put_for_view :
      (x : A) (timeout_ms : ℤ) (q : BoundedQueue A) (n : ℕ) (h : Bool)
      → IsValid t q
      → h ≡ has_space t q
      → view_call (contents t) (end_put_for t x timeout_ms (waited q n h))
        ≡ Fifo.end_put_for t x timeout_ms (view_wait (contents t) (waited q n h))
  end_put_for_view x timeout_ms q n true v e = rw (force_refines ok v x (inr (space_room q e)))
  end_put_for_view x timeout_ms q n false v e = elim (Bool-cases t.overwrite) [
    | inl over ↦ simp over (rw (force_refines ok v x (inl over)))
    | inr keeps ↦ simp keeps
  ]

  end_get_view :
      (failed : Reply A) (q : BoundedQueue A) (n : ℕ) (h : Bool)
      → IsValid t q
      → h ≡ has_item t q
      → view_call (contents t) (end_get t failed (waited q n h))
        ≡ Fifo.end_get t failed (view_wait (contents t) (waited q n h))
  end_get_view failed q n true v e = rw (contents-get_item ok v (item_some q e))
  end_get_view failed q n false v e = refl

  module _ {q : BoundedQueue A} (v : IsValid t q) (callback : Bool)
      (turns : List (List (Section A))) where
    abbrev for_space : Waited (BoundedQueue A)
    for_space = wait (sections t) (has_space t) callback q turns

    abbrev for_item : Waited (BoundedQueue A)
    for_item = wait (sections t) (has_item t) callback q turns

    for_space-IsValid : IsValid t for_space.state
    for_space-IsValid = wait-keeps _ _ callback (IsValid t) (sections-IsValid ok) q turns v

    for_item-IsValid : IsValid t for_item.state
    for_item-IsValid = wait-keeps _ _ callback (IsValid t) (sections-IsValid ok) q turns v

    -- A blocking `put` on a valid queue is the list's: it waits for space through the same
    -- sections, calls back as often, and then appends the item or still waits.
    pub put_refines :
        (x : A)
        → view_call (contents t) (put t x callback turns q)
          ≡ Fifo.put t x callback turns (contents t q)
    unfolding put Fifo.put
    put_refines x =
        end_put_view x for_space.state for_space.calls for_space.held for_space-IsValid
          (wait-held _ _ callback q turns)
        ∙ ap (Fifo.end_put t x) (wait_space_refines ok v callback turns)

    -- A blocking `get` on a valid queue is the list's: the item returned is the oldest one at the
    -- end of the wait, and the others stay in their order.
    pub get_refines :
        view_call (contents t) (get t callback turns q) ≡ Fifo.get t callback turns (contents t q)
    unfolding get Fifo.get
    get_refines =
        end_get_view blocked for_item.state for_item.calls for_item.held for_item-IsValid
          (wait-held _ _ callback q turns)
        ∙ ap (Fifo.end_get t blocked) (wait_item_refines ok v callback turns)

  module _ {q : BoundedQueue A} (v : IsValid t q) (callback : Bool)
      (turns : List (List (Section A))) (last : List (Section A)) (timeout_ms : ℤ) where
    abbrev rounds : List (List (Section A))
    rounds = turns ++ last ∷ []

    -- A timed `put` on a valid queue is the list's: it appends the item, or throws when the time is
    -- up, or with `overwrite` drops the oldest item instead.
    pub put_for_refines :
        (x : A)
        → view_call (contents t) (put_for t x timeout_ms callback turns last q)
          ≡ Fifo.put_for t x timeout_ms callback turns last (contents t q)
    unfolding put_for Fifo.put_for
    put_for_refines x =
        rw (wait_for_lem (sections t), wait_for_lem (Fifo.sections t))
          (end_put_for_view x timeout_ms (for_space v callback rounds).state
              (for_space v callback rounds).calls (for_space v callback rounds).held
              (for_space-IsValid v callback rounds) (wait-held _ _ callback q rounds)
            ∙ ap (Fifo.end_put_for t x timeout_ms) (wait_space_refines ok v callback rounds))

    -- A timed `get` on a valid queue is the list's: it takes the oldest item, or throws when the
    -- time is up.
    pub get_for_refines :
        view_call (contents t) (get_for t timeout_ms callback turns last q)
        ≡ Fifo.get_for t timeout_ms callback turns last (contents t q)
    unfolding get_for Fifo.get_for
    get_for_refines =
        let failed : Reply A = threw (timeout_reason timeout_ms queue_empty) in
        rw (wait_for_lem (sections t), wait_for_lem (Fifo.sections t))
          (end_get_view failed (for_item v callback rounds).state (for_item v callback rounds).calls
              (for_item v callback rounds).held (for_item-IsValid v callback rounds)
              (wait-held _ _ callback q rounds)
            ∙ ap (Fifo.end_get t failed) (wait_item_refines ok v callback rounds))
