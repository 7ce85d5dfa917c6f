-- ===== src/Queue/Bounded/History.antt =====
-- What becomes of the items of a bounded_queue over any interleaving of critical sections, and
-- which sections wake a thread that waits.
use native.Mathlib.Decide.{ℕ_discrete}
use ares_common.Common.{
  ◌+◌, ◌≡◌, ◌≢◌, refl, sym, ap, ◌∙◌, inl, inr, true, false, not, ◌&&◌, List, [], ◌∷◌, ◌++◌, drop,
  arith, if◌then◌else◌, Bool-cases, ==_true, ==_false, append_assoc, append-nil,
}
use ares_common.Queue.Bounded.{
  Template, IsTemplate, BoundedQueue, Section, puts, forces, gets, clears, is_full, is_empty,
  put_item, force_item, get_item, clear, section, sections, front,
}
use ares_common.Queue.Bounded.Refine.{
  contents, contents-put_item, contents-get_item, contents-force_item_full,
}
use ares_common.Queue.Bounded.Invariant.{IsValid, section-IsValid, force_item-room}

module _ {ℓ} {A : Type ℓ} (t : Template A) where
  -- The item that a section adds: none where its `put` does not get through.
  abbrev pub added : Section A → BoundedQueue A → List A
  added (puts x) q = if is_full t q then [] else x ∷ []
  added (forces x) q = if is_full t q && not t.overwrite then [] else x ∷ []
  added gets q = []
  added clears q = []

  -- The items that a section takes out: by a `get`, by overwriting, or by `clear`.
  abbrev pub removed : Section A → BoundedQueue A → List A
  removed (puts x) q = []
  removed (forces x) q = if is_full t q && t.overwrite then front t q ∷ [] else []
  removed gets q = if is_empty t q then [] else front t q ∷ []
  removed clears q = contents t q

  pub all_added : List (Section A) → BoundedQueue A → List A
  all_added [] q = []
  all_added (c ∷ cs) q = added c q ++ all_added cs (section t c q)

  pub all_removed : List (Section A) → BoundedQueue A → List A
  all_removed [] q = []
  all_removed (c ∷ cs) q = removed c q ++ all_removed cs (section t c q)

-- Two steps of a history make one.
join {ℓ} :
    {A : Type ℓ} (l a r m b s n : List A)
    → l ++ a ≡ r ++ m
    → m ++ b ≡ s ++ n
    → l ++ (a ++ b) ≡ (r ++ s) ++ n
join l a r m b s n first second =
    sym (append_assoc l a b)
    ∙ ap (λ k. k ++ b) first
    ∙ append_assoc r m b
    ∙ ap (◌++◌ r) second
    ∙ sym (append_assoc r s n)

module _ {ℓ} {A : Type ℓ} {t : Template A} (ok : IsTemplate t) where
  drop-front :
      (q : BoundedQueue A)
      → IsValid t q
      → q.size ≢ 0
      → contents t q ≡ front t q ∷ drop 1 (contents t q)
  drop-front q v some_item = rw (contents-get_item ok v some_item)

  section_history :
      (c : Section A) (q : BoundedQueue A)
      → IsValid t q
      → contents t q ++ added t c q ≡ removed t c q ++ contents t (section t c q)
  unfolding section clear
  section_history (puts x) q v = elim (ℕ_discrete q.size t.max_size) [
    | yes full ↦ rw (==_true full) (append-nil _)
    | no room ↦ rw (==_false room) (sym (contents-put_item ok v x room))
  ]
  section_history (forces x) q v = elim (ℕ_discrete q.size t.max_size) [
    | no room ↦
        rw (==_false room, force_item-room ok v x room) (sym (contents-put_item ok v x room))
    | yes full ↦ elim (Bool-cases t.overwrite) [
      | inl over ↦ rw (==_true full) (
          simp over (
            rw (contents-force_item_full ok v x full over)
              (ap (λ l. l ++ x ∷ []) (drop-front q v (omega (arith, ok.positive))))))
      | inr keeps ↦ rw (==_true full) (simp keeps (append-nil _))
    ]
  ]
  section_history gets q v = elim (ℕ_discrete q.size 0) [
    | yes none_left ↦ rw none_left
    | no some_item ↦ rw (==_false some_item) (append-nil _ ∙ contents-get_item ok v some_item)
  ]
  section_history clears q v = refl

  -- Over any sequence of critical sections on a valid bounded_queue, items leave in the order in which
  -- they came, and none is lost or made up: what was held and then what was added is what was taken
  -- out and then what is held at the end.
  pub sections_history :
      (cs : List (Section A)) (q : BoundedQueue A)
      → IsValid t q
      → contents t q ++ all_added t cs q ≡ all_removed t cs q ++ contents t (sections t cs q)
  unfolding sections all_added all_removed
  sections_history [] q v = append-nil (contents t q)
  sections_history (c ∷ cs) q v =
      join (contents t q) (added t c q) (removed t c q) (contents t (section t c q)) _ _ _
        (section_history c q v) (sections_history cs (section t c q) (section-IsValid ok c q v))

module _ {ℓ} {A : Type ℓ} {t : Template A} (ok : IsTemplate t) where
  -- A section that puts something into a valid bounded_queue that is empty notifies one thread that waits for an item.
  pub item_signals :
      (c : Section A) (q : BoundedQueue A)
      → IsValid t q
      → is_empty t q ≡ true
      → is_empty t (section t c q) ≡ false
      → (section t c q).not_empty ≡ q.not_empty + 1
  unfolding section clear get_item force_item put_item
  item_signals (puts x) q v none_left some_item = ground arith
  item_signals (forces x) q v none_left some_item = ground arith
  item_signals gets q v none_left some_item = ground arith
  item_signals clears q v none_left some_item = ground arith
