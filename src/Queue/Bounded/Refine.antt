-- ===== src/Queue/Bounded/Refine.antt =====
-- A valid bounded_queue behaves as the list of the items that it holds.
use native.Mathlib.Numerals.{add-one}
use native.Mathlib.Decide.{ℕ_discrete}
use ares_common.Common.{
  ◌≡◌, ◌≢◌, refl, sym, ap, ap₂, ◌∙◌, ◌⊎◌, inl, inr, Bool, true, List, [], ◌∷◌, ◌++◌, length, set,
  drop, arith, add_size_lem, sub_size_lem, Bool-cases, ==_true, ==_false,
}
use ares_common.Queue.{wait}
use ares_common.Queue.Wait.{view_wait, wait-view}
use ares_common.Queue.Bounded.{
  Template, IsTemplate, BoundedQueue, Section, puts, forces, gets, clears, put_item, force_item,
  get_item, clear, section, sections, front, has_space, has_item,
}
use ares_common.Queue.Bounded.Fifo
use ares_common.Queue.Bounded.Window.{
  window, length-window, window-set_next, window_take, window_overwrite,
}
use ares_common.Queue.Bounded.Invariant.{
  IsValid, next_lem, force_item-room, force_item-full, full_indices, section-IsValid,
  sections-IsValid,
}

-- The items, oldest first.
abbrev pub contents {ℓ} : {A : Type ℓ} → Template A → BoundedQueue A → List A
contents t q = window t.default t.max_size q.buffer q.consumer_index q.size

pub length-contents {ℓ} :
    {A : Type ℓ} (t : Template A) (q : BoundedQueue A) → length (contents t q) ≡ q.size
length-contents t q = length-window t.default t.max_size q.buffer q.consumer_index q.size

module _ {ℓ} {A : Type ℓ} {t : Template A} (ok : IsTemplate t) where
  module _ {q : BoundedQueue A} (v : IsValid t q) where
    pub contents-put_item :
        (x : A) → q.size ≢ t.max_size → contents t (put_item t x q) ≡ contents t q ++ x ∷ []
    unfolding put_item
    contents-put_item x room =
        rw (add_size_lem q.size 1 (omega (arith, v.size_in, ok.small)), v.linked)
          (ap (window t.default t.max_size (set q.buffer _ x) q.consumer_index) (add-one q.size)
            ∙ window-set_next t.default t.max_size q.buffer x q.consumer_index q.size v.storage
                v.consumer_in (omega (arith, v.size_in)))

    pub contents-get_item : q.size ≢ 0 → contents t q ≡ front t q ∷ contents t (get_item t q)
    unfolding get_item
    contents-get_item some_item =
        window_take t.default t.max_size q.buffer (t.moved (front t q)) q.consumer_index q.size
          v.consumer_in some_item v.size_in
        ∙ ap₂ (λ h n. front t q ∷ window t.default t.max_size (get_item t q).buffer h n)
            (sym (next_lem ok q.consumer_index v.consumer_in))
            (sym (sub_size_lem q.size 1 (omega arith) (omega (arith, v.size_in, ok.small))))

    pub contents-force_item_full :
        (x : A)
        → q.size ≡ t.max_size
        → t.overwrite ≡ true
        → contents t (force_item t x q) ≡ drop 1 (contents t q) ++ x ∷ []
    contents-force_item_full x full over = rw (force_item-full ok v x full over) (
        ap₂ (λ i h. window t.default t.max_size (set q.buffer i x) h t.max_size)
          (full_indices ok v full) (next_lem ok q.consumer_index v.consumer_in)
        ∙ window_overwrite t.default t.max_size q.buffer x q.consumer_index v.storage v.consumer_in
        ∙ ap (λ n. drop 1 (window t.default t.max_size q.buffer q.consumer_index n) ++ x ∷ [])
            (sym full))

  pub force_refines :
      {q : BoundedQueue A}
      → IsValid t q
      → (x : A) → (t.overwrite ≡ true) ⊎ (q.size ≢ t.max_size)
      → contents t (force_item t x q) ≡ Fifo.force_item t x (contents t q)
  unfolding Fifo.force_item
  force_refines {q} v x why = elim (ℕ_discrete q.size t.max_size) [
    | no room ↦
        rw (length-contents t q, ==_false room, force_item-room ok v x room)
          (contents-put_item v x room)
    | yes full ↦ elim why [
      | inr room ↦ absurd (room full)
      | inl over ↦ rw (length-contents t q, ==_true full) (contents-force_item_full v x full over)
    ]
  ]

  -- Each critical section does to the items what its list counterpart does.
  pub section_refines :
      (c : Section A) (q : BoundedQueue A)
      → IsValid t q
      → contents t (section t c q) ≡ Fifo.section t c (contents t q)
  unfolding section Fifo.section clear
  section_refines (puts x) q v = elim (ℕ_discrete q.size t.max_size) [
    | yes full ↦ rw (length-contents t q, ==_true full)
    | no room ↦ rw (length-contents t q, ==_false room) (contents-put_item v x room)
  ]
  section_refines (forces x) q v = elim (ℕ_discrete q.size t.max_size) [
    | yes full ↦ elim (Bool-cases t.overwrite) [
      | inl over ↦ rw (length-contents t q, ==_true full) (simp over (force_refines v x (inl over)))
      | inr keeps ↦ rw (length-contents t q, ==_true full) (simp keeps)
    ]
    | no room ↦ rw (length-contents t q, ==_false room) (force_refines v x (inr room))
  ]
  section_refines gets q v = elim (ℕ_discrete q.size 0) [
    | yes none_left ↦ rw none_left
    | no some_item ↦ rw (==_false some_item) (ap (drop 1) (sym (contents-get_item v some_item)))
  ]
  section_refines clears q v = refl

  -- On a valid bounded_queue any sequence of critical sections does to the items, oldest first, what
  -- the same sections do to a list of at most `max_size` items.
  pub sections_refine :
      (cs : List (Section A)) (q : BoundedQueue A)
      → IsValid t q
      → contents t (sections t cs q) ≡ Fifo.sections t cs (contents t q)
  unfolding sections Fifo.sections
  sections_refine [] q v = refl
  sections_refine (c ∷ cs) q v =
      sections_refine cs (section t c q) (section-IsValid ok c q v)
      ∙ ap (Fifo.sections t cs) (section_refines c q v)

  -- The waits of bounded_queue, seen as waits on the list.
  has_space_view :
      (q : BoundedQueue A) → IsValid t q → has_space t q ≡ Fifo.has_space t (contents t q)
  has_space_view q v = rw (length-contents t q)

  has_item_view : (q : BoundedQueue A) → IsValid t q → has_item t q ≡ Fifo.has_item t (contents t q)
  has_item_view q v = rw (length-contents t q)

  module _ {q : BoundedQueue A} (v : IsValid t q) (callback : Bool)
      (turns : List (List (Section A))) where
    pub wait_space_refines :
        view_wait (contents t) (wait (sections t) (has_space t) callback q turns)
        ≡ wait (Fifo.sections t) (Fifo.has_space t) callback (contents t q) turns
    wait_space_refines =
        wait-view _ _ _ _ callback (contents t) (IsValid t) (sections-IsValid ok) has_space_view
          sections_refine q turns v

    pub wait_item_refines :
        view_wait (contents t) (wait (sections t) (has_item t) callback q turns)
        ≡ wait (Fifo.sections t) (Fifo.has_item t) callback (contents t q) turns
    wait_item_refines =
        wait-view _ _ _ _ callback (contents t) (IsValid t) (sections-IsValid ok) has_item_view
          sections_refine q turns v
