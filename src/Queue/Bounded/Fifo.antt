-- ===== src/Queue/Bounded/Fifo.antt =====
-- What a client of bounded_queue may rely on: a list of at most `max_size` items, oldest first.
use ares_common.Common.{
  Bool, not, ◌&&◌, List, [], ◌∷◌, ◌++◌, drop, length, get_or, ◌==◌, if◌then◌else◌,
}
use ares_common.Common.Int.{ℤ}
use ares_common.Queue.{
  queue_empty, queue_full, Waited, Reply, returned, threw, blocked, Call, wait, wait_for,
  timeout_reason,
}
use ares_common.Queue.Bounded.{Template, Section, puts, forces, gets, clears}

module _ {ℓ} {A : Type ℓ} (t : Template A) where
  open t use {default, max_size, overwrite}

  abbrev pub is_full : List A → Bool
  is_full l = length l == max_size

  abbrev pub is_empty : List A → Bool
  is_empty l = length l == 0

  -- A full queue that may overwrite loses its oldest item.
  unfoldable pub force_item : A → List A → List A
  force_item x l = (if is_full l then drop 1 l else l) ++ x ∷ []

  unfoldable pub section : Section A → List A → List A
  section (puts x) l = if is_full l then l else l ++ x ∷ []
  section (forces x) l = if is_full l && not overwrite then l else force_item x l
  section gets l = drop 1 l
  section clears l = []

  unfoldable pub sections : List (Section A) → List A → List A
  sections [] l = l
  sections (c ∷ cs) l = sections cs (section c l)

  abbrev pub has_space : List A → Bool
  has_space l = not (is_full l)

  abbrev pub has_item : List A → Bool
  has_item l = not (is_empty l)

  -- A `put` appends, once the list has space.
  abbrev pub end_put : A → Waited (List A) → Call (List A) (Unit {ℓ})
  end_put x w =
      if w.held
      then record { after = w.state ++ x ∷ []; calls = w.calls; reply = returned tt }
      else record { after = w.state; calls = w.calls; reply = blocked }

  unfoldable pub put : A → Bool → List (List (Section A)) → List A → Call (List A) (Unit {ℓ})
  put x callback turns l = end_put x (wait sections has_space callback l turns)

  -- A timed `put` that found no space throws, or drops the oldest item.
  abbrev pub end_put_for : A → ℤ → Waited (List A) → Call (List A) (Unit {ℓ})
  end_put_for x timeout_ms w =
      if not w.held && not overwrite
      then record {
        after = w.state;
        calls = w.calls;
        reply = threw (timeout_reason timeout_ms queue_full);
      }
      else record { after = force_item x w.state; calls = w.calls; reply = returned tt }

  unfoldable pub put_for :
      A → ℤ → Bool → List (List (Section A)) → List (Section A) → List A → Call (List A) (Unit {ℓ})
  put_for x timeout_ms callback turns last l =
      end_put_for x timeout_ms (wait_for sections has_space callback l turns last)

  -- A `get` takes the oldest item, once there is one.
  abbrev pub end_get : Reply A → Waited (List A) → Call (List A) A
  end_get failed w =
      if w.held
      then record {
        after = drop 1 w.state;
        calls = w.calls;
        reply = returned (get_or w.state 0 default);
      }
      else record { after = w.state; calls = w.calls; reply = failed }

  unfoldable pub get : Bool → List (List (Section A)) → List A → Call (List A) A
  get callback turns l = end_get blocked (wait sections has_item callback l turns)

  unfoldable pub get_for :
      ℤ → Bool → List (List (Section A)) → List (Section A) → List A → Call (List A) A
  get_for timeout_ms callback turns last l =
      end_get (threw (timeout_reason timeout_ms queue_empty))
        (wait_for sections has_item callback l turns last)
