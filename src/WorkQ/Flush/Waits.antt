-- ===== src/WorkQ/Flush/Waits.antt =====
-- What a flush of a queued item waits for, in src/work-q/work_q.cpp: the end of the item's round, and of
-- all before it.
use ares_common.Common.{
  ℕ, zero, suc, add_size, ◌+◌, ◌≡◌, ◌≢◌, ◌<◌, refl, sym, ap, ◌∙◌, true, false, not, ◌&&◌, ◌||◌,
  List, [], ◌∷◌, ◌++◌, append_assoc, length, length-append, replicate, take-drop, length-take, drop,
  ◌≤◌, Option, none, some, if◌then◌else◌, ◌==◌, ==_true, ==_false, arith, Bool-cases, inl, inr,
}
use Prim.Native.Nat.{bit_and}
use mathlib.Core.Path.{subst}
use ares_common.Common.Bits.{bit-bit_and}
use ares_common.Sync.Semaphore.{take, forever, returned, blocked}
use ares_common.WorkQ.{World}
use ares_common.WorkQ.Flags.{
  flag_test, flag_set, canceling_bit, queued_bit, flushing_bit, flag_test_lem,
}
use ares_common.WorkQ.Nodes.{NodeList, IsNodeList, count, count-append, insert_after}
use ares_common.WorkQ.Invariant.{IsValid}
use ares_common.WorkQ.Cancel.{flush, flush_locked, flusher_locked, notify_locked, needs_flush}
use ares_common.WorkQ.Loop.{goes_on, round, work_queue_main}
use ares_common.WorkQ.Loop.Service.{Uncanceled}
use ares_common.WorkQ.Life.Tokens.{calm_turn}
use ares_common.Common
use ares_common.WorkQ.Flush.{Awaits, not_taken, main-Awaits, round-Gives}

insert_after-at :
    (work f : ℕ) (before after : List ℕ)
    → count work before ≡ 0
    → insert_after work f (before ++ work ∷ after) ≡ before ++ work ∷ f ∷ after
insert_after-at work f [] after h = rw (==_true {a = work} refl) refl
insert_after-at work f (m ∷ before) after h =
    let other : (m == work) ≡ false = ground (arith, h) in
    rw other (ap (λ l. m ∷ l) (insert_after-at work f before after (ground (arith, h))))

-- The flags of a new flusher.
fresh-flushing : flag_test (flag_set 0 flushing_bit) flushing_bit ≡ true
unfolding flag_test flag_set
fresh-flushing = refl

fresh-canceling : flag_test (flag_set 0 flushing_bit) canceling_bit ≡ false
unfolding flag_test flag_set
fresh-canceling = refl

-- An item whose flags say that it is queued is to be flushed.
needs_flush-queued :
    (flags : ℕ) → flag_test flags queued_bit ≡ true → (bit_and flags 5 == 0) ≡ false
needs_flush-queued flags h = ground (arith, flag_test_lem flags queued_bit, bit-bit_and flags 5 2)

drop-all : (l : List ℕ) → drop (length l) l ≡ []
drop-all [] = refl
drop-all (x ∷ l) = drop-all l

module _ {S : NodeList} (laws : IsNodeList S) where
  flush-Awaits :
      (nothing work f queue : ℕ) (before after : List ℕ) (w : World S)
      → IsValid w
      → Uncanceled w
      → flag_test (w.works work).flags queued_bit ≡ true
      → (w.works work).queue ≡ some queue
      → S.nodes (w.queues queue).pending ≡ before ++ work ∷ after
      → count f (before ++ work ∷ after) ≡ 0
      → (u : World S) × (flush nothing work f w ≡ some (u, true))
        × Awaits queue f (before ++ work ∷ f ∷ after) u
  unfolding flush flush_locked flusher_locked notify_locked needs_flush
  flush-Awaits nothing work f queue before after w v calm queued at pending lacks =
      let here = ==_true {a = queue} refl in
      let apart : (f == work) ≡ false =
        ground (arith, lacks, count-append f before (work ∷ after)) in
      let needed = needs_flush-queued (w.works work).flags queued in
      let once : count work before ≡ 0 = ground (
        arith,
        v.counted work queue,
        queued,
        at,
        ap (count work) pending,
        count-append work before (work ∷ after),
      ) in
      rw (apart, needed, at, apart, queued)
        (
          _,
          refl,
          (
            rw here (
                laws.nodes-insert (w.queues queue).pending work f (ap (count f) pending ∙ lacks)
                ∙ ap (insert_after work f) pending
                ∙ insert_after-at work f before after once),
            (λ n. ground (arith, v.plain n, fresh-flushing)),
            (λ n. ground (arith, calm n, fresh-canceling)),
            rw (==_true {a = f} refl) refl,
          ),
        )

  -- After as many rounds as items have been taken of those before the flusher.
  rounds_keep_waits :
      (queue f k : ℕ) (list after : List ℕ) (u : World S)
      → count f list ≡ 0
      → k ≤ length list
      → Awaits queue f (list ++ f ∷ after) u
      → Awaits queue f
          (drop k list ++ f ∷ after)
          (work_queue_main queue (replicate k calm_turn) u).0
  rounds_keep_waits queue f k list after u lacks short a =
      let parts = take-drop k list in
      let long : length (Common.take k list) ≡ k = omega (arith, length-take k list) in
      subst
        (λ n.
          Awaits queue f (drop k list ++ f ∷ after)
            (work_queue_main queue (replicate n calm_turn) u).0)
        long
        (main-Awaits laws queue f (Common.take k list) (drop k list ++ f ∷ after) u
          (ground
            (arith, lacks, ap (count f) parts, count-append f (Common.take k list) (drop k list)))
          (subst (λ l. Awaits queue f l u)
            (sym (
              sym (append_assoc (Common.take k list) (drop k list) (f ∷ after))
              ∙ ap (λ l. l ++ f ∷ after) parts))
            a))

  -- A flush of a queued item, in a valid world in which nothing is canceled, with a flusher that is in
  -- no list, waits until the item's round has ended and no longer: `take` of the flusher's semaphore
  -- blocks after any number of rounds of the queue's thread up to that of the item, whose handlers do
  -- nothing but return, and returns after the next one.
  pub flush_lem :
      (nothing work f queue : ℕ) (before after : List ℕ) (w : World S)
      → IsValid w
      → Uncanceled w
      → flag_test (w.works work).flags queued_bit ≡ true
      → (w.works work).queue ≡ some queue
      → S.nodes (w.queues queue).pending ≡ before ++ work ∷ after
      → count f (before ++ work ∷ after) ≡ 0
      → (u : World S) × (flush nothing work f w ≡ some (u, true))
        × ((k : ℕ)
            → k ≤ suc (length before)
            → let v = (work_queue_main queue (replicate k calm_turn) u).0 in
              (take 1 forever [] [] (v.flushers f)).outcome ≡ blocked)
        × (let v = (work_queue_main queue (replicate (suc (length before)) calm_turn) u).0 in
            let (t, stage) = round queue calm_turn v in
            (stage ≡ goes_on) × ((take 1 forever [] [] (t.flushers f)).outcome ≡ returned tt))
  flush_lem nothing work f queue before after w v calm queued at pending lacks =
      let (u, flushed, a) =
        flush-Awaits nothing work f queue before after w v calm queued at pending lacks in
      let list = before ++ work ∷ [] in
      let long : length list ≡ suc (length before) =
        omega (arith, length-append before (work ∷ [])) in
      let free : count f list ≡ 0 =
        ground
          (arith, lacks, count-append f before (work ∷ after), count-append f before (work ∷ [])) in
      let b : Awaits queue f (list ++ f ∷ after) u =
        subst (λ l. Awaits queue f l u) (sym (append_assoc before (work ∷ []) (f ∷ after))) a in
      let reached : (k : ℕ)
          → k ≤ suc (length before)
          → Awaits queue f (drop k list ++ f ∷ after)
              (work_queue_main queue (replicate k calm_turn) u).0 =
        λ k h. rounds_keep_waits queue f k list after u free (omega (arith, long)) b in
      let last : Awaits queue f (f ∷ after)
          (work_queue_main queue (replicate (suc (length before)) calm_turn) u).0 =
        subst
          (λ l.
            Awaits queue f (l ++ f ∷ after)
              (work_queue_main queue (replicate (suc (length before)) calm_turn) u).0)
          (ap (λ n. drop n list) (sym long) ∙ drop-all list)
          (reached (suc (length before)) (omega arith)) in
      let (goes, gives, cleared) = round-Gives laws queue f after _ last in
      (
        u,
        flushed,
        (λ k h. ap (λ s. (take 1 forever [] [] s).outcome) (reached k h).3 ∙ not_taken),
        (goes, gives),
      )
