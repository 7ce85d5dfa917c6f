-- ===== src/Queue/Wait.antt =====
-- What both waits of include/ares/data-structures/queue.hpp guarantee, whatever other threads do.
use ares_common.Common.{
  ◌≡◌, refl, sym, Bool, true, false, Bool-cases, inl, inr, List, [], ◌∷◌, ◌++◌, arith,
}
use ares_common.Queue.{Waited, wait, wait_for}

module _ {ℓ} {S W : Type ℓ} (run : W → S → S) (test : S → Bool) (callback : Bool) where
  -- `wait_for` is a `wait` whose last round ends by the timeout.
  pub wait_for_lem :
      (s : S) (ws : List W) (last : W)
      → wait_for run test callback s ws last ≡ wait run test callback s (ws ++ last ∷ [])
  unfolding wait_for wait
  wait_for_lem s [] last = refl
  wait_for_lem s (w ∷ ws) last = rw (wait_for_lem (run w s) ws last)

  -- The predicate's last value is its value at the state that the wait ends in.
  pub wait-held :
      (s : S) (ws : List W)
      → (wait run test callback s ws).held ≡ test (wait run test callback s ws).state
  unfolding wait
  wait-held s [] = refl
  wait-held s (w ∷ ws) = elim (Bool-cases (test s)) [
    | inl holds ↦ rw holds (sym holds)
    | inr fails ↦ rw fails (wait-held (run w s) ws)
  ]

  -- What every section keeps holds when the wait ends.
  pub wait-keeps {κ} :
      (P : S → Type κ)
      → ((w : W) (s : S) → P s → P (run w s))
      → (s : S) (ws : List W) → P s
      → P (wait run test callback s ws).state
  unfolding wait
  wait-keeps P keep s [] p = p
  wait-keeps P keep s (w ∷ ws) p = elim (Bool-cases (test s)) [
    | inl holds ↦ rw holds p
    | inr fails ↦ rw fails (wait-keeps P keep (run w s) ws (keep w s p))
  ]

  -- A predicate that holds at once ends the wait at once, without a callback.
  pub wait_ready :
      (s : S) (ws : List W)
      → test s ≡ true
      → wait run test callback s ws ≡ record { state = s; calls = 0; held = true }
  unfolding wait
  wait_ready s [] h = rw h
  wait_ready s (w ∷ ws) h = rw h

  -- Without a callback none is called.
  pub wait-calls_none :
      (s : S) (ws : List W) → callback ≡ false → (wait run test callback s ws).calls ≡ 0
  unfolding wait
  wait-calls_none s [] h = ground arith
  wait-calls_none s (w ∷ ws) h = ground (arith, wait-calls_none (run w s) ws h)

-- A wait seen through a view.
abbrev pub view_wait {ℓ} : {S T : Type ℓ} → (S → T) → Waited S → Waited T
view_wait view r = record { state = view r.state; calls = r.calls; held = r.held }

module _ {ℓ} {S T W : Type ℓ} (run : W → S → S) (test : S → Bool) (run' : W → T → T)
    (test' : T → Bool) (callback : Bool) (view : S → T) where
  -- The view of a wait is a wait on the view, if the sections and the predicate respect it.
  pub wait-view {κ} :
      (P : S → Type κ)
      → ((w : W) (s : S) → P s → P (run w s))
      → ((s : S) → P s → test s ≡ test' (view s))
      → ((w : W) (s : S) → P s → view (run w s) ≡ run' w (view s))
      → (s : S) (ws : List W) → P s
      → view_wait view (wait run test callback s ws) ≡ wait run' test' callback (view s) ws
  unfolding wait
  wait-view P keep tests runs s [] p = rw (tests s p)
  wait-view P keep tests runs s (w ∷ ws) p = elim (Bool-cases (test s)) [
    | inl holds ↦ rw (holds, ← tests s p, holds)
    | inr fails ↦
        let rest = wait-view P keep tests runs (run w s) ws (keep w s p) in
        rw (fails, ← tests s p, fails, ← runs w s p, ← rest)
  ]
