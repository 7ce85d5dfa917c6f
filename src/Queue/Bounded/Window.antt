-- ===== src/Queue/Bounded/Window.antt =====
-- Reading an array round the ring: the `n` cells from index `h` on, as bounded_queue lays them out.
use native.Mathlib.Nat.{mod-add-mod, add-mod_right, mod-eq_of_lt, mod-eq-sub-mod, mod-lt, add-zero}
use native.Mathlib.Decide.{dec_lt}
use ares_common.Common.{
  ℕ, zero, suc, ◌+◌, ◌-◌, ◌%◌, ◌≤◌, ◌<◌, ◌≡◌, ◌≢◌, refl, sym, ap, ap₂, ◌∙◌, List, [], ◌∷◌, ◌++◌,
  length, get_or, set, get_or-set_self, get_or-set_ne, arith, drop,
}

-- Less than one turn round the ring does not come back to the start.
pub ring-ne : {m h k : ℕ} → h < m → 0 < k → k < m → (h + k) % m ≢ h
ring-ne {m} {h} {k} in_ring some_steps part = elim (dec_lt (h + k) m) [
  | yes short ↦ omega (arith, mod-eq_of_lt short)
  | no long ↦ omega (
    arith,
    mod-eq-sub-mod {n = h + k} {m = m} (omega arith),
    mod-eq_of_lt {n = h + k - m} {m = m} (omega arith),
  )
]

module _ {ℓ} {A : Type ℓ} (d : A) (m : ℕ) where
  abbrev pub window : List A → ℕ → ℕ → List A
  window xs h zero = []
  window xs h (suc n) = get_or xs h d ∷ window xs ((h + 1) % m) n

  pub length-window : (xs : List A) (h n : ℕ) → length (window xs h n) ≡ n
  length-window xs h zero = refl
  length-window xs h (suc n) = ap suc (length-window xs ((h + 1) % m) n)

  shift : (h k : ℕ) → ((h + 1) % m + k) % m ≡ (h + suc k) % m
  shift h k = mod-add-mod (h + 1) m k ∙ ap (λ j. j % m) (omega arith)

  -- A longer window ends in the cell that many places on.
  pub window_snoc :
      (xs : List A) (h n : ℕ)
      → h < m
      → window xs h (suc n) ≡ window xs h n ++ get_or xs ((h + n) % m) d ∷ []
  window_snoc xs h zero in_ring = rw (add-zero, mod-eq_of_lt in_ring)
  window_snoc xs h (suc n) in_ring = ap (◌∷◌ (get_or xs h d)) (
      window_snoc xs ((h + 1) % m) n (mod-lt _ (omega arith))
      ∙ ap (λ j. window xs ((h + 1) % m) n ++ get_or xs j d ∷ []) (shift h n))

  -- A write outside a window does not show in it.
  pub window-set_outside :
      (xs : List A) (i : ℕ) (v : A) (h n : ℕ)
      → h < m
      → ((k : ℕ) → k < n → (h + k) % m ≢ i)
      → window (set xs i v) h n ≡ window xs h n
  window-set_outside xs i v h zero in_ring out = refl
  window-set_outside xs i v h (suc n) in_ring out =
      ap₂ ◌∷◌
        (get_or-set_ne xs v d
          (λ e. out 0 (omega arith) (rw (add-zero, mod-eq_of_lt in_ring) (sym e))))
        (window-set_outside xs i v ((h + 1) % m) n (mod-lt _ (omega arith))
          (λ k small. rw (shift h k) (out (suc k) (omega arith))))

  -- Writing the cell just after a window that is not the whole ring appends to it.
  pub window-set_next :
      (xs : List A) (x : A) (h n : ℕ)
      → length xs ≡ m
      → h < m
      → n < m
      → window (set xs ((h + n) % m) x) h (suc n) ≡ window xs h n ++ x ∷ []
  window-set_next xs x h n storage in_ring room =
      window_snoc (set xs ((h + n) % m) x) h n in_ring
      ∙ ap₂ (λ l y. l ++ y ∷ [])
          (window-set_outside xs ((h + n) % m) x h n in_ring (λ k small. apart k small))
          (get_or-set_self xs ((h + n) % m) x d (rw storage (mod-lt _ (omega arith))))
    where
      apart : (k : ℕ) → k < n → (h + k) % m ≢ (h + n) % m
      apart k small e =
          ring-ne {m = m} {h = (h + k) % m} {k = n - k} (mod-lt _ (omega arith)) (omega arith)
            (omega arith) (mod-add-mod (h + k) m (n - k) ∙ ap (λ j. j % m) (omega arith) ∙ sym e)

  window_of_ne_zero :
      (xs : List A) (h n : ℕ)
      → n ≢ 0
      → window xs h n ≡ get_or xs h d ∷ window xs ((h + 1) % m) (n - 1)
  window_of_ne_zero xs h zero some_cell = absurd (some_cell refl)
  window_of_ne_zero xs h (suc n) some_cell = ap (λ k. window xs h (suc k)) (omega arith)

  -- Overwriting the first cell leaves the others as they are.
  pub window_take :
      (xs : List A) (v : A) (h n : ℕ)
      → h < m
      → n ≢ 0
      → n ≤ m
      → window xs h n ≡ get_or xs h d ∷ window (set xs h v) ((h + 1) % m) (n - 1)
  window_take xs v h n in_ring some_cell fits =
      window_of_ne_zero xs h n some_cell
      ∙ ap (◌∷◌ (get_or xs h d)) (
          sym (
            window-set_outside xs h v ((h + 1) % m) (n - 1) (mod-lt _ (omega arith))
              (λ k small. rw (shift h k) (ring-ne in_ring (omega arith) (omega arith)))))

  -- Overwriting the first cell of a full ring drops it and appends the new one.
  pub window_overwrite :
      (xs : List A) (x : A) (h : ℕ)
      → length xs ≡ m
      → h < m
      → window (set xs h x) ((h + 1) % m) m ≡ drop 1 (window xs h m) ++ x ∷ []
  window_overwrite xs x h storage in_ring =
      ap₂ (λ i k. window (set xs i x) ((h + 1) % m) k) (sym last_cell) whole
      ∙ window-set_next xs x ((h + 1) % m) (m - 1) storage (mod-lt _ (omega arith)) (omega arith)
      ∙ ap (λ l. drop 1 l ++ x ∷ []) (sym (window_of_ne_zero xs h m (omega arith)))
    where
      whole : m ≡ suc (m - 1)
      whole = omega arith

      last_cell : ((h + 1) % m + (m - 1)) % m ≡ h
      last_cell =
          shift h (m - 1) ∙ ap (λ j. j % m) (omega arith) ∙ add-mod_right h m ∙ mod-eq_of_lt in_ring
