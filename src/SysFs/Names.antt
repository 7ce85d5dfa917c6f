-- ===== src/SysFs/Names.antt =====
-- The names in the paths of src/serial/tools/core/sys_fs_linux.cpp: where a path is split.
use ares_common.Common.{
  ℕ, ◌≡◌, refl, ap, ◌∙◌, Bool, false, ◌||◌, [], ◌∷◌, ◌++◌, Option, none, some, if◌then◌else◌, ◌==◌,
  arith, Bool-cases, ==_true, inl, inr,
}
use ares_common.SysFs.{tty_path}
use ares_common.SysFs.Texts.{Text, codes, is_nil}
use ares_common.SysFs.Paths.{
  join, split_last, filename, parent_of, parent_path, stem, slash, ends_with, dot, is_dots,
}

-- Whether a byte stands in a text.
abbrev pub has : ℕ → Text → Bool
has b [] = false
has b (c ∷ l) = (c == b) || has b l

split_last-none : (b : ℕ) (l : Text) → has b l ≡ false → split_last b l ≡ none
unfolding split_last
split_last-none b [] h = refl
split_last-none b (c ∷ l) h =
    let other : (c == b) ≡ false = ground (arith, h) in
    rw (split_last-none b l (ground (arith, h)), other) refl

split_last-at : (b : ℕ) (x y : Text) → has b y ≡ false → split_last b (x ++ b ∷ y) ≡ some (x, y)
unfolding split_last
split_last-at b [] y h = rw (split_last-none b y h, ==_true {a = b} refl) refl
split_last-at b (c ∷ x) y h = rw (split_last-at b x y h) refl

-- What a split at one byte leaves of two.
abbrev Splits : ℕ → ℕ → Text → Option (Text × Text) → Type 0
Splits b d l none = has b l ≡ false
Splits b d l (some s) = (has b s.1 ≡ false) × (has d l ≡ false → has d s.0 ≡ false)

split_last-Splits : (b d : ℕ) (l : Text) → Splits b d l (split_last b l)
unfolding split_last
split_last-Splits b d [] = refl
split_last-Splits b d (c ∷ l) = step (split_last b l) (split_last-Splits b d l)
  where
    step :
        (o : Option (Text × Text))
        → Splits b d l o
        → Splits b d
            (c ∷ l)
            (elim o [ some p ↦ some (c ∷ p.0, p.1) | none ↦ if c == b then some ([], l) else none ])
    step (some p) (h, k) = (h, λ e. ground (arith, e, k (ground (arith, e))))
    step none h = elim (Bool-cases (c == b)) [
      | inl same ↦ rw same (h, λ e. refl)
      | inr other ↦ rw other (rw other h)
    ]

filename-has : (p : Text) → has slash (filename p) ≡ false
unfolding filename
filename-has p = go (split_last slash p) (split_last-Splits slash slash p)
  where
    go :
        (o : Option (Text × Text))
        → Splits slash slash p o
        → has slash (elim o [ none ↦ p | some s ↦ s.1 ]) ≡ false
    go none h = h
    go (some s) h = h.0

-- A port's name has no separator.
pub stem-has : (p : Text) → has slash (stem p) ≡ false
unfolding stem
stem-has p = go (split_last dot (filename p)) (split_last-Splits dot slash (filename p))
  where
    name : Text
    name = filename p

    go :
        (o : Option (Text × Text))
        → Splits dot slash name o
        → has slash
            (elim o [ none ↦ name | some s ↦ if is_nil s.0 || is_dots name then name else s.0 ])
          ≡ false
    go none h = filename-has p
    go (some s) (h, k) = elim (Bool-cases (is_nil s.0 || is_dots name)) [
      | inl whole ↦ rw whole (filename-has p)
      | inr cut ↦ rw cut (k (filename-has p))
    ]

parent_path-at :
    (a b : Text) → has slash b ≡ false → is_nil a ≡ false → parent_path (a ++ slash ∷ b) ≡ a
unfolding parent_path
parent_path-at a b h some_left = ap parent_of (split_last-at slash a b h) ∙ rw some_left refl

abbrev pub tty : Text
tty = codes "/sys/class/tty"

has-ends_with : (l : Text) → has slash l ≡ false → ends_with slash l ≡ false
has-ends_with [] h = refl
has-ends_with (c ∷ []) h = ground (arith, h)
has-ends_with (c ∷ d ∷ l) h = has-ends_with (d ∷ l) (ground (arith, h))

join-tty :
    (name : Text)
    → is_nil name ≡ false
    → has slash name ≡ false
    → join tty name ≡ tty ++ slash ∷ name
unfolding join
join-tty [] some_left h = absurd (ground (arith, some_left))
join-tty (c ∷ l) some_left h = let other : (c == slash) ≡ false = ground (arith, h) in rw other refl

tty_path_lem :
    (name : Text)
    → is_nil name ≡ false
    → has slash name ≡ false
    → tty_path name ≡ (tty ++ slash ∷ name) ++ slash ∷ codes "device"
unfolding join
tty_path_lem [] some_left h = absurd (ground (arith, some_left))
tty_path_lem (c ∷ l) some_left h =
    ap (λ p. join p (codes "device")) (join-tty (c ∷ l) some_left h) ∙ below
  where
    below :
        join (tty ++ slash ∷ c ∷ l) (codes "device")
        ≡ (tty ++ slash ∷ c ∷ l) ++ slash ∷ codes "device"
    below = rw (has-ends_with (c ∷ l) h) refl

-- The directory of the link to a port's device, and its directory.
pub parent_path-tty_path :
    (name : Text)
    → is_nil name ≡ false
    → has slash name ≡ false
    → (parent_path (tty_path name) ≡ tty ++ slash ∷ name)
      × (parent_path (tty ++ slash ∷ name) ≡ tty)
parent_path-tty_path name some_left h = (
  ap parent_path (tty_path_lem name some_left h)
      ∙ parent_path-at (tty ++ slash ∷ name) (codes "device") refl refl,
  parent_path-at tty name h refl,
)
