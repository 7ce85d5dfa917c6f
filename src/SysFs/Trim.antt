-- ===== src/SysFs/Trim.antt =====
-- What `SysFsLinux::_read_line` of src/serial/tools/core/sys_fs_linux.cpp makes of a file's first line.
use ares_common.Common.{
  ◌≡◌, refl, ap, ◌∙◌, Bool, true, false, ◌||◌, [], ◌∷◌, ◌++◌, none, some, if◌then◌else◌, ◌==◌, ◌&&◌,
  arith, Bool-cases, inl, inr,
}
use ares_common.SysFs.Texts.{
  Text, is_nil, is_blank, erase_leading, erase_trailing, trim, first_line, read_line,
}

abbrev pub all_blank : Text → Bool
all_blank [] = true
all_blank (c ∷ l) = is_blank c && all_blank l

abbrev pub starts_blank : Text → Bool
starts_blank [] = false
starts_blank (c ∷ l) = is_blank c

abbrev pub ends_blank : Text → Bool
ends_blank [] = false
ends_blank (c ∷ l) = if is_nil l then is_blank c else ends_blank l

abbrev pub has_newline : Text → Bool
has_newline [] = false
has_newline (c ∷ l) = (c == 10) || has_newline l

-- The middle of a text between white space, as long as it can be.
abbrev pub Trimmed : Text → Text → Type 0
Trimmed l middle =
    ((before : Text) × (behind : Text) × (l ≡ before ++ (middle ++ behind))
      × (all_blank before ≡ true)
      × (all_blank behind ≡ true))
    × (starts_blank middle ≡ false)
    × (ends_blank middle ≡ false)

leading :
    (l : Text)
    → ((before : Text) × (l ≡ before ++ erase_leading l) × (all_blank before ≡ true))
      × (starts_blank (erase_leading l) ≡ false)
unfolding erase_leading
leading [] = (([], refl, refl), refl)
leading (c ∷ l) = elim (Bool-cases (is_blank c)) [
  | inl blank ↦
      (let ((before, e, all), first) = leading l in
        rw blank ((c ∷ before, ap (λ k. c ∷ k) e, rw (blank, all) refl), first))
  | inr other ↦ rw other (([], refl, refl), other)
]

nil_iff : (l : Text) → is_nil l ≡ true → l ≡ []
nil_iff [] e = refl
nil_iff (c ∷ l) e = absurd (ground (arith, e))

trailing :
    (l : Text)
    → ((behind : Text) × (l ≡ erase_trailing l ++ behind) × (all_blank behind ≡ true))
      × (ends_blank (erase_trailing l) ≡ false)
unfolding erase_trailing
trailing [] = (([], refl, refl), refl)
trailing (c ∷ l) =
    let ((behind, e, all), last) = trailing l in
    elim (Bool-cases (is_nil (erase_trailing l))) [
      | inl gone ↦ elim (Bool-cases (is_blank c)) [
        | inl blank ↦
            rw (gone, blank)
              (
                (
                  c ∷ behind,
                  ap (λ k. c ∷ k) (e ∙ ap (λ k. k ++ behind) (nil_iff (erase_trailing l) gone)),
                  rw (blank, all) refl,
                ),
                refl,
              )
        | inr other ↦ rw (gone, other) ((behind, ap (λ k. c ∷ k) e, all), rw (gone, other) refl)
      ]
      | inr some_left ↦ rw some_left ((behind, ap (λ k. c ∷ k) e, all), rw some_left last)
    ]

starts-erase_trailing :
    (l : Text) → starts_blank l ≡ false → starts_blank (erase_trailing l) ≡ false
unfolding erase_trailing
starts-erase_trailing [] h = refl
starts-erase_trailing (c ∷ l) h = elim (Bool-cases (is_nil (erase_trailing l))) [
  | inl gone ↦ rw (gone, h) h
  | inr some_left ↦ rw some_left h
]

trim-Trimmed : (l : Text) → Trimmed l (trim l)
unfolding trim
trim-Trimmed l =
    let ((before, e, all), first) = leading l in
    let ((behind, e', all'), last) = trailing (erase_leading l) in
    (
      (before, behind, e ∙ ap (λ k. before ++ k) e', all, all'),
      starts-erase_trailing (erase_leading l) first,
      last,
    )

first_line-newline :
    (line rest : Text) → has_newline line ≡ false → first_line (line ++ 10 ∷ rest) ≡ line
unfolding first_line
first_line-newline [] rest h = refl
first_line-newline (c ∷ line) rest h = ground (arith, h, first_line-newline line rest)

-- The line that is read of a file is its first one without the white space around it: of a text
-- without a newline, followed by a newline and anything, it is a middle part between white space that
-- itself neither begins nor ends with white space. A file that cannot be opened reads as an empty
-- line.
pub read_line_lem :
    (line rest : Text)
    → has_newline line ≡ false
    → Trimmed line (read_line (some (line ++ 10 ∷ rest))) × (read_line none ≡ [])
unfolding read_line
read_line_lem line rest h = (rw (first_line-newline line rest h) (trim-Trimmed line), refl)
