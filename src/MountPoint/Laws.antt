-- ===== src/MountPoint/Laws.antt =====
-- Which device is found.
use ares_common.Common.{
  ℕ, ◌-◌, ◌≡◌, ◌↔◌, refl, sym, ap, ap₂, ◌∙◌, Bool, true, false, not, ◌&&◌, Option, some,
  if◌then◌else◌, ◌==◌, List, [], ◌∷◌, ◌++◌, take, ◌⊎◌, inl, inr, arith, Bool-cases,
}
use ares_common.MountPoint.{
  Text, Stat, on_device, Mount, stores, negative, enodata, path_max, is_device, stat_directory,
  search_mounts, get_mount, device_or_none, is_empty, find_mount_device, nvme, starts_with,
  mount_device_nvme,
}

module _ (stat : Text → Stat) where
  -- Whether a mount is of a device, and whether none of several is.
  abbrev pub holds : ℕ → Mount → Bool
  holds d m = is_device d (stat m.mnt_dir)

  abbrev pub none_holds : ℕ → List Mount → Bool
  none_holds d [] = true
  none_holds d (m ∷ ms) = not (holds d m) && none_holds d ms

  -- The first mount of a device.
  pub record FirstMount (d : ℕ) (mounts : List Mount) (m : Mount) : Type 0 where
    pub before : List Mount
    pub after : List Mount
    pub stands : mounts ≡ before ++ m ∷ after
    pub not_before : none_holds d before ≡ true
    pub holds_it : holds d m ≡ true

  search-first :
      (d len : ℕ) (mounts : List Mount)
      → ((none_holds d mounts ≡ true) × (search_mounts stat d len mounts ≡ negative enodata))
        ⊎ ((m : Mount) × FirstMount d mounts m
            × (search_mounts stat d len mounts ≡ stores (take (len - 1) m.mnt_fsname)))
  unfolding search_mounts
  search-first d len [] = inl (refl, refl)
  search-first d len (m ∷ ms) = elim (Bool-cases (holds d m)) [
    | inl e ↦ inr (
      m,
      record { before = []; after = ms; stands = refl; not_before = refl; holds_it = e },
      rw e refl,
    )
    | inr e ↦ elim (search-first d len ms) [
      | inl (f, g) ↦ inl (rw e f, rw e g)
      | inr (k, w, g) ↦ inr (
        k,
        record {
          before = m ∷ w.before;
          after = w.after;
          stands = ap (λ xs. m ∷ xs) w.stands;
          not_before = rw e w.not_before;
          holds_it = w.holds_it;
        },
        rw e g,
      )
    ]
  ]

  -- The device of a path that is not empty and that is on a device of the system: the name of the
  -- first mount in the table whose directory is on the same device, of which 4095 characters are
  -- kept, or nothing if no mount is on it.
  pub find_mount_lem :
      (path : Text) (d : ℕ) (mounts : List Mount)
      → is_empty path ≡ false
      → stat path ≡ on_device d
      → ((none_holds d mounts ≡ true) × (find_mount_device stat (some mounts) path ≡ []))
        ⊎ ((m : Mount) × FirstMount d mounts m
            × (find_mount_device stat (some mounts) path ≡ take 4095 m.mnt_fsname))
  unfolding find_mount_device get_mount stat_directory
  find_mount_lem path d mounts n s = rw n (
      rw s (elim (search-first d path_max mounts) [
        | inl (f, g) ↦ inl (f, ap device_or_none g)
        | inr (m, w, g) ↦ inr (m, w, ap device_or_none g)
      ]))

starts-rest : (xs dev : Text) → starts_with xs dev ≡ true → (rest : Text) × (dev ≡ xs ++ rest)
starts-rest [] dev h = (dev, refl)
starts-rest (x ∷ xs) [] h = absurd (ground (arith, h))
starts-rest (x ∷ xs) (y ∷ ys) h =
    let (rest, e) = starts-rest xs ys (ground (arith, h)) in
    let same : y ≡ x = ground (arith, h) in (rest, ap₂ (λ z zs. z ∷ zs) same e)

starts-append : (xs rest : Text) → starts_with xs (xs ++ rest) ≡ true
starts-append [] rest = refl
starts-append (x ∷ xs) rest = let e : (x == x) ≡ true = ground arith in rw e (starts-append xs rest)

-- The test for an empty name changes nothing.
test_lem :
    (dev : Text) → (if is_empty dev then false else starts_with nvme dev) ≡ starts_with nvme dev
test_lem [] = refl
test_lem (x ∷ xs) = refl

-- A path is on an NVMe device exactly when the device that is found begins with "/dev/nvme".
pub nvme_iff :
    (stat : Text → Stat) (mounts : Option (List Mount)) (path : Text)
    → (mount_device_nvme stat mounts path ≡ true)
      ↔ ((rest : Text) × (find_mount_device stat mounts path ≡ nvme ++ rest))
unfolding mount_device_nvme
nvme_iff stat mounts path =
    let dev = find_mount_device stat mounts path in
    (
      λ h. starts-rest nvme dev (sym (test_lem dev) ∙ h),
      λ (rest, e). test_lem dev ∙ ap (starts_with nvme) e ∙ starts-append nvme rest,
    )
