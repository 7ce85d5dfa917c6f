-- ===== src/MountPoint.antt =====
-- The device under a path: include/ares/mntpoint/mntpoint.hpp and src/mntpoint/mntpoint.cpp. `stat` and
-- the table of mounts are parameters. A path is a list of character codes.
pub mod Laws
mod Tests
use ares_common.Common.{
  ℕ, ◌+◌, ◌-◌, Bool, true, false, not, ◌&&◌, Option, none, some, if◌then◌else◌, ◌==◌, List, [], ◌∷◌,
  take,
}

abbrev pub Text : Type 0
Text = List ℕ

-- What `stat` answers: the device of a path, or `errno`.
pub data Stat : Type 0 where
  on_device : ℕ → Stat
  no_stat : ℕ → Stat

-- `struct mntent`.
pub record Mount : Type 0 where
  pub mnt_dir : Text
  pub mnt_fsname : Text

-- What a function returns: 0 with a value that it stores, or the negative of an error number.
pub data Status (A : Type 0) : Type 0 where
  stores : A → Status A
  negative : ℕ → Status A
  aborts : Status A

abbrev pub eacces : ℕ
eacces = 13

abbrev pub enodata : ℕ
enodata = 61

abbrev pub path_max : ℕ
path_max = 4096

abbrev pub status_of : Stat → Status ℕ
status_of (on_device d) = stores d
status_of (no_stat e) = negative e

abbrev pub is_device : ℕ → Stat → Bool
is_device d (on_device e) = e == d
is_device d (no_stat e) = false

abbrev pub device_or_none : Status Text → Text
device_or_none (stores dev) = dev
device_or_none _ = []

abbrev pub is_empty : Text → Bool
is_empty [] = true
is_empty (x ∷ xs) = false

-- "/dev/nvme".
abbrev pub nvme : Text
nvme = 47 ∷ 100 ∷ 101 ∷ 118 ∷ 47 ∷ 110 ∷ 118 ∷ 109 ∷ 101 ∷ []

-- `dev.compare(0, prefix.size(), prefix) == 0`.
abbrev pub starts_with : Text → Text → Bool
starts_with [] dev = true
starts_with (x ∷ xs) [] = false
starts_with (x ∷ xs) (y ∷ ys) = (x == y) && starts_with xs ys

module _ (stat : Text → Stat) where
  unfoldable pub stat_directory : Text → Status ℕ
  stat_directory path = status_of (stat path)

  -- The loop of `get_mount`, and `snprintf` into a buffer of `dev_len` characters.
  unfoldable pub search_mounts : ℕ → ℕ → List Mount → Status Text
  search_mounts dev_id dev_len [] = negative enodata
  search_mounts dev_id dev_len (m ∷ ms) =
      let rest = search_mounts dev_id dev_len ms in
      if is_device dev_id (stat m.mnt_dir) then stores (take (dev_len - 1) m.mnt_fsname) else rest

  abbrev pub open_mounts : ℕ → Option (List Mount) → ℕ → Status Text
  open_mounts dev_len none dev_id = negative eacces
  open_mounts dev_len (some mounts) dev_id = search_mounts dev_id dev_len mounts

  abbrev pub after_stat : ℕ → Option (List Mount) → Status ℕ → Status Text
  after_stat dev_len mounts (stores dev_id) = open_mounts dev_len mounts dev_id
  after_stat dev_len mounts (negative e) = negative e
  after_stat dev_len mounts aborts = aborts

  unfoldable pub get_mount : Option (List Mount) → Text → ℕ → Status Text
  get_mount mounts path dev_len =
      if dev_len == 0 then aborts else after_stat dev_len mounts (stat_directory path)

  unfoldable pub find_mount_device : Option (List Mount) → Text → Text
  find_mount_device mounts path =
      if is_empty path then [] else device_or_none (get_mount mounts path path_max)

  unfoldable pub mount_device_nvme : Option (List Mount) → Text → Bool
  mount_device_nvme mounts path =
      let dev = find_mount_device mounts path in
      if is_empty dev then false else starts_with nvme dev
