-- ===== src/MountPoint/Tests.antt =====
-- A system with two mounts.
use ares_common.Common.{◌≡◌, ◌⊎◌, refl, true, some, List, [], ◌∷◌, ◌++◌, take, if◌then◌else◌, ◌==◌}
use ares_common.MountPoint.{
  Text, Stat, on_device, no_stat, Mount, find_mount_device, nvme, search_mounts, get_mount,
  stat_directory,
}
use ares_common.MountPoint.Laws.{none_holds, FirstMount, find_mount_lem}

-- "/", on device 1, and "/d", on device 2; nothing else is there.
abbrev stat : Text → Stat
stat (c ∷ []) = on_device 1
stat (c ∷ d ∷ []) = if d == 100 then on_device 2 else no_stat 2
stat _ = no_stat 2

abbrev mounts : List Mount
mounts =
    record { mnt_dir = 47 ∷ 120 ∷ []; mnt_fsname = 120 ∷ [] }
    ∷ record { mnt_dir = 47 ∷ []; mnt_fsname = 114 ∷ [] }
    ∷ record { mnt_dir = 47 ∷ 100 ∷ []; mnt_fsname = nvme ++ 48 ∷ [] }
    ∷ []

device : find_mount_device stat (some mounts) (47 ∷ 100 ∷ []) ≡ nvme ++ 48 ∷ []
unfolding find_mount_device get_mount stat_directory search_mounts
device = refl

find_mount_lem_example :
    ((none_holds stat 2 mounts ≡ true)
      × (find_mount_device stat (some mounts) (47 ∷ 100 ∷ []) ≡ []))
    ⊎ ((m : Mount) × FirstMount stat 2 mounts m
        × (find_mount_device stat (some mounts) (47 ∷ 100 ∷ []) ≡ take 4095 m.mnt_fsname))
find_mount_lem_example = find_mount_lem stat (47 ∷ 100 ∷ []) 2 mounts refl refl
