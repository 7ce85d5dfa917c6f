-- ===== src/SysFs/Ports.antt =====
-- The list of serial ports: `comports` of src/serial/tools/core/sys_fs_linux.cpp and of
-- src/serial/tools/list_ports.cpp.
use ares_common.Common.{Bool, List, [], ◌∷◌, ◌++◌, Result, ok, if◌then◌else◌}
use ares_common.SysFs.{FileSystem, SysFsLinux, create, same, ◌>>=◌}
use ares_common.SysFs.Texts.{Text, codes}
use ares_common.SysFs.Numbers.{Failure}

-- `SysFsLinuxScanAttr`.
pub record ScanAttr : Type 0 where
  pub tty_s : Bool
  pub tty_usb : Bool
  pub tty_xrusb : Bool
  pub tty_acm : Bool
  pub tty_ama : Bool
  pub rfcomm : Bool
  pub tty_ap : Bool
  pub tty_gs : Bool

module _ (fs : FileSystem) where
  -- `UPDATE_VECTOR`.
  abbrev pub matching : Bool → Text → List Text
  matching wanted pattern = if wanted then fs.glob pattern else []

  unfoldable pub devices : ScanAttr → List Text
  devices attr =
      matching attr.tty_s (codes "/dev/ttyS*")
      ++ matching attr.tty_usb (codes "/dev/ttyUSB*")
      ++ matching attr.tty_xrusb (codes "/dev/ttyXRUSB*")
      ++ matching attr.tty_acm (codes "/dev/ttyACM**")
      ++ matching attr.tty_ama (codes "/dev/ttyAMA*")
      ++ matching attr.rfcomm (codes "/dev/rfcomm*")
      ++ matching attr.tty_ap (codes "/dev/ttyAP*")
      ++ matching attr.tty_gs (codes "/dev/ttyGS*")

  -- The loop of `comports`.
  unfoldable pub scan : List Text → Result Failure (List SysFsLinux)
  scan [] = ok []
  scan (device ∷ more) = do
    dev ← create fs device
    ports ← scan more
    ok (if same dev.subsystem (codes "platform") then ports else dev ∷ ports)

  -- `comports`, in both name spaces.
  unfoldable pub comports : ScanAttr → Result Failure (List SysFsLinux)
  comports attr = scan (devices attr)
