-- ===== src/SysFs.antt =====
-- The attributes of serial ports below /sys: src/serial/tools/core/sys_fs_common.cpp and
-- src/serial/tools/core/sys_fs_linux.cpp.
-- A path and a text are their bytes; a path has no two separators after each other.
pub mod Texts
pub mod Paths
pub mod Numbers
pub mod Trim
pub mod Print
pub mod Names
pub mod Ports
pub mod Laws
mod Tests
use ares_common.Common.{
  ℕ, ◌%◌, ◌^◌, Bool, true, false, not, ◌&&◌, ◌||◌, List, [], ◌∷◌, ◌++◌, Option, none, some, Result,
  ok, err, if◌then◌else◌, ltb, ◌==◌,
}
use ares_common.SysFs.Texts.{Text, codes, is_nil, read_line}
use ares_common.SysFs.Paths.{join, filename, parent_path, stem}
use ares_common.SysFs.Numbers.{Failure, filesystem_error, stoull, hex}

-- What the file system answers, all at one time: whether a path is a symbolic link, where it leads,
-- its canonical form, what a file holds, and the paths that match a pattern. `none` is an error.
pub record FileSystem : Type 0 where
  pub is_symlink : Text → Bool
  pub read_symlink : Text → Option Text
  pub canonical : Text → Option Text
  pub contents : Text → Option Text
  pub glob : Text → List Text

-- `SysFsBase`.
pub record SysFsBase : Type 0 where
  pub device : Text
  pub name : Text
  pub description : Text
  pub hwid : Text
  pub serial_number : Text
  pub location : Text
  pub manufacturer : Text
  pub product : Text
  pub interface : Text
  pub vid : ℕ
  pub pid : ℕ

-- `SysFsLinux`.
pub record SysFsLinux : Type 0 where
  pub base : SysFsBase
  pub device_path : Text
  pub usb_device_path : Text
  pub subsystem : Text
  pub usb_interface_path : Text

infixl 5 ◌>>=◌
abbrev pub ◌>>=◌ {ℓ κ} :
    {A : Type ℓ} {B : Type κ} → Result Failure A → (A → Result Failure B) → Result Failure B
ok a >>= f = f a
err e >>= f = err e

-- An answer without which the constructor throws.
abbrev pub required : {A : Type 0} → Option A → Result Failure A
required none = err filesystem_error
required (some a) = ok a

-- `a == b` of strings.
abbrev pub same : Text → Text → Bool
same [] [] = true
same [] (d ∷ k) = false
same (c ∷ l) [] = false
same (c ∷ l) (d ∷ k) = (c == d) && same l k

-- `SysFsBase::usb_description`.
unfoldable pub usb_description : SysFsBase → Text
usb_description b =
    if not (is_nil b.interface)
    then b.product ++ codes " - " ++ b.interface
    else if not (is_nil b.product)
    then b.product
    else b.name

-- `SysFsBase::usb_info`.
unfoldable pub usb_info : SysFsBase → Text
usb_info b =
    let place = codes " LOCATION=" ++ b.location in
    let serial = codes " SER=" ++ (b.serial_number ++ place) in
    codes "USB VID:PID=" ++ (hex b.vid ++ (codes ":" ++ (hex b.pid ++ serial)))

unfoldable pub apply_usb_info : SysFsBase → SysFsBase
apply_usb_info b = record b { description = usb_description b; hwid = usb_info b }

-- The number of interfaces, of 32 bits.
abbrev pub num_interfaces : Text → Result Failure ℕ
num_interfaces line = if is_nil line then ok 1 else (do n ← stoull 10 line; ok (n % 2 ^ 32))

-- The interface of a USB port, by its subsystem.
unfoldable pub interface_path : Text → Text → Text → Text
interface_path subsystem device_path real_path =
    if same subsystem (codes "usb-serial")
    then parent_path device_path
    else if same subsystem (codes "usb")
    then real_path
    else []

unfoldable pub add_link : Bool → Text → SysFsLinux → SysFsLinux
add_link is_link device d =
    if is_link
    then record d { base = record d.base { hwid = d.base.hwid ++ (codes " LINK=" ++ device) } }
    else d

-- The path below /sys of a port's device.
abbrev pub tty_path : Text → Text
tty_path name = join (join (codes "/sys/class/tty") name) (codes "device")

module _ (fs : FileSystem) where
  -- `dev` is a link that is not the empty path.
  abbrev pub is_link : Text → Bool
  is_link dev = not (is_nil dev) && fs.is_symlink dev

  abbrev fresh : Text → Text → SysFsBase
  fresh dev hwid = record {
    device = dev;
    name = stem dev;
    description = codes "n/a";
    hwid = hwid;
    serial_number = [];
    location = [];
    manufacturer = [];
    product = [];
    interface = [];
    vid = 0;
    pid = 0;
  }

  -- `SysFsBase::SysFsBase`.
  unfoldable pub create_base : Text → Bool → Result Failure SysFsBase
  create_base dev skip_link_detection =
      if not skip_link_detection && is_link dev
      then (do target ← required (fs.canonical dev); ok (fresh dev (codes "LINK=" ++ target)))
      else ok (fresh dev (codes "n/a"))

  -- `_read_line`.
  abbrev pub read : Text → Text → Text
  read path file = read_line (fs.contents (join path file))

  -- `_fill_usb_dev_info`.
  unfoldable pub fill_usb_dev_info : SysFsLinux → Result Failure SysFsLinux
  fill_usb_dev_info d = do
    let usb = parent_path d.usb_interface_path
    count ← num_interfaces (read usb (codes "bNumInterfaces"))
    vid ← stoull 16 (read usb (codes "idVendor"))
    pid ← stoull 16 (read usb (codes "idProduct"))
    ok (record d {
      usb_device_path = usb;
      base = record d.base {
        vid = vid;
        pid = pid;
        serial_number = read usb (codes "serial");
        location = if ltb 1 count then stem d.usb_interface_path else stem usb;
        manufacturer = read usb (codes "manufacturer");
        product = read usb (codes "product");
        interface = read d.usb_interface_path (codes "interface");
      };
    })

  -- The description and the hardware id, by the subsystem.
  unfoldable pub describe : SysFsLinux → SysFsLinux
  describe d =
      let b = d.base in
      if same d.subsystem (codes "usb") || same d.subsystem (codes "usb-serial")
      then record d { base = apply_usb_info b }
      else if same d.subsystem (codes "pnp")
      then record d {
        base = record b { description = b.name; hwid = read d.device_path (codes "id") };
      }
      else if same d.subsystem (codes "amba")
      then record d { base = record b { description = b.name; hwid = stem d.device_path } }
      else d

  -- `SysFsLinux::SysFsLinux`. The path below /sys is never empty.
  unfoldable pub create : Text → Result Failure SysFsLinux
  create dev = do
    base ← create_base dev false
    device ← (if is_link dev then required (fs.read_symlink dev) else ok dev)
    real ← required (fs.canonical (tty_path base.name))
    kind ← required (fs.canonical (join real (codes "subsystem")))
    let subsystem = filename kind
    let found : SysFsLinux = record {
      base = base;
      device_path = real;
      usb_device_path = [];
      subsystem = subsystem;
      usb_interface_path = interface_path subsystem (tty_path base.name) real;
    }
    filled ← (if is_nil found.usb_interface_path then ok found else fill_usb_dev_info found)
    ok (add_link (is_link dev) device (describe filled))
