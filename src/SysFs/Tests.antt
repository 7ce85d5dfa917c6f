-- ===== src/SysFs/Tests.antt =====
-- The theorems on the list of ports at concrete file systems.
use ares_common.Common.{◌≡◌, refl, true, false, [], ◌∷◌, none, some, ok, if◌then◌else◌, arith}
use ares_common.SysFs.{
  FileSystem, SysFsLinux, same, create, create_base, usb_info, interface_path, describe, add_link,
}
use ares_common.SysFs.Ports.{ScanAttr, devices, comports}
use ares_common.SysFs.Texts.{codes, read_line, trim, erase_leading, erase_trailing, first_line}
use ares_common.SysFs.Paths.{join, filename, stem, split_last}
use ares_common.SysFs.Numbers.{stoull, hex, hex_digits}
use ares_common.SysFs.Print.{stoull-usb_info}
use ares_common.SysFs.Laws.{comports_lem, Throws, comports-Throws}

-- One PNP port.
abbrev pnp_system : FileSystem
pnp_system = record {
  is_symlink = λ p. false;
  read_symlink = λ p. none;
  canonical = λ p.
      some (if same p (codes "/sys/d/subsystem") then codes "/sys/bus/pnp" else codes "/sys/d");
  contents = λ p. if same p (codes "/sys/d/id") then some (codes "PNP0501 \n") else none;
  glob = λ p. if same p (codes "/dev/ttyS*") then codes "/dev/ttyS0" ∷ [] else [];
}

abbrev all_ports : ScanAttr
all_ports = record {
  tty_s = true;
  tty_usb = true;
  tty_xrusb = true;
  tty_acm = true;
  tty_ama = true;
  rfcomm = true;
  tty_ap = true;
  tty_gs = true;
}

abbrev pnp_port : SysFsLinux
pnp_port = record {
  base = record {
    device = codes "/dev/ttyS0";
    name = codes "ttyS0";
    description = codes "ttyS0";
    hwid = codes "PNP0501";
    serial_number = [];
    location = [];
    manufacturer = [];
    product = [];
    interface = [];
    vid = 0;
    pid = 0;
  };
  device_path = codes "/sys/d";
  usb_device_path = [];
  subsystem = codes "pnp";
  usb_interface_path = [];
}

pnp_listed : comports pnp_system all_ports ≡ ok (pnp_port ∷ [])
unfolding devices create create_base stem filename split_last join interface_path describe add_link
    read_line trim erase_leading erase_trailing first_line
pnp_listed = comports_lem pnp_system all_ports ((codes "/dev/ttyS0", pnp_port) ∷ []) refl (refl, tt)

-- One port of a USB adapter.
abbrev usb_system : FileSystem
usb_system = record {
  is_symlink = λ p. false;
  read_symlink = λ p. none;
  canonical = λ p. some (
      if same p (codes "/sys/d/ttyUSB0/subsystem")
      then codes "/sys/bus/usb-serial"
      else codes "/sys/d/ttyUSB0");
  contents = λ p. if same p (codes "/sys/d/idVendor") then some (codes "0403\n") else none;
  glob = λ p. if same p (codes "/dev/ttyUSB*") then codes "/dev/ttyUSB0" ∷ [] else [];
}

comports-Throws_example : Throws (comports usb_system all_ports)
unfolding devices stem filename split_last join
comports-Throws_example =
    comports-Throws usb_system all_ports [] [] (codes "/dev/ttyUSB0") (codes "/sys/d/ttyUSB0")
      (codes "/sys/bus/usb-serial") refl refl refl refl refl refl

stoull-usb_info_example : stoull 16 (codes "0403:0000 SER= LOCATION=") ≡ ok 1027
unfolding usb_info hex hex_digits
stoull-usb_info_example = stoull-usb_info (record pnp_port.base { vid = 1027 }) (omega arith)
