-- ===== src/SysFs/Laws.antt =====
-- The list of ports of src/serial/tools/core/sys_fs_linux.cpp: what it holds, and when it throws.
use ares_common.Common.{
  ◌≡◌, refl, ap, ◌∙◌, false, List, [], ◌∷◌, ◌++◌, map, none, some, Option-cases, Result, ok, err,
  if◌then◌else◌, if-holds, inl, inr,
}
use mathlib.Core.Path.{subst}
use ares_common.SysFs.{
  FileSystem, SysFsBase, SysFsLinux, num_interfaces, create, create_base, fill_usb_dev_info,
  interface_path, same, required, is_link, tty_path, read, ◌>>=◌,
}
use ares_common.SysFs.Ports.{ScanAttr, devices, scan, comports}
use ares_common.SysFs.Texts.{Text, codes, is_nil, read_line, erase_leading}
use ares_common.SysFs.Paths.{join, filename, parent_path, stem, slash}
use ares_common.SysFs.Names.{tty, stem-has, parent_path-tty_path}
use ares_common.SysFs.Numbers.{Failure, invalid_argument, stoull, sign, skip_prefix}

-- The ports that are listed.
abbrev pub listed : List SysFsLinux → List SysFsLinux
listed [] = []
listed (p ∷ ps) = if same p.subsystem (codes "platform") then listed ps else p ∷ listed ps

-- A call that throws.
abbrev pub Throws : {A : Type 0} → Result Failure A → Type 0
Throws r = (e : Failure) × (r ≡ err e)

module _ {A B : Type 0} where
  bind-Throws : (r : Result Failure A) (f : A → Result Failure B) → Throws r → Throws (r >>= f)
  bind-Throws r f (e, h) = (e, ap (λ x. x >>= f) h)

  -- A call throws if it does whatever its first step returns.
  step-Throws :
      (r : Result Failure A) (f : A → Result Failure B)
      → ((a : A) → r ≡ ok a → Throws (f a))
      → Throws (r >>= f)
  step-Throws (ok a) f h = h a refl
  step-Throws (err e) f h = (e, refl)

module _ (fs : FileSystem) where
  scan-Throws :
      (before after : List Text) (d : Text)
      → Throws (create fs d)
      → Throws (scan fs (before ++ d ∷ after))
  unfolding scan
  scan-Throws [] after d h = bind-Throws (create fs d) _ h
  scan-Throws (b ∷ before) after d h =
      step-Throws (create fs b) _
        λ dev e. bind-Throws (scan fs (before ++ d ∷ after)) _ (scan-Throws before after d h)

-- The paths of ports, with what is made of them.
abbrev pub AllCreated : FileSystem → List (Text × SysFsLinux) → Type 0
AllCreated fs [] = Unit
AllCreated fs (p ∷ ps) = (create fs p.0 ≡ ok p.1) × AllCreated fs ps

module _ (fs : FileSystem) where
  scan-listed :
      (ps : List (Text × SysFsLinux))
      → AllCreated fs ps
      → scan fs (map (λ p. p.0) ps) ≡ ok (listed (map (λ p. p.1) ps))
  unfolding scan
  scan-listed [] h = refl
  scan-listed (p ∷ ps) (made, others) = rw (made, scan-listed ps others) refl

  -- `comports` gives the ports of the list of devices, in its order, without those of the platform's
  -- subsystem, if each of them can be read.
  pub comports_lem :
      (attr : ScanAttr) (ps : List (Text × SysFsLinux))
      → devices fs attr ≡ map (λ p. p.0) ps
      → AllCreated fs ps
      → comports fs attr ≡ ok (listed (map (λ p. p.1) ps))
  unfolding comports
  comports_lem attr ps h made = ap (scan fs) h ∙ scan-listed ps made

-- The name that a new object has, if there is one.
abbrev Named : Text → Result Failure SysFsBase → Type 0
Named dev (ok b) = b.name ≡ stem dev
Named dev (err e) = Unit

stoull-empty : stoull 16 (read_line none) ≡ err invalid_argument
unfolding stoull read_line erase_leading sign skip_prefix
stoull-empty = refl

module _ (fs : FileSystem) where
  create_base-Named : (dev : Text) → Named dev (create_base fs dev false)
  unfolding create_base
  create_base-Named dev =
      if-holds (Named dev) (is_link fs dev) _ _
        (λ link. elim (Option-cases (fs.canonical dev)) [
          | inl dangling ↦ rw dangling tt
          | inr (target, e) ↦ rw e refl
        ])
        (λ plain. refl)

  create_base-name :
      (dev : Text) (b : SysFsBase) → create_base fs dev false ≡ ok b → b.name ≡ stem dev
  create_base-name dev b h = subst (Named dev) h (create_base-Named dev)

  -- The vendor number cannot be read.
  fill_usb_dev_info-Throws :
      (d : SysFsLinux)
      → fs.contents (join (parent_path d.usb_interface_path) (codes "idVendor")) ≡ none
      → Throws (fill_usb_dev_info fs d)
  unfolding fill_usb_dev_info
  fill_usb_dev_info-Throws d missing =
      let usb = parent_path d.usb_interface_path in
      step-Throws (num_interfaces (read fs usb (codes "bNumInterfaces"))) _ λ count e.
        bind-Throws (stoull 16 (read fs usb (codes "idVendor"))) _
          (invalid_argument, ap (λ c. stoull 16 (read_line c)) missing ∙ stoull-empty)

  create-Throws :
      (dev real kind : Text)
      → is_nil (stem dev) ≡ false
      → fs.canonical (tty_path (stem dev)) ≡ some real
      → fs.canonical (join real (codes "subsystem")) ≡ some kind
      → filename kind ≡ codes "usb-serial"
      → fs.contents (codes "/sys/class/tty/idVendor") ≡ none
      → Throws (create fs dev)
  unfolding create interface_path join
  create-Throws dev real kind named at_real at_kind usb missing =
      step-Throws (create_base fs dev false) _ λ base is_base.
        step-Throws (if is_link fs dev then required (fs.read_symlink dev) else ok dev) _
          λ device e.
            let (above, top) = parent_path-tty_path (stem dev) named (stem-has dev) in
            let d : SysFsLinux = record {
              base = record base { name = stem dev };
              device_path = real;
              usb_device_path = [];
              subsystem = codes "usb-serial";
              usb_interface_path = tty ++ slash ∷ stem dev;
            } in
            rw (create_base-name dev base is_base, at_real, at_kind, usb, above)
              (bind-Throws (fill_usb_dev_info fs d) _ (
                fill_usb_dev_info-Throws d
                  (ap (λ p. fs.contents (join p (codes "idVendor"))) top ∙ missing)))

  -- A port of the `usb-serial` subsystem, whose name is not empty, makes the whole listing throw,
  -- whatever ports stand before it and behind it, unless there is a file /sys/class/tty/idVendor: the
  -- directory of its device is taken to be /sys/class/tty, where its vendor number does not stand.
  pub comports-Throws :
      (attr : ScanAttr) (before after : List Text) (dev real kind : Text)
      → devices fs attr ≡ before ++ dev ∷ after
      → is_nil (stem dev) ≡ false
      → fs.canonical (tty_path (stem dev)) ≡ some real
      → fs.canonical (join real (codes "subsystem")) ≡ some kind
      → filename kind ≡ codes "usb-serial"
      → fs.contents (codes "/sys/class/tty/idVendor") ≡ none
      → Throws (comports fs attr)
  unfolding comports
  comports-Throws attr before after dev real kind h named at_real at_kind usb missing =
      let (e, thrown) =
        scan-Throws fs before after dev
          (create-Throws dev real kind named at_real at_kind usb missing) in
      (e, ap (scan fs) h ∙ thrown)
