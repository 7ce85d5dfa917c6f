-- ===== src/Serial/Termios.antt =====
-- How the settings of a port are written to the terminal: the first half of
-- src/serial/core/C-API/serial_posix.c.
pub mod Laws
use Prim.Native.Nat.{bit_and, bit_or}
use ares_common.Common.{
  ℕ, ◌+◌, ◌-◌, ◌*◌, ◌^◌, ◌<◌, ◌≤◌, ◌≡◌, refl, Bool, true, false, not, ◌&&◌, ◌||◌, Option, none,
  some, if◌then◌else◌, ◌==◌, ltb, leb,
}
use ares_common.Common.Bits.{complement}
use ares_common.Common.Int.{ℤ, pos, negsuc}
use ares_common.Serial.Config.{
  BaudRate, ByteSize, Config, Constants, Parity, StopBits, Termios, baud_0, baud_1000000, baud_110,
  baud_115200, baud_1152000, baud_1200, baud_134, baud_150, baud_1500000, baud_1800, baud_19200,
  baud_200, baud_2000000, baud_230400, baud_2400, baud_2500000, baud_300, baud_3000000,
  baud_3500000, baud_38400, baud_4000000, baud_460800, baud_4800, baud_50, baud_500000, baud_57600,
  baud_576000, baud_600, baud_75, baud_921600, baud_9600, baud_other, parity_even, parity_other,
  parity_mark, parity_none, parity_odd, parity_space, size_5, size_6, size_7, size_8, size_invalid,
  stopbits_1, stopbits_1p5, stopbits_2, stopbits_other,
}

-- `flags |= m` and `flags &= ~m`, of 32 bits.
abbrev pub set_mask : ℕ → ℕ → ℕ
set_mask m flags = bit_or flags m

abbrev pub clear_mask : ℕ → ℕ → ℕ
clear_mask m flags = bit_and flags (complement 32 m)

-- The mask of one bit.
abbrev pub flag : ℕ → ℕ
flag k = 2 ^ k

-- How a change ends: with a value, with the negative of an error number, or by an overflow of `int`.
pub data Applied (A : Type 0) : Type 0 where
  applied : A → Applied A
  refused : ℕ → Applied A
  undefined : Applied A

infixl 5 ◌>>=◌
abbrev pub ◌>>=◌ : {A B : Type 0} → Applied A → (A → Applied B) → Applied B
applied a >>= f = f a
refused e >>= f = refused e
undefined >>= f = undefined

abbrev pub einval : ℕ
einval = 22

-- `none` is `return -EINVAL`.
abbrev pub valid : {A : Type 0} → Option A → Applied A
valid none = refused einval
valid (some a) = applied a

-- What a setter comes to: the new settings, or `none` for -EINVAL.
abbrev pub with_speed : Termios → ℕ → Option Termios
with_speed tty baud = some (record tty { ispeed = baud; ospeed = baud })

module _ (c : Constants) where
  -- `set_baud`.
  unfoldable pub set_baud : BaudRate → Termios → Option Termios
  set_baud baud_0 tty = with_speed tty (c.speed 0)
  set_baud baud_50 tty = with_speed tty (c.speed 50)
  set_baud baud_75 tty = with_speed tty (c.speed 75)
  set_baud baud_110 tty = with_speed tty (c.speed 110)
  set_baud baud_134 tty = with_speed tty (c.speed 134)
  set_baud baud_150 tty = with_speed tty (c.speed 150)
  set_baud baud_200 tty = with_speed tty (c.speed 200)
  set_baud baud_300 tty = with_speed tty (c.speed 300)
  set_baud baud_600 tty = with_speed tty (c.speed 600)
  set_baud baud_1200 tty = with_speed tty (c.speed 1200)
  set_baud baud_1800 tty = with_speed tty (c.speed 1800)
  set_baud baud_2400 tty = with_speed tty (c.speed 2400)
  set_baud baud_4800 tty = with_speed tty (c.speed 4800)
  set_baud baud_9600 tty = with_speed tty (c.speed 9600)
  set_baud baud_19200 tty = with_speed tty (c.speed 19200)
  set_baud baud_38400 tty = with_speed tty (c.speed 38400)
  set_baud baud_57600 tty = with_speed tty (c.speed 57600)
  set_baud baud_115200 tty = with_speed tty (c.speed 115200)
  set_baud baud_230400 tty = with_speed tty (c.speed 230400)
  set_baud baud_460800 tty = with_speed tty (c.speed 460800)
  set_baud baud_500000 tty = with_speed tty (c.speed 500000)
  set_baud baud_576000 tty = with_speed tty (c.speed 576000)
  set_baud baud_921600 tty = with_speed tty (c.speed 921600)
  set_baud baud_1000000 tty = with_speed tty (c.speed 1000000)
  set_baud baud_1152000 tty = with_speed tty (c.speed 1152000)
  set_baud baud_1500000 tty = with_speed tty (c.speed 1500000)
  set_baud baud_2000000 tty = with_speed tty (c.speed 2000000)
  set_baud baud_2500000 tty = with_speed tty (c.speed 2500000)
  set_baud baud_3000000 tty = with_speed tty (c.speed 3000000)
  set_baud baud_3500000 tty = with_speed tty (c.speed 3500000)
  set_baud baud_4000000 tty = with_speed tty (c.speed 4000000)
  set_baud baud_other tty = none

  -- `set_parity`, on the control flags.
  unfoldable pub parity_flags : Parity → ℕ → Option ℕ
  parity_flags parity_none f = some (clear_mask (flag c.parenb) f)
  parity_flags parity_even f = some (clear_mask (flag c.parodd) (set_mask (flag c.parenb) f))
  parity_flags parity_odd f = some (set_mask (bit_or (flag c.parenb) (flag c.parodd)) f)
  parity_flags parity_mark f =
      some (set_mask (bit_or (bit_or (flag c.parenb) (flag c.cmspar)) (flag c.parodd)) f)
  parity_flags parity_space f =
      some (clear_mask (flag c.parodd) (set_mask (bit_or (flag c.parenb) (flag c.cmspar)) f))
  parity_flags parity_other f = none

  unfoldable pub stopbits_flags : StopBits → ℕ → Option ℕ
  stopbits_flags stopbits_1 f = some (clear_mask (flag c.cstopb) f)
  stopbits_flags stopbits_1p5 f = some (set_mask (flag c.cstopb) f)
  stopbits_flags stopbits_2 f = some (set_mask (flag c.cstopb) f)
  stopbits_flags stopbits_other f = none

  unfoldable pub bytesize_flags : ByteSize → ℕ → Option ℕ
  bytesize_flags size_5 f = some (set_mask c.cs5 (clear_mask c.csize f))
  bytesize_flags size_6 f = some (set_mask c.cs6 (clear_mask c.csize f))
  bytesize_flags size_7 f = some (set_mask c.cs7 (clear_mask c.csize f))
  bytesize_flags size_8 f = some (set_mask c.cs8 (clear_mask c.csize f))
  bytesize_flags size_invalid f = none

  -- A change of the control flags.
  abbrev pub with_cflag : (ℕ → Option ℕ) → Termios → Option Termios
  with_cflag change tty = elim (change tty.c_cflag) [
    | none ↦ none
    | some f ↦ some (record tty { c_cflag = f })
  ]

  unfoldable pub set_xonxoff : Bool → Termios → Termios
  set_xonxoff true tty = record tty {
    c_iflag = set_mask (bit_or (flag c.ixon) (flag c.ixoff)) tty.c_iflag;
  }
  set_xonxoff false tty = record tty {
    c_iflag = clear_mask (bit_or (bit_or (flag c.ixon) (flag c.ixoff)) (flag c.ixany)) tty.c_iflag;
  }

  unfoldable pub set_rtscts : Bool → Termios → Termios
  set_rtscts true tty = record tty { c_cflag = set_mask (flag c.crtscts) tty.c_cflag }
  set_rtscts false tty = record tty { c_cflag = clear_mask (flag c.crtscts) tty.c_cflag }

  -- `tty.c_cflag |= …` to `tty.c_iflag &= …` of `configure_port`.
  unfoldable pub raw_mode : Termios → Termios
  raw_mode tty = record tty {
    c_cflag = set_mask (bit_or (flag c.clocal) (flag c.cread)) tty.c_cflag;
    c_lflag = 0;
    c_oflag = 0;
    c_iflag =
        clear_mask
          (bit_or (bit_or (bit_or (flag c.inlcr) (flag c.igncr)) (flag c.icrnl)) (flag c.ignbrk))
          tty.c_iflag;
  }

-- `set_ic_timeout`. The product is an `int`, and is computed before it is looked at.
unfoldable pub set_ic_timeout : ℤ → Termios → Applied Termios
set_ic_timeout (negsuc n) tty = applied (record tty { vmin = 0; vtime = 0 })
set_ic_timeout (pos n) tty =
    if leb (2 ^ 31) (n * 10)
    then undefined
    else if ltb 255 (n * 10)
    then refused einval
    else applied (record tty { vmin = 1; vtime = n * 10 })

-- What the driver holds of a port: its settings, and whether this process has its file locked.
pub record Device : Type 0 where
  pub tty : Termios
  pub locked : Bool

-- What the calls of the system come to: `none` is success, `some e` a failure with `errno` e.
pub record Calls : Type 0 where
  pub fcntl : Option ℕ
  pub tcgetattr : Option ℕ
  pub tcsetattr : Option ℕ

abbrev pub called : Option ℕ → Applied (Unit {0})
called none = applied tt
called (some e) = refused e

module _ (c : Constants) where
  -- What `configure_port` makes of the settings that it reads.
  unfoldable pub configure_tty : Config → Termios → Applied Termios
  configure_tty config tty = do
    with_baud ← valid (set_baud c config.baudrate (raw_mode c tty))
    with_parity ← valid (with_cflag c (parity_flags c config.parity) with_baud)
    with_stopbits ← valid (with_cflag c (stopbits_flags c config.stopbits) with_parity)
    with_bytesize ← valid (with_cflag c (bytesize_flags c config.bytesize) with_stopbits)
    set_ic_timeout config.inter_byte_timeout
        (set_rtscts c config.rtscts (set_xonxoff c config.xonxoff with_bytesize))

  -- `port_update_file_lock`.
  unfoldable pub update_file_lock : Option ℕ → Bool → Device → Device × Applied (Unit {0})
  update_file_lock none exclusive d = (record d { locked = exclusive }, applied tt)
  update_file_lock (some e) exclusive d = (d, refused e)

  -- The end of `configure_port`, `tcsetattr`.
  abbrev pub write_tty : Option ℕ → Device → Applied Termios → Device × Applied (Unit {0})
  write_tty failure d (refused e) = (d, refused e)
  write_tty failure d undefined = (d, undefined)
  write_tty (some e) d (applied tty) = (d, refused e)
  write_tty none d (applied tty) = (record d { tty = tty }, applied tt)

  abbrev pub after_lock : Calls → Config → Device × Applied (Unit {0}) → Device × Applied (Unit {0})
  after_lock calls config (d, refused e) = (d, refused e)
  after_lock calls config (d, undefined) = (d, undefined)
  after_lock calls config (d, applied x) =
      write_tty calls.tcsetattr d (called calls.tcgetattr >>= λ y. configure_tty config d.tty)

  -- `configure_port`, of a pointer that is not null.
  unfoldable pub configure_port : Calls → Config → Device → Device × Applied (Unit {0})
  configure_port calls config d =
      after_lock calls config (update_file_lock calls.fcntl config.exclusive d)
