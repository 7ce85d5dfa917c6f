-- ===== src/Serial/Config.antt =====
-- The settings of a port and the constants of <termios.h>: serial_common.h and serial_posix.h of the
-- directory C-API. The constants are parameters: flags by the number of their bit, speeds by their
-- rate. The constructors `…_other` are the values of an enumeration that have no enumerator.
use ares_common.Common.{ℕ, Bool}
use ares_common.Common.Int.{ℤ}

pub data BaudRate : Type 0 where
  baud_0 baud_50 baud_75 baud_110 baud_134 baud_150 baud_200 baud_300 baud_600 baud_1200 baud_1800
        baud_2400 baud_4800 baud_9600 baud_19200 baud_38400 baud_57600 baud_115200 baud_230400
        baud_460800 baud_500000 baud_576000 baud_921600 baud_1000000 baud_1152000 baud_1500000
        baud_2000000 baud_2500000 baud_3000000 baud_3500000 baud_4000000 baud_other :
      BaudRate

-- `BAUD_INVALID` stands behind `BAUD_DEFAULT`, and so has the number of the rate above the default.
abbrev pub baud_invalid : BaudRate
baud_invalid = baud_230400

pub data Parity : Type 0 where
  parity_none parity_even parity_odd parity_mark parity_space parity_other : Parity

-- `PARITY_INVALID`, by its number.
abbrev pub parity_invalid : Parity
parity_invalid = parity_even

pub data ByteSize : Type 0 where
  size_5 size_6 size_7 size_8 size_invalid : ByteSize

pub data StopBits : Type 0 where
  stopbits_1 stopbits_1p5 stopbits_2 stopbits_other : StopBits

-- `STOPBITS_INVALID`, by its number.
abbrev pub stopbits_invalid : StopBits
stopbits_invalid = stopbits_1p5

pub record Config : Type 0 where
  pub baudrate : BaudRate
  pub parity : Parity
  pub bytesize : ByteSize
  pub stopbits : StopBits
  pub xonxoff : Bool
  pub rtscts : Bool
  pub exclusive : Bool
  pub inter_byte_timeout : ℤ

-- `struct termios`, with the two control characters that are set.
pub record Termios : Type 0 where
  pub c_iflag : ℕ
  pub c_oflag : ℕ
  pub c_cflag : ℕ
  pub c_lflag : ℕ
  pub vmin : ℕ
  pub vtime : ℕ
  pub ispeed : ℕ
  pub ospeed : ℕ

-- The constants. `speed r` is the constant B`r`.
pub record Constants : Type 0 where
  pub parenb : ℕ
  pub parodd : ℕ
  pub cmspar : ℕ
  pub cstopb : ℕ
  pub crtscts : ℕ
  pub clocal : ℕ
  pub cread : ℕ
  pub csize : ℕ
  pub cs5 : ℕ
  pub cs6 : ℕ
  pub cs7 : ℕ
  pub cs8 : ℕ
  pub ixon : ℕ
  pub ixoff : ℕ
  pub ixany : ℕ
  pub inlcr : ℕ
  pub igncr : ℕ
  pub icrnl : ℕ
  pub ignbrk : ℕ
  pub speed : ℕ → ℕ
