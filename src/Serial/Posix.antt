-- ===== src/Serial/Posix.antt =====
-- `SerialPosix` of src/serial/core/serial_posix.cpp, with the members and the setters that it has from
-- `SerialBase` (src/serial/core/serial_base.cpp), on the calls of serial_posix.c. `reconfigure_port_`,
-- `update_rts_state_` and `update_dtr_state_` are the ones of `SerialPosix`. What the system answers
-- to a call is a parameter.
pub mod Laws
use ares_common.Common.{
  ℕ, ◌+◌, ◌-◌, ◌*◌, ◌^◌, ◌%◌, ◌≡◌, Bool, true, false, not, ◌&&◌, ◌||◌, Option, none, some,
  if◌then◌else◌, ◌==◌, ltb, leb, List, [], ◌∷◌,
}
use ares_common.Common.Int.{ℤ, pos, negsuc, neg, is_neg, int_eq, ms_max}
use ares_common.Serial.Config.{BaudRate, Parity, ByteSize, StopBits, Constants, Config}
use ares_common.Serial.Termios.{Device, Calls, Applied, applied, refused, undefined, configure_port}

-- The exceptions. A `SerialException` that is made without an error number has the code 0.
pub data Exception : Type 0 where
  serial : ℤ → Exception
  write_timeout_exception port_not_open : Exception

-- `code()`.
abbrev pub code : Exception → ℤ
code (serial e) = e
code write_timeout_exception = pos 0
code port_not_open = pos 0

-- How a call ends. `overflow` is an overflow of `int`; a call that is `waiting` has not ended when
-- the answers of the system that are given are used up.
pub data Outcome (A : Type 0) : Type 0 where
  returned : A → Outcome A
  threw : Exception → Outcome A
  overflow waiting : Outcome A

-- `SerialAttributes`.
pub record SerialAttributes : Type 0 where
  pub port : List ℕ
  pub baudrate : BaudRate
  pub bytesize : ByteSize
  pub parity : Parity
  pub stopbits : StopBits
  pub timeout : ℤ
  pub xonxoff : Bool
  pub rtscts : Bool
  pub write_timeout : ℤ
  pub dsrdtr : Bool
  pub inter_byte_timeout : ℤ
  pub exclusive : Bool

-- The object: the members that the attributes set, and the others.
pub record SerialPosix : Type 0 where
  pub attr : SerialAttributes
  pub is_open : Bool
  pub rts_state : Bool
  pub dtr_state : Bool
  pub fd : ℤ

-- What the system holds: the device of the port, its modem lines, and the descriptors that are open.
pub record Driver : Type 0 where
  pub device : Device
  pub rts : Bool
  pub dtr : Bool
  pub descriptors : List ℤ

-- What `open(2)` answers.
pub data Opened : Type 0 where
  no_descriptor : ℕ → Opened
  descriptor : ℕ → Opened

-- What the system answers to the calls of one operation: `none` is success, `some e` is -1 with
-- `errno` e.
pub record Replies : Type 0 where
  pub open_reply : Opened
  pub configure_reply : Calls
  pub dtr_reply : Option ℕ
  pub rts_reply : Option ℕ
  pub flush_reply : Option ℕ

abbrev pub System : Type 0
System = SerialPosix × Driver

-- The constructor of `SerialBase`.
unfoldable pub construct : SerialAttributes → SerialPosix
construct attr = record {
  attr = attr;
  is_open = false;
  rts_state = true;
  dtr_state = true;
  fd = negsuc 0;
}

-- A statement, and those after it unless it throws.
infixl 5 ◌>>=◌
abbrev pub ◌>>=◌ :
    System × Outcome (Unit {0})
    → (System → System × Outcome (Unit {0}))
    → System × Outcome (Unit {0})
(s, returned x) >>= f = f s
(s, threw e) >>= f = (s, threw e)
(s, overflow) >>= f = (s, overflow)
(s, waiting) >>= f = (s, waiting)

-- `if (ret < 0) throw SerialException(errno, …)`.
abbrev pub check : Option ℕ → Outcome (Unit {0})
check none = returned tt
check (some e) = threw (serial (pos e))

abbrev pub configured : Applied (Unit {0}) → Outcome (Unit {0})
configured (applied x) = returned x
configured (refused e) = threw (serial (pos e))
configured undefined = overflow

abbrev pub config_of : SerialAttributes → Config
config_of attr = record {
  baudrate = attr.baudrate;
  parity = attr.parity;
  bytesize = attr.bytesize;
  stopbits = attr.stopbits;
  xonxoff = attr.xonxoff;
  rtscts = attr.rtscts;
  exclusive = attr.exclusive;
  inter_byte_timeout = attr.inter_byte_timeout;
}

abbrev pub einval : ℕ
einval = 22

abbrev pub enotty : ℕ
enotty = 25

-- The `catch` of `_init_flow_control`.
abbrev pub tolerate : System × Outcome (Unit {0}) → System × Outcome (Unit {0})
tolerate (s, threw e) =
    if int_eq (code e) (pos einval) || int_eq (code e) (pos enotty)
    then (s, returned tt)
    else (s, threw e)
tolerate (s, returned x) = (s, returned x)
tolerate (s, overflow) = (s, overflow)
tolerate (s, waiting) = (s, waiting)

-- `close(2)` gives one descriptor back.
abbrev pub without : ℤ → List ℤ → List ℤ
without k [] = []
without k (x ∷ xs) = if int_eq k x then xs else x ∷ without k xs

module _ (c : Constants) (replies : Replies) where
  unfoldable pub reconfigure_internal : System → System × Outcome (Unit {0})
  reconfigure_internal (p, d) =
      let (device, r) = configure_port c replies.configure_reply (config_of p.attr) d.device in
      ((p, record d { device = device }), configured r)

  -- `reconfigure_port_`.
  unfoldable pub reconfigure_port : System → System × Outcome (Unit {0})
  reconfigure_port (p, d) =
      if not p.is_open then ((p, d), returned tt) else reconfigure_internal (p, d)

-- `port_set_rts_state` and `port_set_dtr_state`, whose `ioctl` sets or clears one line.
abbrev pub set_rts_line : Option ℕ → Bool → Driver → Driver
set_rts_line none state d = record d { rts = state }
set_rts_line (some e) state d = d

abbrev pub set_dtr_line : Option ℕ → Bool → Driver → Driver
set_dtr_line none state d = record d { dtr = state }
set_dtr_line (some e) state d = d

unfoldable pub update_rts_state : Option ℕ → System → System × Outcome (Unit {0})
update_rts_state reply (p, d) = ((p, set_rts_line reply p.rts_state d), check reply)

unfoldable pub update_dtr_state : Option ℕ → System → System × Outcome (Unit {0})
update_dtr_state reply (p, d) = ((p, set_dtr_line reply p.dtr_state d), check reply)

unfoldable pub serial_close : System → System
serial_close (p, d) =
    if p.is_open
    then (
      record p { is_open = false },
      if is_neg p.fd then d else record d { descriptors = without p.fd d.descriptors },
    )
    else (p, d)

-- `_reset_input_buffer` and `_reset_output_buffer`.
unfoldable pub reset_buffer : Option ℕ → System → System × Outcome (Unit {0})
reset_buffer reply s = (s, check reply)

-- The end of `open`: the `catch`, which closes the port and throws again, or `is_open_ = true`.
abbrev pub finish : System × Outcome (Unit {0}) → System × Outcome (Unit {0})
finish ((p, d), returned x) = ((record p { is_open = true }, d), returned x)
finish (s, threw e) = (serial_close s, threw e)
finish (s, overflow) = (s, overflow)
finish (s, waiting) = (s, waiting)

abbrev pub is_empty : List ℕ → Bool
is_empty [] = true
is_empty (x ∷ xs) = false

unfoldable pub init_flow_control : Replies → System → System × Outcome (Unit {0})
init_flow_control replies (p, d) = tolerate (
    (if not p.attr.dsrdtr then update_dtr_state replies.dtr_reply (p, d) else ((p, d), returned tt))
    >>= λ s. if not p.attr.rtscts then update_rts_state replies.rts_reply s else (s, returned tt))

module _ (c : Constants) (replies : Replies) where
  -- The `try` block of `open`.
  unfoldable pub set_up : System → System × Outcome (Unit {0})
  set_up s =
      reconfigure_internal c replies s
      >>= init_flow_control replies
      >>= reset_buffer replies.flush_reply

  -- `_fd = open_port(…)` and what follows it.
  abbrev pub opened : Opened → System → System × Outcome (Unit {0})
  opened (no_descriptor e) (p, d) = ((record p { fd = negsuc 0 }, d), threw (serial (pos e)))
  opened (descriptor k) (p, d) =
      finish (set_up (record p { fd = pos k }, record d { descriptors = pos k ∷ d.descriptors }))

  unfoldable pub serial_open : System → System × Outcome (Unit {0})
  serial_open (p, d) =
      if is_empty p.attr.port || p.is_open
      then ((p, d), threw (serial (pos 0)))
      else opened replies.open_reply (p, d)

  -- The constructor of `SerialPosix`, and the system that it leaves when it throws.
  unfoldable pub start : SerialAttributes → Driver → System × Outcome (Unit {0})
  start attr d =
      if is_empty attr.port
      then ((construct attr, d), returned tt)
      else serial_open (construct attr, d)
