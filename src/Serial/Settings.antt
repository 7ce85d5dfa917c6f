-- ===== src/Serial/Settings.antt =====
-- The setters of `SerialBase` (src/serial/core/serial_base.cpp) on an object of `SerialPosix`, and the
-- operations of serial_posix.cpp that ask the port for something or make it do something, with the
-- calls of serial_posix.c under them.
pub mod Laws
use Prim.Native.Nat.{bit_and}
use ares_common.Common.{
  ℕ, ◌+◌, ◌-◌, ◌^◌, ◌%◌, ◌≡◌, Bool, true, false, not, ◌||◌, Option, none, some, if◌then◌else◌, ◌==◌,
  ltb, leb, List, [], ◌∷◌,
}
use ares_common.Common.Int.{ℤ, pos, negsuc}
use ares_common.Serial.Config.{BaudRate, Parity, ByteSize, StopBits, Constants}
use ares_common.Serial.Posix.{
  Exception, Outcome, SerialAttributes, SerialPosix, Driver, Replies, System, serial, port_not_open,
  returned, threw, overflow, waiting, check, reconfigure_port, update_rts_state, update_dtr_state,
  reset_buffer,
}

-- The setters, one constructor for each.
pub data Setting : Type 0 where
  set_port : List ℕ → Setting
  set_baudrate : BaudRate → Setting
  set_bytesize : ByteSize → Setting
  set_exclusive : Bool → Setting
  set_parity : Parity → Setting
  set_stopbits : StopBits → Setting
  set_timeout : ℤ → Setting
  set_write_timeout : ℤ → Setting
  set_inter_byte_timeout : ℕ → Setting
  set_xonxoff : Bool → Setting
  set_rtscts : Bool → Setting
  set_dsrdtr : Bool → Setting
  set_rts : Bool → Setting
  set_dtr : Bool → Setting

-- `(int32_t)n` of a `uint32_t`.
abbrev pub to_int32 : ℕ → ℤ
to_int32 n = if ltb n (2 ^ 31) then pos n else negsuc (2 ^ 32 - n - 1)

-- `(uint32_t)n`, the value of the getter `inter_byte_timeout`.
abbrev pub to_uint32 : ℤ → ℕ
to_uint32 (pos n) = n % 2 ^ 32
to_uint32 (negsuc n) = (2 ^ 32 - (n + 1) % 2 ^ 32) % 2 ^ 32

-- The assignment that a setter begins with.
unfoldable pub assign : Setting → SerialPosix → SerialPosix
assign (set_port name) p = record p { attr = record p.attr { port = name } }
assign (set_baudrate b) p = record p { attr = record p.attr { baudrate = b } }
assign (set_bytesize size) p = record p { attr = record p.attr { bytesize = size } }
assign (set_exclusive excl) p = record p { attr = record p.attr { exclusive = excl } }
assign (set_parity par) p = record p { attr = record p.attr { parity = par } }
assign (set_stopbits bits) p = record p { attr = record p.attr { stopbits = bits } }
assign (set_timeout duration) p = record p { attr = record p.attr { timeout = duration } }
assign (set_write_timeout duration) p = record p {
  attr = record p.attr { write_timeout = duration };
}
assign (set_inter_byte_timeout n) p = record p {
  attr = record p.attr { inter_byte_timeout = to_int32 n };
}
assign (set_xonxoff fc) p = record p { attr = record p.attr { xonxoff = fc } }
assign (set_rtscts fc) p = record p { attr = record p.attr { rtscts = fc } }
assign (set_dsrdtr fc) p = record p { attr = record p.attr { dsrdtr = fc } }
assign (set_rts state) p = record p { rts_state = state }
assign (set_dtr state) p = record p { dtr_state = state }

-- What a setter does next: it writes the settings to the port or sets a line, or nothing.
pub data Effect : Type 0 where
  nothing reconfigures sets_rts sets_dtr : Effect

abbrev pub effect : Setting → Effect
effect (set_timeout duration) = nothing
effect (set_write_timeout duration) = nothing
effect (set_dsrdtr fc) = nothing
effect (set_rts state) = sets_rts
effect (set_dtr state) = sets_dtr
effect _ = reconfigures

abbrev pub perform : Constants → Replies → Effect → System → System × Outcome (Unit {0})
perform c replies nothing s = (s, returned tt)
perform c replies reconfigures s = reconfigure_port c replies s
perform c replies sets_rts s = update_rts_state replies.rts_reply s
perform c replies sets_dtr s = update_dtr_state replies.dtr_reply s

-- A setter.
unfoldable pub change : Constants → Replies → Setting → System → System × Outcome (Unit {0})
change c replies s (p, d) = perform c replies (effect s) (assign s p, d)

-- The answer of `ioctl(fd, TIOCMGET, …)`: the status of the lines, or -1 with `errno`.
pub data Lines : Type 0 where
  status : ℕ → Lines
  no_status : ℕ → Lines

-- `port_cts`, `port_dsr`, `port_ri` and `port_cd`, by the mask of the line.
abbrev pub line : ℕ → Lines → Outcome Bool
line mask (status n) = returned (not (bit_and n mask == 0))
line mask (no_status e) = threw (serial (pos e))

-- `cts`, `dsr`, `ri` and `cd`.
unfoldable pub get_line : ℕ → Lines → SerialPosix → Outcome Bool
get_line mask reply p = if not p.is_open then threw port_not_open else line mask reply

-- `flush`.
unfoldable pub flush : Option ℕ → SerialPosix → Outcome (Unit {0})
flush reply p = if not p.is_open then threw port_not_open else check reply

-- `reset_input_buffer` and `reset_output_buffer`.
unfoldable pub reset_buffer_checked : Option ℕ → System → System × Outcome (Unit {0})
reset_buffer_checked reply (p, d) =
    if not p.is_open then ((p, d), threw port_not_open) else reset_buffer reply (p, d)
