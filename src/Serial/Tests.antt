-- ===== src/Serial/Tests.antt =====
-- Runs of a serial port, and each theorem on it at a concrete port.
use ares_common.Common.{
  ℕ, ◌≡◌, ◌≢◌, ◌⊎◌, refl, true, false, none, some, if◌then◌else◌, List, [], ◌∷◌, ◌++◌, length,
  arith, ◌≤◌,
}
use ares_common.Common.Int.{ℤ, pos, negsuc, ms_max, ◌+ℤ◌, ◌-ℤ◌}
use ares_common.Serial.Timeout.{create, time_left, expired, time_left_tv}
use ares_common.Serial.Config.{
  parity_none, size_8, stopbits_1, baud_9600, Constants, Config, Termios,
}
use ares_common.Serial.Termios.{Calls}
use ares_common.Serial.Termios.Laws.{AreFlags}
use ares_common.Serial.Posix.{
  serial, returned, threw, waiting, port_not_open, write_timeout_exception, SerialAttributes,
  SerialPosix, Driver, descriptor, Replies, config_of, construct, serial_close, serial_open,
}
use ares_common.Serial.Posix.Laws.{succeeded, close-open}
use ares_common.Serial.Stream.{
  gave, failed, ready, time_over, ReadRound, read, UntilRound, read_until, read_loop, read_turn,
  read_port, until_loop, until_turn,
}
use ares_common.Serial.Stream.Laws.{EndsAt, read_lem}
use ares_common.Serial.Stream.Ends.{read_complete}
use ares_common.Serial.Stream.Timed.{read_ends}
use ares_common.Serial.Stream.Finds.{read_until-finds}
use ares_common.Serial.Stream.Until.{stops_before, Returns, read_until_lem}
use ares_common.Serial.Transmit.{WriteRound, write, write_loop, write_turn, wait_write_timed}
use ares_common.Serial.Transmit.Laws.{SentAt, write_lem}
use ares_common.Serial.Transmit.Ends.{write_complete}

-- The constants of Linux.
abbrev linux : Constants
linux = record {
  parenb = 8;
  parodd = 9;
  cmspar = 30;
  cstopb = 6;
  crtscts = 31;
  clocal = 11;
  cread = 7;
  csize = 48;
  cs5 = 0;
  cs6 = 16;
  cs7 = 32;
  cs8 = 48;
  ixon = 10;
  ixoff = 12;
  ixany = 11;
  inlcr = 6;
  igncr = 7;
  icrnl = 8;
  ignbrk = 0;
  speed = λ r. r;
}

linux_ok : AreFlags linux
linux_ok = record {
  parenb_in = omega arith;
  parodd_in = omega arith;
  cmspar_in = omega arith;
  parenb_parodd = λ h. ground (arith, h);
  parenb_cmspar = λ h. ground (arith, h);
  parodd_cmspar = λ h. ground (arith, h);
}

abbrev blank : Termios
blank = record {
  c_iflag = 0;
  c_oflag = 0;
  c_cflag = 0;
  c_lflag = 0;
  vmin = 0;
  vtime = 0;
  ispeed = 0;
  ospeed = 0;
}

abbrev attributes : ℤ → SerialAttributes
attributes timeout = record {
  port = 47 ∷ [];
  baudrate = baud_9600;
  bytesize = size_8;
  parity = parity_none;
  stopbits = stopbits_1;
  timeout = timeout;
  xonxoff = false;
  rtscts = false;
  write_timeout = timeout;
  dsrdtr = false;
  inter_byte_timeout = negsuc 0;
  exclusive = false;
}

-- A closed port, an open one that waits as long as it must, and one that waits for two milliseconds.
abbrev closed : SerialPosix
closed = record {
  attr = attributes ms_max;
  is_open = false;
  rts_state = true;
  dtr_state = true;
  fd = negsuc 0;
}

abbrev port : SerialPosix
port = record closed { is_open = true; fd = pos 3 }

abbrev hasty : SerialPosix
hasty = record port { attr = attributes (pos 2) }

abbrev machine : Driver
machine = record {
  device = record { tty = blank; locked = false };
  rts = false;
  dtr = false;
  descriptors = [];
}

abbrev fine : Calls
fine = record { fcntl = none; tcgetattr = none; tcsetattr = none }

-- Everything succeeds, or the device refuses its new settings.
abbrev yes : Replies
yes = record {
  open_reply = descriptor 3;
  configure_reply = fine;
  dtr_reply = none;
  rts_reply = none;
  flush_reply = none;
}

abbrev no : Replies
no = record yes { configure_reply = record fine { tcsetattr = some 5 } }

closed_lem : construct (attributes ms_max) ≡ closed
unfolding construct
closed_lem = refl

-- Two bytes come, then nothing in time, then two more.
abbrev slow : List ReadRound
slow =
    record { before = 0; selected = ready; answer = gave 2; after = 10 }
    ∷ record { before = 10; selected = time_over; answer = gave 0; after = 20 }
    ∷ record { before = 20; selected = ready; answer = gave 9; after = 2_000_000 }
    ∷ []

read_some : read port 0 slow [] 3 (7 ∷ 8 ∷ 9 ∷ 6 ∷ []) ≡ ((7 ∷ 8 ∷ 9 ∷ [], 6 ∷ []), returned 3)
unfolding read read_loop read_turn read_port create expired time_left_tv time_left
read_some = refl

read_lost :
    (read port 0
      (record { before = 0; selected = ready; answer = gave 0; after = 1 } ∷ [])
      []
      1
      []).1
    ≡ threw (serial (negsuc 18))
unfolding read read_loop read_turn read_port create expired time_left_tv time_left
read_lost = refl

-- A write of three bytes, two of them at first.
abbrev writes : List WriteRound
writes =
    record { answer = gave 2; at_expired = 1; at_time_left = 1; selected = ready }
    ∷ record { answer = failed 11; at_expired = 2; at_time_left = 2; selected = ready }
    ∷ record { answer = gave 1; at_expired = 3; at_time_left = 3; selected = ready }
    ∷ []

-- All was sent when the time was over: the call throws even so.
write_late :
    write hasty 0
      (record { answer = gave 2; at_expired = 3_000_000; at_time_left = 0; selected = ready } ∷ [])
      (1 ∷ 2 ∷ [])
    ≡ (1 ∷ 2 ∷ [], threw write_timeout_exception)
unfolding write write_loop write_turn wait_write_timed create expired time_left ◌+ℤ◌ ◌-ℤ◌
write_late = refl

-- One byte in each turn.
abbrev each : UntilRound
each = record {
  start = 0;
  rounds = record { before = 0; selected = ready; answer = gave 1; after = 1 } ∷ [];
  after = 2;
}

abbrev found : List ℕ
found = 5 ∷ 13 ∷ 10 ∷ []

read_line :
    read_until port (13 ∷ 10 ∷ []) 0 0 (each ∷ each ∷ each ∷ each ∷ []) (5 ∷ 13 ∷ 10 ∷ 6 ∷ [])
    ≡ ((found, 6 ∷ []), returned 3)
unfolding read_until until_loop until_turn read read_loop read_turn read_port create expired
read_line = refl

read_lem_example :
    let r = read port 0 slow [] 3 (7 ∷ 8 ∷ 9 ∷ 6 ∷ []) in
    ((true ≡ false) × (r ≡ (([], 7 ∷ 8 ∷ 9 ∷ 6 ∷ []), threw port_not_open)))
    ⊎ ((true ≡ true)
        × (r.0.0 ++ r.0.1 ≡ 7 ∷ 8 ∷ 9 ∷ 6 ∷ [])
        × (length r.0.0 ≤ 3)
        × EndsAt 3 (length r.0.0) r.1)
read_lem_example = read_lem port 0 slow [] 3 (7 ∷ 8 ∷ 9 ∷ 6 ∷ [])

read_complete_example :
    read port 0 slow [] 2 (7 ∷ 8 ∷ 9 ∷ 6 ∷ []) ≡ ((7 ∷ 8 ∷ [], 9 ∷ 6 ∷ []), returned 2)
read_complete_example =
    read_complete port 0 slow [] 2 (7 ∷ 8 ∷ 9 ∷ 6 ∷ []) refl refl refl (omega arith) (omega arith)

read_ends_example : (read hasty 0 slow [] 9 (7 ∷ 8 ∷ 9 ∷ 6 ∷ [])).1 ≢ waiting
read_ends_example =
    read_ends hasty 0 2 slow [] 9 (7 ∷ 8 ∷ 9 ∷ 6 ∷ []) refl (omega arith) (omega arith) refl refl

write_lem_example :
    let (sent, o) = write port 0 writes (1 ∷ 2 ∷ 3 ∷ []) in
    ((true ≡ false) × (sent ≡ []) × (o ≡ threw port_not_open))
    ⊎ ((true ≡ true)
        × ((rest : List ℕ) × (sent ++ rest ≡ 1 ∷ 2 ∷ 3 ∷ []) × SentAt 3 (length sent) o))
write_lem_example = write_lem port 0 writes (1 ∷ 2 ∷ 3 ∷ [])

-- Of the three rounds two take bytes, which is enough for two.
write_complete_example : write port 0 writes (1 ∷ 2 ∷ []) ≡ (1 ∷ 2 ∷ [], returned 2)
write_complete_example = write_complete port 0 writes (1 ∷ 2 ∷ []) refl refl refl (omega arith)

read_until_lem_example :
    let ((found, rest), o) =
      read_until port (13 ∷ 10 ∷ []) 0 0 (each ∷ each ∷ each ∷ each ∷ []) (5 ∷ 13 ∷ 10 ∷ 6 ∷ []) in
    (found ++ rest ≡ 5 ∷ 13 ∷ 10 ∷ 6 ∷ [])
    × (stops_before (13 ∷ 10 ∷ []) 0 found (length found) ≡ false)
    × Returns (length found) o
read_until_lem_example =
    read_until_lem port (13 ∷ 10 ∷ []) 0 0 (each ∷ each ∷ each ∷ each ∷ []) (5 ∷ 13 ∷ 10 ∷ 6 ∷ [])

abbrev config : Config
config = config_of (attributes ms_max)

close-open_example :
    let (s, o) = serial_open linux no (closed, machine) in
    ((serial_close s).0.is_open ≡ false)
    × ((serial_close s).1.descriptors ≡ (if succeeded o then [] else pos 3 ∷ []))
close-open_example = close-open linux no closed machine refl refl

read_until-finds_example :
    read_until port (13 ∷ 10 ∷ []) 0 0 (each ∷ each ∷ each ∷ each ∷ []) (5 ∷ 13 ∷ 10 ∷ 6 ∷ [])
    ≡ ((5 ∷ 13 ∷ 10 ∷ [], 6 ∷ []), returned 3)
read_until-finds_example =
    read_until-finds port (13 ∷ 10 ∷ []) 0 0 (each ∷ each ∷ each ∷ each ∷ []) 5 (13 ∷ 10 ∷ [])
      (6 ∷ []) refl refl refl (omega arith) refl refl
