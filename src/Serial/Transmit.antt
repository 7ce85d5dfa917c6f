-- ===== src/Serial/Transmit.antt =====
-- `write` of src/serial/core/serial_posix.cpp with the two functions that wait for the port, and
-- `write_port` and `select_write_port` of serial_posix.c.
pub mod Laws
pub mod Ends
use ares_common.Common.{
  ℕ, zero, suc, ◌+◌, ◌-◌, ◌≡◌, Bool, true, false, not, ◌||◌, if◌then◌else◌, ◌==◌, ltb, leb, min,
  List, [], ◌∷◌, ◌++◌, length, drop, take, Option, none, some,
}
use ares_common.Common.Int.{pos}
use ares_common.Serial.Timeout.{Timeout, create, time_left_tv, expired}
use ares_common.Serial.Posix.{
  Exception, Outcome, SerialPosix, serial, write_timeout_exception, port_not_open, returned, threw,
  overflow, waiting,
}
use ares_common.Serial.Stream.{
  Reply, gave, failed, Selected, ready, time_over, select_failed, Turn, go, stop, continue,
  is_temporary,
}

-- One turn of `write`: the answers to `write(2)` and `select`, and the clock at `expired` and at
-- `time_left_tv`.
pub record WriteRound : Type 0 where
  pub answer : Reply
  pub at_expired : ℕ
  pub at_time_left : ℕ
  pub selected : Selected

-- The variables of `write`: the bytes left, their number, the timeout, and what the device has got.
pub record Writing : Type 0 where
  pub d : List ℕ
  pub tx_len : ℕ
  pub timeout : Timeout
  pub sent : List ℕ

-- `_wait_write_timed`, and what it throws.
abbrev pub select_timed : Selected → Option Exception
select_timed ready = none
select_timed time_over = some write_timeout_exception
select_timed (select_failed e) = some (serial (pos e))

unfoldable pub wait_write_timed : WriteRound → Timeout → Timeout × Option Exception
wait_write_timed r t =
    let (t', over) = expired r.at_expired t in
    if over
    then (t', some write_timeout_exception)
    else ((time_left_tv r.at_time_left t').0, select_timed r.selected)

-- `_wait_write_blocking`, which goes on after an error of `select`.
unfoldable pub wait_write_blocking : Selected → Option Exception
wait_write_blocking ready = none
wait_write_blocking (select_failed e) = none
wait_write_blocking time_over = some (serial (pos 0))

-- `d.erase(…)` and `tx_len -= n`.
abbrev pub write_end : ℕ → Writing → Timeout × Option Exception → Turn Writing
write_end n s (t, none) = go (record s { d = drop n s.d; tx_len = s.tx_len - n; timeout = t })
write_end n s (t, some e) = stop (record s { timeout = t }) (threw e)

-- The wait that the timeout asks for.
abbrev pub wait_write : WriteRound → Timeout → Timeout × Option Exception
wait_write r t =
    if not t.infinite then wait_write_timed r t else (t, wait_write_blocking r.selected)

-- The turn after `write_port` has taken n bytes.
abbrev pub written : WriteRound → ℕ → Writing → Turn Writing
written r n s =
    let s' = record s { sent = s.sent ++ take n s.d } in
    if s'.timeout.non_blocking
    then stop s' (returned n)
    else write_end n s' (wait_write r s'.timeout)

abbrev pub write_answer : WriteRound → Reply → Writing → Turn Writing
write_answer r (gave k) s = written r (min k s.tx_len) s
write_answer r (failed e) s =
    if not (is_temporary e) then stop s (threw (serial (pos e))) else written r 0 s

unfoldable pub write_turn : WriteRound → Writing → Turn Writing
write_turn r s = write_answer r r.answer s

unfoldable pub write_loop : ℕ → List WriteRound → Writing → Writing × Outcome ℕ
write_loop size [] s = (s, if ltb 0 s.tx_len then waiting else returned (size - length s.d))
write_loop size (r ∷ rs) s =
    if not (ltb 0 s.tx_len)
    then (s, returned (size - length s.d))
    else continue (write_loop size rs) (write_turn r s)

-- `write`: what the device has got, and how the call ends.
unfoldable pub write : SerialPosix → ℕ → List WriteRound → List ℕ → List ℕ × Outcome ℕ
write p start rounds b =
    if not p.is_open
    then ([], threw port_not_open)
    else (let (s, o) = write_loop (length b) rounds (record {
      d = b;
      tx_len = length b;
      timeout = create start p.attr.write_timeout;
      sent = [];
    }) in
        (s.sent, o))
