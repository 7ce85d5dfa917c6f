-- ===== src/Serial/Stream.antt =====
-- The transfers of bytes: `read`, `write` of src/serial/core/serial_posix.cpp, `read_until` and
-- `read_all` of src/serial/core/serial_base.cpp, and the calls of serial_posix.c that they make. What
-- the device delivers is a list of bytes; what the system answers in each turn of a loop, the clock
-- included, is a list of rounds.
pub mod Laws
pub mod Ends
pub mod Timed
pub mod Until
pub mod Finds
use ares_common.Common.{
  ℕ, zero, suc, ◌+◌, ◌-◌, ◌*◌, ◌^◌, ◌%◌, ◌≡◌, Bool, true, false, not, ◌&&◌, ◌||◌, Option, none,
  some, if◌then◌else◌, ◌==◌, ltb, leb, min, List, [], ◌∷◌, ◌++◌, length, drop, take,
}
use ares_common.Common.Int.{ℤ, pos, negsuc}
use ares_common.Serial.Timeout.{Timeout, create, time_left_tv, expired}
use ares_common.Serial.Posix.{
  Exception, Outcome, SerialPosix, serial, write_timeout_exception, port_not_open, returned, threw,
  overflow, waiting,
}

-- The answer to a call that moves bytes: how many it moved, or -1 with `errno`.
pub data Reply : Type 0 where
  gave : ℕ → Reply
  failed : ℕ → Reply

-- The answer of `select`: the descriptor is ready, the time is over, or -1 with `errno`.
pub data Selected : Type 0 where
  ready : Selected
  time_over : Selected
  select_failed : ℕ → Selected

abbrev pub etimedout : ℕ
etimedout = 110

-- The errors after which `write` tries again; `EWOULDBLOCK` is `EAGAIN`.
abbrev pub is_temporary : ℕ → Bool
is_temporary e = e == 11 || e == 114 || e == 115 || e == 4

-- One turn of `read`: the answers to `select` and `read(2)`, and the clock before and after them.
pub record ReadRound : Type 0 where
  pub before : ℕ
  pub selected : Selected
  pub answer : Reply
  pub after : ℕ

-- `read_port`, of what the device has: the bytes that are read, or `errno`, and what is left.
-- `gave k` reads k bytes at most.
pub data Bytes : Type 0 where
  bytes : List ℕ → Bytes
  errno : ℕ → Bytes

abbrev pub read_answer : Reply → ℕ → List ℕ → Bytes × List ℕ
read_answer (gave k) nbytes input = (bytes (take (min k nbytes) input), drop (min k nbytes) input)
read_answer (failed e) nbytes input = (errno e, input)

unfoldable pub read_port : Selected → Reply → ℕ → List ℕ → Bytes × List ℕ
read_port time_over answer nbytes input = (errno etimedout, input)
read_port ready answer nbytes input = read_answer answer nbytes input
read_port (select_failed e) answer nbytes input = read_answer answer nbytes input

-- The variables of `read`: the vector, the count, the timeout, and what the device still has.
pub record Reading : Type 0 where
  pub b : List ℕ
  pub bytes_read : ℕ
  pub timeout : Timeout
  pub input : List ℕ

-- A turn of a loop ends the call or goes on.
pub data Turn (S : Type 0) : Type 0 where
  go : S → Turn S
  stop : S → Outcome ℕ → Turn S

abbrev pub continue : {S : Type 0} → (S → S × Outcome ℕ) → Turn S → S × Outcome ℕ
continue f (go s) = f s
continue f (stop s o) = (s, o)

abbrev pub enodev : ℕ
enodev = 19

-- The end of a turn of `read`.
abbrev pub read_end : ℕ → Reading → Turn Reading
read_end after s =
    let (timeout, over) = expired after s.timeout in
    let s' = record s { timeout = timeout } in
    if over then stop s' (returned s'.bytes_read) else go s'

abbrev pub read_result : ℕ → Reading → Bytes × List ℕ → Turn Reading
read_result after s (errno e, input) =
    if not (is_temporary e || e == etimedout)
    then stop s (threw (serial (pos e)))
    else read_end after s
read_result after s (bytes [], input) = stop s (threw (serial (negsuc (enodev - 1))))
read_result after s (bytes (x ∷ xs), input) =
    read_end after
      (record s { b = s.b ++ x ∷ xs; bytes_read = s.bytes_read + length (x ∷ xs); input = input })

-- The timeout after `time_left_tv` was asked, which it is not of one that is infinite.
abbrev pub asked : ℕ → Timeout → Timeout
asked now t = if t.infinite then t else (time_left_tv now t).0

unfoldable pub read_turn : ℕ → ReadRound → Reading → Turn Reading
read_turn n r s =
    if not (ltb s.bytes_read n)
    then stop s (returned s.bytes_read)
    else read_result r.after (record s { timeout = asked r.before s.timeout })
        (read_port r.selected r.answer (n - s.bytes_read) s.input)

unfoldable pub read_loop : List ReadRound → ℕ → Reading → Reading × Outcome ℕ
read_loop [] n s = (s, if ltb s.bytes_read n then waiting else returned s.bytes_read)
read_loop (r ∷ rs) n s = continue (read_loop rs n) (read_turn n r s)

-- `read`: the vector that it fills, what the device still has, and how it ends.
unfoldable pub read :
    SerialPosix → ℕ → List ReadRound → List ℕ → ℕ → List ℕ → (List ℕ × List ℕ) × Outcome ℕ
read p start rounds b n input =
    if not p.is_open
    then ((b, input), threw port_not_open)
    else (let (s, o) = read_loop rounds n (record {
      b = [];
      bytes_read = 0;
      timeout = create start p.attr.timeout;
      input = input;
    }) in
        ((s.b, s.input), o))

-- `in_waiting`, and `read_all`, which reads as many.
abbrev pub in_waiting : Reply → Outcome ℕ
in_waiting (gave k) = returned k
in_waiting (failed e) = threw (serial (pos e))

unfoldable pub read_all :
    SerialPosix → ℕ → Reply → List ReadRound → List ℕ → List ℕ → (List ℕ × List ℕ) × Outcome ℕ
read_all p start (gave k) rounds b input = read p start rounds b k input
read_all p start (failed e) rounds b input = ((b, input), threw (serial (pos e)))

-- One turn of `read_until`: the call of `read` for one byte, and the clock after it.
pub record UntilRound : Type 0 where
  pub start : ℕ
  pub rounds : List ReadRound
  pub after : ℕ

-- The variables of `read_until`; `found` holds the bytes that were appended to the vector.
pub record Finding : Type 0 where
  pub found : List ℕ
  pub bytes_read : ℕ
  pub timeout : Timeout
  pub input : List ℕ

abbrev pub lists_eq : List ℕ → List ℕ → Bool
lists_eq [] [] = true
lists_eq [] (y ∷ ys) = false
lists_eq (x ∷ xs) [] = false
lists_eq (x ∷ xs) (y ∷ ys) = (x == y) && lists_eq xs ys

-- Whether a list ends with another: the lengths, and `std::equal` of its last bytes.
abbrev pub ends_with : List ℕ → List ℕ → Bool
ends_with expected xs =
    leb (length expected) (length xs) && lists_eq expected (drop (length xs - length expected) xs)

abbrev pub until_end : ℕ → Finding → Turn Finding
until_end after s =
    let (timeout, over) = expired after s.timeout in
    let s' = record s { timeout = timeout } in
    if over then stop s' (returned s'.bytes_read) else go s'

-- The turn after `read`.
abbrev pub until_result : List ℕ → ℕ → ℕ → Finding → (List ℕ × List ℕ) × Outcome ℕ → Turn Finding
until_result expected len after s ((temp, input), threw e) =
    stop (record s { input = input }) (threw e)
until_result expected len after s ((temp, input), overflow) =
    stop (record s { input = input }) overflow
until_result expected len after s ((temp, input), waiting) =
    stop (record s { input = input }) waiting
until_result expected len after s ((temp, input), returned zero) =
    stop (record s { input = input }) (returned s.bytes_read)
until_result expected len after s ((temp, input), returned (suc k)) =
    let s' = record s {
      found = s.found ++ take 1 temp;
      bytes_read = suc s.bytes_read;
      input = input;
    } in
    if leb (length expected) s'.bytes_read && ends_with expected s'.found
    then stop s' (returned s'.bytes_read)
    else if not (len == 0) && leb len s'.bytes_read
    then stop s' (returned s'.bytes_read)
    else until_end after s'

module _ (p : SerialPosix) (expected : List ℕ) (len : ℕ) where
  unfoldable pub until_turn : UntilRound → Finding → Turn Finding
  until_turn r s = until_result expected len r.after s (read p r.start r.rounds [] 1 s.input)

  unfoldable pub until_loop : List UntilRound → Finding → Finding × Outcome ℕ
  until_loop [] s = (s, waiting)
  until_loop (r ∷ rs) s = continue (until_loop rs) (until_turn r s)

  -- `read_until`: the bytes that it appends to the vector, what the device still has, and its end.
  unfoldable pub read_until : ℕ → List UntilRound → List ℕ → (List ℕ × List ℕ) × Outcome ℕ
  read_until start rounds input =
      let (s, o) = until_loop rounds (record {
        found = [];
        bytes_read = 0;
        timeout = create start p.attr.timeout;
        input = input;
      }) in
      ((s.found, s.input), o)
