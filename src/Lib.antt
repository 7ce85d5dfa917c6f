-- ===== src/Lib.antt =====
-- ares-common: queues, synchronization, tasks, work queues, the serial port, dates, allocators, the
-- logger, mount points, the list of serial ports, serialization and what the bindings to Python use.
--
-- The library is a set of C++ components that stand on each other. `bounded_queue` and `queue`
-- (include/ares/data-structures/queue.hpp) carry items between threads; `semaphore`
-- (include/ares/synchronization/semaphore.hpp) is a bounded_queue of tokens; `SpinLock` and
-- `SharedFlag` stand beside it; `Task` (include/ares/work-q/task.hpp) runs one handler and keeps its
-- result; `WorkQ` and `Work` (include/ares/work-q/work_q.hpp, src/work-q/work_q.cpp) run many
-- handlers on one Task; include/common/ares/serialization.hpp reads and writes bits, bit fields and
-- bytes. `SerialPosix` (src/serial/core/serial_posix.cpp) is a `SerialBase`
-- (src/serial/core/serial_base.cpp) on the C functions of src/serial/core/C-API/serial_posix.c;
-- `DateTime` (src/datetime), the allocators (src/allocators) and the logger (src/logging) stand
-- alone, and so do the mount points (src/mntpoint), the list of serial ports (src/serial/tools) and
-- the conversions for Python (include/common/ares/pyutil.hpp).
--
-- Common: shared names, list helpers on the native numbers, sums and differences of `size_t`
--   (modulo 2^64), bits of a number, and integers for status codes and milliseconds.
-- Queue: the exceptions and both kinds of wait. Queue.Unbounded is `queue`. Queue.Bounded is
--   `bounded_queue`, field by field and function by function (`put` and `put_for` are the two
--   overloads of `put`, `get` and `get_for` those of `get`); Queue.Bounded.Fifo is its contract.
-- Sync.Semaphore is `semaphore`, and Sync.Semaphore.Counter its contract; Sync.SpinLock is
--   `SpinLock` with the threads that use it; Sync.SharedFlag is `SharedFlag`.
-- Task is `Task`: its future, its thread and its state in one record, and a step for each call and
--   for the task's own thread.
-- WorkQ holds work items and queues: WorkQ.Flags are their flags, WorkQ.Nodes what is called of the
--   single-linked list, a parameter with its laws, WorkQ.Submit, WorkQ.Cancel and WorkQ.Queue the
--   calls, each a locked section, WorkQ.Main the two sections of a round of `work_queue_main`,
--   WorkQ.Loop its rounds with the handlers, WorkQ.Life a queue from its constructor to its
--   destructor, WorkQ.Delayable the delayable items, WorkQ.Flush the rounds that a flush waits for,
--   and WorkQ.Steps what threads do in any order. The queue's thread goes on from where its last turn
--   left it: while it sleeps in `notifyq.get()`, only a token wakes it. A turn of the loop is given by what handlers and
--   other threads do to all items and queues in it. A pointer is a number, and `none` as a result is
--   a call through a null pointer. Waits of these calls are calls of the queue and semaphore models.
-- Serialization is serialization.hpp, for unsigned types of any width.
-- Serial is the serial port. Serial.Timeout is `Timeout`; Serial.Config are the settings, and
--   Serial.Termios is `configure_port`, which writes them to the terminal; Serial.Posix is the object
--   with `open`, `close` and what they call; Serial.Settings are its setters and the modem lines;
--   Serial.Stream is `read`, `read_all` and `read_until`, Serial.Transmit is `write`.
-- DateTime is `DateTime`, Allocators are both allocators with `power_of_2`, and Logger is the logger
--   with the map of all loggers, the macros (Logger.Macros) and the hexdump, whose loop runs on as
--   much fuel as there are bytes:
--   it takes eight of them in a turn. MountPoint finds the device under a path, with `stat` and the
--   table of mounts as parameters.
-- SysFs is the list of serial ports: SysFs.Texts, SysFs.Paths and SysFs.Numbers are the texts, the paths
--   and the numbers that it uses, SysFs.Ports is `comports`. What the file system answers is a
--   parameter. A number of 64 bits is printed in at most 16 hexadecimal digits.
-- PyUtil is include/common/ares/pyutil.hpp: fields from keyword arguments, and values into a
--   dictionary. What it uses of pybind11 is a parameter with laws. Util is
--   include/common/ares/util.hpp.
-- The modules called Tests and Trials hold runs and the theorems at concrete states.
--
-- Concurrency. A member function that takes a mutex is one step; a wait on a condition variable gives
-- the mutex up, so it takes a list of what other threads do meanwhile, one element up to each
-- evaluation of the predicate. The theorems hold for every such list, so for every interleaving. A
-- call whose wait has not ended after the list is `blocked`. A timed wait has one more element, what
-- runs until its time is up.
--
-- The system. What a system call answers is a parameter: the loops of `read`, `write` and
-- `read_until` take a list of rounds, each with the answers and the readings of the clock in one turn
-- of the loop. A call that has not ended after the list is `waiting`. That it ends is proved for the
-- answers under which it can.
--
-- Bounds. Sizes are those of 64 bits, with their wrap-around; a queue's capacity is below 2^63, as
-- C++ limits the size of an array, and a deque holds fewer than 2^64 items. A move leaves any value
-- behind, given by a parameter.
--
-- Not modelled: of the serial port, the texts of its exceptions; the classes of the bindings to
-- Python, which are calls of other code; the single-linked list in include/ares/data-structures/sys,
-- which is another project's. Memory orders are taken as sequentially consistent.
pub mod Allocators
pub mod Common
pub mod DateTime
pub mod Logger
pub mod MountPoint
pub mod PyUtil
pub mod Queue
pub mod Serial
pub mod Serialization
pub mod Sync
pub mod SysFs
pub mod Task
pub mod Util
pub mod WorkQ
