-- ===== src/Sync.antt =====
-- include/ares/synchronization: the semaphore, the spin lock and the shared flag.
pub mod Semaphore
pub mod SpinLock
pub mod SharedFlag
mod Tests
