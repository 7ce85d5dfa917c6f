-- ===== src/Serial.antt =====
-- The serial port: include/ares/serial and src/serial/core.
pub mod Timeout
pub mod Config
pub mod Termios
pub mod Posix
pub mod Settings
pub mod Stream
pub mod Transmit
pub mod Tests
