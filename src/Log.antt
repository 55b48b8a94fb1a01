-- ===== src/Log.antt =====
-- ibdb/src/log: records cut into physical records of a log file of 4096-byte blocks, and read back.
pub mod Format
pub mod Limiter
pub mod Checksum
pub mod Writer
pub mod Reader
pub mod RoundTrip
pub mod Files
pub mod Posix
pub mod Sequential
pub mod RandomAccess
pub mod WriteHandle
pub mod Examples
