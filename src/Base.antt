-- ===== src/Base.antt =====
-- ibdb/src/base: the utilities that the log, the storage and the tablet stand on.
pub mod Crc32c
pub mod Coding
pub mod Slice
pub mod Arena
pub mod Comparator
pub mod SkipList
pub mod Status
pub mod Logging
pub mod Random
pub mod Examples
pub mod Maps
pub mod Cache
pub mod Utils
