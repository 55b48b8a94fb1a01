-- ===== src/Storage.antt =====
-- ibdb/src/storage: the files that hold the messages of a table.
pub mod Disk
pub mod Segment
pub mod Table
