-- ===== src/Lib.antt =====
-- IcebergDB keeps its records in a log file and in an index in memory. This library models the log,
-- the skiplist, the index of a table, the file of messages, the table and the tablet, with what they
-- stand on.
--
-- The log (ibdb/src/log) cuts a record into fragments. Each fragment is a physical record: a header of
-- seven bytes (a masked CRC-32C, a length, a type) and the payload. A physical record stands whole in
-- a block of 4096 bytes; where fewer than seven bytes are left in a block, zeros fill it. The reader
-- takes the file block by block, checks each header, puts the fragments together and reports what it
-- has to drop.
--
--   Log/Format       ibdb/src/log/format.h: constants, `RecordType`, and the interfaces `WritableFile` and
--                    `SequentialFile`, which are parameters of the writer and of the reader
--   Log/Files        ibdb/src/log/format.h: `UnixWritableFile`, with stdio as a parameter (`Stdio`)
--   Log/WriteHandle  ibdb/src/log/log_writer.h: `WriteHandle`, a writer on a file over stdio
--   Log/Limiter      ibdb/src/log/format.h: `Limiter`, on which threads act in any order
--   Log/Posix        the system calls on descriptors, as a parameter (`Posix`)
--   Log/Sequential   ibdb/src/log/format.h: `UnixSequentialFile`, whose reads are retried; Sequential/Ahead
--                    makes it a `SequentialFile` of the reader
--   Log/RandomAccess ibdb/src/log/format.h: `PosixRandomAccessFile`; RandomAccess/Contents says what a read gives,
--                    RandomAccess/Calls and RandomAccess/Runs have files that share a limiter
--   Log/Checksum     the checksum as a parameter, and CRC-32C as its instance
--   Log/Writer       ibdb/src/log/log_writer.h: `IbdbWriter::AddRecord` (`add_record`), its
--                    loop (`add_loop`), the switch of blocks, and `EmitPhysicalRecord`
--   Log/Reader       ibdb/src/log/log_reader.h and log_reader.cpp: `ReadRecord` (`read_record`),
--                    `ReadPhysicalRecord`, `SkipToInitialBlock`, `ReportDrop`
--   Log/Writer/Layout  the bytes of a log, described from its fragments
--   Log/RoundTrip    writer and reader together
--   Base/Coding      ibdb/src/base/coding.h and ibdb/src/port/port.h: fixed-width integers, on either byte order
--   Base/Crc32c      ibdb/src/base/crc32c.h and crc32c.cpp; Crc32c/Tables holds the four tables
--   Base/Slice       ibdb/src/base/slice.h, with `memcmp` as a parameter
--   Base/Arena       ibdb/src/base/arena.h and arena.cpp, with the addresses of `new` as a parameter
--   Base/SkipList    ibdb/src/base/skiplist.h: the nodes as a heap (`Heap`), `insert`, `remove`, `find_equal`,
--                    `contains`; SkipList/Invariant says when a skiplist holds a list of entries,
--                    SkipList/Search and its neighbours what each operation does to it, and
--                    SkipList/Runs what a run of operations does
--   Base/Comparator  the `Comparator` of a skiplist, a parameter with the laws of an order
--   Storage/Segment  ibdb/src/storage/segment.h: the index of a table (`put`, `get_offset`, `build_key_index`,
--                    `remove_key`), three levels of skiplists that point to each other;
--                    Segment/Invariant says what a segment holds
--   Storage/Disk     ibdb/src/storage/disk.h: `WritableFileHandle` and the reads of a message, with `pread`
--                    as a parameter; Disk/Handle is `RandomAccessFileHandle` with its limiter
--   Storage/Table    ibdb/src/storage/table.h: a table (`put_disk`, `put`, `new_table`), over a segment and a
--                    file of messages; Table/Find is the loop of `FindMessage`, Table/Read has `get`,
--                    `get_batch_data` and `find_message`; Table/View is what the user of a table sees,
--                    its messages and the contents of its index, and Table/Refines says when a table
--                    implements them;
--                    Table/Durable tells what a stream took from what it has handed on to its file
--                    (`Buffered`): a read of the log sees a message behind `sync`, which `put_disk`
--                    calls where the threshold divides the offset
--   Tablet           ibdb/src/tablet/tablet.h: the handlers of a tablet (`create`, `put`, `get`,
--                    `get_statements`), over the interface of Tablet/Interface, which Tablet/Stored
--                    fills with the tables of Storage/Table
--   Base/Cache       ibdb/src/base/cache.h, on Base/Maps, which is `std::map` as the list of its entries
--   Base/Utils       ibdb/src/base/utils.h: `SplitString`, `is_zero`, `MkdirRecur`, `javaHash`; Utils/Zero,
--                    Utils/Paths and Utils/Hash say what they do
--   Base/Status      ibdb/src/base/status.h
--   Base/Logging     ibdb/src/base/logging.h
--   Base/Random      ibdb/src/base/random.h
--   Prelude          tests on numbers, lists over the native numbers, bit operations
--   Base/Examples, Base/Utils/Examples, Base/Arena/Examples, Base/SkipList/Examples, Log/Examples,
--   Log/Files/Examples, Log/WriteHandle/Examples, Log/Sequential/Examples,
--   Log/RandomAccess/Examples, Storage/Disk/Examples, Storage/Disk/Handle/Examples,
--   Storage/Segment/Examples, Storage/Table/Examples, Tablet/Examples
--                    runs on concrete inputs, with files in memory
--
-- Outside Base/Slice, a `Slice` or string is the list of its bytes, except in what a `Read` of Log/Sequential,
-- Log/RandomAccess and Disk/Handle gives, whose length goes through an `int`. A byte is a number below 256.
-- An unsigned integer is a number, and its wrap-around is written out. A file operation returns `none`
-- where the C++ faults. The calls of the reporter are collected in the field `reports`.
--
-- Loops are recursion on fuel where the source bounds them by data. `add_record` has the length of
-- the record and two more rounds: each round but the first and the last takes a byte.
-- `read_physical_record` has two rounds, since the block that a round reads is whole or the last one.
-- `read_record` takes its number of rounds as an argument: it reads at least a header in each.
--
-- A search of the skiplist has a round for each node and one for each level (`rounds`): a round goes
-- on to a node or down a level. A node is a number, given out in order; what the arena is asked for is
-- left out, and a skiplist has one thread. A new node's pointers are those that the memory held.
--
-- The loop of `FindMessage` has a round for each offset from the place where it begins up to the one
-- that it looks for. The flags, the split and the cast of boost, and what `fopen` and `pread` give at
-- the time of a call, are parameters of the table (`Platform`, `open_file`, `pread`). The handlers of
-- a tablet run one after the other.
--
-- `Read` of a `UnixSequentialFile` has a round for each call that a signal interrupts, and one more.
--
-- Not modelled: ownership and deletion of the files of the log, clocks, the removal of files, the
-- strings that are made for tests, the recovery of a table and of a tablet, the cluster and the
-- client, which only call other libraries, and of the skiplist FindLessThan and FindLast, which do not
-- compile or return nothing, with the operations of the iterator that need them.
pub mod Prelude
pub mod Base
pub mod Log
pub mod Storage
pub mod Tablet
