-- ===== src/Log/WriteHandle/Examples.antt =====
-- A `WriteHandle` on a file in memory, which is read with `UnixSequentialFile`, and the theorem on it.
use iceberg_db.Prelude.{ℕ, List, suc, ◌≡◌, refl, true, some, [], length, codes, arith}
use iceberg_db.Base.Coding.{little}
use iceberg_db.Base.Status.{status_ok}
use iceberg_db.Log.Checksum.{crc32c}
use iceberg_db.Log.Examples.{two_records}
use iceberg_db.Log.Sequential.Ahead.{unix_sequential_file, unix_sequential_file-Plain}
use iceberg_db.Log.Sequential.Examples.{Memory, memory_posix, memory_posix-Regular, log_file}
use iceberg_db.Log.Format.{SequentialFile}
use iceberg_db.Log.Files.{UnixWritableFile}
use iceberg_db.Log.Files.Examples.{memory_stdio, memory_stdio-Complete}
use iceberg_db.Log.Files.Writes.{taken}
use iceberg_db.Log.Reader.{Reader}
use iceberg_db.Log.Reader
use iceberg_db.Log.RoundTrip.{read_records}
use iceberg_db.Log.WriteHandle.{WriteHandle, sync}
use iceberg_db.Log.WriteHandle
use iceberg_db.Log.WriteHandle.RoundTrip.{write_all, write_all-read_records}

-- The file, whose reads are interrupted.
abbrev log_source : SequentialFile
log_source = unix_sequential_file little memory_posix log_file memory_posix-Regular

abbrev contents : UnixWritableFile little memory_stdio → List ℕ
contents f = taken little memory_stdio memory_stdio-Complete f.filestream

abbrev reopen_log : UnixWritableFile little memory_stdio → Memory
reopen_log f = record { ahead = contents f; signals = 5 }

write_all-read_records_example :
    (h : WriteHandle little crc32c memory_stdio) × (h' : WriteHandle little crc32c memory_stdio)
    × (r : Reader little crc32c log_source) × (write_all little crc32c memory_stdio
          (WriteHandle.new little crc32c memory_stdio (codes "1.log") (some []) 0)
          two_records
        ≡ some (h, status_ok))
    × (sync little crc32c memory_stdio h ≡ some (h', status_ok))
    × (read_records little crc32c log_source 3
          (suc (length (contents h.writer.dest)))
          (Reader.new little crc32c log_source (reopen_log h'.writer.dest) true true 0)
          []
          []
        ≡ some (r, two_records))
    × (r.reports ≡ [])
write_all-read_records_example =
    write_all-read_records little crc32c memory_stdio memory_stdio-Complete (λ s. (refl, refl))
      log_source (unix_sequential_file-Plain little memory_posix log_file memory_posix-Regular)
      reopen_log (λ f. refl) (codes "1.log") [] two_records true true refl (omega arith)
