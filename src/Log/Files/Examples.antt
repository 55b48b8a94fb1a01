-- ===== src/Log/Files/Examples.antt =====
-- The file of a log on two models of stdio: one in memory, and one on a full disk.
use iceberg_db.Prelude.{ℕ, ◌≡◌, ◌≤◌, refl, true, some, List, [], ◌++◌, length, codes, arith}
use iceberg_db.Base.Coding.{little}
use iceberg_db.Base.Status.{Status, status_ok, is_ok}
use iceberg_db.Log.Format.{block_size}
use iceberg_db.Log.Checksum.{crc32c}
use iceberg_db.Log.Writer.{Writer, add_record}
use iceberg_db.Log.Writer.Layout.{Fragment, Whole, Fits, layout}
use iceberg_db.Log.Files.{Stdio, unix_writable_file}
use iceberg_db.Log.Files.Writes.{Complete, IsOpen, taken, add_record-taken}
use iceberg_db.Log.Files.Failing.{HasStream, add_record_on_stdio, add_record_hides_short_writes}

abbrev pub memory_stdio : Stdio
memory_stdio = record {
  Stream = List ℕ;
  fwrite = λ s bytes. (s ++ bytes, length bytes);
  fflush = λ s. (s, true);
  fsync = λ s. (s, true);
  fclose = λ s. (s, true);
  error_text = λ s. [];
}

abbrev pub memory_stdio-Complete : Complete memory_stdio
memory_stdio-Complete = record {
  written = λ s. s;
  writes_all = λ s bytes. (refl, refl);
  flushes = λ s. (refl, refl);
}

-- Nothing is written, and flushes succeed.
abbrev full_stdio : Stdio
full_stdio = record {
  Stream = Unit {0};
  fwrite = λ s bytes. (s, 0);
  fflush = λ s. (s, true);
  fsync = λ s. (s, true);
  fclose = λ s. (s, true);
  error_text = λ s. codes "No space left on device";
}

abbrev memory_file : Writer little crc32c (unix_writable_file little memory_stdio)
memory_file = record {
  dest = record { filename = codes "1.log"; filestream = some []; filesize = 0 };
  block_offset = 0;
}

abbrev full_file : Writer little crc32c (unix_writable_file little full_stdio)
full_file = record {
  dest = record { filename = codes "1.log"; filestream = some tt; filesize = 0 };
  block_offset = 0;
}

add_record-taken_example :
    (w : Writer little crc32c (unix_writable_file little memory_stdio)) × (fs : List Fragment)
    × (add_record little crc32c (unix_writable_file little memory_stdio) memory_file (codes "put")
        ≡ some (w, status_ok))
    × Whole (codes "put") fs
    × Fits 0 fs
    × (taken little memory_stdio memory_stdio-Complete w.dest.filestream
        ≡ taken little memory_stdio memory_stdio-Complete (some []) ++ layout little crc32c 0 fs)
    × IsOpen little memory_stdio memory_stdio-Complete w.dest
add_record-taken_example =
    add_record-taken little memory_stdio memory_stdio-Complete crc32c memory_file (codes "put")
      (omega arith) ([], refl) (omega arith)

add_record_on_stdio_example :
    (w : Writer little crc32c (unix_writable_file little full_stdio)) × (status : Status)
    × (add_record little crc32c (unix_writable_file little full_stdio) full_file (codes "put")
        ≡ some (w, status))
    × (w.block_offset ≤ block_size)
    × (is_ok status ≡ true → HasStream little full_stdio w.dest)
add_record_on_stdio_example =
    add_record_on_stdio little full_stdio crc32c full_file (codes "put") (omega arith) (tt, refl)

add_record_hides_short_writes_example :
    (w : Writer little crc32c (unix_writable_file little full_stdio)) × (add_record little crc32c
        (unix_writable_file little full_stdio)
        full_file
        (codes "put")
      ≡ some (w, status_ok))
add_record_hides_short_writes_example =
    add_record_hides_short_writes little full_stdio crc32c full_file (codes "put") (λ s. refl)
      (omega arith) (tt, refl)
