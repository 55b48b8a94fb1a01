-- ===== src/Storage/Disk/Examples.antt =====
-- A file of messages in memory, and the theorems on it.
use iceberg_db.Prelude.{ℕ, ◌≡◌, refl, some, List, take, drop, codes, arith}
use iceberg_db.Base.Coding.{little}
use iceberg_db.Base.Status.{status_ok}
use iceberg_db.Log.Files.Examples.{memory_stdio, memory_stdio-Complete}
use iceberg_db.Storage.Disk.{
  Pread, WritableFileHandle, append_message, get_message, get_message_offset,
}
use iceberg_db.Storage.Disk.Append.{written}
use iceberg_db.Storage.Disk.RoundTrip.{append_message-read}

-- A descriptor is the contents of its file.
abbrev memory_pread : Pread (List ℕ)
memory_pread contents count offset = some (take count (drop offset contents))

abbrev handle : WritableFileHandle little memory_stdio
handle = record {
  filename = codes "0.data";
  current_pos = 3;
  file_handle = record { filename = codes "0.data"; filestream = some (codes "old"); filesize = 3 };
}

append_message-read_example :
    (w : WritableFileHandle little memory_stdio) × (append_message little memory_stdio handle 7
        (codes "put")
      ≡ some (w, status_ok))
    × (get_message little memory_pread (written little memory_stdio memory_stdio-Complete w) 3
        ≡ some (status_ok, some (codes "put")))
    × (get_message_offset little memory_pread
          (written little memory_stdio memory_stdio-Complete w)
          3
        ≡ (status_ok, some 7))
append_message-read_example =
    append_message-read little memory_stdio memory_stdio-Complete memory_pread
      (λ contents. contents) (λ contents count offset. refl) handle 7 (codes "put") (omega arith)
      (omega arith) (omega arith) (codes "old", refl)
