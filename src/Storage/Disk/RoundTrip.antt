-- ===== src/Storage/Disk/RoundTrip.antt =====
-- A message that was appended to a file, read from it.
use mathlib.Core.List.{append-nil}
use iceberg_db.Prelude.{ℕ, ◌+◌, ◌^◌, ◌≡◌, ◌<◌, ap, sym, ◌∙◌, some, List, [], ◌++◌, length, arith}
use iceberg_db.Base.Coding.{Endian}
use iceberg_db.Base.Status.{status_ok}
use iceberg_db.Log.Files.{Stdio}
use iceberg_db.Log.Files.Writes.{Complete, IsOpen}
use iceberg_db.Storage.Disk.{
  Pread, WritableFileHandle, append_message, get_message, get_message_offset,
}
use iceberg_db.Storage.Disk.Layout.{message_bytes, IsFile}
use iceberg_db.Storage.Disk.Append.{written, append_message-written}
use iceberg_db.Storage.Disk.Message.{message-read}

module _ (host : Endian) (stdio : Stdio) (complete : Complete stdio) {Fd : Type 0}
    (pread : Pread Fd) (open_file : List ℕ → Fd)
    (files : (contents : List ℕ) → IsFile pread (open_file contents) contents) where
  -- Where stdio writes all that it is given and `pread` reads what a file has, a message of less than
  -- 2^31 - 1 bytes that `Append` writes with a 64-bit offset, to an open file that is more than 12
  -- bytes shorter than 2^64, is what `GetMessage` reads where the file ended before; and
  -- `GetMessageOffset` reads the offset there. All end with an ok status.
  pub append_message-read :
      (w : WritableFileHandle host stdio) (offset : ℕ) (slice : List ℕ)
      → offset < 2 ^ 64
      → length slice + 1 < 2 ^ 31
      → length (written host stdio complete w) + 12 < 2 ^ 64
      → IsOpen host stdio complete w.file_handle
      → (w' : WritableFileHandle host stdio) × (append_message host stdio w offset slice
          ≡ some (w', status_ok))
        × (get_message host pread
              (open_file (written host stdio complete w'))
              (length (written host stdio complete w))
            ≡ some (status_ok, some slice))
        × (get_message_offset host pread
              (open_file (written host stdio complete w'))
              (length (written host stdio complete w))
            ≡ (status_ok, some offset))
  append_message-read w offset slice small_offset short small ready =
      let before = written host stdio complete w in
      let (w', returns, took, pos, still) =
        append_message-written host stdio complete w offset slice (omega arith) ready in
      let contents = written host stdio complete w' in
      let split : contents ≡ before ++ (message_bytes offset slice ++ []) =
        took ∙ ap (λ (bs : List ℕ). before ++ bs) (sym (append-nil (message_bytes offset slice))) in
      let (message, offset_read, size) =
        message-read pread (open_file contents) contents (files contents) host before [] offset
          slice split small_offset small short in
      (w', returns, message, offset_read)
