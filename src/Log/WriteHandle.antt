-- ===== src/Log/WriteHandle.antt =====
-- ibdb/src/log/log_writer.h: `WriteHandle`, a writer on a file over stdio. The file that it holds is the
-- one that its writer appends to.
pub mod RoundTrip
pub mod Examples
use mathlib.Core.Option
use iceberg_db.Prelude.{ℕ, Option, List}
use iceberg_db.Base.Coding.{Endian}
use iceberg_db.Base.Status.{Status}
use iceberg_db.Log.Checksum.{Checksum}
use iceberg_db.Log.Files.{Stdio, UnixWritableFile, unix_writable_file}
use iceberg_db.Log.Files
use iceberg_db.Log.Writer.{Writer, add_record}
use iceberg_db.Log.Writer

module _ (host : Endian) (sum : Checksum) (stdio : Stdio) where
  pub record WriteHandle : Type 0 where
    pub filename : List ℕ
    pub writer : Writer host sum (unix_writable_file host stdio)

  -- `WriteHandle(const std::string& filename, FILE* filestream, uint64_t dest_length)`
  unfoldable pub new : List ℕ → Option stdio.Stream → ℕ → WriteHandle
  new filename filestream dest_length = record {
    filename = filename;
    writer =
        Writer.new host sum (unix_writable_file host stdio)
          (record { filename = filename; filestream = filestream; filesize = 0 }) dest_length;
  }

  -- `Status Write(const Slice& slice)`
  unfoldable pub write : WriteHandle → List ℕ → Option (WriteHandle × Status)
  write h slice =
      Option.map
        (λ ((w, s) : Writer host sum (unix_writable_file host stdio) × Status).
          (record h { writer = w }, s))
        (add_record host sum (unix_writable_file host stdio) h.writer slice)

  -- `Status Sync()`
  unfoldable pub sync : WriteHandle → Option (WriteHandle × Status)
  sync h =
      Option.map
        (λ ((f, s) : UnixWritableFile host stdio × Status).
          (record h { writer = record (h.writer) { dest = f } }, s))
        (Files.sync host stdio h.writer.dest)

  -- `uint64_t GetSize() const`
  unfoldable pub get_size : WriteHandle → ℕ
  get_size h = Files.get_size host stdio h.writer.dest
