-- ===== src/Log/Files.antt =====
-- ibdb/src/log/format.h: the file over stdio. The calls of stdio are parameters.
pub mod Writes
pub mod Failing
pub mod Examples
use iceberg_db.Prelude.{
  ℕ, ◌+◌, ◌-◌, ◌*◌, ◌%◌, ◌^◌, Bool, true, false, not, ◌&&◌, Option, none, some, List, [], ltb, ◌==◌,
  if◌then◌else◌, length, take,
}
use mathlib.Core.Option
use iceberg_db.Base.Coding.{Endian}
use iceberg_db.Base.Status.{Code, Status, status_ok}
use iceberg_db.Base.Status
use iceberg_db.Log.Format.{WritableFile}

-- `FILE*` streams. A call that returns 0 is `true`; `error_text` is `strerror(errno)` after a call.
pub record Stdio : Type 1 where
  pub Stream : Type 0
  pub fwrite : Stream → List ℕ → Stream × ℕ
  pub fflush : Stream → Stream × Bool
  pub fsync : Stream → Stream × Bool
  pub fclose : Stream → Stream × Bool
  pub error_text : Stream → List ℕ

module _ (host : Endian) where
  -- `Status IOError(const std::string& context, int err_number)`
  unfoldable pub io_error : List ℕ → List ℕ → Status
  io_error context text = Status.new host Code.io_error context text

  -- `Status UnixError(const std::string& context, int error_number)`
  unfoldable pub unix_error : List ℕ → Bool → List ℕ → Status
  unix_error context is_enoent text =
      if is_enoent
      then Status.new host Code.not_found context text
      else Status.new host Code.io_error context text

  module _ (stdio : Stdio) where
    -- `none` for a null `filestream_`
    pub record UnixWritableFile : Type 0 where
      pub filename : List ℕ
      pub filestream : Option stdio.Stream
      pub filesize : ℕ

    -- `Status Append(const Slice& data)`: `r < 0` is a test on a `size_t`.
    unfoldable pub append : UnixWritableFile → List ℕ → Option (UnixWritableFile × Status)
    append f bytes =
        Option.map
          (λ stream.
            let (stream', r) = stdio.fwrite stream bytes in
            let f' = record f { filestream = some stream' } in
            if ltb r 0 && not (r == length bytes)
            then (f', io_error f.filename (stdio.error_text stream'))
            else (record f' { filesize = (f.filesize + r) % 2 ^ 64 }, status_ok))
          f.filestream

    -- What `Close`, `Flush` and `Sync` do with the result of their calls.
    abbrev after_call : UnixWritableFile → stdio.Stream × Bool → UnixWritableFile × Status
    after_call f (stream, done) =
        if done
        then (record f { filestream = some stream }, status_ok)
        else (record f { filestream = none }, io_error f.filename (stdio.error_text stream))

    -- `Status Close()`: the pointer is kept after a successful `fclose`.
    unfoldable pub close : UnixWritableFile → Option (UnixWritableFile × Status)
    close f = Option.map (λ stream. after_call f (stdio.fclose stream)) f.filestream

    -- `Status Flush()`
    unfoldable pub flush : UnixWritableFile → Option (UnixWritableFile × Status)
    flush f = Option.map (λ stream. after_call f (stdio.fflush stream)) f.filestream

    -- `Status Sync()`
    unfoldable pub sync : UnixWritableFile → Option (UnixWritableFile × Status)
    sync f =
        Option.map
          (λ stream.
            let (flushed, done) = stdio.fflush stream in
            if done then after_call f (stdio.fsync flushed) else after_call f (flushed, false))
          f.filestream

    -- `uint64_t GetSize()`
    abbrev pub get_size : UnixWritableFile → ℕ
    get_size f = f.filesize

    abbrev pub unix_writable_file : WritableFile
    unix_writable_file = record { State = UnixWritableFile; append = append; flush = flush }
