-- ===== src/Storage/Disk.antt =====
-- ibdb/src/storage/disk.h: the handles of a file of messages. `pread` and stdio are parameters, and
-- `none` is a fault: a null stream, or memory that cannot be had.
pub mod Layout
pub mod Append
pub mod Message
pub mod RoundTrip
pub mod Handle
pub mod Examples
use mathlib.Core.Option
use iceberg_db.Prelude.{
  ℕ, ◌+◌, ◌^◌, ◌%◌, Bool, true, false, not, Option, none, some, List, [], ltb, ◌==◌, if◌then◌else◌,
  length, codes,
}
use iceberg_db.Base.Coding.{Endian, encode_fixed32, encode_fixed64, decode_fixed32, decode_fixed64}
use iceberg_db.Base.Status.{Code, Status, status_ok, is_ok}
use iceberg_db.Base.Status
use iceberg_db.Log.Files.{Stdio, UnixWritableFile}
use iceberg_db.Log.Files

-- `ssize_t pread(int fd, void* buf, size_t count, off_t offset)`: the bytes read, `none` for -1.
abbrev pub Pread : Type 0 → Type 0
Pread Fd = Fd → ℕ → ℕ → Option (List ℕ)

-- The offset of a message, and its size, stand before it.
abbrev pub offset_length : ℕ
offset_length = 8

abbrev pub message_length : ℕ
message_length = 4

-- What was read, where it is as many bytes as are asked for.
abbrev pub all_of : ℕ → Option (List ℕ) → Option (List ℕ)
all_of count none = none
all_of count (some scratch) = if length scratch == count then some scratch else none

module _ (host : Endian) where
  module _ (stdio : Stdio) where
    pub record WritableFileHandle : Type 0 where
      pub filename : List ℕ
      pub current_pos : ℕ
      pub file_handle : UnixWritableFile host stdio

    -- `WritableFileHandle(filename)`, with the stream that `fopen` returned
    unfoldable pub new : List ℕ → Option stdio.Stream → WritableFileHandle
    new filename stream = record {
      filename = filename;
      current_pos = 0;
      file_handle = record { filename = filename; filestream = stream; filesize = 0 };
    }

    -- `WritableFileHandle(filename, current_pos)`
    unfoldable pub reopen : List ℕ → ℕ → Option stdio.Stream → WritableFileHandle
    reopen filename current_pos stream = record (new filename stream) { current_pos = current_pos }

    -- `Status Append(const Slice& slice)`
    unfoldable pub append : WritableFileHandle → List ℕ → Option (WritableFileHandle × Status)
    append w slice =
        Option.map
          (λ ((f, s) : UnixWritableFile host stdio × Status). (record w { file_handle = f }, s))
          (Files.append host stdio w.file_handle slice)

    -- What is left to do where the status is ok, and an early return where it is not.
    abbrev pub next_append :
        (WritableFileHandle → Option (WritableFileHandle × Status))
        → WritableFileHandle × Status
        → Option (WritableFileHandle × Status)
    next_append rest (w, s) = let others = rest w in if is_ok s then others else some (w, s)

    -- `Status Append(uint64_t offset, const Slice& slice)`
    unfoldable pub append_message :
        WritableFileHandle → ℕ → List ℕ → Option (WritableFileHandle × Status)
    append_message w offset slice = Option.bind (append w (encode_fixed64 host offset)) (
        next_append (λ w1. Option.bind (append w1 (encode_fixed32 host (length slice % 2 ^ 32))) (
          next_append (λ w2. Option.bind (append w2 slice) (
            next_append (λ w3. some (
              record w3 { current_pos = (w3.current_pos + 12 + length slice) % 2 ^ 32 },
              status_ok,
            )))))))

    -- `Status Sync()`
    unfoldable pub sync : WritableFileHandle → Option (WritableFileHandle × Status)
    sync w =
        Option.map
          (λ ((f, s) : UnixWritableFile host stdio × Status). (record w { file_handle = f }, s))
          (Files.sync host stdio w.file_handle)

    -- `uint64_t GetSize() const`
    unfoldable pub get_size : WritableFileHandle → ℕ
    get_size w = Files.get_size host stdio w.file_handle

    -- `uint32_t GetCurrentPos() const`
    unfoldable pub get_current_pos : WritableFileHandle → ℕ
    get_current_pos w = w.current_pos

  abbrev pub io_error : List ℕ → Status
  io_error text = Status.new host Code.io_error text []

  -- A result where the bytes were read, and an error with a text where they were not.
  abbrev pub result_of : {A : Type 0} → List ℕ → (List ℕ → A) → Option (List ℕ) → Status × Option A
  result_of text decode none = (io_error text, none)
  result_of text decode (some scratch) = (status_ok, some (decode scratch))

  module _ {Fd : Type 0} (pread : Pread Fd) where
    -- `pread` of a number of bytes: what it read, where it read them all.
    abbrev pub read_exactly : Fd → ℕ → ℕ → Option (List ℕ)
    read_exactly fd count offset = all_of count (pread fd count offset)

    -- `Status GetMessageOffset(uint64_t offset, uint64_t& result)`: the result, where it is written.
    unfoldable pub get_message_offset : Fd → ℕ → Status × Option ℕ
    get_message_offset fd offset =
        result_of (codes "read_size is not equal offset_length") (decode_fixed64 host)
          (read_exactly fd offset_length offset)

    -- `Status GetMessageSize(uint64_t offset, uint32_t& result)`
    unfoldable pub get_message_size : Fd → ℕ → Status × Option ℕ
    get_message_size fd offset =
        result_of (codes "read_size is not equal message_length") (decode_fixed32 host)
          (read_exactly fd message_length ((offset + offset_length) % 2 ^ 64))

    -- The rest of `GetMessage`, with the bytes of the size, where they were read: the size is to fit
    -- `int message_size`, and `new char[message_size + 1]` has no length from 2^31 - 1 on.
    unfoldable pub read_message : Fd → ℕ → Option (List ℕ) → Option (Status × Option (List ℕ))
    read_message fd offset none =
        some (io_error (codes "read_size is not equal message_length"), none)
    read_message fd offset (some size_bytes) =
        let message_size = decode_fixed32 host size_bytes in
        if ltb (message_size + 1) (2 ^ 31)
        then some (
            result_of (codes "read_size is not equal message_size") (λ scratch. scratch)
              (read_exactly fd message_size offset))
        else none

    -- `Status GetMessage(uint64_t offset, Slice* const result)`
    unfoldable pub get_message : Fd → ℕ → Option (Status × Option (List ℕ))
    get_message fd offset =
        let start = (offset + offset_length) % 2 ^ 64 in
        read_message fd ((start + message_length) % 2 ^ 64) (read_exactly fd message_length start)
