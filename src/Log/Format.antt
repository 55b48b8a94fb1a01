-- ===== src/Log/Format.antt =====
-- ibdb/src/log/format.h: the constants of the format and the file interfaces. An operation returns
-- `none` where the C++ faults, as on a stream that was set to null.
use iceberg_db.Prelude.{ℕ, ◌*◌, ◌+◌, Option, List}
use iceberg_db.Base.Status.{Status}

pub data RecordType : Type 0 where
  zero_type full_type first_type middle_type last_type eof_type : RecordType

unfoldable pub type_number : RecordType → ℕ
type_number RecordType.zero_type = 0
type_number RecordType.full_type = 1
type_number RecordType.first_type = 2
type_number RecordType.middle_type = 3
type_number RecordType.last_type = 4
type_number RecordType.eof_type = 5

abbrev pub max_record_type : ℕ
max_record_type = 5

abbrev pub block_size : ℕ
block_size = 4 * 1024

-- Checksum (4 bytes), length (2 bytes), type (1 byte).
abbrev pub header_size : ℕ
header_size = 4 + 2 + 1

-- `class WritableFile`
pub record WritableFile : Type 1 where
  pub State : Type 0
  pub append : State → List ℕ → Option (State × Status)
  pub flush : State → Option (State × Status)

-- `class SequentialFile`
pub record SequentialFile : Type 1 where
  pub State : Type 0
  pub read : State → ℕ → State × Status × List ℕ
  pub skip : State → ℕ → State × Status
