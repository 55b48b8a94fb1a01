-- ===== src/Log/Checksum.antt =====
-- What the log asks of its checksum, and the checksum that it uses.
use iceberg_db.Prelude.{ℕ, ◌^◌, ◌<◌, ◌≡◌, List, ◌++◌, All}
use iceberg_db.Base.Coding.{IsByte}
use iceberg_db.Base.Crc32c.Rounds.{crc_bytes}
use iceberg_db.Base.Crc32c.Extend.{crc_bytes-append, crc_bytes-lt}

-- `extend crc bytes` is `crc32c::Extend(crc, bytes, n)`.
pub record Checksum : Type 0 where
  pub extend : ℕ → List ℕ → ℕ
  pub extend-append : (crc : ℕ) (xs ys : List ℕ) → extend crc (xs ++ ys) ≡ extend (extend crc xs) ys
  pub extend-lt : (crc : ℕ) (xs : List ℕ) → crc < 2 ^ 32 → All IsByte xs → extend crc xs < 2 ^ 32

-- ibdb/src/base/crc32c.cpp: the bit-by-bit checksum, against which `Base.Crc32c.Extend` holds the code.
abbrev pub crc32c : Checksum
crc32c = record { extend = crc_bytes; extend-append = crc_bytes-append; extend-lt = crc_bytes-lt }
