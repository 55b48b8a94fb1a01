-- ===== src/Log/Posix.antt =====
-- The system calls of ibdb/src/log/format.h on descriptors, which are parameters. A descriptor is a
-- number; the -1 of a call that fails is its `Errno`, and that of a member is `none`.
use iceberg_db.Prelude.{ℕ, ◌%◌, ◌^◌, Bool, List, Option, ◌⊎◌}
use iceberg_db.Base.Coding.{Endian}
use iceberg_db.Base.Status.{Status}
use iceberg_db.Log.Files.{unix_error}

-- What the code reads of `errno`: the tests with EINTR and ENOENT, and `strerror`.
pub record Errno : Type 0 where
  pub is_eintr : Bool
  pub is_enoent : Bool
  pub text : List ℕ

-- The state is that of the kernel. `lseek` is relative to the position; what it returns is not used, as
-- is what `close` does. `pread` is told whether its buffer is there, and has an offset and a count. An
-- `off_t` is its value modulo 2^64, which stands for a negative one from 2^63 on.
pub record Posix : Type 1 where
  pub Kernel : Type 0
  pub open_readonly : Kernel → List ℕ → Kernel × (Errno ⊎ ℕ)
  pub read : Kernel → ℕ → ℕ → Kernel × (Errno ⊎ List ℕ)
  pub pread : Kernel → ℕ → Bool → ℕ → ℕ → Kernel × (Errno ⊎ List ℕ)
  pub lseek : Kernel → ℕ → ℕ → Kernel × Option Errno
  pub close : Kernel → ℕ → Kernel

-- `static_cast<off_t>` of a `uint64_t`
abbrev pub off_t : ℕ → ℕ
off_t offset = offset % 2 ^ 64

-- `UnixError(filename_, errno)`
abbrev pub errno_status : Endian → List ℕ → Errno → Status
errno_status host filename e = unix_error host filename e.is_enoent e.text
