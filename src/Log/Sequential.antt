-- ===== src/Log/Sequential.antt =====
-- ibdb/src/log/format.h: `UnixSequentialFile`, over the calls of the system.
pub mod Ahead
pub mod Examples
use iceberg_db.Prelude.{
  ℕ, zero, suc, List, Option, none, some, ◌⊎◌, length, inl, inr, if◌then◌else◌,
}
use iceberg_db.Base.Coding.{Endian}
use iceberg_db.Base.Status.{Status, status_ok}
use iceberg_db.Log.Posix.{Posix, Errno, errno_status, off_t}
use iceberg_db.Base.Slice.{Slice, of_buffer}

pub record UnixSequentialFile : Type 0 where
  pub fd : ℕ
  pub filename : List ℕ

-- `NewSequentialFile(fname, fd)`
unfoldable pub new : List ℕ → ℕ → UnixSequentialFile
new filename fd = record { fd = fd; filename = filename }

module _ (host : Endian) (posix : Posix) where
  -- What a round of `Read` does with the answer of its `read`.
  abbrev pub answered :
      (posix.Kernel → Option (posix.Kernel × Status × Slice))
      → UnixSequentialFile
      → Slice
      → posix.Kernel × (Errno ⊎ List ℕ)
      → Option (posix.Kernel × Status × Slice)
  answered retry f result (k, inl e) =
      let again = retry k in
      if e.is_eintr then again else some (k, errno_status host f.filename e, result)
  answered retry f result (k, inr scratch) = some (k, status_ok, of_buffer scratch (length scratch))

  -- `Status Read(size_t n, Slice* result, char* scratch)`: the status and `*result` afterwards. A
  -- round for each `read` of the `while (true)`; `none` is a loop that goes on.
  unfoldable pub read :
      ℕ → posix.Kernel → UnixSequentialFile → ℕ → Slice → Option (posix.Kernel × Status × Slice)
  read zero k f n result = none
  read (suc rounds) k f n result =
      answered (λ k'. read rounds k' f n result) f result (posix.read k f.fd n)

  -- `Status Skip(uint64_t n)`
  unfoldable pub skip : posix.Kernel → UnixSequentialFile → ℕ → posix.Kernel × Status
  skip k f n =
      let (k', answer) = posix.lseek k f.fd (off_t n) in
      elim answer [ none ↦ (k', status_ok) | some e ↦ (k', errno_status host f.filename e) ]

  -- `~UnixSequentialFile()`
  unfoldable pub destroy : posix.Kernel → UnixSequentialFile → posix.Kernel
  destroy k f = posix.close k f.fd
