-- ===== src/Storage/Disk/Handle.antt =====
-- ibdb/src/storage/disk.h: `RandomAccessFileHandle`, its file and its limiter. `none` is a fault: an
-- `assert` that fails, or the use of a limiter that is gone.
pub mod Opened
pub mod Examples
use mathlib.Core.Option
use iceberg_db.Prelude.{
  ℕ, ◌+◌, ◌-◌, ◌*◌, ◌%◌, ◌^◌, ◌≤◌, ◌<◌, ◌≡◌, refl, sym, ap, ◌∙◌, subst, ◌⊎◌, inl, inr, Bool, true,
  false, Option, none, some, List, [], ◌==◌, if◌then◌else◌, length, Bool-cases, arith,
}
use iceberg_db.Base.Coding.{Endian}
use iceberg_db.Base.Status.{Status, status_ok}
use iceberg_db.Log.Limiter.{Limiter, is_positive, acquire}
use iceberg_db.Log.Limiter
use iceberg_db.Base.Slice.{Slice}
use iceberg_db.Log.Posix.{Posix, Errno}
use iceberg_db.Log.RandomAccess.{PosixRandomAccessFile, settle, new, destroy, read}
use iceberg_db.Log.RandomAccess

module _ (host : Endian) (posix : Posix) where
  -- `limiter` is `none` where the pointer is to a local limiter of a constructor that has returned.
  pub record RandomAccessFileHandle : Type 0 where
    pub filename : List ℕ
    pub current_offset : ℕ
    pub fd : ℕ
    pub limiter : Option Limiter
    pub random_access_file : PosixRandomAccessFile

  abbrev pub Opened : Type 0
  Opened = posix.Kernel × RandomAccessFileHandle

  -- `RandomAccessFileHandle(filename)`, with the descriptor of the stream that `fopen` returned
  abbrev pub with_local_limiter :
      List ℕ → ℕ → Limiter × posix.Kernel × PosixRandomAccessFile → Opened
  with_local_limiter filename fd (l, k, f) = (
    k,
    record {
      filename = filename;
      current_offset = 0;
      fd = fd;
      limiter = none;
      random_access_file = f;
    },
  )

  unfoldable pub open_front : ℕ → posix.Kernel → List ℕ → Option ℕ → Option Opened
  open_front limiter_max_required k filename stream =
      Option.map
        (λ fd.
          with_local_limiter filename fd
            (RandomAccess.new posix (Limiter.new limiter_max_required) k filename fd))
        stream

  -- `RandomAccessFileHandle(filename, offset)`
  abbrev pub with_heap_limiter :
      List ℕ → ℕ → ℕ → Limiter × posix.Kernel × PosixRandomAccessFile → Opened
  with_heap_limiter filename offset fd (l, k, f) = (
    k,
    record {
      filename = filename;
      current_offset = offset;
      fd = fd;
      limiter = some l;
      random_access_file = f;
    },
  )

  unfoldable pub open_offset : ℕ → posix.Kernel → List ℕ → ℕ → Option ℕ → Option Opened
  open_offset limiter_max_required k filename offset stream =
      Option.map
        (λ fd.
          with_heap_limiter filename offset fd
            (RandomAccess.new posix (Limiter.new limiter_max_required) k filename fd))
        stream

  -- `~RandomAccessFileHandle()`: a file without a descriptor does not use its limiter.
  unfoldable pub close_handle : posix.Kernel → RandomAccessFileHandle → Option posix.Kernel
  close_handle k h =
      if h.random_access_file.has_permanent_fd
      then Option.bind h.limiter (λ l.
        Option.map (λ ((l', k') : Limiter × posix.Kernel). k')
          (RandomAccess.destroy posix l k h.random_access_file))
      else some k

  abbrev pub with_offset :
      RandomAccessFileHandle
      → ℕ
      → posix.Kernel × Status × Slice
      → posix.Kernel × RandomAccessFileHandle × Status × Slice
  with_offset h offset (k, status, result) =
      (k, record h { current_offset = offset }, status, result)

  -- `Status Read(uint64_t offset, size_t n, Slice* const result)`: its buffer is null.
  unfoldable pub read_range :
      posix.Kernel
      → RandomAccessFileHandle
      → ℕ
      → ℕ
      → Slice
      → Option (posix.Kernel × RandomAccessFileHandle × Status × Slice)
  read_range k h offset n result =
      Option.map (with_offset h ((offset + n) % 2 ^ 64))
        (RandomAccess.read posix host k h.random_access_file offset n false result)

  -- `uint64_t GetCurrentOffset() const`
  unfoldable pub get_current_offset : RandomAccessFileHandle → ℕ
  get_current_offset h = h.current_offset
