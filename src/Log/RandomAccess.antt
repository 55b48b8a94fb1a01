-- ===== src/Log/RandomAccess.antt =====
-- ibdb/src/log/format.h: `PosixRandomAccessFile`, over the calls of the system. The limiter is used by
-- one thread at a time. `none` is an `assert` that fails.
pub mod Kept
pub mod Contents
pub mod Calls
pub mod Runs
pub mod Examples
use mathlib.Core.Option
use iceberg_db.Prelude.{
  ℕ, zero, suc, ◌+◌, ◌-◌, ◌^◌, Bool, true, false, Option, none, some, List, [], ◌∷◌, ◌⊎◌, inl, inr,
  ◌==◌, if◌then◌else◌, length,
}
use iceberg_db.Base.Coding.{Endian}
use iceberg_db.Base.Status.{Status, status_ok}
use iceberg_db.Log.Limiter.{Limiter, Phase, idle, holding, undoing, acquire, add_one}
use iceberg_db.Log.Posix.{Posix, Errno, errno_status, off_t}
use iceberg_db.Base.Slice.{Slice, of_buffer}

-- What `Acquire` returns, and the counter then: it gives back what it took in vain.
unfoldable pub settle : Limiter × Phase → Limiter × Bool
settle (l, holding) = (l, true)
settle (l, idle) = (l, false)
settle (l, undoing) = (add_one l, false)

pub record PosixRandomAccessFile : Type 0 where
  pub has_permanent_fd : Bool
  pub fd : Option ℕ
  pub filename : List ℕ

-- `fd_ == d`, for the number of a descriptor
abbrev pub is_fd : Option ℕ → ℕ → Bool
is_fd none d = false
is_fd (some d') d = d' == d

-- `read_size` as the `size_t` that it is compared as: -1 for a call that fails.
abbrev pub read_size : Errno ⊎ List ℕ → ℕ
read_size (inl e) = 2 ^ 64 - 1
read_size (inr scratch) = length scratch

module _ (posix : Posix) where
  -- `PosixRandomAccessFile(filename, fd, fd_limiter)`, from what `Acquire` returned
  abbrev pub construct :
      posix.Kernel → List ℕ → ℕ → Limiter × Bool → Limiter × posix.Kernel × PosixRandomAccessFile
  construct k filename fd (l, true) =
      (l, k, record { has_permanent_fd = true; fd = some fd; filename = filename })
  construct k filename fd (l, false) =
      (l, posix.close k fd, record { has_permanent_fd = false; fd = none; filename = filename })

  -- `NewRandomAccessFile(filename, fd, fd_limiter)`
  unfoldable pub new :
      Limiter → posix.Kernel → List ℕ → ℕ → Limiter × posix.Kernel × PosixRandomAccessFile
  new l k filename fd = construct k filename fd (settle (acquire l))

  -- `~PosixRandomAccessFile()`
  unfoldable pub destroy :
      Limiter → posix.Kernel → PosixRandomAccessFile → Option (Limiter × posix.Kernel)
  destroy l k f =
      if f.has_permanent_fd
      then Option.map (λ d. (add_one l, posix.close k d)) f.fd
      else some (l, k)

  -- `const int GetFd()`
  unfoldable pub get_fd : PosixRandomAccessFile → Option ℕ
  get_fd f = f.fd

  module _ (host : Endian) where
    -- `*result` and the status of a `pread` whose size passed its `assert`, so that `n` is the size.
    abbrev pub result_of : PosixRandomAccessFile → Errno ⊎ List ℕ → Status × Slice
    result_of f (inl e) = (errno_status host f.filename e, of_buffer [] 0)
    result_of f (inr scratch) = (status_ok, of_buffer scratch (length scratch))

    -- A `pread` and its `assert`
    abbrev pub positioned :
        PosixRandomAccessFile
        → ℕ
        → posix.Kernel × (Errno ⊎ List ℕ)
        → Option (posix.Kernel × Status × Slice)
    positioned f n (k, answer) =
        let (status, result) = result_of f answer in
        if read_size answer == n then some (k, status, result) else none

    -- `Read` on a descriptor that it opened, which it closes at the end; `*result` is left where it
    -- could not be opened.
    abbrev pub with_opened :
        PosixRandomAccessFile
        → ℕ
        → ℕ
        → Bool
        → Slice
        → posix.Kernel × (Errno ⊎ ℕ)
        → Option (posix.Kernel × Status × Slice)
    with_opened f offset n has_scratch result (k, inl e) =
        some (k, errno_status host f.filename e, result)
    with_opened f offset n has_scratch result (k, inr d) =
        let read_and_close =
          Option.map
            (λ ((k', status, filled) : posix.Kernel × Status × Slice).
              (posix.close k' d, status, filled))
            (positioned f n (posix.pread k d has_scratch (off_t offset) n)) in
        if is_fd f.fd d then none else read_and_close

    -- `Status Read(uint64_t offset, size_t n, Slice* result, char* scratch) const`: the status and
    -- `*result` afterwards, where `has_scratch` tells whether `scratch` is not null.
    unfoldable pub read :
        posix.Kernel
        → PosixRandomAccessFile
        → ℕ
        → ℕ
        → Bool
        → Slice
        → Option (posix.Kernel × Status × Slice)
    read k f offset n has_scratch result =
        if f.has_permanent_fd
        then Option.bind f.fd (λ d. positioned f n (posix.pread k d has_scratch (off_t offset) n))
        else with_opened f offset n has_scratch result (posix.open_readonly k f.filename)
