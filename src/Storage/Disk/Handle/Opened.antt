-- ===== src/Storage/Disk/Handle/Opened.antt =====
-- What the handles of ibdb/src/storage/disk.h can do with the file that they open.
use mathlib.Core.Option
use iceberg_db.Prelude.{
  ℕ, ◌+◌, ◌-◌, ◌%◌, ◌^◌, ◌<◌, ◌≡◌, refl, sym, ap, ◌∙◌, subst, some-injective, ◌⊎◌, inl, inr, true,
  false, Option, none, some, List, [], arith,
}
use iceberg_db.Base.Coding.{Endian}
use iceberg_db.Base.Status.{status_ok}
use iceberg_db.Log.Limiter.{Limiter, is_positive, acquire}
use iceberg_db.Log.Limiter
use iceberg_db.Base.Slice.{Slice, of_buffer, of_string, int_size}
use iceberg_db.Log.Posix.{Posix, Errno, off_t}
use iceberg_db.Log.RandomAccess.{PosixRandomAccessFile, settle, construct, positioned}
use iceberg_db.Log.RandomAccess
use iceberg_db.Storage.Disk.Handle.{
  RandomAccessFileHandle, with_local_limiter, open_front, with_heap_limiter, open_offset,
  close_handle, with_offset, read_range, get_current_offset,
}

-- `pread` into no buffer, from a descriptor that is open and an offset that is not negative: of no byte it
-- returns 0; of more it fails, or returns 0 at the end of the file.
pub record NullReads (posix : Posix) : Type 1 where
  pub IsOpen : posix.Kernel → ℕ → Type 0
  pub empty :
      (k : posix.Kernel) (d offset : ℕ)
      → IsOpen k d
      → offset < 2 ^ 63
      → (k' : posix.Kernel) × (posix.pread k d false offset 0 ≡ (k', inr []))
  pub no_byte :
      (k : posix.Kernel) (d offset n : ℕ)
      → IsOpen k d
      → offset < 2 ^ 63
      → 0 < n
      → n < 2 ^ 63
      → (k' : posix.Kernel) × (answer : Errno ⊎ List ℕ) × (posix.pread k d false offset n
          ≡ (k', answer))
        × (((e : Errno) × (answer ≡ inl e)) ⊎ (answer ≡ inr []))

-- A limiter that allows a file gives its resource to the first.
acquire-new :
    (limiter_max_required : ℕ)
    → 0 < limiter_max_required
    → limiter_max_required < 2 ^ 31
    → (l : Limiter) × (settle (acquire (Limiter.new limiter_max_required)) ≡ (l, true))
unfolding Limiter.new acquire is_positive settle
acquire-new limiter_max_required allowed small = (
  record { acquires_allowed = (limiter_max_required % 2 ^ 32 + (2 ^ 32 - 1)) % 2 ^ 32 },
  ground arith,
)

module _ (host : Endian) (posix : Posix) where
  -- The handle that `RandomAccessFileHandle(filename, offset)` makes, with the limiter it then has.
  abbrev with_descriptor : List ℕ → ℕ → ℕ → Option Limiter → RandomAccessFileHandle host posix
  with_descriptor filename offset fd limiter = record {
    filename = filename;
    current_offset = offset;
    fd = fd;
    limiter = limiter;
    random_access_file = record { has_permanent_fd = true; fd = some fd; filename = filename };
  }

  opened-with_descriptor :
      (limiter_max_required : ℕ) (k : posix.Kernel) (filename : List ℕ) (offset fd : ℕ)
      → 0 < limiter_max_required
      → limiter_max_required < 2 ^ 31
      → (l : Limiter) × (open_offset host posix limiter_max_required k filename offset (some fd)
          ≡ some (k, with_descriptor filename offset fd (some l)))
        × (open_front host posix limiter_max_required k filename (some fd)
            ≡ some (k, with_descriptor filename 0 fd none))
  unfolding open_offset open_front RandomAccess.new Option.map
  opened-with_descriptor limiter_max_required k filename offset fd allowed small =
      let (l, gets) = acquire-new limiter_max_required allowed small in
      (
        l,
        ap
            (λ r.
              some
                (with_heap_limiter host posix filename offset fd (construct posix k filename fd r)))
            gets,
        ap (λ r. some (with_local_limiter host posix filename fd (construct posix k filename fd r)))
            gets,
      )

  -- Where the limiter allows a file, both constructors keep the descriptor that they are given, and
  -- leave the kernel. A handle with an offset of its own closes its descriptor at the end; that of
  -- one without an offset faults, as its limiter is gone.
  opened-close_handle :
      (limiter_max_required : ℕ) (k k1 : posix.Kernel) (filename : List ℕ) (offset fd : ℕ)
      → 0 < limiter_max_required
      → limiter_max_required < 2 ^ 31
      → (h h' : RandomAccessFileHandle host posix) × (open_offset host posix limiter_max_required k
            filename offset
            (some fd)
          ≡ some (k, h))
        × (h.fd ≡ fd)
        × (get_current_offset host posix h ≡ offset)
        × (close_handle host posix k1 h ≡ some (posix.close k1 fd))
        × (open_front host posix limiter_max_required k filename (some fd) ≡ some (k, h'))
        × (close_handle host posix k1 h' ≡ none)
  unfolding close_handle RandomAccess.destroy get_current_offset Option.map Option.bind
  opened-close_handle limiter_max_required k k1 filename offset fd allowed small =
      let (l, at_offset, at_front) =
        opened-with_descriptor limiter_max_required k filename offset fd allowed small in
      (
        with_descriptor filename offset fd (some l),
        with_descriptor filename 0 fd none,
        at_offset,
        refl,
        refl,
        refl,
        at_front,
        refl,
      )

  -- A read of a file with a descriptor, from the answer of its `pread`
  null_read :
      (k : posix.Kernel) (filename : List ℕ) (fd offset n : ℕ) (result : Slice)
      (p : posix.Kernel × (Errno ⊎ List ℕ))
      → posix.pread k fd false (off_t offset) n ≡ p
      → read_range host posix k (with_descriptor filename 0 fd none) offset n result
        ≡ Option.map
            (with_offset host posix (with_descriptor filename 0 fd none) ((offset + n) % 2 ^ 64))
            (positioned posix host (with_descriptor filename 0 fd none).random_access_file n p)
  unfolding read_range RandomAccess.read Option.bind
  null_read k filename fd offset n result p e =
      ap
        (λ r.
          Option.map
            (with_offset host posix (with_descriptor filename 0 fd none) ((offset + n) % 2 ^ 64))
            (positioned posix host (with_descriptor filename 0 fd none).random_access_file n r))
        e

  -- What a `Read` of no byte makes of its answer
  empty_read :
      (filename : List ℕ) (fd offset : ℕ) (k : posix.Kernel)
      → offset < 2 ^ 63
      → Option.map
          (with_offset host posix (with_descriptor filename 0 fd none) ((offset + 0) % 2 ^ 64))
          (positioned posix host
            (with_descriptor filename 0 fd none).random_access_file
            0
            (k, inr []))
        ≡ some (
          k,
          record (with_descriptor filename 0 fd none) { current_offset = offset },
          status_ok,
          of_string [],
        )
  unfolding of_buffer of_string int_size Option.map
  empty_read filename fd offset k low =
      let same : (offset + 0) % 2 ^ 64 ≡ offset = omega (arith, low) in
      ap
        (λ o. some (
          k,
          record (with_descriptor filename 0 fd none) { current_offset = o },
          status_ok,
          of_string [],
        ))
        same

  -- A `pread` that gives no byte does not pass its `assert`.
  refused_answer :
      (f : PosixRandomAccessFile) (n : ℕ) (k : posix.Kernel) (answer : Errno ⊎ List ℕ)
      → 0 < n
      → n < 2 ^ 63
      → ((e : Errno) × (answer ≡ inl e)) ⊎ (answer ≡ inr [])
      → positioned posix host f n (k, answer) ≡ none
  refused_answer f n k answer positive fits (inl (e, fails)) =
      rw fails (ground (arith, positive, fits))
  refused_answer f n k answer positive fits (inr at_end) = rw at_end (ground (arith, positive))

  -- Where `pread` into a null buffer returns 0 for no byte, and for more fails, or returns 0: on a handle
  -- that `RandomAccessFileHandle(filename)` made with a limiter that allows a file, of less than 2^31,
  -- whose descriptor is open, at an offset below 2^63, `Read` of no byte returns OK and an empty result
  -- and sets the current offset, and `Read` of any number of bytes from 1 up to below 2^63 faults.
  pub read_range-opened :
      (null : NullReads posix) (limiter_max_required : ℕ) (k k1 k' : posix.Kernel)
      (h : RandomAccessFileHandle host posix) (filename : List ℕ) (fd offset n : ℕ) (result : Slice)
      → 0 < limiter_max_required
      → limiter_max_required < 2 ^ 31
      → open_front host posix limiter_max_required k filename (some fd) ≡ some (k', h)
      → null.IsOpen k1 fd
      → offset < 2 ^ 63
      → 0 < n
      → n < 2 ^ 63
      → (k2 : posix.Kernel) × (read_range host posix k1 h offset 0 result
          ≡ some (k2, record h { current_offset = offset }, status_ok, of_string []))
        × (read_range host posix k1 h offset n result ≡ none)
  read_range-opened null limiter_max_required k k1 k' h filename fd offset n result allowed small
        made is_open low positive fits =
      let (l, at_offset, at_front) =
        opened-with_descriptor limiter_max_required k filename 0 fd allowed small in
      let cast : off_t offset ≡ offset = omega (arith, low) in
      let (k2, none_read) = null.empty k1 fd offset is_open low in
      let (k3, answer, gives, no_byte) = null.no_byte k1 fd offset n is_open low positive fits in
      let cast_at : (m : ℕ)
          → posix.pread k1 fd false (off_t offset) m ≡ posix.pread k1 fd false offset m =
        λ m. ap (λ o. posix.pread k1 fd false o m) cast in
      let f = (with_descriptor filename 0 fd none).random_access_file in
      let same : with_descriptor filename 0 fd none ≡ h =
        ap (λ (p : posix.Kernel × RandomAccessFileHandle host posix). p.1)
          (some-injective (sym at_front ∙ made)) in
      subst
        (λ x.
          (k2 : posix.Kernel) × (read_range host posix k1 x offset 0 result
            ≡ some (k2, record x { current_offset = offset }, status_ok, of_string []))
          × (read_range host posix k1 x offset n result ≡ none))
        same
        (
          k2,
          null_read k1 filename fd offset 0 result _ (cast_at 0 ∙ none_read)
              ∙ empty_read filename fd offset k2 low,
          null_read k1 filename fd offset n result _ (cast_at n ∙ gives)
              ∙ ap
                  (Option.map (
                    with_offset host posix (with_descriptor filename 0 fd none)
                      ((offset + n) % 2 ^ 64)))
                  (refused_answer f n k3 answer positive fits no_byte),
        )
