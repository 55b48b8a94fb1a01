-- ===== src/Log/Sequential/Ahead.antt =====
-- `Read` on a regular file, whose calls may be interrupted.
use iceberg_db.Prelude.{
  ℕ, zero, suc, ◌<◌, ◌≡◌, refl, ◌⊎◌, inl, inr, ap, ◌∙◌, subst, true, List, [], Option, none, some,
  take, drop, take_all, length, length-take, ◌≤◌, ◌^◌, arith,
}
use iceberg_db.Base.Coding.{Endian}
use iceberg_db.Base.Status.{Status, status_ok}
use iceberg_db.Log.Format.{SequentialFile}
use iceberg_db.Log.Format.{block_size}
use iceberg_db.Base.Slice.{Slice, of_string}
use iceberg_db.Base.Slice.Order.{of_buffer-of_string}
use iceberg_db.Log.Posix.{Posix, Errno}
use iceberg_db.Log.Reader.Blocks.{Plain}
use iceberg_db.Log.Sequential.{UnixSequentialFile, answered, read, skip}

-- A call of `read` was interrupted before it read a byte, and fewer interruptions are to come.
pub record Interrupted (posix : Posix) (fd : ℕ) (ahead : posix.Kernel → List ℕ)
    (signals : posix.Kernel → ℕ) (k : posix.Kernel) (n : ℕ) : Type 0 where
  pub after : posix.Kernel
  pub errno : Errno
  pub fails : posix.read k fd n ≡ (after, inl errno)
  pub eintr : errno.is_eintr ≡ true
  pub kept : ahead after ≡ ahead k
  pub fewer : signals after < signals k

-- A call of `read` gave the next bytes, fewer than it was asked for only at the end.
pub record Delivered (posix : Posix) (fd : ℕ) (ahead : posix.Kernel → List ℕ) (k : posix.Kernel)
    (n : ℕ) : Type 0 where
  pub after : posix.Kernel
  pub gives : posix.read k fd n ≡ (after, inr (take n (ahead k)))
  pub moved : ahead after ≡ drop n (ahead k)

-- `read` on the descriptor of a regular file: what lies ahead of the position, how many signals will
-- interrupt calls before they read a byte, and that any other call for fewer than 2^31 bytes reads on.
pub record Regular (posix : Posix) (fd : ℕ) : Type 0 where
  pub ahead : posix.Kernel → List ℕ
  pub signals : posix.Kernel → ℕ
  pub reads :
      (k : posix.Kernel) (n : ℕ)
      → n < 2 ^ 31
      → Interrupted posix fd ahead signals k n ⊎ Delivered posix fd ahead k n

module _ (host : Endian) (posix : Posix) (f : UnixSequentialFile)
    (regular : Regular posix f.fd) where
  read-Interrupted :
      (rounds : ℕ) (k : posix.Kernel) (n : ℕ) (result : Slice)
      → (i : Interrupted posix f.fd regular.ahead regular.signals k n)
      → read host posix (suc rounds) k f n result ≡ read host posix rounds i.after f n result
  unfolding read
  read-Interrupted rounds k n result i =
      ap (answered host posix (λ k'. read host posix rounds k' f n result) f result) i.fails
      ∙ rw i.eintr refl

  read-Delivered :
      (rounds : ℕ) (k : posix.Kernel) (n : ℕ) (result : Slice)
      → (d : Delivered posix f.fd regular.ahead k n) → n < 2 ^ 31
      → read host posix (suc rounds) k f n result
        ≡ some (d.after, status_ok, of_string (take n (regular.ahead k)))
  unfolding read
  read-Delivered rounds k n result d small =
      let bytes : List ℕ = take n (regular.ahead k) in
      let size : length bytes < 2 ^ 31 = omega (arith, small, length-take n (regular.ahead k)) in
      ap (answered host posix (λ k'. read host posix rounds k' f n result) f result) d.gives
      ∙ ap (λ (x : Slice). some (d.after, status_ok, x)) (of_buffer-of_string bytes size)

  -- On a regular file, a call of `Read` for fewer than 2^31 bytes retries until it is not interrupted:
  -- with more rounds than there are signals to come, it returns an ok status with the next n bytes,
  -- or all that are left, and the file stands behind them.
  pub read_ahead :
      (rounds : ℕ) (k : posix.Kernel) (n : ℕ) (result : Slice)
      → regular.signals k < rounds
      → n < 2 ^ 31
      → (k' : posix.Kernel) × (read host posix rounds k f n result
          ≡ some (k', status_ok, of_string (take n (regular.ahead k))))
        × (regular.ahead k' ≡ drop n (regular.ahead k))
  read_ahead zero k n result few small = absurd (omega (arith, few))
  read_ahead (suc rounds) k n result few small = elim (regular.reads k n small) [
    | inl i ↦
        let (k', run, left) =
          read_ahead rounds i.after n result (omega (arith, few, i.fewer)) small in
        (
          k',
          subst
              (λ xs.
                read host posix (suc rounds) k f n result
                ≡ some (k', status_ok, of_string (take n xs)))
              i.kept (read-Interrupted rounds k n result i ∙ run),
          subst (λ xs. regular.ahead k' ≡ drop n xs) i.kept left,
        )
    | inr d ↦ (d.after, read-Delivered rounds k n result d small, d.moved)
  ]

  -- The file as the reader has it, which takes the bytes of the slice: the rounds of a read are enough.
  abbrev pub answer_of :
      posix.Kernel → Option (posix.Kernel × Status × Slice) → posix.Kernel × Status × List ℕ
  answer_of k none = (k, status_ok, [])
  answer_of k (some (k', status, slice)) = (k', status, take slice.size slice.data_)

  abbrev pub unix_sequential_file : SequentialFile
  unix_sequential_file = record {
    State = posix.Kernel;
    read = λ k n. answer_of k (read host posix (suc (regular.signals k)) k f n (of_string []));
    skip = λ k n. skip host posix k f n;
  }

  pub read_next_block :
      (k : posix.Kernel) (n : ℕ)
      → n ≤ block_size
      → (k' : posix.Kernel) × (unix_sequential_file.read k n
          ≡ (k', status_ok, take n (regular.ahead k)))
        × (regular.ahead k' ≡ drop n (regular.ahead k))
  unfolding of_string
  read_next_block k n within =
      let (k', run, left) =
        read_ahead (suc (regular.signals k)) k n (of_string []) (omega arith)
          (omega (arith, within)) in
      let bytes : List ℕ = take n (regular.ahead k) in
      (
        k',
        ap (answer_of k) run
            ∙ ap (λ (xs : List ℕ). (k', status_ok, xs))
                (take_all (length bytes) bytes (omega arith)),
        left,
      )

  abbrev pub unix_sequential_file-Plain : Plain unix_sequential_file
  unix_sequential_file-Plain = record { remaining = regular.ahead; read_next = read_next_block }
