-- ===== src/Log/Files/Writes.antt =====
-- `UnixWritableFile` on a stdio that writes all it is given, as the file of a log.
use iceberg_db.Prelude.{
  ℕ, ◌+◌, ◌%◌, ◌^◌, ◌≡◌, ◌≤◌, refl, true, Option, none, some, List, [], ◌++◌, length, All, arith,
}
use iceberg_db.Base.Coding.{Endian, IsByte}
use iceberg_db.Base.Status.{status_ok}
use iceberg_db.Log.Checksum.{Checksum}
use iceberg_db.Log.Writer.{Writer, add_record}
use iceberg_db.Log.Writer.Emitted.{Faultless, add_record-Emits}
use iceberg_db.Log.Writer.Layout.{Fragment, Whole, Fits, layout}
use iceberg_db.Log.Format.{block_size}
use iceberg_db.Log.Files.{Stdio, UnixWritableFile, append, flush, unix_writable_file}

-- A stdio on which every write is complete and every flush succeeds: `written` is what a stream took.
pub record Complete (stdio : Stdio) : Type 0 where
  pub written : stdio.Stream → List ℕ
  pub writes_all :
      (s : stdio.Stream) (bytes : List ℕ)
      → ((stdio.fwrite s bytes).1 ≡ length bytes)
        × (written (stdio.fwrite s bytes).0 ≡ written s ++ bytes)
  pub flushes :
      (s : stdio.Stream) → ((stdio.fflush s).1 ≡ true) × (written (stdio.fflush s).0 ≡ written s)

module _ (host : Endian) (stdio : Stdio) (complete : Complete stdio) where
  abbrev pub IsOpen : UnixWritableFile host stdio → Type 0
  IsOpen f = (s : stdio.Stream) × (f.filestream ≡ some s)

  abbrev pub taken : Option stdio.Stream → List ℕ
  taken none = []
  taken (some s) = complete.written s

  pub append-taken :
      (f : UnixWritableFile host stdio) (bytes : List ℕ)
      → IsOpen f
      → (f' : UnixWritableFile host stdio) × (append host stdio f bytes ≡ some (f', status_ok))
        × (taken f'.filestream ≡ taken f.filestream ++ bytes)
        × IsOpen f'
  unfolding append
  append-taken f bytes (s, e) =
      let (count, took) = complete.writes_all s bytes in
      let (s', r) = stdio.fwrite s bytes in
      (
        record f { filestream = some s'; filesize = (f.filesize + r) % 2 ^ 64 },
        rw e (ground arith),
        rw e took,
        (s', refl),
      )

  pub flush-taken :
      (f : UnixWritableFile host stdio)
      → IsOpen f
      → (f' : UnixWritableFile host stdio) × (flush host stdio f ≡ some (f', status_ok))
        × (taken f'.filestream ≡ taken f.filestream)
        × IsOpen f'
  unfolding flush
  flush-taken f (s, e) =
      let (done, kept) = complete.flushes s in
      let (s', b) = stdio.fflush s in
      (record f { filestream = some s' }, rw (e, done), rw e kept, (s', refl))

  unfoldable pub unix_writable_file-Faultless : Faultless (unix_writable_file host stdio)
  unix_writable_file-Faultless = record {
    Ready = IsOpen;
    contents = λ f. taken f.filestream;
    appended = append-taken;
    flushed = flush-taken;
  }

  -- Where stdio writes all that it is given and flushes, `AddRecord` on an open `UnixWritableFile` from
  -- an offset within the block ends with an ok status, and the stream took the layout of fragments
  -- that make up the record, behind what it had taken before; the file is still open.
  pub add_record-taken :
      (sum : Checksum) (w : Writer host sum (unix_writable_file host stdio)) (slice : List ℕ)
      → w.block_offset ≤ block_size
      → IsOpen w.dest
      → All IsByte slice
      → (w' : Writer host sum (unix_writable_file host stdio)) × (fs : List Fragment) × (add_record
            host sum
            (unix_writable_file host stdio)
            w
            slice
          ≡ some (w', status_ok))
        × Whole slice fs
        × Fits w.block_offset fs
        × (taken w'.dest.filestream ≡ taken w.dest.filestream ++ layout host sum w.block_offset fs)
        × IsOpen w'.dest
  unfolding unix_writable_file-Faultless
  add_record-taken sum w slice h ready k =
      let (w', fs, e, done) =
        add_record-Emits host sum (unix_writable_file host stdio) unix_writable_file-Faultless w
          slice h ready k in
      (w', fs, e, done.splits, done.fits, done.written, done.ready)
