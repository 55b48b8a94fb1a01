-- ===== src/Log/Files/Failing.antt =====
-- `UnixWritableFile` on a stdio that may fail in any call.
use iceberg_db.Prelude.{
  ℕ, ◌+◌, ◌%◌, ◌^◌, ◌≡◌, ◌≤◌, refl, ◌∙◌, true, false, none, some, List, ltb, arith, inl, inr,
  Bool-cases,
}
use iceberg_db.Base.Coding.{Endian}
use iceberg_db.Base.Status.{Status, status_ok, is_ok}
use iceberg_db.Base.Status
use iceberg_db.Log.Format.{block_size}
use iceberg_db.Log.Checksum.{Checksum}
use iceberg_db.Log.Writer.{Writer, add_record}
use iceberg_db.Log.Writer.Total.{Responsive, add_record_returns}
use iceberg_db.Log.Files.{Stdio, UnixWritableFile, append, flush, io_error, unix_writable_file}

module _ (host : Endian) (stdio : Stdio) where
  abbrev pub HasStream : UnixWritableFile host stdio → Type 0
  HasStream f = (s : stdio.Stream) × (f.filestream ≡ some s)

  append-ok :
      (f : UnixWritableFile host stdio) (bytes : List ℕ)
      → HasStream f
      → (f' : UnixWritableFile host stdio) × (append host stdio f bytes ≡ some (f', status_ok))
        × HasStream f'
  unfolding append
  append-ok f bytes (s, e) =
      let (s', r) = stdio.fwrite s bytes in
      let never : ltb r 0 ≡ false = ground arith in
      (
        record f { filestream = some s'; filesize = (f.filesize + r) % 2 ^ 64 },
        rw (e, never),
        (s', refl),
      )

  flush_returns :
      (f : UnixWritableFile host stdio)
      → HasStream f
      → (f' : UnixWritableFile host stdio) × (status : Status) × (flush host stdio f
          ≡ some (f', status))
        × (is_ok status ≡ true → HasStream f')
        × (((s : stdio.Stream) → (stdio.fflush s).1 ≡ true) → status ≡ status_ok)
  unfolding flush io_error Status.new
  flush_returns f (s, e) = elim (Bool-cases (stdio.fflush s).1) [
    | inl done ↦ (
      record f { filestream = some (stdio.fflush s).0 },
      status_ok,
      rw (e, done),
      λ fine. ((stdio.fflush s).0, refl),
      λ good. refl,
    )
    | inr failed ↦ (
      record f { filestream = none },
      io_error host f.filename (stdio.error_text (stdio.fflush s).0),
      rw (e, failed),
      λ fine. absurd (ground arith),
      λ good. absurd (ground (arith, good s)),
    )
  ]

  any_stdio : Responsive (unix_writable_file host stdio)
  any_stdio = record {
    Ready = HasStream;
    Allowed = λ status. Unit {0};
    appends = λ f bytes ready.
        let (f', e, ready') = append-ok f bytes ready in (f', status_ok, e, tt, ready');
    flushes = λ f ready.
        let (f', status, e, after, good) = flush_returns f ready in (f', status, e, tt, after);
  }

  flushing_stdio :
      ((s : stdio.Stream) → (stdio.fflush s).1 ≡ true) → Responsive (unix_writable_file host stdio)
  flushing_stdio always = record {
    Ready = HasStream;
    Allowed = λ status. status ≡ status_ok;
    appends = λ f bytes ready.
        let (f', e, ready') = append-ok f bytes ready in (f', status_ok, e, refl, ready');
    flushes = λ f ready.
        let (f', status, e, after, good) = flush_returns f ready in
        (f', status, e, good always, after);
  }

  module _ (sum : Checksum) where
    -- On any stdio, `AddRecord` on an open `UnixWritableFile` from an offset within the block returns,
    -- without a use of the null stream that a failed flush leaves; it stays within the block, and
    -- where its status is ok the file is still open.
    pub add_record_on_stdio :
        (w : Writer host sum (unix_writable_file host stdio)) (slice : List ℕ)
        → w.block_offset ≤ block_size
        → HasStream w.dest
        → (w' : Writer host sum (unix_writable_file host stdio)) × (status : Status) × (add_record
              host sum
              (unix_writable_file host stdio)
              w
              slice
            ≡ some (w', status))
          × (w'.block_offset ≤ block_size)
          × (is_ok status ≡ true → HasStream w'.dest)
    unfolding any_stdio
    add_record_on_stdio w slice h ready =
        let (w', status, e, bounded, a, after) =
          add_record_returns host sum (unix_writable_file host stdio) any_stdio w slice h ready in
        (w', status, e, bounded, after)

    -- Where every flush succeeds, `AddRecord` on an open `UnixWritableFile` from an offset within the
    -- block ends with an ok status, however few of the bytes `fwrite` writes.
    pub add_record_hides_short_writes :
        (w : Writer host sum (unix_writable_file host stdio)) (slice : List ℕ)
        → ((s : stdio.Stream) → (stdio.fflush s).1 ≡ true)
        → w.block_offset ≤ block_size
        → HasStream w.dest
        → (w' : Writer host sum (unix_writable_file host stdio)) × (add_record host sum
              (unix_writable_file host stdio)
              w
              slice
            ≡ some (w', status_ok))
    unfolding flushing_stdio
    add_record_hides_short_writes w slice always h ready =
        let (w', status, e, bounded, a, after) =
          add_record_returns host sum (unix_writable_file host stdio) (flushing_stdio always) w
            slice h ready in
        (w', e ∙ rw a refl)
