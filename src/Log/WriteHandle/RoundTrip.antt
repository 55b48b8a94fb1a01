-- ===== src/Log/WriteHandle/RoundTrip.antt =====
-- Records that a `WriteHandle` writes, synced, and read again.
use mathlib.Core.Option
use iceberg_db.Prelude.{
  some-injective, ℕ, suc, ◌≡◌, refl, ap, sym, ◌∙◌, Bool, true, Option, none, some, List, [], ◌∷◌,
  length, subst, arith,
}
use iceberg_db.Base.Coding.{Endian}
use iceberg_db.Base.Status.{Status, status_ok}
use iceberg_db.Log.Checksum.{Checksum}
use iceberg_db.Log.Files.{Stdio, UnixWritableFile, unix_writable_file}
use iceberg_db.Log.Files
use iceberg_db.Log.Files.Writes.{Complete, IsOpen, taken, unix_writable_file-Faultless}
use iceberg_db.Log.Format.{SequentialFile}
use iceberg_db.Log.Reader.{Reader}
use iceberg_db.Log.Reader
use iceberg_db.Log.Reader.Blocks.{Plain}
use iceberg_db.Log.RoundTrip.{
  AllBytes, add_records, add_records-Wholes, read_records, Reopened, read_records-add_records,
}
use iceberg_db.Log.Writer.{Writer, add_record}
use iceberg_db.Log.Writer
use iceberg_db.Log.WriteHandle.{WriteHandle, write, sync}
use iceberg_db.Log.WriteHandle

module _ (host : Endian) (sum : Checksum) (stdio : Stdio) where
  abbrev HandleOf : Type 0
  HandleOf = WriteHandle host sum stdio

  abbrev WriterOf : Type 0
  WriterOf = Writer host sum (unix_writable_file host stdio)

  -- `Write` of records, one after the other, up to the first status that is not ok
  unfoldable pub write_all : HandleOf → List (List ℕ) → Option (HandleOf × Status)
  write_all h [] = some (h, status_ok)
  write_all h (slice ∷ slices) = elim (write host sum stdio h slice) [
    | none ↦ none
    | some (h', none) ↦ write_all h' slices
    | some (h', some state) ↦ some (h', some state)
  ]

  abbrev into : HandleOf → WriterOf × Status → HandleOf × Status
  into h (w, s) = (record h { writer = w }, s)

  write_rest :
      (h : HandleOf) (slices : List (List ℕ)) (r : Option (WriterOf × Status))
      → ((w : WriterOf)
          → write_all (record h { writer = w }) slices
            ≡ Option.map (into h) (add_records host sum (unix_writable_file host stdio) w slices))
      → (elim (Option.map (into h) r) [
        | none ↦ none
        | some (h', none) ↦ write_all h' slices
        | some (h', some state) ↦ some (h', some state)
      ])
        ≡ Option.map (into h) (elim r [
          | none ↦ none
          | some (w', none) ↦ add_records host sum (unix_writable_file host stdio) w' slices
          | some (w', some state) ↦ some (w', some state)
        ])
  write_rest h slices none rest = refl
  write_rest h slices (some (w, none)) rest = rest w
  write_rest h slices (some (w, some state)) rest = refl

  -- The handle adds the records as its writer does.
  write_all-add_records :
      (h : HandleOf) (slices : List (List ℕ))
      → write_all h slices
        ≡ Option.map (into h) (add_records host sum (unix_writable_file host stdio) h.writer slices)
  unfolding write_all write add_records
  write_all-add_records h [] = refl
  write_all-add_records h (slice ∷ slices) =
      write_rest h slices (add_record host sum (unix_writable_file host stdio) h.writer slice)
        (λ w. write_all-add_records (record h { writer = w }) slices)

module _ (host : Endian) (sum : Checksum) (stdio : Stdio) (complete : Complete stdio)
    (syncs : (s : stdio.Stream)
      → ((stdio.fsync s).1 ≡ true) × (complete.written (stdio.fsync s).0 ≡ complete.written s))
    (source : SequentialFile) (plain : Plain source)
    (reopen : UnixWritableFile host stdio → source.State)
    (same : (f : UnixWritableFile host stdio)
      → plain.remaining (reopen f) ≡ taken host stdio complete f.filestream) where
  synced_stream : Option stdio.Stream → Option stdio.Stream
  synced_stream none = none
  synced_stream (some s) = some (stdio.fsync (stdio.fflush s).0).0

  synced_stream-taken :
      (s : Option stdio.Stream)
      → taken host stdio complete (synced_stream s) ≡ taken host stdio complete s
  unfolding synced_stream
  synced_stream-taken none = refl
  synced_stream-taken (some s) = (syncs (stdio.fflush s).0).1 ∙ (complete.flushes s).1

  abbrev synced : UnixWritableFile host stdio → UnixWritableFile host stdio
  synced f = record f { filestream = synced_stream f.filestream }

  log_file : Reopened (unix_writable_file host stdio) source
  unfolding unix_writable_file-Faultless
  log_file = record {
    faultless = unix_writable_file-Faultless host stdio complete;
    plain = plain;
    reopen = λ f. reopen (synced f);
    same = λ f. same (synced f) ∙ synced_stream-taken f.filestream;
  }

  sync-synced :
      (h : WriteHandle host sum stdio)
      → IsOpen host stdio complete h.writer.dest
      → sync host sum stdio h
        ≡ some (record h { writer = record (h.writer) { dest = synced h.writer.dest } }, status_ok)
  unfolding sync Files.sync synced_stream
  sync-synced h (s, e) =
      let (flushed, kept) = complete.flushes s in
      let (done, kept_too) = syncs (stdio.fflush s).0 in rw (e, flushed, done) refl

  -- Where stdio does all that it is asked for, a new `WriteHandle` on a stream that has taken nothing
  -- writes any byte records, and syncs, each with an ok status. Where the file is then opened for
  -- reading from front to back, with the bytes that its stream took, a new reader, checking
  -- checksums or not, returns the same records in the same order from its calls of `ReadRecord`,
  -- and false behind the last; it reports nothing. A round for each byte of the file and one more
  -- are enough.
  pub write_all-read_records :
      (filename : List ℕ) (stream : stdio.Stream) (slices : List (List ℕ))
      (has_reporter checksum : Bool)
      → complete.written stream ≡ []
      → AllBytes slices
      → (h : WriteHandle host sum stdio) × (h' : WriteHandle host sum stdio) × (r : Reader host sum
          source)
        × (write_all host sum stdio (WriteHandle.new host sum stdio filename (some stream) 0) slices
            ≡ some (h, status_ok))
        × (sync host sum stdio h ≡ some (h', status_ok))
        × (read_records host sum source
              (suc (length slices))
              (suc (length (taken host stdio complete h.writer.dest.filestream)))
              (Reader.new host sum source (reopen h'.writer.dest) has_reporter checksum 0)
              []
              []
            ≡ some (r, slices))
        × (r.reports ≡ [])
  unfolding log_file unix_writable_file-Faultless WriteHandle.new Writer.new
  write_all-read_records filename stream slices has_reporter checksum fresh bytes =
      let h0 = WriteHandle.new host sum stdio filename (some stream) 0 in
      let dest : UnixWritableFile host stdio = record {
        filename = filename;
        filestream = some stream;
        filesize = 0;
      } in
      let (w, r, adds, reads_back, quiet) =
        read_records-add_records host sum (unix_writable_file host stdio) source log_file dest
          slices has_reporter checksum (stream, refl) fresh bytes in
      let (w1, fs, adds1, wholes, fits, ready, written) =
        add_records-Wholes host sum (unix_writable_file host stdio)
          (unix_writable_file-Faultless host stdio complete) h0.writer slices (omega arith)
          (stream, refl) bytes in
      let same_writer : w1 ≡ w =
        ap (λ (p : Writer host sum (unix_writable_file host stdio) × Status). p.0)
          (some-injective (sym adds1 ∙ adds)) in
      let ready_too : IsOpen host stdio complete w.dest =
        subst
          (λ (x : Writer host sum (unix_writable_file host stdio)).
            IsOpen host stdio complete x.dest)
          same_writer ready in
      let h : WriteHandle host sum stdio = record { filename = filename; writer = w } in
      (
        h,
        record h { writer = record w { dest = synced w.dest } },
        r,
        write_all-add_records host sum stdio h0 slices
            ∙ ap (Option.map (into host sum stdio h0)) adds,
        sync-synced h ready_too,
        reads_back,
        quiet,
      )
