-- ===== src/Log/RoundTrip.antt =====
-- The writer and the reader together: records that are appended, and read again.
use mathlib.Core.List.{append_assoc, append-nil}
use iceberg_db.Prelude.{
  ℕ, zero, suc, ◌+◌, ◌≤◌, ◌<◌, ◌≡◌, refl, sym, ap, ◌∙◌, Bool, true, false, Option, none, some, List,
  [], ◌∷◌, ◌++◌, if◌then◌else◌, length, All, arith, length-append,
}
use iceberg_db.Base.Coding.{Endian, IsByte, le_bytes}
use iceberg_db.Base.Coding.RoundTrip.{encode_fixed32-le_bytes}
use iceberg_db.Base.Status.{Status, status_ok}
use iceberg_db.Log.Format.{RecordType, block_size, WritableFile, SequentialFile}
use iceberg_db.Log.Checksum.{Checksum}
use iceberg_db.Log.Writer.{Writer, header, add_record}
use iceberg_db.Log.Writer
use iceberg_db.Log.Writer.Layout.{
  Fragment, start, padding, next_offset, end_offset, Fits, Fits-append, Fits-behind, Whole, layout,
  layout-append,
}
use iceberg_db.Log.Writer.Emitted.{Faultless, add_record-Emits}
use iceberg_db.Log.Reader.{Reader, Report, Read, read_record}
use iceberg_db.Log.Reader
use iceberg_db.Log.Reader.Blocks.{Plain, AtOffset}
use iceberg_db.Log.Reader.Assembled.{read_record-Whole, read_record_end}

-- Every record of the list is a list of bytes.
abbrev pub AllBytes : List (List ℕ) → Type 0
AllBytes [] = Unit {0}
AllBytes (slice ∷ slices) = All IsByte slice × AllBytes slices

-- The fragments of records, one after the other.
pub data Wholes : List (List ℕ) → List Fragment → Type 0 where
  done : Wholes [] []
  next :
      {slice : List ℕ} {slices : List (List ℕ)} {fs gs : List Fragment}
      → Whole slice fs
      → Wholes slices gs
      → Wholes (slice ∷ slices) (fs ++ gs)

module _ (host : Endian) (sum : Checksum) (file : WritableFile) where
  -- `AddRecord` of each slice in turn, as long as the status is ok.
  unfoldable pub add_records :
      Writer host sum file → List (List ℕ) → Option (Writer host sum file × Status)
  add_records w [] = some (w, status_ok)
  add_records w (slice ∷ slices) = elim (add_record host sum file w slice) [
    | none ↦ none
    | some (w', none) ↦ add_records w' slices
    | some (w', some state) ↦ some (w', some state)
  ]

module _ (host : Endian) (sum : Checksum) (file : WritableFile) (ok : Faultless file) where
  pub add_records-Wholes :
      (w : Writer host sum file) (slices : List (List ℕ))
      → w.block_offset ≤ block_size
      → ok.Ready w.dest
      → AllBytes slices
      → (w' : Writer host sum file) × (fs : List Fragment) × (add_records host sum file w slices
          ≡ some (w', status_ok))
        × Wholes slices fs
        × Fits w.block_offset fs
        × ok.Ready w'.dest
        × (ok.contents w'.dest ≡ ok.contents w.dest ++ layout host sum w.block_offset fs)
  unfolding add_records
  add_records-Wholes w [] h ready k =
      (w, [], refl, done, tt, ready, sym (append-nil (ok.contents w.dest)))
  add_records-Wholes w (slice ∷ slices) h ready k =
      let (w1, fs, e1, done1) = add_record-Emits host sum file ok w slice h ready k.0 in
      let (w2, gs, e2, wholes, fits, ready2, written) =
        add_records-Wholes w1 slices done1.bounded done1.ready k.1 in
      (
        w2,
        fs ++ gs,
        rw (add_records, e1) e2,
        next done1.splits wholes,
        Fits-append w.block_offset fs gs done1.fits (rw done1.offset at fits),
        ready2,
        written
            ∙ ap (λ (bs : List ℕ). bs ++ layout host sum w1.block_offset gs) done1.written
            ∙ append_assoc (ok.contents w.dest) _ _
            ∙ ap (λ (bs : List ℕ). ok.contents w.dest ++ bs)
                (ap (λ (off : ℕ). layout host sum w.block_offset fs ++ layout host sum off gs)
                    done1.offset
                  ∙ sym (layout-append host sum w.block_offset fs gs)),
      )

module _ (host : Endian) (sum : Checksum) (file : SequentialFile) where
  abbrev collect :
      List ℕ
      → Option (Reader host sum file × List (List ℕ))
      → Option (Reader host sum file × List (List ℕ))
  collect slice none = none
  collect slice (some (r, slices)) = some (r, slice ∷ slices)

  -- `ReadRecord` until it returns false: the records that it found.
  unfoldable pub read_records :
      ℕ → ℕ → Reader host sum file → List ℕ → List ℕ → Option (Reader host sum file × List (List ℕ))
  read_records zero fuel r before left = none
  read_records (suc calls) fuel r before left =
      elim (read_record host sum file fuel r before left) [
        | none ↦ none
        | some p ↦
            let others = read_records calls fuel p.reader p.record_bytes p.scratch in
            if p.found then collect p.record_bytes others else some (p.reader, [])
      ]

  found_one :
      (calls fuel : ℕ) (r r' : Reader host sum file) (before left slice left' : List ℕ)
      → read_record host sum file fuel r before left
        ≡ some (record { reader = r'; found = true; record_bytes = slice; scratch = left' })
      → read_records (suc calls) fuel r before left
        ≡ collect slice (read_records calls fuel r' slice left')
  unfolding read_records
  found_one calls fuel r r' before left slice left' e = rw (read_records, e)

  found_none :
      (calls fuel : ℕ) (r r' : Reader host sum file) (before left : List ℕ)
      → read_record host sum file fuel r before left
        ≡ some (record { reader = r'; found = false; record_bytes = []; scratch = [] })
      → read_records (suc calls) fuel r before left ≡ some (r', [])
  unfolding read_records
  found_none calls fuel r r' before left e = rw (read_records, e)

module _ (host : Endian) (sum : Checksum) (file : SequentialFile) (plain : Plain file) where
  read_records-Wholes :
      (fuel off : ℕ) (slices : List (List ℕ)) (fs : List Fragment) (r : Reader host sum file)
      (before left : List ℕ)
      → Wholes slices fs
      → AtOffset host sum file plain off (layout host sum off fs) r
      → Fits off fs
      → length fs < fuel
      → (r' : Reader host sum file) × (read_records host sum file
            (suc (length slices))
            fuel
            r
            before
            left
          ≡ some (r', slices))
        × (r'.reports ≡ r.reports)
  read_records-Wholes zero off slices fs r before left w a fits enough = absurd (omega arith)
  read_records-Wholes (suc fuel) off [] [] r before left done a fits enough =
      let (r', e, quiet) = read_record_end host sum file plain fuel off r before left a in
      (r', found_none host sum file 0 (suc fuel) r r' before left e, quiet)
  read_records-Wholes (suc fuel) off [] (f ∷ fs) r before left w a fits enough = elim w [ ]
  read_records-Wholes (suc fuel) off (slice ∷ slices) all r before left
        (next {fs = fs} {gs} whole w) a fits enough =
      let size : length (fs ++ gs) ≡ length fs + length gs = length-append fs gs in
      let found =
        read_record-Whole host sum file plain (suc fuel) off slice fs gs r before left whole a fits
          (omega (arith, size)) in
      let (r', e, quiet) =
        read_records-Wholes (suc fuel) (end_offset off fs) slices gs found.after slice found.left w
          found.reached (Fits-behind off fs gs fits) (omega (arith, size)) in
      (
        r',
        found_one host sum file (suc (length slices)) (suc fuel) r found.after before left slice
              found.left found.run
            ∙ ap (collect host sum file slice) e,
        quiet ∙ found.silent,
      )

-- A new reader has an empty buffer, as at the end of a block.
layout_at_block_end :
    (host : Endian) (sum : Checksum) (fs : List Fragment)
    → layout host sum block_size fs ≡ layout host sum 0 fs
unfolding start padding
layout_at_block_end host sum [] = refl
layout_at_block_end host sum ((t, p) ∷ fs) = refl

Fits-at_block_end : (fs : List Fragment) → Fits 0 fs → Fits block_size fs
unfolding start
Fits-at_block_end [] h = tt
Fits-at_block_end ((t, p) ∷ fs) h = h

module _ (host : Endian) (sum : Checksum) where
  length-header : (t : RecordType) (p : List ℕ) → 0 < length (header host sum t p)
  unfolding header
  length-header t p = rw encode_fixed32-le_bytes (unfold le_bytes in omega arith)

  length-layout : (off : ℕ) (fs : List Fragment) → length fs ≤ length (layout host sum off fs)
  length-layout off [] = omega arith
  length-layout off ((t, p) ∷ fs) =
      let others = layout host sum (next_offset off p) fs in
      omega (
        arith,
        length-layout (next_offset off p) fs,
        length-append (padding off) (header host sum t p ++ p ++ others),
        length-append (header host sum t p ++ p) others,
        length-append (header host sum t p) p,
        length-header t p,
      )

-- The log file is closed, and opened again for reading.
pub record Reopened (sink : WritableFile) (source : SequentialFile) : Type 1 where
  pub faultless : Faultless sink
  pub plain : Plain source
  pub reopen : sink.State → source.State
  pub same : (s : sink.State) → plain.remaining (reopen s) ≡ faultless.contents s

module _ (host : Endian) (sum : Checksum) (sink : WritableFile) (source : SequentialFile)
    (io : Reopened sink source) where
  abbrev sink_contents : sink.State → List ℕ
  sink_contents = io.faultless.contents

  -- Byte records of any number and length that `AddRecord` appends to a file without faults, which
  -- is ready and empty, all get an ok status. Where the file is then opened for reading from front
  -- to back, a new reader, checking checksums or not, returns the same records in the same order
  -- from its calls of `ReadRecord`, and false behind the last; it reports nothing. A round for
  -- each byte of the file and one more are enough.
  pub read_records-add_records :
      (dest : sink.State) (slices : List (List ℕ)) (has_reporter checksum : Bool)
      → io.faultless.Ready dest
      → sink_contents dest ≡ []
      → AllBytes slices
      → (w : Writer host sum sink) × (r : Reader host sum source) × (add_records host sum sink
            (Writer.new host sum sink dest 0)
            slices
          ≡ some (w, status_ok))
        × (read_records host sum source
              (suc (length slices))
              (suc (length (sink_contents w.dest)))
              (Reader.new host sum source (io.reopen w.dest) has_reporter checksum 0)
              []
              []
            ≡ some (r, slices))
        × (r.reports ≡ [])
  unfolding Writer.new Reader.new
  read_records-add_records dest slices has_reporter checksum ready empty h =
      let (w, fs, e, wholes, fits, ready', written) =
        add_records-Wholes host sum sink io.faultless (Writer.new host sum sink dest 0) slices
          (omega arith) ready h in
      let wrote : sink_contents w.dest ≡ layout host sum 0 fs = rw empty at written in
      let (r, e', quiet) =
        read_records-Wholes host sum source io.plain (suc (length (sink_contents w.dest)))
          block_size slices fs
          (Reader.new host sum source (io.reopen w.dest) has_reporter checksum 0) [] [] wholes
          (record {
            ahead = io.same w.dest ∙ wrote ∙ sym (layout_at_block_end host sum fs);
            in_block = omega arith;
            whole_block = λ more. refl;
            at_end = λ end. absurd (ground arith);
            from_start = refl;
            in_sync = refl;
          })
          (Fits-at_block_end fs fits) (rw wrote (omega (arith, length-layout host sum 0 fs))) in
      (w, r, e, e', quiet)
