-- ===== src/Log/Reader/Assembled.antt =====
-- `ReadRecord` on a stream that holds the layout of fragments.
use mathlib.Core.List.{append_assoc}
use iceberg_db.Prelude.{
  ℕ, zero, suc, ◌≤◌, ◌≡◌, refl, sym, ap, ◌∙◌, true, false, Option, some, List, [], ◌∷◌, ◌++◌, ltb,
  length, arith,
}
use iceberg_db.Base.Coding.{Endian}
use iceberg_db.Log.Format.{RecordType, type_number, header_size, SequentialFile}
use iceberg_db.Log.Checksum.{Checksum}
use iceberg_db.Log.Writer.Layout.{Fragment, next_offset, end_offset, Fits, Tail, Whole, layout}
use iceberg_db.Log.Reader.{
  Reader, Physical, Read, Scan, Next, returns, report_partial, switch_type, scan_round,
  read_physical_record, read_loop, read_record, eof_record, sub64,
}
use iceberg_db.Log.Reader.Blocks.{Plain, AtOffset, Quiet}
use iceberg_db.Log.Reader.Rounds.{read_fragment, read_end}

module _ (host : Endian) (sum : Checksum) (file : SequentialFile) where
  abbrev physical_at : Physical host sum file → ℕ
  physical_at p =
      sub64 (sub64 (sub64 p.reader.end_of_buffer_offset (length p.reader.buffer)) header_size)
        (length p.fragment)

  round_returns :
      (fuel : ℕ) (s : Scan host sum file) (p : Physical host sum file) (result : Read host sum file)
      → read_physical_record host sum file s.reader s.fragment ≡ some p
      → scan_round host sum file s p ≡ Next.return result
      → read_loop host sum file (suc fuel) s ≡ some result
  unfolding read_loop
  round_returns fuel s p result e k = rw (read_loop, e, k)

  round_continues :
      (fuel : ℕ) (s s' : Scan host sum file) (p : Physical host sum file)
      → read_physical_record host sum file s.reader s.fragment ≡ some p
      → scan_round host sum file s p ≡ Next.continue s'
      → read_loop host sum file (suc fuel) s ≡ read_loop host sum file fuel s'
  unfolding read_loop
  round_continues fuel s s' p e k = rw (read_loop, e, k)

  scan_full :
      (s : Scan host sum file) (r : Reader host sum file) (bytes : List ℕ)
      → r.resyncing ≡ false
      → s.in_fragmented_record ≡ false
      → let p = returns host sum file r (type_number RecordType.full_type) bytes in
        scan_round host sum file s p
        ≡ Next.return (record {
          reader = record r { last_record_offset = physical_at p };
          found = true;
          record_bytes = bytes;
          scratch = [];
        })
  unfolding scan_round switch_type report_partial type_number
  scan_full s r bytes sync outside = rw (sync, outside)

  scan_first :
      (s : Scan host sum file) (r : Reader host sum file) (bytes : List ℕ)
      → r.resyncing ≡ false
      → s.in_fragmented_record ≡ false
      → let p = returns host sum file r (type_number RecordType.first_type) bytes in
        scan_round host sum file s p
        ≡ Next.continue (record {
          reader = r;
          scratch = bytes;
          in_fragmented_record = true;
          prospective_record_offset = physical_at p;
          fragment = bytes;
        })
  unfolding scan_round switch_type report_partial type_number
  scan_first s r bytes sync outside = rw (sync, outside)

  scan_middle :
      (s : Scan host sum file) (r : Reader host sum file) (bytes : List ℕ)
      → r.resyncing ≡ false
      → s.in_fragmented_record ≡ true
      → scan_round host sum file s
          (returns host sum file r (type_number RecordType.middle_type) bytes)
        ≡ Next.continue (record s { reader = r; fragment = bytes; scratch = s.scratch ++ bytes })
  unfolding scan_round switch_type type_number
  scan_middle s r bytes sync inside = rw (sync, inside)

  scan_last :
      (s : Scan host sum file) (r : Reader host sum file) (bytes : List ℕ)
      → r.resyncing ≡ false
      → s.in_fragmented_record ≡ true
      → scan_round host sum file s
          (returns host sum file r (type_number RecordType.last_type) bytes)
        ≡ Next.return (record {
          reader = record r { last_record_offset = s.prospective_record_offset };
          found = true;
          record_bytes = s.scratch ++ bytes;
          scratch = s.scratch ++ bytes;
        })
  unfolding scan_round switch_type type_number
  scan_last s r bytes sync inside = rw (sync, inside)

module _ (host : Endian) (sum : Checksum) (file : SequentialFile) (plain : Plain file) where
  abbrev pub At : ℕ → List ℕ → Reader host sum file → Type 0
  At = AtOffset host sum file plain

  -- A run that returns `bytes`, with `rest` still to read and nothing reported.
  pub record Finds (off : ℕ) (rest bytes : List ℕ) (r : Reader host sum file)
      (result : Option (Read host sum file)) : Type 0 where
    pub after : Reader host sum file
    pub left : List ℕ
    pub run :
        result
        ≡ some (record { reader = after; found = true; record_bytes = bytes; scratch = left })
    pub reached : At off rest after
    pub silent : Quiet host sum file plain r after

  moved :
      (off n : ℕ) (rest : List ℕ) (r : Reader host sum file)
      → At off rest r
      → At off rest (record r { last_record_offset = n })
  moved off n rest r a = record {
    ahead = a.ahead;
    in_block = a.in_block;
    whole_block = a.whole_block;
    at_end = a.at_end;
    from_start = a.from_start;
    in_sync = a.in_sync;
  }

  earlier :
      {off : ℕ} {rest bytes bytes' : List ℕ} {r r' : Reader host sum file}
      {result result' : Option (Read host sum file)}
      → result' ≡ result
      → bytes ≡ bytes'
      → Quiet host sum file plain r' r
      → Finds off rest bytes r result
      → Finds off rest bytes' r' result'
  earlier e same quiet found = record {
    after = found.after;
    left = found.left;
    run = e ∙ rw same at found.run;
    reached = found.reached;
    silent = found.silent ∙ quiet;
  }

  read_loop-Tail :
      (fuel off : ℕ) (bytes : List ℕ) (fs gs : List Fragment) (s : Scan host sum file)
      → Tail bytes fs
      → At off (layout host sum off (fs ++ gs)) s.reader
      → Fits off (fs ++ gs)
      → s.in_fragmented_record ≡ true
      → length fs ≤ fuel
      → Finds
          (end_offset off fs)
          (layout host sum (end_offset off fs) gs)
          (s.scratch ++ bytes)
          s.reader
          (read_loop host sum file fuel s)
  unfolding type_number
  read_loop-Tail zero off bytes fs gs s (Tail.last {p}) a fits inside enough = absurd (omega arith)
  read_loop-Tail zero off bytes fs gs s (Tail.middle e t) a fits inside enough =
      absurd (omega arith)
  read_loop-Tail (suc fuel) off bytes fs gs s (Tail.last {p}) a fits inside enough =
      let (r, e, a', quiet) =
        read_fragment host sum file plain off RecordType.last_type bytes gs s.fragment s.reader a
          fits (omega arith) in
      record {
        after = record r { last_record_offset = s.prospective_record_offset };
        left = s.scratch ++ bytes;
        run =
            round_returns host sum file fuel s _ _ e
              (scan_last host sum file s r bytes a'.in_sync inside);
        reached = moved _ s.prospective_record_offset _ r a';
        silent = quiet;
      }
  read_loop-Tail (suc fuel) off bytes ((t0, p0) ∷ fs) gs s (Tail.middle {p = p} {rest} cut t) a fits
        inside enough =
      let (r, e, a', quiet) =
        read_fragment host sum file plain off RecordType.middle_type p (fs ++ gs) s.fragment
          s.reader a fits (omega arith) in
      let s' : Scan host sum file = record s {
        reader = r;
        fragment = p;
        scratch = s.scratch ++ p;
      } in
      earlier
        (round_continues host sum file fuel s s' _ e
          (scan_middle host sum file s r p a'.in_sync inside))
        (append_assoc s.scratch p rest ∙ ap (λ (bs : List ℕ). s.scratch ++ bs) (sym cut)) quiet
        (read_loop-Tail fuel (next_offset off p) rest fs gs s' t a' fits.2 inside (omega arith))

  abbrev start_scan : Reader host sum file → Scan host sum file
  start_scan r = record {
    reader = r;
    scratch = [];
    in_fragmented_record = false;
    prospective_record_offset = 0;
    fragment = [];
  }

  read_loop-Whole :
      (fuel off : ℕ) (bytes : List ℕ) (fs gs : List Fragment) (r : Reader host sum file)
      → Whole bytes fs
      → At off (layout host sum off (fs ++ gs)) r
      → Fits off (fs ++ gs)
      → length fs ≤ fuel
      → Finds
          (end_offset off fs)
          (layout host sum (end_offset off fs) gs)
          bytes
          r
          (read_loop host sum file fuel (start_scan r))
  unfolding type_number
  read_loop-Whole zero off bytes fs gs r (Whole.full {p}) a fits enough = absurd (omega arith)
  read_loop-Whole zero off bytes fs gs r (Whole.first e t) a fits enough = absurd (omega arith)
  read_loop-Whole (suc fuel) off bytes fs gs r (Whole.full {p}) a fits enough =
      let (r', e, a', quiet) =
        read_fragment host sum file plain off RecordType.full_type bytes gs [] r a fits
          (omega arith) in
      record {
        after = _;
        left = [];
        run =
            round_returns host sum file fuel (start_scan r) _ _ e
              (scan_full host sum file (start_scan r) r' bytes a'.in_sync refl);
        reached = moved _ _ _ r' a';
        silent = quiet;
      }
  read_loop-Whole (suc fuel) off bytes ((t0, p0) ∷ fs) gs r (Whole.first {p = p} {rest} cut t) a
        fits enough =
      let (r', e, a', quiet) =
        read_fragment host sum file plain off RecordType.first_type p (fs ++ gs) [] r a fits
          (omega arith) in
      earlier
        (round_continues host sum file fuel (start_scan r) _ _ e
          (scan_first host sum file (start_scan r) r' p a'.in_sync refl))
        (sym cut) quiet
        (read_loop-Tail fuel (next_offset off p) rest fs gs _ t a' fits.2 refl (omega arith))

  started :
      (fuel : ℕ) (r : Reader host sum file) (before left : List ℕ)
      → r.initial_offset ≡ 0
      → read_record host sum file fuel r before left ≡ read_loop host sum file fuel (start_scan r)
  unfolding read_record
  started fuel r before left e =
      let fresh : ltb r.last_record_offset r.initial_offset ≡ false = ground arith in rw fresh

  -- On a file that is read from front to back, where the fragments of a whole record follow in the
  -- stream, `ReadRecord` with as many rounds as there are fragments returns true and the record,
  -- reports nothing, and stands behind them, before the fragments that follow.
  pub read_record-Whole :
      (fuel off : ℕ) (bytes : List ℕ) (fs gs : List Fragment) (r : Reader host sum file)
      (before left : List ℕ)
      → Whole bytes fs
      → At off (layout host sum off (fs ++ gs)) r
      → Fits off (fs ++ gs)
      → length fs ≤ fuel
      → Finds
          (end_offset off fs)
          (layout host sum (end_offset off fs) gs)
          bytes
          r
          (read_record host sum file fuel r before left)
  read_record-Whole fuel off bytes fs gs r before left w a fits enough =
      rw (started fuel r before left a.from_start)
        (read_loop-Whole fuel off bytes fs gs r w a fits enough)

  scan_eof :
      (s : Scan host sum file) (r : Reader host sum file)
      → r.resyncing ≡ false
      → s.in_fragmented_record ≡ false
      → scan_round host sum file s (returns host sum file r eof_record s.fragment)
        ≡ Next.return (record { reader = r; found = false; record_bytes = []; scratch = s.scratch })
  unfolding scan_round switch_type
  scan_eof s r sync outside = rw (sync, outside)

  -- At the end of the stream `ReadRecord` returns false, and nothing is reported.
  pub read_record_end :
      (fuel off : ℕ) (r : Reader host sum file) (before left : List ℕ)
      → At off [] r
      → (r' : Reader host sum file) × (read_record host sum file (suc fuel) r before left
          ≡ some (record { reader = r'; found = false; record_bytes = []; scratch = [] }))
        × Quiet host sum file plain r r'
  read_record_end fuel off r before left a =
      let (r', e, quiet, sync) = read_end host sum file plain off [] r a in
      (
        r',
        started (suc fuel) r before left a.from_start
            ∙ round_returns host sum file fuel (start_scan r) _ _ e
                (scan_eof (start_scan r) r' sync refl),
        quiet,
      )
