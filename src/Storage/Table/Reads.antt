-- ===== src/Storage/Table/Reads.antt =====
-- The reads of a table that holds messages, where the log has what its stream took.
use mathlib.Core.Option
use mathlib.Core.List.{append-nil}
use iceberg_db.Prelude.{
  ℕ, zero, suc, ◌+◌, ◌-◌, ◌%◌, ◌^◌, ◌≡◌, ◌<◌, ◌≤◌, refl, ap, sym, ◌∙◌, true, Option, some, List, [],
  ◌∷◌, ◌++◌, inl, inr, length, length-drop, All-drop, get_elem?, arith, subst, Option-cases, take,
  drop, take-append-drop, length-take, map,
}
use iceberg_db.Base.Maps
use iceberg_db.Log.Files.Writes.{Complete}
use iceberg_db.Storage.Segment.Comparators.{string_order}
use iceberg_db.Storage.Disk.{Pread}
use iceberg_db.Storage.Disk.Append.{written}
use iceberg_db.Storage.Disk.Layout.{IsFile}
use iceberg_db.Storage.Table.{Platform, Table}
use iceberg_db.Storage.Table.Find.{Place, c_string, find_loop, reads}
use iceberg_db.Storage.Table.Read.{
  log_path, find_offset_position, get_reader, find_message, batch_from,
}
use iceberg_db.Storage.Table.File.{Short, file_bytes, file_bytes-append, position, get_elem-drop}
use iceberg_db.Storage.Table.Search.{find_loop-found, get_elem-below}
use iceberg_db.Storage.Table.Places.{Before, scan_files-Before}
use iceberg_db.Storage.Table.Invariant.{Holds}

-- The messages behind a place follow those before it.
split_at :
    (ms : List (List ℕ)) (start : ℕ)
    → start ≤ length ms
    → file_bytes 0 ms ≡ file_bytes 0 (take start ms) ++ file_bytes start (drop start ms)
unfolding file_bytes
split_at ms start h =
    let size : 0 + length (take start ms) ≡ start = omega (arith, length-take start ms) in
    ap (file_bytes 0) (sym (take-append-drop start ms))
    ∙ file_bytes-append 0 (take start ms) (drop start ms)
    ∙ ap (λ (n : ℕ). file_bytes 0 (take start ms) ++ file_bytes n (drop start ms)) size

pub drop_at :
    {A : Type 0} (n : ℕ) (xs : List A)
    → n < length xs
    → (x : A) × (get_elem? xs n ≡ some x) × (drop n xs ≡ x ∷ drop (n + 1) xs)
drop_at n [] h = absurd (omega arith)
drop_at zero (x ∷ xs) h = (x, refl, refl)
drop_at (suc n) (x ∷ xs) h =
    let (y, at, rest) = drop_at n xs (omega arith) in
    let next : suc (n + 1) ≡ suc n + 1 = omega arith in
    (y, at, rest ∙ ap (λ (k : ℕ). y ∷ drop k (x ∷ xs)) next)

module _ (env : Platform) (open_file : List ℕ → Option env.Fd) (complete : Complete env.stdio)
    (pread : Pread env.Fd) where
  abbrev TableOf : Type 0
  TableOf = Table env

  abbrev HoldsOf : TableOf → List (List ℕ) → Type 0
  HoldsOf = Holds env open_file complete

  -- The log of a table can be opened, and has what its stream took.
  abbrev pub Readable : TableOf → Type 0
  Readable t =
      (fd : env.Fd) × (open_file (log_path env t t.table_manifest.log_name) ≡ some fd)
      × IsFile pread fd (written env.host env.stdio complete t.wf)

  -- A table that differs in its readers
  abbrev Opened : TableOf → TableOf → Type 0
  Opened t t' = t' ≡ record t { log_reader_map = t'.log_reader_map }

  get_reader-Opened :
      (t : TableOf) (ms : List (List ℕ)) (path : List ℕ) (fd : env.Fd)
      → HoldsOf t ms
      → open_file path ≡ some fd
      → (t' : TableOf) × (get_reader env open_file pread t path ≡ some (t', fd))
        × Opened t t'
        × HoldsOf t' ms
  unfolding get_reader
  get_reader-Opened t ms path fd h opens =
      let OpensOf : List ℕ × env.Fd → Type 0 =
        λ (entry : List ℕ × env.Fd). open_file (entry.0) ≡ some (entry.1) in
      elim (Option-cases (Maps.find string_order path t.log_reader_map)) [
        | inl e ↦ (
          record t { log_reader_map = Maps.insert string_order path fd t.log_reader_map },
          rw (e, opens) refl,
          refl,
          record {
            has_bytes = h.has_bytes;
            at_end = h.at_end;
            counts = h.counts;
            is_open = h.is_open;
            threshold = h.threshold;
            short = h.short;
            indexed = h.indexed;
            in_cache = h.in_cache;
            readers = Maps.All-insert string_order OpensOf path fd t.log_reader_map opens h.readers;
          },
        )
        | inr (fd', e) ↦
            let opens' = Maps.All-find string_order OpensOf path fd' t.log_reader_map h.readers e in
            let same : fd' ≡ fd = cc in (t, rw (e, same) refl, refl, h)
      ]

  find_offset_position-Before :
      (t : TableOf) (ms : List (List ℕ)) (offset : ℕ)
      → HoldsOf t ms
      → 0 < length ms
      → let place = find_offset_position env t offset in
        (place.file ≡ t.table_manifest.log_name) × Before ms offset place.start_offset place.pos
  unfolding find_offset_position position file_bytes
  find_offset_position-Before t ms offset h some_messages =
      let nowhere : Place = record { start_offset = 0; pos = 0; file = [] } in
      elim (h.indexed) [
        | inl (e, none_yet) ↦ let empty : length ms ≡ 0 = ap length e in absurd (omega arith)
        | inr (positions, e, places) ↦ rw e (
            scan_files-Before ms offset t.table_manifest.log_name positions nowhere places
              (refl, omega arith))
      ]

  abbrev place_of : TableOf → ℕ → Place
  place_of = find_offset_position env

  abbrev message_at : TableOf → ℕ → Option (TableOf × Option (List ℕ))
  message_at t offset = find_message env open_file pread t offset (place_of t offset)

  -- The loop from a place before a message of the file
  search-reads :
      (t : TableOf) (ms : List (List ℕ)) (fd : env.Fd) (start pos offset : ℕ) (m : List ℕ)
      → HoldsOf t ms
      → IsFile pread fd (written env.host env.stdio complete t.wf)
      → length (file_bytes 0 ms) < 2 ^ 32
      → length ms < 2 ^ 64
      → get_elem? ms offset ≡ some m
      → Before ms offset start pos
      → find_loop env.host pread fd (offset - start + 1) offset start pos ≡ reads m
  unfolding position
  search-reads t ms fd start pos offset m h file small fits at (same_pos, before) =
      let below = get_elem-below ms offset m at in
      let contents = written env.host env.stdio complete t.wf in
      let same_place : offset ≡ start + (offset - start) = omega arith in
      let splits : contents
          ≡ file_bytes 0 (take start ms) ++ (file_bytes start (drop start ms) ++ []) =
        h.has_bytes
        ∙ split_at ms start (omega arith)
        ∙ ap (λ (bs : List ℕ). file_bytes 0 (take start ms) ++ bs)
            (sym (append-nil (file_bytes start (drop start ms)))) in
      let there : get_elem? (drop start ms) (offset - start) ≡ some m =
        get_elem-drop start (offset - start) ms
        ∙ ap (λ (n : ℕ). get_elem? ms n) (sym same_place)
        ∙ at in
      ap (λ (n : ℕ). find_loop env.host pread fd (offset - start + 1) offset start n) same_pos
      ∙ find_loop-found env.host pread fd contents file (omega (arith, ap length h.has_bytes))
          (file_bytes 0 (take start ms)) (drop start ms) [] m start (offset - start) offset
          (offset - start + 1) splits (omega (arith, length-drop start ms))
          (All-drop Short start ms h.short) there same_place (omega arith)

  -- `FindOffsetPosition` and `FindMessage` together find the message of an offset.
  pub message_at-found :
      (t : TableOf) (ms : List (List ℕ)) (offset : ℕ) (m : List ℕ)
      → HoldsOf t ms
      → Readable t
      → length (file_bytes 0 ms) < 2 ^ 32
      → length ms < 2 ^ 64
      → get_elem? ms offset ≡ some m
      → (t' : TableOf) × (message_at t offset ≡ some (t', some m)) × Opened t t' × HoldsOf t' ms
  unfolding find_message Option.bind
  message_at-found t ms offset m h (fd, opens, file) small fits at =
      let below = get_elem-below ms offset m at in
      let place = place_of t offset in
      let (same_file, before) = find_offset_position-Before t ms offset h (omega arith) in
      let path = log_path env t in
      let (t', got, opened, holds) =
        get_reader-Opened t ms (path place.file) fd h
          (ap (λ (f : List ℕ). open_file (path f)) same_file ∙ opens) in
      let found =
        search-reads t ms fd place.start_offset place.pos offset m h file small fits at before in
      (t', rw (got, found) refl, opened, holds)

  Opened-trans : (t t1 t2 : TableOf) → Opened t t1 → Opened t1 t2 → Opened t t2
  Opened-trans t t1 t2 o p =
      p ∙ ap (λ (x : TableOf). record x { log_reader_map = t2.log_reader_map }) o

  Opened-Readable : (t t' : TableOf) → Opened t t' → Readable t → Readable t'
  unfolding log_path
  Opened-Readable t t' o reads_it = subst Readable (sym o) reads_it

  -- `GetBatchData` of offsets that the table has: their messages, each to its first zero byte
  pub batch_from-messages :
      (t : TableOf) (ms : List (List ℕ)) (start count : ℕ)
      → HoldsOf t ms
      → Readable t
      → length (file_bytes 0 ms) < 2 ^ 32
      → length ms < 2 ^ 64
      → start + count ≤ length ms
      → (t' : TableOf) × (batch_from env open_file pread start count t
          ≡ some (t', map c_string (take count (drop start ms)), true))
        × Opened t t'
        × HoldsOf t' ms
  unfolding batch_from Option.bind
  batch_from-messages t ms start zero h reads_it small fits room = (t, refl, refl, h)
  batch_from-messages t ms start (suc count) h reads_it small fits room =
      let (m, at, others) = drop_at start ms (omega arith) in
      let (t1, found, opened, holds) = message_at-found t ms start m h reads_it small fits at in
      let next : (start + 1) % 2 ^ 64 ≡ start + 1 = omega arith in
      let (t2, rest, opened2, holds2) =
        batch_from-messages t1 ms (start + 1) count holds (Opened-Readable t t1 opened reads_it)
          small fits (omega arith) in
      let shifted = ap (λ (n : ℕ). batch_from env open_file pread n count t1) next ∙ rest in
      (t2, rw (found, shifted, others) refl, Opened-trans t t1 t2 opened opened2, holds2)
