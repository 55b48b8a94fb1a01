-- ===== src/Storage/Table/Read.antt =====
-- ibdb/src/storage/table.h: what a table reads from its index and from its log.
use mathlib.Core.Option
use iceberg_db.Prelude.{
  ℕ, zero, suc, ◌+◌, ◌-◌, ◌^◌, ◌%◌, Bool, true, false, Option, none, some, List, [], ◌∷◌, ◌++◌,
  codes, get_elem?,
}
use iceberg_db.Base.Cache
use iceberg_db.Base.Maps
use iceberg_db.Base.Utils.{split_string}
use iceberg_db.Storage.Segment
use iceberg_db.Storage.Segment.Comparators.{string_order, time_stamp_comparator}
use iceberg_db.Storage.Disk.{Pread}
use iceberg_db.Storage.Table.{Platform, Table}
use iceberg_db.Storage.Table.Find.{Place, scan_files, c_string, find_loop, search_result}

module _ (env : Platform) where
  abbrev pub TableOf : Type 0
  TableOf = Table env

  -- `bool FindOffsetPosition(...)`: it returns true, with this place.
  unfoldable pub find_offset_position : TableOf → ℕ → Place
  find_offset_position t offset =
      scan_files offset t.offset_pos_map (record { start_offset = 0; pos = 0; file = [] })

  unfoldable pub log_path : TableOf → List ℕ → List ℕ
  log_path t file =
      env.flags.db_root ++ (codes "/" ++ (t.table_manifest.name ++ (codes "/log/" ++ file)))

  -- What is read from files, at the time of a call: the handles that can be opened, and `pread`
  module _ (open_file : List ℕ → Option env.Fd) (pread : Pread env.Fd) where
    -- The first part of `FindMessage`: the reader of the log file, opened where it has none.
    abbrev pub opened : TableOf → List ℕ → Option env.Fd → Option (TableOf × env.Fd)
    opened t path (some fd) = some (t, fd)
    opened t path none =
        Option.map
          (λ (fd : env.Fd).
            (record t { log_reader_map = Maps.insert string_order path fd t.log_reader_map }, fd))
          (open_file path)

    unfoldable pub get_reader : TableOf → List ℕ → Option (TableOf × env.Fd)
    get_reader t path = opened t path (Maps.find string_order path t.log_reader_map)

    -- `bool FindMessage(...)`: `some none` is false, and a message is what the result is set to. There
    -- is a round for each offset from the start to the one that is looked for.
    unfoldable pub find_message : TableOf → ℕ → Place → Option (TableOf × Option (List ℕ))
    find_message t offset place = Option.bind (get_reader t (log_path t place.file)) (λ reader.
        let (t', fd) = reader in
        Option.map (λ (message : Option (List ℕ)). (t', message))
          (search_result (
            find_loop env.host pread fd (offset - place.start_offset + 1) offset place.start_offset
              place.pos)))

    -- `Get` with the message that was found
    abbrev pub remember : ℕ → TableOf × Option (List ℕ) → TableOf × Option (List ℕ)
    remember offset (t, none) = (t, none)
    remember offset (t, some message) =
        let text = c_string message in
        (
          record t {
            offset_message = Cache.insert time_stamp_comparator t.offset_message offset text;
          },
          some text,
        )

    -- `Get` with the message that the cache has
    abbrev pub cached : TableOf → ℕ → Option (List ℕ) → Option (TableOf × Option (List ℕ))
    cached t offset (some message) = some (t, some message)
    cached t offset none =
        Option.map (remember offset) (find_message t offset (find_offset_position t offset))

    -- `Get` with the offset that the index has
    abbrev pub get_at : TableOf → Option ℕ → Option (TableOf × Option (List ℕ))
    get_at t none = some (t, none)
    get_at t (some offset) =
        cached t offset (Cache.find time_stamp_comparator t.offset_message offset)

    -- `bool Get(std::string& statement, std::string& message)`: the message for true, `none` for
    -- false. A time stamp that cannot be read is 0.
    unfoldable pub get : TableOf → List ℕ → Option (TableOf × Option (List ℕ))
    get t statement =
        let result = split_string env.split statement (codes " ") in
        Option.bind (get_elem? result 2) (λ key. Option.bind (get_elem? result 3) (λ value.
          Option.bind (get_elem? result 4) (λ text.
            let timestamp = Maps.or_else (env.lexical_cast text) 0 in
            Option.bind
              (Segment.get_offset env.slices time_stamp_comparator env.memory t.segment_index key
                timestamp value)
              (get_at t))))

    -- A round of `GetBatchData` with the message that was found, before the rounds that follow
    abbrev pub add_message :
        (TableOf → Option (TableOf × List (List ℕ) × Bool))
        → TableOf × Option (List ℕ)
        → Option (TableOf × List (List ℕ) × Bool)
    add_message rest (t, none) = some (t, [], false)
    add_message rest (t, some message) =
        Option.map
          (λ ((t', data_, done) : TableOf × List (List ℕ) × Bool).
            (t', c_string message ∷ data_, done))
          (rest t)

    -- `bool GetBatchData(start_offset, end_offset, data)`, from an offset on, for a number of
    -- offsets: what it adds to `data`, and what it returns.
    unfoldable pub batch_from : ℕ → ℕ → TableOf → Option (TableOf × List (List ℕ) × Bool)
    batch_from i zero t = some (t, [], true)
    batch_from i (suc count) t =
        Option.bind (find_message t i (find_offset_position t i))
          (add_message (batch_from ((i + 1) % 2 ^ 64) count))

    unfoldable pub get_batch_data : TableOf → ℕ → ℕ → Option (TableOf × List (List ℕ) × Bool)
    get_batch_data t start_offset end_offset = batch_from start_offset (end_offset - start_offset) t
