-- ===== src/Tablet/Stored.antt =====
-- The tables of ibdb/src/storage/table.h, as the tables of a tablet. What a reader sees is what the
-- stream of the log has handed on to its file, and each file can be opened. A tablet never calls
-- `Sync`: its messages are on file behind each put whose offset 1000 divides.
use mathlib.Core.Option
use mathlib.Core.Option.{none-ne-some}
use iceberg_db.Prelude.{
  ℕ, ◌%◌, ◌≡◌, ◌<◌, ap, sym, ◌∙◌, some-injective, Option, none, some, List, [], ◌∷◌, ◌++◌, length,
  arith,
}
use iceberg_db.Base.SkipList.Lookup.{is_some}
use iceberg_db.Log.Files.Writes.{Complete}
use iceberg_db.Storage.Disk.{Pread}
use iceberg_db.Storage.Segment.{Segment, ValueEntry, Index}
use iceberg_db.Storage.Table.{Field, first_table, build_keys}
use iceberg_db.Storage.Table.{Platform, Table, new_table, put}
use iceberg_db.Storage.Table.Find.{c_string}
use iceberg_db.Storage.Table.Read.{get, get_batch_data}
use iceberg_db.Storage.Table.File.{file_bytes}
use iceberg_db.Storage.Table.Invariant.{JustSynced, Syncs}
use iceberg_db.Storage.Table.Durable.{Buffered, HasFile, JustSynced-Readable}
use iceberg_db.Storage.Table.View.{Entry, ContentsOf}
use iceberg_db.Storage.Table.Refines.{Refines, Room, new_table-Refines, put-AfterPut}
use iceberg_db.Storage.Table.Answers.{get_batch_data-Refines}
use iceberg_db.Storage.Table.Runs.{IsStatement}
use iceberg_db.Tablet.Interface.{Tables, Keeping}

module _ (env : Platform) (open_file : List ℕ → Option env.Fd) where
  abbrev pub TableOf : Type 0
  TableOf = Table env

  module _ (stream_of : List ℕ → env.stdio.Stream) (value_entries : ℕ → ValueEntry)
      (indexes : ℕ → Index) (pread_of : TableOf → Pread env.Fd) where
    -- The operations of a table, where `fopen` of a new table's log gives a stream, and `pread` what
    -- it gives in the state of the table
    abbrev pub stored_tables : Tables
    stored_tables = record {
      Table = TableOf;
      create =
          λ name schema. new_table env name schema (some (stream_of name)) value_entries indexes;
      put = put env;
      get = λ t statement. get env open_file (pread_of t) t statement;
      get_batch_data =
          λ t start end_offset. get_batch_data env open_file (pread_of t) t start end_offset;
      manifest = λ t. t.table_manifest;
    }

    module _ (complete : Complete env.stdio) (syncs : Syncs env.stdio complete)
        (fresh : (name : List ℕ) → complete.written (stream_of name) ≡ [])
        (positive : 0 < env.flags.log_index_sparse_threshold)
        (buffered : Buffered env.stdio complete)
        (has_file : (t : TableOf) → HasFile env open_file complete buffered (pread_of t) t) where
      abbrev RoomOf : List (List ℕ) → Type 0
      RoomOf = Room env open_file complete

      abbrev Implements : TableOf → List (List ℕ) → Type 0
      Implements t ms =
          (c : ContentsOf env.slices env.memory) × Refines env open_file complete t ms c
          × RoomOf ms
          × (t.disk_cache_threshold ≡ 1000)

      -- A statement that is short, has its parts and a value for each key, and for which the log has
      -- room
      abbrev pub Takes : List (List ℕ) → List ℕ → Type 0
      Takes ms statement =
          (entry : Entry) × IsStatement env open_file complete statement entry
          × RoomOf (ms ++ (statement ∷ []))

      pub table_threshold :
          (name : List ℕ) (schema : List Field) (r : Option Segment) (t : TableOf)
          → Option.map (first_table env name schema (some (stream_of name))) r ≡ some t
          → t.disk_cache_threshold ≡ 1000
      unfolding Option.map
      table_threshold name schema none t e = absurd (none-ne-some t e)
      table_threshold name schema (some s) t e =
          sym (ap (λ (x : TableOf). x.disk_cache_threshold) (some-injective e))

      built_threshold :
          (name : List ℕ) (schema : List Field) (r : Option Segment) (t : TableOf)
          → Option.bind r (λ (empty : Segment).
            Option.map
              (first_table env name schema (some (stream_of name)))
              (build_keys env empty schema))
            ≡ some t
          → t.disk_cache_threshold ≡ 1000
      unfolding Option.bind
      built_threshold name schema none t e = absurd (none-ne-some t e)
      built_threshold name schema (some s) t e =
          table_threshold name schema (build_keys env s schema) t e

      pub new_table_threshold :
          (name : List ℕ) (schema : List Field) (t : TableOf)
          → new_table env name schema (some (stream_of name)) value_entries indexes ≡ some t
          → t.disk_cache_threshold ≡ 1000
      unfolding new_table
      new_table_threshold name schema t e = built_threshold name schema _ t e

      pub no_Room : RoomOf []
      unfolding file_bytes
      no_Room = (omega arith, omega arith)

      -- Where stdio does all that it is asked for, a flush hands on what a stream took, a new log is empty,
      -- and a read gives what the log's stream has handed on: the tables hold each statement that
      -- they take, behind those before it; a put at an offset that 1000 divides makes all of them
      -- durable, and then they give back the text of each message to its first zero byte.
      unfoldable pub stored-Keeping : Keeping stored_tables
      stored-Keeping = record {
        Holds = Implements;
        Durable = JustSynced env;
        Due = λ ms. length ms % 1000 ≡ 0;
        Accepts = Takes;
        text = c_string;
        created = λ name schema.
            let (t, makes, refines) =
              new_table-Refines env open_file complete name schema (stream_of name) value_entries
                indexes (fresh name) in
            (t, makes, (_, refines, no_Room, new_table_threshold name schema t makes));
        put_holds = λ t ms statement (c, refines, room, period) (entry, is_statement, more).
            let (t', puts, after, (kept, synced)) =
              put-AfterPut env open_file complete t ms c statement entry syncs refines
                is_statement.short more positive is_statement.parses is_statement.has_values in
            (t', is_some entry.timestamp, puts, (_, after, more, kept ∙ period));
        put_due = λ t ms statement (c, refines, room, period) (entry, is_statement, more) due.
            let (t', puts, after, (kept, synced)) =
              put-AfterPut env open_file complete t ms c statement entry syncs refines
                is_statement.short more positive is_statement.parses is_statement.has_values in
            let divided : t.current_offset % t.disk_cache_threshold ≡ 0 =
              ap (λ n. t.current_offset % n) period
              ∙ ap (λ n. n % 1000) refines.holds.counts
              ∙ due in
            (t', is_some entry.timestamp, puts, (_, after, more, kept ∙ period), synced divided);
        batch_durable = λ t ms start end_offset (c, refines, room, period) durable ordered inside.
            let readable =
              JustSynced-Readable env open_file complete buffered syncs (pread_of t) t durable
                (has_file t) in
            let (t', batch, after) =
              get_batch_data-Refines env open_file complete (pread_of t) t ms c start end_offset
                refines readable room ordered inside in
            (t', batch);
      }
