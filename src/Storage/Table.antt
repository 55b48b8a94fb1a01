-- ===== src/Storage/Table.antt =====
-- ibdb/src/storage/table.h: a table, which keeps its messages in a log file and an index of them in
-- memory. `none` is a fault: an assertion that fails, an exception that no code catches, a null
-- stream, or a remainder by zero. What boost and the system do is a parameter.
pub mod Find
pub mod File
pub mod Search
pub mod Places
pub mod Invariant
pub mod Indexed
pub mod PutDisk
pub mod Reads
pub mod View
pub mod Refines
pub mod Answers
pub mod Lookup
pub mod Durable
pub mod Runs
pub mod Examples
pub mod Read
use mathlib.Core.Option
use iceberg_db.Prelude.{
  ℕ, ◌+◌, ◌^◌, ◌%◌, Bool, true, false, Option, none, some, List, [], ◌∷◌, ◌++◌, ◌==◌, ltb,
  if◌then◌else◌, codes, get_elem?, zero, suc, ◌-◌,
}
use iceberg_db.Base.Coding.{Endian}
use iceberg_db.Base.Status.{Status, is_ok}
use iceberg_db.Base.Slice.{is_zero}
use iceberg_db.Base.Slice.Order.{byte_order}
use iceberg_db.Base.Comparator.{Comparator}
use iceberg_db.Base.Cache.{LruCacheMap}
use iceberg_db.Base.Cache
use iceberg_db.Base.Maps
use iceberg_db.Base.Utils.{Split, split_string}
use iceberg_db.Log.Files.{Stdio}
use iceberg_db.Storage.Segment.{Segment, ValueEntry, Index}
use iceberg_db.Storage.Segment
use iceberg_db.Storage.Segment.Comparators.{string_order, time_stamp_comparator}
use iceberg_db.Storage.Disk.{
  Pread, WritableFileHandle, append_message, get_current_pos, get_message_offset, get_message_size,
  get_message,
}
use iceberg_db.Storage.Disk
use iceberg_db.Storage.Table.Find.{Positions}

-- The flags that a table reads: `log_index_sparse_threshold`, `db_root` and `table_timestamp`.
pub record Flags : Type 0 where
  pub log_index_sparse_threshold : ℕ
  pub db_root : List ℕ
  pub table_timestamp : List ℕ

-- What a table stands on: the byte order of the host, stdio, the comparator of slices, what memory
-- holds where it is new, the flags, the split and the cast of boost, and the handles of readers
pub record Platform : Type 1 where
  pub host : Endian
  pub stdio : Stdio
  pub slices : Comparator (List ℕ)
  pub memory : ℕ → ℕ → ℕ → Option ℕ
  pub flags : Flags
  pub split : Split
  pub lexical_cast : List ℕ → Option ℕ
  pub Fd : Type 0

-- The messages `Field` and `TableManifest` of ibdb/src/protobuf/storage.proto, of the latter the
-- fields that are read: the name, the schema, the offset, and the name of the current log file.
pub record Field : Type 0 where
  pub name : List ℕ
  pub type_name : List ℕ
  pub is_key : Bool

pub record TableManifest : Type 0 where
  pub name : List ℕ
  pub schema : List Field
  pub current_offset : ℕ
  pub log_name : List ℕ

-- A remainder by zero is a fault.
abbrev pub divides : ℕ → ℕ → Option Bool
divides n k = if n == 0 then none else some (k % n == 0)

-- The file's positions with a new one, in the map; they are those that the map has for the file.
abbrev pub with_position :
    List ℕ → ℕ → ℕ → List (List ℕ × Positions) → Option Positions → List (List ℕ × Positions)
with_position file offset pos m (some positions) =
    Maps.assign string_order file (Maps.insert time_stamp_comparator offset pos positions) m
with_position file offset pos m none =
    Maps.insert string_order file (Maps.insert time_stamp_comparator offset pos []) m

-- The loop of `Put` that looks for the name of the time stamp: its place, or the number of keys
pub key_position : List ℕ → List (List ℕ) → ℕ
key_position name [] = 0
key_position name (key ∷ keys) =
    let rest = key_position name keys in if is_zero (byte_order name key) then 0 else 1 + rest

module _ (env : Platform) where
  pub record Table : Type 0 where
    pub table_manifest : TableManifest
    pub current_offset : ℕ
    pub segment_index : Segment
    pub wf : WritableFileHandle env.host env.stdio
    pub log_reader_map : List (List ℕ × env.Fd)
    pub disk_cache_threshold : ℕ
    pub offset_pos_map : List (List ℕ × Positions)
    pub offset_message : LruCacheMap ℕ (List ℕ)

  -- `Segment::Contains`, `Segment::Put` and `Segment::Get` on the index of the table
  abbrev pub has_key : Table → List ℕ → Option Bool
  has_key t key =
      Segment.contains_key env.slices time_stamp_comparator env.memory t.segment_index key

  -- The part of `PutDisk` that inserts an offset with its position
  unfoldable pub add_position : Table → ℕ → ℕ → Table
  add_position t offset pos =
      let file = t.table_manifest.log_name in
      record t {
        offset_pos_map =
            with_position file offset pos t.offset_pos_map
              (Maps.find string_order file t.offset_pos_map);
      }

  -- `PutDisk` behind the write and the sync
  unfoldable pub count_message : Table → ℕ → ℕ → Option (Table × Bool)
  count_message t offset pos =
      Option.map
        (λ (indexed : Bool).
          let t1 = if indexed then add_position t offset pos else t in
          (
            record t1 {
              current_offset = (t1.current_offset + 1) % 2 ^ 64;
              table_manifest = record t1.table_manifest { current_offset = offset };
            },
            true,
          ))
        (divides env.flags.log_index_sparse_threshold offset)

  -- `bool Sync()`
  unfoldable pub sync : Table → Option (Table × Bool)
  sync t =
      Option.map
        (λ ((w, s) : WritableFileHandle env.host env.stdio × Status).
          (record t { wf = w }, is_ok s))
        (Disk.sync env.host env.stdio t.wf)

  -- What is left to do where a call returned true, and an early return where it did not.
  abbrev pub next_call : (Table → Option (Table × Bool)) → Table × Bool → Option (Table × Bool)
  next_call rest (t, done) = let others = rest t in if done then others else some (t, false)

  -- The write to the log in `PutDisk`
  unfoldable pub write_message : Table → List ℕ → Option (Table × Bool)
  write_message t statement =
      Option.map
        (λ ((w, s) : WritableFileHandle env.host env.stdio × Status).
          (record t { wf = w }, is_ok s))
        (append_message env.host env.stdio t.wf t.current_offset statement)

  -- The sync in `PutDisk`, of each message whose offset the threshold divides
  unfoldable pub sync_at : Table → ℕ → Option (Table × Bool)
  sync_at t offset =
      Option.bind (divides t.disk_cache_threshold offset)
        (λ due. let synced = sync t in if due then synced else some (t, true))

  -- `bool PutDisk(std::string& statement)`
  unfoldable pub put_disk : Table → List ℕ → Option (Table × Bool)
  put_disk t statement =
      let pos = get_current_pos env.host env.stdio t.wf in
      let offset = t.current_offset in
      Option.bind (write_message t statement) (
        next_call
          (λ t1. Option.bind (sync_at t1 offset) (next_call (λ t2. count_message t2 offset pos))))

  -- `bool PutIndex(std::string& key, uint64_t& timestamp, std::string& value, uint64_t& offset)`:
  -- what `Segment::Put` returns is not looked at.
  unfoldable pub put_index : Table → List ℕ → ℕ → List ℕ → ℕ → Option (Table × Bool)
  put_index t key timestamp value offset =
      Option.map (λ ((s, done) : Segment × Bool). (record t { segment_index = s }, true))
        (Segment.put env.slices time_stamp_comparator env.memory t.segment_index key timestamp value
          offset)

  -- A round of the last loop of `Put`
  unfoldable pub put_key : Table → List ℕ → ℕ → Option (List ℕ) → ℕ → Option (Table × Bool)
  put_key t key timestamp value offset = Option.bind (has_key t key) (λ found.
      let put = Option.bind value (λ v. put_index t key timestamp v offset) in
      if found then put else some (t, true))

  -- The last loop of `Put`, from the key at `i`
  pub put_keys : Table → List (List ℕ) → ℕ → List (List ℕ) → ℕ → ℕ → Option (Table × Bool)
  put_keys t [] i values timestamp offset = some (t, true)
  put_keys t (key ∷ keys) i values timestamp offset =
      Option.bind (put_key t key timestamp (get_elem? values i) offset)
        (next_call (λ t'. put_keys t' keys (i + 1) values timestamp offset))

  -- `Put` with the time stamp that was read
  abbrev pub put_stamped :
      Table → List (List ℕ) → List (List ℕ) → ℕ → Option ℕ → Option (Table × Bool)
  put_stamped t keys values offset none = some (t, false)
  put_stamped t keys values offset (some timestamp) = put_keys t keys 0 values timestamp offset

  -- `Put` behind `PutDisk`, with the parts of the statement
  unfoldable pub put_parts : Table → List (List ℕ) → ℕ → Option (Table × Bool)
  put_parts t result offset = Option.bind (get_elem? result 2) (λ names.
      let keys = split_string env.split names (codes ",") in
      let pos = key_position env.flags.table_timestamp keys in
      Option.bind (get_elem? result 3) (λ items.
        let values = split_string env.split items (codes ",") in
        Option.bind (get_elem? values pos)
          (λ text. put_stamped t keys values offset (env.lexical_cast text))))

  -- `bool Put(std::string& statement)`
  unfoldable pub put : Table → List ℕ → Option (Table × Bool)
  put t statement =
      let result = split_string env.split statement (codes " ") in
      let offset = t.current_offset in
      Option.bind (put_disk t statement) (next_call (λ t1. put_parts t1 result offset))

  -- The loop of the constructor over the fields of the schema
  pub build_keys : Segment → List Field → Option Segment
  build_keys s [] = some s
  build_keys s (field ∷ fields) =
      let built =
        Option.map (λ ((s', done) : Segment × Bool). s')
          (Segment.build_key_index env.slices time_stamp_comparator env.memory s field.name) in
      Option.bind (if field.is_key then built else some s) (λ s'. build_keys s' fields)

  -- The fields that the constructor sets, with the index that it built
  abbrev pub first_table : List ℕ → List Field → Option env.stdio.Stream → Segment → Table
  first_table table_name schema stream s =
      let log_dir = env.flags.db_root ++ (codes "/" ++ (table_name ++ codes "/log")) in
      record {
        table_manifest = record {
          name = table_name;
          schema = schema;
          current_offset = 0;
          log_name = codes "00000000.log";
        };
        current_offset = 0;
        segment_index = s;
        wf = Disk.new env.host env.stdio (log_dir ++ codes "/00000000.log") stream;
        log_reader_map = [];
        disk_cache_threshold = 1000;
        offset_pos_map = [];
        offset_message = [];
      }

  -- `Table(const std::string& table_name, const Schema& schema)`, with the stream that `fopen`
  -- returned, and on what memory holds where the index has no list
  unfoldable pub new_table :
      List ℕ → List Field → Option env.stdio.Stream → (ℕ → ValueEntry) → (ℕ → Index) → Option Table
  new_table table_name schema stream value_entries indexes =
      Option.bind
        (Segment.new_segment env.slices time_stamp_comparator env.memory value_entries indexes)
        (λ empty. Option.map (first_table table_name schema stream) (build_keys empty schema))
