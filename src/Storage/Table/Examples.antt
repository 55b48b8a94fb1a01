-- ===== src/Storage/Table/Examples.antt =====
-- A table with files in memory, and the theorems on it.
use mathlib.Core.Option
use native.Mathlib.Nat.{zero-mod}
use mathlib.Core.List.{append_assoc, append-nil}
use iceberg_db.Prelude.{
  ℕ, ◌+◌, ◌-◌, ◌*◌, ◌^◌, ◌≡◌, ◌≢◌, ◌<◌, refl, sym, ap, ◌∙◌, ◌%◌, ◌++◌, Bool, true, false, ◌&&◌,
  Option, none, some, List, [], ◌∷◌, length, take, drop, map, codes, leb, ◌==◌, if◌then◌else◌,
  arith,
}
use iceberg_db.Base.Coding.{little, le_bytes}
use iceberg_db.Base.Utils.{Split, split_string}
use iceberg_db.Base.Slice.{is_zero, compare, of_string}
use iceberg_db.Base.Slice.Order.{byte_order}
use iceberg_db.Log.Files.{Stdio}
use iceberg_db.Log.Files.Writes.{Complete}
use iceberg_db.Storage.Disk.{Pread}
use iceberg_db.Storage.Disk.Append.{written}
use iceberg_db.Storage.Disk.Layout.{message_bytes}
use iceberg_db.Storage.Segment.Comparators.{compare_slices, compare_times}
use iceberg_db.Storage.Segment.Examples.{slices, garbage, blank}
use iceberg_db.Storage.Table.{Platform, Flags, Table, Field, key_position, new_table, sync, put}
use iceberg_db.Storage.Table.Find.{out_of_rounds, find_loop, c_string}
use iceberg_db.Storage.Table.Read.{get, get_batch_data}
use iceberg_db.Storage.Table.File.{file_bytes}
use iceberg_db.Storage.Table.Search.{find_loop-ends}
use iceberg_db.Storage.Table.Invariant.{Syncs}
use iceberg_db.Storage.Table.Reads.{Readable}
use iceberg_db.Storage.Table.View.{
  Entry, entry_of, entry_of_parts, with_entry, with_items, ContentsOf,
}
use iceberg_db.Storage.Table.Refines.{
  Refines, new_table-Refines, put-Refines, schema_contents, no_contents,
}
use iceberg_db.Storage.Table.Answers.{answer, get-Refines, get_batch_data-Refines}
use iceberg_db.Storage.Table.Runs.{
  IsStatement, put_all, put_all-get_batch_data, put-get, put-sync-get,
}
use iceberg_db.Storage.Table.Durable.{Buffered, HasFile, file_of}

-- A split at each byte of the delimiter that has one, and the decimal digits of a number
abbrev pub split_at : ℕ → List ℕ → List (List ℕ)
split_at d [] = [] ∷ []
split_at d (b ∷ bs) = with_byte (b == d) b (split_at d bs)
  where
    with_byte : Bool → ℕ → List (List ℕ) → List (List ℕ)
    with_byte true b parts = [] ∷ parts
    with_byte false b [] = (b ∷ []) ∷ []
    with_byte false b (part ∷ parts) = (b ∷ part) ∷ parts

abbrev pub split_simple : Split
split_simple full [] = full ∷ []
split_simple full (d ∷ others) = split_at d full

abbrev pub digits : ℕ → List ℕ → Option ℕ
digits n [] = some n
digits n (b ∷ bs) =
    let rest = digits (10 * n + (b - 48)) bs in if leb 48 b && leb b 57 then rest else none

abbrev pub cast : List ℕ → Option ℕ
cast = digits 0

abbrev pub flags : Flags
flags = record {
  log_index_sparse_threshold = 2;
  db_root = codes "/db";
  table_timestamp = codes "ts";
}

-- A stream in memory: what its file has, and its buffer. `fflush` empties the buffer.
abbrev pub buffered_stdio : Stdio
buffered_stdio = record {
  Stream = List ℕ × List ℕ;
  fwrite = λ (file, buffer) bytes. ((file, buffer ++ bytes), length bytes);
  fflush = λ (file, buffer). ((file ++ buffer, []), true);
  fsync = λ s. (s, true);
  fclose = λ (file, buffer). ((file ++ buffer, []), true);
  error_text = λ s. [];
}

abbrev pub buffered_stdio-Complete : Complete buffered_stdio
buffered_stdio-Complete = record {
  written = λ (file, buffer). file ++ buffer;
  writes_all = λ (file, buffer) bytes. (refl, sym (append_assoc file buffer bytes));
  flushes = λ (file, buffer). (refl, append-nil (file ++ buffer));
}

abbrev pub buffered : Buffered buffered_stdio buffered_stdio-Complete
buffered = record {
  on_file = λ (file, buffer). file;
  flushed = λ (file, buffer). sym (append-nil (file ++ buffer));
  kept = λ s. refl;
}

abbrev pub platform : Platform
platform = record {
  host = little;
  stdio = buffered_stdio;
  slices = slices;
  memory = garbage;
  flags = flags;
  split = split_simple;
  lexical_cast = cast;
  Fd = ℕ;
}

abbrev pub open_memory : List ℕ → Option ℕ
open_memory path = some 3

abbrev pub schema : List Field
schema = record { name = codes "user"; type_name = codes "string"; is_key = true } ∷ []

abbrev pub statement : List ℕ
statement = codes "put t user,ts ann,7"

abbrev pub entry : Entry
entry = record {
  keys = codes "user" ∷ codes "ts" ∷ [];
  values = codes "ann" ∷ codes "7" ∷ [];
  timestamp = some 7;
}

abbrev pub TableIn : Type 0
TableIn = Table platform

abbrev RefinesIn : TableIn → List (List ℕ) → ContentsOf slices garbage → Type 0
RefinesIn = Refines platform open_memory buffered_stdio-Complete

pub syncs : Syncs buffered_stdio buffered_stdio-Complete
syncs s = (refl, refl)

pub parses : entry_of flags split_simple cast statement ≡ some entry
unfolding entry_of_parts key_position split_string byte_order is_zero Option.bind
parses = refl

abbrev keys_only : ContentsOf slices garbage
keys_only =
    schema_contents platform open_memory buffered_stdio-Complete
      (no_contents platform open_memory buffered_stdio-Complete) schema

abbrev made :
    (t : TableIn) × (new_table platform
        (codes "t")
        schema
        (some ([], []))
        (λ p. blank 0)
        (λ p. blank [])
      ≡ some t)
    × RefinesIn t [] keys_only
made =
    new_table-Refines platform open_memory buffered_stdio-Complete (codes "t") schema ([], [])
      (λ p. blank 0) (λ p. blank []) refl

pub room1 : length (file_bytes 0 (statement ∷ [])) < 2 ^ 32
unfolding file_bytes message_bytes le_bytes
room1 = omega arith

pub room2 : length (file_bytes 0 (statement ∷ statement ∷ [])) < 2 ^ 32
unfolding file_bytes message_bytes le_bytes
room2 = omega arith

abbrev pub is_statement : IsStatement platform open_memory buffered_stdio-Complete statement entry
is_statement = record { short = omega arith; parses = parses; has_values = omega arith }

abbrev with_statement : ContentsOf slices garbage
with_statement = with_entry slices garbage keys_only entry 0

abbrev filled :
    (t : TableIn) × (put platform made.0 statement ≡ some (t, true))
    × RefinesIn t (statement ∷ []) with_statement
filled =
    put-Refines platform open_memory buffered_stdio-Complete made.0 [] keys_only statement entry
      syncs made.2 (omega arith) (room1, omega arith) (omega arith) parses (omega arith)

-- Whatever descriptor is read, it has what the stream of the table took.
abbrev pub pread_of : TableIn → Pread ℕ
pread_of t fd count offset =
    some (take count (drop offset (written little buffered_stdio buffered_stdio-Complete t.wf)))

abbrev ReadableIn : Pread ℕ → TableIn → Type 0
ReadableIn pread t = Readable platform open_memory buffered_stdio-Complete pread t

abbrev pub readable : (t : TableIn) → ReadableIn (pread_of t) t
readable t = (3, refl, λ count offset. refl)

abbrev answer_in : List (List ℕ) → Option ℕ → Option (List ℕ)
answer_in = answer platform open_memory buffered_stdio-Complete

find_loop-ends_example :
    find_loop little (λ (fd : ℕ) (count offset : ℕ). none) 0 3 7 5 0 ≢ out_of_rounds
find_loop-ends_example =
    find_loop-ends little (λ (fd : ℕ) (count offset : ℕ). none) 0 3 7 5 0 (omega arith)
      (omega arith) (omega arith)

new_table-Refines_example :
    (t : TableIn) × (new_table platform
        (codes "t")
        schema
        (some ([], []))
        (λ p. blank 0)
        (λ p. blank [])
      ≡ some t)
    × RefinesIn t [] keys_only
new_table-Refines_example =
    new_table-Refines platform open_memory buffered_stdio-Complete (codes "t") schema ([], [])
      (λ p. blank 0) (λ p. blank []) refl

put-Refines_example :
    (t : TableIn) × (put platform made.0 statement ≡ some (t, true))
    × RefinesIn t (statement ∷ []) with_statement
put-Refines_example =
    put-Refines platform open_memory buffered_stdio-Complete made.0 [] keys_only statement entry
      syncs made.2 (omega arith) (room1, omega arith) (omega arith) parses (omega arith)

get-Refines_example :
    (t : TableIn) × (get platform open_memory
        (pread_of filled.0)
        filled.0
        (codes "get t user ann 7")
      ≡ some
          (t, answer_in (statement ∷ []) (with_statement.offset_of (codes "user") 7 (codes "ann"))))
    × RefinesIn t (statement ∷ []) with_statement
unfolding split_string
get-Refines_example =
    get-Refines platform open_memory buffered_stdio-Complete (pread_of filled.0) filled.0
      (statement ∷ []) with_statement (codes "get t user ann 7") (codes "user") (codes "ann")
      (codes "7") filled.2 (readable filled.0) (room1, omega arith) refl refl refl

get_batch_data-Refines_example :
    (t : TableIn) × (get_batch_data platform open_memory (pread_of filled.0) filled.0 0 1
      ≡ some (t, map c_string (statement ∷ []), true))
    × RefinesIn t (statement ∷ []) with_statement
get_batch_data-Refines_example =
    get_batch_data-Refines platform open_memory buffered_stdio-Complete (pread_of filled.0) filled.0
      (statement ∷ []) with_statement 0 1 filled.2 (readable filled.0) (room1, omega arith)
      (omega arith) (omega arith)

-- A descriptor has what the table's stream has handed on.
abbrev pub pread_file : TableIn → Pread ℕ
pread_file t fd count offset = some (
    take count (
      drop offset (
        file_of platform open_memory buffered_stdio-Complete buffered t.wf.file_handle.filestream)))

pub has_file :
    (t : TableIn) → HasFile platform open_memory buffered_stdio-Complete buffered (pread_file t) t
has_file t = (3, refl, λ count offset. refl)

put_all-get_batch_data_example :
    (t t1 t' : TableIn) × (Option.bind
        (new_table platform (codes "t") schema (some ([], [])) (λ p. blank 0) (λ p. blank []))
        (λ t0. put_all platform open_memory buffered_stdio-Complete t0 (statement ∷ statement ∷ []))
      ≡ some t)
    × (sync platform t ≡ some (t1, true))
    × (get_batch_data platform open_memory (pread_file t1) t1 0 2
        ≡ some (t', map c_string (statement ∷ statement ∷ []), true))
put_all-get_batch_data_example =
    put_all-get_batch_data platform open_memory buffered_stdio-Complete buffered (codes "t") schema
      ([], []) (λ p. blank 0) (λ p. blank []) (statement ∷ statement ∷ []) syncs refl
      ((entry, is_statement), ((entry, is_statement), tt)) (room2, omega arith) (omega arith)
      pread_file has_file

put-get_example :
    (t : TableIn) × (t2 : TableIn) × (put platform made.0 statement ≡ some (t, true))
    × (get platform open_memory (pread_file t) t (codes "get t user ann 7")
        ≡ some (t2, some (c_string statement)))
unfolding split_string schema_contents compare_slices compare of_string byte_order is_zero
put-get_example =
    put-get platform open_memory buffered_stdio-Complete buffered [] keys_only statement
      (codes "get t user ann 7") entry 7 0 (codes "user") (codes "ann") (codes "7") syncs
      is_statement (room1, omega arith) (omega arith) refl refl refl refl refl refl refl refl refl
      pread_file has_file made.0 made.2
      (ap (λ n. n % made.0.disk_cache_threshold) made.2.holds.counts
        ∙ zero-mod made.0.disk_cache_threshold)

-- The second statement of another user, behind which the log is not synced by `Put`
abbrev other : List ℕ
other = codes "put t user,ts bob,9"

abbrev other_entry : Entry
other_entry = record {
  keys = codes "user" ∷ codes "ts" ∷ [];
  values = codes "bob" ∷ codes "9" ∷ [];
  timestamp = some 9;
}

other-parses : entry_of flags split_simple cast other ≡ some other_entry
unfolding entry_of_parts key_position split_string byte_order is_zero Option.bind
other-parses = refl

other-room : length (file_bytes 0 (statement ∷ other ∷ [])) < 2 ^ 32
unfolding file_bytes message_bytes le_bytes
other-room = omega arith

put-sync-get_example :
    (t t1 t2 : TableIn) × (put platform filled.0 other ≡ some (t, true))
    × (sync platform t ≡ some (t1, true))
    × (get platform open_memory (pread_file t1) t1 (codes "get t user bob 9")
        ≡ some (t2, some (c_string other)))
unfolding split_string schema_contents compare_slices compare of_string byte_order is_zero
    with_items compare_times
put-sync-get_example =
    put-sync-get platform open_memory buffered_stdio-Complete buffered (statement ∷ [])
      with_statement other (codes "get t user bob 9") other_entry 9 0 (codes "user") (codes "bob")
      (codes "9") syncs
      (record { short = omega arith; parses = other-parses; has_values = omega arith })
      (other-room, omega arith) (omega arith) refl refl refl refl refl refl refl refl refl
      pread_file has_file filled.0 filled.2
