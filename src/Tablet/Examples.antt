-- ===== src/Tablet/Examples.antt =====
-- A tablet with a table whose files are in memory, and the theorems on it.
use mathlib.Core.Option
use iceberg_db.Prelude.{
  ℕ, ◌+◌, ◌%◌, ◌^◌, ◌≡◌, refl, true, false, none, some, List, [], ◌∷◌, codes, map, arith,
}
use iceberg_db.Base.Maps
use iceberg_db.Base.Slice.{is_zero}
use iceberg_db.Base.Slice.Order.{byte_order}
use iceberg_db.Base.Utils.{split_string}
use iceberg_db.Storage.Segment.Examples.{blank}
use iceberg_db.Storage.Table.{TableManifest}
use iceberg_db.Storage.Table.Find.{c_string}
use iceberg_db.Storage.Table.Examples.{
  platform, split_simple, open_memory, statement, entry, is_statement, schema, pread_file, has_file,
  buffered_stdio-Complete, buffered, syncs, room1,
}
use iceberg_db.Tablet.Interface.{Tables, Keeping}
use iceberg_db.Tablet.{
  Tablet, Response, new_tablet, init, create, field_of, schema_of, put, get, get_statements,
  get_table_manifest,
}
use iceberg_db.Tablet.Handlers.{
  Registered, Leaves, create_taken, create-Leaves, put-Leaves, get-Leaves, get_statements-Leaves,
}
use iceberg_db.Tablet.Reached.{from_init, by_create, Reached-Registered}
use iceberg_db.Tablet.Statements.{put_each, create-put_each-get_statements}
use iceberg_db.Tablet.Stored.{stored_tables, stored-Keeping}

-- Tables that are lists of statements, whose `Put` returns false
abbrev lists : Tables
lists = record {
  Table = List (List ℕ);
  create = λ name schema. some [];
  put = λ t statement. some (statement ∷ t, false);
  get = λ t statement. some (t, none);
  get_batch_data = λ t start end_offset. some (t, t, false);
  manifest = λ t. record { name = []; schema = []; current_offset = 0; log_name = [] };
}

abbrev TabletIn : Type 0
TabletIn = Tablet lists split_simple

abbrev empty_response : Response
empty_response = record { code = 9; msg = [] }

abbrev t0 : TabletIn
t0 = (init lists split_simple (new_tablet lists split_simple (codes "0.0.0.0") true)).0

abbrev create_text : List ℕ
create_text = codes "create t user,string,true"

t0-Registered : Registered lists split_simple t0
t0-Registered = Reached-Registered lists split_simple t0 (from_init (codes "0.0.0.0") true)

abbrev no_table_manifest : TableManifest
no_table_manifest = record { name = []; schema = []; current_offset = 0; log_name = [] }

-- The tablet after `Create` of a table with the name "t"
abbrev t1 : TabletIn
t1 = record t0 {
  tablet_manifest = some (record {
    table_manifest = no_table_manifest ∷ [];
    endpoint = codes "0.0.0.0";
    is_leader = true;
  });
  table_map = (codes "t", []) ∷ [];
  table_manifest_map = (codes "t", no_table_manifest) ∷ [];
}

t1-created : create lists split_simple t0 create_text ≡ some (t1, true)
unfolding create field_of schema_of init new_tablet split_string byte_order is_zero Option.bind
    Maps.find Maps.insert
t1-created = refl

t1-Registered : Registered lists split_simple t1
t1-Registered =
    Reached-Registered lists split_simple t1
      (by_create t0 t1 create_text true (from_init (codes "0.0.0.0") true) t1-created)

Reached-Registered_example : Registered lists split_simple t1
Reached-Registered_example =
    Reached-Registered lists split_simple t1
      (by_create t0 t1 create_text true (from_init (codes "0.0.0.0") true) t1-created)

create_taken_example : create lists split_simple t1 create_text ≡ some (t1, false)
unfolding split_string Maps.find byte_order is_zero
create_taken_example = create_taken lists split_simple t1 create_text (codes "t") [] refl refl

create-Leaves_example :
    (t : TabletIn) × (create lists split_simple t0 create_text ≡ some (t, true))
    × (get_table_manifest lists split_simple t (codes "t") ≡ some no_table_manifest)
    × Leaves lists split_simple t0 t (codes "t") []
unfolding split_string schema_of field_of init new_tablet Maps.find byte_order is_zero Option.bind
create-Leaves_example =
    create-Leaves lists split_simple t0 create_text (codes "t") schema [] t0-Registered refl refl
      refl refl

put-Leaves_example :
    (t : TabletIn) × (m : TableManifest) × (put lists split_simple t1 statement empty_response
      ≡ some (t, record { code = 0; msg = codes "put ok" }, true))
    × (get_table_manifest lists split_simple t1 (codes "t") ≡ some m)
    × (get_table_manifest lists split_simple t (codes "t")
        ≡ some (record m { current_offset = (m.current_offset + 1) % 2 ^ 64 }))
    × Leaves lists split_simple t1 t (codes "t") (statement ∷ [])
unfolding split_string Maps.find byte_order is_zero
put-Leaves_example =
    put-Leaves lists split_simple t1 statement (codes "t") empty_response [] (statement ∷ []) false
      t1-Registered refl refl refl

get-Leaves_example :
    (t : TabletIn) × (get lists split_simple t1 (codes "get t user ann 7")
      ≡ some (t, record { code = 0; msg = [] }, true))
    × Leaves lists split_simple t1 t (codes "t") []
unfolding split_string Maps.find byte_order is_zero
get-Leaves_example =
    get-Leaves lists split_simple t1 (codes "get t user ann 7") (codes "t") [] [] none t1-Registered
      refl refl refl

get_statements-Leaves_example :
    (t : TabletIn) × (get_statements lists split_simple t1 (codes "t") 0 5 ≡ some (t, []))
    × Leaves lists split_simple t1 t (codes "t") []
unfolding Maps.find byte_order is_zero
get_statements-Leaves_example =
    get_statements-Leaves lists split_simple t1 (codes "t") 0 5 [] [] [] false t1-Registered refl
      refl

-- The tables of the storage, with files in memory
abbrev stored : Tables
stored =
    stored_tables platform open_memory (λ name. ([], [])) (λ p. blank 0) (λ p. blank []) pread_file

abbrev keeping : Keeping stored
keeping =
    stored-Keeping platform open_memory (λ name. ([], [])) (λ p. blank 0) (λ p. blank []) pread_file
      buffered_stdio-Complete syncs (λ name. refl) (omega arith) buffered has_file

abbrev s0 : Tablet stored split_simple
s0 = (init stored split_simple (new_tablet stored split_simple (codes "0.0.0.0") true)).0

s0-Registered : Registered stored split_simple s0
s0-Registered = Reached-Registered stored split_simple s0 (from_init (codes "0.0.0.0") true)

create-put_each-get_statements_example :
    (u1 u2 u3 : Tablet stored split_simple) × (create stored split_simple s0 create_text
      ≡ some (u1, true))
    × (put_each stored keeping split_simple u1 empty_response (statement ∷ []) ≡ some u2)
    × (get_statements stored split_simple u2 (codes "t") 0 1
        ≡ some (u3, map c_string (statement ∷ [])))
unfolding stored-Keeping split_string schema_of field_of init new_tablet Maps.find byte_order
    is_zero Option.bind
create-put_each-get_statements_example =
    create-put_each-get_statements stored keeping split_simple s0 create_text (codes "t") schema
      empty_response [] statement s0-Registered refl refl refl
      (refl, (entry, is_statement, (room1, omega arith)), tt) refl
