-- ===== src/Tablet.antt =====
-- ibdb/src/tablet/tablet.h: a tablet, which keeps tables by their names, and the handlers of its
-- requests. `none` is a fault: a null pointer, or an exception that no code catches.
pub mod Interface
pub mod Handlers
pub mod Reached
pub mod Statements
pub mod Stored
pub mod Examples
use mathlib.Core.Option
use iceberg_db.Prelude.{
  ℕ, ◌+◌, ◌%◌, ◌^◌, Bool, true, false, Option, none, some, List, [], ◌∷◌, ◌++◌, codes, drop,
  get_elem?,
}
use iceberg_db.Base.Maps
use iceberg_db.Base.Slice.{is_zero}
use iceberg_db.Base.Slice.Order.{byte_order}
use iceberg_db.Base.Utils.{Split, split_string}
use iceberg_db.Storage.Segment.Comparators.{string_order}
use iceberg_db.Storage.Table.{Field, TableManifest}
use iceberg_db.Tablet.Interface.{Tables}

-- `RpcCode` of ibdb/src/port/port.h
pub data RpcCode : Type 0 where
  ok failed error_cant_connection error_not_found error_table_duplicate : RpcCode

unfoldable pub code_number : RpcCode → ℕ
code_number ok = 0
code_number failed = 1
code_number error_cant_connection = 2
code_number error_not_found = 3
code_number error_table_duplicate = 4

-- The message `PutResponse` or `GetResponse` of ibdb/src/protobuf/rpc.proto
pub record Response : Type 0 where
  pub code : ℕ
  pub msg : List ℕ

-- The message `TabletManifest` of ibdb/src/protobuf/rpc.proto
pub record TabletManifest : Type 0 where
  pub table_manifest : List TableManifest
  pub endpoint : List ℕ
  pub is_leader : Bool

module _ (tables : Tables) (split : Split) where
  -- `none` for a `tablet_manifest_` that `Init` has not set
  pub record Tablet : Type 0 where
    pub endpoint : List ℕ
    pub is_leader : Bool
    pub tablet_manifest : Option TabletManifest
    pub table_map : List (List ℕ × tables.Table)
    pub table_manifest_map : List (List ℕ × TableManifest)

  -- `Tablet(const std::string& endpoint, const bool is_leader)`
  unfoldable pub new_tablet : List ℕ → Bool → Tablet
  new_tablet endpoint is_leader = record {
    endpoint = endpoint;
    is_leader = is_leader;
    tablet_manifest = none;
    table_map = [];
    table_manifest_map = [];
  }

  -- `bool Init()`
  unfoldable pub init : Tablet → Tablet × Bool
  init t = (
    record t {
      tablet_manifest =
          some (record { table_manifest = []; endpoint = t.endpoint; is_leader = t.is_leader });
    },
    true,
  )

  -- `TableManifest* GetTableManifest(const std::string& table_name)`: `none` for a null pointer
  unfoldable pub get_table_manifest : Tablet → List ℕ → Option TableManifest
  get_table_manifest t table_name = Maps.find string_order table_name t.table_manifest_map

  -- `TabletManifest GetTabletManifest()`
  unfoldable pub get_tablet_manifest : Tablet → Option TabletManifest
  get_tablet_manifest t = t.tablet_manifest

  -- A round of the loop of `Create`: the field that a part of the statement describes
  unfoldable pub field_of : List ℕ → Option Field
  field_of key =
      let key_info = split_string split key (codes ",") in
      Option.bind (get_elem? key_info 0) (λ name. Option.bind (get_elem? key_info 1) (λ type_name.
        Option.map
          (λ (is_key : List ℕ). record {
            name = name;
            type_name = type_name;
            is_key = is_zero (byte_order is_key (codes "true"));
          })
          (get_elem? key_info 2)))

  unfoldable pub schema_of : List (List ℕ) → Option (List Field)
  schema_of [] = some []
  schema_of (key ∷ keys) =
      Option.bind (field_of key)
        (λ field. Option.map (λ (fields : List Field). field ∷ fields) (schema_of keys))

  -- The end of `Create`: the table is registered under its name.
  abbrev pub register : Tablet → List ℕ → tables.Table → TabletManifest → Tablet × Bool
  register t table_name table m = (
    record t {
      tablet_manifest =
          some (record m { table_manifest = m.table_manifest ++ (tables.manifest table ∷ []) });
      table_map = Maps.insert string_order table_name table t.table_map;
      table_manifest_map =
          Maps.insert string_order table_name (tables.manifest table) t.table_manifest_map;
    },
    true,
  )

  -- `Create` with the table that the name has
  abbrev pub create_named :
      Tablet → List ℕ → List (List ℕ) → Option tables.Table → Option (Tablet × Bool)
  create_named t table_name fields (some table) = some (t, false)
  create_named t table_name fields none = Option.bind (schema_of fields) (λ schema.
      Option.bind (tables.create table_name schema)
        (λ table. Option.map (register t table_name table) t.tablet_manifest))

  -- `bool Create(request, response)`, with the request's statement: the response is not written.
  unfoldable pub create : Tablet → List ℕ → Option (Tablet × Bool)
  create t statement =
      let result = split_string split statement (codes " ") in
      Option.bind (get_elem? result 1) (λ table_name.
        create_named t table_name (drop 2 result) (Maps.find string_order table_name t.table_map))

  -- `Put` with the manifest that the table's name has, when the table has been written
  abbrev pub count_put :
      Tablet → List ℕ → Response → Option TableManifest → Tablet × Response × Bool
  count_put t table_name response none = (t, response, false)
  count_put t table_name response (some m) = (
    record t {
      table_manifest_map =
          Maps.assign string_order table_name
            (record m { current_offset = (m.current_offset + 1) % 2 ^ 64 }) t.table_manifest_map;
    },
    record { code = code_number ok; msg = codes "put ok" },
    true,
  )

  -- `Put` with the table that the name has: what the table's `Put` returns is not looked at.
  abbrev pub put_named :
      Tablet → List ℕ → List ℕ → Response → Option tables.Table → Option (Tablet × Response × Bool)
  put_named t table_name statement response none =
      some (t, record { code = code_number failed; msg = codes "table is not exist" }, false)
  put_named t table_name statement response (some table) =
      Option.map
        (λ ((table', done) : tables.Table × Bool).
          count_put
            (record t { table_map = Maps.assign string_order table_name table' t.table_map })
            table_name response (Maps.find string_order table_name t.table_manifest_map))
        (tables.put table statement)

  -- `bool Put(request, response)`, with the request's statement
  unfoldable pub put : Tablet → List ℕ → Response → Option (Tablet × Response × Bool)
  put t statement response =
      Option.bind (get_elem? (split_string split statement (codes " ")) 1) (λ table_name.
        put_named t table_name statement response (Maps.find string_order table_name t.table_map))

  -- `Get` with the table that the name has: a message that the table did not find is empty.
  abbrev pub get_named :
      Tablet → List ℕ → List ℕ → Option tables.Table → Option (Tablet × Response × Bool)
  get_named t table_name statement none =
      some
        (t, record { code = code_number error_not_found; msg = codes "table is not found" }, false)
  get_named t table_name statement (some table) =
      Option.map
        (λ ((table', message) : tables.Table × Option (List ℕ)). (
          record t { table_map = Maps.assign string_order table_name table' t.table_map },
          record { code = code_number ok; msg = Maps.or_else message [] },
          true,
        ))
        (tables.get table statement)

  -- `bool Get(request, response)`, with the request's statement
  unfoldable pub get : Tablet → List ℕ → Option (Tablet × Response × Bool)
  get t statement =
      Option.bind (get_elem? (split_string split statement (codes " ")) 1) (λ table_name.
        get_named t table_name statement (Maps.find string_order table_name t.table_map))

  -- `GetStatements` with the table that the name has
  abbrev pub statements_named :
      Tablet → List ℕ → ℕ → ℕ → Option tables.Table → Option (Tablet × List (List ℕ))
  statements_named t table_name start_offset end_offset none = some (t, [])
  statements_named t table_name start_offset end_offset (some table) =
      Option.map
        (λ ((table', data_, done) : tables.Table × List (List ℕ) × Bool).
          (record t { table_map = Maps.assign string_order table_name table' t.table_map }, data_))
        (tables.get_batch_data table start_offset end_offset)

  -- `std::vector<std::string> GetStatements(table_name, start_offset, end_offset)`
  unfoldable pub get_statements : Tablet → List ℕ → ℕ → ℕ → Option (Tablet × List (List ℕ))
  get_statements t table_name start_offset end_offset =
      statements_named t table_name start_offset end_offset
        (Maps.find string_order table_name t.table_map)

  -- `bool Create(request)`, with the request's statement
  unfoldable pub create_without_response : Tablet → List ℕ → Option (Tablet × Bool)
  create_without_response t statement =
      let result = split_string split statement (codes " ") in
      Option.bind (get_elem? result 1) (λ table_name.
        create_named t table_name (drop 2 result) (Maps.find string_order table_name t.table_map))

  -- `bool Put(request)`, with the request's statement: what `Put` does, without a response
  unfoldable pub put_without_response : Tablet → List ℕ → Option (Tablet × Bool)
  put_without_response t statement =
      Option.map (λ ((t', response, done) : Tablet × Response × Bool). (t', done))
        (put t statement (record { code = 0; msg = [] }))
