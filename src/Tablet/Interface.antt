-- ===== src/Tablet/Interface.antt =====
-- What a tablet needs of ibdb/src/storage/table.h: the operations of a table, as an interface.
use iceberg_db.Prelude.{
  ℕ, ◌-◌, ◌≤◌, ◌≡◌, Bool, true, Option, some, List, [], ◌∷◌, ◌++◌, length, take, drop, map,
}
use iceberg_db.Storage.Table.{Field, TableManifest}

-- `create` is the constructor with a name and a schema; `none` is a fault, or an exception.
pub record Tables : Type 1 where
  pub Table : Type 0
  pub create : List ℕ → List Field → Option Table
  pub put : Table → List ℕ → Option (Table × Bool)
  pub get : Table → List ℕ → Option (Table × Option (List ℕ))
  pub get_batch_data : Table → ℕ → ℕ → Option (Table × List (List ℕ) × Bool)
  pub manifest : Table → TableManifest

-- What a tablet relies on: a table holds messages in their order; a put that is due for a sync makes all
-- of them durable, and a table whose messages are durable gives back their texts.
pub record Keeping (tables : Tables) : Type 1 where
  pub Holds : tables.Table → List (List ℕ) → Type 0
  pub Durable : tables.Table → Type 0
  pub Due : List (List ℕ) → Type 0
  pub Accepts : List (List ℕ) → List ℕ → Type 0
  pub text : List ℕ → List ℕ
  pub created :
      (name : List ℕ) (schema : List Field)
      → (t : tables.Table) × (tables.create name schema ≡ some t) × Holds t []
  pub put_holds :
      (t : tables.Table) (ms : List (List ℕ)) (statement : List ℕ)
      → Holds t ms
      → Accepts ms statement
      → (t' : tables.Table) × (done : Bool) × (tables.put t statement ≡ some (t', done))
        × Holds t' (ms ++ (statement ∷ []))
  pub put_due :
      (t : tables.Table) (ms : List (List ℕ)) (statement : List ℕ)
      → Holds t ms
      → Accepts ms statement
      → Due ms
      → (t' : tables.Table) × (done : Bool) × (tables.put t statement ≡ some (t', done))
        × Holds t' (ms ++ (statement ∷ []))
        × Durable t'
  pub batch_durable :
      (t : tables.Table) (ms : List (List ℕ)) (start end_offset : ℕ)
      → Holds t ms
      → Durable t
      → start ≤ end_offset
      → end_offset ≤ length ms
      → (t' : tables.Table) × (tables.get_batch_data t start end_offset
          ≡ some (t', map text (take (end_offset - start) (drop start ms)), true))
