-- ===== src/Tablet/Handlers.antt =====
-- What each handler of a tablet answers, and what it does to the tables.
use mathlib.Core.Option
use iceberg_db.Prelude.{
  ℕ, ◌+◌, ◌%◌, ◌^◌, ◌≡◌, refl, ap, sym, ◌∙◌, Bool, true, false, Option, none, some, List, [], codes,
  drop, get_elem?, inl, inr, is_some, if◌then◌else◌,
}
use iceberg_db.Base.Comparator.{Sign-cases}
use iceberg_db.Base.Maps
use iceberg_db.Base.Slice.{Sign, is_zero}
use iceberg_db.Base.Slice.Order.{byte_order}
use iceberg_db.Base.Utils.{Split, split_string}
use iceberg_db.Storage.Segment.Comparators.{string_order}
use iceberg_db.Storage.Table.{Field, TableManifest}
use iceberg_db.Tablet.Interface.{Tables}
use iceberg_db.Tablet.{
  Tablet, TabletManifest, Response, code_number, create, register, schema_of, put, get,
  get_statements, get_table_manifest,
}

nothing_there : {A : Type 0} (o : Option A) → is_some o ≡ false → o ≡ none
nothing_there none h = refl
nothing_there (some a) h = cc

something_there : {A : Type 0} (o : Option A) → is_some o ≡ true → (a : A) × (o ≡ some a)
something_there none h = cc
something_there (some a) h = (a, refl)

module _ (tables : Tables) (split : Split) where
  abbrev TabletOf : Type 0
  TabletOf = Tablet tables split

  -- The name in a statement
  abbrev pub name_of : List ℕ → Option (List ℕ)
  name_of statement = get_elem? (split_string split statement (codes " ")) 1

  abbrev pub table_of : TabletOf → List ℕ → Option tables.Table
  table_of t name = Maps.find string_order name t.table_map

  -- A tablet that `Init` has set up, and whose tables are those that have a manifest
  pub record Registered (t : TabletOf) : Type 0 where
    pub has_manifest : (m : TabletManifest) × (t.tablet_manifest ≡ some m)
    pub same_names :
        (name : List ℕ)
        → is_some (Maps.find string_order name t.table_manifest_map)
          ≡ is_some (Maps.find string_order name t.table_map)

  -- After a handler, the name has a table, the others have theirs, and the tablet is registered.
  pub record Leaves (t t' : TabletOf) (name : List ℕ) (table : tables.Table) : Type 0 where
    pub tables_are :
        (other : List ℕ)
        → table_of t' other
          ≡ (if is_zero (byte_order name other) then some table else table_of t other)
    pub still_registered : Registered t'

  Leaves-now :
      (t t' : TabletOf) (name : List ℕ) (table : tables.Table)
      → table_of t' name ≡ some table
      → ((other : List ℕ)
          → is_zero (byte_order name other) ≡ false
          → table_of t' other ≡ table_of t other)
      → Registered t'
      → Leaves t t' name table
  unfolding is_zero
  Leaves-now t t' name table has others r = record {
    tables_are = λ other. elim (Sign-cases (byte_order name other)) [
      | inl e ↦ rw e (others other (rw e refl))
      | inr (inl e) ↦
          let same = string_order.eq_of_zero name other e in
          rw e (ap (table_of t') (sym same) ∙ has)
      | inr (inr e) ↦ rw e (others other (rw e refl))
    ];
    still_registered = r;
  }

  pub Leaves-table :
      (t t' : TabletOf) (name : List ℕ) (table : tables.Table)
      → Leaves t t' name table
      → table_of t' name ≡ some table
  unfolding is_zero
  Leaves-table t t' name table l =
      l.tables_are name
      ∙ ap (λ (s : Sign). if is_zero s then some table else table_of t name)
          (Maps.same_sign string_order name)

  -- On a tablet, `Create` of a name that has a table returns false and changes nothing.
  pub create_taken :
      (t : TabletOf) (statement name : List ℕ) (table : tables.Table)
      → name_of statement ≡ some name
      → table_of t name ≡ some table
      → create tables split t statement ≡ some (t, false)
  unfolding create Option.bind
  create_taken t statement name table named has = rw (named, has) refl

  -- On a tablet that is registered, `Create` of a name that has no table, where the fields can be read
  -- and the table's constructor returns, returns true. The name then has the new table, and its
  -- manifest, the other names have the tables that they had, and the tablet is registered.
  pub create-Leaves :
      (t : TabletOf) (statement name : List ℕ) (schema : List Field) (table : tables.Table)
      → Registered t
      → name_of statement ≡ some name
      → table_of t name ≡ none
      → schema_of tables split (drop 2 (split_string split statement (codes " "))) ≡ some schema
      → tables.create name schema ≡ some table
      → (t' : TabletOf) × (create tables split t statement ≡ some (t', true))
        × (get_table_manifest tables split t' name ≡ some (tables.manifest table))
        × Leaves t t' name table
  unfolding create get_table_manifest Option.bind
  create-Leaves t statement name schema table r named free reads makes =
      let (m, set_up) = r.has_manifest in
      let no_manifest =
        nothing_there (Maps.find string_order name t.table_manifest_map)
          (r.same_names name ∙ ap is_some free) in
      let (t', done) = register tables split t name table m in
      (
        t',
        rw (named, free, reads, makes, set_up) refl,
        Maps.find-insert string_order name (tables.manifest table) t.table_manifest_map
            ∙ ap (λ (o : Option TableManifest). some (Maps.or_else o (tables.manifest table)))
                no_manifest,
        Leaves-now t t' name table
            (Maps.find-insert string_order name table t.table_map
              ∙ ap (λ (o : Option tables.Table). some (Maps.or_else o table)) free)
            (λ other differs.
              Maps.find-insert_other string_order name other table t.table_map differs)
            (record {
              has_manifest = (_, refl);
              same_names = λ other.
                  Maps.is_some-find-insert string_order name other (tables.manifest table)
                    t.table_manifest_map
                  ∙ ap (λ (b : Bool). if is_zero (byte_order name other) then true else b)
                      (r.same_names other)
                  ∙ sym (Maps.is_some-find-insert string_order name other table t.table_map);
            }),
      )

  -- The write of a table back under its name
  assign-Leaves :
      (t : TabletOf) (name : List ℕ) (table table' : tables.Table)
      → Registered t
      → table_of t name ≡ some table
      → Leaves t
          (record t { table_map = Maps.assign string_order name table' t.table_map })
          name
          table'
  assign-Leaves t name table table' r has =
      Leaves-now t (record t { table_map = Maps.assign string_order name table' t.table_map }) name
        table' (Maps.find-assign string_order name table' table t.table_map has)
        (λ other differs. Maps.find-assign_other string_order name other table' t.table_map differs)
        (record {
          has_manifest = r.has_manifest;
          same_names = λ other.
              r.same_names other
              ∙ sym (Maps.is_some-find-assign string_order name other table' t.table_map);
        })

  -- `Put` on a tablet that is registered, with a name that has a table, where the table's `Put` returns,
  -- with true or with false: it returns true, with the code for success and the text "put ok". The
  -- name then has the table that `Put` left, the other names have theirs, the offset in the name's
  -- manifest is one more, modulo 2^64, and the tablet is registered.
  pub put-Leaves :
      (t : TabletOf) (statement name : List ℕ) (response : Response) (table table' : tables.Table)
      (done : Bool)
      → Registered t
      → name_of statement ≡ some name
      → table_of t name ≡ some table
      → tables.put table statement ≡ some (table', done)
      → (t' : TabletOf) × (m : TableManifest) × (put tables split t statement response
          ≡ some (t', record { code = 0; msg = codes "put ok" }, true))
        × (get_table_manifest tables split t name ≡ some m)
        × (get_table_manifest tables split t' name
            ≡ some (record m { current_offset = (m.current_offset + 1) % 2 ^ 64 }))
        × Leaves t t' name table'
  unfolding put get_table_manifest Option.bind code_number
  put-Leaves t statement name response table table' done r named has puts =
      let written = assign-Leaves t name table table' r has in
      let (m, has_m) =
        something_there (Maps.find string_order name t.table_manifest_map)
          (r.same_names name ∙ ap is_some has) in
      let counted = record m { current_offset = (m.current_offset + 1) % 2 ^ 64 } in
      (
        record t {
          table_map = Maps.assign string_order name table' t.table_map;
          table_manifest_map = Maps.assign string_order name counted t.table_manifest_map;
        },
        m,
        rw (named, has, puts, has_m) refl,
        has_m,
        Maps.find-assign string_order name counted m t.table_manifest_map has_m,
        record {
          tables_are = written.tables_are;
          still_registered = record {
            has_manifest = r.has_manifest;
            same_names = λ other.
                Maps.is_some-find-assign string_order name other counted t.table_manifest_map
                ∙ written.still_registered.same_names other;
          };
        },
      )

  -- `Get` on a tablet that is registered, with a name that has a table, where the table's `Get` returns:
  -- it returns true, with the code for success and the message, or an empty text where the table's
  -- `Get` returned false. The name then has the table that `Get` left, the other names have theirs,
  -- and the tablet is registered.
  pub get-Leaves :
      (t : TabletOf) (statement name : List ℕ) (table table' : tables.Table)
      (message : Option (List ℕ))
      → Registered t
      → name_of statement ≡ some name
      → table_of t name ≡ some table
      → tables.get table statement ≡ some (table', message)
      → (t' : TabletOf) × (get tables split t statement
          ≡ some (t', record { code = 0; msg = Maps.or_else message [] }, true))
        × Leaves t t' name table'
  unfolding get Option.bind code_number
  get-Leaves t statement name table table' message r named has gets = (
    record t { table_map = Maps.assign string_order name table' t.table_map },
    rw (named, has, gets) refl,
    assign-Leaves t name table table' r has,
  )

  -- `GetStatements` on a tablet that is registered, of a name that has a table, where the table's
  -- `GetBatchData` returns: it returns the texts that this collected, whatever it returned. The
  -- other names have their tables, and the tablet is registered.
  pub get_statements-Leaves :
      (t : TabletOf) (name : List ℕ) (start_offset end_offset : ℕ) (table table' : tables.Table)
      (texts : List (List ℕ)) (done : Bool)
      → Registered t
      → table_of t name ≡ some table
      → tables.get_batch_data table start_offset end_offset ≡ some (table', texts, done)
      → (t' : TabletOf) × (get_statements tables split t name start_offset end_offset
          ≡ some (t', texts))
        × Leaves t t' name table'
  unfolding get_statements
  get_statements-Leaves t name start_offset end_offset table table' texts done r has batch = (
    record t { table_map = Maps.assign string_order name table' t.table_map },
    rw (has, batch) refl,
    assign-Leaves t name table table' r has,
  )
