-- ===== src/Tablet/Statements.antt =====
-- A tablet over tables that hold what is put into them: a table is created, statements are put up to one
-- that syncs the log, and they are read again.
use mathlib.Core.Option
use mathlib.Core.List.{append_assoc, append-nil}
use iceberg_db.Prelude.{
  some-injective, ℕ, ◌-◌, ◌≡◌, refl, ap, sym, ◌∙◌, Bool, true, Option, none, some, List, [], ◌∷◌,
  ◌++◌, codes, drop, take, take_all, length, map, subst, arith,
}
use iceberg_db.Base.Utils.{Split, split_string}
use iceberg_db.Storage.Table.{Field}
use iceberg_db.Tablet.Interface.{Tables, Keeping}
use iceberg_db.Tablet.{Tablet, Response, create, schema_of, put, get_statements}
use iceberg_db.Tablet.Handlers.{
  Registered, name_of, table_of, Leaves-table, create-Leaves, put-Leaves, get_statements-Leaves,
}

module _ (tables : Tables) (keeping : Keeping tables) (split : Split) where
  abbrev TabletOf : Type 0
  TabletOf = Tablet tables split

  -- `Put` of statements, one after the other
  unfoldable pub put_each : TabletOf → Response → List (List ℕ) → Option TabletOf
  put_each t response [] = some t
  put_each t response (statement ∷ statements) =
      Option.bind (put tables split t statement response)
        (λ ((t', response', done) : TabletOf × Response × Bool). put_each t' response' statements)

  -- Statements with a name, each of which the table accepts behind those before it
  abbrev pub Accepted : List ℕ → List (List ℕ) → List (List ℕ) → Type 0
  Accepted name ms [] = Unit
  Accepted name ms (statement ∷ statements) =
      (name_of tables split statement ≡ some name)
      × keeping.Accepts ms statement
      × Accepted name (ms ++ (statement ∷ [])) statements

  -- The name's table holds messages.
  abbrev HoldsAt : TabletOf → List ℕ → List (List ℕ) → Type 0
  HoldsAt t name ms =
      (table : tables.Table) × (table_of tables split t name ≡ some table)
      × keeping.Holds table ms
      × Registered tables split t

  -- They are durable there.
  abbrev DurableAt : TabletOf → List ℕ → List (List ℕ) → Type 0
  DurableAt t name ms =
      HoldsAt t name ms
      × ((table : tables.Table) × (table_of tables split t name ≡ some table)
          × keeping.Durable table)

  -- A `Put` of a statement whose table takes it, and the tablet then
  put_one :
      (t : TabletOf) (response : Response) (name : List ℕ) (statement : List ℕ)
      (table table1 : tables.Table) (done : Bool)
      → table_of tables split t name ≡ some table
      → Registered tables split t
      → name_of tables split statement ≡ some name
      → tables.put table statement ≡ some (table1, done)
      → (t1 : TabletOf) × (response1 : Response) × (put tables split t statement response
          ≡ some (t1, response1, true))
        × (table_of tables split t1 name ≡ some table1)
        × Registered tables split t1
  put_one t response name statement table table1 done has r named put1 =
      let (t1, m, returns, had, counted, leaves) =
        put-Leaves tables split t statement name response table table1 done r named has put1 in
      (
        t1,
        record { code = 0; msg = codes "put ok" },
        returns,
        Leaves-table tables split t t1 name table1 leaves,
        leaves.still_registered,
      )

  -- Statements, the last of which is due: the messages are durable then.
  put_each-Durable :
      (t : TabletOf) (response : Response) (name : List ℕ) (ms statements : List (List ℕ))
      (last : List ℕ)
      → HoldsAt t name ms
      → Accepted name ms (statements ++ (last ∷ []))
      → keeping.Due (ms ++ statements)
      → (t' : TabletOf) × (put_each t response (statements ++ (last ∷ [])) ≡ some t')
        × DurableAt t' name (ms ++ (statements ++ (last ∷ [])))
  unfolding put_each Option.bind
  put_each-Durable t response name ms [] last (table, has, holds, r) accepted due =
      let (table1, done, put1, holds1, durable) =
        keeping.put_due table ms last holds accepted.1 (subst keeping.Due (append-nil ms) due) in
      let (t1, response1, returns, has1, r1) =
        put_one t response name last table table1 done has r accepted.0 put1 in
      (t1, rw returns refl, ((table1, has1, holds1, r1), (table1, has1, durable)))
  put_each-Durable t response name ms (statement ∷ statements) last (table, has, holds, r) accepted
        due =
      let (table1, done, put1, holds1) = keeping.put_holds table ms statement holds accepted.1 in
      let (t1, response1, returns, has1, r1) =
        put_one t response name statement table table1 done has r accepted.0 put1 in
      let parts = append_assoc ms (statement ∷ []) in
      let (t2, rest, durable) =
        put_each-Durable t1 response1 name (ms ++ (statement ∷ [])) statements last
          (table1, has1, holds1, r1) accepted.2 (subst keeping.Due (sym (parts statements)) due) in
      (t2, rw returns rest, subst (DurableAt t2 name) (parts (statements ++ (last ∷ []))) durable)

  -- On a tablet that is registered, over tables that hold what they accept, and whose messages are
  -- durable behind a put that is due: `Create` of a name that has no table, with fields that can be
  -- read, returns true; then `Put` of any statements with that name returns, which the table
  -- accepts one behind the other, the last of them being due; and then `GetStatements` of the name,
  -- from 0 up to their number, returns the texts of these statements in their order.
  pub create-put_each-get_statements :
      (t : TabletOf) (create_statement name : List ℕ) (schema : List Field) (response : Response)
      (statements : List (List ℕ)) (last : List ℕ)
      → Registered tables split t
      → name_of tables split create_statement ≡ some name
      → table_of tables split t name ≡ none
      → schema_of tables split (drop 2 (split_string split create_statement (codes " ")))
        ≡ some schema
      → Accepted name [] (statements ++ (last ∷ []))
      → keeping.Due statements
      → (t1 : TabletOf) × (t2 : TabletOf) × (t3 : TabletOf) × (create tables split t
            create_statement
          ≡ some (t1, true))
        × (put_each t1 response (statements ++ (last ∷ [])) ≡ some t2)
        × (get_statements tables split t2 name 0 (length (statements ++ (last ∷ [])))
            ≡ some (t3, map keeping.text (statements ++ (last ∷ []))))
  create-put_each-get_statements t create_statement name schema response statements last r named
        free reads accepted due =
      let all : List (List ℕ) = statements ++ (last ∷ []) in
      let (table0, makes, holds0) = keeping.created name schema in
      let (t1, creates, manifest, leaves) =
        create-Leaves tables split t create_statement name schema table0 r named free reads makes in
      let (t2, puts, ((table2, has2, holds2, r2), (table3, has3, durable))) =
        put_each-Durable t1 response name [] statements last
          (
            table0,
            Leaves-table tables split t t1 name table0 leaves,
            holds0,
            leaves.still_registered,
          )
          accepted due in
      let same_table : table3 ≡ table2 = some-injective (sym has3 ∙ has2) in
      let (table4, batch) =
        keeping.batch_durable table2 all 0 (length all) holds2
          (subst keeping.Durable same_table durable) (omega arith) (omega arith) in
      let whole : take (length all - 0) all ≡ all = take_all (length all - 0) all (omega arith) in
      let (t3, returns, left) =
        get_statements-Leaves tables split t2 name 0 (length all) table2 table4 _ true r2 has2
          batch in
      (
        t1,
        t2,
        t3,
        creates,
        puts,
        returns ∙ ap (λ (xs : List (List ℕ)). some (t3, map keeping.text xs)) whole,
      )
