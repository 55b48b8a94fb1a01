-- ===== src/Tablet/Reached.antt =====
-- The tablets that `Init` and the handlers lead to, each of which is registered.
use mathlib.Core.Option
use mathlib.Core.Option.{none-ne-some}
use iceberg_db.Prelude.{
  some-injective, ℕ, ◌≡◌, ◌⊎◌, refl, ap, sym, ◌∙◌, Bool, true, false, Option, none, some, List, [],
  codes, drop, inl, inr, Option-cases, subst,
}
use iceberg_db.Base.Maps
use iceberg_db.Base.Utils.{Split, split_string}
use iceberg_db.Tablet.Interface.{Tables}
use iceberg_db.Tablet.{
  Tablet, Response, code_number, new_tablet, init, create, schema_of, put, get, get_statements,
}
use iceberg_db.Tablet.Handlers.{
  Registered, name_of, table_of, create-Leaves, put-Leaves, get-Leaves, get_statements-Leaves,
}

module _ (tables : Tables) (split : Split) where
  abbrev TabletOf : Type 0
  TabletOf = Tablet tables split

  -- A call that returns a tablet that is registered, among its results, or that does not return
  Keeps : {R : Type 0} → (R → TabletOf) → Option R → Type 0
  Keeps {R} tablet_of result =
      (result ≡ none) ⊎ ((x : R) × (result ≡ some x) × Registered tables split (tablet_of x))

  Keeps-Registered :
      {R : Type 0} (tablet_of : R → TabletOf) (result : Option R) (x : R)
      → Keeps tablet_of result
      → result ≡ some x
      → Registered tables split (tablet_of x)
  unfolding Keeps
  Keeps-Registered tablet_of result x (inl e) returns = absurd (none-ne-some x (sym e ∙ returns))
  Keeps-Registered tablet_of result x (inr (y, e, r)) returns =
      subst (Registered tables split) (ap tablet_of (some-injective (sym e ∙ returns))) r

  create-Keeps :
      (t : TabletOf) (statement : List ℕ)
      → Registered tables split t
      → Keeps (λ x. x.0) (create tables split t statement)
  unfolding Keeps create Option.bind
  create-Keeps t statement r = elim (Option-cases (name_of tables split statement)) [
    | inl unnamed ↦ inl (rw unnamed refl)
    | inr (name, named) ↦ elim (Option-cases (table_of tables split t name)) [
      | inr (table, has) ↦ inr ((t, false), rw (named, has) refl, r)
      | inl free ↦
          elim (Option-cases
            (schema_of tables split (drop 2 (split_string split statement (codes " "))))) [
              | inl unread ↦ inl (rw (named, free, unread) refl)
              | inr (schema, reads) ↦ elim (Option-cases (tables.create name schema)) [
                | inl fails ↦ inl (rw (named, free, reads, fails) refl)
                | inr (table, makes) ↦
                    let (t', returns, manifest, leaves) =
                      create-Leaves tables split t statement name schema table r named free reads
                        makes in
                    inr ((t', true), returns, leaves.still_registered)
              ]
            ]
    ]
  ]

  put-Keeps :
      (t : TabletOf) (statement : List ℕ) (response : Response)
      → Registered tables split t
      → Keeps (λ x. x.0) (put tables split t statement response)
  unfolding Keeps put Option.bind code_number
  put-Keeps t statement response r = elim (Option-cases (name_of tables split statement)) [
    | inl unnamed ↦ inl (rw unnamed refl)
    | inr (name, named) ↦ elim (Option-cases (table_of tables split t name)) [
      | inl missing ↦ inr (
        (t, record { code = 1; msg = codes "table is not exist" }, false),
        rw (named, missing) refl,
        r,
      )
      | inr (table, has) ↦ elim (Option-cases (tables.put table statement)) [
        | inl fails ↦ inl (rw (named, has, fails) refl)
        | inr ((table', done), puts) ↦
            let (t', m, returns, had, counted, leaves) =
              put-Leaves tables split t statement name response table table' done r named has
                puts in
            inr (
              (t', record { code = 0; msg = codes "put ok" }, true),
              returns,
              leaves.still_registered,
            )
      ]
    ]
  ]

  get-Keeps :
      (t : TabletOf) (statement : List ℕ)
      → Registered tables split t
      → Keeps (λ x. x.0) (get tables split t statement)
  unfolding Keeps get Option.bind code_number
  get-Keeps t statement r = elim (Option-cases (name_of tables split statement)) [
    | inl unnamed ↦ inl (rw unnamed refl)
    | inr (name, named) ↦ elim (Option-cases (table_of tables split t name)) [
      | inl missing ↦ inr (
        (t, record { code = 3; msg = codes "table is not found" }, false),
        rw (named, missing) refl,
        r,
      )
      | inr (table, has) ↦ elim (Option-cases (tables.get table statement)) [
        | inl fails ↦ inl (rw (named, has, fails) refl)
        | inr ((table', message), gets) ↦
            let (t', returns, leaves) =
              get-Leaves tables split t statement name table table' message r named has gets in
            inr (
              (t', record { code = 0; msg = Maps.or_else message [] }, true),
              returns,
              leaves.still_registered,
            )
      ]
    ]
  ]

  get_statements-Keeps :
      (t : TabletOf) (name : List ℕ) (start_offset end_offset : ℕ)
      → Registered tables split t
      → Keeps (λ x. x.0) (get_statements tables split t name start_offset end_offset)
  unfolding Keeps get_statements
  get_statements-Keeps t name start_offset end_offset r =
      elim (Option-cases (table_of tables split t name)) [
        | inl missing ↦ inr ((t, []), rw missing refl, r)
        | inr (table, has) ↦
            elim (Option-cases (tables.get_batch_data table start_offset end_offset)) [
              | inl fails ↦ inl (rw (has, fails) refl)
              | inr ((table', texts, done), batch) ↦
                  let (t', returns, leaves) =
                    get_statements-Leaves tables split t name start_offset end_offset table table'
                      texts done r has batch in
                  inr ((t', texts), returns, leaves.still_registered)
            ]
      ]

  -- The tablets that calls of `Init` and of the handlers which return lead to
  pub data Reached : TabletOf → Type 0 where
    from_init :
        (endpoint : List ℕ) (is_leader : Bool)
        → Reached (init tables split (new_tablet tables split endpoint is_leader)).0
    by_create :
        (t t' : TabletOf) (statement : List ℕ) (done : Bool)
        → Reached t
        → create tables split t statement ≡ some (t', done)
        → Reached t'
    by_put :
        (t t' : TabletOf) (statement : List ℕ) (response response' : Response) (done : Bool)
        → Reached t
        → put tables split t statement response ≡ some (t', response', done)
        → Reached t'
    by_get :
        (t t' : TabletOf) (statement : List ℕ) (response : Response) (done : Bool)
        → Reached t
        → get tables split t statement ≡ some (t', response, done)
        → Reached t'
    by_statements :
        (t t' : TabletOf) (name : List ℕ) (start_offset end_offset : ℕ) (texts : List (List ℕ))
        → Reached t
        → get_statements tables split t name start_offset end_offset ≡ some (t', texts)
        → Reached t'

  init-Registered :
      (endpoint : List ℕ) (is_leader : Bool)
      → Registered tables split (init tables split (new_tablet tables split endpoint is_leader)).0
  unfolding init new_tablet Maps.find
  init-Registered endpoint is_leader = record {
    has_manifest = (_, refl);
    same_names = λ name. refl;
  }

  -- On any tables, a tablet that calls of `Init`, `Create`, `Put`, `Get` and `GetStatements` which return
  -- lead to has a tablet manifest, and its tables are exactly those that have a manifest.
  pub Reached-Registered : (t : TabletOf) → Reached t → Registered tables split t
  Reached-Registered u (from_init endpoint is_leader) = init-Registered endpoint is_leader
  Reached-Registered u (by_create t t' statement done run e) =
      Keeps-Registered (λ x. x.0) _ (t', done) (create-Keeps t statement (Reached-Registered t run))
        e
  Reached-Registered u (by_put t t' statement response response' done run e) =
      Keeps-Registered (λ x. x.0) _ (t', response', done)
        (put-Keeps t statement response (Reached-Registered t run)) e
  Reached-Registered u (by_get t t' statement response done run e) =
      Keeps-Registered (λ x. x.0) _ (t', response, done)
        (get-Keeps t statement (Reached-Registered t run)) e
  Reached-Registered u (by_statements t t' name start_offset end_offset texts run e) =
      Keeps-Registered (λ x. x.0) _ (t', texts)
        (get_statements-Keeps t name start_offset end_offset (Reached-Registered t run)) e
