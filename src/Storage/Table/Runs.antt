-- ===== src/Storage/Table/Runs.antt =====
-- Statements that are put into a table, one after the other, and what it answers then.
use mathlib.Core.Option
use mathlib.Core.List.{append_assoc, append-nil}
use mathlib.Core.Option.{none-ne-some}
use iceberg_db.Prelude.{
  ℕ, ◌+◌, ◌-◌, ◌%◌, All, take_all, ◌≡◌, ◌<◌, ◌≤◌, refl, ap, sym, ◌∙◌, Bool, true, Option, none,
  some, List, [], ◌∷◌, ◌++◌, inl, length, length-append, get_elem?, arith, subst, take, codes, map,
}
use iceberg_db.Base.Maps
use iceberg_db.Base.SkipList.Lookup.{is_some}
use iceberg_db.Base.Utils.{split_string}
use iceberg_db.Log.Files.Writes.{Complete}
use iceberg_db.Storage.Segment.{ValueEntry, Index}
use iceberg_db.Storage.Disk.{Pread}
use iceberg_db.Storage.Table.{Platform, Table, Field, new_table, sync, put}
use iceberg_db.Storage.Table.Find.{c_string}
use iceberg_db.Storage.Table.Read.{get, get_batch_data}
use iceberg_db.Storage.Table.File.{Short, file_bytes, file_bytes-append}
use iceberg_db.Storage.Table.Invariant.{JustSynced, Syncs}
use iceberg_db.Storage.Table.Durable.{Buffered, HasFile, JustSynced-Readable, sync-Refines}
use iceberg_db.Storage.Table.View.{Entry, entry_of, ContentsOf, with_entry, with_stamped}
use iceberg_db.Storage.Table.Refines.{Refines, Room, new_table-Refines, put-AfterPut, put-Refines}
use iceberg_db.Storage.Table.Answers.{answer, get-Refines, get_batch_data-Refines}
use iceberg_db.Storage.Table.Lookup.{with_items-Found}

get_elem-end : {A : Type 0} (xs : List A) (x : A) → get_elem? (xs ++ (x ∷ [])) (length xs) ≡ some x
get_elem-end [] x = refl
get_elem-end (y ∷ xs) x = get_elem-end xs x

module _ (env : Platform) (open_file : List ℕ → Option env.Fd) (complete : Complete env.stdio) where
  abbrev TableOf : Type 0
  TableOf = Table env

  abbrev RefinesOf : TableOf → List (List ℕ) → ContentsOf env.slices env.memory → Type 0
  RefinesOf = Refines env open_file complete

  abbrev RoomOf : List (List ℕ) → Type 0
  RoomOf = Room env open_file complete

  abbrev answer_of : List (List ℕ) → Option ℕ → Option (List ℕ)
  answer_of = answer env open_file complete

  abbrev pub put_of : TableOf → List ℕ → Option (TableOf × Bool)
  put_of = put env

  -- A short statement that has its parts, and a value for each key
  pub record IsStatement (statement : List ℕ) (entry : Entry) : Type 0 where
    pub short : Short statement
    pub parses : entry_of env.flags env.split env.lexical_cast statement ≡ some entry
    pub has_values : length entry.keys ≤ length entry.values

  -- `Put` of statements, one after the other
  unfoldable pub put_all : TableOf → List (List ℕ) → Option TableOf
  put_all t [] = some t
  put_all t (statement ∷ statements) =
      Option.bind (put_of t statement) (λ ((t', done) : TableOf × Bool). put_all t' statements)

  abbrev pub AllStatements : List (List ℕ) → Type 0
  AllStatements = All (λ (statement : List ℕ). (entry : Entry) × IsStatement statement entry)

  first-Room :
      (ms : List (List ℕ)) (statement : List ℕ) (statements : List (List ℕ))
      → RoomOf (ms ++ (statement ∷ statements))
      → RoomOf (ms ++ (statement ∷ [])) × RoomOf ((ms ++ (statement ∷ [])) ++ statements)
  first-Room ms statement statements room =
      let parts : ms ++ (statement ∷ statements) ≡ (ms ++ (statement ∷ [])) ++ statements =
        sym (append_assoc ms (statement ∷ []) statements) in
      let whole = subst RoomOf parts room in
      let bytes = ap length (file_bytes-append 0 (ms ++ (statement ∷ [])) statements) in
      let first = ms ++ (statement ∷ []) in
      (
        (
          omega (
            arith,
            whole.0,
            bytes,
            length-append (file_bytes 0 first) (file_bytes (0 + length first) statements),
          ),
          omega (arith, whole.1, length-append first statements),
        ),
        whole,
      )

  put_all-Refines :
      (t : TableOf) (ms : List (List ℕ)) (c : ContentsOf env.slices env.memory)
      (statements : List (List ℕ))
      → Syncs env.stdio complete
      → RefinesOf t ms c
      → AllStatements statements
      → RoomOf (ms ++ statements)
      → 0 < env.flags.log_index_sparse_threshold
      → (t' : TableOf) × (c' : ContentsOf env.slices env.memory) × (put_all t statements ≡ some t')
        × RefinesOf t' (ms ++ statements) c'
  unfolding put_all Option.bind
  put_all-Refines t ms c [] syncs r all room positive =
      (t, c, refl, subst (λ (xs : List (List ℕ)). RefinesOf t xs c) (sym (append-nil ms)) r)
  put_all-Refines t ms c (statement ∷ statements) syncs r all room positive =
      let (entry, is_statement) = all.0 in
      let (room1, room2) = first-Room ms statement statements room in
      let (t1, put, r1) =
        put-Refines env open_file complete t ms c statement entry syncs r is_statement.short room1
          positive is_statement.parses is_statement.has_values in
      let (t2, c2, rest, r2) =
        put_all-Refines t1 (ms ++ (statement ∷ [])) _ statements syncs r1 all.1 room2 positive in
      (
        t2,
        c2,
        rw put rest,
        subst (λ (xs : List (List ℕ)). RefinesOf t2 xs c2)
            (append_assoc ms (statement ∷ []) statements) r2,
      )

  module _ (buffered : Buffered env.stdio complete) where
    -- Where stdio does all that it is asked for, and a flush hands on what a stream took, a new table on a
    -- stream that has taken nothing takes all of any statements that are short, have their parts and
    -- a value for each key, as long as its log stays below 2^32 bytes; then `Sync` returns true.
    -- Where the log can be opened, and reads give what its stream has handed on, `GetBatchData` from
    -- 0 up to their number then returns true, with the statements in their order, each to its first
    -- zero byte.
    pub put_all-get_batch_data :
        (table_name : List ℕ) (schema : List Field) (stream : env.stdio.Stream)
        (value_entries : ℕ → ValueEntry) (indexes : ℕ → Index) (statements : List (List ℕ))
        → Syncs env.stdio complete
        → complete.written stream ≡ []
        → AllStatements statements
        → RoomOf statements
        → 0 < env.flags.log_index_sparse_threshold
        → (pread_of : TableOf → Pread env.Fd)
        → ((t : TableOf) → HasFile env open_file complete buffered (pread_of t) t)
        → (t t1 t' : TableOf) × (Option.bind
              (new_table env table_name schema (some stream) value_entries indexes)
              (λ t0. put_all t0 statements)
            ≡ some t)
          × (sync env t ≡ some (t1, true))
          × (get_batch_data env open_file (pread_of t1) t1 0 (length statements)
              ≡ some (t', map c_string statements, true))
    unfolding Option.bind
    put_all-get_batch_data table_name schema stream value_entries indexes statements syncs fresh all
          room positive pread_of has_file =
        let (t0, made, r0) =
          new_table-Refines env open_file complete table_name schema stream value_entries indexes
            fresh in
        let (t, c, put, r) = put_all-Refines t0 [] _ statements syncs r0 all room positive in
        let (t1, synced, r1, just) =
          sync-Refines env open_file complete buffered syncs t statements c r in
        let readable =
          JustSynced-Readable env open_file complete buffered syncs (pread_of t1) t1 just
            (has_file t1) in
        let (t', returns, after) =
          get_batch_data-Refines env open_file complete (pread_of t1) t1 statements c 0
            (length statements) r1 readable room (omega arith) (omega arith) in
        let whole : take (length statements - 0) statements ≡ statements =
          take_all (length statements - 0) statements (omega arith) in
        (
          t,
          t1,
          t',
          rw made put,
          synced,
          returns ∙ ap (λ (xs : List (List ℕ)). some (t', map c_string xs, true)) whole,
        )

    module _ (ms : List (List ℕ)) (c : ContentsOf env.slices env.memory) (statement query : List ℕ)
        (entry : Entry) (ts i : ℕ) (key value text : List ℕ) (syncs : Syncs env.stdio complete)
        (is_statement : IsStatement statement entry) (room : RoomOf (ms ++ (statement ∷ [])))
        (positive : 0 < env.flags.log_index_sparse_threshold) (stamp : entry.timestamp ≡ some ts)
        (has_key : get_elem? entry.keys i ≡ some key)
        (has_value : get_elem? entry.values i ≡ some value) (present : c.has key ≡ true)
        (free : c.offset_of key ts value ≡ none)
        (asks_key : get_elem? (split_string env.split query (codes " ")) 2 ≡ some key)
        (asks_value : get_elem? (split_string env.split query (codes " ")) 3 ≡ some value)
        (asks_text : get_elem? (split_string env.split query (codes " ")) 4 ≡ some text)
        (reads_stamp : env.lexical_cast text ≡ some ts) (pread_of : TableOf → Pread env.Fd)
        (has_file : (u : TableOf) → HasFile env open_file complete buffered (pread_of u) u) where
      abbrev after_entry : ContentsOf env.slices env.memory
      after_entry = with_entry env.slices env.memory c entry (length ms)

      -- `Get` on a table that implements the messages with the statement, and was synced
      synced_get :
          (u : TableOf)
          → RefinesOf u (ms ++ (statement ∷ [])) after_entry
          → JustSynced env u
          → (u2 : TableOf) × (get env open_file (pread_of u) u query
              ≡ some (u2, some (c_string statement)))
      synced_get u r just =
          let readable =
            JustSynced-Readable env open_file complete buffered syncs (pread_of u) u just
              (has_file u) in
          let found : after_entry.offset_of key ts value ≡ some (length ms) =
            ap
              (λ (s : Option ℕ).
                (with_stamped env.slices env.memory c entry.keys entry.values s
                    (length ms)).offset_of
                  key ts value)
              stamp
            ∙ with_items-Found env.slices env.memory key ts value (length ms) c entry.keys
                entry.values i has_key has_value present (inl free) in
          let there : get_elem? (ms ++ (statement ∷ [])) (length ms) ≡ some statement =
            get_elem-end ms statement in
          let (u2, answers, r2) =
            get-Refines env open_file complete (pread_of u) u (ms ++ (statement ∷ [])) after_entry
              query key value text r readable room asks_key asks_value asks_text in
          let time : Maps.or_else (env.lexical_cast text) 0 ≡ ts =
            ap (λ (o : Option ℕ). Maps.or_else o 0) reads_stamp in
          let answered : answer_of (ms ++ (statement ∷ []))
                (after_entry.offset_of key (Maps.or_else (env.lexical_cast text) 0) value)
              ≡ some (c_string statement) =
            ap (λ (n : ℕ). answer_of (ms ++ (statement ∷ [])) (after_entry.offset_of key n value))
              time
            ∙ ap (answer_of (ms ++ (statement ∷ []))) found
            ∙ ap (Option.map c_string) there in
          (u2, answers ∙ ap (λ (x : Option (List ℕ)). some (u2, x)) answered)

      -- Where stdio does all that it is asked for, and a flush hands on what a stream took, after `Put` of a
      -- statement on a table that implements messages and contents, which returned with a time stamp,
      -- at an offset that the threshold for the sync divides, `Get` of one of its keys with the key's
      -- value and the time stamp returns the statement, to its first zero byte: where the key is one
      -- of the index, the contents had no offset there, and the log can be opened and reads give what
      -- its stream has handed on.
      pub put-get :
          (t : TableOf)
          → RefinesOf t ms c
          → t.current_offset % t.disk_cache_threshold ≡ 0
          → (t' : TableOf) × (t2 : TableOf) × (put_of t statement ≡ some (t', true))
            × (get env open_file (pread_of t') t' query ≡ some (t2, some (c_string statement)))
      put-get t r due =
          let (t', put, r', (kept, synced)) =
            put-AfterPut env open_file complete t ms c statement entry syncs r is_statement.short
              room positive is_statement.parses is_statement.has_values in
          let (t2, answers) = synced_get t' r' (synced due) in
          (t', t2, put ∙ ap (λ (s : Option ℕ). some (t', is_some s)) stamp, answers)

      -- Where stdio does all that it is asked for, and a flush hands on what a stream took, on a table that
      -- implements messages and contents, at any offset, `Put` of a statement with a time stamp and
      -- then `Sync` return true, and `Get` of one of the statement's keys with the key's value and the
      -- time stamp then returns the statement, to its first zero byte: where the key is one of the
      -- index, the contents had no offset there, and the log can be opened and reads give what its
      -- stream has handed on.
      pub put-sync-get :
          (t : TableOf)
          → RefinesOf t ms c
          → (t' t1 t2 : TableOf) × (put_of t statement ≡ some (t', true))
            × (sync env t' ≡ some (t1, true))
            × (get env open_file (pread_of t1) t1 query ≡ some (t2, some (c_string statement)))
      put-sync-get t r =
          let (t', put, r') =
            put-Refines env open_file complete t ms c statement entry syncs r is_statement.short
              room positive is_statement.parses is_statement.has_values in
          let (t1, returns, r1, just) =
            sync-Refines env open_file complete buffered syncs t' (ms ++ (statement ∷ []))
              after_entry r' in
          let (t2, answers) = synced_get t1 r1 just in
          (t', t1, t2, put ∙ ap (λ (s : Option ℕ). some (t', is_some s)) stamp, returns, answers)
