-- ===== src/Storage/Table/Refines.antt =====
-- A table that implements what its user sees, and that each operation keeps doing so.
use mathlib.Core.Option
use mathlib.Core.Option.{none-ne-some}
use iceberg_db.Prelude.{
  ℕ, ◌+◌, ◌^◌, ◌≡◌, ◌<◌, ◌≤◌, refl, ap, sym, ◌∙◌, Option, none, some, List, [], ◌∷◌, ◌++◌, inl, inr,
  length, length-append, if◌then◌else◌, arith, subst, Bool-cases, codes, not,
}
use iceberg_db.Base.SkipList.Lookup.{is_some}
use iceberg_db.Base.Utils.{split_string}
use iceberg_db.Log.Files.Writes.{Complete}
use iceberg_db.Storage.Segment.{Segment, ValueEntry, Index}
use iceberg_db.Storage.Segment.Comparators.{time_stamp_comparator}
use iceberg_db.Storage.Segment.Runs.{
  Run, from_new, from_build, with_key, nothing, build-Leaves, new_segment-Has, Run-Has,
}
use iceberg_db.Storage.Disk
use iceberg_db.Storage.Disk.{Pread}
use iceberg_db.Storage.Table.{
  Platform, Table, Field, build_keys, first_table, new_table, put, put_stamped,
}
use iceberg_db.Storage.Table.File.{Short, file_bytes}
use iceberg_db.Storage.Table.Invariant.{AfterPut, Syncs, Holds}
use iceberg_db.Storage.Table.PutDisk.{put_disk-Holds}
use iceberg_db.Storage.Table.View.{
  Entry, entry_of, ContentsOf, with_entry, Below, with_stamped-Below, RunOf, put_stamped-Indexes,
  put_parts-entry,
}

module _ (env : Platform) (open_file : List ℕ → Option env.Fd) (complete : Complete env.stdio) where
  abbrev TableOf : Type 0
  TableOf = Table env

  abbrev HoldsOf : TableOf → List (List ℕ) → Type 0
  HoldsOf = Holds env open_file complete

  -- A table with these messages, and an index with these contents, whose offsets are those of messages
  pub record Refines (t : TableOf) (ms : List (List ℕ)) (c : ContentsOf env.slices env.memory)
      : Type 0 where
    pub holds : HoldsOf t ms
    pub runs : RunOf env t.segment_index c
    pub below : Below env.slices env.memory c (length ms)

  -- The index of a schema: its keys
  unfoldable pub schema_contents :
      ContentsOf env.slices env.memory → List Field → ContentsOf env.slices env.memory
  schema_contents c [] = c
  schema_contents c (field ∷ fields) =
      schema_contents
        (if field.is_key
          then with_key env.slices time_stamp_comparator env.memory c field.name
          else c)
        fields

  abbrev pub no_contents : ContentsOf env.slices env.memory
  no_contents = nothing env.slices time_stamp_comparator env.memory

  schema_contents-offset_of :
      (c : ContentsOf env.slices env.memory) (fields : List Field)
      → ((k : List ℕ) (t : ℕ) (v : List ℕ) → c.offset_of k t v ≡ none)
      → (k : List ℕ) (t : ℕ) (v : List ℕ) → (schema_contents c fields).offset_of k t v ≡ none
  unfolding schema_contents
  schema_contents-offset_of c [] h = h
  schema_contents-offset_of c (field ∷ fields) h = elim (Bool-cases (field.is_key)) [
    | inl e ↦ rw e (
        schema_contents-offset_of
          (with_key env.slices time_stamp_comparator env.memory c field.name) fields h)
    | inr e ↦ rw e (schema_contents-offset_of c fields h)
  ]

  build_keys-Run :
      (s : Segment) (c : ContentsOf env.slices env.memory) (fields : List Field)
      → Run env.slices time_stamp_comparator env.memory s c
      → (s' : Segment) × (build_keys env s fields ≡ some s')
        × Run env.slices time_stamp_comparator env.memory s' (schema_contents c fields)
  unfolding build_keys schema_contents Option.bind
  build_keys-Run s c [] run = (s, refl, run)
  build_keys-Run s c (field ∷ fields) run =
      let (s1, built, after) =
        build-Leaves env.slices time_stamp_comparator env.memory s c field.name
          (Run-Has env.slices time_stamp_comparator env.memory s c run) in
      elim (Bool-cases (field.is_key)) [
        | inl e ↦
            let run1 = from_build s s1 c field.name (not (c.has field.name)) run built in
            let (s2, rest, run2) = build_keys-Run s1 _ fields run1 in
            (s2, rw (e, built) rest, rw e run2)
        | inr e ↦ let (s2, rest, run2) = build_keys-Run s c fields run in (s2, rw e rest, rw e run2)
      ]

  -- A new table, on a stream that has taken nothing, has no messages, and the keys of its schema.
  pub new_table-Refines :
      (table_name : List ℕ) (schema : List Field) (stream : env.stdio.Stream)
      (value_entries : ℕ → ValueEntry) (indexes : ℕ → Index)
      → complete.written stream ≡ []
      → (t : TableOf) × (new_table env table_name schema (some stream) value_entries indexes
          ≡ some t)
        × Refines t [] (schema_contents no_contents schema)
  unfolding new_table Option.bind Disk.new file_bytes
  new_table-Refines table_name schema stream value_entries indexes fresh =
      let (empty, made, has) =
        new_segment-Has env.slices time_stamp_comparator env.memory value_entries indexes in
      let (s, built, run) =
        build_keys-Run empty no_contents schema (from_new value_entries indexes empty made) in
      let no_offset = schema_contents-offset_of no_contents schema (λ k t v. refl) in
      (
        first_table env table_name schema (some stream) s,
        rw (made, built) refl,
        record {
          holds = record {
            has_bytes = fresh;
            at_end = refl;
            counts = refl;
            is_open = (stream, refl);
            threshold = omega arith;
            short = tt;
            indexed = inl (refl, refl);
            in_cache = tt;
            readers = tt;
          };
          runs = run;
          below = λ k t v o e. absurd (none-ne-some o (sym (no_offset k t v) ∙ e));
        },
      )

  -- The place for one more message: the log stays below 2^32 bytes, and its count below 2^64.
  abbrev pub Room : List (List ℕ) → Type 0
  Room ms = (length (file_bytes 0 ms) < 2 ^ 32) × (length ms < 2 ^ 64)

  index-Holds :
      (t : TableOf) (s : Segment) (ms : List (List ℕ))
      → HoldsOf t ms
      → HoldsOf (record t { segment_index = s }) ms
  index-Holds t s ms h = record {
    has_bytes = h.has_bytes;
    at_end = h.at_end;
    counts = h.counts;
    is_open = h.is_open;
    threshold = h.threshold;
    short = h.short;
    indexed = h.indexed;
    in_cache = h.in_cache;
    readers = h.readers;
  }

  -- `Put` of a statement, with what it leaves of the log.
  pub put-AfterPut :
      (t : TableOf) (ms : List (List ℕ)) (c : ContentsOf env.slices env.memory) (statement : List ℕ)
      (entry : Entry)
      → Syncs env.stdio complete
      → Refines t ms c
      → Short statement
      → Room (ms ++ (statement ∷ []))
      → 0 < env.flags.log_index_sparse_threshold
      → entry_of env.flags env.split env.lexical_cast statement ≡ some entry
      → length entry.keys ≤ length entry.values
      → (t' : TableOf) × (put env t statement ≡ some (t', is_some entry.timestamp))
        × Refines t' (ms ++ (statement ∷ [])) (with_entry env.slices env.memory c entry (length ms))
        × AfterPut env t t'
  unfolding put Option.bind
  put-AfterPut t ms c statement entry syncs r short (small, fits) positive parses values =
      let more : length (ms ++ (statement ∷ [])) ≡ length ms + 1 =
        length-append ms (statement ∷ []) in
      let (t1, written, holds, index, (kept, synced)) =
        put_disk-Holds env open_file complete syncs t ms statement r.holds short small (omega arith)
          positive in
      let run1 = subst (λ (s : Segment). RunOf env s c) (sym index) r.runs in
      let (t2, stamped, same, run2) =
        put_stamped-Indexes env t1 c entry.keys entry.values (length ms) entry.timestamp run1
          values in
      let parsed =
        put_parts-entry env t1 (split_string env.split statement (codes " ")) t.current_offset in
      (
        t2,
        rw (written, parsed, parses)
            (ap (λ (n : ℕ). put_stamped env t1 entry.keys entry.values n entry.timestamp)
                r.holds.counts
              ∙ stamped),
        record {
          holds =
              subst (λ (x : TableOf). HoldsOf x (ms ++ (statement ∷ []))) (sym same)
                (index-Holds t1 t2.segment_index (ms ++ (statement ∷ [])) holds);
          runs = run2;
          below =
              with_stamped-Below env.slices env.memory c entry.keys entry.values entry.timestamp
                (length ms) (length (ms ++ (statement ∷ [])))
                (λ k ts v o e. let old = r.below k ts v o e in omega arith) (omega arith);
        },
        (
          ap (λ (x : TableOf). x.disk_cache_threshold) same ∙ kept,
          λ divided.
              let (last, now) = synced divided in
              (last, ap (λ (x : TableOf). x.wf.file_handle.filestream) same ∙ now),
        ),
      )

  -- Where stdio does all that it is asked for, `Put` of a short statement that has its parts, with a
  -- value for each key, on a table that implements messages and contents, returns true exactly
  -- where the time stamp can be read. The table then implements the messages with the statement
  -- behind them, and the contents with its entry at the statement's offset; where the time stamp
  -- cannot be read, the message is there, and the contents are as before.
  pub put-Refines :
      (t : TableOf) (ms : List (List ℕ)) (c : ContentsOf env.slices env.memory) (statement : List ℕ)
      (entry : Entry)
      → Syncs env.stdio complete
      → Refines t ms c
      → Short statement
      → Room (ms ++ (statement ∷ []))
      → 0 < env.flags.log_index_sparse_threshold
      → entry_of env.flags env.split env.lexical_cast statement ≡ some entry
      → length entry.keys ≤ length entry.values
      → (t' : TableOf) × (put env t statement ≡ some (t', is_some entry.timestamp))
        × Refines t' (ms ++ (statement ∷ [])) (with_entry env.slices env.memory c entry (length ms))
  put-Refines t ms c statement entry syncs r short room positive parses values =
      let (t', puts, after, synced) =
        put-AfterPut t ms c statement entry syncs r short room positive parses values in
      (t', puts, after)

  -- A table whose readers differ implements the same.
  pub opened-Refines :
      (t t' : TableOf) (ms : List (List ℕ)) (c : ContentsOf env.slices env.memory)
      → t' ≡ record t { log_reader_map = t'.log_reader_map }
      → HoldsOf t' ms
      → Refines t ms c
      → Refines t' ms c
  opened-Refines t t' ms c opened holds r = record {
    holds = holds;
    runs =
        subst (λ (s : Segment). RunOf env s c) (sym (ap (λ (x : TableOf). x.segment_index) opened))
          r.runs;
    below = r.below;
  }
