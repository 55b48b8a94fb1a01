-- ===== src/Storage/Table/View.antt =====
-- What the user of a table sees: its messages, and the contents of its index. `Put` seen this way.
use mathlib.Core.Option
use iceberg_db.Prelude.{
  ℕ, ◌+◌, ◌≡◌, ◌<◌, ◌≤◌, refl, ap, sym, ◌∙◌, Bool, true, Option, none, some, List, [], ◌∷◌, inl,
  inr, length, get_elem?, if◌then◌else◌, arith, subst, Bool-cases, Option-cases, drop, codes, ◌&&◌,
}
use iceberg_db.Base.Comparator.{Comparator}
use iceberg_db.Base.SkipList.Lookup.{is_some}
use iceberg_db.Base.Utils.{Split, split_string}
use iceberg_db.Storage.Segment.{Segment}
use iceberg_db.Storage.Segment.Comparators.{time_stamp_comparator}
use iceberg_db.Storage.Segment.Put.{is_put}
use iceberg_db.Storage.Segment.Runs.{Contents, Run, from_put, with_value, puts, get-Run, put-Run}
use iceberg_db.Storage.Table.{
  Platform, Flags, Table, key_position, put_index, put_key, put_keys, put_stamped, put_parts,
}
use iceberg_db.Storage.Table.Reads.{drop_at}

-- The keys, the values and the time stamp of a statement, `none` where it cannot be read
pub record Entry : Type 0 where
  pub keys : List (List ℕ)
  pub values : List (List ℕ)
  pub timestamp : Option ℕ

module _ (flags : Flags) (split : Split) (lexical_cast : List ℕ → Option ℕ) where
  -- The entry of a statement with these parts; where it has too few of them, there is none.
  unfoldable pub entry_of_parts : List (List ℕ) → Option Entry
  entry_of_parts parts = Option.bind (get_elem? parts 2) (λ names.
      let keys = split_string split names (codes ",") in
      Option.bind (get_elem? parts 3) (λ items.
        let values = split_string split items (codes ",") in
        Option.map
          (λ (text : List ℕ). record {
            keys = keys;
            values = values;
            timestamp = lexical_cast text;
          })
          (get_elem? values (key_position flags.table_timestamp keys))))

  abbrev pub entry_of : List ℕ → Option Entry
  entry_of statement = entry_of_parts (split_string split statement (codes " "))

module _ (slices : Comparator (List ℕ)) (memory : ℕ → ℕ → ℕ → Option ℕ) where
  abbrev pub ContentsOf : Type 0
  ContentsOf = Contents slices time_stamp_comparator memory

  abbrev pub with_item : ContentsOf → List ℕ → ℕ → List ℕ → ℕ → ContentsOf
  with_item c key ts value offset =
      if c.has key then with_value slices time_stamp_comparator memory c key ts value offset else c

  -- The contents with an offset at each key that there is, the time stamp, and the key's value
  unfoldable pub with_items : ContentsOf → List (List ℕ) → List (List ℕ) → ℕ → ℕ → ContentsOf
  with_items c [] values ts offset = c
  with_items c (key ∷ keys) [] ts offset = c
  with_items c (key ∷ keys) (value ∷ values) ts offset =
      with_items (with_item c key ts value offset) keys values ts offset

  -- The contents with an entry: they are as before where it has no time stamp.
  abbrev pub with_stamped : ContentsOf → List (List ℕ) → List (List ℕ) → Option ℕ → ℕ → ContentsOf
  with_stamped c keys values none offset = c
  with_stamped c keys values (some ts) offset = with_items c keys values ts offset

  abbrev pub with_entry : ContentsOf → Entry → ℕ → ContentsOf
  with_entry c entry offset = with_stamped c entry.keys entry.values entry.timestamp offset

  -- The offsets that the index has are below a bound.
  abbrev pub Below : ContentsOf → ℕ → Type 0
  Below c n = (k : List ℕ) (t : ℕ) (v : List ℕ) (o : ℕ) → c.offset_of k t v ≡ some o → o < n

  with_value-Below :
      (c : ContentsOf) (key : List ℕ) (ts : ℕ) (value : List ℕ) (offset n : ℕ)
      → Below c n
      → offset < n
      → Below (with_value slices time_stamp_comparator memory c key ts value offset) n
  with_value-Below c key ts value offset n h below k t v o e =
      let new =
        puts slices time_stamp_comparator memory c key ts value
        && is_put slices time_stamp_comparator key ts value k t v in
      elim (Bool-cases new) [
        | inl new_one ↦ let same : offset ≡ o = cc in omega (arith, same)
        | inr old_one ↦ let old : c.offset_of k t v ≡ some o = cc in h k t v o old
      ]

  pub with_item-present :
      (c : ContentsOf) (key : List ℕ) (ts : ℕ) (value : List ℕ) (offset : ℕ)
      → c.has key ≡ true
      → with_item c key ts value offset
        ≡ with_value slices time_stamp_comparator memory c key ts value offset
  with_item-present c key ts value offset e =
      ap
        (λ (b : Bool).
          if b then with_value slices time_stamp_comparator memory c key ts value offset else c)
        e

  with_item-Below :
      (c : ContentsOf) (key : List ℕ) (ts : ℕ) (value : List ℕ) (offset n : ℕ)
      → Below c n
      → offset < n
      → Below (with_item c key ts value offset) n
  with_item-Below c key ts value offset n h below = elim (Bool-cases (c.has key)) [
    | inl new_one ↦
        subst (λ (d : ContentsOf). Below d n)
          (sym (with_item-present c key ts value offset new_one))
          (with_value-Below c key ts value offset n h below)
    | inr old_one ↦ rw old_one h
  ]

  with_items-Below :
      (c : ContentsOf) (keys values : List (List ℕ)) (ts offset n : ℕ)
      → Below c n
      → offset < n
      → Below (with_items c keys values ts offset) n
  unfolding with_items
  with_items-Below c [] values ts offset n h below = h
  with_items-Below c (key ∷ keys) [] ts offset n h below = h
  with_items-Below c (key ∷ keys) (value ∷ values) ts offset n h below =
      with_items-Below (with_item c key ts value offset) keys values ts offset n
        (with_item-Below c key ts value offset n h below) below

  pub with_stamped-Below :
      (c : ContentsOf) (keys values : List (List ℕ)) (stamp : Option ℕ) (offset n : ℕ)
      → Below c n
      → offset < n
      → Below (with_stamped c keys values stamp offset) n
  with_stamped-Below c keys values none offset n h below = h
  with_stamped-Below c keys values (some ts) offset n h below =
      with_items-Below c keys values ts offset n h below

module _ (env : Platform) where
  abbrev TableOf : Type 0
  TableOf = Table env

  abbrev pub RunOf : Segment → ContentsOf env.slices env.memory → Type 0
  RunOf = Run env.slices time_stamp_comparator env.memory

  -- A call returns a Boolean, with a table that differs in its index, which has the contents.
  abbrev pub Indexes :
      TableOf → Option (TableOf × Bool) → Bool → ContentsOf env.slices env.memory → Type 0
  Indexes t result done c =
      (t' : TableOf) × (result ≡ some (t', done))
      × (t' ≡ record t { segment_index = t'.segment_index })
      × RunOf t'.segment_index c

  put_key-Indexes :
      (t : TableOf) (c : ContentsOf env.slices env.memory) (key value : List ℕ) (ts offset : ℕ)
      → RunOf t.segment_index c
      → Indexes t
          (put_key env t key ts (some value) offset)
          true
          (with_item env.slices env.memory c key ts value offset)
  unfolding put_key put_index Option.bind
  put_key-Indexes t c key value ts offset run =
      let (answer, found) =
        get-Run env.slices time_stamp_comparator env.memory t.segment_index c run key ts value in
      elim (Bool-cases (c.has key)) [
        | inl present ↦
            let (s, returns, after) =
              put-Run env.slices time_stamp_comparator env.memory t.segment_index c run key ts value
                offset in
            (
              record t { segment_index = s },
              rw (found, present, returns) refl,
              refl,
              subst (λ (d : ContentsOf env.slices env.memory). RunOf s d)
                  (sym (with_item-present env.slices env.memory c key ts value offset present))
                  (from_put t.segment_index s c key ts value offset
                    (puts env.slices time_stamp_comparator env.memory c key ts value) run returns),
            )
        | inr absent ↦ (t, rw (found, absent) refl, refl, rw absent run)
      ]

  put_keys-Indexes :
      (t : TableOf) (c : ContentsOf env.slices env.memory) (keys : List (List ℕ)) (i : ℕ)
      (values : List (List ℕ)) (ts offset : ℕ)
      → RunOf t.segment_index c
      → i + length keys ≤ length values
      → Indexes t
          (put_keys env t keys i values ts offset)
          true
          (with_items env.slices env.memory c keys (drop i values) ts offset)
  unfolding put_keys Option.bind with_items
  put_keys-Indexes t c [] i values ts offset run room = (t, refl, refl, run)
  put_keys-Indexes t c (key ∷ keys) i values ts offset run room =
      let (value, at, others) = drop_at i values (omega arith) in
      let (t1, put, same, run1) = put_key-Indexes t c key value ts offset run in
      let (t2, rest, same2, run2) =
        put_keys-Indexes t1 (with_item env.slices env.memory c key ts value offset) keys (i + 1)
          values ts offset run1 (omega arith) in
      (
        t2,
        rw (at, put, rest) refl,
        same2 ∙ ap (λ (x : TableOf). record x { segment_index = t2.segment_index }) same,
        rw others run2,
      )

  pub put_stamped-Indexes :
      (t : TableOf) (c : ContentsOf env.slices env.memory) (keys values : List (List ℕ))
      (offset : ℕ) (stamp : Option ℕ)
      → RunOf t.segment_index c
      → length keys ≤ length values
      → Indexes t
          (put_stamped env t keys values offset stamp)
          (is_some stamp)
          (with_stamped env.slices env.memory c keys values stamp offset)
  put_stamped-Indexes t c keys values offset none run room = (t, refl, refl, run)
  put_stamped-Indexes t c keys values offset (some ts) run room =
      put_keys-Indexes t c keys 0 values ts offset run (omega arith)

  -- `Put` behind `PutDisk` does what the entry of the statement says.
  pub put_parts-entry :
      (t : TableOf) (parts : List (List ℕ)) (offset : ℕ)
      → put_parts env t parts offset
        ≡ Option.bind
            (entry_of_parts env.flags env.split env.lexical_cast parts)
            (λ (e : Entry). put_stamped env t e.keys e.values offset e.timestamp)
  unfolding put_parts entry_of_parts Option.bind
  put_parts-entry t parts offset = elim (Option-cases (get_elem? parts 2)) [
    | inl e ↦ rw e refl
    | inr (names, e) ↦
        let keys = split_string env.split names (codes ",") in
        elim (Option-cases (get_elem? parts 3)) [
          | inl e3 ↦ rw (e, e3) refl
          | inr (items, e3) ↦
              let values = split_string env.split items (codes ",") in
              elim (Option-cases (get_elem? values (key_position env.flags.table_timestamp keys))) [
                | inl e4 ↦ rw (e, e3, e4) refl
                | inr (text, e4) ↦ rw (e, e3, e4) refl
              ]
        ]
  ]
