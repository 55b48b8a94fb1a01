-- ===== src/Storage/Segment.antt =====
-- ibdb/src/storage/segment.h: the index of a table. The skiplist of the keys points to one of time
-- stamps for each key, and this one to one of values for each time stamp, which has the offsets. The
-- skiplists that are pointed to are numbered in the order of their allocation. `none` is a fault.
pub mod Comparators
pub mod Invariant
pub mod Stamp
pub mod Put
pub mod Keys
pub mod Remove
pub mod Runs
pub mod Examples
use mathlib.Core.Option
use iceberg_db.Prelude.{ℕ, ◌+◌, Bool, true, false, Option, none, some, List, [], if◌then◌else◌}
use iceberg_db.Base.Comparator.{Comparator}
use iceberg_db.Base.SkipList.{SkipList, update, contains, insert, remove, get}
use iceberg_db.Base.SkipList

-- `SkipList<Slice, uint64_t, SliceComparator>`
abbrev pub Index : Type 0
Index = SkipList (List ℕ) ℕ

-- `SkipList<uint64_t, Index*, TimeStampComparator>`
abbrev pub ValueEntry : Type 0
ValueEntry = SkipList ℕ ℕ

-- `SkipList<Slice, ValueEntry*, SliceComparator>`
abbrev pub Entries : Type 0
Entries = SkipList (List ℕ) ℕ

-- A segment, and the lists that its pointers lead to.
pub record Segment : Type 0 where
  pub segment : Entries
  pub value_entries : ℕ → ValueEntry
  pub indexes : ℕ → Index
  pub allocated : ℕ

-- The member access through a pointer that may be null
abbrev pub through : {A : Type 0} → Option (Option A) → Option A
through none = none
through (some x) = x

module _ (slices : Comparator (List ℕ)) (times : Comparator ℕ) (memory : ℕ → ℕ → ℕ → Option ℕ) where
  -- `bool Contains(const Slice& key)`
  unfoldable pub contains_key : Segment → List ℕ → Option Bool
  contains_key s key = contains slices s.segment key

  -- `bool Remove(const Slice& key)`
  unfoldable pub remove_key : Segment → List ℕ → Option (Segment × Bool)
  remove_key s key = Option.bind (contains_key s key) (λ found.
      let removed =
        Option.map (λ ((keys, done) : Entries × Bool). (record s { segment = keys }, done))
          (remove slices s.segment key) in
      if found then removed else some (s, false))

  -- `ValueEntry* NewValueEntry()`
  unfoldable pub new_value_entry : Segment → Option (Segment × ℕ)
  new_value_entry s =
      Option.map
        (λ (entry : ValueEntry). (
          record s {
            value_entries = update s.value_entries s.allocated entry;
            allocated = s.allocated + 1;
          },
          s.allocated,
        ))
        (SkipList.new (memory s.allocated) 0 0)

  -- `Index* NewIndex()`
  unfoldable pub new_index : Segment → Option (Segment × ℕ)
  new_index s =
      Option.map
        (λ (index : Index). (
          record s { indexes = update s.indexes s.allocated index; allocated = s.allocated + 1 },
          s.allocated,
        ))
        (SkipList.new (memory s.allocated) [] 0)

  -- `bool BuildKeyIndex(const Slice& key)`
  unfoldable pub build_key_index : Segment → List ℕ → Option (Segment × Bool)
  build_key_index s key = Option.bind (contains_key s key) (λ found.
      let built = Option.bind (new_value_entry s) (λ ((s1, entry) : Segment × ℕ).
        Option.map (λ (keys : Entries). (record s1 { segment = keys }, true))
          (insert slices s1.segment key entry)) in
      if found then some (s, false) else built)

  -- The first part of `Put`: the time stamp gets an index, if it has none.
  unfoldable pub ensure_index : Segment → ℕ → ℕ → Option Segment
  ensure_index s entry ts = Option.bind (contains times (s.value_entries entry) ts) (λ found.
      let made = Option.bind (new_index s) (λ ((s1, index) : Segment × ℕ).
        Option.map
          (λ (e : ValueEntry). record s1 { value_entries = update s1.value_entries entry e })
          (insert times (s1.value_entries entry) ts index)) in
      if found then some s else made)

  -- The second part of `Put`: the value gets the offset, if the index does not have the value.
  unfoldable pub put_value : Segment → ℕ → List ℕ → ℕ → Option (Segment × Bool)
  put_value s index value offset = Option.bind (contains slices (s.indexes index) value) (λ found.
      let put =
        Option.map (λ (i : Index). (record s { indexes = update s.indexes index i }, true))
          (insert slices (s.indexes index) value offset) in
      if found then some (s, false) else put)

  -- `bool Put(const Slice& key, const uint64_t timestamp, const Slice& value, const uint64_t offset)`
  unfoldable pub put : Segment → List ℕ → ℕ → List ℕ → ℕ → Option (Segment × Bool)
  put s key ts value offset = Option.bind (contains_key s key) (λ found.
      let rest = Option.bind (through (get slices s.segment key)) (λ entry.
        Option.bind (ensure_index s entry ts) (λ s1.
          Option.bind (through (get times (s1.value_entries entry) ts))
            (λ index. put_value s1 index value offset))) in
      if found then rest else some (s, false))

  -- The third part of `Get`: the offset of the value, or `none` for false.
  unfoldable pub get_value : Segment → ℕ → List ℕ → Option (Option ℕ)
  get_value s index value = Option.bind (contains slices (s.indexes index) value) (λ found.
      let offset = Option.map some (through (get slices (s.indexes index) value)) in
      if found then offset else some none)

  -- The second part of `Get`: the index of the time stamp.
  unfoldable pub get_index : Segment → ℕ → ℕ → List ℕ → Option (Option ℕ)
  get_index s entry ts value = Option.bind (contains times (s.value_entries entry) ts) (λ found.
      let rest =
        Option.bind (through (get times (s.value_entries entry) ts))
          (λ index. get_value s index value) in
      if found then rest else some none)

  -- `bool Get(const Slice& key, const uint64_t timestamp, const Slice& value, uint64_t& offset)`:
  -- the offset for true, and `none` for false.
  unfoldable pub get_offset : Segment → List ℕ → ℕ → List ℕ → Option (Option ℕ)
  get_offset s key ts value = Option.bind (contains_key s key) (λ found.
      let rest =
        Option.bind (through (get slices s.segment key)) (λ entry. get_index s entry ts value) in
      if found then rest else some none)

  -- `Segment(uint8_t skiplist_height)`, on what memory holds where no list has been allocated; the
  -- height is stored, and not used.
  unfoldable pub new_segment : (ℕ → ValueEntry) → (ℕ → Index) → Option Segment
  new_segment value_entries indexes =
      Option.map
        (λ (keys : Entries). record {
          segment = keys;
          value_entries = value_entries;
          indexes = indexes;
          allocated = 1;
        })
        (SkipList.new (memory 0) [] 0)
