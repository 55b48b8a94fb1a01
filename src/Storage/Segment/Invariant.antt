-- ===== src/Storage/Segment/Invariant.antt =====
-- The maps that a segment holds, and `Get`.
use mathlib.Core.Option
use iceberg_db.Prelude.{ℕ, ◌<◌, ◌≡◌, refl, Option, none, some, List, Option-cases, inl, inr}
use iceberg_db.Base.Comparator.{Comparator}
use iceberg_db.Base.SkipList.Runs.{Implements, get-Implements, contains-Implements}
use iceberg_db.Storage.Segment.{Segment, contains_key, get_offset, get_index, get_value}

module _ (slices : Comparator (List ℕ)) (times : Comparator ℕ) where
  -- `keys` leads from a key to a list of time stamps, `stamps` from such a list and a time stamp to a
  -- list of values, and `offsets` from such a list and a value to its offset. Each list that is led to
  -- has been allocated, and is led to once.
  pub record IsSegment (s : Segment) (keys : List ℕ → Option ℕ) (stamps : ℕ → ℕ → Option ℕ)
      (offsets : ℕ → List ℕ → Option ℕ) : Type 0 where
    pub has_keys : Implements slices s.segment keys
    pub has_stamps :
        (k : List ℕ) (p : ℕ) → keys k ≡ some p → Implements times (s.value_entries p) (stamps p)
    pub has_offsets :
        (k : List ℕ) (p t i : ℕ)
        → keys k ≡ some p
        → stamps p t ≡ some i
        → Implements slices (s.indexes i) (offsets i)
    pub entry_below : (k : List ℕ) (p : ℕ) → keys k ≡ some p → p < s.allocated
    pub index_below :
        (k : List ℕ) (p t i : ℕ) → keys k ≡ some p → stamps p t ≡ some i → i < s.allocated
    pub entry_own : (k l : List ℕ) (p : ℕ) → keys k ≡ some p → keys l ≡ some p → k ≡ l
    pub index_own :
        (k : List ℕ) (p t : ℕ) (l : List ℕ) (q u i : ℕ)
        → keys k ≡ some p
        → stamps p t ≡ some i
        → keys l ≡ some q
        → stamps q u ≡ some i
        → (p ≡ q) × (t ≡ u)

  -- The offset at a key, a time stamp and a value.
  abbrev pub at_index : (ℕ → List ℕ → Option ℕ) → List ℕ → Option ℕ → Option ℕ
  at_index offsets v none = none
  at_index offsets v (some i) = offsets i v

  abbrev pub at_entry :
      (ℕ → ℕ → Option ℕ) → (ℕ → List ℕ → Option ℕ) → ℕ → List ℕ → Option ℕ → Option ℕ
  at_entry stamps offsets t v none = none
  at_entry stamps offsets t v (some p) = at_index offsets v (stamps p t)

  abbrev pub find :
      (List ℕ → Option ℕ)
      → (ℕ → ℕ → Option ℕ)
      → (ℕ → List ℕ → Option ℕ)
      → List ℕ
      → ℕ
      → List ℕ
      → Option ℕ
  find keys stamps offsets k t v = at_entry stamps offsets t v (keys k)

  module _ (memory : ℕ → ℕ → ℕ → Option ℕ) (s : Segment) (keys : List ℕ → Option ℕ)
      (stamps : ℕ → ℕ → Option ℕ) (offsets : ℕ → List ℕ → Option ℕ)
      (h : IsSegment s keys stamps offsets) where
    get_value-found :
        (i : ℕ)
        → Implements slices (s.indexes i) (offsets i)
        → (v : List ℕ) → get_value slices times memory s i v ≡ some (offsets i v)
    unfolding get_value Option.bind
    get_value-found i has v =
        let there = contains-Implements slices (s.indexes i) (offsets i) has v in
        let value = get-Implements slices (s.indexes i) (offsets i) has v in
        elim (Option-cases (offsets i v)) [
          | inl absent ↦ rw (there, value, absent) refl
          | inr (offset, present) ↦ rw (there, value, present) refl
        ]

    get_index-found :
        (k : List ℕ) (p : ℕ)
        → keys k ≡ some p
        → (t : ℕ) (v : List ℕ)
        → get_index slices times memory s p t v ≡ some (at_index offsets v (stamps p t))
    unfolding get_index Option.bind
    get_index-found k p e t v =
        let there =
          contains-Implements times (s.value_entries p) (stamps p) (h.has_stamps k p e) t in
        let value = get-Implements times (s.value_entries p) (stamps p) (h.has_stamps k p e) t in
        elim (Option-cases (stamps p t)) [
          | inl absent ↦ rw (there, value, absent) refl
          | inr (i, present) ↦
              rw (there, value, present) (get_value-found i (h.has_offsets k p t i e present) v)
        ]

    pub get_offset-find :
        (k : List ℕ) (t : ℕ) (v : List ℕ)
        → get_offset slices times memory s k t v ≡ some (find keys stamps offsets k t v)
    unfolding get_offset contains_key Option.bind
    get_offset-find k t v =
        let there = contains-Implements slices s.segment keys h.has_keys k in
        let value = get-Implements slices s.segment keys h.has_keys k in
        elim (Option-cases (keys k)) [
          | inl absent ↦ rw (there, value, absent) refl
          | inr (p, present) ↦ rw (there, value, present) (get_index-found k p present t v)
        ]
