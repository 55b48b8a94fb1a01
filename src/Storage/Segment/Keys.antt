-- ===== src/Storage/Segment/Keys.antt =====
-- `BuildKeyIndex` and `Remove`: the keys of a segment.
use mathlib.Core.Option
use iceberg_db.Prelude.{
  ℕ, ◌+◌, ◌≡◌, refl, sym, ap, ◌∙◌, Bool, true, not, Option, none, some, List, if◌then◌else◌,
  Option-cases, Bool-cases, inl, inr, ◌⊎◌, arith,
}
use iceberg_db.Base.Slice.{is_zero}
use iceberg_db.Base.Comparator.{Comparator}
use iceberg_db.Base.SkipList.{SkipList, update}
use iceberg_db.Base.SkipList.Chain.{update_same, update_other}
use iceberg_db.Base.SkipList.Splice.{is_zero-eq}
use iceberg_db.Base.SkipList.Lookup.{is_some}
use iceberg_db.Base.SkipList.Runs.{
  Implements, assign, new-Implements, contains-Implements, insert-Implements,
}
use iceberg_db.Storage.Segment.{Segment, contains_key, build_key_index, new_value_entry}
use iceberg_db.Storage.Segment.Invariant.{IsSegment, find, at_index}
use iceberg_db.Storage.Segment.Stamp.{update_two, assign-cases, some-injective}

module _ (slices : Comparator (List ℕ)) (times : Comparator ℕ) (memory : ℕ → ℕ → ℕ → Option ℕ)
    (s : Segment) (keys : List ℕ → Option ℕ) (stamps : ℕ → ℕ → Option ℕ)
    (offsets : ℕ → List ℕ → Option ℕ) (h : IsSegment slices times s keys stamps offsets)
    (key : List ℕ) where
  abbrev built_keys : List ℕ → Option ℕ
  built_keys = assign slices keys key (some s.allocated)

  abbrev built_stamps : ℕ → ℕ → Option ℕ
  built_stamps = update stamps s.allocated (λ t. none)

  built_keys-some :
      (k : List ℕ) (q : ℕ)
      → built_keys k ≡ some q
      → ((key ≡ k) × (q ≡ s.allocated)) ⊎ (keys k ≡ some q)
  built_keys-some k q e = elim (assign-cases slices keys key s.allocated k) [
    | inl (same, new) ↦ inl (same, some-injective (sym e ∙ new))
    | inr old ↦ inr (sym old ∙ e)
  ]

  -- The new list of time stamps leads nowhere.
  built_stamps-some :
      (k : List ℕ) (q t i : ℕ)
      → built_keys k ≡ some q
      → built_stamps q t ≡ some i
      → (keys k ≡ some q) × (stamps q t ≡ some i)
  built_stamps-some k q t i e d = elim (built_keys-some k q e) [
    | inl (same, new) ↦
        let empty : built_stamps q t ≡ none =
          ap (λ (r : ℕ). built_stamps r t) new
          ∙ ap (λ (g : ℕ → Option ℕ). g t) (update_same stamps s.allocated (λ t. none)) in
        cc
    | inr old ↦ (
      old,
      sym (
            ap (λ (g : ℕ → Option ℕ). g t)
              (update_other stamps s.allocated (λ t. none) q
                (omega (arith, h.entry_below k q old))))
          ∙ d,
    )
  ]

  built-IsSegment :
      (built : SkipList (List ℕ) ℕ) (entry : SkipList ℕ ℕ)
      → Implements slices built built_keys
      → Implements times entry (λ t. none)
      → IsSegment slices times
          (record s {
            segment = built;
            value_entries = update s.value_entries s.allocated entry;
            allocated = s.allocated + 1;
          })
          built_keys
          built_stamps
          offsets
  built-IsSegment built entry has_built has_entry = record {
    has_keys = has_built;
    has_stamps = λ k q e.
        update_two (Implements times) s.value_entries stamps s.allocated entry (λ t. none) q
          (λ same. has_entry)
          (λ other. elim (built_keys-some k q e) [
            | inl (same, new) ↦ absurd (other (sym new))
            | inr old ↦ h.has_stamps k q old
          ]);
    has_offsets = λ k q t i e d.
        let (old, stamp) = built_stamps-some k q t i e d in h.has_offsets k q t i old stamp;
    entry_below = λ k q e. elim (built_keys-some k q e) [
      | inl (same, new) ↦ omega (arith, new)
      | inr old ↦ omega (arith, h.entry_below k q old)
    ];
    index_below = λ k q t i e d.
        let (old, stamp) = built_stamps-some k q t i e d in
        omega (arith, h.index_below k q t i old stamp);
    entry_own = λ k l q e d. elim (built_keys-some k q e) [
      | inl (same, new) ↦ elim (built_keys-some l q d) [
        | inl (same', new') ↦ sym same ∙ same'
        | inr old' ↦ absurd (omega (arith, new, h.entry_below l q old'))
      ]
      | inr old ↦ elim (built_keys-some l q d) [
        | inl (same', new') ↦ absurd (omega (arith, new', h.entry_below k q old))
        | inr old' ↦ h.entry_own k l q old old'
      ]
    ];
    index_own = λ k q t l r u i e d e' d'.
        let (old, stamp) = built_stamps-some k q t i e d in
        let (old', stamp') = built_stamps-some l r u i e' d' in
        h.index_own k q t l r u i old stamp old' stamp';
  }

  built-find :
      keys key ≡ none
      → (k : List ℕ) (t : ℕ) (v : List ℕ)
      → find slices times built_keys built_stamps offsets k t v
        ≡ find slices times keys stamps offsets k t v
  built-find absent k t v = elim (assign-cases slices keys key s.allocated k) [
    | inl (same, new) ↦
        let before : keys k ≡ none = ap keys (sym same) ∙ absent in
        rw (new, before)
          (ap (λ (g : ℕ → Option ℕ). at_index slices times offsets v (g t))
            (update_same stamps s.allocated (λ t. none)))
    | inr old ↦ elim (Option-cases (keys k)) [
      | inl no_key ↦ rw (old, no_key) refl
      | inr (q, e) ↦
          rw (old, e)
            (ap (λ (g : ℕ → Option ℕ). at_index slices times offsets v (g t))
              (update_other stamps s.allocated (λ t. none) q (omega (arith, h.entry_below k q e))))
    ]
  ]

  -- The keys and offsets after a call, and what it returns.
  abbrev pub Becomes :
      Option (Segment × Bool) → Bool → (List ℕ → Bool) → (List ℕ → ℕ → List ℕ → Option ℕ) → Type 0
  Becomes result done has offset_of =
      (s' : Segment) × (keys' : List ℕ → Option ℕ) × (stamps' : ℕ → ℕ → Option ℕ) × (result
        ≡ some (s', done))
      × IsSegment slices times s' keys' stamps' offsets
      × ((k : List ℕ) → is_some (keys' k) ≡ has k)
      × ((k : List ℕ) (t : ℕ) (v : List ℕ)
          → find slices times keys' stamps' offsets k t v ≡ offset_of k t v)

  built-has :
      (k : List ℕ)
      → is_some (built_keys k) ≡ (if is_zero (slices.compare key k) then true else is_some (keys k))
  built-has k = elim (Bool-cases (is_zero (slices.compare key k))) [
    | inl b ↦ rw b refl
    | inr b ↦ rw b refl
  ]

  present-has :
      (p : ℕ)
      → keys key ≡ some p
      → (k : List ℕ)
      → is_some (keys k) ≡ (if is_zero (slices.compare key k) then true else is_some (keys k))
  present-has p present k = elim (Bool-cases (is_zero (slices.compare key k))) [
    | inl b ↦ rw b (
        ap is_some
          (ap keys (sym (slices.eq_of_zero key k (is_zero-eq (slices.compare key k) b))) ∙ present))
    | inr b ↦ rw b refl
  ]

  pub build_key_index-Becomes :
      Becomes
        (build_key_index slices times memory s key)
        (not (is_some (keys key)))
        (λ k. if is_zero (slices.compare key k) then true else is_some (keys k))
        (find slices times keys stamps offsets)
  unfolding build_key_index contains_key new_value_entry Option.bind
  build_key_index-Becomes =
      let found = contains-Implements slices s.segment keys h.has_keys key in
      elim (Option-cases (keys key)) [
        | inl absent ↦
            let (entry, made, has_entry) = new-Implements times (memory s.allocated) 0 0 in
            let (built, inserts, has_built) =
              insert-Implements slices s.segment keys key s.allocated h.has_keys absent in
            (
              record s {
                segment = built;
                value_entries = update s.value_entries s.allocated entry;
                allocated = s.allocated + 1;
              },
              built_keys,
              built_stamps,
              rw (found, absent, made, inserts) refl,
              built-IsSegment built entry has_built has_entry,
              built-has,
              built-find absent,
            )
        | inr (p, present) ↦
            (s, keys, stamps, rw (found, present) refl, h, present-has p present, λ k t v. refl)
      ]
