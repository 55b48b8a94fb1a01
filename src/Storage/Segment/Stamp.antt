-- ===== src/Storage/Segment/Stamp.antt =====
-- The first part of `Put`: a time stamp without an index gets a new one.
pub use iceberg_db.Prelude.{some-injective}
use mathlib.Core.Option
use iceberg_db.Prelude.{
  ℕ, ◌+◌, ◌≡◌, ◌≢◌, refl, sym, ap, ◌∙◌, subst, true, Option, none, some, List, [], ◌==◌,
  Option-cases, Bool-cases, inl, inr, ◌⊎◌, arith,
}
use iceberg_db.Base.Slice.{Sign, negative, zero_sign, positive, is_zero}
use iceberg_db.Base.Slice.Order.{opposite}
use iceberg_db.Base.Comparator.{Comparator}
use iceberg_db.Base.SkipList.{SkipList, update}
use iceberg_db.Base.SkipList.Chain.{update_same, update_other}
use iceberg_db.Base.SkipList.Splice.{is_zero-eq}
use iceberg_db.Base.SkipList.Lookup.{is_some}
use iceberg_db.Base.SkipList.Runs.{
  Implements, assign, new-Implements, contains-Implements, insert-Implements,
}
use iceberg_db.Storage.Segment.{Segment, ensure_index, new_index}
use iceberg_db.Storage.Segment.Invariant.{IsSegment, find, at_index}

-- Two functions that are updated at the same argument.
pub update_two :
    {A B : Type 0} (P : A → B → Type 0) (f : ℕ → A) (g : ℕ → B) (p : ℕ) (a : A) (b : B) (q : ℕ)
    → (p ≡ q → P a b)
    → (p ≢ q → P (f q) (g q))
    → P (update f p a q) (update g p b q)
update_two P f g p a b q here there = elim (Bool-cases (p == q)) [
  | inl t ↦ rw t (here (ground arith))
  | inr t ↦ rw t (there (ground arith))
]

pub assign-cases :
    {K V : Type 0} (o : Comparator K) (m : K → Option V) (key : K) (v : V) (k : K)
    → ((key ≡ k) × (assign o m key (some v) k ≡ some v)) ⊎ (assign o m key (some v) k ≡ m k)
assign-cases o m key v k = elim (Bool-cases (is_zero (o.compare key k))) [
  | inl same ↦ inl (o.eq_of_zero key k (is_zero-eq (o.compare key k) same), rw same refl)
  | inr other ↦ inr (rw other refl)
]

opposite_self : (s : Sign) → s ≡ opposite s → is_zero s ≡ true
unfolding opposite is_zero
opposite_self negative h = cc
opposite_self zero_sign h = refl
opposite_self positive h = cc

pub compare_self :
    {K : Type 0} (o : Comparator K) (k l : K) → k ≡ l → is_zero (o.compare k l) ≡ true
compare_self o k l e =
    subst (λ l. is_zero (o.compare k l) ≡ true) e
      (opposite_self (o.compare k k) (o.compare-flip k k))

module _ (slices : Comparator (List ℕ)) (times : Comparator ℕ) (memory : ℕ → ℕ → ℕ → Option ℕ)
    (s : Segment) (keys : List ℕ → Option ℕ) (stamps : ℕ → ℕ → Option ℕ)
    (offsets : ℕ → List ℕ → Option ℕ) (h : IsSegment slices times s keys stamps offsets)
    (key : List ℕ) (p : ℕ) (there : keys key ≡ some p) (ts : ℕ) where
  abbrev stamps' : ℕ → ℕ → Option ℕ
  stamps' = update stamps p (assign times (stamps p) ts (some s.allocated))

  abbrev offsets' : ℕ → List ℕ → Option ℕ
  offsets' = update offsets s.allocated (λ v. none)

  -- What is at a time stamp is the new index, or what was there.
  stamps'-cases :
      (q t : ℕ)
      → ((q ≡ p) × (ts ≡ t) × (stamps' q t ≡ some s.allocated)) ⊎ (stamps' q t ≡ stamps q t)
  stamps'-cases q t = elim (Bool-cases (p == q)) [
    | inl same ↦
        let eq : p ≡ q = ground arith in
        elim (assign-cases times (stamps p) ts s.allocated t) [
          | inl (stamp, value) ↦ inl (sym eq, stamp, rw same value)
          | inr value ↦ inr (rw same (value ∙ ap (λ (r : ℕ). stamps r t) eq))
        ]
    | inr other ↦ inr (rw other refl)
  ]

  stamps'-some :
      (q t i : ℕ)
      → stamps' q t ≡ some i
      → ((q ≡ p) × (ts ≡ t) × (i ≡ s.allocated)) ⊎ (stamps q t ≡ some i)
  stamps'-some q t i e = elim (stamps'-cases q t) [
    | inl (eq, stamp, value) ↦ inl (eq, stamp, some-injective (sym e ∙ value))
    | inr value ↦ inr (sym value ∙ e)
  ]

  stamped-IsSegment :
      (entry : SkipList ℕ ℕ) (index : SkipList (List ℕ) ℕ)
      → Implements times entry (assign times (stamps p) ts (some s.allocated))
      → Implements slices index (λ v. none)
      → IsSegment slices times
          (record s {
            value_entries = update s.value_entries p entry;
            indexes = update s.indexes s.allocated index;
            allocated = s.allocated + 1;
          })
          keys
          stamps'
          offsets'
  stamped-IsSegment entry index has_entry has_index = record {
    has_keys = h.has_keys;
    has_stamps = λ k q e.
        update_two (Implements times) s.value_entries stamps p entry _ q (λ same. has_entry)
          (λ other. h.has_stamps k q e);
    has_offsets = λ k q t i e d.
        update_two (Implements slices) s.indexes offsets s.allocated index (λ v. none) i
          (λ same. has_index)
          (λ other. elim (stamps'-some q t i d) [
            | inl (eq, stamp, new) ↦ absurd (other (sym new))
            | inr old ↦ h.has_offsets k q t i e old
          ]);
    entry_below = λ k q e. omega (arith, h.entry_below k q e);
    index_below = λ k q t i e d. elim (stamps'-some q t i d) [
      | inl (eq, stamp, new) ↦ omega (arith, new)
      | inr old ↦ omega (arith, h.index_below k q t i e old)
    ];
    entry_own = h.entry_own;
    index_own = λ k q t l r u i e d e' d'. elim (stamps'-some q t i d) [
      | inl (eq, stamp, new) ↦ elim (stamps'-some r u i d') [
        | inl (eq', stamp', new') ↦ (eq ∙ sym eq', sym stamp ∙ stamp')
        | inr old' ↦ absurd (omega (arith, new, h.index_below l r u i e' old'))
      ]
      | inr old ↦ elim (stamps'-some r u i d') [
        | inl (eq', stamp', new') ↦ absurd (omega (arith, new', h.index_below k q t i e old))
        | inr old' ↦ h.index_own k q t l r u i e old e' old'
      ]
    ];
  }

  stamped-at_entry :
      stamps p ts ≡ none
      → (k : List ℕ) (q : ℕ) → keys k ≡ some q
      → (t : ℕ) (v : List ℕ)
      → at_index slices times offsets' v (stamps' q t)
        ≡ at_index slices times offsets v (stamps q t)
  stamped-at_entry absent k q e t v = elim (stamps'-cases q t) [
    | inl (eq, stamp, value) ↦
        let before : stamps q t ≡ none =
          ap (λ (r : ℕ). stamps r t) eq ∙ ap (stamps p) (sym stamp) ∙ absent in
        rw (value, before)
          (ap (λ (g : List ℕ → Option ℕ). g v) (update_same offsets s.allocated (λ v. none)))
    | inr value ↦ elim (Option-cases (stamps q t)) [
      | inl none_there ↦ rw (value, none_there) refl
      | inr (i, some_there) ↦
          rw (value, some_there)
            (ap (λ (g : List ℕ → Option ℕ). g v)
              (update_other offsets s.allocated (λ v. none) i
                (omega (arith, h.index_below k q t i e some_there))))
    ]
  ]

  -- The segment afterwards, with an index at the time stamp and all offsets as before.
  abbrev pub Ensures : Type 0
  Ensures =
      (s' : Segment) × (stamps' : ℕ → ℕ → Option ℕ) × (offsets' : ℕ → List ℕ → Option ℕ) × (i : ℕ)
      × (ensure_index slices times memory s p ts ≡ some s')
      × IsSegment slices times s' keys stamps' offsets'
      × (stamps' p ts ≡ some i)
      × ((k : List ℕ) (t : ℕ) (v : List ℕ)
          → find slices times keys stamps' offsets' k t v
            ≡ find slices times keys stamps offsets k t v)

  ensure_index_new : stamps p ts ≡ none → Ensures
  unfolding ensure_index new_index Option.bind
  ensure_index_new absent =
      let has = h.has_stamps key p there in
      let found =
        contains-Implements times (s.value_entries p) (stamps p) has ts
        ∙ ap (λ (v : Option ℕ). some (is_some v)) absent in
      let (index, made, has_index) = new-Implements slices (memory s.allocated) [] 0 in
      let (entry, inserts, has_entry) =
        insert-Implements times (s.value_entries p) (stamps p) ts s.allocated has absent in
      (
        record s {
          value_entries = update s.value_entries p entry;
          indexes = update s.indexes s.allocated index;
          allocated = s.allocated + 1;
        },
        stamps',
        offsets',
        s.allocated,
        rw (found, made, inserts) refl,
        stamped-IsSegment entry index has_entry has_index,
        ap (λ (g : ℕ → Option ℕ). g ts)
              (update_same stamps p (assign times (stamps p) ts (some s.allocated)))
            ∙ rw (compare_self times ts ts refl) refl,
        λ k t v. elim (Option-cases (keys k)) [
          | inl no_key ↦ rw no_key refl
          | inr (q, e) ↦ rw e (stamped-at_entry absent k q e t v)
        ],
      )

  pub ensure_index-Ensures : Ensures
  unfolding ensure_index Option.bind
  ensure_index-Ensures = elim (Option-cases (stamps p ts)) [
    | inl absent ↦ ensure_index_new absent
    | inr (i, present) ↦
        let found =
          contains-Implements times (s.value_entries p) (stamps p) (h.has_stamps key p there) ts
          ∙ ap (λ (v : Option ℕ). some (is_some v)) present in
        (s, stamps, offsets, i, rw found refl, h, present, λ k t v. refl)
  ]
