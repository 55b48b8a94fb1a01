-- ===== src/Storage/Segment/Put.antt =====
-- `Put` gives a value its offset, where its key is there and the value is not.
use mathlib.Core.Option
use iceberg_db.Prelude.{
  ℕ, ◌≡◌, refl, sym, ap, ◌∙◌, subst, Bool, true, false, not, ◌&&◌, Option, some, List, ◌==◌,
  if◌then◌else◌, Option-cases, Bool-cases, inl, inr, arith,
}
use iceberg_db.Base.Slice.{is_zero}
use iceberg_db.Base.Comparator.{Comparator}
use iceberg_db.Base.SkipList.{SkipList, update}
use iceberg_db.Base.SkipList.Chain.{update_same, update_other}
use iceberg_db.Base.SkipList.Lookup.{is_some}
use iceberg_db.Base.SkipList.Runs.{
  Implements, assign, get-Implements, contains-Implements, insert-Implements,
}
use iceberg_db.Base.SkipList.Splice.{is_zero-eq}
use iceberg_db.Storage.Segment.{Segment, contains_key, put, put_value}
use iceberg_db.Storage.Segment.Invariant.{IsSegment, find}
use iceberg_db.Storage.Segment.Stamp.{compare_self, update_two, assign-cases, ensure_index-Ensures}

all_true : (a b c : Bool) → (a && b && c) ≡ true → (a ≡ true) × (b ≡ true) × (c ≡ true)
all_true true true true h = (refl, refl, refl)
all_true true true false h = cc
all_true true false c h = cc
all_true false b c h = cc

module _ (slices : Comparator (List ℕ)) (times : Comparator ℕ) (key : List ℕ) (ts : ℕ)
    (value : List ℕ) where
  -- Whether a key, a time stamp and a value are those that are put.
  abbrev pub is_put : List ℕ → ℕ → List ℕ → Bool
  is_put k t v =
      is_zero (slices.compare key k)
      && is_zero (times.compare ts t)
      && is_zero (slices.compare value v)

  pub is_put-true :
      (k : List ℕ) (t : ℕ) (v : List ℕ) → key ≡ k → ts ≡ t → value ≡ v → is_put k t v ≡ true
  is_put-true k t v same_key same_stamp same_value =
      rw
        (
          compare_self slices key k same_key,
          compare_self times ts t same_stamp,
          compare_self slices value v same_value,
        )
        refl

  is_put-eq :
      (k : List ℕ) (t : ℕ) (v : List ℕ) → is_put k t v ≡ true → (key ≡ k) × (ts ≡ t) × (value ≡ v)
  is_put-eq k t v h =
      let (a, b, c) =
        all_true (is_zero (slices.compare key k)) (is_zero (times.compare ts t))
          (is_zero (slices.compare value v)) h in
      (
        slices.eq_of_zero key k (is_zero-eq (slices.compare key k) a),
        times.eq_of_zero ts t (is_zero-eq (times.compare ts t) b),
        slices.eq_of_zero value v (is_zero-eq (slices.compare value v) c),
      )

  module _ (memory : ℕ → ℕ → ℕ → Option ℕ) (s : Segment) (keys : List ℕ → Option ℕ)
      (stamps : ℕ → ℕ → Option ℕ) (offsets : ℕ → List ℕ → Option ℕ)
      (h : IsSegment slices times s keys stamps offsets) (p : ℕ) (there : keys key ≡ some p) (i : ℕ)
      (indexed : stamps p ts ≡ some i) (offset : ℕ) where
    abbrev offsets' : ℕ → List ℕ → Option ℕ
    offsets' = update offsets i (assign slices (offsets i) value (some offset))

    valued-IsSegment :
        (index : SkipList (List ℕ) ℕ)
        → Implements slices index (assign slices (offsets i) value (some offset))
        → IsSegment slices times
            (record s { indexes = update s.indexes i index })
            keys
            stamps
            offsets'
    valued-IsSegment index has_index = record {
      has_keys = h.has_keys;
      has_stamps = h.has_stamps;
      has_offsets = λ k q t j e d.
          update_two (Implements slices) s.indexes offsets i index _ j (λ same. has_index)
            (λ other. h.has_offsets k q t j e d);
      entry_below = h.entry_below;
      index_below = h.index_below;
      entry_own = h.entry_own;
      index_own = h.index_own;
    }

    -- At another key, time stamp or value the offset is as before.
    at_other :
        (k : List ℕ) (t : ℕ) (v : List ℕ) (q j : ℕ)
        → is_put k t v ≡ false
        → keys k ≡ some q
        → stamps q t ≡ some j
        → offsets' j v ≡ offsets j v
    at_other k t v q j other e d = elim (Bool-cases (i == j)) [
      | inr apart ↦
          ap (λ (g : List ℕ → Option ℕ). g v)
            (update_other offsets i (assign slices (offsets i) value (some offset)) j
              (ground arith))
      | inl same ↦
          let eq : i ≡ j = ground arith in
          let (list, stamp) = h.index_own key p ts k q t j there (indexed ∙ ap some eq) e d in
          let same_key = h.entry_own key k p there (e ∙ ap some (sym list)) in
          elim (assign-cases slices (offsets i) value offset v) [
            | inl (same_value, new) ↦
                let clash : true ≡ false =
                  sym (is_put-true k t v same_key stamp same_value) ∙ other in
                cc
            | inr old ↦
                subst (λ (j : ℕ). offsets' j v ≡ offsets j v) eq
                  (ap (λ (g : List ℕ → Option ℕ). g v)
                      (update_same offsets i (assign slices (offsets i) value (some offset)))
                    ∙ old)
          ]
    ]

    valued_other :
        (k : List ℕ) (t : ℕ) (v : List ℕ)
        → is_put k t v ≡ false
        → find slices times keys stamps offsets' k t v ≡ find slices times keys stamps offsets k t v
    valued_other k t v other = elim (Option-cases (keys k)) [
      | inl no_key ↦ rw no_key refl
      | inr (q, e) ↦ elim (Option-cases (stamps q t)) [
        | inl no_stamp ↦ rw (e, no_stamp) refl
        | inr (j, d) ↦ rw (e, d) (at_other k t v q j other e d)
      ]
    ]

    -- At the key, the time stamp and the value that are put.
    find_put :
        (k : List ℕ) (t : ℕ) (v : List ℕ) (others : ℕ → List ℕ → Option ℕ)
        → is_put k t v ≡ true
        → find slices times keys stamps others k t v ≡ others i value
    find_put k t v others put_there =
        let (same_key, stamp, same_value) = is_put-eq k t v put_there in
        ap (λ (l : List ℕ). find slices times keys stamps others l t v) (sym same_key)
        ∙ ap (λ (u : ℕ). find slices times keys stamps others key u v) (sym stamp)
        ∙ ap (λ (w : List ℕ). find slices times keys stamps others key ts w) (sym same_value)
        ∙ rw (there, indexed) refl

    find_new :
        (k : List ℕ) (t : ℕ) (v : List ℕ)
        → find slices times keys stamps offsets' k t v
          ≡ (if is_put k t v then some offset else find slices times keys stamps offsets k t v)
    find_new k t v = elim (Bool-cases (is_put k t v)) [
      | inl put_there ↦ rw put_there (
          find_put k t v offsets' put_there
          ∙ ap (λ (g : List ℕ → Option ℕ). g value)
              (update_same offsets i (assign slices (offsets i) value (some offset)))
          ∙ rw (compare_self slices value value refl) refl)
      | inr other ↦ rw other (valued_other k t v other)
    ]

  module _ (memory : ℕ → ℕ → ℕ → Option ℕ) (s : Segment) (keys : List ℕ → Option ℕ)
      (stamps : ℕ → ℕ → Option ℕ) (offsets : ℕ → List ℕ → Option ℕ)
      (h : IsSegment slices times s keys stamps offsets) (offset : ℕ) where
    -- Whether there is something to put: the key is there, and the value is not.
    abbrev pub is_new : Bool
    is_new =
        is_some (keys key) && not (is_some (find slices times keys stamps offsets key ts value))

    abbrev pub Puts : Type 0
    Puts =
        (s' : Segment) × (stamps' : ℕ → ℕ → Option ℕ) × (offsets' : ℕ → List ℕ → Option ℕ) × (put
            slices times memory s key ts value offset
          ≡ some (s', is_new))
        × IsSegment slices times s' keys stamps' offsets'
        × ((k : List ℕ) (t : ℕ) (v : List ℕ)
            → find slices times keys stamps' offsets' k t v ≡ (
                if is_new && is_put k t v
                then some offset
                else find slices times keys stamps offsets k t v))

    is_new_at :
        (p : ℕ)
        → keys key ≡ some p
        → is_new ≡ not (is_some (find slices times keys stamps offsets key ts value))
    is_new_at p there =
        ap
          (λ (q : Option ℕ).
            is_some q && not (is_some (find slices times keys stamps offsets key ts value)))
          there

    put_at_entry : (p : ℕ) → keys key ≡ some p → Puts
    unfolding put contains_key put_value Option.bind
    put_at_entry p there =
        let (s1, stamps1, offsets1, i, ensures, h1, indexed, same) =
          ensure_index-Ensures slices times memory s keys stamps offsets h key p there ts in
        let found = contains-Implements slices s.segment keys h.has_keys key in
        let entry = get-Implements slices s.segment keys h.has_keys key in
        let index =
          get-Implements times (s1.value_entries p) (stamps1 p) (h1.has_stamps key p there) ts in
        let has = h1.has_offsets key p ts i there indexed in
        let have = contains-Implements slices (s1.indexes i) (offsets1 i) has value in
        let old : find slices times keys stamps offsets key ts value ≡ offsets1 i value =
          sym (same key ts value) ∙ rw (there, indexed) refl in
        elim (Option-cases (offsets1 i value)) [
          | inl absent ↦
              let (i', inserts, has') =
                insert-Implements slices (s1.indexes i) (offsets1 i) value offset has absent in
              let new : is_new ≡ true =
                is_new_at p there ∙ ap (λ (o : Option ℕ). not (is_some o)) (old ∙ absent) in
              (
                record s1 { indexes = update s1.indexes i i' },
                stamps1,
                offsets' memory s1 keys stamps1 offsets1 h1 p there i indexed offset,
                rw (found, entry, there, ensures, index, indexed, have, absent, inserts) refl
                    ∙ ap (λ (b : Bool). some (record s1 { indexes = update s1.indexes i i' }, b))
                        (sym new),
                valued-IsSegment memory s1 keys stamps1 offsets1 h1 p there i indexed offset i'
                    has',
                λ k t v. rw new (
                    find_new memory s1 keys stamps1 offsets1 h1 p there i indexed offset k t v
                    ∙ ap (λ (o : Option ℕ). if is_put k t v then some offset else o) (same k t v)),
              )
          | inr (o, present) ↦
              let new : is_new ≡ false =
                is_new_at p there ∙ ap (λ (o : Option ℕ). not (is_some o)) (old ∙ present) in
              (
                s1,
                stamps1,
                offsets1,
                rw (found, entry, there, ensures, index, indexed, have, present) refl
                    ∙ ap (λ (b : Bool). some (s1, b)) (sym new),
                h1,
                λ k t v. rw new (same k t v),
              )
        ]

    pub put-Puts : Puts
    unfolding put contains_key Option.bind
    put-Puts = elim (Option-cases (keys key)) [
      | inl absent ↦
          let found = contains-Implements slices s.segment keys h.has_keys key in
          (s, stamps, offsets, rw (found, absent) refl, h, λ k t v. rw absent refl)
      | inr (p, there) ↦ put_at_entry p there
    ]
