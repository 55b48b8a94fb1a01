-- ===== src/Storage/Segment/Remove.antt =====
-- `Remove`: a key is taken out of a segment, with all that it leads to.
use mathlib.Core.Option
use iceberg_db.Prelude.{
  ℕ, ◌≡◌, refl, sym, ap, ◌∙◌, true, false, Option, none, some, List, if◌then◌else◌, Option-cases,
  Bool-cases, inl, inr,
}
use iceberg_db.Base.Slice.{is_zero}
use iceberg_db.Base.Comparator.{Comparator}
use iceberg_db.Base.SkipList.{SkipList}
use iceberg_db.Base.SkipList.Splice.{is_zero-eq}
use iceberg_db.Base.SkipList.Lookup.{is_some}
use iceberg_db.Base.SkipList.Runs.{Implements, assign, contains-Implements, remove-Implements}
use iceberg_db.Storage.Segment.{Segment, contains_key, remove_key}
use iceberg_db.Storage.Segment.Invariant.{IsSegment, find, at_entry}
use iceberg_db.Storage.Segment.Keys.{Becomes}

module _ (slices : Comparator (List ℕ)) (times : Comparator ℕ) (memory : ℕ → ℕ → ℕ → Option ℕ)
    (s : Segment) (keys : List ℕ → Option ℕ) (stamps : ℕ → ℕ → Option ℕ)
    (offsets : ℕ → List ℕ → Option ℕ) (h : IsSegment slices times s keys stamps offsets)
    (key : List ℕ) where
  abbrev kept_keys : List ℕ → Option ℕ
  kept_keys = assign slices keys key none

  kept_keys-some : (k : List ℕ) (q : ℕ) → kept_keys k ≡ some q → keys k ≡ some q
  kept_keys-some k q e = elim (Bool-cases (is_zero (slices.compare key k))) [
    | inl same ↦ let gone : kept_keys k ≡ none = rw same refl in cc
    | inr other ↦ let kept : kept_keys k ≡ keys k = rw other refl in sym kept ∙ e
  ]

  kept-IsSegment :
      (kept : SkipList (List ℕ) ℕ)
      → Implements slices kept kept_keys
      → IsSegment slices times (record s { segment = kept }) kept_keys stamps offsets
  kept-IsSegment kept has_kept = record {
    has_keys = has_kept;
    has_stamps = λ k q e. h.has_stamps k q (kept_keys-some k q e);
    has_offsets = λ k q t i e d. h.has_offsets k q t i (kept_keys-some k q e) d;
    entry_below = λ k q e. h.entry_below k q (kept_keys-some k q e);
    index_below = λ k q t i e d. h.index_below k q t i (kept_keys-some k q e) d;
    entry_own = λ k l q e d. h.entry_own k l q (kept_keys-some k q e) (kept_keys-some l q d);
    index_own = λ k q t l r u i e d e' d'.
        h.index_own k q t l r u i (kept_keys-some k q e) d (kept_keys-some l r e') d';
  }

  kept-has :
      (k : List ℕ)
      → is_some (kept_keys k) ≡ (if is_zero (slices.compare key k) then false else is_some (keys k))
  kept-has k = elim (Bool-cases (is_zero (slices.compare key k))) [
    | inl b ↦ rw b refl
    | inr b ↦ rw b refl
  ]

  kept-find :
      (k : List ℕ) (t : ℕ) (v : List ℕ)
      → find slices times kept_keys stamps offsets k t v ≡ (
          if is_zero (slices.compare key k)
          then none
          else find slices times keys stamps offsets k t v)
  kept-find k t v = elim (Bool-cases (is_zero (slices.compare key k))) [
    | inl b ↦ rw b refl
    | inr b ↦ rw b refl
  ]

  absent-keys :
      keys key ≡ none → (k : List ℕ) → is_zero (slices.compare key k) ≡ true → keys k ≡ none
  absent-keys absent k same =
      ap keys (sym (slices.eq_of_zero key k (is_zero-eq (slices.compare key k) same))) ∙ absent

  absent-has :
      keys key ≡ none
      → (k : List ℕ)
      → is_some (keys k) ≡ (if is_zero (slices.compare key k) then false else is_some (keys k))
  absent-has absent k = elim (Bool-cases (is_zero (slices.compare key k))) [
    | inl b ↦ rw b (ap is_some (absent-keys absent k b))
    | inr b ↦ rw b refl
  ]

  absent-find :
      keys key ≡ none
      → (k : List ℕ) (t : ℕ) (v : List ℕ)
      → find slices times keys stamps offsets k t v ≡ (
          if is_zero (slices.compare key k)
          then none
          else find slices times keys stamps offsets k t v)
  absent-find absent k t v = elim (Bool-cases (is_zero (slices.compare key k))) [
    | inl b ↦ rw b (ap (at_entry slices times stamps offsets t v) (absent-keys absent k b))
    | inr b ↦ rw b refl
  ]

  pub remove_key-Becomes :
      Becomes slices times memory s keys stamps offsets h key
        (remove_key slices times memory s key)
        (is_some (keys key))
        (λ k. if is_zero (slices.compare key k) then false else is_some (keys k))
        (λ k t v.
          if is_zero (slices.compare key k)
          then none
          else find slices times keys stamps offsets k t v)
  unfolding remove_key contains_key Option.bind
  remove_key-Becomes =
      let found = contains-Implements slices s.segment keys h.has_keys key in
      let (kept, removes, has_kept) = remove-Implements slices s.segment keys key h.has_keys in
      elim (Option-cases (keys key)) [
        | inl absent ↦
            (s, keys, stamps, rw (found, absent) refl, h, absent-has absent, absent-find absent)
        | inr (p, present) ↦ (
          record s { segment = kept },
          kept_keys,
          stamps,
          rw (found, removes, present) refl,
          kept-IsSegment kept has_kept,
          kept-has,
          kept-find,
        )
      ]
