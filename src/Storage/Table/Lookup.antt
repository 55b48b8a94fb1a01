-- ===== src/Storage/Table/Lookup.antt =====
-- An entry in the contents of the index: its offset is found at each of its keys that was free.
use iceberg_db.Prelude.{
  ℕ, zero, suc, ◌≡◌, refl, ap, ◌∙◌, Bool, true, Option, none, some, List, [], ◌∷◌, ◌⊎◌, inl, inr,
  get_elem?, if◌then◌else◌, Bool-cases, not, ◌&&◌,
}
use iceberg_db.Base.Comparator.{Comparator}
use iceberg_db.Base.SkipList.Lookup.{is_some}
use iceberg_db.Storage.Segment.Comparators.{time_stamp_comparator}
use iceberg_db.Storage.Segment.Put.{is_put, is_put-true}
use iceberg_db.Storage.Segment.Runs.{puts}
use iceberg_db.Storage.Table.View.{ContentsOf, with_item, with_item-present, with_items}

module _ (slices : Comparator (List ℕ)) (memory : ℕ → ℕ → ℕ → Option ℕ) (k : List ℕ) (ts : ℕ)
    (v : List ℕ) (offset : ℕ) where
  -- There is no offset yet, or the one that is put.
  abbrev Free : ContentsOf slices memory → Type 0
  Free c = (c.offset_of k ts v ≡ none) ⊎ (c.offset_of k ts v ≡ some offset)

  abbrev Found : ContentsOf slices memory → Type 0
  Found c = c.offset_of k ts v ≡ some offset

  item_offset :
      (c : ContentsOf slices memory) (key value : List ℕ)
      → Found (with_item slices memory c key ts value offset)
        ⊎ ((with_item slices memory c key ts value offset).offset_of k ts v ≡ c.offset_of k ts v)
  item_offset c key value = elim (Bool-cases (c.has key)) [
    | inl present ↦
        let now =
          ap (λ (d : ContentsOf slices memory). d.offset_of k ts v)
            (with_item-present slices memory c key ts value offset present) in
        elim (Bool-cases (
          puts slices time_stamp_comparator memory c key ts value
          && is_put slices time_stamp_comparator key ts value k ts v)) [
            | inl e ↦ inl (now ∙ ap (λ (b : Bool). if b then some offset else c.offset_of k ts v) e)
            | inr e ↦ inr (now ∙ ap (λ (b : Bool). if b then some offset else c.offset_of k ts v) e)
          ]
    | inr absent ↦ inr (rw absent refl)
  ]

  item_has :
      (c : ContentsOf slices memory) (key value : List ℕ)
      → (with_item slices memory c key ts value offset).has k ≡ c.has k
  item_has c key value = elim (Bool-cases (c.has key)) [
    | inl present ↦
        ap (λ (d : ContentsOf slices memory). d.has k)
          (with_item-present slices memory c key ts value offset present)
    | inr absent ↦ rw absent refl
  ]

  item-Found :
      (c : ContentsOf slices memory) (key value : List ℕ)
      → Found c
      → Found (with_item slices memory c key ts value offset)
  item-Found c key value found = elim (item_offset c key value) [
    | inl now ↦ now
    | inr same ↦ same ∙ found
  ]

  item-Free :
      (c : ContentsOf slices memory) (key value : List ℕ)
      → Free c
      → Free (with_item slices memory c key ts value offset)
  item-Free c key value (inl free) = elim (item_offset c key value) [
    | inl now ↦ inr now
    | inr same ↦ inl (same ∙ free)
  ]
  item-Free c key value (inr found) = inr (item-Found c key value found)

  own_item-Found :
      (c : ContentsOf slices memory)
      → c.has k ≡ true
      → Free c
      → Found (with_item slices memory c k ts v offset)
  own_item-Found c present (inr found) = item-Found c k v found
  own_item-Found c present (inl free) =
      ap (λ (d : ContentsOf slices memory). d.offset_of k ts v)
        (with_item-present slices memory c k ts v offset present)
      ∙ ap
          (λ (b : Bool).
            if (b && not (is_some (c.offset_of k ts v)))
              && is_put slices time_stamp_comparator k ts v k ts v
            then some offset
            else c.offset_of k ts v)
          present
      ∙ ap
          (λ (o : Option ℕ).
            if not (is_some o) && is_put slices time_stamp_comparator k ts v k ts v
            then some offset
            else c.offset_of k ts v)
          free
      ∙ ap (λ (b : Bool). if b then some offset else c.offset_of k ts v)
          (is_put-true slices time_stamp_comparator k ts v k ts v refl refl refl)

  items-Found :
      (c : ContentsOf slices memory) (keys values : List (List ℕ))
      → Found c
      → Found (with_items slices memory c keys values ts offset)
  unfolding with_items
  items-Found c [] values found = found
  items-Found c (key ∷ keys) [] found = found
  items-Found c (key ∷ keys) (value ∷ values) found =
      items-Found (with_item slices memory c key ts value offset) keys values
        (item-Found c key value found)

  -- An entry at a key that there is, with no offset at its time stamp and value: the contents then have
  -- the entry's offset there.
  pub with_items-Found :
      (c : ContentsOf slices memory) (keys values : List (List ℕ)) (i : ℕ)
      → get_elem? keys i ≡ some k
      → get_elem? values i ≡ some v
      → c.has k ≡ true
      → Free c
      → Found (with_items slices memory c keys values ts offset)
  unfolding with_items
  with_items-Found c [] values i has_key has_value present free = cc
  with_items-Found c (key ∷ keys) [] i has_key has_value present free = cc
  with_items-Found c (key ∷ keys) (value ∷ values) zero has_key has_value present free =
      let same_key : key ≡ k = cc in
      let same_value : value ≡ v = cc in
      let own : Found (with_item slices memory c key ts value offset) =
        rw (same_key, same_value) (own_item-Found c present free) in
      items-Found (with_item slices memory c key ts value offset) keys values own
  with_items-Found c (key ∷ keys) (value ∷ values) (suc i) has_key has_value present free =
      with_items-Found (with_item slices memory c key ts value offset) keys values i has_key
        has_value (item_has c key value ∙ present) (item-Free c key value free)
