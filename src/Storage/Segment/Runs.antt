-- ===== src/Storage/Segment/Runs.antt =====
-- A segment that the calls made, and the keys and offsets that they describe.
use mathlib.Core.Option.{none-ne-some}
use iceberg_db.Prelude.{
  ℕ, ◌≡◌, refl, sym, ap, ◌∙◌, subst, Bool, true, false, not, ◌&&◌, Option, none, some, List, [],
  if◌then◌else◌,
}
use iceberg_db.Base.Slice.{is_zero}
use iceberg_db.Base.Comparator.{Comparator}
use iceberg_db.Base.SkipList.Lookup.{is_some}
use iceberg_db.Base.SkipList.Runs.{contains-Implements, new-Implements}
use iceberg_db.Storage.Segment.{
  Segment, ValueEntry, Index, new_segment, contains_key, build_key_index, put, get_offset,
  remove_key,
}
use iceberg_db.Storage.Segment.Invariant.{IsSegment, find, get_offset-find}
use iceberg_db.Storage.Segment.Put.{is_put, is_put-true, put-Puts}
use iceberg_db.Storage.Segment.Stamp.{some-injective}
use iceberg_db.Storage.Segment.Keys.{build_key_index-Becomes}
use iceberg_db.Storage.Segment.Remove.{remove_key-Becomes}

if-and-true :
    {A : Type 0} (b : Bool) (x y : A) → (if b && true then x else y) ≡ (if b then x else y)
if-and-true true x y = refl
if-and-true false x y = refl

module _ (slices : Comparator (List ℕ)) (times : Comparator ℕ) (memory : ℕ → ℕ → ℕ → Option ℕ) where
  -- What the user of a segment sees: the keys, and the offset at a key, a time stamp and a value.
  pub record Contents : Type 0 where
    pub has : List ℕ → Bool
    pub offset_of : List ℕ → ℕ → List ℕ → Option ℕ

  abbrev pub nothing : Contents
  nothing = record { has = λ k. false; offset_of = λ k t v. none }

  abbrev pub with_key : Contents → List ℕ → Contents
  with_key c key = record c { has = λ k. if is_zero (slices.compare key k) then true else c.has k }

  abbrev pub without_key : Contents → List ℕ → Contents
  without_key c key = record {
    has = λ k. if is_zero (slices.compare key k) then false else c.has k;
    offset_of = λ k t v. if is_zero (slices.compare key k) then none else c.offset_of k t v;
  }

  -- Whether there is something to put.
  abbrev pub puts : Contents → List ℕ → ℕ → List ℕ → Bool
  puts c key ts value = c.has key && not (is_some (c.offset_of key ts value))

  abbrev pub with_value : Contents → List ℕ → ℕ → List ℕ → ℕ → Contents
  with_value c key ts value offset = record c {
    offset_of = λ k t v.
        if puts c key ts value && is_put slices times key ts value k t v
        then some offset
        else c.offset_of k t v;
  }

  pub data Run : Segment → Contents → Type 0 where
    from_new :
        (value_entries : ℕ → ValueEntry) (indexes : ℕ → Index) (s : Segment)
        → new_segment slices times memory value_entries indexes ≡ some s
        → Run s nothing
    from_build :
        (s s' : Segment) (c : Contents) (key : List ℕ) (done : Bool)
        → Run s c
        → build_key_index slices times memory s key ≡ some (s', done)
        → Run s' (with_key c key)
    from_put :
        (s s' : Segment) (c : Contents) (key : List ℕ) (ts : ℕ) (value : List ℕ) (offset : ℕ)
        (done : Bool)
        → Run s c
        → put slices times memory s key ts value offset ≡ some (s', done)
        → Run s' (with_value c key ts value offset)
    from_remove :
        (s s' : Segment) (c : Contents) (key : List ℕ) (done : Bool)
        → Run s c
        → remove_key slices times memory s key ≡ some (s', done)
        → Run s' (without_key c key)

  abbrev pub Has : Segment → Contents → Type 0
  Has s c =
      (keys : List ℕ → Option ℕ) × (stamps : ℕ → ℕ → Option ℕ) × (offsets : ℕ → List ℕ → Option ℕ)
      × IsSegment slices times s keys stamps offsets
      × ((k : List ℕ) → is_some (keys k) ≡ c.has k)
      × ((k : List ℕ) (t : ℕ) (v : List ℕ)
          → find slices times keys stamps offsets k t v ≡ c.offset_of k t v)

  -- A call returns, with a Boolean, and leaves the contents.
  abbrev pub Leaves : Option (Segment × Bool) → Bool → Contents → Type 0
  Leaves result done c = (s' : Segment) × (result ≡ some (s', done)) × Has s' c

  pub build-Leaves :
      (s : Segment) (c : Contents) (key : List ℕ)
      → Has s c
      → Leaves (build_key_index slices times memory s key) (not (c.has key)) (with_key c key)
  build-Leaves s c key (keys, stamps, offsets, h, has, same) =
      let (s', keys', stamps', returns, h', has', same') =
        build_key_index-Becomes slices times memory s keys stamps offsets h key in
      (
        s',
        returns ∙ ap (λ (b : Bool). some (s', not b)) (has key),
        (
          keys',
          stamps',
          offsets,
          h',
          (λ k.
              has' k
              ∙ ap (λ (b : Bool). if is_zero (slices.compare key k) then true else b) (has k)),
          λ k t v. same' k t v ∙ same k t v,
        ),
      )

  remove-Leaves :
      (s : Segment) (c : Contents) (key : List ℕ)
      → Has s c
      → Leaves (remove_key slices times memory s key) (c.has key) (without_key c key)
  remove-Leaves s c key (keys, stamps, offsets, h, has, same) =
      let (s', keys', stamps', returns, h', has', same') =
        remove_key-Becomes slices times memory s keys stamps offsets h key in
      (
        s',
        returns ∙ ap (λ (b : Bool). some (s', b)) (has key),
        (
          keys',
          stamps',
          offsets,
          h',
          (λ k.
              has' k
              ∙ ap (λ (b : Bool). if is_zero (slices.compare key k) then false else b) (has k)),
          λ k t v.
              same' k t v
              ∙ ap (λ (o : Option ℕ). if is_zero (slices.compare key k) then none else o)
                  (same k t v),
        ),
      )

  put-Leaves :
      (s : Segment) (c : Contents) (key : List ℕ) (ts : ℕ) (value : List ℕ) (offset : ℕ)
      → Has s c
      → Leaves
          (put slices times memory s key ts value offset)
          (puts c key ts value)
          (with_value c key ts value offset)
  put-Leaves s c key ts value offset (keys, stamps, offsets, h, has, same) =
      let (s', stamps', offsets', returns, h', same') =
        put-Puts slices times key ts value memory s keys stamps offsets h offset in
      let new : (is_some (keys key)
            && not (is_some (find slices times keys stamps offsets key ts value)))
          ≡ puts c key ts value =
        ap (λ (b : Bool). b && not (is_some (find slices times keys stamps offsets key ts value)))
          (has key)
        ∙ ap (λ (o : Option ℕ). c.has key && not (is_some o)) (same key ts value) in
      (
        s',
        returns ∙ ap (λ (b : Bool). some (s', b)) new,
        (
          keys,
          stamps',
          offsets',
          h',
          has,
          λ k t v.
              same' k t v
              ∙ ap
                  (λ (b : Bool).
                    if b && is_put slices times key ts value k t v
                    then some offset
                    else find slices times keys stamps offsets k t v)
                  new
              ∙ ap
                  (λ (o : Option ℕ).
                    if puts c key ts value && is_put slices times key ts value k t v
                    then some offset
                    else o)
                  (same k t v),
        ),
      )

  pub new_segment-Has :
      (value_entries : ℕ → ValueEntry) (indexes : ℕ → Index)
      → (s : Segment) × (new_segment slices times memory value_entries indexes ≡ some s)
        × Has s nothing
  unfolding new_segment
  new_segment-Has value_entries indexes =
      let (entries, made, has_keys) = new-Implements slices (memory 0) [] 0 in
      (
        record {
          segment = entries;
          value_entries = value_entries;
          indexes = indexes;
          allocated = 1;
        },
        rw made refl,
        (
          (λ k. none),
          (λ p t. none),
          (λ i v. none),
          record {
            has_keys = has_keys;
            has_stamps = λ k p e. cc;
            has_offsets = λ k p t i e d. cc;
            entry_below = λ k p e. absurd (none-ne-some p e);
            index_below = λ k p t i e d. absurd (none-ne-some p e);
            entry_own = λ k l p e d. cc;
            index_own = λ k p t l q u i e d e' d'. absurd (none-ne-some p e);
          },
          (λ k. refl),
          λ k t v. refl,
        ),
      )

  -- The segment that a call returned is the one that it leaves.
  Leaves-Has :
      (result : Option (Segment × Bool)) (b done : Bool) (c : Contents) (s' : Segment)
      → Leaves result b c
      → result ≡ some (s', done)
      → Has s' c
  Leaves-Has result b done c s' (s, returns, has) e =
      subst (λ t. Has t c) (ap (λ (p : Segment × Bool). p.0) (some-injective (sym returns ∙ e))) has

  pub Run-Has : (s : Segment) (c : Contents) → Run s c → Has s c
  Run-Has t d (from_new value_entries indexes s e) =
      let (s', returns, has) = new_segment-Has value_entries indexes in
      subst (λ t. Has t nothing) (some-injective (sym returns ∙ e)) has
  Run-Has t d (from_build s s' c key done run e) =
      Leaves-Has _ _ done (with_key c key) s' (build-Leaves s c key (Run-Has s c run)) e
  Run-Has t d (from_put s s' c key ts value offset done run e) =
      Leaves-Has _ _ done (with_value c key ts value offset) s'
        (put-Leaves s c key ts value offset (Run-Has s c run)) e
  Run-Has t d (from_remove s s' c key done run e) =
      Leaves-Has _ _ done (without_key c key) s' (remove-Leaves s c key (Run-Has s c run)) e

  Has-answers :
      (s : Segment) (c : Contents)
      → Has s c
      → (key : List ℕ) (ts : ℕ) (value : List ℕ)
      → (get_offset slices times memory s key ts value ≡ some (c.offset_of key ts value))
        × (contains_key slices times memory s key ≡ some (c.has key))
  unfolding contains_key
  Has-answers s c (keys, stamps, offsets, h, has, same) key ts value = (
    get_offset-find slices times memory s keys stamps offsets h key ts value
        ∙ ap some (same key ts value),
    contains-Implements slices s.segment keys h.has_keys key ∙ ap some (has key),
  )

  pub get-Run :
      (s : Segment) (c : Contents)
      → Run s c
      → (key : List ℕ) (ts : ℕ) (value : List ℕ)
      → (get_offset slices times memory s key ts value ≡ some (c.offset_of key ts value))
        × (contains_key slices times memory s key ≡ some (c.has key))
  get-Run s c run key ts value = Has-answers s c (Run-Has s c run) key ts value

  pub put-Run :
      (s : Segment) (c : Contents)
      → Run s c
      → (key : List ℕ) (ts : ℕ) (value : List ℕ) (offset : ℕ)
      → (s' : Segment) × (put slices times memory s key ts value offset
          ≡ some (s', puts c key ts value))
        × (get_offset slices times memory s' key ts value
            ≡ some (if puts c key ts value then some offset else c.offset_of key ts value))
  put-Run s c run key ts value offset =
      let (s', returns, has) = put-Leaves s c key ts value offset (Run-Has s c run) in
      let answers = Has-answers s' (with_value c key ts value offset) has key ts value in
      (
        s',
        returns,
        answers.0
            ∙ ap some (
                ap
                  (λ (b : Bool).
                    if puts c key ts value && b then some offset else c.offset_of key ts value)
                  (is_put-true slices times key ts value key ts value refl refl refl)
                ∙ if-and-true (puts c key ts value) (some offset) (c.offset_of key ts value)),
      )
