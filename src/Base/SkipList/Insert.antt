-- ===== src/Base/SkipList/Insert.antt =====
-- `Insert` of a key that the list does not hold.
use iceberg_db.Prelude.{
  ℕ, ◌-◌, ◌≤◌, ◌<◌, ◌≡◌, refl, sym, ap, ◌∙◌, true, false, Option, none, some, List, ◌∷◌, ◌++◌, ltb,
  if◌then◌else◌, All, All-append_left, subst, arith, inl, inr, Bool-cases,
}
use iceberg_db.Base.Slice.{is_zero}
use iceberg_db.Base.Comparator.{Comparator}
use iceberg_db.Base.SkipList.{
  SkipList, new_node, random_height, insert, fill_prev, equals_node, find_greater_or_equal,
}
use iceberg_db.Base.SkipList.Chain.{Entry, first, last_or, at_level, update_same, update_other}
use iceberg_db.Base.SkipList.Entries.{under, from, under-append-from, Before, lookup}
use iceberg_db.Base.SkipList.Search.{IsStored}
use iceberg_db.Base.SkipList.Invariant.{Holds}
use iceberg_db.Base.SkipList.Lookup.{find_greater_or_equal-Finds, equals_node-lookup, is_some}
use iceberg_db.Base.SkipList.Loops.{random_height-bounds, fill_prev-eq, link-Relinks}
use iceberg_db.Base.SkipList.Splice.{under-before, from-after, lookup-insert}
use iceberg_db.Base.SkipList.Linked.{
  lt-cases, last_or-height, at_level-above, All-stored, with_node, with_node-Holds,
}

module _ {K V : Type 0} where
  module _ (o : Comparator K) where
    -- The nodes that `Insert` links the new node behind.
    prev-last :
        (s : SkipList K V) (xs ys : List (Entry K V)) (height : ℕ) (prev : ℕ → Option ℕ)
        → Holds o s (xs ++ ys)
        → ((j : ℕ) → j ≤ s.max_height - 1 → prev j ≡ some (last_or s.head (at_level j xs)))
        → (j : ℕ) → j < height
        → (if ltb s.max_height height
              then fill_prev (height - s.max_height) s.max_height s.head prev
              else prev)
            j
          ≡ some (last_or s.head (at_level j xs))
    prev-last s xs ys height prev h found j low =
        let filled = fill_prev-eq (height - s.max_height) s.max_height s.head prev j in
        elim (lt-cases j s.max_height) [
          | inl within ↦ elim (Bool-cases (ltb s.max_height height)) [
            | inl t ↦ rw t (filled.0 within ∙ found j (omega arith))
            | inr t ↦ rw t (found j (omega arith))
          ]
          | inr above ↦
              let taller : ltb s.max_height height ≡ true = ground arith in
              let empty =
                at_level-above j s.max_height xs (All-append_left _ xs ys h.heights) above in
              rw (taller, empty) (filled.1 above (omega arith))
        ]

    abbrev pub inserted : SkipList K V → K → V → Entry K V
    inserted s key value = record {
      at = s.heap.size;
      height = (random_height s.rnd).1;
      key = key;
      value = value;
    }

    insert-between :
        (s : SkipList K V) (xs ys : List (Entry K V)) (key : K) (value : V) (prev : ℕ → Option ℕ)
        → Holds o s (xs ++ ys)
        → find_greater_or_equal o s key (λ i. none) ≡ some (first ys, prev)
        → equals_node o s.heap key (first ys) ≡ false
        → ((j : ℕ) → j ≤ s.max_height - 1 → prev j ≡ some (last_or s.head (at_level j xs)))
        → All (λ e. Before o e (inserted s key value)) xs
        → All (Before o (inserted s key value)) ys
        → (s' : SkipList K V) × (insert o s key value ≡ some s')
          × Holds o s' (xs ++ inserted s key value ∷ ys)
    unfolding insert new_node
    insert-between s xs ys key value prev h returns absent found before after =
        let n = inserted s key value in
        let bounds = random_height-bounds s.rnd in
        let prev' =
          if ltb s.max_height n.height
          then fill_prev (n.height - s.max_height) s.max_height s.head prev
          else prev in
        let h1 = (new_node s.heap key value n.height).0 in
        let head1 =
          update_other s.heap.height s.heap.size n.height s.head (omega (arith, h.head_below))
          ∙ h.head_height in
        let stored1 = All-stored o s (xs ++ ys) n h refl in
        let (next, links, inside, outside) =
          link-Relinks n.height 0 prev' (λ j. last_or s.head (at_level j xs)) n.at h1
            (λ j low high. (
              prev-last s xs ys n.height prev h found j (omega arith),
              last_or-height h1 j s.head xs (omega (arith, head1, bounds.1))
                  (All-append_left (IsStored h1) xs ys stored1),
              omega (arith, update_same s.heap.height s.heap.size n.height),
            )) in
        (
          with_node o s xs ys n next (random_height s.rnd).0,
          rw (returns, links, absent) refl,
          with_node-Holds o s xs ys n next (random_height s.rnd).0 h refl bounds.0 bounds.1 before
              after inside outside,
        )

    -- A key that is not there is inserted between those before it and those behind.
    insert-absent :
        (s : SkipList K V) (es : List (Entry K V))
        → Holds o s es
        → (key : K) (value : V) → lookup o es key ≡ none
        → (s' : SkipList K V) × (insert o s key value ≡ some s')
          × Holds o s' (under o key es ++ inserted s key value ∷ from o key es)
    insert-absent s es h key value absent =
        let (prev, returns, found, kept) = find_greater_or_equal-Finds o s es h key (λ i. none) in
        insert-between s (under o key es) (from o key es) key value prev
          (subst (Holds o s) (sym (under-append-from o key es)) h) returns
          (equals_node-lookup o s.heap es h.stored h.sorted key ∙ ap is_some absent) found
          (under-before o key es) (from-after o key es h.sorted absent)

    abbrev pub Inserts : SkipList K V → List (Entry K V) → K → V → Type 0
    Inserts s es key value =
        (s' : SkipList K V) × (es' : List (Entry K V)) × (insert o s key value ≡ some s')
        × Holds o s' es'
        × ((k : K)
            → lookup o es' k ≡ (if is_zero (o.compare key k) then some value else lookup o es k))

    -- Where a skiplist holds a sorted list of entries, without the key, `Insert` of the key with a
    -- value returns, and the skiplist holds a sorted list of entries in which each key equal to it
    -- has the value, and each other key the value that it had.
    pub insert-Inserts :
        (s : SkipList K V) (es : List (Entry K V))
        → Holds o s es
        → (key : K) (value : V) → lookup o es key ≡ none
        → Inserts s es key value
    insert-Inserts s es h key value absent =
        let (s', returns, holds) = insert-absent s es h key value absent in
        (
          s',
          under o key es ++ inserted s key value ∷ from o key es,
          returns,
          holds,
          λ k.
              lookup-insert o (under o key es) (inserted s key value) (from o key es)
                (under-before o key es) k
              ∙ ap
                  (λ (ds : List (Entry K V)).
                    if is_zero (o.compare key k) then some value else lookup o ds k)
                  (under-append-from o key es),
        )

    -- `Insert` of a key that the list holds fails its assertion.
    pub insert-present :
        (s : SkipList K V) (es : List (Entry K V))
        → Holds o s es
        → (key : K) (value : V) → is_some (lookup o es key) ≡ true
        → insert o s key value ≡ none
    unfolding insert
    insert-present s es h key value present =
        let (prev, returns, found, kept) = find_greater_or_equal-Finds o s es h key (λ i. none) in
        rw (returns, equals_node-lookup o s.heap es h.stored h.sorted key, present) refl
