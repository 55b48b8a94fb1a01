-- ===== src/Base/SkipList/Remove.antt =====
-- `Remove`, of a key that the list holds and of one that it does not.
use mathlib.Core.Option
use iceberg_db.Prelude.{
  ℕ, ◌+◌, ◌-◌, ◌≤◌, ◌<◌, ◌≡◌, ◌≢◌, refl, sym, ap, ◌∙◌, true, Option, none, some, List, [], ◌∷◌,
  ◌++◌, if◌then◌else◌, length-append, All-delete, All-append_left, All-append_right, subst, arith,
  inl, inr, ◌⊎◌, Bool-cases,
}
use iceberg_db.Base.Slice.{is_zero}
use iceberg_db.Base.Comparator.{Comparator}
use iceberg_db.Base.SkipList.{SkipList, remove, unlink, contains, find_greater_or_equal}
use iceberg_db.Base.SkipList.Chain.{Entry, first, last_or, at_level, at_level-past, Chain}
use iceberg_db.Base.SkipList.Relink.{unlinked, Chain-unlink_level}
use iceberg_db.Base.SkipList.Entries.{under, from, under-append-from, Sorted, lookup}
use iceberg_db.Base.SkipList.Search.{IsStored}
use iceberg_db.Base.SkipList.Invariant.{Holds}
use iceberg_db.Base.SkipList.Lookup.{
  find_greater_or_equal-Finds, contains-lookup, lookup-from, is_some, found_at,
}
use iceberg_db.Base.SkipList.Loops.{unlink-Relinks}
use iceberg_db.Base.SkipList.Splice.{Distinct-delete, Sorted-delete, lookup-delete, is_zero-eq}
use iceberg_db.Base.SkipList.Linked.{last_or-height, lt-cases}

module _ {K V : Type 0} (o : Comparator K) where
  module _ (s : SkipList K V) (xs ys : List (Entry K V)) (n : Entry K V)
      (next : ℕ → ℕ → Option ℕ) where
    abbrev without_node : SkipList K V
    without_node = record s { heap = record s.heap { next = next } }

    without_node-Holds :
        Holds o s (xs ++ n ∷ ys)
        → ((j : ℕ)
            → 0 ≤ j
            → j < 0 + n.height
            → next j ≡ unlinked (s.heap.next j) n.at (last_or s.head (at_level j xs)))
        → ((j : ℕ) → (j < 0) ⊎ (0 + n.height ≤ j) → next j ≡ s.heap.next j)
        → Holds o without_node (xs ++ ys)
    without_node-Holds h inside outside = record {
      stored = All-delete (IsStored s.heap) xs n ys h.stored;
      sorted = Sorted-delete o xs n ys h.sorted;
      head_apart = All-delete (λ e. e.at ≢ s.head) xs n ys h.head_apart;
      distinct = Distinct-delete xs n ys h.distinct;
      below = All-delete (λ e. e.at < s.heap.size) xs n ys h.below;
      head_below = h.head_below;
      heights = All-delete (λ e. e.height ≤ s.max_height) xs n ys h.heights;
      head_height = h.head_height;
      max_positive = h.max_positive;
      max_limit = h.max_limit;
      count = omega (arith, h.count, length-append xs ys, length-append xs (n ∷ ys));
      levels = λ i low. elim (lt-cases i n.height) [
        | inl within ↦
            subst (λ (g : ℕ → Option ℕ). Chain g (g s.head) (at_level i (xs ++ ys)))
              (sym (inside i (omega arith) (omega arith)))
              (Chain-unlink_level (s.heap.next i) s.head i xs ys n within (h.levels i low)
                h.head_apart h.distinct)
        | inr above ↦
            subst (λ (g : ℕ → Option ℕ). Chain g (g s.head) (at_level i (xs ++ ys)))
              (sym (outside i (inr (omega arith))))
              (subst (Chain (s.heap.next i) (s.heap.next i s.head)) (at_level-past i xs n ys above)
                (h.levels i low))
      ];
    }

  remove-between :
      (s : SkipList K V) (xs ys : List (Entry K V)) (n : Entry K V) (key : K) (prev : ℕ → Option ℕ)
      → Holds o s (xs ++ n ∷ ys)
      → contains o s key ≡ some true
      → find_greater_or_equal o s key (λ i. some s.head) ≡ some (some n.at, prev)
      → ((j : ℕ) → j ≤ s.max_height - 1 → prev j ≡ some (last_or s.head (at_level j xs)))
      → (s' : SkipList K V) × (remove o s key ≡ some (s', true)) × Holds o s' (xs ++ ys)
  unfolding remove
  remove-between s xs ys n key prev h there returns found =
      let here = All-append_right (IsStored s.heap) xs (n ∷ ys) h.stored in
      let height : s.heap.height n.at ≡ n.height = here.0.2 in
      let bound = (All-append_right (λ e. e.height ≤ s.max_height) xs (n ∷ ys) h.heights).0 in
      let (next, unlinks, inside, outside) =
        unlink-Relinks n.height 0 prev (λ j. last_or s.head (at_level j xs)) n.at s.heap
          (λ j low high. (
            found j (omega (arith, bound)),
            last_or-height s.heap j s.head xs (omega (arith, h.head_height, bound, h.max_limit))
                (All-append_left (IsStored s.heap) xs (n ∷ ys) h.stored),
            omega (arith, height),
          )) in
      (
        without_node s xs ys n next,
        rw (there, returns, ap (λ (m : ℕ). unlink m 0 prev n.at s.heap) height ∙ unlinks) refl,
        without_node-Holds s xs ys n next h inside outside,
      )

  abbrev pub Removes : SkipList K V → List (Entry K V) → K → Type 0
  Removes s es key =
      (s' : SkipList K V) × (es' : List (Entry K V)) × (remove o s key
        ≡ some (s', is_some (lookup o es key)))
      × Holds o s' es'
      × ((k : K) → lookup o es' k ≡ (if is_zero (o.compare key k) then none else lookup o es k))

  lookup-split :
      (es : List (Entry K V)) (key : K) (zs : List (Entry K V))
      → Sorted o es
      → from o key es ≡ zs
      → lookup o es key ≡ Option.map (λ (e : Entry K V). e.value) (found_at o zs key)
  lookup-split es key zs sorted split =
      lookup-from o key es sorted
      ∙ ap (λ (zs : List (Entry K V)). Option.map (λ (e : Entry K V). e.value) (found_at o zs key))
          split

  lookup-absent :
      (es : List (Entry K V)) (key : K)
      → lookup o es key ≡ none
      → (k : K) → lookup o es k ≡ (if is_zero (o.compare key k) then none else lookup o es k)
  lookup-absent es key absent k = elim (Bool-cases (is_zero (o.compare key k))) [
    | inl same ↦ rw same (
        subst (λ (k : K). lookup o es k ≡ none)
          (o.eq_of_zero key k (is_zero-eq (o.compare key k) same)) absent)
    | inr other ↦ rw other refl
  ]

  remove-absent :
      (s : SkipList K V) (es : List (Entry K V))
      → Holds o s es
      → (key : K) → lookup o es key ≡ none
      → Removes s es key
  unfolding remove
  remove-absent s es h key absent =
      (s, es, rw (contains-lookup o s es h key, absent) refl, h, lookup-absent es key absent)

  remove-present :
      (s : SkipList K V) (es : List (Entry K V))
      → Holds o s es
      → (key : K) → (n : Entry K V) (ys : List (Entry K V)) → from o key es ≡ n ∷ ys
      → is_zero (o.compare n.key key) ≡ true
      → Removes s es key
  remove-present s es h key n ys split same =
      let (prev, returns, found, kept) =
        find_greater_or_equal-Finds o s es h key (λ i. some s.head) in
      let xs = under o key es in
      let whole : es ≡ xs ++ n ∷ ys =
        sym (under-append-from o key es) ∙ ap (λ (zs : List (Entry K V)). xs ++ zs) split in
      let there : lookup o es key ≡ some n.value =
        lookup-split es key (n ∷ ys) h.sorted split ∙ rw same refl in
      let holds = subst (Holds o s) whole h in
      let (s', removes, holds') =
        remove-between s xs ys n key prev holds
          (contains-lookup o s es h key ∙ ap (λ (v : Option V). some (is_some v)) there)
          (returns ∙ ap (λ (zs : List (Entry K V)). some (first zs, prev)) split) found in
      (
        s',
        xs ++ ys,
        rw there removes,
        holds',
        λ k.
            lookup-delete o xs n ys holds.sorted k
            ∙ ap (λ (c : K). if is_zero (o.compare c k) then none else lookup o (xs ++ n ∷ ys) k)
                (o.eq_of_zero n.key key (is_zero-eq (o.compare n.key key) same))
            ∙ ap
                (λ (zs : List (Entry K V)).
                  if is_zero (o.compare key k) then none else lookup o zs k)
                (sym whole),
      )

  remove-from :
      (s : SkipList K V) (es : List (Entry K V))
      → Holds o s es
      → (key : K) → (zs : List (Entry K V)) → from o key es ≡ zs
      → Removes s es key
  remove-from s es h key [] split = remove-absent s es h key (lookup-split es key _ h.sorted split)
  remove-from s es h key (n ∷ ys) split = elim (Bool-cases (is_zero (o.compare n.key key))) [
    | inl same ↦ remove-present s es h key n ys split same
    | inr other ↦ remove-absent s es h key (
        lookup-from o key es h.sorted
        ∙ ap
            (λ (zs : List (Entry K V)). Option.map (λ (e : Entry K V). e.value) (found_at o zs key))
            split
        ∙ rw other refl)
  ]

  -- Where a skiplist holds a sorted list of entries, `Remove` of a key returns, with true exactly
  -- where the list has the key, and the skiplist holds a sorted list of entries in which no key
  -- equal to it has a value, and each other key has the value that it had.
  pub remove-Removes :
      (s : SkipList K V) (es : List (Entry K V)) → Holds o s es → (key : K) → Removes s es key
  remove-Removes s es h key = remove-from s es h key (from o key es) refl
