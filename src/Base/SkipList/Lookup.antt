-- ===== src/Base/SkipList/Lookup.antt =====
-- `Contains` and `FindEqual` look a key up in the entries that the list holds.
pub use iceberg_db.Prelude.{is_some}
pub use iceberg_db.Base.Comparator.{Sign-cases}
use mathlib.Core.Option
use iceberg_db.Prelude.{
  ℕ, zero, suc, ◌-◌, ◌≡◌, refl, sym, ap, ◌∙◌, false, Option, none, some, List, [], ◌∷◌,
  if◌then◌else◌, All, All-map, subst, All-append_right, Option-cases, arith, inl, inr, Bool-cases,
}
use iceberg_db.Base.Slice.{Sign, negative, zero_sign, positive, is_zero}
use iceberg_db.Base.Slice.Order.{opposite}
use iceberg_db.Base.Comparator.{Comparator}
use iceberg_db.Base.SkipList.{
  update, SkipList, Heap, load_next, key_is_after_node, find_loop, equal_loop, node_equals,
  equals_node, find_greater_or_equal, find_equal, get, contains, rounds,
}
use iceberg_db.Base.SkipList.Chain.{Entry, first}
use iceberg_db.Base.SkipList.Entries.{under-append-from, under, from, Before, Sorted, lookup}
use iceberg_db.Base.SkipList.Search.{IsStored, Finds}
use iceberg_db.Base.SkipList.Walk.{find_loop-Finds}
use iceberg_db.Base.SkipList.Invariant.{Holds}

is_zero-opposite : (s : Sign) → is_zero (opposite s) ≡ is_zero s
unfolding opposite is_zero
is_zero-opposite negative = refl
is_zero-opposite zero_sign = refl
is_zero-opposite positive = refl

is_some-map : {A B : Type 0} (f : A → B) (x : Option A) → is_some x ≡ is_some (Option.map f x)
is_some-map f none = refl
is_some-map f (some a) = refl

module _ {K V : Type 0} (o : Comparator K) where
  -- `FindEqual` goes the way of `FindGreaterOrEqual`, and compares at the end.
  equal_loop-find_loop :
      (fuel : ℕ) (h : Heap K V) (key : K) (prev : ℕ → Option ℕ) (x level : ℕ)
      → equal_loop o fuel h key x level
        ≡ Option.map
            (λ ((y, p) : Option ℕ × (ℕ → Option ℕ)). if node_equals o h y key then y else none)
            (find_loop o fuel h key prev x level)
  unfolding equal_loop find_loop
  equal_loop-find_loop zero h key prev x level = refl
  equal_loop-find_loop (suc fuel) h key prev x level = elim (Option-cases (load_next h x level)) [
    | inl fault ↦ ground (arith, fault)
    | inr (next, read) ↦ elim (Bool-cases (key_is_after_node o h key next)) [
      | inl after ↦ elim (Option-cases next) [
        | inl end ↦ ground (arith, read, after, end)
        | inr (p, node) ↦
            ground (arith, read, after, node, equal_loop-find_loop fuel h key prev p level)
      ]
      | inr after ↦ ground (
        arith,
        read,
        after,
        equal_loop-find_loop fuel h key (update prev level (some x)) x (level - 1),
      )
    ]
  ]

  -- Every entry behind a key that is after a key differs from it.
  lookup-after :
      (key : K) (es : List (Entry K V))
      → All (λ e. o.compare key e.key ≡ negative) es
      → lookup o es key ≡ none
  unfolding is_zero
  lookup-after key [] h = refl
  lookup-after key (e ∷ es) h =
      let behind : is_zero (o.compare e.key key) ≡ false =
        ap is_zero (o.compare-flip key e.key)
        ∙ is_zero-opposite (o.compare key e.key)
        ∙ ap is_zero h.0 in
      rw (behind, lookup-after key es h.1) refl

  -- The entry that a sorted list has at a key.
  abbrev pub found_at : List (Entry K V) → K → Option (Entry K V)
  found_at [] key = none
  found_at (e ∷ es) key = if is_zero (o.compare e.key key) then some e else none

  pub lookup-from :
      (key : K) (es : List (Entry K V))
      → Sorted o es
      → lookup o es key ≡ Option.map (λ (e : Entry K V). e.value) (found_at (from o key es) key)
  unfolding is_zero opposite
  lookup-from key [] h = refl
  lookup-from key (e ∷ es) h = elim (Sign-cases (o.compare e.key key)) [
    | inl before ↦ rw before (lookup-from key es h.1)
    | inr (inl same) ↦ rw (same, same) refl
    | inr (inr behind) ↦
        let after : o.compare key e.key ≡ negative =
          o.compare-flip e.key key ∙ ap opposite behind in
        rw (behind, behind)
          (lookup-after key es (
            All-map (Before o e) (λ d. o.compare key d.key ≡ negative) es
              (λ d b. o.lt_trans key e.key d.key after b) h.0))
  ]

  -- Where a skiplist holds a sorted list of entries, `FindGreaterOrEqual` of a key ends within a
  -- round for each node and each level, without a fault. It returns the node of the first entry
  -- whose key is not before the key, or null; below the height of the list `prev` has the last
  -- node of each level whose entry's key is before the key, or the head; above it is left as it
  -- was.
  pub find_greater_or_equal-Finds :
      (s : SkipList K V) (es : List (Entry K V))
      → Holds o s es
      → (key : K) (prev : ℕ → Option ℕ)
      → Finds o s.heap key prev s.head es (s.max_height - 1) (find_greater_or_equal o s key prev)
  unfolding find_greater_or_equal
  find_greater_or_equal-Finds s es h key prev =
      find_loop-Finds o s.heap key (rounds s) prev s.head (s.max_height - 1) es h.stored h.sorted
        (λ i low. h.levels i (omega (arith, h.max_positive, h.max_limit)))
        (omega (arith, h.max_positive, h.max_limit, h.head_height))
        (omega (arith, h.count, h.max_positive))

  -- What the comparison at the end finds.
  node_equals-found :
      (h : Heap K V) (key : K) (es : List (Entry K V))
      → All (IsStored h) es
      → node_equals o h (first es) key ≡ is_some (found_at es key)
  unfolding node_equals
  node_equals-found h key [] stored = refl
  node_equals-found h key (e ∷ es) stored = elim (Bool-cases (is_zero (o.compare e.key key))) [
    | inl b ↦ rw (stored.0.0, b) refl
    | inr b ↦ rw (stored.0.0, b) refl
  ]

  equals_node-node_equals :
      (h : Heap K V) (key : K) (x : Option ℕ) → equals_node o h key x ≡ node_equals o h x key
  unfolding equals_node node_equals
  equals_node-node_equals h key none = refl
  equals_node-node_equals h key (some n) =
      ap is_zero (o.compare-flip (h.key n) key) ∙ is_zero-opposite (o.compare (h.key n) key)

  value-found :
      (h : Heap K V) (key : K) (es : List (Entry K V))
      → All (IsStored h) es
      → Option.map h.value (if node_equals o h (first es) key then first es else none)
        ≡ Option.map (λ (e : Entry K V). e.value) (found_at es key)
  unfolding node_equals
  value-found h key [] stored = refl
  value-found h key (e ∷ es) stored = elim (Bool-cases (is_zero (o.compare e.key key))) [
    | inl b ↦ rw (stored.0.0, b) (ap some stored.0.1)
    | inr b ↦ rw (stored.0.0, b) refl
  ]

  stored-from :
      (h : Heap K V) (key : K) (es : List (Entry K V))
      → All (IsStored h) es
      → All (IsStored h) (from o key es)
  stored-from h key es stored =
      All-append_right (IsStored h) (under o key es) (from o key es)
        (subst (All (IsStored h)) (sym (under-append-from o key es)) stored)

  -- `FindEqual(key)->value()` is the value that the key has among the entries.
  pub get-lookup :
      (s : SkipList K V) (es : List (Entry K V))
      → Holds o s es
      → (key : K) → get o s key ≡ some (lookup o es key)
  unfolding get find_equal find_greater_or_equal
  get-lookup s es h key =
      let (prev, returns, found, kept) = find_greater_or_equal-Finds s es h key (λ i. none) in
      let stored = stored-from s.heap key es h.stored in
      let ends =
        equal_loop-find_loop (rounds s) s.heap key (λ i. none) s.head (s.max_height - 1)
        ∙ ap
            (Option.map (λ ((y, p) : Option ℕ × (ℕ → Option ℕ)).
              if node_equals o s.heap y key then y else none))
            returns in
      ap (Option.map (Option.map s.heap.value)) ends
      ∙ ap some (value-found s.heap key (from o key es) stored ∙ sym (lookup-from key es h.sorted))

  -- The comparison at the end of `Contains` and `Insert`.
  pub equals_node-lookup :
      (h : Heap K V) (es : List (Entry K V))
      → All (IsStored h) es
      → Sorted o es
      → (key : K) → equals_node o h key (first (from o key es)) ≡ is_some (lookup o es key)
  equals_node-lookup h es stored sorted key =
      equals_node-node_equals h key (first (from o key es))
      ∙ node_equals-found h key (from o key es) (stored-from h key es stored)
      ∙ is_some-map (λ (e : Entry K V). e.value) (found_at (from o key es) key)
      ∙ ap is_some (sym (lookup-from key es sorted))

  pub contains-lookup :
      (s : SkipList K V) (es : List (Entry K V))
      → Holds o s es
      → (key : K) → contains o s key ≡ some (is_some (lookup o es key))
  unfolding contains
  contains-lookup s es h key =
      let (prev, returns, found, kept) = find_greater_or_equal-Finds s es h key (λ i. none) in
      ap (Option.map (λ ((y, p) : Option ℕ × (ℕ → Option ℕ)). equals_node o s.heap key y)) returns
      ∙ ap some (equals_node-lookup s.heap es h.stored h.sorted key)
