-- ===== src/Base/SkipList/Linked.antt =====
-- A new node, linked in on the levels below its height.
use iceberg_db.Prelude.{
  ℕ, suc, ◌+◌, ◌≤◌, ◌<◌, ◌≡◌, ◌≢◌, refl, sym, ◌∙◌, false, Option, List, [], ◌∷◌, ◌++◌, ltb,
  if◌then◌else◌, length-append, All, All-map, All-insert, All-both, subst, arith, inl, inr, ◌⊎◌,
  Bool-cases,
}
use iceberg_db.Base.Comparator.{Comparator}
use iceberg_db.Base.Random.{Random}
use iceberg_db.Base.SkipList.{Heap, SkipList, max_height_limit, new_node}
use iceberg_db.Base.SkipList.Chain.{Entry, last_or, at_level, at_level-past, Chain, update_other}
use iceberg_db.Base.SkipList.Relink.{linked, Chain-link_level}
use iceberg_db.Base.SkipList.Entries.{HasHeight, Before}
use iceberg_db.Base.SkipList.Search.{IsStored}
use iceberg_db.Base.SkipList.Invariant.{Holds}
use iceberg_db.Base.SkipList.Splice.{Distinct-insert, Sorted-insert}

pub lt-cases : (i n : ℕ) → (i < n) ⊎ (n ≤ i)
lt-cases i n = ground arith

module _ {K V : Type 0} where
  -- Nothing that is stored is in the place of the new node.
  stored-new_node :
      (h : Heap K V) (e n : Entry K V)
      → n.at ≡ h.size
      → e.at < h.size
      → IsStored h e
      → IsStored (new_node h n.key n.value n.height).0 e
  unfolding new_node
  stored-new_node h e n place below stored = (
    update_other h.key h.size n.key e.at (omega arith) ∙ stored.0,
    update_other h.value h.size n.value e.at (omega arith) ∙ stored.1,
    update_other h.height h.size n.height e.at (omega arith) ∙ stored.2,
    stored.3,
  )

  new-stored :
      (h : Heap K V) (n : Entry K V)
      → n.at ≡ h.size
      → HasHeight n
      → IsStored (new_node h n.key n.value n.height).0 n
  unfolding new_node
  new-stored h n place high = (ground arith, ground arith, ground arith, high)

  -- The last entry of a level, or the head, has a pointer at the level.
  pub last_or-height :
      (h : Heap K V) (i c : ℕ) (es : List (Entry K V))
      → i < h.height c
      → All (IsStored h) es
      → i < h.height (last_or c (at_level i es))
  last_or-height h i c [] high stored = high
  last_or-height h i c (e ∷ es) high stored = elim (Bool-cases (ltb i e.height)) [
    | inl t ↦ rw t (last_or-height h i e.at es (ground (arith, stored.0.2)) stored.1)
    | inr t ↦ rw t (last_or-height h i c es high stored.1)
  ]

  -- Above the height of all entries a level is empty.
  pub at_level-above :
      (i bound : ℕ) (es : List (Entry K V))
      → All (λ e. e.height ≤ bound) es
      → bound ≤ i
      → at_level i es ≡ []
  at_level-above i bound [] heights high = refl
  at_level-above i bound (e ∷ es) heights high =
      let below : ltb i e.height ≡ false = ground (arith, heights.0) in
      rw below (at_level-above i bound es heights.1 high)

  module _ (o : Comparator K) where
    pub All-stored :
        (s : SkipList K V) (es : List (Entry K V)) (n : Entry K V)
        → Holds o s es
        → n.at ≡ s.heap.size
        → All (IsStored (new_node s.heap n.key n.value n.height).0) es
    All-stored s es n h place =
        All-map (λ e. IsStored s.heap e × (e.at < s.heap.size))
          (IsStored (new_node s.heap n.key n.value n.height).0) es
          (λ e p. stored-new_node s.heap e n place p.1 p.0)
          (All-both (IsStored s.heap) (λ e. e.at < s.heap.size) es h.stored h.below)

    module _ (s : SkipList K V) (xs ys : List (Entry K V)) (n : Entry K V) (next : ℕ → ℕ → Option ℕ)
        (rnd : Random) where
      abbrev pub node : Heap K V
      node = (new_node s.heap n.key n.value n.height).0

      abbrev pub with_node : SkipList K V
      with_node = record s {
        heap = record node { next = next };
        max_height = if ltb s.max_height n.height then n.height else s.max_height;
        rnd = rnd;
      }

      pub with_node-Holds :
          Holds o s (xs ++ ys)
          → n.at ≡ s.heap.size
          → HasHeight n
          → n.height ≤ max_height_limit
          → All (λ e. Before o e n) xs
          → All (λ e. Before o n e) ys
          → ((j : ℕ)
              → 0 ≤ j
              → j < 0 + n.height
              → next j ≡ linked (s.heap.next j) n.at (last_or s.head (at_level j xs)))
          → ((j : ℕ) → (j < 0) ⊎ (0 + n.height ≤ j) → next j ≡ s.heap.next j)
          → Holds o with_node (xs ++ n ∷ ys)
      unfolding new_node
      with_node-Holds h place high limit before after inside outside =
          let fresh : All (λ e. e.at ≢ n.at) (xs ++ ys) =
            All-map (λ e. e.at < s.heap.size) (λ e. e.at ≢ n.at) (xs ++ ys) (λ e b. omega arith)
              h.below in
          record {
            stored =
                All-insert (IsStored node) xs n ys (All-stored s (xs ++ ys) n h place)
                  (new-stored s.heap n place high);
            sorted = Sorted-insert o xs n ys h.sorted before after;
            head_apart =
                All-insert (λ e. e.at ≢ s.head) xs n ys h.head_apart (omega (arith, h.head_below));
            distinct = Distinct-insert xs n ys h.distinct fresh;
            below =
                All-insert (λ e. e.at < suc s.heap.size) xs n ys
                  (All-map (λ e. e.at < s.heap.size) (λ e. e.at < suc s.heap.size) (xs ++ ys)
                    (λ e b. omega arith) h.below)
                  (omega arith);
            head_below = omega (arith, h.head_below);
            heights =
                All-insert (λ e. e.height ≤ with_node.max_height) xs n ys
                  (All-map (λ e. e.height ≤ s.max_height) (λ e. e.height ≤ with_node.max_height)
                    (xs ++ ys) (λ e b. ground arith) h.heights)
                  (ground arith);
            head_height =
                update_other s.heap.height s.heap.size n.height s.head (omega (arith, h.head_below))
                ∙ h.head_height;
            max_positive = ground (arith, h.max_positive);
            max_limit = ground (arith, h.max_limit);
            count = omega (arith, h.count, length-append xs ys, length-append xs (n ∷ ys));
            levels = λ i low. elim (lt-cases i n.height) [
              | inl within ↦
                  subst (λ (g : ℕ → Option ℕ). Chain g (g s.head) (at_level i (xs ++ n ∷ ys)))
                    (sym (inside i (omega arith) (omega arith)))
                    (Chain-link_level (s.heap.next i) s.head i xs ys n within (h.levels i low)
                      h.head_apart h.distinct fresh (omega (arith, h.head_below)))
              | inr above ↦
                  subst (λ (g : ℕ → Option ℕ). Chain g (g s.head) (at_level i (xs ++ n ∷ ys)))
                    (sym (outside i (inr (omega arith))))
                    (subst (Chain (s.heap.next i) (s.heap.next i s.head))
                      (sym (at_level-past i xs n ys above)) (h.levels i low))
            ];
          }
