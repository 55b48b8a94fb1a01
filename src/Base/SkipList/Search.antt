-- ===== src/Base/SkipList/Search.antt =====
-- `FindGreaterOrEqual` and `FindEqual` on a heap whose chains run through the entries of the list.
use iceberg_db.Prelude.{
  ℕ, suc, ◌-◌, ◌≤◌, ◌<◌, ◌≡◌, refl, sym, ap, ◌∙◌, subst, true, false, Option, some, List, [], ◌∷◌,
  ◌++◌, ltb, All, All-map, arith, inl, inr, ◌⊎◌, Bool-cases,
}
use iceberg_db.Base.Slice.{negative}
use iceberg_db.Base.Comparator.{Comparator}
use iceberg_db.Base.SkipList.{is_negative, update, Heap, load_next, key_is_after_node, find_loop}
use iceberg_db.Base.SkipList.Chain.{
  update_same, update_other, Entry, first, last_or, at_level, Chain, Chain-first,
  Chain-append_right, at_level-through, last_or-append,
}
use iceberg_db.Base.SkipList.Entries.{HasHeight, at_level-zero, under, from, Sorted, under-through}

le_cases : (j level : ℕ) → j ≤ level → (j ≡ level) ⊎ (j ≤ level - 1)
le_cases j level h = ground arith

module _ {K V : Type 0} where
  -- The fields of the nodes are those of the entries.
  abbrev pub IsStored : Heap K V → Entry K V → Type 0
  IsStored h e =
      (h.key e.at ≡ e.key) × (h.value e.at ≡ e.value) × (h.height e.at ≡ e.height) × HasHeight e

  -- The pointers of a node at a level and below run through the entries behind it.
  abbrev pub Reaches : Heap K V → ℕ → List (Entry K V) → ℕ → Type 0
  Reaches h x rest level = (i : ℕ) → i ≤ level → Chain (h.next i) (h.next i x) (at_level i rest)

  pub load_next-below :
      (h : Heap K V) (x level : ℕ)
      → level < h.height x
      → load_next h x level ≡ some (h.next level x)
  unfolding load_next
  load_next-below h x level below = ground arith

  module _ (o : Comparator K) where
    module _ (fuel : ℕ) (h : Heap K V) (key : K) (prev : ℕ → Option ℕ) (x : ℕ) where
      find_loop-ahead :
          (level p : ℕ)
          → level < h.height x
          → h.next level x ≡ some p
          → key_is_after_node o h key (some p) ≡ true
          → find_loop o (suc fuel) h key prev x level ≡ find_loop o fuel h key prev p level
      unfolding find_loop
      find_loop-ahead level p below next after =
          ground (arith, load_next-below h x level below, next, after)

      find_loop-down :
          (level : ℕ)
          → 0 < level
          → level < h.height x
          → key_is_after_node o h key (h.next level x) ≡ false
          → find_loop o (suc fuel) h key prev x level
            ≡ find_loop o fuel h key (update prev level (some x)) x (level - 1)
      unfolding find_loop
      find_loop-down level above below after =
          ground (arith, load_next-below h x level below, after)

      find_loop-stop :
          0 < h.height x
          → key_is_after_node o h key (h.next 0 x) ≡ false
          → find_loop o (suc fuel) h key prev x 0 ≡ some (h.next 0 x, update prev 0 (some x))
      unfolding find_loop
      find_loop-stop below after = ground (arith, load_next-below h x 0 below, after)

    -- A list whose first key is not before the key.
    not_after :
        (h : Heap K V) (key : K) (es : List (Entry K V))
        → All (IsStored h) es
        → key_is_after_node o h key (first es) ≡ false
        → (under o key es ≡ []) × (from o key es ≡ es)
    unfolding key_is_after_node
    not_after h key [] stored stop = (refl, refl)
    not_after h key (e ∷ es) stored stop =
        let after : is_negative (o.compare e.key key) ≡ false =
          ap (λ (k : K). is_negative (o.compare k key)) (sym stored.0.0) ∙ stop in
        (rw after refl, rw after refl)

    -- Where a level does not go on, the entries before the key have no pointer at it.
    stopped :
        (h : Heap K V) (key : K) (i : ℕ) (es : List (Entry K V))
        → All (IsStored h) es
        → key_is_after_node o h key (first (at_level i es)) ≡ false
        → at_level i (under o key es) ≡ []
    stopped h key i [] stored stop = refl
    stopped h key i (e ∷ es) stored stop = elim (Bool-cases (ltb i e.height)) [
      | inl t ↦
          let here : first (at_level i (e ∷ es)) ≡ some e.at = rw t refl in
          ap (at_level i)
            (not_after h key (e ∷ es) stored (ap (key_is_after_node o h key) (sym here) ∙ stop)).0
      | inr t ↦
          let there : first (at_level i es) ≡ first (at_level i (e ∷ es)) = rw t refl in
          let others = stopped h key i es stored.1 (ap (key_is_after_node o h key) there ∙ stop) in
          elim (Bool-cases (is_negative (o.compare e.key key))) [
            | inl b ↦ rw (b, t) others
            | inr b ↦ rw b refl
          ]
    ]

    -- What a search from a node returns, with the entries behind the node.
    abbrev pub Finds :
        Heap K V
        → K
        → (ℕ → Option ℕ)
        → ℕ
        → List (Entry K V)
        → ℕ
        → Option (Option ℕ × (ℕ → Option ℕ))
        → Type 0
    Finds h key prev x rest level result =
        (prev' : ℕ → Option ℕ) × (result ≡ some (first (from o key rest), prev'))
        × ((j : ℕ) → j ≤ level → prev' j ≡ some (last_or x (at_level j (under o key rest))))
        × ((j : ℕ) → level < j → prev' j ≡ prev j)

    module _ (h : Heap K V) (key : K) where
      -- At the lowest level the search ends, at a node whose next is not before the key.
      pub Finds-stop :
          (fuel : ℕ) (prev : ℕ → Option ℕ) (x : ℕ) (rest : List (Entry K V))
          → All (IsStored h) rest
          → Reaches h x rest 0
          → 0 < h.height x
          → key_is_after_node o h key (h.next 0 x) ≡ false
          → Finds h key prev x rest 0 (find_loop o (suc fuel) h key prev x 0)
      Finds-stop fuel prev x rest stored reaches below after =
          let heights = All-map (IsStored h) HasHeight rest (λ e s. s.3) stored in
          let next : h.next 0 x ≡ first rest =
            Chain-first (h.next 0) (h.next 0 x) (at_level 0 rest) (reaches 0 (omega arith))
            ∙ ap first (at_level-zero rest heights) in
          let ends =
            not_after h key rest stored (ap (key_is_after_node o h key) (sym next) ∙ after) in
          (
            update prev 0 (some x),
            rw (find_loop-stop fuel h key prev x below after, ends.1, next) refl,
            λ j low. rw ends.0 (ground arith),
            λ j high. update_other prev 0 (some x) j (omega arith),
          )

      pub Finds-down :
          (fuel : ℕ) (prev : ℕ → Option ℕ) (x level : ℕ) (rest : List (Entry K V))
          → All (IsStored h) rest
          → Reaches h x rest level
          → 0 < level
          → level < h.height x
          → key_is_after_node o h key (h.next level x) ≡ false
          → Finds h key
              (update prev level (some x))
              x
              rest
              (level - 1)
              (find_loop o fuel h key (update prev level (some x)) x (level - 1))
          → Finds h key prev x rest level (find_loop o (suc fuel) h key prev x level)
      Finds-down fuel prev x level rest stored reaches above below after
            (prev', returns, found, kept) =
          let next =
            Chain-first (h.next level) (h.next level x) (at_level level rest)
              (reaches level (omega arith)) in
          let none_left =
            stopped h key level rest stored (ap (key_is_after_node o h key) (sym next) ∙ after) in
          (
            prev',
            find_loop-down fuel h key prev x level above below after ∙ returns,
            (λ j low. elim (le_cases j level low) [
              | inl same ↦
                  rw (same, none_left) (kept level (omega arith) ∙ update_same prev level (some x))
              | inr lower ↦ found j lower
            ]),
            λ j high. kept j (omega arith) ∙ update_other prev level (some x) j (omega arith),
          )

      pub Finds-ahead :
          (fuel : ℕ) (prev : ℕ → Option ℕ) (x level : ℕ) (ds : List (Entry K V)) (e : Entry K V)
          (es : List (Entry K V))
          → h.next level x ≡ some e.at
          → level < h.height x
          → at_level level ds ≡ []
          → level < e.height
          → o.compare e.key key ≡ negative
          → key_is_after_node o h key (some e.at) ≡ true
          → Sorted o (ds ++ e ∷ es)
          → Finds h key prev e.at es level (find_loop o fuel h key prev e.at level)
          → Finds h key prev x (ds ++ e ∷ es) level (find_loop o (suc fuel) h key prev x level)
      Finds-ahead fuel prev x level ds e es next below skipped above before after sorted
            (prev', returns, found, kept) =
          let (unders, froms) = under-through o key ds e es sorted before in
          (
            prev',
            find_loop-ahead fuel h key prev x level e.at below next after ∙ rw froms returns,
            λ j low.
                found j low
                ∙ ap some (
                    sym (last_or-append x (at_level j ds) e (at_level j (under o key es)))
                    ∙ ap (last_or x) (sym (at_level-through j ds e (under o key es) (omega arith)))
                    ∙ ap (λ (cs : List (Entry K V)). last_or x (at_level j cs)) (sym unders)),
            kept,
          )

      pub Reaches-behind :
          (x level : ℕ) (ds : List (Entry K V)) (e : Entry K V) (es : List (Entry K V))
          → level < e.height
          → Reaches h x (ds ++ e ∷ es) level
          → Reaches h e.at es level
      Reaches-behind x level ds e es above reaches i low =
          let through = at_level-through i ds e es (omega arith) in
          let here = subst (Chain (h.next i) (h.next i x)) through (reaches i low) in
          (Chain-append_right (h.next i) x (at_level i ds) (e ∷ at_level i es) here).1
