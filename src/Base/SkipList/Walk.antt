-- ===== src/Base/SkipList/Walk.antt =====
-- The loop of `FindGreaterOrEqual`: each round goes on to a node or down a level, to the end.
use iceberg_db.Prelude.{
  ℕ, zero, suc, ◌+◌, ◌-◌, ◌<◌, ◌≡◌, refl, sym, ap, ◌∙◌, subst, false, Option, some, List, [], ◌∷◌,
  ◌++◌, length, length-append, All, All-append_right, arith, inl, inr, Bool-cases,
}
use iceberg_db.Base.Comparator.{Comparator}
use iceberg_db.Base.SkipList.{is_negative, update, Heap, key_is_after_node, find_loop}
use iceberg_db.Base.SkipList.Chain.{Entry, first, at_level, Chain-first, at_level-through}
use iceberg_db.Base.SkipList.Entries.{at_level-cases, Sorted, Sorted-right, is_negative-eq}
use iceberg_db.Base.SkipList.Search.{
  IsStored, Reaches, Finds, Finds-stop, Finds-down, Finds-ahead, Reaches-behind,
}

module _ {K V : Type 0} (o : Comparator K) (h : Heap K V) (key : K) where
  abbrev Searched : ℕ → Type 0
  Searched fuel =
      (prev : ℕ → Option ℕ) (x level : ℕ) (es : List (Entry K V))
      → All (IsStored h) es
      → Sorted o es
      → Reaches h x es level
      → level < h.height x
      → length es + level < fuel
      → Finds o h key prev x es level (find_loop o fuel h key prev x level)

  -- The next key at the level is not before the key.
  Finds-lower :
      (fuel : ℕ)
      → Searched fuel
      → (prev : ℕ → Option ℕ) (x level : ℕ) (es : List (Entry K V)) → All (IsStored h) es
      → Sorted o es
      → Reaches h x es level
      → level < h.height x
      → length es + level < suc fuel
      → key_is_after_node o h key (h.next level x) ≡ false
      → Finds o h key prev x es level (find_loop o (suc fuel) h key prev x level)
  Finds-lower fuel others prev x zero es stored sorted reaches below enough after =
      Finds-stop o h key fuel prev x es stored reaches below after
  Finds-lower fuel others prev x (suc level) es stored sorted reaches below enough after =
      Finds-down o h key fuel prev x (suc level) es stored reaches (omega arith) below after (
        others (update prev (suc level) (some x)) x (suc level - 1) es stored sorted
          (λ i low. reaches i (omega arith)) (omega arith) (omega arith))

  -- The entry `e` is the next at the level.
  Finds-next :
      (fuel : ℕ)
      → Searched fuel
      → (prev : ℕ → Option ℕ) (x level : ℕ) (ds : List (Entry K V)) (e : Entry K V)
        (es : List (Entry K V))
      → at_level level ds ≡ []
      → level < e.height
      → All (IsStored h) (ds ++ e ∷ es)
      → Sorted o (ds ++ e ∷ es)
      → Reaches h x (ds ++ e ∷ es) level
      → level < h.height x
      → length (ds ++ e ∷ es) + level < suc fuel
      → Finds o h key prev x (ds ++ e ∷ es) level (find_loop o (suc fuel) h key prev x level)
  unfolding key_is_after_node
  Finds-next fuel others prev x level ds e es skipped above stored sorted reaches below enough =
      let here = All-append_right (IsStored h) ds (e ∷ es) stored in
      let next : h.next level x ≡ some e.at =
        Chain-first (h.next level) (h.next level x) _ (reaches level (omega arith))
        ∙ ap first (at_level-through level ds e es above)
        ∙ rw skipped refl in
      elim (Bool-cases (is_negative (o.compare (h.key e.at) key))) [
        | inr after ↦
            Finds-lower fuel others prev x level (ds ++ e ∷ es) stored sorted reaches below enough
              (ap (key_is_after_node o h key) next ∙ after)
        | inl after ↦
            Finds-ahead o h key fuel prev x level ds e es next below skipped above
              (is_negative-eq (o.compare e.key key)
                (ap (λ (k : K). is_negative (o.compare k key)) (sym here.0.0) ∙ after))
              after sorted
              (others prev e.at level es here.1 (Sorted-right o ds (e ∷ es) sorted).1
                (Reaches-behind o h key x level ds e es above reaches) (omega (arith, here.0.2))
                (omega (arith, length-append ds (e ∷ es))))
      ]

  pub find_loop-Finds : (fuel : ℕ) → Searched fuel
  unfolding key_is_after_node
  find_loop-Finds zero prev x level es stored sorted reaches below enough = absurd (omega arith)
  find_loop-Finds (suc fuel) prev x level es stored sorted reaches below enough =
      elim (at_level-cases level es) [
        | inl nil ↦
            let next =
              Chain-first (h.next level) (h.next level x) (at_level level es)
                (reaches level (omega arith))
              ∙ ap first nil in
            Finds-lower fuel (find_loop-Finds fuel) prev x level es stored sorted reaches below
              enough (ap (key_is_after_node o h key) next)
        | inr (ds, e, rest, split, skipped, above) ↦
            subst
              (λ (es : List (Entry K V)).
                All (IsStored h) es
                → Sorted o es
                → Reaches h x es level
                → length es + level < suc fuel
                → Finds o h key prev x es level (find_loop o (suc fuel) h key prev x level))
              (sym split)
              (λ s r c l.
                Finds-next fuel (find_loop-Finds fuel) prev x level ds e rest skipped above s r c
                  below l)
              stored sorted reaches enough
      ]
