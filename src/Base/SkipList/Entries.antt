-- ===== src/Base/SkipList/Entries.antt =====
-- The entries of a skiplist in the order of their keys, and where a key splits them.
use iceberg_db.Prelude.{
  ℕ, ◌<◌, ◌≡◌, refl, ap, true, Option, none, some, List, [], ◌∷◌, ◌++◌, ltb, if◌then◌else◌, All,
  All-append_right, arith, inl, inr, ◌⊎◌, Bool-cases,
}
use iceberg_db.Base.Slice.{Sign, negative, zero_sign, positive, is_zero}
use iceberg_db.Base.Comparator.{Comparator}
use iceberg_db.Base.SkipList.{is_negative}
use iceberg_db.Base.SkipList.Chain.{Entry, at_level}

pub is_negative-eq : (s : Sign) → is_negative s ≡ true → s ≡ negative
is_negative-eq negative h = refl
is_negative-eq zero_sign h = cc
is_negative-eq positive h = cc

module _ {K V : Type 0} where
  abbrev pub HasHeight : Entry K V → Type 0
  HasHeight e = 0 < e.height

  -- The next entry of a level, behind those that it skips.
  pub at_level-cases :
      (i : ℕ) (es : List (Entry K V))
      → (at_level i es ≡ [])
        ⊎ ((skipped : List (Entry K V)) × (e : Entry K V) × (rest : List (Entry K V)) × (es
              ≡ skipped ++ e ∷ rest)
            × (at_level i skipped ≡ [])
            × (i < e.height))
  at_level-cases i [] = inl refl
  at_level-cases i (e ∷ es) = elim (Bool-cases (ltb i e.height)) [
    | inl t ↦ inr ([], e, es, refl, refl, ground arith)
    | inr t ↦ elim (at_level-cases i es) [
      | inl nil ↦ inl (rw t nil)
      | inr (skipped, d, rest, split, nil, above) ↦
          inr (e ∷ skipped, d, rest, ap (λ (ds : List (Entry K V)). e ∷ ds) split, rw t nil, above)
    ]
  ]

  pub at_level-zero : (es : List (Entry K V)) → All HasHeight es → at_level 0 es ≡ es
  at_level-zero [] h = refl
  at_level-zero (e ∷ es) h =
      let above : ltb 0 e.height ≡ true = ground (arith, h.0) in
      rw (above, at_level-zero es h.1) refl

  module _ (o : Comparator K) where
    -- The entries up to the first whose key is not before the key given, and the others.
    abbrev pub under : K → List (Entry K V) → List (Entry K V)
    under key [] = []
    under key (e ∷ es) = if is_negative (o.compare e.key key) then e ∷ under key es else []

    abbrev pub from : K → List (Entry K V) → List (Entry K V)
    from key [] = []
    from key (e ∷ es) = if is_negative (o.compare e.key key) then from key es else e ∷ es

    abbrev pub Before : Entry K V → Entry K V → Type 0
    Before d e = o.compare d.key e.key ≡ negative

    abbrev pub Sorted : List (Entry K V) → Type 0
    Sorted [] = Unit
    Sorted (e ∷ es) = All (Before e) es × Sorted es

    -- The value of the first entry whose key is equal.
    abbrev pub lookup : List (Entry K V) → K → Option V
    lookup [] key = none
    lookup (e ∷ es) key = if is_zero (o.compare e.key key) then some e.value else lookup es key

    pub under-append-from : (key : K) (es : List (Entry K V)) → under key es ++ from key es ≡ es
    under-append-from key [] = refl
    under-append-from key (e ∷ es) = ground (arith, under-append-from key es)

    pub Sorted-right : (ds es : List (Entry K V)) → Sorted (ds ++ es) → Sorted es
    Sorted-right [] es h = h
    Sorted-right (d ∷ ds) es h = Sorted-right ds es h.1

    -- What is before an entry that is before a key is before the key.
    pub under-through :
        (key : K) (ds : List (Entry K V)) (e : Entry K V) (es : List (Entry K V))
        → Sorted (ds ++ e ∷ es)
        → o.compare e.key key ≡ negative
        → (under key (ds ++ e ∷ es) ≡ ds ++ e ∷ under key es)
          × (from key (ds ++ e ∷ es) ≡ from key es)
    under-through key [] e es h lt = (rw lt refl, rw lt refl)
    under-through key (d ∷ ds) e es h lt =
        let before =
          o.lt_trans d.key e.key key (All-append_right (Before d) ds (e ∷ es) h.0).0 lt in
        let others = under-through key ds e es h.1 lt in
        (rw (before, others.0) refl, rw before others.1)
