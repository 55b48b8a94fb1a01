-- ===== src/Base/SkipList/Iterator.antt =====
-- The iterator of a skiplist goes through the entries in order.
use iceberg_db.Prelude.{
  ◌≡◌, refl, ap, ◌∙◌, none, some, List, ◌∷◌, ◌++◌, All-map, All-append_right, subst, arith,
}
use iceberg_db.Base.Comparator.{Comparator}
use iceberg_db.Base.SkipList.{SkipList, seek, seek_to_first, advance}
use iceberg_db.Base.SkipList.Chain.{Entry, first, Chain, Chain-first, Chain-append_right}
use iceberg_db.Base.SkipList.Entries.{HasHeight, at_level-zero, from}
use iceberg_db.Base.SkipList.Search.{IsStored, load_next-below}
use iceberg_db.Base.SkipList.Invariant.{Holds}
use iceberg_db.Base.SkipList.Lookup.{find_greater_or_equal-Finds}

module _ {K V : Type 0} (o : Comparator K) (s : SkipList K V) where
  lowest_level :
      (es : List (Entry K V)) → Holds o s es → Chain (s.heap.next 0) (s.heap.next 0 s.head) es
  lowest_level es h =
      subst (Chain (s.heap.next 0) (s.heap.next 0 s.head))
        (at_level-zero es (All-map (IsStored s.heap) HasHeight es (λ e p. p.3) h.stored))
        (h.levels 0 (omega arith))

  -- `SeekToFirst` stands at the first entry.
  seek_to_first-first : (es : List (Entry K V)) → Holds o s es → seek_to_first s ≡ some (first es)
  unfolding seek_to_first
  seek_to_first-first es h =
      load_next-below s.heap s.head 0 (omega (arith, h.head_height))
      ∙ ap some (Chain-first (s.heap.next 0) (s.heap.next 0 s.head) es (lowest_level es h))

  -- `Seek` stands at the first entry whose key is not before the target.
  seek-from :
      (es : List (Entry K V))
      → Holds o s es
      → (target : K) → seek o s target ≡ some (first (from o target es))
  unfolding seek
  seek-from es h target =
      let (prev, returns, found, kept) = find_greater_or_equal-Finds o s es h target (λ i. none) in
      rw returns refl

  -- `Next`, at an entry, goes on to the entry behind it.
  advance-next :
      (xs : List (Entry K V)) (e : Entry K V) (ys : List (Entry K V))
      → Holds o s (xs ++ e ∷ ys)
      → advance s (some e.at) ≡ some (first ys)
  unfolding advance
  advance-next xs e ys h =
      let here = All-append_right (IsStored s.heap) xs (e ∷ ys) h.stored in
      let behind =
        (Chain-append_right (s.heap.next 0) s.head xs (e ∷ ys) (lowest_level (xs ++ e ∷ ys) h)).1 in
      load_next-below s.heap e.at 0 (omega (arith, here.0.2, here.0.3))
      ∙ ap some (Chain-first (s.heap.next 0) (s.heap.next 0 e.at) ys behind)
