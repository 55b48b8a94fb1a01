-- ===== src/Base/SkipList/Invariant.antt =====
-- When a skiplist holds a list of entries.
use iceberg_db.Prelude.{ℕ, ◌≤◌, ◌<◌, ◌≡◌, List, length, All}
use iceberg_db.Base.Comparator.{Comparator}
use iceberg_db.Base.SkipList.{SkipList, max_height_limit}
use iceberg_db.Base.SkipList.Chain.{Entry, at_level, Chain, Without, Distinct}
use iceberg_db.Base.SkipList.Entries.{Sorted}
use iceberg_db.Base.SkipList.Search.{IsStored}

module _ {K V : Type 0} (o : Comparator K) where
  -- The entries are stored in order, at addresses of their own, and each level runs through those
  -- that are high enough.
  pub record Holds (s : SkipList K V) (es : List (Entry K V)) : Type 0 where
    pub stored : All (IsStored s.heap) es
    pub sorted : Sorted o es
    pub head_apart : Without s.head es
    pub distinct : Distinct es
    pub below : All (λ e. e.at < s.heap.size) es
    pub head_below : s.head < s.heap.size
    pub heights : All (λ e. e.height ≤ s.max_height) es
    pub head_height : s.heap.height s.head ≡ max_height_limit
    pub max_positive : 0 < s.max_height
    pub max_limit : s.max_height ≤ max_height_limit
    pub count : length es < s.heap.size
    pub levels :
        (i : ℕ)
        → i < max_height_limit
        → Chain (s.heap.next i) (s.heap.next i s.head) (at_level i es)
