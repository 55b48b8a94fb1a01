-- ===== src/Storage/Segment/Examples.antt =====
-- A segment with a key and a value, and the theorems on it.
use iceberg_db.Prelude.{ℕ, refl, Bool, Option, none, some, List, [], codes, take}
use iceberg_db.Base.Slice.{Sign}
use iceberg_db.Base.Slice.Order.{byte_order, Documented}
use iceberg_db.Base.Comparator.{Comparator}
use iceberg_db.Base.Random
use iceberg_db.Base.SkipList
use iceberg_db.Base.SkipList.{SkipList}
use iceberg_db.Storage.Segment.{Segment, new_segment, build_key_index, put}
use iceberg_db.Storage.Segment.Comparators.{slice_comparator, time_stamp_comparator}
use iceberg_db.Storage.Segment.Runs.{Contents, nothing, with_key, with_value}

abbrev pub memcmp : List ℕ → List ℕ → ℕ → Sign
memcmp xs ys n = byte_order (take n xs) (take n ys)

pub memcmp-Documented : Documented memcmp
memcmp-Documented xs ys n h k = refl

abbrev pub slices : Comparator (List ℕ)
slices = slice_comparator memcmp memcmp-Documented

abbrev times : Comparator ℕ
times = time_stamp_comparator

abbrev pub garbage : ℕ → ℕ → ℕ → Option ℕ
garbage p n x = some 9

abbrev pub blank : {K : Type 0} → K → SkipList K ℕ
blank key = record {
  heap = record { height = λ p. 0; key = λ p. key; value = λ p. 0; next = λ n p. none; size = 0 };
  head = 0;
  tail = 0;
  max_height = 0;
  rnd = record { seed = 0 };
}

abbrev empty_segment : Segment
empty_segment = record {
  segment = blank [];
  value_entries = λ p. blank 0;
  indexes = λ p. blank [];
  allocated = 0;
}

abbrev segment_or : Option Segment → Segment
segment_or none = empty_segment
segment_or (some s) = s

abbrev returned : Option (Segment × Bool) → Segment
returned none = empty_segment
returned (some (s, done)) = s

abbrev s0 : Segment
s0 = segment_or (new_segment slices times garbage (λ p. blank 0) (λ p. blank []))

abbrev s1 : Segment
s1 = returned (build_key_index slices times garbage s0 (codes "user"))

abbrev s2 : Segment
s2 = returned (put slices times garbage s1 (codes "user") 7 (codes "ann") 40)

abbrev built : Contents slices times garbage
built = with_key slices times garbage (nothing slices times garbage) (codes "user")

abbrev filled : Contents slices times garbage
filled = with_value slices times garbage built (codes "user") 7 (codes "ann") 40
