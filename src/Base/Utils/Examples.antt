-- ===== src/Base/Utils/Examples.antt =====
-- Runs of the utilities.
use iceberg_db.Prelude.{
  ℕ, ◌≡◌, refl, true, false, ◌&&◌, List, [], ◌∷◌, ◌++◌, ltb, length, take, codes, ◌==◌,
  if◌then◌else◌,
}
use iceberg_db.Base.Coding.{little, big, object_value, le_value}
use iceberg_db.Base.Slice.{Sign}
use iceberg_db.Base.Slice
use iceberg_db.Base.Slice.Order.{byte_order}
use iceberg_db.Base.Utils.{
  is_visible, is_zero, Made, made, refused, mkdir, mkdir_from, mkdir_recur, hash_step, hash_from,
  java_hash,
}
use iceberg_db.Base.Utils.Zero.{all_zero, is_zero-all_zero}

abbrev memcmp : List ℕ → List ℕ → ℕ → Sign
memcmp xs ys n = byte_order (take n xs) (take n ys)

abbrev ten_bytes : List ℕ
ten_bytes = 0 ∷ 0 ∷ 0 ∷ 0 ∷ 0 ∷ 0 ∷ 0 ∷ 0 ∷ 0 ∷ 9 ∷ []

is_zero-all_zero_example :
    is_zero big memcmp (ten_bytes ++ codes "end") (length ten_bytes)
    ≡ (ltb 0 (length ten_bytes) && all_zero ten_bytes)
is_zero-all_zero_example =
    is_zero-all_zero big memcmp ten_bytes (codes "end") (λ xs ys n h h'. refl)

-- Nine of them are zero.
nine_zeros : is_zero little memcmp ten_bytes 9 ≡ true
unfolding is_zero object_value le_value Slice.is_zero byte_order
nine_zeros = refl

visible_letter : is_visible b'~' && is_visible b' ' ≡ true
unfolding is_visible
visible_letter = refl

-- A file system is the paths of its directories; one path cannot be made.
abbrev call_mkdir : List (List ℕ) → List ℕ → List (List ℕ) × Made
call_mkdir w path = if length path == 6 then (w, refused) else (path ∷ w, made)

makes_each_front_part :
    mkdir_recur call_mkdir [] (codes "/db/log/1")
    ≡ (codes "/db/log/1" ∷ codes "/db/log/" ∷ codes "/db/" ∷ codes "/" ∷ [], true)
unfolding mkdir_recur mkdir_from mkdir
makes_each_front_part = refl

stops_where_refused :
    mkdir_recur call_mkdir [] (codes "/db/l/1") ≡ (codes "/db/" ∷ codes "/" ∷ [], false)
unfolding mkdir_recur mkdir_from mkdir
stops_where_refused = refl

hash_of_letters : java_hash (codes "abc") ≡ 96354
unfolding java_hash hash_from hash_step
hash_of_letters = refl
