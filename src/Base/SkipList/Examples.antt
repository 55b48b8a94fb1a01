-- ===== src/Base/SkipList/Examples.antt =====
-- A skiplist of numbers: tests, and the theorems at the list that two insertions make.
use iceberg_db.Prelude.{ℕ, ◌≡◌, refl, true, false, Option, none, some, arith, if◌then◌else◌, ltb}
use iceberg_db.Base.Slice.{Sign, negative, zero_sign, positive, is_zero}
use iceberg_db.Base.Slice.Order.{opposite}
use iceberg_db.Base.Comparator.{Comparator}
use iceberg_db.Base.Random
use iceberg_db.Base.SkipList.{
  SkipList, new, new_node, clear_next, store_next, load_next, grow, find_loop, link, fill_prev,
  key_is_after_node, equals_node, node_equals, equal_loop, find_equal, insert, remove, get,
  contains, random_height, find_greater_or_equal,
}
use iceberg_db.Base.SkipList.Runs.{
  Run, from_new, from_insert, Run-get, Run-returns, Run-Implements, assign, Implements,
}
use iceberg_db.Base.SkipList.Insert.{Inserts, insert-Inserts}
use iceberg_db.Base.SkipList.Remove.{Removes, remove-Removes}
use iceberg_db.Base.SkipList.Lookup.{is_some}

abbrev sign : ℕ → ℕ → Sign
sign a b = if ltb a b then negative else if ltb b a then positive else zero_sign

sign-flip : (a b : ℕ) → sign b a ≡ opposite (sign a b)
unfolding opposite
sign-flip a b = ground arith

sign-eq : (a b : ℕ) → sign a b ≡ zero_sign → a ≡ b
sign-eq a b h = ground arith

sign_trans : (a b c : ℕ) → sign a b ≡ negative → sign b c ≡ negative → sign a c ≡ negative
sign_trans a b c h k = ground arith

abbrev numbers : Comparator ℕ
numbers = record {
  compare = sign;
  compare-flip = sign-flip;
  eq_of_zero = sign-eq;
  lt_trans = sign_trans;
}

abbrev or_else : {A : Type 0} → Option A → A → A
or_else none a = a
or_else (some b) a = b

abbrev blank : SkipList ℕ ℕ
blank = record {
  heap = record { height = λ p. 0; key = λ p. 0; value = λ p. 0; next = λ n p. none; size = 0 };
  head = 0;
  tail = 0;
  max_height = 0;
  rnd = record { seed = 0 };
}

abbrev garbage : ℕ → ℕ → Option ℕ
garbage n p = some 7

abbrev empty : SkipList ℕ ℕ
unfolding new
empty = or_else (new garbage 0 0) blank

empty-made : new garbage 0 0 ≡ some empty
unfolding new new_node clear_next store_next
empty-made = refl

abbrev one : SkipList ℕ ℕ
unfolding insert
one = or_else (insert numbers empty 5 50) blank

one-made : insert numbers empty 5 50 ≡ some one
unfolding insert find_greater_or_equal find_loop load_next key_is_after_node equals_node
    random_height grow Random.next Random.new new_node link store_next new clear_next is_zero
    fill_prev
one-made = refl

abbrev two : SkipList ℕ ℕ
unfolding insert
two = or_else (insert numbers one 3 30) blank

two-made : insert numbers one 3 30 ≡ some two
unfolding insert find_greater_or_equal find_loop load_next key_is_after_node equals_node
    random_height grow Random.next Random.new new_node link store_next new clear_next is_zero
    fill_prev
two-made = refl

-- The second insertion finds its key, and fails its assertion.
insert-twice : insert numbers two 3 31 ≡ none
unfolding insert find_greater_or_equal find_loop load_next key_is_after_node equals_node
    random_height grow Random.next Random.new new_node link store_next new clear_next is_zero
    fill_prev
insert-twice = refl

get-three : get numbers two 3 ≡ some (some 30)
unfolding insert find_greater_or_equal find_loop load_next key_is_after_node equals_node
    random_height grow Random.next Random.new new_node link store_next new clear_next is_zero
    fill_prev get find_equal equal_loop node_equals
get-three = refl

empty-Run : Run numbers empty (λ k. none)
empty-Run = from_new garbage 0 0 empty empty-made

one-Run : Run numbers one (assign numbers (λ k. none) 5 (some 50))
one-Run = from_insert empty one (λ k. none) 5 50 empty-Run one-made

abbrev two_map : ℕ → Option ℕ
two_map = assign numbers (assign numbers (λ k. none) 5 (some 50)) 3 (some 30)

two-Run : Run numbers two two_map
two-Run = from_insert one two (assign numbers (λ k. none) 5 (some 50)) 3 30 one-Run two-made

Run-get_example : (get numbers two 5 ≡ some (some 50)) × (contains numbers two 5 ≡ some true)
unfolding is_zero
Run-get_example = Run-get numbers two two_map two-Run 5

Run-returns_example :
    (is_some (insert numbers two 5 51) ≡ false)
    × ((s : SkipList ℕ ℕ) × (remove numbers two 5 ≡ some (s, true)))
unfolding is_zero
Run-returns_example = Run-returns numbers two two_map two-Run 5 51

abbrev two_state : Implements numbers two two_map
two_state = Run-Implements numbers two two_map two-Run

insert-Inserts_example : Inserts numbers two two_state.0 4 40
unfolding is_zero
insert-Inserts_example = insert-Inserts numbers two two_state.0 two_state.1 4 40 (two_state.2 4)

remove-Removes_example : Removes numbers two two_state.0 5
remove-Removes_example = remove-Removes numbers two two_state.0 two_state.1 5
