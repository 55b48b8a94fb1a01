-- ===== src/Base/Slice.antt =====
-- ibdb/src/base/slice.h: a pointer into memory and a size. `data_` is the memory from the pointer on.
pub mod Order
use iceberg_db.Prelude.{
  ℕ, ◌+◌, ◌-◌, ◌%◌, ◌^◌, ◌≤◌, Bool, true, false, ◌&&◌, not, Option, none, some, List, [], ltb, leb,
  ◌==◌, if◌then◌else◌, length, get_or, take, drop,
}

pub record Slice : Type 0 where
  pub data_ : List ℕ
  pub size : ℕ
  pub need_free : Bool

-- The bytes lie in memory.
abbrev pub IsSlice : Slice → Type 0
IsSlice s = s.size ≤ length s.data_

-- The sign of an `int` that a comparison returns.
pub data Sign : Type 0 where
  negative zero_sign positive : Sign

unfoldable pub is_zero : Sign → Bool
is_zero zero_sign = true
is_zero _ = false

-- `Slice(const std::string& s)`
unfoldable pub of_string : List ℕ → Slice
of_string s = record { data_ = s; size = length s; need_free = false }

-- `Slice(const char* s, const int n)`, with a number that is turned into an `int`, and this into the size
unfoldable pub int_size : ℕ → ℕ
int_size n = let low = n % 2 ^ 32 in if ltb low (2 ^ 31) then low else low + (2 ^ 64 - 2 ^ 32)

unfoldable pub of_buffer : List ℕ → ℕ → Slice
of_buffer s n = record { data_ = s; size = int_size n; need_free = false }

-- `bool empty() const`
unfoldable pub empty : Slice → Bool
empty s = s.size == 0

-- `char operator[](size_t n) const`; `none` where the assertion fails.
unfoldable pub element : Slice → ℕ → Option ℕ
element s n = if ltb n s.size then some (get_or s.data_ n 0) else none

-- `void remove_prefix(size_t n)`; `none` where the assertion fails.
unfoldable pub remove_prefix : Slice → ℕ → Option Slice
remove_prefix s n =
    if leb n s.size then some (record s { data_ = drop n s.data_; size = s.size - n }) else none

-- `void clear()`
unfoldable pub clear : Slice → Slice
clear s = record { data_ = []; size = 0; need_free = false }

-- `std::string ToString() const`
unfoldable pub to_string : Slice → List ℕ
to_string s = take s.size s.data_

-- With the sign of what `memcmp` returns as a parameter.
module _ (memcmp : List ℕ → List ℕ → ℕ → Sign) where
  -- `bool starts_with(const Slice& x) const`
  unfoldable pub starts_with : Slice → Slice → Bool
  starts_with s x = leb x.size s.size && is_zero (memcmp s.data_ x.data_ x.size)

  -- `operator==`
  unfoldable pub equal : Slice → Slice → Bool
  equal x y = x.size == y.size && is_zero (memcmp x.data_ y.data_ x.size)

  -- `operator!=`
  unfoldable pub not_equal : Slice → Slice → Bool
  not_equal x y = not (equal x y)

  -- `int compare(const Slice& b) const`
  unfoldable pub compare : Slice → Slice → Sign
  compare a b =
      let min_len = if ltb a.size b.size then a.size else b.size in
      let result = memcmp a.data_ b.data_ min_len in
      let shorter = if ltb a.size b.size then negative else result in
      if is_zero result then (if ltb b.size a.size then positive else shorter) else result
