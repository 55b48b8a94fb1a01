-- ===== src/Base/Utils.antt =====
-- ibdb/src/base/utils.h: strings and buffers. What boost, `memcmp` and the system do is a parameter.
pub mod Zero
pub mod Paths
pub mod Hash
pub mod Examples
use iceberg_db.Prelude.{
  ℕ, zero, suc, ◌+◌, ◌-◌, ◌*◌, ◌/◌, ◌%◌, ◌^◌, Bool, true, false, ◌&&◌, List, [], ◌∷◌, ◌++◌, ltb,
  leb, ◌==◌, if◌then◌else◌, length, take, drop, codes,
}
use iceberg_db.Base.Coding.{Endian, byte_at, object_value}
use iceberg_db.Base.Slice.{Sign}
use iceberg_db.Base.Slice

-- `boost::algorithm::split(*result, full, boost::is_any_of(delim))`, from `full` and `delim`
abbrev pub Split : Type 0
Split = List ℕ → List ℕ → List (List ℕ)

-- `void SplitString(const std::string& full, const std::string& delim, std::vector<std::string>* result)`:
-- what `result` is afterwards
unfoldable pub split_string : Split → List ℕ → List ℕ → List (List ℕ)
split_string split [] delim = []
split_string split full delim = split full delim

-- `static bool IsVisible(char c)`
unfoldable pub is_visible : ℕ → Bool
is_visible c = leb 0x20 c && leb c 0x7e

-- `bool is_zero(const char* buff, const size_t size)`, with the sign of what `memcmp` returns. The first
-- bytes are read as an integer of 8 bytes or of one.
unfoldable pub is_zero : Endian → (List ℕ → List ℕ → ℕ → Sign) → List ℕ → ℕ → Bool
is_zero host memcmp buff size =
    if leb 8 size
    then 0 == object_value host (take 8 buff)
      && Slice.is_zero (memcmp buff (drop 8 buff) (size - 8))
    else if ltb 0 size
    then 0 == object_value host (take 1 buff)
      && Slice.is_zero (memcmp buff (drop 1 buff) (size - 1))
    else false

-- A step of `h = 31 * h + value[i]` on `uint32_t`, where the sign of the `char` is extended.
unfoldable pub hash_step : ℕ → ℕ → ℕ
hash_step h c = (31 * h + (if ltb c 128 then c else c + 2 ^ 32 - 256)) % 2 ^ 32

-- `uint32_t javaHash(const std::string& key)`: its loop, from a value of `h`
unfoldable pub hash_from : ℕ → List ℕ → ℕ
hash_from h [] = h
hash_from h (c ∷ key) = hash_from (hash_step h c) key

unfoldable pub java_hash : List ℕ → ℕ
java_hash key = hash_from 0 key

-- What `::mkdir` did: 0, an error EEXIST, or another error.
pub data Made : Type 0 where
  made already_there refused : Made

abbrev pub is_there : Made → Bool
is_there made = true
is_there already_there = true
is_there refused = false

module _ {World : Type 0} (call : World → List ℕ → World × Made) where
  -- `static bool Mkdir(const std::string& path)`
  unfoldable pub mkdir : World → List ℕ → World × Bool
  mkdir w path = let (w', result) = call w path in (w', is_there result)

  -- The loop of `MkdirRecur` behind a front part of the path: `find` goes on to the next '/', and one at
  -- the end of the path ends the loop.
  unfoldable pub mkdir_from : World → List ℕ → List ℕ → World × Bool
  mkdir_from w front [] = mkdir w front
  mkdir_from w front (c ∷ []) = mkdir w (front ++ c ∷ [])
  mkdir_from w front (c ∷ d ∷ rest) =
      let next = front ++ c ∷ [] in
      let (w', ok) = mkdir w next in
      let others = mkdir_from w' next (d ∷ rest) in
      let on = mkdir_from w next (d ∷ rest) in
      if c == b'/' then (if ok then others else (w', false)) else on

  -- `static bool MkdirRecur(const std::string& dir_path)`
  unfoldable pub mkdir_recur : World → List ℕ → World × Bool
  mkdir_recur w dir_path = mkdir_from w [] dir_path
