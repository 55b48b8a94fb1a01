-- ===== src/Base/Status.antt =====
-- ibdb/src/base/status.h. `state_` is a null pointer, or an array that holds the length of the
-- message (4 bytes, in the host's order), the code (1 byte) and the message.
pub mod Layout
use iceberg_db.Prelude.{
  ℕ, ◌+◌, ◌%◌, ◌^◌, Bool, true, false, Option, none, some, List, [], ◌∷◌, ◌++◌, ◌==◌, ltb,
  if◌then◌else◌, length, take, drop, codes,
}
use iceberg_db.Base.Coding.{Endian, object_bytes, object_value, byte_at}

pub data Code : Type 0 where
  ok not_found corruption not_supported invalid_argument io_error wait_record eof : Code

unfoldable pub code_number : Code → ℕ
code_number ok = 0
code_number not_found = 1
code_number corruption = 2
code_number not_supported = 3
code_number invalid_argument = 4
code_number io_error = 5
code_number wait_record = 6
code_number eof = 7

abbrev pub Status : Type 0
Status = Option (List ℕ)

-- `Status::OK()`
abbrev pub status_ok : Status
status_ok = none

-- `bool ok() const`
abbrev pub is_ok : Status → Bool
is_ok none = true
is_ok (some state) = false

module _ (host : Endian) where
  -- The array that `Status(Code code, const Slice& msg, const Slice& msg2)` makes behind its `assert`,
  -- where the text fits the `size + 5` bytes
  unfoldable pub new : Code → List ℕ → List ℕ → Status
  new code msg msg2 =
      let len1 = length msg % 2 ^ 32 in
      let len2 = length msg2 % 2 ^ 32 in
      let size = (len1 + (if len2 == 0 then 0 else 2 + len2)) % 2 ^ 32 in
      some (
        object_bytes host 4 size
        ++ (code_number code % 256 ∷ take len1 msg
            ++ (if len2 == 0 then [] else b':' ∷ b' ' ∷ take len2 msg2)))

  -- The constructor: `none` where its `assert(code != kOk)` fails, or where the sums wrap, and the text is
  -- written behind the end of the `size + 5` bytes
  unfoldable pub construct : Code → List ℕ → List ℕ → Option Status
  construct code msg msg2 =
      let len1 = length msg % 2 ^ 32 in
      let len2 = length msg2 % 2 ^ 32 in
      let text = len1 + (if len2 == 0 then 0 else 2 + len2) in
      let size = text % 2 ^ 32 in
      if code_number code == 0
      then none
      else if ltb ((size + 5) % 2 ^ 32) (text + 5)
      then none
      else some (new code msg msg2)

  -- `CopyState`: `size + 5` bytes, a `uint32_t`, the size being read from the array.
  unfoldable pub copy_state : List ℕ → List ℕ
  copy_state state = let size = object_value host (take 4 state) in take ((size + 5) % 2 ^ 32) state

  -- `Status(const Status& rhs)`
  unfoldable pub copy : Status → Status
  copy none = none
  copy (some state) = some (copy_state state)

  -- `Code code() const`, as a number
  unfoldable pub code : Status → ℕ
  code none = code_number ok
  code (some state) = byte_at state 4

  -- The text of the `switch` in `ToString`; `unknown` is what `snprintf` makes of another code.
  unfoldable pub type_text : (ℕ → List ℕ) → ℕ → List ℕ
  type_text unknown c =
      if c == 0
      then codes "OK"
      else if c == 1
      then codes "NotFound: "
      else if c == 2
      then codes "Corruption: "
      else if c == 3
      then codes "Not implemented: "
      else if c == 4
      then codes "Invalid argument: "
      else if c == 5
      then codes "IO error: "
      else if c == 6
      then codes "Wait record"
      else if c == 7
      then codes "End of file"
      else unknown c

  -- `std::string ToString() const`
  unfoldable pub to_string : (ℕ → List ℕ) → Status → List ℕ
  to_string unknown none = codes "OK"
  to_string unknown (some state) =
      let len = object_value host (take 4 state) in
      type_text unknown (byte_at state 4) ++ take len (drop 5 state)
