-- ===== src/Base/Coding.antt =====
-- ibdb/src/base/coding.h: fixed-width integers as bytes, lowest first, on a host of either byte
-- order. A buffer is the list of its bytes; `byte_at` is `ptr[i]`, meant within the buffer.
pub mod RoundTrip
use Prim.Native.Nat.{bit_and, bit_or}
use mathlib.Core.List.{reverse}
use iceberg_db.Prelude.{
  ℕ, zero, suc, ◌+◌, ◌*◌, ◌/◌, ◌%◌, ◌^◌, ◌<◌, Bool, List, [], ◌∷◌, ◌==◌, if◌then◌else◌, get_or,
  take, drop,
}

-- How the host lays out an integer in memory.
pub data Endian : Type 0 where
  little big : Endian

abbrev pub IsByte : ℕ → Type 0
IsByte b = b < 256

unfoldable pub le_bytes : ℕ → ℕ → List ℕ
le_bytes zero v = []
le_bytes (suc n) v = (v % 256) ∷ le_bytes n (v / 256)

unfoldable pub le_value : List ℕ → ℕ
le_value [] = 0
le_value (b ∷ bs) = b + 256 * le_value bs

-- What `memcpy` out of an `n`-byte integer writes, and what `memcpy` into one reads.
unfoldable pub object_bytes : Endian → ℕ → ℕ → List ℕ
unfolding le_bytes
object_bytes little n v = le_bytes n v
object_bytes big n v = reverse (le_bytes n v)

unfoldable pub object_value : Endian → List ℕ → ℕ
unfolding le_value
object_value little bs = le_value bs
object_value big bs = le_value (reverse bs)

abbrev pub byte_at : List ℕ → ℕ → ℕ
byte_at ptr i = get_or ptr i 0

-- port.h: `int a = 1; *(char*)&a == 1`
unfoldable pub is_little_endian : Endian → Bool
unfolding object_bytes
is_little_endian host = byte_at (object_bytes host 4 1) 0 == 1

unfoldable pub encode_fixed32 : Endian → ℕ → List ℕ
unfolding is_little_endian
encode_fixed32 host value =
    if is_little_endian host
    then object_bytes host 4 value
    else bit_and value 0xff
      ∷ bit_and (value / 2 ^ 8) 0xff
      ∷ bit_and (value / 2 ^ 16) 0xff
      ∷ bit_and (value / 2 ^ 24) 0xff
      ∷ []

unfoldable pub encode_fixed64 : Endian → ℕ → List ℕ
unfolding is_little_endian
encode_fixed64 host value =
    if is_little_endian host
    then object_bytes host 8 value
    else bit_and value 0xff
      ∷ bit_and (value / 2 ^ 8) 0xff
      ∷ bit_and (value / 2 ^ 16) 0xff
      ∷ bit_and (value / 2 ^ 24) 0xff
      ∷ bit_and (value / 2 ^ 32) 0xff
      ∷ bit_and (value / 2 ^ 40) 0xff
      ∷ bit_and (value / 2 ^ 48) 0xff
      ∷ bit_and (value / 2 ^ 56) 0xff
      ∷ []

unfoldable pub decode_fixed32 : Endian → List ℕ → ℕ
unfolding is_little_endian object_value
decode_fixed32 host ptr =
    if is_little_endian host
    then object_value host (take 4 ptr)
    else bit_or
        (bit_or (bit_or (byte_at ptr 0) (byte_at ptr 1 * 2 ^ 8 % 2 ^ 32))
          (byte_at ptr 2 * 2 ^ 16 % 2 ^ 32))
        (byte_at ptr 3 * 2 ^ 24 % 2 ^ 32)

unfoldable pub decode_fixed64 : Endian → List ℕ → ℕ
unfolding is_little_endian object_value
decode_fixed64 host ptr =
    let lo = decode_fixed32 host ptr in
    let hi = decode_fixed32 host (drop 4 ptr) in
    if is_little_endian host
    then object_value host (take 8 ptr)
    else bit_or (hi * 2 ^ 32 % 2 ^ 64) lo
