-- ===== src/Base/Coding/RoundTrip.antt =====
-- Encoding and decoding on hosts of either byte order.
use Prim.Native.Nat.{bit_and}
use mathlib.Core.Path.{ap₂}
use iceberg_db.Prelude.{
  ℕ, zero, suc, ◌+◌, ◌*◌, ◌/◌, ◌%◌, ◌^◌, ◌<◌, ◌≡◌, refl, ap, ◌∙◌, List, [], ◌∷◌, ◌++◌, arith, All,
  drop, length,
}
use native.Mathlib.Nat.{pow-suc}
use iceberg_db.Prelude.Bits.{bit_and_mask, bit_or_fields, bit_or_comm}
use iceberg_db.Prelude.{take}
use iceberg_db.Base.Coding.{object_bytes, object_value}
use iceberg_db.Base.Coding.{
  Endian, little, big, IsByte, le_bytes, le_value, encode_fixed32, encode_fixed64, decode_fixed32,
  decode_fixed64,
}

byte_mask : (a : ℕ) → bit_and a 0xff ≡ a % 256
byte_mask a = bit_and_mask 8 a

-- On either host `EncodeFixed32` writes the four low digits in base 256, lowest first.
pub encode_fixed32-le_bytes : (host : Endian) (v : ℕ) → encode_fixed32 host v ≡ le_bytes 4 v
unfolding encode_fixed32 le_bytes
encode_fixed32-le_bytes little v = refl
encode_fixed32-le_bytes big v =
    ground
      (arith, byte_mask v, byte_mask (v / 2 ^ 8), byte_mask (v / 2 ^ 16), byte_mask (v / 2 ^ 24))

-- On either host `EncodeFixed64` writes the eight low digits in base 256, lowest first.
pub encode_fixed64-le_bytes : (host : Endian) (v : ℕ) → encode_fixed64 host v ≡ le_bytes 8 v
unfolding encode_fixed64 le_bytes
encode_fixed64-le_bytes little v = refl
encode_fixed64-le_bytes big v = ground (
  arith,
  byte_mask v,
  byte_mask (v / 2 ^ 8),
  byte_mask (v / 2 ^ 16),
  byte_mask (v / 2 ^ 24),
  byte_mask (v / 2 ^ 32),
  byte_mask (v / 2 ^ 40),
  byte_mask (v / 2 ^ 48),
  byte_mask (v / 2 ^ 56),
)

pub decode_fixed32-le_value :
    (host : Endian) (a b c d : ℕ) (rest : List ℕ)
    → IsByte a
    → IsByte b
    → IsByte c
    → IsByte d
    → decode_fixed32 host (a ∷ b ∷ c ∷ d ∷ rest) ≡ le_value (a ∷ b ∷ c ∷ d ∷ [])
unfolding decode_fixed32
decode_fixed32-le_value little a b c d rest ha hb hc hd = refl
decode_fixed32-le_value big a b c d rest ha hb hc hd = ground (
  arith,
  bit_or_fields 8 b a,
  bit_or_fields 16 c (a + b * 2 ^ 8) (omega arith),
  bit_or_fields 24 d (a + b * 2 ^ 8 + c * 2 ^ 16) (omega arith),
)

le_value-le_bytes : (n v : ℕ) → v < 256 ^ n → le_value (le_bytes n v) ≡ v
unfolding le_value le_bytes
le_value-le_bytes zero v h = omega arith
le_value-le_bytes (suc n) v h =
    omega (arith, pow-suc 256 n, le_value-le_bytes n (v / 256) (omega (arith, pow-suc 256 n)))

pub length-le_bytes : (n v : ℕ) → length (le_bytes n v) ≡ n
unfolding le_bytes
length-le_bytes zero v = refl
length-le_bytes (suc n) v = ap suc (length-le_bytes n (v / 256))

le_bytes-IsByte : (n v : ℕ) → All IsByte (le_bytes n v)
unfolding le_bytes
le_bytes-IsByte zero v = tt
le_bytes-IsByte (suc n) v = (omega arith, le_bytes-IsByte n (v / 256))

decode32-le_bytes :
    (host : Endian) (v : ℕ) (rest : List ℕ)
    → v < 2 ^ 32
    → decode_fixed32 host (le_bytes 4 v ++ rest) ≡ v
unfolding le_bytes
decode32-le_bytes host v rest h =
    decode_fixed32-le_value host (v % 256) (v / 256 % 256) (v / 256 / 256 % 256)
      (v / 256 / 256 / 256 % 256) rest (omega arith) (omega arith) (omega arith) (omega arith)
    ∙ le_value-le_bytes 4 v (omega arith)

-- `DecodeFixed32` gives back a 32-bit value that `EncodeFixed32` wrote, whatever bytes follow it.
pub decode_fixed32-encode_fixed32 :
    (host : Endian) (v : ℕ) (rest : List ℕ)
    → v < 2 ^ 32
    → decode_fixed32 host (encode_fixed32 host v ++ rest) ≡ v
decode_fixed32-encode_fixed32 host v rest h =
    rw (encode_fixed32-le_bytes host v) (decode32-le_bytes host v rest h)

-- The two halves of an 8-byte integer, as the big-endian branch reads them.
low_half :
    (host : Endian) (v : ℕ) (rest : List ℕ)
    → decode_fixed32 host (le_bytes 8 v ++ rest) ≡ v % 2 ^ 32
unfolding le_bytes
low_half host v rest =
    decode_fixed32-le_value host (v % 256) (v / 256 % 256) (v / 256 / 256 % 256)
      (v / 256 / 256 / 256 % 256) _ (omega arith) (omega arith) (omega arith) (omega arith)
    ∙ unfold le_value in omega arith

high_half :
    (host : Endian) (v : ℕ) (rest : List ℕ)
    → v < 2 ^ 64
    → decode_fixed32 host (drop 4 (le_bytes 8 v ++ rest)) ≡ v / 2 ^ 32
unfolding le_bytes
high_half host v rest h =
    decode32-le_bytes host (v / 256 / 256 / 256 / 256) rest (omega arith) ∙ omega arith

decode64-le_bytes :
    (host : Endian) (v : ℕ) (rest : List ℕ)
    → v < 2 ^ 64
    → decode_fixed64 host (le_bytes 8 v ++ rest) ≡ v
unfolding decode_fixed64
decode64-le_bytes little v rest h = unfold le_bytes in le_value-le_bytes 8 v (omega arith)
decode64-le_bytes big v rest h = ground (
  arith,
  low_half big v rest,
  high_half big v rest h,
  bit_or_comm (v / 2 ^ 32 * 2 ^ 32) (v % 2 ^ 32),
  bit_or_fields 32 (v / 2 ^ 32) (v % 2 ^ 32),
)

-- `DecodeFixed64` gives back a 64-bit value that `EncodeFixed64` wrote, whatever bytes follow it.
pub decode_fixed64-encode_fixed64 :
    (host : Endian) (v : ℕ) (rest : List ℕ)
    → v < 2 ^ 64
    → decode_fixed64 host (encode_fixed64 host v ++ rest) ≡ v
decode_fixed64-encode_fixed64 host v rest h =
    rw (encode_fixed64-le_bytes host v) (decode64-le_bytes host v rest h)

le_bytes-le_value : (bs : List ℕ) → All IsByte bs → le_bytes (length bs) (le_value bs) ≡ bs
unfolding le_value le_bytes
le_bytes-le_value [] h = refl
le_bytes-le_value (b ∷ bs) h =
    ap₂ (λ (c : ℕ) (cs : List ℕ). c ∷ cs) (omega arith)
      (ap (le_bytes (length bs)) {x = (b + 256 * le_value bs) / 256} (omega arith)
        ∙ le_bytes-le_value bs h.1)

-- Four bytes that `DecodeFixed32` read are the bytes that `EncodeFixed32` writes of the result.
encode_fixed32-decode_fixed32 :
    (host : Endian) (a b c d : ℕ) (rest : List ℕ)
    → IsByte a
    → IsByte b
    → IsByte c
    → IsByte d
    → encode_fixed32 host (decode_fixed32 host (a ∷ b ∷ c ∷ d ∷ rest)) ≡ a ∷ b ∷ c ∷ d ∷ []
encode_fixed32-decode_fixed32 host a b c d rest ha hb hc hd =
    rw (encode_fixed32-le_bytes, decode_fixed32-le_value host a b c d rest ha hb hc hd)
      (le_bytes-le_value (a ∷ b ∷ c ∷ d ∷ []) (ha, (hb, (hc, (hd, tt)))))

-- The host reads back the four bytes that it laid out, whatever its byte order.
pub object_value-object_bytes :
    (host : Endian) (v : ℕ) (rest : List ℕ)
    → v < 2 ^ 32
    → object_value host (take 4 (object_bytes host 4 v ++ rest)) ≡ v
unfolding object_bytes object_value
object_value-object_bytes little v rest h = le_value-le_bytes 4 v (omega arith)
object_value-object_bytes big v rest h = le_value-le_bytes 4 v (omega arith)
