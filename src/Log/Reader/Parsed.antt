-- ===== src/Log/Reader/Parsed.antt =====
-- `ReadPhysicalRecord` from the header on, at a fragment of the layout.
use Prim.Native.Nat.{bit_and, bit_or}
use mathlib.Core.List.{append_assoc}
use iceberg_db.Prelude.{
  ℕ, ◌+◌, ◌*◌, ◌/◌, ◌%◌, ◌^◌, ◌<◌, ◌≡◌, refl, ap, ◌∙◌, true, false, List, [], ◌∷◌, ◌++◌, ltb, ◌==◌,
  ==_iff, length, take, drop, All, arith, inl, inr, Bool-cases, length-append, get_or-append_left,
  drop-append_le, take-append_left, drop-append_left,
}
use iceberg_db.Prelude.Bits.{bit_and_mask, bit_or_fields}
use iceberg_db.Base.Coding.{Endian, IsByte, byte_at, decode_fixed32, encode_fixed32, le_bytes}
use iceberg_db.Base.Coding.RoundTrip.{decode_fixed32-encode_fixed32, encode_fixed32-le_bytes}
use iceberg_db.Base.Crc32c.{mask, unmask}
use iceberg_db.Base.Crc32c.Mask.{unmask-mask, mask-lt}
use iceberg_db.Log.Format.{RecordType, type_number, header_size, SequentialFile}
use iceberg_db.Log.Checksum.{Checksum}
use iceberg_db.Log.Writer.{type_crc, header}
use iceberg_db.Log.Reader.{Reader, returns, type_of_byte, take_record, parse_header}

type_number-lt : (t : RecordType) → type_number t < 128
unfolding type_number
type_number-lt RecordType.zero_type = omega arith
type_number-lt _ = omega arith

no_lt_zero : (x : ℕ) → ltb x 0 ≡ false
no_lt_zero x = ground arith

-- The header as its seven bytes.
module _ (host : Endian) (sum : Checksum) where
  abbrev pub stored : RecordType → List ℕ → ℕ
  stored t p = mask (sum.extend (type_crc host sum t) p)

  type_crc-lt : (t : RecordType) → type_crc host sum t < 2 ^ 32
  unfolding type_crc
  type_crc-lt t =
      sum.extend-lt 0 (type_number t ∷ []) (omega arith) (omega (arith, type_number-lt t), tt)

  -- What the reader finds in a header that the writer made.
  pub record Heads (t : RecordType) (p bytes : List ℕ) : Type 0 where
    pub size : length bytes ≡ 7
    pub low : byte_at bytes 4 ≡ length p % 256
    pub high : byte_at bytes 5 ≡ length p / 256
    pub type : byte_at bytes 6 ≡ type_number t
    pub tail : drop 6 bytes ≡ type_number t ∷ []
    pub crc : (rest : List ℕ) → decode_fixed32 host (bytes ++ rest) ≡ stored t p

  pub header-Heads :
      (t : RecordType) (p : List ℕ) → length p < 2 ^ 16 → Heads t p (header host sum t p)
  unfolding header
  header-Heads t p h = record {
    size = rw encode_fixed32-le_bytes (unfold le_bytes in refl);
    low = rw encode_fixed32-le_bytes (unfold le_bytes in bit_and_mask 8 (length p));
    high = rw encode_fixed32-le_bytes (unfold le_bytes in omega arith);
    type = rw encode_fixed32-le_bytes (unfold le_bytes in refl);
    tail = rw encode_fixed32-le_bytes (unfold le_bytes in refl);
    crc = λ rest.
        ap (decode_fixed32 host) (append_assoc (encode_fixed32 host (stored t p)) _ rest)
        ∙ decode_fixed32-encode_fixed32 host (stored t p) _
            (mask-lt (sum.extend (type_crc host sum t) p));
  }

  module _ (file : SequentialFile) where
    -- A whole physical record in front of the buffer is taken off it.
    pub parse_header-returns :
        (r : Reader host sum file) (frag head p tail : List ℕ) (t : RecordType)
        → Heads t p head
        → 0 < type_number t
        → length p < 2 ^ 16
        → All IsByte p
        → r.initial_offset ≡ 0
        → r.buffer ≡ head ++ (p ++ tail)
        → parse_header host sum file r frag
          ≡ returns host sum file (record r { buffer = tail }) (type_number t) p
    unfolding parse_header take_record type_crc
    parse_header-returns r frag head p tail t hd pos short bytes at e =
        rw (b4, b5, b6, len_lem, at, signed, checked, taken, dropped)
          (rw (long, positive)
            (elim (Bool-cases r.checksum) [
              | inl on ↦ rw (on, no_lt_zero)
              | inr off ↦ rw (off, no_lt_zero)
            ]))
      where
        n : ℕ
        n = length p

        b4 : byte_at r.buffer 4 ≡ n % 256
        b4 = rw e (get_or-append_left head (p ++ tail) 4 0 (omega (arith, hd.size)) ∙ hd.low)

        b5 : byte_at r.buffer 5 ≡ n / 256
        b5 = rw e (get_or-append_left head (p ++ tail) 5 0 (omega (arith, hd.size)) ∙ hd.high)

        b6 : byte_at r.buffer 6 ≡ type_number t
        b6 = rw e (get_or-append_left head (p ++ tail) 6 0 (omega (arith, hd.size)) ∙ hd.type)

        len_lem : bit_or (bit_and (n % 256) 0xff) (bit_and (n / 256) 0xff * 2 ^ 8) ≡ n
        len_lem = ground (
          arith,
          bit_and_mask 8 (n % 256),
          bit_and_mask 8 (n / 256),
          bit_or_fields 8 (n / 256) (n % 256),
        )

        signed : type_of_byte (type_number t) ≡ type_number t
        signed = unfold type_of_byte in ground (arith, type_number-lt t)

        long : ltb (length r.buffer) (header_size + n) ≡ false
        long = rw e (ground (arith, length-append head (p ++ tail), length-append p tail, hd.size))

        positive : (type_number t == 0) ≡ false
        positive = ground arith

        six : take (1 + n) (drop 6 r.buffer) ≡ type_number t ∷ p
        six =
            rw (e, drop-append_le 6 head (p ++ tail) (omega (arith, hd.size)), hd.tail)
              (take-append_left (1 + n) (type_number t ∷ p) tail (omega arith))

        crc : ℕ
        crc = sum.extend (type_crc host sum t) p

        crc_word : crc < 2 ^ 32
        crc_word = sum.extend-lt (type_crc host sum t) p (type_crc-lt t) bytes

        checked :
            (sum.extend 0 (take (1 + n) (drop 6 r.buffer)) == unmask (decode_fixed32 host r.buffer))
            ≡ true
        checked =
            rw (six, e, hd.crc (p ++ tail), unmask-mask crc crc_word)
              ((==_iff _ crc).1 (sum.extend-append 0 (type_number t ∷ []) p))

        taken : take n (drop 7 r.buffer) ≡ p
        taken = rw (e, drop-append_left 7 head (p ++ tail) hd.size) (take-append_left n p tail refl)

        dropped : drop (header_size + n) r.buffer ≡ tail
        dropped =
            rw (e, ← append_assoc)
              (drop-append_left (header_size + n) (head ++ p) tail
                (omega (arith, length-append head p, hd.size)))
