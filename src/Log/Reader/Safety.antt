-- ===== src/Log/Reader/Safety.antt =====
-- `ReadPhysicalRecord` on any file, damaged ones and ones that err included.
use Prim.Native.Nat.{bit_and, bit_or}
use iceberg_db.Prelude.{
  ℕ, suc, ◌+◌, ◌*◌, ◌^◌, ◌≤◌, ◌<◌, ◌≡◌, refl, Bool, true, false, Option, some, List, ltb,
  if◌then◌else◌, length, take, drop, arith, inl, inr, Bool-cases,
}
use iceberg_db.Base.Coding.{Endian, byte_at, decode_fixed32}
use iceberg_db.Base.Crc32c.{unmask}
use iceberg_db.Log.Format.{block_size, header_size, SequentialFile}
use iceberg_db.Log.Checksum.{Checksum}
use iceberg_db.Log.Reader.{
  Reader, Physical, parse_header, refill, physical_loop, read_physical_record, eof_record,
}

one_of :
    {A : Type 0} (short end done : Bool) (a b c : A) (again : Option A)
    → (done ≡ true → (p : A) × (again ≡ some p))
    → (p : A) × ((if short
          then (if end then some a else if done then again else some b)
          else some c)
        ≡ some p)
one_of false end done a b c again more = (c, refl)
one_of true true done a b c again more = (a, refl)
one_of true false true a b c again more = more refl
one_of true false false a b c again more = (b, refl)

module _ (host : Endian) (sum : Checksum) (file : SequentialFile) where
  -- A block that was read is whole, or the last one.
  refill_whole :
      (r : Reader host sum file)
      → (refill host sum file r).1 ≡ true
      → (refill host sum file r).0.eof ≡ false
      → block_size ≤ length (refill host sum file r).0.buffer
  unfolding refill
  refill_whole r = ground arith

  abbrev Returned : Option (Physical host sum file) → Type 0
  Returned result = (p : Physical host sum file) × (result ≡ some p)

  first_returns :
      (fuel : ℕ) (r : Reader host sum file) (fragment : List ℕ)
      → (((refill host sum file r).1 ≡ true)
          → Returned (physical_loop host sum file fuel (refill host sum file r).0 fragment))
      → Returned (physical_loop host sum file (suc fuel) r fragment)
  unfolding physical_loop
  first_returns fuel r fragment more =
      one_of (ltb (length r.buffer) header_size) r.eof (refill host sum file r).1 _ _ _ _ more

  second_returns :
      (fuel : ℕ) (r : Reader host sum file) (fragment : List ℕ)
      → (r.eof ≡ false → block_size ≤ length r.buffer)
      → Returned (physical_loop host sum file (suc fuel) r fragment)
  unfolding physical_loop
  second_returns fuel r fragment whole = elim (Bool-cases (ltb (length r.buffer) header_size)) [
    | inr long ↦ rw long (_, refl)
    | inl short ↦ elim (Bool-cases r.eof) [
      | inl end ↦ rw (short, end) (_, refl)
      | inr more_data ↦ absurd (ground (arith, whole more_data))
    ]
  ]

  -- `ReadPhysicalRecord` returns from any state of the reader and on any file, one that errs or
  -- returns less or more than was asked for included: its loop never takes a third round.
  pub read_physical_record_returns :
      (r : Reader host sum file) (fragment : List ℕ)
      → (p : Physical host sum file) × (read_physical_record host sum file r fragment ≡ some p)
  unfolding read_physical_record
  read_physical_record_returns r fragment =
      first_returns 1 r fragment
        (λ done. second_returns 0 (refill host sum file r).0 fragment (refill_whole r done))

  -- What the header in the buffer says of the payload.
  abbrev pub payload_length : Reader host sum file → ℕ
  payload_length r =
      bit_or (bit_and (byte_at r.buffer 4) 0xff) (bit_and (byte_at r.buffer 5) 0xff * 2 ^ 8)

  -- Where the reader verifies checksums and the parse of a header ends with a record type of the
  -- format, one up to 5, the type and payload in the buffer have the checksum that the header stores.
  pub parse_header_checked :
      (r : Reader host sum file) (fragment : List ℕ)
      → r.checksum ≡ true
      → (parse_header host sum file r fragment).record_type < eof_record
      → sum.extend 0 (take (1 + payload_length r) (drop 6 r.buffer))
        ≡ unmask (decode_fixed32 host r.buffer)
  unfolding parse_header
  parse_header_checked r fragment checks t = ground arith
