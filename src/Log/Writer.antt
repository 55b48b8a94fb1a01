-- ===== src/Log/Writer.antt =====
-- ibdb/src/log/log_writer.h: `IbdbWriter`, over any file and checksum.
pub mod Layout
pub mod Fuel
pub mod Emitted
pub mod Total
use Prim.Native.Nat.{bit_and}
use mathlib.Core.Option
use iceberg_db.Prelude.{
  ℕ, zero, suc, ◌+◌, ◌-◌, ◌/◌, ◌%◌, ◌^◌, Bool, true, false, ◌&&◌, Option, none, some, List, [], ◌∷◌,
  ◌++◌, ltb, ◌==◌, if◌then◌else◌, length, take, drop, replicate,
}
use iceberg_db.Base.Coding.{Endian, encode_fixed32}
use iceberg_db.Base.Crc32c.{mask}
use iceberg_db.Base.Status.{Status, status_ok, is_ok}
use iceberg_db.Log.Format.{
  RecordType, full_type, first_type, middle_type, last_type, type_number, block_size, header_size,
  WritableFile,
}
use iceberg_db.Log.Checksum.{Checksum}

-- The type of a fragment, by whether it begins and whether it ends the record.
unfoldable pub fragment_type : Bool → Bool → RecordType
fragment_type true true = full_type
fragment_type true false = first_type
fragment_type false true = last_type
fragment_type false false = middle_type

module _ (host : Endian) (sum : Checksum) where
  -- `type_crc_[t]`, which `InitTypeCrc` computes.
  unfoldable pub type_crc : RecordType → ℕ
  type_crc t = sum.extend 0 (type_number t ∷ [])

  -- The `kHeaderSize` bytes in front of a payload.
  unfoldable pub header : RecordType → List ℕ → List ℕ
  header t payload =
      let n = length payload in
      let crc = mask (sum.extend (type_crc t) payload) in
      encode_fixed32 host crc ++ (bit_and n 0xff ∷ n / 2 ^ 8 % 256 ∷ type_number t ∷ [])

  module _ (file : WritableFile) where
    pub record Writer : Type 0 where
      pub dest : file.State
      pub block_offset : ℕ

    -- `IbdbWriter(WritableFile* dest, uint64_t dest_length)`
    unfoldable pub new : file.State → ℕ → Writer
    new dest dest_length = record { dest = dest; block_offset = dest_length % block_size }

    -- The three calls on the file: each is made only after an ok status.
    unfoldable pub append_record : file.State → List ℕ → List ℕ → Option (file.State × Status)
    unfolding Option.bind
    append_record dest head payload = Option.bind (file.append dest head) (λ (d, s).
        if is_ok s
        then Option.bind (file.append d payload)
            (λ (d', s'). if is_ok s' then file.flush d' else some (d', s'))
        else some (d, s))

    -- `Status EmitPhysicalRecord(RecordType t, const char* ptr, size_t n)`
    unfoldable pub emit_physical_record : Writer → RecordType → List ℕ → Option (Writer × Status)
    emit_physical_record w t payload =
        Option.map
          (λ (d, s). (
            record { dest = d; block_offset = w.block_offset + (header_size + length payload) },
            s,
          ))
          (append_record w.dest (header t payload) payload)

    -- The switch to a new block; the status of the trailer's `Append` is dropped.
    unfoldable pub switch_block : Writer → Option Writer
    switch_block w =
        let leftover = block_size - w.block_offset in
        if ltb leftover header_size
        then (if ltb 0 leftover
            then Option.map (λ (d, s). record { dest = d; block_offset = 0 })
                (file.append w.dest (replicate leftover 0))
            else some (record w { block_offset = 0 }))
        else some w

    -- `do { … } while (s.ok() && left > 0);` with the bytes from `ptr` on.
    unfoldable pub add_loop : ℕ → Bool → List ℕ → Writer → Option (Writer × Status)
    unfolding Option.bind
    add_loop zero begin ptr w = none
    add_loop (suc fuel) begin ptr w = Option.bind (switch_block w) (λ w1.
        let left = length ptr in
        let avail = block_size - w1.block_offset - header_size in
        let fragment_length = if ltb left avail then left else avail in
        let end = left == fragment_length in
        Option.bind (emit_physical_record w1 (fragment_type begin end) (take fragment_length ptr))
          (λ (w2, s).
            let rest = add_loop fuel false (drop fragment_length ptr) w2 in
            if is_ok s && ltb 0 (left - fragment_length) then rest else some (w2, s)))

    -- `Status AddRecord(const Slice& slice)`: one round for each byte, one for the first fragment
    -- and one for an empty fragment at the end of a block are enough.
    unfoldable pub add_record : Writer → List ℕ → Option (Writer × Status)
    add_record w slice = add_loop (length slice + 2) true slice w
