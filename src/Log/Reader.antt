-- ===== src/Log/Reader.antt =====
-- ibdb/src/log/log_reader.h and log_reader.cpp: `Reader`, over any file and checksum.
pub mod Parsed
pub mod Blocks
pub mod Rounds
pub mod Assembled
pub mod Safety
use Prim.Native.Nat.{bit_and, bit_or}
use iceberg_db.Prelude.{
  ℕ, zero, suc, ◌+◌, ◌-◌, ◌*◌, ◌/◌, ◌%◌, ◌^◌, Bool, true, false, not, ◌&&◌, Option, none, some,
  List, [], ◌∷◌, ◌++◌, ltb, leb, ◌==◌, if◌then◌else◌, length, take, drop, codes,
}
use iceberg_db.Base.Coding.{Endian, byte_at, decode_fixed32}
use iceberg_db.Base.Crc32c.{unmask}
use iceberg_db.Base.Logging.{number_to_string}
use iceberg_db.Base.Status.{Status, is_ok}
use iceberg_db.Base.Status
use iceberg_db.Log.Format.{block_size, header_size, max_record_type, SequentialFile}
use iceberg_db.Log.Checksum.{Checksum}

-- The values of `RecordType`, and the two that the reader adds.
abbrev pub full : ℕ
full = 1

abbrev pub first : ℕ
first = 2

abbrev pub middle : ℕ
middle = 3

abbrev pub last : ℕ
last = 4

abbrev pub eof_record : ℕ
eof_record = max_record_type + 1

abbrev pub bad_record : ℕ
bad_record = max_record_type + 2

-- `a - b` on `uint64_t`
abbrev pub sub64 : ℕ → ℕ → ℕ
sub64 a b = (a + 2 ^ 64 - b % 2 ^ 64) % 2 ^ 64

-- A call of `Reporter::Corruption(size_t bytes, const Status& status)`.
pub record Report : Type 0 where
  pub bytes : ℕ
  pub status : Status

-- `const unsigned int type = header[6];`: the sign of the `char` is extended.
unfoldable pub type_of_byte : ℕ → ℕ
type_of_byte b = if ltb b 128 then b else b + 2 ^ 32 - 256

module _ (host : Endian) (sum : Checksum) (file : SequentialFile) where
  pub record Reader : Type 0 where
    pub source : file.State
    pub has_reporter : Bool
    pub reports : List Report
    pub checksum : Bool
    pub buffer : List ℕ
    pub eof : Bool
    pub last_record_offset : ℕ
    pub end_of_buffer_offset : ℕ
    pub initial_offset : ℕ
    pub resyncing : Bool

  -- `Reader(file, reporter, checksum, initial_offset)`
  unfoldable pub new : file.State → Bool → Bool → ℕ → Reader
  new source has_reporter checksum initial_offset = record {
    source = source;
    has_reporter = has_reporter;
    reports = [];
    checksum = checksum;
    buffer = [];
    eof = false;
    last_record_offset = 0;
    end_of_buffer_offset = 0;
    initial_offset = initial_offset;
    resyncing = ltb 0 initial_offset;
  }

  -- `void ReportDrop(uint64_t bytes, const Status& reason)`
  unfoldable pub report_drop : Reader → ℕ → Status → Reader
  report_drop r bytes reason =
      let offset = sub64 (sub64 r.end_of_buffer_offset (length r.buffer)) bytes in
      if r.has_reporter && leb r.initial_offset offset
      then record r { reports = r.reports ++ (record { bytes = bytes; status = reason } ∷ []) }
      else r

  -- `void ReportCorruption(uint64_t bytes, const char* reason)`
  unfoldable pub report_corruption : Reader → ℕ → List ℕ → Reader
  report_corruption r bytes reason =
      report_drop r bytes (Status.new host Status.Code.corruption reason [])

  -- `bool SkipToInitialBlock()`
  unfoldable pub skip_to_initial_block : Reader → Reader × Bool
  skip_to_initial_block r =
      let offset_in_block = r.initial_offset % block_size in
      let before = r.initial_offset - offset_in_block in
      let block_start_location =
        if ltb (block_size - 6) offset_in_block then (before + block_size) % 2 ^ 64 else before in
      let r1 = record r { end_of_buffer_offset = block_start_location } in
      if ltb 0 block_start_location
      then (let (source, status) = file.skip r.source block_start_location in
          let r2 = record r1 { source = source } in
          if is_ok status then (r2, true) else (report_drop r2 block_start_location status, false))
      else (r1, true)

  -- What `ReadPhysicalRecord(&fragment)` returns, and the fragment afterwards.
  pub record Physical : Type 0 where
    pub reader : Reader
    pub record_type : ℕ
    pub fragment : List ℕ

  abbrev cleared : Reader → Reader
  cleared r = record r { buffer = [] }

  abbrev pub returns : Reader → ℕ → List ℕ → Physical
  returns r t fragment = record { reader = r; record_type = t; fragment = fragment }

  -- The last part of `ReadPhysicalRecord`: the record is taken off the buffer.
  unfoldable pub take_record : Reader → ℕ → ℕ → List ℕ → Physical
  take_record r type len fragment =
      let header = r.buffer in
      let r1 = record r { buffer = drop (header_size + len) r.buffer } in
      let at = sub64 (sub64 (sub64 r.end_of_buffer_offset (length r1.buffer)) header_size) len in
      if ltb at r.initial_offset
      then returns r1 bad_record []
      else returns r1 type (take len (drop header_size header))

  -- `ReadPhysicalRecord` from "Parse the header" on.
  unfoldable pub parse_header : Reader → List ℕ → Physical
  parse_header r fragment =
      let header = r.buffer in
      let a = bit_and (byte_at header 4) 0xff in
      let b = bit_and (byte_at header 5) 0xff in
      let type = type_of_byte (byte_at header 6) in
      let len = bit_or a (b * 2 ^ 8) in
      let drop_size = length r.buffer in
      if ltb (length r.buffer) (header_size + len)
      then (if r.eof
          then returns (cleared r) eof_record fragment
          else returns (report_corruption (cleared r) drop_size (codes "bad record length"))
              bad_record fragment)
      else if type == 0 && len == 0
      then returns (cleared r) bad_record fragment
      else let expected_crc = unmask (decode_fixed32 host header) in
        let actual_crc = sum.extend 0 (take (1 + len) (drop 6 header)) in
        if r.checksum && not (actual_crc == expected_crc)
        then returns (report_corruption (cleared r) drop_size (codes "checksum mismatch"))
            bad_record fragment
        else take_record r type len fragment

  -- The read of the next block.
  unfoldable pub refill : Reader → Reader × Bool
  refill r =
      let (source, status, bytes) = file.read r.source block_size in
      let r1 = record r {
        source = source;
        buffer = bytes;
        end_of_buffer_offset = (r.end_of_buffer_offset + length bytes) % 2 ^ 64;
      } in
      if is_ok status
      then (if ltb (length bytes) block_size then record r1 { eof = true } else r1, true)
      else (record (report_drop (cleared r1) block_size status) { eof = true }, false)

  -- The `while (true)` of `ReadPhysicalRecord`; `none` where the rounds run out.
  unfoldable pub physical_loop : ℕ → Reader → List ℕ → Option Physical
  physical_loop zero r fragment = none
  physical_loop (suc fuel) r fragment =
      let (r1, done) = refill r in
      let again = physical_loop fuel r1 fragment in
      if ltb (length r.buffer) header_size
      then (if r.eof
          then some (returns (cleared r) eof_record fragment)
          else if done
          then again
          else some (returns r1 eof_record fragment))
      else some (parse_header r fragment)

  -- `unsigned int ReadPhysicalRecord(Slice* result)`: it never takes a third round.
  unfoldable pub read_physical_record : Reader → List ℕ → Option Physical
  read_physical_record r fragment = physical_loop 2 r fragment

  -- What `ReadRecord(record, scratch)` returns: the reader, the result, `*record` and `*scratch`.
  pub record Read : Type 0 where
    pub reader : Reader
    pub found : Bool
    pub record_bytes : List ℕ
    pub scratch : List ℕ

  -- The variables of the loop in `ReadRecord`.
  pub record Scan : Type 0 where
    pub reader : Reader
    pub scratch : List ℕ
    pub in_fragmented_record : Bool
    pub prospective_record_offset : ℕ
    pub fragment : List ℕ

  -- A round goes on with new variables, or returns.
  pub data Next : Type 0 where
    continue : Scan → Next
    return : Read → Next

  abbrev not_found : Scan → List ℕ → Next
  not_found s scratch =
      return (record { reader = s.reader; found = false; record_bytes = []; scratch = scratch })

  -- The test in `case kFullType` and `case kFirstType`.
  unfoldable pub report_partial : Scan → List ℕ → Reader
  report_partial s reason =
      if s.in_fragmented_record && ltb 0 (length s.scratch)
      then report_corruption s.reader (length s.scratch) reason
      else s.reader

  -- `switch (record_type)`
  unfoldable pub switch_type : Scan → ℕ → ℕ → Next
  switch_type s physical_record_offset t =
      if t == full
      then return (record {
        reader = record (report_partial s (codes "partial record without end(1)")) {
          last_record_offset = physical_record_offset;
        };
        found = true;
        record_bytes = s.fragment;
        scratch = [];
      })
      else if t == first
      then continue (record s {
        reader = report_partial s (codes "partial record without end(2)");
        prospective_record_offset = physical_record_offset;
        scratch = s.fragment;
        in_fragmented_record = true;
      })
      else if t == middle
      then continue (
          if s.in_fragmented_record
          then record s { scratch = s.scratch ++ s.fragment }
          else record s {
            reader =
                report_corruption s.reader (length s.fragment)
                  (codes "missing start of fragmented record(1)");
          })
      else if t == last
      then (if s.in_fragmented_record
          then return (record {
            reader = record (s.reader) { last_record_offset = s.prospective_record_offset };
            found = true;
            record_bytes = s.scratch ++ s.fragment;
            scratch = s.scratch ++ s.fragment;
          })
          else continue (record s {
            reader =
                report_corruption s.reader (length s.fragment)
                  (codes "missing start of fragmented record(2)");
          }))
      else if t == eof_record
      then not_found s (if s.in_fragmented_record then [] else s.scratch)
      else if t == bad_record
      then continue (
          if s.in_fragmented_record
          then record s {
            reader =
                report_corruption s.reader (length s.scratch) (codes "error in middle of record");
            in_fragmented_record = false;
            scratch = [];
          }
          else s)
      else continue (record s {
        reader =
            report_corruption s.reader
              (length s.fragment + (if s.in_fragmented_record then length s.scratch else 0))
              (codes "unknown record type " ++ number_to_string t);
        in_fragmented_record = false;
        scratch = [];
      })

  -- One round of the loop, after `ReadPhysicalRecord`.
  unfoldable pub scan_round : Scan → Physical → Next
  scan_round s p =
      let r = p.reader in
      let physical_record_offset =
        sub64 (sub64 (sub64 r.end_of_buffer_offset (length r.buffer)) header_size)
          (length p.fragment) in
      let s1 = record s { reader = r; fragment = p.fragment } in
      let s2 = record s1 { reader = record r { resyncing = false } } in
      if r.resyncing
      then (if p.record_type == middle
          then continue s1
          else if p.record_type == last
          then continue s2
          else switch_type s2 physical_record_offset p.record_type)
      else switch_type s1 physical_record_offset p.record_type

  -- The `while (true)` of `ReadRecord`; `none` where the rounds run out.
  unfoldable pub read_loop : ℕ → Scan → Option Read
  read_loop zero s = none
  read_loop (suc fuel) s = elim (read_physical_record s.reader s.fragment) [
    | none ↦ none
    | some p ↦ elim (scan_round s p) [
      | return result ↦ some result
      | continue s' ↦ read_loop fuel s'
    ]
  ]

  -- `bool ReadRecord(Slice* record, std::string* scratch)`
  unfoldable pub read_record : ℕ → Reader → List ℕ → List ℕ → Option Read
  read_record fuel r record_before scratch_before =
      let (r1, ready) =
        if ltb r.last_record_offset r.initial_offset then skip_to_initial_block r else (r, true) in
      let scan = read_loop fuel (record {
        reader = r1;
        scratch = [];
        in_fragmented_record = false;
        prospective_record_offset = 0;
        fragment = [];
      }) in
      if ready
      then scan
      else some (record {
        reader = r1;
        found = false;
        record_bytes = record_before;
        scratch = scratch_before;
      })
