-- ===== src/Log/Examples.antt =====
-- The log on files in memory.
use iceberg_db.Prelude.{
  ℕ, suc, ◌+◌, ◌≤◌, ◌≡◌, refl, true, some, List, [], ◌∷◌, ◌++◌, length, take, drop, codes, arith,
}
use iceberg_db.Base.Coding.{little, decode_fixed32}
use iceberg_db.Base.Crc32c.{unmask}
use iceberg_db.Base.Crc32c.Rounds.{bit_round, rounds, crc_byte, crc_bytes}
use iceberg_db.Base.Status.{Status, status_ok, is_ok}
use iceberg_db.Log.Format.{RecordType, block_size, WritableFile, SequentialFile}
use iceberg_db.Log.Limiter.{idle, turns}
use iceberg_db.Log.Limiter
use iceberg_db.Log.Limiter.Bound.{holders, holders-turns}
use iceberg_db.Log.Checksum.{crc32c}
use iceberg_db.Log.Writer.{Writer, add_record}
use iceberg_db.Log.Writer
use iceberg_db.Log.Writer.Layout.{Fragment, start, Fits, Whole, layout, end_offset}
use iceberg_db.Log.Writer.Emitted.{Faultless, Emitted, add_record-Emits}
use iceberg_db.Log.Writer.Total.{Responsive, add_record_returns}
use iceberg_db.Log.Reader.{
  Reader, Physical, Read, read_physical_record, read_record, parse_header, take_record,
  type_of_byte,
}
use iceberg_db.Log.Reader
use iceberg_db.Log.Reader.Blocks.{Plain, AtOffset}
use iceberg_db.Log.Reader.Assembled.{Finds, read_record-Whole}
use iceberg_db.Log.Reader.Safety.{
  payload_length, parse_header_checked, read_physical_record_returns,
}
use iceberg_db.Log.RoundTrip.{add_records, read_records, Reopened, read_records-add_records}

-- A file in memory, for writing.
abbrev memory_sink : WritableFile
memory_sink = record {
  State = List ℕ;
  append = λ s bytes. some (s ++ bytes, status_ok);
  flush = λ s. some (s, status_ok);
}

memory_sink-Faultless : Faultless memory_sink
memory_sink-Faultless = record {
  Ready = λ s. Unit {0};
  contents = λ s. s;
  appended = λ s bytes ready. (s ++ bytes, refl, refl, tt);
  flushed = λ s ready. (s, refl, refl, tt);
}

-- A file on which every append fails.
abbrev full_disk : WritableFile
full_disk = record {
  State = Unit {0};
  append = λ s bytes. some (s, some (codes "full"));
  flush = λ s. some (s, status_ok);
}

full_disk-Responsive : Responsive full_disk
full_disk-Responsive = record {
  Ready = λ s. Unit {0};
  Allowed = λ status. Unit {0};
  appends = λ s bytes ready. (s, some (codes "full"), refl, tt, tt);
  flushes = λ s ready. (s, status_ok, refl, tt, λ fine. tt);
}

-- A file in memory, for reading.
abbrev pub memory_source : SequentialFile
memory_source = record {
  State = List ℕ;
  read = λ s n. (drop n s, status_ok, take n s);
  skip = λ s n. (drop n s, status_ok);
}

abbrev pub memory_source-Plain : Plain memory_source
memory_source-Plain = record {
  remaining = λ s. s;
  read_next = λ s n within. (drop n s, refl, refl);
}

memory : Reopened memory_sink memory_source
unfolding memory_sink-Faultless memory_source-Plain
memory = record {
  faultless = memory_sink-Faultless;
  plain = memory_source-Plain;
  reopen = λ s. s;
  same = λ s. refl;
}

abbrev pub two_records : List (List ℕ)
two_records = codes "put" ∷ [] ∷ []

read_records-add_records_example :
    (w : Writer little crc32c memory_sink) × (r : Reader little crc32c memory_source) × (add_records
        little crc32c memory_sink
        (Writer.new little crc32c memory_sink [] 0)
        two_records
      ≡ some (w, status_ok))
    × (read_records little crc32c memory_source 3
          (suc (length (memory.faultless.contents w.dest)))
          (Reader.new little crc32c memory_source (memory.reopen w.dest) true true 0)
          []
          []
        ≡ some (r, two_records))
    × (r.reports ≡ [])
unfolding memory memory_sink-Faultless
read_records-add_records_example =
    read_records-add_records little crc32c memory_sink memory_source memory [] two_records true true
      tt refl (omega arith)

-- A writer that has five bytes left in its block.
abbrev near_end : Writer little crc32c memory_sink
near_end = record { dest = []; block_offset = 4091 }

add_record-Emits_example :
    (w : Writer little crc32c memory_sink) × (fs : List Fragment) × (add_record little crc32c
        memory_sink near_end
        (codes "put")
      ≡ some (w, status_ok))
    × Emitted little crc32c memory_sink memory_sink-Faultless true (codes "put") near_end w fs
unfolding memory_sink-Faultless
add_record-Emits_example =
    add_record-Emits little crc32c memory_sink memory_sink-Faultless near_end (codes "put")
      (omega arith) tt (omega arith)

abbrev on_full_disk : Writer little crc32c full_disk
on_full_disk = record { dest = tt; block_offset = 4090 }

add_record_returns_example :
    (w : Writer little crc32c full_disk) × (status : Status) × (add_record little crc32c full_disk
        on_full_disk
        (codes "put")
      ≡ some (w, status))
    × (w.block_offset ≤ block_size)
    × full_disk-Responsive.Allowed status
    × (is_ok status ≡ true → full_disk-Responsive.Ready w.dest)
unfolding full_disk-Responsive
add_record_returns_example =
    add_record_returns little crc32c full_disk full_disk-Responsive on_full_disk (codes "put")
      (omega arith) tt

-- A reader whose buffer holds a full record of the letter A.
abbrev one_letter : Reader little crc32c memory_source
one_letter = record (Reader.new little crc32c memory_source [] true true 0) {
  buffer = 0x7e ∷ 0x8e ∷ 0xb7 ∷ 0x84 ∷ 1 ∷ 0 ∷ 1 ∷ 65 ∷ [];
  end_of_buffer_offset = 8;
}

parse_header_checked_example :
    crc32c.extend 0
      (take (1 + payload_length little crc32c memory_source one_letter) (drop 6 one_letter.buffer))
    ≡ unmask (decode_fixed32 little one_letter.buffer)
unfolding Reader.new parse_header take_record type_of_byte decode_fixed32 unmask crc_bytes crc_byte
    rounds bit_round
parse_header_checked_example =
    parse_header_checked little crc32c memory_source one_letter [] refl (omega arith)

read_physical_record_returns_example :
    (p : Physical little crc32c memory_source) × (read_physical_record little crc32c memory_source
        one_letter []
      ≡ some p)
read_physical_record_returns_example =
    read_physical_record_returns little crc32c memory_source one_letter []

abbrev one_fragment : List Fragment
one_fragment = (RecordType.full_type, codes "put") ∷ []

-- A new reader of a file that holds one fragment.
abbrev fresh : Reader little crc32c memory_source
fresh =
    Reader.new little crc32c memory_source (layout little crc32c block_size one_fragment) true true
      0

fresh-AtOffset :
    AtOffset little crc32c memory_source memory_source-Plain block_size
      (layout little crc32c block_size one_fragment)
      fresh
unfolding Reader.new memory_source-Plain
fresh-AtOffset = record {
  ahead = refl;
  in_block = omega arith;
  whole_block = λ more. refl;
  at_end = λ end. absurd (ground arith);
  from_start = refl;
  in_sync = refl;
}

one_fragment-Fits : Fits block_size one_fragment
unfolding start
one_fragment-Fits = (omega arith, omega arith, tt)

read_record-Whole_example :
    Finds little crc32c memory_source memory_source-Plain
      (end_offset block_size one_fragment)
      (layout little crc32c (end_offset block_size one_fragment) [])
      (codes "put")
      fresh
      (read_record little crc32c memory_source 1 fresh [] [])
read_record-Whole_example =
    read_record-Whole little crc32c memory_source memory_source-Plain 1 block_size (codes "put")
      one_fragment [] fresh [] [] Whole.full fresh-AtOffset one_fragment-Fits (omega arith)

-- Three threads acquire, one of them in vain, and give back.
holders-turns_example :
    holders (turns (0 ∷ 1 ∷ 2 ∷ 2 ∷ 0 ∷ 2 ∷ []) (Limiter.new 2) (idle ∷ idle ∷ idle ∷ [])).1 ≤ 2
holders-turns_example = holders-turns (0 ∷ 1 ∷ 2 ∷ 2 ∷ 0 ∷ 2 ∷ []) 2 3 (omega arith) (omega arith)
