-- ===== src/Storage/Table/Answers.antt =====
-- `Get` and `GetBatchData` on a table that implements what its user sees.
use mathlib.Core.Option
use mathlib.Core.Option.{none-ne-some}
use iceberg_db.Prelude.{
  ℕ, ◌-◌, ◌≡◌, ◌<◌, ◌≤◌, refl, true, Option, none, some, List, inl, inr, length, get_elem?, arith,
  Option-cases, drop, take, codes, map,
}
use iceberg_db.Base.Cache
use iceberg_db.Base.Maps
use iceberg_db.Base.Utils.{split_string}
use iceberg_db.Log.Files.Writes.{Complete}
use iceberg_db.Storage.Segment.Comparators.{time_stamp_comparator}
use iceberg_db.Storage.Segment.Runs.{get-Run}
use iceberg_db.Storage.Disk.{Pread}
use iceberg_db.Storage.Table.{Platform, Table}
use iceberg_db.Storage.Table.Find.{c_string}
use iceberg_db.Storage.Table.Read.{get, cached, get_at, get_batch_data}
use iceberg_db.Storage.Table.Invariant.{Holds, IsCached}
use iceberg_db.Storage.Table.Reads.{Readable, drop_at, message_at-found, batch_from-messages}
use iceberg_db.Storage.Table.View.{ContentsOf}
use iceberg_db.Storage.Table.Refines.{Refines, Room, opened-Refines}

module _ (env : Platform) (open_file : List ℕ → Option env.Fd) (complete : Complete env.stdio) where
  abbrev TableOf : Type 0
  TableOf = Table env

  abbrev HoldsOf : TableOf → List (List ℕ) → Type 0
  HoldsOf = Holds env open_file complete

  abbrev RefinesOf : TableOf → List (List ℕ) → ContentsOf env.slices env.memory → Type 0
  RefinesOf = Refines env open_file complete

  opened_too :
      (t t' : TableOf) (ms : List (List ℕ)) (c : ContentsOf env.slices env.memory)
      → t' ≡ record t { log_reader_map = t'.log_reader_map }
      → HoldsOf t' ms
      → RefinesOf t ms c
      → RefinesOf t' ms c
  opened_too = opened-Refines env open_file complete

  abbrev RoomOf : List (List ℕ) → Type 0
  RoomOf = Room env open_file complete

  -- What the user of a table is answered: the text of the message at an offset
  abbrev pub answer : List (List ℕ) → Option ℕ → Option (List ℕ)
  answer ms none = none
  answer ms (some offset) = Option.map c_string (get_elem? ms offset)

  elem_below :
      {A : Type 0} (xs : List A) (i : ℕ) → i < length xs → (x : A) × (get_elem? xs i ≡ some x)
  elem_below xs i h = let (x, at, rest) = drop_at i xs h in (x, at)

  module _ (pread : Pread env.Fd) where
    abbrev ReadableOf : TableOf → Type 0
    ReadableOf = Readable env open_file complete pread

    -- A call returns with an answer, and with a table that implements the same.
    abbrev Answers :
        Option (TableOf × Option (List ℕ))
        → Option (List ℕ)
        → List (List ℕ)
        → ContentsOf env.slices env.memory
        → Type 0
    Answers result text ms c = (t' : TableOf) × (result ≡ some (t', text)) × RefinesOf t' ms c

    remembered :
        (t : TableOf) (ms : List (List ℕ)) (c : ContentsOf env.slices env.memory) (offset : ℕ)
        (message : List ℕ)
        → RefinesOf t ms c
        → get_elem? ms offset ≡ some message
        → RefinesOf
            (record t {
              offset_message =
                  Cache.insert time_stamp_comparator t.offset_message offset (c_string message);
            })
            ms
            c
    unfolding Cache.insert
    remembered t ms c offset message r at = record {
      holds = record {
        has_bytes = r.holds.has_bytes;
        at_end = r.holds.at_end;
        counts = r.holds.counts;
        is_open = r.holds.is_open;
        threshold = r.holds.threshold;
        short = r.holds.short;
        indexed = r.holds.indexed;
        in_cache =
            Maps.All-insert time_stamp_comparator (IsCached ms) offset (c_string message)
              t.offset_message (message, at, refl) r.holds.in_cache;
        readers = r.holds.readers;
      };
      runs = r.runs;
      below = r.below;
    }

    cached-Answers :
        (t : TableOf) (ms : List (List ℕ)) (c : ContentsOf env.slices env.memory) (offset : ℕ)
        → RefinesOf t ms c
        → ReadableOf t
        → RoomOf ms
        → offset < length ms
        → Answers
            (cached env open_file pread t offset
              (Cache.find time_stamp_comparator t.offset_message offset))
            (answer ms (some offset))
            ms
            c
    unfolding Cache.find Option.bind
    cached-Answers t ms c offset r reads_it (small, fits) below =
        let (message, at) = elem_below ms offset below in
        elim (Option-cases (Maps.find time_stamp_comparator offset t.offset_message)) [
          | inl e ↦
              let (t', found, opened, holds) =
                message_at-found env open_file complete pread t ms offset message r.holds reads_it
                  small fits at in
              let after = opened_too t t' ms c opened holds r in
              (
                record t' {
                  offset_message =
                      Cache.insert time_stamp_comparator t'.offset_message offset
                        (c_string message);
                },
                rw (e, found, at) refl,
                remembered t' ms c offset message after at,
              )
          | inr (text, e) ↦
              let (message', at', same) =
                Maps.All-find time_stamp_comparator (IsCached ms) offset text t.offset_message
                  r.holds.in_cache e in
              (t, rw (e, same, at') refl, r)
        ]

    get_at-Answers :
        (t : TableOf) (ms : List (List ℕ)) (c : ContentsOf env.slices env.memory)
        (offset : Option ℕ)
        → RefinesOf t ms c
        → ReadableOf t
        → RoomOf ms
        → ((o : ℕ) → offset ≡ some o → o < length ms)
        → Answers (get_at env open_file pread t offset) (answer ms offset) ms c
    get_at-Answers t ms c none r reads_it room below = (t, refl, r)
    get_at-Answers t ms c (some o) r reads_it room below =
        cached-Answers t ms c o r reads_it room (below o refl)

    -- On a table that implements messages and contents, whose log can be opened and has what its
    -- stream took, `Get` of a statement that has its parts returns, with the text of the message
    -- whose offset the contents have at the key, the time stamp and the value, to its first zero
    -- byte, and with false where they have none. A time stamp that cannot be read counts as 0. The
    -- table then implements the same.
    pub get-Refines :
        (t : TableOf) (ms : List (List ℕ)) (c : ContentsOf env.slices env.memory)
        (statement key value text : List ℕ)
        → RefinesOf t ms c
        → ReadableOf t
        → RoomOf ms
        → get_elem? (split_string env.split statement (codes " ")) 2 ≡ some key
        → get_elem? (split_string env.split statement (codes " ")) 3 ≡ some value
        → get_elem? (split_string env.split statement (codes " ")) 4 ≡ some text
        → (t' : TableOf) × (get env open_file pread t statement
            ≡ some (t', answer ms (c.offset_of key (Maps.or_else (env.lexical_cast text) 0) value)))
          × RefinesOf t' ms c
    unfolding get Option.bind
    get-Refines t ms c statement key value text r reads_it room has_key has_value has_text =
        let ts = Maps.or_else (env.lexical_cast text) 0 in
        let (found, present) =
          get-Run env.slices time_stamp_comparator env.memory t.segment_index c r.runs key ts
            value in
        let (t', answers, after) =
          get_at-Answers t ms c (c.offset_of key ts value) r reads_it room (r.below key ts value) in
        (t', rw (has_key, has_value, has_text, found) answers, after)

    -- On a table that implements messages, whose log can be opened and has what its stream took,
    -- `GetBatchData` from an offset up to another, both not behind the last message, returns true
    -- with the texts of the messages between, in their order, each to its first zero byte. The
    -- table then implements the same.
    pub get_batch_data-Refines :
        (t : TableOf) (ms : List (List ℕ)) (c : ContentsOf env.slices env.memory)
        (start end_offset : ℕ)
        → RefinesOf t ms c
        → ReadableOf t
        → RoomOf ms
        → start ≤ end_offset
        → end_offset ≤ length ms
        → (t' : TableOf) × (get_batch_data env open_file pread t start end_offset
            ≡ some (t', map c_string (take (end_offset - start) (drop start ms)), true))
          × RefinesOf t' ms c
    unfolding get_batch_data
    get_batch_data-Refines t ms c start end_offset r reads_it (small, fits) ordered inside =
        let (t', returns, opened, holds) =
          batch_from-messages env open_file complete pread t ms start (end_offset - start) r.holds
            reads_it small fits (omega arith) in
        (t', returns, opened_too t t' ms c opened holds r)
