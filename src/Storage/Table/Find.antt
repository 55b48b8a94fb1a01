-- ===== src/Storage/Table/Find.antt =====
-- ibdb/src/storage/table.h: where a message stands in the log, and the loop that looks for it.
use iceberg_db.Prelude.{
  ℕ, zero, suc, ◌+◌, ◌^◌, ◌%◌, Bool, true, false, Option, none, some, List, [], ◌∷◌, ◌==◌, ltb,
  if◌then◌else◌,
}
use iceberg_db.Base.Coding.{Endian}
use iceberg_db.Base.Status.{Status}
use iceberg_db.Storage.Disk.{Pread, get_message_offset, get_message_size, get_message}

-- `std::map<uint64_t, uint32_t>`: the positions of messages, by their offsets
abbrev pub Positions : Type 0
Positions = List (ℕ × ℕ)

-- `std::string(const char*)`, on memory that ends with a zero byte behind these
unfoldable pub c_string : List ℕ → List ℕ
c_string [] = []
c_string (b ∷ bs) = let rest = c_string bs in if b == 0 then [] else b ∷ rest

-- What a search for a message ends with: `fails` is an assertion that does not hold, or memory that
-- cannot be had; `unread` is `return false`.
pub data Search : Type 0 where
  out_of_rounds fails unread : Search
  reads : List ℕ → Search

abbrev pub search_result : Search → Option (Option (List ℕ))
search_result out_of_rounds = none
search_result fails = none
search_result unread = some none
search_result (reads message) = some (some message)

-- The place where a search begins: `start_offset`, `pos` and `file`.
pub record Place : Type 0 where
  pub start_offset : ℕ
  pub pos : ℕ
  pub file : List ℕ

-- The inner loop of `FindOffsetPosition`: `find_flags`, `log_offset` and `log_pos`.
unfoldable pub scan_positions : ℕ → Positions → ℕ → ℕ → Bool × ℕ × ℕ
scan_positions offset [] log_offset log_pos = (false, log_offset, log_pos)
scan_positions offset ((key, position) ∷ others) log_offset log_pos =
    let rest = scan_positions offset others key position in
    if ltb offset key then (true, log_offset, log_pos) else rest

-- Its outer loop
unfoldable pub scan_files : ℕ → List (List ℕ × Positions) → Place → Place
scan_files offset [] place = place
scan_files offset ((file, positions) ∷ others) place =
    let (found, log_offset, log_pos) =
      scan_positions offset positions place.start_offset place.pos in
    let next : Place = record { start_offset = log_offset; pos = log_pos; file = file } in
    let rest = scan_files offset others next in if found then next else rest

-- What `FindMessage` returns with the message that it read.
abbrev pub read_found : Option (Status × Option (List ℕ)) → Search
read_found none = fails
read_found (some (s, none)) = unread
read_found (some (s, some message)) = reads message

-- The step to the next message, with the size that was read
abbrev pub go_on : ℕ → ℕ → Status × Option ℕ → (ℕ → ℕ → Search) → Search
go_on start_offset pos (s, none) next = unread
go_on start_offset pos (s, some message_size) next =
    next ((start_offset + 1) % 2 ^ 64) ((pos + 12 + message_size) % 2 ^ 32)

module _ (host : Endian) {Fd : Type 0} (pread : Pread Fd) (fd : Fd) where
  -- What a round of `FindMessage` does with the offset that it read, and the rest of the loop.
  unfoldable pub at_message : ℕ → ℕ → ℕ → Status × Option ℕ → (ℕ → ℕ → Search) → Search
  at_message offset start_offset pos (s, none) next = unread
  at_message offset start_offset pos (s, some message_offset) next =
      if start_offset == message_offset
      then (if offset == message_offset
          then read_found (get_message host pread fd pos)
          else if ltb offset message_offset
          then reads []
          else go_on start_offset pos (get_message_size host pread fd pos) next)
      else fails

  -- The loop of `FindMessage`, with a number of rounds
  unfoldable pub find_loop : ℕ → ℕ → ℕ → ℕ → Search
  find_loop zero offset start_offset pos = out_of_rounds
  find_loop (suc rounds) offset start_offset pos =
      at_message offset start_offset pos (get_message_offset host pread fd pos)
        (λ start_offset' pos'. find_loop rounds offset start_offset' pos')
