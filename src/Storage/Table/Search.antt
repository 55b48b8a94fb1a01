-- ===== src/Storage/Table/Search.antt =====
-- The loop that looks for a message: its rounds are enough, and it finds the message of an offset.
use mathlib.Core.List.{append_assoc}
use iceberg_db.Prelude.{
  ℕ, zero, suc, ◌+◌, ◌%◌, ◌^◌, ◌≡◌, ◌≢◌, ◌<◌, refl, ap, sym, ◌∙◌, true, false, Option, some, none,
  List, [], ◌∷◌, ◌++◌, length, length-append, get_elem?, All, ◌==◌, ltb, arith,
}
use iceberg_db.Base.Coding.{Endian}
use iceberg_db.Base.Status.{Status, status_ok}
use iceberg_db.Storage.Disk.{Pread, get_message, get_message_offset, get_message_size}
use iceberg_db.Storage.Disk.Layout.{message_bytes, length-message_bytes, IsFile}
use iceberg_db.Storage.Disk.Message.{message-read}
use iceberg_db.Storage.Table.Find.{
  Search, out_of_rounds, reads, find_loop, at_message, read_found, go_on,
}
use iceberg_db.Storage.Table.File.{Short, file_bytes}

split_head :
    {contents : List ℕ} (before m : List ℕ) (ms : List (List ℕ)) (after : List ℕ) (start : ℕ)
    → contents ≡ before ++ (file_bytes start (m ∷ ms) ++ after)
    → contents ≡ before ++ (message_bytes start m ++ (file_bytes (start + 1) ms ++ after))
unfolding file_bytes
split_head before m ms after start split =
    split
    ∙ ap (λ (bs : List ℕ). before ++ bs)
        (append_assoc (message_bytes start m) (file_bytes (start + 1) ms) after)

pub get_elem-below :
    {A : Type 0} (xs : List A) (i : ℕ) (a : A) → get_elem? xs i ≡ some a → i < length xs
get_elem-below [] i a h = cc
get_elem-below (x ∷ xs) zero a h = omega arith
get_elem-below (x ∷ xs) (suc i) a h = let rest = get_elem-below xs i a h in omega arith

module _ (host : Endian) {Fd : Type 0} (pread : Pread Fd) (fd : Fd) where
  module _ (contents : List ℕ) (file : IsFile pread fd contents)
      (small : length contents < 2 ^ 32) where
    -- What the calls of a round read, where a message stands.
    Reads : List ℕ → ℕ → List ℕ → Type 0
    Reads before start m =
        (get_message host pread fd (length before) ≡ some (status_ok, some m))
        × (get_message_offset host pread fd (length before) ≡ (status_ok, some start))
        × (get_message_size host pread fd (length before) ≡ (status_ok, some (length m)))

    message-Reads :
        (before : List ℕ) (m rest : List ℕ) (start : ℕ)
        → contents ≡ before ++ (message_bytes start m ++ rest)
        → start < 2 ^ 64
        → Short m
        → Reads before start m × (length before + 12 + length m < 2 ^ 32)
    unfolding Reads
    message-Reads before m rest start split fits short =
        let size : length contents ≡ length before + (12 + length m + length rest) =
          ap length split
          ∙ omega (
            arith,
            length-append before (message_bytes start m ++ rest),
            length-append (message_bytes start m) rest,
            length-message_bytes start m,
          ) in
        (
          message-read pread fd contents file host before rest start m split fits (omega arith)
              short,
          omega arith,
        )

    round-found :
        (before m : List ℕ) (start offset rounds : ℕ)
        → Reads before start m
        → offset ≡ start
        → find_loop host pread fd (suc rounds) offset start (length before) ≡ reads m
    unfolding find_loop at_message Reads
    round-found before m start offset rounds (message, offset_read, size) same =
        let test : (start == start) ≡ true = ground arith in
        let found : (offset == start) ≡ true = ground arith in
        rw (offset_read, test, found, message) refl

    round-next :
        (before m : List ℕ) (start offset rounds : ℕ)
        → Reads before start m
        → start < offset
        → offset < 2 ^ 64
        → length before + 12 + length m < 2 ^ 32
        → find_loop host pread fd (suc rounds) offset start (length before)
          ≡ find_loop host pread fd rounds offset
              (start + 1)
              (length (before ++ message_bytes start m))
    unfolding find_loop at_message Reads
    round-next before m start offset rounds (message, offset_read, size) later fits room =
        let test : (start == start) ≡ true = ground arith in
        let here : (offset == start) ≡ false = ground arith in
        let passed : ltb offset start ≡ false = ground arith in
        let offset_next : (start + 1) % 2 ^ 64 ≡ start + 1 = omega arith in
        let pos_next : (length before + 12 + length m) % 2 ^ 32
            ≡ length (before ++ message_bytes start m) =
          omega
            (arith, length-append before (message_bytes start m), length-message_bytes start m) in
        rw (offset_read, test, here, passed, size, offset_next, pos_next) refl

    -- From the place of a message on, the loop reads the message that stands some messages further.
    pub find_loop-found :
        (before : List ℕ) (ms : List (List ℕ)) (after message : List ℕ) (start k offset rounds : ℕ)
        → contents ≡ before ++ (file_bytes start ms ++ after)
        → start + length ms < 2 ^ 64
        → All Short ms
        → get_elem? ms k ≡ some message
        → offset ≡ start + k
        → k < rounds
        → find_loop host pread fd rounds offset start (length before) ≡ reads message
    unfolding file_bytes
    find_loop-found before [] after message start k offset rounds split fits short at is_offset
          enough =
        cc
    find_loop-found before (m ∷ ms) after message start k offset zero split fits short at is_offset
          enough =
        absurd (omega arith)
    find_loop-found before (m ∷ ms) after message start zero offset (suc rounds) split fits short at
          is_offset enough =
        let here = split_head before m ms after start split in
        let (stands, room) = message-Reads before m _ start here (omega arith) short.0 in
        let same : m ≡ message = cc in
        round-found before m start offset rounds stands (omega arith) ∙ ap reads same
    find_loop-found before (m ∷ ms) after message start (suc k) offset (suc rounds) split fits short
          at is_offset enough =
        let here = split_head before m ms after start split in
        let (stands, room) = message-Reads before m _ start here (omega arith) short.0 in
        let further : contents
            ≡ (before ++ message_bytes start m) ++ (file_bytes (start + 1) ms ++ after) =
          here
          ∙ sym
              (append_assoc before (message_bytes start m) (file_bytes (start + 1) ms ++ after)) in
        let below = get_elem-below ms k message at in
        round-next before m start offset rounds stands (omega arith) (omega arith) room
        ∙ find_loop-found (before ++ message_bytes start m) ms after message (start + 1) k offset
            rounds further (omega arith) short.1 at (omega arith) (omega arith)

  Ends : Search → Type 0
  Ends s = s ≢ out_of_rounds

  read_found-Ends : (r : Option (Status × Option (List ℕ))) → Ends (read_found r)
  unfolding Ends
  read_found-Ends none = λ e. cc
  read_found-Ends (some (s, none)) = λ e. cc
  read_found-Ends (some (s, some m)) = λ e. cc

  go_on-Ends :
      (start pos : ℕ) (r : Status × Option ℕ) (next : ℕ → ℕ → Search)
      → ((pos' : ℕ) → Ends (next ((start + 1) % 2 ^ 64) pos'))
      → Ends (go_on start pos r next)
  unfolding Ends
  go_on-Ends start pos (s, none) next h = λ e. cc
  go_on-Ends start pos (s, some size) next h = h ((pos + 12 + size) % 2 ^ 32)

  at_message-Ends :
      (offset start pos : ℕ) (r : Status × Option ℕ) (next : ℕ → ℕ → Search)
      → (start < offset → (pos' : ℕ) → Ends (next ((start + 1) % 2 ^ 64) pos'))
      → Ends (at_message host pread fd offset start pos r next)
  unfolding Ends at_message
  at_message-Ends offset start pos (s, none) next h = λ e. cc
  at_message-Ends offset start pos (s, some found) next h = ground (
    arith,
    read_found-Ends (get_message host pread fd pos),
    λ (below : start < offset).
        go_on-Ends start pos (get_message_size host pread fd pos) next (h below),
  )

  -- Whatever a file has, the loop that looks for a 64-bit offset ends within one round for each
  -- offset from the one where it begins, and one at least.
  pub find_loop-ends :
      (rounds offset start pos : ℕ)
      → offset < 2 ^ 64
      → offset < start + rounds
      → 0 < rounds
      → find_loop host pread fd rounds offset start pos ≢ out_of_rounds
  unfolding find_loop Ends
  find_loop-ends zero offset start pos fits enough some_rounds = absurd (omega arith)
  find_loop-ends (suc rounds) offset start pos fits enough some_rounds =
      at_message-Ends offset start pos (get_message_offset host pread fd pos)
        (λ start' pos'. find_loop host pread fd rounds offset start' pos')
        (λ below pos'.
          find_loop-ends rounds offset ((start + 1) % 2 ^ 64) pos' fits (omega arith) (omega arith))
