-- ===== src/Storage/Disk/Message.antt =====
-- The reads of a message in a file that holds it.
use mathlib.Core.List.{append_assoc, append-nil}
use iceberg_db.Prelude.{
  ℕ, true, ◌+◌, ◌^◌, ◌%◌, ◌≡◌, ◌<◌, refl, ap, sym, ◌∙◌, some, List, [], ◌++◌, length, length-append,
  ◌==◌, ltb, arith,
}
use iceberg_db.Base.Coding.{Endian, le_bytes, decode_fixed32, decode_fixed64}
use iceberg_db.Base.Coding.RoundTrip.{
  encode_fixed32-le_bytes, encode_fixed64-le_bytes, decode_fixed32-encode_fixed32,
  decode_fixed64-encode_fixed64, length-le_bytes,
}
use iceberg_db.Base.Status.{status_ok}
use iceberg_db.Storage.Disk.{
  Pread, read_exactly, get_message, get_message_offset, get_message_size, read_message,
  offset_length, message_length,
}
use iceberg_db.Storage.Disk.Layout.{message_bytes, IsFile, part-IsFile}

module _ {Fd : Type 0} (pread : Pread Fd) (fd : Fd) (contents : List ℕ)
    (file : IsFile pread fd contents) where
  read_part :
      (host : Endian) (xs ys zs : List ℕ) (count offset : ℕ)
      → contents ≡ xs ++ (ys ++ zs)
      → length ys ≡ count
      → length xs ≡ offset
      → read_exactly host pread fd count offset ≡ some ys
  read_part host xs ys zs count offset split is_count is_offset =
      let whole : (length ys == count) ≡ true = ground arith in
      let reads : pread fd count offset ≡ some ys =
        ap (λ (c : ℕ). pread fd c offset) (sym is_count)
        ∙ ap (pread fd (length ys)) (sym is_offset)
        ∙ part-IsFile pread fd contents xs ys zs file split in
      rw (reads, whole) refl

  module _ (host : Endian) (before after : List ℕ) (offset : ℕ) (bytes : List ℕ) where
    abbrev head_bytes : List ℕ
    head_bytes = le_bytes 8 offset

    abbrev size_bytes : List ℕ
    size_bytes = le_bytes 4 (length bytes)

    abbrev Split : Type 0
    Split = contents ≡ before ++ (message_bytes offset bytes ++ after)

    split_offset : Split → contents ≡ before ++ (head_bytes ++ (size_bytes ++ (bytes ++ after)))
    unfolding message_bytes
    split_offset split =
        split
        ∙ ap (λ (bs : List ℕ). before ++ bs)
            (append_assoc head_bytes (size_bytes ++ bytes) after
              ∙ ap (λ (bs : List ℕ). head_bytes ++ bs) (append_assoc size_bytes bytes after))

    split_size : Split → contents ≡ (before ++ head_bytes) ++ (size_bytes ++ (bytes ++ after))
    split_size split =
        split_offset split ∙ sym (append_assoc before head_bytes (size_bytes ++ (bytes ++ after)))

    split_message : Split → contents ≡ ((before ++ head_bytes) ++ size_bytes) ++ (bytes ++ after)
    split_message split =
        split_size split ∙ sym (append_assoc (before ++ head_bytes) size_bytes (bytes ++ after))

    decode_offset : offset < 2 ^ 64 → decode_fixed64 host head_bytes ≡ offset
    decode_offset small =
        ap (decode_fixed64 host) (
          sym (append-nil head_bytes)
          ∙ ap (λ (bs : List ℕ). bs ++ []) (sym (encode_fixed64-le_bytes host offset)))
        ∙ decode_fixed64-encode_fixed64 host offset [] small

    decode_size : length bytes < 2 ^ 32 → decode_fixed32 host size_bytes ≡ length bytes
    decode_size small =
        ap (decode_fixed32 host) (
          sym (append-nil size_bytes)
          ∙ ap (λ (bs : List ℕ). bs ++ []) (sym (encode_fixed32-le_bytes host (length bytes))))
        ∙ decode_fixed32-encode_fixed32 host (length bytes) [] small

    get_message_offset-at :
        Split
        → offset < 2 ^ 64
        → get_message_offset host pread fd (length before) ≡ (status_ok, some offset)
    unfolding get_message_offset
    get_message_offset-at split small =
        rw
          (
            read_part host before head_bytes (size_bytes ++ (bytes ++ after)) offset_length
                (length before) (split_offset split) (length-le_bytes 8 offset) refl,
            decode_offset small,
          )
          refl

    read_size :
        Split
        → length before + 12 < 2 ^ 64
        → read_exactly host pread fd message_length ((length before + offset_length) % 2 ^ 64)
          ≡ some size_bytes
    read_size split small =
        read_part host (before ++ head_bytes) size_bytes (bytes ++ after) message_length
          ((length before + offset_length) % 2 ^ 64) (split_size split)
          (length-le_bytes 4 (length bytes))
          (omega (arith, length-append before head_bytes, length-le_bytes 8 offset))

    get_message_size-at :
        Split
        → length before + 12 < 2 ^ 64
        → length bytes < 2 ^ 32
        → get_message_size host pread fd (length before) ≡ (status_ok, some (length bytes))
    unfolding get_message_size
    get_message_size-at split small short = rw (read_size split small, decode_size short) refl

    get_message-at :
        Split
        → length before + 12 < 2 ^ 64
        → length bytes + 1 < 2 ^ 31
        → get_message host pread fd (length before) ≡ some (status_ok, some bytes)
    unfolding get_message read_message
    get_message-at split small short =
        let size : decode_fixed32 host size_bytes ≡ length bytes = decode_size (omega arith) in
        let fits : ltb (length bytes + 1) (2 ^ 31) ≡ true = ground arith in
        let start = ((length before + offset_length) % 2 ^ 64 + message_length) % 2 ^ 64 in
        let reads =
          read_part host ((before ++ head_bytes) ++ size_bytes) bytes after (length bytes) start
            (split_message split) refl
            (omega (
              arith,
              length-append (before ++ head_bytes) size_bytes,
              length-append before head_bytes,
              length-le_bytes 8 offset,
              length-le_bytes 4 (length bytes),
            )) in
        rw (read_size split small, size, fits, reads) refl

    -- In a file that holds a message of less than 2^31 - 1 bytes with its 64-bit offset, `GetMessage`,
    -- `GetMessageOffset` and `GetMessageSize` at the place where it begins, which is more than 12 below
    -- 2^64, end with an ok status, and give the message, its offset and its length.
    pub message-read :
        Split
        → offset < 2 ^ 64
        → length before + 12 < 2 ^ 64
        → length bytes + 1 < 2 ^ 31
        → (get_message host pread fd (length before) ≡ some (status_ok, some bytes))
          × (get_message_offset host pread fd (length before) ≡ (status_ok, some offset))
          × (get_message_size host pread fd (length before) ≡ (status_ok, some (length bytes)))
    message-read split small_offset small short = (
      get_message-at split small short,
      get_message_offset-at split small_offset,
      get_message_size-at split small (omega arith),
    )
