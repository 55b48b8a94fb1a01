-- ===== src/Storage/Disk/Append.antt =====
-- `Append(offset, slice)` where stdio writes all that it is given.
use mathlib.Core.Option
use mathlib.Core.List.{append_assoc}
use iceberg_db.Prelude.{ℕ, ◌+◌, ◌^◌, ◌%◌, ◌≡◌, ◌<◌, refl, ap, ◌∙◌, some, List, ◌++◌, length, arith}
use iceberg_db.Base.Coding.{Endian, le_bytes, encode_fixed32, encode_fixed64}
use iceberg_db.Base.Coding.RoundTrip.{encode_fixed32-le_bytes, encode_fixed64-le_bytes}
use iceberg_db.Base.Status.{status_ok}
use iceberg_db.Log.Files.{Stdio}
use iceberg_db.Log.Files.Writes.{Complete, IsOpen, taken, append-taken}
use iceberg_db.Storage.Disk.{WritableFileHandle, append, append_message}
use iceberg_db.Storage.Disk.Layout.{message_bytes, length-message_bytes}

module _ (host : Endian) (stdio : Stdio) (complete : Complete stdio) where
  abbrev pub written : WritableFileHandle host stdio → List ℕ
  written w = taken host stdio complete w.file_handle.filestream

  append-written :
      (w : WritableFileHandle host stdio) (bytes : List ℕ)
      → IsOpen host stdio complete w.file_handle
      → (w' : WritableFileHandle host stdio) × (append host stdio w bytes ≡ some (w', status_ok))
        × (written w' ≡ written w ++ bytes)
        × IsOpen host stdio complete w'.file_handle
        × (w'.current_pos ≡ w.current_pos)
  unfolding append
  append-written w bytes ready =
      let (f, returns, took, open_still) =
        append-taken host stdio complete w.file_handle bytes ready in
      (record w { file_handle = f }, rw returns refl, took, open_still, refl)

  -- Where stdio writes all that it is given, `Append` of a message of less than 2^32 bytes with its
  -- offset, on an open file, ends with an ok status; behind what the file had taken stand the
  -- message's bytes, the position is theirs further, modulo 2^32, and the file is still open.
  pub append_message-written :
      (w : WritableFileHandle host stdio) (offset : ℕ) (slice : List ℕ)
      → length slice < 2 ^ 32
      → IsOpen host stdio complete w.file_handle
      → (w' : WritableFileHandle host stdio) × (append_message host stdio w offset slice
          ≡ some (w', status_ok))
        × (written w' ≡ written w ++ message_bytes offset slice)
        × (w'.current_pos ≡ (w.current_pos + length (message_bytes offset slice)) % 2 ^ 32)
        × IsOpen host stdio complete w'.file_handle
  unfolding append_message Option.bind message_bytes
  append_message-written w offset slice short ready =
      let offset_bytes = encode_fixed64 host offset in
      let size_bytes = encode_fixed32 host (length slice % 2 ^ 32) in
      let offset_bytes = encode_fixed64 host offset in
      let size_bytes = encode_fixed32 host (length slice % 2 ^ 32) in
      let (w1, returns1, took1, ready1, pos1) =
        append-written w (encode_fixed64 host offset) ready in
      let (w2, returns2, took2, ready2, pos2) =
        append-written w1 (encode_fixed32 host (length slice % 2 ^ 32)) ready1 in
      let (w3, returns3, took3, ready3, pos3) = append-written w2 slice ready2 in
      (
        record w3 { current_pos = (w3.current_pos + 12 + length slice) % 2 ^ 32 },
        rw (returns1, returns2, returns3) refl,
        took3
            ∙ ap (λ (bs : List ℕ). bs ++ slice)
                (took2 ∙ ap (λ (bs : List ℕ). bs ++ size_bytes) took1)
            ∙ append_assoc (written w ++ offset_bytes) size_bytes slice
            ∙ append_assoc (written w) offset_bytes (size_bytes ++ slice)
            ∙ ap (λ (bs : List ℕ). written w ++ (bs ++ (size_bytes ++ slice)))
                (encode_fixed64-le_bytes host offset)
            ∙ ap (λ (bs : List ℕ). written w ++ (le_bytes 8 offset ++ (bs ++ slice)))
                (encode_fixed32-le_bytes host (length slice % 2 ^ 32)
                  ∙ ap (le_bytes 4) (omega arith)),
        omega (arith, pos1, pos2, pos3, length-message_bytes offset slice),
        ready3,
      )
