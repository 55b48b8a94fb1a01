-- ===== src/Storage/Table/Indexed.antt =====
-- The index of the places in a log with one more message.
use mathlib.Core.List.{append-nil}
use iceberg_db.Prelude.{
  ℕ, ◌+◌, ◌≡◌, ◌<◌, refl, ap, sym, ◌∙◌, List, [], ◌∷◌, ◌++◌, inl, inr, length, length-append, arith,
  take, take-append_left,
}
use iceberg_db.Base.Maps
use iceberg_db.Base.Maps.{same_sign}
use iceberg_db.Storage.Segment.Comparators.{string_order, time_stamp_comparator}
use iceberg_db.Storage.Disk.Layout.{message_bytes}
use iceberg_db.Storage.Table.{with_position}
use iceberg_db.Storage.Table.Find.{Positions}
use iceberg_db.Storage.Table.File.{file_bytes, file_bytes-append, position}
use iceberg_db.Storage.Table.Places.{IsPosition, All-IsPosition-append}
use iceberg_db.Storage.Table.Invariant.{Indexed}

pub file_bytes-snoc :
    (ms : List (List ℕ)) (m : List ℕ)
    → file_bytes 0 (ms ++ (m ∷ [])) ≡ file_bytes 0 ms ++ message_bytes (length ms) m
unfolding file_bytes
file_bytes-snoc ms m =
    let zero_first : 0 + length ms ≡ length ms = omega arith in
    file_bytes-append 0 ms (m ∷ [])
    ∙ ap (λ (n : ℕ). file_bytes 0 ms ++ (message_bytes n m ++ [])) zero_first
    ∙ ap (λ (bs : List ℕ). file_bytes 0 ms ++ bs) (append-nil (message_bytes (length ms) m))

take-length : (ms : List (List ℕ)) (more : List (List ℕ)) → take (length ms) (ms ++ more) ≡ ms
take-length ms more = take-append_left (length ms) ms more refl

-- The end of the file is the place of the next message.
end-IsPosition :
    (ms : List (List ℕ)) (m : List ℕ)
    → IsPosition (ms ++ (m ∷ [])) (length ms, length (file_bytes 0 ms))
unfolding position
end-IsPosition ms m = (
  ap (λ (xs : List (List ℕ)). length (file_bytes 0 xs)) (sym (take-length ms (m ∷ []))),
  omega (arith, length-append ms (m ∷ [])),
)

-- The index with the place of the next message
pub with_position-Indexed :
    (ms : List (List ℕ)) (m file : List ℕ) (map : List (List ℕ × Positions))
    → Indexed ms file map
    → Indexed (ms ++ (m ∷ [])) file (
        with_position file
          (length ms)
          (length (file_bytes 0 ms))
          map
          (Maps.find string_order file map))
unfolding Maps.find Maps.insert Maps.assign
with_position-Indexed ms m file map (inl (e, none_yet)) =
    inr ((length ms, length (file_bytes 0 ms)) ∷ [], rw none_yet refl, (end-IsPosition ms m, tt))
with_position-Indexed ms m file map (inr (positions, e, places)) = inr (
  Maps.insert time_stamp_comparator (length ms) (length (file_bytes 0 ms)) positions,
  rw (e, same_sign string_order file, same_sign string_order file) refl,
  Maps.All-insert time_stamp_comparator (IsPosition (ms ++ (m ∷ []))) (length ms)
      (length (file_bytes 0 ms)) positions (end-IsPosition ms m)
      (All-IsPosition-append ms (m ∷ []) positions places),
)

-- The index as it was, where the file has messages
pub kept-Indexed :
    (ms : List (List ℕ)) (m file : List ℕ) (map : List (List ℕ × Positions))
    → 0 < length ms
    → Indexed ms file map
    → Indexed (ms ++ (m ∷ [])) file map
kept-Indexed ms m file map some_messages (inl (e, none_yet)) =
    let empty : length ms ≡ 0 = ap length e in absurd (omega arith)
kept-Indexed ms m file map some_messages (inr (positions, e, places)) =
    inr (positions, e, All-IsPosition-append ms (m ∷ []) positions places)
