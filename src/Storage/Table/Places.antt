-- ===== src/Storage/Table/Places.antt =====
-- The place from which a message is looked for: it is one of the index, at or before the message.
use iceberg_db.Prelude.{
  ℕ, ◌≡◌, ◌≤◌, refl, List, [], ◌∷◌, All, ltb, arith, length, length-append, ◌++◌, ◌∙◌, sym, inl,
  inr, Bool-cases,
}
use iceberg_db.Storage.Table.Find.{Place, Positions, scan_positions, scan_files}
use iceberg_db.Storage.Table.File.{position, position-append}

-- An entry of the index: the position of a message that the file has.
abbrev pub IsPosition : List (List ℕ) → ℕ × ℕ → Type 0
IsPosition ms (offset, pos) = (pos ≡ position ms offset) × (offset ≤ length ms)

pub All-IsPosition-append :
    (ms more : List (List ℕ)) (positions : Positions)
    → All (IsPosition ms) positions
    → All (IsPosition (ms ++ more)) positions
All-IsPosition-append ms more [] h = tt
All-IsPosition-append ms more ((offset, pos) ∷ others) h = (
  (h.0.0 ∙ sym (position-append ms more offset h.0.1), omega (arith, length-append ms more, h.0.1)),
  All-IsPosition-append ms more others h.1,
)

-- A place of a message at or before an offset
abbrev pub Before : List (List ℕ) → ℕ → ℕ → ℕ → Type 0
Before ms offset start pos = (pos ≡ position ms start) × (start ≤ offset)

scan_positions-Before :
    (ms : List (List ℕ)) (offset : ℕ) (positions : Positions) (start pos : ℕ)
    → All (IsPosition ms) positions
    → Before ms offset start pos
    → let (found, start', pos') = scan_positions offset positions start pos in
      Before ms offset start' pos'
unfolding scan_positions
scan_positions-Before ms offset [] start pos h b = b
scan_positions-Before ms offset ((key, place) ∷ others) start pos h b =
    elim (Bool-cases (ltb offset key)) [
      | inl e ↦ rw e b
      | inr e ↦
          let rest : Before ms offset key place = (h.0.0, ground arith) in
          rw e (scan_positions-Before ms offset others key place h.1 rest)
    ]

-- `FindOffsetPosition`, where one file has an index: it finds a place of the file at or before the
-- offset.
pub scan_files-Before :
    (ms : List (List ℕ)) (offset : ℕ) (file : List ℕ) (positions : Positions) (place : Place)
    → All (IsPosition ms) positions
    → Before ms offset place.start_offset place.pos
    → let found = scan_files offset ((file, positions) ∷ []) place in
      (found.file ≡ file) × Before ms offset found.start_offset found.pos
unfolding scan_files
scan_files-Before ms offset file positions place h b =
    let before = scan_positions-Before ms offset positions place.start_offset place.pos h b in
    let (found, start', pos') = scan_positions offset positions place.start_offset place.pos in
    elim (Bool-cases found) [ inl e ↦ rw e (refl, before) | inr e ↦ rw e (refl, before) ]
