-- ===== src/Log/Writer/Layout.antt =====
-- The bytes of a log, described from its fragments: each stands whole in one block, and a block
-- that has no room for a header ends in zeros.
use iceberg_db.Prelude.{
  ℕ, ◌+◌, ◌-◌, ◌≤◌, ◌≡◌, true, false, refl, sym, ap, ◌∙◌, List, [], ◌∷◌, ◌++◌, ltb, if◌then◌else◌,
  length, replicate, All, arith,
}
use mathlib.Core.List.{append_assoc}
use iceberg_db.Base.Coding.{Endian, IsByte}
use iceberg_db.Log.Format.{
  RecordType, full_type, first_type, middle_type, last_type, block_size, header_size,
}
use iceberg_db.Log.Checksum.{Checksum}
use iceberg_db.Log.Writer.{header}

abbrev pub Fragment : Type 0
Fragment = RecordType × List ℕ

-- Where the next fragment starts in its block, and the zeros in front of it.
unfoldable pub start : ℕ → ℕ
start off = if ltb (block_size - off) header_size then 0 else off

unfoldable pub padding : ℕ → List ℕ
padding off = if ltb (block_size - off) header_size then replicate (block_size - off) 0 else []

abbrev pub next_offset : ℕ → List ℕ → ℕ
next_offset off p = start off + (header_size + length p)

abbrev pub end_offset : ℕ → List Fragment → ℕ
end_offset off [] = off
end_offset off ((t, p) ∷ fs) = end_offset (next_offset off p) fs

-- Every fragment ends within its block and holds bytes.
abbrev pub Fits : ℕ → List Fragment → Type 0
Fits off [] = Unit {0}
Fits off ((t, p) ∷ fs) =
    (next_offset off p ≤ block_size) × (All IsByte p) × Fits (next_offset off p) fs

-- The fragments behind the first one of a record, up to its last.
pub data Tail : List ℕ → List Fragment → Type 0 where
  last : {p : List ℕ} → Tail p ((last_type, p) ∷ [])
  middle :
      {record_bytes p rest : List ℕ} {fs : List Fragment}
      → record_bytes ≡ p ++ rest
      → Tail rest fs
      → Tail record_bytes ((middle_type, p) ∷ fs)

-- The fragments of a whole record.
pub data Whole : List ℕ → List Fragment → Type 0 where
  full : {p : List ℕ} → Whole p ((full_type, p) ∷ [])
  first :
      {record_bytes p rest : List ℕ} {fs : List Fragment}
      → record_bytes ≡ p ++ rest
      → Tail rest fs
      → Whole record_bytes ((first_type, p) ∷ fs)

module _ (host : Endian) (sum : Checksum) where
  abbrev pub physical : RecordType → List ℕ → List ℕ
  physical t p = header host sum t p ++ p

  abbrev pub layout : ℕ → List Fragment → List ℕ
  layout off [] = []
  layout off ((t, p) ∷ fs) = padding off ++ (physical t p ++ layout (next_offset off p) fs)

  pub layout-append :
      (off : ℕ) (fs gs : List Fragment)
      → layout off (fs ++ gs) ≡ layout off fs ++ layout (end_offset off fs) gs
  layout-append off [] gs = refl
  layout-append off ((t, p) ∷ fs) gs =
      ap (λ (bs : List ℕ). padding off ++ (physical t p ++ bs))
        (layout-append (next_offset off p) fs gs)
      ∙ sym (simp append_assoc)

pub Fits-append :
    (off : ℕ) (fs gs : List Fragment)
    → Fits off fs
    → Fits (end_offset off fs) gs
    → Fits off (fs ++ gs)
Fits-append off [] gs h k = k
Fits-append off ((t, p) ∷ fs) gs h k = (h.0, h.1, Fits-append (next_offset off p) fs gs h.2 k)

pub Fits-behind :
    (off : ℕ) (fs gs : List Fragment) → Fits off (fs ++ gs) → Fits (end_offset off fs) gs
Fits-behind off [] gs h = h
Fits-behind off ((t, p) ∷ fs) gs h = Fits-behind (next_offset off p) fs gs h.2

pub start_bounds : (off : ℕ) → off ≤ block_size → start off + header_size ≤ block_size
unfolding start
start_bounds off h = ground arith

pub start_short :
    (off : ℕ)
    → ltb (block_size - off) header_size ≡ true
    → (start off ≡ 0) × (padding off ≡ replicate (block_size - off) 0)
unfolding start padding
start_short off h = (rw h, rw h)

pub start_room :
    (off : ℕ) → ltb (block_size - off) header_size ≡ false → (start off ≡ off) × (padding off ≡ [])
unfolding start padding
start_room off h = (rw h, rw h)
