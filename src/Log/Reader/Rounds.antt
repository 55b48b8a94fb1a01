-- ===== src/Log/Reader/Rounds.antt =====
-- The rounds of `ReadPhysicalRecord` on a file that holds the layout of fragments.
use mathlib.Core.List.{append-nil}
use iceberg_db.Prelude.{
  ℕ, suc, ◌+◌, ◌-◌, ◌≤◌, ◌<◌, ◌≡◌, refl, sym, ap, ◌∙◌, true, false, some, List, [], ◌∷◌, ◌++◌, ltb,
  length, replicate, All, arith, inl, inr, Bool-cases, length-append, length-replicate,
  prefix_split, le→ltb_false, lt→ltb,
}
use iceberg_db.Base.Coding.{Endian, IsByte}
use iceberg_db.Log.Format.{RecordType, type_number, block_size, header_size, SequentialFile}
use iceberg_db.Log.Checksum.{Checksum}
use iceberg_db.Log.Writer.{header}
use iceberg_db.Log.Writer.Layout.{
  Fragment, next_offset, Fits, physical, layout, start_short, start_room,
}
use iceberg_db.Log.Reader.{
  Reader, returns, parse_header, refill, physical_loop, read_physical_record, eof_record,
}
use iceberg_db.Log.Reader.Parsed.{header-Heads}
use iceberg_db.Prelude.{append-eq-nil, nil_of_length}
use iceberg_db.Log.Reader.Blocks.{Plain, AtOffset, Quiet, refill-AtOffset, parse-AtOffset}

module _ (host : Endian) (sum : Checksum) (file : SequentialFile) (plain : Plain file) where
  first_round :
      (fuel : ℕ) (r : Reader host sum file) (frag : List ℕ)
      → header_size ≤ length r.buffer
      → physical_loop host sum file (suc fuel) r frag ≡ some (parse_header host sum file r frag)
  unfolding physical_loop
  first_round fuel r frag h = rw (le→ltb_false _ _ h)

  next_round :
      (fuel : ℕ) (r r1 : Reader host sum file) (frag : List ℕ)
      → length r.buffer < header_size
      → r.eof ≡ false
      → refill host sum file r ≡ (r1, true)
      → physical_loop host sum file (suc fuel) r frag ≡ physical_loop host sum file fuel r1 frag
  unfolding physical_loop
  next_round fuel r r1 frag h more e = rw (lt→ltb _ _ h, e, more)

  last_round :
      (fuel : ℕ) (r : Reader host sum file) (frag : List ℕ)
      → length r.buffer < header_size
      → r.eof ≡ true
      → physical_loop host sum file (suc fuel) r frag
        ≡ some (returns host sum file (record r { buffer = [] }) eof_record frag)
  unfolding physical_loop
  last_round fuel r frag h end = rw (lt→ltb _ _ h, end)

  abbrev Reads : ℕ → List ℕ → ℕ → List ℕ → List ℕ → Reader host sum file → Type 0
  Reads off rest t p frag r =
      (r' : Reader host sum file) × (read_physical_record host sum file r frag
        ≡ some (returns host sum file r' t p))
      × AtOffset host sum file plain off rest r'
      × Quiet host sum file plain r r'

  -- A fragment that follows in the same block.
  read_here :
      (off : ℕ) (t : RecordType) (p rest frag : List ℕ) (r : Reader host sum file)
      → AtOffset host sum file plain off (physical host sum t p ++ rest) r
      → 0 < type_number t
      → All IsByte p
      → off + (header_size + length p) ≤ block_size
      → Reads (off + (header_size + length p)) rest (type_number t) p frag r
  unfolding read_physical_record
  read_here off t p rest frag r a pos bytes fits =
      let (r', e, a', quiet, long) =
        parse-AtOffset host sum file plain off t p rest frag r a pos bytes fits in
      (r', first_round 1 r frag long ∙ ap some e, a', quiet)

  -- A fragment behind the zeros at the end of the block.
  read_behind_padding :
      (off k : ℕ) (t : RecordType) (p rest frag : List ℕ) (r : Reader host sum file)
      → AtOffset host sum file plain off (replicate k 0 ++ (physical host sum t p ++ rest)) r
      → k ≡ block_size - off
      → k < header_size
      → 0 < type_number t
      → All IsByte p
      → header_size + length p ≤ block_size
      → Reads (0 + (header_size + length p)) rest (type_number t) p frag r
  unfolding read_physical_record
  read_behind_padding off k t p rest frag r a at short pos bytes fits = elim (Bool-cases r.eof) [
    | inl end ↦ absurd (
        omega (
          arith,
          a.in_block,
          ap length (sym (append-nil r.buffer) ∙ rw (a.at_end end) at a.ahead),
          length-append (replicate k 0) (physical host sum t p ++ rest),
          length-append (physical host sum t p) rest,
          length-append (header host sum t p) p,
          length-replicate {A = ℕ} k 0,
          (header-Heads host sum t p (omega arith)).size,
        ))
    | inr more ↦
        let full : length r.buffer + off ≡ block_size = a.whole_block more in
        let size : length (replicate {A = ℕ} k 0) ≡ k = length-replicate k 0 in
        let (tail, front, left) =
          prefix_split (replicate k 0) r.buffer (plain.remaining r.source)
            (physical host sum t p ++ rest) a.ahead (omega (arith, full, size)) in
        let none_left : tail ≡ [] =
          nil_of_length tail
            (omega (arith, full, size, ap length front, length-append (replicate k 0) tail)) in
        let (r1, e1, a1, quiet1) =
          refill-AtOffset host sum file plain off (physical host sum t p ++ rest) r more
            a.from_start a.in_sync (rw none_left at left) in
        let (r2, e2, a2, quiet2, long) =
          parse-AtOffset host sum file plain 0 t p rest frag r1 a1 pos bytes (omega arith) in
        (
          r2,
          next_round 1 r r1 frag (omega (arith, full)) more e1
              ∙ first_round 0 r1 frag long
              ∙ ap some e2,
          a2,
          quiet2 ∙ quiet1,
        )
  ]

  -- The next fragment, wherever it stands.
  pub read_fragment :
      (off : ℕ) (t : RecordType) (p : List ℕ) (fs : List Fragment) (frag : List ℕ)
      (r : Reader host sum file)
      → AtOffset host sum file plain off (layout host sum off ((t, p) ∷ fs)) r
      → Fits off ((t, p) ∷ fs)
      → 0 < type_number t
      → Reads (next_offset off p) (layout host sum (next_offset off p) fs) (type_number t) p frag r
  read_fragment off t p fs frag r a fits pos =
      elim (Bool-cases (ltb (block_size - off) header_size)) [
        | inl short ↦
            let (at, pad) = start_short off short in
            rw at (
              read_behind_padding off (block_size - off) t p
                (layout host sum (0 + (header_size + length p)) fs) frag r (rw (pad, at) at a) refl
                (ground arith) pos fits.1 (omega (arith, at, fits.0)))
        | inr room ↦
            let (at, pad) = start_room off room in
            rw at (
              read_here off t p (layout host sum (off + (header_size + length p)) fs) frag r
                (rw (pad, at) at a) pos fits.1 (rw at at fits.0))
      ]

  -- At the end of the stream.
  pub read_end :
      (off : ℕ) (frag : List ℕ) (r : Reader host sum file)
      → AtOffset host sum file plain off [] r
      → (r' : Reader host sum file) × (read_physical_record host sum file r frag
          ≡ some (returns host sum file r' eof_record frag))
        × Quiet host sum file plain r r'
        × (r'.resyncing ≡ false)
  unfolding read_physical_record
  read_end off frag r a =
      let (empty, nothing) = append-eq-nil r.buffer (plain.remaining r.source) a.ahead in
      elim (Bool-cases r.eof) [
        | inl end ↦ (
          record r { buffer = [] },
          last_round 1 r frag (rw empty (omega arith)) end,
          refl,
          a.in_sync,
        )
        | inr more ↦
            let (r1, e1, a1, quiet) =
              refill-AtOffset host sum file plain off [] r more a.from_start a.in_sync nothing in
            let (empty1, _) = append-eq-nil r1.buffer (plain.remaining r1.source) a1.ahead in
            let end1 : r1.eof ≡ true = elim (Bool-cases r1.eof) [
              | inl e ↦ e
              | inr e ↦ absurd (omega (arith, a1.whole_block e, ap length empty1))
            ] in
            (
              record r1 { buffer = [] },
              next_round 1 r r1 frag (rw empty (omega arith)) more e1
                  ∙ last_round 0 r1 frag (rw empty1 (omega arith)) end1,
              quiet,
              a1.in_sync,
            )
      ]
