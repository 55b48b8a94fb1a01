-- ===== src/Log/Writer/Emitted.antt =====
-- `AddRecord` on a file without faults, against the layout of fragments.
use mathlib.Core.List.{append_assoc, append-nil}
use iceberg_db.Prelude.{
  ℕ, zero, suc, ◌+◌, ◌-◌, ◌≤◌, ◌<◌, ◌≡◌, refl, sym, ap, ◌∙◌, Bool, true, false, Option, some, List,
  [], ◌∷◌, ◌++◌, ltb, ◌==◌, if◌then◌else◌, length, take, drop, take_all, replicate, All, All-take,
  All-drop, length-take, take-append-drop, arith, inl, inr, Bool-cases,
}
use native.Mathlib.Decide.{dec_le}
use iceberg_db.Base.Coding.{Endian, IsByte}
use iceberg_db.Base.Status.{Status, status_ok}
use iceberg_db.Log.Format.{RecordType, block_size, header_size, WritableFile}
use iceberg_db.Log.Checksum.{Checksum}
use iceberg_db.Log.Writer.{
  Writer, fragment_type, header, append_record, emit_physical_record, switch_block, add_loop,
  add_record,
}
use iceberg_db.Log.Writer.Fuel.{rounds_bound, rounds_left}
use iceberg_db.Log.Writer.Layout.{
  Fragment, start, padding, next_offset, end_offset, Fits, Tail, Whole, last, middle, full, first,
  physical, layout, start_bounds,
}

-- A file on which every call succeeds once it is ready, and which keeps what is appended in order.
pub record Faultless (file : WritableFile) : Type 1 where
  pub Ready : file.State → Type 0
  pub contents : file.State → List ℕ
  pub appended :
      (s : file.State) (bytes : List ℕ)
      → Ready s
      → (s' : file.State) × (file.append s bytes ≡ some (s', status_ok))
        × (contents s' ≡ contents s ++ bytes)
        × Ready s'
  pub flushed :
      (s : file.State)
      → Ready s
      → (s' : file.State) × (file.flush s ≡ some (s', status_ok))
        × (contents s' ≡ contents s)
        × Ready s'

abbrev Splits : Bool → List ℕ → List Fragment → Type 0
Splits true = Whole
Splits false = Tail

module _ (host : Endian) (sum : Checksum) (file : WritableFile) (ok : Faultless file) where
  append_record-contents :
      (dest : file.State) (head payload : List ℕ)
      → ok.Ready dest
      → (s : file.State) × (append_record host sum file dest head payload ≡ some (s, status_ok))
        × (ok.contents s ≡ ok.contents dest ++ (head ++ payload))
        × ok.Ready s
  unfolding append_record
  append_record-contents dest head payload ready =
      let (s1, e1, c1, ready1) = ok.appended dest head ready in
      let (s2, e2, c2, ready2) = ok.appended s1 payload ready1 in
      let (s3, e3, c3, ready3) = ok.flushed s2 ready2 in
      (
        s3,
        rw e1 (rw e2 e3),
        c3
            ∙ c2
            ∙ ap (λ (bs : List ℕ). bs ++ payload) c1
            ∙ append_assoc (ok.contents dest) head payload,
        ready3,
      )

  emit-contents :
      (w : Writer host sum file) (t : RecordType) (p : List ℕ)
      → ok.Ready w.dest
      → (s : file.State) × (emit_physical_record host sum file w t p
          ≡ some (
            record { dest = s; block_offset = w.block_offset + (header_size + length p) },
            status_ok,
          ))
        × (ok.contents s ≡ ok.contents w.dest ++ physical host sum t p)
        × ok.Ready s
  unfolding emit_physical_record
  emit-contents w t p ready =
      let (s, e, c, ready') = append_record-contents w.dest (header host sum t p) p ready in
      (s, rw e, c, ready')

  switch_block-contents :
      (w : Writer host sum file)
      → w.block_offset ≤ block_size
      → ok.Ready w.dest
      → (s : file.State) × (switch_block host sum file w
          ≡ some (record { dest = s; block_offset = start w.block_offset }))
        × (ok.contents s ≡ ok.contents w.dest ++ padding w.block_offset)
        × ok.Ready s
  unfolding switch_block start padding
  switch_block-contents w h ready =
      elim (Bool-cases (ltb (block_size - w.block_offset) header_size)) [
        | inl short ↦ elim (Bool-cases (ltb 0 (block_size - w.block_offset))) [
          | inl some_left ↦
              let (s, e, c, ready') =
                ok.appended w.dest (replicate (block_size - w.block_offset) 0) ready in
              (s, rw (short, some_left, e), rw short c, ready')
          | inr no_left ↦
              let none_left : block_size - w.block_offset ≡ 0 = ground arith in
              (w.dest, rw (short, no_left), rw (short, none_left, append-nil), ready)
        ]
        | inr fits ↦ (w.dest, rw fits, rw (fits, append-nil), ready)
      ]

  -- What a run of the loop on `ptr` from `w` did: it appended the layout of fragments of `ptr`.
  pub record Emitted (begin : Bool) (ptr : List ℕ) (w w' : Writer host sum file)
      (fs : List Fragment) : Type 0 where
    pub splits : Splits begin ptr fs
    pub fits : Fits w.block_offset fs
    pub written : ok.contents w'.dest ≡ ok.contents w.dest ++ layout host sum w.block_offset fs
    pub offset : w'.block_offset ≡ end_offset w.block_offset fs
    pub bounded : w'.block_offset ≤ block_size
    pub ready : ok.Ready w'.dest

  abbrev Emits :
      Bool → List ℕ → Writer host sum file → Option (Writer host sum file × Status) → Type 0
  Emits begin ptr w result =
      (w' : Writer host sum file) × (fs : List Fragment) × (result ≡ some (w', status_ok))
      × Emitted begin ptr w w' fs

  abbrev at : file.State → ℕ → Writer host sum file
  at d off = record { dest = d; block_offset = off }

  -- One fragment: the switch of the block, and the physical record.
  one_fragment :
      (w : Writer host sum file) (t : RecordType) (p : List ℕ)
      → w.block_offset ≤ block_size
      → ok.Ready w.dest
      → (d1 d2 : file.State) × (switch_block host sum file w ≡ some (at d1 (start w.block_offset)))
        × (emit_physical_record host sum file (at d1 (start w.block_offset)) t p
            ≡ some (at d2 (next_offset w.block_offset p), status_ok))
        × (ok.contents d2 ≡ ok.contents w.dest ++ (padding w.block_offset ++ physical host sum t p))
        × ok.Ready d2
  one_fragment w t p h ready =
      let (s1, e1, c1, ready1) = switch_block-contents w h ready in
      let (s2, e2, c2, ready2) = emit-contents (at s1 (start w.block_offset)) t p ready1 in
      (
        s1,
        s2,
        e1,
        e2,
        c2
            ∙ ap (λ (bs : List ℕ). bs ++ physical host sum t p) c1
            ∙ append_assoc (ok.contents w.dest) (padding w.block_offset) (physical host sum t p),
        ready2,
      )

  last_type_Splits :
      (begin : Bool) (p : List ℕ) → Splits begin p ((fragment_type begin true, p) ∷ [])
  unfolding fragment_type
  last_type_Splits true p = full
  last_type_Splits false p = last

  more_Splits :
      (begin : Bool) (p : List ℕ) {ptr rest : List ℕ} {fs : List Fragment}
      → ptr ≡ p ++ rest
      → Tail rest fs
      → Splits begin ptr ((fragment_type begin false, p) ∷ fs)
  unfolding fragment_type
  more_Splits true p e t = first e t
  more_Splits false p e t = middle e t

  -- The last round, where all that is left fits the block.
  add_last :
      (fuel : ℕ) (begin : Bool) (ptr : List ℕ) (w : Writer host sum file)
      → w.block_offset ≤ block_size
      → ok.Ready w.dest
      → All IsByte ptr
      → length ptr ≤ block_size - start w.block_offset - header_size
      → Emits begin ptr w (add_loop host sum file (suc fuel) begin ptr w)
  unfolding add_loop
  add_last fuel begin ptr w h ready k room =
      let (d1, d2, e1, e2, c, ready2) = one_fragment w (fragment_type begin true) ptr h ready in
      let avail = block_size - start w.block_offset - header_size in
      let n : (if ltb (length ptr) avail then length ptr else avail) ≡ length ptr = ground arith in
      let whole : take (length ptr) ptr ≡ ptr = take_all (length ptr) ptr (omega arith) in
      let none_left : ltb 0 (length ptr - length ptr) ≡ false = ground arith in
      let is_end : (length ptr == length ptr) ≡ true = ground arith in
      (
        at d2 (next_offset w.block_offset ptr),
        (fragment_type begin true, ptr) ∷ [],
        rw (e1, n, is_end, whole, e2, none_left),
        record {
          splits = last_type_Splits begin ptr;
          fits = (omega (arith, start_bounds w.block_offset h), k, tt);
          written = rw append-nil c;
          offset = refl;
          bounded = omega (arith, start_bounds w.block_offset h);
          ready = ready2;
        },
      )

  -- A round that fills its block, followed by the run on what is left.
  add_more :
      (fuel : ℕ) (begin : Bool) (ptr : List ℕ) (w : Writer host sum file) (d1 d2 : file.State)
      → All IsByte ptr
      → start w.block_offset + header_size ≤ block_size
      → block_size - start w.block_offset - header_size < length ptr
      → let p = take (block_size - start w.block_offset - header_size) ptr in
        let rest = drop (block_size - start w.block_offset - header_size) ptr in
        let w2 = at d2 (next_offset w.block_offset p) in
        switch_block host sum file w ≡ some (at d1 (start w.block_offset))
        → emit_physical_record host sum file
            (at d1 (start w.block_offset))
            (fragment_type begin false)
            p
          ≡ some (w2, status_ok)
        → ok.contents d2
          ≡ ok.contents w.dest
            ++ (padding w.block_offset ++ physical host sum (fragment_type begin false) p)
        → Emits false rest w2 (add_loop host sum file fuel false rest w2)
        → Emits begin ptr w (add_loop host sum file (suc fuel) begin ptr w)
  unfolding add_loop
  add_more fuel begin ptr w d1 d2 k h room e1 e2 c (w3, fs, e3, tail) =
      let avail : ℕ = block_size - start w.block_offset - header_size in
      let n : (if ltb (length ptr) avail then length ptr else avail) ≡ avail = ground arith in
      let some_left : ltb 0 (length ptr - avail) ≡ true = ground arith in
      let not_end : (length ptr == avail) ≡ false = ground arith in
      (
        w3,
        (fragment_type begin false, take avail ptr) ∷ fs,
        rw (e1, n, not_end, e2, some_left) e3,
        record {
          splits =
              more_Splits begin (take avail ptr) (sym (take-append-drop avail ptr)) tail.splits;
          fits = (omega (arith, length-take avail ptr), All-take IsByte avail ptr k, tail.fits);
          written =
              tail.written
              ∙ ap
                  (λ (bs : List ℕ).
                    bs ++ layout host sum (next_offset w.block_offset (take avail ptr)) fs)
                  c
              ∙ simp append_assoc;
          offset = tail.offset;
          bounded = tail.bounded;
          ready = tail.ready;
        },
      )

  add_loop-Emits :
      (fuel : ℕ) (begin : Bool) (ptr : List ℕ) (w : Writer host sum file)
      → w.block_offset ≤ block_size
      → ok.Ready w.dest
      → All IsByte ptr
      → rounds_bound w.block_offset ptr < fuel
      → Emits begin ptr w (add_loop host sum file fuel begin ptr w)
  add_loop-Emits zero begin ptr w h ready k enough = absurd (omega arith)
  add_loop-Emits (suc fuel) begin ptr w h ready k enough =
      let avail : ℕ = block_size - start w.block_offset - header_size in
      elim (dec_le (length ptr) avail) [
        | yes room ↦ add_last fuel begin ptr w h ready k room
        | no short ↦
            let (d1, d2, e1, e2, c, ready2) =
              one_fragment w (fragment_type begin false) (take avail ptr) h ready in
            let at_end : next_offset w.block_offset (take avail ptr) ≡ block_size =
              omega (arith, length-take avail ptr, start_bounds w.block_offset h) in
            add_more fuel begin ptr w d1 d2 k (start_bounds w.block_offset h) (omega arith) e1 e2 c
              (add_loop-Emits fuel false (drop avail ptr)
                (at d2 (next_offset w.block_offset (take avail ptr))) (omega arith) ready2
                (All-drop IsByte avail ptr k)
                (rounds_left fuel ptr w.block_offset h (omega arith) enough))
      ]

  -- On a file without faults that is ready, from an offset within the block, `AddRecord` of bytes ends with an ok
  -- status; it appends the layout of fragments that each stand in one block and make up the record,
  -- and the block offset is then that of their end, within the block.
  pub add_record-Emits :
      (w : Writer host sum file) (slice : List ℕ)
      → w.block_offset ≤ block_size
      → ok.Ready w.dest
      → All IsByte slice
      → (w' : Writer host sum file) × (fs : List Fragment) × (add_record host sum file w slice
          ≡ some (w', status_ok))
        × Emitted true slice w w' fs
  unfolding add_record
  add_record-Emits w slice h ready k =
      add_loop-Emits (length slice + 2) true slice w h ready k (ground arith)
