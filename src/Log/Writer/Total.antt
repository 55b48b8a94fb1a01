-- ===== src/Log/Writer/Total.antt =====
-- `AddRecord` on any file whose calls return, with errors or without.
use iceberg_db.Prelude.{
  ℕ, zero, suc, ◌+◌, ◌-◌, ◌≤◌, ◌<◌, ◌≡◌, refl, Bool, true, false, Option, some, List, ltb, ◌==◌,
  if◌then◌else◌, length, take, drop, replicate, arith, inl, inr, Bool-cases, length-take,
}
use native.Mathlib.Decide.{dec_le}
use iceberg_db.Base.Coding.{Endian}
use iceberg_db.Base.Status.{Status, is_ok}
use iceberg_db.Log.Format.{RecordType, block_size, header_size, WritableFile}
use iceberg_db.Log.Checksum.{Checksum}
use iceberg_db.Log.Writer.{
  Writer, fragment_type, header, append_record, emit_physical_record, switch_block, add_loop,
  add_record,
}
use iceberg_db.Log.Writer.Layout.{start, next_offset, start_bounds}
use iceberg_db.Log.Writer.Fuel.{rounds_bound, rounds_left}

-- Every call on a file that is ready returns, with a status out of the allowed ones. An append leaves
-- the file ready whatever its status is, and a flush where its status is ok.
pub record Responsive (file : WritableFile) : Type 1 where
  pub Ready : file.State → Type 0
  pub Allowed : Status → Type 0
  pub appends :
      (s : file.State) (bytes : List ℕ)
      → Ready s
      → (s' : file.State) × (status : Status) × (file.append s bytes ≡ some (s', status))
        × Allowed status
        × Ready s'
  pub flushes :
      (s : file.State)
      → Ready s
      → (s' : file.State) × (status : Status) × (file.flush s ≡ some (s', status))
        × Allowed status
        × (is_ok status ≡ true → Ready s')

module _ (host : Endian) (sum : Checksum) (file : WritableFile) (live : Responsive file) where
  abbrev Outcome : Status → file.State → Type 0
  Outcome status s = live.Allowed status × (is_ok status ≡ true → live.Ready s)

  append_record_returns :
      (dest : file.State) (head payload : List ℕ)
      → live.Ready dest
      → (s : file.State) × (status : Status) × (append_record host sum file dest head payload
          ≡ some (s, status))
        × Outcome status s
  unfolding append_record
  append_record_returns dest head payload ready =
      let (s1, st1, e1, a1, ready1) = live.appends dest head ready in
      let (s2, st2, e2, a2, ready2) = live.appends s1 payload ready1 in
      let (s3, st3, e3, a3, ready3) = live.flushes s2 ready2 in
      elim (Bool-cases (is_ok st1)) [
        | inr bad ↦ (s1, st1, rw (e1, bad), (a1, λ fine. ready1))
        | inl fine ↦ elim (Bool-cases (is_ok st2)) [
          | inr bad ↦ (s2, st2, rw (e1, fine, e2, bad), (a2, λ fine. ready2))
          | inl fine2 ↦ (s3, st3, rw (e1, fine, e2, fine2) e3, (a3, ready3))
        ]
      ]

  emit_returns :
      (w : Writer host sum file) (t : RecordType) (p : List ℕ)
      → live.Ready w.dest
      → (s : file.State) × (status : Status) × (emit_physical_record host sum file w t p
          ≡ some (
            record { dest = s; block_offset = w.block_offset + (header_size + length p) },
            status,
          ))
        × Outcome status s
  unfolding emit_physical_record
  emit_returns w t p ready =
      let (s, status, e, after) = append_record_returns w.dest (header host sum t p) p ready in
      (s, status, rw e, after)

  switch_block_returns :
      (w : Writer host sum file)
      → live.Ready w.dest
      → (s : file.State) × (switch_block host sum file w
          ≡ some (record { dest = s; block_offset = start w.block_offset }))
        × live.Ready s
  unfolding switch_block start
  switch_block_returns w ready = elim (Bool-cases (ltb (block_size - w.block_offset) header_size)) [
    | inl short ↦ elim (Bool-cases (ltb 0 (block_size - w.block_offset))) [
      | inl some_left ↦
          let (s, status, e, a, ready') =
            live.appends w.dest (replicate (block_size - w.block_offset) 0) ready in
          (s, rw (short, some_left, e), ready')
      | inr no_left ↦ (w.dest, rw (short, no_left), ready)
    ]
    | inr fits ↦ (w.dest, rw fits, ready)
  ]

  abbrev Ends : Option (Writer host sum file × Status) → Type 0
  Ends result =
      (w : Writer host sum file) × (status : Status) × (result ≡ some (w, status))
      × (w.block_offset ≤ block_size)
      × Outcome status w.dest

  round-Ends :
      (fuel : ℕ) (begin : Bool) (ptr : List ℕ) (w : Writer host sum file)
      → w.block_offset ≤ block_size
      → live.Ready w.dest
      → ((d : file.State)
          → live.Ready d
          → let avail = block_size - start w.block_offset - header_size in
            avail < length ptr
            → Ends (
                add_loop host sum file fuel false (drop avail ptr) (record {
                  dest = d;
                  block_offset = next_offset w.block_offset (take avail ptr);
                })))
      → Ends (add_loop host sum file (suc fuel) begin ptr w)
  unfolding add_loop
  round-Ends fuel begin ptr w h ready more =
      let avail : ℕ = block_size - start w.block_offset - header_size in
      let (d1, e1, ready1) = switch_block_returns w ready in
      let w1 : Writer host sum file = record { dest = d1; block_offset = start w.block_offset } in
      elim (dec_le (length ptr) avail) [
        | yes room ↦
            let n : (if ltb (length ptr) avail then length ptr else avail) ≡ length ptr =
              ground arith in
            let none_left : ltb 0 (length ptr - length ptr) ≡ false = ground arith in
            let (d2, status, e2, after) =
              emit_returns w1 (fragment_type begin (length ptr == length ptr))
                (take (length ptr) ptr) ready1 in
            let bound : next_offset w.block_offset (take (length ptr) ptr) ≤ block_size =
              omega (arith, length-take (length ptr) ptr, start_bounds w.block_offset h) in
            elim (Bool-cases (is_ok status)) [
              | inl fine ↦ rw (e1, n, e2, fine, none_left) (_, status, refl, bound, after)
              | inr bad ↦ rw (e1, n, e2, bad) (_, status, refl, bound, after)
            ]
        | no short ↦
            let n : (if ltb (length ptr) avail then length ptr else avail) ≡ avail = ground arith in
            let some_left : ltb 0 (length ptr - avail) ≡ true = ground arith in
            let (d2, status, e2, after) =
              emit_returns w1 (fragment_type begin (length ptr == avail)) (take avail ptr) ready1 in
            let bound : next_offset w.block_offset (take avail ptr) ≤ block_size =
              omega (arith, length-take avail ptr, start_bounds w.block_offset h) in
            elim (Bool-cases (is_ok status)) [
              | inl fine ↦ rw (e1, n, e2, fine, some_left) (more d2 (after.1 fine) (omega arith))
              | inr bad ↦ rw (e1, n, e2, bad) (_, status, refl, bound, after)
            ]
      ]

  add_loop-Ends :
      (fuel : ℕ) (begin : Bool) (ptr : List ℕ) (w : Writer host sum file)
      → w.block_offset ≤ block_size
      → live.Ready w.dest
      → rounds_bound w.block_offset ptr < fuel
      → Ends (add_loop host sum file fuel begin ptr w)
  add_loop-Ends zero begin ptr w h ready enough = absurd (omega arith)
  add_loop-Ends (suc fuel) begin ptr w h ready enough =
      let avail : ℕ = block_size - start w.block_offset - header_size in
      round-Ends fuel begin ptr w h ready (λ d ready' short.
        add_loop-Ends fuel false (drop avail ptr)
          (record { dest = d; block_offset = next_offset w.block_offset (take avail ptr) })
          (omega (arith, length-take avail ptr, start_bounds w.block_offset h)) ready'
          (rounds_left fuel ptr w.block_offset h short enough))

  -- On a ready file whose calls all return, whatever their status, `AddRecord` returns from any offset
  -- within the block: its rounds suffice. The block offset stays within the block, the status is one
  -- that the file may give, and where it is ok the file is ready again.
  pub add_record_returns :
      (w : Writer host sum file) (slice : List ℕ)
      → w.block_offset ≤ block_size
      → live.Ready w.dest
      → (w' : Writer host sum file) × (status : Status) × (add_record host sum file w slice
          ≡ some (w', status))
        × (w'.block_offset ≤ block_size)
        × live.Allowed status
        × (is_ok status ≡ true → live.Ready w'.dest)
  unfolding add_record
  add_record_returns w slice h ready =
      let (w', status, e, bounded, after) =
        add_loop-Ends (length slice + 2) true slice w h ready (ground arith) in
      (w', status, e, bounded, after.0, after.1)
