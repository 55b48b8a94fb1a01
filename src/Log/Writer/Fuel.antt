-- ===== src/Log/Writer/Fuel.antt =====
-- The rounds of the loop in `AddRecord`: each but the first and the last takes a byte off the record.
use iceberg_db.Prelude.{
  ℕ, suc, ◌+◌, ◌-◌, ◌≤◌, ◌<◌, ◌≡◌, refl, List, ◌==◌, if◌then◌else◌, length, take, drop, length-take,
  length-drop, arith,
}
use iceberg_db.Log.Format.{block_size, header_size}
use iceberg_db.Log.Writer.Layout.{start, next_offset, start_bounds}

-- The rounds that the loop takes are fewer than these.
abbrev pub rounds_bound : ℕ → List ℕ → ℕ
rounds_bound off ptr = length ptr + (if start off == block_size - header_size then 1 else 0)

full_block_start : start block_size ≡ 0
unfolding start
full_block_start = refl

pub rounds_left :
    (fuel : ℕ) (ptr : List ℕ) (off : ℕ)
    → off ≤ block_size
    → block_size - start off - header_size < length ptr
    → rounds_bound off ptr < suc fuel
    → let avail = block_size - start off - header_size in
      rounds_bound (next_offset off (take avail ptr)) (drop avail ptr) < fuel
rounds_left fuel ptr off h room enough =
    let avail : ℕ = block_size - start off - header_size in
    let at_end : next_offset off (take avail ptr) ≡ block_size =
      omega (arith, length-take avail ptr, start_bounds off h) in
    rw at_end (ground (arith, full_block_start, length-drop avail ptr, start_bounds off h))
