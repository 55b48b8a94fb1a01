-- ===== src/Base/Crc32c/Mask.antt =====
-- Masking and unmasking as rotations of a 32-bit word.
use Prim.Native.Nat.{bit_or}
use iceberg_db.Prelude.{ℕ, ◌+◌, ◌-◌, ◌*◌, ◌/◌, ◌%◌, ◌^◌, ◌<◌, ◌≡◌, arith}
use iceberg_db.Prelude.Bits.{bit_or_fields}
use iceberg_db.Base.Crc32c.{mask_delta, mask, unmask}

pub mask-lt : (crc : ℕ) → mask crc < 2 ^ 32
unfolding mask
mask-lt crc = omega arith

-- A rotation by `k` bits of a 32-bit word, as the sum of its two fields.
rotate_right_fields :
    (crc : ℕ)
    → crc < 2 ^ 32
    → bit_or (crc / 2 ^ 15) (crc * 2 ^ 17 % 2 ^ 32) ≡ crc / 2 ^ 15 + crc % 2 ^ 15 * 2 ^ 17
rotate_right_fields crc h = ground (arith, bit_or_fields 17 (crc % 2 ^ 15) (crc / 2 ^ 15))

rotate_left_fields :
    (rot : ℕ)
    → rot < 2 ^ 32
    → bit_or (rot / 2 ^ 17) (rot * 2 ^ 15 % 2 ^ 32) ≡ rot / 2 ^ 17 + rot % 2 ^ 17 * 2 ^ 15
rotate_left_fields rot h = ground (arith, bit_or_fields 15 (rot % 2 ^ 17) (rot / 2 ^ 17))

mask_lem :
    (crc : ℕ)
    → crc < 2 ^ 32
    → mask crc ≡ (crc / 2 ^ 15 + crc % 2 ^ 15 * 2 ^ 17 + mask_delta) % 2 ^ 32
unfolding mask
mask_lem crc h = rw (rotate_right_fields crc h)

unmask_lem :
    (m rot : ℕ)
    → m < 2 ^ 32
    → rot ≡ (m + 2 ^ 32 - mask_delta) % 2 ^ 32
    → unmask m ≡ rot / 2 ^ 17 + rot % 2 ^ 17 * 2 ^ 15
unfolding unmask
unmask_lem m rot h e = rw (← e) (rotate_left_fields rot (omega arith))

unmask-lt : (m : ℕ) → m < 2 ^ 32 → unmask m < 2 ^ 32
unmask-lt m h = omega (arith, unmask_lem m ((m + 2 ^ 32 - mask_delta) % 2 ^ 32) h (omega arith))

-- Unmasking a masked checksum gives the checksum, for every 32-bit value.
pub unmask-mask : (crc : ℕ) → crc < 2 ^ 32 → unmask (mask crc) ≡ crc
unmask-mask crc h = omega (
  arith,
  unmask_lem (mask crc) (crc / 2 ^ 15 + crc % 2 ^ 15 * 2 ^ 17) (mask-lt crc)
      (omega (arith, mask_lem crc h)),
)

-- Masking an unmasked value gives the value, for every 32-bit value: the mask loses nothing.
mask-unmask : (m : ℕ) → m < 2 ^ 32 → mask (unmask m) ≡ m
mask-unmask m h =
    let rot : ℕ = (m + 2 ^ 32 - mask_delta) % 2 ^ 32 in
    omega (arith, unmask_lem m rot h (omega arith), mask_lem (unmask m) (unmask-lt m h))
