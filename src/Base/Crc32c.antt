-- ===== src/Base/Crc32c.antt =====
-- ibdb/src/base/crc32c.cpp and crc32c.h: `Extend` by table lookups, four bytes at a time where the
-- address is aligned, and the masking of stored checksums.
pub mod Tables
pub mod Rounds
pub mod Lookup
pub mod Extend
pub mod Mask
use Prim.Native.Nat.{bit_and, bit_or, bit_xor}
use mathlib.Core.Option
use iceberg_db.Prelude.{
  ℕ, ◌+◌, ◌-◌, ◌*◌, ◌/◌, ◌%◌, ◌^◌, Option, none, some, List, [], ◌∷◌, ◌==◌, leb, if◌then◌else◌,
  get_or, length,
}
use iceberg_db.Base.Coding.{Endian, decode_fixed32}
use Tables.{table0, table1, table2, table3}

-- STEP1: `int c = (l & 0xff) ^ *p++; l = table0_[c] ^ (l >> 8);`
unfoldable pub step1 : ℕ → ℕ → ℕ
step1 l b = let c = bit_xor (bit_and l 0xff) b in bit_xor (get_or table0 c 0) (l / 2 ^ 8)

-- STEP4, the word being `LE_LOAD32(p)`.
unfoldable pub step4 : ℕ → ℕ → ℕ
step4 l word =
    let c = bit_xor l word in
    bit_xor
      (bit_xor
        (bit_xor (get_or table3 (bit_and c 0xff) 0) (get_or table2 (bit_and (c / 2 ^ 8) 0xff) 0))
        (get_or table1 (bit_and (c / 2 ^ 16) 0xff) 0))
      (get_or table0 (c / 2 ^ 24) 0)

-- The state of the loops: `l`, the address `p`, and the bytes from `p` up to `e`.
pub record Cursor : Type 0 where
  pub l : ℕ
  pub p : ℕ
  pub left : List ℕ

-- `while (p != x) { STEP1; }`. `none` is a read at `e`, behind the last byte.
unfoldable pub bytes_until : ℕ → ℕ → ℕ → List ℕ → Option Cursor
bytes_until x l p [] = if p == x then some (record { l = l; p = p; left = [] }) else none
bytes_until x l p (b ∷ bs) =
    let more = bytes_until x (step1 l b) (p + 1) bs in
    if p == x then some (record { l = l; p = p; left = b ∷ bs }) else more

-- `while ((e-p) >= 16) { STEP4; STEP4; STEP4; STEP4; }`
unfoldable pub by_sixteen : Endian → ℕ → ℕ → List ℕ → Cursor
by_sixteen host l p
      (a0 ∷ a1 ∷ a2 ∷ a3 ∷ b0 ∷ b1 ∷ b2 ∷ b3 ∷ c0 ∷ c1 ∷ c2 ∷ c3 ∷ d0 ∷ d1 ∷ d2 ∷ d3 ∷ left) =
    let l1 = step4 l (decode_fixed32 host (a0 ∷ a1 ∷ a2 ∷ a3 ∷ [])) in
    let l2 = step4 l1 (decode_fixed32 host (b0 ∷ b1 ∷ b2 ∷ b3 ∷ [])) in
    let l3 = step4 l2 (decode_fixed32 host (c0 ∷ c1 ∷ c2 ∷ c3 ∷ [])) in
    let l4 = step4 l3 (decode_fixed32 host (d0 ∷ d1 ∷ d2 ∷ d3 ∷ [])) in
    by_sixteen host l4 (p + 16) left
by_sixteen host l p left = record { l = l; p = p; left = left }

-- `while ((e-p) >= 4) { STEP4; }`
unfoldable pub by_four : Endian → ℕ → ℕ → List ℕ → Cursor
by_four host l p (a ∷ b ∷ c ∷ d ∷ left) =
    by_four host (step4 l (decode_fixed32 host (a ∷ b ∷ c ∷ d ∷ []))) (p + 4) left
by_four host l p left = record { l = l; p = p; left = left }

-- `uint32_t Extend(uint32_t crc, const char* buf, size_t size)` with `buf` at an address.
unfoldable pub extend : Endian → ℕ → ℕ → List ℕ → Option ℕ
unfolding Option.bind
extend host address crc buf =
    let e = address + length buf in
    let x = (address + 3) % 2 ^ 64 / 2 ^ 2 * 2 ^ 2 in
    let l = bit_xor crc 0xffff_ffff in
    let start : Option Cursor =
      if leb x e
      then bytes_until x l address buf
      else some (record { l = l; p = address; left = buf }) in
    Option.bind start (λ s.
      let s' = by_sixteen host s.l s.p s.left in
      let s'' = by_four host s'.l s'.p s'.left in
      Option.map (λ (t : Cursor). bit_xor t.l 0xffff_ffff) (bytes_until e s''.l s''.p s''.left))

-- `Value(data, n)` is `Extend(0, data, n)`.
unfoldable pub value : Endian → ℕ → List ℕ → Option ℕ
unfolding extend
value host address buf = extend host address 0 buf

abbrev pub mask_delta : ℕ
mask_delta = 0xa282_ead8

-- `((crc >> 15) | (crc << 17)) + kMaskDelta`
unfoldable pub mask : ℕ → ℕ
mask crc = (bit_or (crc / 2 ^ 15) (crc * 2 ^ 17 % 2 ^ 32) + mask_delta) % 2 ^ 32

-- `rot = masked_crc - kMaskDelta; (rot >> 17) | (rot << 15)`
unfoldable pub unmask : ℕ → ℕ
unmask masked_crc =
    let rot = (masked_crc + 2 ^ 32 - mask_delta) % 2 ^ 32 in
    bit_or (rot / 2 ^ 17) (rot * 2 ^ 15 % 2 ^ 32)
