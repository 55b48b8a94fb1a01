-- ===== src/Base/Crc32c/Rounds.antt =====
-- CRC-32C as it is defined: a division of polynomials over two elements, one bit at a time.
-- This is the independent description against which `Extend` of ibdb/src/base/crc32c.cpp is held.
use Prim.Native.Nat.{bit_xor}
use mathlib.Core.List.{foldl}
use iceberg_db.Prelude.{
  ℕ, zero, suc, ◌+◌, ◌*◌, ◌/◌, ◌%◌, ◌^◌, ◌<◌, ◌≡◌, refl, ap, sym, ◌∙◌, List, arith, ◌==◌,
  if◌then◌else◌, ◌⊎◌, inl, inr,
}
use iceberg_db.Prelude.Bits.{
  bit_xor_assoc, bit_xor_fields, bit_xor_swap, bit_xor_cancel_both, bit_xor-mod_two,
  bit_xor-div_two, bit_xor-lt, double_field,
}
use mathlib.Core.Path.{ap₂}

-- The reflected Castagnoli polynomial.
abbrev pub poly : ℕ
poly = 0x82f6_3b78

unfoldable pub bit_round : ℕ → ℕ
bit_round x = if x % 2 == 1 then bit_xor (x / 2) poly else x / 2

unfoldable pub rounds : ℕ → ℕ → ℕ
rounds zero x = x
rounds (suc n) x = rounds n (bit_round x)

unfoldable pub crc_byte : ℕ → ℕ → ℕ
crc_byte l b = rounds 8 (bit_xor l b)

-- The checksum of the bytes that follow those of `crc`.
unfoldable pub crc_bytes : ℕ → List ℕ → ℕ
crc_bytes crc bytes = bit_xor (foldl crc_byte (bit_xor crc 0xffff_ffff) bytes) 0xffff_ffff

parity : (x : ℕ) → (x % 2 ≡ 0) ⊎ (x % 2 ≡ 1)
parity x = omega arith

even_round : (x : ℕ) → x % 2 ≡ 0 → bit_round x ≡ x / 2
unfolding bit_round
even_round x h = rw h

odd_round : (x : ℕ) → x % 2 ≡ 1 → bit_round x ≡ bit_xor (x / 2) poly
unfolding bit_round
odd_round x h = rw h

bit_round-bit_xor : (x y : ℕ) → bit_round (bit_xor x y) ≡ bit_xor (bit_round x) (bit_round y)
bit_round-bit_xor x y = elim (parity x) [
  | inl p ↦ elim (parity y) [
    | inl q ↦ even_sum (omega arith) ∙ sym (ap₂ bit_xor (even_round x p) (even_round y q))
    | inr q ↦
        odd_sum (omega arith)
        ∙ bit_xor_assoc (x / 2) (y / 2) poly
        ∙ sym (ap₂ bit_xor (even_round x p) (odd_round y q))
  ]
  | inr p ↦ elim (parity y) [
    | inl q ↦
        odd_sum (omega arith)
        ∙ bit_xor_swap (x / 2) (y / 2) poly
        ∙ sym (ap₂ bit_xor (odd_round x p) (even_round y q))
    | inr q ↦
        even_sum (omega arith)
        ∙ sym (bit_xor_cancel_both (x / 2) (y / 2) poly)
        ∙ sym (ap₂ bit_xor (odd_round x p) (odd_round y q))
  ]
]
  where
    even_sum : (x % 2 + y % 2) % 2 ≡ 0 → bit_round (bit_xor x y) ≡ bit_xor (x / 2) (y / 2)
    even_sum h = even_round (bit_xor x y) (bit_xor-mod_two x y ∙ h) ∙ bit_xor-div_two x y

    odd_sum :
        (x % 2 + y % 2) % 2 ≡ 1 → bit_round (bit_xor x y) ≡ bit_xor (bit_xor (x / 2) (y / 2)) poly
    odd_sum h =
        odd_round (bit_xor x y) (bit_xor-mod_two x y ∙ h)
        ∙ ap (λ (t : ℕ). bit_xor t poly) (bit_xor-div_two x y)

-- The rounds are linear over exclusive or.
pub rounds-bit_xor : (n x y : ℕ) → rounds n (bit_xor x y) ≡ bit_xor (rounds n x) (rounds n y)
unfolding rounds
rounds-bit_xor zero x y = refl
rounds-bit_xor (suc n) x y =
    ap (rounds n) (bit_round-bit_xor x y) ∙ rounds-bit_xor n (bit_round x) (bit_round y)

pub rounds_add : (m n x : ℕ) → rounds n (rounds m x) ≡ rounds (m + n) x
unfolding rounds
rounds_add zero n x = ap (λ (t : ℕ). rounds t x) {x = n} {y = 0 + n} (omega arith)
rounds_add (suc m) n x =
    rounds_add m n (bit_round x)
    ∙ ap (λ (t : ℕ). rounds t x) {x = suc (m + n)} {y = suc m + n} (omega arith)

-- Bits that have not reached the low end are only shifted.
pub rounds_shift : (n q : ℕ) → rounds n (q * 2 ^ n) ≡ q
unfolding rounds
rounds_shift zero q = omega arith
rounds_shift (suc n) q =
    ap (rounds n) (
      even_round (q * 2 ^ suc n) (omega (arith, double_field q n))
      ∙ omega (arith, double_field q n))
    ∙ rounds_shift n q

bit_round-lt : (x : ℕ) → x < 2 ^ 32 → bit_round x < 2 ^ 32
unfolding bit_round
bit_round-lt x h = ground (arith, bit_xor-lt 32 (x / 2) poly (omega arith) (omega arith))

rounds-lt : (n x : ℕ) → x < 2 ^ 32 → rounds n x < 2 ^ 32
unfolding rounds
rounds-lt zero x h = h
rounds-lt (suc n) x h = rounds-lt n (bit_round x) (bit_round-lt x h)

pub crc_byte-lt : (l b : ℕ) → l < 2 ^ 32 → b < 256 → crc_byte l b < 2 ^ 32
unfolding crc_byte
crc_byte-lt l b h k = rounds-lt 8 (bit_xor l b) (bit_xor-lt 32 l b h (omega arith))

-- A byte that arrives after `n` rounds might as well have stood `n` bits higher at the start.
crc_byte-rounds : (n x b : ℕ) → crc_byte (rounds n x) b ≡ rounds (n + 8) (bit_xor x (b * 2 ^ n))
unfolding crc_byte
crc_byte-rounds n x b =
    ap (λ (t : ℕ). rounds 8 (bit_xor (rounds n x) t)) (sym (rounds_shift n b))
    ∙ ap (rounds 8) (sym (rounds-bit_xor n x (b * 2 ^ n)))
    ∙ rounds_add n 8 (bit_xor x (b * 2 ^ n))

pub le_word : ℕ → ℕ → ℕ → ℕ → ℕ
le_word a b c d = bit_xor (bit_xor (bit_xor a (b * 2 ^ 8)) (c * 2 ^ 16)) (d * 2 ^ 24)

pub le_word-sum :
    (a b c d : ℕ)
    → a < 256
    → b < 256
    → c < 256
    → le_word a b c d ≡ a + b * 2 ^ 8 + c * 2 ^ 16 + d * 2 ^ 24
unfolding le_word
le_word-sum a b c d h k l = ground (
  arith,
  bit_xor_fields 8 b a,
  bit_xor_fields 16 c (a + b * 2 ^ 8),
  bit_xor_fields 24 d (a + b * 2 ^ 8 + c * 2 ^ 16),
)

-- Four bytes at once are the 32 rounds of the word that they make.
pub crc_byte_four :
    (l a b c d : ℕ)
    → crc_byte (crc_byte (crc_byte (crc_byte l a) b) c) d ≡ rounds 32 (bit_xor l (le_word a b c d))
unfolding le_word crc_byte
crc_byte_four l a b c d =
    ap (λ (t : ℕ). crc_byte (crc_byte t c) d) (crc_byte-rounds 8 (bit_xor l a) b)
    ∙ ap (λ (t : ℕ). crc_byte t d) (crc_byte-rounds 16 (bit_xor (bit_xor l a) (b * 2 ^ 8)) c)
    ∙ crc_byte-rounds 24 (bit_xor (bit_xor (bit_xor l a) (b * 2 ^ 8)) (c * 2 ^ 16)) d
    ∙ ap (rounds 32) regroup
  where
    regroup :
        bit_xor (bit_xor (bit_xor (bit_xor l a) (b * 2 ^ 8)) (c * 2 ^ 16)) (d * 2 ^ 24)
        ≡ bit_xor l (bit_xor (bit_xor (bit_xor a (b * 2 ^ 8)) (c * 2 ^ 16)) (d * 2 ^ 24))
    regroup = simp bit_xor_assoc
