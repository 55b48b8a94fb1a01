-- ===== src/Base/Crc32c/Lookup.antt =====
-- The lookups of STEP1 and STEP4, against 8 rounds for each byte.
use Prim.Native.Nat.{bit_and, bit_xor}
use mathlib.Core.Path.{ap₂}
use iceberg_db.Prelude.{
  ℕ, ◌+◌, ◌*◌, ◌/◌, ◌%◌, ◌^◌, ◌<◌, ◌≡◌, refl, sym, ap, ◌∙◌, [], ◌∷◌, get_or, arith,
}
use iceberg_db.Prelude.Tables.{agree_below, agree_below→eq}
use iceberg_db.Prelude.Bits.{bit_and_mask, bit_xor_fields, bit_xor_assoc, bit_xor_swap, bit_xor-lt}
use iceberg_db.Base.Coding.{Endian, IsByte, decode_fixed32, le_value}
use iceberg_db.Base.Coding.RoundTrip.{decode_fixed32-le_value}
use iceberg_db.Base.Crc32c.Tables.{table0, table1, table2, table3}
use iceberg_db.Base.Crc32c.Rounds.{
  bit_round, rounds, rounds-bit_xor, rounds_add, rounds_shift, crc_byte, crc_byte_four, le_word,
  le_word-sum,
}
use iceberg_db.Base.Crc32c.{step1, step4}

-- Each table holds 8, 16, 24 or 32 rounds of its index.
table0-rounds : (c : ℕ) → c < 256 → get_or table0 c 0 ≡ rounds 8 c
unfolding agree_below table0 rounds bit_round
table0-rounds = agree_below→eq (λ c. get_or table0 c 0) (rounds 8) 256 refl

table1-rounds : (c : ℕ) → c < 256 → get_or table1 c 0 ≡ rounds 16 c
unfolding agree_below table1 rounds bit_round
table1-rounds = agree_below→eq (λ c. get_or table1 c 0) (rounds 16) 256 refl

table2-rounds : (c : ℕ) → c < 256 → get_or table2 c 0 ≡ rounds 24 c
unfolding agree_below table2 rounds bit_round
table2-rounds = agree_below→eq (λ c. get_or table2 c 0) (rounds 24) 256 refl

table3-rounds : (c : ℕ) → c < 256 → get_or table3 c 0 ≡ rounds 32 c
unfolding agree_below table3 rounds bit_round
table3-rounds = agree_below→eq (λ c. get_or table3 c 0) (rounds 32) 256 refl

byte_mask : (a : ℕ) → bit_and a 0xff ≡ a % 256
byte_mask a = bit_and_mask 8 a

-- A word is its low byte and the bits above it.
split_byte : (l : ℕ) → l ≡ bit_xor (l % 256) (l / 256 * 2 ^ 8)
split_byte l = omega (arith, bit_xor_fields 8 (l / 256) (l % 256) (omega arith))

-- `n + 8` rounds shift the low byte out.
rounds_split :
    (n l : ℕ) → rounds (8 + n) l ≡ bit_xor (rounds (8 + n) (l % 256)) (rounds n (l / 256))
rounds_split n l =
    ap (rounds (8 + n)) (split_byte l)
    ∙ rounds-bit_xor (8 + n) (l % 256) (l / 256 * 2 ^ 8)
    ∙ ap (bit_xor (rounds (8 + n) (l % 256)))
        (sym (rounds_add 8 n (l / 256 * 2 ^ 8)) ∙ ap (rounds n) (rounds_shift 8 (l / 256)))

pub step1-crc_byte : (l b : ℕ) → IsByte b → step1 l b ≡ crc_byte l b
unfolding step1 crc_byte
step1-crc_byte l b h =
    ap (λ (t : ℕ). bit_xor (get_or table0 (bit_xor t b) 0) (l / 256)) (byte_mask l)
    ∙ ap₂ bit_xor (table0-rounds c (bit_xor-lt 8 (l % 256) b (omega arith) h))
        (sym (rounds_shift 8 (l / 256)))
    ∙ sym (rounds-bit_xor 8 c (l / 256 * 2 ^ 8))
    ∙ ap (rounds 8) (
        bit_xor_swap (l % 256) b (l / 256 * 2 ^ 8)
        ∙ ap (λ (t : ℕ). bit_xor t b) (sym (split_byte l)))
  where
    c : ℕ
    c = bit_xor (l % 256) b

-- The four lookups together are the 32 rounds of the word.
lookups-rounds :
    (c : ℕ)
    → c < 2 ^ 32
    → rounds 32 c
      ≡ bit_xor
          (bit_xor
            (bit_xor (get_or table3 (c % 256) 0) (get_or table2 (c / 2 ^ 8 % 256) 0))
            (get_or table1 (c / 2 ^ 16 % 256) 0))
          (get_or table0 (c / 2 ^ 24) 0)
lookups-rounds c h =
    rounds_split 24 c
    ∙ ap₂ bit_xor (sym (table3-rounds (c % 256) (omega arith))) (
        rounds_split 16 (c / 256)
        ∙ ap₂ bit_xor (sym (table2-rounds (c / 256 % 256) (omega arith))) (
            ap (rounds 16) {x = c / 256 / 256} {y = c / 2 ^ 16} (omega arith)
            ∙ rounds_split 8 (c / 2 ^ 16)
            ∙ ap₂ bit_xor (sym (table1-rounds (c / 2 ^ 16 % 256) (omega arith))) (
                ap (rounds 8) {x = c / 2 ^ 16 / 256} {y = c / 2 ^ 24} (omega arith)
                ∙ sym (table0-rounds (c / 2 ^ 24) (omega arith)))))
    ∙ sym (simp bit_xor_assoc)

step4-rounds : (l w : ℕ) → l < 2 ^ 32 → w < 2 ^ 32 → step4 l w ≡ rounds 32 (bit_xor l w)
unfolding step4
step4-rounds l w h k =
    rw (byte_mask, byte_mask, byte_mask)
      (sym (lookups-rounds (bit_xor l w) (bit_xor-lt 32 l w h k)))

pub step4-crc_byte :
    (host : Endian) (l a b c d : ℕ)
    → l < 2 ^ 32
    → IsByte a
    → IsByte b
    → IsByte c
    → IsByte d
    → step4 l (decode_fixed32 host (a ∷ b ∷ c ∷ d ∷ []))
      ≡ crc_byte (crc_byte (crc_byte (crc_byte l a) b) c) d
step4-crc_byte host l a b c d h ha hb hc hd =
    ap (step4 l) word
    ∙ step4-rounds l (le_word a b c d) h (omega (arith, le_word-sum a b c d ha hb hc))
    ∙ sym (crc_byte_four l a b c d)
  where
    word : decode_fixed32 host (a ∷ b ∷ c ∷ d ∷ []) ≡ le_word a b c d
    word =
        decode_fixed32-le_value host a b c d [] ha hb hc hd
        ∙ unfold le_value in omega (arith, le_word-sum a b c d ha hb hc)
