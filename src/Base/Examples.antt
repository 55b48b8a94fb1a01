-- ===== src/Base/Examples.antt =====
-- Runs of the utilities on concrete inputs.
use iceberg_db.Prelude.{
  ℕ, ◌*◌, ◌%◌, ◌^◌, ◌≡◌, refl, true, false, none, some, List, [], ◌∷◌, ◌++◌, length, take, drop,
  ltb, ◌==◌, not, if◌then◌else◌, codes, arith,
}
use iceberg_db.Base.Coding.{little, big}
use iceberg_db.Base.Crc32c.{extend}
use iceberg_db.Base.Crc32c.Rounds.{bit_round, rounds, crc_byte, crc_bytes}
use iceberg_db.Base.Crc32c.Extend.{extend-crc_bytes}
use iceberg_db.Base.Logging.{consume_decimal_number}
use iceberg_db.Base.Logging.Decimal.{
  digit_prefix, digits_value, consume_decimal_number-digit_prefix,
}
use iceberg_db.Base.Random.{new, modulus, multiplier}
use iceberg_db.Base.Random.Modular.{IsSeed, next_times, next_times-power}
use iceberg_db.Base.Slice.{Slice, Sign, is_zero, starts_with, equal, compare}
use iceberg_db.Base.Slice
use iceberg_db.Base.Slice.Order.{byte_order, compare-byte_order}
use iceberg_db.Base.Status.{Code, code_number, construct, code, copy, to_string, type_text}
use iceberg_db.Base.Status
use iceberg_db.Base.Status.Layout.{message, new_faithful}

abbrev five : List ℕ
five = 1 ∷ 2 ∷ 3 ∷ 4 ∷ 5 ∷ []

abbrev three : List ℕ
three = 250 ∷ 0 ∷ 7 ∷ []

-- The CRC-32C of "123456789", the check value of the algorithm.
check_value : crc_bytes 0 (codes "123456789") ≡ 0xe306_9283
unfolding crc_bytes crc_byte rounds bit_round
check_value = refl

extend-crc_bytes_example : extend big 0x1001 0 five ≡ some (crc_bytes 0 five)
extend-crc_bytes_example =
    extend-crc_bytes big 0x1001 0 five (omega arith) (omega arith) (omega arith)

next_times-power_example :
    ((next_times 3 (new 0xdead_beef)).seed ≡ (new 0xdead_beef).seed * multiplier ^ 3 % modulus)
    × IsSeed (next_times 3 (new 0xdead_beef)).seed
next_times-power_example = next_times-power 3 0xdead_beef

new_faithful_example :
    (construct little Code.ok (codes "bad") (codes "block") ≡ none)
    × (construct little Code.corruption (codes "bad") (codes "block")
        ≡ some (Status.new little Code.corruption (codes "bad") (codes "block")))
    × (code little (Status.new little Code.corruption (codes "bad") (codes "block"))
        ≡ code_number Code.corruption)
    × (to_string little (λ c. []) (Status.new little Code.corruption (codes "bad") (codes "block"))
        ≡ type_text little (λ c. []) (code_number Code.corruption)
          ++ message (codes "bad") (codes "block"))
    × (copy little (Status.new little Code.corruption (codes "bad") (codes "block"))
        ≡ Status.new little Code.corruption (codes "bad") (codes "block"))
unfolding code_number
new_faithful_example =
    new_faithful little (λ c. []) Code.corruption (codes "bad") (codes "block") (omega arith)
      (omega arith)

consume_decimal_number-digit_prefix_example :
    consume_decimal_number (codes "18446744073709551616;") ≡ (
      if ltb (digits_value 0 (digit_prefix (codes "18446744073709551616;"))) (2 ^ 64)
      then record {
        done = not (length (digit_prefix (codes "18446744073709551616;")) == 0);
        val = some (digits_value 0 (digit_prefix (codes "18446744073709551616;")));
        in_after =
            drop
              (length (digit_prefix (codes "18446744073709551616;")))
              (codes "18446744073709551616;");
      }
      else record { done = false; val = none; in_after = codes "18446744073709551616;" })
consume_decimal_number-digit_prefix_example =
    consume_decimal_number-digit_prefix (codes "18446744073709551616;")

-- A `memcmp` that does what is documented.
abbrev comparing : List ℕ → List ℕ → ℕ → Sign
comparing xs ys n = byte_order (take n xs) (take n ys)

-- Views of the first bytes of two buffers.
abbrev four_bytes : Slice
four_bytes = record { data_ = codes "key1;"; size = 4; need_free = false }

abbrev two_bytes : Slice
two_bytes = record { data_ = codes "kex"; size = 2; need_free = true }

compare-byte_order_example :
    compare comparing four_bytes two_bytes
    ≡ byte_order (Slice.to_string four_bytes) (Slice.to_string two_bytes)
compare-byte_order_example =
    compare-byte_order comparing (λ xs ys n h k. refl) four_bytes two_bytes (omega arith)
      (omega arith)
