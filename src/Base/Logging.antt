-- ===== src/Base/Logging.antt =====
-- ibdb/src/base/logging.h: numbers and bytes as readable text. A string is the list of its bytes.
pub mod Decimal
use iceberg_db.Prelude.{
  ℕ, zero, suc, ◌+◌, ◌-◌, ◌*◌, ◌/◌, ◌%◌, ◌^◌, Bool, true, false, not, ◌&&◌, ◌||◌, Option, none,
  some, List, [], ◌∷◌, ◌++◌, ltb, leb, ◌==◌, if◌then◌else◌, length, drop,
}

-- The digits that `%llu` prints, the last one being split off in each round.
unfoldable pub print_digits : ℕ → ℕ → List ℕ
print_digits zero n = []
print_digits (suc k) n =
    let front = print_digits k (n / 10) in
    if ltb n 10 then (b'0' + n) ∷ [] else front ++ (b'0' + n % 10) ∷ []

-- `AppendNumberTo(str, num)`: a `uint64_t` has at most 20 digits.
unfoldable pub append_number_to : List ℕ → ℕ → List ℕ
append_number_to str num = str ++ print_digits 20 num

unfoldable pub number_to_string : ℕ → List ℕ
number_to_string num = append_number_to [] num

-- A digit of `%02x`.
unfoldable pub hex_digit : ℕ → ℕ
hex_digit d = if ltb d 10 then b'0' + d else b'a' + (d - 10)

-- `AppendEscapedStringTo(str, value)`: a byte from 128 up is a negative `char`, which is not
-- `>= ' '`.
unfoldable pub append_escaped_string_to : List ℕ → List ℕ → List ℕ
unfolding hex_digit
append_escaped_string_to str [] = str
append_escaped_string_to str (c ∷ value) =
    append_escaped_string_to
      (if leb b' ' c && leb c b'~'
        then str ++ c ∷ []
        else str ++ (0x5c ∷ b'x' ∷ hex_digit (c / 16) ∷ hex_digit (c % 16) ∷ []))
      value

unfoldable pub escape_string : List ℕ → List ℕ
unfolding append_escaped_string_to
escape_string value = append_escaped_string_to [] value

abbrev pub max_uint64 : ℕ
max_uint64 = 2 ^ 64 - 1

abbrev pub last_digit_of_max_uint64 : ℕ
last_digit_of_max_uint64 = b'0' + max_uint64 % 10

-- The loop of `ConsumeDecimalNumber`: the value and the number of digits, or `none` where the
-- number would overflow.
unfoldable pub consume_loop : ℕ → ℕ → List ℕ → Option (ℕ × ℕ)
consume_loop value count [] = some (value, count)
consume_loop value count (ch ∷ rest) =
    let more = consume_loop (value * 10 + (ch - b'0')) (count + 1) rest in
    if ltb ch b'0' || ltb b'9' ch
    then some (value, count)
    else if ltb (max_uint64 / 10) value
        || (value == max_uint64 / 10 && ltb last_digit_of_max_uint64 ch)
    then none
    else more

-- What `ConsumeDecimalNumber(in, val)` returns, what it writes to `*val`, and `*in` afterwards.
pub record Consumed : Type 0 where
  pub done : Bool
  pub val : Option ℕ
  pub in_after : List ℕ

unfoldable pub consume_decimal_number : List ℕ → Consumed
consume_decimal_number input = elim (consume_loop 0 0 input) [
  | none ↦ record { done = false; val = none; in_after = input }
  | some (value, digits_consumed) ↦ record {
    done = not (digits_consumed == 0);
    val = some value;
    in_after = drop digits_consumed input;
  }
]
