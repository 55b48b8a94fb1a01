-- ===== src/Base/Logging/Decimal.antt =====
-- `ConsumeDecimalNumber` against the number that the leading digits stand for, and printing
-- followed by reading.
use iceberg_db.Prelude.{
  ℕ, zero, suc, ◌+◌, ◌-◌, ◌*◌, ◌/◌, ◌%◌, ◌^◌, ◌≤◌, ◌<◌, ◌≡◌, refl, sym, ap, ◌∙◌, Bool, true, false,
  not, ◌||◌, none, some, List, [], ◌∷◌, ◌++◌, ltb, ◌==◌, if◌then◌else◌, length, drop, arith, inl,
  inr, Bool-cases, length-append, drop-append_left,
}
use mathlib.Core.List.{append_assoc, append-nil}
use native.Mathlib.Nat.{pow-suc}
use iceberg_db.Base.Logging.{
  print_digits, number_to_string, consume_loop, consume_decimal_number, append_number_to,
}

abbrev pub is_digit : ℕ → Bool
is_digit ch = not (ltb ch b'0' || ltb b'9' ch)

-- The leading digits of a text.
unfoldable pub digit_prefix : List ℕ → List ℕ
digit_prefix [] = []
digit_prefix (ch ∷ rest) = if is_digit ch then ch ∷ digit_prefix rest else []

-- The number that digits stand for, behind those that stand for `v`.
unfoldable pub digits_value : ℕ → List ℕ → ℕ
digits_value v [] = v
digits_value v (ch ∷ rest) = digits_value (v * 10 + (ch - b'0')) rest

le-digits_value : (v : ℕ) (ds : List ℕ) → v ≤ digits_value v ds
unfolding digits_value
le-digits_value v [] = omega arith
le-digits_value v (ch ∷ rest) = omega (arith, le-digits_value (v * 10 + (ch - b'0')) rest)

consume_loop_lem :
    (v count : ℕ) (input : List ℕ)
    → v < 2 ^ 64
    → consume_loop v count input ≡ (
        if ltb (digits_value v (digit_prefix input)) (2 ^ 64)
        then some (digits_value v (digit_prefix input), count + length (digit_prefix input))
        else none)
unfolding consume_loop digit_prefix digits_value
consume_loop_lem v count [] h = ground arith
consume_loop_lem v count (ch ∷ rest) h = ground (
  arith,
  le-digits_value (v * 10 + (ch - b'0')) (digit_prefix rest),
  consume_loop_lem (v * 10 + (ch - b'0')) (count + 1) rest,
)

-- What `ConsumeDecimalNumber` does on any input. Where the number of the leading digits is below
-- 2^64, it writes that number, goes on behind the digits, and succeeds exactly if there is a digit.
-- Where it is not, it fails, writes no number and leaves the input as it was.
pub consume_decimal_number-digit_prefix :
    (input : List ℕ)
    → consume_decimal_number input ≡ (
        if ltb (digits_value 0 (digit_prefix input)) (2 ^ 64)
        then record {
          done = not (length (digit_prefix input) == 0);
          val = some (digits_value 0 (digit_prefix input));
          in_after = drop (length (digit_prefix input)) input;
        }
        else record { done = false; val = none; in_after = input })
unfolding consume_decimal_number
consume_decimal_number-digit_prefix input =
    elim (Bool-cases (ltb (digits_value 0 (digit_prefix input)) (2 ^ 64))) [
      | inl e ↦ ground (arith, e, consume_loop_lem 0 0 input)
      | inr e ↦ ground (arith, e, consume_loop_lem 0 0 input)
    ]

digits_value-append :
    (v : ℕ) (xs ys : List ℕ) → digits_value v (xs ++ ys) ≡ digits_value (digits_value v xs) ys
unfolding digits_value
digits_value-append v [] ys = refl
digits_value-append v (x ∷ xs) ys = digits_value-append (v * 10 + (x - b'0')) xs ys

one_digit : (v d : ℕ) → digits_value v ((b'0' + d) ∷ []) ≡ v * 10 + d
unfolding digits_value
one_digit v d = omega arith

digits_value-print_digits : (k n : ℕ) → n < 10 ^ k → digits_value 0 (print_digits k n) ≡ n
unfolding print_digits
digits_value-print_digits zero n h = unfold digits_value in omega arith
digits_value-print_digits (suc k) n h = elim (Bool-cases (ltb n 10)) [
  | inl e ↦ rw e (one_digit 0 n ∙ omega arith)
  | inr e ↦ rw e (
      digits_value-append 0 (print_digits k (n / 10)) ((b'0' + n % 10) ∷ [])
      ∙ one_digit (digits_value 0 (print_digits k (n / 10))) (n % 10)
      ∙ omega (arith, digits_value-print_digits k (n / 10) (omega (arith, pow-suc 10 k))))
]

last_digit :
    (d : ℕ) (rest : List ℕ)
    → d < 10
    → digit_prefix ((b'0' + d) ∷ rest) ≡ (b'0' + d) ∷ digit_prefix rest
unfolding digit_prefix
last_digit d rest h = ground arith

digit_prefix-append :
    (k n : ℕ) (rest : List ℕ)
    → digit_prefix (print_digits k n ++ rest) ≡ print_digits k n ++ digit_prefix rest
unfolding print_digits
digit_prefix-append zero n rest = refl
digit_prefix-append (suc k) n rest = elim (Bool-cases (ltb n 10)) [
  | inl e ↦ rw e (unfold digit_prefix in ground arith)
  | inr e ↦ rw e (
      ap digit_prefix (append_assoc (print_digits k (n / 10)) ((b'0' + n % 10) ∷ []) rest)
      ∙ digit_prefix-append k (n / 10) ((b'0' + n % 10) ∷ rest)
      ∙ ap (λ (t : List ℕ). print_digits k (n / 10) ++ t) (last_digit (n % 10) rest (omega arith))
      ∙ sym (append_assoc (print_digits k (n / 10)) ((b'0' + n % 10) ∷ []) (digit_prefix rest)))
]

length-print_digits : (k n : ℕ) → 0 < length (print_digits (suc k) n)
unfolding print_digits
length-print_digits k n =
    ground (arith, length-append (print_digits k (n / 10)) ((b'0' + n % 10) ∷ []))

-- `ConsumeDecimalNumber` reads back a number below 2^64 that `NumberToString` printed, and goes on
-- behind it, where what follows does not begin with a digit.
consume-number_to_string :
    (n : ℕ) (rest : List ℕ)
    → n < 2 ^ 64
    → digit_prefix rest ≡ []
    → consume_decimal_number (number_to_string n ++ rest)
      ≡ record { done = true; val = some n; in_after = rest }
unfolding number_to_string append_number_to
consume-number_to_string n rest h e =
    let text = print_digits 20 n in
    let prefix : digit_prefix (text ++ rest) ≡ text =
      digit_prefix-append 20 n rest ∙ ap (λ (t : List ℕ). text ++ t) e ∙ append-nil text in
    let value : digits_value 0 text ≡ n = digits_value-print_digits 20 n (omega arith) in
    consume_decimal_number-digit_prefix (text ++ rest)
    ∙ rw (prefix, value)
        (ground (arith, length-print_digits 19 n, drop-append_left (length text) text rest refl))
