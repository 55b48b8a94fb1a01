-- ===== src/Storage/Segment/Comparators.antt =====
-- The comparators of the skiplists of a segment.
use iceberg_db.Prelude.{
  ℕ, ◌≡◌, refl, sym, ◌∙◌, List, [], ◌∷◌, ltb, ◌==◌, if◌then◌else◌, length, take_all, arith,
}
use iceberg_db.Base.Slice.{Sign, negative, zero_sign, positive, of_string, to_string, compare}
use iceberg_db.Base.Slice.Order.{
  opposite, byte_order, byte_order-flip, Documented, compare-byte_order, compare-flip,
}
use iceberg_db.Base.Comparator.{Comparator}

pub byte_order-eq : (xs ys : List ℕ) → byte_order xs ys ≡ zero_sign → xs ≡ ys
unfolding byte_order
byte_order-eq [] [] h = refl
byte_order-eq [] (y ∷ ys) h = cc
byte_order-eq (x ∷ xs) [] h = cc
byte_order-eq (x ∷ xs) (y ∷ ys) h =
    let same : (x ≡ y) × (byte_order xs ys ≡ zero_sign) = (ground arith, ground arith) in
    let others = byte_order-eq xs ys same.1 in let first = same.0 in cc

pub byte_order_trans :
    (xs ys zs : List ℕ)
    → byte_order xs ys ≡ negative
    → byte_order ys zs ≡ negative
    → byte_order xs zs ≡ negative
unfolding byte_order
byte_order_trans [] [] zs h k = cc
byte_order_trans [] (y ∷ ys) [] h k = cc
byte_order_trans [] (y ∷ ys) (z ∷ zs) h k = refl
byte_order_trans (x ∷ xs) [] zs h k = cc
byte_order_trans (x ∷ xs) (y ∷ ys) [] h k = cc
byte_order_trans (x ∷ xs) (y ∷ ys) (z ∷ zs) h k = ground (arith, byte_order_trans xs ys zs)

-- `TimeStampComparator`
unfoldable pub compare_times : ℕ → ℕ → Sign
compare_times a b = if a == b then zero_sign else if ltb b a then positive else negative

pub times-flip : (a b : ℕ) → compare_times b a ≡ opposite (compare_times a b)
unfolding compare_times opposite
times-flip a b = ground arith

pub times-eq : (a b : ℕ) → compare_times a b ≡ zero_sign → a ≡ b
unfolding compare_times
times-eq a b h = ground arith

pub times_trans :
    (a b c : ℕ)
    → compare_times a b ≡ negative
    → compare_times b c ≡ negative
    → compare_times a c ≡ negative
unfolding compare_times
times_trans a b c h k = ground arith

abbrev pub time_stamp_comparator : Comparator ℕ
time_stamp_comparator = record {
  compare = compare_times;
  compare-flip = times-flip;
  eq_of_zero = times-eq;
  lt_trans = times_trans;
}

-- `std::less<std::string>`, on the bytes of two strings
abbrev pub string_order : Comparator (List ℕ)
string_order = record {
  compare = byte_order;
  compare-flip = byte_order-flip;
  eq_of_zero = byte_order-eq;
  lt_trans = byte_order_trans;
}

module _ (memcmp : List ℕ → List ℕ → ℕ → Sign) (documented : Documented memcmp) where
  -- `SliceComparator`, on the bytes of two slices
  unfoldable pub compare_slices : List ℕ → List ℕ → Sign
  compare_slices a b = compare memcmp (of_string a) (of_string b)

  pub slices-byte_order : (a b : List ℕ) → compare_slices a b ≡ byte_order a b
  unfolding compare_slices of_string to_string
  slices-byte_order a b =
      compare-byte_order memcmp documented (of_string a) (of_string b) (omega arith) (omega arith)
      ∙ rw (take_all (length a) a (omega arith), take_all (length b) b (omega arith)) refl

  pub slices-flip : (a b : List ℕ) → compare_slices b a ≡ opposite (compare_slices a b)
  unfolding compare_slices of_string
  slices-flip a b =
      compare-flip memcmp documented (of_string a) (of_string b) (omega arith) (omega arith)

  abbrev pub slice_comparator : Comparator (List ℕ)
  slice_comparator = record {
    compare = compare_slices;
    compare-flip = slices-flip;
    eq_of_zero = λ a b h. byte_order-eq a b (sym (slices-byte_order a b) ∙ h);
    lt_trans = λ a b c h k.
        slices-byte_order a c
        ∙ byte_order_trans a b c (sym (slices-byte_order a b) ∙ h)
            (sym (slices-byte_order b c) ∙ k);
  }
