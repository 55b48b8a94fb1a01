-- ===== src/Base/Slice/Order.antt =====
-- Slices as byte strings, and the order of byte strings.
use iceberg_db.Prelude.{
  ℕ, zero, suc, ◌%◌, ◌^◌, ◌≤◌, ◌<◌, ◌≡◌, refl, sym, ap, ◌∙◌, Bool, true, false, ◌&&◌, List, [], ◌∷◌,
  ltb, leb, ◌==◌, if◌then◌else◌, length, length-take, take, arith, inl, inr, Bool-cases,
}
use iceberg_db.Base.Slice.{
  Slice, IsSlice, of_buffer, of_string, int_size, Sign, negative, zero_sign, positive, is_zero,
  to_string, starts_with, equal, compare,
}

unfoldable pub byte_order : List ℕ → List ℕ → Sign
byte_order [] [] = zero_sign
byte_order [] (y ∷ ys) = negative
byte_order (x ∷ xs) [] = positive
byte_order (x ∷ xs) (y ∷ ys) =
    let others = byte_order xs ys in
    if ltb x y then negative else if ltb y x then positive else others

unfoldable pub is_prefix : List ℕ → List ℕ → Bool
is_prefix [] ys = true
is_prefix (x ∷ xs) [] = false
is_prefix (x ∷ xs) (y ∷ ys) = let others = is_prefix xs ys in x == y && others

unfoldable pub opposite : Sign → Sign
opposite negative = positive
opposite zero_sign = zero_sign
opposite positive = negative

pub byte_order-flip : (xs ys : List ℕ) → byte_order ys xs ≡ opposite (byte_order xs ys)
unfolding byte_order opposite
byte_order-flip [] [] = refl
byte_order-flip [] (y ∷ ys) = refl
byte_order-flip (x ∷ xs) [] = refl
byte_order-flip (x ∷ xs) (y ∷ ys) = ground (arith, byte_order-flip xs ys)

-- `memcmp` orders the first `n` bytes of two buffers that have as many.
abbrev pub Documented : (List ℕ → List ℕ → ℕ → Sign) → Type 0
Documented memcmp =
    (xs ys : List ℕ) (n : ℕ)
    → n ≤ length xs
    → n ≤ length ys
    → memcmp xs ys n ≡ byte_order (take n xs) (take n ys)

-- A string that is shorter, from the order of as many bytes.
shorter_first :
    (xs ys : List ℕ)
    → length xs < length ys
    → byte_order xs ys ≡ (
        if is_zero (byte_order xs (take (length xs) ys))
        then negative
        else byte_order xs (take (length xs) ys))
unfolding byte_order is_zero
shorter_first [] [] h = absurd (omega arith)
shorter_first [] (y ∷ ys) h = refl
shorter_first (x ∷ xs) [] h = absurd (omega arith)
shorter_first (x ∷ xs) (y ∷ ys) h = elim (Bool-cases (ltb x y)) [
  | inl e ↦ rw e
  | inr e ↦ elim (Bool-cases (ltb y x)) [
    | inl e' ↦ rw (e, e')
    | inr e' ↦ rw (e, e') (shorter_first xs ys (omega arith))
  ]
]

same_either_way : (s : Sign) → (if is_zero s then s else s) ≡ s
unfolding is_zero
same_either_way negative = refl
same_either_way zero_sign = refl
same_either_way positive = refl

longer_last :
    (s : Sign)
    → (if is_zero (opposite s) then positive else opposite s)
      ≡ opposite (if is_zero s then negative else s)
unfolding is_zero opposite
longer_last negative = refl
longer_last zero_sign = refl
longer_last positive = refl

pub is_zero-is_prefix :
    (xs ys : List ℕ)
    → length xs ≤ length ys
    → is_zero (byte_order (take (length xs) ys) xs) ≡ is_prefix xs ys
unfolding byte_order is_zero is_prefix
is_zero-is_prefix [] ys h = refl
is_zero-is_prefix (x ∷ xs) [] h = absurd (omega arith)
is_zero-is_prefix (x ∷ xs) (y ∷ ys) h =
    let others = is_zero-is_prefix xs ys (omega arith) in
    elim (Bool-cases (ltb y x)) [
      | inl e ↦ rw e (ground (arith, e))
      | inr e ↦ elim (Bool-cases (ltb x y)) [
        | inl e' ↦ rw (e, e') (ground (arith, e'))
        | inr e' ↦ let same : (x == y) ≡ true = ground arith in rw (e, e', same) others
      ]
    ]

too_long-is_prefix : (xs ys : List ℕ) → length ys < length xs → is_prefix xs ys ≡ false
unfolding is_prefix
too_long-is_prefix [] ys h = absurd (omega arith)
too_long-is_prefix (x ∷ xs) [] h = refl
too_long-is_prefix (x ∷ xs) (y ∷ ys) h = ground (arith, too_long-is_prefix xs ys (omega arith))

take-take : (m n : ℕ) (xs : List ℕ) → m ≤ n → take m (take n xs) ≡ take m xs
take-take zero n xs h = refl
take-take (suc m) zero xs h = absurd (omega arith)
take-take (suc m) (suc n) [] h = refl
take-take (suc m) (suc n) (x ∷ xs) h = ap (λ (ys : List ℕ). x ∷ ys) (take-take m n xs (omega arith))

module _ (memcmp : List ℕ → List ℕ → ℕ → Sign) (documented : Documented memcmp) where
  -- With a `memcmp` as documented, `compare` orders two slices that lie in memory as the byte strings
  -- they stand for: by the first byte that differs, and where there is none, the shorter one first.
  pub compare-byte_order :
      (a b : Slice)
      → IsSlice a
      → IsSlice b
      → compare memcmp a b ≡ byte_order (to_string a) (to_string b)
  unfolding compare to_string
  compare-byte_order a b h k =
      let la : length (take a.size a.data_) ≡ a.size = omega (arith, length-take a.size a.data_) in
      let lb : length (take b.size b.data_) ≡ b.size = omega (arith, length-take b.size b.data_) in
      elim (Bool-cases (ltb a.size b.size)) [
        | inl less ↦
            let not_greater : ltb b.size a.size ≡ false = ground arith in
            let order =
              rw (la, take-take a.size b.size b.data_ (ground arith)) at
                (shorter_first (take a.size a.data_) (take b.size b.data_)
                  (ground (arith, la, lb))) in
            rw (less, not_greater, documented a.data_ b.data_ a.size h (ground arith)) (sym order)
        | inr not_less ↦ elim (Bool-cases (ltb b.size a.size)) [
          | inl greater ↦
              let front = take b.size a.data_ in
              let order =
                rw (lb, take-take b.size a.size a.data_ (ground arith)) at
                  (shorter_first (take b.size b.data_) (take a.size a.data_)
                    (ground (arith, la, lb))) in
              rw
                (
                  not_less,
                  greater,
                  documented a.data_ b.data_ b.size (ground arith) k,
                  byte_order-flip (take b.size b.data_) front,
                  byte_order-flip (take b.size b.data_) (take a.size a.data_),
                  order,
                )
                (longer_last (byte_order (take b.size b.data_) front))
          | inr not_greater ↦
              let same : a.size ≡ b.size = ground arith in
              rw (not_less, not_greater, documented a.data_ b.data_ b.size (ground arith) k)
                (same_either_way (byte_order (take b.size a.data_) (take b.size b.data_))
                  ∙ ap (λ (n : ℕ). byte_order (take n a.data_) (take b.size b.data_)) (sym same))
        ]
      ]

  -- With a `memcmp` as documented, `compare` of two slices that lie in memory the other way around
  -- has the opposite sign.
  pub compare-flip :
      (a b : Slice) → IsSlice a → IsSlice b → compare memcmp b a ≡ opposite (compare memcmp a b)
  compare-flip a b h k =
      rw (compare-byte_order a b h k, compare-byte_order b a k h)
        (byte_order-flip (to_string a) (to_string b))

  -- With a `memcmp` as documented, `operator==` of two slices that lie in memory holds exactly where
  -- `compare` gives zero.
  equal-compare :
      (a b : Slice) → IsSlice a → IsSlice b → equal memcmp a b ≡ is_zero (compare memcmp a b)
  unfolding equal compare is_zero
  equal-compare a b h k = ground arith

  -- With a `memcmp` as documented, `starts_with` of two slices that lie in memory tells whether the
  -- bytes of the second one are a prefix of those of the first.
  starts_with-is_prefix :
      (s x : Slice)
      → IsSlice s
      → IsSlice x
      → starts_with memcmp s x ≡ is_prefix (to_string x) (to_string s)
  unfolding starts_with to_string
  starts_with-is_prefix s x h k =
      let ls : length (take s.size s.data_) ≡ s.size = omega (arith, length-take s.size s.data_) in
      let lx : length (take x.size x.data_) ≡ x.size = omega (arith, length-take x.size x.data_) in
      elim (Bool-cases (leb x.size s.size)) [
        | inl room ↦
            rw (room, documented s.data_ x.data_ x.size (ground arith) k)
              (rw (lx, take-take x.size s.size s.data_ (ground arith)) at
                (is_zero-is_prefix (take x.size x.data_) (take s.size s.data_)
                  (ground (arith, lx, ls))))
        | inr long ↦ rw long (
            sym (
              too_long-is_prefix (take x.size x.data_) (take s.size s.data_)
                (ground (arith, lx, ls))))
      ]

-- A buffer whose length fits an `int` is the string of its bytes.
pub of_buffer-of_string :
    (bytes : List ℕ) → length bytes < 2 ^ 31 → of_buffer bytes (length bytes) ≡ of_string bytes
unfolding of_buffer of_string int_size
of_buffer-of_string bytes small =
    let same : (length bytes) % 2 ^ 32 ≡ length bytes = omega (arith, small) in
    let low : ltb (length bytes) (2 ^ 31) ≡ true = ground (arith, small) in rw (same, low) refl
