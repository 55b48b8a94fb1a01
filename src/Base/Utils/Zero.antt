-- ===== src/Base/Utils/Zero.antt =====
-- What `is_zero` tells: a comparison of a buffer with itself, moved by some bytes.
use mathlib.Core.List.{reverse, reverse-append, append_assoc}
use iceberg_db.Prelude.{
  ℕ, zero, suc, ◌-◌, ◌<◌, ◌≡◌, refl, sym, ap, ◌∙◌, subst, Bool, true, ◌&&◌, List, [], ◌∷◌, ◌++◌,
  ltb, leb, ◌==◌, length, take, drop, replicate, arith, inl, inr, Bool-cases, length-append,
  length-take, length-drop, take-append-drop, take-append_left, drop-append_left,
}
use iceberg_db.Base.Coding.{Endian, little, big, le_value, object_value}
use iceberg_db.Base.Slice.{Sign}
use iceberg_db.Base.Slice
use iceberg_db.Base.Slice.Order.{Documented, byte_order, is_prefix, is_zero-is_prefix}
use iceberg_db.Base.Utils.{is_zero}

-- Every byte is zero.
unfoldable pub all_zero : List ℕ → Bool
all_zero [] = true
all_zero (b ∷ bs) = let others = all_zero bs in b == 0 && others

all_zero-append : (xs ys : List ℕ) → all_zero (xs ++ ys) ≡ (all_zero xs && all_zero ys)
unfolding all_zero
all_zero-append [] ys = refl
all_zero-append (x ∷ xs) ys = ground (arith, all_zero-append xs ys)

all_zero-reverse : (bs : List ℕ) → all_zero (reverse bs) ≡ all_zero bs
unfolding all_zero
all_zero-reverse [] = refl
all_zero-reverse (b ∷ bs) =
    ap all_zero (reverse-append (b ∷ []) bs)
    ∙ all_zero-append (reverse bs) (b ∷ [])
    ∙ ground (arith, all_zero-reverse bs)

le_value-all_zero : (bs : List ℕ) → (0 == le_value bs) ≡ all_zero bs
unfolding le_value all_zero
le_value-all_zero [] = refl
le_value-all_zero (b ∷ bs) = grind (arith, le_value-all_zero bs)

object_value-all_zero : (host : Endian) (bs : List ℕ) → (0 == object_value host bs) ≡ all_zero bs
unfolding object_value
object_value-all_zero little bs = le_value-all_zero bs
object_value-all_zero big bs = le_value-all_zero (reverse bs) ∙ all_zero-reverse bs

all_zero-replicate : (bs : List ℕ) → all_zero bs ≡ true → bs ≡ replicate (length bs) 0
unfolding all_zero
all_zero-replicate [] h = refl
all_zero-replicate (b ∷ bs) h =
    let zero_byte : b ≡ 0 = ground arith in
    let others : all_zero bs ≡ true = ground arith in
    rw zero_byte (ap (λ (ys : List ℕ). 0 ∷ ys) (all_zero-replicate bs others))

-- Zeros in front of zeros
replicate-cons : (k : ℕ) (xs : List ℕ) → replicate k 0 ++ (0 ∷ xs) ≡ 0 ∷ (replicate k 0 ++ xs)
replicate-cons zero xs = refl
replicate-cons (suc k) xs = ap (λ (ys : List ℕ). 0 ∷ ys) (replicate-cons k xs)

-- Bytes begin those that zeros move to the right, exactly where they are zero.
moved-is_prefix :
    (k : ℕ) (bs more : List ℕ) → is_prefix bs (replicate (suc k) 0 ++ (bs ++ more)) ≡ all_zero bs
unfolding is_prefix all_zero
moved-is_prefix k [] more = refl
moved-is_prefix k (b ∷ bs) more = elim (Bool-cases (b == 0)) [
  | inl e ↦
      let zero_byte : b ≡ 0 = ground arith in
      rw (e, zero_byte, replicate-cons k (bs ++ more)) (moved-is_prefix k bs more)
  | inr e ↦ rw e refl
]

-- The comparison of `is_zero`, where its first bytes are zero.
moved-is_zero :
    (memcmp : List ℕ → List ℕ → ℕ → Sign) (head rest more : List ℕ) (k : ℕ)
    → Documented memcmp
    → length head ≡ suc k
    → all_zero head ≡ true
    → Slice.is_zero (memcmp (head ++ (rest ++ more)) (rest ++ more) (length rest)) ≡ all_zero rest
moved-is_zero memcmp head rest more k documented size zeros =
    let buff : List ℕ = head ++ (rest ++ more) in
    let sizes = length-append head (rest ++ more) in
    let tail = length-append rest more in
    let compared =
      documented buff (rest ++ more) (length rest) (omega (arith, sizes, tail))
        (omega (arith, tail)) in
    let same = take-append_left (length rest) rest more refl in
    let heads : head ≡ replicate (suc k) 0 =
      all_zero-replicate head zeros ∙ ap (λ n. replicate n 0) size in
    ap Slice.is_zero compared
    ∙ ap (λ xs. Slice.is_zero (byte_order (take (length rest) buff) xs)) same
    ∙ is_zero-is_prefix rest buff (omega (arith, sizes, tail))
    ∙ ap (λ h. is_prefix rest (h ++ (rest ++ more))) heads
    ∙ moved-is_prefix k rest more

-- A test of the first bytes, as an integer, and the comparison.
tested :
    (host : Endian) (memcmp : List ℕ → List ℕ → ℕ → Sign) (head rest more : List ℕ) (k : ℕ)
    → Documented memcmp
    → length head ≡ suc k
    → (0 == object_value host (take (suc k) (head ++ (rest ++ more)))
        && Slice.is_zero
            (memcmp (head ++ (rest ++ more)) (drop (suc k) (head ++ (rest ++ more))) (length rest)))
      ≡ all_zero (head ++ rest)
tested host memcmp head rest more k documented size =
    rw
      (
        take-append_left (suc k) head (rest ++ more) size,
        drop-append_left (suc k) head (rest ++ more) size,
        object_value-all_zero host head,
        all_zero-append head rest,
      )
      (elim (Bool-cases (all_zero head)) [
        | inl e ↦ rw (e, moved-is_zero memcmp head rest more k documented size e) refl
        | inr e ↦ rw e refl
      ])

-- The same of bytes that are cut behind the first of them.
cut_and_tested :
    (host : Endian) (memcmp : List ℕ → List ℕ → ℕ → Sign) (bytes more : List ℕ) (k : ℕ)
    → Documented memcmp
    → k < length bytes
    → (0 == object_value host (take (suc k) (bytes ++ more))
        && Slice.is_zero
            (memcmp (bytes ++ more) (drop (suc k) (bytes ++ more)) (length bytes - suc k)))
      ≡ all_zero bytes
cut_and_tested host memcmp bytes more k documented long =
    let whole = take-append-drop (suc k) bytes in
    let buff : take (suc k) bytes ++ (drop (suc k) bytes ++ more) ≡ bytes ++ more =
      sym (append_assoc (take (suc k) bytes) (drop (suc k) bytes) more)
      ∙ ap (λ (xs : List ℕ). xs ++ more) whole in
    let result =
      tested host memcmp (take (suc k) bytes) (drop (suc k) bytes) more k documented
        (omega (arith, length-take (suc k) bytes)) in
    subst
      (λ n.
        (0 == object_value host (take (suc k) (bytes ++ more))
          && Slice.is_zero (memcmp (bytes ++ more) (drop (suc k) (bytes ++ more)) n))
        ≡ all_zero bytes)
      (length-drop (suc k) bytes)
      (subst
        (λ xs.
          (0 == object_value host (take (suc k) xs)
            && Slice.is_zero (memcmp xs (drop (suc k) xs) (length (drop (suc k) bytes))))
          ≡ all_zero bytes)
        buff (result ∙ ap all_zero whole))

-- With a `memcmp` as documented, on a host of either byte order, `is_zero` of a buffer that holds at
-- least as many bytes tells whether there are any and all of them are zero.
pub is_zero-all_zero :
    (host : Endian) (memcmp : List ℕ → List ℕ → ℕ → Sign) (bytes more : List ℕ)
    → Documented memcmp
    → is_zero host memcmp (bytes ++ more) (length bytes) ≡ (ltb 0 (length bytes) && all_zero bytes)
unfolding is_zero
is_zero-all_zero host memcmp bytes more documented = elim (Bool-cases (leb 8 (length bytes))) [
  | inl e ↦
      let some_bytes : ltb 0 (length bytes) ≡ true = ground arith in
      rw (e, some_bytes) (cut_and_tested host memcmp bytes more 7 documented (ground arith))
  | inr e ↦ elim (Bool-cases (ltb 0 (length bytes))) [
    | inl e' ↦ rw (e, e') (cut_and_tested host memcmp bytes more 0 documented (ground arith))
    | inr e' ↦ rw (e, e') refl
  ]
]
