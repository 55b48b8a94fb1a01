-- ===== src/Base/Comparator.antt =====
-- The comparators of the skiplists: the sign of what `compare_` returns, with the laws of an order.
use iceberg_db.Prelude.{◌≡◌, refl, ◌⊎◌, inl, inr}
use iceberg_db.Base.Slice.{Sign, negative, zero_sign, positive}
use iceberg_db.Base.Slice.Order.{opposite}

pub record Comparator (K : Type 0) : Type 0 where
  pub compare : K → K → Sign
  pub compare-flip : (a b : K) → compare b a ≡ opposite (compare a b)
  pub eq_of_zero : (a b : K) → compare a b ≡ zero_sign → a ≡ b
  pub lt_trans :
      (a b c : K) → compare a b ≡ negative → compare b c ≡ negative → compare a c ≡ negative

pub Sign-cases : (s : Sign) → (s ≡ negative) ⊎ ((s ≡ zero_sign) ⊎ (s ≡ positive))
Sign-cases negative = inl refl
Sign-cases zero_sign = inr (inl refl)
Sign-cases positive = inr (inr refl)
