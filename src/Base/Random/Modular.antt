-- ===== src/Base/Random/Modular.antt =====
-- `Next` as a multiplication modulo 2^31 - 1.
use iceberg_db.Prelude.{ℕ, zero, suc, ◌+◌, ◌*◌, ◌%◌, ◌^◌, ◌<◌, ◌≡◌, ap, arith}
use native.Mathlib.Nat.{pow-suc, one-le-pow, pow-le-pow_right, le_trans}
use iceberg_db.Prelude.Bits.{bit_and_mask}
use iceberg_db.Base.Random.{Random, modulus, multiplier, new, next, uniform, skewed}

pub record IsSeed (s : ℕ) : Type 0 where
  pub pos : 0 < s
  pub below : s < modulus

-- The multiplier is invertible: 16807 * 1407677000 ≡ 1, so no multiple of it is 0.
product_mod_pos : (s : ℕ) → IsSeed s → 0 < s * multiplier % modulus
product_mod_pos s h = omega arith

next_lem : (r : Random) → IsSeed r.seed → (next r).seed ≡ r.seed * multiplier % modulus
unfolding next
next_lem r h = ground (arith, bit_and_mask 31 (r.seed * multiplier), product_mod_pos r.seed h)

new-IsSeed : (s : ℕ) → IsSeed (new s).seed
unfolding new
new-IsSeed s = ground (arith, bit_and_mask 31 s)

next-IsSeed : (r : Random) → IsSeed r.seed → IsSeed (next r).seed
next-IsSeed r h = record {
  pos = omega (arith, next_lem r h, product_mod_pos r.seed h);
  below = omega (arith, next_lem r h);
}

-- `k` calls of `Next`.
pub next_times : ℕ → Random → Random
next_times zero r = r
next_times (suc k) r = next (next_times k r)

next_times-IsSeed : (k s : ℕ) → IsSeed (next_times k (new s)).seed
unfolding next_times
next_times-IsSeed zero s = new-IsSeed s
next_times-IsSeed (suc k) s = next-IsSeed (next_times k (new s)) (next_times-IsSeed k s)

next_times_seed : (k s : ℕ) → (next_times k (new s)).seed ≡ (new s).seed * multiplier ^ k % modulus
unfolding next_times
next_times_seed zero s = omega (arith, new-IsSeed s)
next_times_seed (suc k) s = omega (
  arith,
  next_lem (next_times k (new s)) (next_times-IsSeed k s),
  next_times_seed k s,
  ap (λ (t : ℕ). (new s).seed * t) (pow-suc multiplier k),
)

-- After `k` calls the seed is the first one times the `k`-th power of the multiplier, modulo
-- 2^31 - 1, and it is neither 0 nor 2^31 - 1, whatever number the generator was made from.
pub next_times-power :
    (k s : ℕ)
    → ((next_times k (new s)).seed ≡ (new s).seed * multiplier ^ k % modulus)
      × IsSeed (next_times k (new s)).seed
next_times-power k s = (next_times_seed k s, next_times-IsSeed k s)

uniform-lt : (r : Random) (n : ℕ) → 0 < n → (uniform r n).1 < n
unfolding uniform
uniform-lt r n h = omega arith

-- `Skewed(max_log)` is below 2^max_log, for `max_log` below 31.
skewed-lt : (r : Random) (max_log : ℕ) → max_log < 31 → (skewed r max_log).1 < 2 ^ max_log
unfolding skewed
skewed-lt r max_log small =
    let (r', log) = uniform r (max_log + 1) in
    let below : log < max_log + 1 = uniform-lt r (max_log + 1) (omega arith) in
    le_trans (uniform-lt r' (2 ^ log) (one-le-pow log 2 (omega arith)))
      (pow-le-pow_right {n = 2} (omega arith) (omega arith))
