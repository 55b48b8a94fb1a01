-- ===== src/Base/Random.antt =====
-- ibdb/src/base/random.h: a linear congruential generator modulo 2^31 - 1.
pub mod Modular
use Prim.Native.Nat.{bit_and}
use iceberg_db.Prelude.{ℕ, ◌+◌, ◌-◌, ◌*◌, ◌/◌, ◌%◌, ◌^◌, Bool, ◌||◌, ltb, ◌==◌, if◌then◌else◌}

abbrev pub modulus : ℕ
modulus = 2147483647

abbrev pub multiplier : ℕ
multiplier = 16807

pub record Random : Type 0 where
  pub seed : ℕ

-- `explicit Random(uint32_t s)`
unfoldable pub new : ℕ → Random
new s =
    let seed = bit_and s 0x7fff_ffff in
    record { seed = if seed == 0 || seed == 2147483647 then 1 else seed }

-- `uint32_t Next()`: the new state, whose seed is also the result.
unfoldable pub next : Random → Random
next r =
    let product = r.seed * multiplier % 2 ^ 64 in
    let seed = (product / 2 ^ 31 + bit_and product modulus) % 2 ^ 64 % 2 ^ 32 in
    record { seed = if ltb modulus seed then seed - modulus else seed }

-- `uint32_t Uniform(int n)`, for a positive `n`
unfoldable pub uniform : Random → ℕ → Random × ℕ
uniform r n = let r' = next r in (r', r'.seed % n)

-- `bool OneIn(int n)`
unfoldable pub one_in : Random → ℕ → Random × Bool
one_in r n = let r' = next r in (r', r'.seed % n == 0)

-- `uint32_t Skewed(int max_log)`, for `max_log` below 31
unfoldable pub skewed : Random → ℕ → Random × ℕ
skewed r max_log = let (r', log) = uniform r (max_log + 1) in uniform r' (2 ^ log)
