-- ===== src/Base/Utils/Hash.antt =====
-- The hash of a string, as a polynomial.
use iceberg_db.Prelude.{
  ℕ, ◌+◌, ◌-◌, ◌*◌, ◌/◌, ◌%◌, ◌^◌, ◌<◌, ◌≡◌, sym, ap, ◌∙◌, List, [], ◌∷◌, ltb, if◌then◌else◌,
  length, arith,
}
use native.Mathlib.Nat.{pow-suc, div-add-mod, add-mul-mod_self_left}
use iceberg_db.Base.Utils.{hash_step, hash_from, java_hash}

-- A `char` as a `uint32_t`
abbrev pub sign_extended : ℕ → ℕ
sign_extended c = if ltb c 128 then c else c + 2 ^ 32 - 256

-- The chars as the digits of a number in base 31, the first one highest.
unfoldable pub base31 : List ℕ → ℕ
base31 [] = 0
base31 (c ∷ key) = sign_extended c * 31 ^ length key + base31 key

mod_times : (a m p q : ℕ) → (a % m * p + q) % m ≡ (a * p + q) % m
mod_times a m p q =
    let parts : a % m * p + q + m * (a / m * p) ≡ a * p + q =
      omega (arith, ap (λ n. n * p) (div-add-mod a m)) in
    sym (add-mul-mod_self_left (a % m * p + q) m (a / m * p)) ∙ ap (λ n. n % m) parts

hash_from-base31 :
    (h : ℕ) (key : List ℕ)
    → h < 2 ^ 32
    → hash_from h key ≡ (h * 31 ^ length key + base31 key) % 2 ^ 32
unfolding hash_from base31 hash_step
hash_from-base31 h [] small = omega arith
hash_from-base31 h (c ∷ key) small =
    hash_from-base31 (hash_step h c) key (omega arith)
    ∙ mod_times (31 * h + sign_extended c) (2 ^ 32) (31 ^ length key) (base31 key)
    ∙ ap (λ n. n % 2 ^ 32) (omega (arith, ap (λ n. h * n) (pow-suc 31 (length key))))

-- `javaHash` of a string is the number that its chars spell in base 31, modulo 2^32.
java_hash-base31 : (key : List ℕ) → java_hash key ≡ base31 key % 2 ^ 32
unfolding java_hash
java_hash-base31 key = hash_from-base31 0 key (omega arith) ∙ ap (λ n. n % 2 ^ 32) (omega arith)
